-- ===== src/Connection.antt =====
-- The connection to the server, src/rhsm/connection.py.
pub mod Exceptions
pub mod Responses
pub mod KeepAlive
pub mod Requests
mod Tests
