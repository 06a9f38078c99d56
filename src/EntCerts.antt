-- ===== src/EntCerts.antt =====
-- src/subscription_manager/entcertlib.py: the entitlement certificates on the disk follow the server.
pub mod Access
pub mod Directory
pub mod Exchange
pub mod Files
pub mod Hook
pub mod Listing
pub mod Local
pub mod Moves
pub mod Perform
pub mod Update
mod Tests
