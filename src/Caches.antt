-- ===== src/Caches.antt =====
-- src/subscription_manager/cache.py: what the server was told last, and what it said last.
pub mod File
pub mod Status
pub mod Consumer
pub mod Products
pub mod Profile
mod Tests
