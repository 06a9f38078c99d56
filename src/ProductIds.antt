-- ===== src/ProductIds.antt =====
-- src/subscription_manager/productid.py: which product certificates are installed and removed.
pub mod Versions
pub mod Database
pub mod Manager
mod Tests
