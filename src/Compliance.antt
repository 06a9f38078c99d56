-- ===== src/Compliance.antt =====
-- src/subscription_manager/cert_sorter.py: which installed products have a subscription.
pub mod Certificates
pub mod Groups
pub mod Known
pub mod Manager
pub mod Reasons
pub mod Scan
pub mod Status
mod Tests
