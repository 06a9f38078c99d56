-- ===== src/Syspurpose.antt =====
-- src/syspurpose/files.py: the system purpose values, their store and their synchronisation.
pub mod Value
pub mod Merge
pub mod Store
pub mod Files
pub mod Synced
pub mod Sync
pub mod Fields
mod Tests
