-- ===== src/Repos.antt =====
-- src/subscription_manager/repofile.py, src/subscription_manager/repolib.py and
-- src/subscription_manager/model: the repository file that is generated from entitlement certificates.
pub mod Repo
pub mod Update
pub mod Content
pub mod YumFile
pub mod Perform
mod Tests
