-- ===== src/FeatureFlags.antt =====
-- Feature flags (src/modules/feature-flags): the catalogue's flags, the policies of the
-- environments, and the rules of the tenants with their history.
pub mod Domain
pub mod Rollout
pub mod Store
pub mod Writes
pub mod Evaluation
pub mod Targets
pub mod Histories
pub mod Reach
pub mod Versions
pub mod Restore
mod Tests
