-- ===== src/Configuration.antt =====
-- Configuration (src/modules/configuration): keys, scopes and the values of definitions.
pub mod Domain
pub mod Values
pub mod Laws
pub mod Store
pub mod Statements
pub mod Repository
pub mod Histories
pub mod Reach
pub mod Resolution
mod Tests
