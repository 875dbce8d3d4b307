-- ===== src/Jobs.antt =====
-- Durable jobs (src/modules/jobs, src/infrastructure/jobs).
pub mod Row
pub mod Repository
pub mod Types
pub mod Backoff
pub mod Registry
pub mod Worker
mod Tests
