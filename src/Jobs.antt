-- ===== src/Jobs.antt =====
-- src/jobs: the job queue on Redis.
pub mod Model
pub mod Queue
pub mod Sweep
pub mod Listing
pub mod Worker
pub mod Durable
pub mod Effects
mod Tests
