-- ===== src/Jobs.antt =====
-- Background jobs: database/models/job.py, database/repositories/jobs.py, workers/queue.py,
-- workers/runner.py, workers/registry.py, workers/scheduler.py, apps/bot/jobs.py.
pub mod State
pub mod Repository
pub mod Queue
pub mod Runner
pub mod Machine
pub mod Valid
pub mod Delivery
pub mod Reached
pub mod Worker
pub mod Attempts
pub mod Failing
pub mod Retries
mod Tests
