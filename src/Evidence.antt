-- ===== src/Evidence.antt =====
-- database/models/evidence.py and database/repositories/evidence.py: evidence is written once.
pub mod Observations
pub mod Guard
pub mod Recorded
pub mod Writes
pub mod Immutable
mod Tests
