-- ===== src/Investigation.antt =====
-- intelligence/investigation: the target, the classification of a message, and the run of an investigation.
pub mod Target
pub mod Classify
pub mod Observe
pub mod Service
pub mod Tally
pub mod Outcome
pub mod Finished
mod Tests
