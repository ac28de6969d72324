-- ===== src/Schedule.antt =====
-- workers/scheduler.py: the periodic scheduling of the watchlist polls.
pub mod Ticks
pub mod Once
mod Tests
