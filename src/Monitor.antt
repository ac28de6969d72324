-- ===== src/Monitor.antt =====
-- intelligence/monitoring.py: polling of the watchlist.
pub mod Poll
pub mod Platforms
pub mod Notified
mod Tests
