-- ===== src/Timeline.antt =====
-- intelligence/timeline/builder.py: the events of an entity or a target in the order of time.
pub mod Events
pub mod Shown
mod Tests
