-- ===== src/Indicators.antt =====
-- intelligence/ioc/extract.py: the indicators in a public text.
pub mod Matches
pub mod Extract
pub mod Distinct
pub mod Unique
mod Tests
