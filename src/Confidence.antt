-- ===== src/Confidence.antt =====
-- intelligence/confidence/engine.py: how likely two accounts belong together.
pub mod Engine
pub mod Kinds
pub mod Score
pub mod Weights
mod Tests
