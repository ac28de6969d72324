-- ===== src/Collect.antt =====
-- The collectors' common parts: collectors/common/http.py, collectors/common/interfaces.py and
-- collectors/common/registry.py.
pub mod Http
pub mod Guarded
pub mod Collector
pub mod Collected
mod Tests
