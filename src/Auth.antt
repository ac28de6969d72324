-- ===== src/Auth.antt =====
-- Authentication of the dashboard: database/repositories/refresh_tokens.py with its model, and the access
-- tokens of security/auth.py.
pub mod Refresh
pub mod Rotation
pub mod Access
pub mod Decode
mod Tests
