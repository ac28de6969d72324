-- ===== src/Entities.antt =====
-- database/repositories/entities.py: the rows of the Telegram entities.
pub mod Telegram
pub mod Found
pub mod Created
pub mod Written
pub mod Again
mod Tests
