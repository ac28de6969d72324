-- ===== src/Bot.antt =====
-- The Telegram bot's door: apps/bot/auth.py, apps/bot/quota.py, apps/bot/guard.py and the users of
-- database/repositories/users.py that they rest on.
pub mod Principal
pub mod Users
pub mod Quota
pub mod Lookups
pub mod Charge
pub mod Bound
pub mod Start
pub mod Guard
pub mod Admission
pub mod Kept
pub mod Spending
pub mod Metering
pub mod Referral
mod Tests
