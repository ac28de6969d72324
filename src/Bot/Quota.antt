-- ===== src/Bot/Quota.antt =====
-- apps/bot/quota.py, and the bound that it puts on a public user.
use telegram_osint.Base.{ℕ, ◌+◌, Bool, true, false, List, leb, ltb, if◌then◌else◌, Result, ok, err}
use telegram_osint.Bot.Principal.{user, Settings}
use telegram_osint.Bot.Users.{
  User, QueryError, get_or_create_for_telegram, count_referrals, consume_free_action,
}

-- `QuotaStatus`
pub record QuotaStatus : Type 0 where
  pub allowed : Bool
  pub used : ℕ
  pub limit : ℕ
  pub referrals : ℕ
  pub required_referrals : ℕ

-- `QuotaStatus.unlocked_by_referral`
abbrev pub unlocked_by_referral : QuotaStatus → Bool
unlocked_by_referral q = leb q.required_referrals q.referrals

abbrev pub status : Settings → ℕ → Bool → ℕ → QuotaStatus
status s referrals allowed used = record {
  allowed = allowed;
  used = used;
  limit = s.free_osint_actions;
  referrals = referrals;
  required_referrals = s.referral_unlock_count;
}

-- `check_and_consume`, once the row is there
unfoldable pub charge : Settings → ℕ → User → List User → QuotaStatus × List User
charge s id u users =
    let referrals = count_referrals id users in
    if leb s.referral_unlock_count referrals
    then (status s referrals true u.free_actions_used, users)
    else if ltb u.free_actions_used s.free_osint_actions
    then (status s referrals true (u.free_actions_used + 1), consume_free_action id users)
    else (status s referrals false u.free_actions_used, users)

-- `check_and_consume`
unfoldable pub check_and_consume :
    Settings → ℕ → List User → Result QueryError (QuotaStatus × List User)
check_and_consume s id users = elim (get_or_create_for_telegram id user users) [
  | err e ↦ err e
  | ok (u, users') ↦ ok (charge s id u users')
]
