-- ===== src/Bot/Principal.antt =====
-- apps/bot/auth.py: who a Telegram user is to the bot.
use telegram_osint.Base.{
  ℕ, Bool, true, false, not, Option, none, some, List, any, ◌==◌, if◌then◌else◌, Result, ok, err,
}

-- `Role` of database/types.py
pub data Role : Type 0 where
  user analyst admin : Role

-- the settings that the bot reads
pub record Settings : Type 0 where
  pub admin_ids : List ℕ
  pub allowed_ids : List ℕ
  pub public_bot_enabled : Bool
  pub rate_limit_enabled : Bool
  pub rate_limit_bot_per_minute : ℕ
  pub free_osint_actions : ℕ
  pub referral_unlock_count : ℕ

pub record Principal : Type 0 where
  pub telegram_id : ℕ
  pub role : Role

-- `Principal.is_admin`
abbrev pub is_admin : Role → Bool
is_admin admin = true
is_admin _ = false

-- `Principal.is_public`
abbrev pub is_public : Role → Bool
is_public user = true
is_public _ = false

-- `AccessDenied`, by its reason
pub data AccessDenied : Type 0 where
  missing_id : AccessDenied
  not_listed : ℕ → AccessDenied
  admin_required : ℕ → AccessDenied

-- `x in set(ids)`
abbrev pub listed : ℕ → List ℕ → Bool
listed x ids = any (λ j. j == x) ids

-- `resolve_principal`
unfoldable pub resolve_principal : Settings → Option ℕ → Result AccessDenied Principal
resolve_principal s none = err missing_id
resolve_principal s (some id) =
    if listed id s.admin_ids
    then ok (record { telegram_id = id; role = admin })
    else if listed id s.allowed_ids
    then ok (record { telegram_id = id; role = analyst })
    else if s.public_bot_enabled
    then ok (record { telegram_id = id; role = user })
    else err (not_listed id)

-- `require_admin`
unfoldable pub require_admin : Principal → Result AccessDenied Principal
require_admin p = if not (is_admin p.role) then err (admin_required p.telegram_id) else ok p
