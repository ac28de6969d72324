-- ===== src/Bot/Start.antt =====
-- apps/bot/handlers/common.py and the other handlers, as far as they write the table of users: `/start`
-- with its referral, and the calls of `get_or_create_for_telegram` for the sender.
use telegram_osint.Base.{
  ℕ, Bool, true, false, not, Option, none, some, List, [], ◌∷◌, map, if◌then◌else◌, Result, ok, err,
}
use telegram_osint.Bot.Principal.{Role, user, is_public, Principal}
use telegram_osint.Bot.Users.{
  User, QueryError, is_id, get_by_telegram_id, get_or_create_for_telegram, record_referral,
}

-- the write of `record_referral` to the row of a user
unfoldable pub refer : ℕ → ℕ → List User → List User
refer inviter id users =
    map (λ u. if is_id id u.telegram_user_id then (record_referral inviter u).0 else u) users

-- the `created` of `get_or_create_for_telegram`
unfoldable pub is_created : ℕ → List User → Bool
is_created id users = elim (get_by_telegram_id id users) [
  | ok none ↦ true
  | ok (some u) ↦ false
  | err e ↦ false
]

abbrev pub refer_given : Option ℕ → ℕ → List User → List User
refer_given none id users = users
refer_given (some inviter) id users = refer inviter id users

-- what `start` does to the users, with the id of the referral link if there is one
unfoldable pub start : Option ℕ → Principal → List User → Result QueryError (List User)
start referrer p users =
    if not (is_public p.role)
    then ok users
    else elim (get_or_create_for_telegram p.telegram_id user users) [
      | err e ↦ err e
      | ok (row, table) ↦ ok (
          if is_created p.telegram_id users
          then refer_given referrer p.telegram_id table
          else table)
    ]

-- a session of a handler that writes the users
pub data UserWrite : Type 0 where
  starts : Option ℕ → UserWrite
  resolves : Role → UserWrite

unfoldable pub write_users : UserWrite → Principal → List User → Result QueryError (List User)
unfolding start get_or_create_for_telegram
write_users (starts referrer) p users = start referrer p users
write_users (resolves role) p users = elim (get_or_create_for_telegram p.telegram_id role users) [
  | err e ↦ err e
  | ok (row, table) ↦ ok table
]

-- the sessions of a handler, one after the other: the table, and whether one of them raised
unfoldable pub run_writes : List UserWrite → Principal → List User → List User × Bool
unfolding write_users
run_writes [] p users = (users, false)
run_writes (w ∷ ws) p users = elim (write_users w p users) [
  | err e ↦ (users, true)
  | ok table ↦ run_writes ws p table
]
