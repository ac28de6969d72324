-- ===== src/Bot/Users.antt =====
-- database/repositories/users.py, as far as the bot uses it. The table is the list of its rows; no
-- primary key is read. `scalar_one_or_none` raises where two rows match.
use telegram_osint.Base.{
  ℕ, ◌+◌, Bool, true, false, Option, none, some, List, [], ◌∷◌, ◌++◌, map, keep, length, ◌==◌,
  is_some, if◌then◌else◌, Result, ok, err,
}
use telegram_osint.Bot.Principal.{Role}

-- `User`, the columns of the public tier
pub record User : Type 0 where
  pub telegram_user_id : Option ℕ
  pub role : Role
  pub free_actions_used : ℕ
  pub invited_by_telegram_id : Option ℕ

-- `sqlalchemy.exc.MultipleResultsFound`
pub data QueryError : Type 0 where
  multiple_results : QueryError

abbrev pub is_id : ℕ → Option ℕ → Bool
is_id x none = false
is_id x (some y) = y == x

abbrev pub matches : ℕ → List User → List User
matches id users = keep (λ u. is_id id u.telegram_user_id) users

unfoldable pub one_or_none : List User → Result QueryError (Option User)
one_or_none [] = ok none
one_or_none (u ∷ []) = ok (some u)
one_or_none _ = err multiple_results

-- `get_by_telegram_id`
unfoldable pub get_by_telegram_id : ℕ → List User → Result QueryError (Option User)
unfolding one_or_none
get_by_telegram_id id users = one_or_none (matches id users)

abbrev pub new_user : ℕ → Role → User
new_user id role = record {
  telegram_user_id = some id;
  role = role;
  free_actions_used = 0;
  invited_by_telegram_id = none;
}

-- `get_or_create_for_telegram`: the user, and the table
unfoldable pub get_or_create_for_telegram :
    ℕ → Role → List User → Result QueryError (User × List User)
unfolding get_by_telegram_id
get_or_create_for_telegram id role users = elim (get_by_telegram_id id users) [
  | err e ↦ err e
  | ok (some u) ↦ ok (u, users)
  | ok none ↦ ok (new_user id role, users ++ (new_user id role ∷ []))
]

-- `count_referrals`
unfoldable pub count_referrals : ℕ → List User → ℕ
count_referrals id users = length (keep (λ u. is_id id u.invited_by_telegram_id) users)

abbrev pub spend : ℕ → User → User
spend id u =
    if is_id id u.telegram_user_id
    then record u { free_actions_used = u.free_actions_used + 1 }
    else u

-- `consume_free_action`: the write to the one row with this id
unfoldable pub consume_free_action : ℕ → List User → List User
consume_free_action id users = map (spend id) users

-- `record_referral`, on a user's row
unfoldable pub record_referral : ℕ → User → User × Bool
record_referral inviter u =
    if is_some u.invited_by_telegram_id
    then (u, false)
    else if is_id inviter u.telegram_user_id
    then (u, false)
    else (record u { invited_by_telegram_id = some inviter }, true)
