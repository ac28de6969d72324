-- ===== src/Bot/Lookups.antt =====
-- The row that `get_or_create_for_telegram` gives on a table without double rows.
use telegram_osint.Base.{
  ℕ, ◌≤◌, ◌≡◌, refl, ap, ◌∙◌, ◌≢◌, true, false, some, List, [], ◌∷◌, ◌++◌, map, length,
  if◌then◌else◌, ok, arith,
}
use telegram_osint.Bot.Principal.{Role, user}
use telegram_osint.Bot.Users.{
  User, one_or_none, is_id, matches, get_by_telegram_id, new_user, get_or_create_for_telegram,
  count_referrals, spend, consume_free_action,
}

abbrev pub used_of : List User → ℕ
used_of [] = 0
used_of (u ∷ _) = u.free_actions_used

-- No Telegram id stands in two rows.
abbrev pub Unique : List User → Type 0
Unique users = (id : ℕ) → length (matches id users) ≤ 1

pub matches-append :
    (id : ℕ) (users : List User) (u : User)
    → matches id (users ++ (u ∷ []))
      ≡ (if is_id id u.telegram_user_id then matches id users ++ (u ∷ []) else matches id users)
matches-append id [] u = refl
matches-append id (v ∷ users) u = ground (arith, matches-append id users u)

referrals-append :
    (id new : ℕ) (role : Role) (users : List User)
    → count_referrals id (users ++ (new_user new role ∷ [])) ≡ count_referrals id users
unfolding count_referrals
referrals-append id new role [] = refl
referrals-append id new role (v ∷ users) = ground (arith, referrals-append id new role users)

pub matches-consume_ne :
    (id x : ℕ) (users : List User)
    → x ≢ id
    → matches x (consume_free_action id users) ≡ matches x users
unfolding consume_free_action
matches-consume_ne id x [] ne = refl
matches-consume_ne id x (v ∷ users) ne = ground (arith, matches-consume_ne id x users ne)

pub matches-consume_self :
    (id : ℕ) (users : List User)
    → matches id (consume_free_action id users) ≡ map (spend id) (matches id users)
unfolding consume_free_action
matches-consume_self id [] = refl
matches-consume_self id (v ∷ users) = ground (arith, matches-consume_self id users)

pub referrals-consume :
    (id x : ℕ) (users : List User)
    → count_referrals x (consume_free_action id users) ≡ count_referrals x users
unfolding consume_free_action count_referrals
referrals-consume id x [] = refl
referrals-consume id x (v ∷ users) = ground (arith, referrals-consume id x users)

-- What `get_or_create_for_telegram` gives on a table with no double row.
pub record Found (id : ℕ) (users : List User) : Type 0 where
  pub row : User
  pub table : List User
  pub returned : get_or_create_for_telegram id user users ≡ ok (row, table)
  pub only : matches id table ≡ row ∷ []
  pub count : row.free_actions_used ≡ used_of (matches id users)
  pub mine : is_id id row.telegram_user_id ≡ true
  pub others : (x : ℕ) → x ≢ id → matches x table ≡ matches x users
  pub referrals : (x : ℕ) → count_referrals x table ≡ count_referrals x users

keep_head :
    (id : ℕ) (u : User) (rest users : List User)
    → matches id users ≡ u ∷ rest
    → is_id id u.telegram_user_id ≡ true
keep_head id u rest [] e = cc
keep_head id u rest (v ∷ users) e = ground (arith, keep_head id u rest users)

get_or_create_new :
    (id : ℕ) (users : List User)
    → matches id users ≡ []
    → get_or_create_for_telegram id user users
      ≡ ok (new_user id user, users ++ (new_user id user ∷ []))
unfolding get_or_create_for_telegram get_by_telegram_id one_or_none
get_or_create_new id users e = rw (e, get_or_create_for_telegram) refl

get_or_create_old :
    (id : ℕ) (u : User) (users : List User)
    → matches id users ≡ u ∷ []
    → get_or_create_for_telegram id user users ≡ ok (u, users)
unfolding get_or_create_for_telegram get_by_telegram_id one_or_none
get_or_create_old id u users e = rw (e, get_or_create_for_telegram) refl

is_id_self : (id : ℕ) → is_id id (some id) ≡ true
is_id_self id = ground arith

is_id_ne : (x id : ℕ) → x ≢ id → is_id x (some id) ≡ false
is_id_ne x id ne = ground arith

pub find : (id : ℕ) (users : List User) → Unique users → Found id users
find id users unique = by_matches (matches id users) refl
  where
    by_matches : (l : List User) → matches id users ≡ l → Found id users
    by_matches [] e = record {
      row = new_user id user;
      table = users ++ (new_user id user ∷ []);
      returned = get_or_create_new id users e;
      only = matches-append id users (new_user id user) ∙ rw (is_id_self id, e) refl;
      count = rw e refl;
      mine = is_id_self id;
      others = λ x ne. matches-append x users (new_user id user) ∙ rw (is_id_ne x id ne) refl;
      referrals = λ x. referrals-append x id user users;
    }
    by_matches (u ∷ []) e = record {
      row = u;
      table = users;
      returned = get_or_create_old id u users e;
      only = e;
      count = rw e refl;
      mine = keep_head id u [] users e;
      others = λ x ne. refl;
      referrals = λ x. refl;
    }
    by_matches (u ∷ v ∷ l) e = absurd (omega (arith, unique id, ap length e))
