-- ===== src/Bot/Kept.antt =====
-- What the sessions of a handler leave of the rows of users.
use telegram_osint.Base.{
  ℕ, ◌≤◌, ◌≡◌, refl, ap, ◌∙◌, Option, none, some, List, [], ◌∷◌, ◌++◌, length, length-map, ◌⊎◌,
  ◌==◌, ok, arith, Bool-cases, inl, inr,
}
use telegram_osint.Bot.Principal.{Role, user, is_public, Principal}
use telegram_osint.Bot.Users.{
  User, one_or_none, matches, get_by_telegram_id, new_user, get_or_create_for_telegram,
  record_referral,
}
use telegram_osint.Bot.Lookups.{used_of, Unique, matches-append}
use telegram_osint.Bot.Start.{
  refer, is_created, refer_given, start, UserWrite, starts, resolves, write_users, run_writes,
}

-- No id comes to stand in two rows, and every count of free actions is as it was.
pub record Keeps (users users' : List User) : Type 0 where
  pub unique : Unique users'
  pub used : (x : ℕ) → used_of (matches x users') ≡ used_of (matches x users)

Keeps-refl : (users : List User) → Unique users → Keeps users users
Keeps-refl users u = record { unique = u; used = λ x. refl }

Keeps-append :
    (id : ℕ) (role : Role) (users : List User)
    → Unique users
    → matches id users ≡ []
    → Keeps users (users ++ (new_user id role ∷ []))
Keeps-append id role users u e = record {
  unique = λ x. rw (matches-append x users (new_user id role)) (elim (Bool-cases (id == x)) [
    | inl h ↦ let at : x ≡ id = ground arith in rw (at, e) (ground arith)
    | inr h ↦ rw h (u x)
  ]);
  used = λ x. rw (matches-append x users (new_user id role)) (elim (Bool-cases (id == x)) [
    | inl h ↦ let at : x ≡ id = ground arith in rw (at, e) (ground arith)
    | inr h ↦ rw h refl
  ]);
}

matches-refer :
    (inviter id x : ℕ) (users : List User)
    → matches x (refer inviter id users) ≡ refer inviter id (matches x users)
unfolding refer record_referral
matches-refer inviter id x [] = refl
matches-refer inviter id x (u ∷ users) = ground (arith, matches-refer inviter id x users)

used_of-refer :
    (inviter id : ℕ) (users : List User) → used_of (refer inviter id users) ≡ used_of users
unfolding refer record_referral
used_of-refer inviter id [] = refl
used_of-refer inviter id (u ∷ users) = ground arith

Keeps-refer :
    (inviter id : ℕ) (users table : List User)
    → Keeps users table
    → Keeps users (refer inviter id table)
unfolding refer
Keeps-refer inviter id users table k = record {
  unique = λ x. rw (matches-refer inviter id x table, length-map _ (matches x table)) (k.unique x);
  used = λ x.
      ap used_of (matches-refer inviter id x table)
      ∙ used_of-refer inviter id (matches x table)
      ∙ k.used x;
}

Keeps-refer_given :
    (referrer : Option ℕ) (id : ℕ) (users table : List User)
    → Keeps users table
    → Keeps users (refer_given referrer id table)
Keeps-refer_given none id users table k = k
Keeps-refer_given (some inviter) id users table k = Keeps-refer inviter id users table k

-- the rows that a query for one id may find
one_row : (l : List User) → length l ≤ 1 → (l ≡ []) ⊎ ((u : User) × (l ≡ u ∷ []))
one_row [] h = inl refl
one_row (u ∷ []) h = inr (u, refl)
one_row (u ∷ v ∷ l) h = absurd (omega (arith, h))

-- `get_or_create_for_telegram` gives a row and a table that keeps the others
resolved :
    (id : ℕ) (role : Role) (users : List User)
    → Unique users
    → (u : User) × (table : List User) × (get_or_create_for_telegram id role users ≡ ok (u, table))
      × Keeps users table
unfolding get_or_create_for_telegram get_by_telegram_id one_or_none
resolved id role users unique = elim (one_row (matches id users) (unique id)) [
  | inl e ↦ (
    new_user id role,
    users ++ (new_user id role ∷ []),
    rw (e, get_or_create_for_telegram) refl,
    Keeps-append id role users unique e,
  )
  | inr (u, e) ↦ (u, users, rw (e, get_or_create_for_telegram) refl, Keeps-refl users unique)
]

start-Keeps :
    (referrer : Option ℕ) (p : Principal) (users : List User)
    → Unique users
    → (table : List User) × (start referrer p users ≡ ok table) × Keeps users table
unfolding start
start-Keeps referrer p users unique = elim (Bool-cases (is_public p.role)) [
  | inr e ↦ (users, rw (e, start) refl, Keeps-refl users unique)
  | inl e ↦
      let (u, table, found, k) = resolved p.telegram_id user users unique in
      elim (Bool-cases (is_created p.telegram_id users)) [
        | inl new ↦ (
          refer_given referrer p.telegram_id table,
          rw (e, found, new, start) refl,
          Keeps-refer_given referrer p.telegram_id users table k,
        )
        | inr old ↦ (table, rw (e, found, old, start) refl, k)
      ]
]

write_users-Keeps :
    (w : UserWrite) (p : Principal) (users : List User)
    → Unique users
    → (table : List User) × (write_users w p users ≡ ok table) × Keeps users table
unfolding write_users
write_users-Keeps (starts referrer) p users unique = start-Keeps referrer p users unique
write_users-Keeps (resolves role) p users unique =
    let (u, table, found, k) = resolved p.telegram_id role users unique in
    (table, rw (found, write_users) refl, k)

-- whatever sessions a handler runs
pub run_writes-Keeps :
    (ws : List UserWrite) (p : Principal) (users : List User)
    → Unique users
    → Keeps users (run_writes ws p users).0
unfolding run_writes
run_writes-Keeps [] p users unique = Keeps-refl users unique
run_writes-Keeps (w ∷ ws) p users unique =
    let (table, e, k) = write_users-Keeps w p users unique in
    let rest = run_writes-Keeps ws p table k.unique in
    rw (e, run_writes) (record { unique = rest.unique; used = λ x. rest.used x ∙ k.used x })
