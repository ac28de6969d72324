-- ===== src/Workspace/Rows.antt =====
-- Queries and writes on a table in which every row has a user, and what they leave to another user. A row
-- is inserted with a primary key that is given; the text 0 is the empty one.
use telegram_osint.Base.{
  ℕ, ◌≡◌, refl, ◌≢◌, Bool, true, false, no_twins, ◌||◌, ◌&&◌, Option, none, some, List, [], ◌∷◌,
  ◌++◌, map, keep, any, ◌==◌, if◌then◌else◌, Result, ok, err, arith,
}
use mathlib.Core.Option

-- what a repository raises: `ValueError`, of a value that does not normalise among others, with the limit of the watchlist in its text if it is about that,
-- and the `IntegrityError` of a primary key that is taken
pub data WorkspaceError : Type 0 where
  user_id_required : WorkspaceError
  watchlist_limit_reached : ℕ → WorkspaceError
  invalid_value : WorkspaceError
  integrity_error : WorkspaceError

-- `TaskStatus`
pub data TaskStatus : Type 0 where
  pending : TaskStatus
  running : TaskStatus
  completed : TaskStatus
  failed : TaskStatus
  cancelled : TaskStatus

-- `TaskStatus.is_terminal`
abbrev pub is_ended : TaskStatus → Bool
is_ended completed = true
is_ended failed = true
is_ended cancelled = true
is_ended _ = false

-- `ScopedRepository`
unfoldable pub scoped : ℕ → Result WorkspaceError ℕ
scoped user = if user == 0 then err user_id_required else ok user

-- the first row that passes a test
abbrev pub first : {A : Type 0} → (A → Bool) → List A → Option A
first p [] = none
first p (r ∷ rows) = if p r then some r else first p rows

module _ {R : Type 0} (user_id : R → ℕ) where
  -- the rows of a user
  abbrev pub rows_of : ℕ → List R → List R
  rows_of user rows = keep (λ r. user_id r == user) rows

  -- a query for one row of a user
  unfoldable pub find_of : ℕ → (R → Bool) → List R → Option R
  find_of user p rows = first (λ r. user_id r == user && p r) rows

  -- a write to the rows of a user that a test picks
  unfoldable pub update_of : ℕ → (R → Bool) → (R → R) → List R → List R
  update_of user p f rows = map (λ r. if user_id r == user && p r then f r else r) rows

  -- `session.add` and `flush`
  unfoldable pub add_row : (R → ℕ) → R → List R → Result WorkspaceError (List R)
  add_row id r rows =
      if any (λ s. id s == id r) rows then err integrity_error else ok (rows ++ (r ∷ []))

  -- a row of another user is out of sight
  pub rows_of-append :
      (user other : ℕ) (r : R) (rows : List R)
      → user_id r ≡ user
      → other ≢ user
      → rows_of other (rows ++ (r ∷ [])) ≡ rows_of other rows
  rows_of-append user other r [] e ne = ground arith
  rows_of-append user other r (s ∷ rows) e ne =
      ground (arith, rows_of-append user other r rows e ne)

  -- another user's writes are out of sight
  pub rows_of-update_of :
      (user other : ℕ) (p : R → Bool) (f : R → R) (rows : List R)
      → ((r : R) → user_id (f r) ≡ user_id r)
      → other ≢ user
      → rows_of other (update_of user p f rows) ≡ rows_of other rows
  unfolding update_of
  rows_of-update_of user other p f [] e ne = refl
  rows_of-update_of user other p f (r ∷ rows) e ne =
      ground (arith, e r, rows_of-update_of user other p f rows e ne)

  -- what a query finds is the user's own
  pub find_of-rows_of :
      (user : ℕ) (p : R → Bool) (rows : List R) → find_of user p rows ≡ first p (rows_of user rows)
  unfolding find_of
  find_of-rows_of user p [] = refl
  find_of-rows_of user p (r ∷ rows) = ground (arith, find_of-rows_of user p rows)

  -- what a query finds after a write to what it finds
  pub find_of-update_of :
      (user : ℕ) (p : R → Bool) (f : R → R) (rows : List R)
      → ((r : R) → user_id (f r) ≡ user_id r)
      → ((r : R) → p (f r) ≡ p r)
      → find_of user p (update_of user p f rows) ≡ Option.map f (find_of user p rows)
  unfolding find_of update_of
  find_of-update_of user p f [] e q = refl
  find_of-update_of user p f (r ∷ rows) e q =
      ground (arith, e r, q r, find_of-update_of user p f rows e q)

module _ {R : Type 0} (user_id : R → ℕ) (id : R → ℕ) where
  -- the primary key is one
  abbrev pub distinct : List R → Bool
  distinct rows = no_twins (λ r s. id s == id r) rows

  find_of-fresh :
      (user k : ℕ) (rows : List R)
      → any (λ s. id s == k) rows ≡ false
      → find_of user_id user (λ r. id r == k) rows ≡ none
  unfolding find_of
  find_of-fresh user k [] h = refl
  find_of-fresh user k (r ∷ rows) h = ground (arith, find_of-fresh user k rows)

  any-same :
      (k l : ℕ) (rows : List R) → k ≡ l → any (λ s. id s == k) rows ≡ any (λ s. id s == l) rows
  any-same k l rows e = rw e refl

  -- a row that one user has is no other user's
  pub find_of-other :
      (user other k : ℕ) (rows : List R) (row : R)
      → distinct rows ≡ true
      → other ≢ user
      → find_of user_id user (λ r. id r == k) rows ≡ some row
      → find_of user_id other (λ r. id r == k) rows ≡ none
  unfolding find_of
  find_of-other user other k [] row d ne h = refl
  find_of-other user other k (r ∷ rows) row d ne h = ground (
    arith,
    find_of-other user other k rows row,
    any-same (id r) k rows,
    find_of-fresh user k rows,
    find_of-fresh other k rows,
  )

  any-update_of :
      (user k : ℕ) (p : R → Bool) (f : R → R) (rows : List R)
      → ((r : R) → id (f r) ≡ id r)
      → any (λ s. id s == k) (update_of user_id user p f rows) ≡ any (λ s. id s == k) rows
  unfolding update_of
  any-update_of user k p f [] e = refl
  any-update_of user k p f (r ∷ rows) e = ground (arith, e r, any-update_of user k p f rows e)

  -- a write that leaves the primary keys alone
  pub distinct-update_of :
      (user : ℕ) (p : R → Bool) (f : R → R) (rows : List R)
      → ((r : R) → id (f r) ≡ id r)
      → distinct (update_of user_id user p f rows) ≡ distinct rows
  unfolding update_of
  distinct-update_of user p f [] e = refl
  distinct-update_of user p f (r ∷ rows) e =
      ground (arith, e r, distinct-update_of user p f rows e, any-update_of user (id r) p f rows e)

  any-append :
      (k : ℕ) (r : R) (rows : List R)
      → any (λ s. id s == k) (rows ++ (r ∷ [])) ≡ (any (λ s. id s == k) rows || (id r == k))
  any-append k r [] = ground arith
  any-append k r (s ∷ rows) = ground (arith, any-append k r rows)

  pub distinct-append :
      (r : R) (rows : List R)
      → distinct rows ≡ true
      → any (λ s. id s == id r) rows ≡ false
      → distinct (rows ++ (r ∷ [])) ≡ true
  distinct-append r [] d h = refl
  distinct-append r (s ∷ rows) d h =
      ground (arith, distinct-append r rows, any-append (id s) r rows)
