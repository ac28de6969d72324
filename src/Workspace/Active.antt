-- ===== src/Workspace/Active.antt =====
-- The active entries of a user, and how a write to the entries changes their number.
use telegram_osint.Base.{
  ℕ, suc, ◌+◌, ◌≤◌, ◌<◌, ◌≡◌, refl, Bool, true, false, not, ◌&&◌, ◌||◌, Option, none, some, List,
  [], ◌∷◌, ◌++◌, keep, length, ◌==◌, if◌then◌else◌, arith,
}
use mathlib.Core.List.{reverse_aux}
use telegram_osint.Base.Sorting.{sort_on, length-sort_on}
use telegram_osint.Workspace.Rows.{rows_of, find_of, update_of}
use telegram_osint.Workspace.Watchlists.{WatchEntry, count_active, set_active, list_watches}

-- the active entries of a user, counted one by one
pub actives : ℕ → List WatchEntry → ℕ
actives user [] = 0
actives user (w ∷ rows) =
    let n = actives user rows in if w.user_id == user && w.is_active then suc n else n

length-keep-actives :
    (user : ℕ) (rows : List WatchEntry)
    → length (keep (λ w. not true || w.is_active) (rows_of (λ w. w.user_id) user rows))
      ≡ actives user rows
unfolding actives
length-keep-actives user [] = refl
length-keep-actives user (w ∷ rows) = ground (arith, length-keep-actives user rows)

length-reverse_aux :
    {A : Type 0} (xs ys : List A) → length (reverse_aux xs ys) ≡ length xs + length ys
length-reverse_aux [] ys = omega arith
length-reverse_aux (x ∷ xs) ys = omega (arith, length-reverse_aux xs (x ∷ ys))

pub count_active-actives :
    (user : ℕ) (rows : List WatchEntry) → count_active user rows ≡ actives user rows
unfolding count_active list_watches
count_active-actives user rows =
    let own = keep (λ w. not true || w.is_active) (rows_of (λ w. w.user_id) user rows) in
    omega (
      arith,
      length-reverse_aux (sort_on (λ w. w.created_at) own) [],
      length-sort_on (λ w. w.created_at) own,
      length-keep-actives user rows,
    )

pub actives-append :
    (user : ℕ) (w : WatchEntry) (rows : List WatchEntry)
    → actives user (rows ++ (w ∷ []))
      ≡ actives user rows + (if w.user_id == user && w.is_active then 1 else 0)
unfolding actives
actives-append user w [] = ground arith
actives-append user w (v ∷ rows) = ground (arith, actives-append user w rows)

-- an entry that was removed
unfoldable pub is_dormant : Option WatchEntry → Bool
is_dormant none = false
is_dormant (some w) = not w.is_active

-- activation of some entries of the user
pub actives-update_of-le :
    (user : ℕ) (p : WatchEntry → Bool) (rows : List WatchEntry)
    → actives user rows ≤ actives user (update_of (λ w. w.user_id) user p (set_active true) rows)
unfolding actives update_of
actives-update_of-le user p [] = omega arith
actives-update_of-le user p (w ∷ rows) = ground (arith, actives-update_of-le user p rows)

-- among them one that was not active
pub actives-update_of-lt :
    (user : ℕ) (p : WatchEntry → Bool) (rows : List WatchEntry)
    → is_dormant (find_of (λ w. w.user_id) user p rows) ≡ true
    → actives user rows < actives user (update_of (λ w. w.user_id) user p (set_active true) rows)
unfolding actives update_of find_of is_dormant
actives-update_of-lt user p [] h = ground arith
actives-update_of-lt user p (v ∷ rows) h =
    ground (arith, actives-update_of-lt user p rows, actives-update_of-le user p rows)

unfoldable pub WithinLimit : Option ℕ → ℕ → Type 0
WithinLimit none n = Unit
WithinLimit (some m) n = n ≤ m
