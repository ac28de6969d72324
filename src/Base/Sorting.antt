-- ===== src/Base/Sorting.antt =====
-- Stable sorting by a key, as `sorted`, `list.sort` and the `ORDER BY` of a query do it.
use Prim.Native.Nat.{ℕ, zero, suc, ◌+◌, ◌≤◌}
use mathlib.Core.Logic.{inl, inr}
use mathlib.Core.Path.{◌≡◌, refl}
use mathlib.Core.Bool.{Bool}
use mathlib.Core.List.{List, [], ◌∷◌, reverse, reverse_aux}
use native.Mathlib.Omega.{arith}
use telegram_osint.Base.Tests.{ltb, ◌==◌, if◌then◌else◌, Bool-cases}
use telegram_osint.Base.Lists.{All, keep, length, take, All-take}

-- before the first element whose key is not smaller
unfoldable pub insert_on {ℓ} : {A : Type ℓ} → (A → ℕ) → A → List A → List A
insert_on key x [] = x ∷ []
insert_on key x (y ∷ ys) =
    let rest = insert_on key x ys in if ltb (key y) (key x) then y ∷ rest else x ∷ y ∷ ys

-- elements of one key stay in their order
unfoldable pub sort_on {ℓ} : {A : Type ℓ} → (A → ℕ) → List A → List A
sort_on key [] = []
sort_on key (x ∷ xs) = insert_on key x (sort_on key xs)

-- a query with `ORDER BY key DESC`; it leaves the order of equal keys open, here the table reversed
abbrev pub newest_first {ℓ} : {A : Type ℓ} → (A → ℕ) → List A → List A
newest_first key rows = reverse (sort_on key rows)

module _ {ℓ} {A : Type ℓ} (key : A → ℕ) where
  -- no key is smaller than one before it
  abbrev pub Ascending : List A → Type 0
  Ascending [] = Unit
  Ascending (x ∷ xs) = All (λ y. key x ≤ key y) xs × Ascending xs

  module _ (P : A → Type 0) where
    All-insert_on : (x : A) (ys : List A) → P x → All P ys → All P (insert_on key x ys)
    unfolding insert_on
    All-insert_on x [] p h = (p, h)
    All-insert_on x (y ∷ ys) p h = elim (Bool-cases (ltb (key y) (key x))) [
      | inl e ↦ rw e (h.0, All-insert_on x ys p h.1)
      | inr e ↦ rw e (p, h)
    ]

    -- what holds of every element holds of every element once sorted
    pub All-sort_on : (xs : List A) → All P xs → All P (sort_on key xs)
    unfolding sort_on
    All-sort_on [] h = h
    All-sort_on (x ∷ xs) h = All-insert_on x (sort_on key xs) h.0 (All-sort_on xs h.1)

  Ascending-mono :
      (x y : A) (ys : List A)
      → key x ≤ key y
      → All (λ z. key y ≤ key z) ys
      → All (λ z. key x ≤ key z) ys
  Ascending-mono x y [] l h = h
  Ascending-mono x y (z ∷ ys) l h = (omega (arith, l, h.0), Ascending-mono x y ys l h.1)

  insert_on-Ascending : (x : A) (ys : List A) → Ascending ys → Ascending (insert_on key x ys)
  unfolding insert_on
  insert_on-Ascending x [] h = (tt, tt)
  insert_on-Ascending x (y ∷ ys) h = elim (Bool-cases (ltb (key y) (key x))) [
    | inl e ↦ rw e (
      All-insert_on (λ z. key y ≤ key z) x ys (ground (arith, e)) h.0,
      insert_on-Ascending x ys h.1,
    )
    | inr e ↦ rw e ((ground (arith, e), Ascending-mono x y ys (ground (arith, e)) h.0), h)
  ]

  pub sort_on-Ascending : (xs : List A) → Ascending (sort_on key xs)
  unfolding sort_on
  sort_on-Ascending [] = tt
  sort_on-Ascending (x ∷ xs) = insert_on-Ascending x (sort_on key xs) (sort_on-Ascending xs)

  keep-insert_on :
      (k : ℕ) (x : A) (ys : List A)
      → keep (λ y. key y == k) (insert_on key x ys)
        ≡ (if key x == k then x ∷ keep (λ y. key y == k) ys else keep (λ y. key y == k) ys)
  unfolding insert_on
  keep-insert_on k x [] = refl
  keep-insert_on k x (y ∷ ys) = ground (arith, keep-insert_on k x ys)

  -- sorting is stable: the elements of each key are the same, in the same order
  pub keep-sort_on :
      (k : ℕ) (xs : List A) → keep (λ y. key y == k) (sort_on key xs) ≡ keep (λ y. key y == k) xs
  unfolding sort_on
  keep-sort_on k [] = refl
  keep-sort_on k (x ∷ xs) = ground (arith, keep-insert_on k x (sort_on key xs), keep-sort_on k xs)

  length-insert_on : (x : A) (ys : List A) → length (insert_on key x ys) ≡ length (x ∷ ys)
  unfolding insert_on
  length-insert_on x [] = refl
  length-insert_on x (y ∷ ys) = ground (arith, length-insert_on x ys)

  pub length-sort_on : (xs : List A) → length (sort_on key xs) ≡ length xs
  unfolding sort_on
  length-sort_on [] = refl
  length-sort_on (x ∷ xs) = ground (arith, length-insert_on x (sort_on key xs), length-sort_on xs)

  -- a prefix of a sorted list is sorted
  pub take-Ascending : (n : ℕ) (xs : List A) → Ascending xs → Ascending (take n xs)
  take-Ascending zero xs h = tt
  take-Ascending (suc n) [] h = tt
  take-Ascending (suc n) (x ∷ xs) h = (All-take _ n xs h.0, take-Ascending n xs h.1)

  count-insert_on :
      (p : A → Bool) (x : A) (ys : List A)
      → length (keep p (insert_on key x ys)) ≡ length (keep p (x ∷ ys))
  unfolding insert_on
  count-insert_on p x [] = refl
  count-insert_on p x (y ∷ ys) = ground (arith, count-insert_on p x ys)

  -- sorting changes no number of elements that pass a test
  pub count-sort_on :
      (p : A → Bool) (xs : List A) → length (keep p (sort_on key xs)) ≡ length (keep p xs)
  unfolding sort_on
  count-sort_on p [] = refl
  count-sort_on p (x ∷ xs) =
      ground (arith, count-insert_on p x (sort_on key xs), count-sort_on p xs)

module _ {ℓ} {A : Type ℓ} (p : A → Bool) where
  count-reverse_aux :
      (xs ys : List A)
      → length (keep p (reverse_aux xs ys)) ≡ length (keep p xs) + length (keep p ys)
  count-reverse_aux [] ys = omega arith
  count-reverse_aux (x ∷ xs) ys = ground (arith, count-reverse_aux xs (x ∷ ys))

  pub count-reverse : (xs : List A) → length (keep p (reverse xs)) ≡ length (keep p xs)
  count-reverse xs = omega (arith, count-reverse_aux xs [])
