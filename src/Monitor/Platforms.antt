-- ===== src/Monitor/Platforms.antt =====
-- The messages above a mark, and the sets of platforms as sorted lists.
use telegram_osint.Base.{
  ◌<◌, ◌&&◌, ltb, ℕ, ◌≤◌, max, ◌≡◌, refl, sym, ap, ◌∙◌, Bool, true, false, not, ◌||◌, List, [], ◌∷◌,
  ◌++◌, map, keep, leb, ◌==◌, arith, Bool-cases, inl, inr, All,
}
use mathlib.Core.List.{append_assoc}
use telegram_osint.Monitor.Poll.{
  Activity, message, scan_messages, is_member, add_sorted, sorted_union, new_platforms,
}

-- the numbers above a mark
abbrev pub above : ℕ → List ℕ → List ℕ
above mark rows = keep (λ m. not (leb m mark)) rows

-- the greatest of some numbers
abbrev pub greatest : ℕ → List ℕ → ℕ
greatest top [] = top
greatest top (m ∷ rows) = greatest (max top m) rows

pub append_nil : {A : Type 0} (xs : List A) → xs ++ [] ≡ xs
append_nil [] = refl
append_nil (x ∷ xs) = ap (◌∷◌ x) (append_nil xs)

pub scan_messages_lem :
    (is_channel : Bool) (seen_max : ℕ) (rows : List ℕ) (top : ℕ) (acts : List Activity)
    → seen_max ≤ top
    → scan_messages is_channel seen_max rows top acts
      ≡ (greatest top rows, acts ++ map (message is_channel) (above seen_max rows))
unfolding scan_messages
scan_messages_lem is_channel seen_max [] top acts h = ap (λ a. (top, a)) (sym (append_nil acts))
scan_messages_lem is_channel seen_max (m ∷ rows) top acts h = elim (Bool-cases (leb m seen_max)) [
  | inl old ↦
      let same : max top m ≡ top = ground arith in
      rw (old, same) (scan_messages_lem is_channel seen_max rows top acts h)
  | inr new ↦ rw new (
      scan_messages_lem is_channel seen_max rows (max top m) (acts ++ (message is_channel m ∷ []))
        (omega arith)
      ∙ ap (λ a. (greatest (max top m) rows, a))
          (append_assoc acts (message is_channel m ∷ [])
            (map (message is_channel) (above seen_max rows))))
]

pub greatest_ge :
    (top : ℕ) (rows : List ℕ) → (top ≤ greatest top rows) × All (λ m. m ≤ greatest top rows) rows
greatest_ge top [] = (omega arith, tt)
greatest_ge top (m ∷ rows) =
    let (up, all') = greatest_ge (max top m) rows in
    let a : top ≤ greatest (max top m) rows = omega (arith, up) in
    let b : m ≤ greatest (max top m) rows = omega (arith, up) in (a, (b, all'))

pub above_nil : (mark : ℕ) (rows : List ℕ) → All (λ m. m ≤ mark) rows → above mark rows ≡ []
above_nil mark [] h = refl
above_nil mark (m ∷ rows) (le, h) =
    let old : leb m mark ≡ true = ground arith in rw old (above_nil mark rows h)

is_member-add_sorted :
    (x p : ℕ) (ps : List ℕ) → is_member x (add_sorted p ps) ≡ (p == x || is_member x ps)
is_member-add_sorted x p [] = refl
is_member-add_sorted x p (q ∷ ps) = ground (arith, is_member-add_sorted x p ps)

pub is_member-sorted_union :
    (x : ℕ) (ps base : List ℕ)
    → is_member x (sorted_union ps base) ≡ (is_member x ps || is_member x base)
unfolding sorted_union
is_member-sorted_union x [] base = refl
is_member-sorted_union x (p ∷ ps) base =
    is_member-add_sorted x p (sorted_union ps base)
    ∙ rw (is_member-sorted_union x ps base) (ground arith)

-- every number is less than those after it
abbrev pub Increasing : List ℕ → Type 0
Increasing [] = Unit
Increasing (x ∷ xs) = All (λ y. x < y) xs × Increasing xs

All-add_sorted :
    (n p : ℕ) (ps : List ℕ) → n < p → All (λ y. n < y) ps → All (λ y. n < y) (add_sorted p ps)
All-add_sorted n p [] lt h = (lt, tt)
All-add_sorted n p (q ∷ ps) lt h = elim (Bool-cases (ltb p q)) [
  | inl e ↦ rw e (lt, h)
  | inr e ↦ rw e (elim (Bool-cases (p == q)) [
    | inl e' ↦ rw e' h
    | inr e' ↦ rw e' (h.0, All-add_sorted n p ps lt h.1)
  ])
]

above_all : (p q : ℕ) (ps : List ℕ) → p < q → All (λ y. q < y) ps → All (λ y. p < y) ps
above_all p q [] lt h = tt
above_all p q (r ∷ ps) lt h = (omega (arith, lt, h.0), above_all p q ps lt h.1)

add_sorted-Increasing : (p : ℕ) (ps : List ℕ) → Increasing ps → Increasing (add_sorted p ps)
add_sorted-Increasing p [] h = (tt, tt)
add_sorted-Increasing p (q ∷ ps) h = elim (Bool-cases (ltb p q)) [
  | inl e ↦ let lt : p < q = ground (arith, e) in rw e ((lt, above_all p q ps lt h.0), h)
  | inr e ↦ rw e (elim (Bool-cases (p == q)) [
    | inl e' ↦ rw e' h
    | inr e' ↦
        let gt : q < p = ground (arith, e, e') in
        rw e' (All-add_sorted q p ps gt h.0, add_sorted-Increasing p ps h.1)
  ])
]

pub sorted_union-Increasing : (ps : List ℕ) → Increasing (sorted_union ps [])
unfolding sorted_union
sorted_union-Increasing [] = tt
sorted_union-Increasing (p ∷ ps) =
    add_sorted-Increasing p (sorted_union ps []) (sorted_union-Increasing ps)

All-keep_some :
    (n : ℕ) (t : ℕ → Bool) (xs : List ℕ) → All (λ y. n < y) xs → All (λ y. n < y) (keep t xs)
All-keep_some n t [] h = tt
All-keep_some n t (x ∷ xs) h = elim (Bool-cases (t x)) [
  | inl e ↦ rw e (h.0, All-keep_some n t xs h.1)
  | inr e ↦ rw e (All-keep_some n t xs h.1)
]

pub keep-Increasing : (t : ℕ → Bool) (xs : List ℕ) → Increasing xs → Increasing (keep t xs)
keep-Increasing t [] h = tt
keep-Increasing t (x ∷ xs) h = elim (Bool-cases (t x)) [
  | inl e ↦ rw e (All-keep_some x t xs h.0, keep-Increasing t xs h.1)
  | inr e ↦ rw e (keep-Increasing t xs h.1)
]

pub is_member-keep :
    (p : ℕ) (t : ℕ → Bool) (xs : List ℕ) → is_member p (keep t xs) ≡ (is_member p xs && t p)
is_member-keep p t [] = ground arith
is_member-keep p t (x ∷ xs) = elim (Bool-cases (x == p)) [
  | inl e ↦
      let at : x ≡ p = ground (arith, e) in
      rw at (elim (Bool-cases (t p)) [
        | inl y ↦ rw y (ground (arith, is_member-keep p t xs))
        | inr n ↦ rw n (ground (arith, is_member-keep p t xs, n))
      ])
  | inr e ↦ elim (Bool-cases (t x)) [
    | inl y ↦ rw (y, e) (is_member-keep p t xs)
    | inr n ↦ rw (n, e) (is_member-keep p t xs)
  ]
]

keep_nil :
    (p : ℕ → Bool) (xs : List ℕ) → ((x : ℕ) → is_member x xs ≡ true → p x ≡ false) → keep p xs ≡ []
keep_nil p [] h = refl
keep_nil p (x ∷ xs) h =
    let self : is_member x (x ∷ xs) ≡ true = ground arith in
    rw (h x self) (keep_nil p xs (λ y i. h y (rw i (ground arith))))

pub known_platforms :
    (found known : List ℕ) → new_platforms found (sorted_union known (sorted_union found [])) ≡ []
unfolding new_platforms
known_platforms found known =
    keep_nil _ (sorted_union found [])
      (λ x i. rw (is_member-sorted_union x known (sorted_union found [])) (rw i (ground arith)))
