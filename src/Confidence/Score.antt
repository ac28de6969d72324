-- ===== src/Confidence/Score.antt =====
-- The score of a list of signals counts the weight of every kind once.
use telegram_osint.Base.{
  ℕ, ◌+◌, max, min, ◌≡◌, refl, sym, ap, ◌∙◌, Bool, true, false, ◌||◌, List, [], ◌∷◌, All, ltb,
  if◌then◌else◌, arith, Bool-cases, inl, inr,
}
use telegram_osint.Confidence.Engine.{
  Name, weight, same_name, Signal, keep_best, best_of, insert_by_weight, sort_by_weight, total,
  result_of,
}
use telegram_osint.Confidence.Kinds.{
  Honest, named, named_once, same_name_eq, same_name_sym, all_names, has, sum_of,
}

best_has :
    (s : Signal) (best : List Signal) (n : Name)
    → has (keep_best s best) n ≡ (if same_name s.name n then true else has best n)
unfolding keep_best
best_has s [] n = ground arith
best_has s (t ∷ best) n = elim (Bool-cases (same_name s.name t.name)) [
  | inl at ↦ rw at (elim (Bool-cases (ltb t.weight_of s.weight_of)) [
    | inl less ↦ rw less (rw (← same_name_eq s.name t.name at) (ground arith))
    | inr not_less ↦ rw not_less (rw (← same_name_eq s.name t.name at) (ground arith))
  ])
  | inr ne ↦ rw (ne, best_has s best n) (ground arith)
]

best_total :
    (s : Signal) (best : List Signal)
    → Honest s
    → All Honest best
    → total (keep_best s best)
      ≡ (if has best s.name then total best else total best + weight s.name)
unfolding keep_best
best_total s [] h hs = ground (arith, h)
best_total s (t ∷ best) h (ht, hs) = elim (Bool-cases (same_name s.name t.name)) [
  | inl at ↦
      let same : t.weight_of ≡ s.weight_of =
        ht ∙ ap weight (sym (same_name_eq s.name t.name at)) ∙ sym h in
      let heavier : ltb t.weight_of s.weight_of ≡ false = ground arith in
      let at' : same_name t.name s.name ≡ true = same_name_sym t.name s.name ∙ at in
      rw (at, at') (rw heavier refl)
  | inr ne ↦
      let ne' : same_name t.name s.name ≡ false = same_name_sym t.name s.name ∙ ne in
      rw (ne, ne') (ground (arith, best_total s best h hs))
]

best_Honest :
    (s : Signal) (best : List Signal) → Honest s → All Honest best → All Honest (keep_best s best)
unfolding keep_best
best_Honest s [] h hs = (h, tt)
best_Honest s (t ∷ best) h (ht, hs) = elim (Bool-cases (same_name s.name t.name)) [
  | inl at ↦ rw at (elim (Bool-cases (ltb t.weight_of s.weight_of)) [
    | inl less ↦ rw less (h, hs)
    | inr not_less ↦ rw not_less (ht, hs)
  ])
  | inr ne ↦ rw ne (ht, best_Honest s best h hs)
]

-- one more kind in a test adds its weight, unless it was there
sum_of_more :
    (f g : Name → Bool) (m : Name) (names : List Name)
    → ((n : Name) → g n ≡ (if same_name m n then true else f n))
    → sum_of g names ≡ (if f m then sum_of f names else sum_of f names + named m names)
sum_of_more f g m [] h = ground arith
sum_of_more f g m (n ∷ names) h = elim (Bool-cases (same_name m n)) [
  | inl at ↦ rw (h n, at) (rw (← same_name_eq m n at) (ground (arith, sum_of_more f g m names h)))
  | inr ne ↦ rw (h n, ne) (ground (arith, sum_of_more f g m names h))
]

sum_of_cong :
    (f g : Name → Bool) (names : List Name)
    → ((n : Name) → f n ≡ g n)
    → sum_of f names ≡ sum_of g names
sum_of_cong f g [] h = refl
sum_of_cong f g (n ∷ names) h = rw (h n, sum_of_cong f g names h) refl

total-best_of :
    (signals best : List Signal)
    → All Honest signals
    → All Honest best
    → total best ≡ sum_of (has best) all_names
    → total (best_of signals best) ≡ sum_of (λ n. has signals n || has best n) all_names
unfolding best_of
total-best_of [] best hs hb e = e
total-best_of (s ∷ signals) best hs hb e =
    total-best_of signals (keep_best s best) hs.1 (best_Honest s best hs.0 hb) grown
    ∙ sum_of_cong (λ n. has signals n || has (keep_best s best) n)
        (λ n. has (s ∷ signals) n || has best n) all_names pointwise
  where
    pointwise :
        (n : Name)
        → (has signals n || has (keep_best s best) n) ≡ (has (s ∷ signals) n || has best n)
    pointwise n = rw (best_has s best n) (ground arith)

    more : sum_of (has (keep_best s best)) all_names ≡ (
        if has best s.name
        then sum_of (has best) all_names
        else sum_of (has best) all_names + named s.name all_names)
    more = sum_of_more (has best) (has (keep_best s best)) s.name all_names (best_has s best)

    grown : total (keep_best s best) ≡ sum_of (has (keep_best s best)) all_names
    grown = best_total s best hs.0 hb ∙ rw e (sym (more ∙ rw (named_once s.name) refl))

total-insert_by_weight :
    (s : Signal) (ss : List Signal) → total (insert_by_weight s ss) ≡ s.weight_of + total ss
total-insert_by_weight s [] = refl
total-insert_by_weight s (t ∷ ss) = ground (arith, total-insert_by_weight s ss)

total-sort_by_weight : (ss : List Signal) → total (sort_by_weight ss) ≡ total ss
unfolding sort_by_weight
total-sort_by_weight [] = refl
total-sort_by_weight (s ∷ ss) =
    omega (arith, total-insert_by_weight s (sort_by_weight ss), total-sort_by_weight ss)

max_zero : (k : ℕ) → max 0 k ≡ k
max_zero k = omega arith

pub result_of_score :
    (signals : List Signal)
    → All Honest signals
    → (result_of signals).score ≡ min 100 (sum_of (has signals) all_names)
unfolding result_of
result_of_score signals h =
    let counted : total (best_of signals []) ≡ sum_of (λ n. has signals n || false) all_names =
      total-best_of signals [] h tt refl in
    let plain : sum_of (λ n. has signals n || false) all_names ≡ sum_of (has signals) all_names =
      sum_of_cong (λ n. has signals n || false) (has signals) all_names (λ n. ground arith) in
    let all' : total (sort_by_weight (best_of signals [])) ≡ sum_of (has signals) all_names =
      total-sort_by_weight (best_of signals []) ∙ counted ∙ plain in
    ap (λ k. max 0 (min 100 k)) all' ∙ max_zero (min 100 (sum_of (has signals) all_names))
