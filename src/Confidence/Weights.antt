-- ===== src/Confidence/Weights.antt =====
-- The score of two accounts, whose signals have the weights of their names, and the score of an account,
-- the greatest of its pairs.
use telegram_osint.Base.{
  ℕ, ◌≤◌, min, ◌≡◌, refl, Bool, true, false, Option, some, List, [], ◌∷◌, ◌++◌, map, All, In, ltb,
  ◌==◌, if◌then◌else◌, or_else, arith, Bool-cases, inl, inr,
}
use telegram_osint.Confidence.Engine.{
  IdentityFacts, Texts, Name, exact_username, display_name_exact, display_name_overlap,
  website_same_domain, bio_similar, email_exact, email_domain_match, avatar_exact, location_exact,
  Signal, signal, no_facts, add, both, equal, domain_of, email_of, name_signals, email_signals,
  cross_signals, signals_of, ConfidenceResult, score_pair, better, best_result, score_account,
}
use telegram_osint.Confidence.Kinds.{Honest, all_names, has, sum_of}
use telegram_osint.Confidence.Score.{result_of_score}

-- Every signal has the weight of its name.
record Weighted (signals : List Signal) : Type 0 where
  honest : All Honest signals

All-Honest-append : (xs ys : List Signal) → All Honest xs → All Honest ys → All Honest (xs ++ ys)
All-Honest-append [] ys h k = k
All-Honest-append (x ∷ xs) ys h k = (h.0, All-Honest-append xs ys h.1 k)

add-Weighted : (b : Bool) (n : Name) → Weighted (add b n)
add-Weighted true n = record { honest = (refl, tt) }
add-Weighted false n = record { honest = tt }

nil-Weighted : Weighted []
nil-Weighted = record { honest = tt }

signal-Weighted : (n : Name) → Weighted (signal n ∷ [])
signal-Weighted n = record { honest = (refl, tt) }

append-Weighted : {xs ys : List Signal} → Weighted xs → Weighted ys → Weighted (xs ++ ys)
append-Weighted {xs} {ys} h k = record { honest = All-Honest-append xs ys h.honest k.honest }

if-Weighted :
    (b : Bool) {xs ys : List Signal} → Weighted xs → Weighted ys → Weighted (if b then xs else ys)
if-Weighted true h k = h
if-Weighted false h k = k

module _ (texts : Texts) where
  name-Weighted : (a b : IdentityFacts) → Weighted (name_signals texts a b)
  unfolding name_signals
  name-Weighted a b =
      if-Weighted _
        (if-Weighted _ (signal-Weighted display_name_exact) (add-Weighted _ display_name_overlap))
        nil-Weighted

  email-Weighted : (ea eb : Option ℕ) → Weighted (email_signals texts ea eb)
  unfolding email_signals
  email-Weighted ea eb =
      if-Weighted _ (signal-Weighted email_exact) (add-Weighted _ email_domain_match)

  cross-Weighted : (da db ea eb : Option ℕ) → Weighted (cross_signals texts da db ea eb)
  unfolding cross_signals
  cross-Weighted da db ea eb = add-Weighted _ email_domain_match

  signals_of-Weighted :
      (a b : IdentityFacts) (same_username : Bool) → Weighted (signals_of texts a b same_username)
  unfolding signals_of
  signals_of-Weighted a b same_username =
      let da = domain_of texts a.website in
      let db = domain_of texts b.website in
      let ea = email_of texts a.email in
      let eb = email_of texts b.email in
      let places = both (λ m n. texts.norm_name m == texts.norm_name n) a.location b.location in
      append-Weighted (add-Weighted same_username exact_username) (
        append-Weighted (name-Weighted a b) (
          append-Weighted (add-Weighted (both equal da db) website_same_domain) (
            append-Weighted (add-Weighted (both texts.bio_overlap a.bio b.bio) bio_similar) (
              append-Weighted (email-Weighted ea eb) (
                append-Weighted (cross-Weighted da db ea eb) (
                  append-Weighted
                    (add-Weighted (both equal a.avatar_reference b.avatar_reference) avatar_exact)
                    (add-Weighted places location_exact)))))))

  -- The score of a pair is the sum of the weights of the kinds of signal found, each kind counted once
  -- however often it was found, and 100 if the sum is more.
  pub score_pair_counts :
      (a b : Option IdentityFacts) (same_username : Bool)
      → let signals = signals_of texts (or_else a no_facts) (or_else b no_facts) same_username in
        (score_pair texts a b same_username).score ≡ min 100 (sum_of (has signals) all_names)
  unfolding score_pair
  score_pair_counts a b same_username =
      result_of_score _
        (signals_of-Weighted (or_else a no_facts) (or_else b no_facts) same_username).honest

  abbrev pub pairs : Option IdentityFacts → List IdentityFacts → Bool → List ConfidenceResult
  pairs facts peers same_username = map (λ p. score_pair texts facts (some p) same_username) peers

  better_found :
      (best r : ConfidenceResult) (rs : List ConfidenceResult) (x : ConfidenceResult)
      → In x (better best r ∷ rs)
      → In x (best ∷ r ∷ rs)
  better_found best r rs x (inr i) = inr (inr i)
  better_found best r rs x (inl e) = elim (Bool-cases (ltb best.score r.score)) [
    | inl lt ↦ inr (inl (rw lt at e))
    | inr ge ↦ inl (rw ge at e)
  ]

  best_result-le :
      (best : ConfidenceResult) (rs : List ConfidenceResult)
      → (best.score ≤ (best_result best rs).score)
        × All (λ r. r.score ≤ (best_result best rs).score) rs
        × In (best_result best rs) (best ∷ rs)
  unfolding best_result
  best_result-le best [] = (omega arith, tt, inl refl)
  best_result-le best (r ∷ rs) =
      let (first, rest, found) = best_result-le (better best r) rs in
      let lower : best.score ≤ (best_result (better best r) rs).score = ground (arith, first) in
      let one : r.score ≤ (best_result (better best r) rs).score = ground (arith, first) in
      (lower, (one, rest), better_found best r rs _ found)

  -- The result for an account with peers is the result of one of its pairs, and no pair has a greater
  -- score.
  score_account_max :
      (facts : Option IdentityFacts) (p : IdentityFacts) (peers : List IdentityFacts)
      (same_username : Bool)
      → let r = score_account texts facts (p ∷ peers) same_username in
        In r (pairs facts (p ∷ peers) same_username)
        × All (λ q. q.score ≤ r.score) (pairs facts (p ∷ peers) same_username)
  unfolding score_account
  score_account_max facts p peers same_username =
      let (first, rest, found) = best_result-le _ (pairs facts peers same_username) in
      (found, (first, rest))
