-- ===== src/Confidence/Engine.antt =====
-- The signals, their weights, the score and the band. Text is only compared, so numbers stand for texts.
-- What the code calls on text (normalisation, tokens, domains, and the Jaccard index against a threshold)
-- is the interface `Texts`. `normalize_email` and `normalize_domain` give a text that is not empty, or 0
-- for the empty one. A missing value of a field is `none`; an empty text is the number 0.
use telegram_osint.Base.{
  ℕ, zero, suc, ◌+◌, max, min, Bool, true, false, ◌&&◌, ◌||◌, Option, none, some, List, [], ◌∷◌,
  ◌++◌, map, ltb, leb, ◌==◌, if◌then◌else◌, or_else,
}

-- `IdentityFacts`
pub record IdentityFacts : Type 0 where
  pub display_name : Option ℕ
  pub bio : Option ℕ
  pub website : Option ℕ
  pub email : Option ℕ
  pub location : Option ℕ
  pub avatar_reference : Option ℕ

-- the text functions: `_norm_name`, `_website_domain`, `normalize_email`, the domain of an email as it is
-- and normalised, and `_jaccard` of the tokens of two texts against 1/2 and 2/5
pub record Texts : Type 0 where
  pub norm_name : ℕ → ℕ
  pub website_domain : ℕ → Option ℕ
  pub normalize_email : ℕ → ℕ
  pub email_domain : ℕ → ℕ
  pub normalize_domain : ℕ → ℕ
  pub half_overlap : ℕ → ℕ → Bool
  pub bio_overlap : ℕ → ℕ → Bool

-- the keys of `_WEIGHTS`
pub data Name : Type 0 where
  exact_username display_name_exact display_name_overlap website_same_domain bio_similar : Name
  email_exact email_domain_match avatar_exact location_exact : Name

-- `_WEIGHTS`
abbrev pub weight : Name → ℕ
weight exact_username = 25
weight display_name_exact = 25
weight display_name_overlap = 12
weight website_same_domain = 22
weight bio_similar = 15
weight email_exact = 30
weight email_domain_match = 10
weight avatar_exact = 15
weight location_exact = 5

abbrev pub rank : Name → ℕ
rank exact_username = 0
rank display_name_exact = 1
rank display_name_overlap = 2
rank website_same_domain = 3
rank bio_similar = 4
rank email_exact = 5
rank email_domain_match = 6
rank avatar_exact = 7
rank location_exact = 8

unfoldable pub same_name : Name → Name → Bool
same_name m n = rank m == rank n

-- `Signal`, whose detail is a text made from the facts
pub record Signal : Type 0 where
  pub name : Name
  pub weight_of : ℕ

abbrev pub signal : Name → Signal
signal n = record { name = n; weight_of = weight n }

-- a value that is there and not empty
abbrev pub is_given : Option ℕ → Bool
is_given none = false
is_given (some zero) = false
is_given (some (suc n)) = true

abbrev pub no_facts : IdentityFacts
no_facts = record {
  display_name = none;
  bio = none;
  website = none;
  email = none;
  location = none;
  avatar_reference = none;
}

abbrev pub add : Bool → Name → List Signal
add b n = if b then signal n ∷ [] else []

-- `a and b and p(a, b)` on two optional values
abbrev pub both : (ℕ → ℕ → Bool) → Option ℕ → Option ℕ → Bool
both p (some a) (some b) = is_given (some a) && (is_given (some b) && p a b)
both p _ _ = false

abbrev pub equal : ℕ → ℕ → Bool
equal a b = a == b

module _ (texts : Texts) where
  open texts use {
    norm_name, website_domain, normalize_email, email_domain, normalize_domain, half_overlap,
    bio_overlap,
  }

  -- `_norm_name`, of which a missing name gives the empty text
  abbrev pub name_of : Option ℕ → Option ℕ
  name_of none = some 0
  name_of (some n) = if is_given (some n) then some (norm_name n) else some 0

  abbrev pub domain_of : Option ℕ → Option ℕ
  domain_of none = none
  domain_of (some w) = if is_given (some w) then website_domain w else none

  abbrev pub email_of : Option ℕ → Option ℕ
  email_of none = none
  email_of (some e) = if is_given (some e) then some (normalize_email e) else none

  unfoldable pub name_signals : IdentityFacts → IdentityFacts → List Signal
  name_signals a b =
      let named = both (λ m n. true) (name_of a.display_name) (name_of b.display_name) in
      let same = both equal (name_of a.display_name) (name_of b.display_name) in
      if named
      then if same
        then signal display_name_exact ∷ []
        else add (both half_overlap a.display_name b.display_name) display_name_overlap
      else []

  unfoldable pub email_signals : Option ℕ → Option ℕ → List Signal
  email_signals ea eb =
      if both equal ea eb
      then signal email_exact ∷ []
      else add (both (λ m n. email_domain m == email_domain n) ea eb) email_domain_match

  -- the cross match of a website and an email: the first hit ends the loop
  unfoldable pub cross_signals : Option ℕ → Option ℕ → Option ℕ → Option ℕ → List Signal
  cross_signals da db ea eb =
      let hit = λ (d e : ℕ). d == normalize_domain (email_domain e) in
      add (both hit da eb || both hit db ea) email_domain_match

  -- the signals of `score_pair`, in the order of the code
  unfoldable pub signals_of : IdentityFacts → IdentityFacts → Bool → List Signal
  unfolding name_signals email_signals cross_signals
  signals_of a b same_username =
      let da = domain_of a.website in
      let db = domain_of b.website in
      let ea = email_of a.email in
      let eb = email_of b.email in
      add same_username exact_username
      ++ (name_signals a b
          ++ (add (both equal da db) website_same_domain
              ++ (add (both bio_overlap a.bio b.bio) bio_similar
                  ++ (email_signals ea eb
                      ++ (cross_signals da db ea eb
                          ++ (add (both equal a.avatar_reference b.avatar_reference) avatar_exact
                              ++ add
                                  (both (λ m n. norm_name m == norm_name n) a.location b.location)
                                  location_exact))))))

-- `best`, the dictionary of the heaviest signal of each name, in insertion order
unfoldable pub keep_best : Signal → List Signal → List Signal
keep_best s [] = s ∷ []
keep_best s (t ∷ best) =
    let rest = keep_best s best in
    if same_name s.name t.name
    then (if ltb t.weight_of s.weight_of then s ∷ best else t ∷ best)
    else t ∷ rest

unfoldable pub best_of : List Signal → List Signal → List Signal
best_of [] best = best
best_of (s ∷ signals) best = best_of signals (keep_best s best)

abbrev pub insert_by_weight : Signal → List Signal → List Signal
insert_by_weight s [] = s ∷ []
insert_by_weight s (t ∷ ss) =
    let rest = insert_by_weight s ss in if ltb s.weight_of t.weight_of then t ∷ rest else s ∷ t ∷ ss

-- `sorted(..., key=lambda s: -s.weight)`, which keeps the order of equals
unfoldable pub sort_by_weight : List Signal → List Signal
sort_by_weight [] = []
sort_by_weight (s ∷ ss) = insert_by_weight s (sort_by_weight ss)

abbrev pub total : List Signal → ℕ
total [] = 0
total (s ∷ ss) = s.weight_of + total ss

-- the names of `_BANDS`
pub data Band : Type 0 where
  high medium low username_only : Band

-- `_band`
unfoldable pub band_of : ℕ → Band
band_of score =
    if leb 75 score
    then high
    else if leb 45 score
    then medium
    else if leb 20 score
    then low
    else username_only

-- `ConfidenceResult`; the label is the text of the band
pub record ConfidenceResult : Type 0 where
  pub score : ℕ
  pub band : Band
  pub signals : List Signal

unfoldable pub result_of : List Signal → ConfidenceResult
result_of signals =
    let ordered = sort_by_weight (best_of signals []) in
    let score = max 0 (min 100 (total ordered)) in
    record { score = score; band = band_of score; signals = ordered }

-- `score_pair`
unfoldable pub score_pair :
    Texts → Option IdentityFacts → Option IdentityFacts → Bool → ConfidenceResult
unfolding signals_of result_of
score_pair texts a b same_username =
    result_of (signals_of texts (or_else a no_facts) (or_else b no_facts) same_username)

abbrev pub better : ConfidenceResult → ConfidenceResult → ConfidenceResult
better best r = if ltb best.score r.score then r else best

-- `max(results, key=lambda r: r.score)`, the first of the greatest
unfoldable pub best_result : ConfidenceResult → List ConfidenceResult → ConfidenceResult
best_result best [] = best
best_result best (r ∷ rs) = best_result (better best r) rs

-- `score_account`
unfoldable pub score_account :
    Texts → Option IdentityFacts → List IdentityFacts → Bool → ConfidenceResult
score_account texts facts [] same_username = score_pair texts facts none same_username
score_account texts facts (p ∷ peers) same_username =
    best_result (score_pair texts facts (some p) same_username)
      (map (λ q. score_pair texts facts (some q) same_username) peers)
