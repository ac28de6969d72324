-- ===== src/Confidence/Kinds.antt =====
-- The kinds of signal, told apart by their rank, and the sum of the weights of the kinds that a test picks.
use telegram_osint.Base.{
  ℕ, zero, suc, ◌+◌, ◌≡◌, refl, sym, ap, ◌∙◌, Bool, true, List, [], ◌∷◌, any, ◌==◌, if◌then◌else◌,
  arith,
}
use telegram_osint.Confidence.Engine.{
  Name, exact_username, display_name_exact, display_name_overlap, website_same_domain, bio_similar,
  email_exact, email_domain_match, avatar_exact, location_exact, weight, rank, same_name, Signal,
}

abbrev pub all_names : List Name
all_names =
    exact_username ∷ display_name_exact ∷ display_name_overlap ∷ website_same_domain ∷ bio_similar
    ∷ email_exact ∷ email_domain_match ∷ avatar_exact ∷ location_exact ∷ []

-- is there a signal of this kind
abbrev pub has : List Signal → Name → Bool
has signals n = any (λ s. same_name s.name n) signals

-- the weights of the kinds that a test picks
abbrev pub sum_of : (Name → Bool) → List Name → ℕ
sum_of f [] = 0
sum_of f (n ∷ names) = (if f n then weight n else 0) + sum_of f names

abbrev pub Honest : Signal → Type 0
Honest s = s.weight_of ≡ weight s.name

abbrev pub named : Name → List Name → ℕ
named m names = sum_of (λ n. same_name m n) names

pub named_once : (m : Name) → named m all_names ≡ weight m
unfolding same_name
named_once exact_username = refl
named_once display_name_exact = refl
named_once display_name_overlap = refl
named_once website_same_domain = refl
named_once bio_similar = refl
named_once email_exact = refl
named_once email_domain_match = refl
named_once avatar_exact = refl
named_once location_exact = refl

-- the name of a rank
abbrev nth : List Name → ℕ → Name
nth [] k = location_exact
nth (n ∷ names) zero = n
nth (n ∷ names) (suc k) = nth names k

abbrev unrank : ℕ → Name
unrank k = nth all_names k

unrank-rank : (m : Name) → unrank (rank m) ≡ m
unrank-rank exact_username = refl
unrank-rank display_name_exact = refl
unrank-rank display_name_overlap = refl
unrank-rank website_same_domain = refl
unrank-rank bio_similar = refl
unrank-rank email_exact = refl
unrank-rank email_domain_match = refl
unrank-rank avatar_exact = refl
unrank-rank location_exact = refl

eq_of : (a b : ℕ) → (a == b) ≡ true → a ≡ b
eq_of a b h = ground arith

pub same_name_eq : (m n : Name) → same_name m n ≡ true → m ≡ n
unfolding same_name
same_name_eq m n h = sym (unrank-rank m) ∙ ap unrank (eq_of (rank m) (rank n) h) ∙ unrank-rank n

eq_self : (a : ℕ) → (a == a) ≡ true
eq_self a = ground arith

same_name_refl : (m : Name) → same_name m m ≡ true
unfolding same_name
same_name_refl m = eq_self (rank m)

eq_sym : (a b : ℕ) → (a == b) ≡ (b == a)
eq_sym a b = ground arith

pub same_name_sym : (m n : Name) → same_name m n ≡ same_name n m
unfolding same_name
same_name_sym m n = eq_sym (rank m) (rank n)
