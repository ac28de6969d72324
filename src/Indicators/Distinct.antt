-- ===== src/Indicators/Distinct.antt =====
-- What `_dedupe` keeps of a list of matches.
use telegram_osint.Base.{
  ℕ, ◌+◌, ◌-◌, min, ◌≡◌, true, ◌&&◌, List, [], ◌∷◌, ◌++◌, keep, any, length, ltb, ◌==◌,
  if◌then◌else◌, arith, Bool-cases, inl, inr,
}
use mathlib.Core.List.{reverse}
use telegram_osint.Base.Sorting.{
  sort_on, Ascending, sort_on-Ascending, count-sort_on, count-reverse,
}
use telegram_osint.Indicators.Matches.{IocMatch, same_key, rank}
use telegram_osint.Indicators.Extract.{by_place, first_of_key, dedupe}

-- the number of the matches with the key of `k`
abbrev count : IocMatch → List IocMatch → ℕ
count k ms = length (keep (same_key k) ms)

count-append :
    (k m : IocMatch) (ms : List IocMatch)
    → count k (ms ++ (m ∷ [])) ≡ count k ms + (if same_key k m then 1 else 0)
count-append k m [] = ground arith
count-append k m (n ∷ ms) = ground (arith, count-append k m ms)

same_pair :
    (a b c x y z : ℕ)
    → ((a == b) && (x == y)) ≡ true
    → ((b == c) && (y == z)) ≡ ((a == c) && (x == z))
same_pair a b c x y z h = ground arith

same_key-right : (k m n : IocMatch) → same_key k m ≡ true → same_key m n ≡ same_key k n
unfolding same_key
same_key-right k m n h =
    same_pair (rank k.ioc_type) (rank m.ioc_type) (rank n.ioc_type) k.normalized m.normalized
      n.normalized h

-- matches of one key are looked up alike
any-count :
    (k m : IocMatch) (ms : List IocMatch)
    → same_key k m ≡ true
    → any (same_key m) ms ≡ ltb 0 (count k ms)
any-count k m [] h = ground arith
any-count k m (n ∷ ms) h = rw (same_key-right k m n h) (ground (arith, any-count k m ms h))

count-first_of_key :
    (k : IocMatch) (ms seen : List IocMatch)
    → count k (first_of_key ms seen)
      ≡ (if ltb 0 (count k seen) then count k seen else min 1 (count k ms))
unfolding first_of_key
count-first_of_key k [] seen = ground arith
count-first_of_key k (m ∷ ms) seen = elim (Bool-cases (same_key k m)) [
  | inl h ↦ ground (
    arith,
    h,
    any-count k m seen h,
    count-append k m seen,
    count-first_of_key k ms seen,
    count-first_of_key k ms (seen ++ (m ∷ [])),
  )
  | inr h ↦ ground (
    arith,
    h,
    count-append k m seen,
    count-first_of_key k ms seen,
    count-first_of_key k ms (seen ++ (m ∷ [])),
  )
]

-- Indicators of a list of matches.
pub record Indicators (matches : List IocMatch) (out : List IocMatch) : Type 0 where
  -- in the order of the text
  pub ordered : Ascending (λ m. m.start) out
  -- every key that was matched stands there once, and no other
  pub single : (k : IocMatch) → count k out ≡ min 1 (count k matches)

pub dedupe-Indicators : (matches : List IocMatch) → Indicators matches (dedupe matches)
unfolding dedupe by_place
dedupe-Indicators matches = record {
  ordered = sort_on-Ascending _ _;
  single = λ k.
      let widest = sort_on (λ (m : IocMatch). m.end - m.start) (reverse matches) in
      omega (
        arith,
        count-sort_on (λ m. m.start) (same_key k)
            (sort_on (λ m. rank m.ioc_type) (first_of_key (by_place matches) [])),
        count-sort_on (λ m. rank m.ioc_type) (same_key k) (first_of_key (by_place matches) []),
        count-first_of_key k (by_place matches) [],
        count-sort_on (λ m. m.start) (same_key k) (reverse widest),
        count-reverse (same_key k) widest,
        count-sort_on (λ m. m.end - m.start) (same_key k) (reverse matches),
        count-reverse (same_key k) matches,
      );
}
