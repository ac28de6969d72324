-- ===== src/RateLimit/Retry.antt =====
-- The advice of a refusal is good: after `retry_after` seconds the key is accepted again.
use telegram_osint.Base.{
  ℕ, ◌+◌, ◌-◌, ◌*◌, ◌/◌, max, ◌≤◌, ◌<◌, ◌≡◌, refl, ◌≢◌, true, false, List, [], ◌∷◌, length,
  length-append, leb, ltb, ◌==◌, or_else, ok, err, arith, Bool-cases, inl, inr,
}
use telegram_osint.Base.Dict.{lookup, lookup-insert_self, lookup-insert_ne}
use native.Mathlib.Nat.{div-add-mod', mod-lt}
use telegram_osint.RateLimit.{RateLimitResult, index_error, Limiter, expire, refusal, judge, hit}
use telegram_osint.RateLimit.Hits.{Hit, is_accepted, run_hits}

-- No deque is longer than the limit.
abbrev Fits : ℕ → Limiter → Type 0
Fits limit events = (key : ℕ) → length (or_else (lookup key events) []) ≤ limit

length-expire-le : (window now : ℕ) (q : List ℕ) → length (expire window now q) ≤ length q
unfolding expire
length-expire-le window now [] = omega arith
length-expire-le window now (t ∷ q) = ground (arith, length-expire-le window now q)

length-judge-le :
    (second limit window now : ℕ) (q : List ℕ)
    → length q ≤ limit
    → length (judge second limit window now q).1 ≤ limit
unfolding judge
length-judge-le second limit window now q h = elim (Bool-cases (leb limit (length q))) [
  | inl full ↦ rw full h
  | inr room ↦ rw room (rw (length-append q (now ∷ [])) (ground arith))
]

module _ (second limit window_seconds : ℕ) where
  hit-Fits :
      (now key : ℕ) (events : Limiter)
      → Fits limit events
      → Fits limit (hit second limit window_seconds now key events).1
  unfolding hit
  hit-Fits now key events fits k = elim (Bool-cases (k == key)) [
    | inr other ↦
        let ne : k ≢ key = ground arith in rw (lookup-insert_ne key k _ events ne) (fits k)
    | inl same ↦
        let at : k ≡ key = ground arith in
        rw (at, lookup-insert_self)
          (length-judge-le second limit (window_seconds * second) now _ (
            omega (
              arith,
              length-expire-le (window_seconds * second) now (or_else (lookup key events) []),
              fits key,
            )))
  ]

  run_hits-Fits :
      (hits log : List Hit) (events : Limiter)
      → Fits limit events
      → Fits limit (run_hits second limit window_seconds hits log events).1
  unfolding run_hits
  run_hits-Fits [] log events fits = fits
  run_hits-Fits ((key, t) ∷ hits) log events fits =
      run_hits-Fits hits _ _ (hit-Fits t key events fits)

-- whole seconds, rounded down, and one more pass the time left
lt-seconds : (x second : ℕ) → 0 < second → x < max 1 (x / second + 1) * second
lt-seconds x second h =
    let whole : max 1 (x / second + 1) ≡ x / second + 1 = omega arith in
    rw whole (omega (arith, div-add-mod' x second, mod-lt x h))

advice :
    (second limit window now t : ℕ) (q : List ℕ) {v : RateLimitResult}
    → refusal second limit window now (t ∷ q) ≡ ok v
    → v.retry_after ≡ max 1 ((t + window - now) / second + 1)
unfolding refusal
advice second limit window now t q e = ground arith

-- what a refused deque says, and what is left of it when the advice has been followed
accepts_later :
    (second limit window now later : ℕ) (q : List ℕ) {v : RateLimitResult}
    → 0 < second
    → 0 < limit
    → length q ≤ limit
    → refusal second limit window now q ≡ ok v
    → now + v.retry_after * second ≤ later
    → length (expire window later q) < limit
unfolding refusal
accepts_later second limit window now later [] s l fits e h = cc
accepts_later second limit window now later (t ∷ q) {v} s l fits e h =
    let r : v.retry_after ≡ max 1 ((t + window - now) / second + 1) =
      advice second limit window now t q e in
    let passed : t + window - now < v.retry_after * second =
      rw r (lt-seconds (t + window - now) second s) in
    let gone : ltb (t + window) later ≡ true = ground arith in
    unfold expire in rw gone (omega (arith, length-expire-le window later q))

judge_refused :
    (second limit window now : ℕ) (q : List ℕ) {v : RateLimitResult}
    → (judge second limit window now q).0 ≡ ok v
    → v.allowed ≡ false
    → (refusal second limit window now q ≡ ok v) × ((judge second limit window now q).1 ≡ q)
unfolding judge
judge_refused second limit window now q e no' = elim (Bool-cases (leb limit (length q))) [
  | inl full ↦ rw full (rw full at e, refl)
  | inr room ↦ absurd (ground arith)
]

judge_room :
    (second limit window now : ℕ) (q : List ℕ)
    → length q < limit
    → is_accepted (judge second limit window now q).0 ≡ true
unfolding judge
judge_room second limit window now q h =
    let room : leb limit (length q) ≡ false = ground arith in rw room refl

-- On a limiter that was only ever hit with one positive limit and window: if a hit is refused with
-- `retry_after`, then the same key, hit again after that many seconds and not in between, is accepted.
hit_after_retry :
    (second limit window_seconds : ℕ) (hits : List Hit) (key now later : ℕ) {v : RateLimitResult}
    → 0 < second
    → 0 < limit
    → let events = (run_hits second limit window_seconds hits [] []).1 in
      let (r, events') = hit second limit window_seconds now key events in
      r ≡ ok v
      → v.allowed ≡ false
      → now + v.retry_after * second ≤ later
      → is_accepted (hit second limit window_seconds later key events').0 ≡ true
unfolding hit
hit_after_retry second limit window_seconds hits key now later {v} s l e no' h =
    let W : ℕ = window_seconds * second in
    let events = (run_hits second limit window_seconds hits [] []).1 in
    let q = expire W now (or_else (lookup key events) []) in
    let fits : length q ≤ limit = omega (
      arith,
      length-expire-le W now (or_else (lookup key events) []),
      run_hits-Fits second limit window_seconds hits [] [] (λ k. unfold lookup in omega arith) key,
    ) in
    let (said, left) = judge_refused second limit W now q e no' in
    rw (left, lookup-insert_self)
      (judge_room second limit W later (expire W later q)
        (accepts_later second limit W now later q s l fits said h))

nil_of_length : (q : List ℕ) → length q ≤ 0 → q ≡ []
nil_of_length [] h = refl
nil_of_length (t ∷ q) h = absurd (omega arith)

-- With a limit of 0 no hit is ever refused: on a limiter only hit with that limit, every hit reads the
-- oldest entry of an empty deque and raises `IndexError`.
pub zero_limit_raises :
    (second window_seconds : ℕ) (hits : List Hit) (key now : ℕ)
    → (hit second 0 window_seconds now key (run_hits second 0 window_seconds hits [] []).1).0
      ≡ err index_error
unfolding hit judge refusal expire
zero_limit_raises second window_seconds hits key now =
    let fits =
      run_hits-Fits second 0 window_seconds hits [] [] (λ k. unfold lookup in omega arith) key in
    rw (nil_of_length _ fits) refl
