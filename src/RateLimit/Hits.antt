-- ===== src/RateLimit/Hits.antt =====
-- The limiter on a sequence of hits: the hits of one key, those in a window, and what expiry drops of them.
use telegram_osint.Base.{
  ℕ, ◌+◌, ◌≤◌, ◌≡◌, refl, Bool, false, ◌&&◌, List, [], ◌∷◌, ◌++◌, length, length-keep-le, keep, leb,
  ◌==◌, if◌then◌else◌, Result, ok, err, arith,
}
use telegram_osint.RateLimit.{RateLimitResult, LimitError, Limiter, expire, hit}

-- A hit of the limiter: the key and the time.
abbrev pub Hit : Type 0
Hit = ℕ × ℕ

-- did the call accept the hit
abbrev pub is_accepted : Result LimitError RateLimitResult → Bool
is_accepted (ok v) = v.allowed
is_accepted (err e) = false

module _ (second limit window_seconds : ℕ) where
  -- The limiter on a list of hits: the hits accepted so far, in order, and its state.
  unfoldable pub run_hits : List Hit → List Hit → Limiter → List Hit × Limiter
  run_hits [] log events = (log, events)
  run_hits ((key, now) ∷ hits) log events =
      let (r, events') = hit second limit window_seconds now key events in
      run_hits hits (if is_accepted r then log ++ ((key, now) ∷ []) else log) events'

-- the times of the hits of one key
unfoldable pub times : ℕ → List Hit → List ℕ
times key [] = []
times key ((k, t) ∷ log) = let rest = times key log in if k == key then t ∷ rest else rest

pub times-append :
    (key k t : ℕ) (log : List Hit)
    → times key (log ++ ((k, t) ∷ []))
      ≡ (if k == key then times key log ++ (t ∷ []) else times key log)
unfolding times
times-append key k t [] = refl
times-append key k t (e ∷ log) = ground (arith, times-append key k t log)

-- Every hit is no earlier than `now`, and none is before the one before it.
abbrev pub Chronological : ℕ → List Hit → Type 0
Chronological now [] = Unit
Chronological now ((k, t) ∷ hits) = (now ≤ t) × Chronological t hits

-- `expire` is a prefix dropped: later it drops what it dropped before, and more
pub expire-expire :
    (window s t : ℕ) (q : List ℕ) → s ≤ t → expire window t (expire window s q) ≡ expire window t q
unfolding expire
expire-expire window s t [] h = refl
expire-expire window s t (x ∷ q) h = ground (arith, expire-expire window s t q h)

pub expire-append :
    (window t now : ℕ) (q : List ℕ)
    → t ≤ now + window
    → expire window t (q ++ (now ∷ [])) ≡ expire window t q ++ (now ∷ [])
unfolding expire
expire-append window t now [] h = ground arith
expire-append window t now (x ∷ q) h = ground (arith, expire-append window t now q h)

-- the times in the closed window that begins at `from`
abbrev pub in_window : ℕ → ℕ → ℕ → Bool
in_window window from t = leb from t && leb t (from + window)

-- what stands in a window that a hit at `now` still sees is not dropped by `expire`
pub window-le-expire :
    (window from now : ℕ) (q : List ℕ)
    → now ≤ from + window
    → length (keep (in_window window from) q) ≤ length (expire window now q)
unfolding expire
window-le-expire window from now [] h = omega arith
window-le-expire window from now (x ∷ q) h =
    ground (arith, window-le-expire window from now q h, length-keep-le (in_window window from) q)
