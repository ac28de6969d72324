-- ===== src/RateLimit.antt =====
-- Sliding-window rate limiting: security/ratelimit.py (in-memory limiter and `enforce`) and the limits of
-- apps/api/security.py. Keys are opaque texts, so numbers stand for them; times are ticks, of which a
-- second has `second`. `time.monotonic` is an argument. A negative number of remaining hits cannot
-- occur, and the comparison with `now - window_seconds` is written without a subtraction.
pub mod Hits
pub mod Window
pub mod Retry
mod Tests
use telegram_osint.Base.{
  ℕ, zero, suc, ◌+◌, ◌-◌, ◌*◌, ◌/◌, max, Bool, true, false, Option, none, some, List, [], ◌∷◌, ◌++◌,
  length, leb, ltb, if◌then◌else◌, or_else, Result, ok, err,
}
use telegram_osint.Base.Dict.{Dict, lookup, insert}

-- `RateLimitResult`
pub record RateLimitResult : Type 0 where
  pub allowed : Bool
  pub limit : ℕ
  pub remaining : ℕ
  pub retry_after : ℕ

-- `q[0]` of an empty deque
pub data LimitError : Type 0 where
  index_error : LimitError

-- `InMemoryRateLimiter._events`, a `defaultdict(deque)`
abbrev pub Limiter : Type 0
Limiter = Dict (List ℕ)

-- `while q and q[0] < cutoff: q.popleft()`, with `cutoff = now - window`
unfoldable pub expire : ℕ → ℕ → List ℕ → List ℕ
expire window now [] = []
expire window now (t ∷ q) =
    let rest = expire window now q in if ltb (t + window) now then rest else t ∷ q

-- the refusal, with the seconds until the oldest hit ages out
refusal : ℕ → ℕ → ℕ → ℕ → List ℕ → Result LimitError RateLimitResult
refusal second limit window now [] = err index_error
refusal second limit window now (oldest ∷ q) = ok (record {
  allowed = false;
  limit = limit;
  remaining = 0;
  retry_after = max 1 ((oldest + window - now) / second + 1);
})

-- the verdict on the deque of one key, and the deque left
unfoldable pub judge : ℕ → ℕ → ℕ → ℕ → List ℕ → Result LimitError RateLimitResult × List ℕ
unfolding refusal
judge second limit window now q =
    if leb limit (length q) then (refusal second limit window now q, q) else (
      ok (record {
        allowed = true;
        limit = limit;
        remaining = limit - length (q ++ (now ∷ []));
        retry_after = 0;
      }),
      q ++ (now ∷ []),
    )

-- `InMemoryRateLimiter.hit`
unfoldable pub hit : ℕ → ℕ → ℕ → ℕ → ℕ → Limiter → Result LimitError RateLimitResult × Limiter
hit second limit window_seconds now key events =
    let window = window_seconds * second in
    let (r, q) =
      judge second limit window now (expire window now (or_else (lookup key events) [])) in
    (r, insert key q events)

-- `InMemoryRateLimiter.reset`
unfoldable pub reset : Limiter → Limiter
reset events = []

abbrev tighter : RateLimitResult → RateLimitResult → RateLimitResult
tighter r worst = if ltb r.remaining worst.remaining then r else worst

-- the loop of `enforce`, at the clock's readings from number `i` on
unfoldable pub enforce_loop :
    ℕ
    → (ℕ → ℕ)
    → ℕ
    → ℕ
    → ℕ
    → List ℕ
    → RateLimitResult
    → Limiter
    → Result LimitError RateLimitResult × Limiter
enforce_loop second clock limit window_seconds i [] worst events = (ok worst, events)
enforce_loop second clock limit window_seconds i (key ∷ keys) worst events =
    let (r, events') = hit second limit window_seconds (clock i) key events in
    elim r [
      | err e ↦ (err e, events')
      | ok v ↦
          let rest =
            enforce_loop second clock limit window_seconds (suc i) keys (tighter v worst) events' in
          if v.allowed then rest else (ok v, events')
    ]

abbrev pub unlimited : ℕ → RateLimitResult
unlimited limit = record { allowed = true; limit = limit; remaining = limit; retry_after = 0 }

-- `enforce`, with the setting `rate_limit_enabled`
unfoldable pub enforce :
    Bool → ℕ → (ℕ → ℕ) → ℕ → ℕ → ℕ → List ℕ → Limiter → Result LimitError RateLimitResult × Limiter
unfolding enforce_loop
enforce enabled second clock limit window_seconds i keys events =
    if enabled
    then enforce_loop second clock limit window_seconds i keys (unlimited limit) events
    else (ok (unlimited limit), events)

-- how a request of the API leaves the rate-limit dependency: through, with 429, or with 500
pub data Passage : Type 0 where
  pass : Passage
  too_many : ℕ → ℕ → Passage
  broken : Passage

-- `_dep` of `rate_limit`: the principal's key first, then the wider one of the address
unfoldable pub api_limit : Bool → ℕ → (ℕ → ℕ) → ℕ → ℕ → ℕ → ℕ → ℕ → Limiter → Passage × Limiter
api_limit enabled second clock limit burst window_seconds subject_key ip_key events =
    let (r, events₁) =
      enforce enabled second clock limit window_seconds 0 (subject_key ∷ []) events in
    elim r [
      | err e ↦ (broken, events₁)
      | ok v ↦
          let (r', events₂) =
            enforce enabled second clock (max limit (limit * burst)) window_seconds 1 (ip_key ∷ [])
              events₁ in
          let second_key = elim r' as (λ _. Passage × Limiter) [
            | err e ↦ (broken, events₂)
            | ok v' ↦ (if v'.allowed then pass else too_many v'.retry_after v'.limit, events₂)
          ] in
          if v.allowed then second_key else (too_many v.retry_after v.limit, events₁)
    ]
