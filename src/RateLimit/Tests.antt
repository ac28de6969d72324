-- ===== src/RateLimit/Tests.antt =====
-- A limiter with two hits a minute, in ticks of a tenth of a second.
use telegram_osint.Base.{◌+◌, ◌≡◌, refl, true, false, List, [], ◌∷◌, arith, err}
use telegram_osint.Base.Dict.{lookup, insert}
use telegram_osint.RateLimit.{
  RateLimitResult, index_error, expire, judge, hit, enforce, api_limit, pass, too_many,
}
use telegram_osint.RateLimit.Window.{Bounded, run_hits-Bounded}
use telegram_osint.RateLimit.Hits.{Hit, run_hits}
use telegram_osint.RateLimit.Retry.{zero_limit_raises}

abbrev hits : List Hit
hits = (1, 100) ∷ (1, 105) ∷ (2, 110) ∷ (1, 130) ∷ (1, 710) ∷ []

accepted_hits : (run_hits 10 2 60 hits [] []).0 ≡ (1, 100) ∷ (1, 105) ∷ (2, 110) ∷ (1, 710) ∷ []
unfolding run_hits hit judge expire lookup insert
accepted_hits = refl

limited_request :
    (api_limit true 10 (λ i. 200 + i) 1 20 60 7 8 (insert 7 (150 ∷ []) [])).0 ≡ too_many 56 1
unfolding api_limit enforce hit judge expire lookup insert
limited_request = refl

open_request : (api_limit true 10 (λ i. 200 + i) 1 20 60 7 8 []).0 ≡ pass
unfolding api_limit enforce hit judge expire lookup insert
open_request = refl

run_hits-Bounded_example : Bounded 10 2 60 (run_hits 10 2 60 hits [] []).0
run_hits-Bounded_example = run_hits-Bounded 10 2 60 hits (omega arith)

abbrev verdict : RateLimitResult
verdict = record { allowed = false; limit = 2; remaining = 0; retry_after = 58 }

zero_limit_raises_example :
    (hit 10 0 60 130 1 (run_hits 10 0 60 ((1, 100) ∷ []) [] []).1).0 ≡ err index_error
zero_limit_raises_example = zero_limit_raises 10 60 ((1, 100) ∷ []) 1 130
