-- ===== src/Indicators/Unique.antt =====
-- What is among the indicators that `extract_iocs` returns, and what makes it raise.
use telegram_osint.Base.{
  or_else, false, ℕ, is_some, ◌≡◌, refl, Bool, true, not, ◌&&◌, ◌||◌, List, [], ◌∷◌, any, ◌==◌,
  if◌then◌else◌, arith, Bool-cases, Option-cases, Result, Result-cases, ok, err, inl, inr,
}
use mathlib.Core.Path.{subst}
use telegram_osint.Base.Sorting.{sort_on}
use telegram_osint.Indicators.Matches.{
  Texts, IocMatch, Match, Scan, ExtractError, invalid_url, invalid_address, inside, each_try,
}
use telegram_osint.Indicators.Extract.{
  scan_url, scan_telegram_url, scan_ipv6, scan_middle, scan_last, scan, by_place, first_of_key,
  dedupe, extract_iocs,
}
use telegram_osint.Indicators.Distinct.{Indicators, dedupe-Indicators}

-- a URL that does not normalise, or of which no host can be read then
abbrev pub is_bad_url : Texts → ℕ → Bool
is_bad_url t raw =
    not (is_some (t.normalize_url raw))
    || not (is_some (t.host_of (or_else (t.normalize_url raw) 0)))

-- a valid address that is none without the colons at its ends
abbrev pub is_torn : Texts → ℕ → Bool
is_torn t a = t.valid_ipv6 a && not (is_some (t.normalize_ip (t.strip_colons a)))

-- the matches that stop each of the scans that may raise

abbrev pub stops_url : Texts → ExtractError → Match → Bool
stops_url t (invalid_url raw) mo = t.rstrip mo.text == raw && is_bad_url t raw
stops_url t (invalid_address a) mo = false

abbrev pub stops_telegram_url : Texts → ExtractError → Match → Bool
stops_telegram_url t (invalid_url raw) mo =
    t.rstrip mo.text == raw && not (is_some (t.normalize_url raw))
stops_telegram_url t (invalid_address a) mo = false

abbrev pub stops_ipv6 : Texts → ExtractError → Match → Bool
stops_ipv6 t (invalid_url raw) mo = false
stops_ipv6 t (invalid_address a) mo = mo.text == a && is_torn t a

-- a match in the text for which the error is raised
abbrev pub has_cause : Texts → ℕ → ExtractError → Bool
has_cause t s e =
    any (stops_url t e) (t.urls s)
    || (any (stops_telegram_url t e) (t.telegram_urls s) || any (stops_ipv6 t e) (t.ipv6s s))

-- What `extract_iocs` returns or raises for a text.
unfoldable pub Extracted : Texts → ℕ → Result ExtractError (List IocMatch) → Type 0
Extracted t s (ok out) =
    (matches : List IocMatch) × ((if s == 0 then ok [] else scan t (t.refang s)) ≡ ok matches)
    × Indicators matches out
Extracted t s (err e) = has_cause t (t.refang s) e ≡ true

-- an error has a cause among the matches of the loop
Caused : {A : Type 0} → (ExtractError → Match → Bool) → List Match → Result ExtractError A → Type 0
Caused stops ms (ok a) = Unit
Caused stops ms (err e) = any (stops e) ms ≡ true

each_try-Caused :
    (stops : ExtractError → Match → Bool) (f : Match → Scan → Result ExtractError Scan)
    → ((mo : Match) (sc : Scan) → Caused stops (mo ∷ []) (f mo sc))
    → (ms : List Match) (sc : Scan) → Caused stops ms (each_try f ms sc)
unfolding Caused
each_try-Caused stops f h [] sc = tt
each_try-Caused stops f h (mo ∷ ms) sc =
    by_step (f mo sc) (h mo sc) (λ sc'. each_try-Caused stops f h ms sc')
  where
    later : (r : Result ExtractError Scan) → Caused stops ms r → Caused stops (mo ∷ ms) r
    later (ok sc') k = tt
    later (err e) k = ground (arith, k)

    by_step :
        (r : Result ExtractError Scan)
        → Caused stops (mo ∷ []) r
        → ((sc' : Scan) → Caused stops ms (each_try f ms sc'))
        → Caused stops (mo ∷ ms) (elim r [ err e ↦ err e | ok sc' ↦ each_try f ms sc' ])
    by_step (ok sc') k rest = later (each_try f ms sc') (rest sc')
    by_step (err e) k rest = ground (arith, k)

scan_url-Caused :
    (t : Texts) (mo : Match) (sc : Scan) → Caused (stops_url t) (mo ∷ []) (scan_url t mo sc)
unfolding scan_url Caused
scan_url-Caused t mo sc = elim (Option-cases (t.normalize_url (t.rstrip mo.text))) [
  | inl e ↦ rw (e, scan_url) (rw e (ground arith))
  | inr (norm, e) ↦ elim (Option-cases (t.host_of norm)) [
    | inl e' ↦ rw (e, e', scan_url) (rw (e, e') (ground arith))
    | inr (host, e') ↦ rw (e, e', scan_url) tt
  ]
]

scan_telegram_url-Caused :
    (t : Texts) (mo : Match) (sc : Scan)
    → Caused (stops_telegram_url t) (mo ∷ []) (scan_telegram_url t mo sc)
unfolding scan_telegram_url Caused
scan_telegram_url-Caused t mo sc = elim (Option-cases (t.normalize_url (t.rstrip mo.text))) [
  | inl e ↦ rw (e, scan_telegram_url) (rw e (ground arith))
  | inr (norm, e) ↦ rw (e, scan_telegram_url) tt
]

scan_ipv6-Caused :
    (t : Texts) (mo : Match) (sc : Scan) → Caused (stops_ipv6 t) (mo ∷ []) (scan_ipv6 t mo sc)
unfolding scan_ipv6 Caused
scan_ipv6-Caused t mo sc =
    elim (Bool-cases (inside mo.start sc.covered || not (t.valid_ipv6 mo.text))) [
      | inl e ↦ rw (e, scan_ipv6) tt
      | inr e ↦ elim (Option-cases (t.normalize_ip (t.strip_colons mo.text))) [
        | inl n ↦
            let valid : t.valid_ipv6 mo.text ≡ true = ground (arith, e) in
            rw (e, n, scan_ipv6) (rw (valid, n) (ground arith))
        | inr (norm, n) ↦ rw (e, n, scan_ipv6) tt
      ]
    ]

-- the scans that may raise, one after the other
scan-has_cause : (t : Texts) (s : ℕ) (e : ExtractError) → scan t s ≡ err e → has_cause t s e ≡ true
unfolding scan Caused
scan-has_cause t s e h =
    by_urls (each_try (scan_url t) (t.urls s) empty)
      (each_try-Caused (stops_url t) (scan_url t) (scan_url-Caused t) (t.urls s) empty) h
  where
    empty : Scan
    empty = record { matches = []; covered = [] }

    by_addresses :
        (r : Result ExtractError Scan)
        → Caused (stops_ipv6 t) (t.ipv6s s) r
        → elim r [ err e' ↦ err e' | ok sc ↦ ok (scan_last t s sc).matches ] ≡ err e
        → has_cause t s e ≡ true
    by_addresses (ok sc) k h = absurd (cc h)
    by_addresses (err e') k h =
        let same : e' ≡ e = cc h in
        let here : any (stops_ipv6 t e) (t.ipv6s s) ≡ true =
          subst (λ x. any (stops_ipv6 t x) (t.ipv6s s) ≡ true) same k in
        ground (arith, here)

    by_telegram_urls :
        (r : Result ExtractError Scan)
        → Caused (stops_telegram_url t) (t.telegram_urls s) r
        → elim r [
          | err e' ↦ err e'
          | ok sc₂ ↦ elim (each_try (scan_ipv6 t) (t.ipv6s s) (scan_middle t s sc₂)) [
            | err e' ↦ err e'
            | ok sc ↦ ok (scan_last t s sc).matches
          ]
        ]
          ≡ err e
        → has_cause t s e ≡ true
    by_telegram_urls (ok sc) k h =
        by_addresses (each_try (scan_ipv6 t) (t.ipv6s s) (scan_middle t s sc))
          (each_try-Caused (stops_ipv6 t) (scan_ipv6 t) (scan_ipv6-Caused t) (t.ipv6s s)
            (scan_middle t s sc))
          h
    by_telegram_urls (err e') k h =
        let same : e' ≡ e = cc h in
        let here : any (stops_telegram_url t e) (t.telegram_urls s) ≡ true =
          subst (λ x. any (stops_telegram_url t x) (t.telegram_urls s) ≡ true) same k in
        ground (arith, here)

    by_urls :
        (r : Result ExtractError Scan)
        → Caused (stops_url t) (t.urls s) r
        → elim r [
          | err e' ↦ err e'
          | ok sc₁ ↦ elim (each_try (scan_telegram_url t) (t.telegram_urls s) sc₁) [
            | err e' ↦ err e'
            | ok sc₂ ↦ elim (each_try (scan_ipv6 t) (t.ipv6s s) (scan_middle t s sc₂)) [
              | err e' ↦ err e'
              | ok sc ↦ ok (scan_last t s sc).matches
            ]
          ]
        ]
          ≡ err e
        → has_cause t s e ≡ true
    by_urls (ok sc) k h =
        by_telegram_urls (each_try (scan_telegram_url t) (t.telegram_urls s) sc)
          (each_try-Caused (stops_telegram_url t) (scan_telegram_url t) (scan_telegram_url-Caused t)
            (t.telegram_urls s) sc)
          h
    by_urls (err e') k h =
        let same : e' ≡ e = cc h in
        let here : any (stops_url t e) (t.urls s) ≡ true =
          subst (λ x. any (stops_url t x) (t.urls s) ≡ true) same k in
        ground (arith, here)

-- For every text, either the indicators come in the order of the text, and each pair of type and normalised
-- value that some scan matched stands there exactly once, and no other; or the call raises, and then only
-- for a match in the text: a URL or a Telegram URL that does not normalise, a URL of whose normalised form
-- no host can be read, or an IPv6 address that is valid but is none without the colons at its ends.
pub extract_iocs-Extracted : (t : Texts) (s : ℕ) → Extracted t s (extract_iocs t s)
unfolding extract_iocs Extracted dedupe sort_on first_of_key by_place
extract_iocs-Extracted t s = elim (Bool-cases (s == 0)) [
  | inl e ↦ rw (e, extract_iocs) ([], rw e refl, dedupe-Indicators [])
  | inr e ↦ elim (Result-cases (scan t (t.refang s))) [
    | inl (ms, r) ↦ rw (e, r, extract_iocs) (ms, rw e r, dedupe-Indicators ms)
    | inr (x, r) ↦ rw (e, r, extract_iocs) (scan-has_cause t (t.refang s) x r)
  ]
]
