-- ===== src/Collect/Guarded.antt =====
-- The fetcher sends only requests that the policy permits, and no more of them than the redirect cap.
use mathlib.Core.Path.{subst}
use telegram_osint.Base.{
  ℕ, zero, suc, ◌+◌, ◌≤◌, ◌≡◌, ◌≢◌, refl, String, true, false, Option, none, some, List, [], ◌∷◌,
  ◌++◌, all, take, length, length-append, length-take, leb, Result, ok, err, Result-cases,
  Option-cases, Bool-cases, inl, inr, ◌⊎◌, arith, All,
}
use telegram_osint.Collect.Http.{
  Address, Response, Net, FetchSettings, FetchFailure, FetchResponse, one_of, allowed_schemes,
  blocked_hosts, is_local, metadata_ips, ip_is_public, candidates_of, check_addresses, check_host,
  check_url, Fetched, after_answer, request_loop, request,
}

module _ (net : Net) (s : FetchSettings) where
  -- An address that the policy admits: a parsed one, no metadata service, none of the local kinds.
  pub record Public (ip : String) : Type 0 where
    pub address : Address
    pub parsed : net.ip_address ip ≡ some address
    pub no_metadata : one_of address.text metadata_ips ≡ false
    pub not_local : is_local address ≡ false

  -- The policy on a request: the scheme is http or https, the host is there and not on the list of
  -- blocked names, and all its addresses at this hop are public, unless private ones are let in.
  pub record Permitted (hop : ℕ) (url : String) : Type 0 where
    pub scheme_allowed : one_of (net.lower (net.scheme url)) allowed_schemes ≡ true
    pub host : String
    pub named : net.hostname url ≡ some host
    pub not_blocked : one_of (net.lower host) blocked_hosts ≡ false
    pub addresses :
        (s.allow_private ≡ true)
        ⊎ ((ips : List String) × (candidates_of net hop host ≡ ok ips) × All Public ips)

  public_inversion :
      (ip : String)
      → ip_is_public net ip ≡ true
      → (a : Address) × (net.ip_address ip ≡ some a)
        × (one_of a.text metadata_ips ≡ false)
        × (is_local a ≡ false)
  unfolding ip_is_public
  public_inversion ip h = ground arith

  ip_is_public-Public : (ip : String) → ip_is_public net ip ≡ true → Public ip
  ip_is_public-Public ip h =
      let (a, parsed, no_metadata, not_local) = public_inversion ip h in
      record { address = a; parsed = parsed; no_metadata = no_metadata; not_local = not_local }

  all-Public : (ips : List String) → all (ip_is_public net) ips ≡ true → All Public ips
  all-Public [] h = tt
  all-Public (ip ∷ ips) h = (ip_is_public-Public ip (ground arith), all-Public ips (ground arith))

  addresses_inversion :
      (scheme host : String) (found : Result FetchFailure (List String)) (r : String × String)
      → check_addresses net scheme host found ≡ ok r
      → (ips : List String) × (found ≡ ok ips) × (all (ip_is_public net) ips ≡ true)
  unfolding check_addresses
  addresses_inversion scheme host (err e) r h = cc
  addresses_inversion scheme host (ok ips) r h = (ips, refl, ground arith)

  host_inversion :
      (hop : ℕ) (scheme host : String) (r : String × String)
      → check_host net s hop scheme (some host) ≡ ok r
      → (one_of (net.lower host) blocked_hosts ≡ false)
        × ((s.allow_private ≡ true)
            ⊎ (check_addresses net scheme host (candidates_of net hop host) ≡ ok r))
  unfolding check_host
  host_inversion hop scheme host r h = ground arith

  url_inversion :
      (hop : ℕ) (url : String) (r : String × String)
      → check_url net s hop url ≡ ok r
      → (one_of (net.lower (net.scheme url)) allowed_schemes ≡ true)
        × (check_host net s hop (net.lower (net.scheme url)) (net.hostname url) ≡ ok r)
  unfolding check_url
  url_inversion hop url r h = ground arith

  no_host :
      (hop : ℕ) (scheme : String) (r : String × String) → check_host net s hop scheme none ≢ ok r
  unfolding check_host
  no_host hop scheme r h = cc

  check_url-Permitted :
      (hop : ℕ) (url : String) (r : String × String)
      → check_url net s hop url ≡ ok r
      → Permitted hop url
  check_url-Permitted hop url r h = elim (Option-cases (net.hostname url)) [
    | inl absent ↦ absurd (no_host hop scheme r (rw absent at checked))
    | inr (host, named) ↦
        let (not_blocked, addresses) = host_inversion hop scheme host r (rw named at checked) in
        record {
          scheme_allowed = allowed;
          host = host;
          named = named;
          not_blocked = not_blocked;
          addresses = elim addresses [
            | inl lab ↦ inl lab
            | inr found ↦
                let (ips, are, public) =
                  addresses_inversion scheme host (candidates_of net hop host) r found in
                inr (ips, are, all-Public ips public)
          ];
        }
  ]
    where
      scheme : String
      scheme = net.lower (net.scheme url)

      allowed : one_of scheme allowed_schemes ≡ true
      allowed = (url_inversion hop url r h).0

      checked : check_host net s hop scheme (net.hostname url) ≡ ok r
      checked = (url_inversion hop url r h).1

  -- The requests sent, each permitted at its hop, and how many.
  pub record Safe (sent : List (ℕ × String)) (count : ℕ) : Type 0 where
    pub permitted : All (λ r. Permitted r.0 r.1) sent
    pub few : length sent ≤ count

  All-snoc :
      (sent : List (ℕ × String)) (hop : ℕ) (url : String)
      → All (λ r. Permitted r.0 r.1) sent
      → Permitted hop url
      → All (λ r. Permitted r.0 r.1) (sent ++ ((hop, url) ∷ []))
  All-snoc [] hop url h p = (p, tt)
  All-snoc (r ∷ sent) hop url h p = (h.0, All-snoc sent hop url h.1 p)

  after_answer-Safe :
      (hop : ℕ) (url : String) (answer : Option Response) (sent : List (ℕ × String))
      (next : Fetched net) (count : ℕ)
      → Safe sent count
      → Safe next.1 count
      → Safe (after_answer net s hop url answer sent next).1 count
  unfolding after_answer
  after_answer-Safe hop url none sent next count h k = h
  after_answer-Safe hop url (some resp) sent next count h k = elim (Bool-cases resp.is_redirect) [
    | inl redirect ↦ rw redirect (elim (Bool-cases (leb s.max_redirects hop)) [
      | inl over ↦ rw over h
      | inr under ↦ rw under k
    ])
    | inr final ↦ rw final h
  ]

  request_loop-Safe :
      (method : String) (left hop : ℕ) (url : String) (sent : List (ℕ × String)) (count : ℕ)
      → length sent + left ≤ count
      → All (λ r. Permitted r.0 r.1) sent
      → Safe (request_loop net s method left hop url sent).1 count
  unfolding request_loop
  request_loop-Safe method zero hop url sent count le h = record {
    permitted = h;
    few = omega arith;
  }
  request_loop-Safe method (suc left) hop url sent count le h =
      elim (Result-cases (check_url net s hop url)) [
        | inr (e, refused) ↦
            rw (refused, request_loop) (record { permitted = h; few = omega arith })
        | inl (r, passed) ↦
            let sent' = sent ++ ((hop, url) ∷ []) in
            let longer : length sent' ≡ suc (length sent) =
              omega (arith, length-append sent ((hop, url) ∷ [])) in
            let all' = All-snoc sent hop url h (check_url-Permitted hop url r passed) in
            rw (passed, request_loop)
              (after_answer-Safe hop url _ sent' _ count
                (record { permitted = all'; few = omega arith })
                (request_loop-Safe method left (hop + 1) _ sent' count (omega arith) all'))
      ]

  -- Whatever the servers and the resolver answer, every request that a fetch sends is permitted by the
  -- policy at its hop, redirects included, and there are at most `max_redirects` + 1 of them.
  pub request-Safe : (method url : String) → Safe (request net s method url).1 (s.max_redirects + 1)
  unfolding request
  request-Safe method url =
      request_loop-Safe method (s.max_redirects + 1) 0 url [] _ (omega arith) tt

  -- the bodies that the caller may get
  abbrev Cut : Result FetchFailure FetchResponse → Type 0
  Cut (ok r) = length r.text ≤ s.max_bytes
  Cut (err e) = Unit

  after_answer-Cut :
      (hop : ℕ) (url : String) (answer : Option Response) (sent : List (ℕ × String))
      (next : Fetched net)
      → Cut next.0
      → Cut (after_answer net s hop url answer sent next).0
  unfolding after_answer
  after_answer-Cut hop url none sent next k = tt
  after_answer-Cut hop url (some resp) sent next k = elim (Bool-cases resp.is_redirect) [
    | inl redirect ↦ rw redirect (elim (Bool-cases (leb s.max_redirects hop)) [
      | inl over ↦ rw over tt
      | inr under ↦ rw under k
    ])
    | inr final ↦
        rw final (omega (arith, length-take s.max_bytes (take (s.max_bytes + 1) resp.content)))
  ]

  request_loop-Cut :
      (method : String) (left hop : ℕ) (url : String) (sent : List (ℕ × String))
      → Cut (request_loop net s method left hop url sent).0
  unfolding request_loop
  request_loop-Cut method zero hop url sent = tt
  request_loop-Cut method (suc left) hop url sent = elim (Result-cases (check_url net s hop url)) [
    | inr (e, refused) ↦ rw (refused, request_loop) tt
    | inl (r, passed) ↦
        rw (passed, request_loop)
          (after_answer-Cut hop url _ _ _ (request_loop-Cut method left (hop + 1) _ _))
  ]

  -- A fetch that returns gives at most `max_bytes` bytes of the body.
  request-capped :
      (method url : String) {r : FetchResponse}
      → (request net s method url).0 ≡ ok r
      → length r.text ≤ s.max_bytes
  unfolding request
  request-capped method url e = subst Cut e (request_loop-Cut method (s.max_redirects + 1) 0 url [])
