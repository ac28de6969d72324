-- ===== src/Collect/Http.antt =====
-- collectors/common/http.py: the guarded fetcher. What it calls of urllib, ipaddress, the resolver and
-- httpx is the interface `Net`; a name may resolve to other addresses at every hop, whose number is an
-- argument. The requests sent are recorded in order. Headers, encodings and the log are left out; a body
-- is a list of bytes.
use text.Mathlib.Text.{◌==◌ as str_eq}
use telegram_osint.Base.{
  ℕ, zero, suc, ◌+◌, String, Bool, false, not, ◌||◌, Option, none, some, List, [], ◌∷◌, ◌++◌, any,
  all, take, length, ltb, leb, if◌then◌else◌, Result, ok, err,
}

-- an `ipaddress` object
pub record Address : Type 0 where
  pub text : String
  pub is_loopback : Bool
  pub is_private : Bool
  pub is_link_local : Bool
  pub is_multicast : Bool
  pub is_reserved : Bool
  pub is_unspecified : Bool

-- what the server answers
pub record Response : Type 0 where
  pub status_code : ℕ
  pub is_redirect : Bool
  pub location : String
  pub content : List ℕ

-- `urlsplit`, `str.lower`, `ipaddress.ip_address` (none for ValueError), the resolver (none for OSError),
-- `httpx.URL.join` and the client (none for HTTPError)
pub record Net : Type 0 where
  pub scheme : String → String
  pub hostname : String → Option String
  pub lower : String → String
  pub ip_address : String → Option Address
  pub resolve : ℕ → String → Option (List String)
  pub join : String → String → String
  pub request : ℕ → String → String → Option Response

-- `http_fetch_allow_private`, `http_fetch_max_bytes` and `http_fetch_max_redirects`
pub record FetchSettings : Type 0 where
  pub allow_private : Bool
  pub max_bytes : ℕ
  pub max_redirects : ℕ

-- `SsrfBlocked` by its message, and `FetchError`
pub data FetchFailure : Type 0 where
  scheme_not_allowed missing_host host_blocked dns_failed no_addresses non_public : FetchFailure
  network_error too_many_redirects : FetchFailure

-- `FetchResponse`
pub record FetchResponse : Type 0 where
  pub url : String
  pub status_code : ℕ
  pub text : List ℕ
  pub truncated : Bool

unfoldable pub one_of : String → List String → Bool
one_of s texts = any (str_eq s) texts

-- `_ALLOWED_SCHEMES`, `_BLOCKED_HOSTS` and `_METADATA_IPS`
abbrev pub allowed_schemes : List String
allowed_schemes = "http" ∷ "https" ∷ []

abbrev pub blocked_hosts : List String
blocked_hosts = "metadata.google.internal" ∷ "metadata" ∷ "localhost" ∷ []

abbrev pub metadata_ips : List String
metadata_ips = "169.254.169.254" ∷ "100.100.100.200" ∷ "fd00:ec2::254" ∷ []

unfoldable pub is_local : Address → Bool
is_local a =
    a.is_loopback
    || (a.is_private
        || (a.is_link_local || (a.is_multicast || (a.is_reserved || a.is_unspecified))))

module _ (net : Net) where
  -- `_ip_is_public`
  unfoldable pub ip_is_public : String → Bool
  ip_is_public ip = elim (net.ip_address ip) [
    | none ↦ false
    | some a ↦ if one_of a.text metadata_ips then false else not (is_local a)
  ]

  -- the addresses that a host stands for
  unfoldable pub candidates_of : ℕ → String → Result FetchFailure (List String)
  candidates_of hop host = elim (net.ip_address host) [
    | some a ↦ ok (host ∷ [])
    | none ↦ elim (net.resolve hop host) [
      | none ↦ err dns_failed
      | some [] ↦ err no_addresses
      | some (ip ∷ ips) ↦ ok (ip ∷ ips)
    ]
  ]

  unfoldable pub check_addresses :
      String → String → Result FetchFailure (List String) → Result FetchFailure (String × String)
  check_addresses scheme host (err e) = err e
  check_addresses scheme host (ok ips) =
      if all ip_is_public ips then ok (scheme, host) else err non_public

  unfoldable pub check_host :
      FetchSettings → ℕ → String → Option String → Result FetchFailure (String × String)
  unfolding candidates_of check_addresses
  check_host s hop scheme none = err missing_host
  check_host s hop scheme (some host) =
      if str_eq host ""
      then err missing_host
      else if one_of (net.lower host) blocked_hosts
      then err host_blocked
      else if s.allow_private
      then ok (scheme, host)
      else check_addresses scheme host (candidates_of hop host)

  -- `_check_url`
  unfoldable pub check_url : FetchSettings → ℕ → String → Result FetchFailure (String × String)
  unfolding check_host
  check_url s hop url =
      let scheme = net.lower (net.scheme url) in
      if not (one_of scheme allowed_schemes)
      then err scheme_not_allowed
      else check_host s hop scheme (net.hostname url)

  -- the response to the caller, with the body cut
  abbrev pub respond : FetchSettings → String → Response → FetchResponse
  respond s url resp =
      let body = take (s.max_bytes + 1) resp.content in
      record {
        url = url;
        status_code = resp.status_code;
        text = take s.max_bytes body;
        truncated = ltb s.max_bytes (length body);
      }

  abbrev pub Fetched : Type 0
  Fetched = Result FetchFailure FetchResponse × List (ℕ × String)

  -- after the answer to a request, given how the next hop would go on
  unfoldable pub after_answer :
      FetchSettings → ℕ → String → Option Response → List (ℕ × String) → Fetched → Fetched
  after_answer s hop url none sent next = (err network_error, sent)
  after_answer s hop url (some resp) sent next =
      if resp.is_redirect
      then (if leb s.max_redirects hop then (err too_many_redirects, sent) else next)
      else (ok (respond s url resp), sent)

  abbrev pub location_of : Option Response → String
  location_of none = ""
  location_of (some resp) = resp.location

  -- the loop of `_request`: the hops left, the hop, the URL, and the requests sent
  unfoldable pub request_loop :
      FetchSettings → String → ℕ → ℕ → String → List (ℕ × String) → Fetched
  unfolding after_answer
  request_loop s method zero hop current sent = (err too_many_redirects, sent)
  request_loop s method (suc left) hop current sent =
      let answer = net.request hop method current in
      let sent' = sent ++ ((hop, current) ∷ []) in
      let next =
        request_loop s method left (hop + 1) (net.join current (location_of answer)) sent' in
      elim (check_url s hop current) [
        | err e ↦ (err e, sent)
        | ok _ ↦ after_answer s hop current answer sent' next
      ]

  -- `_request`
  unfoldable pub request : FetchSettings → String → String → Fetched
  unfolding request_loop
  request s method url = request_loop s method (s.max_redirects + 1) 0 url []
