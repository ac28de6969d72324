-- ===== src/Indicators/Extract.antt =====
-- `extract_iocs`, scan by scan.
use telegram_osint.Base.{
  ℕ, ◌+◌, ◌-◌, Bool, not, ◌&&◌, ◌||◌, Option, none, some, List, [], ◌∷◌, ◌++◌, any, ◌==◌,
  if◌then◌else◌, Result, ok, err,
}
use mathlib.Core.List.{reverse}
use telegram_osint.Base.Sorting.{sort_on}
use telegram_osint.Indicators.Matches.{
  IocType, rank, Origin, Match, Texts, IocMatch, same_key, ExtractError, inside, found, Scan, put,
  each, each_try, invalid_url, outside, cve, domain, email, ipv4, ipv6, md5, sha1, sha256,
  telegram_url, telegram_username, url, from_url, from_telegram_url, from_email, invalid_address,
}

module _ (t : Texts) where
  -- a host or the domain of an email, if it looks like one
  unfoldable pub derived : ℕ → ℕ → ℕ → Origin → List IocMatch
  derived host start end origin =
      if t.looks_like_domain host
      then found domain host (t.normalize_domain host) start end (some origin) ∷ []
      else []

  host_match : Option ℕ → ℕ → ℕ → List IocMatch
  host_match none start end = []
  host_match (some host) start end = if host == 0 then [] else derived host start end from_url

  -- 1) URLs; `normalize_url` and `_host_of` are called outside of any `try`
  unfoldable pub scan_url : Match → Scan → Result ExtractError Scan
  unfolding host_match
  scan_url mo sc =
      let raw = t.rstrip mo.text in
      let end = mo.start + t.len raw in
      elim (t.normalize_url raw) [
        | none ↦ err (invalid_url raw)
        | some norm ↦ elim (t.host_of norm) [
          | none ↦ err (invalid_url raw)
          | some host ↦ ok (
              put (found url raw norm mo.start end none ∷ host_match host mo.start end)
                ((mo.start, end) ∷ []) sc)
        ]
      ]

  handle_match : Option ℕ → Match → List IocMatch
  handle_match none mo = []
  handle_match (some h) mo =
      found telegram_username h (t.normalize_username h) mo.start mo.end (some from_telegram_url)
      ∷ []

  -- 2) Telegram URLs and the handles in them
  unfoldable pub scan_telegram_url : Match → Scan → Result ExtractError Scan
  unfolding handle_match
  scan_telegram_url mo sc =
      let raw = t.rstrip mo.text in
      elim (t.normalize_url raw) [
        | none ↦ err (invalid_url raw)
        | some norm ↦ ok (
            put
              (found telegram_url raw norm mo.start mo.end none
                ∷ handle_match (t.handle_in_url raw) mo)
              ((mo.start, mo.end) ∷ []) sc)
      ]

  -- 3) emails
  unfoldable pub scan_email : Match → Scan → Scan
  scan_email mo sc =
      put
        (found email mo.text (t.normalize_email mo.text) mo.start mo.end none
          ∷ derived (t.domain_part mo.text) mo.start mo.end from_email)
        ((mo.start, mo.end) ∷ []) sc

  -- 4) hashes of one length
  unfoldable pub scan_hash : IocType → Match → Scan → Scan
  scan_hash kind mo sc =
      put (found kind mo.text (t.normalize_hash mo.text) mo.start mo.end none ∷ [])
        ((mo.start, mo.end) ∷ []) sc

  -- 5) CVEs
  unfoldable pub scan_cve : Match → Scan → Scan
  scan_cve mo sc = put (found cve mo.text (t.normalize_cve mo.text) mo.start mo.end none ∷ []) [] sc

  -- 6) IPv4 addresses
  unfoldable pub scan_ipv4 : Match → Scan → Scan
  scan_ipv4 mo sc = elim (t.normalize_ip mo.text) [
    | none ↦ sc
    | some norm ↦ put (found ipv4 mo.text norm mo.start mo.end none ∷ []) [] sc
  ]

  -- 6) IPv6 addresses; `normalize_ip` is called outside of any `try`
  unfoldable pub scan_ipv6 : Match → Scan → Result ExtractError Scan
  scan_ipv6 mo sc =
      if inside mo.start sc.covered || not (t.valid_ipv6 mo.text)
      then ok sc
      else elim (t.normalize_ip (t.strip_colons mo.text)) [
        | none ↦ err (invalid_address mo.text)
        | some norm ↦ ok (put (found ipv6 mo.text norm mo.start mo.end none ∷ []) [] sc)
      ]

  -- `norm in have_domain`
  abbrev pub has_domain : ℕ → List IocMatch → Bool
  has_domain norm ms = any (λ m. rank m.ioc_type == rank domain && m.normalized == norm) ms

  -- 7) bare domains; `have_domain` is the set of the domains among the matches
  unfoldable pub scan_domain : Match → Scan → Scan
  scan_domain mo sc =
      let norm = t.normalize_domain mo.text in
      if not (t.looks_like_domain mo.text) || has_domain norm sc.matches
      then sc
      else put (found domain mo.text norm mo.start mo.end none ∷ []) [] sc

  -- 8) Telegram usernames
  unfoldable pub scan_username : Match → Scan → Scan
  scan_username mo sc =
      let name = t.handle mo.text in
      put (found telegram_username name (t.normalize_username name) mo.start mo.end none ∷ []) [] sc

  -- the scans between those of Telegram URLs and of IPv6 addresses, and the ones after
  unfoldable pub scan_middle : ℕ → Scan → Scan
  scan_middle s sc₂ =
      let sc₃ = each (outside scan_email) (t.emails s) sc₂ in
      let sc₄ = each (outside (scan_hash sha256)) (t.sha256s s) sc₃ in
      let sc₅ = each (outside (scan_hash sha1)) (t.sha1s s) sc₄ in
      let sc₆ = each (outside (scan_hash md5)) (t.md5s s) sc₅ in
      let sc₇ = each scan_cve (t.cves s) sc₆ in each (outside scan_ipv4) (t.ipv4s s) sc₇

  unfoldable pub scan_last : ℕ → Scan → Scan
  scan_last s sc =
      let sc₁ = each (outside scan_domain) (t.domains s) sc in
      each (outside scan_username) (t.usernames s) sc₁

  -- the matches in a refanged text
  unfoldable pub scan : ℕ → Result ExtractError (List IocMatch)
  scan s = elim (each_try scan_url (t.urls s) (record { matches = []; covered = [] })) [
    | err e ↦ err e
    | ok sc₁ ↦ elim (each_try scan_telegram_url (t.telegram_urls s) sc₁) [
      | err e ↦ err e
      | ok sc₂ ↦ elim (each_try scan_ipv6 (t.ipv6s s) (scan_middle s sc₂)) [
        | err e ↦ err e
        | ok sc ↦ ok (scan_last s sc).matches
      ]
    ]
  ]

-- `sorted(matches, key=lambda x: (x.start, -(x.end - x.start)))`: the longest first among those of one
-- start, by two stable sorts
unfoldable pub by_place : List IocMatch → List IocMatch
by_place ms = sort_on (λ m. m.start) (reverse (sort_on (λ m. m.end - m.start) (reverse ms)))

-- the loop of `_dedupe`: the first match of every key
unfoldable pub first_of_key : List IocMatch → List IocMatch → List IocMatch
first_of_key [] seen = seen
first_of_key (m ∷ ms) seen =
    let skip = first_of_key ms seen in
    let keep_it = first_of_key ms (seen ++ (m ∷ [])) in
    if any (same_key m) seen then skip else keep_it

-- `_dedupe`
unfoldable pub dedupe : List IocMatch → List IocMatch
dedupe matches =
    sort_on (λ m. m.start) (sort_on (λ m. rank m.ioc_type) (first_of_key (by_place matches) []))

-- `extract_iocs`
unfoldable pub extract_iocs : Texts → ℕ → Result ExtractError (List IocMatch)
extract_iocs t s =
    if s == 0
    then ok []
    else elim (scan t (t.refang s)) [ err e ↦ err e | ok matches ↦ ok (dedupe matches) ]
