-- ===== src/Indicators/Matches.antt =====
-- Indicators and the matches they come from. A text is a number, the empty one is 0; a match is its text
-- with the span in the refanged text. The regular expressions and the text functions are an interface.
use telegram_osint.Base.{
  Result, ok, err, ℕ, Bool, ◌&&◌, Option, List, [], ◌∷◌, ◌++◌, any, leb, ltb, ◌==◌, if◌then◌else◌,
}

-- `IOCType`
pub data IocType : Type 0 where
  cve : IocType
  domain : IocType
  email : IocType
  ipv4 : IocType
  ipv6 : IocType
  md5 : IocType
  sha1 : IocType
  sha256 : IocType
  telegram_url : IocType
  telegram_username : IocType
  url : IocType

-- the order of the values' texts
abbrev pub rank : IocType → ℕ
rank cve = 0
rank domain = 1
rank email = 2
rank ipv4 = 3
rank ipv6 = 4
rank md5 = 5
rank sha1 = 6
rank sha256 = 7
rank telegram_url = 8
rank telegram_username = 9
rank url = 10

pub data Origin : Type 0 where
  from_url : Origin
  from_telegram_url : Origin
  from_email : Origin

-- a match object: `group(0)`, `start()` and `end()`
pub record Match : Type 0 where
  pub text : ℕ
  pub start : ℕ
  pub end : ℕ

-- the regular expressions with `finditer`, and the text functions. `handle_in_url` is the group of
-- `_TG_HANDLE_IN_URL_RE`, `handle` that of `_TG_USERNAME_RE`. `normalize_ip`, `normalize_url` and
-- `_host_of` may raise `ValueError`; the other normalisers split a URL only in a text with "://", which no
-- match of theirs has.
pub record Texts : Type 0 where
  pub refang : ℕ → ℕ
  pub urls : ℕ → List Match
  pub telegram_urls : ℕ → List Match
  pub emails : ℕ → List Match
  pub sha256s : ℕ → List Match
  pub sha1s : ℕ → List Match
  pub md5s : ℕ → List Match
  pub cves : ℕ → List Match
  pub ipv4s : ℕ → List Match
  pub ipv6s : ℕ → List Match
  pub domains : ℕ → List Match
  pub usernames : ℕ → List Match
  pub rstrip : ℕ → ℕ
  pub len : ℕ → ℕ
  pub handle_in_url : ℕ → Option ℕ
  pub handle : ℕ → ℕ
  pub host_of : ℕ → Option (Option ℕ)
  pub domain_part : ℕ → ℕ
  pub looks_like_domain : ℕ → Bool
  pub valid_ipv6 : ℕ → Bool
  pub strip_colons : ℕ → ℕ
  pub normalize_url : ℕ → Option ℕ
  pub normalize_domain : ℕ → ℕ
  pub normalize_username : ℕ → ℕ
  pub normalize_email : ℕ → ℕ
  pub normalize_hash : ℕ → ℕ
  pub normalize_cve : ℕ → ℕ
  pub normalize_ip : ℕ → Option ℕ

-- `IocMatch`
pub record IocMatch : Type 0 where
  pub ioc_type : IocType
  pub value : ℕ
  pub normalized : ℕ
  pub start : ℕ
  pub end : ℕ
  pub derived_from : Option Origin

-- `IocMatch.key`, compared
unfoldable pub same_key : IocMatch → IocMatch → Bool
same_key m n = rank m.ioc_type == rank n.ioc_type && m.normalized == n.normalized

-- the `ValueError` of a URL and of an address
pub data ExtractError : Type 0 where
  invalid_url : ℕ → ExtractError
  invalid_address : ℕ → ExtractError

abbrev pub Span : Type 0
Span = ℕ × ℕ

-- `_inside`
unfoldable pub inside : ℕ → List Span → Bool
inside pos spans = any (λ (s : Span). leb s.0 pos && ltb pos s.1) spans

abbrev pub found : IocType → ℕ → ℕ → ℕ → ℕ → Option Origin → IocMatch
found kind value normalized start end origin = record {
  ioc_type = kind;
  value = value;
  normalized = normalized;
  start = start;
  end = end;
  derived_from = origin;
}

-- the matches and the spans owned by URLs, emails, Telegram URLs and hashes
pub record Scan : Type 0 where
  pub matches : List IocMatch
  pub covered : List Span

-- `matches.append` and `covered.append`
abbrev pub put : List IocMatch → List Span → Scan → Scan
put ms spans sc = record { matches = sc.matches ++ ms; covered = sc.covered ++ spans }

-- `for mo in found: ...`
abbrev pub each : (Match → Scan → Scan) → List Match → Scan → Scan
each f [] sc = sc
each f (mo ∷ rest) sc = each f rest (f mo sc)

-- the same loop with a body that may raise
abbrev pub each_try :
    (Match → Scan → Result ExtractError Scan) → List Match → Scan → Result ExtractError Scan
each_try f [] sc = ok sc
each_try f (mo ∷ rest) sc = elim (f mo sc) [ err e ↦ err e | ok sc' ↦ each_try f rest sc' ]

-- `if _inside(mo.start(), covered): continue`
abbrev pub outside : (Match → Scan → Scan) → Match → Scan → Scan
outside f mo sc = if inside mo.start sc.covered then sc else f mo sc
