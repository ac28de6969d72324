-- ===== src/Investigation/Target.antt =====
-- intelligence/investigation/target.py over an interface of its regular expressions and text functions. A
-- text is a number, and the empty one is 0.
use telegram_osint.Base.{
  ℕ, Bool, true, false, not, ◌&&◌, ◌||◌, Option, none, some, leb, ◌==◌, if◌then◌else◌, Result, ok,
  err,
}
use telegram_osint.Workspace.Targets.{TargetKind, telegram_user, telegram_id}

pub record Patterns : Type 0 where
  pub strip : ℕ → ℕ
  pub lstrip_at : ℕ → ℕ
  pub len : ℕ → ℕ
  pub has_control : ℕ → Bool
  pub is_url : ℕ → Bool
  pub is_telegram_url : ℕ → Bool
  pub normalize_username : ℕ → ℕ
  pub is_digits : ℕ → Bool
  pub int_of : ℕ → ℕ
  pub is_handle : ℕ → Bool
  pub is_username : ℕ → Bool
  pub has_double_underscore : ℕ → Bool

-- `_MAX_RAW_LEN`
abbrev pub max_raw_len : ℕ
max_raw_len = 128

-- `InvalidTarget`, by its text
pub data InvalidTarget : Type 0 where
  no_target : InvalidTarget
  empty_target : InvalidTarget
  too_long : InvalidTarget
  invalid_characters : InvalidTarget
  not_telegram_url : InvalidTarget
  not_an_id : InvalidTarget
  not_a_handle : InvalidTarget
  not_a_username : InvalidTarget

-- `ParsedTarget`
pub record ParsedTarget : Type 0 where
  pub raw : ℕ
  pub target_type : TargetKind
  pub canonical : ℕ

-- `is_username`
abbrev pub is_user : TargetKind → Bool
is_user telegram_user = true
is_user _ = false

abbrev pub is_username_target : ParsedTarget → Bool
is_username_target target = is_user target.target_type

module _ (p : Patterns) where
  -- the username path
  unfoldable pub parse_username : ℕ → ℕ → Result InvalidTarget ParsedTarget
  parse_username text bare =
      let handle_src = if p.is_telegram_url text then p.normalize_username text else bare in
      let canonical = p.normalize_username text in
      if not (p.is_handle handle_src)
      then err not_a_handle
      else if not (p.is_username canonical) || p.has_double_underscore canonical
      then err not_a_username
      else ok (record { raw = text; target_type = telegram_user; canonical = canonical })

  -- the id path, if the text is a run of digits
  unfoldable pub parse_bare : ℕ → Result InvalidTarget ParsedTarget
  parse_bare text =
      let bare = p.lstrip_at text in
      let digits = if p.is_telegram_url text then p.normalize_username text else bare in
      if p.is_digits digits
      then if not (leb 3 (p.len digits) && leb (p.len digits) 15) || p.int_of digits == 0
        then err not_an_id
        else ok (record { raw = text; target_type = telegram_id; canonical = digits })
      else parse_username text bare

  -- `parse_target`
  unfoldable pub parse_target : Option ℕ → Result InvalidTarget ParsedTarget
  parse_target none = err no_target
  parse_target (some raw) =
      let text = p.strip raw in
      if text == 0
      then err empty_target
      else if not (leb (p.len text) max_raw_len)
      then err too_long
      else if p.has_control text
      then err invalid_characters
      else if p.is_url text && not (p.is_telegram_url text)
      then err not_telegram_url
      else parse_bare text
