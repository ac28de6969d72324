-- ===== src/Investigation/Classify.antt =====
-- intelligence/investigation/classifier.py over an interface of its regular expressions. Ids of authors are
-- natural numbers.
use telegram_osint.Base.{
  not, ℕ, Bool, true, false, ◌&&◌, ◌||◌, Option, none, some, List, ◌++◌, map, any, ◌==◌,
  if◌then◌else◌,
}
use telegram_osint.Workspace.Investigations.{
  ObservationType, author, mention, reply, reference, unknown,
}
use telegram_osint.Investigation.Target.{ParsedTarget, is_username_target}

-- the handles that `_MENTION_RE` finds, in small letters, and those of `_TME_RE`; `refers` is the search of
-- `_plain_reference`, `contains` the test `in` on texts; `int_of` is none where `int` raises, and `normalize_raises` says for which
-- texts `normalize_username` does
pub record Texts : Type 0 where
  pub mentioned : ℕ → List ℕ
  pub linked : ℕ → List ℕ
  pub normalize_username : ℕ → ℕ
  pub normalize_raises : ℕ → Bool
  pub refers : ℕ → ℕ → Bool
  pub contains : ℕ → ℕ → Bool
  pub int_of : ℕ → Option ℕ

-- what a message says of its author
pub record PublicMessage : Type 0 where
  pub author_username : Option ℕ
  pub author_id : Option ℕ
  pub text : Option ℕ
  pub is_reply : Bool
  pub reply_to_author : Option ℕ

-- `if not text`
abbrev pub with_text : (ℕ → Bool) → Option ℕ → Bool
with_text f none = false
with_text f (some t) = if t == 0 then false else f t

module _ (t : Texts) where
  -- `_mentions_username`
  unfoldable pub mentions_username : Option ℕ → ℕ → Bool
  mentions_username text username =
      with_text
        (λ s. any (λ h. h == username) (t.mentioned s ++ map t.normalize_username (t.linked s)))
        text

  -- `_plain_reference`
  unfoldable pub plain_reference : Option ℕ → ℕ → Bool
  plain_reference text username = with_text (λ s. t.refers s username) text

  -- `author_username and normalize_username(author_username) == tgt`
  abbrev pub is_handle_of : ℕ → Option ℕ → Bool
  is_handle_of username = with_text (λ a. t.normalize_username a == username)

  abbrev pub is_id_of : ℕ → Option ℕ → Bool
  is_id_of id none = false
  is_id_of id (some a) = a == id

  unfoldable pub classify_for_username : ℕ → PublicMessage → ObservationType × ℕ
  classify_for_username username m =
      if is_handle_of username m.author_username
      then (author, 92)
      else if m.is_reply
          && (is_handle_of username m.reply_to_author || mentions_username m.text username)
      then (reply, 70)
      else if mentions_username m.text username
      then (mention, 80)
      else if plain_reference m.text username
      then (reference, 55)
      else (unknown, 30)

  unfoldable pub classify_for_id : ℕ → PublicMessage → ObservationType × ℕ
  classify_for_id canonical m = elim (t.int_of canonical) [
    | none ↦ (unknown, 20)
    | some id ↦
        if is_id_of id m.author_id
        then (author, 92)
        else if with_text (λ s. t.contains s canonical) m.text
        then (reference, 45)
        else (unknown, 25)
  ]

  -- does `classify_observation` raise: by the name of an author, or of the author who is replied to if the
  -- test of the first does not return
  unfoldable pub classify_raises : ParsedTarget → PublicMessage → Bool
  classify_raises target m =
      is_username_target target
      && (with_text t.normalize_raises m.author_username
          || (not (is_handle_of target.canonical m.author_username)
              && (m.is_reply && with_text t.normalize_raises m.reply_to_author)))

  -- `classify_observation`, where it does not raise
  unfoldable pub classify_observation : ParsedTarget → PublicMessage → ObservationType × ℕ
  classify_observation target m =
      if is_username_target target
      then classify_for_username target.canonical m
      else classify_for_id target.canonical m

  -- the message's own author field names the target
  abbrev pub is_written_by : ParsedTarget → PublicMessage → Bool
  is_written_by target m =
      if is_username_target target
      then is_handle_of target.canonical m.author_username
      else elim (t.int_of target.canonical) [ none ↦ false | some id ↦ is_id_of id m.author_id ]

abbrev pub is_authorship : ObservationType → Bool
is_authorship author = true
is_authorship _ = false
