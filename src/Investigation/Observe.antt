-- ===== src/Investigation/Observe.antt =====
-- The steps of an investigation: observations, indicators, counters, confidence. What the collectors, the
-- username search and the report leave or raise is an argument, as are the text functions. Texts are numbers, and the empty one is 0; the limitations are numbered from 0
-- to 3, with 4 for the operator's account and 5 for the source.
use telegram_osint.Base.{
  ℕ, max, min, Bool, true, false, not, ◌&&◌, ◌||◌, Option, none, some, List, [], ◌∷◌, ◌++◌, map,
  keep, any, length, ltb, ◌==◌, if◌then◌else◌, is_some, or_else, Result, ok, err,
}
use telegram_osint.Workspace.Investigations.{
  Observation, ObservationType, author, mention, reply, reference, unknown, Counts, Narrative,
  no_source, no_operator, found, add_observation,
}
use telegram_osint.Monitor.Poll.{sorted_union}
use telegram_osint.Indicators.Matches.{IocMatch, ExtractError, rank}
use telegram_osint.Indicators.Extract.{extract_iocs}
use telegram_osint.Indicators.Matches as Matches
use telegram_osint.Investigation.Target.{Patterns, InvalidTarget, ParsedTarget}
use telegram_osint.Investigation.Classify.{Texts, PublicMessage, classify_observation}

-- a message record of the collector; `posted_at` is what `_coerce_dt` makes of it
pub record Post : Type 0 where
  pub message : PublicMessage
  pub source_url : Option ℕ
  pub container_ref : Option ℕ
  pub message_id : Option ℕ
  pub posted_at : Option ℕ

-- a record of the collector by its entity type
pub data Item : Type 0 where
  message_item : Post → Item
  account_item : ℕ → Item
  other_item : Item

-- `CollectResult`
pub record Collected : Type 0 where
  pub without_source : Bool
  pub notes : List ℕ
  pub items : List Item

-- one of the sources that the username search found
pub record Alias : Type 0 where
  pub body : ℕ
  pub confidence : ℕ

-- what stands outside. A call of a collector or of the username search may raise: then its `raised` field is
-- the text of the exception, and its result is not read; `classifier_raised` is that text for a name that
-- does not normalise. `tme_resource` is the part of a link after "t.me/" and before the next "/"
pub record Outside : Type 0 where
  pub patterns : Patterns
  pub texts : Texts
  pub ioc_texts : Matches.Texts
  pub tme_resource : ℕ → Option ℕ
  pub unknown_resource : ℕ
  pub cut : ℕ → ℕ → ℕ
  pub operator_configured : Bool
  pub profile_raised : Option ℕ
  pub profile : Collected
  pub messages_raised : Option ℕ
  pub messages : Collected
  pub aliases_raised : Option ℕ
  pub classifier_raised : ℕ
  pub aliases : List Alias
  pub alias_notes : List ℕ
  pub report : Option ℕ
  -- the text of the exception, and that text after "invalid target: "
  pub error_text : InvalidTarget → ℕ
  pub prefixed : ℕ → ℕ

-- the dictionary of an observation that the next steps read
pub record Seen : Type 0 where
  pub kind : ObservationType
  pub resource : ℕ
  pub snippet : Option ℕ
  pub confidence : ℕ

-- `x or None` on a text
abbrev pub given : Option ℕ → Option ℕ
given none = none
given (some t) = if t == 0 then none else some t

unfoldable pub resource_of : Outside → Post → ℕ
resource_of o m =
    let by_container = or_else (given m.container_ref) o.unknown_resource in
    elim (given m.source_url) [
      | none ↦ by_container
      | some url ↦ or_else (o.tme_resource url) by_container
    ]

abbrev pub snippet_of : Outside → Post → Option ℕ
snippet_of o m = given (some (o.cut 500 (or_else m.message.text 0)))

unfoldable pub seen_of : Outside → ParsedTarget → Post → Seen
seen_of o target m =
    let (kind, confidence) = classify_observation o.texts target m.message in
    record {
      kind = kind;
      resource = resource_of o m;
      snippet = snippet_of o m;
      confidence = confidence;
    }

-- `ObservationResourceKind.CHANNEL` and `SourceType.TELEGRAM_PUBLIC`, as numbers
abbrev pub channel_kind : ℕ
channel_kind = 0

abbrev pub telegram_public : ℕ
telegram_public = 1

unfoldable pub observation_of : Outside → ParsedTarget → ℕ → Post → Observation
observation_of o target id m =
    let s = seen_of o target m in
    record {
      investigation_id = id;
      observation_type = s.kind;
      resource_kind = channel_kind;
      resource_ref = o.cut 255 s.resource;
      resource_url = m.source_url;
      message_ref = m.message_id;
      snippet = s.snippet;
      observed_at = m.posted_at;
      source = telegram_public;
      confidence = s.confidence;
      evidence_id = none;
    }

-- `if rec.entity_type != "message": continue`
abbrev pub posts_of : List Item → List Post
posts_of [] = []
posts_of (message_item m ∷ items) = m ∷ posts_of items
posts_of (_ ∷ items) = posts_of items

-- `_build_observations`, over the posts
unfoldable pub build_observations :
    Outside → ParsedTarget → ℕ → List Post → List Observation → List Seen × List Observation
build_observations o target id [] rows = ([], rows)
build_observations o target id (m ∷ posts) rows =
    let (out, rows') =
      build_observations o target id posts (add_observation (observation_of o target id m) rows) in
    (seen_of o target m ∷ out, rows')

abbrev pub has_kind : ObservationType → Seen → Bool
has_kind author s = elim s.kind [ author ↦ true | _ ↦ false ]
has_kind mention s = elim s.kind [ mention ↦ true | _ ↦ false ]
has_kind reply s = elim s.kind [ reply ↦ true | _ ↦ false ]
has_kind reference s = elim s.kind [ reference ↦ true | _ ↦ false ]
has_kind unknown s = elim s.kind [ unknown ↦ true | _ ↦ false ]

-- `_count`, with the numbers of aliases and indicators
unfoldable pub count : List Seen → ℕ → ℕ → Counts
count seen aliases iocs = record {
  observations = length seen;
  authors = length (keep (has_kind author) seen);
  mentions = length (keep (has_kind mention) seen);
  replies = length (keep (has_kind reply) seen);
  references = length (keep (has_kind reference) seen);
  unknowns = length (keep (has_kind unknown) seen);
  resources = length (sorted_union (keep (λ r. ltb 0 r) (map (λ s. s.resource) seen)) []);
  aliases = aliases;
  iocs = iocs;
}

-- the indicators of one snippet that were not seen yet
abbrev pub add_iocs : List IocMatch → List (ℕ × ℕ) → List (ℕ × ℕ)
add_iocs [] out = out
add_iocs (h ∷ hits) out =
    let skip = add_iocs hits out in
    let add_it = add_iocs hits (out ++ ((rank h.ioc_type, h.value) ∷ [])) in
    if any (λ (k : ℕ × ℕ). k.0 == rank h.ioc_type && k.1 == h.value) out then skip else add_it

-- `_extract_iocs`
unfoldable pub all_iocs : Outside → List Seen → List (ℕ × ℕ) → Result ExtractError (List (ℕ × ℕ))
all_iocs o [] out = ok out
all_iocs o (s ∷ seen) out = elim (extract_iocs o.ioc_texts (or_else s.snippet 0)) [
  | err e ↦ err e
  | ok hits ↦ all_iocs o seen (add_iocs hits out)
]

-- `max(xs, default=None)`
abbrev pub greatest : List ℕ → Option ℕ
greatest [] = none
greatest (x ∷ xs) = some (elim (greatest xs) [ none ↦ x | some m ↦ max x m ])

abbrev pub confidences : (Seen → Bool) → List Seen → List ℕ
confidences p seen = map (λ s. s.confidence) (keep p seen)

abbrev pub as_list : Option ℕ → List ℕ
as_list none = []
as_list (some x) = x ∷ []

-- `min(60, max(mentions))`, if there are mentions
abbrev pub mention_signal : Option ℕ → List ℕ
mention_signal none = []
mention_signal (some m) = min 60 m ∷ []

-- `_overall_confidence`
unfoldable pub overall_confidence : List Seen → Option ℕ → Bool → Option ℕ
overall_confidence seen alias_confidence source_configured =
    let signals =
      confidences (λ s. has_kind author s || has_kind reply s) seen
      ++ (as_list alias_confidence
          ++ mention_signal (greatest (confidences (has_kind mention) seen))) in
    if not source_configured && not (is_some alias_confidence)
    then none
    else elim (greatest signals) [
      | some best ↦ some (min 95 best)
      | none ↦
          if ltb 0 (length seen) || ltb 0 (or_else alias_confidence 0)
          then some 20
          else if source_configured
          then some 0
          else none
    ]

-- `_narrative`
unfoldable pub narrative : Counts → Bool → Bool → Narrative
narrative c source_configured operator_configured =
    if not source_configured
    then no_source c.aliases
    else if c.observations == 0 && not operator_configured
    then no_operator c.aliases
    else found c.observations c.authors c.mentions c.replies
