-- ===== src/Timeline/Events.antt =====
-- The collection of the events and `_build`. Of the rows only the columns that are read stand here.
-- Times are ticks in UTC, which every time is brought to before the sort; a title is the data that its
-- text is made of; `year` of `datetime` is an argument.
use telegram_osint.Base.{
  ℕ, Bool, ◌||◌, Option, none, some, List, [], ◌∷◌, ◌++◌, map, keep, length, take, ltb, ◌==◌,
  if◌then◌else◌, or_else, is_some,
}
use telegram_osint.Base.Dict.{Dict, lookup, insert}
use telegram_osint.Base.Sorting.{sort_on}
use telegram_osint.Graph.Refs.{Ref, same_ref}
use telegram_osint.Graph.Edges.{Relationship}
use telegram_osint.Graph.Traversal.{resolved_entities, source_of, target_of}

-- the values of `EntityType` that are read
abbrev pub target : ℕ
target = 0

abbrev pub telegram_account : ℕ
telegram_account = 1

abbrev pub telegram_group : ℕ
telegram_group = 2

abbrev pub telegram_channel : ℕ
telegram_channel = 3

abbrev pub message_type : ℕ
message_type = 4

abbrev pub external_account : ℕ
external_account = 6

-- the value "telegram" of a source
abbrev pub from_telegram : ℕ
from_telegram = 0

pub record EvidenceRow : Type 0 where
  pub id : ℕ
  pub entity : Ref
  pub field : Option ℕ
  pub source : ℕ
  pub observed_at : Option ℕ
  pub collected_at : ℕ

pub record MessageRow : Type 0 where
  pub id : ℕ
  pub source : Ref
  pub message_id : ℕ
  pub posted_at : Option ℕ
  pub text : Option ℕ

pub record ExternalAccountRow : Type 0 where
  pub platform : ℕ
  pub created_at : ℕ

-- the tables; the rows of the three Telegram tables have one column that is read
pub record TimelineTables : Type 0 where
  pub evidence : List EvidenceRow
  pub relationships : List Relationship
  pub messages : List MessageRow
  pub accounts : Dict (Option ℕ)
  pub groups : Dict (Option ℕ)
  pub channels : Dict (Option ℕ)
  pub external_accounts : Dict ExternalAccountRow

pub data Title : Type 0 where
  observed : Option ℕ → ℕ → Title
  related : ℕ → ℕ → ℕ → ℕ → Title
  public_message : ℕ → Option ℕ → Title
  first_observed : Title
  record_created : ℕ → Title

pub data Kind : Type 0 where
  evidence relationship message account : Kind

-- `TimelineEvent`
pub record TimelineEvent : Type 0 where
  pub when : ℕ
  pub kind : Kind
  pub title : Title
  pub source : Option ℕ
  pub entity_ref : Ref
  pub evidence_id : Option ℕ

-- `Timeline`
pub record Timeline : Type 0 where
  pub root : Ref
  pub events : List TimelineEvent
  pub truncated : Bool

-- `_MAX_EVENTS`
abbrev pub max_events : ℕ
max_events = 500

evidence_event : EvidenceRow → TimelineEvent
evidence_event ev = record {
  when = or_else ev.observed_at ev.collected_at;
  kind = evidence;
  title = observed ev.field ev.source;
  source = some ev.source;
  entity_ref = ev.entity;
  evidence_id = some ev.id;
}

-- `_evidence_events`
unfoldable pub evidence_events : TimelineTables → Ref → List TimelineEvent
unfolding evidence_event
evidence_events db ref = map evidence_event (keep (λ ev. same_ref ev.entity ref) db.evidence)

relationship_event : Ref → Relationship → TimelineEvent
relationship_event ref rel =
    let (source, end, kind) = rel.edge in
    record {
      when = rel.first_seen;
      kind = relationship;
      title = related kind source.0 end.0 rel.confidence;
      source = none;
      entity_ref = ref;
      evidence_id = rel.evidence_id;
    }

-- `_relationship_events`
unfoldable pub relationship_events : TimelineTables → Ref → List TimelineEvent
unfolding relationship_event
relationship_events db ref = map (relationship_event ref) (
    keep (λ rel. same_ref (source_of rel.edge) ref || same_ref (target_of rel.edge) ref)
      db.relationships)

message_event : MessageRow → TimelineEvent
message_event m = record {
  when = or_else m.posted_at 0;
  kind = message;
  title = public_message m.message_id m.text;
  source = some from_telegram;
  entity_ref = (message_type, m.id);
  evidence_id = none;
}

-- the messages of a source that have a time
posted : TimelineTables → Ref → List MessageRow
posted db ref = keep (λ m. is_some m.posted_at) (keep (λ m. same_ref m.source ref) db.messages)

-- `_message_events`: the oldest come first, and no more than `_MAX_EVENTS`
unfoldable pub message_events : TimelineTables → Ref → List TimelineEvent
unfolding message_event posted
message_events db ref =
    map message_event (take max_events (sort_on (λ m. or_else m.posted_at 0) (posted db ref)))

account_event : Ref → Option (Option ℕ) → List TimelineEvent
account_event ref (some (some when)) =
    record {
      when = when;
      kind = account;
      title = first_observed;
      source = some from_telegram;
      entity_ref = ref;
      evidence_id = none;
    }
    ∷ []
account_event ref _ = []

external_event : Ref → Option ExternalAccountRow → List TimelineEvent
external_event ref none = []
external_event ref (some obj) =
    record {
      when = obj.created_at;
      kind = account;
      title = record_created obj.platform;
      source = some obj.platform;
      entity_ref = ref;
      evidence_id = none;
    }
    ∷ []

-- `_account_events`
unfoldable pub account_events : TimelineTables → Ref → List TimelineEvent
unfolding account_event external_event
account_events db (etype, eid) =
    if etype == telegram_account
    then account_event (etype, eid) (lookup eid db.accounts)
    else if etype == telegram_channel
    then account_event (etype, eid) (lookup eid db.channels)
    else if etype == telegram_group
    then account_event (etype, eid) (lookup eid db.groups)
    else if etype == external_account
    then external_event (etype, eid) (lookup eid db.external_accounts)
    else []

-- one turn of the loop of `_build`
unfoldable pub entity_events : TimelineTables → Ref → List TimelineEvent
entity_events db (etype, eid) =
    evidence_events db (etype, eid)
    ++ (relationship_events db (etype, eid)
        ++ ((if etype == telegram_channel || etype == telegram_group
              then message_events db (etype, eid)
              else [])
            ++ account_events db (etype, eid)))

-- the events that `_build` collects
unfoldable pub collected : TimelineTables → List Ref → List TimelineEvent
collected db [] = []
collected db (ref ∷ refs) = entity_events db ref ++ collected db refs

-- `_build`
unfoldable pub build : TimelineTables → Ref → List Ref → Timeline
build db root refs =
    let events = sort_on (λ e. e.when) (collected db refs) in
    record {
      root = root;
      events = take max_events events;
      truncated = ltb max_events (length events);
    }

-- `for_entity`
unfoldable pub for_entity : TimelineTables → Ref → Timeline
unfolding build
for_entity db ref = build db ref (ref ∷ [])

-- `for_target`, with the numbers of the two types of edge that `resolved_entities` reads
unfoldable pub for_target : ℕ → ℕ → TimelineTables → ℕ → Timeline
unfolding build
for_target is_account has_username db id =
    build db (target, id)
      ((target, id) ∷ resolved_entities target is_account has_username id db.relationships)

-- `by_year`
unfoldable pub by_year :
    (ℕ → ℕ) → List TimelineEvent → Dict (List TimelineEvent) → Dict (List TimelineEvent)
by_year year [] out = out
by_year year (e ∷ events) out =
    let y = year e.when in
    by_year year events (insert y (or_else (lookup y out) [] ++ (e ∷ [])) out)
