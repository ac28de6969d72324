-- ===== src/Timeline/Tests.antt =====
-- Tests and witnesses of the timeline.
use telegram_osint.Base.{ℕ, ◌/◌, ◌≡◌, refl, none, some, [], ◌∷◌, map}
use telegram_osint.Base.Dict.{lookup}
use telegram_osint.Base.Sorting.{sort_on, insert_on}
use telegram_osint.Graph.Refs.{Ref}
use telegram_osint.Timeline.Events.{
  TimelineTables, telegram_channel, telegram_account, collected, build, evidence_events,
  relationship_events, message_events, account_events, entity_events,
}
use telegram_osint.Timeline.Shown.{Shows, build-Shows}

abbrev channel : Ref
channel = (telegram_channel, 7)

abbrev account : Ref
account = (telegram_account, 8)

-- an account that wrote in a channel, with the rows in no order
abbrev two_entities : TimelineTables
two_entities = record {
  evidence =
      record {
        id = 1;
        entity = account;
        field = some 3;
        source = 4;
        observed_at = none;
        collected_at = 940;
      }
      ∷ record {
        id = 2;
        entity = account;
        field = none;
        source = 4;
        observed_at = some 120;
        collected_at = 950;
      }
      ∷ [];
  relationships =
      record {
        edge = (account, channel, 5);
        confidence = 60;
        observation_count = 1;
        first_seen = 310;
        last_seen = 900;
        evidence_id = some 2;
      }
      ∷ [];
  messages =
      record { id = 31; source = channel; message_id = 2; posted_at = some 230; text = none }
      ∷ record { id = 32; source = channel; message_id = 1; posted_at = some 130; text = some 9 }
      ∷ record { id = 33; source = channel; message_id = 3; posted_at = none; text = none }
      ∷ [];
  accounts = (8, some 50) ∷ [];
  groups = [];
  channels = (7, none) ∷ [];
  external_accounts = [];
}

times_in_order :
    map (λ e. e.when) (build two_entities account (account ∷ channel ∷ [])).events
    ≡ 50 ∷ 120 ∷ 130 ∷ 230 ∷ 310 ∷ 310 ∷ 940 ∷ []
unfolding build collected entity_events evidence_events relationship_events message_events
    account_events sort_on insert_on lookup
times_in_order = refl

abbrev century : ℕ → ℕ
century t = t / 100

build-Shows_example :
    Shows century
      (collected two_entities (account ∷ channel ∷ []))
      (build two_entities account (account ∷ channel ∷ []))
build-Shows_example = build-Shows century two_entities account (account ∷ channel ∷ [])
