-- ===== src/Investigation/Service.antt =====
-- `InvestigationService.run`: the steps in order. The failures of a report are caught; those of the
-- collectors, of the username search and of the extraction are not.
use telegram_osint.Base.{
  any, ℕ, true, not, Option, none, some, List, [], ◌∷◌, ◌++◌, map, keep, length, ltb, ◌==◌,
  if◌then◌else◌, is_some, Result, ok, err,
}
use telegram_osint.Workspace.Rows.{update_of}
use telegram_osint.Workspace.Investigations.{
  Investigation, Observation, Counts, Summary, Narrative, refused, InvestigationStatus, running,
  completed, failed, get, set_status, is_investigation,
}
use telegram_osint.Monitor.Poll.{sorted_union}
use telegram_osint.Indicators.Matches.{ExtractError}
use telegram_osint.Investigation.Target.{
  InvalidTarget, ParsedTarget, is_username_target, parse_target,
}
use telegram_osint.Investigation.Classify.{classify_raises}
use telegram_osint.Investigation.Observe.{
  Item, Collected, Alias, Outside, Seen, posts_of, build_observations, count, all_iocs, greatest,
  overall_confidence, narrative, account_item,
}

-- the tables that a run writes
pub record Db : Type 0 where
  pub investigations : List Investigation
  pub observations : List Observation

-- `LookupError`, and what escapes from a collector or the username search, and from the extraction
pub data RunError : Type 0 where
  not_found : ℕ → RunError
  step_raised : ℕ → RunError
  extraction_failed : ExtractError → RunError

-- `InvestigationResult`
pub record InvestigationResult : Type 0 where
  pub investigation_id : ℕ
  pub public_id : ℕ
  pub status : InvestigationStatus
  pub counts : Option Counts
  pub confidence : Option ℕ
  pub narrative : Narrative
  pub limitations : List ℕ
  pub report_id : Option ℕ

abbrev pub base_limitations : List ℕ
base_limitations = 0 ∷ 1 ∷ 2 ∷ 3 ∷ []

abbrev pub limitations_of : Outside → List ℕ
limitations_of o =
    base_limitations
    ++ ((if o.operator_configured then [] else 4 ∷ [])
        ++ (if o.profile.without_source then 5 ∷ [] else []))

-- the last `telegram_account` of the profile's records
abbrev pub profile_of : List Item → Option ℕ → Option ℕ
profile_of [] last = last
profile_of (account_item a ∷ items) last = profile_of items (some a)
profile_of (_ ∷ items) last = profile_of items last

-- the result of the message search, if there is a source
abbrev pub searched : Outside → Collected
searched o =
    if o.profile.without_source
    then record { without_source = true; notes = []; items = [] }
    else o.messages

-- the exception of the first call that raises: the profile, then the messages if there is a source, the
-- classification of a message, and the username search for a username
unfoldable pub first_raised : Outside → ParsedTarget → Option ℕ
first_raised o target = elim o.profile_raised [
  | some e ↦ some e
  | none ↦ elim (if o.profile.without_source then none else o.messages_raised) [
    | some e ↦ some e
    | none ↦
        if any (λ m. classify_raises o.texts target m.message) (posts_of (searched o).items)
        then some o.classifier_raised
        else if is_username_target target
        then o.aliases_raised
        else none
  ]
]

-- the result of the username search, for a username
abbrev pub aliases_for : Outside → ParsedTarget → List Alias
aliases_for o target = if is_username_target target then o.aliases else []

abbrev pub notes_of : Outside → ParsedTarget → List ℕ
notes_of o target =
    let notes =
      o.profile.notes
      ++ ((searched o).notes ++ (if is_username_target target then o.alias_notes else [])) in
    sorted_union (keep (λ n. ltb 0 n) notes) []

unfoldable pub summary_of : Outside → ParsedTarget → List Seen → List (ℕ × ℕ) → Summary
summary_of o target seen iocs =
    let c = count seen (length (aliases_for o target)) (length iocs) in
    record {
      target_type = target.target_type;
      canonical = target.canonical;
      counts = c;
      narrative = narrative c (not o.profile.without_source) o.operator_configured;
      limitations = limitations_of o;
      notes = notes_of o target;
      profile = profile_of o.profile.items none;
      aliases = map (λ a. a.body) (aliases_for o target);
      iocs = iocs;
    }

unfoldable pub confidence_of : Outside → ParsedTarget → List Seen → Option ℕ
confidence_of o target seen =
    overall_confidence seen (greatest (map (λ a. a.confidence) (aliases_for o target)))
      (not o.profile.without_source)

-- `inv.confidence`, `inv.summary_json` and `inv.report_id`
unfoldable pub concluded : Option ℕ → Summary → Option ℕ → Investigation → Investigation
concluded confidence summary report inv = record inv {
  confidence = confidence;
  summary = some summary;
  report_id = if is_some report then report else inv.report_id;
}

-- a target that is refused
unfoldable pub refuse :
    Outside → ℕ → ℕ → ℕ → Investigation → InvalidTarget → Db → InvestigationResult × Db
refuse o now user id inv e db = (
  record {
    investigation_id = inv.id;
    public_id = inv.public_id;
    status = failed;
    counts = none;
    confidence = none;
    narrative = refused (o.error_text e);
    limitations = [];
    report_id = none;
  },
  record db {
    investigations =
        set_status now user id failed (some (o.prefixed (o.error_text e))) db.investigations;
  },
)

-- the steps from the conclusion on
unfoldable pub conclude :
    Outside
    → ℕ
    → ℕ
    → ℕ
    → Investigation
    → ParsedTarget
    → List Seen
    → List (ℕ × ℕ)
    → Db
    → InvestigationResult × Db
conclude o now user id inv target seen iocs db =
    let summary = summary_of o target seen iocs in
    let confidence = confidence_of o target seen in
    (
      record {
        investigation_id = inv.id;
        public_id = inv.public_id;
        status = completed;
        counts = some summary.counts;
        confidence = confidence;
        narrative = summary.narrative;
        limitations = summary.limitations;
        report_id = o.report;
      },
      record db {
        investigations = set_status now user id completed none (
            update_of (λ i. i.user_id) user (is_investigation id)
              (concluded confidence summary o.report) db.investigations);
      },
    )

-- the steps of a target that is parsed
unfoldable pub investigate :
    Outside
    → ℕ
    → ℕ
    → ℕ
    → Investigation
    → ParsedTarget
    → Db
    → Result RunError (InvestigationResult × Db)
investigate o now user id inv target db = elim (first_raised o target) [
  | some e ↦ err (step_raised e)
  | none ↦
      let built =
        build_observations o target inv.id (posts_of (searched o).items) db.observations in
      elim (all_iocs o built.0 []) [
        | err e ↦ err (extraction_failed e)
        | ok iocs ↦
            ok (
              conclude o now user id inv target built.0 iocs (record db { observations = built.1 }))
      ]
]

-- `run`
unfoldable pub run : Outside → ℕ → ℕ → ℕ → Db → Result RunError (InvestigationResult × Db)
run o now user id db = elim (get user id db.investigations) [
  | none ↦ err (not_found id)
  | some inv ↦
      let db₁ : Db = record db {
        investigations = set_status now user id running none db.investigations;
      } in
      elim (parse_target o.patterns (some inv.target)) [
        | err e ↦ ok (refuse o now user id inv e db₁)
        | ok target ↦ investigate o now user id inv target db₁
      ]
]

linked : ℕ → Investigation → Investigation
linked job_id inv = record inv { job_id = some job_id }

-- `link_job`
unfoldable pub link_job : ℕ → ℕ → List Investigation → List Investigation
unfolding linked
link_job id job_id rows = map (λ inv. if inv.id == id then linked job_id inv else inv) rows
