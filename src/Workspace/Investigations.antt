-- ===== src/Workspace/Investigations.antt =====
-- `InvestigationRepository`. The random part of a public id and the primary keys are arguments; the
-- summary, which the code keeps as JSON text, is a record.
use telegram_osint.Base.{
  ℕ, Bool, true, false, not, ◌&&◌, Option, none, some, List, [], ◌∷◌, ◌++◌, keep, any, take, ◌==◌,
  if◌then◌else◌, is_some, or_else, Result, err,
}
use telegram_osint.Base.Sorting.{sort_on}
use telegram_osint.Base.Sorting.{newest_first}
use telegram_osint.Workspace.Rows.{
  WorkspaceError, integrity_error, rows_of, find_of, update_of, add_row,
}
use telegram_osint.Workspace.Targets.{TargetKind, telegram_user, telegram_id, Texts}
use telegram_osint.Workspace.Reports.{given_error}

-- `InvestigationStatus`
pub data InvestigationStatus : Type 0 where
  queued : InvestigationStatus
  running : InvestigationStatus
  completed : InvestigationStatus
  failed : InvestigationStatus
  cancelled : InvestigationStatus

-- `InvestigationStatus.is_terminal`
abbrev pub is_final : InvestigationStatus → Bool
is_final completed = true
is_final failed = true
is_final cancelled = true
is_final _ = false

abbrev pub is_running : InvestigationStatus → Bool
is_running running = true
is_running _ = false

-- `ObservationType`
pub data ObservationType : Type 0 where
  author : ObservationType
  mention : ObservationType
  reply : ObservationType
  reference : ObservationType
  unknown : ObservationType

-- the result of `_count`, with the numbers of aliases and indicators
pub record Counts : Type 0 where
  pub observations : ℕ
  pub authors : ℕ
  pub mentions : ℕ
  pub replies : ℕ
  pub references : ℕ
  pub unknowns : ℕ
  pub resources : ℕ
  pub aliases : ℕ
  pub iocs : ℕ

-- the data of the narrative's text
pub data Narrative : Type 0 where
  no_source : ℕ → Narrative
  no_operator : ℕ → Narrative
  found : ℕ → ℕ → ℕ → ℕ → Narrative
  refused : ℕ → Narrative

-- the data of `summary_json`; a limitation is its place in the list of the texts
pub record Summary : Type 0 where
  pub target_type : TargetKind
  pub canonical : ℕ
  pub counts : Counts
  pub narrative : Narrative
  pub limitations : List ℕ
  pub notes : List ℕ
  pub profile : Option ℕ
  pub aliases : List ℕ
  pub iocs : List (ℕ × ℕ)

-- `Investigation`
pub record Investigation : Type 0 where
  pub id : ℕ
  pub user_id : ℕ
  pub public_id : ℕ
  pub target : ℕ
  pub target_type : TargetKind
  pub target_normalized : ℕ
  pub status : InvestigationStatus
  pub job_id : Option ℕ
  pub report_id : Option ℕ
  pub confidence : Option ℕ
  pub summary : Option Summary
  pub error : Option ℕ
  pub started_at : Option ℕ
  pub completed_at : Option ℕ
  pub created_at : ℕ

-- `InvestigationObservation`
pub record Observation : Type 0 where
  pub investigation_id : ℕ
  pub observation_type : ObservationType
  pub resource_kind : ℕ
  pub resource_ref : ℕ
  pub resource_url : Option ℕ
  pub message_ref : Option ℕ
  pub snippet : Option ℕ
  pub observed_at : Option ℕ
  pub source : ℕ
  pub confidence : ℕ
  pub evidence_id : Option ℕ

abbrev pub is_investigation : ℕ → Investigation → Bool
is_investigation id inv = inv.id == id

-- `get`
unfoldable pub get : ℕ → ℕ → List Investigation → Option Investigation
unfolding find_of
get user id rows = find_of (λ inv. inv.user_id) user (is_investigation id) rows

-- `get_by_public_id`, of the text in capitals and without spaces
unfoldable pub get_by_public_id : ℕ → ℕ → List Investigation → Option Investigation
unfolding find_of
get_by_public_id user public_id rows =
    find_of (λ inv. inv.user_id) user (λ inv. inv.public_id == public_id) rows

-- `list`
unfoldable pub list : ℕ → ℕ → List Investigation → List Investigation
list user limit rows =
    take limit (newest_first (λ inv. inv.created_at) (rows_of (λ inv. inv.user_id) user rows))

-- `_detect_target_type`, where `is_number` says whether the text without spaces and signs @ is digits
unfoldable pub detect_target_type : (ℕ → Bool) → ℕ → TargetKind
detect_target_type is_number raw = if is_number raw then telegram_id else telegram_user

-- `create`; the public id is unique
unfoldable pub create_investigation :
    Texts
    → (ℕ → Bool)
    → ℕ
    → ℕ
    → ℕ
    → ℕ
    → ℕ
    → ℕ
    → List Investigation
    → Result WorkspaceError (List Investigation)
unfolding detect_target_type
create_investigation texts is_number now user id public_id target target_normalized rows =
    if any (λ inv. inv.public_id == public_id) rows
    then err integrity_error
    else add_row (λ inv. inv.user_id) (λ inv. inv.id)
        (record {
          id = id;
          user_id = user;
          public_id = public_id;
          target = texts.strip target;
          target_type = detect_target_type is_number target;
          target_normalized = target_normalized;
          status = queued;
          job_id = none;
          report_id = none;
          confidence = none;
          summary = none;
          error = none;
          started_at = none;
          completed_at = none;
          created_at = now;
        })
        rows

-- the assignments of `set_status`
unfoldable pub with_status : ℕ → InvestigationStatus → Option ℕ → Investigation → Investigation
with_status now status error inv = record inv {
  status = status;
  started_at =
      if is_running status && not (is_some inv.started_at) then some now else inv.started_at;
  completed_at = if is_final status then some now else inv.completed_at;
  error = given_error error inv.error;
}

-- `set_status`
unfoldable pub set_status :
    ℕ → ℕ → ℕ → InvestigationStatus → Option ℕ → List Investigation → List Investigation
set_status now user id status error rows =
    update_of (λ inv. inv.user_id) user (is_investigation id) (with_status now status error) rows

-- `add_observation`
unfoldable pub add_observation : Observation → List Observation → List Observation
add_observation obs rows = rows ++ (obs ∷ [])

-- `observations`: those without a time come last
unfoldable pub observations : ℕ → List Observation → List Observation
observations investigation_id rows =
    let found = keep (λ o. o.investigation_id == investigation_id) rows in
    sort_on (λ o. or_else o.observed_at 0) (keep (λ o. is_some o.observed_at) found)
    ++ keep (λ o. not (is_some o.observed_at)) found
