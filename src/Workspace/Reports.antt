-- ===== src/Workspace/Reports.antt =====
-- `ReportRepository`.
use telegram_osint.Base.{
  ℕ, Bool, not, ◌&&◌, Option, none, some, List, keep, take, ◌==◌, if◌then◌else◌, is_some, Result,
}
use telegram_osint.Base.Sorting.{newest_first}
use telegram_osint.Workspace.Rows.{
  WorkspaceError, TaskStatus, pending, is_ended, rows_of, find_of, update_of, add_row,
}

-- `Report`
pub record Report : Type 0 where
  pub id : ℕ
  pub user_id : ℕ
  pub target_id : Option ℕ
  pub job_id : Option ℕ
  pub title : ℕ
  pub status : TaskStatus
  pub error : Option ℕ
  pub generated_at : Option ℕ
  pub created_at : ℕ
  pub deleted_at : Option ℕ

abbrev pub is_kept_report : ℕ → Report → Bool
is_kept_report id r = r.id == id && not (is_some r.deleted_at)

-- `get`
unfoldable pub get_report : ℕ → ℕ → List Report → Option Report
unfolding find_of
get_report user id rows = find_of (λ r. r.user_id) user (is_kept_report id) rows

-- `list`
unfoldable pub list_reports : ℕ → ℕ → List Report → List Report
list_reports user limit rows = take limit (
    newest_first (λ r. r.created_at)
      (keep (λ r. not (is_some r.deleted_at)) (rows_of (λ r. r.user_id) user rows)))

-- `create`
unfoldable pub create_report :
    ℕ → ℕ → ℕ → ℕ → Option ℕ → Option ℕ → List Report → Result WorkspaceError (List Report)
create_report now user id title target_id job_id rows =
    add_row (λ r. r.user_id) (λ r. r.id)
      (record {
        id = id;
        user_id = user;
        target_id = target_id;
        job_id = job_id;
        title = title;
        status = pending;
        error = none;
        generated_at = none;
        created_at = now;
        deleted_at = none;
      })
      rows

-- `x if x else None` on a text
abbrev pub given_error : Option ℕ → Option ℕ → Option ℕ
given_error none old = old
given_error (some e) old = if e == 0 then old else some e

marked_report : ℕ → TaskStatus → Option ℕ → Report → Report
marked_report now status error r = record r {
  status = status;
  error = given_error error r.error;
  generated_at = if is_ended status then some now else r.generated_at;
}

-- `set_status`
unfoldable pub set_report_status : ℕ → ℕ → ℕ → TaskStatus → Option ℕ → List Report → List Report
unfolding marked_report
set_report_status now user id status error rows =
    update_of (λ r. r.user_id) user (is_kept_report id) (marked_report now status error) rows
