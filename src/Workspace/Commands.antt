-- ===== src/Workspace/Commands.antt =====
-- The writes of the repositories as commands of a user on all the tables. A session that raises writes
-- nothing.
use telegram_osint.Base.{ℕ, Bool, Option, List, [], ◌∷◌, Result, ok, err}
use telegram_osint.Workspace.Rows.{WorkspaceError, TaskStatus, scoped}
use telegram_osint.Workspace.Targets.{Texts, TargetKind, Target, get_or_create, soft_delete}
use telegram_osint.Workspace.Searches.{
  Search, SearchResult, Hit, create_search, add_results, set_search_status,
}
use telegram_osint.Workspace.Watchlists.{WatchEntry, add, remove}
use telegram_osint.Workspace.Reports.{Report, create_report, set_report_status}
use telegram_osint.Workspace.Investigations.{
  Investigation, Observation, InvestigationStatus, create_investigation, set_status,
  add_observation,
}

pub record Workspace : Type 0 where
  pub targets : List Target
  pub searches : List Search
  pub results : List SearchResult
  pub watchlist : List WatchEntry
  pub reports : List Report
  pub investigations : List Investigation
  pub observations : List Observation

-- the writes, with the time, the new primary key and the keyword arguments
pub data Command : Type 0 where
  target_get_or_create : ℕ → ℕ → TargetKind → ℕ → Option ℕ → Command
  target_soft_delete : ℕ → ℕ → Command
  search_create : ℕ → ℕ → ℕ → ℕ → Option ℕ → List (ℕ × ℕ) → Option ℕ → Command
  search_add_results : ℕ → List Hit → Command
  search_set_status : ℕ → ℕ → TaskStatus → Command
  watchlist_add : ℕ → ℕ → TargetKind → ℕ → List ℕ → Option ℕ → Option ℕ → Command
  watchlist_remove : TargetKind → ℕ → Command
  report_create : ℕ → ℕ → ℕ → Option ℕ → Option ℕ → Command
  report_set_status : ℕ → ℕ → TaskStatus → Option ℕ → Command
  investigation_create : (ℕ → Bool) → ℕ → ℕ → ℕ → ℕ → ℕ → Command
  investigation_set_status : ℕ → ℕ → InvestigationStatus → Option ℕ → Command
  investigation_add_observation : Observation → Command

-- what a write that may raise leaves
abbrev pub committed : {A : Type 0} {B : Type 0} → (A → B) → B → Result WorkspaceError A → B
committed f old (err e) = old
committed f old (ok a) = f a

unfoldable pub perform : Texts → ℕ → Command → Workspace → Workspace
perform texts user (target_get_or_create now id kind value label) ws = record ws {
  targets =
      committed (λ out. out.1) ws.targets
        (get_or_create texts now user id kind value label ws.targets);
}
perform texts user (target_soft_delete now id) ws = record ws {
  targets = (soft_delete now user id ws.targets).1;
}
perform texts user (search_create now id kind query target_id filters job_id) ws = record ws {
  searches =
      committed (λ rows. rows) ws.searches
        (create_search texts now user id kind query target_id filters job_id ws.searches);
}
perform texts user (search_add_results id hits) ws =
    let out = add_results user id hits ws.searches ws.results in
    record ws { searches = out.1.0; results = out.1.1 }
perform texts user (search_set_status now id status) ws = record ws {
  searches = set_search_status now user id status ws.searches;
}
perform texts user (watchlist_add now id kind value sources target_id max_targets) ws = record ws {
  watchlist =
      committed (λ out. out.1) ws.watchlist
        (add texts now user id kind value sources target_id max_targets ws.watchlist);
}
perform texts user (watchlist_remove kind value) ws = record ws {
  watchlist = committed (λ out. out.1) ws.watchlist (remove texts user kind value ws.watchlist);
}
perform texts user (report_create now id title target_id job_id) ws = record ws {
  reports =
      committed (λ rows. rows) ws.reports
        (create_report now user id title target_id job_id ws.reports);
}
perform texts user (report_set_status now id status error) ws = record ws {
  reports = set_report_status now user id status error ws.reports;
}
perform texts user (investigation_create is_number now id public_id target norm) ws = record ws {
  investigations =
      committed (λ rows. rows) ws.investigations
        (create_investigation texts is_number now user id public_id target norm ws.investigations);
}
perform texts user (investigation_set_status now id status error) ws = record ws {
  investigations = set_status now user id status error ws.investigations;
}
perform texts user (investigation_add_observation obs) ws = record ws {
  observations = add_observation obs ws.observations;
}

-- one command after the other, each through a repository of its user
unfoldable pub perform_all : Texts → List (ℕ × Command) → Workspace → Workspace
perform_all texts [] ws = ws
perform_all texts ((user, command) ∷ commands) ws =
    perform_all texts commands (committed (λ u. perform texts u command ws) ws (scoped user))
