-- ===== src/Workspace/Watchlists.antt =====
-- `WatchlistRepository`.
use telegram_osint.Base.{
  ℕ, Bool, true, false, not, ◌&&◌, ◌||◌, Option, none, some, List, keep, length, leb, ◌==◌,
  if◌then◌else◌, Result, ok, err,
}
use telegram_osint.Base.Sorting.{newest_first}
use telegram_osint.Workspace.Rows.{
  WorkspaceError, invalid_value, watchlist_limit_reached, rows_of, find_of, update_of, add_row,
}
use telegram_osint.Workspace.Targets.{TargetKind, same_kind, Texts, normalize_for_kind}
use telegram_osint.Workspace.Searches.{non_empty}

-- `Watchlist`, without the columns of the polls
pub record WatchEntry : Type 0 where
  pub id : ℕ
  pub user_id : ℕ
  pub target_id : Option ℕ
  pub kind : TargetKind
  pub value : ℕ
  pub value_normalized : ℕ
  pub sources : Option (List ℕ)
  pub is_active : Bool
  pub created_at : ℕ

-- `get`
unfoldable pub get_watch : ℕ → ℕ → List WatchEntry → Option WatchEntry
unfolding find_of
get_watch user id rows = find_of (λ w. w.user_id) user (λ w. w.id == id) rows

-- `list`
unfoldable pub list_watches : ℕ → Bool → List WatchEntry → List WatchEntry
list_watches user active_only rows =
    newest_first (λ w. w.created_at)
      (keep (λ w. not active_only || w.is_active) (rows_of (λ w. w.user_id) user rows))

-- `count_active`
unfoldable pub count_active : ℕ → List WatchEntry → ℕ
unfolding list_watches
count_active user rows = length (list_watches user true rows)

abbrev pub is_entry : TargetKind → ℕ → WatchEntry → Bool
is_entry kind norm w = same_kind w.kind kind && w.value_normalized == norm

abbrev pub set_active : Bool → WatchEntry → WatchEntry
set_active b w = record w { is_active = b }

-- `max_targets is not None and count_active() >= max_targets`
unfoldable pub is_full : ℕ → Option ℕ → List WatchEntry → Bool
is_full user none rows = false
is_full user (some max_targets) rows = leb max_targets (count_active user rows)

abbrev pub limit_of : Option ℕ → ℕ
limit_of none = 0
limit_of (some m) = m

-- `add`: the entry, whether it is new, and the table
unfoldable pub add :
    Texts
    → ℕ
    → ℕ
    → ℕ
    → TargetKind
    → ℕ
    → List ℕ
    → Option ℕ
    → Option ℕ
    → List WatchEntry
    → Result WorkspaceError ((WatchEntry × Bool) × List WatchEntry)
add texts now user id kind value sources target_id max_targets rows =
    let norm = normalize_for_kind texts kind value in
    let new : WatchEntry = record {
      id = id;
      user_id = user;
      target_id = target_id;
      kind = kind;
      value = texts.strip value;
      value_normalized = norm;
      sources = non_empty sources;
      is_active = true;
      created_at = now;
    } in
    if texts.normalize_raises kind value
    then err invalid_value
    else elim (find_of (λ w. w.user_id) user (is_entry kind norm) rows) [
      | some w ↦ ok (
        (set_active true w, false),
        update_of (λ w. w.user_id) user (is_entry kind norm) (set_active true) rows,
      )
      | none ↦
          if is_full user max_targets rows
          then err (watchlist_limit_reached (limit_of max_targets))
          else elim (add_row (λ w. w.user_id) (λ w. w.id) new rows) [
            | err e ↦ err e
            | ok rows' ↦ ok ((new, true), rows')
          ]
    ]

-- `remove`
unfoldable pub remove :
    Texts → ℕ → TargetKind → ℕ → List WatchEntry → Result WorkspaceError (Bool × List WatchEntry)
remove texts user kind value rows =
    let norm = normalize_for_kind texts kind value in
    if texts.normalize_raises kind value
    then err invalid_value
    else elim (find_of (λ w. w.user_id) user (is_entry kind norm) rows) [
      | none ↦ ok (false, rows)
      | some w ↦
          if not w.is_active
          then ok (false, rows)
          else ok
              (true, update_of (λ w. w.user_id) user (is_entry kind norm) (set_active false) rows)
    ]
