-- ===== src/Workspace/Searches.antt =====
-- `SearchRepository`. The JSON text of filters and terms is their data; a score is only stored.
use telegram_osint.Base.{
  ℕ, suc, ◌+◌, Bool, Option, none, some, List, [], ◌∷◌, ◌++◌, keep, take, length, ◌==◌,
  if◌then◌else◌, or_else, Result,
}
use telegram_osint.Base.Sorting.{sort_on}
use telegram_osint.Graph.Refs.{Ref}
use telegram_osint.Base.Sorting.{newest_first}
use telegram_osint.Workspace.Rows.{
  WorkspaceError, TaskStatus, pending, is_ended, rows_of, find_of, update_of, add_row,
}
use telegram_osint.Workspace.Targets.{Texts}

-- `Search`; a kind is a number
pub record Search : Type 0 where
  pub id : ℕ
  pub user_id : ℕ
  pub target_id : Option ℕ
  pub kind : ℕ
  pub query : ℕ
  pub filters : Option (List (ℕ × ℕ))
  pub job_id : Option ℕ
  pub status : TaskStatus
  pub result_count : ℕ
  pub created_at : ℕ
  pub completed_at : Option ℕ

-- `SearchResult`
pub record SearchResult : Type 0 where
  pub search_id : ℕ
  pub entity : Ref
  pub rank : ℕ
  pub score : ℕ
  pub snippet : Option ℕ
  pub matched_terms : Option (List ℕ)
  pub evidence_id : Option ℕ

-- one of the mappings given to `add_results`
pub record Hit : Type 0 where
  pub entity : Ref
  pub rank : Option ℕ
  pub score : Option ℕ
  pub snippet : Option ℕ
  pub matched_terms : List ℕ
  pub evidence_id : Option ℕ

-- `x if x else None` on a list
abbrev pub non_empty : {A : Type 0} → List A → Option (List A)
non_empty [] = none
non_empty (x ∷ xs) = some (x ∷ xs)

abbrev pub is_search : ℕ → Search → Bool
is_search id s = s.id == id

-- `get`
unfoldable pub get_search : ℕ → ℕ → List Search → Option Search
unfolding find_of
get_search user id rows = find_of (λ s. s.user_id) user (is_search id) rows

-- `list`
unfoldable pub list_searches : ℕ → ℕ → List Search → List Search
list_searches user limit rows =
    take limit (newest_first (λ s. s.created_at) (rows_of (λ s. s.user_id) user rows))

-- `create`
unfoldable pub create_search :
    Texts
    → ℕ
    → ℕ
    → ℕ
    → ℕ
    → ℕ
    → Option ℕ
    → List (ℕ × ℕ)
    → Option ℕ
    → List Search
    → Result WorkspaceError (List Search)
create_search texts now user id kind query target_id filters job_id rows =
    add_row (λ s. s.user_id) (λ s. s.id)
      (record {
        id = id;
        user_id = user;
        target_id = target_id;
        kind = kind;
        query = texts.strip query;
        filters = non_empty filters;
        job_id = job_id;
        status = pending;
        result_count = 0;
        created_at = now;
        completed_at = none;
      })
      rows

-- the loop of `add_results`, whose index is the rank of a result that has none
unfoldable pub result_rows : ℕ → ℕ → List Hit → List SearchResult
result_rows search_id i [] = []
result_rows search_id i (h ∷ hits) =
    record {
      search_id = search_id;
      entity = h.entity;
      rank = or_else h.rank i;
      score = or_else h.score 0;
      snippet = h.snippet;
      matched_terms = non_empty h.matched_terms;
      evidence_id = h.evidence_id;
    }
    ∷ result_rows search_id (suc i) hits

counted : ℕ → Search → Search
counted n s = record s { result_count = s.result_count + n }

-- `add_results`: the number added, the searches and the results
unfoldable pub add_results :
    ℕ → ℕ → List Hit → List Search → List SearchResult → ℕ × (List Search × List SearchResult)
unfolding counted
add_results user id hits rows results = elim (get_search user id rows) [
  | none ↦ (0, (rows, results))
  | some s ↦ (
    length hits,
    (
      update_of (λ s. s.user_id) user (is_search id) (counted (length hits)) rows,
      results ++ result_rows id 0 hits,
    ),
  )
]

marked_search : ℕ → TaskStatus → Search → Search
marked_search now status s = record s {
  status = status;
  completed_at = if is_ended status then some now else s.completed_at;
}

-- `set_status`
unfoldable pub set_search_status : ℕ → ℕ → ℕ → TaskStatus → List Search → List Search
unfolding marked_search
set_search_status now user id status rows =
    update_of (λ s. s.user_id) user (is_search id) (marked_search now status) rows

-- `results`
unfoldable pub search_results : ℕ → ℕ → ℕ → List Search → List SearchResult → List SearchResult
search_results user id limit rows results = elim (get_search user id rows) [
  | none ↦ []
  | some s ↦ take limit (sort_on (λ r. r.rank) (keep (λ r. r.search_id == id) results))
]
