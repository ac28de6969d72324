-- ===== src/Workspace/Tests.antt =====
-- Tests and witnesses of the workspace tables.
use telegram_osint.Base.{ℕ, ◌+◌, ◌<◌, refl, true, false, none, some, List, [], ◌∷◌, arith}
use telegram_osint.Base.Sorting.{sort_on, insert_on}
use telegram_osint.Workspace.Rows.{find_of, completed}
use telegram_osint.Workspace.Targets.{Texts, domain, normalize_for_kind}
use telegram_osint.Workspace.Searches.{Search, Hit}
use telegram_osint.Workspace.Watchlists.{WatchEntry, count_active, is_entry, add, list_watches}
use telegram_osint.Workspace.Commands.{
  Workspace, Command, target_get_or_create, search_add_results, watchlist_remove, report_create,
  investigation_add_observation, committed, perform_all,
}
use telegram_osint.Workspace.Investigations.{Observation, mention}
use telegram_osint.Workspace.Private.{perform_all-SameFor}
use telegram_osint.Workspace.Unseen.{SameFor}
use telegram_osint.Workspace.Limit.{Added, add-Added, re_add_exceeds}

abbrev plain : Texts
plain = record {
  strip = λ t. t;
  normalize_raises = λ k t. false;
  normalize_domain = λ t. t;
  normalize_email = λ t. t + 1;
  normalize_username = λ t. t;
}

abbrev entry : ℕ → ℕ → WatchEntry
entry id value = record {
  id = id;
  user_id = 1;
  target_id = none;
  kind = domain;
  value = value;
  value_normalized = value;
  sources = none;
  is_active = true;
  created_at = id;
}

abbrev search : ℕ → ℕ → Search
search id user = record {
  id = id;
  user_id = user;
  target_id = none;
  kind = 0;
  query = 5;
  filters = none;
  job_id = none;
  status = completed;
  result_count = 0;
  created_at = 3;
  completed_at = none;
}

abbrev two_users : Workspace
two_users = record {
  targets = [];
  searches = search 10 1 ∷ search 11 2 ∷ [];
  results = [];
  watchlist = entry 20 7 ∷ entry 21 8 ∷ [];
  reports = [];
  investigations = [];
  observations = [];
}

abbrev hit : Hit
hit = record {
  entity = (1, 2);
  rank = none;
  score = none;
  snippet = none;
  matched_terms = [];
  evidence_id = none;
}

abbrev sighting : Observation
sighting = record {
  investigation_id = 50;
  observation_type = mention;
  resource_kind = 0;
  resource_ref = 5;
  resource_url = none;
  message_ref = none;
  snippet = none;
  observed_at = none;
  source = 1;
  confidence = 60;
  evidence_id = none;
}

-- a user who tries the rows of another, too
abbrev busy_day : List (ℕ × Command)
busy_day =
    (2, target_get_or_create 50 30 domain 7 none)
    ∷ (2, search_add_results 10 (hit ∷ []))
    ∷ (2, search_add_results 11 (hit ∷ hit ∷ []))
    ∷ (2, watchlist_remove domain 7)
    ∷ (0, report_create 51 40 6 none none)
    ∷ (3, report_create 52 40 6 none none)
    ∷ (2, investigation_add_observation sighting)
    ∷ []

perform_all-SameFor_example :
    SameFor 1 (sighting ∷ []) two_users (perform_all plain busy_day two_users)
perform_all-SameFor_example = perform_all-SameFor plain 1 busy_day two_users refl (
  ground arith,
  (
    ground arith,
    (ground arith, (ground arith, (ground arith, (ground arith, (ground arith, tt))))),
  ),
)

abbrev resting : WatchEntry
resting = record (entry 22 9) { is_active = false }

-- with two active entries of at most two, and one that was removed
abbrev full_list : List WatchEntry
full_list = entry 20 7 ∷ entry 21 8 ∷ resting ∷ []

add-Added_example :
    Added false 1
      (some 2)
      (is_entry domain (normalize_for_kind plain domain 9))
      full_list
      (add plain 60 1 23 domain 9 [] none (some 2) full_list)
add-Added_example = add-Added plain 60 1 23 domain 9 [] none (some 2) full_list

re_add_exceeds_example :
    2
    < count_active 1
        (committed (λ out. out.1) full_list (add plain 60 1 23 domain 9 [] none (some 2) full_list))
unfolding find_of count_active list_watches normalize_for_kind sort_on insert_on
re_add_exceeds_example =
    re_add_exceeds plain 60 1 23 domain 9 [] none 2 full_list resting refl refl refl (omega arith)
