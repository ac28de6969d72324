-- ===== src/Workspace/Unseen.antt =====
-- What one command of another user leaves to a user.
use telegram_osint.Base.{
  Bool, false, [], ◌∷◌, ◌++◌, keep, any, ◌==◌, arith, ℕ, ◌≡◌, ◌≢◌, refl, true, List,
}
use telegram_osint.Workspace.Rows.{rows_of, distinct}
use telegram_osint.Workspace.Targets.{Texts, Target}
use telegram_osint.Workspace.Watchlists.{WatchEntry}
use telegram_osint.Workspace.Reports.{Report}
use telegram_osint.Workspace.Investigations.{
  Investigation, Observation, observations, add_observation,
}
use telegram_osint.Workspace.Searches.{Search, SearchResult, search_results}
use telegram_osint.Workspace.Commands.{
  Workspace, Command, target_get_or_create, target_soft_delete, search_create, search_add_results,
  search_set_status, watchlist_add, watchlist_remove, report_create, report_set_status,
  investigation_create, investigation_set_status, investigation_add_observation, perform,
}
use telegram_osint.Workspace.Results.{search_results-same, results-add_results}
use telegram_osint.Workspace.Isolation.{
  targets-get_or_create, targets-soft_delete, watchlist-add, watchlist-remove,
  investigations-create, searches-create, searches-set_status, searches-add_results, reports-create,
  reports-set_status, investigations-set_status,
}

-- A user reads the same from two states of the tables, save for the observations `added`, which are read
-- with the investigation that they name.
pub record SameFor (user : ℕ) (added : List Observation) (ws : Workspace) (ws' : Workspace)
    : Type 0 where
  pub targets : rows_of (λ t. t.user_id) user ws'.targets ≡ rows_of (λ t. t.user_id) user ws.targets
  pub searches :
      rows_of (λ s. s.user_id) user ws'.searches ≡ rows_of (λ s. s.user_id) user ws.searches
  pub results :
      (id limit : ℕ)
      → search_results user id limit ws'.searches ws'.results
        ≡ search_results user id limit ws.searches ws.results
  pub watchlist :
      rows_of (λ w. w.user_id) user ws'.watchlist ≡ rows_of (λ w. w.user_id) user ws.watchlist
  pub reports : rows_of (λ r. r.user_id) user ws'.reports ≡ rows_of (λ r. r.user_id) user ws.reports
  pub investigations :
      rows_of (λ i. i.user_id) user ws'.investigations
      ≡ rows_of (λ i. i.user_id) user ws.investigations
  pub observed :
      (id : ℕ)
      → any (λ o. o.investigation_id == id) added ≡ false
      → observations id ws'.observations ≡ observations id ws.observations

-- the observations that a command adds
abbrev pub added_by : Command → List Observation
added_by (investigation_add_observation obs) = obs ∷ []
added_by _ = []

keep-append_other :
    {A : Type 0} (p : A → Bool) (x : A) (xs : List A)
    → p x ≡ false
    → keep p (xs ++ (x ∷ [])) ≡ keep p xs
keep-append_other p x [] h = rw h refl
keep-append_other p x (y ∷ ys) h = ground (arith, h, keep-append_other p x ys h)

observations-add :
    (id : ℕ) (obs : Observation) (rows : List Observation)
    → (obs.investigation_id == id) ≡ false
    → observations id (add_observation obs rows) ≡ observations id rows
unfolding observations add_observation
observations-add id obs rows h =
    rw (keep-append_other (λ (o : Observation). o.investigation_id == id) obs rows h) refl

-- No search has the primary key of another.
abbrev pub IsKeyed : Workspace → Type 0
IsKeyed ws = distinct (λ (s : Search). s.user_id) (λ s. s.id) ws.searches ≡ true

module _ (other : ℕ) (ws : Workspace) where
  pub touch_targets :
      (rows : List Target)
      → rows_of (λ r. r.user_id) other rows ≡ rows_of (λ r. r.user_id) other ws.targets
      → SameFor other [] ws (record ws { targets = rows })
  touch_targets rows e = record {
    targets = e;
    searches = refl;
    results = λ id limit. refl;
    watchlist = refl;
    reports = refl;
    investigations = refl;
    observed = λ id h. refl;
  }

  touch_watchlist :
      (rows : List WatchEntry)
      → rows_of (λ r. r.user_id) other rows ≡ rows_of (λ r. r.user_id) other ws.watchlist
      → SameFor other [] ws (record ws { watchlist = rows })
  touch_watchlist rows e = record {
    targets = refl;
    searches = refl;
    results = λ id limit. refl;
    watchlist = e;
    reports = refl;
    investigations = refl;
    observed = λ id h. refl;
  }

  touch_reports :
      (rows : List Report)
      → rows_of (λ r. r.user_id) other rows ≡ rows_of (λ r. r.user_id) other ws.reports
      → SameFor other [] ws (record ws { reports = rows })
  touch_reports rows e = record {
    targets = refl;
    searches = refl;
    results = λ id limit. refl;
    watchlist = refl;
    reports = e;
    investigations = refl;
    observed = λ id h. refl;
  }

  touch_investigations :
      (rows : List Investigation)
      → rows_of (λ r. r.user_id) other rows ≡ rows_of (λ r. r.user_id) other ws.investigations
      → SameFor other [] ws (record ws { investigations = rows })
  touch_investigations rows e = record {
    targets = refl;
    searches = refl;
    results = λ id limit. refl;
    watchlist = refl;
    reports = refl;
    investigations = e;
    observed = λ id h. refl;
  }

  touch_searches :
      (rows : List Search) (results : List SearchResult)
      → rows_of (λ s. s.user_id) other rows ≡ rows_of (λ s. s.user_id) other ws.searches
      → ((id limit : ℕ)
          → search_results other id limit rows results
            ≡ search_results other id limit ws.searches ws.results)
      → SameFor other [] ws (record ws { searches = rows; results = results })
  touch_searches rows results e h = record {
    targets = refl;
    searches = e;
    results = h;
    watchlist = refl;
    reports = refl;
    investigations = refl;
    observed = λ id h. refl;
  }

pub perform-SameFor :
    (texts : Texts) (user other : ℕ) (command : Command) (ws : Workspace)
    → IsKeyed ws
    → other ≢ user
    → SameFor other (added_by command) ws (perform texts user command ws)
unfolding perform
perform-SameFor texts user other (target_get_or_create now id kind value label) ws d ne =
    touch_targets other ws _
      (targets-get_or_create texts user other ne now id kind value label ws.targets)
perform-SameFor texts user other (target_soft_delete now id) ws d ne =
    touch_targets other ws _ (targets-soft_delete texts user other ne now id ws.targets)
perform-SameFor texts user other (search_create now id kind query target_id filters job_id) ws d
      ne =
    let e =
      searches-create texts user other ne now id kind query target_id filters job_id ws.searches in
    touch_searches other ws _ ws.results e
      (λ k limit. search_results-same other k limit ws.searches _ ws.results e)
perform-SameFor texts user other (search_add_results id hits) ws d ne =
    touch_searches other ws _ _
      (searches-add_results texts user other ne id hits ws.searches ws.results)
      (results-add_results user other id hits ws.searches ws.results d ne)
perform-SameFor texts user other (search_set_status now id status) ws d ne =
    let e = searches-set_status texts user other ne now id status ws.searches in
    touch_searches other ws _ ws.results e
      (λ k limit. search_results-same other k limit ws.searches _ ws.results e)
perform-SameFor texts user other (watchlist_add now id kind value sources target_id max_targets) ws
      d ne =
    touch_watchlist other ws _ (
      watchlist-add texts user other ne now id kind value sources target_id max_targets
        ws.watchlist)
perform-SameFor texts user other (watchlist_remove kind value) ws d ne =
    touch_watchlist other ws _ (watchlist-remove texts user other ne kind value ws.watchlist)
perform-SameFor texts user other (report_create now id title target_id job_id) ws d ne =
    touch_reports other ws _
      (reports-create texts user other ne now id title target_id job_id ws.reports)
perform-SameFor texts user other (report_set_status now id status error) ws d ne =
    touch_reports other ws _ (reports-set_status texts user other ne now id status error ws.reports)
perform-SameFor texts user other (investigation_create is_number now id public_id target norm) ws d
      ne =
    touch_investigations other ws _ (
      investigations-create texts user other ne is_number now id public_id target norm
        ws.investigations)
perform-SameFor texts user other (investigation_set_status now id status error) ws d ne =
    touch_investigations other ws _
      (investigations-set_status texts user other ne now id status error ws.investigations)
perform-SameFor texts user other (investigation_add_observation obs) ws d ne = record {
  targets = refl;
  searches = refl;
  results = λ id limit. refl;
  watchlist = refl;
  reports = refl;
  investigations = refl;
  observed = λ id h. observations-add id obs ws.observations (ground (arith, h));
}
