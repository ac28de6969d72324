-- ===== src/Workspace/Private.antt =====
-- The writes of other users change nothing that a user reads.
use telegram_osint.Base.{
  Bool, false, ◌++◌, if◌then◌else◌, arith, ℕ, ◌≡◌, ◌≢◌, refl, ◌∙◌, true, List, [], ◌∷◌, any, ◌==◌,
  Bool-cases, Option-cases, All, inl, inr,
}
use telegram_osint.Workspace.Rows.{add_row, distinct, distinct-append, distinct-update_of, scoped}
use telegram_osint.Workspace.Targets.{Texts}
use telegram_osint.Workspace.Searches.{
  Search, SearchResult, Hit, get_search, create_search, add_results, set_search_status,
}
use telegram_osint.Workspace.Commands.{
  Workspace, Command, target_get_or_create, target_soft_delete, search_create, search_add_results,
  search_set_status, watchlist_add, watchlist_remove, report_create, report_set_status,
  investigation_create, investigation_set_status, investigation_add_observation, committed, perform,
  perform_all,
}
use telegram_osint.Workspace.Investigations.{Observation}
use telegram_osint.Workspace.Unseen.{SameFor, added_by, IsKeyed, touch_targets, perform-SameFor}

add_row-distinct :
    (search : Search) (rows : List Search)
    → distinct (λ (s : Search). s.user_id) (λ s. s.id) rows ≡ true
    → distinct
        (λ (s : Search). s.user_id)
        (λ s. s.id)
        (committed (λ rows. rows) rows (add_row (λ s. s.user_id) (λ s. s.id) search rows))
      ≡ true
unfolding add_row
add_row-distinct search rows d = elim (Bool-cases (any (λ (s : Search). s.id == search.id) rows)) [
  | inl h ↦ rw h d
  | inr h ↦ rw h (distinct-append (λ s. s.user_id) (λ s. s.id) search rows d h)
]

distinct-add_results :
    (user id : ℕ) (hits : List Hit) (rows : List Search) (results : List SearchResult)
    → distinct (λ (s : Search). s.user_id) (λ s. s.id) rows ≡ true
    → distinct (λ (s : Search). s.user_id) (λ s. s.id) (add_results user id hits rows results).1.0
      ≡ true
unfolding add_results
distinct-add_results user id hits rows results d = elim (Option-cases (get_search user id rows)) [
  | inl e ↦ rw (e, add_results) d
  | inr (s, e) ↦
      rw (e, add_results)
        (distinct-update_of (λ s. s.user_id) (λ s. s.id) user _ _ rows (λ s. refl) ∙ d)
]

-- the primary keys of the searches stay distinct
perform-IsKeyed :
    (texts : Texts) (user : ℕ) (command : Command) (ws : Workspace)
    → IsKeyed ws
    → IsKeyed (perform texts user command ws)
unfolding perform create_search set_search_status
perform-IsKeyed texts user (target_get_or_create now id kind value label) ws d = d
perform-IsKeyed texts user (target_soft_delete now id) ws d = d
perform-IsKeyed texts user (search_create now id kind query target_id filters job_id) ws d =
    add_row-distinct _ ws.searches d
perform-IsKeyed texts user (search_add_results id hits) ws d =
    distinct-add_results user id hits ws.searches ws.results d
perform-IsKeyed texts user (search_set_status now id status) ws d =
    distinct-update_of (λ s. s.user_id) (λ s. s.id) user _ _ ws.searches (λ s. refl) ∙ d
perform-IsKeyed texts user (watchlist_add now id kind value sources target_id max_targets) ws d = d
perform-IsKeyed texts user (watchlist_remove kind value) ws d = d
perform-IsKeyed texts user (report_create now id title target_id job_id) ws d = d
perform-IsKeyed texts user (report_set_status now id status error) ws d = d
perform-IsKeyed texts user (investigation_create is_number now id public_id target norm) ws d = d
perform-IsKeyed texts user (investigation_set_status now id status error) ws d = d
perform-IsKeyed texts user (investigation_add_observation obs) ws d = d

any-append :
    {A : Type 0} (p : A → Bool) (xs ys : List A)
    → any p (xs ++ ys) ≡ false
    → (any p xs ≡ false) × (any p ys ≡ false)
any-append p [] ys h = (refl, h)
any-append p (x ∷ xs) ys h = elim (Bool-cases (p x)) [
  | inl e ↦ ground (arith, h, e)
  | inr e ↦ let (a, b) = any-append p xs ys (ground (arith, h, e)) in (rw e a, b)
]

SameFor-trans :
    (user : ℕ) (more less : List Observation) (a b c : Workspace)
    → SameFor user more a b
    → SameFor user less b c
    → SameFor user (more ++ less) a c
SameFor-trans user more less a b c f g = record {
  targets = g.targets ∙ f.targets;
  searches = g.searches ∙ f.searches;
  results = λ id limit. g.results id limit ∙ f.results id limit;
  watchlist = g.watchlist ∙ f.watchlist;
  reports = g.reports ∙ f.reports;
  investigations = g.investigations ∙ f.investigations;
  observed = λ id h.
      let (first, second) =
        any-append (λ (o : Observation). o.investigation_id == id) more less h in
      g.observed id second ∙ f.observed id first;
}

-- the observations that the commands add
abbrev pub all_added : List (ℕ × Command) → List Observation
all_added [] = []
all_added ((user, c) ∷ commands) =
    let rest = all_added commands in if user == 0 then rest else added_by c ++ rest

-- Whatever the users perform, each through a repository of their own, a user who performs nothing reads the
-- same as before: the same rows of every table of users, and the same results of every search. Only the
-- observations of an investigation may differ, and only if one of the commands adds an observation that
-- names it. The searches have distinct primary keys at the start.
pub perform_all-SameFor :
    (texts : Texts) (other : ℕ) (commands : List (ℕ × Command)) (ws : Workspace)
    → IsKeyed ws
    → All (λ c. other ≢ c.0) commands
    → SameFor other (all_added commands) ws (perform_all texts commands ws)
unfolding perform_all scoped
perform_all-SameFor texts other [] ws d h = touch_targets other ws ws.targets refl
perform_all-SameFor texts other ((user, c) ∷ commands) ws d h = elim (Bool-cases (user == 0)) [
  | inl e ↦ rw (e, scoped) (perform_all-SameFor texts other commands ws d h.1)
  | inr e ↦
      rw (e, scoped)
        (SameFor-trans other (added_by c) (all_added commands) ws (perform texts user c ws) _
          (perform-SameFor texts user other c ws d h.0)
          (perform_all-SameFor texts other commands (perform texts user c ws)
            (perform-IsKeyed texts user c ws d) h.1))
]
