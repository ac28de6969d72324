-- ===== src/Workspace/Isolation.antt =====
-- What each write of one user leaves of the rows of another.
use telegram_osint.Base.{
  ℕ, ◌≡◌, ◌≢◌, refl, Bool, Option, List, any, ◌==◌, Bool-cases, Option-cases, inl, inr,
}
use telegram_osint.Workspace.Rows.{
  rows_of, find_of, add_row, rows_of-append, rows_of-update_of, TaskStatus,
}
use telegram_osint.Workspace.Targets.{
  Texts, TargetKind, Target, get_target, is_value, normalize_for_kind, get_or_create, soft_delete,
}
use telegram_osint.Workspace.Searches.{
  Search, SearchResult, Hit, get_search, create_search, add_results, set_search_status,
}
use telegram_osint.Workspace.Watchlists.{WatchEntry, is_entry, is_full, add, remove}
use telegram_osint.Workspace.Reports.{Report, create_report, set_report_status}
use telegram_osint.Workspace.Investigations.{
  Investigation, InvestigationStatus, create_investigation, set_status, with_status,
  is_investigation,
}
use telegram_osint.Workspace.Commands.{committed}

module _ {R : Type 0} (user_id : R → ℕ) (id : R → ℕ) where
  rows_of-add_row :
      (user other : ℕ) (r : R) (rows : List R)
      → user_id r ≡ user
      → other ≢ user
      → rows_of user_id other (committed (λ rows. rows) rows (add_row user_id id r rows))
        ≡ rows_of user_id other rows
  unfolding add_row
  rows_of-add_row user other r rows e ne = elim (Bool-cases (any (λ s. id s == id r) rows)) [
    | inl h ↦ rw h refl
    | inr h ↦ rw h (rows_of-append user_id user other r rows e ne)
  ]

module _ (texts : Texts) (user other : ℕ) (ne : other ≢ user) where
  pub targets-get_or_create :
      (now id : ℕ) (kind : TargetKind) (value : ℕ) (label : Option ℕ) (rows : List Target)
      → rows_of
          (λ t. t.user_id)
          other
          (committed (λ out. out.1) rows (get_or_create texts now user id kind value label rows))
        ≡ rows_of (λ t. t.user_id) other rows
  unfolding get_or_create add_row
  targets-get_or_create now id kind value label rows =
      elim (Bool-cases (texts.normalize_raises kind value)) [
        | inl h ↦ rw (h, committed, get_or_create) refl
        | inr free ↦
            elim (Option-cases (
              find_of (λ t. t.user_id) user (is_value kind (normalize_for_kind texts kind value))
                rows)) [
                  | inl e ↦
                      rw (free, e, committed, get_or_create)
                        (elim (Bool-cases (any (λ (t : Target). t.id == id) rows)) [
                          | inl h ↦ rw h refl
                          | inr h ↦ rw h (rows_of-append _ user other _ rows refl ne)
                        ])
                  | inr (t, e) ↦
                      rw (free, e, committed, get_or_create)
                        (rows_of-update_of _ user other _ _ rows (λ t. refl) ne)
                ]
      ]

  pub targets-soft_delete :
      (now id : ℕ) (rows : List Target)
      → rows_of (λ t. t.user_id) other (soft_delete now user id rows).1
        ≡ rows_of (λ t. t.user_id) other rows
  unfolding soft_delete
  targets-soft_delete now id rows = elim (Option-cases (get_target user id rows)) [
    | inl e ↦ rw (e, soft_delete) refl
    | inr (t, e) ↦ rw (e, soft_delete) (rows_of-update_of _ user other _ _ rows (λ t. refl) ne)
  ]

  pub watchlist-add :
      (now id : ℕ) (kind : TargetKind) (value : ℕ) (sources : List ℕ)
      (target_id max_targets : Option ℕ) (rows : List WatchEntry)
      → rows_of
          (λ w. w.user_id)
          other
          (committed
            (λ out. out.1)
            rows
            (add texts now user id kind value sources target_id max_targets rows))
        ≡ rows_of (λ w. w.user_id) other rows
  unfolding add add_row
  watchlist-add now id kind value sources target_id max_targets rows =
      elim (Bool-cases (texts.normalize_raises kind value)) [
        | inl h ↦ rw (h, committed, add) refl
        | inr free ↦
            elim (Option-cases (
              find_of (λ w. w.user_id) user (is_entry kind (normalize_for_kind texts kind value))
                rows)) [
                  | inl e ↦
                      rw (free, e, committed, add)
                        (elim (Bool-cases (is_full user max_targets rows)) [
                          | inl h ↦ rw h refl
                          | inr h ↦
                              rw h (elim (Bool-cases (any (λ (w : WatchEntry). w.id == id) rows)) [
                                | inl h' ↦ rw h' refl
                                | inr h' ↦ rw h' (rows_of-append _ user other _ rows refl ne)
                              ])
                        ])
                  | inr (w, e) ↦
                      rw (free, e, committed, add)
                        (rows_of-update_of _ user other _ _ rows (λ w. refl) ne)
                ]
      ]

  pub watchlist-remove :
      (kind : TargetKind) (value : ℕ) (rows : List WatchEntry)
      → rows_of
          (λ w. w.user_id)
          other
          (committed (λ out. out.1) rows (remove texts user kind value rows))
        ≡ rows_of (λ w. w.user_id) other rows
  unfolding remove
  watchlist-remove kind value rows = elim (Bool-cases (texts.normalize_raises kind value)) [
    | inl h ↦ rw (h, committed, remove) refl
    | inr free ↦
        elim (Option-cases (
          find_of (λ w. w.user_id) user (is_entry kind (normalize_for_kind texts kind value))
            rows)) [
              | inl e ↦ rw (free, e, committed, remove) refl
              | inr (w, e) ↦
                  rw (free, e, committed, remove)
                    (elim (Bool-cases w.is_active) [
                      | inl h ↦ rw h (rows_of-update_of _ user other _ _ rows (λ w. refl) ne)
                      | inr h ↦ rw h refl
                    ])
            ]
  ]

  pub investigations-create :
      (is_number : ℕ → Bool) (now id public_id target norm : ℕ) (rows : List Investigation)
      → rows_of
          (λ i. i.user_id)
          other
          (committed
            (λ rows. rows)
            rows
            (create_investigation texts is_number now user id public_id target norm rows))
        ≡ rows_of (λ i. i.user_id) other rows
  unfolding create_investigation
  investigations-create is_number now id public_id target norm rows =
      elim (Bool-cases (any (λ (i : Investigation). i.public_id == public_id) rows)) [
        | inl h ↦ rw h refl
        | inr h ↦ rw h (rows_of-add_row _ _ user other _ rows refl ne)
      ]

  pub searches-create :
      (now id kind query : ℕ) (target_id : Option ℕ) (filters : List (ℕ × ℕ)) (job_id : Option ℕ)
      (rows : List Search)
      → rows_of
          (λ s. s.user_id)
          other
          (committed
            (λ rows. rows)
            rows
            (create_search texts now user id kind query target_id filters job_id rows))
        ≡ rows_of (λ s. s.user_id) other rows
  unfolding create_search
  searches-create now id kind query target_id filters job_id rows =
      rows_of-add_row _ _ user other _ rows refl ne

  pub searches-set_status :
      (now id : ℕ) (status : TaskStatus) (rows : List Search)
      → rows_of (λ s. s.user_id) other (set_search_status now user id status rows)
        ≡ rows_of (λ s. s.user_id) other rows
  unfolding set_search_status
  searches-set_status now id status rows = rows_of-update_of _ user other _ _ rows (λ s. refl) ne

  pub searches-add_results :
      (id : ℕ) (hits : List Hit) (rows : List Search) (results : List SearchResult)
      → rows_of (λ s. s.user_id) other (add_results user id hits rows results).1.0
        ≡ rows_of (λ s. s.user_id) other rows
  unfolding add_results
  searches-add_results id hits rows results = elim (Option-cases (get_search user id rows)) [
    | inl e ↦ rw (e, add_results) refl
    | inr (s, e) ↦ rw (e, add_results) (rows_of-update_of _ user other _ _ rows (λ s. refl) ne)
  ]

  pub reports-create :
      (now id title : ℕ) (target_id job_id : Option ℕ) (rows : List Report)
      → rows_of
          (λ r. r.user_id)
          other
          (committed (λ rows. rows) rows (create_report now user id title target_id job_id rows))
        ≡ rows_of (λ r. r.user_id) other rows
  unfolding create_report
  reports-create now id title target_id job_id rows = rows_of-add_row _ _ user other _ rows refl ne

  pub reports-set_status :
      (now id : ℕ) (status : TaskStatus) (error : Option ℕ) (rows : List Report)
      → rows_of (λ r. r.user_id) other (set_report_status now user id status error rows)
        ≡ rows_of (λ r. r.user_id) other rows
  unfolding set_report_status
  reports-set_status now id status error rows =
      rows_of-update_of _ user other _ _ rows (λ r. refl) ne

  pub investigations-set_status :
      (now id : ℕ) (status : InvestigationStatus) (error : Option ℕ) (rows : List Investigation)
      → rows_of (λ i. i.user_id) other (set_status now user id status error rows)
        ≡ rows_of (λ i. i.user_id) other rows
  unfolding set_status with_status
  investigations-set_status now id status error rows =
      rows_of-update_of _ user other (is_investigation id) (with_status now status error) rows
        (λ i. refl) ne
