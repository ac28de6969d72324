-- ===== src/Workspace/Results.antt =====
-- The results of a search, which are rows without a user, under the writes of another user.
use telegram_osint.Base.{
  ℕ, suc, ◌≡◌, ◌≢◌, refl, ◌∙◌, Bool, true, false, none, some, List, [], ◌∷◌, ◌++◌, keep, ◌==◌,
  ==_iff, arith, Bool-cases, Option-cases, inl, inr,
}
use mathlib.Core.Path.{subst}
use telegram_osint.Workspace.Rows.{
  rows_of, distinct, find_of-other, rows_of-update_of, find_of-rows_of,
}
use telegram_osint.Workspace.Searches.{
  Search, SearchResult, Hit, is_search, get_search, add_results, result_rows, search_results,
}

pub search_results-same :
    (user id limit : ℕ) (rows rows' : List Search) (results : List SearchResult)
    → rows_of (λ s. s.user_id) user rows' ≡ rows_of (λ s. s.user_id) user rows
    → search_results user id limit rows' results ≡ search_results user id limit rows results
unfolding search_results get_search
search_results-same user id limit rows rows' results e =
    rw
      (
        find_of-rows_of (λ (s : Search). s.user_id) user (is_search id) rows',
        find_of-rows_of (λ (s : Search). s.user_id) user (is_search id) rows,
        e,
        search_results,
      )
      refl

keep-result_rows :
    (id k i : ℕ) (hits : List Hit)
    → (k == id) ≡ false
    → keep (λ r. r.search_id == id) (result_rows k i hits) ≡ []
unfolding result_rows
keep-result_rows id k i [] ne = refl
keep-result_rows id k i (h ∷ hits) ne = ground (arith, keep-result_rows id k (suc i) hits)

keep-append :
    {A : Type 0} (p : A → Bool) (xs ys : List A) → keep p ys ≡ [] → keep p (xs ++ ys) ≡ keep p xs
keep-append p [] ys e = e
keep-append p (x ∷ xs) ys e = ground (arith, keep-append p xs ys e)

get_search-other :
    (user other id : ℕ) (rows : List Search) (s : Search)
    → distinct (λ (s : Search). s.user_id) (λ s. s.id) rows ≡ true
    → other ≢ user
    → get_search user id rows ≡ some s
    → get_search other id rows ≡ none
unfolding get_search
get_search-other user other id rows s d ne e =
    find_of-other (λ s. s.user_id) (λ s. s.id) user other id rows s d ne e

results-append :
    (user other id k limit : ℕ) (hits : List Hit) (rows : List Search) (results : List SearchResult)
    (s : Search)
    → distinct (λ (s : Search). s.user_id) (λ s. s.id) rows ≡ true
    → other ≢ user
    → get_search user id rows ≡ some s
    → search_results other k limit rows (results ++ result_rows id 0 hits)
      ≡ search_results other k limit rows results
unfolding search_results
results-append user other id k limit hits rows results s d ne e = elim (Bool-cases (id == k)) [
  | inl h ↦
      subst
        (λ k.
          search_results other k limit rows (results ++ result_rows id 0 hits)
          ≡ search_results other k limit rows results)
        ((==_iff id k).0 h) (rw (get_search-other user other id rows s d ne e, search_results) refl)
  | inr h ↦ elim (Option-cases (get_search other k rows)) [
    | inl e' ↦ rw (e', search_results) refl
    | inr (s', e') ↦
        rw
          (
            e',
            search_results,
            keep-append (λ r. r.search_id == k) results _ (keep-result_rows k id 0 hits h),
          )
          refl
  ]
]

pub results-add_results :
    (user other id : ℕ) (hits : List Hit) (rows : List Search) (results : List SearchResult)
    → distinct (λ (s : Search). s.user_id) (λ s. s.id) rows ≡ true
    → other ≢ user
    → (k limit : ℕ)
    → search_results other k limit
        (add_results user id hits rows results).1.0
        (add_results user id hits rows results).1.1
      ≡ search_results other k limit rows results
unfolding add_results
results-add_results user other id hits rows results d ne k limit =
    elim (Option-cases (get_search user id rows)) [
      | inl e ↦ rw (e, add_results) refl
      | inr (s, e) ↦
          rw (e, add_results)
            (search_results-same other k limit rows _ _
                (rows_of-update_of _ user other _ _ rows (λ s. refl) ne)
              ∙ results-append user other id k limit hits rows results s d ne e)
    ]
