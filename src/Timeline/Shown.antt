-- ===== src/Timeline/Shown.antt =====
-- What a timeline shows of the events that were collected.
use telegram_osint.Base.{
  ℕ, min, ◌≡◌, refl, ◌∙◌, sym, ap, List, [], ◌∷◌, ◌++◌, keep, length, drop, take-drop, length-take,
  ltb, ◌==◌, or_else, Bool-cases, ==_iff, inl, inr,
}
use mathlib.Core.List.{append-nil, append_assoc}
use telegram_osint.Base.Dict.{Dict, lookup, insert, lookup-insert}
use telegram_osint.Base.Sorting.{
  sort_on, Ascending, sort_on-Ascending, keep-sort_on, length-sort_on, take-Ascending,
}
use telegram_osint.Graph.Refs.{Ref}
use telegram_osint.Timeline.Events.{
  TimelineTables, TimelineEvent, Timeline, max_events, collected, build, by_year,
}

-- A timeline of the events `all`, given the year of a time.
pub record Shows (year : ℕ → ℕ) (all : List TimelineEvent) (t : Timeline) : Type 0 where
  pub chronological : Ascending (λ e. e.when) t.events
  pub count : length t.events ≡ min max_events (length all)
  pub flag : t.truncated ≡ ltb max_events (length all)
  -- the events left out
  pub omitted : List TimelineEvent
  -- they are no older than those shown
  pub latest : Ascending (λ e. e.when) (t.events ++ omitted)
  -- nothing is lost or invented, and events of one time keep the order of their collection
  pub faithful :
      (k : ℕ) → keep (λ e. e.when == k) (t.events ++ omitted) ≡ keep (λ e. e.when == k) all
  -- the grouping by year holds every event under its year, in order
  pub years :
      (y : ℕ)
      → or_else (lookup y (by_year year t.events [])) [] ≡ keep (λ e. year e.when == y) t.events

lookup-by_year :
    (year : ℕ → ℕ) (events : List TimelineEvent) (out : Dict (List TimelineEvent)) (y : ℕ)
    → or_else (lookup y (by_year year events out)) []
      ≡ or_else (lookup y out) [] ++ keep (λ e. year e.when == y) events
unfolding by_year
lookup-by_year year [] out y = sym (append-nil _)
lookup-by_year year (e ∷ events) out y =
    let group = or_else (lookup (year e.when) out) [] ++ (e ∷ []) in
    let ih = lookup-by_year year events (insert (year e.when) group out) y in
    let seen = lookup-insert (year e.when) y group out in
    elim (Bool-cases (year e.when == y)) [
      | inl h ↦
          ih ∙ rw (seen, h) (append_assoc _ (e ∷ []) _ ∙ rw ((==_iff (year e.when) y).0 h) refl)
      | inr h ↦ ih ∙ rw (seen, h) refl
    ]

-- A timeline of any entities shows the oldest 500 of the events that were collected, in the order of time
-- and, at one time, of their collection; none of the others is older than one that is shown. It is marked as
-- truncated exactly if there are others, and the grouping by year holds every event shown under its year.
pub build-Shows :
    (year : ℕ → ℕ) (db : TimelineTables) (root : Ref) (refs : List Ref)
    → Shows year (collected db refs) (build db root refs)
unfolding build sort_on lookup
build-Shows year db root refs = record {
  chronological = take-Ascending _ max_events _ (sort_on-Ascending _ (collected db refs));
  count =
      length-take max_events _
      ∙ ap (min max_events) (length-sort_on (λ e. e.when) (collected db refs));
  flag = ap (ltb max_events) (length-sort_on (λ e. e.when) (collected db refs));
  omitted = drop max_events (sort_on (λ e. e.when) (collected db refs));
  latest =
      rw (take-drop max_events (sort_on (λ e. e.when) (collected db refs)))
        (sort_on-Ascending _ (collected db refs));
  faithful = λ k.
      rw (take-drop max_events (sort_on (λ e. e.when) (collected db refs)))
        (keep-sort_on (λ e. e.when) k (collected db refs));
  years = λ y. lookup-by_year year _ [] y;
}
