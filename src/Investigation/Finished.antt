-- ===== src/Investigation/Finished.antt =====
-- How a run ends.
use telegram_osint.Base.{
  err, length-map, ℕ, ◌≡◌, refl, sym, ◌∙◌, ap, none, some, List, [], ◌++◌, map, length,
  Result-cases, ok, Option-cases, inl, inr,
}
use telegram_osint.Workspace.Rows.{update_of}
use telegram_osint.Workspace.Investigations.{
  Investigation, Observation, running, completed, get, set_status, with_status, is_investigation,
}
use telegram_osint.Investigation.Target.{ParsedTarget, parse_target}
use telegram_osint.Investigation.Observe.{
  Outside, Seen, seen_of, observation_of, build_observations, all_iocs, count,
}
use telegram_osint.Investigation.Service.{
  Db, concluded, summary_of, confidence_of, first_raised, extraction_failed, conclude, investigate,
  run,
}
use telegram_osint.Investigation.Tally.{
  kinds_add_up, overall_confidence-IsCapped, classify_observation-written, build_observations-map,
}
use telegram_osint.Investigation.Outcome.{
  get-update_of, get-set_status, posts, Conclusion, Finished, missing, broken, torn, concluded_run,
  refuse-rejected,
}

module _ (o : Outside) (now user id : ℕ) (inv : Investigation) (target : ParsedTarget)
    (db : Db) where
  -- the tables of a run when the observations are stored
  abbrev observed_db : List Observation → Db
  observed_db rows = record {
    investigations = set_status now user id running none db.investigations;
    observations = rows;
  }

  conclude-Conclusion :
      (seen : List Seen) (rows : List Observation) (iocs : List (ℕ × ℕ))
      → seen ≡ map (seen_of o target) (posts o)
      → rows ≡ db.observations ++ map (observation_of o target inv.id) (posts o)
      → Conclusion o inv target db
          (with_status now completed none (
            concluded
              (confidence_of o target seen)
              (summary_of o target seen iocs)
              o.report
              (with_status now running none inv)))
          (conclude o now user id inv target seen iocs (observed_db rows)).0
          (conclude o now user id inv target seen iocs (observed_db rows)).1
  unfolding conclude with_status concluded summary_of confidence_of count
  conclude-Conclusion seen rows iocs same stored = record {
    stored_status = refl;
    status = refl;
    confidence = refl;
    capped = overall_confidence-IsCapped seen _ _;
    observed = stored;
    written = λ m. classify_observation-written o.texts target m.message;
    counts = (summary_of o target seen iocs).counts;
    reported = refl;
    total = ap length same ∙ length-map (seen_of o target) (posts o);
    tally = kinds_add_up seen;
  }

  conclude-stored :
      (seen : List Seen) (rows : List Observation) (iocs : List (ℕ × ℕ))
      → get user id db.investigations ≡ some inv
      → get user id
          (conclude o now user id inv target seen iocs (observed_db rows)).1.investigations
        ≡ some (
            with_status now completed none (
              concluded
                (confidence_of o target seen)
                (summary_of o target seen iocs)
                o.report
                (with_status now running none inv)))
  unfolding conclude concluded
  conclude-stored seen rows iocs h =
      rw
        (
          get-set_status now user id completed none (
              update_of (λ i. i.user_id) user (is_investigation id)
                (concluded (confidence_of o target seen) (summary_of o target seen iocs) o.report)
                (set_status now user id running none db.investigations)),
          get-update_of user id
              (concluded (confidence_of o target seen) (summary_of o target seen iocs) o.report)
              (set_status now user id running none db.investigations) (λ r. refl) (λ r. refl),
          get-set_status now user id running none db.investigations,
          h,
        )
        refl

  steps-Finished :
      get user id db.investigations ≡ some inv
      → parse_target o.patterns (some inv.target) ≡ ok target
      → first_raised o target ≡ none
      → let built = build_observations o target inv.id (posts o) db.observations in
        Finished o user id db (elim (all_iocs o built.0 []) [
          | err e ↦ err (extraction_failed e)
          | ok iocs ↦ ok (conclude o now user id inv target built.0 iocs (observed_db built.1))
        ])
  steps-Finished h parsed quiet =
      let built = build_observations o target inv.id (posts o) db.observations in
      let same = build_observations-map o target inv.id (posts o) db.observations in
      elim (Result-cases (all_iocs o built.0 [])) [
        | inl (iocs, r) ↦ rw r (
            concluded_run inv target _ _ _ h parsed quiet (conclude-stored built.0 built.1 iocs h)
              (conclude-Conclusion built.0 built.1 iocs same.0 same.1))
        | inr (e, r) ↦
            rw r
              (torn inv target e h parsed quiet (ap (λ seen. all_iocs o seen []) (sym same.0) ∙ r))
      ]

  investigate-Finished :
      get user id db.investigations ≡ some inv
      → parse_target o.patterns (some inv.target) ≡ ok target
      → Finished o user id db (
          investigate o now user id inv target
            (record db { investigations = set_status now user id running none db.investigations }))
  unfolding investigate
  investigate-Finished h parsed = elim (Option-cases (first_raised o target)) [
    | inr (e, r) ↦ rw (r, investigate) (broken inv target e h parsed r)
    | inl quiet ↦ rw (quiet, investigate) (steps-Finished h parsed quiet)
  ]

-- Without the investigation a run raises `LookupError`. If the target is refused, the stored investigation
-- has failed and no observation is added. Otherwise the run raises only if a collector, the classification of a
-- message or the username search raises, or the extraction of indicators on a snippet; or the stored investigation is completed: with one observation for each
-- message found, of which only those whose own author field names the target are authorship, counters that
-- add up to the number of messages, and a confidence of at most 95 if any.
pub run-Finished :
    (o : Outside) (now user id : ℕ) (db : Db) → Finished o user id db (run o now user id db)
unfolding run
run-Finished o now user id db = elim (Option-cases (get user id db.investigations)) [
  | inl e ↦ rw (e, run) (missing e)
  | inr (inv, h) ↦ elim (Result-cases (parse_target o.patterns (some inv.target))) [
    | inl (target, p) ↦ rw (h, p, run) (investigate-Finished o now user id inv target db h p)
    | inr (e, p) ↦ rw (h, p, run) (refuse-rejected o now user id inv e db h p)
  ]
]
