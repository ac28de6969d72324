-- ===== src/Investigation/Outcome.antt =====
-- How a run may end, and how it ends for a target that is refused.
use telegram_osint.Base.{
  ℕ, ◌+◌, ◌≡◌, refl, true, not, ◌||◌, Option, none, some, List, [], ◌++◌, map, length, Result, ok,
  err,
}
use mathlib.Core.Option
use telegram_osint.Workspace.Rows.{update_of, find_of-update_of}
use telegram_osint.Workspace.Investigations.{
  Investigation, InvestigationStatus, running, completed, failed, get, set_status, with_status,
  is_investigation, Counts,
}
use telegram_osint.Indicators.Matches.{ExtractError}
use telegram_osint.Investigation.Target.{InvalidTarget, ParsedTarget, parse_target}
use telegram_osint.Investigation.Classify.{is_written_by, is_authorship, classify_observation}
use telegram_osint.Investigation.Observe.{
  Post, Outside, seen_of, observation_of, posts_of, all_iocs,
}
use telegram_osint.Investigation.Service.{
  Db, RunError, not_found, step_raised, first_raised, extraction_failed, InvestigationResult,
  searched, refuse,
}
use telegram_osint.Investigation.Tally.{IsCapped}

-- the row of an investigation after a write to it
pub get-update_of :
    (user id : ℕ) (f : Investigation → Investigation) (rows : List Investigation)
    → ((r : Investigation) → (f r).user_id ≡ r.user_id)
    → ((r : Investigation) → (f r).id ≡ r.id)
    → get user id (update_of (λ i. i.user_id) user (is_investigation id) f rows)
      ≡ Option.map f (get user id rows)
unfolding get
get-update_of user id f rows e q =
    find_of-update_of (λ i. i.user_id) user (is_investigation id) f rows e (λ r. rw (q r) refl)

pub get-set_status :
    (now user id : ℕ) (status : InvestigationStatus) (error : Option ℕ) (rows : List Investigation)
    → get user id (set_status now user id status error rows)
      ≡ Option.map (with_status now status error) (get user id rows)
unfolding set_status with_status
get-set_status now user id status error rows =
    get-update_of user id (with_status now status error) rows (λ r. refl) (λ r. refl)

-- the posts of the message search
abbrev pub posts : Outside → List Post
posts o = posts_of (searched o).items

-- What a run leaves of an investigation whose target is parsed.
pub record Conclusion (o : Outside) (inv : Investigation) (target : ParsedTarget) (db : Db)
    (row : Investigation) (res : InvestigationResult) (out : Db) : Type 0 where
  pub stored_status : row.status ≡ completed
  pub status : res.status ≡ completed
  pub confidence : row.confidence ≡ res.confidence
  pub capped : IsCapped res.confidence
  -- one observation for every message, and none besides
  pub observed :
      out.observations ≡ db.observations ++ map (observation_of o target inv.id) (posts o)
  -- authorship only where the message's own author field names the target
  pub written :
      (m : Post)
      → (not (is_authorship (classify_observation o.texts target m.message).0)
          || is_written_by o.texts target m.message)
        ≡ true
  pub counts : Counts
  pub reported : res.counts ≡ some counts
  pub total : counts.observations ≡ length (posts o)
  -- the counters of the five kinds add up
  pub tally :
      counts.authors + (counts.mentions + (counts.replies + (counts.references + counts.unknowns)))
      ≡ counts.observations

-- How a run of the investigation `id` of a user ends.
pub data Finished (o : Outside) (user id : ℕ) (db : Db)
    : Result RunError (InvestigationResult × Db) → Type 0 where
  -- there is none
  missing : get user id db.investigations ≡ none → Finished o user id db (err (not_found id))
  -- a collector or the username search raises
  broken :
      (inv : Investigation) (target : ParsedTarget) (e : ℕ)
      → get user id db.investigations ≡ some inv
      → parse_target o.patterns (some inv.target) ≡ ok target
      → first_raised o target ≡ some e
      → Finished o user id db (err (step_raised e))
  -- the extraction raises on the snippets of the messages
  torn :
      (inv : Investigation) (target : ParsedTarget) (e : ExtractError)
      → get user id db.investigations ≡ some inv
      → parse_target o.patterns (some inv.target) ≡ ok target
      → first_raised o target ≡ none
      → all_iocs o (map (seen_of o target) (posts o)) [] ≡ err e
      → Finished o user id db (err (extraction_failed e))
  -- the target is refused, and the investigation has failed
  rejected :
      (inv : Investigation) (e : InvalidTarget) (row : Investigation) (res : InvestigationResult)
      (out : Db)
      → get user id db.investigations ≡ some inv
      → parse_target o.patterns (some inv.target) ≡ err e
      → get user id out.investigations ≡ some row
      → row.status ≡ failed
      → res.status ≡ failed
      → out.observations ≡ db.observations
      → Finished o user id db (ok (res, out))
  -- the investigation is completed
  concluded_run :
      (inv : Investigation) (target : ParsedTarget) (row : Investigation)
      (res : InvestigationResult) (out : Db)
      → get user id db.investigations ≡ some inv
      → parse_target o.patterns (some inv.target) ≡ ok target
      → first_raised o target ≡ none
      → get user id out.investigations ≡ some row
      → Conclusion o inv target db row res out
      → Finished o user id db (ok (res, out))

pub refuse-rejected :
    (o : Outside) (now user id : ℕ) (inv : Investigation) (e : InvalidTarget) (db : Db)
    → get user id db.investigations ≡ some inv
    → parse_target o.patterns (some inv.target) ≡ err e
    → Finished o user id db (
        ok (
          refuse o now user id inv e
            (record db { investigations = set_status now user id running none db.investigations })))
unfolding refuse with_status
refuse-rejected o now user id inv e db h bad =
    rejected inv e
      (with_status now failed (some (o.prefixed (o.error_text e)))
        (with_status now running none inv))
      _ _ h bad
      (rw
        (
          get-set_status now user id failed (some (o.prefixed (o.error_text e))),
          get-set_status now user id running none db.investigations,
          h,
        )
        refl)
      refl refl refl
