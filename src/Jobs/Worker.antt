-- ===== src/Jobs/Worker.antt =====
-- The worker touches the table through transitions of the job in hand alone.
use telegram_osint.Base.{
  ℕ, ◌≡◌, refl, ◌∙◌, ◌≢◌, ◌⊎◌, inl, inr, String, some, arith, ◌==◌, Option-cases, Bool-cases,
  Result, ok, err, ltb, Result-cases,
}
use telegram_osint.Base.Int.{pos}
use telegram_osint.Base.Dict.{Dict, lookup}
use telegram_osint.Jobs.State.{JobState, pending, running, completed, failed, is_terminal, Job}
use telegram_osint.Jobs.Repository.{
  JobError, job_not_found, illegal_transition, no_change, transition,
}
use telegram_osint.Jobs.Runner.{
  Ending, returns, raises, Execution, Config, World, JobOutcome, dispatch, retry, is_cancelled,
  completion, on_failure, complete, execute, begin, refuse, process,
}
use telegram_osint.Jobs.Machine.{IsSettled, HasState}
use telegram_osint.Jobs.Reached.{
  Reaches, here, next, Reaches-trans, Reaches-others, Reaches-settled, dispatch-Reaches,
  deliver-jobs, deliver_optional-jobs,
}

retry-Reaches :
    (c : Config) (now id : ℕ) (jobs : Dict Job) (w : World)
    → Reaches id w.jobs jobs
    → Reaches id w.jobs (retry c now id jobs w).1.jobs
unfolding retry
retry-Reaches c now id jobs w r = elim (Result-cases (transition now id pending no_change jobs)) [
  | inr (x, e) ↦ rw (e, retry) here
  | inl (jobs', e) ↦
      rw (e, retry)
        (elim (Option-cases (lookup id jobs')) [
          | inl gone ↦ rw gone here
          | inr (job, found) ↦ rw found (next now pending no_change r e)
        ])
]

on_failure-Reaches :
    (c : Config) (now id : ℕ) (exc : String) (w : World)
    → Reaches id w.jobs (on_failure c now id exc w).1.jobs
unfolding on_failure
on_failure-Reaches c now id exc w = elim (Option-cases (lookup id w.jobs)) [
  | inl gone ↦ rw (gone, on_failure) here
  | inr (job, found) ↦
      rw (found, on_failure)
        (elim (Result-cases
          (transition now id failed (record no_change { error = some exc }) w.jobs)) [
            | inr (x, e) ↦ rw e here
            | inl (jobs, e) ↦
                let r : Reaches id w.jobs jobs = next now failed _ here e in
                rw e (elim (Option-cases (lookup id jobs)) [
                  | inl gone ↦ rw gone here
                  | inr (job', found') ↦
                      rw found' (elim (Bool-cases (ltb job'.retry_count job'.max_retries)) [
                        | inl again ↦ rw again (unfold retry in retry-Reaches c now id jobs w r)
                        | inr over ↦ rw over (rw deliver-jobs r)
                      ])
                ])
          ])
]

pub Ending-cases :
    (e : Ending) → ((o : JobOutcome) × (e ≡ returns o)) ⊎ ((x : String) × (e ≡ raises x))
Ending-cases (returns o) = inl (o, refl)
Ending-cases (raises x) = inr (x, refl)

complete-Reaches :
    (now id : ℕ) (o : JobOutcome) (w : World) → Reaches id w.jobs (complete now id o w).1.jobs
unfolding complete
complete-Reaches now id o w = elim (Bool-cases (is_cancelled (lookup id w.jobs))) [
  | inl stopped ↦ rw (stopped, complete) here
  | inr live ↦
      rw (live, complete)
        (elim (Result-cases (transition now id completed (completion o) w.jobs)) [
          | inr (x, e) ↦ rw e here
          | inl (jobs, e) ↦
              rw e (rw deliver_optional-jobs (next now completed (completion o) here e))
        ])
]

execute-Reaches :
    (c : Config) (id : ℕ) (x : Execution) (w : World) → Reaches id w.jobs (execute c id x w).1.jobs
unfolding execute
execute-Reaches c id x w = elim (Ending-cases (dispatch c id x w.jobs).1) [
  | inl (o, e) ↦
      rw (e, execute)
        (Reaches-trans (dispatch-Reaches c id x w.jobs)
          (complete-Reaches x.ended id o (record w { jobs = (dispatch c id x w.jobs).0 })))
  | inr (exc, e) ↦
      rw (e, execute)
        (Reaches-trans (dispatch-Reaches c id x w.jobs)
          (on_failure-Reaches c x.ended id exc (record w { jobs = (dispatch c id x w.jobs).0 })))
]

begin-Reaches :
    (c : Config) (now id : ℕ) (handler : Job → Execution) (w : World)
    → Reaches id w.jobs (begin c now id handler w).1.jobs
unfolding begin
begin-Reaches c now id handler w = by_result (transition now id running _ w.jobs) refl
  where
    by_result :
        (r : Result JobError (Dict Job))
        → transition now id running (record no_change { progress = some (pos 0) }) w.jobs ≡ r
        → Reaches id w.jobs (begin c now id handler w).1.jobs
    by_result (err (illegal_transition _ _)) e = rw (e, begin) here
    by_result (err (job_not_found j)) e = rw (e, begin) here
    by_result (ok jobs) e =
        rw (e, begin)
          (elim (Option-cases (lookup id jobs)) [
            | inl gone ↦ rw gone here
            | inr (job, found) ↦ rw found (
                Reaches-trans (next now running _ here e)
                  (execute-Reaches c id (handler job) (record w { jobs = jobs })))
          ])

refuse-Reaches :
    (c : Config) (now id : ℕ) (kind : String) (w : World)
    → Reaches id w.jobs (refuse c now id kind w).1.jobs
unfolding refuse
refuse-Reaches c now id kind w =
    elim (Result-cases
      (transition now id failed (record no_change { error = some (c.no_handler kind) }) w.jobs)) [
        | inr (x, e) ↦ rw (e, refuse) here
        | inl (jobs, e) ↦ rw (e, refuse) (next now failed _ here e)
      ]

-- Whatever the handler does, a turn of the worker changes the table by transitions of the job in
-- hand, one after the other.
pub process-Reaches :
    (c : Config) (now id : ℕ) (w : World) → Reaches id w.jobs (process c now id w).1.jobs
unfolding process
process-Reaches c now id w = elim (Option-cases (lookup id w.jobs)) [
  | inl gone ↦ rw (gone, process) here
  | inr (job, found) ↦
      rw (found, process)
        (elim (Bool-cases (is_terminal job.state)) [
          | inl ended ↦ rw ended here
          | inr live ↦ rw live (elim (Option-cases (c.handlers job.kind)) [
            | inl unknown ↦ rw unknown (refuse-Reaches c now id job.kind w)
            | inr (h, known) ↦ rw known (begin-Reaches c now id h w)
          ])
        ])
]

-- A turn of the worker on one job leaves the row of every other job as it was, and a job that is
-- completed or cancelled keeps that state.
pub process_confined :
    (c : Config) (now id : ℕ) (w : World)
    → let jobs' = (process c now id w).1.jobs in
      ((j : ℕ) → j ≢ id → lookup j jobs' ≡ lookup j w.jobs)
      × ((j : ℕ) (s : JobState) → IsSettled s → HasState w.jobs j s → HasState jobs' j s)
process_confined c now id w = (
  (λ j ne. Reaches-others j (process-Reaches c now id w) ne),
  (λ j s settled h. elim (Bool-cases (j == id)) [
    | inl same ↦
        let e : j ≡ id = ground arith in
        rw e (Reaches-settled s (process-Reaches c now id w) settled (rw e at h))
    | inr other ↦ (h.0, Reaches-others j (process-Reaches c now id w) (ground arith) ∙ h.1, h.2)
  ]),
)
