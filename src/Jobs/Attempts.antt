-- ===== src/Jobs/Attempts.antt =====
-- How a job ends: cancelled while it runs, or failed once its retries are used up.
use telegram_osint.Base.{
  ℕ, ◌≡◌, refl, ◌⊎◌, inl, inr, String, true, false, ◌||◌, some, List, [], ◌∷◌, In, arith,
  Option-cases, ok, err,
}
use telegram_osint.Base.Int.{ℤ, pos}
use telegram_osint.Base.Dict.{Dict, lookup, insert, lookup-insert_self}
use telegram_osint.Jobs.State.{
  JobState, pending, running, failed, cancelled, is_terminal, same_state, Job,
}
use telegram_osint.Jobs.Repository.{
  illegal_transition, allowed, Change, no_change, moved, transition,
}
use telegram_osint.Jobs.Runner.{
  RunEvent, report, cancel, Execution, Config, World, JobOutcome, cancel_job, report_progress,
  run_events, dispatch, on_failure, complete, execute, begin, process,
}
use telegram_osint.Jobs.Machine.{HasState, transition_refused, transition_written, moved-state}
use telegram_osint.Jobs.Worker.{Ending-cases}
use telegram_osint.Jobs.Reached.{Reaches-settled, run_events-Reaches}

-- a legal transition, as a write that is read back
transition-HasState :
    (now id : ℕ) (from to : JobState) (ch : Change) (jobs : Dict Job)
    → HasState jobs id from
    → same_state to from || allowed from to ≡ true
    → (jobs' : Dict Job) × (transition now id to ch jobs ≡ ok jobs') × HasState jobs' id to
transition-HasState now id from to ch jobs (job, found, is_from) legal = (
  insert id (moved now to ch job) jobs,
  transition_written now id to ch jobs found (rw is_from legal),
  (moved now to ch job, lookup-insert_self id _ jobs, moved-state now to ch job),
)

cancel_job-running :
    (now id : ℕ) (jobs : Dict Job)
    → HasState jobs id running
    → HasState (cancel_job now id jobs).0 id cancelled
unfolding cancel_job
cancel_job-running now id jobs h =
    let (jobs', e, after) = transition-HasState now id running cancelled no_change jobs h refl in
    rw (h.1, cancel_job) (rw h.2 (rw e after))

report_progress-running :
    (now id : ℕ) (p : ℤ) (jobs : Dict Job)
    → HasState jobs id running
    → (jobs' : Dict Job) × (report_progress now id p jobs ≡ ok jobs') × HasState jobs' id running
unfolding report_progress
report_progress-running now id p jobs h = transition-HasState now id running running _ jobs h refl

-- a running job that is cancelled among the events of its run is cancelled after them
run_events-cancelled :
    (id t : ℕ) (events : List RunEvent) (jobs : Dict Job)
    → HasState jobs id running
    → In (cancel t) events
    → HasState (run_events id events jobs).0 id cancelled
unfolding run_events
run_events-cancelled id t [] jobs h i = elim i [ ]
run_events-cancelled id t (cancel u ∷ events) jobs h i =
    Reaches-settled cancelled (run_events-Reaches id events (cancel_job u id jobs).0) (inr refl)
      (cancel_job-running u id jobs h)
run_events-cancelled id t (report u p ∷ events) jobs h (inl e) = absurd (cc)
run_events-cancelled id t (report u p ∷ events) jobs h (inr i) =
    let (jobs', e, after) = report_progress-running u id p jobs h in
    rw (e, run_events) (run_events-cancelled id t events jobs' after i)

dispatch-cancelled :
    (c : Config) (id t : ℕ) (x : Execution) (jobs : Dict Job)
    → HasState jobs id running
    → In (cancel t) x.events
    → HasState (dispatch c id x jobs).0 id cancelled
unfolding dispatch
dispatch-cancelled c id t x jobs h i = elim (Option-cases (run_events id x.events jobs).1) [
  | inl quiet ↦ rw (quiet, dispatch) (run_events-cancelled id t x.events jobs h i)
  | inr (e, raised) ↦ rw (raised, dispatch) (run_events-cancelled id t x.events jobs h i)
]

-- nothing follows a cancellation: no notification, no retry
abbrev IsCancelledQuietly : ℕ → World → World → Type 0
IsCancelledQuietly id w w' =
    HasState w'.jobs id cancelled × (w'.sent ≡ w.sent) × (w'.queue ≡ w.queue)

complete-cancelled :
    (now id : ℕ) (o : JobOutcome) (w : World)
    → HasState w.jobs id cancelled
    → (complete now id o w).1 ≡ w
unfolding complete
complete-cancelled now id o w (job, found, is_c) = rw (found, complete) (rw is_c refl)

on_failure-cancelled :
    (c : Config) (now id : ℕ) (exc : String) (w : World)
    → HasState w.jobs id cancelled
    → on_failure c now id exc w ≡ (err (illegal_transition cancelled failed), w)
unfolding on_failure
on_failure-cancelled c now id exc w (job, found, is_c) =
    rw (found, on_failure)
      (rw (transition_refused now id failed _ w.jobs found (rw is_c refl)) (rw is_c refl))

execute-cancelled :
    (c : Config) (id t : ℕ) (x : Execution) (w : World)
    → HasState w.jobs id running
    → In (cancel t) x.events
    → IsCancelledQuietly id w (execute c id x w).1
unfolding execute
execute-cancelled c id t x w h i = elim (Ending-cases (dispatch c id x w.jobs).1) [
  | inl (o, e) ↦
      rw (e, execute) (rw (complete-cancelled x.ended id o after stopped) (stopped, refl, refl))
  | inr (exc, e) ↦
      rw (e, execute)
        (rw (on_failure-cancelled c x.ended id exc after stopped) (stopped, refl, refl))
]
  where
    after : World
    after = record w { jobs = (dispatch c id x w.jobs).0 }

    stopped : HasState (dispatch c id x w.jobs).0 id cancelled
    stopped = dispatch-cancelled c id t x w.jobs h i

-- If a job that is pending or running is cancelled while its handler runs, it ends cancelled, whatever
-- the handler returns or raises; no notification is sent and no retry is queued.
pub process-cancelled :
    (c : Config) (now id : ℕ) (w : World) {job : Job} {h : Job → Execution}
    → lookup id w.jobs ≡ some job
    → (job.state ≡ pending) ⊎ (job.state ≡ running)
    → c.handlers job.kind ≡ some h
    → ((started : Job) → (t : ℕ) × In (cancel t) (h started).events)
    → let w' = (process c now id w).1 in
      HasState w'.jobs id cancelled × (w'.sent ≡ w.sent) × (w'.queue ≡ w.queue)
unfolding process begin
process-cancelled c now id w {job} {h} found live known stops =
    let legal : same_state running job.state || allowed job.state running ≡ true = ground arith in
    let open' : is_terminal job.state ≡ false = ground arith in
    let (jobs', e, (started, found', is_r)) =
      transition-HasState now id job.state running (record no_change { progress = some (pos 0) })
        w.jobs (job, found, refl) legal in
    let (t, i) = stops started in
    rw (found, process)
      (rw open' (
        rw known (
          rw (e, begin)
            (rw found' (
              execute-cancelled c id t (h started) (record w { jobs = jobs' })
                (started, found', is_r) i)))))
