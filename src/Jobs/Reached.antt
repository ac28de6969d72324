-- ===== src/Jobs/Reached.antt =====
-- The tables that the transitions of one job reach, by its handler, by a cancellation and by its reports.
use telegram_osint.Base.{
  ℕ, ◌≡◌, refl, ◌∙◌, ◌≢◌, inl, inr, Option, none, some, List, [], ◌∷◌, arith, Option-cases,
  Bool-cases, ok, Result-cases,
}
use telegram_osint.Base.Int.{ℤ}
use telegram_osint.Base.Dict.{Dict, lookup}
use telegram_osint.Jobs.State.{JobState, running, cancelled, is_terminal, Job}
use telegram_osint.Jobs.Repository.{Change, no_change, transition}
use telegram_osint.Jobs.Runner.{
  Notification, RunEvent, report, cancel, Execution, Config, World, cancel_job, report_progress,
  run_events, dispatch, deliver, deliver_optional,
}
use telegram_osint.Jobs.Machine.{transition-Moves, IsSettled, HasState, settled_edge}

-- The tables that are reached from `jobs` by transitions of the job `id`.
pub data Reaches (id : ℕ) (jobs : Dict Job) : Dict Job → Type 0 where
  here : Reaches id jobs jobs
  next :
      {jobs₁ jobs₂ : Dict Job} (now : ℕ) (to : JobState) (ch : Change)
      → Reaches id jobs jobs₁
      → transition now id to ch jobs₁ ≡ ok jobs₂
      → Reaches id jobs jobs₂

pub Reaches-trans : {id : ℕ} {a b c : Dict Job} → Reaches id a b → Reaches id b c → Reaches id a c
Reaches-trans r here = r
Reaches-trans r (next now to ch s e) = next now to ch (Reaches-trans r s) e

-- what the transitions of one job leave alone
pub Reaches-others :
    {id : ℕ} {jobs jobs' : Dict Job} (j : ℕ)
    → Reaches id jobs jobs'
    → j ≢ id
    → lookup j jobs' ≡ lookup j jobs
Reaches-others j here ne = refl
Reaches-others j (next now to ch r e) ne =
    (transition-Moves now _ to ch _ e).others j ne ∙ Reaches-others j r ne

pub Reaches-settled :
    {id : ℕ} {jobs jobs' : Dict Job} (s : JobState)
    → Reaches id jobs jobs'
    → IsSettled s
    → HasState jobs id s
    → HasState jobs' id s
Reaches-settled s here settled h = h
Reaches-settled s (next now to ch r e) settled h =
    let (job, found, is_s) = Reaches-settled s r settled h in
    let m = transition-Moves now _ to ch _ e in
    let was : m.before.state ≡ s = cc (m.found) in
    (m.after, m.written, m.reached ∙ settled_edge s to settled (rw (← was) m.edge))

cancel_job-Reaches : (now id : ℕ) (jobs : Dict Job) → Reaches id jobs (cancel_job now id jobs).0
unfolding cancel_job
cancel_job-Reaches now id jobs = elim (Option-cases (lookup id jobs)) [
  | inl gone ↦ rw (gone, cancel_job) here
  | inr (job, found) ↦
      rw (found, cancel_job)
        (elim (Bool-cases (is_terminal job.state)) [
          | inl ended ↦ rw ended here
          | inr live ↦ rw live (elim (Result-cases (transition now id cancelled no_change jobs)) [
            | inl (jobs', e) ↦ rw e (next now cancelled no_change here e)
            | inr (x, e) ↦ rw e here
          ])
        ])
]

report_progress-Reaches :
    (now id : ℕ) (p : ℤ) (jobs : Dict Job) {jobs' : Dict Job}
    → report_progress now id p jobs ≡ ok jobs'
    → Reaches id jobs jobs'
unfolding report_progress
report_progress-Reaches now id p jobs e = next now running _ here e

pub run_events-Reaches :
    (id : ℕ) (events : List RunEvent) (jobs : Dict Job)
    → Reaches id jobs (run_events id events jobs).0
unfolding run_events
run_events-Reaches id [] jobs = here
run_events-Reaches id (cancel t ∷ events) jobs =
    Reaches-trans (cancel_job-Reaches t id jobs)
      (run_events-Reaches id events (cancel_job t id jobs).0)
run_events-Reaches id (report t p ∷ events) jobs =
    elim (Result-cases (report_progress t id p jobs)) [
      | inl (jobs', e) ↦
          rw (e, run_events)
            (Reaches-trans (report_progress-Reaches t id p jobs e)
              (run_events-Reaches id events jobs'))
      | inr (x, e) ↦ rw (e, run_events) here
    ]

pub dispatch-Reaches :
    (c : Config) (id : ℕ) (x : Execution) (jobs : Dict Job)
    → Reaches id jobs (dispatch c id x jobs).0
unfolding dispatch
dispatch-Reaches c id x jobs = elim (Option-cases (run_events id x.events jobs).1) [
  | inl quiet ↦ rw (quiet, dispatch) (run_events-Reaches id x.events jobs)
  | inr (e, raised) ↦ rw (raised, dispatch) (run_events-Reaches id x.events jobs)
]

pub deliver-jobs : (n : Notification) (w : World) → (deliver n w).jobs ≡ w.jobs
unfolding deliver
deliver-jobs n w = ground arith

pub deliver_optional-jobs :
    (n : Option Notification) (w : World) → (deliver_optional n w).jobs ≡ w.jobs
deliver_optional-jobs none w = refl
deliver_optional-jobs (some n) w = deliver-jobs n w
