-- ===== src/Jobs/Machine.antt =====
-- What every transition of a job keeps, whoever requests it: the bot, the API or the worker.
use telegram_osint.Base.{
  ℕ, ◌≡◌, refl, sym, ◌≢◌, ◌⊎◌, inl, inr, Bool, true, false, ◌||◌, none, some, List, [], ◌∷◌, ◌∙◌,
  arith, ◌==◌, Option-cases, Bool-cases, Result, ok, err,
}
use telegram_osint.Base.Dict.{Dict, lookup, insert, lookup-insert_self, lookup-insert_ne}
use telegram_osint.Jobs.State.{
  JobState, pending, running, completed, failed, cancelled, same_state, Job,
}
use telegram_osint.Jobs.Repository.{
  JobError, job_not_found, illegal_transition, allowed, Change, moved, transition,
}

-- The edges that the module's description names.
infix 40 ◌⟶◌
pub data ◌⟶◌ : JobState → JobState → Type 0 where
  start : pending ⟶ running
  finish : running ⟶ completed
  reject : pending ⟶ failed
  break : running ⟶ failed
  withdraw : pending ⟶ cancelled
  interrupt : running ⟶ cancelled
  requeue : running ⟶ pending
  retry : failed ⟶ pending

ruleset edges = (start, finish, reject, break, withdraw, interrupt, requeue, retry)

abbrev pub is_legal : JobState → JobState → Bool
is_legal from to = same_state to from || allowed from to

is_legal-⟶ : (s t : JobState) → is_legal s t ≡ true → (s ≡ t) ⊎ (s ⟶ t)
is_legal-⟶ pending pending h = inl refl
is_legal-⟶ s t h = grind (arith, edges)

pub moved-state :
    (now : ℕ) (to : JobState) (ch : Change) (job : Job) → (moved now to ch job).state ≡ to
unfolding moved
moved-state now to ch job = ground arith

-- `transition` in three lines: a missing row, a refusal, a write.
pub transition_missing :
    (now id : ℕ) (to : JobState) (ch : Change) (jobs : Dict Job)
    → lookup id jobs ≡ none
    → transition now id to ch jobs ≡ err (job_not_found id)
unfolding transition
transition_missing now id to ch jobs h = rw (h, transition)

pub transition_refused :
    (now id : ℕ) (to : JobState) (ch : Change) (jobs : Dict Job) {job : Job}
    → lookup id jobs ≡ some job
    → is_legal job.state to ≡ false
    → transition now id to ch jobs ≡ err (illegal_transition job.state to)
unfolding transition
transition_refused now id to ch jobs h no_edge = ground arith

pub transition_written :
    (now id : ℕ) (to : JobState) (ch : Change) (jobs : Dict Job) {job : Job}
    → lookup id jobs ≡ some job
    → is_legal job.state to ≡ true
    → transition now id to ch jobs ≡ ok (insert id (moved now to ch job) jobs)
unfolding transition
transition_written now id to ch jobs h edge = ground arith

-- What a successful call has done.
pub record Moves (id : ℕ) (to : JobState) (jobs jobs' : Dict Job) : Type 0 where
  pub before : Job
  pub after : Job
  pub found : lookup id jobs ≡ some before
  pub written : lookup id jobs' ≡ some after
  pub reached : after.state ≡ to
  pub edge : (before.state ≡ to) ⊎ (before.state ⟶ to)
  pub others : (j : ℕ) → j ≢ id → lookup j jobs' ≡ lookup j jobs

-- A transition that succeeds moves one existing job along an edge of the state machine, or rewrites
-- its state by itself, and leaves every other job as it was.
pub transition-Moves :
    (now id : ℕ) (to : JobState) (ch : Change) (jobs : Dict Job) {jobs' : Dict Job}
    → transition now id to ch jobs ≡ ok jobs'
    → Moves id to jobs jobs'
transition-Moves now id to ch jobs {jobs'} h = elim (Option-cases (lookup id jobs)) [
  | inl gone ↦ absurd (cc (transition_missing now id to ch jobs gone))
  | inr (job, found) ↦ elim (Bool-cases (is_legal job.state to)) [
    | inr no_edge ↦ absurd (cc (transition_refused now id to ch jobs found no_edge))
    | inl legal ↦
        let same : jobs' ≡ insert id (moved now to ch job) jobs =
          cc (transition_written now id to ch jobs found legal) in
        record {
          before = job;
          after = moved now to ch job;
          found = found;
          written = rw same (lookup-insert_self id (moved now to ch job) jobs);
          reached = moved-state now to ch job;
          edge = is_legal-⟶ job.state to legal;
          others = λ j ne. rw same (lookup-insert_ne id j (moved now to ch job) jobs ne);
        }
  ]
]

-- A call of `transition`, by anyone.
pub record Request : Type 0 where
  pub now : ℕ
  pub id : ℕ
  pub to : JobState
  pub change : Change

-- Calls one after the other; one that raises changes nothing.
unfoldable pub apply_request : Request → Dict Job → Dict Job
apply_request r jobs = elim (transition r.now r.id r.to r.change jobs) [
  | ok jobs' ↦ jobs'
  | err e ↦ jobs
]

unfoldable pub apply_requests : List Request → Dict Job → Dict Job
apply_requests [] jobs = jobs
apply_requests (r ∷ rs) jobs = apply_requests rs (apply_request r jobs)

-- `COMPLETED` and `CANCELLED` have no way out; `FAILED` has, by a retry.
abbrev pub IsSettled : JobState → Type 0
IsSettled s = (s ≡ completed) ⊎ (s ≡ cancelled)

abbrev pub HasState : Dict Job → ℕ → JobState → Type 0
HasState jobs id s = (job : Job) × (lookup id jobs ≡ some job) × (job.state ≡ s)

⟶-unsettled : {s t : JobState} → s ⟶ t → ¬ IsSettled s
⟶-unsettled start h = ground arith
⟶-unsettled finish h = ground arith
⟶-unsettled reject h = ground arith
⟶-unsettled break h = ground arith
⟶-unsettled withdraw h = ground arith
⟶-unsettled interrupt h = ground arith
⟶-unsettled requeue h = ground arith
⟶-unsettled retry h = ground arith

pub settled_edge : (s t : JobState) → IsSettled s → (s ≡ t) ⊎ (s ⟶ t) → t ≡ s
settled_edge s t h (inl e) = sym e
settled_edge s t h (inr step) = absurd (⟶-unsettled step h)

request-HasState :
    (r : Request) (jobs : Dict Job) (id : ℕ) (s : JobState)
    → IsSettled s
    → HasState jobs id s
    → HasState (apply_request r jobs) id s
unfolding apply_request
request-HasState r jobs id s settled (job, found, is_s) =
    by_result (transition r.now r.id r.to r.change jobs) refl
  where
    open r use {now, id as rid, to, change}

    by_result :
        (res : Result JobError (Dict Job))
        → transition now rid to change jobs ≡ res
        → HasState (elim res [ ok jobs' ↦ jobs' | err e ↦ jobs ]) id s
    by_result (err e) h = (job, found, is_s)
    by_result (ok jobs') h =
        let m : Moves rid to jobs jobs' = transition-Moves now rid to change jobs h in
        elim (Bool-cases (id == rid)) [
          | inl same ↦
              let at : id ≡ rid = ground arith in
              let was : m.before.state ≡ s = cc (m.found, at) in
              let stays : to ≡ m.before.state =
                settled_edge m.before.state to (rw was settled) m.edge in
              (m.after, rw at m.written, cc (m.reached, stays))
          | inr other ↦ (job, m.others id (ground arith) ∙ found, is_s)
        ]

-- Once a job is completed or cancelled, no sequence of transitions, on any jobs and with any
-- arguments, changes its state.
pub apply_requests-HasState :
    (rs : List Request) (jobs : Dict Job) (id : ℕ) (s : JobState)
    → IsSettled s
    → HasState jobs id s
    → HasState (apply_requests rs jobs) id s
unfolding apply_requests
apply_requests-HasState [] jobs id s settled h = h
apply_requests-HasState (r ∷ rs) jobs id s settled h =
    apply_requests-HasState rs (apply_request r jobs) id s settled
      (request-HasState r jobs id s settled h)
