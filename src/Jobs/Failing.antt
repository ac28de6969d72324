-- ===== src/Jobs/Failing.antt =====
-- One run of a handler that raises: the row, the queue and the notices that it leaves.
use telegram_osint.Base.{
  if◌then◌else◌, ◌++◌, ℕ, ◌+◌, ◌*◌, ◌^◌, ◌≤◌, ◌<◌, ◌≡◌, refl, ap, ◌∙◌, inl, inr, String, true,
  false, ◌||◌, none, some, List, [], ◌∷◌, All, arith, Bool-cases, ok, ltb,
}
use telegram_osint.Base.Int.{ℤ}
use telegram_osint.Base.Dict.{Dict, lookup, insert, lookup-insert_self}
use telegram_osint.Jobs.State.{JobState, pending, running, failed, same_state, Job}
use telegram_osint.Jobs.Repository.{allowed, Change, no_change, moved, transition}
use telegram_osint.Jobs.Queue.{enqueue}
use telegram_osint.Jobs.Runner.{
  RunEvent, report, cancel, raises, Execution, Config, World, Notification, is_falsy,
  report_progress, run_events, dispatch, deliver, failure_notice, retry, on_failure, execute,
}
use telegram_osint.Jobs.Machine.{transition_written}

-- The row of a job, up to the columns that the retries turn on.
pub record Row (jobs : Dict Job) (id : ℕ) (s : JobState) (k m : ℕ) (kind : String) : Type 0 where
  pub job : Job
  pub found : lookup id jobs ≡ some job
  pub state : job.state ≡ s
  pub retry_count : job.retry_count ≡ k
  pub max_retries : job.max_retries ≡ m
  pub same_kind : job.kind ≡ kind

abbrev bumped : JobState → JobState → ℕ → ℕ
bumped failed pending k = k + 1
bumped _ _ k = k

moved_columns :
    (now : ℕ) (to : JobState) (ch : Change) (job : Job)
    → let job' = moved now to ch job in
      (job'.state ≡ to)
      × (job'.retry_count ≡ bumped job.state to job.retry_count)
      × (job'.max_retries ≡ job.max_retries)
      × (job'.kind ≡ job.kind)
unfolding moved
moved_columns now to ch job = ground arith

pub transition-Row :
    (now id : ℕ) (from to : JobState) (ch : Change) (jobs : Dict Job) {k m : ℕ} {kind : String}
    → Row jobs id from k m kind
    → same_state to from || allowed from to ≡ true
    → (jobs' : Dict Job) × (transition now id to ch jobs ≡ ok jobs')
      × Row jobs' id to (bumped from to k) m kind
transition-Row now id from to ch jobs r legal =
    let (at, count, cap, kept) = moved_columns now to ch r.job in
    (
      insert id (moved now to ch r.job) jobs,
      transition_written now id to ch jobs r.found (rw r.state legal),
      record {
        job = moved now to ch r.job;
        found = lookup-insert_self id (moved now to ch r.job) jobs;
        state = at;
        retry_count = count ∙ (rw (r.state, r.retry_count));
        max_retries = cap ∙ r.max_retries;
        same_kind = kept ∙ r.same_kind;
      },
    )

-- a run without a cancellation from outside that ends by raising
abbrev IsReport : RunEvent → Type 0
IsReport (report t p) = Unit
IsReport (cancel t) = ⊥

pub record Fails (x : Execution) : Type 0 where
  pub undisturbed : All IsReport x.events
  pub exc : String
  pub raised : x.ending ≡ raises exc

report_progress-Row :
    (now id : ℕ) (p : ℤ) (jobs : Dict Job) {k m : ℕ} {kind : String}
    → Row jobs id running k m kind
    → (jobs' : Dict Job) × (report_progress now id p jobs ≡ ok jobs')
      × Row jobs' id running k m kind
unfolding report_progress
report_progress-Row now id p jobs r = transition-Row now id running running _ jobs r refl

run_events-Row :
    (id : ℕ) (events : List RunEvent) (jobs : Dict Job) {k m : ℕ} {kind : String}
    → All IsReport events
    → Row jobs id running k m kind
    → (jobs' : Dict Job) × (run_events id events jobs ≡ (jobs', none))
      × Row jobs' id running k m kind
unfolding run_events
run_events-Row id [] jobs h r = (jobs, refl, r)
run_events-Row id (cancel t ∷ events) jobs h r = absurd h.0
run_events-Row id (report t p ∷ events) jobs h r =
    let (jobs₁, e, r₁) = report_progress-Row t id p jobs r in
    let (jobs₂, e₂, r₂) = run_events-Row id events jobs₁ h.1 r₁ in
    (jobs₂, rw (e, run_events) e₂, r₂)

-- How a turn of the worker on a failing run leaves the world.
pub record Retried (c : Config) (id k m : ℕ) (kind : String) (w w' : World) : Type 0 where
  pub row : Row w'.jobs id pending (k + 1) m kind
  pub at : ℕ
  pub delayed : w'.queue ≡ enqueue at id (c.retry_base * 2 ^ (k + 1)) w.queue
  pub silent : w'.sent ≡ w.sent

-- the notices once one more is sent; one without a chat is dropped
abbrev pub with_notice : Notification → List Notification → List Notification
with_notice n sent = if is_falsy n.chat_id then sent else sent ++ (n ∷ [])

pub record GaveUp (id k m : ℕ) (kind : String) (w w' : World) : Type 0 where
  pub row : Row w'.jobs id failed k m kind
  pub no_retry : w'.queue ≡ w.queue
  pub told : w'.sent ≡ with_notice (failure_notice id w'.jobs) w.sent

deliver_other_jobs :
    (n : Notification) (w : World) (jobs : Dict Job)
    → deliver n (record w { jobs = jobs }) ≡ record w { jobs = jobs; sent = (deliver n w).sent }
unfolding deliver
deliver_other_jobs n w jobs = elim (Bool-cases (is_falsy n.chat_id)) [
  | inl quiet ↦ rw quiet refl
  | inr loud ↦ rw loud refl
]

sent-deliver : (n : Notification) (w : World) → (deliver n w).sent ≡ with_notice n w.sent
unfolding deliver
sent-deliver n w = elim (Bool-cases (is_falsy n.chat_id)) [
  | inl quiet ↦ rw quiet refl
  | inr loud ↦ rw loud refl
]

module _ (c : Config) (id : ℕ) {k m : ℕ} {kind : String} where
  retry-Retried :
      (now : ℕ) (jobs : Dict Job) (w : World)
      → Row jobs id failed k m kind
      → (retry c now id jobs w).0 ≡ ok tt × Retried c id k m kind w (retry c now id jobs w).1
  unfolding retry
  retry-Retried now jobs w r =
      let (jobs', e, r') = transition-Row now id failed pending no_change jobs r refl in
      rw (e, retry)
        (rw r'.found
          (refl, record { row = r'; at = now; delayed = rw r'.retry_count; silent = refl }))

  on_failure-Retried :
      (now : ℕ) (exc : String) (w : World)
      → Row w.jobs id running k m kind
      → k < m
      → Retried c id k m kind w (on_failure c now id exc w).1
  unfolding on_failure
  on_failure-Retried now exc w r lt =
      let (jobs, e, r') =
        transition-Row now id running failed (record no_change { error = some exc }) w.jobs r
          refl in
      let again : ltb r'.job.retry_count r'.job.max_retries ≡ true =
        rw (r'.retry_count, r'.max_retries) (ground arith) in
      rw (r.found, on_failure) (rw e (rw r'.found (rw again (retry-Retried now jobs w r').1)))

  on_failure-GaveUp :
      (now : ℕ) (exc : String) (w : World)
      → Row w.jobs id running k m kind
      → m ≤ k
      → GaveUp id k m kind w (on_failure c now id exc w).1
  unfolding on_failure
  on_failure-GaveUp now exc w r le =
      let (jobs, e, r') =
        transition-Row now id running failed (record no_change { error = some exc }) w.jobs r
          refl in
      let over : ltb r'.job.retry_count r'.job.max_retries ≡ false =
        rw (r'.retry_count, r'.max_retries) (ground arith) in
      rw (r.found, on_failure) (rw e (rw r'.found (rw over (gave_up jobs r'))))
    where
      gave_up :
          (jobs : Dict Job)
          → Row jobs id failed k m kind
          → GaveUp id k m kind w (deliver (failure_notice id jobs) (record w { jobs = jobs }))
      gave_up jobs r' =
          rw deliver_other_jobs
            (record { row = r'; no_retry = refl; told = sent-deliver (failure_notice id jobs) w })

  dispatch-Fails :
      (x : Execution) (jobs : Dict Job)
      → Row jobs id running k m kind
      → (f : Fails x)
      → (jobs' : Dict Job) × (dispatch c id x jobs ≡ (jobs', raises f.exc))
        × Row jobs' id running k m kind
  unfolding dispatch
  dispatch-Fails x jobs r f =
      let (jobs', e, r') = run_events-Row id x.events jobs f.undisturbed r in
      let quiet : (run_events id x.events jobs).1 ≡ none = ap (λ t. t.1) e in
      let left : (run_events id x.events jobs).0 ≡ jobs' = ap (λ t. t.0) e in
      (jobs', rw (quiet, dispatch) (rw (left, f.raised) refl), r')

  -- the handler runs and raises, from a table where the job is running
  pub execute-Fails :
      (x : Execution) (w : World)
      → Row w.jobs id running k m kind
      → Fails x
      → (k < m → Retried c id k m kind w (execute c id x w).1)
        × (m ≤ k → GaveUp id k m kind w (execute c id x w).1)
  unfolding execute
  execute-Fails x w r f =
      let (jobs, ran, r') = dispatch-Fails x w.jobs r f in
      let ending : (dispatch c id x w.jobs).1 ≡ raises f.exc = ap (λ t. t.1) ran in
      let left : (dispatch c id x w.jobs).0 ≡ jobs = ap (λ t. t.0) ran in
      rw (ending, execute) (rw left (outcomes (record w { jobs = jobs }) r' refl refl))
    where
      outcomes :
          (w' : World)
          → Row w'.jobs id running k m kind
          → w'.queue ≡ w.queue
          → (n : w'.sent ≡ w.sent)
          → (k < m → Retried c id k m kind w (on_failure c x.ended id f.exc w').1)
            × (m ≤ k → GaveUp id k m kind w (on_failure c x.ended id f.exc w').1)
      outcomes w' r' q n = (
        (λ lt.
            let t = on_failure-Retried x.ended f.exc w' r' lt in
            record { row = t.row; at = t.at; delayed = rw (← q) t.delayed; silent = t.silent ∙ n }),
        (λ le.
            let g = on_failure-GaveUp x.ended f.exc w' r' le in
            record {
              row = g.row;
              no_retry = g.no_retry ∙ q;
              told =
                  g.told
                  ∙ ap (with_notice (failure_notice id (on_failure c x.ended id f.exc w').1.jobs))
                      n;
            }),
      )
