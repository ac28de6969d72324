-- ===== src/Jobs/Runner.antt =====
-- workers/runner.py, `JobRunner`, with the records of workers/registry.py. What a handler does is the
-- environment's: it reports progress, may be cancelled from outside meanwhile, and returns or raises.
use telegram_osint.Base.{
  ℕ, ◌*◌, ◌^◌, String, Bool, true, false, Option, none, some, List, [], ◌∷◌, ◌++◌, ◌==◌, ltb,
  if◌then◌else◌, Result, ok, err,
}
use telegram_osint.Base.Int.{ℤ, pos, clamp100}
use telegram_osint.Base.Dict.{Dict, lookup}
use text.Mathlib.Text.{◌==◌ as str_eq}
use telegram_osint.Jobs.State.{
  pending, running, completed, failed, cancelled, is_terminal, same_state, Scalar, Mapping, Job,
}
use telegram_osint.Jobs.Repository.{
  JobError, job_not_found, illegal_transition, Change, no_change, transition,
}
use telegram_osint.Jobs.Queue.{Queue, popped, timed_out, waiting, dequeue, enqueue}

-- `Notification`; the parse mode is left out, since only `_send_telegram` reads it
pub record Notification : Type 0 where
  pub chat_id : Scalar
  pub message : String

-- `JobOutcome`
pub record JobOutcome : Type 0 where
  pub summary : Mapping
  pub notification : Option Notification

-- What happens to a job's row while its handler runs, with the time of each event.
pub data RunEvent : Type 0 where
  report : ℕ → ℤ → RunEvent
  cancel : ℕ → RunEvent

-- how the coroutine ends when no report of its own raised: it returns, or raises a described error
pub data Ending : Type 0 where
  returns : JobOutcome → Ending
  raises : String → Ending

pub record Execution : Type 0 where
  pub events : List RunEvent
  pub ending : Ending
  pub ended : ℕ

-- `JobHandler`, and the registry's `get_handler`
abbrev pub Handlers : Type 0
Handlers = String → Option (Job → Execution)

pub record Config : Type 0 where
  pub handlers : Handlers
  pub retry_base : ℕ
  -- the text of an exception of the repository, as `type(exc).__name__: exc`
  pub describe : JobError → String
  pub no_handler : String → String

-- the table of jobs, the queue, and the notifications handed to the notifier
pub record World : Type 0 where
  pub jobs : Dict Job
  pub queue : Queue
  pub sent : List Notification

-- a call ends or raises, and its committed effects stay
abbrev pub Effect : Type 0
Effect = Result JobError (Unit {0}) × World

-- the sessions of the program: commit if the body ends, roll back if it raises
abbrev pub commit : Result JobError (Dict Job) → World → Effect
commit (ok jobs) w = (ok tt, record w { jobs = jobs })
commit (err e) w = (err e, w)

-- `cancel_job` of apps/bot/jobs.py, called by the bot or the API
unfoldable pub cancel_job : ℕ → ℕ → Dict Job → Dict Job × Bool
cancel_job now id jobs = elim (lookup id jobs) [
  | none ↦ (jobs, false)
  | some job ↦
      if is_terminal job.state
      then (jobs, false)
      else elim (transition now id cancelled no_change jobs) [
        | ok jobs' ↦ (jobs', true)
        | err e ↦ (jobs, false)
      ]
]

-- `_progress` behind `JobContext.progress`, which clamps too
unfoldable pub report_progress : ℕ → ℕ → ℤ → Dict Job → Result JobError (Dict Job)
report_progress now id percent jobs =
    transition now id running (record no_change { progress = some (pos (clamp100 percent)) }) jobs

-- the events of a run in order; a report that raises ends the handler with that exception
unfoldable pub run_events : ℕ → List RunEvent → Dict Job → Dict Job × Option JobError
run_events id [] jobs = (jobs, none)
run_events id (cancel t ∷ events) jobs = run_events id events (cancel_job t id jobs).0
run_events id (report t p ∷ events) jobs = elim (report_progress t id p jobs) [
  | ok jobs' ↦ run_events id events jobs'
  | err e ↦ (jobs, some e)
]

-- `_dispatch`: what the coroutine returned or raised
unfoldable pub dispatch : Config → ℕ → Execution → Dict Job → Dict Job × Ending
unfolding run_events
dispatch c id x jobs =
    let (jobs', raised) = run_events id x.events jobs in
    elim raised [ none ↦ (jobs', x.ending) | some e ↦ (jobs', raises (c.describe e)) ]

-- a value that Python takes for false: 0 and the empty text
abbrev pub is_falsy : Scalar → Bool
is_falsy (Scalar.int (pos n)) = n == 0
is_falsy (Scalar.int _) = false
is_falsy (Scalar.text s) = str_eq s ""

-- `_deliver`; a notifier that fails is logged only
unfoldable pub deliver : Notification → World → World
deliver n w = if is_falsy n.chat_id then w else record w { sent = w.sent ++ (n ∷ []) }

get_param : String → Mapping → Option Scalar
get_param k [] = none
get_param k ((j, v) ∷ m) = if str_eq j k then some v else get_param k m

-- `_chat_id`
unfoldable pub find_chat_id : ℕ → Dict Job → Option Scalar
unfolding get_param
find_chat_id id jobs = elim (lookup id jobs) [
  | none ↦ none
  | some job ↦ get_param "chat_id" job.params
]

abbrev pub or_zero : Option Scalar → Scalar
or_zero none = Scalar.int (pos 0)
or_zero (some s) = if is_falsy s then Scalar.int (pos 0) else s

-- the notification at the end of `_on_failure`
unfoldable pub failure_notice : ℕ → Dict Job → Notification
failure_notice id jobs = record {
  chat_id = or_zero (find_chat_id id jobs);
  message = "Collection failed. Source unavailable.";
}

-- the retry of `_on_failure`, in the session that recorded the failure
unfoldable pub retry : Config → ℕ → ℕ → Dict Job → World → Effect
retry c now id jobs w = elim (transition now id pending no_change jobs) [
  | err e ↦ (err e, w)
  | ok jobs' ↦ elim (lookup id jobs') [
    | none ↦ (err (job_not_found id), w)
    | some job ↦ (
      ok tt,
      record w {
        jobs = jobs';
        queue = enqueue now id (c.retry_base * 2 ^ job.retry_count) w.queue;
      },
    )
  ]
]

-- `_on_failure`
unfoldable pub on_failure : Config → ℕ → ℕ → String → World → Effect
unfolding retry
on_failure c now id exc w = elim (lookup id w.jobs) [
  | none ↦ (ok tt, w)
  | some _ ↦ elim (transition now id failed (record no_change { error = some exc }) w.jobs) [
    | err e ↦ (err e, w)
    | ok jobs ↦ elim (lookup id jobs) [
      | none ↦ (err (job_not_found id), w)
      | some job ↦
          if ltb job.retry_count job.max_retries
          then retry c now id jobs w
          else (ok tt, deliver (failure_notice id jobs) (record w { jobs = jobs }))
    ]
  ]
]

abbrev pub deliver_optional : Option Notification → World → World
deliver_optional none w = w
deliver_optional (some n) w = deliver n w

-- `current is not None and JobState(current.state) is JobState.CANCELLED`
abbrev pub is_cancelled : Option Job → Bool
is_cancelled none = false
is_cancelled (some job) = same_state job.state cancelled

abbrev pub completion : JobOutcome → Change
completion o = record { progress = some (pos 100); error = none; result = some o.summary }

-- the last session of `_process`, once the handler has returned
unfoldable pub complete : ℕ → ℕ → JobOutcome → World → Effect
complete now id outcome w =
    if is_cancelled (lookup id w.jobs)
    then (ok tt, w)
    else elim (transition now id completed (completion outcome) w.jobs) [
      | err e ↦ (err e, w)
      | ok jobs ↦ (ok tt, deliver_optional outcome.notification (record w { jobs = jobs }))
    ]

-- the part of `_process` after the first session
unfoldable pub execute : Config → ℕ → Execution → World → Effect
unfolding dispatch
execute c id x w =
    let (jobs, ending) = dispatch c id x w.jobs in
    elim ending [
      | returns outcome ↦ complete x.ended id outcome (record w { jobs = jobs })
      | raises exc ↦ on_failure c x.ended id exc (record w { jobs = jobs })
    ]

-- the first session of `_process` once a handler is known: `RUNNING`, or give up silently
unfoldable pub begin : Config → ℕ → ℕ → (Job → Execution) → World → Effect
begin c now id handler w =
    elim (transition now id running (record no_change { progress = some (pos 0) }) w.jobs) [
      | err (illegal_transition _ _) ↦ (ok tt, w)
      | err (job_not_found j) ↦ (err (job_not_found j), w)
      | ok jobs ↦ elim (lookup id jobs) [
        | none ↦ (err (job_not_found id), w)
        | some started ↦ execute c id (handler started) (record w { jobs = jobs })
      ]
    ]

-- the branch for a job whose kind has no handler
unfoldable pub refuse : Config → ℕ → ℕ → String → World → Effect
refuse c now id kind w =
    commit (transition now id failed (record no_change { error = some (c.no_handler kind) }) w.jobs)
      w

-- `_process`
unfoldable pub process : Config → ℕ → ℕ → World → Effect
process c now id w = elim (lookup id w.jobs) [
  | none ↦ (ok tt, w)
  | some job ↦ if is_terminal job.state then (ok tt, w) else elim (c.handlers job.kind) [
    | none ↦ refuse c now id job.kind w
    | some handler ↦ begin c now id handler w
  ]
]

-- `run_once`: what it returns or raises, and the world after it
unfoldable pub run_once : Config → (ℕ → ℕ) → ℕ → ℕ → ℕ → World → Result JobError (Option ℕ) × World
run_once c clock timeout fuel now w =
    let (r, q) = dequeue clock timeout fuel w.queue in
    elim r [
      | popped id ↦
          let (ended, w') = process c now id (record w { queue = q }) in
          (elim ended [ ok _ ↦ ok (some id) | err e ↦ err e ], w')
      | timed_out ↦ (ok none, record w { queue = q })
      | waiting ↦ (ok none, record w { queue = q })
    ]
