-- ===== src/Jobs/Tests.antt =====
-- A queue with three jobs, a worker with two handlers, and the theorems at these inputs.
use telegram_osint.Base.{
  ℕ, ◌+◌, ◌≤◌, ◌<◌, ◌≡◌, refl, ◌≢◌, inl, inr, none, some, List, [], ◌∷◌, arith,
}
use telegram_osint.Base.Int.{pos, clamp100}
use telegram_osint.Base.Dict.{Dict, lookup, insert}
use telegram_osint.Jobs.State.{
  JobState, pending, running, completed, failed, cancelled, Scalar, Job,
}
use telegram_osint.Jobs.Repository.{no_change, create, moved, transition}
use telegram_osint.Jobs.Queue.{
  Queue, empty_queue, promote, poll, keep_polling, dequeue, enqueue, popped, waiting,
}
use telegram_osint.Jobs.Runner.{
  report, cancel, raises, Execution, Config, World, report_progress, run_events, dispatch, deliver,
  find_chat_id, failure_notice, retry, on_failure, execute, begin, process,
}
use telegram_osint.Jobs.Machine.{
  Moves, transition-Moves, apply_request, apply_requests, apply_requests-HasState, HasState,
  IsSettled,
}
use telegram_osint.Jobs.Valid.{
  Call, submits, requests, apply_call, apply_calls, apply_calls-IsValid, IsValid,
}
use telegram_osint.Jobs.Delivery.{queued, handed, queued-dequeue, dequeue_returns}
use telegram_osint.Jobs.Worker.{process_confined}
use telegram_osint.Jobs.Attempts.{process-cancelled}
use telegram_osint.Jobs.Retries.{AlwaysFails, process-Fails, turns, retries_exhausted}
use telegram_osint.Jobs.Failing.{Row, Retried, GaveUp}

abbrev waiting_job : Job
waiting_job = record {
  kind = "search";
  state = pending;
  requested_by = none;
  params = ("chat_id", Scalar.int (pos 42)) ∷ [];
  result = none;
  progress = 0;
  error = none;
  retry_count = 0;
  max_retries = 1;
  started_at = none;
  completed_at = none;
}

abbrev done_job : Job
done_job = record waiting_job { state = completed; progress = 100; completed_at = some 5 }

abbrev table : Dict Job
table = (1, waiting_job) ∷ (2, done_job) ∷ []

abbrev stop_run : Execution
stop_run = record {
  events = report 11 (pos 10) ∷ cancel 12 ∷ report 13 (pos 20) ∷ [];
  ending = raises "never reached";
  ended = 14;
}

abbrev crash_run : Execution
crash_run = record { events = report 11 (pos 10) ∷ []; ending = raises "boom"; ended = 14 }

abbrev config : Execution → Config
config x = record {
  handlers = λ kind. some (λ _. x);
  retry_base = 5;
  describe = λ e. "illegal";
  no_handler = λ kind. "no handler";
}

abbrev world : World
world = record { jobs = table; queue = empty_queue; sent = [] }

abbrev two_queued : Queue
two_queued = record { ready = 3 ∷ []; delayed = (20, 4) ∷ (90, 5) ∷ [] }

-- the steps of the runner, for tests by evaluation
abbrev run_config : Config
run_config = config crash_run

-- a full run: the job fails twice, and the chat is told
fails_twice :
    (turns run_config 1 (λ i. i) 0 2 world).sent
    ≡ record { chat_id = Scalar.int (pos 42); message = "Collection failed. Source unavailable." }
      ∷ []
unfolding turns process begin execute dispatch run_events report_progress on_failure retry deliver
    failure_notice find_chat_id transition moved lookup insert clamp100 enqueue
fails_twice = refl

-- a delayed job comes out once it is due
comes_due : (dequeue (λ i. 18 + i) 10 11 (record two_queued { ready = [] })).0 ≡ popped 4
unfolding dequeue poll promote keep_polling
comes_due = refl

transition-Moves_example :
    Moves 1 running table
      (apply_request (record { now = 9; id = 1; to = running; change = no_change }) table)
unfolding apply_request transition moved lookup insert
transition-Moves_example = transition-Moves 9 1 running no_change table refl

apply_requests-HasState_example :
    HasState
      (apply_requests
        (record { now = 9; id = 2; to = running; change = no_change }
          ∷ record { now = 9; id = 2; to = cancelled; change = no_change }
          ∷ [])
        table)
      2
      completed
unfolding lookup
apply_requests-HasState_example =
    apply_requests-HasState
      (record { now = 9; id = 2; to = running; change = no_change }
        ∷ record { now = 9; id = 2; to = cancelled; change = no_change }
        ∷ [])
      table 2 completed (inl refl) (done_job, refl, refl)

abbrev calls : List Call
calls =
    submits 7 "search" [] none 3
    ∷ requests (record {
      now = 3;
      id = 7;
      to = running;
      change = record no_change { progress = some (pos 250) };
    })
    ∷ []

abbrev started_job : Job
started_job = record waiting_job {
  state = running;
  params = [];
  max_retries = 3;
  progress = 100;
  started_at = some 3;
}

apply_calls-IsValid_example : IsValid started_job
unfolding apply_calls apply_call apply_request create transition moved lookup insert clamp100
apply_calls-IsValid_example = apply_calls-IsValid calls 7 started_job refl

queued-dequeue_example :
    queued 4 two_queued
    ≡ queued 4 (dequeue (λ i. i) 10 11 two_queued).1
      + handed 4 (dequeue (λ i. i) 10 11 two_queued).0
queued-dequeue_example = queued-dequeue (λ i. i) 10 11 4 two_queued

dequeue_returns_example : (dequeue (λ i. i) 10 11 empty_queue).0 ≢ waiting
dequeue_returns_example = dequeue_returns (λ i. i) 10 empty_queue (λ i. omega arith)

process_confined_example :
    let jobs' = (process (config stop_run) 10 1 world).1.jobs in
    ((j : ℕ) → j ≢ 1 → lookup j jobs' ≡ lookup j table)
    × ((j : ℕ) (s : JobState) → IsSettled s → HasState table j s → HasState jobs' j s)
process_confined_example = process_confined (config stop_run) 10 1 world

process-cancelled_example :
    let w' = (process (config stop_run) 10 1 world).1 in
    HasState w'.jobs 1 cancelled × (w'.sent ≡ []) × (w'.queue ≡ empty_queue)
unfolding lookup
process-cancelled_example =
    process-cancelled (config stop_run) 10 1 world refl (inl refl) refl (λ j. (12, inr (inl refl)))

row : Row table 1 pending 0 1 "search"
unfolding lookup
row = record {
  job = waiting_job;
  found = refl;
  state = refl;
  retry_count = refl;
  max_retries = refl;
  same_kind = refl;
}

always_fails : AlwaysFails (λ _. crash_run)
always_fails j = record { undisturbed = (tt, tt); exc = "boom"; raised = refl }

process-Fails_example :
    (0 < 1 → Retried run_config 1 0 1 "search" world (process run_config 10 1 world).1)
    × (1 ≤ 0 → GaveUp 1 0 1 "search" world (process run_config 10 1 world).1)
process-Fails_example = process-Fails run_config 1 10 world row refl always_fails

retries_exhausted_example :
    Row (turns run_config 1 (λ i. i) 0 1 world).jobs 1 pending 1 1 "search"
    × Row (turns run_config 1 (λ i. i) 0 2 world).jobs 1 failed 1 1 "search"
retries_exhausted_example = retries_exhausted run_config 1 (λ i. i) world row refl always_fails
