-- ===== src/Schedule/Ticks.antt =====
-- `schedule_due_watches`, built from the watchlist, the job table and the queue. The new primary keys are
-- `next`, `next + 1` and so on; `clock k` is the time when job `k` is made.
use telegram_osint.Base.{ℕ, ◌+◌, none, List, [], ◌∷◌, length}
use telegram_osint.Base.Int.{pos}
use telegram_osint.Base.Dict.{Dict}
use telegram_osint.Jobs.State.{Job, Mapping, int}
use telegram_osint.Jobs.Repository.{create}
use telegram_osint.Jobs.Queue.{Queue, enqueue}
use telegram_osint.Monitor.Poll.{Watch, due_watchlist_ids, mark_scheduled}

-- what one tick reads and writes
pub record TickTables : Type 0 where
  pub entries : List Watch
  pub jobs : Dict Job

-- the default of `due_watchlist_ids`
abbrev pub due_limit : ℕ
due_limit = 200

-- the default of `Job.max_retries`
abbrev pub default_retries : ℕ
default_retries = 3

abbrev pub poll_params : ℕ → Mapping
poll_params wid = ("watchlist_id", int (pos wid)) ∷ []

-- the loop over the entries that are due: the ids of the jobs, and the tables
unfoldable pub schedule_loop : (ℕ → ℕ) → ℕ → List ℕ → TickTables → List ℕ × TickTables
schedule_loop clock next [] db = ([], db)
schedule_loop clock next (wid ∷ due) db =
    let after : TickTables = record {
      entries = mark_scheduled (clock next) wid db.entries;
      jobs = create next "watch_poll" (poll_params wid) none default_retries db.jobs;
    } in
    let (ids, out) = schedule_loop clock (next + 1) due after in (next ∷ ids, out)

-- `for jid in job_ids: q.enqueue(jid)`
unfoldable pub enqueue_all : ℕ → List ℕ → Queue → Queue
enqueue_all now [] q = q
enqueue_all now (id ∷ ids) q = enqueue_all now ids (enqueue now id 0 q)

-- `schedule_due_watches`: the number of jobs, the tables and the queue
unfoldable pub schedule_due_watches :
    (ℕ → ℕ) → ℕ → ℕ → ℕ → TickTables → Queue → ℕ × (TickTables × Queue)
schedule_due_watches clock now interval next db q =
    let due = due_watchlist_ids now interval due_limit db.entries in
    let (ids, out) = schedule_loop clock next due db in (length ids, (out, enqueue_all now ids q))
