-- ===== src/Schedule/Once.antt =====
-- Every entry that is due gets one job, and no entry gets two within the interval.
use telegram_osint.Base.{
  ℕ, suc, ◌+◌, ◌≤◌, ◌<◌, ◌≡◌, refl, sym, ◌∙◌, ap, Bool, true, false, not, ◌&&◌, ◌||◌, none, some,
  List, [], ◌∷◌, ◌++◌, any, length, ◌==◌, arith, All, All-imp, All-map, All-take, All-keep,
}
use mathlib.Core.List.{append-nil, append_assoc}
use telegram_osint.Base.Dict.{Dict, lookup, lookup-insert_self, lookup-insert_ne}
use telegram_osint.Jobs.State.{Job, pending}
use telegram_osint.Jobs.Repository.{create}
use telegram_osint.Jobs.Queue.{Queue, enqueue}
use telegram_osint.Monitor.Poll.{Watch, is_older, due_watchlist_ids, mark_scheduled}
use telegram_osint.Schedule.Ticks.{
  TickTables, poll_params, default_retries, due_limit, schedule_loop, enqueue_all,
  schedule_due_watches,
}

-- the job that a tick makes
abbrev poll_job : ℕ → Job
poll_job wid = record {
  kind = "watch_poll";
  state = pending;
  requested_by = none;
  params = poll_params wid;
  result = none;
  progress = 0;
  error = none;
  retry_count = 0;
  max_retries = default_retries;
  started_at = none;
  completed_at = none;
}

-- the keys of the new jobs
abbrev keys : ℕ → List ℕ → List ℕ
keys next [] = []
keys next (wid ∷ due) = next ∷ keys (next + 1) due

-- every entry of a list has its job, in order
abbrev HasJobs : ℕ → List ℕ → Dict Job → Type 0
HasJobs next [] jobs = Unit
HasJobs next (wid ∷ due) jobs =
    (lookup next jobs ≡ some (poll_job wid)) × HasJobs (next + 1) due jobs

module _ (clock : ℕ → ℕ) where
  loop-keys :
      (next : ℕ) (due : List ℕ) (db : TickTables)
      → (schedule_loop clock next due db).0 ≡ keys next due
  unfolding schedule_loop
  loop-keys next [] db = refl
  loop-keys next (wid ∷ due) db = ap (◌∷◌ next) (loop-keys (next + 1) due _)

  loop-lookup :
      (k next : ℕ) (due : List ℕ) (db : TickTables)
      → k < next
      → lookup k (schedule_loop clock next due db).1.jobs ≡ lookup k db.jobs
  unfolding schedule_loop create
  loop-lookup k next [] db h = refl
  loop-lookup k next (wid ∷ due) db h =
      loop-lookup k (next + 1) due _ (omega (arith, h))
      ∙ lookup-insert_ne next k _ db.jobs (ground (arith, h))

  loop-HasJobs :
      (next : ℕ) (due : List ℕ) (db : TickTables)
      → HasJobs next due (schedule_loop clock next due db).1.jobs
  unfolding schedule_loop create
  loop-HasJobs next [] db = tt
  loop-HasJobs next (wid ∷ due) db = (
    loop-lookup next (next + 1) due _ (omega arith) ∙ lookup-insert_self next _ db.jobs,
    loop-HasJobs (next + 1) due _,
  )

-- not among the entries of two lists, or checked within the interval
abbrev settled : ℕ → ℕ → List ℕ → List ℕ → Watch → Bool
settled now interval done due w =
    not (any (λ d. d == w.id) done || any (λ d. d == w.id) due)
    || not (is_older now interval w.last_checked_at)

module _ (clock : ℕ → ℕ) (now interval : ℕ) (recent : (k : ℕ) → now ≤ clock k + interval) where
  settled-mark :
      (k wid : ℕ) (done : List ℕ) (entries : List Watch)
      → All (λ w. settled now interval done [] w ≡ true) entries
      → All
          (λ w. settled now interval (wid ∷ done) [] w ≡ true)
          (mark_scheduled (clock k) wid entries)
  unfolding mark_scheduled
  settled-mark k wid done [] h = tt
  settled-mark k wid done (w ∷ entries) h =
      (ground (arith, h.0, recent k), settled-mark k wid done entries h.1)

  loop-settled :
      (next : ℕ) (done due : List ℕ) (db : TickTables)
      → All (λ w. settled now interval done [] w ≡ true) db.entries
      → All
          (λ w. settled now interval done due w ≡ true)
          (schedule_loop clock next due db).1.entries
  unfolding schedule_loop
  loop-settled next done [] db h = h
  loop-settled next done (wid ∷ due) db h =
      All-imp (λ w e. ground (arith, e)) _
        (loop-settled (next + 1) (wid ∷ done) due _ (settled-mark next wid done db.entries h))

enqueue_all-ready :
    (now : ℕ) (ids : List ℕ) (q : Queue)
    → ((enqueue_all now ids q).ready ≡ q.ready ++ ids)
      × ((enqueue_all now ids q).delayed ≡ q.delayed)
unfolding enqueue_all enqueue
enqueue_all-ready now [] q = (sym (append-nil q.ready), refl)
enqueue_all-ready now (id ∷ ids) q =
    let ih = enqueue_all-ready now ids (enqueue now id 0 q) in
    (ih.0 ∙ append_assoc q.ready (id ∷ []) ids, ih.1)

length-keys : (next : ℕ) (due : List ℕ) → length (keys next due) ≡ length due
length-keys next [] = refl
length-keys next (wid ∷ due) = ap suc (length-keys (next + 1) due)

settled_none :
    (now interval : ℕ) (entries : List Watch)
    → All (λ w. settled now interval [] [] w ≡ true) entries
settled_none now interval [] = tt
settled_none now interval (w ∷ entries) = (refl, settled_none now interval entries)

-- an entry that is due again was not among those of the tick
due_again :
    (later interval limit : ℕ) (due : List ℕ) (entries : List Watch)
    → All (λ w. settled later interval [] due w ≡ true) entries
    → All (λ id. any (λ d. d == id) due ≡ false) (due_watchlist_ids later interval limit entries)
unfolding due_watchlist_ids
due_again later interval limit due entries h = All-take _ limit _ (
    All-map _ (λ w. w.id) _
      (All-imp (λ w e. ground (arith, e.0, e.1)) _
        (All-keep _ (λ w. w.is_active && is_older later interval w.last_checked_at) entries h)))

-- What a tick at `now` does for the entries that are due then, and what is due `later`.
pub record Ticked (now interval later next : ℕ) (db : TickTables) (q : Queue) (n : ℕ)
    (out : TickTables) (queue : Queue) : Type 0 where
  pub count : n ≡ length (due_watchlist_ids now interval due_limit db.entries)
  pub jobs : HasJobs next (due_watchlist_ids now interval due_limit db.entries) out.jobs
  pub kept : (k : ℕ) → k < next → lookup k out.jobs ≡ lookup k db.jobs
  pub queued :
      queue.ready ≡ q.ready ++ keys next (due_watchlist_ids now interval due_limit db.entries)
  pub delayed : queue.delayed ≡ q.delayed
  pub once :
      (limit : ℕ)
      → All
          (λ id. any (λ d. d == id) (due_watchlist_ids now interval due_limit db.entries) ≡ false)
          (due_watchlist_ids later interval limit out.entries)

-- A tick makes one pending `watch_poll` job for every entry that is due, up to the limit of the query, in
-- the order of the entries, leaves the jobs with smaller keys alone, and puts exactly the new jobs at the end
-- of the queue. At any later time, up to one interval after each entry was stamped, none of the entries of
-- the tick is due again, whatever the limit of the query.
pub schedule_due_watches-Ticked :
    (clock : ℕ → ℕ) (now interval later next : ℕ) (db : TickTables) (q : Queue)
    → ((k : ℕ) → later ≤ clock k + interval)
    → Ticked now interval later next db q
        (schedule_due_watches clock now interval next db q).0
        (schedule_due_watches clock now interval next db q).1.0
        (schedule_due_watches clock now interval next db q).1.1
unfolding schedule_due_watches
schedule_due_watches-Ticked clock now interval later next db q recent =
    let due = due_watchlist_ids now interval due_limit db.entries in
    let same = loop-keys clock next due db in
    let queue = enqueue_all-ready now (schedule_loop clock next due db).0 q in
    record {
      count = ap length same ∙ length-keys next due;
      jobs = loop-HasJobs clock next due db;
      kept = λ k h. loop-lookup clock k next due db h;
      queued = queue.0 ∙ ap (λ ids. q.ready ++ ids) same;
      delayed = queue.1;
      once = λ limit. due_again later interval limit due _ (
          loop-settled clock later interval recent next [] due db
            (settled_none later interval db.entries));
    }
