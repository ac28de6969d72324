-- ===== src/Jobs/Retries.antt =====
-- A handler that always raises is tried `max_retries` times more, with a doubling delay, and then the
-- job fails for good.
use telegram_osint.Base.{ℕ, zero, suc, ◌+◌, ◌≤◌, ◌<◌, ◌≡◌, refl, String, some, arith}
use telegram_osint.Base.Int.{pos}
use telegram_osint.Jobs.State.{pending, running, failed, Job}
use telegram_osint.Jobs.Repository.{no_change}
use telegram_osint.Jobs.Runner.{Execution, Config, World, begin, process}
use telegram_osint.Jobs.Failing.{Row, transition-Row, Fails, Retried, GaveUp, execute-Fails}

-- every run of this handler raises
abbrev pub AlwaysFails : (Job → Execution) → Type 0
AlwaysFails h = (job : Job) → Fails (h job)

module _ (c : Config) (id : ℕ) {k m : ℕ} {kind : String} {h : Job → Execution} where
  -- One turn of the worker on a pending job whose handler raises: below the limit the job is pending
  -- again, one retry is counted, it is queued once more with the delay `base * 2 ^ retries`, and
  -- nothing is sent; at the limit it is failed, not queued, and the failure notice is sent, unless the job
  -- has no chat to send it to, when nothing is.
  pub process-Fails :
      (now : ℕ) (w : World)
      → Row w.jobs id pending k m kind
      → c.handlers kind ≡ some h
      → AlwaysFails h
      → (k < m → Retried c id k m kind w (process c now id w).1)
        × (m ≤ k → GaveUp id k m kind w (process c now id w).1)
  unfolding process begin
  process-Fails now w r known fails =
      let (jobs, e, r') =
        transition-Row now id pending running (record no_change { progress = some (pos 0) }) w.jobs
          r refl in
      let out = execute-Fails c id (h r'.job) (record w { jobs = jobs }) r' (fails r'.job) in
      rw (r.found, process)
        (rw (r.state, r.same_kind)
          (rw known (
            rw (e, begin)
              (rw r'.found (
                (λ lt.
                    let t = out.0 lt in
                    record { row = t.row; at = t.at; delayed = t.delayed; silent = t.silent }),
                (λ le.
                    let g = out.1 le in
                    record { row = g.row; no_retry = g.no_retry; told = g.told }),
              )))))

-- `n` turns of the worker on one job, at the clock's readings from number `i` on.
unfoldable pub turns : Config → ℕ → (ℕ → ℕ) → ℕ → ℕ → World → World
turns c id clock i zero w = w
turns c id clock i (suc n) w = turns c id clock (suc i) n (process c (clock i) id w).1

module _ (c : Config) (id : ℕ) (clock : ℕ → ℕ) {m : ℕ} {kind : String} {h : Job → Execution} where
  turns-Fails :
      (n i k : ℕ) (w : World)
      → k + n ≡ m
      → Row w.jobs id pending k m kind
      → c.handlers kind ≡ some h
      → AlwaysFails h
      → Row (turns c id clock i n w).jobs id pending m m kind
        × Row (turns c id clock i (suc n) w).jobs id failed m m kind
  unfolding turns
  turns-Fails zero i k w e r known fails =
      let at_end : k ≡ m = omega arith in
      let last = (process-Fails c id (clock i) w r known fails).1 (omega arith) in
      (rw at_end at r, rw at_end at last.row)
  turns-Fails (suc n) i k w e r known fails =
      let again = (process-Fails c id (clock i) w r known fails).0 (omega arith) in
      turns-Fails n (suc i) (k + 1) (process c (clock i) id w).1 (omega arith) again.row known fails

  -- A job whose handler always raises, submitted with `max_retries`, is still pending after that many
  -- turns of the worker, and failed after one more, with all its retries counted.
  pub retries_exhausted :
      (w : World)
      → Row w.jobs id pending 0 m kind
      → c.handlers kind ≡ some h
      → AlwaysFails h
      → Row (turns c id clock 0 m w).jobs id pending m m kind
        × Row (turns c id clock 0 (suc m) w).jobs id failed m m kind
  retries_exhausted w r known fails = turns-Fails m 0 0 w (omega arith) r known fails
