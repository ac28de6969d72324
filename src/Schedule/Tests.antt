-- ===== src/Schedule/Tests.antt =====
-- Tests and witnesses of the scheduler.
use telegram_osint.Base.{ℕ, ◌+◌, ◌≡◌, refl, true, false, none, some, [], ◌∷◌, arith}
use telegram_osint.Jobs.Queue.{Queue, enqueue}
use telegram_osint.Jobs.Repository.{create}
use telegram_osint.Monitor.Poll.{due_watchlist_ids, mark_scheduled}
use telegram_osint.Schedule.Ticks.{TickTables, schedule_due_watches, schedule_loop, enqueue_all}
use telegram_osint.Schedule.Once.{Ticked, schedule_due_watches-Ticked}

-- never checked, checked lately, checked long ago, and one that is not active
abbrev four_entries : TickTables
four_entries = record {
  entries =
      record { id = 1; is_active = true; last_checked_at = none; last_seen_marker = none }
      ∷ record { id = 2; is_active = true; last_checked_at = some 990; last_seen_marker = none }
      ∷ record { id = 3; is_active = true; last_checked_at = some 100; last_seen_marker = none }
      ∷ record { id = 4; is_active = false; last_checked_at = none; last_seen_marker = none }
      ∷ [];
  jobs = [];
}

abbrev one_waiting : Queue
one_waiting = record { ready = 5 ∷ []; delayed = [] }

-- the jobs are made at 1001, 1002 and so on
abbrev ticking : ℕ → ℕ
ticking k = 1000 + k

two_jobs :
    (schedule_due_watches ticking 1000 300 10 four_entries one_waiting).1.1.ready ≡ 5 ∷ 10 ∷ 11 ∷ []
unfolding schedule_due_watches schedule_loop enqueue_all enqueue due_watchlist_ids mark_scheduled
    create
two_jobs = refl

schedule_due_watches-Ticked_example :
    Ticked 1000 300 1300 10 four_entries one_waiting
      (schedule_due_watches ticking 1000 300 10 four_entries one_waiting).0
      (schedule_due_watches ticking 1000 300 10 four_entries one_waiting).1.0
      (schedule_due_watches ticking 1000 300 10 four_entries one_waiting).1.1
schedule_due_watches-Ticked_example =
    schedule_due_watches-Ticked ticking 1000 300 1300 10 four_entries one_waiting (λ k. omega arith)
