-- ===== src/Jobs/Queue.antt =====
-- workers/queue.py, `InMemoryJobQueue`: the ready queue and the delayed retries. The lock makes each
-- method one step. `time.monotonic` is a clock, read once by every call.
use telegram_osint.Base.{
  ℕ, zero, suc, ◌+◌, Bool, not, List, [], ◌∷◌, ◌++◌, map, leb, length, if◌then◌else◌, keep,
}

pub record Queue : Type 0 where
  pub ready : List ℕ
  pub delayed : List (ℕ × ℕ)

abbrev pub empty_queue : Queue
empty_queue = record { ready = []; delayed = [] }

-- `enqueue`
unfoldable pub enqueue : ℕ → ℕ → ℕ → Queue → Queue
enqueue now id delay q =
    if leb 1 delay
    then record q { delayed = q.delayed ++ ((now + delay, id) ∷ []) }
    else record q { ready = q.ready ++ (id ∷ []) }

abbrev pub is_due : ℕ → ℕ × ℕ → Bool
is_due now (t, id) = leb t now

-- `_promote`
unfoldable pub promote : ℕ → Queue → Queue
promote now q = record {
  ready = q.ready ++ map (λ e. e.1) (keep (is_due now) q.delayed);
  delayed = keep (λ e. not (is_due now e)) q.delayed;
}

-- how a `dequeue` stands: the job, a timeout, or another round to come
pub data Polled : Type 0 where
  popped : ℕ → Polled
  timed_out : Polled
  waiting : Polled

-- `if self._ready: return self._ready.popleft()`, and else the test of the deadline
unfoldable pub pop_ready : ℕ → ℕ → Queue → Polled × Queue
pop_ready later deadline q = elim q.ready [
  | [] ↦ (if leb deadline later then timed_out else waiting, q)
  | id ∷ rest ↦ (popped id, record q { ready = rest })
]

-- one round of the loop: promote at `now`, pop, and test the deadline at `later`
unfoldable pub poll : ℕ → ℕ → ℕ → Queue → Polled × Queue
unfolding pop_ready
poll now later deadline q = pop_ready later deadline (promote now q)

-- the `while True` around a round
unfoldable pub keep_polling : (Queue → Polled × Queue) → Polled × Queue → Polled × Queue
keep_polling next (popped id, q) = (popped id, q)
keep_polling next (timed_out, q) = (timed_out, q)
keep_polling next (waiting, q) = next q

-- `dequeue` from the clock's reading number `i`; `waiting` is left only when the fuel is out
unfoldable pub dequeue_loop : (ℕ → ℕ) → ℕ → ℕ → ℕ → Queue → Polled × Queue
dequeue_loop clock deadline zero i q = (waiting, q)
dequeue_loop clock deadline (suc fuel) i q =
    keep_polling (dequeue_loop clock deadline fuel (suc (suc i)))
      (poll (clock i) (clock (suc i)) deadline q)

unfoldable pub dequeue : (ℕ → ℕ) → ℕ → ℕ → Queue → Polled × Queue
unfolding dequeue_loop
dequeue clock timeout fuel q = dequeue_loop clock (clock 0 + timeout) fuel 1 q

-- `size`
abbrev pub size : Queue → ℕ
size q = length q.ready + length q.delayed
