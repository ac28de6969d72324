-- ===== src/Jobs/Delivery.antt =====
-- The queue loses no job and invents none, and `dequeue` comes back.
use mathlib.Core.Bool.{not}
use telegram_osint.Base.{
  ℕ, zero, suc, ◌+◌, ◌≤◌, ◌<◌, ◌≡◌, refl, ◌∙◌, ◌≢◌, List, [], ◌∷◌, ◌++◌, map, arith, ◌==◌, leb,
  if◌then◌else◌, keep, Bool-cases, inl, inr,
}
use telegram_osint.Jobs.Queue.{
  Queue, enqueue, is_due, promote, Polled, popped, timed_out, waiting, pop_ready, poll,
  keep_polling, dequeue_loop, dequeue,
}

-- how often a job stands in a list
abbrev pub count : ℕ → List ℕ → ℕ
count j [] = 0
count j (x ∷ xs) = (if x == j then 1 else 0) + count j xs

pub ids : List (ℕ × ℕ) → List ℕ
ids = map (λ e. e.1)

-- how often a job is queued, ready or delayed
pub queued : ℕ → Queue → ℕ
unfolding ids
queued j q = count j q.ready + count j (ids q.delayed)

-- 1 for the job that a call of `dequeue` hands out
abbrev pub handed : ℕ → Polled → ℕ
handed j (popped id) = if id == j then 1 else 0
handed j timed_out = 0
handed j waiting = 0

count-append : (j : ℕ) (xs ys : List ℕ) → count j (xs ++ ys) ≡ count j xs + count j ys
count-append j [] ys = omega arith
count-append j (x ∷ xs) ys = omega (arith, count-append j xs ys)

count-split :
    (j now : ℕ) (l : List (ℕ × ℕ))
    → count j (ids (keep (is_due now) l)) + count j (ids (keep (λ e. not (is_due now e)) l))
      ≡ count j (ids l)
unfolding ids
count-split j now [] = omega arith
count-split j now ((t, id) ∷ l) = elim (Bool-cases (leb t now)) [
  | inl due ↦ rw due (omega (arith, count-split j now l))
  | inr later ↦ rw later (omega (arith, count-split j now l))
]

queued-promote : (j now : ℕ) (q : Queue) → queued j (promote now q) ≡ queued j q
unfolding queued promote
queued-promote j now q =
    omega (
      arith,
      count-split j now q.delayed,
      count-append j q.ready (ids (keep (is_due now) q.delayed)),
    )

count-ids-append :
    (j : ℕ) (l : List (ℕ × ℕ)) (t id : ℕ)
    → count j (ids (l ++ ((t, id) ∷ []))) ≡ count j (ids l) + (if id == j then 1 else 0)
unfolding ids
count-ids-append j [] t id = omega arith
count-ids-append j (e ∷ l) t id = omega (arith, count-ids-append j l t id)

-- `enqueue` queues the job once more, and no other.
pub queued-enqueue :
    (j now id delay : ℕ) (q : Queue)
    → queued j (enqueue now id delay q) ≡ queued j q + (if id == j then 1 else 0)
unfolding queued enqueue
queued-enqueue j now id delay q = elim (Bool-cases (leb 1 delay)) [
  | inl later ↦ rw later (omega (arith, count-ids-append j q.delayed (now + delay) id))
  | inr at_once ↦ rw at_once (omega (arith, count-append j q.ready (id ∷ [])))
]

queued-pop_ready :
    (j later deadline : ℕ) (q : Queue)
    → queued j q ≡ queued j (pop_ready later deadline q).1 + handed j (pop_ready later deadline q).0
unfolding queued pop_ready
queued-pop_ready j later deadline q = by_ready q.ready q.delayed
  where
    by_ready :
        (ready : List ℕ) (delayed : List (ℕ × ℕ))
        → count j ready + count j (ids delayed)
          ≡ queued j (pop_ready later deadline (record { ready = ready; delayed = delayed })).1
            + handed j (pop_ready later deadline (record { ready = ready; delayed = delayed })).0
    by_ready [] delayed = elim (Bool-cases (leb deadline later)) [
      | inl late ↦ rw late (omega arith)
      | inr early ↦ rw early (omega arith)
    ]
    by_ready (id ∷ rest) delayed = omega arith

queued-poll :
    (j now later deadline : ℕ) (q : Queue)
    → queued j q ≡ queued j (poll now later deadline q).1 + handed j (poll now later deadline q).0
queued-poll j now later deadline q =
    let moved = queued-promote j now q in
    let popped' = queued-pop_ready j later deadline (promote now q) in unfold poll in omega arith

abbrev Conserves : (Queue → Polled × Queue) → Type 0
Conserves f = (j : ℕ) (q : Queue) → queued j q ≡ queued j (f q).1 + handed j (f q).0

queued-keep_polling :
    (next : Queue → Polled × Queue) (r : Polled × Queue) (j : ℕ)
    → Conserves next
    → queued j r.1 + handed j r.0
      ≡ queued j (keep_polling next r).1 + handed j (keep_polling next r).0
unfolding keep_polling
queued-keep_polling next (popped id, q) j h = refl
queued-keep_polling next (timed_out, q) j h = refl
queued-keep_polling next (waiting, q) j h = omega (arith, h j q)

-- a deadline that is due by the clock's reading `i`, or `fuel` rounds later
stops-keep_polling :
    (next : Queue → Polled × Queue) (r : Polled × Queue)
    → (r.0 ≡ waiting → (q : Queue) → (next q).0 ≢ waiting)
    → (keep_polling next r).0 ≢ waiting
unfolding keep_polling
stops-keep_polling next (popped id, q) h = λ e. cc
stops-keep_polling next (timed_out, q) h = λ e. cc
stops-keep_polling next (waiting, q) h = h refl q

poll_waiting :
    (now later deadline : ℕ) (q : Queue)
    → (poll now later deadline q).0 ≡ waiting
    → later < deadline
unfolding poll
poll_waiting now later deadline q h = ground arith

module _ (clock : ℕ → ℕ) (deadline : ℕ) where
  queued-loop : (fuel i : ℕ) → Conserves (dequeue_loop clock deadline fuel i)
  unfolding dequeue_loop
  queued-loop zero i j q = omega arith
  queued-loop (suc fuel) i j q =
      queued-poll j (clock i) (clock (suc i)) deadline q
      ∙ queued-keep_polling (dequeue_loop clock deadline fuel (suc (suc i)))
          (poll (clock i) (clock (suc i)) deadline q) j (queued-loop fuel (suc (suc i)))

  loop_stops :
      ((i : ℕ) → clock i < clock (suc (suc i)))
      → (fuel i : ℕ) → deadline ≤ clock (suc i) + fuel
      → (q : Queue) → (dequeue_loop clock deadline (suc fuel) i q).0 ≢ waiting
  unfolding dequeue_loop
  loop_stops ticks zero i h q =
      stops-keep_polling _ (poll (clock i) (clock (suc i)) deadline q)
        (λ w. absurd (omega (arith, poll_waiting _ _ _ _ w)))
  loop_stops ticks (suc fuel) i h q =
      stops-keep_polling _ (poll (clock i) (clock (suc i)) deadline q)
        (λ w. loop_stops ticks fuel (suc (suc i)) (omega (arith, ticks (suc i))))

-- A call of `dequeue` takes the job that it returns out of the queue once, and keeps every other
-- job, ready or delayed, as often as it was queued.
pub queued-dequeue :
    (clock : ℕ → ℕ) (timeout fuel : ℕ) (j : ℕ) (q : Queue)
    → queued j q
      ≡ queued j (dequeue clock timeout fuel q).1 + handed j (dequeue clock timeout fuel q).0
unfolding dequeue
queued-dequeue clock timeout fuel j q = queued-loop clock (clock 0 + timeout) fuel 1 j q

-- If the clock moves on between two rounds, since each sleeps, `dequeue` returns a job or times out
-- within as many rounds as the timeout has ticks, and one more.
pub dequeue_returns :
    (clock : ℕ → ℕ) (timeout : ℕ) (q : Queue)
    → ((i : ℕ) → clock i < clock (suc (suc i)))
    → (dequeue clock timeout (suc timeout) q).0 ≢ waiting
unfolding dequeue
dequeue_returns clock timeout q ticks =
    loop_stops clock (clock 0 + timeout) ticks timeout 1 (omega (arith, ticks 0)) q
