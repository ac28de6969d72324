-- ===== src/Jobs/Valid.antt =====
-- The columns of a row agree with each other, whatever is submitted and requested.
use telegram_osint.Base.{
  String, ℕ, ◌≤◌, ◌≡◌, ◌≢◌, inl, inr, true, Option, none, some, List, [], ◌∷◌, arith, ◌==◌,
  Option-cases, Bool-cases,
}
use telegram_osint.Base.Int.{clamp100-le}
use telegram_osint.Base.Dict.{Dict, lookup, insert, lookup-insert}
use telegram_osint.Jobs.State.{JobState, running, is_terminal, Job, Mapping}
use telegram_osint.Jobs.Repository.{create, Change, moved}
use telegram_osint.Jobs.Machine.{
  is_legal, transition_missing, transition_refused, transition_written, Request, apply_request,
}

-- The columns of one row agree.
pub record IsValid (job : Job) : Type 0 where
  pub in_range : job.progress ≤ 100
  pub ended : is_terminal job.state ≡ true → job.completed_at ≢ none
  pub begun : job.state ≡ running → job.started_at ≢ none

pub moved-IsValid :
    (now : ℕ) (to : JobState) (ch : Change) (job : Job)
    → IsValid job
    → IsValid (moved now to ch job)
unfolding moved
moved-IsValid now to ch job v = record {
  in_range = grind (arith, clamp100-le);
  ended = ground arith;
  begun = ground arith;
}

-- A use of the repository: a submission or a transition.
pub data Call : Type 0 where
  submits : (id : ℕ) → String → Mapping → Option String → ℕ → Call
  requests : Request → Call

unfoldable pub apply_call : Call → Dict Job → Dict Job
unfolding create
apply_call (submits id kind params requester max_retries) jobs =
    create id kind params requester max_retries jobs
apply_call (requests r) jobs = apply_request r jobs

unfoldable pub apply_calls : List Call → Dict Job → Dict Job
apply_calls [] jobs = jobs
apply_calls (c ∷ cs) jobs = apply_calls cs (apply_call c jobs)

abbrev pub AllValid : Dict Job → Type 0
AllValid jobs = (id : ℕ) (job : Job) → lookup id jobs ≡ some job → IsValid job

insert-AllValid :
    (id : ℕ) (job : Job) (jobs : Dict Job)
    → IsValid job
    → AllValid jobs
    → AllValid (insert id job jobs)
insert-AllValid id job jobs v all j found h = elim (Bool-cases (id == j)) [
  | inl same ↦ let e : job ≡ found = ground (arith, lookup-insert id j job jobs) in rw (← e) v
  | inr other ↦ all j found (ground (arith, lookup-insert id j job jobs))
]

pub request-AllValid :
    (r : Request) (jobs : Dict Job) → AllValid jobs → AllValid (apply_request r jobs)
unfolding apply_request
request-AllValid r jobs all = elim (Option-cases (lookup r.id jobs)) [
  | inl gone ↦ rw (transition_missing r.now r.id r.to r.change jobs gone, apply_request) all
  | inr (job, found) ↦ elim (Bool-cases (is_legal job.state r.to)) [
    | inr no_edge ↦
        rw (transition_refused r.now r.id r.to r.change jobs found no_edge, apply_request) all
    | inl legal ↦
        rw (transition_written r.now r.id r.to r.change jobs found legal, apply_request)
          (insert-AllValid r.id (moved r.now r.to r.change job) jobs
            (moved-IsValid r.now r.to r.change job (all r.id job found)) all)
  ]
]

call-AllValid : (c : Call) (jobs : Dict Job) → AllValid jobs → AllValid (apply_call c jobs)
unfolding apply_call
call-AllValid (submits id kind params requester max_retries) jobs all =
    insert-AllValid id _ jobs (record { in_range = omega arith; ended = λ e. cc; begun = λ e. cc })
      all
call-AllValid (requests r) jobs all = request-AllValid r jobs all

calls-AllValid : (cs : List Call) (jobs : Dict Job) → AllValid jobs → AllValid (apply_calls cs jobs)
unfolding apply_calls
calls-AllValid [] jobs all = all
calls-AllValid (c ∷ cs) jobs all = calls-AllValid cs (apply_call c jobs) (call-AllValid c jobs all)

-- After any submissions and transitions on an empty table, successful or not, every row has a
-- progress of at most 100, a completion time if its state is terminal, and a start time if it runs.
pub apply_calls-IsValid :
    (cs : List Call) (id : ℕ) (job : Job) → lookup id (apply_calls cs []) ≡ some job → IsValid job
unfolding lookup
apply_calls-IsValid cs = calls-AllValid cs [] (λ id job h. cc)
