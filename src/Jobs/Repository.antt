-- ===== src/Jobs/Repository.antt =====
-- database/repositories/jobs.py: creation and the guarded transitions. The table is a dictionary from
-- the primary key to the row; a call returns the table it flushes, or raises and flushes nothing.
use telegram_osint.Base.{
  ℕ, ◌+◌, String, Bool, true, false, not, ◌&&◌, Option, none, some, if◌then◌else◌, is_some, Result,
  ok, err,
}
use telegram_osint.Base.Int.{ℤ, clamp100}
use telegram_osint.Base.Dict.{Dict, lookup, insert}
use telegram_osint.Jobs.State.{
  JobState, pending, running, completed, failed, cancelled, is_terminal, same_state, Mapping, Job,
}

-- `_ALLOWED`
abbrev pub allowed : JobState → JobState → Bool
allowed pending running = true
allowed pending cancelled = true
allowed pending failed = true
allowed running completed = true
allowed running failed = true
allowed running cancelled = true
allowed running pending = true
allowed failed pending = true
allowed _ _ = false

-- `LookupError` and `IllegalJobStateTransition`
pub data JobError : Type 0 where
  job_not_found : ℕ → JobError
  illegal_transition : JobState → JobState → JobError

-- the keyword arguments of `transition`
pub record Change : Type 0 where
  pub progress : Option ℤ
  pub error : Option String
  pub result : Option Mapping

abbrev pub no_change : Change
no_change = record { progress = none; error = none; result = none }

-- `JobRepository.create`, with the new primary key and the defaults of the row
unfoldable pub create : ℕ → String → Mapping → Option String → ℕ → Dict Job → Dict Job
create id kind params requested_by max_retries jobs =
    insert id
      (record {
        kind = kind;
        state = pending;
        requested_by = requested_by;
        params = params;
        result = none;
        progress = 0;
        error = none;
        retry_count = 0;
        max_retries = max_retries;
        started_at = none;
        completed_at = none;
      })
      jobs

-- the assignments of `transition`, one after the other

mark_started : ℕ → JobState → Job → Job
mark_started now to job =
    if same_state to running && not (is_some job.started_at)
    then record job { started_at = some now }
    else job

mark_retried : JobState → JobState → Job → Job
mark_retried current to job =
    if same_state to pending && same_state current failed
    then record job { retry_count = job.retry_count + 1; error = none }
    else job

mark_ended : ℕ → JobState → Job → Job
mark_ended now to job = if is_terminal to then record job { completed_at = some now } else job

write_progress : Option ℤ → Job → Job
write_progress none job = job
write_progress (some p) job = record job { progress = clamp100 p }

write_error : Option String → Job → Job
write_error none job = job
write_error (some e) job = record job { error = some e }

write_result : Option Mapping → Job → Job
write_result none job = job
write_result (some r) job = record job { result = some r }

unfoldable pub moved : ℕ → JobState → Change → Job → Job
unfolding mark_started mark_retried mark_ended write_progress write_error write_result
moved now to change job =
    let started = mark_started now to (record job { state = to }) in
    let retried = mark_retried job.state to started in
    let ended = mark_ended now to retried in
    write_result change.result (write_error change.error (write_progress change.progress ended))

-- `JobRepository.transition`
unfoldable pub transition : ℕ → ℕ → JobState → Change → Dict Job → Result JobError (Dict Job)
transition now id to change jobs = elim (lookup id jobs) [
  | none ↦ err (job_not_found id)
  | some job ↦
      if not (same_state to job.state) && not (allowed job.state to)
      then err (illegal_transition job.state to)
      else ok (insert id (moved now to change job) jobs)
]
