-- ===== src/Jobs/State.antt =====
-- database/models/job.py: the states of a job and its row. Identifiers are opaque, so numbers stand
-- for them, and a time is a number of ticks. The JSON columns are kept as the mappings they encode.
use telegram_osint.Base.{ℕ, String, Bool, true, false, Option, List}
use telegram_osint.Base.Int.{ℤ}

-- `JobState`
pub data JobState : Type 0 where
  pending running completed failed cancelled : JobState

-- `JobState.is_terminal`
abbrev pub is_terminal : JobState → Bool
is_terminal completed = true
is_terminal failed = true
is_terminal cancelled = true
is_terminal _ = false

-- `==` and `is` on states
abbrev pub same_state : JobState → JobState → Bool
same_state pending pending = true
same_state running running = true
same_state completed completed = true
same_state failed failed = true
same_state cancelled cancelled = true
same_state _ _ = false

-- A value of a parameter or of a result summary.
pub data Scalar : Type 0 where
  int : ℤ → Scalar
  text : String → Scalar

abbrev pub Mapping : Type 0
Mapping = List (String × Scalar)

-- `Job`
pub record Job : Type 0 where
  pub kind : String
  pub state : JobState
  pub requested_by : Option String
  pub params : Mapping
  pub result : Option Mapping
  pub progress : ℕ
  pub error : Option String
  pub retry_count : ℕ
  pub max_retries : ℕ
  pub started_at : Option ℕ
  pub completed_at : Option ℕ
