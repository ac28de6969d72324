-- ===== src/Evidence/Tests.antt =====
-- Tests and witnesses of the evidence.
use telegram_osint.Base.{◌+◌, ◌≡◌, refl, true, false, none, some, List, [], ◌∷◌, err, any}
use telegram_osint.Base.Int.{pos}
use telegram_osint.Evidence.Observations.{
  StoredEvidence, Hashing, Observed, new_row, record_evidence, same_observation,
}
use telegram_osint.Evidence.Guard.{flush, block_evidence_mutation, check_dirty, immutable}
use telegram_osint.Evidence.Recorded.{RecordedBy, record_evidence-Recorded}
use telegram_osint.Evidence.Immutable.{
  Step, recorded, flushed, run_steps, Extends, repoints, run_steps-Extends,
}

abbrev hashing : Hashing
hashing = record { content_hash = λ t. t + 100; dumps = λ v. 5 }

abbrev bio : Observed
bio = record {
  entity = (1, 2);
  source = 3;
  field = some 4;
  value = some 6;
  raw_content = none;
  content_hash = none;
  confidence = pos 250;
  body = 7;
}

abbrev stored : StoredEvidence
stored = record {
  id = 1;
  entity = (1, 2);
  field = some 4;
  source = 3;
  content_hash = 99;
  confidence = 60;
  body = 8;
}

-- the same observation, from another session
abbrev rival : StoredEvidence
rival = record stored { id = 2; content_hash = 105 }

record_evidence-Recorded_example :
    RecordedBy
      (new_row hashing 9 bio)
      (stored ∷ rival ∷ [])
      (record_evidence hashing 9 bio (rival ∷ []) (stored ∷ []))
unfolding same_observation
record_evidence-Recorded_example =
    record_evidence-Recorded hashing 9 bio (rival ∷ []) (stored ∷ []) refl refl

changed_confidence :
    flush true (record stored { confidence = 61 } ∷ []) [] (stored ∷ []) ≡ err (immutable 1)
unfolding flush block_evidence_mutation check_dirty
changed_confidence = refl

deleted_row : flush true [] (1 ∷ []) (stored ∷ []) ≡ err (immutable 1)
unfolding flush block_evidence_mutation check_dirty
deleted_row = refl

-- an observation, a forbidden change and a merge
abbrev busy_session : List Step
busy_session =
    recorded 9 bio []
    ∷ flushed false (record stored { confidence = 61 } ∷ []) []
    ∷ flushed true (record stored { entity = (1, 3) } ∷ []) []
    ∷ []

run_steps-Extends_example :
    Extends (any repoints busy_session) (stored ∷ []) (run_steps hashing busy_session (stored ∷ []))
run_steps-Extends_example = run_steps-Extends hashing busy_session (stored ∷ [])
