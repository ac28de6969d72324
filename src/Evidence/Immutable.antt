-- ===== src/Evidence/Immutable.antt =====
-- Rows of the table stay as they were written.
use telegram_osint.Base.{
  ℕ, ◌≡◌, refl, sym, ◌∙◌, ap, Bool, true, false, not, ◌||◌, List, [], ◌∷◌, ◌++◌, map, any, ok, err,
  arith, Bool-cases, Option-cases, inl, inr,
}
use mathlib.Core.List.{append-nil, append_assoc, map-append}
use telegram_osint.Workspace.Rows.{first}
use telegram_osint.Evidence.Observations.{
  StoredEvidence, Hashing, Observed, new_row, insert_or_find, record_evidence, same_observation,
  conflicts,
}
use telegram_osint.Evidence.Guard.{flush}
use telegram_osint.Evidence.Writes.{shown, map-flush}

-- one write of a session: an observation that is recorded, with the rows of other sessions, or a flush
pub data Step : Type 0 where
  recorded : ℕ → Observed → List StoredEvidence → Step
  flushed : Bool → List StoredEvidence → List ℕ → Step

-- what a step that may raise leaves
unfoldable pub step : Hashing → Step → List StoredEvidence → List StoredEvidence
step h (recorded id o raced) rows = elim (record_evidence h id o raced rows) [
  | err e ↦ rows
  | ok out ↦ out.1
]
step h (flushed allow dirty deleted) rows = elim (flush allow dirty deleted rows) [
  | err e ↦ rows
  | ok out ↦ out
]

unfoldable pub run_steps : Hashing → List Step → List StoredEvidence → List StoredEvidence
run_steps h [] rows = rows
run_steps h (s ∷ steps) rows = run_steps h steps (step h s rows)

-- a flush in `allow_evidence_repointing`
abbrev pub repoints : Step → Bool
repoints (recorded id o raced) = false
repoints (flushed allow dirty deleted) = allow

-- the table after an observation is recorded
abbrev recorded_rows :
    Hashing → ℕ → Observed → List StoredEvidence → List StoredEvidence → List StoredEvidence
recorded_rows h id o raced rows = elim (record_evidence h id o raced rows) [
  | err e ↦ rows
  | ok out ↦ out.1
]

record-appends :
    (h : Hashing) (id : ℕ) (o : Observed) (raced rows : List StoredEvidence)
    → (more : List StoredEvidence) × (recorded_rows h id o raced rows ≡ rows ++ more)
unfolding record_evidence insert_or_find
record-appends h id o raced rows =
    elim (Option-cases (first (same_observation (new_row h id o)) rows)) [
      | inr (row, e) ↦ (raced, rw (e, recorded_rows, record_evidence) refl)
      | inl e ↦ elim (Bool-cases (any (conflicts (new_row h id o)) (rows ++ raced))) [
        | inr c ↦ (
          raced ++ (new_row h id o ∷ []),
          rw (e, c, recorded_rows, record_evidence, insert_or_find)
              (append_assoc rows raced (new_row h id o ∷ [])),
        )
        | inl c ↦ elim (Option-cases (first (same_observation (new_row h id o)) (rows ++ raced))) [
          | inr (row, f) ↦
              (raced, rw (e, c, f, recorded_rows, record_evidence, insert_or_find) refl)
          | inl f ↦ (
            [],
            rw (e, c, f, recorded_rows, record_evidence, insert_or_find) (sym (append-nil rows)),
          )
        ]
      ]
    ]

-- Every row shows the same at its place, and others may follow.
unfoldable pub Extends : Bool → List StoredEvidence → List StoredEvidence → Type 0
Extends hidden rows out =
    (more : List StoredEvidence) × (map (shown hidden) out ≡ map (shown hidden) rows ++ more)

step-Extends :
    (hidden : Bool) (h : Hashing) (s : Step) (rows : List StoredEvidence)
    → (not (repoints s) || hidden) ≡ true
    → Extends hidden rows (step h s rows)
unfolding step Extends
step-Extends hidden h (recorded id o raced) rows e =
    let (more, same) = record-appends h id o raced rows in
    (map (shown hidden) more, ap (map (shown hidden)) same ∙ map-append (shown hidden) rows more)
step-Extends hidden h (flushed allow dirty deleted) rows e =
    ([], map-flush hidden allow dirty deleted rows e ∙ sym (append-nil _))

run_steps-shown :
    (hidden : Bool) (h : Hashing) (steps : List Step) (rows : List StoredEvidence)
    → (not (any repoints steps) || hidden) ≡ true
    → Extends hidden rows (run_steps h steps rows)
unfolding run_steps Extends
run_steps-shown hidden h [] rows e = ([], sym (append-nil _))
run_steps-shown hidden h (s ∷ steps) rows e =
    let (more, one) = step-Extends hidden h s rows (ground (arith, e)) in
    let (rest, all) = run_steps-shown hidden h steps (step h s rows) (ground (arith, e)) in
    (more ++ rest, all ∙ ap (λ xs. xs ++ rest) one ∙ append_assoc _ more rest)

either : (b : Bool) → (not b || b) ≡ true
either true = refl
either false = refl

-- Whatever is recorded and flushed, each row of the table keeps its place and all its columns but those of
-- the entity, and the rest of the table is added after it. If no flush runs while repointing is allowed, the
-- entity is kept too.
pub run_steps-Extends :
    (h : Hashing) (steps : List Step) (rows : List StoredEvidence)
    → Extends (any repoints steps) rows (run_steps h steps rows)
run_steps-Extends h steps rows =
    run_steps-shown (any repoints steps) h steps rows (either (any repoints steps))
