-- ===== src/Evidence/Recorded.antt =====
-- What `record` leaves, with and without other sessions at work.
use telegram_osint.Base.{
  ℕ, ◌≡◌, refl, sym, ◌∙◌, Bool, true, false, not, ◌||◌, Option, none, some, List, [], ◌∷◌, ◌++◌,
  any, no_twins, ◌==◌, if◌then◌else◌, is_some, Result, ok, err, arith, Option-cases, inl, inr,
}
use mathlib.Core.List.{append-nil}
use telegram_osint.Graph.Refs.{same_ref_sym, same_ref_refl}
use telegram_osint.Workspace.Rows.{first}
use telegram_osint.Evidence.Observations.{
  StoredEvidence, EvidenceError, Hashing, Observed, same_field, same_observation, conflicts,
  new_row, insert_or_find, record_evidence,
}

same_field_sym : (a b : Option ℕ) → same_field a b ≡ same_field b a
same_field_sym none none = refl
same_field_sym none (some b) = refl
same_field_sym (some a) none = refl
same_field_sym (some a) (some b) = ground arith

same_number_sym : (a b : ℕ) → (a == b) ≡ (b == a)
same_number_sym a b = ground arith

same_observation_sym : (a b : StoredEvidence) → same_observation a b ≡ same_observation b a
unfolding same_observation
same_observation_sym a b =
    rw
      (
        same_ref_sym a.entity b.entity,
        same_field_sym a.field b.field,
        same_number_sym a.source b.source,
        same_number_sym a.content_hash b.content_hash,
      )
      refl

module _ {A : Type 0} (p : A → Bool) where
  first-none : (rows : List A) → first p rows ≡ none → any p rows ≡ false
  first-none [] h = refl
  first-none (r ∷ rows) h = ground (arith, h, first-none rows)

  first-any : (rows : List A) → any p rows ≡ is_some (first p rows)
  first-any [] = refl
  first-any (r ∷ rows) = ground (arith, first-any rows)

  first-append :
      (rows more : List A) (a : A) → first p rows ≡ some a → first p (rows ++ more) ≡ some a
  first-append [] more a h = ground (arith, h)
  first-append (r ∷ rows) more a h = ground (arith, h, first-append rows more a)

  first-last :
      (rows : List A) (a : A)
      → any p rows ≡ false
      → p a ≡ true
      → first p (rows ++ (a ∷ [])) ≡ some a
  first-last [] a h e = rw e refl
  first-last (r ∷ rows) a h e = ground (arith, first-last rows a)

any-append_row :
    (r new : StoredEvidence) (rows : List StoredEvidence)
    → any (same_observation r) (rows ++ (new ∷ []))
      ≡ (any (same_observation r) rows || same_observation r new)
any-append_row r new [] = ground arith
any-append_row r new (s ∷ rows) = ground (arith, any-append_row r new rows)

no_twins-append_row :
    (new : StoredEvidence) (rows : List StoredEvidence)
    → no_twins same_observation rows ≡ true
    → any (same_observation new) rows ≡ false
    → no_twins same_observation (rows ++ (new ∷ [])) ≡ true
no_twins-append_row new [] d h = refl
no_twins-append_row new (r ∷ rows) d h = ground (
  arith,
  d,
  h,
  any-append_row r new rows,
  no_twins-append_row new rows,
  same_observation_sym r new,
)

any-conflicts :
    (new : StoredEvidence) (rows : List StoredEvidence)
    → is_some new.field ≡ true
    → any (conflicts new) rows ≡ any (same_observation new) rows
unfolding conflicts
any-conflicts new [] h = refl
any-conflicts new (r ∷ rows) h = rw (h, any-conflicts new rows h) refl

same_field_refl : (a : Option ℕ) → same_field a a ≡ true
same_field_refl none = refl
same_field_refl (some a) = ground arith

same_observation_refl : (a : StoredEvidence) → same_observation a a ≡ true
unfolding same_observation
same_observation_refl a = rw (same_ref_refl a.entity, same_field_refl a.field) (ground arith)

-- What is left of the table, which holds the rows of all sessions, when `new` is to be recorded.
pub record Recorded (new : StoredEvidence) (table : List StoredEvidence) (row : StoredEvidence)
    (created : Bool) (out : List StoredEvidence) : Type 0 where
  -- a row is added if it is new, and nothing else changes
  pub appended : out ≡ table ++ (if created then new ∷ [] else [])
  pub fresh : created ≡ not (any (same_observation new) table)
  -- the row that is returned is the one of this observation
  pub returned : first (same_observation new) out ≡ some row
  pub distinct : no_twins same_observation out ≡ true

abbrev pub RecordedBy :
    StoredEvidence
    → List StoredEvidence
    → Result EvidenceError ((StoredEvidence × Bool) × List StoredEvidence)
    → Type 0
RecordedBy new table (ok ((row, created), out)) = Recorded new table row created out
RecordedBy new table (err e) = ⊥

found-Recorded :
    (new : StoredEvidence) (table : List StoredEvidence) (row : StoredEvidence)
    → no_twins same_observation table ≡ true
    → first (same_observation new) table ≡ some row
    → Recorded new table row false table
found-Recorded new table row d e = record {
  appended = sym (append-nil table);
  fresh = rw (first-any (same_observation new) table, e) refl;
  returned = e;
  distinct = d;
}

created-Recorded :
    (new : StoredEvidence) (table : List StoredEvidence)
    → no_twins same_observation table ≡ true
    → any (same_observation new) table ≡ false
    → Recorded new table new true (table ++ (new ∷ []))
created-Recorded new table d e = record {
  appended = refl;
  fresh = rw e refl;
  returned = first-last (same_observation new) table new e (same_observation_refl new);
  distinct = no_twins-append_row new table d e;
}

insert_or_find-Recorded :
    (new : StoredEvidence) (table : List StoredEvidence)
    → is_some new.field ≡ true
    → no_twins same_observation table ≡ true
    → RecordedBy new table (insert_or_find new table)
unfolding insert_or_find
insert_or_find-Recorded new table given d =
    elim (Option-cases (first (same_observation new) table)) [
      | inl e ↦
          let none_there = first-none (same_observation new) table e in
          rw (any-conflicts new table given, none_there, insert_or_find)
            (created-Recorded new table d none_there)
      | inr (row, e) ↦
          let there : any (same_observation new) table ≡ true =
            first-any (same_observation new) table ∙ rw e refl in
          rw (any-conflicts new table given, there, e, insert_or_find)
            (found-Recorded new table row d e)
    ]

-- `record` of an observation of a field, while other sessions add rows between its query and its insert, such
-- that no two rows of the table are the same observation: it does not raise, the table grows by one row if
-- the observation is in no row and else not at all, the row returned is the one row of this observation, and
-- still no two rows are the same observation.
pub record_evidence-Recorded :
    (h : Hashing) (id : ℕ) (o : Observed) (raced rows : List StoredEvidence)
    → is_some o.field ≡ true
    → no_twins same_observation (rows ++ raced) ≡ true
    → RecordedBy (new_row h id o) (rows ++ raced) (record_evidence h id o raced rows)
unfolding record_evidence new_row
record_evidence-Recorded h id o raced rows given d =
    elim (Option-cases (first (same_observation (new_row h id o)) rows)) [
      | inl e ↦
          rw (e, record_evidence) (insert_or_find-Recorded (new_row h id o) (rows ++ raced) given d)
      | inr (row, e) ↦
          rw (e, record_evidence)
            (found-Recorded (new_row h id o) (rows ++ raced) row d
              (first-append (same_observation (new_row h id o)) rows raced row e))
    ]
