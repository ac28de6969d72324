-- ===== src/Evidence/Writes.antt =====
-- What a flush leaves of the rows of the table.
use telegram_osint.Base.{
  ℕ, ◌≡◌, refl, sym, ◌∙◌, ap, Bool, true, false, not, ◌&&◌, ◌||◌, Option, none, some, List, [], ◌∷◌,
  map, ◌==◌, if◌then◌else◌, or_else, All, ok, err, arith, Bool-cases, Option-cases, ◌⊎◌, inl, inr,
}
use mathlib.Core.Option
use mathlib.Core.Path.{subst}
use telegram_osint.Graph.Refs.{Ref, same_ref, same_ref_eq}
use telegram_osint.Workspace.Rows.{first}
use telegram_osint.Evidence.Observations.{StoredEvidence, same_field}
use telegram_osint.Evidence.Guard.{
  EvidenceImmutable, immutable, same_content, may_write, check_dirty, block_evidence_mutation,
  update_row, update_rows, flush,
}

-- a row, or if `hidden` all of it but the entity
abbrev pub shown : Bool → StoredEvidence → StoredEvidence
shown hidden r = record r { entity = if hidden then (0, 0) else r.entity }

same_field_eq : (a b : Option ℕ) → same_field a b ≡ true → a ≡ b
same_field_eq none none h = refl
same_field_eq none (some b) h = ground arith
same_field_eq (some a) none h = ground arith
same_field_eq (some a) (some b) h = ground arith

both : (a b : Bool) → (a && b) ≡ true → (a ≡ true) × (b ≡ true)
both true true h = (refl, refl)
both true false h = ground arith
both false b h = ground arith

number_eq : (a b : ℕ) → (a == b) ≡ true → a ≡ b
number_eq a b h = ground arith

-- the entity as it is shown
shown_entity :
    (hidden : Bool) (a b : Ref)
    → (hidden || same_ref a b) ≡ true
    → (if hidden then (0, 0) else a) ≡ (if hidden then (0, 0) else b)
shown_entity true a b e = refl
shown_entity false a b e = same_ref_eq a b e

shown_eq :
    (hidden : Bool) (a b : StoredEvidence)
    → same_content a b ≡ true
    → (hidden || same_ref a.entity b.entity) ≡ true
    → shown hidden a ≡ shown hidden b
shown_eq hidden a b h e =
    let (same_id, h₁) = both _ _ h in
    let (same_fields, h₂) = both _ _ h₁ in
    let (same_source, h₃) = both _ _ h₂ in
    let (same_hash, h₄) = both _ _ h₃ in
    let (same_confidence, same_body) = both _ _ h₄ in
    λ i. record {
      id = number_eq a.id b.id same_id i;
      entity = shown_entity hidden a.entity b.entity e i;
      field = same_field_eq a.field b.field same_fields i;
      source = number_eq a.source b.source same_source i;
      content_hash = number_eq a.content_hash b.content_hash same_hash i;
      confidence = number_eq a.confidence b.confidence same_confidence i;
      body = number_eq a.body b.body same_body i;
    }

-- what the guard lets through shows the same, if repointing is hidden
may_write_same :
    (hidden allow : Bool) (old new : StoredEvidence)
    → (not allow || hidden) ≡ true
    → may_write allow (some old) new ≡ true
    → (same_content old new ≡ true) × ((hidden || same_ref old.entity new.entity) ≡ true)
may_write_same hidden allow old new h w = (ground (arith, h, w), ground (arith, h, w))

first-shown :
    (hidden : Bool) (k : ℕ) (rows : List StoredEvidence)
    → first (λ r. r.id == k) (map (shown hidden) rows)
      ≡ Option.map (shown hidden) (first (λ r. r.id == k) rows)
first-shown hidden k [] = refl
first-shown hidden k (r ∷ rows) = ground (arith, first-shown hidden k rows)

-- the stored row of a dirty object shows the same as the object
abbrev Fits : Bool → StoredEvidence → List StoredEvidence → Type 0
Fits hidden new shown_rows = first (λ r. r.id == new.id) shown_rows ≡ some (shown hidden new)

map-update_row :
    (hidden : Bool) (new : StoredEvidence) (rows : List StoredEvidence)
    → Fits hidden new (map (shown hidden) rows)
    → map (shown hidden) (update_row new rows) ≡ map (shown hidden) rows
unfolding update_row
map-update_row hidden new [] h = refl
map-update_row hidden new (r ∷ rows) h = elim (Bool-cases (r.id == new.id)) [
  | inl e ↦
      let here : first (λ r. r.id == new.id) (map (shown hidden) (r ∷ rows))
          ≡ some (shown hidden r) =
        rw e refl in
      let same : shown hidden r ≡ shown hidden new =
        ap (λ o. or_else o (shown hidden new)) (sym here ∙ h) in
      rw e (ap (λ x. x ∷ map (shown hidden) rows) (sym same))
  | inr e ↦
      let later : first (λ r. r.id == new.id) (map (shown hidden) (r ∷ rows))
          ≡ first (λ r. r.id == new.id) (map (shown hidden) rows) =
        rw e refl in
      rw e (ap (◌∷◌ (shown hidden r)) (map-update_row hidden new rows (sym later ∙ h)))
]

map-update_rows :
    (hidden : Bool) (dirty rows : List StoredEvidence)
    → All (λ d. Fits hidden d (map (shown hidden) rows)) dirty
    → map (shown hidden) (update_rows dirty rows) ≡ map (shown hidden) rows
unfolding update_rows
map-update_rows hidden [] rows h = refl
map-update_rows hidden (new ∷ dirty) rows h =
    let same = map-update_row hidden new rows h.0 in
    map-update_rows hidden dirty (update_row new rows)
      (subst (λ xs. All (λ d. Fits hidden d xs) dirty) (sym same) h.1)
    ∙ same

may_write-Fits :
    (hidden allow : Bool) (new : StoredEvidence) (rows : List StoredEvidence)
    → (not allow || hidden) ≡ true
    → may_write allow (first (λ r. r.id == new.id) rows) new ≡ true
    → Fits hidden new (map (shown hidden) rows)
may_write-Fits hidden allow new rows h w = elim (Option-cases (first (λ r. r.id == new.id) rows)) [
  | inl e ↦
      let bad : may_write allow none new ≡ true = subst (λ o. may_write allow o new ≡ true) e w in
      ground (arith, bad)
  | inr (old, e) ↦
      let lets : may_write allow (some old) new ≡ true =
        subst (λ o. may_write allow o new ≡ true) e w in
      let parts = may_write_same hidden allow old new h lets in
      first-shown hidden new.id rows ∙ rw e (ap some (shown_eq hidden old new parts.0 parts.1))
]

-- either every dirty object may be written, or the guard raises
check_dirty-cases :
    (hidden allow : Bool) (dirty rows : List StoredEvidence)
    → (not allow || hidden) ≡ true
    → ((check_dirty allow dirty rows ≡ ok rows)
        × All (λ d. Fits hidden d (map (shown hidden) rows)) dirty)
      ⊎ ((e : EvidenceImmutable) × (check_dirty allow dirty rows ≡ err e))
unfolding check_dirty
check_dirty-cases hidden allow [] rows h = inl (refl, tt)
check_dirty-cases hidden allow (new ∷ dirty) rows h =
    elim (Bool-cases (may_write allow (first (λ r. r.id == new.id) rows) new)) [
      | inr e ↦ inr (immutable new.id, rw (e, check_dirty) refl)
      | inl e ↦ elim (check_dirty-cases hidden allow dirty rows h) [
        | inl (c, fits) ↦
            inl (rw (e, check_dirty) c, (may_write-Fits hidden allow new rows h e, fits))
        | inr (x, c) ↦ inr (x, rw (e, check_dirty) c)
      ]
    ]

-- the table after a flush
abbrev pub flushed_rows :
    Bool → List StoredEvidence → List ℕ → List StoredEvidence → List StoredEvidence
flushed_rows allow dirty deleted rows = elim (flush allow dirty deleted rows) [
  | err e ↦ rows
  | ok out ↦ out
]

flush-cases :
    (hidden allow : Bool) (dirty : List StoredEvidence) (deleted : List ℕ)
    (rows : List StoredEvidence)
    → (not allow || hidden) ≡ true
    → (flushed_rows allow dirty deleted rows ≡ rows)
      ⊎ ((flushed_rows allow dirty deleted rows ≡ update_rows dirty rows)
          × All (λ d. Fits hidden d (map (shown hidden) rows)) dirty)
unfolding flush block_evidence_mutation
flush-cases hidden allow dirty [] rows h = elim (check_dirty-cases hidden allow dirty rows h) [
  | inl (c, fits) ↦ inr (rw (c, flushed_rows, flush, block_evidence_mutation) refl, fits)
  | inr (x, c) ↦ inl (rw (c, flushed_rows, flush, block_evidence_mutation) refl)
]
flush-cases hidden allow dirty (id ∷ deleted) rows h =
    elim (check_dirty-cases hidden allow dirty rows h) [
      | inl (c, fits) ↦ inl (rw (c, flushed_rows, flush, block_evidence_mutation) refl)
      | inr (x, c) ↦ inl (rw (c, flushed_rows, flush, block_evidence_mutation) refl)
    ]

pub map-flush :
    (hidden allow : Bool) (dirty : List StoredEvidence) (deleted : List ℕ)
    (rows : List StoredEvidence)
    → (not allow || hidden) ≡ true
    → map (shown hidden) (flushed_rows allow dirty deleted rows) ≡ map (shown hidden) rows
map-flush hidden allow dirty deleted rows h = elim (flush-cases hidden allow dirty deleted rows h) [
  | inl same ↦ ap (map (shown hidden)) same
  | inr (same, fits) ↦ ap (map (shown hidden)) same ∙ map-update_rows hidden dirty rows fits
]
