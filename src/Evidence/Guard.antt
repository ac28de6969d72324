-- ===== src/Evidence/Guard.antt =====
-- `block_evidence_mutation`, which runs before every flush, and the flush. A dirty object is the row that
-- it would become.
use telegram_osint.Base.{
  ℕ, Bool, false, not, ◌&&◌, ◌||◌, Option, none, some, List, [], ◌∷◌, ◌==◌, if◌then◌else◌, Result,
  ok, err,
}
use telegram_osint.Graph.Refs.{same_ref}
use telegram_osint.Workspace.Rows.{first}
use telegram_osint.Evidence.Observations.{StoredEvidence, same_field}

-- `EvidenceImmutableError`
pub data EvidenceImmutable : Type 0 where
  immutable : ℕ → EvidenceImmutable

-- all the columns but those of the entity are equal
abbrev pub same_content : StoredEvidence → StoredEvidence → Bool
same_content a b =
    a.id == b.id
    && (same_field a.field b.field
        && (a.source == b.source
            && (a.content_hash == b.content_hash
                && (a.confidence == b.confidence && a.body == b.body))))

-- `session.is_modified`
abbrev pub is_modified : StoredEvidence → StoredEvidence → Bool
is_modified old new = not (same_content old new && same_ref old.entity new.entity)

-- one dirty object may be written, when `allow` is `_ALLOW_REPOINTING`
abbrev pub may_write : Bool → Option StoredEvidence → StoredEvidence → Bool
may_write allow none new = false
may_write allow (some old) new = not (is_modified old new) || (allow && same_content old new)

-- the loop over `session.dirty`; an object that is dirty has a stored row
unfoldable pub check_dirty :
    Bool
    → List StoredEvidence
    → List StoredEvidence
    → Result EvidenceImmutable (List StoredEvidence)
check_dirty allow [] rows = ok rows
check_dirty allow (new ∷ dirty) rows =
    let rest = check_dirty allow dirty rows in
    if may_write allow (first (λ r. r.id == new.id) rows) new then rest else err (immutable new.id)

-- `block_evidence_mutation`, with the ids of the deleted objects
unfoldable pub block_evidence_mutation :
    Bool
    → List StoredEvidence
    → List ℕ
    → List StoredEvidence
    → Result EvidenceImmutable (List StoredEvidence)
block_evidence_mutation allow dirty deleted rows = elim (check_dirty allow dirty rows) [
  | err e ↦ err e
  | ok _ ↦ elim deleted [ [] ↦ ok rows | id ∷ _ ↦ err (immutable id) ]
]

-- the UPDATE of one object
unfoldable pub update_row : StoredEvidence → List StoredEvidence → List StoredEvidence
update_row new [] = []
update_row new (r ∷ rows) =
    let rest = update_row new rows in if r.id == new.id then new ∷ rows else r ∷ rest

unfoldable pub update_rows : List StoredEvidence → List StoredEvidence → List StoredEvidence
update_rows [] rows = rows
update_rows (new ∷ dirty) rows = update_rows dirty (update_row new rows)

-- a flush, which writes what the guard lets through
unfoldable pub flush :
    Bool
    → List StoredEvidence
    → List ℕ
    → List StoredEvidence
    → Result EvidenceImmutable (List StoredEvidence)
flush allow dirty deleted rows = elim (block_evidence_mutation allow dirty deleted rows) [
  | err e ↦ err e
  | ok _ ↦ ok (update_rows dirty rows)
]
