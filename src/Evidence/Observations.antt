-- ===== src/Evidence/Observations.antt =====
-- `EvidenceRepository.record` on the table, and `_get_or_create` of its base class. `raced` are the rows
-- that other sessions commit between the query and the insert. The columns that are only stored are the
-- number `body`; a text is a number, and the empty one is 0.
use telegram_osint.Base.{
  ℕ, Bool, true, false, not, ◌&&◌, Option, none, some, List, [], ◌∷◌, ◌++◌, any, ◌==◌,
  if◌then◌else◌, is_some, Result, ok, err,
}
use telegram_osint.Base.Int.{ℤ, clamp100}
use telegram_osint.Graph.Refs.{Ref, same_ref}
use telegram_osint.Workspace.Rows.{first}

-- `Evidence`
pub record StoredEvidence : Type 0 where
  pub id : ℕ
  pub entity : Ref
  pub field : Option ℕ
  pub source : ℕ
  pub content_hash : ℕ
  pub confidence : ℕ
  pub body : ℕ

-- `IntegrityError`
pub data EvidenceError : Type 0 where
  integrity_error : EvidenceError

-- SHA-256 of a text, and the JSON text of a value
pub record Hashing : Type 0 where
  pub content_hash : ℕ → ℕ
  pub dumps : Option ℕ → ℕ

-- the arguments of `record` that make the key, and what is only stored
pub record Observed : Type 0 where
  pub entity : Ref
  pub source : ℕ
  pub field : Option ℕ
  pub value : Option ℕ
  pub raw_content : Option ℕ
  pub content_hash : Option ℕ
  pub confidence : ℤ
  pub body : ℕ

abbrev pub same_field : Option ℕ → Option ℕ → Bool
same_field none none = true
same_field (some a) (some b) = a == b
same_field _ _ = false

-- the filter of the query, in which a missing field is `IS NULL`
unfoldable pub same_observation : StoredEvidence → StoredEvidence → Bool
same_observation a b =
    same_ref a.entity b.entity
    && (same_field a.field b.field && (a.source == b.source && a.content_hash == b.content_hash))

-- `uq_evidence_observation`: for the constraint no two missing fields are equal
unfoldable pub conflicts : StoredEvidence → StoredEvidence → Bool
conflicts a b = is_some a.field && same_observation a b

-- `content_hash or _content_hash(...)`
unfoldable pub hash_of : Hashing → Observed → ℕ
hash_of h o =
    let text : ℕ = elim o.raw_content [ some raw ↦ raw | none ↦ h.dumps o.value ] in
    elim o.content_hash [
      | none ↦ h.content_hash text
      | some given ↦ if given == 0 then h.content_hash text else given
    ]

-- the row that is inserted
unfoldable pub new_row : Hashing → ℕ → Observed → StoredEvidence
unfolding hash_of
new_row h id o = record {
  id = id;
  entity = o.entity;
  field = o.field;
  source = o.source;
  content_hash = hash_of h o;
  confidence = clamp100 o.confidence;
  body = o.body;
}

-- the insert of `_get_or_create`, in a savepoint: the row, whether it is new, and the table
unfoldable pub insert_or_find :
    StoredEvidence
    → List StoredEvidence
    → Result EvidenceError ((StoredEvidence × Bool) × List StoredEvidence)
insert_or_find new rows =
    if not (any (conflicts new) rows)
    then ok ((new, true), rows ++ (new ∷ []))
    else elim (first (same_observation new) rows) [
      | some found ↦ ok ((found, false), rows)
      | none ↦ err integrity_error
    ]

-- `record`, whose query is that of `_get_or_create`
unfoldable pub record_evidence :
    Hashing
    → ℕ
    → Observed
    → List StoredEvidence
    → List StoredEvidence
    → Result EvidenceError ((StoredEvidence × Bool) × List StoredEvidence)
record_evidence h id o raced rows =
    let new = new_row h id o in
    elim (first (same_observation new) rows) [
      | some existing ↦ ok ((existing, false), rows ++ raced)
      | none ↦ insert_or_find new (rows ++ raced)
    ]
