-- ===== src/Graph/Edges.antt =====
-- `Relationship` and `RelationshipRepository.observe`. The unique constraint makes the edge the key of
-- the table; metadata is not read by the code and is left out.
use telegram_osint.Base.{
  ℕ, ◌+◌, max, Bool, true, false, Option, none, some, List, [], ◌∷◌, ◌++◌, if◌then◌else◌, is_some,
}
use telegram_osint.Base.Int.{ℤ, clamp100}
use telegram_osint.Graph.Refs.{Edge, same_edge}

-- `Relationship`
pub record Relationship : Type 0 where
  pub edge : Edge
  pub confidence : ℕ
  pub observation_count : ℕ
  pub first_seen : ℕ
  pub last_seen : ℕ
  pub evidence_id : Option ℕ

unfoldable pub find_edge : Edge → List Relationship → Option Relationship
find_edge e [] = none
find_edge e (rel ∷ rels) = if same_edge rel.edge e then some rel else find_edge e rels

-- the row that an observation inserts
abbrev pub new_edge : ℕ → Edge → ℕ → Option ℕ → Relationship
new_edge now e confidence evidence_id = record {
  edge = e;
  confidence = confidence;
  observation_count = 1;
  first_seen = now;
  last_seen = now;
  evidence_id = evidence_id;
}

-- the row after one more observation
abbrev pub bump : ℕ → ℕ → Option ℕ → Relationship → Relationship
bump now confidence evidence_id rel = record rel {
  last_seen = now;
  observation_count = rel.observation_count + 1;
  confidence = max rel.confidence confidence;
  evidence_id = if is_some rel.evidence_id then rel.evidence_id else evidence_id;
}

-- the write to the row of an edge
unfoldable pub update_edge :
    Edge → (Relationship → Relationship) → List Relationship → List Relationship
update_edge e f [] = []
update_edge e f (rel ∷ rels) =
    let rest = update_edge e f rels in if same_edge rel.edge e then f rel ∷ rels else rel ∷ rest

-- `observe`: the table, and whether the edge was created
unfoldable pub observe : ℕ → Edge → ℤ → Option ℕ → List Relationship → List Relationship × Bool
observe now e confidence evidence_id rels = elim (find_edge e rels) [
  | none ↦ (rels ++ (new_edge now e (clamp100 confidence) evidence_id ∷ []), true)
  | some _ ↦ (update_edge e (bump now (clamp100 confidence) evidence_id) rels, false)
]
