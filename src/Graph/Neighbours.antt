-- ===== src/Graph/Neighbours.antt =====
-- `RelationshipRepository.neighbours`, and the entities that it finds none for.
use telegram_osint.Base.{
  ℕ, zero, suc, ◌≡◌, refl, true, none, List, [], ◌∷◌, keep, take, arith, Bool-cases, inl, inr,
}
use telegram_osint.Base.Sorting.{sort_on, newest_first}
use telegram_osint.Graph.Refs.{Ref, Edge, same_edge_refl}
use telegram_osint.Graph.Edges.{Relationship, find_edge}
use telegram_osint.Graph.Merge.{touches}

-- `neighbours` of an entity, at most `limit` rows
unfoldable pub neighbours : Ref → ℕ → List Relationship → List Relationship
neighbours r limit rels =
    take limit (newest_first (λ rel. rel.last_seen) (keep (λ rel. touches r rel.edge) rels))

-- the table has no edge of the entity
abbrev Edgeless : Ref → List Relationship → Type 0
Edgeless r rels = (e : Edge) → touches r e ≡ true → find_edge e rels ≡ none

Edgeless-tail :
    (r : Ref) (rel : Relationship) (rels : List Relationship)
    → Edgeless r (rel ∷ rels)
    → Edgeless r rels
unfolding find_edge
Edgeless-tail r rel rels h e touch = ground (arith, h e touch)

keep-touches :
    (r : Ref) (rels : List Relationship)
    → Edgeless r rels
    → keep (λ rel. touches r rel.edge) rels ≡ []
unfolding find_edge
keep-touches r [] h = refl
keep-touches r (rel ∷ rels) h = elim (Bool-cases (touches r rel.edge)) [
  | inl touch ↦ absurd (ground (arith, h rel.edge touch, same_edge_refl rel.edge))
  | inr far ↦ rw far (keep-touches r rels (Edgeless-tail r rel rels h))
]

take_nil : (n : ℕ) → take {A = Relationship} n [] ≡ []
take_nil zero = refl
take_nil (suc n) = refl

-- an entity without an edge has no neighbours, whatever the limit
pub neighbours-none :
    (r : Ref) (limit : ℕ) (rels : List Relationship)
    → Edgeless r rels
    → neighbours r limit rels ≡ []
unfolding neighbours sort_on
neighbours-none r limit rels h = rw (keep-touches r rels h) (take_nil limit)
