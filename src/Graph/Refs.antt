-- ===== src/Graph/Refs.antt =====
-- References to entities and edges: an entity is its type and its id, an edge its two ends and its type.
-- Types and ids are only compared.
use telegram_osint.Base.{ℕ, ◌≡◌, Bool, true, ◌&&◌, ◌==◌, arith}

-- an entity: `entity_type` and `entity_id`
abbrev pub Ref : Type 0
Ref = ℕ × ℕ

abbrev pub same_ref : Ref → Ref → Bool
same_ref (t, i) (u, j) = t == u && i == j

pub same_ref_eq : (a b : Ref) → same_ref a b ≡ true → a ≡ b
same_ref_eq (t, i) (u, j) h = ground arith

pub same_ref_refl : (a : Ref) → same_ref a a ≡ true
same_ref_refl (t, i) = ground arith

pub same_ref_sym : (a b : Ref) → same_ref a b ≡ same_ref b a
same_ref_sym (t, i) (u, j) = ground arith

-- the columns of the unique constraint `uq_relationship_edge`
abbrev pub Edge : Type 0
Edge = Ref × Ref × ℕ

abbrev pub same_edge : Edge → Edge → Bool
same_edge (s, t, r) (s', t', r') = same_ref s s' && (same_ref t t' && r == r')

pub same_edge_eq : (a b : Edge) → same_edge a b ≡ true → a ≡ b
same_edge_eq ((s, i), (t, j), r) ((s', i'), (t', j'), r') h = ground arith

pub same_edge_refl : (a : Edge) → same_edge a a ≡ true
same_edge_refl ((s, i), (t, j), r) = ground arith

pub same_edge_sym : (a b : Edge) → same_edge a b ≡ same_edge b a
same_edge_sym ((s, i), (t, j), r) ((s', i'), (t', j'), r') = ground arith
