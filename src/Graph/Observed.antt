-- ===== src/Graph/Observed.antt =====
-- What a table of edges holds after a list of observations.
use telegram_osint.Base.{
  ℕ, ◌+◌, max, ◌≡◌, refl, ap, ◌∙◌, true, false, Option, none, some, List, [], ◌∷◌, ◌++◌, keep,
  length, if◌then◌else◌, is_some, arith, Bool-cases, Option-cases, inl, inr,
}
use telegram_osint.Base.Int.{ℤ, clamp100}
use telegram_osint.Graph.Refs.{Edge, same_edge, same_edge_eq, same_edge_refl}
use telegram_osint.Graph.Edges.{Relationship, find_edge, new_edge, bump, update_edge, observe}

-- the arguments of a call of `observe`, with its time
pub record Observation : Type 0 where
  pub at : ℕ
  pub edge : Edge
  pub confidence : ℤ
  pub evidence_id : Option ℕ

-- The table after a list of observations.
unfoldable pub observe_all : List Observation → List Relationship → List Relationship
observe_all [] rels = rels
observe_all (o ∷ os) rels = observe_all os (observe o.at o.edge o.confidence o.evidence_id rels).0

-- the row of one edge, carried through the observations
abbrev note : ℕ → Edge → ℤ → Option ℕ → Option Relationship → Relationship
note now e confidence evidence_id none = new_edge now e (clamp100 confidence) evidence_id
note now e confidence evidence_id (some rel) = bump now (clamp100 confidence) evidence_id rel

abbrev summary : Edge → List Observation → Option Relationship → Option Relationship
summary e [] rel = rel
summary e (o ∷ os) rel =
    summary e os
      (if same_edge o.edge e then some (note o.at o.edge o.confidence o.evidence_id rel) else rel)

find_edge-append :
    (e : Edge) (rels : List Relationship) (rel : Relationship)
    → find_edge e rels ≡ none
    → find_edge e (rels ++ (rel ∷ [])) ≡ (if same_edge rel.edge e then some rel else none)
unfolding find_edge
find_edge-append e [] rel h = refl
find_edge-append e (r ∷ rels) rel h = elim (Bool-cases (same_edge r.edge e)) [
  | inl at ↦ absurd (cc (h, at))
  | inr at ↦ rw at (find_edge-append e rels rel (rw at at h))
]

find_edge-append_ne :
    (e : Edge) (rels : List Relationship) (rel : Relationship)
    → same_edge rel.edge e ≡ false
    → find_edge e (rels ++ (rel ∷ [])) ≡ find_edge e rels
unfolding find_edge
find_edge-append_ne e [] rel ne = rw ne refl
find_edge-append_ne e (r ∷ rels) rel ne = elim (Bool-cases (same_edge r.edge e)) [
  | inl at ↦ rw at refl
  | inr at ↦ rw at (find_edge-append_ne e rels rel ne)
]

module _ (f : Relationship → Relationship) (keeps : (r : Relationship) → (f r).edge ≡ r.edge) where
  find_edge-update_edge :
      (e : Edge) (rels : List Relationship) (rel : Relationship)
      → find_edge e rels ≡ some rel
      → find_edge e (update_edge e f rels) ≡ some (f rel)
  unfolding find_edge update_edge
  find_edge-update_edge e [] rel h = cc
  find_edge-update_edge e (r ∷ rels) rel h = elim (Bool-cases (same_edge r.edge e)) [
    | inl at ↦
        let hit : same_edge (f r).edge e ≡ true = rw (keeps r) at in
        rw at (
          rw hit (
            ap (λ o. elim o as (λ _. Option Relationship) [ none ↦ none | some q ↦ some (f q) ])
              (rw at at h)))
    | inr at ↦ rw at (rw at (find_edge-update_edge e rels rel (rw at at h)))
  ]

  find_edge-update_edge_ne :
      (e x : Edge) (rels : List Relationship)
      → same_edge e x ≡ false
      → find_edge x (update_edge e f rels) ≡ find_edge x rels
  unfolding find_edge update_edge
  find_edge-update_edge_ne e x [] ne = refl
  find_edge-update_edge_ne e x (r ∷ rels) ne = elim (Bool-cases (same_edge r.edge e)) [
    | inl at ↦
        let other : same_edge r.edge x ≡ false = rw (same_edge_eq r.edge e at) ne in
        let hit : same_edge (f r).edge x ≡ false = rw (keeps r) other in
        rw at (rw (hit, other) refl)
    | inr at ↦
        rw at (
          ap (λ q. if same_edge r.edge x then some r else q) (find_edge-update_edge_ne e x rels ne))
  ]

module _ (now : ℕ) (e : Edge) (confidence : ℤ) (evidence_id : Option ℕ)
    (rels : List Relationship) where
  abbrev after : List Relationship
  after = (observe now e confidence evidence_id rels).0

  observe_new :
      find_edge e rels ≡ none
      → after ≡ rels ++ (new_edge now e (clamp100 confidence) evidence_id ∷ [])
  unfolding observe
  observe_new absent = rw (absent, after) refl

  observe_old :
      (rel : Relationship)
      → find_edge e rels ≡ some rel
      → after ≡ update_edge e (bump now (clamp100 confidence) evidence_id) rels
  unfolding observe
  observe_old rel present = rw (present, after) refl

  pub observe_self : find_edge e after ≡ some (note now e confidence evidence_id (find_edge e rels))
  observe_self = elim (Option-cases (find_edge e rels)) [
    | inl absent ↦
        rw (observe_new absent, absent)
          (find_edge-append e rels _ absent ∙ rw (same_edge_refl e) refl)
    | inr (rel, present) ↦
        rw (observe_old rel present, present)
          (find_edge-update_edge _ (λ r. refl) e rels rel present)
  ]

  pub observe_ne : (x : Edge) → same_edge e x ≡ false → find_edge x after ≡ find_edge x rels
  observe_ne x ne = elim (Option-cases (find_edge e rels)) [
    | inl absent ↦ rw (observe_new absent) (find_edge-append_ne x rels _ ne)
    | inr (rel, present) ↦
        rw (observe_old rel present) (find_edge-update_edge_ne _ (λ r. refl) e x rels ne)
  ]

find_edge_summary :
    (e : Edge) (os : List Observation) (rels : List Relationship)
    → find_edge e (observe_all os rels) ≡ summary e os (find_edge e rels)
unfolding observe_all
find_edge_summary e [] rels = refl
find_edge_summary e (o ∷ os) rels =
    find_edge_summary e os _
    ∙ ap (summary e os) (elim (Bool-cases (same_edge o.edge e)) [
      | inl at ↦
          rw (at, same_edge_eq o.edge e at) (observe_self o.at e o.confidence o.evidence_id rels)
      | inr ne ↦ rw ne (observe_ne o.at o.edge o.confidence o.evidence_id rels e ne)
    ])

-- The specification: what must stand in the row of an edge, in terms of its own observations.

abbrev pub top_confidence : ℕ → List Observation → ℕ
top_confidence m [] = m
top_confidence m (o ∷ os) = top_confidence (max m (clamp100 o.confidence)) os

abbrev pub last_time : ℕ → List Observation → ℕ
last_time t [] = t
last_time t (o ∷ os) = last_time o.at os

abbrev pub first_evidence : List Observation → Option ℕ
first_evidence [] = none
first_evidence (o ∷ os) = if is_some o.evidence_id then o.evidence_id else first_evidence os

abbrev pub mine : Edge → List Observation → List Observation
mine e os = keep (λ o. same_edge o.edge e) os

abbrev pub row_of : Edge → List Observation → Option Relationship
row_of e [] = none
row_of e (o ∷ os) = some (record {
  edge = e;
  confidence = top_confidence (clamp100 o.confidence) os;
  observation_count = 1 + length os;
  first_seen = o.at;
  last_seen = last_time o.at os;
  evidence_id = first_evidence (o ∷ os);
})

summary_some :
    (e : Edge) (os : List Observation) (rel : Relationship)
    → summary e os (some rel)
      ≡ some (record rel {
        confidence = top_confidence rel.confidence (mine e os);
        observation_count = rel.observation_count + length (mine e os);
        last_seen = last_time rel.last_seen (mine e os);
        evidence_id =
            if is_some rel.evidence_id then rel.evidence_id else first_evidence (mine e os);
      })
summary_some e [] rel = ground arith
summary_some e (o ∷ os) rel = elim (Bool-cases (same_edge o.edge e)) [
  | inl at ↦
      rw at (summary_some e os (bump o.at (clamp100 o.confidence) o.evidence_id rel) ∙ ground arith)
  | inr ne ↦ rw ne (summary_some e os rel)
]

summary_none : (e : Edge) (os : List Observation) → summary e os none ≡ row_of e (mine e os)
summary_none e [] = refl
summary_none e (o ∷ os) = elim (Bool-cases (same_edge o.edge e)) [
  | inl at ↦ rw (at, same_edge_eq o.edge e at) (summary_some e os _)
  | inr ne ↦ rw ne (summary_none e os)
]

-- On a table that starts empty, the row of every edge is what its own observations say: created by the
-- first, with the greatest confidence after clamping to 0..100, their number, the times of the first
-- and of the last, and the first evidence that was named. Other edges' observations do not matter.
pub find_edge-observe_all :
    (e : Edge) (os : List Observation) → find_edge e (observe_all os []) ≡ row_of e (mine e os)
unfolding find_edge
find_edge-observe_all e os = find_edge_summary e os [] ∙ summary_none e os
