-- ===== src/Graph/Merged.antt =====
-- After a merge nothing names the dropped entity, and edges of other entities are as they were.
use telegram_osint.Base.{
  ℕ, ◌≡◌, refl, ap, ◌∙◌, Bool, true, false, none, List, [], ◌∷◌, map, keep, any, if◌then◌else◌,
  ◌==◌, ok, arith, Bool-cases, inl, inr, All,
}
use telegram_osint.Base.Int.{pos}
use telegram_osint.Graph.Refs.{Ref, same_ref, Edge, same_edge, same_edge_eq, same_edge_sym}
use telegram_osint.Graph.Edges.{Relationship, find_edge, observe}
use telegram_osint.Graph.Observed.{observe_ne}
use telegram_osint.Graph.Neighbours.{neighbours, neighbours-none}
use telegram_osint.Graph.Merge.{
  Message, Evidence, Tables, MergeResult, touches, redirect_edge, is_loop, delete_edge, merge_edges,
  is_author, source_message, author_message, repoint_evidence, merge_entities,
}

find_edge-delete_edge :
    (x e : Edge) (rels : List Relationship)
    → find_edge e (delete_edge x rels) ≡ (if same_edge x e then none else find_edge e rels)
unfolding find_edge delete_edge
find_edge-delete_edge x e [] = ground arith
find_edge-delete_edge x e (rel ∷ rels) = elim (Bool-cases (same_edge rel.edge x)) [
  | inl at ↦ rw at (
      find_edge-delete_edge x e rels
      ∙ rw (same_edge_eq rel.edge x at)
          (elim (Bool-cases (same_edge x e)) [ inl at' ↦ rw at' refl | inr ne ↦ rw ne refl ]))
  | inr ne ↦ rw ne (elim (Bool-cases (same_edge rel.edge e)) [
    | inl at ↦
        let other : same_edge x e ≡ false =
          rw (same_edge_sym x e) (rw (same_edge_eq rel.edge e at) at ne) in
        rw (at, other) refl
    | inr ne' ↦ rw ne' (find_edge-delete_edge x e rels)
  ])
]

redirected :
    (keep_ref drop : Ref) (e : Edge)
    → same_ref keep_ref drop ≡ false
    → touches drop (redirect_edge keep_ref drop e) ≡ false
redirected (kt, ki) (dt, di) ((s, i), (t, j), k) h = ground arith

touching_ne :
    (drop : Ref) (x e : Edge)
    → touches drop x ≡ false
    → touches drop e ≡ true
    → same_edge x e ≡ false
touching_ne drop x e a b = elim (Bool-cases (same_edge x e)) [
  | inl at ↦ absurd (cc (a, b, ap (touches drop) (same_edge_eq x e at)))
  | inr ne ↦ ne
]

-- does one of the rows hold this edge
abbrev holds : Edge → List Relationship → Bool
holds e rels = any (λ rel. same_edge rel.edge e) rels

module _ (now : ℕ) (keep_ref drop : Ref) (apart : same_ref keep_ref drop ≡ false) where
  find_edge-step :
      (rel : Relationship) (rels : List Relationship) (e : Edge)
      → touches drop e ≡ true
      → let x = redirect_edge keep_ref drop rel.edge in
        find_edge e (
          if is_loop x
          then delete_edge rel.edge rels
          else (observe now x (pos rel.confidence) none (delete_edge rel.edge rels)).0)
        ≡ (if same_edge rel.edge e then none else find_edge e rels)
  find_edge-step rel rels e touch =
      elim (Bool-cases (is_loop (redirect_edge keep_ref drop rel.edge))) [
        | inl loop ↦ rw loop (find_edge-delete_edge rel.edge e rels)
        | inr edge' ↦ rw edge' (
            observe_ne now _ _ _ _ e
              (touching_ne drop _ e (redirected keep_ref drop rel.edge apart) touch)
            ∙ find_edge-delete_edge rel.edge e rels)
      ]

  find_edge-merge_edges :
      (todo rels : List Relationship) (e : Edge)
      → touches drop e ≡ true
      → find_edge e (merge_edges now keep_ref drop todo rels)
        ≡ (if holds e todo then none else find_edge e rels)
  unfolding merge_edges
  find_edge-merge_edges [] rels e touch = refl
  find_edge-merge_edges (rel ∷ todo) rels e touch =
      find_edge-merge_edges todo _ e touch ∙ rw (find_edge-step rel rels e touch) (ground arith)

find_edge-unheld :
    (drop : Ref) (rels : List Relationship) (e : Edge)
    → touches drop e ≡ true
    → (if holds e (keep (λ rel. touches drop rel.edge) rels) then none else find_edge e rels) ≡ none
unfolding find_edge
find_edge-unheld drop [] e touch = refl
find_edge-unheld drop (rel ∷ rels) e touch = elim (Bool-cases (same_edge rel.edge e)) [
  | inl at ↦
      let touching : touches drop rel.edge ≡ true = rw (same_edge_eq rel.edge e at) touch in
      rw (touching, at) refl
  | inr ne ↦ elim (Bool-cases (touches drop rel.edge)) [
    | inl t ↦ rw t (rw ne (find_edge-unheld drop rels e touch))
    | inr f ↦ rw (f, ne) (find_edge-unheld drop rels e touch)
  ]
]

source_message_clear :
    (k d : Ref) (m : Message)
    → same_ref k d ≡ false
    → (k.1 == d.1) ≡ false
    → let m' = author_message k.1 d.1 (source_message k d m) in
      (same_ref m'.source d ≡ false) × (is_author d.1 m'.author_account_id ≡ false)
source_message_clear (kt, ki) (dt, di) m apart ids = ground arith

messages_clear :
    (k d : Ref) (ms : List Message)
    → same_ref k d ≡ false
    → (k.1 == d.1) ≡ false
    → All
        (λ m. (same_ref m.source d ≡ false) × (is_author d.1 m.author_account_id ≡ false))
        (map (author_message k.1 d.1) (map (source_message k d) ms))
messages_clear k d [] apart ids = tt
messages_clear k d (m ∷ ms) apart ids =
    (source_message_clear k d m apart ids, messages_clear k d ms apart ids)

repointed_clear :
    (k d : Ref) (ev : Evidence)
    → same_ref k d ≡ false
    → same_ref (repoint_evidence k d ev).entity d ≡ false
repointed_clear k d ev apart = elim (Bool-cases (same_ref ev.entity d)) [
  | inl at ↦ rw at apart
  | inr ne ↦ rw ne ne
]

evidence_clear :
    (k d : Ref) (evs : List Evidence)
    → same_ref k d ≡ false
    → All (λ ev. same_ref ev.entity d ≡ false) (map (repoint_evidence k d) evs)
evidence_clear k d [] apart = tt
evidence_clear k d (ev ∷ evs) apart = (repointed_clear k d ev apart, evidence_clear k d evs apart)

-- No row of the tables names the entity.
pub record Detached (r : Ref) (tables : Tables) : Type 0 where
  pub edges : (e : Edge) → touches r e ≡ true → find_edge e tables.relationships ≡ none
  pub messages :
      All
        (λ m. (same_ref m.source r ≡ false) × (is_author r.1 m.author_account_id ≡ false))
        tables.messages
  pub evidence : All (λ ev. same_ref ev.entity r ≡ false) tables.evidence
  pub alone : (limit : ℕ) → neighbours r limit tables.relationships ≡ []

merge_inversion :
    (now : ℕ) (k d : Ref) (tables tables' : Tables) (r : MergeResult)
    → merge_entities now k d tables ≡ ok (r, tables')
    → ((k.1 == d.1) ≡ false)
      × (tables'.relationships
          ≡ merge_edges now k d
              (keep (λ rel. touches d rel.edge) tables.relationships)
              tables.relationships)
      × (tables'.messages ≡ map (author_message k.1 d.1) (map (source_message k d) tables.messages))
      × (tables'.evidence ≡ map (repoint_evidence k d) tables.evidence)
unfolding merge_entities
merge_inversion now k d tables tables' r e = ground arith

apart_ids : (k d : Ref) → (k.1 == d.1) ≡ false → same_ref k d ≡ false
apart_ids (kt, ki) (dt, di) h = ground arith

-- After a merge that succeeds no relationship, message or evidence row names the dropped entity, and a
-- query for its neighbours finds none, whatever the limit.
pub merge_entities-Detached :
    (now : ℕ) (keep_ref drop : Ref) (tables tables' : Tables) (r : MergeResult)
    → merge_entities now keep_ref drop tables ≡ ok (r, tables')
    → Detached drop tables'
merge_entities-Detached now k d tables tables' r e =
    let (ids, rels, msgs, evs) = merge_inversion now k d tables tables' r e in
    let apart : same_ref k d ≡ false = apart_ids k d ids in
    let gone : (x : Edge) → touches d x ≡ true → find_edge x tables'.relationships ≡ none =
      λ x touch. rw rels (
        find_edge-merge_edges now k d apart _ tables.relationships x touch
        ∙ find_edge-unheld d tables.relationships x touch) in
    record {
      edges = gone;
      messages = rw msgs (messages_clear k d tables.messages apart ids);
      evidence = rw evs (evidence_clear k d tables.evidence apart);
      alone = λ limit. neighbours-none d limit tables'.relationships gone;
    }
