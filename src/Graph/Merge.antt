-- ===== src/Graph/Merge.antt =====
-- intelligence/entity_resolution/resolver.py, `merge_entities`: the rows of the three tables that name an
-- entity. A call that raises leaves the tables as they were, since the session rolls back. The columns
-- that the merge neither reads nor writes are the number `body`.
use telegram_osint.Base.{
  ℕ, ◌+◌, Bool, false, not, ◌&&◌, ◌||◌, Option, none, some, List, [], ◌∷◌, map, keep, length,
  no_twins, if◌then◌else◌, ◌==◌, Result, ok, err,
}
use telegram_osint.Base.Int.{pos}
use telegram_osint.Graph.Refs.{Ref, same_ref, Edge, same_edge}
use telegram_osint.Graph.Edges.{Relationship, observe}

-- `Message`
pub record Message : Type 0 where
  pub source : Ref
  pub message_id : ℕ
  pub author_account_id : Option ℕ
  pub body : ℕ

-- `Evidence`
pub record Evidence : Type 0 where
  pub entity : Ref
  pub field : Option ℕ
  pub source : ℕ
  pub content_hash : ℕ
  pub body : ℕ

pub record Tables : Type 0 where
  pub relationships : List Relationship
  pub messages : List Message
  pub evidence : List Evidence

pub record MergeResult : Type 0 where
  pub relationships_repointed : ℕ
  pub messages_repointed : ℕ
  pub evidence_repointed : ℕ

-- the two `ValueError`s, and the violation of a unique constraint
pub data MergeError : Type 0 where
  different_types same_entity integrity_error : MergeError

abbrev pub redirect : Ref → Ref → Ref → Ref
redirect keep_ref drop r = if same_ref r drop then keep_ref else r

abbrev pub touches : Ref → Edge → Bool
touches r (s, t, k) = same_ref s r || same_ref t r

abbrev pub redirect_edge : Ref → Ref → Edge → Edge
redirect_edge keep_ref drop (s, t, k) = (redirect keep_ref drop s, redirect keep_ref drop t, k)

abbrev pub is_loop : Edge → Bool
is_loop (s, t, k) = same_ref s t

-- `session.delete(rel)`
unfoldable pub delete_edge : Edge → List Relationship → List Relationship
delete_edge e rels = keep (λ rel. not (same_edge rel.edge e)) rels

-- the loop over the relationships of the dropped entity
unfoldable pub merge_edges :
    ℕ → Ref → Ref → List Relationship → List Relationship → List Relationship
merge_edges now keep_ref drop [] rels = rels
merge_edges now keep_ref drop (rel ∷ todo) rels =
    let e = redirect_edge keep_ref drop rel.edge in
    let rels' = delete_edge rel.edge rels in
    merge_edges now keep_ref drop todo
      (if is_loop e then rels' else (observe now e (pos rel.confidence) none rels').0)

-- the two updates of the messages
abbrev pub is_author : ℕ → Option ℕ → Bool
is_author id none = false
is_author id (some a) = a == id

abbrev pub source_message : Ref → Ref → Message → Message
source_message keep_ref drop m =
    if same_ref m.source drop then record m { source = keep_ref } else m

abbrev pub author_message : ℕ → ℕ → Message → Message
author_message keep_id drop_id m =
    if is_author drop_id m.author_account_id
    then record m { author_account_id = some keep_id }
    else m

abbrev pub repoint_evidence : Ref → Ref → Evidence → Evidence
repoint_evidence keep_ref drop ev =
    if same_ref ev.entity drop then record ev { entity = keep_ref } else ev

-- the unique constraints; a null field equals no other
abbrev pub same_message : Message → Message → Bool
same_message m n = same_ref m.source n.source && m.message_id == n.message_id

abbrev pub same_field : Option ℕ → Option ℕ → Bool
same_field (some f) (some g) = f == g
same_field _ _ = false

abbrev pub same_observation : Evidence → Evidence → Bool
same_observation a b =
    same_ref a.entity b.entity
    && (same_field a.field b.field && (a.source == b.source && a.content_hash == b.content_hash))

-- `merge_entities`
unfoldable pub merge_entities : ℕ → Ref → Ref → Tables → Result MergeError (MergeResult × Tables)
merge_entities now keep_ref drop tables =
    let todo = keep (λ rel. touches drop rel.edge) tables.relationships in
    let sourced = map (source_message keep_ref drop) tables.messages in
    let messages = map (author_message keep_ref.1 drop.1) sourced in
    let evidence = map (repoint_evidence keep_ref drop) tables.evidence in
    if not (keep_ref.0 == drop.0)
    then err different_types
    else if keep_ref.1 == drop.1
    then err same_entity
    else if not (no_twins same_message messages && no_twins same_observation evidence)
    then err integrity_error
    else ok (
      record {
        relationships_repointed = length todo;
        messages_repointed =
            length (keep (λ m. same_ref m.source drop) tables.messages)
            + length (keep (λ m. is_author drop.1 m.author_account_id) sourced);
        evidence_repointed = length (keep (λ ev. same_ref ev.entity drop) tables.evidence);
      },
      record {
        relationships = merge_edges now keep_ref drop todo tables.relationships;
        messages = messages;
        evidence = evidence;
      },
    )
