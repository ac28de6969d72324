-- ===== src/Graph/Tests.antt =====
-- A target with two accounts of the same person.
use telegram_osint.Base.{◌≡◌, refl, false, none, some, List, [], ◌∷◌, arith, err, inl, inr}
use telegram_osint.Base.Int.{pos, negsuc, clamp100}
use telegram_osint.Graph.Refs.{Ref, Edge}
use telegram_osint.Graph.Edges.{Relationship, find_edge, update_edge, observe, new_edge}
use telegram_osint.Graph.Observed.{Observation, observe_all, mine, row_of, find_edge-observe_all}
use telegram_osint.Graph.Merge.{
  Evidence, Tables, MergeResult, merge_entities, merge_edges, delete_edge, integrity_error,
}
use telegram_osint.Base.Sorting.{sort_on, insert_on}
use telegram_osint.Graph.Neighbours.{neighbours}
use telegram_osint.Graph.Merged.{Detached, merge_entities-Detached}
use telegram_osint.Graph.Twins.{merge_twin_evidence}
use telegram_osint.Graph.Traversal.{
  GraphView, bfs, search_loop, visit, follow, edges_for, neighbourhood, for_target,
  resolved_entities,
}
use telegram_osint.Graph.Subgraph.{Subgraph, bfs-Subgraph}

abbrev target : Ref
target = (0, 1)

abbrev account : Ref
account = (1, 2)

abbrev double : Ref
double = (1, 3)

abbrev first_edge : Edge
first_edge = (target, account, 4)

abbrev second_edge : Edge
second_edge = (target, double, 4)

abbrev observations : List Observation
observations =
    record { at = 10; edge = first_edge; confidence = pos 40; evidence_id = none }
    ∷ record { at = 20; edge = second_edge; confidence = negsuc 5; evidence_id = none }
    ∷ record { at = 30; edge = first_edge; confidence = pos 150; evidence_id = some 7 }
    ∷ []

first_row :
    find_edge first_edge (observe_all observations [])
    ≡ some (record {
      edge = first_edge;
      confidence = 100;
      observation_count = 2;
      first_seen = 10;
      last_seen = 30;
      evidence_id = some 7;
    })
unfolding observe_all observe find_edge update_edge clamp100
first_row = refl

find_edge-observe_all_example :
    find_edge first_edge (observe_all observations [])
    ≡ row_of first_edge (mine first_edge observations)
find_edge-observe_all_example = find_edge-observe_all first_edge observations

abbrev seen : Relationship
seen = new_edge 10 first_edge 40 (some 7)

abbrev seen_too : Relationship
seen_too = new_edge 20 second_edge 60 none

abbrev bio : Ref → Evidence
bio r = record { entity = r; field = some 1; source = 2; content_hash = 99; body = 0 }

abbrev tables : Tables
tables = record {
  relationships = seen ∷ seen_too ∷ [];
  messages = record { source = (2, 9); message_id = 5; author_account_id = some 3; body = 0 } ∷ [];
  evidence = record (bio double) { content_hash = 98 } ∷ bio account ∷ [];
}

abbrev merged : Tables
merged = record {
  relationships = record seen { observation_count = 2; confidence = 60; last_seen = 50 } ∷ [];
  messages = record { source = (2, 9); message_id = 5; author_account_id = some 2; body = 0 } ∷ [];
  evidence = record (bio account) { content_hash = 98 } ∷ bio account ∷ [];
}

abbrev counts : MergeResult
counts = record { relationships_repointed = 1; messages_repointed = 1; evidence_repointed = 1 }

-- the two edges of the target, and the later one first
neighbours_of_target :
    (neighbours target 500 tables.relationships ≡ seen_too ∷ seen ∷ [])
    × (neighbours target 1 tables.relationships ≡ seen_too ∷ [])
    × (neighbours double 500 tables.relationships ≡ seen_too ∷ [])
unfolding neighbours sort_on insert_on
neighbours_of_target = (refl, refl, refl)

merge_entities-Detached_example : Detached double merged
unfolding merge_entities merge_edges delete_edge observe find_edge update_edge clamp100
merge_entities-Detached_example =
    merge_entities-Detached 50 account double tables merged counts refl

abbrev twin_tables : Tables
twin_tables = record tables { evidence = bio double ∷ bio account ∷ [] }

merge_twin_evidence_example : merge_entities 50 account double twin_tables ≡ err integrity_error
merge_twin_evidence_example =
    merge_twin_evidence 50 account double twin_tables (bio account) (bio double) 1 refl
      (λ e. omega arith) (inr (inl refl)) (inl refl) refl refl refl refl refl refl

view_of_account :
    bfs tables.relationships (account ∷ []) 1 200
    ≡ some (record { nodes = account ∷ target ∷ []; edges = seen ∷ []; truncated = false })
unfolding bfs search_loop visit follow edges_for
view_of_account = refl

bfs-Subgraph_example :
    (view : GraphView) × (bfs tables.relationships (account ∷ []) 2 200 ≡ some view)
    × Subgraph tables.relationships (account ∷ []) 2 200 view
bfs-Subgraph_example = bfs-Subgraph tables.relationships (account ∷ []) 2 200

view_of_target :
    for_target 0 4 5 tables.relationships 1 2 2 ≡ neighbourhood tables.relationships target 2 2
unfolding for_target resolved_entities neighbourhood bfs search_loop visit follow edges_for
view_of_target = refl
