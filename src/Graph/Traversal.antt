-- ===== src/Graph/Traversal.antt =====
-- intelligence/relationships/graph.py: the bounded breadth-first view round some entities. The set of
-- visited entities is the list of nodes, and the set of seen edges is the keys of the list of edges, which
-- grow with them. The labels and attributes of the nodes are left out. Rows of equal confidence, which
-- the database may give in any order, come in the order of the table.
use telegram_osint.Base.{
  ℕ, zero, suc, ◌+◌, ◌*◌, min, max, Bool, true, false, ◌&&◌, ◌||◌, Option, none, some, List, [],
  ◌∷◌, ◌++◌, map, keep, any, take, length, leb, ltb, if◌then◌else◌, ◌⊎◌, inl, inr, ◌==◌,
}
use telegram_osint.Graph.Refs.{Ref, same_ref, Edge, same_edge}
use telegram_osint.Graph.Edges.{Relationship}
use telegram_osint.Graph.Merge.{touches}

-- `GraphView`
pub record GraphView : Type 0 where
  pub nodes : List Ref
  pub edges : List Relationship
  pub truncated : Bool

abbrev pub Queue : Type 0
Queue = List (Ref × ℕ)

abbrev pub insert_by_confidence : Relationship → List Relationship → List Relationship
insert_by_confidence rel [] = rel ∷ []
insert_by_confidence rel (r ∷ rels) =
    let rest = insert_by_confidence rel rels in
    if ltb rel.confidence r.confidence then r ∷ rest else rel ∷ r ∷ rels

abbrev pub order_by_confidence : List Relationship → List Relationship
order_by_confidence [] = []
order_by_confidence (rel ∷ rels) = insert_by_confidence rel (order_by_confidence rels)

-- `_edges_for`
unfoldable pub edges_for : List Relationship → Ref → List Relationship
edges_for rels r = take 100 (order_by_confidence (keep (λ rel. touches r rel.edge) rels))

abbrev pub source_of : Edge → Ref
source_of (s, t, k) = s

abbrev pub target_of : Edge → Ref
target_of (s, t, k) = t

abbrev pub other_end : Ref → Edge → Ref
other_end r (s, t, k) = if same_ref s r then t else s

abbrev pub is_node : Ref → List Ref → Bool
is_node r nodes = any (same_ref r) nodes

abbrev pub is_seen : Edge → List Relationship → Bool
is_seen e edges = any (λ rel. same_edge e rel.edge) edges

-- the loop over the edges of one entity: the edges seen, and the queue
unfoldable pub follow :
    Ref → ℕ → List Ref → List Relationship → List Relationship → Queue → List Relationship × Queue
follow r d nodes [] edges queue = (edges, queue)
follow r d nodes (rel ∷ rels) edges queue =
    let other = other_end r rel.edge in
    follow r d nodes rels (if is_seen rel.edge edges then edges else edges ++ (rel ∷ []))
      (if is_node other nodes then queue else queue ++ ((other, d + 1) ∷ []))

-- one turn of the loop: it breaks off with a view, or goes on
unfoldable pub visit :
    List Relationship → ℕ → ℕ → Ref → ℕ → Queue → GraphView → GraphView ⊎ (Queue × GraphView)
visit rels depth max_nodes r d queue view =
    let nodes = view.nodes ++ (r ∷ []) in
    let (edges, queue') = follow r d nodes (edges_for rels r) view.edges queue in
    if is_node r view.nodes
    then inr (queue, view)
    else if leb max_nodes (length nodes)
    then inl (record view { nodes = nodes; truncated = true })
    else if leb depth d
    then inr (queue, record view { nodes = nodes })
    else inr (queue', record view { nodes = nodes; edges = edges })

-- the loop, on fuel
unfoldable pub search_loop : ℕ → List Relationship → ℕ → ℕ → Queue → GraphView → Option GraphView
search_loop fuel rels depth max_nodes [] view = some view
search_loop zero rels depth max_nodes (item ∷ queue) view = none
search_loop (suc fuel) rels depth max_nodes ((r, d) ∷ queue) view =
    elim (visit rels depth max_nodes r d queue view) [
      | inl final ↦ some final
      | inr (queue', view') ↦ search_loop fuel rels depth max_nodes queue' view'
    ]

-- the edges whose both ends are nodes
abbrev pub inner : List Ref → Relationship → Bool
inner nodes rel = is_node (source_of rel.edge) nodes && is_node (target_of rel.edge) nodes

abbrev pub trim : GraphView → GraphView
trim view = record view { edges = keep (inner view.nodes) view.edges }

abbrev pub empty_view : GraphView
empty_view = record { nodes = []; edges = []; truncated = false }

abbrev pub seed_queue : List Ref → Queue
seed_queue seeds = map (λ r. (r, 0)) seeds

-- `_bfs`: a turn for every seed and for a hundred edges of every node are turns enough
unfoldable pub bfs : List Relationship → List Ref → ℕ → ℕ → Option GraphView
bfs rels seeds depth max_nodes =
    elim (search_loop (length seeds + 100 * max_nodes) rels depth max_nodes (seed_queue seeds)
      empty_view) [ none ↦ none | some view ↦ some (trim view) ]

-- `_MAX_DEPTH`
abbrev pub clamp_depth : ℕ → ℕ
clamp_depth depth = max 1 (min 3 depth)

-- `neighbourhood`
unfoldable pub neighbourhood : List Relationship → Ref → ℕ → ℕ → Option GraphView
unfolding bfs
neighbourhood rels r depth max_nodes = bfs rels (r ∷ []) (clamp_depth depth) max_nodes

-- `resolved_entities`, with the numbers of the target's type and of the two types of edge
unfoldable pub resolved_entities : ℕ → ℕ → ℕ → ℕ → List Relationship → List Ref
resolved_entities target is_account has_username id rels =
    map (λ rel. target_of rel.edge)
      (keep
        (λ rel.
          same_ref (source_of rel.edge) (target, id)
          && (rel.edge.1.1 == is_account || rel.edge.1.1 == has_username))
        rels)

-- `for_target`
unfoldable pub for_target : ℕ → ℕ → ℕ → List Relationship → ℕ → ℕ → ℕ → Option GraphView
unfolding bfs resolved_entities
for_target target is_account has_username rels id depth max_nodes =
    bfs rels ((target, id) ∷ resolved_entities target is_account has_username id rels)
      (clamp_depth depth) max_nodes
