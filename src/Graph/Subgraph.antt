-- ===== src/Graph/Subgraph.antt =====
-- What a view holds: distinct entities within reach of the seeds, and rows of the table between them.
use telegram_osint.Base.{
  ℕ, zero, suc, ◌+◌, ◌*◌, ◌≤◌, ◌<◌, max, ◌≡◌, refl, sym, ◌∙◌, Bool, true, false, Option, some, List,
  [], ◌∷◌, ◌++◌, keep, any, length, length-append, leb, ◌⊎◌, inl, inr, arith, Bool-cases, All,
  All-append, All-keep, no_twins, In, Option-cases,
}
use mathlib.Core.Path.{subst}
use telegram_osint.Graph.Refs.{Ref, same_ref, same_ref_sym, same_edge, same_edge_sym}
use telegram_osint.Graph.Edges.{Relationship}
use telegram_osint.Graph.Merge.{touches}
use telegram_osint.Graph.Traversal.{
  GraphView, Queue, edges_for, other_end, is_node, is_seen, follow, visit, search_loop, inner, trim,
  empty_view, seed_queue, bfs,
}
use telegram_osint.Graph.View.{bfs_ends, turn-cases, search_loop-stop, search_loop-go}
use telegram_osint.Graph.Reach.{seed, hop, All-edges_for, All-of, no_twins-append, Within}

module _ (rels : List Relationship) (seeds : List Ref) (depth max_nodes : ℕ) where
  abbrev Reached : Ref → Type 0
  Reached r = (d : ℕ) × (d ≤ depth) × Within rels seeds d r

  abbrev Due : Ref × ℕ → Type 0
  Due (r, d) = (d ≤ depth) × Within rels seeds d r

  abbrev twin_rows : Relationship → Relationship → Bool
  twin_rows a b = same_edge a.edge b.edge

  -- What the loop keeps of its view.
  pub record Sound (view : GraphView) : Type 0 where
    pub distinct : no_twins same_ref view.nodes ≡ true
    pub reached : All Reached view.nodes
    pub simple : no_twins twin_rows view.edges ≡ true
    pub rows : All (λ rel. In rel rels) view.edges

  -- what stands in the queue, and the room that is left
  record Loop (queue : Queue) (view : GraphView) : Type 0 where
    sound : Sound view
    due : All Due queue
    room : length view.nodes < max 1 max_nodes

  record Followed (edges : List Relationship) (queue : Queue) : Type 0 where
    simple : no_twins twin_rows edges ≡ true
    rows : All (λ rel. In rel rels) edges
    due : All Due queue

  is_seen-any :
      (rel : Relationship) (edges : List Relationship)
      → is_seen rel.edge edges ≡ any (λ y. twin_rows y rel) edges
  is_seen-any rel [] = refl
  is_seen-any rel (e ∷ edges) = rw (same_edge_sym rel.edge e.edge, is_seen-any rel edges) refl

  follow-Followed :
      (r : Ref) (d : ℕ) (nodes : List Ref) (todo edges : List Relationship) (queue : Queue)
      → d < depth
      → Within rels seeds d r
      → All (λ rel. In rel rels × (touches r rel.edge ≡ true)) todo
      → Followed edges queue
      → let (edges', queue') = follow r d nodes todo edges queue in Followed edges' queue'
  unfolding follow
  follow-Followed r d nodes [] edges queue lt w h f = f
  follow-Followed r d nodes (rel ∷ todo) edges queue lt w ((i, touch), h) f =
      follow-Followed r d nodes todo _ _ lt w h record {
        simple = elim (Bool-cases (is_seen rel.edge edges)) [
          | inl e ↦ rw e f.simple
          | inr e ↦
              rw e (no_twins-append twin_rows edges rel f.simple (sym (is_seen-any rel edges) ∙ e))
        ];
        rows = elim (Bool-cases (is_seen rel.edge edges)) [
          | inl e ↦ rw e f.rows
          | inr e ↦ rw e (All-append _ edges (rel ∷ []) f.rows (i, tt))
        ];
        due = elim (Bool-cases (is_node (other_end r rel.edge) nodes)) [
          | inl e ↦ rw e f.due
          | inr e ↦ rw e (All-append Due queue _ f.due ((omega arith, hop d r rel w i touch), tt))
        ];
      }

  is_node-any : (r : Ref) (nodes : List Ref) → is_node r nodes ≡ any (λ y. same_ref y r) nodes
  is_node-any r [] = refl
  is_node-any r (n ∷ nodes) = rw (same_ref_sym r n, is_node-any r nodes) refl

  grown :
      (r : Ref) (d : ℕ) (view : GraphView)
      → Sound view
      → is_node r view.nodes ≡ false
      → Due (r, d)
      → (edges : List Relationship) (truncated : Bool) → no_twins twin_rows edges ≡ true
      → All (λ rel. In rel rels) edges
      → Sound (record { nodes = view.nodes ++ (r ∷ []); edges = edges; truncated = truncated })
  grown r d view s new due edges truncated simple rows = record {
    distinct =
        no_twins-append same_ref view.nodes r s.distinct (sym (is_node-any r view.nodes) ∙ new);
    reached = All-append Reached view.nodes (r ∷ []) s.reached ((d, due.0, due.1), tt);
    simple = simple;
    rows = rows;
  }

  abbrev Next : GraphView ⊎ (Queue × GraphView) → Type 0
  Next (inl final) = Sound final × (length final.nodes ≤ max 1 max_nodes)
  Next (inr (queue, view)) = Loop queue view

  visit-Next :
      (r : Ref) (d : ℕ) (queue : Queue) (view : GraphView)
      → Loop ((r, d) ∷ queue) view
      → Next (visit rels depth max_nodes r d queue view)
  unfolding visit
  visit-Next r d queue view inv = elim (Bool-cases (is_node r view.nodes)) [
    | inl old ↦ rw old record { sound = inv.sound; due = inv.due.1; room = inv.room }
    | inr new ↦ rw new (elim (Bool-cases (leb max_nodes (length nodes))) [
      | inl full ↦ rw full (
        grown r d view inv.sound new inv.due.0 view.edges true inv.sound.simple inv.sound.rows,
        omega (arith, inv.room, length-append view.nodes (r ∷ [])),
      )
      | inr some_room ↦
          let room : length nodes < max 1 max_nodes = ground arith in
          rw some_room (elim (Bool-cases (leb depth d)) [
            | inl deep ↦ rw deep record {
              sound =
                  grown r d view inv.sound new inv.due.0 view.edges view.truncated inv.sound.simple
                    inv.sound.rows;
              due = inv.due.1;
              room = room;
            }
            | inr shallow ↦
                let f =
                  follow-Followed r d nodes (edges_for rels r) view.edges queue (ground arith)
                    inv.due.0.1 (All-edges_for _ rels r (All-of _ rels (λ a i. i)))
                    record { simple = inv.sound.simple; rows = inv.sound.rows; due = inv.due.1 } in
                rw shallow record {
                  sound = grown r d view inv.sound new inv.due.0 _ view.truncated f.simple f.rows;
                  due = f.due;
                  room = room;
                }
          ])
    ])
  ]
    where
      nodes : List Ref
      nodes = view.nodes ++ (r ∷ [])

  abbrev Capped : GraphView → Type 0
  Capped view = Sound view × (length view.nodes ≤ max 1 max_nodes)

  search_loop-Sound :
      (fuel : ℕ) (queue : Queue) (view final : GraphView)
      → Loop queue view
      → search_loop fuel rels depth max_nodes queue view ≡ some final
      → Capped final
  unfolding search_loop
  search_loop-Sound fuel [] view final inv e =
      let same : view ≡ final = cc in
      let capped : Capped view = (inv.sound, omega (arith, inv.room)) in subst Capped same capped
  search_loop-Sound zero (item ∷ queue) view final inv e = cc
  search_loop-Sound (suc fuel) ((r, d) ∷ queue) view final inv e =
      elim (turn-cases (visit rels depth max_nodes r d queue view)) [
        | inl (stop, is_stop) ↦
            let same : stop ≡ final =
              cc (e, search_loop-stop rels depth max_nodes fuel r d queue view stop is_stop) in
            let capped : Capped stop = rw is_stop at (visit-Next r d queue view inv) in
            subst Capped same capped
        | inr (queue', view', on) ↦
            search_loop-Sound fuel queue' view' final (rw on at (visit-Next r d queue view inv))
              (sym (search_loop-go rels depth max_nodes fuel r d queue queue' view view' on) ∙ e)
      ]

any-keep :
    {A : Type 0} (q p : A → Bool) (xs : List A) → any q xs ≡ false → any q (keep p xs) ≡ false
any-keep q p [] h = refl
any-keep q p (x ∷ xs) h = ground (arith, any-keep q p xs)

no_twins-keep :
    {A : Type 0} (same : A → A → Bool) (p : A → Bool) (xs : List A)
    → no_twins same xs ≡ true
    → no_twins same (keep p xs) ≡ true
no_twins-keep same p [] h = refl
no_twins-keep same p (x ∷ xs) h = ground (arith, no_twins-keep same p xs, any-keep (same x) p xs)

module _ (rels : List Relationship) (seeds : List Ref) (depth max_nodes : ℕ) where
  -- What the caller gets.
  pub record Subgraph (view : GraphView) : Type 0 where
    pub distinct : no_twins same_ref view.nodes ≡ true
    pub capped : length view.nodes ≤ max 1 max_nodes
    pub reached : All (Reached rels seeds depth max_nodes) view.nodes
    pub simple : no_twins (twin_rows rels seeds depth max_nodes) view.edges ≡ true
    pub rows : All (λ rel. In rel rels × (inner view.nodes rel ≡ true)) view.edges

  seeds-Due :
      (todo : List Ref)
      → All (λ r. In r seeds) todo
      → All (Due rels seeds depth max_nodes) (seed_queue todo)
  seeds-Due [] h = tt
  seeds-Due (r ∷ todo) h = ((omega arith, seed r h.0), seeds-Due todo h.1)

  start : Loop rels seeds depth max_nodes (seed_queue seeds) empty_view
  start = record {
    sound = record { distinct = refl; reached = tt; simple = refl; rows = tt };
    due = seeds-Due seeds (All-of (λ r. In r seeds) seeds (λ a i. i));
    room = omega arith;
  }

  trim-Subgraph : (view : GraphView) → Capped rels seeds depth max_nodes view → Subgraph (trim view)
  trim-Subgraph view (s, cap) = record {
    distinct = s.distinct;
    capped = cap;
    reached = s.reached;
    simple = no_twins-keep _ (inner view.nodes) view.edges s.simple;
    rows = All-keep _ (inner view.nodes) view.edges s.rows;
  }

  -- The traversal gives a view, and the view is a simple subgraph: its nodes are distinct, at most
  -- `max_nodes` (one at least), and each within `depth` steps of a seed; its edges are rows of the
  -- table, no edge twice, and both ends of each are nodes.
  pub bfs-Subgraph :
      (view : GraphView) × (bfs rels seeds depth max_nodes ≡ some view) × Subgraph view
  unfolding bfs
  bfs-Subgraph = elim (Option-cases loop) [
    | inl e ↦ absurd (cc (rw (e, bfs) at (bfs_ends rels seeds depth max_nodes)))
    | inr (view, e) ↦ (
      trim view,
      rw (e, bfs) refl,
      trim-Subgraph view (
          search_loop-Sound rels seeds depth max_nodes _ (seed_queue seeds) empty_view view start
            e),
    )
  ]
    where
      loop : Option GraphView
      loop =
          search_loop (length seeds + 100 * max_nodes) rels depth max_nodes (seed_queue seeds)
            empty_view
