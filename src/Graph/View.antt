-- ===== src/Graph/View.antt =====
-- The traversal ends, and its view is a simple subgraph within the caps.
use telegram_osint.Base.{
  ℕ, zero, suc, ◌+◌, ◌-◌, ◌*◌, ◌≤◌, ◌≡◌, refl, ap, true, Option, some, List, [], ◌∷◌, ◌++◌, keep,
  length, length-append, length-take, ◌⊎◌, inl, inr, arith, Bool-cases, is_some, Option-cases,
}
use telegram_osint.Graph.Refs.{Ref}
use telegram_osint.Graph.Edges.{Relationship}
use telegram_osint.Graph.Merge.{touches}
use telegram_osint.Graph.Traversal.{
  GraphView, Queue, order_by_confidence, edges_for, other_end, is_node, follow, visit, search_loop,
  empty_view, seed_queue, bfs,
}

length-follow-le :
    (r : Ref) (d : ℕ) (nodes : List Ref) (rels edges : List Relationship) (queue : Queue)
    → length (follow r d nodes rels edges queue).1 ≤ length queue + length rels
unfolding follow
length-follow-le r d nodes [] edges queue = omega arith
length-follow-le r d nodes (rel ∷ rels) edges queue =
    elim (Bool-cases (is_node (other_end r rel.edge) nodes)) [
      | inl known ↦ rw (known, length) (omega (arith, length-follow-le r d nodes rels _ queue))
      | inr new ↦
          rw (new, length)
            (omega (
              arith,
              length-follow-le r d nodes rels _ (queue ++ ((other_end r rel.edge, d + 1) ∷ [])),
              length-append queue ((other_end r rel.edge, d + 1) ∷ []),
            ))
    ]

length-edges_for-le : (rels : List Relationship) (r : Ref) → length (edges_for rels r) ≤ 100
unfolding edges_for
length-edges_for-le rels r =
    omega (arith, length-take 100 (order_by_confidence (keep (λ rel. touches r rel.edge) rels)))

pub turn-cases :
    (t : GraphView ⊎ (Queue × GraphView))
    → ((final : GraphView) × (t ≡ inl final))
      ⊎ ((queue : Queue) × (view : GraphView) × (t ≡ inr (queue, view)))
turn-cases (inl final) = inl (final, refl)
turn-cases (inr (queue, view)) = inr (queue, view, refl)

-- what is left to do, in turns
abbrev work : ℕ → Queue → GraphView → ℕ
work max_nodes queue view = length queue + 100 * (max_nodes - length view.nodes)

module _ (rels : List Relationship) (depth max_nodes : ℕ) where
  visit_works :
      (r : Ref) (d : ℕ) (queue queue' : Queue) (view view' : GraphView)
      → visit rels depth max_nodes r d queue view ≡ inr (queue', view')
      → suc (work max_nodes queue' view') ≤ work max_nodes ((r, d) ∷ queue) view
  unfolding visit
  visit_works r d queue queue' view view' e = ground (
    arith,
    length-append view.nodes (r ∷ []),
    length-edges_for-le rels r,
    length-follow-le r d (view.nodes ++ (r ∷ [])) (edges_for rels r) view.edges queue,
  )

  pub search_loop-stop :
      (fuel : ℕ) (r : Ref) (d : ℕ) (queue : Queue) (view final : GraphView)
      → visit rels depth max_nodes r d queue view ≡ inl final
      → search_loop (suc fuel) rels depth max_nodes ((r, d) ∷ queue) view ≡ some final
  unfolding search_loop
  search_loop-stop fuel r d queue view final e = rw (e, search_loop) refl

  pub search_loop-go :
      (fuel : ℕ) (r : Ref) (d : ℕ) (queue queue' : Queue) (view view' : GraphView)
      → visit rels depth max_nodes r d queue view ≡ inr (queue', view')
      → search_loop (suc fuel) rels depth max_nodes ((r, d) ∷ queue) view
        ≡ search_loop fuel rels depth max_nodes queue' view'
  unfolding search_loop
  search_loop-go fuel r d queue queue' view view' e = rw (e, search_loop) refl

  search_loop_ends :
      (fuel : ℕ) (queue : Queue) (view : GraphView)
      → work max_nodes queue view ≤ fuel
      → is_some (search_loop fuel rels depth max_nodes queue view) ≡ true
  unfolding search_loop
  search_loop_ends fuel [] view h = refl
  search_loop_ends zero (item ∷ queue) view h = absurd (omega arith)
  search_loop_ends (suc fuel) ((r, d) ∷ queue) view h =
      elim (turn-cases (visit rels depth max_nodes r d queue view)) [
        | inl (final, e) ↦ rw (search_loop-stop fuel r d queue view final e) refl
        | inr (queue', view', e) ↦ rw (search_loop-go fuel r d queue queue' view view' e) (
            search_loop_ends fuel queue' view'
              (omega (arith, visit_works r d queue queue' view view' e)))
      ]

length-seed_queue : (seeds : List Ref) → length (seed_queue seeds) ≡ length seeds
length-seed_queue [] = refl
length-seed_queue (r ∷ seeds) = ap suc (length-seed_queue seeds)

-- The traversal ends: from any seeds and with any caps it gives a view.
pub bfs_ends :
    (rels : List Relationship) (seeds : List Ref) (depth max_nodes : ℕ)
    → is_some (bfs rels seeds depth max_nodes) ≡ true
unfolding bfs
bfs_ends rels seeds depth max_nodes = elim (Option-cases loop) [
  | inl e ↦ absurd (cc (e, ends))
  | inr (view, e) ↦ rw (e, bfs) refl
]
  where
    loop : Option GraphView
    loop =
        search_loop (length seeds + 100 * max_nodes) rels depth max_nodes (seed_queue seeds)
          empty_view

    ends : is_some loop ≡ true
    ends =
        search_loop_ends rels depth max_nodes (length seeds + 100 * max_nodes) (seed_queue seeds)
          empty_view (omega (arith, length-seed_queue seeds))
