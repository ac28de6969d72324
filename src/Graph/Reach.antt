-- ===== src/Graph/Reach.antt =====
-- Reachability along rows of the table, and lists that the traversal filters, sorts and cuts.
use telegram_osint.Base.{
  ℕ, ◌+◌, ◌≡◌, refl, Bool, true, false, ◌||◌, List, [], ◌∷◌, ◌++◌, any, ltb, inl, inr, arith,
  Bool-cases, All, All-take, All-keep, no_twins, In,
}
use telegram_osint.Graph.Refs.{Ref}
use telegram_osint.Graph.Edges.{Relationship}
use telegram_osint.Graph.Merge.{touches}
use telegram_osint.Graph.Traversal.{insert_by_confidence, order_by_confidence, edges_for, other_end}

-- The entity `r` is `d` steps along rows of the table from a seed.
pub data Within (rels : List Relationship) (seeds : List Ref) : ℕ → Ref → Type 0 where
  seed : (r : Ref) → In r seeds → Within rels seeds 0 r
  hop :
      (d : ℕ) (r : Ref) (rel : Relationship)
      → Within rels seeds d r
      → In rel rels
      → touches r rel.edge ≡ true
      → Within rels seeds (d + 1) (other_end r rel.edge)

module _ (P : Relationship → Type 0) where
  All-insert_by_confidence :
      (rel : Relationship) (rels : List Relationship)
      → P rel
      → All P rels
      → All P (insert_by_confidence rel rels)
  All-insert_by_confidence rel [] p h = (p, tt)
  All-insert_by_confidence rel (r ∷ rels) p h =
      elim (Bool-cases (ltb rel.confidence r.confidence)) [
        | inl e ↦ rw e (h.0, All-insert_by_confidence rel rels p h.1)
        | inr e ↦ rw e (p, h)
      ]

  All-order_by_confidence :
      (rels : List Relationship) → All P rels → All P (order_by_confidence rels)
  All-order_by_confidence [] h = tt
  All-order_by_confidence (rel ∷ rels) h =
      All-insert_by_confidence rel (order_by_confidence rels) h.0 (All-order_by_confidence rels h.1)

pub All-edges_for :
    (P : Relationship → Type 0) (rels : List Relationship) (r : Ref)
    → All P rels
    → All (λ rel. P rel × (touches r rel.edge ≡ true)) (edges_for rels r)
unfolding edges_for
All-edges_for P rels r h =
    All-take _ 100 _ (All-order_by_confidence _ _ (All-keep P (λ rel. touches r rel.edge) rels h))

pub All-of : {A : Type 0} (P : A → Type 0) (xs : List A) → ((a : A) → In a xs → P a) → All P xs
All-of P [] f = tt
All-of P (x ∷ xs) f = (f x (inl refl), All-of P xs (λ a i. f a (inr i)))

any-append :
    {A : Type 0} (p : A → Bool) (xs : List A) (x : A) → any p (xs ++ (x ∷ [])) ≡ (any p xs || p x)
any-append p [] x = ground arith
any-append p (y ∷ xs) x = ground (arith, any-append p xs x)

pub no_twins-append :
    {A : Type 0} (same : A → A → Bool) (xs : List A) (x : A)
    → no_twins same xs ≡ true
    → any (λ y. same y x) xs ≡ false
    → no_twins same (xs ++ (x ∷ [])) ≡ true
no_twins-append same [] x h k = refl
no_twins-append same (y ∷ xs) x h k =
    ground (arith, no_twins-append same xs x, any-append (same y) xs x)
