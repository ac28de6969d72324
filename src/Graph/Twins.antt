-- ===== src/Graph/Twins.antt =====
-- Two entities with the same observation cannot be merged.
use telegram_osint.Base.{
  no_twins, ℕ, ◌≡◌, refl, sym, ap, ◌∙◌, ◌≢◌, Bool, true, false, some, List, [], ◌∷◌, map, any, ◌==◌,
  err, arith, Bool-cases, inl, inr, In,
}
use telegram_osint.Graph.Refs.{Ref, same_ref, same_ref_refl}
use telegram_osint.Graph.Merge.{
  Evidence, Tables, integrity_error, repoint_evidence, same_observation, merge_entities,
}

any-map :
    {A : Type 0} (p : A → Bool) (f : A → A) (xs : List A) (a : A)
    → In a xs
    → p (f a) ≡ true
    → any p (map f xs) ≡ true
any-map p f [] a i h = elim i [ ]
any-map p f (x ∷ xs) a (inl e) h = rw (← e, h) refl
any-map p f (x ∷ xs) a (inr i) h = rw (any-map p f xs a i h) (ground arith)

no_twins-map :
    {A : Type 0} (same : A → A → Bool) (f : A → A) (xs : List A) (a b : A)
    → In a xs
    → In b xs
    → a ≢ b
    → same (f a) (f b) ≡ true
    → same (f b) (f a) ≡ true
    → no_twins same (map f xs) ≡ false
no_twins-map same f [] a b i j ne h h' = elim i [ ]
no_twins-map same f (x ∷ xs) a b (inl e) (inl e') ne h h' = absurd (ne (e ∙ sym e'))
no_twins-map same f (x ∷ xs) a b (inl e) (inr j) ne h h' =
    rw (← e, any-map (same (f a)) f xs b j h) refl
no_twins-map same f (x ∷ xs) a b (inr i) (inl e) ne h h' =
    rw (← e, any-map (same (f b)) f xs a i h') refl
no_twins-map same f (x ∷ xs) a b (inr i) (inr j) ne h h' =
    rw (no_twins-map same f xs a b i j ne h h') (ground arith)

repoint_keeps :
    (k d : Ref) (ev : Evidence)
    → let ev' = repoint_evidence k d ev in
      (ev'.field ≡ ev.field) × (ev'.source ≡ ev.source) × (ev'.content_hash ≡ ev.content_hash)
repoint_keeps k d ev = elim (Bool-cases (same_ref ev.entity d)) [
  | inl at ↦ rw at (refl, refl, refl)
  | inr ne ↦ rw ne (refl, refl, refl)
]

repoint_kept : (k d : Ref) (ev : Evidence) → ev.entity ≡ k → (repoint_evidence k d ev).entity ≡ k
repoint_kept k d ev e = elim (Bool-cases (same_ref ev.entity d)) [
  | inl at ↦ rw at refl
  | inr ne ↦ rw ne e
]

repoint_dropped : (k d : Ref) (ev : Evidence) → ev.entity ≡ d → (repoint_evidence k d ev).entity ≡ k
repoint_dropped k d ev e =
    let at : same_ref ev.entity d ≡ true = rw e (same_ref_refl d) in rw at refl

twins :
    (a b : Evidence) (field : ℕ)
    → a.entity ≡ b.entity
    → a.field ≡ some field
    → b.field ≡ some field
    → a.source ≡ b.source
    → a.content_hash ≡ b.content_hash
    → same_observation a b ≡ true
twins a b field e fa fb s h = rw (e, fa, fb, s, h) (rw (same_ref_refl b.entity) (ground arith))

merge_refused :
    (now : ℕ) (k d : Ref) (tables : Tables)
    → (k.0 == d.0) ≡ true
    → (k.1 == d.1) ≡ false
    → no_twins same_observation (map (repoint_evidence k d) tables.evidence) ≡ false
    → merge_entities now k d tables ≡ err integrity_error
unfolding merge_entities
merge_refused now k d tables types ids twin = ground arith

-- Two entities of one type about which one source recorded the same value of a field cannot be merged:
-- the repointed evidence would break the unique constraint, and the merge raises.
pub merge_twin_evidence :
    (now : ℕ) (keep_ref drop : Ref) (tables : Tables) (a b : Evidence) (field : ℕ)
    → keep_ref.0 ≡ drop.0
    → keep_ref.1 ≢ drop.1
    → In a tables.evidence
    → In b tables.evidence
    → a.entity ≡ keep_ref
    → b.entity ≡ drop
    → a.field ≡ some field
    → b.field ≡ some field
    → a.source ≡ b.source
    → a.content_hash ≡ b.content_hash
    → merge_entities now keep_ref drop tables ≡ err integrity_error
merge_twin_evidence now k d tables a b field types ids ia ib ka db fa fb src hash =
    let (fa', sa', ha') = repoint_keeps k d a in
    let (fb', sb', hb') = repoint_keeps k d b in
    let a' = repoint_evidence k d a in
    let b' = repoint_evidence k d b in
    let same : a'.entity ≡ b'.entity = repoint_kept k d a ka ∙ sym (repoint_dropped k d b db) in
    let source : a'.source ≡ b'.source = sa' ∙ src ∙ sym sb' in
    let hash' : a'.content_hash ≡ b'.content_hash = ha' ∙ hash ∙ sym hb' in
    merge_refused now k d tables (ground arith) (ground arith) (
      no_twins-map same_observation (repoint_evidence k d) tables.evidence a b ia ib
        (λ e. ids (ap (λ r. r.1) (sym ka ∙ ap (λ ev. ev.entity) e ∙ db)))
        (twins a' b' field same (fa' ∙ fa) (fb' ∙ fb) source hash')
        (twins b' a' field (sym same) (fb' ∙ fb) (fa' ∙ fa) (sym source) (sym hash')))
