-- ===== src/Collect/Collected.antt =====
-- What `validate` lets through, and when `run` raises.
use telegram_osint.Base.{
  ℕ, ◌≡◌, refl, ap, ◌∙◌, Bool, true, false, not, ◌||◌, List, [], ◌∷◌, ◌++◌, map, any, All, ok,
  Bool-cases, inl, inr, ◌⊎◌, arith, ◌==◌,
}
use telegram_osint.Collect.Collector.{
  Value, null, string, number, items, is_hashable, same_value, Mapping, insert_by_key, sort_items,
  same_items, NormalizedRecord, Key, key_of, same_key, is_unusable, is_unhashable, validate_loop,
  validate,
}

-- the keys of records, in order
abbrev pub keys : List NormalizedRecord → List Key
keys records = map key_of records

-- no key twice, by the comparison of the code: none is among those before it
pub data Fresh : List NormalizedRecord → Type 0 where
  nil : Fresh []
  snoc :
      (out : List NormalizedRecord) (r : NormalizedRecord)
      → Fresh out
      → any (same_key (key_of r)) (keys out) ≡ false
      → Fresh (out ++ (r ∷ []))

keys-append :
    (out : List NormalizedRecord) (r : NormalizedRecord)
    → keys (out ++ (r ∷ [])) ≡ keys out ++ (key_of r ∷ [])
keys-append [] r = refl
keys-append (x ∷ out) r = ap (◌∷◌ (key_of x)) (keys-append out r)

-- What `validate` gives for some records.
pub record Valid (out : List NormalizedRecord) : Type 0 where
  pub fresh : Fresh out
  pub usable : All (λ r. (is_unusable r ≡ false) × (is_unhashable r ≡ false)) out

usable_snoc :
    (out : List NormalizedRecord) (r : NormalizedRecord)
    → All (λ r. (is_unusable r ≡ false) × (is_unhashable r ≡ false)) out
    → is_unusable r ≡ false
    → is_unhashable r ≡ false
    → All (λ r. (is_unusable r ≡ false) × (is_unhashable r ≡ false)) (out ++ (r ∷ []))
usable_snoc [] r h a b = ((a, b), tt)
usable_snoc (x ∷ out) r h a b = (h.0, usable_snoc out r h.1 a b)

eq_self : (a : ℕ) → (a == a) ≡ true
eq_self a = ground arith

-- does a value of the key have no hash
abbrev unhashable : Mapping → Bool
unhashable m = any (λ (kv : ℕ × Value). not (is_hashable kv.1)) m

same_value_hashable : (v : Value) → is_hashable v ≡ true → same_value v v ≡ true
same_value_hashable null h = refl
same_value_hashable (string a) h = eq_self a
same_value_hashable (number a) h = eq_self a
same_value_hashable (items xs) h = cc

same_items_hashable : (m : Mapping) → unhashable m ≡ false → same_items m m ≡ true
same_items_hashable [] h = refl
same_items_hashable ((k, v) ∷ m) h =
    let value : is_hashable v ≡ true = ground arith in
    let rest : unhashable m ≡ false = ground arith in
    rw (eq_self k, same_value_hashable v value) (same_items_hashable m rest)

unhashable-insert_by_key :
    (k : ℕ) (v : Value) (m : Mapping)
    → unhashable (insert_by_key (k, v) m) ≡ (not (is_hashable v) || unhashable m)
unhashable-insert_by_key k v [] = refl
unhashable-insert_by_key k v ((j, w) ∷ m) = ground (arith, unhashable-insert_by_key k v m)

unhashable-sort_items : (m : Mapping) → unhashable (sort_items m) ≡ unhashable m
unfolding sort_items
unhashable-sort_items [] = refl
unhashable-sort_items ((k, v) ∷ m) =
    unhashable-insert_by_key k v (sort_items m) ∙ rw (unhashable-sort_items m) refl

same_key_self :
    (r : NormalizedRecord) → is_unhashable r ≡ false → same_key (key_of r) (key_of r) ≡ true
unfolding same_key key_of is_unhashable
same_key_self r h =
    rw (eq_self r.entity_type)
      (same_items_hashable (sort_items r.natural_key) (unhashable-sort_items r.natural_key ∙ h))

any-append :
    {A : Type 0} (p : A → Bool) (xs : List A) (x : A) → any p (xs ++ (x ∷ [])) ≡ (any p xs || p x)
any-append p [] x = ground arith
any-append p (y ∷ xs) x = ground (arith, any-append p xs x)

-- The record was dropped as unusable, or a record with its key is there.
abbrev pub Represented : List NormalizedRecord → NormalizedRecord → Type 0
Represented out r = (is_unusable r ≡ true) ⊎ (any (same_key (key_of r)) (keys out) ≡ true)

-- The outcome of the loop on the records left.
record Outcome (records out : List NormalizedRecord) : Type 0 where
  result : List NormalizedRecord
  returned : validate_loop records (keys out) out ≡ ok result
  valid : Valid result
  kept : (k : Key) → any (same_key k) (keys out) ≡ true → any (same_key k) (keys result) ≡ true
  represented : All (Represented result) records

skipped :
    (r : NormalizedRecord) (records out : List NormalizedRecord) (o : Outcome records out)
    → validate_loop (r ∷ records) (keys out) out ≡ validate_loop records (keys out) out
    → Represented o.result r
    → Outcome (r ∷ records) out
skipped r records out o e h = record {
  result = o.result;
  returned = e ∙ o.returned;
  valid = o.valid;
  kept = o.kept;
  represented = (h, o.represented);
}

validate_loop_ends :
    (records out : List NormalizedRecord)
    → All (λ r. is_unhashable r ≡ false) records
    → Valid out
    → Outcome records out
unfolding validate_loop
validate_loop_ends [] out h v = record {
  result = out;
  returned = refl;
  valid = v;
  kept = λ k i. i;
  represented = tt;
}
validate_loop_ends (r ∷ records) out (hashable, h) v = elim (Bool-cases (is_unusable r)) [
  | inl unusable ↦
      skipped r records out (validate_loop_ends records out h v) (rw unusable refl) (inl unusable)
  | inr usable ↦ elim (Bool-cases (any (same_key (key_of r)) (keys out))) [
    | inl old ↦
        let o = validate_loop_ends records out h v in
        skipped r records out o (rw (usable, hashable, old) refl) (inr (o.kept (key_of r) old))
    | inr new ↦
        let longer : Valid (out ++ (r ∷ [])) = record {
          fresh = snoc out r v.fresh new;
          usable = usable_snoc out r v.usable usable hashable;
        } in
        let o = validate_loop_ends records (out ++ (r ∷ [])) h longer in
        let grown : (k : Key)
            → any (same_key k) (keys (out ++ (r ∷ [])))
              ≡ (any (same_key k) (keys out) || same_key k (key_of r)) =
          λ k. rw (keys-append out r) (any-append (same_key k) (keys out) (key_of r)) in
        let self : any (same_key (key_of r)) (keys (out ++ (r ∷ []))) ≡ true =
          grown (key_of r) ∙ rw (same_key_self r hashable) (ground arith) in
        record {
          result = o.result;
          returned = rw (usable, hashable, new) (rw (keys-append out r) at o.returned);
          valid = o.valid;
          kept = λ k i. o.kept k (grown k ∙ rw i refl);
          represented = (inr (o.kept (key_of r) self), o.represented);
        }
  ]
]

-- If no natural key holds a list, `validate` returns records whose keys are all different and usable,
-- and every record given was unusable or has its key among them.
pub validate-Valid :
    (records : List NormalizedRecord)
    → All (λ r. is_unhashable r ≡ false) records
    → (out : List NormalizedRecord) × (validate records ≡ ok out)
      × Valid out
      × All (Represented out) records
unfolding validate
validate-Valid records h =
    let o = validate_loop_ends records [] h (record { fresh = nil; usable = tt }) in
    (o.result, o.returned, o.valid, o.represented)
