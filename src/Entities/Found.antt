-- ===== src/Entities/Found.antt =====
-- The rows that a key finds, before and after a write.
use telegram_osint.Base.{
  ℕ, ◌≡◌, refl, sym, ◌∙◌, ap, Bool, true, false, Option, none, some, List, [], ◌∷◌, ◌++◌, map, keep,
  if◌then◌else◌, ltb, length, is_some, ok, err, arith, Bool-cases, inl, inr, ◌⊎◌,
}
use mathlib.Core.Path.{subst}
use telegram_osint.Entities.Telegram.{
  TelegramEntity, multiple_results, Key, by_id, by_username, is_value, has_key, one_of_rows, query,
  backfill_value, backfill,
}

module _ {A : Type 0} (p q : A → Bool) (new : A) where
  -- the rows that pass `p` give way to `new`
  abbrev pub swap : List A → List A
  swap rows = map (λ r. if p r then new else r) rows

  pub keep-swap_new :
      (rows : List A)
      → keep q rows ≡ []
      → q new ≡ true
      → keep q (swap rows) ≡ map (λ r. new) (keep p rows)
  keep-swap_new [] h e = refl
  keep-swap_new (r ∷ rows) h e = ground (arith, h, e, keep-swap_new rows)

  pub keep-swap_none : (rows : List A) → keep q rows ≡ [] → q new ≡ false → keep q (swap rows) ≡ []
  keep-swap_none [] h e = refl
  keep-swap_none (r ∷ rows) h e = ground (arith, h, e, keep-swap_none rows)

module _ {A : Type 0} (p : A → Bool) (new : A) where
  pub keep-swap_same :
      (rows : List A) → p new ≡ true → keep p (swap p p new rows) ≡ map (λ r. new) (keep p rows)
  keep-swap_same [] e = refl
  keep-swap_same (r ∷ rows) e = ground (arith, e, keep-swap_same rows)

  swap_absent : (rows : List A) → keep p rows ≡ [] → swap p p new rows ≡ rows
  swap_absent [] h = refl
  swap_absent (r ∷ rows) h = ground (arith, h, swap_absent rows)

  pub swap_again : (rows : List A) → keep p rows ≡ new ∷ [] → swap p p new rows ≡ rows
  swap_again [] h = refl
  swap_again (r ∷ rows) h = ground (arith, h, swap_absent rows, swap_again rows)

  pub keep-append_new :
      (rows : List A) → keep p rows ≡ [] → p new ≡ true → keep p (rows ++ (new ∷ [])) ≡ new ∷ []
  keep-append_new [] h e = rw e refl
  keep-append_new (r ∷ rows) h e = ground (arith, h, e, keep-append_new rows)

  head_or : List A → A
  head_or [] = new
  head_or (x ∷ xs) = x

  pub keep-head : (rows : List A) → keep p rows ≡ new ∷ [] → p new ≡ true
  unfolding head_or
  keep-head [] h = ground (arith, h)
  keep-head (r ∷ rows) h = elim (Bool-cases (p r)) [
    | inl e ↦
        let here : keep p (r ∷ rows) ≡ r ∷ keep p rows = rw e refl in
        subst (λ x. p x ≡ true) (ap head_or (sym here ∙ h)) e
    | inr e ↦ ground (arith, e, h, keep-head rows)
  ]

-- how a query ends
one_of_rows-cases :
    (key : Key) (found : List TelegramEntity)
    → ((found ≡ []) × (one_of_rows key found ≡ ok none))
      ⊎ (((r : TelegramEntity) × (found ≡ r ∷ []) × (one_of_rows key found ≡ ok (some (key, r))))
          ⊎ ((ltb 1 (length found) ≡ true) × (one_of_rows key found ≡ err multiple_results)))
one_of_rows-cases key [] = inl (refl, refl)
one_of_rows-cases key (r ∷ []) = inr (inl (r, refl, refl))
one_of_rows-cases key (r ∷ s ∷ rows) = inr (inr (ground arith, refl))

pub query-cases :
    (key : Key) (rows : List TelegramEntity)
    → ((keep (has_key key) rows ≡ []) × (query key rows ≡ ok none))
      ⊎ (((r : TelegramEntity) × (keep (has_key key) rows ≡ r ∷ [])
            × (query key rows ≡ ok (some (key, r))))
          ⊎ ((ltb 1 (length (keep (has_key key) rows)) ≡ true)
              × (query key rows ≡ err multiple_results)))
unfolding query
query-cases key rows = one_of_rows-cases key (keep (has_key key) rows)

pub query_one :
    (key : Key) (rows : List TelegramEntity) (r : TelegramEntity)
    → keep (has_key key) rows ≡ r ∷ []
    → query key rows ≡ ok (some (key, r))
unfolding query
query_one key rows r h = ap (one_of_rows key) h

pub query_none :
    (key : Key) (rows : List TelegramEntity)
    → keep (has_key key) rows ≡ []
    → query key rows ≡ ok none
unfolding query
query_none key rows h = ap (one_of_rows key) h

backfill_value_again : (a b : Option ℕ) → backfill_value (backfill_value a b) b ≡ backfill_value a b
backfill_value_again none none = refl
backfill_value_again none (some b) = refl
backfill_value_again (some a) b = refl

username_again :
    (old new norm known : Option ℕ)
    → let first : Option ℕ = if is_some norm then (if is_some known then old else new) else old in
      (if is_some norm then (if is_some (backfill_value known norm) then first else new) else first)
      ≡ first
username_again old new none known = refl
username_again old new (some n) none = refl
username_again old new (some n) (some k) = refl

pub backfill_again :
    (t u n : Option ℕ) (r : TelegramEntity) → backfill t u n (backfill t u n r) ≡ backfill t u n r
unfolding backfill
backfill_again t u n r = λ i. record {
  telegram_id = backfill_value_again r.telegram_id t i;
  username = username_again r.username u n r.username_normalized i;
  username_normalized = backfill_value_again r.username_normalized n i;
  fields = r.fields;
}

is_value-backfill :
    (k : ℕ) (a b : Option ℕ) → is_value k a ≡ true → is_value k (backfill_value a b) ≡ true
is_value-backfill k none b h = ground (arith, h)
is_value-backfill k (some a) b h = h

-- a row keeps the keys it has
pub has_key-backfill :
    (key : Key) (t u n : Option ℕ) (r : TelegramEntity)
    → has_key key r ≡ true
    → has_key key (backfill t u n r) ≡ true
unfolding backfill
has_key-backfill (by_id k) t u n r h = is_value-backfill k r.telegram_id t h
has_key-backfill (by_username k) t u n r h = is_value-backfill k r.username_normalized n h
