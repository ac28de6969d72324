-- ===== src/Entities/Written.antt =====
-- What a call of `get_or_create` writes: a new row, or the keys that the row found did not have.
use telegram_osint.Base.{
  ℕ, ◌≡◌, refl, sym, ◌∙◌, Bool, true, false, not, ◌&&◌, Option, none, some, List, [], ◌∷◌, ◌++◌,
  keep, In, if◌then◌else◌, is_some, Result, ok, err, Bool-cases, Result-cases, inl, inr,
}
use mathlib.Core.Path.{subst}
use telegram_osint.Entities.Telegram.{
  TelegramEntity, EntityError, Key, by_id, by_username, has_key, query, query_given, find_entity,
  backfill, backfill_value, key_of, create_entity, resolve_by_keys,
}
use telegram_osint.Entities.Found.{query-cases}
use telegram_osint.Entities.Created.{created}

-- A row after the keys that it lacked were filled in.
pub record Filled (t u n : Option ℕ) (old new : TelegramEntity) : Type 0 where
  pub telegram_id : new.telegram_id ≡ (if is_some old.telegram_id then old.telegram_id else t)
  pub username_normalized :
      new.username_normalized
      ≡ (if is_some old.username_normalized then old.username_normalized else n)
  pub username :
      new.username
      ≡ (if is_some n && not (is_some old.username_normalized) then u else old.username)
  pub fields : new.fields ≡ old.fields

-- What a call with these keys has written.
unfoldable pub Written :
    Option ℕ
    → Option ℕ
    → Option ℕ
    → ℕ
    → List TelegramEntity
    → Result EntityError ((TelegramEntity × Bool) × List TelegramEntity)
    → Type 0
Written t u n fields rows (ok ((row, true), out)) =
    (row ≡ created t u n fields) × (out ≡ rows ++ (row ∷ []))
Written t u n fields rows (ok ((row, false), out)) =
    (old : TelegramEntity) × In old rows × Filled t u n old row
Written t u n fields rows (err e) = Unit

backfill_value_lem : (a b : Option ℕ) → backfill_value a b ≡ (if is_some a then a else b)
backfill_value_lem none b = refl
backfill_value_lem (some a) b = refl

username_lem :
    (old new n known : Option ℕ)
    → (if is_some n then (if is_some known then old else new) else old)
      ≡ (if is_some n && not (is_some known) then new else old)
username_lem old new none known = refl
username_lem old new (some n) none = refl
username_lem old new (some n) (some k) = refl

backfill-Filled : (t u n : Option ℕ) (old : TelegramEntity) → Filled t u n old (backfill t u n old)
unfolding backfill
backfill-Filled t u n old = record {
  telegram_id = backfill_value_lem old.telegram_id t;
  username_normalized = backfill_value_lem old.username_normalized n;
  username = username_lem old.username u n old.username_normalized;
  fields = refl;
}

kept :
    (p : TelegramEntity → Bool) (r : TelegramEntity) (rows : List TelegramEntity)
    → p r ≡ true
    → keep p (r ∷ rows) ≡ r ∷ keep p rows
kept p r rows e = rw e refl

skipped :
    (p : TelegramEntity → Bool) (r : TelegramEntity) (rows : List TelegramEntity)
    → p r ≡ false
    → keep p (r ∷ rows) ≡ keep p rows
skipped p r rows e = rw e refl

In-keep :
    (p : TelegramEntity → Bool) (x : TelegramEntity) (rows : List TelegramEntity)
    → In x (keep p rows)
    → In x rows
In-keep p x [] h = h
In-keep p x (r ∷ rows) h = elim (Bool-cases (p r)) [
  | inr e ↦ inr (In-keep p x rows (subst (λ l. In x l) (skipped p r rows e) h))
  | inl e ↦ elim (subst (λ l. In x l) (kept p r rows e) h) [
    | inl at ↦ inl at
    | inr i ↦ inr (In-keep p x rows i)
  ]
]

query-In :
    (key k : Key) (rows : List TelegramEntity) (old : TelegramEntity)
    → query key rows ≡ ok (some (k, old))
    → In old rows
query-In key k rows old h = elim (query-cases key rows) [
  | inl (e, q) ↦ absurd (cc (h, q))
  | inr (inl (r, e, q)) ↦
      let at : old ≡ r = cc (h, q) in
      In-keep (has_key key) old rows (subst (λ l. In old l) (sym e) (inl at))
  | inr (inr (e, q)) ↦ absurd (cc (h, q))
]

query_given-In :
    (key : Option Key) (k : Key) (rows : List TelegramEntity) (old : TelegramEntity)
    → query_given key rows ≡ ok (some (k, old))
    → In old rows
unfolding query_given
query_given-In none k rows old h = absurd (cc h)
query_given-In (some key) k rows old h = query-In key k rows old h

-- the row that was found is in the table
find_entity-In :
    (id_key name_key : Option Key) (k : Key) (rows : List TelegramEntity) (old : TelegramEntity)
    → find_entity id_key name_key rows ≡ ok (some (k, old))
    → In old rows
unfolding find_entity
find_entity-In id_key name_key k rows old h = elim (Result-cases (query_given id_key rows)) [
  | inr (e, q) ↦ absurd (cc (h, raised e q))
  | inl (none, q) ↦ query_given-In name_key k rows old (sym (passed q) ∙ h)
  | inl (some (j, r), q) ↦
      let at : r ≡ old = cc (h, hit j r q) in
      subst (λ x. In x rows) at (query_given-In id_key j rows r q)
]
  where
    raised :
        (e : EntityError)
        → query_given id_key rows ≡ err e
        → find_entity id_key name_key rows ≡ err e
    raised e q = rw (q, find_entity) refl

    passed :
        query_given id_key rows ≡ ok none
        → find_entity id_key name_key rows ≡ query_given name_key rows
    passed q = rw (q, find_entity) refl

    hit :
        (j : Key) (r : TelegramEntity)
        → query_given id_key rows ≡ ok (some (j, r))
        → find_entity id_key name_key rows ≡ ok (some (j, r))
    hit j r q = rw (q, find_entity) refl

create_entity-Written :
    (t u n : Option ℕ) (fields : ℕ) (rows : List TelegramEntity)
    → Written t u n fields rows (create_entity t u n fields rows)
unfolding Written create_entity
create_entity-Written none u none fields rows = tt
create_entity-Written (some k) u n fields rows = (refl, refl)
create_entity-Written none u (some m) fields rows = (refl, refl)

pub resolve_by_keys-Written :
    (t u n : Option ℕ) (fields : ℕ) (rows : List TelegramEntity)
    → Written t u n fields rows (resolve_by_keys t u n fields rows)
unfolding Written resolve_by_keys
resolve_by_keys-Written t u n fields rows =
    elim (Result-cases (find_entity (key_of by_id t) (key_of by_username n) rows)) [
      | inr (e, q) ↦ rw (q, resolve_by_keys) tt
      | inl (none, q) ↦ rw (q, resolve_by_keys) (create_entity-Written t u n fields rows)
      | inl (some (k, old), q) ↦
          rw (q, resolve_by_keys)
            (
              old,
              find_entity-In (key_of by_id t) (key_of by_username n) k rows old q,
              backfill-Filled t u n old,
            )
    ]
