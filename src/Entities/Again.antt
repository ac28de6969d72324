-- ===== src/Entities/Again.antt =====
-- The same call once more finds the row and changes nothing.
use telegram_osint.Base.{
  ℕ, ◌≡◌, refl, ◌∙◌, ap, Bool, true, false, ◌||◌, Option, none, some, List, [], ◌∷◌, ◌++◌, map,
  keep, ltb, length, is_some, Result, ok, err, arith, Bool-cases, Result-cases, inl, inr,
}
use telegram_osint.Entities.Telegram.{
  TelegramEntity, EntityError, multiple_results, key_required, invalid_username, Key, by_id,
  by_username, has_key, query, query_given, find_entity, backfill, replace, key_of, norm_of,
  create_entity, resolve_by_keys, resolve_telegram_entity,
}
use telegram_osint.Entities.Found.{
  keep-swap_new, keep-swap_none, keep-append_new, query-cases, query_one, query_none,
  backfill_again,
}
use telegram_osint.Entities.Written.{Written, resolve_by_keys-Written}
use telegram_osint.Entities.Created.{settle, keep-replace, created, backfill-created}

-- a key that more than one row has
abbrev pub any_many : Option Key → List TelegramEntity → Bool
any_many none rows = false
any_many (some key) rows = ltb 1 (length (keep (has_key key) rows))

-- What the same call finds after a call with these keys, the normalised username among them.
unfoldable pub Again :
    Option ℕ
    → Option ℕ
    → Option ℕ
    → ℕ
    → List TelegramEntity
    → Result EntityError ((TelegramEntity × Bool) × List TelegramEntity)
    → Type 0
Again t u n fields rows (ok ((row, is_new), out)) =
    resolve_by_keys t u n fields out ≡ ok ((row, false), out)
Again t u n fields rows (err key_required) = (is_some t || is_some n) ≡ false
Again t u n fields rows (err invalid_username) = ⊥
Again t u n fields rows (err multiple_results) =
    (any_many (key_of by_id t) rows || any_many (key_of by_username n) rows) ≡ true

find_by_id :
    (k : ℕ) (name_key : Option Key) (rows : List TelegramEntity) (r : TelegramEntity)
    → keep (has_key (by_id k)) rows ≡ r ∷ []
    → find_entity (some (by_id k)) name_key rows ≡ ok (some (by_id k, r))
unfolding find_entity query_given
find_by_id k name_key rows r h = rw (query_one (by_id k) rows r h, find_entity) refl

-- no row has the id, if one is given
abbrev Unknown : Option ℕ → List TelegramEntity → Type 0
Unknown none rows = Unit
Unknown (some k) rows = keep (has_key (by_id k)) rows ≡ []

find_after_id :
    (t : Option ℕ) (name_key : Option Key) (rows : List TelegramEntity)
    → Unknown t rows
    → find_entity (key_of by_id t) name_key rows ≡ query_given name_key rows
unfolding find_entity query_given
find_after_id none name_key rows h = refl
find_after_id (some k) name_key rows h = rw (query_none (by_id k) rows h, find_entity) refl

by_id-Again :
    (k : ℕ) (u n : Option ℕ) (fields : ℕ) (rows : List TelegramEntity) (obj : TelegramEntity)
    → keep (has_key (by_id k)) rows ≡ obj ∷ []
    → Again (some k) u n fields rows (resolve_by_keys (some k) u n fields rows)
unfolding Again resolve_by_keys
by_id-Again k u n fields rows obj h =
    let out = replace (by_id k) (backfill (some k) u n obj) rows in
    let kept = keep-replace (some k) u n fields (by_id k) obj rows h in
    rw (find_by_id k (key_of by_username n) rows obj h, resolve_by_keys)
      (settle (some k) u n fields (by_id k) _ out (find_by_id k (key_of by_username n) out _ kept)
        kept (backfill_again (some k) u n obj))

-- the row that the username led to is found again, by whichever key
by_name_found :
    (t u : Option ℕ) (m fields : ℕ) (rows : List TelegramEntity) (obj : TelegramEntity)
    → Unknown t rows
    → keep (has_key (by_username m)) rows ≡ obj ∷ []
    → let new = backfill t u (some m) obj in
      resolve_by_keys t u (some m) fields (replace (by_username m) new rows)
      ≡ ok ((new, false), replace (by_username m) new rows)
unfolding query_given replace
by_name_found none u m fields rows obj unknown h =
    let out = replace (by_username m) (backfill none u (some m) obj) rows in
    let kept = keep-replace none u (some m) fields (by_username m) obj rows h in
    settle none u (some m) fields (by_username m) _ out
      (find_after_id none (some (by_username m)) out tt ∙ query_one (by_username m) out _ kept) kept
      (backfill_again none u (some m) obj)
by_name_found (some k) u m fields rows obj unknown h =
    let new = backfill (some k) u (some m) obj in
    let out = replace (by_username m) new rows in
    let kept = keep-replace (some k) u (some m) fields (by_username m) obj rows h in
    elim (Bool-cases (has_key (by_id k) new)) [
      | inl e ↦
          let by_its_id =
            keep-swap_new (has_key (by_username m)) (has_key (by_id k)) new rows unknown e
            ∙ ap (map (λ r. new)) h in
          settle (some k) u (some m) fields (by_id k) new out
            (find_by_id k (some (by_username m)) out new by_its_id) by_its_id
            (backfill_again (some k) u (some m) obj)
      | inr e ↦
          let none_there =
            keep-swap_none (has_key (by_username m)) (has_key (by_id k)) new rows unknown e in
          settle (some k) u (some m) fields (by_username m) new out
            (find_after_id (some k) (some (by_username m)) out none_there
              ∙ query_one (by_username m) out new kept)
            kept (backfill_again (some k) u (some m) obj)
    ]

-- the new row is found by its own key
created_by_id :
    (k : ℕ) (u n : Option ℕ) (fields : ℕ) (rows : List TelegramEntity)
    → keep (has_key (by_id k)) rows ≡ []
    → let new = created (some k) u n fields in
      resolve_by_keys (some k) u n fields (rows ++ (new ∷ []))
      ≡ ok ((new, false), rows ++ (new ∷ []))
created_by_id k u n fields rows h =
    let new = created (some k) u n fields in
    let kept = keep-append_new (has_key (by_id k)) new rows h (ground arith) in
    settle (some k) u n fields (by_id k) new (rows ++ (new ∷ []))
      (find_by_id k (key_of by_username n) (rows ++ (new ∷ [])) new kept) kept
      (backfill-created (some k) u n fields)

created_by_name :
    (m : ℕ) (u : Option ℕ) (fields : ℕ) (rows : List TelegramEntity)
    → keep (has_key (by_username m)) rows ≡ []
    → let new = created none u (some m) fields in
      resolve_by_keys none u (some m) fields (rows ++ (new ∷ []))
      ≡ ok ((new, false), rows ++ (new ∷ []))
unfolding query_given
created_by_name m u fields rows h =
    let new = created none u (some m) fields in
    let kept = keep-append_new (has_key (by_username m)) new rows h (ground arith) in
    settle none u (some m) fields (by_username m) new (rows ++ (new ∷ []))
      (find_after_id none (some (by_username m)) (rows ++ (new ∷ [])) tt
        ∙ query_one (by_username m) (rows ++ (new ∷ [])) new kept)
      kept (backfill-created none u (some m) fields)

-- without a row of the id
by_name-Again :
    (t u n : Option ℕ) (fields : ℕ) (rows : List TelegramEntity)
    → Unknown t rows
    → Again t u n fields rows (resolve_by_keys t u n fields rows)
unfolding Again resolve_by_keys query_given create_entity
by_name-Again none u none fields rows h = rw (find_after_id none none rows h, resolve_by_keys) refl
by_name-Again (some k) u none fields rows h =
    rw (find_after_id (some k) none rows h, resolve_by_keys) (created_by_id k u none fields rows h)
by_name-Again none u (some m) fields rows h = elim (query-cases (by_username m) rows) [
  | inl (e, q) ↦
      rw (find_after_id none (some (by_username m)) rows h ∙ q, resolve_by_keys)
        (created_by_name m u fields rows e)
  | inr (inl (obj, e, q)) ↦
      rw (find_after_id none (some (by_username m)) rows h ∙ q, resolve_by_keys)
        (by_name_found none u m fields rows obj h e)
  | inr (inr (e, q)) ↦
      rw (find_after_id none (some (by_username m)) rows h ∙ q, resolve_by_keys) (ground (arith, e))
]
by_name-Again (some k) u (some m) fields rows h = elim (query-cases (by_username m) rows) [
  | inl (e, q) ↦
      rw (find_after_id (some k) (some (by_username m)) rows h ∙ q, resolve_by_keys)
        (created_by_id k u (some m) fields rows h)
  | inr (inl (obj, e, q)) ↦
      rw (find_after_id (some k) (some (by_username m)) rows h ∙ q, resolve_by_keys)
        (by_name_found (some k) u m fields rows obj h e)
  | inr (inr (e, q)) ↦
      rw (find_after_id (some k) (some (by_username m)) rows h ∙ q, resolve_by_keys)
        (ground (arith, e))
]

many_ids-Again :
    (k : ℕ) (u n : Option ℕ) (fields : ℕ) (rows : List TelegramEntity)
    → ltb 1 (length (keep (has_key (by_id k)) rows)) ≡ true
    → query (by_id k) rows ≡ err multiple_results
    → Again (some k) u n fields rows (resolve_by_keys (some k) u n fields rows)
unfolding Again resolve_by_keys find_entity query_given
many_ids-Again k u n fields rows e q =
    let raised : find_entity (some (by_id k)) (key_of by_username n) rows ≡ err multiple_results =
      rw (q, find_entity) refl in
    rw (raised, resolve_by_keys) (rw e refl)

resolve_by_keys-Again :
    (t u n : Option ℕ) (fields : ℕ) (rows : List TelegramEntity)
    → Again t u n fields rows (resolve_by_keys t u n fields rows)
resolve_by_keys-Again none u n fields rows = by_name-Again none u n fields rows tt
resolve_by_keys-Again (some k) u n fields rows = elim (query-cases (by_id k) rows) [
  | inl (e, q) ↦ by_name-Again (some k) u n fields rows e
  | inr (inl (obj, e, q)) ↦ by_id-Again k u n fields rows obj e
  | inr (inr (e, q)) ↦ many_ids-Again k u n fields rows e q
]

-- How a call of `get_or_create` ends: by the error of the normalisation, or with a normalised username.
unfoldable pub Resolved :
    Option ℕ
    → Option ℕ
    → ℕ
    → List TelegramEntity
    → Result EntityError (Option ℕ)
    → Result EntityError ((TelegramEntity × Bool) × List TelegramEntity)
    → Type 0
Resolved t u fields rows (err e) r = r ≡ err e
Resolved t u fields rows (ok n) r = Again t u n fields rows r × Written t u n fields rows r

-- A call of `get_or_create` raises only if the username does not normalise, for want of a key, or if an id
-- or a normalised username is in several rows. Any other call returns a new row of the values given, put
-- after the others, or a row that was in the table with just the keys filled in that it lacked; and it
-- leaves a table in which the same call finds the same row, makes no new one and changes nothing.
pub resolve_telegram_entity-Again :
    (normalize_username : ℕ → Option ℕ) (t u : Option ℕ) (fields : ℕ) (rows : List TelegramEntity)
    → Resolved t u fields rows
        (norm_of normalize_username u)
        (resolve_telegram_entity normalize_username t u fields rows)
unfolding resolve_telegram_entity Resolved
resolve_telegram_entity-Again normalize_username t u fields rows =
    elim (Result-cases (norm_of normalize_username u)) [
      | inr (e, q) ↦ rw (q, resolve_telegram_entity) refl
      | inl (n, q) ↦
          rw (q, resolve_telegram_entity)
            (resolve_by_keys-Again t u n fields rows, resolve_by_keys-Written t u n fields rows)
    ]
