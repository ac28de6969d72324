-- ===== src/Entities/Telegram.antt =====
-- `_resolve_telegram_entity`, the `get_or_create` of accounts, groups and channels. No other session writes
-- meanwhile. The columns that are only stored are the number `fields`; the empty text is 0.
use telegram_osint.Base.{
  ℕ, Bool, true, false, Option, none, some, List, [], ◌∷◌, ◌++◌, map, keep, ◌==◌, if◌then◌else◌,
  is_some, Result, ok, err,
}

-- the columns of `TelegramAccount`, `TelegramGroup` and `TelegramChannel` that are read
pub record TelegramEntity : Type 0 where
  pub telegram_id : Option ℕ
  pub username : Option ℕ
  pub username_normalized : Option ℕ
  pub fields : ℕ

-- `MultipleResultsFound`, and the `ValueError` of a missing key and of a username that is a malformed URL
pub data EntityError : Type 0 where
  multiple_results : EntityError
  key_required : EntityError
  invalid_username : EntityError

-- the column that a query compares
pub data Key : Type 0 where
  by_id : ℕ → Key
  by_username : ℕ → Key

abbrev pub is_value : ℕ → Option ℕ → Bool
is_value k none = false
is_value k (some v) = v == k

abbrev pub has_key : Key → TelegramEntity → Bool
has_key (by_id t) r = is_value t r.telegram_id
has_key (by_username n) r = is_value n r.username_normalized

-- `scalar_one_or_none`
abbrev pub one_of_rows :
    Key → List TelegramEntity → Result EntityError (Option (Key × TelegramEntity))
one_of_rows key [] = ok none
one_of_rows key (r ∷ []) = ok (some (key, r))
one_of_rows key (r ∷ s ∷ rows) = err multiple_results

unfoldable pub query :
    Key → List TelegramEntity → Result EntityError (Option (Key × TelegramEntity))
query key rows = one_of_rows key (keep (has_key key) rows)

-- the query of a key that may be missing
unfoldable pub query_given :
    Option Key → List TelegramEntity → Result EntityError (Option (Key × TelegramEntity))
query_given none rows = ok none
query_given (some key) rows = query key rows

-- the queries by id, and then by username
unfoldable pub find_entity :
    Option Key
    → Option Key
    → List TelegramEntity
    → Result EntityError (Option (Key × TelegramEntity))
find_entity id_key name_key rows = elim (query_given id_key rows) [
  | err e ↦ err e
  | ok (some hit) ↦ ok (some hit)
  | ok none ↦ query_given name_key rows
]

-- `x if known is None`
abbrev pub backfill_value : Option ℕ → Option ℕ → Option ℕ
backfill_value none new = new
backfill_value (some old) new = some old

-- what becomes of a row that was found
unfoldable pub backfill : Option ℕ → Option ℕ → Option ℕ → TelegramEntity → TelegramEntity
backfill telegram_id username norm r = record r {
  telegram_id = backfill_value r.telegram_id telegram_id;
  username =
      if is_some norm
      then (if is_some r.username_normalized then r.username else username)
      else r.username;
  username_normalized = backfill_value r.username_normalized norm;
}

-- the write to the row that was found by a key
unfoldable pub replace : Key → TelegramEntity → List TelegramEntity → List TelegramEntity
replace key new rows = map (λ r. if has_key key r then new else r) rows

abbrev pub key_of : (ℕ → Key) → Option ℕ → Option Key
key_of f none = none
key_of f (some v) = some (f v)

-- `normalize_username(username) if username else None`, where `normalize_username` may raise
abbrev pub norm_of : (ℕ → Option ℕ) → Option ℕ → Result EntityError (Option ℕ)
norm_of normalize_username none = ok none
norm_of normalize_username (some u) =
    if u == 0
    then ok none
    else elim (normalize_username u) [ none ↦ err invalid_username | some n ↦ ok (some n) ]

-- the new row; one of the keys is needed
unfoldable pub create_entity :
    Option ℕ
    → Option ℕ
    → Option ℕ
    → ℕ
    → List TelegramEntity
    → Result EntityError ((TelegramEntity × Bool) × List TelegramEntity)
create_entity none username none fields rows = err key_required
create_entity telegram_id username norm fields rows =
    let new : TelegramEntity = record {
      telegram_id = telegram_id;
      username = username;
      username_normalized = norm;
      fields = fields;
    } in
    ok ((new, true), rows ++ (new ∷ []))

-- the body of `_resolve_telegram_entity`, given the normalised username
unfoldable pub resolve_by_keys :
    Option ℕ
    → Option ℕ
    → Option ℕ
    → ℕ
    → List TelegramEntity
    → Result EntityError ((TelegramEntity × Bool) × List TelegramEntity)
resolve_by_keys telegram_id username norm fields rows =
    elim (find_entity (key_of by_id telegram_id) (key_of by_username norm) rows) [
      | err e ↦ err e
      | ok none ↦ create_entity telegram_id username norm fields rows
      | ok (some hit) ↦
          let new = backfill telegram_id username norm hit.1 in
          ok ((new, false), replace hit.0 new rows)
    ]

-- `_resolve_telegram_entity`: the row, whether it is new, and the table
unfoldable pub resolve_telegram_entity :
    (ℕ → Option ℕ)
    → Option ℕ
    → Option ℕ
    → ℕ
    → List TelegramEntity
    → Result EntityError ((TelegramEntity × Bool) × List TelegramEntity)
resolve_telegram_entity normalize_username telegram_id username fields rows =
    elim (norm_of normalize_username username) [
      | err e ↦ err e
      | ok norm ↦ resolve_by_keys telegram_id username norm fields rows
    ]
