-- ===== src/Collect/Collector.antt =====
-- collectors/common/interfaces.py: `validate` and `run` of a collector. What a subclass overrides is a
-- parameter, and each of its methods may raise. Names of keys, types and texts are only compared.
use telegram_osint.Base.{
  ℕ, zero, Bool, true, false, not, ◌&&◌, Option, none, some, List, [], ◌∷◌, ◌++◌, any, all, ltb,
  ◌==◌, if◌then◌else◌, is_some, Result, ok, err,
}

-- a value of a natural key; the text 0 is the empty one
pub data Value : Type 0 where
  null : Value
  string : ℕ → Value
  number : ℕ → Value
  items : List ℕ → Value

-- `v in (None, "", [])`
abbrev pub is_blank : Value → Bool
is_blank null = true
is_blank (string zero) = true
is_blank (items []) = true
is_blank _ = false

-- a list has no hash
abbrev pub is_hashable : Value → Bool
is_hashable (items xs) = false
is_hashable _ = true

abbrev pub same_value : Value → Value → Bool
same_value null null = true
same_value (string a) (string b) = a == b
same_value (number a) (number b) = a == b
same_value _ _ = false

abbrev pub Mapping : Type 0
Mapping = List (ℕ × Value)

-- `NormalizedRecord`; attributes and evidence are the number `body`
pub record NormalizedRecord : Type 0 where
  pub ref : ℕ
  pub entity_type : ℕ
  pub natural_key : Mapping
  pub body : ℕ

abbrev pub insert_by_key : ℕ × Value → Mapping → Mapping
insert_by_key (k, v) [] = (k, v) ∷ []
insert_by_key (k, v) ((j, w) ∷ m) =
    let rest = insert_by_key (k, v) m in if ltb k j then (k, v) ∷ (j, w) ∷ m else (j, w) ∷ rest

-- `sorted(natural_key.items())`, where no two keys are equal
unfoldable pub sort_items : Mapping → Mapping
sort_items [] = []
sort_items (kv ∷ m) = insert_by_key kv (sort_items m)

abbrev pub same_items : Mapping → Mapping → Bool
same_items [] [] = true
same_items ((k, v) ∷ m) ((j, w) ∷ n) = k == j && (same_value v w && same_items m n)
same_items _ _ = false

-- the dedup key of a record
abbrev pub Key : Type 0
Key = ℕ × Mapping

unfoldable pub key_of : NormalizedRecord → Key
key_of r = (r.entity_type, sort_items r.natural_key)

unfoldable pub same_key : Key → Key → Bool
same_key (t, m) (u, n) = t == u && same_items m n

-- `not natural_key or all(v in (None, "", []) ...)`
unfoldable pub is_unusable : NormalizedRecord → Bool
is_unusable r = all (λ (kv : ℕ × Value). is_blank kv.1) r.natural_key

unfoldable pub is_unhashable : NormalizedRecord → Bool
is_unhashable r = any (λ (kv : ℕ × Value). not (is_hashable kv.1)) r.natural_key

-- what a call raises: `CollectorError`, the `TypeError` of a key without hash, or another exception
pub data Raised : Type 0 where
  collector_error : ℕ → Raised
  type_error : Raised
  exception : ℕ → Raised

-- the loop of `validate`: the keys seen and the records kept
unfoldable pub validate_loop :
    List NormalizedRecord → List Key → List NormalizedRecord → Result Raised (List NormalizedRecord)
validate_loop [] seen out = ok out
validate_loop (r ∷ records) seen out =
    let skip = validate_loop records seen out in
    let take_it = validate_loop records (seen ++ (key_of r ∷ [])) (out ++ (r ∷ [])) in
    if is_unusable r
    then skip
    else if is_unhashable r
    then err type_error
    else if any (same_key (key_of r)) seen
    then skip
    else take_it

-- `validate`
unfoldable pub validate : List NormalizedRecord → Result Raised (List NormalizedRecord)
unfolding validate_loop
validate records = validate_loop records [] []

-- `RawBundle`, whose payload is a number
pub record RawBundle : Type 0 where
  pub payload : ℕ
  pub partial : Bool
  pub error : Option ℕ
  pub notes : List ℕ

-- the text of `CollectResult.error`
pub data Failure : Type 0 where
  unsupported_kind : ℕ → Failure
  message : ℕ → Failure
  described : ℕ → Failure
  unhashable : Failure

-- `CollectResult`
pub record CollectResult : Type 0 where
  pub source : ℕ
  pub ok' : Bool
  pub records : List NormalizedRecord
  pub relationships : List ℕ
  pub partial : Bool
  pub error : Option Failure
  pub notes : List ℕ

-- what a subclass gives
pub record Source : Type 0 where
  pub source_type : ℕ
  pub supported_kinds : List ℕ
  pub collect : ℕ → Result Raised RawBundle
  pub normalize : RawBundle → Result Raised (List NormalizedRecord)
  pub relationships : RawBundle → List NormalizedRecord → Result Raised (List ℕ)

-- `supports`
unfoldable pub supports : Source → ℕ → Bool
supports c kind = any (λ k. k == kind) c.supported_kinds

abbrev pub failed : Source → Failure → CollectResult
failed c e = record {
  source = c.source_type;
  ok' = false;
  records = [];
  relationships = [];
  partial = false;
  error = some e;
  notes = [];
}

abbrev pub describe : Raised → Failure
describe (collector_error m) = message m
describe type_error = unhashable
describe (exception e) = described e

abbrev pub error_of : Option ℕ → Option Failure
error_of none = none
error_of (some e) = some (message e)

-- `run`, once the raw data is there
unfoldable pub assemble : Source → RawBundle → Result Raised CollectResult
assemble c raw = elim (c.normalize raw) [
  | err e ↦ err e
  | ok normalized ↦ elim (validate normalized) [
    | err e ↦ err e
    | ok records ↦ elim (c.relationships raw records) [
      | err e ↦ err e
      | ok rels ↦ ok (record {
        source = c.source_type;
        ok' = not (is_some raw.error);
        records = records;
        relationships = rels;
        partial = raw.partial;
        error = error_of raw.error;
        notes = raw.notes;
      })
    ]
  ]
]

-- `run`
unfoldable pub run : Source → ℕ → ℕ → Result Raised CollectResult
unfolding assemble
run c kind request =
    if not (supports c kind)
    then ok (failed c (unsupported_kind kind))
    else elim (c.collect request) [ err e ↦ ok (failed c (describe e)) | ok raw ↦ assemble c raw ]
