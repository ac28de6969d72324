-- ===== src/Workspace/Targets.antt =====
-- `TargetRepository`. A kind is a value of `TargetKind`; the text functions are an interface.
use telegram_osint.Base.{
  if◌then◌else◌, ℕ, Bool, true, false, not, ◌&&◌, Option, none, some, List, keep, take, ◌==◌,
  is_some, Result, ok, err,
}
use telegram_osint.Base.Sorting.{newest_first}
use telegram_osint.Workspace.Rows.{
  WorkspaceError, invalid_value, rows_of, find_of, update_of, add_row,
}

-- `TargetKind`
pub data TargetKind : Type 0 where
  telegram_user : TargetKind
  telegram_id : TargetKind
  username : TargetKind
  domain : TargetKind
  email : TargetKind
  phone : TargetKind
  generic : TargetKind

abbrev pub number : TargetKind → ℕ
number telegram_user = 0
number telegram_id = 1
number username = 2
number domain = 3
number email = 4
number phone = 5
number generic = 6

abbrev pub same_kind : TargetKind → TargetKind → Bool
same_kind j k = number j == number k

-- the functions of database/normalize.py, and `str.strip`. A normaliser that splits a URL may raise:
-- `normalize_raises` says for which values of which kind.
pub record Texts : Type 0 where
  pub strip : ℕ → ℕ
  pub normalize_raises : TargetKind → ℕ → Bool
  pub normalize_domain : ℕ → ℕ
  pub normalize_email : ℕ → ℕ
  pub normalize_username : ℕ → ℕ

-- `_normalize_for_kind`
unfoldable pub normalize_for_kind : Texts → TargetKind → ℕ → ℕ
normalize_for_kind texts domain value = texts.normalize_domain value
normalize_for_kind texts email value = texts.normalize_email value
normalize_for_kind texts telegram_id value = texts.strip value
normalize_for_kind texts _ value = texts.normalize_username value

-- `Target`
pub record Target : Type 0 where
  pub id : ℕ
  pub user_id : ℕ
  pub kind : TargetKind
  pub value : ℕ
  pub value_normalized : ℕ
  pub label : Option ℕ
  pub created_at : ℕ
  pub deleted_at : Option ℕ

abbrev pub is_kept : Target → Bool
is_kept t = not (is_some t.deleted_at)

-- `get`
unfoldable pub get_target : ℕ → ℕ → List Target → Option Target
unfolding find_of
get_target user id rows = find_of (λ t. t.user_id) user (λ t. t.id == id && is_kept t) rows

-- `list`
unfoldable pub list_targets : ℕ → ℕ → List Target → List Target
list_targets user limit rows =
    take limit
      (newest_first (λ t. t.created_at) (keep is_kept (rows_of (λ t. t.user_id) user rows)))

abbrev pub is_value : TargetKind → ℕ → Target → Bool
is_value kind norm t = same_kind t.kind kind && t.value_normalized == norm

restored : Target → Target
restored t = record t { deleted_at = none }

-- `get_or_create`: the row, whether it is new, and the table
unfoldable pub get_or_create :
    Texts
    → ℕ
    → ℕ
    → ℕ
    → TargetKind
    → ℕ
    → Option ℕ
    → List Target
    → Result WorkspaceError ((Target × Bool) × List Target)
unfolding restored
get_or_create texts now user id kind value label rows =
    let norm = normalize_for_kind texts kind value in
    let new : Target = record {
      id = id;
      user_id = user;
      kind = kind;
      value = texts.strip value;
      value_normalized = norm;
      label = label;
      created_at = now;
      deleted_at = none;
    } in
    if texts.normalize_raises kind value
    then err invalid_value
    else elim (find_of (λ t. t.user_id) user (is_value kind norm) rows) [
      | some t ↦
          ok (
            (restored t, false),
            update_of (λ t. t.user_id) user (is_value kind norm) restored rows,
          )
      | none ↦ elim (add_row (λ t. t.user_id) (λ t. t.id) new rows) [
        | err e ↦ err e
        | ok rows' ↦ ok ((new, true), rows')
      ]
    ]

deleted : ℕ → Target → Target
deleted now t = record t { deleted_at = some now }

-- `soft_delete`
unfoldable pub soft_delete : ℕ → ℕ → ℕ → List Target → Bool × List Target
unfolding deleted
soft_delete now user id rows = elim (get_target user id rows) [
  | none ↦ (false, rows)
  | some t ↦
      (true, update_of (λ t. t.user_id) user (λ t. t.id == id && is_kept t) (deleted now) rows)
]
