-- ===== src/Workspace/Limit.antt =====
-- The limit of the watchlist, on every outcome of `add`.
use telegram_osint.Base.{
  ◌∙◌, ◌&&◌, ap, keep, ℕ, ◌+◌, ◌≤◌, ◌<◌, ◌≡◌, refl, Bool, true, false, Option, none, some, List, [],
  ◌∷◌, ◌++◌, any, length, length-map, ◌==◌, Result, ok, err, arith, leb→le, Bool-cases,
  Option-cases, inl, inr,
}
use mathlib.Core.Option
use telegram_osint.Workspace.Rows.{
  find_of-update_of, WorkspaceError, invalid_value, user_id_required, watchlist_limit_reached,
  integrity_error, find_of, update_of, add_row,
}
use telegram_osint.Workspace.Targets.{TargetKind, Texts, normalize_for_kind}
use telegram_osint.Workspace.Watchlists.{
  WatchEntry, count_active, is_entry, set_active, limit_of, is_full, add,
}
use telegram_osint.Workspace.Commands.{committed}
use telegram_osint.Workspace.Active.{
  count_active-actives, actives-append, is_dormant, actives-update_of-le, actives-update_of-lt,
  WithinLimit,
}

-- a write to some entries leaves the others as they were
keep-update_of :
    (q : WatchEntry → Bool) (user : ℕ) (p : WatchEntry → Bool) (rows : List WatchEntry)
    → ((v : WatchEntry)
        → (v.user_id == user && p v) ≡ true
        → (q v ≡ false) × (q (set_active true v) ≡ false))
    → keep q (update_of (λ w. w.user_id) user p (set_active true) rows) ≡ keep q rows
unfolding update_of
keep-update_of q user p [] apart = refl
keep-update_of q user p (v ∷ rows) apart = elim (Bool-cases (v.user_id == user && p v)) [
  | inl e ↦ let (old, new) = apart v e in rw (e, old, new) (keep-update_of q user p rows apart)
  | inr e ↦ rw e (elim (Bool-cases (q v)) [
    | inl y ↦ rw y (ap (◌∷◌ v) (keep-update_of q user p rows apart))
    | inr n ↦ rw n (keep-update_of q user p rows apart)
  ])
]

-- What `add` does for a user's entry on each of its outcomes.
unfoldable pub Added :
    Bool
    → ℕ
    → Option ℕ
    → (WatchEntry → Bool)
    → List WatchEntry
    → Result WorkspaceError ((WatchEntry × Bool) × List WatchEntry)
    → Type 0
Added bad user max_targets p rows (ok ((w, true), rows')) =
    (find_of (λ w. w.user_id) user p rows ≡ none)
    × (rows' ≡ rows ++ (w ∷ []))
    × (count_active user rows' ≡ count_active user rows + 1)
    × WithinLimit max_targets (count_active user rows')
Added bad user max_targets p rows (ok ((w, false), rows')) =
    (find_of (λ w. w.user_id) user p rows' ≡ some w)
    × (Option.map (set_active true) (find_of (λ w. w.user_id) user p rows) ≡ some w)
    × (w.is_active ≡ true)
    × ((q : WatchEntry → Bool)
        → ((v : WatchEntry)
            → (v.user_id == user && p v) ≡ true
            → (q v ≡ false) × (q (set_active true v) ≡ false))
        → keep q rows' ≡ keep q rows)
    × (length rows' ≡ length rows)
    × (count_active user rows ≤ count_active user rows')
Added bad user max_targets p rows (err (watchlist_limit_reached m)) =
    (find_of (λ w. w.user_id) user p rows ≡ none)
    × (max_targets ≡ some m)
    × (m ≤ count_active user rows)
Added bad user max_targets p rows (err integrity_error) =
    find_of (λ w. w.user_id) user p rows ≡ none
Added bad user max_targets p rows (err user_id_required) = ⊥
Added bad user max_targets p rows (err invalid_value) = bad ≡ true

update_of-Added :
    (user : ℕ) (max_targets : Option ℕ) (p : WatchEntry → Bool) (rows : List WatchEntry)
    (w : WatchEntry)
    → ((v : WatchEntry) → p (set_active true v) ≡ p v)
    → find_of (λ w. w.user_id) user p rows ≡ some w
    → Added false user max_targets p rows
        (ok ((set_active true w, false), update_of (λ w. w.user_id) user p (set_active true) rows))
unfolding Added update_of
update_of-Added user max_targets p rows w same e = (
  find_of-update_of (λ w. w.user_id) user p (set_active true) rows (λ v. refl) same ∙ rw e refl,
  rw e refl,
  refl,
  (λ q apart. keep-update_of q user p rows apart),
  length-map _ rows,
  omega (
    arith,
    count_active-actives user rows,
    count_active-actives user (update_of (λ w. w.user_id) user p (set_active true) rows),
    actives-update_of-le user p rows,
  ),
)

count_active-append :
    (user : ℕ) (w : WatchEntry) (rows : List WatchEntry)
    → w.user_id ≡ user
    → w.is_active ≡ true
    → count_active user (rows ++ (w ∷ [])) ≡ count_active user rows + 1
count_active-append user w rows e active = ground (
  arith,
  count_active-actives user (rows ++ (w ∷ [])),
  count_active-actives user rows,
  actives-append user w rows,
)

full_limit :
    (user : ℕ) (max_targets : Option ℕ) (rows : List WatchEntry)
    → is_full user max_targets rows ≡ true
    → (max_targets ≡ some (limit_of max_targets)) × (limit_of max_targets ≤ count_active user rows)
unfolding is_full
full_limit user none rows h = ground arith
full_limit user (some m) rows h = (refl, leb→le m _ h)

room_left :
    (user : ℕ) (max_targets : Option ℕ) (rows : List WatchEntry)
    → is_full user max_targets rows ≡ false
    → WithinLimit max_targets (count_active user rows + 1)
unfolding is_full WithinLimit
room_left user none rows h = tt
room_left user (some m) rows h = ground arith

append-Added :
    (user : ℕ) (max_targets : Option ℕ) (p : WatchEntry → Bool) (rows : List WatchEntry)
    (w : WatchEntry)
    → find_of (λ w. w.user_id) user p rows ≡ none
    → is_full user max_targets rows ≡ false
    → w.user_id ≡ user
    → w.is_active ≡ true
    → Added false user max_targets p rows (ok ((w, true), rows ++ (w ∷ [])))
unfolding Added
append-Added user max_targets p rows w e h own active = (
  e,
  refl,
  count_active-append user w rows own active,
  rw (count_active-append user w rows own active) (room_left user max_targets rows h),
)

refused-Added :
    (user : ℕ) (max_targets : Option ℕ) (p : WatchEntry → Bool) (rows : List WatchEntry)
    → find_of (λ w. w.user_id) user p rows ≡ none
    → is_full user max_targets rows ≡ true
    → Added false user max_targets p rows (err (watchlist_limit_reached (limit_of max_targets)))
unfolding Added
refused-Added user max_targets p rows e h =
    let full = full_limit user max_targets rows h in (e, full.0, full.1)

taken-Added :
    (user : ℕ) (max_targets : Option ℕ) (p : WatchEntry → Bool) (rows : List WatchEntry)
    → find_of (λ w. w.user_id) user p rows ≡ none
    → Added false user max_targets p rows (err integrity_error)
unfolding Added
taken-Added user max_targets p rows e = e

-- `add` has five outcomes. The normalisation raises only for a value that does not normalise. A new entry is
-- made only if the user has none for the value, is put after the rows, counts one more active entry and
-- stays within the limit. An entry that exists stands in the table made active, with its other columns kept;
-- no row is added, and the rows of other entries stay. The limit is reported only if there is no entry for
-- the value and the user has that many active ones. A primary key that is taken is reported only if there is
-- no entry for the value.
pub add-Added :
    (texts : Texts) (now user id : ℕ) (kind : TargetKind) (value : ℕ) (sources : List ℕ)
    (target_id max_targets : Option ℕ) (rows : List WatchEntry)
    → Added
        (texts.normalize_raises kind value)
        user
        max_targets
        (is_entry kind (normalize_for_kind texts kind value))
        rows
        (add texts now user id kind value sources target_id max_targets rows)
unfolding add add_row Added
add-Added texts now user id kind value sources target_id max_targets rows =
    elim (Bool-cases (texts.normalize_raises kind value)) [
      | inl h ↦ rw (h, add) refl
      | inr free ↦
          let p = is_entry kind (normalize_for_kind texts kind value) in
          elim (Option-cases (find_of (λ w. w.user_id) user p rows)) [
            | inr (w, e) ↦
                rw (free, e, add) (update_of-Added user max_targets p rows w (λ v. refl) e)
            | inl e ↦
                rw (free, e, add)
                  (elim (Bool-cases (is_full user max_targets rows)) [
                    | inl h ↦ rw h (refused-Added user max_targets p rows e h)
                    | inr h ↦ rw h (elim (Bool-cases (any (λ (w : WatchEntry). w.id == id) rows)) [
                      | inl h' ↦ rw h' (taken-Added user max_targets p rows e)
                      | inr h' ↦ rw h' (append-Added user max_targets p rows _ e h refl refl)
                    ])
                  ])
          ]
    ]

-- An entry that was removed and is added again, by a value that normalises, is made active without a look at the limit: if the user
-- already has as many active entries as the limit allows, there are more afterwards.
pub re_add_exceeds :
    (texts : Texts) (now user id : ℕ) (kind : TargetKind) (value : ℕ) (sources : List ℕ)
    (target_id : Option ℕ) (m : ℕ) (rows : List WatchEntry) (w : WatchEntry)
    → texts.normalize_raises kind value ≡ false
    → find_of (λ w. w.user_id) user (is_entry kind (normalize_for_kind texts kind value)) rows
      ≡ some w
    → w.is_active ≡ false
    → m ≤ count_active user rows
    → m
      < count_active user (
          committed
            (λ out. out.1)
            rows
            (add texts now user id kind value sources target_id (some m) rows))
unfolding add is_dormant
re_add_exceeds texts now user id kind value sources target_id m rows w free e inactive full =
    let p = is_entry kind (normalize_for_kind texts kind value) in
    let dormant : is_dormant (find_of (λ w. w.user_id) user p rows) ≡ true =
      rw (e, inactive) refl in
    rw (free, e, committed, add)
      (omega (
        arith,
        full,
        count_active-actives user rows,
        count_active-actives user (update_of (λ w. w.user_id) user p (set_active true) rows),
        actives-update_of-lt user p rows dormant,
      ))
