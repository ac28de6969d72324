-- ===== src/Monitor/Poll.antt =====
-- The poll of one watchlist entry and its schedule. The marker, which the code keeps as JSON text, is a
-- record of the two values that are read; what collection and ingestion leave in the database (the
-- container and its messages, the platforms found) is an argument. Texts are only compared, so numbers
-- stand for them, and the platforms are in the order of their numbers.
use telegram_osint.Base.{
  ℕ, ◌+◌, max, Bool, true, not, ◌&&◌, Option, none, some, List, [], ◌∷◌, ◌++◌, map, keep, any, take,
  ltb, leb, ◌==◌, if◌then◌else◌, or_else,
}

-- `Watchlist.last_seen_marker`: `telegram_max_msg_id` and `platforms`
pub record Marker : Type 0 where
  pub telegram_max_msg_id : Option ℕ
  pub platforms : Option (List ℕ)

-- the columns of `Watchlist` that are read here
pub record Watch : Type 0 where
  pub id : ℕ
  pub is_active : Bool
  pub last_checked_at : Option ℕ
  pub last_seen_marker : Option Marker

-- `Activity`: a new message, by its number, or a new account, by its platform
pub data Activity : Type 0 where
  message : Bool → ℕ → Activity
  account : ℕ → Activity

pub record PollResult : Type 0 where
  pub activities : List Activity
  pub notes : List ℕ

-- what a collector and the ingestion of its result leave: an error, no container, or the numbers of the
-- messages of a channel (`true`) or group in the order of the query
pub data TelegramView : Type 0 where
  telegram_error : ℕ → TelegramView
  no_container : TelegramView
  container : Bool → List ℕ → TelegramView

-- no collector, an error, or the platforms of the accounts found
pub data PlatformView : Type 0 where
  no_collector : PlatformView
  platform_error : ℕ → PlatformView
  found_on : List ℕ → PlatformView

-- the loop over the messages: the greatest number, and the activities
unfoldable pub scan_messages : Bool → ℕ → List ℕ → ℕ → List Activity → ℕ × List Activity
scan_messages is_channel seen_max [] new_max acts = (new_max, acts)
scan_messages is_channel seen_max (m ∷ rows) new_max acts =
    if leb m seen_max
    then scan_messages is_channel seen_max rows new_max acts
    else scan_messages is_channel seen_max rows (max new_max m)
        (acts ++ (message is_channel m ∷ []))

-- `_poll_telegram`
unfoldable pub poll_telegram : TelegramView → Marker → PollResult → Marker × PollResult
poll_telegram (telegram_error e) marker result =
    (marker, record result { notes = result.notes ++ (e ∷ []) })
poll_telegram no_container marker result = (marker, result)
poll_telegram (container is_channel rows) marker result =
    let seen_max = or_else marker.telegram_max_msg_id 0 in
    let (new_max, acts) = scan_messages is_channel seen_max rows seen_max result.activities in
    (record marker { telegram_max_msg_id = some new_max }, record result { activities = acts })

-- a set of platforms, as its sorted list
abbrev pub is_member : ℕ → List ℕ → Bool
is_member p ps = any (λ q. q == p) ps

abbrev pub add_sorted : ℕ → List ℕ → List ℕ
add_sorted p [] = p ∷ []
add_sorted p (q ∷ ps) =
    let rest = add_sorted p ps in
    if ltb p q then p ∷ q ∷ ps else if p == q then q ∷ ps else q ∷ rest

-- `sorted(set(ps) | base)`
unfoldable pub sorted_union : List ℕ → List ℕ → List ℕ
sorted_union [] base = base
sorted_union (p ∷ ps) base = add_sorted p (sorted_union ps base)

-- `sorted(found - known)`
unfoldable pub new_platforms : List ℕ → List ℕ → List ℕ
new_platforms found known = keep (λ p. not (is_member p known)) (sorted_union found [])

-- `_poll_username_platforms`
unfoldable pub poll_username_platforms : PlatformView → Marker → PollResult → Marker × PollResult
poll_username_platforms no_collector marker result = (marker, result)
poll_username_platforms (platform_error e) marker result =
    (marker, record result { notes = result.notes ++ (e ∷ []) })
poll_username_platforms (found_on found) marker result =
    let known = or_else marker.platforms [] in
    (
      record marker { platforms = some (sorted_union known (sorted_union found [])) },
      record result { activities = result.activities ++ map account (new_platforms found known) },
    )

abbrev pub no_marker : Marker
no_marker = record { telegram_max_msg_id = none; platforms = none }

-- `poll`
unfoldable pub poll : ℕ → TelegramView → PlatformView → Watch → Watch × PollResult
poll now telegram platforms entry =
    let marker = or_else entry.last_seen_marker no_marker in
    let (marker₁, result₁) =
      poll_telegram telegram marker (record { activities = []; notes = [] }) in
    let (marker₂, result₂) = poll_username_platforms platforms marker₁ result₁ in
    (record entry { last_seen_marker = some marker₂; last_checked_at = some now }, result₂)

abbrev pub is_older : ℕ → ℕ → Option ℕ → Bool
is_older now interval none = true
is_older now interval (some t) = ltb (t + interval) now

-- `due_watchlist_ids`, in the order of the table
unfoldable pub due_watchlist_ids : ℕ → ℕ → ℕ → List Watch → List ℕ
due_watchlist_ids now interval limit entries =
    take limit
      (map (λ w. w.id) (keep (λ w. w.is_active && is_older now interval w.last_checked_at) entries))

-- `mark_scheduled`
unfoldable pub mark_scheduled : ℕ → ℕ → List Watch → List Watch
mark_scheduled now id entries =
    map (λ w. if w.id == id then record w { last_checked_at = some now } else w) entries
