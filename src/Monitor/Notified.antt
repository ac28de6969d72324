-- ===== src/Monitor/Notified.antt =====
-- A poll reports what is new, once.
use telegram_osint.Base.{
  ◌&&◌, ℕ, ◌≡◌, refl, ap, ◌∙◌, Bool, not, some, List, [], ◌++◌, map, or_else, arith,
}
use telegram_osint.Monitor.Poll.{
  Marker, Watch, message, account, PollResult, TelegramView, telegram_error, no_container,
  container, PlatformView, no_collector, platform_error, found_on, poll_telegram, is_member,
  sorted_union, new_platforms, poll_username_platforms, no_marker, poll,
}
use telegram_osint.Monitor.Platforms.{
  above, greatest, append_nil, scan_messages_lem, greatest_ge, above_nil, is_member-sorted_union,
  Increasing, sorted_union-Increasing, keep-Increasing, is_member-keep, known_platforms,
}

-- What a first poll of a container reports: the messages above the mark, in order.
first_poll :
    (is_channel : Bool) (rows : List ℕ) (marker : Marker) (result : PollResult)
    → let seen = or_else marker.telegram_max_msg_id 0 in
      poll_telegram (container is_channel rows) marker result ≡ (
        record marker { telegram_max_msg_id = some (greatest seen rows) },
        record result {
          activities = result.activities ++ map (message is_channel) (above seen rows);
        },
      )
unfolding poll_telegram
first_poll is_channel rows marker result =
    let seen = or_else marker.telegram_max_msg_id 0 in
    rw (scan_messages_lem is_channel seen rows seen result.activities (omega arith)) refl

telegram_again :
    (t : TelegramView) (marker marker' : Marker) (r r' : PollResult)
    → marker'.telegram_max_msg_id ≡ (poll_telegram t marker r).0.telegram_max_msg_id
    → (poll_telegram t marker' r').1.activities ≡ r'.activities
telegram_again (telegram_error e) marker marker' r r' h = unfold poll_telegram in refl
telegram_again no_container marker marker' r r' h = unfold poll_telegram in refl
telegram_again (container is_channel rows) marker marker' r r' h =
    let seen = or_else marker.telegram_max_msg_id 0 in
    let first = first_poll is_channel rows marker r in
    let mark : marker'.telegram_max_msg_id ≡ some (greatest seen rows) =
      h ∙ ap (λ q. q.0.telegram_max_msg_id) first in
    ap (λ q. q.1.activities) (first_poll is_channel rows marker' r')
    ∙ rw (mark, above_nil (greatest seen rows) rows (greatest_ge seen rows).1)
        (append_nil r'.activities)

telegram_keeps :
    (t : TelegramView) (marker : Marker) (r : PollResult)
    → (poll_telegram t marker r).0.platforms ≡ marker.platforms
unfolding poll_telegram
telegram_keeps (telegram_error e) marker r = refl
telegram_keeps no_container marker r = refl
telegram_keeps (container is_channel rows) marker r = refl

platforms_keep :
    (p : PlatformView) (marker : Marker) (r : PollResult)
    → (poll_username_platforms p marker r).0.telegram_max_msg_id ≡ marker.telegram_max_msg_id
unfolding poll_username_platforms
platforms_keep no_collector marker r = refl
platforms_keep (platform_error e) marker r = refl
platforms_keep (found_on found) marker r = refl

platforms_again :
    (p : PlatformView) (marker marker' : Marker) (r r' : PollResult)
    → marker'.platforms ≡ (poll_username_platforms p marker r).0.platforms
    → (poll_username_platforms p marker' r').1.activities ≡ r'.activities
unfolding poll_username_platforms
platforms_again no_collector marker marker' r r' h = refl
platforms_again (platform_error e) marker marker' r r' h = refl
platforms_again (found_on found) marker marker' r r' h =
    rw (h, known_platforms found (or_else marker.platforms [])) (append_nil r'.activities)

-- A poll that finds the same public content as the poll before it reports nothing, whatever the entry's
-- marker was before and whether the collectors failed or not.
pub poll_again :
    (now later : ℕ) (t : TelegramView) (p : PlatformView) (entry : Watch)
    → (poll later t p (poll now t p entry).0).1.activities ≡ []
unfolding poll
poll_again now later t p entry =
    platforms_again p marker₁ second.0 first.1 second.1 (telegram_keeps t marker₂ empty)
    ∙ telegram_again t marker marker₂ empty empty (platforms_keep p marker₁ first.1)
  where
    empty : PollResult
    empty = record { activities = []; notes = [] }

    marker : Marker
    marker = or_else entry.last_seen_marker no_marker

    first : Marker × PollResult
    first = poll_telegram t marker empty

    marker₁ : Marker
    marker₁ = first.0

    marker₂ : Marker
    marker₂ = (poll_username_platforms p marker₁ first.1).0

    second : Marker × PollResult
    second = poll_telegram t marker₂ empty

-- The platforms that a poll reports as new.
pub record NewPlatforms (found known reported : List ℕ) : Type 0 where
  -- in order, each of them once
  pub ordered : Increasing reported
  -- those that were found and not known, and no others
  pub exact : (p : ℕ) → is_member p reported ≡ (is_member p found && not (is_member p known))

new_platforms-NewPlatforms :
    (found known : List ℕ) → NewPlatforms found known (new_platforms found known)
unfolding new_platforms
new_platforms-NewPlatforms found known = record {
  ordered = keep-Increasing _ (sorted_union found []) (sorted_union-Increasing found);
  exact = λ p.
      is_member-keep p (λ q. not (is_member q known)) (sorted_union found [])
      ∙ rw (is_member-sorted_union p found []) (ground arith);
}

-- A poll of a container and of platforms reports exactly the messages above the entry's mark, in the
-- order of the query, and then the platforms that were found and were not known, in order and each once.
pub poll_reports :
    (now : ℕ) (is_channel : Bool) (rows found : List ℕ) (entry : Watch)
    → let marker = or_else entry.last_seen_marker no_marker in
      (reported : List ℕ) × NewPlatforms found (or_else marker.platforms []) reported
      × ((poll now (container is_channel rows) (found_on found) entry).1.activities
          ≡ map (message is_channel) (above (or_else marker.telegram_max_msg_id 0) rows)
            ++ map account reported)
unfolding poll poll_username_platforms
poll_reports now is_channel rows found entry =
    let known = or_else (or_else entry.last_seen_marker no_marker).platforms [] in
    (
      new_platforms found known,
      new_platforms-NewPlatforms found known,
      rw
          (first_poll is_channel rows (or_else entry.last_seen_marker no_marker)
            (record { activities = []; notes = [] }))
          refl,
    )
