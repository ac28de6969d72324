-- ===== src/Monitor/Tests.antt =====
-- An entry whose channel has two new messages and whose handle is found on a new platform.
use telegram_osint.Base.{ℕ, List, ◌≡◌, refl, true, some, [], ◌∷◌, ◌++◌, map}
use telegram_osint.Monitor.Poll.{
  Watch, message, account, container, found_on, scan_messages, poll_telegram, sorted_union,
  new_platforms, poll_username_platforms, poll, due_watchlist_ids, mark_scheduled,
}
use telegram_osint.Monitor.Notified.{NewPlatforms, poll_again, poll_reports}
use telegram_osint.Monitor.Platforms.{above}

abbrev entry : Watch
entry = record {
  id = 1;
  is_active = true;
  last_checked_at = some 100;
  last_seen_marker = some (record { telegram_max_msg_id = some 7; platforms = some (2 ∷ []) });
}

first_report :
    (poll 200 (container true (6 ∷ 8 ∷ 9 ∷ [])) (found_on (3 ∷ 2 ∷ [])) entry).1.activities
    ≡ message true 8 ∷ message true 9 ∷ account 3 ∷ []
unfolding poll poll_telegram scan_messages poll_username_platforms new_platforms sorted_union
first_report = refl

due : due_watchlist_ids 200 60 10 (entry ∷ []) ≡ 1 ∷ []
unfolding due_watchlist_ids
due = refl

not_due : due_watchlist_ids 200 60 10 (mark_scheduled 190 1 (entry ∷ [])) ≡ []
unfolding due_watchlist_ids mark_scheduled
not_due = refl

poll_again_example :
    (poll 300
      (container true (6 ∷ 8 ∷ []))
      (found_on (3 ∷ []))
      (poll 200 (container true (6 ∷ 8 ∷ [])) (found_on (3 ∷ [])) entry).0).1.activities
    ≡ []
poll_again_example = poll_again 200 300 (container true (6 ∷ 8 ∷ [])) (found_on (3 ∷ [])) entry

poll_reports_example :
    (reported : List ℕ) × NewPlatforms (3 ∷ []) (2 ∷ []) reported
    × ((poll 200 (container true (6 ∷ 8 ∷ [])) (found_on (3 ∷ [])) entry).1.activities
        ≡ map (message true) (above 7 (6 ∷ 8 ∷ [])) ++ map account reported)
poll_reports_example = poll_reports 200 true (6 ∷ 8 ∷ []) (3 ∷ []) entry
