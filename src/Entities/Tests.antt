-- ===== src/Entities/Tests.antt =====
-- Tests and witnesses of the Telegram entities.
use telegram_osint.Base.{◌≡◌, refl, false, none, some, List, [], ◌∷◌, ok, err}
use telegram_osint.Entities.Telegram.{
  TelegramEntity, query, multiple_results, invalid_username, norm_of, backfill, replace,
  find_entity, query_given, resolve_by_keys, resolve_telegram_entity,
}
use telegram_osint.Entities.Again.{Resolved, resolve_telegram_entity-Again}

-- one row that is known by its id, and one by its username
abbrev two_rows : List TelegramEntity
two_rows =
    record { telegram_id = some 1; username = none; username_normalized = none; fields = 3 }
    ∷ record { telegram_id = none; username = some 8; username_normalized = some 8; fields = 4 }
    ∷ []

resolve_telegram_entity-Again_example :
    Resolved
      (some 2)
      (some 8)
      5
      two_rows
      (norm_of (λ u. some u) (some 8))
      (resolve_telegram_entity (λ u. some u) (some 2) (some 8) 5 two_rows)
resolve_telegram_entity-Again_example =
    resolve_telegram_entity-Again (λ u. some u) (some 2) (some 8) 5 two_rows

-- a username that is a malformed URL
username_raises :
    resolve_telegram_entity (λ u. none) (some 2) (some 8) 5 two_rows ≡ err invalid_username
unfolding resolve_telegram_entity
username_raises = refl

-- the row of the id takes the username that another row has, which no query by username finds any more
abbrev both_named : List TelegramEntity
both_named =
    record { telegram_id = some 1; username = some 8; username_normalized = some 8; fields = 3 }
    ∷ record { telegram_id = none; username = some 8; username_normalized = some 8; fields = 4 }
    ∷ []

username_taken_twice :
    resolve_telegram_entity (λ u. some u) (some 1) (some 8) 5 two_rows
    ≡ ok (
      (
        record {
          telegram_id = some 1;
          username = some 8;
          username_normalized = some 8;
          fields = 3;
        },
        false,
      ),
      both_named,
    )
unfolding resolve_telegram_entity resolve_by_keys find_entity query_given query backfill replace
username_taken_twice = refl

lookup_raises :
    resolve_telegram_entity (λ u. some u) none (some 8) 5 both_named ≡ err multiple_results
unfolding resolve_telegram_entity resolve_by_keys find_entity query_given query
lookup_raises = refl
