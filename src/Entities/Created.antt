-- ===== src/Entities/Created.antt =====
-- The row that a call writes: a new one, or the one found with the fields that it lacked.
use telegram_osint.Base.{
  ℕ, ◌≡◌, refl, ◌∙◌, ap, false, Option, none, some, List, [], ◌∷◌, map, keep, if◌then◌else◌,
  is_some, ok,
}
use telegram_osint.Entities.Telegram.{
  TelegramEntity, Key, by_id, by_username, has_key, find_entity, backfill_value, backfill, replace,
  key_of, resolve_by_keys,
}
use telegram_osint.Entities.Found.{keep-swap_same, swap_again, keep-head, has_key-backfill}

module _ (t u n : Option ℕ) (fields : ℕ) where
  -- a row that both queries lead to is found as it is
  pub settle :
      (key : Key) (new : TelegramEntity) (out : List TelegramEntity)
      → find_entity (key_of by_id t) (key_of by_username n) out ≡ ok (some (key, new))
      → keep (has_key key) out ≡ new ∷ []
      → backfill t u n new ≡ new
      → resolve_by_keys t u n fields out ≡ ok ((new, false), out)
  unfolding replace resolve_by_keys
  settle key new out e h same =
      rw (e, resolve_by_keys, same)
        (ap (λ rows. ok ((new, false), rows)) (swap_again (has_key key) new out h))

  abbrev filled : TelegramEntity → TelegramEntity
  filled = backfill t u n

  -- the rows of a key after the write to the one that it found
  pub keep-replace :
      (key : Key) (obj : TelegramEntity) (rows : List TelegramEntity)
      → keep (has_key key) rows ≡ obj ∷ []
      → keep (has_key key) (replace key (filled obj) rows) ≡ filled obj ∷ []
  unfolding replace
  keep-replace key obj rows h =
      keep-swap_same (has_key key) (filled obj) rows
        (has_key-backfill key t u n obj (keep-head (has_key key) obj rows h))
      ∙ ap (map (λ r. filled obj)) h

backfill_value_self : (a : Option ℕ) → backfill_value a a ≡ a
backfill_value_self none = refl
backfill_value_self (some a) = refl

username_self : (u n : Option ℕ) → (if is_some n then (if is_some n then u else u) else u) ≡ u
username_self u none = refl
username_self u (some n) = refl

abbrev pub created : Option ℕ → Option ℕ → Option ℕ → ℕ → TelegramEntity
created t u n fields = record {
  telegram_id = t;
  username = u;
  username_normalized = n;
  fields = fields;
}

pub backfill-created :
    (t u n : Option ℕ) (fields : ℕ) → backfill t u n (created t u n fields) ≡ created t u n fields
unfolding backfill
backfill-created t u n fields = λ i. record {
  telegram_id = backfill_value_self t i;
  username = username_self u n i;
  username_normalized = backfill_value_self n i;
  fields = fields;
}
