-- ===== src/Auth/Refresh.antt =====
-- database/repositories/refresh_tokens.py: issue, rotate and revoke. The unique index on the hash makes
-- it the key of the table; `hash_refresh_token` is a function of the raw token, and the fresh raw token
-- and row id of an insertion are arguments. A call returns the table that the request commits, also
-- when it raises (the refresh endpoint commits before it answers 401).
use telegram_osint.Base.{
  ℕ, ◌+◌, Bool, true, false, not, ◌&&◌, Option, none, some, [], ◌∷◌, ◌==◌, ltb, if◌then◌else◌,
  is_some, Result, ok, err,
}
use telegram_osint.Base.Dict.{Dict, lookup, insert}

-- `RefreshToken`
pub record Token : Type 0 where
  pub id : ℕ
  pub user_id : ℕ
  pub expires_at : ℕ
  pub revoked_at : Option ℕ
  pub replaced_by : Option ℕ

-- `RefreshToken.is_active`
abbrev pub is_active : ℕ → Token → Bool
is_active now row = not (is_some row.revoked_at) && ltb now row.expires_at

-- the columns of `User` that are read here
pub record User : Type 0 where
  pub enabled : Bool

-- `RefreshTokenReuseError`, by its message, and the violation of the unique index
pub data TokenError : Type 0 where
  unknown_token : TokenError
  used_or_expired : TokenError
  user_unavailable : TokenError
  duplicate_hash : TokenError

abbrev pub Outcome : Type 0 → Type 0
Outcome A = Result TokenError A × Dict Token

module _ (hash : ℕ → ℕ) (ttl : ℕ) where
  -- `issue`: the insertion of the row of a fresh raw token
  unfoldable pub issue : ℕ → ℕ → ℕ → ℕ → Dict Token → Outcome ℕ
  issue now raw row_id user_id tokens = elim (lookup (hash raw) tokens) [
    | some _ ↦ (err duplicate_hash, tokens)
    | none ↦ (
      ok raw,
      insert (hash raw)
          (record {
            id = row_id;
            user_id = user_id;
            expires_at = now + ttl;
            revoked_at = none;
            replaced_by = none;
          })
          tokens,
    )
  ]

-- the loop body of `revoke_all`
abbrev pub revoke_row : ℕ → ℕ → Token → Token
revoke_row now user_id row =
    if row.user_id == user_id && not (is_some row.revoked_at)
    then record row { revoked_at = some now }
    else row

-- `revoke_all`: the table after it, and the number of rows revoked
unfoldable pub revoke_all : ℕ → ℕ → Dict Token → Dict Token
revoke_all now user_id [] = []
revoke_all now user_id ((k, row) ∷ tokens) =
    (k, revoke_row now user_id row) ∷ revoke_all now user_id tokens

unfoldable pub count_revoked : ℕ → Dict Token → ℕ
count_revoked user_id [] = 0
count_revoked user_id ((k, row) ∷ tokens) =
    (if row.user_id == user_id && not (is_some row.revoked_at) then 1 else 0)
    + count_revoked user_id tokens

module _ (hash : ℕ → ℕ) where
  -- `revoke`
  unfoldable pub revoke : ℕ → ℕ → Dict Token → Dict Token × Bool
  revoke now raw tokens = elim (lookup (hash raw) tokens) [
    | none ↦ (tokens, false)
    | some row ↦
        if is_some row.revoked_at
        then (tokens, false)
        else (insert (hash raw) (record row { revoked_at = some now }) tokens, true)
  ]

module _ (hash : ℕ → ℕ) (ttl : ℕ) where
  -- the row of the presented token, once its successor is issued
  retire : ℕ → ℕ → Token → Dict Token → ℕ → Outcome (ℕ × ℕ)
  retire now raw row tokens new_raw = (
    ok (new_raw, row.user_id),
    insert (hash raw)
        (record row {
          revoked_at = some now;
          replaced_by = elim (lookup (hash new_raw) tokens) [ none ↦ none | some r ↦ some r.id ];
        })
        tokens,
  )

  -- `rotate`, once the row is active and its user is known
  replace : ℕ → ℕ → ℕ → ℕ → Token → Dict Token → Outcome (ℕ × ℕ)
  unfolding retire
  replace now raw fresh row_id row tokens =
      let (r, tokens') = issue hash ttl now fresh row_id row.user_id tokens in
      elim r [ err e ↦ (err e, tokens') | ok new_raw ↦ retire now raw row tokens' new_raw ]

  -- `rotate`: the new raw token and the user, or what was raised
  unfoldable pub rotate : ℕ → ℕ → ℕ → ℕ → Dict User → Dict Token → Outcome (ℕ × ℕ)
  unfolding replace
  rotate now raw fresh row_id users tokens = elim (lookup (hash raw) tokens) [
    | none ↦ (err unknown_token, tokens)
    | some row ↦
        if not (is_active now row)
        then (err used_or_expired, revoke_all now row.user_id tokens)
        else elim (lookup row.user_id users) [
          | none ↦ (err user_unavailable, tokens)
          | some user ↦
              if not user.enabled
              then (err user_unavailable, tokens)
              else replace now raw fresh row_id row tokens
        ]
  ]
