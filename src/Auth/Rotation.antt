-- ===== src/Auth/Rotation.antt =====
-- Rotation makes a refresh token good for one use, and a second use ends every session of its user.
use telegram_osint.Base.{
  ℕ, ◌+◌, ◌≡◌, refl, sym, ap, ◌∙◌, ◌≢◌, true, false, Option, none, some, [], ◌∷◌, ◌==◌, ok, err,
  arith, Bool-cases, inl, inr,
}
use telegram_osint.Base.Dict.{Dict, lookup, insert, lookup-insert_self, lookup-insert_ne}
use telegram_osint.Auth.Refresh.{
  Token, is_active, User, used_or_expired, issue, revoke_row, revoke_all, rotate,
}

map_row : (Token → Token) → Option Token → Option Token
map_row f none = none
map_row f (some row) = some (f row)

lookup-revoke_all :
    (now u k : ℕ) (tokens : Dict Token)
    → lookup k (revoke_all now u tokens) ≡ map_row (revoke_row now u) (lookup k tokens)
unfolding lookup revoke_all map_row
lookup-revoke_all now u k [] = refl
lookup-revoke_all now u k ((j, row) ∷ tokens) = elim (Bool-cases (j == k)) [
  | inl e ↦ rw e refl
  | inr e ↦ rw e (lookup-revoke_all now u k tokens)
]

-- No token of the user can be used at `now`.
abbrev pub NoneActive : ℕ → ℕ → Dict Token → Type 0
NoneActive now user_id tokens =
    (k : ℕ) (row : Token)
    → lookup k tokens ≡ some row
    → row.user_id ≡ user_id
    → is_active now row ≡ false

revoke_row-user : (now u : ℕ) (row : Token) → (revoke_row now u row).user_id ≡ row.user_id
revoke_row-user now u row = ground arith

revoke_row_dead :
    (now later u : ℕ) (row : Token)
    → row.user_id ≡ u
    → is_active later (revoke_row now u row) ≡ false
revoke_row_dead now later u row e = ground arith

revoke_row_other : (now u : ℕ) (row : Token) → row.user_id ≢ u → revoke_row now u row ≡ row
revoke_row_other now u row ne = ground arith

map_row-some :
    (f : Token → Token) (o : Option Token) (row' : Token)
    → map_row f o ≡ some row'
    → (row : Token) × (o ≡ some row) × (f row ≡ row')
unfolding map_row
map_row-some f none row' e = cc
map_row-some f (some row) row' e = (row, refl, cc)

revoke_all-NoneActive :
    (now later u : ℕ) (tokens : Dict Token) → NoneActive later u (revoke_all now u tokens)
revoke_all-NoneActive now later u tokens k row' e is_u =
    let (row, found, is_row') =
      map_row-some (revoke_row now u) (lookup k tokens) row'
        (sym (lookup-revoke_all now u k tokens) ∙ e) in
    let same : row.user_id ≡ u =
      sym (revoke_row-user now u row) ∙ ap (λ r. r.user_id) is_row' ∙ is_u in
    rw (← is_row') (revoke_row_dead now later u row same)

module _ (hash : ℕ → ℕ) (ttl : ℕ) (users : Dict User) where
  -- A second use of a token, or a use after its expiry: the call raises, from then on no token of its
  -- user is active at any time, and the tokens of other users are as they were.
  pub rotate_dead :
      (now raw fresh row_id : ℕ) (tokens : Dict Token) {row : Token}
      → lookup (hash raw) tokens ≡ some row
      → is_active now row ≡ false
      → let (r, tokens') = rotate hash ttl now raw fresh row_id users tokens in
        (r ≡ err used_or_expired)
        × ((later : ℕ) → NoneActive later row.user_id tokens')
        × ((k : ℕ) (other : Token)
            → lookup k tokens ≡ some other
            → other.user_id ≢ row.user_id
            → lookup k tokens' ≡ some other)
  unfolding rotate
  rotate_dead now raw fresh row_id tokens {row} found dead =
      rw (found, rotate)
        (rw dead (
          refl,
          (λ later. revoke_all-NoneActive now later row.user_id tokens),
          (λ k other at ne.
              lookup-revoke_all now row.user_id k tokens
              ∙ rw at (unfold map_row in ap some (revoke_row_other now row.user_id other ne))),
        ))

  -- What a successful rotation has done.
  pub record Rotated (now raw fresh row_id user_id : ℕ) (tokens tokens' : Dict Token) : Type 0 where
    pub old : Token
    pub found : lookup (hash raw) tokens ≡ some old
    pub live : is_active now old ≡ true
    pub owner : old.user_id ≡ user_id
    pub retired :
        lookup (hash raw) tokens'
        ≡ some (record old { revoked_at = some now; replaced_by = some row_id })
    pub was_free : lookup (hash fresh) tokens ≡ none
    pub issued :
        lookup (hash fresh) tokens'
        ≡ some (record {
          id = row_id;
          user_id = user_id;
          expires_at = now + ttl;
          revoked_at = none;
          replaced_by = none;
        })
    pub others : (k : ℕ) → k ≢ hash raw → k ≢ hash fresh → lookup k tokens' ≡ lookup k tokens

  -- the row that a rotation writes over the old one
  abbrev retired_row : ℕ → ℕ → Token → Token
  retired_row now row_id row = record row { revoked_at = some now; replaced_by = some row_id }

  abbrev fresh_row : ℕ → ℕ → ℕ → Token
  fresh_row now row_id u = record {
    id = row_id;
    user_id = u;
    expires_at = now + ttl;
    revoked_at = none;
    replaced_by = none;
  }

  rotate_inversion :
      (now raw fresh row_id : ℕ) (tokens : Dict Token) {new_raw user_id : ℕ}
      → (rotate hash ttl now raw fresh row_id users tokens).0 ≡ ok (new_raw, user_id)
      → (row : Token) × (lookup (hash raw) tokens ≡ some row)
        × (is_active now row ≡ true)
        × (row.user_id ≡ user_id)
        × (lookup (hash fresh) tokens ≡ none)
        × (new_raw ≡ fresh)
  unfolding rotate issue
  rotate_inversion now raw fresh row_id tokens h = ground arith

  rotate_writes :
      (now raw fresh row_id : ℕ) (tokens : Dict Token) {new_raw user_id : ℕ} (row : Token)
      → (rotate hash ttl now raw fresh row_id users tokens).0 ≡ ok (new_raw, user_id)
      → lookup (hash raw) tokens ≡ some row
      → lookup (hash fresh) tokens ≡ none
      → (rotate hash ttl now raw fresh row_id users tokens).1
        ≡ insert
            (hash raw)
            (retired_row now row_id row)
            (insert (hash fresh) (fresh_row now row_id row.user_id) tokens)
  unfolding rotate issue
  rotate_writes now raw fresh row_id tokens row h found free =
      ground (arith, lookup-insert_self (hash fresh) (fresh_row now row_id row.user_id) tokens)

  -- A rotation that succeeds was given an active token; it revokes that one, names its successor in it,
  -- adds an unrevoked token of the same user under the fresh hash, and leaves every other row alone.
  pub rotate-Rotated :
      (now raw fresh row_id : ℕ) (tokens : Dict Token) {new_raw user_id : ℕ}
      → (rotate hash ttl now raw fresh row_id users tokens).0 ≡ ok (new_raw, user_id)
      → (new_raw ≡ fresh)
        × Rotated now raw fresh row_id user_id tokens
            (rotate hash ttl now raw fresh row_id users tokens).1
  rotate-Rotated now raw fresh row_id tokens h =
      let (row, found, live, owner, free, same) = rotate_inversion now raw fresh row_id tokens h in
      let apart : hash fresh ≢ hash raw = λ e. cc (ap (λ k. lookup k tokens) e, found, free) in
      rw (rotate_writes now raw fresh row_id tokens row h found free) (
        same,
        record {
          old = row;
          found = found;
          live = live;
          owner = owner;
          retired = lookup-insert_self (hash raw) _ _;
          was_free = free;
          issued =
              lookup-insert_ne (hash raw) (hash fresh) _ _ apart
              ∙ lookup-insert_self (hash fresh) _ tokens
              ∙ rw owner refl;
          others = λ k ne₁ ne₂.
              lookup-insert_ne (hash raw) k _ _ ne₁ ∙ lookup-insert_ne (hash fresh) k _ tokens ne₂;
        },
      )

  -- A refresh token is good for one rotation: after a successful one, presenting the same token at any
  -- time raises, and after that no token of its user is active, the successor included.
  pub rotate_once :
      (now raw fresh row_id later fresh' row_id' : ℕ) (tokens : Dict Token) {new_raw user_id : ℕ}
      → (rotate hash ttl now raw fresh row_id users tokens).0 ≡ ok (new_raw, user_id)
      → let tokens' = (rotate hash ttl now raw fresh row_id users tokens).1 in
        let (r, tokens'') = rotate hash ttl later raw fresh' row_id' users tokens' in
        (r ≡ err used_or_expired) × ((at : ℕ) → NoneActive at user_id tokens'')
  rotate_once now raw fresh row_id later fresh' row_id' tokens h =
      let m = (rotate-Rotated now raw fresh row_id tokens h).1 in
      let tokens' = (rotate hash ttl now raw fresh row_id users tokens).1 in
      let again = rotate_dead later raw fresh' row_id' tokens' m.retired refl in
      (again.0, rw m.owner at again.1)
