-- ===== src/Auth/Access.antt =====
-- security/auth.py: the signed access tokens. Text is a list of code points. JSON, base64 and HMAC are
-- the interface `Codec`: what the code calls of them, with the laws that it relies on.
use telegram_osint.Base.{
  ℕ, zero, suc, ◌+◌, ◌≡◌, ◌≢◌, Bool, true, Option, none, some, List, [], ◌∷◌, ◌++◌, All, ◌==◌, ltb,
  if◌then◌else◌, or_else, Result, ok, err,
}

abbrev pub Text : Type 0
Text = List ℕ

abbrev pub dot : ℕ
dot = b'.'

-- the claims of a payload; a signed payload could lack `exp`, and is then expired
pub record Payload : Type 0 where
  pub sub : ℕ
  pub role : ℕ
  pub iat : ℕ
  pub exp : Option ℕ

-- `_b64`, `_unb64`, `_dumps` and `json.loads`, `_sign`, and the comparison of digests. `none` stands for
-- the exceptions that the code catches.
pub record Codec : Type 0 where
  pub b64 : Text → Text
  pub unb64 : Text → Option Text
  pub header : Text
  pub dumps : Payload → Text
  pub loads : Text → Option Payload
  pub sign : Text → Text
  pub compare_digest : Text → Text → Bool
  -- base64 decodes what it encodes, in an alphabet without the dot
  pub unb64-b64 : (d : Text) → unb64 (b64 d) ≡ some d
  pub b64_no_dot : (d : Text) → All (λ c. c ≢ dot) (b64 d)
  pub loads-dumps : (p : Payload) → loads (dumps p) ≡ some p
  pub compare_refl : (d : Text) → compare_digest d d ≡ true
  pub compare_eq : (d e : Text) → compare_digest d e ≡ true → d ≡ e

pub data TokenError : Type 0 where
  malformed_token : TokenError
  malformed_signature : TokenError
  bad_signature : TokenError
  bad_payload : TokenError
  expired : TokenError

push : ℕ → List Text → List Text
push c [] = (c ∷ []) ∷ []
push c (part ∷ parts) = (c ∷ part) ∷ parts

-- `token.split(".")`
unfoldable pub split_dots : Text → List Text
unfolding push
split_dots [] = [] ∷ []
split_dots (c ∷ s) = let parts = split_dots s in if c == dot then [] ∷ parts else push c parts

-- `ttl_seconds or settings.access_token_ttl_seconds`
abbrev pub lifetime : Option ℕ → ℕ → ℕ
lifetime none default_ttl = default_ttl
lifetime (some zero) default_ttl = default_ttl
lifetime (some (suc n)) default_ttl = suc n

abbrev pub claims : ℕ → ℕ → ℕ → ℕ → Payload
claims now ttl user_id role = record {
  sub = user_id;
  role = role;
  iat = now;
  exp = some (now + ttl);
}

module _ (codec : Codec) where
  open codec use {b64, unb64, header, dumps, loads, sign, compare_digest}

  -- `create_access_token`
  unfoldable pub create_access_token : ℕ → Option ℕ → ℕ → ℕ → ℕ → Text
  create_access_token default_ttl ttl_seconds now user_id role =
      let payload = claims now (lifetime ttl_seconds default_ttl) user_id role in
      let signing_input = b64 header ++ (dot ∷ b64 (dumps payload)) in
      signing_input ++ (dot ∷ b64 (sign signing_input))

  -- the payload of a token whose signature is right
  unfoldable pub read_payload : ℕ → Text → Result TokenError Payload
  read_payload now payload_b64 = elim (unb64 payload_b64) [
    | none ↦ err bad_payload
    | some bytes ↦ elim (loads bytes) [
      | none ↦ err bad_payload
      | some payload ↦ if ltb (or_else payload.exp 0) now then err expired else ok payload
    ]
  ]

  unfoldable pub check_parts : ℕ → Text → Text → Text → Result TokenError Payload
  check_parts now header_b64 payload_b64 sig_b64 = elim (unb64 sig_b64) [
    | none ↦ err malformed_signature
    | some sig ↦
        if compare_digest (sign (header_b64 ++ (dot ∷ payload_b64))) sig
        then read_payload now payload_b64
        else err bad_signature
  ]

  unfoldable pub check_split : ℕ → List Text → Result TokenError Payload
  check_split now (h ∷ p ∷ s ∷ []) = check_parts now h p s
  check_split now _ = err malformed_token

  -- `decode_access_token`
  unfoldable pub decode_access_token : ℕ → Text → Result TokenError Payload
  unfolding check_split
  decode_access_token now token = check_split now (split_dots token)
