-- ===== src/Auth/Decode.antt =====
-- Access tokens: what is issued is accepted until it expires, and only what is signed is accepted.
use telegram_osint.Base.{
  ℕ, ◌+◌, ◌≤◌, ◌≡◌, refl, sym, ap, ◌∙◌, ◌≢◌, true, false, Option, some, List, [], ◌∷◌, ◌++◌, All,
  ◌==◌, ltb, if◌then◌else◌, or_else, ok, err, arith,
}
use mathlib.Core.List.{append_assoc}
use telegram_osint.Auth.Access.{
  Text, dot, Payload, Codec, expired, split_dots, lifetime, claims, create_access_token,
  read_payload, check_parts, check_split, decode_access_token,
}

split_dots_plain : (xs : Text) → All (λ c. c ≢ dot) xs → split_dots xs ≡ xs ∷ []
unfolding split_dots
split_dots_plain [] h = refl
split_dots_plain (c ∷ xs) h =
    let no_dot : (c == dot) ≡ false = ground (arith, h.0) in
    rw (no_dot, split_dots_plain xs h.1) refl

split_dots-append :
    (xs ys : Text) → All (λ c. c ≢ dot) xs → split_dots (xs ++ (dot ∷ ys)) ≡ xs ∷ split_dots ys
unfolding split_dots
split_dots-append [] ys h = refl
split_dots-append (c ∷ xs) ys h =
    let no_dot : (c == dot) ≡ false = ground (arith, h.0) in
    rw (no_dot, split_dots-append xs ys h.1) refl

split_dots_three :
    (a b c : Text)
    → All (λ x. x ≢ dot) a
    → All (λ x. x ≢ dot) b
    → All (λ x. x ≢ dot) c
    → split_dots ((a ++ (dot ∷ b)) ++ (dot ∷ c)) ≡ a ∷ b ∷ c ∷ []
split_dots_three a b c ha hb hc =
    ap split_dots (append_assoc a (dot ∷ b) (dot ∷ c))
    ∙ split_dots-append a (b ++ (dot ∷ c)) ha
    ∙ ap (◌∷◌ a) (split_dots-append b c hb ∙ ap (◌∷◌ b) (split_dots_plain c hc))

module _ (codec : Codec) where
  open codec use {b64, unb64, header, dumps, loads, sign, compare_digest}

  decode_three :
      (now : ℕ) (token h p s : Text)
      → split_dots token ≡ h ∷ p ∷ s ∷ []
      → decode_access_token codec now token ≡ check_parts codec now h p s
  unfolding decode_access_token
  decode_three now token h p s e = rw e refl

  read_payload_signed :
      (now : ℕ) (payload : Payload)
      → read_payload codec now (b64 (dumps payload))
        ≡ (if ltb (or_else payload.exp 0) now then err expired else ok payload)
  unfolding read_payload
  read_payload_signed now payload =
      rw (codec.unb64-b64 (dumps payload), read_payload) (rw codec.loads-dumps refl)

  check_parts_signed :
      (now : ℕ) (h : Text) (payload : Payload)
      → check_parts codec now h
          (b64 (dumps payload))
          (b64 (sign (h ++ (dot ∷ b64 (dumps payload)))))
        ≡ (if ltb (or_else payload.exp 0) now then err expired else ok payload)
  unfolding check_parts
  check_parts_signed now h payload =
      rw (codec.unb64-b64 (sign (h ++ (dot ∷ b64 (dumps payload)))), check_parts)
        (rw codec.compare_refl (read_payload_signed now payload))

  -- A token that was issued at `now` with a lifetime is decoded to its claims up to and including the
  -- second of its expiry, and is refused as expired after it.
  pub decode-create :
      (default_ttl : ℕ) (ttl_seconds : Option ℕ) (now later user_id role : ℕ)
      → let ttl = lifetime ttl_seconds default_ttl in
        decode_access_token codec later
          (create_access_token codec default_ttl ttl_seconds now user_id role)
        ≡ (if ltb (now + ttl) later then err expired else ok (claims now ttl user_id role))
  unfolding create_access_token
  decode-create default_ttl ttl_seconds now later user_id role =
      let payload = claims now (lifetime ttl_seconds default_ttl) user_id role in
      let input : Text = b64 header ++ (dot ∷ b64 (dumps payload)) in
      let parts =
        split_dots_three (b64 header) (b64 (dumps payload)) (b64 (sign input))
          (codec.b64_no_dot header) (codec.b64_no_dot (dumps payload))
          (codec.b64_no_dot (sign input)) in
      decode_three later _ _ _ _ parts ∙ check_parts_signed later (b64 header) payload

  -- What a token must be to be accepted.
  pub record Signed (now : ℕ) (token : Text) (payload : Payload) : Type 0 where
    pub header_b64 : Text
    pub payload_b64 : Text
    pub sig_b64 : Text
    pub parts : split_dots token ≡ header_b64 ∷ payload_b64 ∷ sig_b64 ∷ []
    pub signature : unb64 sig_b64 ≡ some (sign (header_b64 ++ (dot ∷ payload_b64)))
    pub bytes : Text
    pub decoded : unb64 payload_b64 ≡ some bytes
    pub read : loads bytes ≡ some payload
    pub in_time : now ≤ or_else payload.exp 0

  check_parts_inversion :
      (now : ℕ) (h p s : Text) {payload : Payload}
      → check_parts codec now h p s ≡ ok payload
      → (sig bytes : Text) × (unb64 s ≡ some sig)
        × (compare_digest (sign (h ++ (dot ∷ p))) sig ≡ true)
        × (unb64 p ≡ some bytes)
        × (loads bytes ≡ some payload)
        × (now ≤ or_else payload.exp 0)
  unfolding check_parts read_payload
  check_parts_inversion now h p s e = ground arith

  check_parts-Signed :
      (now : ℕ) (token h p s : Text) {payload : Payload}
      → split_dots token ≡ h ∷ p ∷ s ∷ []
      → check_parts codec now h p s ≡ ok payload
      → Signed now token payload
  check_parts-Signed now token h p s {payload} parts e =
      let (sig, bytes, is_sig, same, is_bytes, read', live) = check_parts_inversion now h p s e in
      record {
        header_b64 = h;
        payload_b64 = p;
        sig_b64 = s;
        parts = parts;
        signature = is_sig ∙ ap some (sym (codec.compare_eq _ sig same));
        bytes = bytes;
        decoded = is_bytes;
        read = read';
        in_time = live;
      }

  -- A token is accepted only if it has exactly three parts, its signature decodes to the HMAC of the
  -- first two, its second part decodes to the payload returned, and the payload has not expired.
  pub decode-Signed :
      (now : ℕ) (token : Text) {payload : Payload}
      → decode_access_token codec now token ≡ ok payload
      → Signed now token payload
  unfolding decode_access_token
  decode-Signed now token {payload} = by_parts (split_dots token) refl
    where
      by_parts :
          (l : List Text)
          → split_dots token ≡ l
          → check_split codec now l ≡ ok payload
          → Signed now token payload
      by_parts [] e h = cc
      by_parts (a ∷ []) e h = cc
      by_parts (a ∷ b ∷ []) e h = cc
      by_parts (a ∷ b ∷ c ∷ []) e h = check_parts-Signed now token a b c e h
      by_parts (a ∷ b ∷ c ∷ d ∷ r) e h = cc
