-- ===== src/Auth/Tests.antt =====
-- A table with one live token, a toy codec that meets the interface, and the theorems at these inputs.
use telegram_osint.Base.{
  ℕ, ◌+◌, ◌*◌, ◌/◌, ◌≡◌, refl, ap, ◌∙◌, ◌≢◌, Bool, true, false, ◌&&◌, Option, none, some, [], ◌∷◌,
  ◌++◌, All, map, arith, ◌==◌, ok, err, ltb, if◌then◌else◌,
}
use telegram_osint.Base.Dict.{Dict, lookup, insert}
use telegram_osint.Auth.Refresh.{Token, User, used_or_expired, issue, revoke, count_revoked, rotate}
use telegram_osint.Auth.Rotation.{NoneActive, Rotated, rotate_dead, rotate-Rotated, rotate_once}
use telegram_osint.Auth.Access.{
  Text, dot, Payload, Codec, expired, bad_signature, split_dots, claims, create_access_token,
  read_payload, check_parts, check_split, decode_access_token,
}
use telegram_osint.Auth.Decode.{Signed, decode-create, decode-Signed}

abbrev live : Token
live = record { id = 100; user_id = 7; expires_at = 50; revoked_at = none; replaced_by = none }

abbrev tokens : Dict Token
tokens = (11, live) ∷ (12, record live { id = 101; user_id = 8 }) ∷ []

abbrev users : Dict User
users = (7, record { enabled = true }) ∷ []

abbrev hash : ℕ → ℕ
hash raw = raw + 10

revoke_first : (revoke hash 20 1 tokens).1 ≡ true
unfolding revoke lookup insert
revoke_first = refl

count_first : count_revoked 7 tokens ≡ 1
unfolding count_revoked
count_first = refl

rotate_dead_example :
    let (r, tokens') = rotate hash 30 60 1 5 102 users tokens in
    (r ≡ err used_or_expired)
    × ((later : ℕ) → NoneActive later 7 tokens')
    × ((k : ℕ) (other : Token)
        → lookup k tokens ≡ some other
        → other.user_id ≢ 7
        → lookup k tokens' ≡ some other)
unfolding lookup
rotate_dead_example = rotate_dead hash 30 users 60 1 5 102 tokens {row = live} refl refl

rotate-Rotated_example :
    ◌≡◌ {A = ℕ} 5 5
    × Rotated hash 30 users 20 1 5 102 7 tokens (rotate hash 30 20 1 5 102 users tokens).1
unfolding rotate issue lookup insert
rotate-Rotated_example = rotate-Rotated hash 30 users 20 1 5 102 tokens refl

rotate_once_example :
    let tokens' = (rotate hash 30 20 1 5 102 users tokens).1 in
    let (r, tokens'') = rotate hash 30 25 1 6 103 users tokens' in
    (r ≡ err used_or_expired) × ((at : ℕ) → NoneActive at 7 tokens'')
unfolding rotate issue lookup insert
rotate_once_example = rotate_once hash 30 users 20 1 5 102 25 6 103 tokens {user_id = 7} refl

-- an encoding into odd numbers, which the dot is not
abbrev odd : ℕ → ℕ
odd c = 2 * c + 1

map-half-odd : (d : Text) → map (λ c. c / 2) (map odd d) ≡ d
map-half-odd [] = refl
map-half-odd (c ∷ d) =
    let e : (2 * c + 1) / 2 ≡ c = omega arith in
    ap (λ (h : ℕ). h ∷ _) e ∙ ap (◌∷◌ c) (map-half-odd d)

odd_no_dot : (d : Text) → All (λ c. c ≢ dot) (map odd d)
odd_no_dot [] = tt
odd_no_dot (c ∷ d) = ((λ e. omega arith), odd_no_dot d)

abbrev same_text : Text → Text → Bool
same_text [] [] = true
same_text (a ∷ s) (b ∷ t) = a == b && same_text s t
same_text _ _ = false

same_text_refl : (s : Text) → same_text s s ≡ true
same_text_refl [] = refl
same_text_refl (a ∷ s) = ground (arith, same_text_refl s)

same_text_eq : (s t : Text) → same_text s t ≡ true → s ≡ t
same_text_eq [] [] h = refl
same_text_eq (a ∷ s) (b ∷ t) h = ground (arith, same_text_eq s t)
same_text_eq [] (b ∷ t) h = cc
same_text_eq (a ∷ s) [] h = cc

abbrev toy_dumps : Payload → Text
toy_dumps p = elim p.exp [
  | none ↦ p.sub ∷ p.role ∷ p.iat ∷ []
  | some e ↦ p.sub ∷ p.role ∷ p.iat ∷ e ∷ []
]

abbrev toy_loads : Text → Option Payload
toy_loads (s ∷ r ∷ i ∷ []) = some (record { sub = s; role = r; iat = i; exp = none })
toy_loads (s ∷ r ∷ i ∷ e ∷ []) = some (record { sub = s; role = r; iat = i; exp = some e })
toy_loads _ = none

toy_loads-dumps : (p : Payload) → toy_loads (toy_dumps p) ≡ some p
toy_loads-dumps p = ground arith

abbrev toy : Codec
toy = record {
  b64 = map odd;
  unb64 = λ d. some (map (λ c. c / 2) d);
  header = 1 ∷ [];
  dumps = toy_dumps;
  loads = toy_loads;
  sign = λ d. 9 ∷ d;
  compare_digest = same_text;
  unb64-b64 = λ d. ap some (map-half-odd d);
  b64_no_dot = odd_no_dot;
  loads-dumps = toy_loads-dumps;
  compare_refl = same_text_refl;
  compare_eq = same_text_eq;
}

abbrev token : Text
token = create_access_token toy 900 none 1000 7 2

forged : decode_access_token toy 1000 (token ++ (3 ∷ [])) ≡ err bad_signature
unfolding decode_access_token check_split check_parts read_payload create_access_token split_dots
forged = refl

decode-create_example :
    decode_access_token toy 1900 token
    ≡ (if ltb (1000 + 900) 1900 then err expired else ok (claims 1000 900 7 2))
decode-create_example = decode-create toy 900 none 1000 1900 7 2

decode-Signed_example : Signed toy 1500 token (claims 1000 900 7 2)
unfolding decode_access_token check_split check_parts read_payload create_access_token split_dots
decode-Signed_example = decode-Signed toy 1500 token {payload = claims 1000 900 7 2} refl
