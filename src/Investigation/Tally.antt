-- ===== src/Investigation/Tally.antt =====
-- The steps of an investigation one by one: the counters, the confidence, the authorship, what is stored.
use telegram_osint.Base.{
  ℕ, suc, ◌+◌, ◌≤◌, min, ◌≡◌, refl, sym, ◌∙◌, ap, Bool, true, false, not, ◌&&◌, ◌||◌, Option, none,
  some, List, [], ◌∷◌, ◌++◌, map, keep, length, if◌then◌else◌, arith, Bool-cases, Option-cases, inl,
  inr,
}
use mathlib.Core.List.{append-nil, append_assoc}
use telegram_osint.Workspace.Investigations.{
  Observation, ObservationType, author, mention, reply, reference, unknown, add_observation,
}
use telegram_osint.Investigation.Target.{ParsedTarget, is_username_target}
use telegram_osint.Investigation.Classify.{
  Texts, PublicMessage, classify_observation, classify_for_username, classify_for_id, is_handle_of,
  is_id_of, with_text, mentions_username, plain_reference, is_written_by, is_authorship,
}
use telegram_osint.Investigation.Observe.{
  Post, Outside, Seen, seen_of, observation_of, build_observations, has_kind, overall_confidence,
}

-- the kinds are counted apart
kinds_apart :
    (k : ObservationType) (a b c d e n : ℕ)
    → a + (b + (c + (d + e))) ≡ n
    → (if is_authorship k then suc a else a)
        + ((if (elim k [ mention ↦ true | _ ↦ false ]) then suc b else b)
            + ((if (elim k [ reply ↦ true | _ ↦ false ]) then suc c else c)
                + ((if (elim k [ reference ↦ true | _ ↦ false ]) then suc d else d)
                    + (if (elim k [ unknown ↦ true | _ ↦ false ]) then suc e else e))))
      ≡ suc n
kinds_apart author a b c d e n h = omega (arith, h)
kinds_apart mention a b c d e n h = omega (arith, h)
kinds_apart reply a b c d e n h = omega (arith, h)
kinds_apart reference a b c d e n h = omega (arith, h)
kinds_apart unknown a b c d e n h = omega (arith, h)

length-keep-cons :
    {A : Type 0} (p : A → Bool) (x : A) (xs : List A)
    → length (keep p (x ∷ xs)) ≡ (if p x then suc (length (keep p xs)) else length (keep p xs))
length-keep-cons p x xs = ground arith

-- every observation is counted under one kind
pub kinds_add_up :
    (seen : List Seen)
    → length (keep (has_kind author) seen)
        + (length (keep (has_kind mention) seen)
            + (length (keep (has_kind reply) seen)
                + (length (keep (has_kind reference) seen)
                    + length (keep (has_kind unknown) seen))))
      ≡ length seen
kinds_add_up [] = omega arith
kinds_add_up (s ∷ seen) =
    rw
      (
        length-keep-cons (has_kind author) s seen,
        length-keep-cons (has_kind mention) s seen,
        length-keep-cons (has_kind reply) s seen,
        length-keep-cons (has_kind reference) s seen,
        length-keep-cons (has_kind unknown) s seen,
      )
      (kinds_apart s.kind _ _ _ _ _ _ (kinds_add_up seen))

-- no more than 95, if there is a confidence
abbrev pub IsCapped : Option ℕ → Type 0
IsCapped none = Unit
IsCapped (some n) = n ≤ 95

capped :
    (out listed named : Bool) (best : Option ℕ)
    → IsCapped (
        if out then none else elim best [
          | some b ↦ some (min 95 b)
          | none ↦ if listed then some 20 else if named then some 0 else none
        ])
capped true listed named best = tt
capped false listed named (some b) = omega arith
capped false true named none = omega arith
capped false false true none = omega arith
capped false false false none = tt

pub overall_confidence-IsCapped :
    (seen : List Seen) (alias_confidence : Option ℕ) (source_configured : Bool)
    → IsCapped (overall_confidence seen alias_confidence source_configured)
unfolding overall_confidence
overall_confidence-IsCapped seen alias_confidence source_configured = capped _ _ _ _

-- the branches after the first
other_kinds :
    (is_reply mentions refers : Bool)
    → let r : ObservationType × ℕ =
        if is_reply
        then (reply, 70)
        else if mentions
        then (mention, 80)
        else if refers
        then (reference, 55)
        else (unknown, 30) in
      (not (is_authorship r.0) || false) ≡ true
other_kinds true mentions refers = refl
other_kinds false true refers = refl
other_kinds false false true = refl
other_kinds false false false = refl

other_id_kinds :
    (b : Bool)
    → let r : ObservationType × ℕ = if b then (reference, 45) else (unknown, 25) in
      (not (is_authorship r.0) || false) ≡ true
other_id_kinds true = refl
other_id_kinds false = refl

for_username-written :
    (t : Texts) (username : ℕ) (m : PublicMessage)
    → (not (is_authorship (classify_for_username t username m).0)
        || is_handle_of t username m.author_username)
      ≡ true
unfolding classify_for_username
for_username-written t username m = elim (Bool-cases (is_handle_of t username m.author_username)) [
  | inl e ↦ rw (e, classify_for_username) refl
  | inr e ↦
      rw (e, classify_for_username)
        (other_kinds
          (m.is_reply
            && (is_handle_of t username m.reply_to_author || mentions_username t m.text username))
          (mentions_username t m.text username) (plain_reference t m.text username))
]

-- a message is authorship only if its own author field names the target
pub classify_observation-written :
    (t : Texts) (target : ParsedTarget) (m : PublicMessage)
    → (not (is_authorship (classify_observation t target m).0) || is_written_by t target m) ≡ true
unfolding classify_observation classify_for_username classify_for_id
classify_observation-written t target m = elim (Bool-cases (is_username_target target)) [
  | inl e ↦ rw (e, classify_observation) (for_username-written t target.canonical m)
  | inr e ↦ elim (Option-cases (t.int_of target.canonical)) [
    | inl n ↦ rw (e, n, classify_observation, classify_for_id) refl
    | inr (id, n) ↦ elim (Bool-cases (is_id_of t id m.author_id)) [
      | inl w ↦ rw (e, n, w, classify_observation, classify_for_id) refl
      | inr w ↦
          rw (e, n, w, classify_observation, classify_for_id)
            (other_id_kinds (with_text (λ s. t.contains s target.canonical) m.text))
    ]
  ]
]

pub build_observations-map :
    (o : Outside) (target : ParsedTarget) (id : ℕ) (posts : List Post) (rows : List Observation)
    → ((build_observations o target id posts rows).0 ≡ map (seen_of o target) posts)
      × ((build_observations o target id posts rows).1
          ≡ rows ++ map (observation_of o target id) posts)
unfolding build_observations add_observation
build_observations-map o target id [] rows = (refl, sym (append-nil rows))
build_observations-map o target id (m ∷ posts) rows =
    let ih =
      build_observations-map o target id posts (rows ++ (observation_of o target id m ∷ [])) in
    (ap (◌∷◌ (seen_of o target m)) ih.0, ih.1 ∙ append_assoc rows _ _)
