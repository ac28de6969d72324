-- ===== src/RateLimit/Window.antt =====
-- The limiter refines the sliding window: what it accepts is decided by the hits accepted before.
use telegram_osint.Base.{
  ℕ, ◌*◌, ◌≤◌, ◌<◌, ◌≡◌, refl, ap, ◌∙◌, ◌≢◌, Bool, true, false, List, [], ◌∷◌, ◌++◌, length,
  length-append, keep, ◌==◌, if◌then◌else◌, or_else, Result, arith, Bool-cases, inl, inr,
}
use telegram_osint.Base.Dict.{lookup, insert, lookup-insert_self, lookup-insert_ne}
use telegram_osint.RateLimit.{RateLimitResult, LimitError, Limiter, expire, judge, hit}
use telegram_osint.RateLimit.Hits.{
  Hit, is_accepted, run_hits, times, times-append, Chronological, expire-expire, expire-append,
  in_window, window-le-expire,
}

judge_accepts :
    (second limit window now : ℕ) (q : List ℕ)
    → is_accepted (judge second limit window now q).0 ≡ true
    → (length q < limit) × ((judge second limit window now q).1 ≡ q ++ (now ∷ []))
unfolding judge
judge_accepts second limit window now [] h = ground arith
judge_accepts second limit window now (x ∷ q) h = ground arith

judge_refuses :
    (second limit window now : ℕ) (q : List ℕ)
    → is_accepted (judge second limit window now q).0 ≡ false
    → (limit ≤ length q) × ((judge second limit window now q).1 ≡ q)
unfolding judge
judge_refuses second limit window now [] h = ground arith
judge_refuses second limit window now (x ∷ q) h = ground arith

keep-append :
    (p : ℕ → Bool) (q : List ℕ) (x : ℕ)
    → keep p (q ++ (x ∷ [])) ≡ (if p x then keep p q ++ (x ∷ []) else keep p q)
keep-append p [] x = refl
keep-append p (y ∷ q) x = ground (arith, keep-append p q x)

module _ (second limit window_seconds : ℕ) where
  abbrev W : ℕ
  W = window_seconds * second

  -- The deque of every key is what `expire` leaves of the key's accepted hits, at some time past.
  pub record Tracks (now : ℕ) (log : List Hit) (events : Limiter) : Type 0 where
    pub last : ℕ → ℕ
    pub past : (key : ℕ) → last key ≤ now
    pub deque : (key : ℕ) → or_else (lookup key events) [] ≡ expire W (last key) (times key log)

  -- At most `limit` accepted hits of one key lie in any window.
  abbrev pub Bounded : List Hit → Type 0
  Bounded log = (key from : ℕ) → length (keep (in_window W from) (times key log)) ≤ limit

  module _ (now : ℕ) (log : List Hit) (events : Limiter) (tr : Tracks now log events) where
    -- what `expire` leaves of the deque is what it leaves of the key's accepted hits
    seen :
        (key t : ℕ)
        → now ≤ t
        → expire W t (or_else (lookup key events) []) ≡ expire W t (times key log)
    seen key t h =
        rw (tr.deque key)
          (expire-expire W (tr.last key) t (times key log) (omega (arith, tr.past key)))

    hit-judge :
        (key t : ℕ)
        → now ≤ t
        → let j = judge second limit W t (expire W t (times key log)) in
          hit second limit window_seconds t key events ≡ (j.0, insert key j.1 events)
    unfolding hit
    hit-judge key t h =
        ap
          (λ (q : List ℕ).
            let j = judge second limit W t q in
            let r : _ × Limiter = (j.0, insert key j.1 events) in r)
          (seen key t h)

    -- the deques after a hit that leaves `q` for its key
    insert-Tracks :
        (key t : ℕ) (log' : List Hit)
        → now ≤ t
        → ((k : ℕ) → k ≢ key → times k log' ≡ times k log)
        → Tracks t log' (insert key (expire W t (times key log')) events)
    insert-Tracks key t log' h same = record {
      last = λ k. if k == key then t else tr.last k;
      past = λ k. elim (Bool-cases (k == key)) [
        | inl e ↦ rw e (omega arith)
        | inr e ↦ rw e (omega (arith, tr.past k))
      ];
      deque = λ k. elim (Bool-cases (k == key)) [
        | inl e ↦ let at : k ≡ key = ground arith in rw (e, at, lookup-insert_self) refl
        | inr e ↦
            let ne : k ≢ key = ground arith in
            rw (e, lookup-insert_ne key k _ events ne) (rw (same k ne) (tr.deque k))
      ];
    }

    -- the two ends of a hit
    accepted-Bounded :
        (key t : ℕ)
        → length (expire W t (times key log)) < limit
        → Bounded log
        → (k from : ℕ) → length (keep (in_window W from) (times k (log ++ ((key, t) ∷ [])))) ≤ limit
    accepted-Bounded key t room b k from = elim (Bool-cases (key == k)) [
      | inr other ↦ rw (times-append k key t log, other) (b k from)
      | inl same ↦
          let at : key ≡ k = ground arith in
          rw (times-append k key t log, same)
            (rw (keep-append (in_window W from) (times k log) t)
              (elim (Bool-cases (in_window W from t)) [
                | inr outside ↦ rw outside (b k from)
                | inl inside ↦ rw inside (
                    rw (length-append (keep (in_window W from) (times k log)) (t ∷ [])) (
                      let le = window-le-expire W from t (times k log) (ground arith) in
                      let room' : length (expire W t (times k log)) < limit = rw at at room in
                      omega arith))
              ]))
    ]

  -- the log after a hit
  abbrev logged : Bool → Hit → List Hit → List Hit
  logged accepted h log = if accepted then log ++ (h ∷ []) else log

  step_keeps :
      (now key t : ℕ) (log : List Hit) (events : Limiter)
      → now ≤ t
      → Tracks now log events × Bounded log
      → let (r, events') = hit second limit window_seconds t key events in
        let log' = logged (is_accepted r) (key, t) log in Tracks t log' events' × Bounded log'
  step_keeps now key t log events h (tr, b) =
      rw (hit-judge now log events tr key t h) (elim (Bool-cases (is_accepted j.0)) [
        | inl yes' ↦
            let (room, left) = judge_accepts second limit W t q yes' in
            rw (yes', left)
              (
                rw appended at (insert-Tracks now log events tr key t _ h others),
                accepted-Bounded now log events tr key t room b,
              )
        | inr no' ↦
            let (full, left) = judge_refuses second limit W t q no' in
            rw (no', left) (insert-Tracks now log events tr key t log h (λ k ne. refl), b)
      ])
    where
      q : List ℕ
      q = expire W t (times key log)

      j : Result LimitError RateLimitResult × List ℕ
      j = judge second limit W t q

      log' : List Hit
      log' = log ++ ((key, t) ∷ [])

      others : (k : ℕ) → k ≢ key → times k log' ≡ times k log
      others k ne =
          let other : (key == k) ≡ false = ground arith in times-append k key t log ∙ rw other

      appended : expire W t (times key log') ≡ q ++ (t ∷ [])
      appended =
          let same : (key == key) ≡ true = ground arith in
          rw (times-append key key t log, same) (expire-append W t t (times key log) (omega arith))

  -- the end of a run
  pub last_time : ℕ → List Hit → ℕ
  last_time now [] = now
  last_time now ((key, t) ∷ hits) = last_time t hits

  pub run_keeps :
      (hits : List Hit) (now : ℕ) (log : List Hit) (events : Limiter)
      → Chronological now hits
      → Tracks now log events × Bounded log
      → let (log', events') = run_hits second limit window_seconds hits log events in
        Tracks (last_time now hits) log' events' × Bounded log'
  unfolding run_hits last_time
  run_keeps [] now log events c inv = inv
  run_keeps ((key, t) ∷ hits) now log events c inv =
      run_keeps hits t _ _ c.1 (step_keeps now key t log events c.0 inv)

  pub start : Tracks 0 [] [] × Bounded []
  unfolding lookup expire times
  start = (record { last = λ k. 0; past = λ k. omega arith; deque = λ k. refl }, λ k f. omega arith)

  -- A fresh limiter that is hit in the order of time, by any keys, accepts at most `limit` hits of one
  -- key in any window of `window_seconds`.
  pub run_hits-Bounded :
      (hits : List Hit)
      → Chronological 0 hits
      → Bounded (run_hits second limit window_seconds hits [] []).0
  run_hits-Bounded hits c = (run_keeps hits 0 [] [] c start).1
