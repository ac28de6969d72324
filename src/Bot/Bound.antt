-- ===== src/Bot/Bound.antt =====
-- A public user without enough referrals gets exactly the free actions, however the users interleave.
use telegram_osint.Base.{
  ℕ, ◌+◌, ◌-◌, min, ◌≡◌, refl, ap, ◌∙◌, ◌≢◌, Bool, ◌&&◌, ◌||◌, max, List, [], ◌∷◌, ◌==◌, leb, ltb,
  if◌then◌else◌, ok, err, arith, Bool-cases, inl, inr,
}
use telegram_osint.Bot.Principal.{Settings}
use telegram_osint.Bot.Users.{User, matches, count_referrals}
use telegram_osint.Bot.Quota.{QuotaStatus, check_and_consume}
use telegram_osint.Bot.Charge.{Charged, charged}
use telegram_osint.Bot.Lookups.{used_of, Unique}

-- how often `x` stands in a list of ids
abbrev pub count : ℕ → List ℕ → ℕ
count x [] = 0
count x (id ∷ ids) = (if id == x then 1 else 0) + count x ids

-- How many checks of `x` are allowed while the users `ids` are checked one after another.
unfoldable pub count_allowed : Settings → ℕ → List ℕ → List User → ℕ
count_allowed s x [] users = 0
count_allowed s x (id ∷ ids) users = elim (check_and_consume s id users) [
  | err e ↦ 0
  | ok (q, users') ↦ (if id == x && q.allowed then 1 else 0) + count_allowed s x ids users'
]

count_allowed_step :
    (s : Settings) (x id : ℕ) (ids : List ℕ) (users table : List User) (q : QuotaStatus)
    → check_and_consume s id users ≡ ok (q, table)
    → count_allowed s x (id ∷ ids) users
      ≡ (if id == x && q.allowed then 1 else 0) + count_allowed s x ids table
unfolding count_allowed
count_allowed_step s x id ids users table q e = rw (e, count_allowed) refl

charge_counts :
    (allowed unlocked : Bool) (n free used used' : ℕ)
    → allowed ≡ (unlocked || ltb used free)
    → used' ≡ (if unlocked then used else min (used + 1) (max used free))
    → (if allowed then 1 else 0) + (if unlocked then n else min n (free - used'))
      ≡ (if unlocked then 1 + n else min (1 + n) (free - used))
charge_counts allowed unlocked n free used used' a u = ground arith

module _ (s : Settings) (id x : ℕ) (users : List User) (c : Charged s id users) (at : id ≡ x) where
  pub verdict_at : c.given.allowed ≡ (
      leb s.referral_unlock_count (count_referrals x users)
      || ltb (used_of (matches x users)) s.free_osint_actions)
  verdict_at = rw (← at) c.verdict

  pub mine_at : used_of (matches x c.table) ≡ (
      if leb s.referral_unlock_count (count_referrals x users)
      then used_of (matches x users)
      else min
          (used_of (matches x users) + 1)
          (max (used_of (matches x users)) s.free_osint_actions))
  mine_at = rw (← at) c.mine

-- On a table without double rows, however the checks of other users interleave: a user with enough
-- referrals is allowed every check, and any other user exactly as many as there are free actions left.
pub count_allowed_exact :
    (s : Settings) (x : ℕ) (ids : List ℕ) (users : List User)
    → Unique users
    → count_allowed s x ids users ≡ (
        if leb s.referral_unlock_count (count_referrals x users)
        then count x ids
        else min (count x ids) (s.free_osint_actions - used_of (matches x users)))
unfolding count_allowed
count_allowed_exact s x [] users unique = ground arith
count_allowed_exact s x (id ∷ ids) users unique =
    let c = charged s id users unique in
    count_allowed_step s x id ids users c.table c.given c.returned
    ∙ ap (◌+◌ (if id == x && c.given.allowed then 1 else 0))
        (count_allowed_exact s x ids c.table c.unique)
    ∙ rw (c.referrals x) (elim (Bool-cases (id == x)) [
      | inl e ↦
          let at : id ≡ x = ground arith in
          rw e
            (charge_counts _ _ _ _ _ _ (verdict_at s id x users c at) (mine_at s id x users c at))
      | inr e ↦ let ne : x ≢ id = ground arith in rw (e, c.others x ne) (ground arith)
    ])
