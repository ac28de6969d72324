-- ===== src/Bot/Spending.antt =====
-- The account of free actions of one user across steps that change the table of users.
use telegram_osint.Base.{
  ℕ, ◌+◌, ◌-◌, ◌≤◌, ◌≡◌, ◌≢◌, min, max, Bool, ◌&&◌, ◌||◌, List, leb, ltb, ◌==◌, arith, Bool-cases,
  inl, inr, if◌then◌else◌,
}
use telegram_osint.Bot.Principal.{Settings}
use telegram_osint.Bot.Users.{User, matches, count_referrals}
use telegram_osint.Bot.Charge.{Charged}
use telegram_osint.Bot.Lookups.{used_of, Unique}
use telegram_osint.Bot.Bound.{verdict_at, mine_at}

-- Free actions that `x` has left.
abbrev pub left : Settings → ℕ → List User → ℕ
left s x users = s.free_osint_actions - used_of (matches x users)

-- What `n` runs of `x` cost: nothing once enough of those whom `x` invited are there.
abbrev pub owed : Settings → ℕ → List User → ℕ → ℕ
owed s x users n = if ltb (count_referrals x users) s.referral_unlock_count then n else 0

-- A step that takes the table `users` to `users'` with `n` runs of `x`.
pub record Spends (s : Settings) (x : ℕ) (users users' : List User) (n : ℕ) : Type 0 where
  pub unique : Unique users'
  pub paid : owed s x users n + left s x users' ≤ left s x users

pub Spends-none :
    (s : Settings) (x : ℕ) (users : List User) → Unique users → Spends s x users users 0
Spends-none s x users u = record { unique = u; paid = ground arith }

-- A check pays for one run if it is allowed.
pub Spends-check :
    (s : Settings) (x id : ℕ) (users : List User)
    → Unique users
    → (c : Charged s id users)
    → Spends s x users c.table (if id == x && c.given.allowed then 1 else 0)
Spends-check s x id users u c = elim (Bool-cases (id == x)) [
  | inl e ↦
      let at : id ≡ x = ground arith in
      record {
        unique = c.unique;
        paid = rw e (pays (verdict_at s id x users c at) (mine_at s id x users c at));
      }
  | inr e ↦
      let ne : x ≢ id = ground arith in
      record { unique = c.unique; paid = rw (e, c.others x ne) (ground arith) }
]
  where
    pays :
        {allowed : Bool} {used' : ℕ}
        → let unlocked = leb s.referral_unlock_count (count_referrals x users) in
          let used = used_of (matches x users) in
          allowed ≡ (unlocked || ltb used s.free_osint_actions)
          → used' ≡ (if unlocked then used else min (used + 1) (max used s.free_osint_actions))
          → (if ltb (count_referrals x users) s.referral_unlock_count
                then (if allowed then 1 else 0)
                else 0)
              + (s.free_osint_actions - used')
            ≤ s.free_osint_actions - used
    pays a b = ground arith

pub Spends-le :
    (s : Settings) (x : ℕ) (users users' : List User) (m n : ℕ)
    → m ≤ n
    → Spends s x users users' n
    → Spends s x users users' m
Spends-le s x users users' m n h sp = record { unique = sp.unique; paid = ground (arith, sp.paid) }

-- A step between two tables, after which only the count of free actions matters.
pub Spends-then :
    (s : Settings) (x : ℕ) (users table users' : List User) (n : ℕ)
    → Unique users'
    → used_of (matches x users') ≡ used_of (matches x table)
    → Spends s x users table n
    → Spends s x users users' n
Spends-then s x users table users' n u e sp = record { unique = u; paid = rw e sp.paid }
