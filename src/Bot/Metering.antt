-- ===== src/Bot/Metering.antt =====
-- A public user runs metered commands at most as often as there are free actions left.
use telegram_osint.Base.{
  ℕ, ◌+◌, ◌≤◌, ◌≡◌, refl, Bool, true, false, not, ◌&&◌, Option, none, some, List, [], ◌∷◌, ltb,
  ◌==◌, arith, Bool-cases, inl, inr, if◌then◌else◌, Result, ok, err, Result-cases,
}
use telegram_osint.RateLimit.{RateLimitResult, LimitError}
use telegram_osint.Bot.Principal.{is_public, listed, Settings, Principal}
use telegram_osint.Bot.Users.{User, is_id}
use telegram_osint.Bot.Quota.{QuotaStatus, check_and_consume}
use telegram_osint.Bot.Charge.{Charged, charged}
use telegram_osint.Bot.Lookups.{Unique}
use telegram_osint.Bot.Spending.{
  left, Spends, owed, Spends-none, Spends-check, Spends-le, Spends-then,
}
use telegram_osint.Bot.Start.{run_writes}
use telegram_osint.Bot.Kept.{run_writes-Keeps}
use telegram_osint.Bot.Admission.{admit-permitted, unlisted_public}
use telegram_osint.Bot.Guard.{
  Command, quota_exceeded, Reply, render_error, render_quota_exceeded, handled, Door, Surroundings,
  admit, recorded, handle, meter, judged, throttle, authorized,
}

-- A call of the bot: the time, the command and the sender.
abbrev pub Call : Type 0
Call = ℕ × Command × Option ℕ

-- Did the handler run.
abbrev pub ran : Reply → Bool
ran handled = true
ran render_error = true
ran _ = false

impossible : {P : Type 0} → false ≡ true → P
impossible h = absurd (cc h)

-- one run of a metered command for `x`, or none
abbrev pub metered_run : ℕ → Command → Option ℕ → Reply → ℕ
metered_run x cmd id r = if cmd.quota && (is_id x id && ran r) then 1 else 0

handle-users :
    {W : Type 0} (env : Surroundings W) (cmd : Command) (p : Principal) (door : Door W)
    → (handle env cmd p door).1.users
      ≡ (run_writes (env.handler cmd p door.world).1.0 p door.users).0
unfolding handle
handle-users env cmd p door = ground arith

-- what the handler leaves of the users
handle-Spends :
    {W : Type 0} (s : Settings) (env : Surroundings W) (x : ℕ) (cmd : Command) (p : Principal)
    (users : List User) (door : Door W) (n : ℕ)
    → Spends s x users door.users n
    → Spends s x users (handle env cmd p door).1.users n
handle-Spends s env x cmd p users door n sp =
    let writes = (env.handler cmd p door.world).1.0 in
    let k = run_writes-Keeps writes p door.users sp.unique in
    rw (handle-users env cmd p door)
      (Spends-then s x users door.users (run_writes writes p door.users).0 n k.unique (k.used x) sp)

module _ {W : Type 0} (s : Settings) (env : Surroundings W) (x : ℕ) where
  -- A stage that got this far leaves the users as a run of `x` at most must leave them.
  abbrev Pays : Command → Principal → Door W → Reply × Door W → Type 0
  Pays cmd p door r = Spends s x door.users r.1.users (metered_run x cmd (some p.telegram_id) r.0)

  unmetered :
      (quota mine did public : Bool)
      → (mine ≡ true → public ≡ true)
      → (quota && public) ≡ false
      → (if quota && (mine && did) then 1 else 0) ≤ 0
  unmetered quota mine did public h free = ground arith

  metered :
      (quota mine did allowed : Bool)
      → (did ≡ true → allowed ≡ true)
      → (if quota && (mine && did) then 1 else 0) ≤ (if mine && allowed then 1 else 0)
  metered quota mine did allowed h = ground arith

  meter_free :
      (cmd : Command) (p : Principal) (door : Door W)
      → Unique door.users
      → (is_id x (some p.telegram_id) ≡ true → is_public p.role ≡ true)
      → (cmd.quota && is_public p.role) ≡ false
      → Pays cmd p door (handle env cmd p door)
  meter_free cmd p door u h free =
      Spends-le s x door.users (handle env cmd p door).1.users
        (metered_run x cmd (some p.telegram_id) (handle env cmd p door).0) 0
        (unmetered cmd.quota (p.telegram_id == x) (ran (handle env cmd p door).0) (is_public p.role)
          h free)
        (handle-Spends s env x cmd p door.users door 0 (Spends-none s x door.users u))

  meter_checked :
      (cmd : Command) (p : Principal) (door : Door W) (q : QuotaStatus) (users' : List User)
      → (cmd.quota && is_public p.role) ≡ true
      → check_and_consume s p.telegram_id door.users ≡ ok (q, users')
      → meter s env cmd p door ≡ (
          let door' = record door { users = users' } in
          if not q.allowed
          then (
            render_quota_exceeded q,
            recorded cmd (some p.telegram_id) quota_exceeded none door',
          )
          else handle env cmd p door')
  unfolding meter
  meter_checked cmd p door q users' e c = rw e (rw (c, meter) refl)

  meter_skipped :
      (cmd : Command) (p : Principal) (door : Door W)
      → (cmd.quota && is_public p.role) ≡ false
      → meter s env cmd p door ≡ handle env cmd p door
  unfolding meter
  meter_skipped cmd p door e = rw e refl

  verdict-Pays :
      (cmd : Command) (p : Principal) (door : Door W)
      → Unique door.users
      → (c : Charged s p.telegram_id door.users) → (r : Reply × Door W)
      → Spends s x door.users r.1.users (if p.telegram_id == x && c.given.allowed then 1 else 0)
      → (ran r.0 ≡ true → c.given.allowed ≡ true)
      → Pays cmd p door r
  verdict-Pays cmd p door u c r sp did =
      Spends-le s x door.users r.1.users (metered_run x cmd (some p.telegram_id) r.0)
        (if p.telegram_id == x && c.given.allowed then 1 else 0)
        (metered cmd.quota (p.telegram_id == x) (ran r.0) c.given.allowed did) sp

  meter-Pays :
      (cmd : Command) (p : Principal) (door : Door W)
      → Unique door.users
      → (is_id x (some p.telegram_id) ≡ true → is_public p.role ≡ true)
      → Pays cmd p door (meter s env cmd p door)
  meter-Pays cmd p door u h = elim (Bool-cases (cmd.quota && is_public p.role)) [
    | inr free ↦ rw (meter_skipped cmd p door free) (meter_free cmd p door u h free)
    | inl checked ↦
        rw (meter_checked cmd p door c.given c.table checked c.returned)
          (elim (Bool-cases c.given.allowed) [
            | inl yes' ↦ rw yes' (
                verdict-Pays cmd p door u c (handle env cmd p door')
                  (handle-Spends s env x cmd p door.users door' _ paid) (λ d. yes'))
            | inr no' ↦ rw no' (
                verdict-Pays cmd p door u c
                  (
                    render_quota_exceeded c.given,
                    recorded cmd (some p.telegram_id) quota_exceeded none door',
                  )
                  paid impossible)
          ])
  ]
    where
      c : Charged s p.telegram_id door.users
      c = charged s p.telegram_id door.users u

      door' : Door W
      door' = record door { users = c.table }

      paid : Spends s x door.users c.table (if p.telegram_id == x && c.given.allowed then 1 else 0)
      paid = Spends-check s x p.telegram_id door.users u c

  unrun :
      (cmd : Command) (id : Option ℕ) → (if cmd.quota && (is_id x id && false) then 1 else 0) ≤ 0
  unrun cmd id = ground arith

  judged-Pays :
      (cmd : Command) (p : Principal) (r : Result LimitError RateLimitResult) (door : Door W)
      → Unique door.users
      → (is_id x (some p.telegram_id) ≡ true → is_public p.role ≡ true)
      → Pays cmd p door (judged s env cmd p r door)
  unfolding judged
  judged-Pays cmd p (err e) door u h =
      Spends-le s x door.users door.users _ 0 (unrun cmd (some p.telegram_id))
        (Spends-none s x door.users u)
  judged-Pays cmd p (ok v) door u h = elim (Bool-cases v.allowed) [
    | inl yes' ↦ rw yes' (meter-Pays cmd p door u h)
    | inr no' ↦ rw no' (
        Spends-le s x door.users door.users _ 0 (unrun cmd (some p.telegram_id))
          (Spends-none s x door.users u))
  ]

  throttle-Pays :
      (now : ℕ) (cmd : Command) (p : Principal) (door : Door W)
      → Unique door.users
      → (is_id x (some p.telegram_id) ≡ true → is_public p.role ≡ true)
      → Pays cmd p door (throttle s env now cmd p door)
  unfolding throttle
  throttle-Pays now cmd p door u h = elim (Bool-cases (ltb 0 s.rate_limit_bot_per_minute)) [
    | inl on ↦ rw on (judged-Pays cmd p _ _ u h)
    | inr off ↦ rw off (meter-Pays cmd p door u h)
  ]

  admit_public :
      (admin_only : Bool) (id : Option ℕ) (p : Principal)
      → listed x s.admin_ids ≡ false
      → listed x s.allowed_ids ≡ false
      → admit s admin_only id ≡ ok p
      → is_id x (some p.telegram_id) ≡ true
      → is_public p.role ≡ true
  admit_public admin_only id p a l e same =
      let at : x ≡ p.telegram_id = ground arith in
      unlisted_public s admin_only id p e (rw at at a) (rw at at l)

  authorized-Spends :
      (now : ℕ) (cmd : Command) (id : Option ℕ) (door : Door W)
      → listed x s.admin_ids ≡ false
      → listed x s.allowed_ids ≡ false
      → Unique door.users
      → let r = authorized s env now cmd id door in
        Spends s x door.users r.1.users (metered_run x cmd id r.0)
  unfolding authorized
  authorized-Spends now cmd id door a l u = elim (Result-cases (admit s cmd.admin id)) [
    | inr (e, refused) ↦
        rw (refused, authorized)
          (Spends-le s x door.users door.users _ 0 (unrun cmd id) (Spends-none s x door.users u))
    | inl (p, let_in) ↦
        rw (let_in, authorized, (admit-permitted s cmd.admin id p let_in).1)
          (throttle-Pays now cmd p door u (admit_public cmd.admin id p a l let_in))
  ]

  -- How often the handler of a metered command runs for `x`, as long as `x` has too few referrals.
  unfoldable pub metered_runs : List Call → Door W → ℕ
  metered_runs [] door = 0
  metered_runs ((now, cmd, id) ∷ calls) door =
      let (r, door') = authorized s env now cmd id door in
      owed s x door.users (metered_run x cmd id r) + metered_runs calls door'

  -- However the calls of all users interleave, `/start` with a referral link included, a user who is on no
  -- list gets the handler of a metered command run, while that user has too few referrals, at most as often
  -- as there are free actions left. The table of users has no double rows at the start.
  pub metered_runs_bounded :
      (calls : List Call) (door : Door W)
      → listed x s.admin_ids ≡ false
      → listed x s.allowed_ids ≡ false
      → Unique door.users
      → metered_runs calls door ≤ left s x door.users
  unfolding metered_runs
  metered_runs_bounded [] door a l u = omega arith
  metered_runs_bounded ((now, cmd, id) ∷ calls) door a l u =
      let sp = authorized-Spends now cmd id door a l u in
      let door' = (authorized s env now cmd id door).1 in
      omega (arith, sp.paid, metered_runs_bounded calls door' a l sp.unique)
