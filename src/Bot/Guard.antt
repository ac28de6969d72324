-- ===== src/Bot/Guard.antt =====
-- apps/bot/guard.py: the wrapper that `authorized` puts round a handler. The handler is a parameter: it
-- changes a world of its own, writes the users by the sessions of Bot/Start.antt, and may raise. The text of a limiter key is a function of the Telegram id
-- and the action; an audit entry is a row of a list, and a write of it
-- that fails, which the code only logs, is left out.
use telegram_osint.Base.{
  ℕ, ◌+◌, Bool, not, ◌&&◌, ◌||◌, Option, none, some, List, [], ◌∷◌, ◌++◌, ltb, if◌then◌else◌,
  Result, ok, err,
}
use telegram_osint.RateLimit.{RateLimitResult, LimitError, Limiter, enforce}
use telegram_osint.Bot.Principal.{
  is_public, Settings, Principal, AccessDenied, resolve_principal, require_admin,
}
use telegram_osint.Bot.Users.{User, QueryError}
use telegram_osint.Bot.Start.{UserWrite, run_writes}
use telegram_osint.Bot.Quota.{QuotaStatus, check_and_consume}

-- the arguments of `authorized`
pub record Command : Type 0 where
  pub action : ℕ
  pub admin : Bool
  pub quota : Bool

pub data AuditResult : Type 0 where
  denied rate_limited quota_exceeded error : AuditResult

-- `audit.record`: a denial is recorded under the action "access_denied" with its reason
pub record AuditEntry : Type 0 where
  pub telegram_id : Option ℕ
  pub action : ℕ
  pub result : AuditResult
  pub reason : Option AccessDenied

-- how the wrapper ends: a reply of its own, the handler's, or an exception that escapes it
pub data Reply : Type 0 where
  render_denied render_rate_limited render_error : Reply
  render_quota_exceeded : QuotaStatus → Reply
  handled : Reply
  limit_error : LimitError → Reply
  query_error : QueryError → Reply

module _ (W : Type 0) where
  -- what the wrapper reads and writes
  pub record Door : Type 0 where
    pub limiter : Limiter
    pub users : List User
    pub audit : List AuditEntry
    pub world : W

  -- the surroundings: the clock, the text of the keys, and the handlers, each with its sessions on the
  -- users and whether it raises besides
  pub record Surroundings : Type 0 where
    pub second : ℕ
    pub key : ℕ → ℕ → ℕ
    pub handler : Command → Principal → W → W × (List UserWrite × Bool)

-- the two checks that may raise `AccessDenied`
unfoldable pub admit : Settings → Bool → Option ℕ → Result AccessDenied Principal
admit s admin telegram_id = elim (resolve_principal s telegram_id) [
  | err e ↦ err e
  | ok p ↦ if admin then require_admin p else ok p
]

module _ {W : Type 0} where
  abbrev pub recorded : Command → Option ℕ → AuditResult → Option AccessDenied → Door W → Door W
  recorded cmd id result reason door = record door {
    audit =
        door.audit
        ++ (record { telegram_id = id; action = cmd.action; result = result; reason = reason }
            ∷ []);
  }

  -- the handler under its `try`
  unfoldable pub handle : Surroundings W → Command → Principal → Door W → Reply × Door W
  handle env cmd p door =
      let (world', (writes, raised)) = env.handler cmd p door.world in
      let (users', failed) = run_writes writes p door.users in
      let door' = record door { users = users'; world = world' } in
      if raised || failed
      then (render_error, recorded cmd (some p.telegram_id) error none door')
      else (handled, door')

  -- the quota, for a public user of a metered command
  unfoldable pub meter : Settings → Surroundings W → Command → Principal → Door W → Reply × Door W
  meter s env cmd p door =
      if cmd.quota && is_public p.role
      then elim (check_and_consume s p.telegram_id door.users) [
        | err e ↦ (query_error e, door)
        | ok (q, users') ↦
            let door' = record door { users = users' } in
            if not q.allowed
            then (
              render_quota_exceeded q,
              recorded cmd (some p.telegram_id) quota_exceeded none door',
            )
            else handle env cmd p door'
      ]
      else handle env cmd p door

  -- after the limiter's verdict
  unfoldable pub judged :
      Settings
      → Surroundings W
      → Command
      → Principal
      → Result LimitError RateLimitResult
      → Door W
      → Reply × Door W
  judged s env cmd p (err e) door = (limit_error e, door)
  judged s env cmd p (ok v) door =
      if not v.allowed
      then (render_rate_limited, recorded cmd (some p.telegram_id) rate_limited none door)
      else meter s env cmd p door

  -- the rate limit of one user on one action, unless it is switched off by a limit of 0
  unfoldable pub throttle :
      Settings → Surroundings W → ℕ → Command → Principal → Door W → Reply × Door W
  throttle s env now cmd p door =
      let (r, limiter') =
        enforce s.rate_limit_enabled env.second (λ i. now + i) s.rate_limit_bot_per_minute 60 0
          (env.key p.telegram_id cmd.action ∷ []) door.limiter in
      if ltb 0 s.rate_limit_bot_per_minute
      then judged s env cmd p r (record door { limiter = limiter' })
      else meter s env cmd p door

  -- `wrapper` of `authorized`
  unfoldable pub authorized :
      Settings → Surroundings W → ℕ → Command → Option ℕ → Door W → Reply × Door W
  authorized s env now cmd telegram_id door = elim (admit s cmd.admin telegram_id) [
    | err e ↦ (render_denied, recorded cmd telegram_id denied (some e) door)
    | ok p ↦ throttle s env now cmd p door
  ]
