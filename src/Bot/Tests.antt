-- ===== src/Bot/Tests.antt =====
-- A bot with one administrator, one analyst and a public tier of two free actions.
use telegram_osint.Base.{
  ℕ, ◌+◌, ◌≤◌, ◌≡◌, refl, true, false, some, List, [], ◌∷◌, arith, if◌then◌else◌, leb, min, ◌*◌,
  ◌==◌, not,
}
use telegram_osint.Base.Dict.{lookup, insert}
use telegram_osint.RateLimit.{enforce, hit, judge, expire}
use telegram_osint.Bot.Principal.{
  user, analyst, Settings, AccessDenied, resolve_principal, require_admin,
}
use telegram_osint.Bot.Users.{
  User, new_user, get_by_telegram_id, one_or_none, get_or_create_for_telegram, count_referrals,
  consume_free_action, record_referral,
}
use telegram_osint.Bot.Start.{starts, resolves, run_writes, write_users, start, is_created, refer}
use telegram_osint.Bot.Quota.{charge, check_and_consume}
use telegram_osint.Bot.Lookups.{Unique}
use telegram_osint.Bot.Bound.{count_allowed, count_allowed_exact}
use telegram_osint.Bot.Guard.{
  Command, render_denied, denied, Door, Surroundings, admit, recorded, handle, meter, judged,
  throttle, authorized,
}
use telegram_osint.Bot.Admission.{authorized_denied}
use telegram_osint.Bot.Metering.{Call, metered_runs, metered_runs_bounded}
use telegram_osint.Bot.Referral.{record_referrals, record_referrals_first}

abbrev settings : Settings
settings = record {
  admin_ids = 1 ∷ [];
  allowed_ids = 2 ∷ [];
  public_bot_enabled = true;
  rate_limit_enabled = true;
  rate_limit_bot_per_minute = 20;
  free_osint_actions = 2;
  referral_unlock_count = 3;
}

abbrev users : List User
users = record (new_user 7 user) { free_actions_used = 1; invited_by_telegram_id = some 8 } ∷ []

users-Unique : Unique users
users-Unique id = ground arith

abbrev checks : List ℕ
checks = 7 ∷ 8 ∷ 7 ∷ 8 ∷ 8 ∷ []

run_checks : count_allowed settings 8 checks users ≡ 2
unfolding count_allowed check_and_consume get_or_create_for_telegram get_by_telegram_id one_or_none
    charge count_referrals consume_free_action
run_checks = refl

count_allowed_exact_example :
    count_allowed settings 8 checks users ≡ (if leb 3 (count_referrals 8 users) then 3 else min 3 2)
count_allowed_exact_example = count_allowed_exact settings 8 checks users users-Unique

-- handlers that count their runs: those of metered commands resolve the sender, the others are `/start` with
-- a link of the user 7; they raise on every user but the administrator
abbrev surroundings : Surroundings ℕ
surroundings = record {
  second = 1;
  key = λ id action. id * 100 + action;
  handler = λ cmd p w. (
    w + 1,
    (if cmd.quota then resolves analyst ∷ [] else starts (some 7) ∷ [], not (p.telegram_id == 1)),
  );
}

abbrev door : Door ℕ
door = record { limiter = []; users = users; audit = []; world = 0 }

abbrev investigate : Command
investigate = record { action = 5; admin = false; quota = true }

abbrev add_job : Command
add_job = record { action = 6; admin = true; quota = false }

authorized_denied_example :
    (e : AccessDenied) × (authorized settings surroundings 100 add_job (some 2) door
      ≡ (render_denied, recorded add_job (some 2) denied (some e) door))
authorized_denied_example = authorized_denied settings surroundings 100 add_job (some 2) door refl

-- `/start`
abbrev begin : Command
begin = record { action = 7; admin = false; quota = false }

abbrev calls : List Call
calls =
    (100, investigate, some 7)
    ∷ (101, investigate, some 2)
    ∷ (102, investigate, some 7)
    ∷ (103, begin, some 11)
    ∷ (104, begin, some 12)
    ∷ (105, investigate, some 7)
    ∷ (106, begin, some 13)
    ∷ (107, investigate, some 7)
    ∷ []

-- the user 7 has one free action left; the third call is refused, and the fourth is let in for three referrals
run_calls : metered_runs settings surroundings 7 calls door ≡ 1
unfolding metered_runs authorized throttle judged meter handle admit resolve_principal require_admin
    enforce hit judge expire check_and_consume get_or_create_for_telegram get_by_telegram_id
    one_or_none charge count_referrals consume_free_action lookup insert run_writes write_users
    start is_created refer record_referral
run_calls = refl

metered_runs_bounded_example : metered_runs settings surroundings 7 calls door ≤ 1
metered_runs_bounded_example =
    metered_runs_bounded settings surroundings 7 calls door refl refl users-Unique

record_referrals_first_example :
    record_referrals (9 ∷ 8 ∷ 7 ∷ []) (new_user 9 user)
    ≡ record (new_user 9 user) { invited_by_telegram_id = some 8 }
record_referrals_first_example = record_referrals_first (9 ∷ 8 ∷ 7 ∷ []) (new_user 9 user) refl
