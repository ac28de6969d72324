-- ===== src/Investigation/Tests.antt =====
-- Tests and witnesses of the investigation.
use telegram_osint.Base.{ℕ, ◌≡◌, refl, true, false, none, some, [], ◌∷◌, ◌==◌, if◌then◌else◌, ok}
use telegram_osint.Indicators.Matches as Matches
use telegram_osint.Workspace.Targets.{telegram_user}
use telegram_osint.Workspace.Investigations.{Investigation, queued, author, mention}
use telegram_osint.Investigation.Target.{Patterns, parse_target, parse_bare, parse_username}
use telegram_osint.Investigation.Classify.{
  Texts, classify_observation, classify_for_username, mentions_username,
}
use telegram_osint.Investigation.Observe.{Outside, Post, message_item, account_item}
use telegram_osint.Investigation.Service.{Db, run}
use telegram_osint.Investigation.Finished.{run-Finished}
use telegram_osint.Investigation.Outcome.{Finished}

-- the text 50 is "@alice_b", 51 the handle in it; 9 has a control character
abbrev patterns : Patterns
patterns = record {
  strip = λ t. t;
  lstrip_at = λ t. if t == 50 then 51 else t;
  len = λ t. 8;
  has_control = λ t. t == 9;
  is_url = λ t. false;
  is_telegram_url = λ t. false;
  normalize_username = λ t. if t == 50 then 51 else t;
  is_digits = λ t. false;
  int_of = λ t. 0;
  is_handle = λ t. t == 51;
  is_username = λ t. t == 51;
  has_double_underscore = λ t. false;
}

-- the text 60 mentions the handle
abbrev texts : Texts
texts = record {
  mentioned = λ t. if t == 60 then 51 ∷ [] else [];
  linked = λ t. [];
  normalize_username = λ t. if t == 50 then 51 else t;
  normalize_raises = λ t. false;
  refers = λ t u. false;
  contains = λ t u. false;
  int_of = λ t. none;
}

abbrev no_matches : Matches.Texts
no_matches = record {
  refang = λ t. t;
  urls = λ t. [];
  telegram_urls = λ t. [];
  emails = λ t. [];
  sha256s = λ t. [];
  sha1s = λ t. [];
  md5s = λ t. [];
  cves = λ t. record { text = 80; start = 1; end = 14 } ∷ [];
  ipv4s = λ t. [];
  ipv6s = λ t. [];
  domains = λ t. [];
  usernames = λ t. [];
  rstrip = λ t. t;
  len = λ t. 20;
  handle_in_url = λ t. none;
  handle = λ t. t;
  host_of = λ t. some none;
  domain_part = λ t. t;
  looks_like_domain = λ t. true;
  valid_ipv6 = λ t. true;
  strip_colons = λ t. t;
  normalize_url = λ t. some t;
  normalize_domain = λ t. t;
  normalize_username = λ t. t;
  normalize_email = λ t. t;
  normalize_hash = λ t. t;
  normalize_cve = λ t. t;
  normalize_ip = λ t. some t;
}

abbrev said : ℕ → ℕ → Post
said who text = record {
  message = record {
    author_username = some who;
    author_id = none;
    text = some text;
    is_reply = false;
    reply_to_author = none;
  };
  source_url = none;
  container_ref = some 70;
  message_id = some text;
  posted_at = some 5;
}

abbrev network : Outside
network = record {
  patterns = patterns;
  texts = texts;
  ioc_texts = no_matches;
  tme_resource = λ t. none;
  unknown_resource = 1;
  cut = λ n t. t;
  operator_configured = true;
  profile_raised = none;
  messages_raised = none;
  aliases_raised = none;
  classifier_raised = 9;
  profile = record { without_source = false; notes = []; items = account_item 40 ∷ [] };
  messages = record {
    without_source = false;
    notes = 3 ∷ [];
    items = message_item (said 50 61) ∷ message_item (said 52 60) ∷ [];
  };
  aliases = record { body = 90; confidence = 99 } ∷ [];
  alias_notes = [];
  report = none;
  error_text = λ e. 1;
  prefixed = λ t. t;
}

abbrev investigation : ℕ → Investigation
investigation target = record {
  id = 7;
  user_id = 2;
  public_id = 700;
  target = target;
  target_type = telegram_user;
  target_normalized = 51;
  status = queued;
  job_id = none;
  report_id = none;
  confidence = none;
  summary = none;
  error = none;
  started_at = none;
  completed_at = none;
  created_at = 1;
}

abbrev stored : Db
stored = record { investigations = investigation 50 ∷ []; observations = [] }

-- what the author says is authorship, and what another says of him is a mention
two_kinds :
    (classify_observation texts
        (record { raw = 50; target_type = telegram_user; canonical = 51 })
        (said 50 61).message
      ≡ (author, 92))
    × (classify_observation texts
          (record { raw = 50; target_type = telegram_user; canonical = 51 })
          (said 52 60).message
        ≡ (mention, 80))
unfolding classify_observation classify_for_username mentions_username
two_kinds = (refl, refl)

parsed_handle :
    parse_target patterns (some 50)
    ≡ ok (record { raw = 50; target_type = telegram_user; canonical = 51 })
unfolding parse_target parse_bare parse_username
parsed_handle = refl

run-Finished_example : Finished network 2 7 stored (run network 1000 2 7 stored)
run-Finished_example = run-Finished network 1000 2 7 stored
