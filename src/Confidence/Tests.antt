-- ===== src/Confidence/Tests.antt =====
-- Two accounts that share a name, a website and the domain of their emails.
use telegram_osint.Base.{◌/◌, min, ◌≡◌, refl, true, false, some, ◌==◌}
use telegram_osint.Confidence.Engine.{
  IdentityFacts, Texts, no_facts, same_name, name_signals, email_signals, cross_signals, signals_of,
  keep_best, best_of, sort_by_weight, band_of, result_of, score_pair,
}
use telegram_osint.Confidence.Kinds.{all_names, has, sum_of}
use telegram_osint.Confidence.Weights.{score_pair_counts}

abbrev texts : Texts
texts = record {
  norm_name = λ n. n;
  website_domain = λ w. some (w / 10);
  normalize_email = λ e. e;
  email_domain = λ e. e / 10;
  normalize_domain = λ d. d;
  half_overlap = λ a b. false;
  bio_overlap = λ a b. a == b;
}

abbrev facts : IdentityFacts
facts = record no_facts { display_name = some 5; website = some 71; email = some 72 }

abbrev peer : IdentityFacts
peer = record facts { email = some 73; bio = some 3 }

-- the match of the domains is found twice and counts once: 25 + 25 + 22 + 10
peer_score : (score_pair texts (some facts) (some peer) true).score ≡ 82
unfolding score_pair result_of signals_of name_signals email_signals cross_signals best_of keep_best
    sort_by_weight band_of same_name
peer_score = refl

score_pair_counts_example :
    (score_pair texts (some facts) (some peer) true).score
    ≡ min 100 (sum_of (has (signals_of texts facts peer true)) all_names)
score_pair_counts_example = score_pair_counts texts (some facts) (some peer) true
