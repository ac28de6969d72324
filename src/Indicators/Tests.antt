-- ===== src/Indicators/Tests.antt =====
-- Tests and witnesses of the extraction.
use telegram_osint.Base.{
  ◌+◌, ◌≡◌, refl, true, none, some, List, [], ◌∷◌, ◌==◌, if◌then◌else◌, ok, err,
}
use telegram_osint.Base.Sorting.{sort_on, insert_on}
use telegram_osint.Indicators.Matches.{
  Texts, Match, invalid_address, invalid_url, domain, url, email, from_url, from_email, inside,
  same_key,
}
use telegram_osint.Indicators.Extract.{
  extract_iocs, scan, scan_middle, scan_last, scan_ipv6, dedupe, by_place, first_of_key, scan_url,
  derived, scan_email, scan_domain, scan_username,
}
use telegram_osint.Indicators.Unique.{Extracted, extract_iocs-Extracted}

-- one text, in which a URL is followed by its host, by an email of another domain and by that domain; its
-- names for texts are: 20 the URL, 21 its host, 30 the email, 31 its domain
abbrev sample : List Match → Texts
sample addresses = record {
  refang = λ t. t;
  urls = λ t. record { text = 20; start = 5; end = 25 } ∷ [];
  telegram_urls = λ t. [];
  emails = λ t. record { text = 30; start = 40; end = 50 } ∷ [];
  sha256s = λ t. [];
  sha1s = λ t. [];
  md5s = λ t. [];
  cves = λ t. [];
  ipv4s = λ t. [];
  ipv6s = λ t. addresses;
  domains = λ t.
      record { text = 21; start = 12; end = 25 }
      ∷ record { text = 21; start = 30; end = 38 }
      ∷ record { text = 31; start = 44; end = 50 }
      ∷ record { text = 31; start = 60; end = 66 }
      ∷ [];
  usernames = λ t. [];
  rstrip = λ t. t;
  len = λ t. 20;
  handle_in_url = λ t. none;
  handle = λ t. t;
  host_of = λ t. some (some 21);
  domain_part = λ t. t + 1;
  looks_like_domain = λ t. true;
  valid_ipv6 = λ t. true;
  strip_colons = λ t. t + 1;
  normalize_url = λ t. some t;
  normalize_domain = λ t. t;
  normalize_username = λ t. t;
  normalize_email = λ t. t;
  normalize_hash = λ t. t;
  normalize_cve = λ t. t;
  normalize_ip = λ t. if t == 71 then none else some t;
}

abbrev torn : Match
torn = record { text = 70; start = 70; end = 80 }

-- the keys that `extract_iocs` returns
four_indicators :
    extract_iocs (sample []) 9
    ≡ ok (
        record {
          ioc_type = domain;
          value = 21;
          normalized = 21;
          start = 5;
          end = 25;
          derived_from = some from_url;
        }
        ∷ record {
          ioc_type = url;
          value = 20;
          normalized = 20;
          start = 5;
          end = 25;
          derived_from = none;
        }
        ∷ record {
          ioc_type = domain;
          value = 31;
          normalized = 31;
          start = 40;
          end = 50;
          derived_from = some from_email;
        }
        ∷ record {
          ioc_type = email;
          value = 30;
          normalized = 30;
          start = 40;
          end = 50;
          derived_from = none;
        }
        ∷ [])
unfolding extract_iocs scan scan_middle scan_last scan_ipv6 dedupe by_place first_of_key scan_url
    derived scan_email scan_domain scan_username inside same_key sort_on insert_on
four_indicators = refl

-- an address such as 2001:db8:: raises
torn_address : extract_iocs (sample (torn ∷ [])) 9 ≡ err (invalid_address 70)
unfolding extract_iocs scan scan_middle scan_last scan_ipv6 scan_url derived scan_email scan_domain
    scan_username inside
torn_address = refl

-- a URL such as http://a.com:99999/ raises
bad_port : extract_iocs (record (sample []) { normalize_url = λ t. none }) 9 ≡ err (invalid_url 20)
unfolding extract_iocs scan scan_url
bad_port = refl

extract_iocs-Extracted_example :
    Extracted (sample (torn ∷ [])) 9 (extract_iocs (sample (torn ∷ [])) 9)
extract_iocs-Extracted_example = extract_iocs-Extracted (sample (torn ∷ [])) 9
