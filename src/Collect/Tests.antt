-- ===== src/Collect/Tests.antt =====
-- A fetch with a redirect to a private host, and a collection with a record given twice.
use text.Mathlib.Text.{◌==◌ as str_eq}
use telegram_osint.Base.{
  ◌≡◌, refl, true, false, none, some, List, [], ◌∷◌, ok, err, if◌then◌else◌, All,
}
use telegram_osint.Collect.Http.{
  Address, Response, Net, FetchSettings, non_public, one_of, is_local, ip_is_public, candidates_of,
  check_addresses, check_host, check_url, after_answer, request_loop, request,
}
use telegram_osint.Collect.Guarded.{Safe, request-Safe}
use telegram_osint.Collect.Collector.{
  null, string, number, sort_items, NormalizedRecord, key_of, same_key, is_unusable, is_unhashable,
  validate_loop, validate, Source, exception, supports, assemble, run,
}
use telegram_osint.Collect.Collected.{Valid, Represented, validate-Valid}

abbrev public : Address
public = record {
  text = "93.184.216.34";
  is_loopback = false;
  is_private = false;
  is_link_local = false;
  is_multicast = false;
  is_reserved = false;
  is_unspecified = false;
}

abbrev page : Response
page = record { status_code = 200; is_redirect = false; location = ""; content = 1 ∷ 2 ∷ 3 ∷ [] }

abbrev moved : Response
moved = record { status_code = 302; is_redirect = true; location = "http://inside/"; content = [] }

-- two hosts, of which one is private and the other answers with a page at "http://out/a" only
abbrev net : Net
net = record {
  scheme = λ url. "http";
  hostname = λ url. if str_eq url "http://inside/" then some "inside" else some "out";
  lower = λ s. s;
  ip_address = λ ip.
      if str_eq ip "93.184.216.34"
      then some public
      else if str_eq ip "10.0.0.1"
      then some (record public { text = "10.0.0.1"; is_private = true })
      else none;
  resolve =
      λ hop host. if str_eq host "out" then some ("93.184.216.34" ∷ []) else some ("10.0.0.1" ∷ []);
  join = λ current location. location;
  request = λ hop method url. if str_eq url "http://out/a" then some page else some moved;
}

abbrev settings : FetchSettings
settings = record { allow_private = false; max_bytes = 2; max_redirects = 3 }

redirected_inside :
    request net settings "GET" "http://out/b" ≡ (err non_public, (0, "http://out/b") ∷ [])
unfolding request request_loop after_answer check_url check_host check_addresses candidates_of
    ip_is_public one_of is_local
redirected_inside = refl

request-Safe_example : Safe net settings (request net settings "GET" "http://out/b").1 4
request-Safe_example = request-Safe net settings "GET" "http://out/b"

abbrev account : NormalizedRecord
account = record {
  ref = 1;
  entity_type = 4;
  natural_key = (2, number 42) ∷ (1, string 7) ∷ [];
  body = 0;
}

-- the same key in another order, and a record without a usable key
abbrev records : List NormalizedRecord
records =
    account
    ∷ record account { ref = 2; natural_key = (1, string 7) ∷ (2, number 42) ∷ [] }
    ∷ record account { natural_key = (1, string 0) ∷ (2, null) ∷ [] }
    ∷ []

validate_records : validate records ≡ ok (account ∷ [])
unfolding validate validate_loop is_unusable is_unhashable same_key key_of sort_items
validate_records = refl

validate-Valid_example :
    (out : List NormalizedRecord) × (validate records ≡ ok out)
    × Valid out
    × All (Represented out) records
unfolding is_unhashable
validate-Valid_example = validate-Valid records (refl, (refl, (refl, tt)))

abbrev broken : Source
broken = record {
  source_type = 1;
  supported_kinds = 5 ∷ [];
  collect = λ request. ok (record { payload = request; partial = false; error = none; notes = [] });
  normalize = λ raw. err (exception 9);
  relationships = λ raw rs. ok [];
}

run_raises : run broken 5 0 ≡ err (exception 9)
unfolding run supports assemble
run_raises = refl
