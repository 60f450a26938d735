-- ===== src/Gateway/Fetch/Examples.antt =====
-- A page that redirects, in a small net.
use arbeiterfarm.Base.{
  ◌≡◌, refl, ◌⊎◌, inl, inr, Bool, true, false, none, some, List, [], ◌∷◌, map, arith, if◌then◌else◌,
}
use arbeiterfarm.Base.Text.{
  Text, lit, text_eq, byte_len, is_whitespace, trim_start_matches, trim_end_matches, trim, split,
}
use arbeiterfarm.Gateway.Ssrf.{is_private_ipv4, is_private_ip, same_prefix, ip_in_cidr, v4}
use arbeiterfarm.Gateway.Ssrf.Ranges.{octets}
use arbeiterfarm.Gateway.Rules.{
  Url, RuleRow, ascii_lower, eq_ignore_ascii_case, digits_value, parse_u8, parse_cidr, matches_cidr,
  matches_rule, first_match, is_block, evaluate_allows, evaluate_rules,
}
use arbeiterfarm.Gateway.Rules.Examples.{literal_lib, rule_of}
use arbeiterfarm.Gateway.Fetch.{
  FetchError, Net, Config, read_body, split_at_tag, title_of, cache_get, cache_put, World,
  check_scheme, check_rules, first_private, resolve, resolve_and_validate, pinned, redirect_url,
  checked_request, next_request, follow_redirects, ssrf_blocked, url_blocked,
}
use arbeiterfarm.Gateway.Fetch.Handler.{
  Reply, Call, served, from_cache, body_text, store, finish, fetch, parse_request, fetch_allowed,
  handle_fetch,
}
use arbeiterfarm.Gateway.Fetch.Checks.{IsGuarded}
use arbeiterfarm.Gateway.Fetch.Guarded.{handle_fetch-IsGuarded}
use arbeiterfarm.Gateway.Fetch.Body.{IsCapped, read_body-IsCapped}

-- A URL is its host here.
abbrev web : Text → Url
web host = record { host_str = some host; as_str = host }

-- `a` redirects to `b`, whose address is public when it is first asked for, and `c` to `lan`.
abbrev small_net : Net
small_net = record {
  parse = λ s. some (web s);
  join = λ url s. some (web s);
  scheme = λ url. lit "https";
  port_or_known_default = λ url. some 443;
  lookup_host = λ round host port.
      if text_eq host (lit "lan")
      then some (v4 (octets 10 0 0 1) ∷ [])
      else some (v4 (octets 93 184 216 34) ∷ []);
  geoip = none;
  send = λ round request. some (
      if text_eq request.host (lit "a")
      then record {
        status = 302;
        location = some (some (lit "b"));
        content_type = none;
        chunks = [];
      }
      else if text_eq request.host (lit "c")
      then record {
        status = 302;
        location = some (some (lit "lan"));
        content_type = none;
        chunks = [];
      }
      else record {
        status = 200;
        location = none;
        content_type = none;
        chunks = some (1 ∷ 2 ∷ []) ∷ some (3 ∷ 4 ∷ []) ∷ [];
      });
  digest = λ s. s;
  html2text = λ bytes. bytes;
  from_utf8 = λ bytes. some bytes;
  from_utf8_lossy = λ bytes. bytes;
}

abbrev limits : Config
limits = record { max_redirects = 3; max_response_bytes = 3; cache_ttl = 60 }

abbrev call_of : Text → List RuleRow → Call
call_of url rules = record {
  url = some url;
  user_rate = true;
  rules = some rules;
  global_rate = true;
  now = 10;
}

abbrev fresh : World literal_lib small_net
fresh = record { requests = []; regexes = []; pages = [] }

abbrev answer :
    Text
    → List RuleRow
    → World literal_lib small_net
    → (FetchError ⊎ Reply) × World literal_lib small_net
answer url rules = handle_fetch literal_lib small_net limits (call_of url rules)

abbrev hosts : World literal_lib small_net → List Text
hosts w = map (λ r. r.host) w.requests

abbrev page_b : Reply
page_b = record {
  url = lit "b";
  status = 200;
  content_type = none;
  body = some (1 ∷ 2 ∷ 3 ∷ []);
  body_length = 3;
  truncated = true;
  cached = false;
}

redirected :
    ((answer (lit "a") [] fresh).0 ≡ inr page_b)
    × (hosts (answer (lit "a") [] fresh).1 ≡ lit "a" ∷ lit "b" ∷ [])
    × ((answer (lit "c") [] fresh).0 ≡ inl (ssrf_blocked (v4 (octets 10 0 0 1))))
    × (hosts (answer (lit "c") [] fresh).1 ≡ lit "c" ∷ [])
unfolding handle_fetch parse_request check_scheme check_rules evaluate_rules first_match
    evaluate_allows fetch_allowed served cache_get fetch resolve_and_validate resolve first_private
    is_private_ip is_private_ipv4 pinned follow_redirects next_request redirect_url checked_request
    finish read_body body_text store text_eq byte_len
redirected = (refl, refl, refl, refl)

abbrev no_such_network : List RuleRow
no_such_network = rule_of (lit "block") (lit "ip_cidr") (lit "10.0.0.0/0") ∷ []

abbrev is_cached : FetchError ⊎ Reply → Bool
is_cached (inl e) = false
is_cached (inr reply) = reply.cached

-- The page that one project fetched is served to another whose rules block its address.
served_past_rules :
    ((answer (lit "b") no_such_network fresh).0 ≡ inl (url_blocked none))
    × (is_cached (answer (lit "b") no_such_network (answer (lit "b") [] fresh).1).0 ≡ true)
unfolding handle_fetch parse_request check_scheme check_rules evaluate_rules first_match
    evaluate_allows fetch_allowed served cache_get cache_put from_cache fetch resolve_and_validate
    resolve first_private is_private_ip is_private_ipv4 pinned follow_redirects finish read_body
    body_text store text_eq byte_len matches_rule matches_cidr parse_cidr split parse_u8
    digits_value ip_in_cidr same_prefix is_block
served_past_rules = (refl, refl)

-- An allow rule on addresses lets nothing through: the rules are asked before there are any.
never_allowed :
    (answer (lit "b") (rule_of (lit "allow") (lit "ip_cidr") (lit "10.0.0.0/0") ∷ []) fresh).0
    ≡ inl (url_blocked (some (lit "no matching allow rule")))
unfolding handle_fetch fetch_allowed parse_request check_scheme check_rules evaluate_rules
    first_match evaluate_allows text_eq matches_rule matches_cidr parse_cidr split parse_u8
    digits_value is_block
never_allowed = refl

handle_fetch-IsGuarded_example : IsGuarded literal_lib small_net 4 [] (answer (lit "a") [] fresh).1
handle_fetch-IsGuarded_example =
    handle_fetch-IsGuarded literal_lib small_net limits (call_of (lit "a") []) [] fresh refl refl
      (record { compiled = tt; bounded = omega arith })

cut_off : read_body 3 [] (some (1 ∷ 2 ∷ []) ∷ some (3 ∷ 4 ∷ []) ∷ []) ≡ inr (1 ∷ 2 ∷ 3 ∷ [], true)
unfolding read_body
cut_off = refl

read_body-IsCapped_example : IsCapped 3 (1 ∷ 2 ∷ 3 ∷ 4 ∷ []) (1 ∷ 2 ∷ 3 ∷ [], true)
read_body-IsCapped_example =
    read_body-IsCapped 3 (some (1 ∷ 2 ∷ []) ∷ some (3 ∷ 4 ∷ []) ∷ []) (1 ∷ 2 ∷ 3 ∷ []) true cut_off

a_title : title_of (lit "<html><TITLE> Hi </title>") ≡ some (lit "Hi")
unfolding title_of split_at_tag eq_ignore_ascii_case ascii_lower trim trim_start_matches
    trim_end_matches is_whitespace text_eq
a_title = refl
