-- ===== src/Tests/Fetching.antt =====
-- Runs of crates/mh-fetch.
use magazine_core.Base.{
  if◌then◌else◌, ℕ, zero, suc, ◌+◌, ◌≤◌, ◌≡◌, ◌↔◌, refl, true, false, [], ◌∷◌, none, some, All, Any,
  Result, ok, err, arith, length,
}
use magazine_core.Text.{
  Text, codes, text_eq, trim, trim_start_by, trim_end_by, to_lower_char, eq_ignore_ascii_case,
  ends_with,
}
use magazine_core.Fetch.Address.{
  Ipv4Addr, Ipv6Addr, v4, SocketAddr, default, dev_allow_loopback, forbidden_ip_for_policy,
  forbidden_ip, forbidden_v4, to_ipv4_mapped, shared_carrier_grade_nat,
}
use magazine_core.Fetch.Address.Blocks.{
  InBlock, to_bits, loopback_block, other_blocks, forbidden_v4_iff,
}
use magazine_core.Fetch.Policy.{
  UrlApi, FetchError, FetchRequest, FetchResponse, FetchPolicy, fetch_get, too_many_redirects,
  for_allowed_domains, domain_allowed, parse_method, validate_headers, validate_url, domain_matches,
  normalize_domain, is_disallowed_header, is_redirect, remaining_timeout, validate_resolved_addrs,
  validate_resolved_addrs_with_policy, validate_each_addr,
}
use magazine_core.Fetch.Policy.Domains.{Admits, domain_allowed_iff}
use magazine_core.Fetch.Broker.{
  TransportRequest, TransportResponse, Seams, validate_addrs, prepare, follow, conclude,
  redirect_loop, check_request, fetch_with_address_policy,
}
use magazine_core.Fetch.Broker.Safety.{IsSafe, fetch-IsSafe}
use magazine_core.Fetch.Broker.Answers.{
  IsAnswer, IsRedirected, KeepRedirecting, fetch-IsAnswer, fetch-GivesUp,
}
use magazine_core.Fetch.Transport.{HttpReply, build_headers, declared_too_large, read_body, send}
use magazine_core.Fetch.Transport.Whole.{send-whole}

-- URLs of one host, which are told apart by their text.
abbrev pub web : UrlApi
web = record {
  Url = Text;
  parse = λ s. some s;
  join = λ u l. some l;
  scheme = λ u. codes "https";
  username = λ u. [];
  password = λ u. none;
  host_str = λ u. some (codes "a.example");
  port_or_known_default = λ u. some 443;
  to_string = λ u. u;
  is_header_name = λ n. true;
  is_header_value = λ v. true;
}

abbrev public_addr : SocketAddr
public_addr = record { ip = v4 (record { a = 93; b = 184; c = 216; d = 34 }); port = 443 }

abbrev moved : TransportResponse
moved = record { status = 302; location = some (codes "/b"); body = [] }

abbrev found : TransportResponse
found = record { status = 200; location = none; body = 104 ∷ 105 ∷ [] }

abbrev first_moved : ℕ → Result FetchError TransportResponse
first_moved zero = ok moved
first_moved (suc round) = ok found

-- A site that moves once, and one that always moves.
abbrev pub site : Seams Text
site = record {
  resolve = λ round host port wait. ok (public_addr ∷ []);
  send = λ round request. first_moved round;
  elapsed_before = λ round. 0;
  elapsed_after = λ round. 0;
  encode = λ bs. bs;
}

abbrev spinning_site : Seams Text
spinning_site = record site { send = λ round request. ok moved }

-- URLs of which one is refused.
abbrev spinning_web : UrlApi
spinning_web = record web {
  scheme = λ u. if text_eq u (codes "/out") then codes "ftp" else codes "https";
}

abbrev example_policy : FetchPolicy
example_policy = for_allowed_domains (codes "example" ∷ [])

abbrev pub get_a : FetchRequest
get_a = record {
  url = codes "/a";
  method = codes "get";
  headers = (codes "Accept", codes "*/*") ∷ [];
}

fetch-IsSafe_example :
    All
      (IsSafe web site example_policy default)
      (fetch_with_address_policy web site example_policy get_a default).0
    × (length (fetch_with_address_policy web site example_policy get_a default).0 ≤ 10 + 1)
fetch-IsSafe_example = fetch-IsSafe web site example_policy get_a default

abbrev answer_b : FetchResponse
answer_b = record { status = 200; final_url = codes "/b"; body_base64 = 104 ∷ 105 ∷ [] }

follows_redirect : (fetch_with_address_policy web site example_policy get_a default).1 ≡ ok answer_b
unfolding fetch_with_address_policy check_request parse_method eq_ignore_ascii_case to_lower_char
    text_eq validate_headers is_disallowed_header redirect_loop prepare remaining_timeout
    validate_url domain_allowed domain_matches normalize_domain trim trim_start_by trim_end_by
    ends_with validate_addrs validate_resolved_addrs validate_resolved_addrs_with_policy
    validate_each_addr forbidden_ip_for_policy forbidden_ip forbidden_v4 shared_carrier_grade_nat
    conclude is_redirect follow
follows_redirect = refl

fetch-IsAnswer_example :
    IsAnswer web site example_policy
      (fetch_with_address_policy web site example_policy get_a default).0
      answer_b
fetch-IsAnswer_example =
    fetch-IsAnswer web site example_policy get_a default answer_b follows_redirect

starts : check_request spinning_web spinning_site example_policy get_a ≡ ok (fetch_get, codes "/a")
unfolding check_request parse_method eq_ignore_ascii_case to_lower_char text_eq validate_headers
    is_disallowed_header
starts = refl

abbrev asked : Text → TransportRequest Text
asked url = record {
  url = url;
  method = fetch_get;
  headers = get_a.headers;
  resolved_addrs = public_addr ∷ [];
  connect_timeout = example_policy.connect_timeout;
  timeout = example_policy.total_timeout;
  max_response_bytes = example_policy.max_response_bytes;
}

moved_redirects : is_redirect moved.status ≡ true
unfolding is_redirect
moved_redirects = refl

prepare_a :
    prepare spinning_web spinning_site example_policy default fetch_get get_a.headers 0 (codes "/a")
    ≡ ok (asked (codes "/a"))
unfolding prepare remaining_timeout validate_url domain_allowed domain_matches normalize_domain trim
    trim_start_by trim_end_by ends_with validate_addrs validate_resolved_addrs
    validate_resolved_addrs_with_policy validate_each_addr forbidden_ip_for_policy forbidden_ip
    forbidden_v4 shared_carrier_grade_nat text_eq to_lower_char
prepare_a = refl

prepare_b :
    (round : ℕ)
    → prepare spinning_web spinning_site example_policy default fetch_get get_a.headers round
        (codes "/b")
      ≡ ok (asked (codes "/b"))
unfolding prepare remaining_timeout validate_url domain_allowed domain_matches normalize_domain trim
    trim_start_by trim_end_by ends_with validate_addrs validate_resolved_addrs
    validate_resolved_addrs_with_policy validate_each_addr forbidden_ip_for_policy forbidden_ip
    forbidden_v4 shared_carrier_grade_nat text_eq to_lower_char
prepare_b round = refl

abbrev redirected_a :
    IsRedirected spinning_web spinning_site example_policy default fetch_get get_a.headers 0
      (codes "/a")
redirected_a = record {
  request = asked (codes "/a");
  reply = moved;
  prepared = prepare_a;
  replied = refl;
  size = omega arith;
  redirect = moved_redirects;
}

abbrev redirected_b :
    (round : ℕ)
    → IsRedirected spinning_web spinning_site example_policy default fetch_get get_a.headers round
        (codes "/b")
redirected_b round = record {
  request = asked (codes "/b");
  reply = moved;
  prepared = prepare_b round;
  replied = refl;
  size = omega arith;
  redirect = moved_redirects;
}

keeps_redirecting :
    (left round : ℕ)
    → KeepRedirecting spinning_web spinning_site example_policy default fetch_get get_a.headers left
        round
        (codes "/b")
keeps_redirecting zero round = redirected_b round
keeps_redirecting (suc left) round =
    (redirected_b round, codes "/b", codes "/b", refl, refl, keeps_redirecting left (suc round))

fetch-GivesUp_example :
    (length (fetch_with_address_policy spinning_web spinning_site example_policy get_a default).0
      ≡ 10 + 1)
    × ((fetch_with_address_policy spinning_web spinning_site example_policy get_a default).1
        ≡ err (too_many_redirects 10))
fetch-GivesUp_example =
    fetch-GivesUp spinning_web spinning_site example_policy get_a default fetch_get (codes "/a")
      starts (redirected_a, codes "/b", codes "/b", refl, refl, keeps_redirecting 9 1)

abbrev loopback : Ipv4Addr
loopback = record { a = 127; b = 0; c = 0; d = 1 }

forbidden_v4_iff_example :
    ((forbidden_ip_for_policy (v4 loopback) default ≡ true)
      ↔ Any (InBlock (to_bits loopback)) (loopback_block ∷ other_blocks))
    × ((forbidden_ip_for_policy (v4 loopback) dev_allow_loopback ≡ true)
        ↔ Any (InBlock (to_bits loopback)) other_blocks)
forbidden_v4_iff_example =
    forbidden_v4_iff loopback
      (record { a = omega arith; b = omega arith; c = omega arith; d = omega arith })

abbrev mapped_loopback : Ipv6Addr
mapped_loopback = record { s0 = 0; s1 = 0; s2 = 0; s3 = 0; s4 = 0; s5 = 65535; s6 = 32512; s7 = 1 }

is_mapped : to_ipv4_mapped mapped_loopback ≡ some loopback
unfolding to_ipv4_mapped
is_mapped = refl

domain_allowed_iff_example :
    (domain_allowed (codes "a.example") (codes "example" ∷ []) ≡ true)
    ↔ Any (Admits (codes "a.example")) (codes "example" ∷ [])
domain_allowed_iff_example = domain_allowed_iff (codes "a.example") (codes "example" ∷ [])

abbrev page : HttpReply
page = record {
  status = 200;
  location = none;
  content_length = none;
  body = 104 ∷ 105 ∷ [];
  broken = none;
}

page_received : send web (λ request. ok page) (asked (codes "/a")) ≡ ok found
unfolding send build_headers declared_too_large read_body
page_received = refl

send-whole_example :
    (reply : HttpReply) × (◌≡◌ {A = Result Text HttpReply} (ok page) (ok reply))
    × (200 ≡ reply.status)
    × (found.body ≡ reply.body)
    × (reply.broken ≡ none)
    × (length found.body ≤ example_policy.max_response_bytes)
    × (declared_too_large web
          (λ request. ok page)
          reply.content_length
          example_policy.max_response_bytes
        ≡ false)
send-whole_example =
    send-whole web (λ request. ok page) (asked (codes "/a")) found (omega arith) page_received
