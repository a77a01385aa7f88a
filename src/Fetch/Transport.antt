-- ===== src/Fetch/Transport.antt =====
-- The production transport (`ReqwestTransport`) and the deadline of the resolver in
-- crates/mh-fetch/src/lib.rs. The HTTP client and the name lookup are parameters.
pub mod Whole
use magazine_core.Base.{
  ℕ, ◌+◌, ◌^◌, ◌≤◌, ◌≡◌, Bool, List, [], ◌∷◌, Option, none, some, is_empty, ltb, leb, length, take,
  if◌then◌else◌, arith, String, min, Result, ok, err, ok_or, map_err, ◌>>=◌, ◌>>◌, guard, not,
  false, ◌-◌,
}
use magazine_core.Text.{Text, codes}
use magazine_core.Text.Number.{parse_uint}
use magazine_core.Fetch.Address.{SocketAddr}
use magazine_core.Fetch.Policy.{
  UrlApi, FetchError, network, policy, response_too_large, timeout, no_addresses, missing_host,
  invalid_header_name, invalid_header_value,
}
use magazine_core.Fetch.Broker.{TransportRequest, TransportResponse}

-- How a lookup in a thread of its own ends within the deadline, after it, or by a lost thread.
pub data Lookup : Type 0 where
  finished : Result FetchError (List SocketAddr) → Lookup
  timed_out disconnected : Lookup

unfoldable pub resolve_with_timeout : Lookup → Result FetchError (List SocketAddr)
resolve_with_timeout timed_out = err timeout
resolve_with_timeout disconnected = err (network (codes "DNS resolver thread exited"))
resolve_with_timeout (finished result) = do
  addrs ← result
  guard (not (is_empty addrs)) (policy no_addresses)
  ok addrs

-- What the client has received when the headers are read; the body may still break off.
pub record HttpReply : Type 0 where
  pub status : ℕ
  pub location : Option Text
  pub content_length : Option Text
  pub body : List ℕ
  pub broken : Option Text

abbrev usize : ℕ
usize = 2 ^ 64

module _ (api : UrlApi) (exchange : TransportRequest api.Url → Result Text HttpReply) where
  -- The loop that builds the header map.
  unfoldable pub build_headers : List (Text × Text) → Result FetchError (Unit {0})
  build_headers [] = ok tt
  build_headers ((name, value) ∷ headers) = do
    guard (api.is_header_name name) (policy (invalid_header_name name))
    guard (api.is_header_value value) (policy (invalid_header_value name))
    build_headers headers

  -- A declared length above the limit; a value that is no number is passed over.
  unfoldable pub declared_too_large : Option Text → ℕ → Bool
  declared_too_large none limit = false
  declared_too_large (some value) limit = elim (parse_uint usize value) [
    | none ↦ false
    | some n ↦ ltb limit n
  ]

  -- `response.take(limit + 1).read_to_end`.
  unfoldable pub read_body : HttpReply → ℕ → Result FetchError (List ℕ)
  read_body reply limit =
      if ltb limit (length reply.body)
      then ok (take (min (limit + 1) (usize - 1)) reply.body)
      else elim reply.broken [ none ↦ ok reply.body | some text ↦ err (network text) ]

  unfoldable pub send : TransportRequest api.Url → Result FetchError TransportResponse
  send request = do
    host ← ok_or (api.host_str request.url) (policy missing_host)
    build_headers request.headers
    reply ← map_err network (exchange request)
    guard (not (declared_too_large reply.content_length request.max_response_bytes))
        (response_too_large request.max_response_bytes)
    body ← read_body reply request.max_response_bytes
    guard (leb (length body) request.max_response_bytes)
        (response_too_large request.max_response_bytes)
    ok (record { status = reply.status; location = reply.location; body = body })
