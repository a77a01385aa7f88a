-- ===== src/Fetch/Transport/Whole.antt =====
-- The production transport never hands on a cut body.
use magazine_core.Base.{
  ℕ, ◌+◌, ◌-◌, ◌≤◌, ◌<◌, ◌≡◌, false, List, none, length, length-take, arith, min, Result, ok, inl,
  inr, Result-cases,
}
use magazine_core.Text.{Text}
use magazine_core.Fetch.Policy.{UrlApi}
use magazine_core.Fetch.Broker.{TransportRequest, TransportResponse}
use magazine_core.Fetch.Transport.{HttpReply, usize, declared_too_large, read_body, send}

module _ (api : UrlApi) (exchange : TransportRequest api.Url → Result Text HttpReply) where
  read_body-whole :
      (reply : HttpReply) (limit : ℕ) (body : List ℕ)
      → limit < usize - 1
      → read_body api exchange reply limit ≡ ok body
      → length body ≤ limit
      → (body ≡ reply.body) × (reply.broken ≡ none)
  unfolding read_body
  read_body-whole reply limit body h e small =
      ground (arith, length-take (min (limit + 1) (usize - 1)) reply.body)

  -- A response that the transport returns has the whole body that the server sent, within the
  -- limit, and no declared length above it.
  pub send-whole :
      (request : TransportRequest api.Url) (response : TransportResponse)
      → request.max_response_bytes < usize - 1
      → send api exchange request ≡ ok response
      → (reply : HttpReply) × (exchange request ≡ ok reply)
        × (response.status ≡ reply.status)
        × (response.body ≡ reply.body)
        × (reply.broken ≡ none)
        × (length response.body ≤ request.max_response_bytes)
        × (declared_too_large api exchange reply.content_length request.max_response_bytes ≡ false)
  unfolding send
  send-whole request response h e = elim (Result-cases (exchange request)) [
    | inr (x, failed) ↦ ground (arith, failed)
    | inl (reply, got) ↦
        elim (Result-cases (read_body api exchange reply request.max_response_bytes)) [
          | inr (x, cut) ↦ ground (arith, got, cut)
          | inl (body, read) ↦
              let whole = read_body-whole reply request.max_response_bytes body h read in
              (
                reply,
                got,
                ground (arith, got, read),
                ground (arith, got, read, whole),
                ground (arith, got, read, whole),
                ground (arith, got, read),
                ground (arith, got, read),
              )
        ]
  ]
