-- ===== src/Protocol/Tests.antt =====
-- A message, a request and a response on the wire.
use triptorrent.Base.{ℕ, ◌≡◌, refl, [], ◌∷◌, ◌++◌, Bool, true, ok, arith}
use triptorrent.Base.Bytes.{Bytes}
use triptorrent.Base.Utf8.{is_utf8}
use triptorrent.Core.{network_id}
use triptorrent.Protocol.{chunk_request, heartbeat_relay, registered}
use triptorrent.Protocol.Identifier.{valid_identifier}
use triptorrent.Protocol.Application.{encode, decode, validate_message, put_message}
use triptorrent.Protocol.Application.RoundTrip.{decode-encode}
use triptorrent.Protocol.Requests.{
  encode_overlay_request, decode_overlay_request, validate_overlay_request, put_request,
}
use triptorrent.Protocol.Requests.RoundTrip.{decode_overlay_request-encode_overlay_request}
use triptorrent.Protocol.Responses.{
  encode_overlay_response, decode_overlay_response, validate_overlay_response, put_response,
}
use triptorrent.Protocol.Responses.RoundTrip.{decode_overlay_response-encode_overlay_response}
use triptorrent.Protocol.Writer.{running}

abbrev sample_hash : Bytes → Bytes
sample_hash bytes = bytes

abbrev any_address : Bytes → Bool
any_address text = true

-- The magic bytes, the version, the network and the domain.
abbrev head : ℕ → Bytes
head domain = (84 ∷ 84 ∷ 80 ∷ 49 ∷ 0 ∷ 1 ∷ 21 ∷ network_id) ++ (domain ∷ [])

abbrev sent : Bytes
sent = head 1 ++ (18 ∷ 0 ∷ 0 ∷ 1 ∷ 2 ∷ [])

encoded : encode (chunk_request 258) ≡ ok sent
unfolding encode running validate_message put_message
encoded = refl

decode-encode_example : decode sent ≡ ok (chunk_request 258)
decode-encode_example = decode-encode (chunk_request 258) sent (omega arith) encoded

abbrev asked : Bytes
asked = head 2 ++ (5 ∷ 0 ∷ 2 ∷ 114 ∷ 49 ∷ [])

encoded_request :
    encode_overlay_request sample_hash any_address (heartbeat_relay (114 ∷ 49 ∷ [])) ≡ ok asked
unfolding encode_overlay_request running validate_overlay_request valid_identifier put_request
encoded_request = refl

decode_overlay_request-encode_overlay_request_example :
    decode_overlay_request sample_hash any_address asked ≡ ok (heartbeat_relay (114 ∷ 49 ∷ []))
unfolding is_utf8
decode_overlay_request-encode_overlay_request_example =
    decode_overlay_request-encode_overlay_request sample_hash any_address
      (heartbeat_relay (114 ∷ 49 ∷ [])) asked refl encoded_request

abbrev answered : Bytes
answered = head 3 ++ (1 ∷ 0 ∷ 0 ∷ 0 ∷ 0 ∷ 0 ∷ 0 ∷ 0 ∷ 30 ∷ [])

encoded_response : encode_overlay_response any_address (registered 30) ≡ ok answered
unfolding encode_overlay_response running validate_overlay_response put_response
encoded_response = refl

decode_overlay_response-encode_overlay_response_example :
    decode_overlay_response any_address answered ≡ ok (registered 30)
decode_overlay_response-encode_overlay_response_example =
    decode_overlay_response-encode_overlay_response any_address (registered 30) answered
      (omega arith) encoded_response
