-- ===== src/Protocol/Responses.antt =====
-- `encode_overlay_response`, `decode_overlay_response` and `validate_overlay_response`.
-- `is_socket_addr` tells whether a text parses as a `SocketAddr`.
mod Body
mod Wire
pub mod RoundTrip
use triptorrent.Base.{
  ℕ, ◌^◌, List, [], ◌∷◌, Bool, not, ◌&&◌, Option, none, some, length, ltb, Result, ok, guard, ◌>>=◌,
  ◌>>◌,
}
use triptorrent.Base.Bytes.{Bytes}
use triptorrent.Protocol.{
  OverlayResponse, registered, assignment, route_found, routes, acknowledged, failure,
  RouteAssignment, ProtocolError, invalid_message, max_overlay_message_bytes, max_error_text_bytes,
  max_discovery_routes, domain_overlay_response,
}
use triptorrent.Protocol.Identifier.{valid_identifier}
use triptorrent.Protocol.Writer.{
  Writer, new, finish, ensure_size, put_u8, put_u16, put_u64, put_string, put_optional_assignment,
  put_assignments,
}
use Body.{response_record}

module _ (is_socket_addr : Bytes → Bool) where
  unfoldable pub validate_assignment : RouteAssignment → Result ProtocolError (Unit {0})
  validate_assignment a =
      guard
        (valid_identifier a.relay_id 64
          && (not (ltb 128 (length a.relay_address))
              && (is_socket_addr a.relay_address && valid_identifier a.route 128)))
        (invalid_message "invalid route assignment fields")

  -- `for value in values { validate_assignment(value)?; }`
  unfoldable pub validate_assignments : List RouteAssignment → Result ProtocolError (Unit {0})
  validate_assignments [] = ok tt
  validate_assignments (a ∷ rest) = do validate_assignment a; validate_assignments rest

  unfoldable pub validate_overlay_response : OverlayResponse → Result ProtocolError (Unit {0})
  validate_overlay_response (assignment (some a)) = validate_assignment a
  validate_overlay_response (route_found (some a)) = validate_assignment a
  validate_overlay_response (routes values) = do
    guard (not (ltb max_discovery_routes (length values)))
        (invalid_message "too many route assignments")
    validate_assignments values
  validate_overlay_response (failure text) =
      guard (not (ltb max_error_text_bytes (length text)))
        (invalid_message "error text exceeds bound")
  validate_overlay_response _ = ok tt

-- The `match` of `encode_overlay_response`.
unfoldable pub put_response : OverlayResponse → Writer → Result ProtocolError Writer
put_response (registered lease_ms) w = ok (put_u64 lease_ms (put_u8 1 w))
put_response (assignment value) w = put_optional_assignment value (put_u8 2 w)
put_response (route_found value) w = put_optional_assignment value (put_u8 3 w)
put_response (routes values) w = do
  guard (ltb (length values) (2 ^ 16)) (invalid_message "too many routes")
  put_assignments values (put_u16 (length values) (put_u8 4 w))
put_response acknowledged w = ok (put_u8 5 w)
put_response (failure text) w = put_string text (put_u8 255 w)

module _ (is_socket_addr : Bytes → Bool) where
  unfoldable pub encode_overlay_response : OverlayResponse → Result ProtocolError Bytes
  encode_overlay_response response = do
    validate_overlay_response is_socket_addr response
    w ← put_response response (new domain_overlay_response)
    finish max_overlay_message_bytes w

  unfoldable pub decode_overlay_response : Bytes → Result ProtocolError OverlayResponse
  decode_overlay_response bytes = do
    ensure_size bytes max_overlay_message_bytes
    parsed ← response_record (record { bytes = bytes; offset = 0 })
    validate_overlay_response is_socket_addr parsed.0
    ok parsed.0
