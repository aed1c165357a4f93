-- ===== src/Protocol/Responses/Body.antt =====
-- The reading half of `decode_overlay_response`.
use triptorrent.Base.{ℕ, List, not, ltb, ◌==◌, if◌then◌else◌}
use triptorrent.Protocol.{
  OverlayResponse, registered, assignment, route_found, routes, acknowledged, failure,
  RouteAssignment, invalid_message, unknown_message, max_error_text_bytes, max_discovery_routes,
  domain_overlay_response,
}
use triptorrent.Protocol.Reader.{
  Parser, ◌>>=◌, ◌>>◌, pure, fail, check, header, get_u8, get_u16, get_u64, get_string,
  get_assignment, get_optional_assignment, repeat, end,
}

unfoldable pub get_routes : Parser (List RouteAssignment)
get_routes = do
  count ← get_u16
  check (not (ltb max_discovery_routes count)) (invalid_message "too many route assignments")
  repeat count get_assignment

-- The `match` of `decode_overlay_response` on the kind byte.
unfoldable pub response_fields : ℕ → Parser OverlayResponse
response_fields kind =
    if kind == 1
    then (do lease_ms ← get_u64; pure (registered lease_ms))
    else if kind == 2
    then (do value ← get_optional_assignment; pure (assignment value))
    else if kind == 3
    then (do value ← get_optional_assignment; pure (route_found value))
    else if kind == 4
    then (do values ← get_routes; pure (routes values))
    else if kind == 5
    then pure acknowledged
    else if kind == 255
    then (do text ← get_string max_error_text_bytes; pure (failure text))
    else fail (unknown_message kind)

unfoldable pub response_record : Parser OverlayResponse
response_record = do
  header domain_overlay_response
  kind ← get_u8
  value ← response_fields kind
  end
  pure value
