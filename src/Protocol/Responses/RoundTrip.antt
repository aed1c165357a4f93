-- ===== src/Protocol/Responses/RoundTrip.antt =====
-- What `encode_overlay_response` wrote, `decode_overlay_response` reads back.
use triptorrent.Base.{
  ◌^◌, ◌≤◌, ◌<◌, ◌≡◌, Bool, true, false, not, Option, none, some, List, [], ◌∷◌, length, ltb, ok,
  All, arith, >>=-eq-ok,
}
use triptorrent.Base.Bytes.{Bytes}
use triptorrent.Protocol.{
  OverlayResponse, registered, assignment, route_found, routes, acknowledged, failure,
  RouteAssignment, max_overlay_message_bytes, max_error_text_bytes, max_discovery_routes,
  domain_overlay_response,
}
use triptorrent.Protocol.Identifier.{valid_identifier, valid_identifier-length}
use triptorrent.Protocol.Fields.{
  IsText, AssignmentFields, AssignmentBounds, Reads-none, Reads-some, Reads-assignments,
}
use triptorrent.Protocol.Writer.{ensure_size}
use triptorrent.Protocol.Writer.Wire.{guard-ok}
use triptorrent.Protocol.Reader.Places.{
  Reads, Reads-bind, Reads-last, Reads-check, Reads-nothing, Reads-u16, Reads-u64, Reads-string,
  Reads-record, within, place,
}
use triptorrent.Protocol.Responses.{
  validate_assignment, validate_assignments, validate_overlay_response, encode_overlay_response,
  decode_overlay_response,
}
use triptorrent.Protocol.Responses.Body.{get_routes, response_fields, response_record}
use triptorrent.Protocol.Responses.Wire.{response_kind, wire_fields, wire, encode-Encoded}

abbrev OptionalFields : Option RouteAssignment → Type 0
OptionalFields none = Unit {0}
OptionalFields (some a) = AssignmentFields a

-- The ranges that the types of the fields give.
abbrev pub ResponseFields : OverlayResponse → Type 0
ResponseFields (registered lease_ms) = lease_ms < 2 ^ 64
ResponseFields (assignment value) = OptionalFields value
ResponseFields (route_found value) = OptionalFields value
ResponseFields (routes values) = All AssignmentFields values
ResponseFields acknowledged = Unit {0}
ResponseFields (failure text) = IsText text

response_kind-lt : (m : OverlayResponse) → response_kind m < 2 ^ 8
response_kind-lt (failure text) = omega arith
response_kind-lt _ = omega arith

module _ (is_socket_addr : Bytes → Bool) where
  assignment_bounds :
      (a : RouteAssignment) → validate_assignment is_socket_addr a ≡ ok tt → AssignmentBounds a
  unfolding validate_assignment
  assignment_bounds a v =
      let relay_id : valid_identifier a.relay_id 64 ≡ true = ground arith in
      let route : valid_identifier a.route 128 ≡ true = ground arith in
      (
        valid_identifier-length a.relay_id 64 relay_id,
        ground arith,
        valid_identifier-length a.route 128 route,
      )

  assignments_bounds :
      (values : List RouteAssignment)
      → validate_assignments is_socket_addr values ≡ ok tt
      → All AssignmentBounds values
  unfolding validate_assignments
  assignments_bounds [] v = tt
  assignments_bounds (a ∷ rest) v =
      let (u, first, others) = >>=-eq-ok (validate_assignment is_socket_addr a) _ v in
      (assignment_bounds a first, assignments_bounds rest others)

  Reads-routes :
      (values : List RouteAssignment)
      → All AssignmentFields values
      → All AssignmentBounds values
      → length values ≤ max_discovery_routes
      → Reads get_routes (wire_fields (routes values)) values
  unfolding get_routes
  Reads-routes values f bounds few =
      Reads-bind _ _ _ _ (length values) values (Reads-u16 (length values) (omega arith))
        (Reads-check _ _ _ _ values (within _ _ few) (Reads-assignments values f bounds))

  Reads-response :
      (m : OverlayResponse)
      → ResponseFields m
      → validate_overlay_response is_socket_addr m ≡ ok tt
      → Reads (response_fields (response_kind m)) (wire_fields m) m
  unfolding response_fields validate_overlay_response
  Reads-response (registered lease_ms) f v = Reads-last _ _ _ lease_ms (Reads-u64 lease_ms f)
  Reads-response (assignment none) f v = Reads-last _ _ _ none Reads-none
  Reads-response (assignment (some a)) f v =
      Reads-last _ _ _ (some a) (Reads-some a f (assignment_bounds a v))
  Reads-response (route_found none) f v = Reads-last _ _ _ none Reads-none
  Reads-response (route_found (some a)) f v =
      Reads-last _ _ _ (some a) (Reads-some a f (assignment_bounds a v))
  Reads-response (routes values) f v =
      let done = guard-ok (not (ltb max_discovery_routes (length values))) _ _ v in
      Reads-last _ _ _ values
        (Reads-routes values f (assignments_bounds values done.1) (ground arith))
  Reads-response acknowledged f v = Reads-nothing acknowledged
  Reads-response (failure text) f v =
      let short : length text ≤ max_error_text_bytes = ground arith in
      Reads-last _ _ _ text (Reads-string text max_error_text_bytes short (omega arith) f)

  response_record-wire :
      (m : OverlayResponse)
      → ResponseFields m
      → validate_overlay_response is_socket_addr m ≡ ok tt
      → length (wire m) < 2 ^ 64
      → response_record (place (wire m) 0) ≡ ok (m, place (wire m) (length (wire m)))
  unfolding response_record wire
  response_record-wire m f v fits =
      Reads-record domain_overlay_response (response_kind m) response_fields (wire_fields m) m
        (omega arith) (response_kind-lt m) (Reads-response m f v) fits

  -- Every response that `encode_overlay_response` accepts, over fields in the range of their types,
  -- is what `decode_overlay_response` returns for the encoded bytes.
  pub decode_overlay_response-encode_overlay_response :
      (m : OverlayResponse) (b : Bytes)
      → ResponseFields m
      → encode_overlay_response is_socket_addr m ≡ ok b
      → decode_overlay_response is_socket_addr b ≡ ok m
  unfolding decode_overlay_response ensure_size
  decode_overlay_response-encode_overlay_response m b f h =
      let done = encode-Encoded is_socket_addr m b h in
      let bounded : length (wire m) ≤ max_overlay_message_bytes =
        rw (← done.written) done.bounded in
      let read = response_record-wire m f done.valid (omega arith) in
      let small : ltb max_overlay_message_bytes (length (wire m)) ≡ false = ground arith in
      rw (done.written, small, read, done.valid)
