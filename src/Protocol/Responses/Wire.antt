-- ===== src/Protocol/Responses/Wire.antt =====
-- The canonical encoding of a response, and that `encode_overlay_response` produces it.
use triptorrent.Base.{
  ℕ, ◌^◌, ◌≤◌, ◌≡◌, sym, ap, ◌∙◌, Bool, [], ◌∷◌, ◌++◌, length, ltb, ok, append_assoc, >>=-eq-ok,
  ok-injective,
}
use triptorrent.Base.Bytes.{Bytes, be}
use triptorrent.Protocol.{
  OverlayResponse, registered, assignment, route_found, routes, acknowledged, failure,
  max_overlay_message_bytes, domain_overlay_response,
}
use triptorrent.Protocol.Writer.{Writer, new, raw, put_u8, put_u16, put_u64}
use triptorrent.Protocol.Writer.Wire.{
  Appends, wire_string, wire_optional, wire_assignments, put_string-Appends,
  put_optional_assignment-Appends, put_assignments-Appends, guard-ok, finish-ok, new-header,
}
use triptorrent.Protocol.Reader.Places.{header_bytes}
use triptorrent.Protocol.Responses.{
  put_response, validate_overlay_response, encode_overlay_response,
}

abbrev pub response_kind : OverlayResponse → ℕ
response_kind (registered lease_ms) = 1
response_kind (assignment value) = 2
response_kind (route_found value) = 3
response_kind (routes values) = 4
response_kind acknowledged = 5
response_kind (failure text) = 255

abbrev pub wire_fields : OverlayResponse → Bytes
wire_fields (registered lease_ms) = be 8 lease_ms
wire_fields (assignment value) = wire_optional value
wire_fields (route_found value) = wire_optional value
wire_fields (routes values) = be 2 (length values) ++ wire_assignments values
wire_fields acknowledged = []
wire_fields (failure text) = wire_string text

-- The record of a response on the wire.
unfoldable pub wire : OverlayResponse → Bytes
wire m = header_bytes domain_overlay_response ++ (response_kind m ∷ wire_fields m)

put_response-Appends :
    (m : OverlayResponse) (w : Writer)
    → Appends (put_response m w) w (response_kind m ∷ wire_fields m)
unfolding put_response put_u8 put_u16 put_u64 raw
put_response-Appends (registered lease_ms) w w' h = sym (ok-injective h) ∙ append_assoc w (1 ∷ []) _
put_response-Appends (assignment value) w w' h =
    put_optional_assignment-Appends value _ w' h ∙ append_assoc w (2 ∷ []) _
put_response-Appends (route_found value) w w' h =
    put_optional_assignment-Appends value _ w' h ∙ append_assoc w (3 ∷ []) _
put_response-Appends (routes values) w w' h =
    let done = guard-ok (ltb (length values) (2 ^ 16)) _ _ h in
    put_assignments-Appends values _ w' done.1 ∙ simp append_assoc
put_response-Appends acknowledged w w' h = sym (ok-injective h)
put_response-Appends (failure text) w w' h =
    put_string-Appends text _ w' h ∙ append_assoc w (255 ∷ []) _

module _ (is_socket_addr : Bytes → Bool) where
  -- What a successful `encode_overlay_response` has checked and written.
  pub record Encoded (m : OverlayResponse) (b : Bytes) : Type 0 where
    pub valid : validate_overlay_response is_socket_addr m ≡ ok tt
    pub written : b ≡ wire m
    pub bounded : length b ≤ max_overlay_message_bytes

  pub encode-Encoded :
      (m : OverlayResponse) (b : Bytes)
      → encode_overlay_response is_socket_addr m ≡ ok b
      → Encoded m b
  unfolding encode_overlay_response wire
  encode-Encoded m b h =
      let (u, hv, k) = >>=-eq-ok (validate_overlay_response is_socket_addr m) _ h in
      let (w, hw, f) = >>=-eq-ok (put_response m (new domain_overlay_response)) _ k in
      let done = finish-ok max_overlay_message_bytes w b f in
      record {
        valid = hv;
        written =
            sym done.0
            ∙ put_response-Appends m _ w hw
            ∙ ap (λ x. x ++ (response_kind m ∷ wire_fields m)) (new-header domain_overlay_response);
        bounded = done.1;
      }
