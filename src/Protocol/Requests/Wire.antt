-- ===== src/Protocol/Requests/Wire.antt =====
-- The canonical encoding of a request, and that `encode_overlay_request` produces it.
use triptorrent.Base.{
  ℕ, ◌^◌, ◌≤◌, ◌≡◌, sym, ap, ◌∙◌, Bool, List, [], ◌∷◌, ◌++◌, length, ltb, ok, append_assoc,
  append-nil, >>=-eq-ok, ok-injective,
}
use triptorrent.Base.Bytes.{Bytes, be}
use triptorrent.Protocol.{
  OverlayRequest, register_peer, heartbeat_peer, poll_peer, register_relay, heartbeat_relay,
  discover, discover_providers, report_relay_failure, health, PeerCapability, PeerAdvertisement,
  max_overlay_message_bytes, domain_overlay_request,
}
use triptorrent.Protocol.Writer.{Writer, new, raw, put_u8, put_u16}
use triptorrent.Protocol.Writer.Wire.{
  Appends, wire_string, wire_ids, put_string-Appends, put_ids-append, guard-ok, finish-ok,
  new-header,
}
use triptorrent.Protocol.Reader.Places.{header_bytes}
use triptorrent.Protocol.Requests.{
  capability_code, put_capabilities, put_peer, put_request, validate_overlay_request,
  encode_overlay_request,
}

abbrev pub request_kind : OverlayRequest → ℕ
request_kind (register_peer peer) = 1
request_kind (heartbeat_peer peer_id) = 2
request_kind (poll_peer peer_id) = 3
request_kind (register_relay relay) = 4
request_kind (heartbeat_relay relay_id) = 5
request_kind (discover content_id) = 6
request_kind (discover_providers content_id limit) = 7
request_kind (report_relay_failure relay_id) = 8
request_kind health = 9

abbrev pub wire_capability : PeerCapability → Bytes
wire_capability c = be 2 (capability_code c)

abbrev pub wire_capabilities : List PeerCapability → Bytes
wire_capabilities [] = []
wire_capabilities (c ∷ cs) = wire_capability c ++ wire_capabilities cs

abbrev pub wire_peer : PeerAdvertisement → Bytes
wire_peer peer =
    peer.peer_id
    ++ (peer.public_key
        ++ ((length peer.capabilities ∷ [])
            ++ (wire_capabilities peer.capabilities
                ++ (be 2 (length peer.content_ids) ++ wire_ids peer.content_ids))))

abbrev pub wire_fields : OverlayRequest → Bytes
wire_fields (register_peer peer) = wire_peer peer
wire_fields (heartbeat_peer peer_id) = peer_id
wire_fields (poll_peer peer_id) = peer_id
wire_fields (register_relay relay) = wire_string relay.relay_id ++ wire_string relay.address
wire_fields (heartbeat_relay relay_id) = wire_string relay_id
wire_fields (discover content_id) = content_id
wire_fields (discover_providers content_id limit) = content_id ++ be 2 limit
wire_fields (report_relay_failure relay_id) = wire_string relay_id
wire_fields health = []

-- The record of a request on the wire.
unfoldable pub wire : OverlayRequest → Bytes
wire m = header_bytes domain_overlay_request ++ (request_kind m ∷ wire_fields m)

put_capabilities-append :
    (cs : List PeerCapability) (w : Writer) → put_capabilities cs w ≡ w ++ wire_capabilities cs
unfolding put_capabilities put_u16 raw
put_capabilities-append [] w = sym (append-nil w)
put_capabilities-append (c ∷ cs) w =
    put_capabilities-append cs (w ++ wire_capability c)
    ∙ append_assoc w (wire_capability c) (wire_capabilities cs)

put_peer-Appends :
    (peer : PeerAdvertisement) (w : Writer) → Appends (put_peer peer w) w (wire_peer peer)
unfolding put_peer put_u8 put_u16 raw
put_peer-Appends peer w w' h =
    let first = guard-ok (ltb (length peer.capabilities) (2 ^ 8)) _ _ h in
    let second = guard-ok (ltb (length peer.content_ids) (2 ^ 16)) _ _ first.1 in
    sym (ok-injective second.1)
    ∙ put_ids-append peer.content_ids _
    ∙ ap (λ x. (x ++ be 2 (length peer.content_ids)) ++ wire_ids peer.content_ids)
        (put_capabilities-append peer.capabilities _)
    ∙ simp append_assoc

put_request-Appends :
    (m : OverlayRequest) (w : Writer) → Appends (put_request m w) w (request_kind m ∷ wire_fields m)
unfolding put_request put_u8 put_u16 raw
put_request-Appends (register_peer peer) w w' h =
    put_peer-Appends peer _ w' h ∙ append_assoc w (1 ∷ []) _
put_request-Appends (heartbeat_peer peer_id) w w' h =
    sym (ok-injective h) ∙ append_assoc w (2 ∷ []) peer_id
put_request-Appends (poll_peer peer_id) w w' h =
    sym (ok-injective h) ∙ append_assoc w (3 ∷ []) peer_id
put_request-Appends (register_relay relay) w w' h =
    let (w₁, h₁, k₁) = >>=-eq-ok _ _ h in
    put_string-Appends relay.address w₁ w' k₁
    ∙ ap (λ x. x ++ wire_string relay.address) (put_string-Appends relay.relay_id _ w₁ h₁)
    ∙ simp append_assoc
put_request-Appends (heartbeat_relay relay_id) w w' h =
    put_string-Appends relay_id _ w' h ∙ append_assoc w (5 ∷ []) _
put_request-Appends (discover content_id) w w' h =
    sym (ok-injective h) ∙ append_assoc w (6 ∷ []) content_id
put_request-Appends (discover_providers content_id limit) w w' h =
    sym (ok-injective h) ∙ simp append_assoc
put_request-Appends (report_relay_failure relay_id) w w' h =
    put_string-Appends relay_id _ w' h ∙ append_assoc w (8 ∷ []) _
put_request-Appends health w w' h = sym (ok-injective h)

module _ (hash : Bytes → Bytes) (is_socket_addr : Bytes → Bool) where
  -- What a successful `encode_overlay_request` has checked and written.
  pub record Encoded (m : OverlayRequest) (b : Bytes) : Type 0 where
    pub valid : validate_overlay_request hash is_socket_addr m ≡ ok tt
    pub written : b ≡ wire m
    pub bounded : length b ≤ max_overlay_message_bytes

  pub encode-Encoded :
      (m : OverlayRequest) (b : Bytes)
      → encode_overlay_request hash is_socket_addr m ≡ ok b
      → Encoded m b
  unfolding encode_overlay_request wire
  encode-Encoded m b h =
      let (u, hv, k) = >>=-eq-ok (validate_overlay_request hash is_socket_addr m) _ h in
      let (w, hw, f) = >>=-eq-ok (put_request m (new domain_overlay_request)) _ k in
      let done = finish-ok max_overlay_message_bytes w b f in
      record {
        valid = hv;
        written =
            sym done.0
            ∙ put_request-Appends m _ w hw
            ∙ ap (λ x. x ++ (request_kind m ∷ wire_fields m)) (new-header domain_overlay_request);
        bounded = done.1;
      }
