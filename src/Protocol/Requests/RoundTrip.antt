-- ===== src/Protocol/Requests/RoundTrip.antt =====
-- What `encode_overlay_request` wrote, `decode_overlay_request` reads back.
use triptorrent.Base.{
  ◌^◌, ◌≤◌, ◌<◌, ◌≡◌, refl, ap, subst, Bool, true, false, List, [], ◌∷◌, ◌++◌, length, ltb, ok, All,
  arith, append-nil,
}
use triptorrent.Base.Bytes.{Bytes, be}
use triptorrent.Protocol.{
  OverlayRequest, register_peer, heartbeat_peer, poll_peer, register_relay, heartbeat_relay,
  discover, discover_providers, report_relay_failure, health, PeerCapability, relayed_transfer_v1,
  swarm_transfer_v1, PeerAdvertisement, RelayAdvertisement, max_overlay_message_bytes,
  domain_overlay_request, max_capabilities, max_advertised_content_ids,
}
use triptorrent.Protocol.Identifier.{valid_identifier, valid_identifier-length}
use triptorrent.Protocol.Fields.{IsId, IsText, Reads-ids}
use triptorrent.Protocol.Writer.{ensure_size}
use triptorrent.Protocol.Reader.{repeat, get_string}
use triptorrent.Protocol.Reader.Places.{
  Reads, Reads-bind, Reads-last, Reads-check, Reads-nothing, Reads-array, Reads-u8, Reads-u16,
  Reads-string, Reads-repeat, Reads-record, encodings, within, place,
}
use triptorrent.Protocol.Requests.{
  validate_overlay_request, encode_overlay_request, decode_overlay_request,
}
use triptorrent.Protocol.Requests.Body.{
  capability_of, get_capability, get_peer, get_relay, request_fields, request_record,
}
use triptorrent.Protocol.Requests.Wire.{
  request_kind, wire_capability, wire_capabilities, wire_peer, wire_fields, wire, encode-Encoded,
}

-- The ranges that the types of the fields give.
abbrev pub RequestFields : OverlayRequest → Type 0
RequestFields (register_peer peer) =
    IsId peer.peer_id × IsId peer.public_key × All IsId peer.content_ids
RequestFields (heartbeat_peer peer_id) = IsId peer_id
RequestFields (poll_peer peer_id) = IsId peer_id
RequestFields (register_relay relay) = IsText relay.relay_id × IsText relay.address
RequestFields (heartbeat_relay relay_id) = IsText relay_id
RequestFields (discover content_id) = IsId content_id
RequestFields (discover_providers content_id limit) = IsId content_id × (limit < 2 ^ 16)
RequestFields (report_relay_failure relay_id) = IsText relay_id
RequestFields health = Unit {0}

Reads-capability : (c : PeerCapability) → Reads get_capability (wire_capability c) c
unfolding get_capability capability_of
Reads-capability relayed_transfer_v1 =
    subst (λ e. Reads get_capability e relayed_transfer_v1) (append-nil (be 2 1))
      (Reads-bind _ _ _ _ 1 relayed_transfer_v1 (Reads-u16 1 (omega arith)) (Reads-nothing _))
Reads-capability swarm_transfer_v1 =
    subst (λ e. Reads get_capability e swarm_transfer_v1) (append-nil (be 2 2))
      (Reads-bind _ _ _ _ 2 swarm_transfer_v1 (Reads-u16 2 (omega arith)) (Reads-nothing _))

capabilities_read :
    (cs : List PeerCapability) → All (λ c. Reads get_capability (wire_capability c) c) cs
capabilities_read [] = tt
capabilities_read (c ∷ cs) = (Reads-capability c, capabilities_read cs)

capabilities-encodings :
    (cs : List PeerCapability) → encodings get_capability wire_capability cs ≡ wire_capabilities cs
capabilities-encodings [] = refl
capabilities-encodings (c ∷ cs) = ap (λ r. wire_capability c ++ r) (capabilities-encodings cs)

Reads-capabilities :
    (cs : List PeerCapability) → Reads (repeat (length cs) get_capability) (wire_capabilities cs) cs
Reads-capabilities cs =
    subst (λ e. Reads (repeat (length cs) get_capability) e cs) (capabilities-encodings cs)
      (Reads-repeat get_capability wire_capability cs (capabilities_read cs))

Reads-peer :
    (peer : PeerAdvertisement)
    → RequestFields (register_peer peer)
    → length peer.capabilities ≤ max_capabilities
    → length peer.content_ids ≤ max_advertised_content_ids
    → Reads get_peer (wire_peer peer) peer
unfolding get_peer
Reads-peer peer f few short =
    Reads-bind _ _ _ _ peer.peer_id peer (Reads-array peer.peer_id 32 f.0) (
      Reads-bind _ _ _ _ peer.public_key peer (Reads-array peer.public_key 32 f.1) (
        Reads-bind _ _ _ _ (length peer.capabilities) peer
          (Reads-u8 (length peer.capabilities) (omega arith))
          (Reads-check _ _ _ _ peer (within _ _ few) (
            Reads-bind _ _ _ _ peer.capabilities peer (Reads-capabilities peer.capabilities) (
              Reads-bind _ _ _ _ (length peer.content_ids) peer
                (Reads-u16 (length peer.content_ids) (omega arith))
                (Reads-check _ _ _ _ peer (within _ _ short)
                  (Reads-last _ _ _ peer.content_ids (Reads-ids peer.content_ids f.2))))))))

Reads-identifier :
    (relay_id : Bytes)
    → IsText relay_id
    → valid_identifier relay_id 64 ≡ true
    → Reads (get_string 64) (be 2 (length relay_id) ++ relay_id) relay_id
Reads-identifier relay_id f v =
    let short = valid_identifier-length relay_id 64 v in
    Reads-string relay_id 64 short (omega arith) f

module _ (hash : Bytes → Bytes) (is_socket_addr : Bytes → Bool) where
  relay_bounds :
      (relay : RelayAdvertisement)
      → validate_overlay_request hash is_socket_addr (register_relay relay) ≡ ok tt
      → (valid_identifier relay.relay_id 64 ≡ true) × (length relay.address ≤ 128)
  unfolding validate_overlay_request
  relay_bounds relay v = ground arith

  peer_bounds :
      (peer : PeerAdvertisement)
      → validate_overlay_request hash is_socket_addr (register_peer peer) ≡ ok tt
      → (length peer.capabilities ≤ max_capabilities)
        × (length peer.content_ids ≤ max_advertised_content_ids)
  unfolding validate_overlay_request
  peer_bounds peer v = ground arith

  Reads-request :
      (m : OverlayRequest)
      → RequestFields m
      → validate_overlay_request hash is_socket_addr m ≡ ok tt
      → Reads (request_fields (request_kind m)) (wire_fields m) m
  unfolding request_fields get_relay validate_overlay_request
  Reads-request (register_peer peer) f v =
      let bounds = peer_bounds peer v in Reads-last _ _ _ peer (Reads-peer peer f bounds.0 bounds.1)
  Reads-request (heartbeat_peer peer_id) f v = Reads-last _ _ _ peer_id (Reads-array peer_id 32 f)
  Reads-request (poll_peer peer_id) f v = Reads-last _ _ _ peer_id (Reads-array peer_id 32 f)
  Reads-request (register_relay relay) f v =
      let bounds = relay_bounds relay v in
      Reads-last _ _ _ relay (
        Reads-bind _ _ _ _ relay.relay_id relay (Reads-identifier relay.relay_id f.0 bounds.0) (
          Reads-last _ _ _ relay.address
            (Reads-string relay.address 128 bounds.1 (omega arith) f.1)))
  Reads-request (heartbeat_relay relay_id) f v =
      Reads-last _ _ _ relay_id (Reads-identifier relay_id f (ground arith))
  Reads-request (discover content_id) f v =
      Reads-last _ _ _ content_id (Reads-array content_id 32 f)
  Reads-request (discover_providers content_id limit) f v =
      Reads-bind _ _ _ _ content_id (discover_providers content_id limit)
        (Reads-array content_id 32 f.0) (Reads-last _ _ _ limit (Reads-u16 limit f.1))
  Reads-request (report_relay_failure relay_id) f v =
      Reads-last _ _ _ relay_id (Reads-identifier relay_id f (ground arith))
  Reads-request health f v = Reads-nothing health

  request_kind-lt : (m : OverlayRequest) → request_kind m < 2 ^ 8
  request_kind-lt (register_peer peer) = omega arith
  request_kind-lt _ = omega arith

  request_record-wire :
      (m : OverlayRequest)
      → RequestFields m
      → validate_overlay_request hash is_socket_addr m ≡ ok tt
      → length (wire m) < 2 ^ 64
      → request_record (place (wire m) 0) ≡ ok (m, place (wire m) (length (wire m)))
  unfolding request_record wire
  request_record-wire m f v fits =
      Reads-record domain_overlay_request (request_kind m) request_fields (wire_fields m) m
        (omega arith) (request_kind-lt m) (Reads-request m f v) fits

  -- Every request that `encode_overlay_request` accepts, over fields in the range of their types, is
  -- what `decode_overlay_request` returns for the encoded bytes.
  pub decode_overlay_request-encode_overlay_request :
      (m : OverlayRequest) (b : Bytes)
      → RequestFields m
      → encode_overlay_request hash is_socket_addr m ≡ ok b
      → decode_overlay_request hash is_socket_addr b ≡ ok m
  unfolding decode_overlay_request ensure_size
  decode_overlay_request-encode_overlay_request m b f h =
      let done = encode-Encoded hash is_socket_addr m b h in
      let bounded : length (wire m) ≤ max_overlay_message_bytes =
        rw (← done.written) done.bounded in
      let read = request_record-wire m f done.valid (omega arith) in
      let small : ltb max_overlay_message_bytes (length (wire m)) ≡ false = ground arith in
      rw (done.written, small, read, done.valid)
