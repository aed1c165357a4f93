-- ===== src/Protocol/Requests.antt =====
-- `encode_overlay_request`, `decode_overlay_request` and `validate_overlay_request`.
-- `hash` is BLAKE3 and `is_socket_addr` tells whether a text parses as a `SocketAddr`.
mod Body
mod Wire
pub mod RoundTrip
use triptorrent.Base.{
  ℕ, ◌^◌, List, [], ◌∷◌, Bool, true, false, not, ◌&&◌, ◌||◌, length, ltb, ◌==◌, Result, ok, err,
  guard, ◌>>=◌, ◌>>◌,
}
use triptorrent.Base.Bytes.{Bytes, bytes_eq}
use triptorrent.Protocol.{
  OverlayRequest, register_peer, heartbeat_peer, poll_peer, register_relay, heartbeat_relay,
  discover, discover_providers, report_relay_failure, health, PeerCapability, relayed_transfer_v1,
  swarm_transfer_v1, PeerAdvertisement, RelayAdvertisement, ProtocolError, invalid_message,
  max_overlay_message_bytes, max_advertised_content_ids, max_capabilities, max_discovery_routes,
  domain_overlay_request,
}
use triptorrent.Protocol.Identifier.{valid_identifier}
use triptorrent.Protocol.Writer.{
  Writer, new, finish, ensure_size, raw, put_u8, put_u16, put_string, put_ids,
}
use Body.{request_record}

abbrev pub no_items {ℓ} : {A : Type ℓ} → List A → Bool
no_items [] = true
no_items (x ∷ xs) = false

module _ (hash : Bytes → Bytes) (is_socket_addr : Bytes → Bool) where
  unfoldable pub validate_overlay_request : OverlayRequest → Result ProtocolError (Unit {0})
  validate_overlay_request (register_peer peer) = do
    guard (bytes_eq peer.peer_id (hash peer.public_key))
        (invalid_message "peer identity does not match key")
    guard
        (not (
          no_items peer.content_ids
          || (ltb max_advertised_content_ids (length peer.content_ids)
              || (no_items peer.capabilities || ltb max_capabilities (length peer.capabilities)))))
        (invalid_message "peer advertisement exceeds bounds")
  validate_overlay_request (register_relay relay) =
      guard
        (valid_identifier relay.relay_id 64
          && (not (ltb 128 (length relay.address)) && is_socket_addr relay.address))
        (invalid_message "invalid relay advertisement")
  validate_overlay_request (heartbeat_relay relay_id) =
      guard (valid_identifier relay_id 64) (invalid_message "invalid relay identifier")
  validate_overlay_request (report_relay_failure relay_id) =
      guard (valid_identifier relay_id 64) (invalid_message "invalid relay identifier")
  validate_overlay_request (discover_providers content_id limit) =
      guard (not (limit == 0 || ltb max_discovery_routes limit))
        (invalid_message "invalid provider discovery limit")
  validate_overlay_request _ = ok tt

abbrev pub capability_code : PeerCapability → ℕ
capability_code relayed_transfer_v1 = 1
capability_code swarm_transfer_v1 = 2

unfoldable pub put_capabilities : List PeerCapability → Writer → Writer
put_capabilities [] w = w
put_capabilities (c ∷ cs) w = put_capabilities cs (put_u16 (capability_code c) w)

unfoldable pub put_peer : PeerAdvertisement → Writer → Result ProtocolError Writer
put_peer peer w = do
  let keyed = raw peer.public_key (raw peer.peer_id w)
  guard (ltb (length peer.capabilities) (2 ^ 8)) (invalid_message "too many capabilities")
  let capable = put_capabilities peer.capabilities (put_u8 (length peer.capabilities) keyed)
  guard (ltb (length peer.content_ids) (2 ^ 16)) (invalid_message "too many content identifiers")
  ok (put_ids peer.content_ids (put_u16 (length peer.content_ids) capable))

-- The `match` of `encode_overlay_request`.
unfoldable pub put_request : OverlayRequest → Writer → Result ProtocolError Writer
put_request (register_peer peer) w = put_peer peer (put_u8 1 w)
put_request (heartbeat_peer peer_id) w = ok (raw peer_id (put_u8 2 w))
put_request (poll_peer peer_id) w = ok (raw peer_id (put_u8 3 w))
put_request (register_relay relay) w = do
  w' ← put_string relay.relay_id (put_u8 4 w)
  put_string relay.address w'
put_request (heartbeat_relay relay_id) w = put_string relay_id (put_u8 5 w)
put_request (discover content_id) w = ok (raw content_id (put_u8 6 w))
put_request (discover_providers content_id limit) w =
    ok (put_u16 limit (raw content_id (put_u8 7 w)))
put_request (report_relay_failure relay_id) w = put_string relay_id (put_u8 8 w)
put_request health w = ok (put_u8 9 w)

module _ (hash : Bytes → Bytes) (is_socket_addr : Bytes → Bool) where
  unfoldable pub encode_overlay_request : OverlayRequest → Result ProtocolError Bytes
  encode_overlay_request request = do
    validate_overlay_request hash is_socket_addr request
    w ← put_request request (new domain_overlay_request)
    finish max_overlay_message_bytes w

  unfoldable pub decode_overlay_request : Bytes → Result ProtocolError OverlayRequest
  decode_overlay_request bytes = do
    ensure_size bytes max_overlay_message_bytes
    parsed ← request_record (record { bytes = bytes; offset = 0 })
    validate_overlay_request hash is_socket_addr parsed.0
    ok parsed.0
