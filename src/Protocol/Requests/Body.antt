-- ===== src/Protocol/Requests/Body.antt =====
-- The reading half of `decode_overlay_request`.
use triptorrent.Base.{ℕ, not, ltb, ◌==◌, if◌then◌else◌}
use triptorrent.Protocol.{
  OverlayRequest, register_peer, heartbeat_peer, poll_peer, register_relay, heartbeat_relay,
  discover, discover_providers, report_relay_failure, health, PeerCapability, relayed_transfer_v1,
  swarm_transfer_v1, PeerAdvertisement, RelayAdvertisement, invalid_message, unknown_message,
  unsupported_capability, max_advertised_content_ids, max_capabilities, domain_overlay_request,
}
use triptorrent.Protocol.Reader.{
  Parser, ◌>>=◌, ◌>>◌, pure, fail, check, header, array, get_u8, get_u16, get_string, repeat, end,
}

unfoldable pub capability_of : ℕ → Parser PeerCapability
capability_of code =
    if code == 1
    then pure relayed_transfer_v1
    else if code == 2
    then pure swarm_transfer_v1
    else fail (unsupported_capability code)

unfoldable pub get_capability : Parser PeerCapability
get_capability = do code ← get_u16; capability_of code

unfoldable pub get_peer : Parser PeerAdvertisement
get_peer = do
  peer_id ← array 32
  public_key ← array 32
  count ← get_u8
  check (not (ltb max_capabilities count)) (invalid_message "too many capabilities")
  capabilities ← repeat count get_capability
  id_count ← get_u16
  check (not (ltb max_advertised_content_ids id_count))
      (invalid_message "too many content identifiers")
  content_ids ← repeat id_count (array 32)
  pure (record {
    peer_id = peer_id;
    public_key = public_key;
    capabilities = capabilities;
    content_ids = content_ids;
  })

unfoldable pub get_relay : Parser RelayAdvertisement
get_relay = do
  relay_id ← get_string 64
  address ← get_string 128
  pure (record { relay_id = relay_id; address = address })

-- The `match` of `decode_overlay_request` on the kind byte.
unfoldable pub request_fields : ℕ → Parser OverlayRequest
request_fields kind =
    if kind == 1
    then (do peer ← get_peer; pure (register_peer peer))
    else if kind == 2
    then (do peer_id ← array 32; pure (heartbeat_peer peer_id))
    else if kind == 3
    then (do peer_id ← array 32; pure (poll_peer peer_id))
    else if kind == 4
    then (do relay ← get_relay; pure (register_relay relay))
    else if kind == 5
    then (do relay_id ← get_string 64; pure (heartbeat_relay relay_id))
    else if kind == 6
    then (do content_id ← array 32; pure (discover content_id))
    else if kind == 7
    then (do content_id ← array 32; limit ← get_u16; pure (discover_providers content_id limit))
    else if kind == 8
    then (do relay_id ← get_string 64; pure (report_relay_failure relay_id))
    else if kind == 9
    then pure health
    else fail (unknown_message kind)

unfoldable pub request_record : Parser OverlayRequest
request_record = do
  header domain_overlay_request
  kind ← get_u8
  value ← request_fields kind
  end
  pure value
