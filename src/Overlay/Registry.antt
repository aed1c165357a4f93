-- ===== src/Overlay/Registry.antt =====
-- The operations of `Registry` on its tables of peers and relays.
pub mod Discovery
pub mod Bounds
pub mod QueueBounds
pub mod Safety
use triptorrent.Base.{
  ℕ, ◌+◌, List, [], ◌∷◌, Bool, true, false, not, ◌&&◌, ◌||◌, length, all, any, keep_if, ltb, leb,
  if◌then◌else◌, Result, ok, err, guard, ◌>>=◌, ◌>>◌,
}
use triptorrent.Base.Bytes.{Bytes, bytes_eq}
use triptorrent.Base.Dict
use triptorrent.Base.Dict.{Dict}
use triptorrent.Protocol.{
  PeerCapability, relayed_transfer_v1, swarm_transfer_v1, PeerAdvertisement, RelayAdvertisement,
}
use triptorrent.Protocol.Identifier.{is_identifier_byte, is_empty}
use triptorrent.Overlay.State.{
  Registry, RegistryLimits, RegistryError, peer_identity_mismatch, no_content, unsupported_peer,
  invalid_relay_id, invalid_relay_address, too_many_content_ids, duplicate_content_id,
  peer_limit_reached, relay_limit_reached, PeerLease, RelayLease, QueuedAssignment, OverlaySnapshot,
  saturating_add, no_entries, purge,
}

abbrev pub member : Bytes → List Bytes → Bool
member x ids = any (bytes_eq x) ids

-- The size of the HashSet of `ids`.
unfoldable pub unique_count : List Bytes → ℕ
unique_count [] = 0
unique_count (x ∷ xs) = let n = unique_count xs in if member x xs then n else n + 1

-- `matches!` of both capabilities of the enum.
abbrev pub is_transfer : PeerCapability → Bool
is_transfer relayed_transfer_v1 = true
is_transfer swarm_transfer_v1 = true

abbrev pub is_swarm : PeerCapability → Bool
is_swarm relayed_transfer_v1 = false
is_swarm swarm_transfer_v1 = true

module _ (hash : Bytes → Bytes) where
  -- The checks of `register_peer` that read no table.
  unfoldable pub check_peer : RegistryLimits → PeerAdvertisement → Result RegistryError (Unit {0})
  unfolding unique_count
  check_peer limits peer = do
    guard (bytes_eq peer.peer_id (hash peer.public_key)) peer_identity_mismatch
    guard (not (no_entries peer.content_ids)) no_content
    guard (not (ltb limits.max_content_ids_per_peer (length peer.content_ids))) too_many_content_ids
    guard (leb (length peer.content_ids) (unique_count peer.content_ids)) duplicate_content_id
    guard (any is_transfer peer.capabilities) unsupported_peer

-- The table part of `register_peer`, after `purge`.
unfoldable pub insert_peer :
    Registry → ℕ → PeerAdvertisement → Result RegistryError (Unit {0}) × Registry
insert_peer s now peer =
    if not (Dict.contains_key peer.peer_id s.peers) && leb s.limits.max_peers (length s.peers)
    then (err peer_limit_reached, s)
    else let lease : PeerLease = record {
      advertisement = peer;
      expires_at = saturating_add now s.lease_ms;
    } in
      (ok tt, record s { peers = Dict.insert peer.peer_id lease s.peers })

unfoldable pub register_peer :
    (Bytes → Bytes) → Registry → ℕ → PeerAdvertisement → Result RegistryError (Unit {0}) × Registry
unfolding check_peer purge insert_peer
register_peer hash s now peer = elim (check_peer hash s.limits peer) [
  | err e ↦ (err e, s)
  | ok u ↦ insert_peer (purge now s) now peer
]

abbrev pub renew_peer : ℕ → PeerLease → PeerLease
renew_peer until lease = record lease { expires_at = until }

unfoldable pub heartbeat_peer : Registry → ℕ → Bytes → Bool × Registry
unfolding purge
heartbeat_peer s now peer_id =
    let live = purge now s in
    if Dict.contains_key peer_id live.peers
    then (
      true,
      record live {
        peers = Dict.update peer_id (renew_peer (saturating_add now live.lease_ms)) live.peers;
      },
    )
    else (false, live)

unfoldable pub validate_relay_id : Bytes → Result RegistryError (Unit {0})
unfolding is_identifier_byte is_empty
validate_relay_id relay_id =
    guard
      (not
        (is_empty relay_id || (ltb 64 (length relay_id) || not (all is_identifier_byte relay_id))))
      invalid_relay_id

unfoldable pub insert_relay :
    Registry → ℕ → RelayAdvertisement → Result RegistryError (Unit {0}) × Registry
insert_relay s now relay =
    if not (Dict.contains_key relay.relay_id s.relays) && leb s.limits.max_relays (length s.relays)
    then (err relay_limit_reached, s)
    else let lease : RelayLease = record {
      advertisement = relay;
      expires_at = saturating_add now s.lease_ms;
    } in
      (ok tt, record s { relays = Dict.insert relay.relay_id lease s.relays })

-- `is_socket_addr` tells whether a text parses as a `SocketAddr`.
unfoldable pub register_relay :
    (Bytes → Bool) → Registry → ℕ → RelayAdvertisement → Result RegistryError (Unit {0}) × Registry
unfolding validate_relay_id purge insert_relay
register_relay is_socket_addr s now relay =
    elim (validate_relay_id relay.relay_id
      >> guard (is_socket_addr relay.address) invalid_relay_address) [
        | err e ↦ (err e, s)
        | ok u ↦ insert_relay (purge now s) now relay
      ]

abbrev pub renew_relay : ℕ → RelayLease → RelayLease
renew_relay until lease = record lease { expires_at = until }

unfoldable pub heartbeat_relay : Registry → ℕ → Bytes → Bool × Registry
unfolding purge
heartbeat_relay s now relay_id =
    let live = purge now s in
    if Dict.contains_key relay_id live.relays
    then (
      true,
      record live {
        relays = Dict.update relay_id (renew_relay (saturating_add now live.lease_ms)) live.relays;
      },
    )
    else (false, live)

abbrev pub names_other_relay : Bytes → QueuedAssignment → Bool
names_other_relay relay_id queued = not (bytes_eq queued.assignment.relay_id relay_id)

unfoldable pub drop_relay_routes :
    Bytes → Dict (List QueuedAssignment) → Dict (List QueuedAssignment)
drop_relay_routes relay_id [] = []
drop_relay_routes relay_id ((peer_id, queue) ∷ rest) =
    (peer_id, keep_if (names_other_relay relay_id) queue) ∷ drop_relay_routes relay_id rest

unfoldable pub report_relay_failure : Registry → Bytes → Registry
unfolding drop_relay_routes
report_relay_failure s relay_id = record s {
  relays = Dict.remove relay_id s.relays;
  assignments = drop_relay_routes relay_id s.assignments;
}

unfoldable pub count_content_ids : Dict PeerLease → ℕ
count_content_ids [] = 0
count_content_ids ((peer_id, lease) ∷ rest) =
    length lease.advertisement.content_ids + count_content_ids rest

unfoldable pub snapshot : Registry → ℕ → OverlaySnapshot × Registry
unfolding purge count_content_ids
snapshot s now =
    let live = purge now s in
    (
      record {
        peers = length live.peers;
        relays = length live.relays;
        content_advertisements = count_content_ids live.peers;
        expired_peers = live.expired_peers;
        expired_relays = live.expired_relays;
        expired_routes = live.expired_routes;
      },
      live,
    )
