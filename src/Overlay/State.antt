-- ===== src/Overlay/State.antt =====
-- The state of `Registry`: leased peers and relays, and the route assignments queued for each peer.
-- The source's BTreeMaps iterate in key order, as `Dict` does; the order of the HashMap of queues
-- shows nowhere. Counters (`expired_*`) do not reach 2^64.
use triptorrent.Base.{
  ℕ, ◌+◌, ◌-◌, ◌^◌, List, [], ◌∷◌, Bool, true, false, not, ◌&&◌, ◌||◌, max, min, length, keep_if,
  ltb, if◌then◌else◌,
}
use triptorrent.Base.Bytes.{Bytes}
use triptorrent.Base.Dict
use triptorrent.Base.Dict.{Dict}
use triptorrent.Protocol.{
  PeerAdvertisement, RelayAdvertisement, RouteAssignment, max_advertised_content_ids,
}

pub record RegistryLimits : Type 0 where
  pub max_peers : ℕ
  pub max_relays : ℕ
  pub max_content_ids_per_peer : ℕ
  pub max_assignments_per_peer : ℕ

abbrev pub default_limits : RegistryLimits
default_limits = record {
  max_peers = 4096;
  max_relays = 256;
  max_content_ids_per_peer = max_advertised_content_ids;
  max_assignments_per_peer = 64;
}

pub record PeerLease : Type 0 where
  pub advertisement : PeerAdvertisement
  pub expires_at : ℕ

pub record RelayLease : Type 0 where
  pub advertisement : RelayAdvertisement
  pub expires_at : ℕ

pub record QueuedAssignment : Type 0 where
  pub assignment : RouteAssignment
  pub expires_at : ℕ

pub record OverlaySnapshot : Type 0 where
  pub peers : ℕ
  pub relays : ℕ
  pub content_advertisements : ℕ
  pub expired_peers : ℕ
  pub expired_relays : ℕ
  pub expired_routes : ℕ

pub record Registry : Type 0 where
  pub lease_ms : ℕ
  pub limits : RegistryLimits
  pub peers : Dict PeerLease
  pub relays : Dict RelayLease
  pub assignments : Dict (List QueuedAssignment)
  pub next_route : ℕ
  pub expired_peers : ℕ
  pub expired_relays : ℕ
  pub expired_routes : ℕ

pub data RegistryError : Type 0 where
  peer_identity_mismatch no_content unsupported_peer invalid_relay_id invalid_relay_address
        too_many_content_ids duplicate_content_id peer_limit_reached relay_limit_reached :
      RegistryError

unfoldable pub with_limits : ℕ → RegistryLimits → Registry
with_limits lease_ms limits = record {
  lease_ms = max lease_ms 1;
  limits = limits;
  peers = [];
  relays = [];
  assignments = [];
  next_route = 0;
  expired_peers = 0;
  expired_relays = 0;
  expired_routes = 0;
}

unfoldable pub new : ℕ → Registry
unfolding with_limits
new lease_ms = with_limits lease_ms default_limits

-- `u64::saturating_add`
abbrev pub saturating_add : ℕ → ℕ → ℕ
saturating_add a b = min (a + b) (2 ^ 64 - 1)

abbrev pub peer_is_live : ℕ → Bytes × PeerLease → Bool
peer_is_live now e = ltb now e.1.expires_at

abbrev pub relay_is_live : ℕ → Bytes × RelayLease → Bool
relay_is_live now e = ltb now e.1.expires_at

-- `queued.expires_at > now_ms && relays.contains_key(&queued.assignment.relay_id)`
unfoldable pub is_usable : ℕ → Dict RelayLease → QueuedAssignment → Bool
is_usable now relays queued =
    ltb now queued.expires_at && Dict.contains_key queued.assignment.relay_id relays

abbrev pub no_entries {ℓ} : {A : Type ℓ} → List A → Bool
no_entries [] = true
no_entries (x ∷ xs) = false

-- The closure of `assignments.retain` in `purge`, over the peers and relays that are left.
unfoldable pub retain_queues :
    ℕ
    → Dict PeerLease
    → Dict RelayLease
    → Dict (List QueuedAssignment)
    → Dict (List QueuedAssignment)
unfolding is_usable
retain_queues now peers relays [] = []
retain_queues now peers relays ((peer_id, queue) ∷ rest) =
    let others = retain_queues now peers relays rest in
    let kept = keep_if (is_usable now relays) queue in
    if not (Dict.contains_key peer_id peers) || no_entries kept
    then others
    else (peer_id, kept) ∷ others

unfoldable pub count_routes : Dict (List QueuedAssignment) → ℕ
count_routes [] = 0
count_routes ((peer_id, queue) ∷ rest) = length queue + count_routes rest

unfoldable pub purge : ℕ → Registry → Registry
unfolding retain_queues count_routes
purge now s =
    let peers = keep_if (peer_is_live now) s.peers in
    let relays = keep_if (relay_is_live now) s.relays in
    let assignments = retain_queues now peers relays s.assignments in
    record s {
      peers = peers;
      relays = relays;
      assignments = assignments;
      expired_peers = s.expired_peers + (length s.peers - length peers);
      expired_relays = s.expired_relays + (length s.relays - length relays);
      expired_routes = s.expired_routes + (count_routes s.assignments - count_routes assignments);
    }
