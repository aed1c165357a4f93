-- ===== src/Overlay/Tests.antt =====
-- A registry with one peer and one relay, and a route between them.
use triptorrent.Base.{ℕ, ◌<◌, ◌++◌, ◌≡◌, ◌≢◌, refl, List, [], ◌∷◌, Bool, true, some}
use triptorrent.Base.Bytes.{Bytes, bytes_eq}
use triptorrent.Base.Dict
use triptorrent.Base.Dict.{Dict, Every}
use triptorrent.Base.Text.{ascii}
use triptorrent.Protocol.{
  OverlayRequest, register_peer, register_relay, discover, swarm_transfer_v1, PeerAdvertisement,
  RelayAdvertisement, RouteAssignment,
}
use triptorrent.Overlay.State.{PeerLease, Registry, default_limits, with_limits}
use triptorrent.Overlay.Registry.{report_relay_failure, member, snapshot}
use triptorrent.Overlay.Registry.Discovery.{first_provider}
use triptorrent.Overlay.Registry.Discovery
use triptorrent.Overlay.Registry.Bounds.{IsRegistry}
use triptorrent.Overlay.Registry.Safety.{
  NotOffered, Live, poll_peer-Live, poll_peer-report_relay_failure, discover-named,
}
use triptorrent.Overlay.Service.{handle_request}
use triptorrent.Overlay.Service.Bounds.{serve, handle_request-IsRegistry, serve-with_limits}

-- Stand-ins for the hash and for the parser of socket addresses.
abbrev sample_hash : Bytes → Bytes
sample_hash bytes = bytes

abbrev any_address : Bytes → Bool
any_address text = true

abbrev content_id : Bytes
content_id = 9 ∷ []

abbrev peer : PeerAdvertisement
peer = record {
  peer_id = 1 ∷ 2 ∷ [];
  public_key = 1 ∷ 2 ∷ [];
  capabilities = swarm_transfer_v1 ∷ [];
  content_ids = content_id ∷ [];
}

abbrev relay : RelayAdvertisement
relay = record { relay_id = ascii "r1"; address = ascii "127.0.0.1:1" }

abbrev requests : List (ℕ × OverlayRequest)
requests = (0, register_peer peer) ∷ (1, register_relay relay) ∷ []

serve-with_limits_example :
    IsRegistry sample_hash (serve sample_hash any_address (with_limits 100 default_limits) requests)
serve-with_limits_example = serve-with_limits sample_hash any_address 100 default_limits requests

abbrev ready : Registry
ready = serve sample_hash any_address (with_limits 100 default_limits) requests

ready-IsRegistry : IsRegistry sample_hash ready
ready-IsRegistry = serve-with_limits sample_hash any_address 100 default_limits requests

handle_request-IsRegistry_example :
    IsRegistry sample_hash (handle_request sample_hash any_address ready 2 (discover content_id)).1
handle_request-IsRegistry_example =
    handle_request-IsRegistry sample_hash any_address ready 2 (discover content_id) ready-IsRegistry

-- The first route of the registry.
abbrev route : RouteAssignment
route = record {
  provider_id = 1 ∷ 2 ∷ [];
  provider_public_key = 1 ∷ 2 ∷ [];
  relay_id = ascii "r1";
  relay_address = ascii "127.0.0.1:1";
  route = ascii "m2-0000000000000001";
}

discovered : (Discovery.discover ready 2 content_id).0 ≡ some route
unfolding handle_request with_limits snapshot Discovery.discover Dict.contains_key bytes_eq
    Dict.insert Dict.get
discovered = refl

discover-named_example :
    (before after : Dict PeerLease) × (key : Bytes) × (lease : PeerLease) × (ready.peers
      ≡ before ++ (key, lease) ∷ after)
    × Every (NotOffered 2 content_id) before
    × (2 < lease.expires_at)
    × (member content_id lease.advertisement.content_ids ≡ true)
    × (route.provider_id ≡ lease.advertisement.peer_id)
    × (route.provider_id ≡ sample_hash route.provider_public_key)
discover-named_example =
    discover-named sample_hash ready 2 content_id route ready-IsRegistry discovered

-- The registry with the route in the queue of the peer.
abbrev waiting : Registry
waiting = (Discovery.discover ready 2 content_id).1

polled : (Discovery.poll_peer waiting 3 (1 ∷ 2 ∷ [])).0 ≡ some route
unfolding Discovery.poll_peer handle_request with_limits snapshot Discovery.discover
    Dict.contains_key bytes_eq Dict.insert Dict.get
polled = refl

poll_peer-Live_example :
    (Dict.contains_key (ascii "r1") (Discovery.poll_peer waiting 3 (1 ∷ 2 ∷ [])).1.relays ≡ true)
    × Every (Live 3) (Discovery.poll_peer waiting 3 (1 ∷ 2 ∷ [])).1.relays
poll_peer-Live_example = poll_peer-Live waiting 3 (1 ∷ 2 ∷ []) route polled

polled_after :
    (Discovery.poll_peer (report_relay_failure waiting (ascii "r2")) 3 (1 ∷ 2 ∷ [])).0 ≡ some route
unfolding Discovery.poll_peer report_relay_failure handle_request with_limits snapshot
    Discovery.discover Dict.contains_key bytes_eq Dict.insert Dict.get Dict.remove
polled_after = refl

poll_peer-report_relay_failure_example : ascii "r1" ≢ ascii "r2"
poll_peer-report_relay_failure_example =
    poll_peer-report_relay_failure waiting 3 (ascii "r2") (1 ∷ 2 ∷ []) route polled_after
