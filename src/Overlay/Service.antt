-- ===== src/Overlay/Service.antt =====
-- `handle_request` of the bootstrap service: one registry operation and its response.
pub mod Bounds
use triptorrent.Base.{ℕ, min, Bool, true, false, Option, List, if◌then◌else◌, Result, ok, err}
use triptorrent.Base.Bytes.{Bytes}
use triptorrent.Base.Text.{ascii}
use triptorrent.Protocol.{
  OverlayRequest, register_peer, heartbeat_peer, poll_peer, register_relay, heartbeat_relay,
  discover, discover_providers, report_relay_failure, health, OverlayResponse, registered,
  assignment, route_found, routes, acknowledged, failure,
}
use triptorrent.Overlay.Registry
use triptorrent.Overlay.State.{
  Registry, RegistryError, peer_identity_mismatch, no_content, unsupported_peer, invalid_relay_id,
  invalid_relay_address, too_many_content_ids, duplicate_content_id, peer_limit_reached,
  relay_limit_reached,
}
use triptorrent.Overlay.Registry.Discovery

-- `error.to_string()`
abbrev pub describe : RegistryError → Bytes
describe peer_identity_mismatch = ascii "peer ID does not match the advertised public key"
describe no_content = ascii "peer advertisement contains no content IDs"
describe unsupported_peer =
    ascii "peer does not advertise the experimental relayed-transfer capability"
describe invalid_relay_id = ascii "relay ID must be 1-64 ASCII letters, digits, '-' or '_'"
describe invalid_relay_address = ascii "relay address must be a valid IP socket address"
describe too_many_content_ids = ascii "peer advertisement exceeds content-ID limit"
describe duplicate_content_id = ascii "peer advertisement contains duplicate content IDs"
describe peer_limit_reached = ascii "peer registry limit reached"
describe relay_limit_reached = ascii "relay registry limit reached"

abbrev pub registration_reply :
    Result RegistryError (Unit {0}) × Registry → OverlayResponse × Registry
registration_reply (ok u, s) = (registered s.lease_ms, s)
registration_reply (err e, s) = (failure (describe e), s)

abbrev pub renewal_reply : Bytes → Bool × Registry → OverlayResponse × Registry
renewal_reply message (true, s) = (registered s.lease_ms, s)
renewal_reply message (false, s) = (failure message, s)

unfoldable pub poll_reply : ℕ → Bytes → Bool × Registry → OverlayResponse × Registry
unfolding Discovery.poll_peer
poll_reply now peer_id (true, s) =
    let (found, s') = Discovery.poll_peer s now peer_id in (assignment found, s')
poll_reply now peer_id (false, s) = (failure (ascii "peer lease is not registered"), s)

module _ (hash : Bytes → Bytes) (is_socket_addr : Bytes → Bool) where
  unfoldable pub handle_request : Registry → ℕ → OverlayRequest → OverlayResponse × Registry
  unfolding poll_reply Registry.register_peer Registry.heartbeat_peer Registry.register_relay
      Registry.heartbeat_relay Discovery.discover Discovery.discover_providers
      Registry.report_relay_failure
  handle_request s now (register_peer peer) =
      registration_reply (Registry.register_peer hash s now peer)
  handle_request s now (heartbeat_peer peer_id) =
      renewal_reply (ascii "peer lease is not registered") (Registry.heartbeat_peer s now peer_id)
  handle_request s now (poll_peer peer_id) =
      poll_reply now peer_id (Registry.heartbeat_peer s now peer_id)
  handle_request s now (register_relay relay) =
      registration_reply (Registry.register_relay is_socket_addr s now relay)
  handle_request s now (heartbeat_relay relay_id) =
      renewal_reply (ascii "relay lease is not registered")
        (Registry.heartbeat_relay s now relay_id)
  handle_request s now (discover content_id) =
      let (found, s') = Discovery.discover s now content_id in (route_found found, s')
  handle_request s now (discover_providers content_id limit) =
      let (found, s') = Discovery.discover_providers s now content_id (min limit 16) in
      (routes found, s')
  handle_request s now (report_relay_failure relay_id) =
      (acknowledged, Registry.report_relay_failure s relay_id)
  handle_request s now health = (acknowledged, s)
