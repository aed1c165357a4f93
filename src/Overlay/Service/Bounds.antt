-- ===== src/Overlay/Service/Bounds.antt =====
-- Every request to the bootstrap service keeps the limits of its registry.
use triptorrent.Base.{ℕ, ◌≡◌, Bool, true, false, List, [], ◌∷◌, Result, ok, err, min, refl}
use triptorrent.Base.Bytes.{Bytes}
use triptorrent.Protocol.{
  OverlayRequest, register_peer, heartbeat_peer, poll_peer, register_relay, heartbeat_relay,
  discover, discover_providers, report_relay_failure, health,
}
use triptorrent.Overlay.Registry
use triptorrent.Overlay.Registry.{snapshot}
use triptorrent.Overlay.State.{Registry, RegistryError, RegistryLimits, with_limits}
use triptorrent.Overlay.Registry.Bounds.{
  IsRegistry, purge-IsRegistry, register_peer-IsRegistry, heartbeat_peer-IsRegistry,
  register_relay-IsRegistry, heartbeat_relay-IsRegistry, report_relay_failure-IsRegistry,
  with_limits-IsRegistry,
}
use triptorrent.Overlay.Registry.QueueBounds.{
  discover-IsRegistry, discover_providers-IsRegistry, poll_peer-IsRegistry,
}
use triptorrent.Overlay.Service.{registration_reply, renewal_reply, poll_reply, handle_request}

-- The replies hand the registry on.
registration_state :
    (r : Result RegistryError (Unit {0}) × Registry) → (registration_reply r).1 ≡ r.1
registration_state (ok u, s) = refl
registration_state (err e, s) = refl

renewal_state : (message : Bytes) (r : Bool × Registry) → (renewal_reply message r).1 ≡ r.1
renewal_state message (true, s) = refl
renewal_state message (false, s) = refl

module _ (hash : Bytes → Bytes) (is_socket_addr : Bytes → Bool) where
  poll_reply-IsRegistry :
      (now : ℕ) (peer_id : Bytes) (r : Bool × Registry)
      → IsRegistry hash r.1
      → IsRegistry hash (poll_reply now peer_id r).1
  unfolding poll_reply
  poll_reply-IsRegistry now peer_id (true, s) w = poll_peer-IsRegistry hash s now peer_id w
  poll_reply-IsRegistry now peer_id (false, s) w = w

  -- Every request, answered or refused, keeps the tables and the queues of the registry within their
  -- limits and its leased peers named by the hashes of their keys.
  pub handle_request-IsRegistry :
      (s : Registry) (now : ℕ) (request : OverlayRequest)
      → IsRegistry hash s
      → IsRegistry hash (handle_request hash is_socket_addr s now request).1
  unfolding handle_request
  handle_request-IsRegistry s now (register_peer peer) w =
      rw (registration_state (Registry.register_peer hash s now peer))
        (register_peer-IsRegistry hash s now peer w)
  handle_request-IsRegistry s now (heartbeat_peer peer_id) w =
      rw (renewal_state _ (Registry.heartbeat_peer s now peer_id))
        (heartbeat_peer-IsRegistry hash s now peer_id w)
  handle_request-IsRegistry s now (poll_peer peer_id) w =
      poll_reply-IsRegistry now peer_id _ (heartbeat_peer-IsRegistry hash s now peer_id w)
  handle_request-IsRegistry s now (register_relay relay) w =
      rw (registration_state (Registry.register_relay is_socket_addr s now relay))
        (register_relay-IsRegistry hash is_socket_addr s now relay w)
  handle_request-IsRegistry s now (heartbeat_relay relay_id) w =
      rw (renewal_state _ (Registry.heartbeat_relay s now relay_id))
        (heartbeat_relay-IsRegistry hash s now relay_id w)
  handle_request-IsRegistry s now (discover content_id) w =
      discover-IsRegistry hash s now content_id w
  handle_request-IsRegistry s now (discover_providers content_id limit) w =
      discover_providers-IsRegistry hash s now content_id (min limit 16) w
  handle_request-IsRegistry s now (report_relay_failure relay_id) w =
      report_relay_failure-IsRegistry hash s relay_id w
  handle_request-IsRegistry s now health w = w

  -- The locked part of `handle_connection`: the request, then the snapshot for the metrics.
  abbrev pub handle_locked : Registry → ℕ → OverlayRequest → Registry
  handle_locked s now request =
      (snapshot (handle_request hash is_socket_addr s now request).1 now).1

  -- The registry after a sequence of requests, each with the time at which it is handled.
  abbrev pub serve : Registry → List (ℕ × OverlayRequest) → Registry
  serve s [] = s
  serve s ((now, request) ∷ rest) = serve (handle_locked s now request) rest

  serve-IsRegistry :
      (requests : List (ℕ × OverlayRequest)) (s : Registry)
      → IsRegistry hash s
      → IsRegistry hash (serve s requests)
  unfolding snapshot
  serve-IsRegistry [] s w = w
  serve-IsRegistry ((now, request) ∷ rest) s w =
      let handled = handle_request-IsRegistry s now request w in
      serve-IsRegistry rest _ (purge-IsRegistry hash _ now handled)

  -- A service that starts with an empty registry stays within the limits it was given, and its
  -- leased peers are named by the hashes of their keys, whatever the requests and their times.
  pub serve-with_limits :
      (lease_ms : ℕ) (limits : RegistryLimits) (requests : List (ℕ × OverlayRequest))
      → IsRegistry hash (serve (with_limits lease_ms limits) requests)
  serve-with_limits lease_ms limits requests =
      serve-IsRegistry requests _ (with_limits-IsRegistry hash lease_ms limits)
