-- ===== src/Overlay/Registry/Bounds.antt =====
-- The limits of `Registry`: no operation on the tables goes beyond them.
use triptorrent.Base.{
  ℕ, ◌≤◌, ◌<◌, ◌≡◌, ◌⊎◌, inl, inr, refl, List, [], ◌∷◌, Bool, true, false, not, ◌&&◌, length, leb,
  ok, guard, ◌>>◌, arith, length-keep_if-le, Bool-cases, Result-cases, ap, ◌∙◌,
}
use triptorrent.Base.Bytes.{Bytes, bytes_eq, bytes_eq-eq}
use triptorrent.Base.Dict
use triptorrent.Base.Dict.{
  Dict, Every, Every-get, Every-update, Every-insert, Every-keep_if, length-update,
  length-insert-le,
}
use triptorrent.Protocol.{PeerAdvertisement, RelayAdvertisement}
use triptorrent.Overlay.State.{
  Registry, RegistryLimits, invalid_relay_address, PeerLease, RelayLease, QueuedAssignment,
  with_limits, saturating_add, no_entries, is_usable, retain_queues, purge, peer_is_live,
  relay_is_live,
}
use triptorrent.Overlay.Registry.{
  check_peer, insert_peer, register_peer, renew_peer, heartbeat_peer, validate_relay_id,
  insert_relay, register_relay, renew_relay, heartbeat_relay, names_other_relay, drop_relay_routes,
  report_relay_failure,
}

-- A queue within the limit.
abbrev pub Short : ℕ → Bytes → List QueuedAssignment → Type 0
Short bound peer_id queue = length queue ≤ bound

-- The test of the source leaves room for the key.
space :
    (bound size : ℕ) (there : Bool)
    → (not there && leb bound size) ≡ false
    → (there ≡ true) ⊎ (size < bound)
space bound size true h = inl refl
space bound size false h = inr (ground arith)

drop_relay_routes-Short :
    (bound : ℕ) (relay_id : Bytes) (queues : Dict (List QueuedAssignment))
    → Every (Short bound) queues
    → Every (Short bound) (drop_relay_routes relay_id queues)
unfolding drop_relay_routes
drop_relay_routes-Short bound relay_id [] h = tt
drop_relay_routes-Short bound relay_id ((peer_id, queue) ∷ rest) h = (
  omega (arith, length-keep_if-le (names_other_relay relay_id) queue, h.0),
  drop_relay_routes-Short bound relay_id rest h.1,
)

purge-limits : (s : Registry) (now : ℕ) → (purge now s).limits ≡ s.limits
unfolding purge
purge-limits s now = refl

module _ (hash : Bytes → Bytes) where
  -- A lease whose advertisement names the peer of its key and a bounded list of contents.
  abbrev pub Sound : ℕ → Bytes → PeerLease → Type 0
  Sound bound peer_id lease =
      (lease.advertisement.peer_id ≡ hash lease.advertisement.public_key)
      × (0 < length lease.advertisement.content_ids)
      × (length lease.advertisement.content_ids ≤ bound)

  -- The tables and the queues are within the limits, and every leased peer is named by the hash of
  -- its key and advertises contents within the limit.
  pub record IsRegistry (s : Registry) : Type 0 where
    pub peers : length s.peers ≤ s.limits.max_peers
    pub relays : length s.relays ≤ s.limits.max_relays
    pub queues : Every (Short s.limits.max_assignments_per_peer) s.assignments
    pub leases : Every (Sound s.limits.max_content_ids_per_peer) s.peers

  retain_queues-Short :
      (bound now : ℕ) (peers : Dict PeerLease) (relays : Dict RelayLease)
      (queues : Dict (List QueuedAssignment))
      → Every (Short bound) queues
      → Every (Short bound) (retain_queues now peers relays queues)
  unfolding retain_queues
  retain_queues-Short bound now peers relays [] h = tt
  retain_queues-Short bound now peers relays ((peer_id, queue) ∷ rest) h =
      let others = retain_queues-Short bound now peers relays rest h.1 in
      let shorter = length-keep_if-le (is_usable now relays) queue in
      ground (arith, others, shorter, h.0)

  pub purge-IsRegistry : (s : Registry) (now : ℕ) → IsRegistry s → IsRegistry (purge now s)
  unfolding purge
  purge-IsRegistry s now w = record {
    peers = omega (arith, length-keep_if-le (peer_is_live now) s.peers, w.peers);
    relays = omega (arith, length-keep_if-le (relay_is_live now) s.relays, w.relays);
    queues = retain_queues-Short _ now _ _ s.assignments w.queues;
    leases = Every-keep_if _ (peer_is_live now) s.peers w.leases;
  }

  peer-Sound :
      (limits : RegistryLimits) (peer : PeerAdvertisement) (expires_at : ℕ) (j : Bytes)
      → check_peer hash limits peer ≡ ok tt
      → Sound limits.max_content_ids_per_peer j
          (record { advertisement = peer; expires_at = expires_at })
  unfolding check_peer
  peer-Sound limits peer expires_at j h =
      let named : bytes_eq peer.peer_id (hash peer.public_key) ≡ true = ground arith in
      let some_content : no_entries peer.content_ids ≡ false = ground arith in
      (bytes_eq-eq _ _ named, ground arith, ground arith)

  insert_peer-IsRegistry :
      (s : Registry) (now : ℕ) (peer : PeerAdvertisement)
      → IsRegistry s
      → check_peer hash s.limits peer ≡ ok tt
      → IsRegistry (insert_peer s now peer).1
  unfolding insert_peer
  insert_peer-IsRegistry s now peer w checked =
      let full =
        not (Dict.contains_key peer.peer_id s.peers) && leb s.limits.max_peers (length s.peers) in
      elim (Bool-cases full) [
        | inl refused ↦ rw refused w
        | inr room ↦ rw room (record {
          peers = length-insert-le _ _ s.peers _ w.peers (space s.limits.max_peers _ _ room);
          relays = w.relays;
          queues = w.queues;
          leases =
              Every-insert _ _ _ s.peers
                (λ j. peer-Sound s.limits peer (saturating_add now s.lease_ms) j checked) w.leases;
        })
      ]

  pub register_peer-IsRegistry :
      (s : Registry) (now : ℕ) (peer : PeerAdvertisement)
      → IsRegistry s
      → IsRegistry (register_peer hash s now peer).1
  unfolding register_peer
  register_peer-IsRegistry s now peer w = elim (Result-cases (check_peer hash s.limits peer)) [
    | inl (e, refused) ↦ rw (register_peer, refused) w
    | inr passed ↦
        rw (register_peer, passed)
          (insert_peer-IsRegistry (purge now s) now peer (purge-IsRegistry s now w)
            (ap (λ limits. check_peer hash limits peer) (purge-limits s now) ∙ passed))
  ]

  pub heartbeat_peer-IsRegistry :
      (s : Registry) (now : ℕ) (peer_id : Bytes)
      → IsRegistry s
      → IsRegistry (heartbeat_peer s now peer_id).1
  unfolding heartbeat_peer
  heartbeat_peer-IsRegistry s now peer_id w =
      let live = purge now s in
      let w' = purge-IsRegistry s now w in
      elim (Bool-cases (Dict.contains_key peer_id live.peers)) [
        | inr missing ↦ rw missing w'
        | inl there ↦ rw there (record {
          peers = omega (arith, length-update peer_id (renew_peer _) live.peers, w'.peers);
          relays = w'.relays;
          queues = w'.queues;
          leases = Every-update _ peer_id (renew_peer _) live.peers (λ j lease h. h) w'.leases;
        })
      ]

  insert_relay-IsRegistry :
      (s : Registry) (now : ℕ) (relay : RelayAdvertisement)
      → IsRegistry s
      → IsRegistry (insert_relay s now relay).1
  unfolding insert_relay
  insert_relay-IsRegistry s now relay w =
      let full =
        not (Dict.contains_key relay.relay_id s.relays)
        && leb s.limits.max_relays (length s.relays) in
      elim (Bool-cases full) [
        | inl refused ↦ rw refused w
        | inr room ↦ rw room (record {
          peers = w.peers;
          relays = length-insert-le _ _ s.relays _ w.relays (space s.limits.max_relays _ _ room);
          queues = w.queues;
          leases = w.leases;
        })
      ]

  pub register_relay-IsRegistry :
      (is_socket_addr : Bytes → Bool) (s : Registry) (now : ℕ) (relay : RelayAdvertisement)
      → IsRegistry s
      → IsRegistry (register_relay is_socket_addr s now relay).1
  unfolding register_relay
  register_relay-IsRegistry is_socket_addr s now relay w =
      elim (Result-cases (
        validate_relay_id relay.relay_id
        >> guard (is_socket_addr relay.address) invalid_relay_address)) [
          | inl (e, refused) ↦ rw (register_relay, refused) w
          | inr passed ↦
              rw (register_relay, passed)
                (insert_relay-IsRegistry (purge now s) now relay (purge-IsRegistry s now w))
        ]

  pub heartbeat_relay-IsRegistry :
      (s : Registry) (now : ℕ) (relay_id : Bytes)
      → IsRegistry s
      → IsRegistry (heartbeat_relay s now relay_id).1
  unfolding heartbeat_relay
  heartbeat_relay-IsRegistry s now relay_id w =
      let live = purge now s in
      let w' = purge-IsRegistry s now w in
      elim (Bool-cases (Dict.contains_key relay_id live.relays)) [
        | inr missing ↦ rw missing w'
        | inl there ↦ rw there (record {
          peers = w'.peers;
          relays = omega (arith, length-update relay_id (renew_relay _) live.relays, w'.relays);
          queues = w'.queues;
          leases = w'.leases;
        })
      ]

  pub report_relay_failure-IsRegistry :
      (s : Registry) (relay_id : Bytes)
      → IsRegistry s
      → IsRegistry (report_relay_failure s relay_id)
  unfolding report_relay_failure Dict.remove
  report_relay_failure-IsRegistry s relay_id w = record {
    peers = w.peers;
    relays = omega (arith, length-keep_if-le (λ e. not (bytes_eq relay_id e.0)) s.relays, w.relays);
    queues = drop_relay_routes-Short _ relay_id s.assignments w.queues;
    leases = w.leases;
  }

  -- A new registry, whatever its limits, keeps to them.
  pub with_limits-IsRegistry :
      (lease_ms : ℕ) (limits : RegistryLimits) → IsRegistry (with_limits lease_ms limits)
  unfolding with_limits
  with_limits-IsRegistry lease_ms limits = record {
    peers = omega arith;
    relays = omega arith;
    queues = tt;
    leases = tt;
  }
