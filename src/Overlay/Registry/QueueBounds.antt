-- ===== src/Overlay/Registry/QueueBounds.antt =====
-- The limits of `Registry` under the operations that queue and hand out routes.
use triptorrent.Base.{
  ℕ, suc, ◌%◌, ◌≤◌, ◌≡◌, inl, inr, List, [], ◌∷◌, ◌++◌, false, length, take, get_elem?, leb, arith,
  length-append, Bool-cases, Option-cases,
}
use triptorrent.Base.Bytes.{Bytes}
use triptorrent.Base.Dict
use triptorrent.Base.Dict.{Dict, Every, Every-get, Every-replace, Every-insert}
use triptorrent.Base.Text.{ascii}
use triptorrent.Protocol.{PeerAdvertisement, RelayAdvertisement}
use triptorrent.Overlay.State.{Registry, RelayLease, QueuedAssignment, is_usable, purge}
use triptorrent.Overlay.Registry.{heartbeat_peer}
use triptorrent.Overlay.Registry.Discovery.{
  queue_of, with_queue, queue_assignment, first_provider, first_relay, discover_live, discover,
  queue_all, discover_swarm, swarm_providers, relay_list, discover_providers, pop_usable,
  take_assignment, poll_peer,
}
use triptorrent.Overlay.Registry.Bounds.{
  Short, IsRegistry, purge-IsRegistry, heartbeat_peer-IsRegistry,
}

-- One more assignment fits into a queue that is not full.
snoc_short :
    (bound : ℕ) (queue : List QueuedAssignment) (queued : QueuedAssignment)
    → leb bound (length queue) ≡ false
    → length (queue ++ queued ∷ []) ≤ bound
snoc_short bound queue queued room = ground (arith, length-append queue (queued ∷ []))

module _ (hash : Bytes → Bytes) where
  queue_of-short :
      (s : Registry) (peer_id : Bytes)
      → IsRegistry hash s
      → length (queue_of s peer_id) ≤ s.limits.max_assignments_per_peer
  unfolding queue_of
  queue_of-short s peer_id w = elim (Option-cases (Dict.get peer_id s.assignments)) [
    | inl missing ↦ rw (queue_of, missing) (omega arith)
    | inr (queue, found) ↦
        rw (queue_of, found)
          (Every-get (Short s.limits.max_assignments_per_peer) peer_id s.assignments queue w.queues
            found)
  ]

  with_queue-IsRegistry :
      (s : Registry) (peer_id : Bytes) (queue : List QueuedAssignment)
      → IsRegistry hash s
      → length queue ≤ s.limits.max_assignments_per_peer
      → IsRegistry hash (with_queue s peer_id queue)
  unfolding with_queue
  with_queue-IsRegistry s peer_id queue w short = record {
    peers = w.peers;
    relays = w.relays;
    queues =
        Every-insert (Short s.limits.max_assignments_per_peer) peer_id queue s.assignments
          (λ j. short) w.queues;
    leases = w.leases;
  }

  numbered-IsRegistry :
      (s : Registry) (n : ℕ) → IsRegistry hash s → IsRegistry hash (record s { next_route = n })
  numbered-IsRegistry s n w = record {
    peers = w.peers;
    relays = w.relays;
    queues = w.queues;
    leases = w.leases;
  }

  queue_assignment-IsRegistry :
      (s : Registry) (now : ℕ) (provider : PeerAdvertisement) (relay : RelayAdvertisement)
      (prefix : Bytes)
      → IsRegistry hash s
      → IsRegistry hash (queue_assignment s now provider relay prefix).1
  unfolding queue_assignment
  queue_assignment-IsRegistry s now provider relay prefix w =
      let queue = queue_of s provider.peer_id in
      let short = queue_of-short s provider.peer_id w in
      elim (Bool-cases (leb s.limits.max_assignments_per_peer (length queue))) [
        | inl full ↦ rw full (with_queue-IsRegistry s provider.peer_id queue w short)
        | inr room ↦ rw room (
            with_queue-IsRegistry _ provider.peer_id _ (numbered-IsRegistry s _ w)
              (snoc_short s.limits.max_assignments_per_peer queue _ room))
      ]

  discover_live-IsRegistry :
      (s : Registry) (now : ℕ) (content_id : Bytes)
      → IsRegistry hash s
      → IsRegistry hash (discover_live s now content_id).1
  unfolding discover_live
  discover_live-IsRegistry s now content_id w =
      elim (Option-cases (first_provider content_id s.peers)) [
        | inl missing ↦ rw (discover_live, missing) w
        | inr (provider, found) ↦ elim (Option-cases (first_relay s.relays)) [
          | inl none_live ↦ rw (discover_live, found, none_live) w
          | inr (relay, live) ↦
              rw (discover_live, found, live)
                (queue_assignment-IsRegistry s now provider relay (ascii "m2") w)
        ]
      ]

  pub discover-IsRegistry :
      (s : Registry) (now : ℕ) (content_id : Bytes)
      → IsRegistry hash s
      → IsRegistry hash (discover s now content_id).1
  unfolding discover
  discover-IsRegistry s now content_id w =
      discover_live-IsRegistry (purge now s) now content_id (purge-IsRegistry hash s now w)

  queue_all-IsRegistry :
      (providers : List PeerAdvertisement) (s : Registry) (now : ℕ)
      (relays : List RelayAdvertisement) (i : ℕ)
      → IsRegistry hash s
      → IsRegistry hash (queue_all s now relays i providers).1
  unfolding queue_all
  queue_all-IsRegistry [] s now relays i w = w
  queue_all-IsRegistry (provider ∷ rest) s now relays i w =
      elim (Option-cases (get_elem? relays (i % length relays))) [
        | inl missing ↦ rw (queue_all, missing) w
        | inr (relay, found) ↦
            rw (queue_all, found)
              (queue_all-IsRegistry rest _ now relays (suc i)
                (queue_assignment-IsRegistry s now provider relay (ascii "m4") w))
      ]

  discover_swarm-IsRegistry :
      (s : Registry) (now : ℕ) (providers : List PeerAdvertisement)
      (relays : List RelayAdvertisement)
      → IsRegistry hash s
      → IsRegistry hash (discover_swarm s now providers relays).1
  unfolding discover_swarm
  discover_swarm-IsRegistry s now providers [] w = w
  discover_swarm-IsRegistry s now providers (relay ∷ relays) w =
      queue_all-IsRegistry providers s now (relay ∷ relays) 0 w

  pub discover_providers-IsRegistry :
      (s : Registry) (now : ℕ) (content_id : Bytes) (limit : ℕ)
      → IsRegistry hash s
      → IsRegistry hash (discover_providers s now content_id limit).1
  unfolding discover_providers
  discover_providers-IsRegistry s now content_id limit w =
      discover_swarm-IsRegistry (purge now s) now
        (take limit (swarm_providers content_id (purge now s).peers))
        (relay_list (purge now s).relays) (purge-IsRegistry hash s now w)

  pop_usable-short :
      (now : ℕ) (relays : Dict RelayLease) (queue : List QueuedAssignment)
      → length (pop_usable now relays queue).1 ≤ length queue
  unfolding pop_usable
  pop_usable-short now relays [] = omega arith
  pop_usable-short now relays (queued ∷ rest) = elim (Bool-cases (is_usable now relays queued)) [
    | inl usable ↦ rw usable (omega arith)
    | inr stale ↦ rw stale (omega (arith, pop_usable-short now relays rest))
  ]

  take_assignment-IsRegistry :
      (s : Registry) (now : ℕ) (peer_id : Bytes)
      → IsRegistry hash s
      → IsRegistry hash (take_assignment s now peer_id).1
  unfolding take_assignment
  take_assignment-IsRegistry s now peer_id w =
      elim (Option-cases (Dict.get peer_id s.assignments)) [
        | inl missing ↦ rw (take_assignment, missing) w
        | inr (queue, found) ↦
            let bound = s.limits.max_assignments_per_peer in
            let short = Every-get (Short bound) peer_id s.assignments queue w.queues found in
            let shorter = pop_usable-short now s.relays queue in
            rw (take_assignment, found)
              (record {
                peers = w.peers;
                relays = w.relays;
                queues =
                    Every-replace (Short bound) peer_id (pop_usable now s.relays queue).1
                      s.assignments (λ j. omega arith) w.queues;
                leases = w.leases;
              })
      ]

  pub poll_peer-IsRegistry :
      (s : Registry) (now : ℕ) (peer_id : Bytes)
      → IsRegistry hash s
      → IsRegistry hash (poll_peer s now peer_id).1
  unfolding poll_peer
  poll_peer-IsRegistry s now peer_id w =
      let w' = heartbeat_peer-IsRegistry hash s now peer_id w in
      elim (Bool-cases (heartbeat_peer s now peer_id).0) [
        | inl renewed ↦ rw (poll_peer, renewed) (take_assignment-IsRegistry _ now peer_id w')
        | inr missing ↦ rw (poll_peer, missing) w'
      ]
