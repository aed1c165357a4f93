-- ===== src/Overlay/Registry/Discovery.antt =====
-- The part of `Registry` that makes and hands out routes: `discover`, `discover_providers`,
-- `queue_assignment` and `poll_peer`.
use triptorrent.Base.{
  ℕ, zero, suc, ◌+◌, ◌/◌, ◌%◌, ◌^◌, List, [], ◌∷◌, ◌++◌, ◌&&◌, Option, none, some, length,
  get_elem?, take, any, ltb, leb, if◌then◌else◌,
}
use triptorrent.Base.Bytes.{Bytes}
use triptorrent.Base.Dict
use triptorrent.Base.Dict.{Dict}
use triptorrent.Base.Text.{ascii}
use triptorrent.Protocol.{PeerAdvertisement, RelayAdvertisement, RouteAssignment}
use triptorrent.Overlay.State.{
  Registry, PeerLease, RelayLease, QueuedAssignment, saturating_add, purge, is_usable,
}
use triptorrent.Overlay.Registry.{member, is_swarm, heartbeat_peer}

-- A hexadecimal digit, and `{:0k$x}` of a number below 16^k.
unfoldable pub hex_digit : ℕ → ℕ
hex_digit d = if ltb d 10 then b'0' + d else 87 + d

unfoldable pub hex : ℕ → ℕ → Bytes
unfolding hex_digit
hex zero n = []
hex (suc k) n = hex k (n / 16) ++ hex_digit (n % 16) ∷ []

-- `format!("{prefix}-{:016x}", next_route)`
unfoldable pub route_name : Bytes → ℕ → Bytes
unfolding hex
route_name prefix n = prefix ++ (b'-' ∷ hex 16 n)

-- `assignments.entry(peer_id).or_default()`
unfoldable pub queue_of : Registry → Bytes → List QueuedAssignment
queue_of s peer_id = elim (Dict.get peer_id s.assignments) [ none ↦ [] | some queue ↦ queue ]

unfoldable pub with_queue : Registry → Bytes → List QueuedAssignment → Registry
with_queue s peer_id queue = record s { assignments = Dict.insert peer_id queue s.assignments }

unfoldable pub queue_assignment :
    Registry
    → ℕ
    → PeerAdvertisement
    → RelayAdvertisement
    → Bytes
    → Option RouteAssignment × Registry
unfolding route_name queue_of with_queue
queue_assignment s now provider relay prefix =
    let queue = queue_of s provider.peer_id in
    if leb s.limits.max_assignments_per_peer (length queue)
    then (none, with_queue s provider.peer_id queue)
    else let route_number = (s.next_route + 1) % 2 ^ 64 in
      let made : RouteAssignment = record {
        provider_id = provider.peer_id;
        provider_public_key = provider.public_key;
        relay_id = relay.relay_id;
        relay_address = relay.address;
        route = route_name prefix route_number;
      } in
      let queued : QueuedAssignment = record {
        assignment = made;
        expires_at = saturating_add now s.lease_ms;
      } in
      (
        some made,
        with_queue (record s { next_route = route_number }) provider.peer_id (queue ++ queued ∷ []),
      )

-- `peers.values().find(..)`
unfoldable pub first_provider : Bytes → Dict PeerLease → Option PeerAdvertisement
first_provider content_id [] = none
first_provider content_id ((peer_id, lease) ∷ rest) =
    if member content_id lease.advertisement.content_ids
    then some lease.advertisement
    else first_provider content_id rest

-- `relays.values().next()`
unfoldable pub first_relay : Dict RelayLease → Option RelayAdvertisement
first_relay [] = none
first_relay ((relay_id, lease) ∷ rest) = some lease.advertisement

unfoldable pub discover_live : Registry → ℕ → Bytes → Option RouteAssignment × Registry
unfolding first_provider first_relay queue_assignment
discover_live s now content_id = elim (first_provider content_id s.peers) [
  | none ↦ (none, s)
  | some provider ↦ elim (first_relay s.relays) [
    | none ↦ (none, s)
    | some relay ↦ queue_assignment s now provider relay (ascii "m2")
  ]
]

unfoldable pub discover : Registry → ℕ → Bytes → Option RouteAssignment × Registry
unfolding purge discover_live
discover s now content_id = discover_live (purge now s) now content_id

-- `peers.values().filter(..)`
unfoldable pub swarm_providers : Bytes → Dict PeerLease → List PeerAdvertisement
swarm_providers content_id [] = []
swarm_providers content_id ((peer_id, lease) ∷ rest) =
    let others = swarm_providers content_id rest in
    if member content_id lease.advertisement.content_ids
      && any is_swarm lease.advertisement.capabilities
    then lease.advertisement ∷ others
    else others

unfoldable pub relay_list : Dict RelayLease → List RelayAdvertisement
relay_list [] = []
relay_list ((relay_id, lease) ∷ rest) = lease.advertisement ∷ relay_list rest

-- `if let Some(route) = made { routes.push(route) }`
abbrev pub push_some {ℓ} : {A : Type ℓ} → Option A → List A → List A
push_some none rest = rest
push_some (some a) rest = a ∷ rest

-- The `enumerate().filter_map(..)` of `discover_providers`, from position `i` on. An index out of
-- the list of relays panics; the remainder keeps it inside, since the list is not empty.
unfoldable pub queue_all :
    Registry
    → ℕ
    → List RelayAdvertisement
    → ℕ
    → List PeerAdvertisement
    → List RouteAssignment × Registry
unfolding queue_assignment
queue_all s now relays i [] = ([], s)
queue_all s now relays i (provider ∷ rest) = elim (get_elem? relays (i % length relays)) [
  | none ↦ ([], s)
  | some relay ↦
      let (made, s') = queue_assignment s now provider relay (ascii "m4") in
      let (others, s'') = queue_all s' now relays (suc i) rest in (push_some made others, s'')
]

unfoldable pub discover_swarm :
    Registry
    → ℕ
    → List PeerAdvertisement
    → List RelayAdvertisement
    → List RouteAssignment × Registry
unfolding queue_all
discover_swarm s now providers [] = ([], s)
discover_swarm s now providers (relay ∷ relays) = queue_all s now (relay ∷ relays) 0 providers

unfoldable pub discover_providers : Registry → ℕ → Bytes → ℕ → List RouteAssignment × Registry
unfolding purge swarm_providers relay_list discover_swarm take
discover_providers s now content_id limit =
    let live = purge now s in
    discover_swarm live now (take limit (swarm_providers content_id live.peers))
      (relay_list live.relays)

-- The `while let` of `poll_peer`: the first usable assignment and what stands behind it.
unfoldable pub pop_usable :
    ℕ → Dict RelayLease → List QueuedAssignment → Option RouteAssignment × List QueuedAssignment
unfolding is_usable
pop_usable now relays [] = (none, [])
pop_usable now relays (queued ∷ rest) =
    if is_usable now relays queued
    then (some queued.assignment, rest)
    else pop_usable now relays rest

unfoldable pub take_assignment : Registry → ℕ → Bytes → Option RouteAssignment × Registry
unfolding pop_usable
take_assignment s now peer_id = elim (Dict.get peer_id s.assignments) [
  | none ↦ (none, s)
  | some queue ↦
      let (found, rest) = pop_usable now s.relays queue in
      (found, record s { assignments = Dict.update peer_id (λ _. rest) s.assignments })
]

unfoldable pub poll_peer : Registry → ℕ → Bytes → Option RouteAssignment × Registry
unfolding heartbeat_peer take_assignment
poll_peer s now peer_id =
    let (renewed, live) = heartbeat_peer s now peer_id in
    if renewed then take_assignment live now peer_id else (none, live)
