-- ===== src/Overlay/Registry/Safety.antt =====
-- Which routes the registry hands out: over live relays, and to providers named by their keys.
use triptorrent.Base.{
  ℕ, ◌+◌, ◌%◌, ◌^◌, ◌<◌, ◌≤◌, ◌≡◌, ◌⊎◌, ◌≢◌, ◌∙◌, sym, ap, inl, inr, refl, List, [], ◌∷◌, ◌++◌,
  Bool, true, false, Option, none, some, length, keep_if, leb, ltb, arith, Bool-cases, Option-cases,
}
use triptorrent.Base.Bytes.{Bytes}
use triptorrent.Base.Dict
use triptorrent.Base.Dict.{Dict, Every, contains_key-remove}
use triptorrent.Base.Text.{ascii}
use triptorrent.Protocol.{PeerAdvertisement, RelayAdvertisement, RouteAssignment}
use triptorrent.Overlay.State.{
  Registry, PeerLease, RelayLease, QueuedAssignment, is_usable, relay_is_live, peer_is_live, purge,
}
use triptorrent.Overlay.Registry.{member, heartbeat_peer, report_relay_failure}
use triptorrent.Overlay.Registry.Discovery.{
  queue_of, route_name, queue_assignment, first_provider, first_relay, discover_live, discover,
  pop_usable, take_assignment, poll_peer,
}
use triptorrent.Overlay.Registry.Bounds.{Sound, IsRegistry, purge-IsRegistry}

-- The lease has not run out.
abbrev pub Live : ℕ → Bytes → RelayLease → Type 0
Live now relay_id lease = now < lease.expires_at

keep-Live :
    (now : ℕ) (relays : Dict RelayLease) → Every (Live now) (keep_if (relay_is_live now) relays)
keep-Live now [] = tt
keep-Live now ((relay_id, lease) ∷ rest) = ground (arith, keep-Live now rest)

purge-Live : (s : Registry) (now : ℕ) → Every (Live now) (purge now s).relays
unfolding purge
purge-Live s now = keep-Live now s.relays

heartbeat-relays :
    (s : Registry) (now : ℕ) (peer_id : Bytes)
    → (heartbeat_peer s now peer_id).1.relays ≡ (purge now s).relays
unfolding heartbeat_peer purge
heartbeat-relays s now peer_id = elim (Bool-cases (Dict.contains_key peer_id (purge now s).peers)) [
  | inl there ↦ rw there refl
  | inr missing ↦ rw missing refl
]

pop-usable :
    (now : ℕ) (relays : Dict RelayLease) (queue : List QueuedAssignment) (a : RouteAssignment)
    → (pop_usable now relays queue).0 ≡ some a
    → Dict.contains_key a.relay_id relays ≡ true
unfolding pop_usable is_usable
pop-usable now relays [] a h = cc
pop-usable now relays (queued ∷ rest) a h = elim (Bool-cases (is_usable now relays queued)) [
  | inl usable ↦ ground arith
  | inr stale ↦ pop-usable now relays rest a (ground arith)
]

take-relays :
    (s : Registry) (now : ℕ) (peer_id : Bytes) → (take_assignment s now peer_id).1.relays ≡ s.relays
unfolding take_assignment
take-relays s now peer_id = elim (Option-cases (Dict.get peer_id s.assignments)) [
  | inl missing ↦ rw (take_assignment, missing) refl
  | inr (queue, found) ↦ rw (take_assignment, found) refl
]

take-usable :
    (s : Registry) (now : ℕ) (peer_id : Bytes) (a : RouteAssignment)
    → (take_assignment s now peer_id).0 ≡ some a
    → Dict.contains_key a.relay_id s.relays ≡ true
unfolding take_assignment
take-usable s now peer_id a h = elim (Option-cases (Dict.get peer_id s.assignments)) [
  | inl missing ↦ ground arith
  | inr (queue, found) ↦ pop-usable now s.relays queue a (ground arith)
]

poll-relay :
    (s : Registry) (now : ℕ) (peer_id : Bytes) (a : RouteAssignment)
    → (poll_peer s now peer_id).0 ≡ some a
    → Dict.contains_key a.relay_id (purge now s).relays ≡ true
unfolding poll_peer
poll-relay s now peer_id a h = elim (Bool-cases (heartbeat_peer s now peer_id).0) [
  | inl renewed ↦
      ap (Dict.contains_key a.relay_id) (sym (heartbeat-relays s now peer_id))
      ∙ take-usable (heartbeat_peer s now peer_id).1 now peer_id a (ground arith)
  | inr missing ↦ ground arith
]

poll-relays :
    (s : Registry) (now : ℕ) (peer_id : Bytes)
    → (poll_peer s now peer_id).1.relays ≡ (purge now s).relays
unfolding poll_peer
poll-relays s now peer_id = elim (Bool-cases (heartbeat_peer s now peer_id).0) [
  | inl renewed ↦
      rw (poll_peer, renewed)
        (take-relays (heartbeat_peer s now peer_id).1 now peer_id ∙ heartbeat-relays s now peer_id)
  | inr missing ↦ rw (poll_peer, missing) (heartbeat-relays s now peer_id)
]

-- A route that `poll_peer` hands out runs over a relay that is registered afterwards, where every
-- relay's lease runs out later than the time of the poll.
pub poll_peer-Live :
    (s : Registry) (now : ℕ) (peer_id : Bytes) (a : RouteAssignment)
    → (poll_peer s now peer_id).0 ≡ some a
    → (Dict.contains_key a.relay_id (poll_peer s now peer_id).1.relays ≡ true)
      × Every (Live now) (poll_peer s now peer_id).1.relays
poll_peer-Live s now peer_id a h =
    rw (poll-relays s now peer_id) (poll-relay s now peer_id a h, purge-Live s now)

contains_key-keep_if :
    (test : Bytes × RelayLease → Bool) (k : Bytes) (m : Dict RelayLease)
    → Dict.contains_key k m ≡ false
    → Dict.contains_key k (keep_if test m) ≡ false
unfolding Dict.contains_key
contains_key-keep_if test k [] h = refl
contains_key-keep_if test k ((j, lease) ∷ m) h = ground (arith, contains_key-keep_if test k m)

failed_relay :
    (s : Registry) (now : ℕ) (relay_id : Bytes)
    → Dict.contains_key relay_id (purge now (report_relay_failure s relay_id)).relays ≡ false
unfolding purge report_relay_failure
failed_relay s now relay_id =
    contains_key-keep_if (relay_is_live now) relay_id (Dict.remove relay_id s.relays)
      (contains_key-remove relay_id s.relays)

-- Once a relay has been reported as failed, the next poll of any peer hands out no route over it.
pub poll_peer-report_relay_failure :
    (s : Registry) (now : ℕ) (relay_id peer_id : Bytes) (a : RouteAssignment)
    → (poll_peer (report_relay_failure s relay_id) now peer_id).0 ≡ some a
    → a.relay_id ≢ relay_id
poll_peer-report_relay_failure s now relay_id peer_id a h same =
    let there = poll-relay (report_relay_failure s relay_id) now peer_id a h in
    let gone = failed_relay s now relay_id in
    let here : Dict.contains_key relay_id (purge now (report_relay_failure s relay_id)).relays
        ≡ true =
      ap (λ id. Dict.contains_key id (purge now (report_relay_failure s relay_id)).relays)
        (sym same)
      ∙ there in
    absurd (cc (here, gone))

some_injective :
    {a b : RouteAssignment} → ◌≡◌ {A = Option RouteAssignment} (some a) (some b) → a ≡ b
some_injective h = cc

queue_room :
    (s : Registry) (now : ℕ) (provider : PeerAdvertisement) (relay : RelayAdvertisement)
    (prefix : Bytes)
    → leb s.limits.max_assignments_per_peer (length (queue_of s provider.peer_id)) ≡ false
    → (queue_assignment s now provider relay prefix).0
      ≡ some (record {
        provider_id = provider.peer_id;
        provider_public_key = provider.public_key;
        relay_id = relay.relay_id;
        relay_address = relay.address;
        route = route_name prefix ((s.next_route + 1) % 2 ^ 64);
      })
unfolding queue_assignment
queue_room s now provider relay prefix room = rw room refl

queue_full :
    (s : Registry) (now : ℕ) (provider : PeerAdvertisement) (relay : RelayAdvertisement)
    (prefix : Bytes)
    → leb s.limits.max_assignments_per_peer (length (queue_of s provider.peer_id)) ≡ true
    → (queue_assignment s now provider relay prefix).0 ≡ none
unfolding queue_assignment
queue_full s now provider relay prefix full = rw full refl

-- The lease of a peer has run out, or the peer does not offer the content.
abbrev pub NotOffered : ℕ → Bytes → Bytes → PeerLease → Type 0
NotOffered now content_id key lease =
    (lease.expires_at ≤ now) ⊎ (member content_id lease.advertisement.content_ids ≡ false)

purge_finds :
    (s : Registry) (now : ℕ) (content_id : Bytes)
    → first_provider content_id (keep_if (peer_is_live now) s.peers)
      ≡ first_provider content_id (purge now s).peers
unfolding purge
purge_finds s now content_id = refl

-- The first provider among the live peers, in the table of all.
first_offered :
    (now : ℕ) (content_id : Bytes) (peers : Dict PeerLease) (provider : PeerAdvertisement)
    → first_provider content_id (keep_if (peer_is_live now) peers) ≡ some provider
    → (before after : Dict PeerLease) × (key : Bytes) × (lease : PeerLease) × (peers
        ≡ before ++ (key, lease) ∷ after)
      × Every (NotOffered now content_id) before
      × (now < lease.expires_at)
      × (member content_id lease.advertisement.content_ids ≡ true)
      × (lease.advertisement ≡ provider)
unfolding first_provider
first_offered now content_id [] provider h = cc
first_offered now content_id ((key, lease) ∷ rest) provider h =
    elim (Bool-cases (ltb now lease.expires_at)) [
      | inl valid ↦ elim (Bool-cases (member content_id lease.advertisement.content_ids)) [
        | inl offers ↦
            let same : lease.advertisement ≡ provider = ground arith in
            ([], rest, key, lease, refl, tt, ground arith, offers, same)
        | inr other ↦
            let (before, after, k, l, split, others, valid', offers', same') =
              first_offered now content_id rest provider (ground arith) in
            (
              (key, lease) ∷ before,
              after,
              k,
              l,
              ap (λ r. (key, lease) ∷ r) split,
              (inr other, others),
              valid',
              offers',
              same',
            )
      ]
      | inr gone ↦
          let (before, after, k, l, split, others, valid', offers', same') =
            first_offered now content_id rest provider (ground arith) in
          (
            (key, lease) ∷ before,
            after,
            k,
            l,
            ap (λ r. (key, lease) ∷ r) split,
            (inl (ground arith), others),
            valid',
            offers',
            same',
          )
    ]

module _ (hash : Bytes → Bytes) where
  -- What a route needs of its provider: the name is the hash of the key.
  provider-named :
      (bound : ℕ) (content_id : Bytes) (peers : Dict PeerLease) (provider : PeerAdvertisement)
      → Every (Sound hash bound) peers
      → first_provider content_id peers ≡ some provider
      → (provider.peer_id ≡ hash provider.public_key)
        × (member content_id provider.content_ids ≡ true)
  unfolding first_provider
  provider-named bound content_id [] provider h e = cc
  provider-named bound content_id ((peer_id, lease) ∷ rest) provider h e =
      elim (Bool-cases (member content_id lease.advertisement.content_ids)) [
        | inl has ↦
            let same : lease.advertisement ≡ provider = ground arith in
            (
              ap (λ p. p.peer_id) (sym same) ∙ h.0.0 ∙ ap (λ p. hash p.public_key) same,
              ap (λ p. member content_id p.content_ids) (sym same) ∙ has,
            )
        | inr other ↦ provider-named bound content_id rest provider h.1 (ground arith)
      ]

  queued_provider :
      (s : Registry) (now : ℕ) (provider : PeerAdvertisement) (relay : RelayAdvertisement)
      (prefix : Bytes) (a : RouteAssignment)
      → (queue_assignment s now provider relay prefix).0 ≡ some a
      → (a.provider_id ≡ provider.peer_id) × (a.provider_public_key ≡ provider.public_key)
  queued_provider s now provider relay prefix a h =
      elim (Bool-cases
        (leb s.limits.max_assignments_per_peer (length (queue_of s provider.peer_id)))) [
          | inl full ↦ absurd (cc (queue_full s now provider relay prefix full, h))
          | inr room ↦
              let made = some_injective (sym (queue_room s now provider relay prefix room) ∙ h) in
              (ap (λ r. r.provider_id) (sym made), ap (λ r. r.provider_public_key) (sym made))
        ]

  -- A route that `discover` returns at `now`, over a registry within its invariant, goes to a leased
  -- peer whose lease runs out later than `now` and which advertises the content; every peer before it
  -- in the table has a lease that has run out by then or does not advertise the content. The route
  -- names the peer by the hash of the key that it carries.
  pub discover-named :
      (s : Registry) (now : ℕ) (content_id : Bytes) (a : RouteAssignment)
      → IsRegistry hash s
      → (discover s now content_id).0 ≡ some a
      → (before after : Dict PeerLease) × (key : Bytes) × (lease : PeerLease) × (s.peers
          ≡ before ++ (key, lease) ∷ after)
        × Every (NotOffered now content_id) before
        × (now < lease.expires_at)
        × (member content_id lease.advertisement.content_ids ≡ true)
        × (a.provider_id ≡ lease.advertisement.peer_id)
        × (a.provider_id ≡ hash a.provider_public_key)
  unfolding discover discover_live
  discover-named s now content_id a w h =
      let live = purge now s in
      let sound = purge-IsRegistry hash s now w in
      elim (Option-cases (first_provider content_id live.peers)) [
        | inl missing ↦ ground arith
        | inr (provider, found) ↦ elim (Option-cases (first_relay live.relays)) [
          | inl none_live ↦ ground arith
          | inr (relay, some_relay) ↦
              let named = provider-named _ content_id live.peers provider sound.leases found in
              let made : (queue_assignment live now provider relay (ascii "m2")).0 ≡ some a =
                ground arith in
              let fields = queued_provider live now provider relay (ascii "m2") a made in
              let (before, after, key, lease, split, others, valid, offers, same) =
                first_offered now content_id s.peers provider
                  (purge_finds s now content_id ∙ found) in
              (
                before,
                after,
                key,
                lease,
                split,
                others,
                valid,
                offers,
                fields.0 ∙ ap (λ p. p.peer_id) (sym same),
                fields.0 ∙ named.0 ∙ ap hash (sym fields.1),
              )
        ]
      ]
