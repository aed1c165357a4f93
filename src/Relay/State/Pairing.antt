-- ===== src/Relay/State/Pairing.antt =====
-- What `RelayState::register` keeps, and when it pairs two endpoints.
use triptorrent.Base.{
  ℕ, ◌≤◌, ◌<◌, ◌≡◌, ◌⊎◌, inl, inr, refl, ap, ◌∙◌, List, [], ◌∷◌, ◌++◌, Bool, true, false, not,
  Option, none, some, length, any, leb, ok, err, arith, length-keep_if-le, Bool-cases, Option-cases,
}
use triptorrent.Base.Bytes.{Bytes, bytes_eq, bytes_eq_refl}
use triptorrent.Base.Dict
use triptorrent.Base.Dict.{
  Dict, Every, Every-get, Every-insert, Every-keep_if, length-insert-le, get-contains_key,
  contains_key-remove,
}
use triptorrent.Relay.State.{
  Role, sender_role, receiver_role, PendingRoute, RelayState, completed_route_reused, new_route,
  is_fresh, prune, fill, trim, both, settle, attach, register_live, register,
}

-- A route in the table still waits for an endpoint.
abbrev pub Waits : Bytes → PendingRoute → Type 0
Waits route r = both r.sender r.receiver ≡ none

-- The table and the memory of finished routes are within the limit, and no route in the table has
-- both its endpoints.
pub record IsRelayState (s : RelayState) : Type 0 where
  pub bounded : length s.pending ≤ s.limits.max_pending_routes
  pub remembered : length s.completed ≤ s.limits.max_pending_routes
  pub waiting : Every Waits s.pending

length-trim-le : (limit : ℕ) (rs : List Bytes) → length (trim limit rs) ≤ limit
unfolding trim
length-trim-le limit [] = omega arith
length-trim-le limit (r ∷ rs) = ground (arith, length-trim-le limit rs)

any-append : (p : Bytes → Bool) (xs ys : List Bytes) → any p ys ≡ true → any p (xs ++ ys) ≡ true
any-append p [] ys h = h
any-append p (x ∷ xs) ys h = ground (arith, any-append p xs ys h)

-- The last route stays when the memory is trimmed.
trim_last :
    (limit : ℕ) (rs : List Bytes) (route : Bytes)
    → 0 < limit
    → any (bytes_eq route) (trim limit (rs ++ route ∷ [])) ≡ true
unfolding trim
trim_last limit [] route h = ground (arith, bytes_eq_refl route)
trim_last limit (r ∷ rs) route h = ground (
  arith,
  trim_last limit rs route h,
  any-append (bytes_eq route) rs (route ∷ []),
  bytes_eq_refl route,
)

prune-IsRelayState : (s : RelayState) (now : ℕ) → IsRelayState s → IsRelayState (prune now s)
unfolding prune
prune-IsRelayState s now w = record {
  bounded =
      omega (arith, length-keep_if-le (is_fresh s.limits.pending_timeout now) s.pending, w.bounded);
  remembered = w.remembered;
  waiting = Every-keep_if Waits (is_fresh s.limits.pending_timeout now) s.pending w.waiting;
}

settle-IsRelayState :
    (s : RelayState) (route : Bytes) (filled : PendingRoute)
    → IsRelayState s
    → (Dict.contains_key route s.pending ≡ true) ⊎ (length s.pending < s.limits.max_pending_routes)
    → IsRelayState (settle s route filled).1
unfolding settle Dict.remove
settle-IsRelayState s route filled w room =
    elim (Option-cases (both filled.sender filled.receiver)) [
      | inl waits ↦
          rw (settle, waits)
            (record {
              bounded = length-insert-le route filled s.pending _ w.bounded room;
              remembered = w.remembered;
              waiting = Every-insert Waits route filled s.pending (λ j. waits) w.waiting;
            })
      | inr (pair, paired) ↦
          rw (settle, paired)
            (record {
              bounded =
                  omega
                    (arith, length-keep_if-le (λ e. not (bytes_eq route e.0)) s.pending, w.bounded);
              remembered = length-trim-le _ _;
              waiting = Every-keep_if Waits (λ e. not (bytes_eq route e.0)) s.pending w.waiting;
            })
    ]

attach-IsRelayState :
    (s : RelayState) (route : Bytes) (role : Role) (stream : ℕ) (entry : PendingRoute)
    → IsRelayState s
    → (Dict.contains_key route s.pending ≡ true) ⊎ (length s.pending < s.limits.max_pending_routes)
    → IsRelayState (attach s route role stream entry).1
unfolding attach
attach-IsRelayState s route role stream entry w room =
    elim (Option-cases (fill role stream entry)) [
      | inl duplicate ↦ rw (attach, duplicate) w
      | inr (filled, h) ↦ rw (attach, h) (settle-IsRelayState s route filled w room)
    ]

-- Every registration, accepted or refused, keeps the limits and leaves only waiting routes.
pub register-IsRelayState :
    (s : RelayState) (now : ℕ) (route : Bytes) (role : Role) (stream : ℕ)
    → IsRelayState s
    → IsRelayState (register s now route role stream).1
unfolding register register_live
register-IsRelayState s now route role stream w =
    let live = prune now s in
    let w' = prune-IsRelayState s now w in
    elim (Bool-cases (any (bytes_eq route) live.completed)) [
      | inl reused ↦ rw reused w'
      | inr fresh ↦ elim (Option-cases (Dict.get route live.pending)) [
        | inr (entry, found) ↦
            rw (fresh, found)
              (attach-IsRelayState live route role stream entry w'
                (inl (get-contains_key route live.pending entry found)))
        | inl missing ↦
            elim (Bool-cases (leb live.limits.max_pending_routes (length live.pending))) [
              | inl full ↦ rw (fresh, missing, full) w'
              | inr room ↦
                  rw (fresh, missing, room)
                    (attach-IsRelayState live route role stream (new_route now) w'
                      (inr (ground arith)))
            ]
      ]
    ]

-- Both endpoints of a pair stand in the filled entry.
abbrev Paired : PendingRoute → ℕ × ℕ → Type 0
Paired r p = (r.sender ≡ some p.0) × (r.receiver ≡ some p.1)

both-Paired : (r : PendingRoute) (p : ℕ × ℕ) → both r.sender r.receiver ≡ some p → Paired r p
unfolding both
both-Paired r p h = elim (Option-cases r.sender) [
  | inl no_sender ↦ ground arith
  | inr (s, hs) ↦ elim (Option-cases r.receiver) [
    | inl no_receiver ↦ ground arith
    | inr (q, hq) ↦ ground arith
  ]
]

-- The endpoint of the pair that was registered last, and the one that waited.
abbrev pub joined : Role → ℕ × ℕ → ℕ
joined sender_role p = p.0
joined receiver_role p = p.1

abbrev pub waited : Role → ℕ × ℕ → ℕ
waited sender_role p = p.1
waited receiver_role p = p.0

abbrev pub endpoint : Role → PendingRoute → Option ℕ
endpoint sender_role r = r.sender
endpoint receiver_role r = r.receiver

abbrev pub other : Role → Role
other sender_role = receiver_role
other receiver_role = sender_role

-- What a registration that completes a route has found and left.
pub record IsMatch (live : RelayState) (route : Bytes) (role : Role) (stream : ℕ) (p : ℕ × ℕ)
    (after : RelayState) : Type 0 where
  pub last : joined role p ≡ stream
  pub entry : PendingRoute
  pub found : Dict.get route live.pending ≡ some entry
  pub first : endpoint (other role) entry ≡ some (waited role p)
  pub removed : Dict.contains_key route after.pending ≡ false
  pub recorded : 0 < live.limits.max_pending_routes → any (bytes_eq route) after.completed ≡ true

fill-endpoint :
    (role : Role) (stream : ℕ) (entry filled : PendingRoute)
    → fill role stream entry ≡ some filled
    → (endpoint role filled ≡ some stream)
      × (endpoint (other role) filled ≡ endpoint (other role) entry)
unfolding fill
fill-endpoint sender_role stream entry filled h = elim (Option-cases entry.sender) [
  | inl free ↦ ground arith
  | inr (s, taken) ↦ ground arith
]
fill-endpoint receiver_role stream entry filled h = elim (Option-cases entry.receiver) [
  | inl free ↦ ground arith
  | inr (s, taken) ↦ ground arith
]

settle_match :
    (s : RelayState) (route : Bytes) (filled : PendingRoute) (p : ℕ × ℕ)
    → (settle s route filled).0 ≡ some p
    → Paired filled p
      × ((Dict.contains_key route (settle s route filled).1.pending ≡ false)
          × (0 < s.limits.max_pending_routes
              → any (bytes_eq route) (settle s route filled).1.completed ≡ true))
unfolding settle
settle_match s route filled p h = elim (Option-cases (both filled.sender filled.receiver)) [
  | inl waits ↦ ground arith
  | inr (pair, paired) ↦
      let same : pair ≡ p = ground arith in
      (
        both-Paired filled p (paired ∙ ap some same),
        rw (settle, paired)
            (
              contains_key-remove route s.pending,
              λ positive. trim_last s.limits.max_pending_routes s.completed route positive,
            ),
      )
]

endpoints :
    (role : Role) (r : PendingRoute) (p : ℕ × ℕ)
    → Paired r p
    → (endpoint role r ≡ some (joined role p)) × (endpoint (other role) r ≡ some (waited role p))
endpoints sender_role r p h = h
endpoints receiver_role r p h = (h.1, h.0)

-- The attachment to an entry that is in the table, or to a new one.
attach_match :
    (s : RelayState) (route : Bytes) (role : Role) (stream : ℕ) (entry : PendingRoute) (p : ℕ × ℕ)
    → (attach s route role stream entry).0 ≡ ok (some p)
    → (joined role p ≡ stream)
      × ((endpoint (other role) entry ≡ some (waited role p))
          × ((Dict.contains_key route (attach s route role stream entry).1.pending ≡ false)
              × (0 < s.limits.max_pending_routes
                  → any (bytes_eq route) (attach s route role stream entry).1.completed ≡ true)))
unfolding attach
attach_match s route role stream entry p h = elim (Option-cases (fill role stream entry)) [
  | inl duplicate ↦ ground arith
  | inr (filled, hf) ↦
      let settled : (settle s route filled).0 ≡ some p = ground arith in
      let done = settle_match s route filled p settled in
      let ends = endpoints role filled p done.0 in
      let was = fill-endpoint role stream entry filled hf in
      let last : joined role p ≡ stream = cc (ends.0, was.0) in
      let first : endpoint (other role) entry ≡ some (waited role p) = cc (ends.1, was.1) in
      (last, (first, rw (attach, hf) done.1))
]

waits_new : (role : Role) (now : ℕ) → endpoint role (new_route now) ≡ none
waits_new sender_role now = refl
waits_new receiver_role now = refl

-- A registration that returns a pair has found the other endpoint of the route waiting, joined the
-- new stream to it in its own role, removed the route from the table, and, when the limit is not
-- zero, remembered it as completed.
pub register-IsMatch :
    (s : RelayState) (now : ℕ) (route : Bytes) (role : Role) (stream : ℕ) (p : ℕ × ℕ)
    → (register s now route role stream).0 ≡ ok (some p)
    → IsMatch (prune now s) route role stream p (register s now route role stream).1
unfolding register register_live
register-IsMatch s now route role stream p h =
    let live = prune now s in
    elim (Bool-cases (any (bytes_eq route) live.completed)) [
      | inl reused ↦ ground arith
      | inr fresh ↦ elim (Option-cases (Dict.get route live.pending)) [
        | inr (entry, found) ↦
            let attached : (attach live route role stream entry).0 ≡ ok (some p) = ground arith in
            let done = attach_match live route role stream entry p attached in
            rw (fresh, found)
              (record {
                last = done.0;
                entry = entry;
                found = found;
                first = done.1.0;
                removed = done.1.1.0;
                recorded = done.1.1.1;
              })
        | inl missing ↦
            elim (Bool-cases (leb live.limits.max_pending_routes (length live.pending))) [
              | inl full ↦ ground arith
              | inr room ↦
                  let attached : (attach live route role stream (new_route now)).0 ≡ ok (some p) =
                    ground arith in
                  let done = attach_match live route role stream (new_route now) p attached in
                  absurd (ground (arith, waits_new (other role) now, done.1.0))
            ]
      ]
    ]

register_completed :
    (s : RelayState) (now : ℕ) (route : Bytes) (role : Role) (stream : ℕ)
    → any (bytes_eq route) s.completed ≡ true
    → (register s now route role stream).0 ≡ err completed_route_reused
unfolding register register_live prune
register_completed s now route role stream h = rw h refl

-- When a registration has paired a route, the very next registration, if it is of the same route,
-- fails with the reuse error, whatever its role, its time and its stream, for a limit above zero.
pub register_again :
    (s : RelayState) (now later : ℕ) (route : Bytes) (role again : Role) (stream stream' : ℕ)
    (p : ℕ × ℕ)
    → 0 < s.limits.max_pending_routes
    → (register s now route role stream).0 ≡ ok (some p)
    → (register (register s now route role stream).1 later route again stream').0
      ≡ err completed_route_reused
unfolding prune
register_again s now later route role again stream stream' p positive h =
    register_completed _ later route again stream'
      ((register-IsMatch s now route role stream p h).recorded positive)
