-- ===== src/Relay/State.antt =====
-- `RelayState`: the routes that wait for their second endpoint. A stream is an opaque handle, a
-- number, and time is the argument `now`; the source reads `Instant` through `elapsed`.
pub mod Pairing
pub mod Meeting
use triptorrent.Base.{
  ℕ, suc, ◌+◌, ◌-◌, List, [], ◌∷◌, ◌++◌, Bool, true, false, not, ◌&&◌, Option, none, some, length,
  any, keep_if, ltb, leb, if◌then◌else◌, Result, ok, err,
}
use triptorrent.Base.Bytes.{Bytes, bytes_eq}
use triptorrent.Base.Dict
use triptorrent.Base.Dict.{Dict}

pub data Role : Type 0 where
  sender_role receiver_role : Role

pub record PendingRoute : Type 0 where
  pub sender : Option ℕ
  pub receiver : Option ℕ
  pub created : ℕ

pub record RelayLimits : Type 0 where
  pub max_pending_routes : ℕ
  pub max_active_pairs : ℕ
  pub max_registration_connections : ℕ
  pub pending_timeout : ℕ

pub record RelayState : Type 0 where
  pub pending : Dict PendingRoute
  pub completed : List Bytes
  pub limits : RelayLimits
  pub expired_routes : ℕ

pub data RegisterError : Type 0 where
  completed_route_reused pending_limit_reached duplicate_role : RegisterError

-- The timeout in nanoseconds, of `Duration::from_secs(30)`.
abbrev pub default_limits : RelayLimits
default_limits = record {
  max_pending_routes = 1024;
  max_active_pairs = 256;
  max_registration_connections = 256;
  pending_timeout = 30_000_000_000;
}

unfoldable pub new : RelayLimits → RelayState
new limits = record { pending = []; completed = []; limits = limits; expired_routes = 0 }

-- `PendingRoute::new`
abbrev pub new_route : ℕ → PendingRoute
new_route now = record { sender = none; receiver = none; created = now }

-- `route.created.elapsed() < pending_timeout`
abbrev pub is_fresh : ℕ → ℕ → Bytes × PendingRoute → Bool
is_fresh timeout now e = ltb (now - e.1.created) timeout

unfoldable pub prune : ℕ → RelayState → RelayState
prune now s =
    let pending = keep_if (is_fresh s.limits.pending_timeout now) s.pending in
    record s {
      pending = pending;
      expired_routes = s.expired_routes + (length s.pending - length pending);
    }

-- The `match role`; `none` is the duplicate role.
unfoldable pub fill : Role → ℕ → PendingRoute → Option PendingRoute
fill sender_role stream r = elim r.sender [
  | none ↦ some (record r { sender = some stream })
  | some other ↦ none
]
fill receiver_role stream r = elim r.receiver [
  | none ↦ some (record r { receiver = some stream })
  | some other ↦ none
]

-- `while completed.len() > max { completed.pop_front(); }`
unfoldable pub trim : ℕ → List Bytes → List Bytes
trim limit [] = []
trim limit (r ∷ rs) = if ltb limit (suc (length rs)) then trim limit rs else r ∷ rs

unfoldable pub both : Option ℕ → Option ℕ → Option (ℕ × ℕ)
both none r = none
both (some s) none = none
both (some s) (some r) = some (s, r)

-- The end of `register`: a route with both endpoints leaves the table.
unfoldable pub settle : RelayState → Bytes → PendingRoute → Option (ℕ × ℕ) × RelayState
unfolding trim both
settle s route filled = elim (both filled.sender filled.receiver) [
  | none ↦ (none, record s { pending = Dict.insert route filled s.pending })
  | some pair ↦ (
    some pair,
    record s {
      pending = Dict.remove route s.pending;
      completed = trim s.limits.max_pending_routes (s.completed ++ route ∷ []);
    },
  )
]

-- The entry of the route, made if it is not there; it stays in the table when the role is a
-- duplicate, which a new entry never gives.
unfoldable pub attach :
    RelayState
    → Bytes
    → Role
    → ℕ
    → PendingRoute
    → Result RegisterError (Option (ℕ × ℕ)) × RelayState
unfolding fill settle
attach s route role stream entry = elim (fill role stream entry) [
  | none ↦ (err duplicate_role, s)
  | some filled ↦ let (pair, s') = settle s route filled in (ok pair, s')
]

unfoldable pub register_live :
    RelayState → ℕ → Bytes → Role → ℕ → Result RegisterError (Option (ℕ × ℕ)) × RelayState
unfolding attach
register_live s now route role stream =
    if any (bytes_eq route) s.completed
    then (err completed_route_reused, s)
    else elim (Dict.get route s.pending) [
      | some entry ↦ attach s route role stream entry
      | none ↦
          if leb s.limits.max_pending_routes (length s.pending)
          then (err pending_limit_reached, s)
          else attach s route role stream (new_route now)
    ]

unfoldable pub register :
    RelayState → ℕ → Bytes → Role → ℕ → Result RegisterError (Option (ℕ × ℕ)) × RelayState
unfolding prune register_live
register s now route role stream = register_live (prune now s) now route role stream
