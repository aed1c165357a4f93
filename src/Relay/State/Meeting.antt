-- ===== src/Relay/State/Meeting.antt =====
-- Two endpoints that register on one route in time are paired.
use triptorrent.Base.{ℕ, ◌-◌, ◌<◌, ◌≡◌, refl, true, false, none, some, length, any, leb, ok, arith}
use triptorrent.Base.Bytes.{Bytes, bytes_eq}
use triptorrent.Base.Dict
use triptorrent.Base.Dict.{get-insert, get-keep_if}
use triptorrent.Relay.State.{
  Role, sender_role, receiver_role, PendingRoute, RelayState, new_route, is_fresh, prune, fill,
  both, settle, attach, register_live, register,
}
use triptorrent.Relay.State.Pairing.{other}

-- The entry of a route whose one endpoint has registered.
abbrev pub half_route : ℕ → Role → ℕ → PendingRoute
half_route now sender_role stream = record { sender = some stream; receiver = none; created = now }
half_route now receiver_role stream = record {
  sender = none;
  receiver = some stream;
  created = now;
}

-- The pair of the endpoint that registered first, in its role, and the one that came second.
abbrev pub pair_of : Role → ℕ → ℕ → ℕ × ℕ
pair_of sender_role first second = (first, second)
pair_of receiver_role first second = (second, first)

abbrev pub waiting_with : RelayState → Bytes → PendingRoute → RelayState
waiting_with s route entry = record s { pending = Dict.insert route entry s.pending }

attach_first :
    (s : RelayState) (now : ℕ) (route : Bytes) (role : Role) (stream : ℕ)
    → attach s route role stream (new_route now)
      ≡ (ok none, waiting_with s route (half_route now role stream))
unfolding attach settle fill both
attach_first s now route sender_role stream = refl
attach_first s now route receiver_role stream = refl

attach_second :
    (s : RelayState) (now : ℕ) (route : Bytes) (role : Role) (first second : ℕ)
    → (attach s route (other role) second (half_route now role first)).0
      ≡ ok (some (pair_of role first second))
unfolding attach settle fill both
attach_second s now route sender_role first second = refl
attach_second s now route receiver_role first second = refl

half_created : (now : ℕ) (role : Role) (stream : ℕ) → (half_route now role stream).created ≡ now
half_created now sender_role stream = refl
half_created now receiver_role stream = refl

register_first :
    (s : RelayState) (now : ℕ) (route : Bytes) (role : Role) (stream : ℕ)
    → any (bytes_eq route) s.completed ≡ false
    → Dict.get route (prune now s).pending ≡ none
    → length (prune now s).pending < s.limits.max_pending_routes
    → register s now route role stream
      ≡ (ok none, waiting_with (prune now s) route (half_route now role stream))
unfolding register register_live prune
register_first s now route role stream fresh missing room =
    let space : leb s.limits.max_pending_routes (length (prune now s).pending) ≡ false =
      ground arith in
    rw (fresh, missing, space) (attach_first (prune now s) now route role stream)

register_second :
    (s : RelayState) (later now : ℕ) (route : Bytes) (role : Role) (first second : ℕ)
    → any (bytes_eq route) s.completed ≡ false
    → Dict.get route (prune later s).pending ≡ some (half_route now role first)
    → (register s later route (other role) second).0 ≡ ok (some (pair_of role first second))
unfolding register register_live prune
register_second s later now route role first second fresh found =
    rw (fresh, found) (attach_second (prune later s) now route role first second)

-- On a route that is neither completed nor waiting, with room in the table, the first endpoint
-- waits; when the other role registers before the timeout, the two are paired, sender first.
pub register_meets :
    (s : RelayState) (now later : ℕ) (route : Bytes) (role : Role) (first second : ℕ)
    → any (bytes_eq route) s.completed ≡ false
    → Dict.get route (prune now s).pending ≡ none
    → length (prune now s).pending < s.limits.max_pending_routes
    → later - now < s.limits.pending_timeout
    → ((register s now route role first).0 ≡ ok none)
      × ((register (register s now route role first).1 later route (other role) second).0
          ≡ ok (some (pair_of role first second)))
unfolding prune
register_meets s now later route role first second fresh missing room soon =
    let entry = half_route now role first in
    let live = prune now s in
    let inserted = get-insert route entry live.pending missing in
    let made = half_created now role first in
    let kept : (j : Bytes) → is_fresh s.limits.pending_timeout later (j, entry) ≡ true =
      λ j. rw made (ground arith) in
    let found = get-keep_if (is_fresh s.limits.pending_timeout later) route _ entry inserted kept in
    rw (register_first s now route role first fresh missing room) (
      refl,
      register_second (waiting_with live route entry) later now route role first second fresh found,
    )
