-- ===== src/Relay/Tests.antt =====
-- A sender and a receiver that meet on one route.
use triptorrent.Base.Utf8.{is_utf8}
use triptorrent.Base.{take, drop, none, [], ◌<◌, ◌≡◌, refl, some, ok, err, true, false, arith}
use triptorrent.Base.Bytes.{Bytes, bytes_eq, from_be}
use triptorrent.Base.Dict
use triptorrent.Base.Text.{ascii}
use triptorrent.Relay.Admission.{try_acquire}
use triptorrent.Relay.State.{
  sender_role, receiver_role, RelayState, default_limits, new, register, prune,
  completed_route_reused,
}
use triptorrent.Relay.State.Meeting.{pair_of, register_meets}
use triptorrent.Relay.State.Pairing.{
  other, IsRelayState, IsMatch, register-IsRelayState, register-IsMatch, register_again,
}
use triptorrent.Relay.Registration.{invalid_route, registration_bytes, parse_registration}
use triptorrent.Relay.Registration.RoundTrip.{
  registration_frame, parse_registration-registration_bytes,
}

abbrev route : Bytes
route = ascii "m2-1"

-- The relay after the sender, stream 1, has registered.
abbrev half : RelayState
half = (register (new default_limits) 0 route sender_role 1).1

matched : (register half 5 route receiver_role 2).0 ≡ ok (some (1, 2))
unfolding register new bytes_eq Dict.bytes_lt Dict.get Dict.insert
matched = refl

empty-IsRelayState : IsRelayState (new default_limits)
unfolding new
empty-IsRelayState = record { bounded = omega arith; remembered = omega arith; waiting = tt }

register-IsRelayState_example : IsRelayState half
register-IsRelayState_example =
    register-IsRelayState (new default_limits) 0 route sender_role 1 empty-IsRelayState

register-IsMatch_example :
    IsMatch (prune 5 half) route receiver_role 2 (1, 2) (register half 5 route receiver_role 2).1
register-IsMatch_example = register-IsMatch half 5 route receiver_role 2 (1, 2) matched

positive : 0 < half.limits.max_pending_routes
unfolding register new Dict.get
positive = omega arith

register_again_example :
    (register (register half 5 route receiver_role 2).1 6 route sender_role 3).0
    ≡ err completed_route_reused
register_again_example =
    register_again half 5 6 route receiver_role sender_role 2 3 (1, 2) positive matched

registered : registration_bytes route sender_role ≡ ok (registration_frame route sender_role)
unfolding registration_bytes
registered = refl

parse_registration-registration_bytes_example :
    parse_registration (registration_frame route sender_role) ≡ ok (route, sender_role)
parse_registration-registration_bytes_example =
    parse_registration-registration_bytes route (registration_frame route sender_role) sender_role
      registered

last_admitted : try_acquire 255 256 ≡ (true, 256)
unfolding try_acquire
last_admitted = refl

refused : try_acquire 256 256 ≡ (false, 256)
unfolding try_acquire
refused = refl

-- The client refuses an empty route, and the relay takes the frame that would carry it.
empty_refused : registration_bytes [] sender_role ≡ err invalid_route
unfolding registration_bytes
empty_refused = refl

empty_taken : parse_registration (registration_frame [] sender_role) ≡ ok ([], sender_role)
unfolding parse_registration bytes_eq take from_be drop is_utf8
empty_taken = refl

register_meets_example :
    ((register (new default_limits) 0 route sender_role 1).0 ≡ ok none)
    × ((register
          (register (new default_limits) 0 route sender_role 1).1
          5
          route
          (other sender_role)
          2).0
        ≡ ok (some (pair_of sender_role 1 2)))
unfolding new prune Dict.get
register_meets_example =
    register_meets (new default_limits) 0 5 route sender_role 1 2 refl refl (omega arith)
      (omega arith)
