-- ===== src/Relay/Registration/RoundTrip.antt =====
-- The relay reads what the client registers with.
use triptorrent.Base.{
  ◌+◌, ◌/◌, ◌%◌, ◌≡◌, refl, [], ◌∷◌, ◌++◌, true, false, not, ◌||◌, some, length, take, drop, all,
  ltb, ◌==◌, ok, guard, ◌>>◌, arith, >>=-eq-ok,
}
use triptorrent.Base.Bytes.{Bytes, bytes_eq, be, from_be}
use triptorrent.Base.Utf8.{is_utf8, is_utf8-ascii}
use triptorrent.Core.{network_id}
use triptorrent.Protocol.Identifier.{is_identifier_byte, identifier_ascii}
use triptorrent.Relay.State.{Role, sender_role, receiver_role}
use triptorrent.Relay.Registration.{
  registration_bytes, parse_registration, validate_route, wire_byte, get_range, role_of,
  invalid_route, route_not_utf8, max_route_length, length_mismatch,
}

-- The bytes in front of the length of the route.
abbrev registration_head : Role → Bytes
registration_head role = 84 ∷ 84 ∷ 82 ∷ 49 ∷ 0 ∷ 1 ∷ 21 ∷ (network_id ++ (wire_byte role ∷ []))

abbrev pub registration_frame : Bytes → Role → Bytes
registration_frame route role =
    registration_head role ++ ((length route / 256) % 256 ∷ length route % 256 ∷ route)

written :
    (route out : Bytes) (role : Role)
    → registration_bytes route role ≡ ok out
    → out ≡ registration_frame route role
unfolding registration_bytes be
written route out role h = let (u, hv, k) = >>=-eq-ok (validate_route route) _ h in ground arith

is_route :
    (route out : Bytes) (role : Role)
    → registration_bytes route role ≡ ok out
    → (ltb 128 (length route) ≡ false) × (all is_identifier_byte route ≡ true)
unfolding registration_bytes validate_route
is_route route out role h = ground arith

role_of-wire_byte : (role : Role) → role_of (some (wire_byte role)) ≡ ok role
unfolding role_of
role_of-wire_byte sender_role = refl
role_of-wire_byte receiver_role = refl

parse-frame :
    (route : Bytes) (role : Role)
    → ltb 128 (length route) ≡ false
    → all is_identifier_byte route ≡ true
    → parse_registration (registration_frame route role) ≡ ok (route, role)
unfolding parse_registration get_range bytes_eq from_be take drop
parse-frame route role short ascii =
    let frame = registration_frame route role in
    let n = length route in
    let long : ltb (length frame) 10 ≡ false = ground arith in
    let utf8 : is_utf8 route ≡ true = is_utf8-ascii route (identifier_ascii route ascii) in
    let network : get_range frame 7 28 ≡ some network_id = ground arith in
    let prefix : get_range frame 29 31 ≡ some ((n / 256) % 256 ∷ n % 256 ∷ []) = ground arith in
    let whole : (31 + from_be 0 ((n / 256) % 256 ∷ n % 256 ∷ []) == length frame) ≡ true =
      ground arith in
    let rest : (guard (31 + from_be 0 ((n / 256) % 256 ∷ n % 256 ∷ []) == length frame)
            length_mismatch
          >> (guard (is_utf8 route) route_not_utf8
              >> (guard (not (ltb max_route_length n || not (all is_identifier_byte route)))
                    invalid_route
                  >> ok (route, role))))
        ≡ ok (route, role) =
      rw (whole, utf8, short, ascii) refl in
    rw (long, network, role_of-wire_byte role, prefix) rest

-- When the client builds a registration frame, the relay parses that frame to the same route and
-- role.
pub parse_registration-registration_bytes :
    (route out : Bytes) (role : Role)
    → registration_bytes route role ≡ ok out
    → parse_registration out ≡ ok (route, role)
parse_registration-registration_bytes route out role h =
    let checked = is_route route out role h in
    rw (written route out role h) (parse-frame route role checked.0 checked.1)
