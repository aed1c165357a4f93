-- ===== src/Relay/Registration.antt =====
-- The registration frame: the client's bytes in crates/triptorrent-net/src/lib.rs and
-- `parse_registration` of the relay.
pub mod RoundTrip
use triptorrent.Base.{
  ℕ, ◌+◌, ◌-◌, ◌^◌, List, [], ◌∷◌, ◌++◌, Bool, true, false, not, ◌&&◌, ◌||◌, Option, none, some,
  length, get_elem?, take, drop, all, ltb, leb, ◌==◌, if◌then◌else◌, Result, ok, err, guard, ok_or,
  ◌>>=◌, ◌>>◌,
}
use triptorrent.Base.Bytes.{Bytes, bytes_eq, be, from_be}
use triptorrent.Base.Utf8.{is_utf8}
use triptorrent.Core.{protocol_version, network_id}
use triptorrent.Protocol.Identifier.{is_identifier_byte, is_empty}
use triptorrent.Relay.State.{Role, sender_role, receiver_role}

-- The ASCII bytes of "TTR1".
abbrev pub registration_magic : Bytes
registration_magic = 84 ∷ 84 ∷ 82 ∷ 49 ∷ []

abbrev pub max_route_length : ℕ
max_route_length = 128

pub data RegistrationError : Type 0 where
  invalid_registration unsupported_version wrong_network invalid_role missing_route_length
        length_mismatch route_not_utf8 invalid_route invalid_network :
      RegistrationError

-- `RelayRole::wire_byte`
abbrev pub wire_byte : Role → ℕ
wire_byte sender_role = 0
wire_byte receiver_role = 1

-- `validate_route` of the client.
unfoldable pub validate_route : Bytes → Result RegistrationError (Unit {0})
unfolding is_identifier_byte is_empty
validate_route route =
    guard (not (is_empty route || (ltb 128 (length route) || not (all is_identifier_byte route))))
      invalid_route

-- The bytes that `TcpRelayTransport::register` writes as one frame.
unfoldable pub registration_bytes : Bytes → Role → Result RegistrationError Bytes
unfolding validate_route be
registration_bytes route role = do
  validate_route route
  guard (ltb (length network_id) (2 ^ 8)) invalid_network
  guard (ltb (length route) (2 ^ 16)) invalid_route
  ok (
      registration_magic
      ++ (be 2 protocol_version
          ++ (length network_id
              ∷ (network_id ++ (wire_byte role ∷ (be 2 (length route) ++ route))))))

-- `frame.get(start..end)`
unfoldable pub get_range : Bytes → ℕ → ℕ → Option Bytes
get_range frame start stop =
    if leb start stop && leb stop (length frame)
    then some (take (stop - start) (drop start frame))
    else none

unfoldable pub role_of : Option ℕ → Result RegistrationError Role
role_of none = err invalid_role
role_of (some byte) =
    if byte == 0 then ok sender_role else if byte == 1 then ok receiver_role else err invalid_role

abbrev pub same_range : Option Bytes → Bytes → Bool
same_range none expected = false
same_range (some found) expected = bytes_eq found expected

-- The version bytes and the network length stand inside a frame of at least ten bytes. The sums
-- that the source checks stay below 2^64: a length byte and a 16-bit length are added to them.
unfoldable pub parse_registration : Bytes → Result RegistrationError (Bytes × Role)
unfolding get_range role_of is_identifier_byte
parse_registration frame = do
  guard (not (ltb (length frame) 10) && bytes_eq (take 4 frame) registration_magic)
      invalid_registration
  guard (from_be 0 (take 2 (drop 4 frame)) == protocol_version) unsupported_version
  network_length ← ok_or (get_elem? frame 6) invalid_registration
  let network_end = 7 + network_length
  guard (same_range (get_range frame 7 network_end) network_id) wrong_network
  role ← role_of (get_elem? frame network_end)
  let length_start = network_end + 1
  length_bytes ← ok_or (get_range frame length_start (length_start + 2)) missing_route_length
  let route_start = length_start + 2
  guard (route_start + from_be 0 length_bytes == length frame) length_mismatch
  let route = drop route_start frame
  guard (is_utf8 route) route_not_utf8
  guard (not (ltb max_route_length (length route) || not (all is_identifier_byte route)))
      invalid_route
  ok (route, role)
