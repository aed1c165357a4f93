-- ===== src/Protocol/Writer.antt =====
-- `Writer` of crates/triptorrent-protocol/src/lib.rs: a byte buffer that grows at its end.
-- A method takes the buffer last; one that may fail returns a `Result`.
pub mod Wire
use triptorrent.Base.{
  ℕ, ◌^◌, List, [], ◌∷◌, ◌++◌, Option, none, some, length, ltb, not, Result, ok, guard, ◌>>=◌, ◌>>◌,
}
use triptorrent.Base.Bytes.{Bytes, be}
use triptorrent.Core.{Manifest, Chunk, protocol_version, network_id}
use triptorrent.Protocol.{
  ProtocolError, malformed, invalid_message, message_too_large, RouteAssignment,
}

abbrev pub Writer : Type 0
Writer = Bytes

-- The ASCII bytes of "TTP1".
abbrev pub wire_magic : Bytes
wire_magic = 84 ∷ 84 ∷ 80 ∷ 49 ∷ []

-- `ensure_size`
unfoldable pub ensure_size : Bytes → ℕ → Result ProtocolError (Unit {0})
ensure_size bytes limit = guard (not (ltb limit (length bytes))) (message_too_large limit)

unfoldable pub raw : Bytes → Writer → Writer
raw value w = w ++ value

unfoldable pub put_u8 : ℕ → Writer → Writer
put_u8 value w = w ++ value ∷ []

unfoldable pub put_u16 : ℕ → Writer → Writer
put_u16 value = raw (be 2 value)

unfoldable pub put_u32 : ℕ → Writer → Writer
put_u32 value = raw (be 4 value)

unfoldable pub put_u64 : ℕ → Writer → Writer
put_u64 value = raw (be 8 value)

-- `Writer::new`
unfoldable pub new : ℕ → Writer
new domain =
    put_u8 domain
      (raw network_id (put_u8 (length network_id) (put_u16 protocol_version (raw wire_magic []))))

unfoldable pub finish : ℕ → Writer → Result ProtocolError Bytes
finish limit w = do ensure_size w limit; ok w

unfoldable pub put_bytes : Bytes → Writer → Result ProtocolError Writer
put_bytes value w = do
  guard (ltb (length value) (2 ^ 32)) (malformed "byte string too long")
  ok (raw value (put_u32 (length value) w))

unfoldable pub put_string : Bytes → Writer → Result ProtocolError Writer
put_string value w = do
  guard (ltb (length value) (2 ^ 16)) (malformed "string too long")
  ok (raw value (put_u16 (length value) w))

-- `for id in ids { self.raw(id.as_bytes()) }`
unfoldable pub put_ids : List Bytes → Writer → Writer
put_ids [] w = w
put_ids (id ∷ ids) w = put_ids ids (raw id w)

unfoldable pub put_manifest : Manifest → Writer → Result ProtocolError Writer
put_manifest m w = do
  let sized = put_u32 m.chunk_size (put_u64 m.length (raw m.content_id w))
  guard (ltb (length m.chunks) (2 ^ 32)) (invalid_message "too many manifest chunks")
  ok (put_ids m.chunks (put_u32 (length m.chunks) sized))

unfoldable pub put_chunk : Chunk → Writer → Result ProtocolError Writer
put_chunk c w = put_bytes c.content (raw c.id (put_u32 c.index w))

unfoldable pub put_assignment : RouteAssignment → Writer → Result ProtocolError Writer
put_assignment a w = do
  w₁ ← put_string a.relay_id (raw a.provider_public_key (raw a.provider_id w))
  w₂ ← put_string a.relay_address w₁
  put_string a.route w₂

unfoldable pub put_optional_assignment :
    Option RouteAssignment → Writer → Result ProtocolError Writer
put_optional_assignment none w = ok (put_u8 0 w)
put_optional_assignment (some a) w = put_assignment a (put_u8 1 w)

-- `for value in &values { w.assignment(value)? }`
unfoldable pub put_assignments : List RouteAssignment → Writer → Result ProtocolError Writer
put_assignments [] w = ok w
put_assignments (a ∷ rest) w = do w' ← put_assignment a w; put_assignments rest w'

-- Unfolds every method of this module, for runs on concrete input.
unfoldable pub running : Unit {0}
unfolding be ensure_size raw put_u8 put_u16 put_u32 put_u64 new finish put_bytes put_string put_ids
    put_manifest put_chunk put_assignment put_optional_assignment put_assignments
running = tt
