-- ===== src/Protocol/Application.antt =====
-- `encode`, `decode` and `validate_message`: the application records of the encrypted session.
mod Body
mod Wire
pub mod RoundTrip
use triptorrent.Base.{
  ℕ, ◌-◌, ◌^◌, List, [], ◌∷◌, Bool, true, false, not, ◌&&◌, ◌||◌, length, ltb, ◌==◌, if◌then◌else◌,
  Result, ok, err, guard, ◌>>=◌, ◌>>◌,
}
use triptorrent.Base.Bytes.{Bytes}
use triptorrent.Core.{Manifest, Chunk, chunk_size_bytes}
use triptorrent.Core.Assembly.{validate_shape}
use triptorrent.Protocol.{
  Message, request, manifest, chunk, complete, error, swarm_request, swarm_manifest, chunk_request,
  chunk_unavailable, swarm_complete, ProtocolError, unknown_message, invalid_message,
  max_application_message_bytes, max_error_text_bytes, max_testnet_manifest_chunks,
  domain_application,
}
use triptorrent.Protocol.Availability.{PieceAvailability, is_valid}
use triptorrent.Protocol.Writer.{
  Writer, new, finish, ensure_size, raw, put_u8, put_u32, put_bytes, put_string, put_manifest,
  put_chunk,
}
use Body.{application_record}

-- `map_err` on the outcome of `validate_shape`
abbrev pub replace_error {ℓ} :
    {E : Type ℓ} → ProtocolError → Result E (Unit {0}) → Result ProtocolError (Unit {0})
replace_error e (ok u) = ok tt
replace_error e (err cause) = err e

unfoldable pub validate_manifest : Manifest → Result ProtocolError (Unit {0})
validate_manifest m = do
  replace_error (invalid_message "malformed manifest shape") (validate_shape m)
  guard (not (ltb max_testnet_manifest_chunks (length m.chunks)))
      (invalid_message "manifest exceeds Testnet v1 record bound")

-- `u32::try_from(len).unwrap_or(u32::MAX)`
unfoldable pub saturate_u32 : ℕ → ℕ
saturate_u32 n = if ltb n (2 ^ 32) then n else 2 ^ 32 - 1

unfoldable pub validate_message : Message → Result ProtocolError (Unit {0})
validate_message (manifest m) = validate_manifest m
validate_message (chunk c) =
    guard (not (ltb chunk_size_bytes (length c.content)))
      (invalid_message "chunk payload exceeds fixed chunk size")
validate_message (error text) =
    guard (not (ltb max_error_text_bytes (length text)))
      (invalid_message "error text exceeds bound")
validate_message (swarm_manifest m availability) = do
  validate_manifest m
  guard (availability.chunk_count == saturate_u32 (length m.chunks) && is_valid availability)
      (invalid_message "piece availability does not match manifest")
validate_message _ = ok tt

-- The `match` of `encode`: the kind byte and the fields.
unfoldable pub put_message : Message → Writer → Result ProtocolError Writer
put_message (request content_id) w = ok (raw content_id (put_u8 1 w))
put_message (manifest m) w = put_manifest m (put_u8 2 w)
put_message (chunk c) w = put_chunk c (put_u8 3 w)
put_message complete w = ok (put_u8 4 w)
put_message (error text) w = put_string text (put_u8 5 w)
put_message (swarm_request content_id) w = ok (raw content_id (put_u8 16 w))
put_message (swarm_manifest m availability) w = do
  w' ← put_manifest m (put_u8 17 w)
  put_bytes availability.bits (put_u32 availability.chunk_count w')
put_message (chunk_request index) w = ok (put_u32 index (put_u8 18 w))
put_message (chunk_unavailable index) w = ok (put_u32 index (put_u8 19 w))
put_message swarm_complete w = ok (put_u8 20 w)

unfoldable pub encode : Message → Result ProtocolError Bytes
encode message = do
  validate_message message
  w ← put_message message (new domain_application)
  finish max_application_message_bytes w

unfoldable pub decode : Bytes → Result ProtocolError Message
decode bytes = do
  ensure_size bytes max_application_message_bytes
  parsed ← application_record (record { bytes = bytes; offset = 0 })
  validate_message parsed.0
  ok parsed.0
