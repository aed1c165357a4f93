-- ===== src/Protocol/Application/Body.antt =====
-- The reading half of `decode`: the header, the kind byte, the fields and the end of the input.
use triptorrent.Base.{ℕ, ◌==◌, if◌then◌else◌}
use triptorrent.Protocol.{
  Message, request, manifest, chunk, complete, error, swarm_request, swarm_manifest, chunk_request,
  chunk_unavailable, swarm_complete, unknown_message, max_application_message_bytes,
  max_error_text_bytes, domain_application,
}
use triptorrent.Protocol.Availability.{PieceAvailability}
use triptorrent.Protocol.Reader.{
  Parser, ◌>>=◌, ◌>>◌, pure, fail, header, array, get_u8, get_u32, get_bytes, get_string,
  get_manifest, get_chunk, end,
}

unfoldable pub get_availability : Parser PieceAvailability
get_availability = do
  chunk_count ← get_u32
  bits ← get_bytes max_application_message_bytes
  pure (record { chunk_count = chunk_count; bits = bits })

-- The `match` of `decode` on the kind byte.
unfoldable pub message_fields : ℕ → Parser Message
message_fields kind =
    if kind == 1
    then (do content_id ← array 32; pure (request content_id))
    else if kind == 2
    then (do value ← get_manifest; pure (manifest value))
    else if kind == 3
    then (do value ← get_chunk; pure (chunk value))
    else if kind == 4
    then pure complete
    else if kind == 5
    then (do text ← get_string max_error_text_bytes; pure (error text))
    else if kind == 16
    then (do content_id ← array 32; pure (swarm_request content_id))
    else if kind == 17
    then (do
      value ← get_manifest
      availability ← get_availability
      pure (swarm_manifest value availability))
    else if kind == 18
    then (do index ← get_u32; pure (chunk_request index))
    else if kind == 19
    then (do index ← get_u32; pure (chunk_unavailable index))
    else if kind == 20
    then pure swarm_complete
    else fail (unknown_message kind)

unfoldable pub application_record : Parser Message
application_record = do
  header domain_application
  kind ← get_u8
  value ← message_fields kind
  end
  pure value
