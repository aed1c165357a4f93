-- ===== src/Protocol/Application/RoundTrip.antt =====
-- What `encode` wrote, `decode` reads back.
use triptorrent.Base.{◌^◌, ◌≤◌, ◌<◌, ◌≡◌, ◌++◌, false, length, ltb, ok, arith, >>=-eq-ok}
use triptorrent.Base.Bytes.{Bytes, be}
use triptorrent.Core.{Manifest}
use triptorrent.Protocol.{
  Message, request, manifest, chunk, complete, error, swarm_request, swarm_manifest, chunk_request,
  chunk_unavailable, swarm_complete, max_application_message_bytes, max_testnet_manifest_chunks,
  max_error_text_bytes, domain_application,
}
use triptorrent.Protocol.Availability.{PieceAvailability, is_valid}
use triptorrent.Protocol.Fields.{
  IsId, IsText, ManifestFields, ChunkFields, Reads-manifest, Reads-chunk,
}
use triptorrent.Protocol.Writer.{ensure_size}
use triptorrent.Protocol.Writer.Wire.{wire_bytes}
use triptorrent.Protocol.Reader.Places.{
  Reads, Reads-bind, Reads-last, Reads-nothing, Reads-array, Reads-u32, Reads-bytes, Reads-string,
  Reads-record, place,
}
use triptorrent.Protocol.Application.{
  validate_manifest, validate_message, saturate_u32, encode, decode,
}
use triptorrent.Protocol.Application.Body.{get_availability, message_fields, application_record}
use triptorrent.Protocol.Application.Wire.{message_kind, wire_fields, wire, encode-Encoded}

-- The ranges that the types of the fields give.
abbrev pub MessageFields : Message → Type 0
MessageFields (request content_id) = IsId content_id
MessageFields (manifest m) = ManifestFields m
MessageFields (chunk c) = ChunkFields c
MessageFields complete = Unit {0}
MessageFields (error text) = IsText text
MessageFields (swarm_request content_id) = IsId content_id
MessageFields (swarm_manifest m availability) =
    ManifestFields m × (availability.chunk_count < 2 ^ 32)
MessageFields (chunk_request index) = index < 2 ^ 32
MessageFields (chunk_unavailable index) = index < 2 ^ 32
MessageFields swarm_complete = Unit {0}

validate_manifest-bound :
    (m : Manifest) → validate_manifest m ≡ ok tt → length m.chunks ≤ max_testnet_manifest_chunks
unfolding validate_manifest
validate_manifest-bound m h = ground arith

bits_bound :
    (m : Manifest) (a : PieceAvailability)
    → validate_message (swarm_manifest m a) ≡ ok tt
    → length a.bits ≤ 255
unfolding validate_message saturate_u32 is_valid
bits_bound m a h =
    let (u, hm, k) = >>=-eq-ok (validate_manifest m) _ h in
    ground (arith, validate_manifest-bound m hm)

message_kind-lt : (m : Message) → message_kind m < 2 ^ 8
message_kind-lt (request content_id) = omega arith
message_kind-lt _ = omega arith

Reads-availability :
    (a : PieceAvailability)
    → a.chunk_count < 2 ^ 32
    → length a.bits ≤ 255
    → Reads get_availability (be 4 a.chunk_count ++ wire_bytes a.bits) a
unfolding get_availability
Reads-availability a hc hb =
    Reads-bind _ _ _ _ a.chunk_count a (Reads-u32 a.chunk_count hc)
      (Reads-last _ _ _ a.bits (Reads-bytes a.bits _ (omega arith) (omega arith)))

Reads-message :
    (m : Message)
    → MessageFields m
    → validate_message m ≡ ok tt
    → Reads (message_fields (message_kind m)) (wire_fields m) m
unfolding message_fields validate_message
Reads-message (request content_id) f v = Reads-last _ _ _ content_id (Reads-array content_id 32 f)
Reads-message (manifest m) f v =
    Reads-last _ _ _ m (Reads-manifest m f (validate_manifest-bound m v))
Reads-message (chunk c) f v = Reads-last _ _ _ c (Reads-chunk c f (ground arith))
Reads-message complete f v = Reads-nothing complete
Reads-message (error text) f v =
    let short : length text ≤ max_error_text_bytes = ground arith in
    Reads-last _ _ _ text (Reads-string text max_error_text_bytes short (omega arith) f)
Reads-message (swarm_request content_id) f v =
    Reads-last _ _ _ content_id (Reads-array content_id 32 f)
Reads-message (swarm_manifest m a) f v =
    let (u, hm, k) = >>=-eq-ok (validate_manifest m) _ v in
    Reads-bind _ _ _ _ m (swarm_manifest m a) (Reads-manifest m f.0 (validate_manifest-bound m hm))
      (Reads-last _ _ _ a (Reads-availability a f.1 (bits_bound m a v)))
Reads-message (chunk_request index) f v = Reads-last _ _ _ index (Reads-u32 index f)
Reads-message (chunk_unavailable index) f v = Reads-last _ _ _ index (Reads-u32 index f)
Reads-message swarm_complete f v = Reads-nothing swarm_complete

application_record-wire :
    (m : Message)
    → MessageFields m
    → validate_message m ≡ ok tt
    → length (wire m) < 2 ^ 64
    → application_record (place (wire m) 0) ≡ ok (m, place (wire m) (length (wire m)))
unfolding application_record wire
application_record-wire m f v fits =
    Reads-record domain_application (message_kind m) message_fields (wire_fields m) m (omega arith)
      (message_kind-lt m) (Reads-message m f v) fits

-- Every message that `encode` accepts, over fields in the range of their types, is what `decode`
-- returns for the encoded bytes.
pub decode-encode : (m : Message) (b : Bytes) → MessageFields m → encode m ≡ ok b → decode b ≡ ok m
unfolding decode ensure_size
decode-encode m b f h =
    let done = encode-Encoded m b h in
    let bounded : length (wire m) ≤ max_application_message_bytes =
      rw (← done.written) done.bounded in
    let read = application_record-wire m f done.valid (omega arith) in
    let small : ltb max_application_message_bytes (length (wire m)) ≡ false = ground arith in
    rw (done.written, small, read, done.valid)
