-- ===== src/Protocol/Application/Wire.antt =====
-- The canonical encoding of a message, and that `encode` produces it.
use triptorrent.Base.{
  ℕ, ◌≤◌, ◌≡◌, sym, ap, ◌∙◌, [], ◌∷◌, ◌++◌, length, ok, append_assoc, >>=-eq-ok, ok-injective,
}
use triptorrent.Base.Bytes.{Bytes, be}
use triptorrent.Protocol.{
  Message, request, manifest, chunk, complete, error, swarm_request, swarm_manifest, chunk_request,
  chunk_unavailable, swarm_complete, max_application_message_bytes, domain_application,
}
use triptorrent.Protocol.Writer.{Writer, new, raw, put_u8, put_u32, put_manifest}
use triptorrent.Protocol.Writer.Wire.{
  Appends, wire_bytes, wire_string, wire_manifest, wire_chunk, put_bytes-Appends,
  put_string-Appends, put_manifest-Appends, put_chunk-Appends, finish-ok, new-header,
}
use triptorrent.Protocol.Reader.Places.{header_bytes}
use triptorrent.Protocol.Application.{put_message, validate_message, encode}

abbrev pub message_kind : Message → ℕ
message_kind (request content_id) = 1
message_kind (manifest m) = 2
message_kind (chunk c) = 3
message_kind complete = 4
message_kind (error text) = 5
message_kind (swarm_request content_id) = 16
message_kind (swarm_manifest m availability) = 17
message_kind (chunk_request index) = 18
message_kind (chunk_unavailable index) = 19
message_kind swarm_complete = 20

abbrev pub wire_fields : Message → Bytes
wire_fields (request content_id) = content_id
wire_fields (manifest m) = wire_manifest m
wire_fields (chunk c) = wire_chunk c
wire_fields complete = []
wire_fields (error text) = wire_string text
wire_fields (swarm_request content_id) = content_id
wire_fields (swarm_manifest m availability) =
    wire_manifest m ++ (be 4 availability.chunk_count ++ wire_bytes availability.bits)
wire_fields (chunk_request index) = be 4 index
wire_fields (chunk_unavailable index) = be 4 index
wire_fields swarm_complete = []

-- The record of a message on the wire.
unfoldable pub wire : Message → Bytes
wire m = header_bytes domain_application ++ (message_kind m ∷ wire_fields m)

put_message-Appends :
    (m : Message) (w : Writer) → Appends (put_message m w) w (message_kind m ∷ wire_fields m)
unfolding put_message put_u8 put_u32 raw
put_message-Appends (request content_id) w w' h =
    sym (ok-injective h) ∙ append_assoc w (1 ∷ []) content_id
put_message-Appends (manifest m) w w' h = put_manifest-Appends m _ w' h ∙ append_assoc w (2 ∷ []) _
put_message-Appends (chunk c) w w' h = put_chunk-Appends c _ w' h ∙ append_assoc w (3 ∷ []) _
put_message-Appends complete w w' h = sym (ok-injective h)
put_message-Appends (error text) w w' h = put_string-Appends text _ w' h ∙ append_assoc w (5 ∷ []) _
put_message-Appends (swarm_request content_id) w w' h =
    sym (ok-injective h) ∙ append_assoc w (16 ∷ []) content_id
put_message-Appends (swarm_manifest m availability) w w' h =
    let (w₁, h₁, k₁) = >>=-eq-ok (put_manifest m _) _ h in
    put_bytes-Appends availability.bits _ w' k₁
    ∙ ap (λ x. (x ++ be 4 availability.chunk_count) ++ wire_bytes availability.bits)
        (put_manifest-Appends m _ w₁ h₁)
    ∙ simp append_assoc
put_message-Appends (chunk_request index) w w' h = sym (ok-injective h) ∙ append_assoc w (18 ∷ []) _
put_message-Appends (chunk_unavailable index) w w' h =
    sym (ok-injective h) ∙ append_assoc w (19 ∷ []) _
put_message-Appends swarm_complete w w' h = sym (ok-injective h)

-- What a successful `encode` has checked and written.
pub record Encoded (m : Message) (b : Bytes) : Type 0 where
  pub valid : validate_message m ≡ ok tt
  pub written : b ≡ wire m
  pub bounded : length b ≤ max_application_message_bytes
  pub put : (w : Writer) × (put_message m (new domain_application) ≡ ok w)

pub encode-Encoded : (m : Message) (b : Bytes) → encode m ≡ ok b → Encoded m b
unfolding encode wire
encode-Encoded m b h =
    let (u, hv, k) = >>=-eq-ok (validate_message m) _ h in
    let (w, hw, f) = >>=-eq-ok (put_message m (new domain_application)) _ k in
    let done = finish-ok max_application_message_bytes w b f in
    record {
      valid = hv;
      written =
          sym done.0
          ∙ put_message-Appends m _ w hw
          ∙ ap (λ x. x ++ (message_kind m ∷ wire_fields m)) (new-header domain_application);
      bounded = done.1;
      put = (w, hw);
    }
