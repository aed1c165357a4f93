-- ===== src/Protocol/Fields.antt =====
-- The ranges that Rust's types give the fields, and the rules to read them back.
use triptorrent.Base.{
  ◌^◌, ◌≤◌, ◌<◌, ◌≡◌, refl, ap, true, List, [], ◌∷◌, ◌++◌, none, some, length, All, arith, subst,
}
use triptorrent.Base.Bytes.{Bytes}
use triptorrent.Base.Utf8.{is_utf8}
use triptorrent.Core.{Manifest, Chunk, chunk_size_bytes}
use triptorrent.Protocol.{RouteAssignment, max_testnet_manifest_chunks}
use triptorrent.Protocol.Writer.Wire.{
  wire_ids, wire_manifest, wire_chunk, wire_assignment, wire_optional, wire_assignments,
}
use triptorrent.Protocol.Reader.{
  array, get_manifest, get_chunk, get_assignment, optional_body, get_optional_assignment, repeat,
}
use triptorrent.Protocol.Reader.Places.{
  Reads, Reads-bind, Reads-last, Reads-check, Reads-nothing, Reads-array, Reads-u8, Reads-u32,
  Reads-u64, Reads-bytes, Reads-string, Reads-repeat, encodings, within,
}

-- `[u8; 32]`, `u32` and `u64`, and `String`.
abbrev pub IsId : Bytes → Type 0
IsId id = length id ≡ 32

abbrev pub IsText : Bytes → Type 0
IsText text = is_utf8 text ≡ true

pub record ManifestFields (m : Manifest) : Type 0 where
  pub content_id : IsId m.content_id
  pub length : m.length < 2 ^ 64
  pub chunk_size : m.chunk_size < 2 ^ 32
  pub chunks : All IsId m.chunks

pub record ChunkFields (c : Chunk) : Type 0 where
  pub index : c.index < 2 ^ 32
  pub id : IsId c.id

pub record AssignmentFields (a : RouteAssignment) : Type 0 where
  pub provider_id : IsId a.provider_id
  pub provider_public_key : IsId a.provider_public_key
  pub relay_id : IsText a.relay_id
  pub relay_address : IsText a.relay_address
  pub route : IsText a.route

ids_read : (ids : List Bytes) → All IsId ids → All (λ id. Reads (array 32) id id) ids
ids_read [] h = tt
ids_read (id ∷ ids) h = (Reads-array id 32 h.0, ids_read ids h.1)

ids-encodings : (ids : List Bytes) → encodings (array 32) (λ id. id) ids ≡ wire_ids ids
ids-encodings [] = refl
ids-encodings (id ∷ ids) = ap (λ r. id ++ r) (ids-encodings ids)

pub Reads-ids :
    (ids : List Bytes) → All IsId ids → Reads (repeat (length ids) (array 32)) (wire_ids ids) ids
Reads-ids ids h =
    subst (λ e. Reads (repeat (length ids) (array 32)) e ids) (ids-encodings ids)
      (Reads-repeat (array 32) (λ id. id) ids (ids_read ids h))

pub Reads-manifest :
    (m : Manifest)
    → ManifestFields m
    → length m.chunks ≤ max_testnet_manifest_chunks
    → Reads get_manifest (wire_manifest m) m
unfolding get_manifest
Reads-manifest m f h =
    Reads-bind _ _ _ _ m.content_id m (Reads-array m.content_id 32 f.content_id) (
      Reads-bind _ _ _ _ m.length m (Reads-u64 m.length f.length) (
        Reads-bind _ _ _ _ m.chunk_size m (Reads-u32 m.chunk_size f.chunk_size) (
          Reads-bind _ _ _ _ (length m.chunks) m (Reads-u32 (length m.chunks) (omega arith)) (
            Reads-check _ _ _ _ m (within _ _ h)
              (Reads-last _ _ _ m.chunks (Reads-ids m.chunks f.chunks))))))

pub Reads-chunk :
    (c : Chunk)
    → ChunkFields c
    → length c.content ≤ chunk_size_bytes
    → Reads get_chunk (wire_chunk c) c
unfolding get_chunk
Reads-chunk c f h = Reads-bind _ _ _ _ c.index c (Reads-u32 c.index f.index) (
    Reads-bind _ _ _ _ c.id c (Reads-array c.id 32 f.id)
      (Reads-last _ _ _ c.content (Reads-bytes c.content chunk_size_bytes h (omega arith))))

-- The bounds on the texts of an assignment.
abbrev pub AssignmentBounds : RouteAssignment → Type 0
AssignmentBounds a =
    (length a.relay_id ≤ 64) × (length a.relay_address ≤ 128) × (length a.route ≤ 128)

pub Reads-assignment :
    (a : RouteAssignment)
    → AssignmentFields a
    → AssignmentBounds a
    → Reads get_assignment (wire_assignment a) a
unfolding get_assignment
Reads-assignment a f h =
    Reads-bind _ _ _ _ a.provider_id a (Reads-array a.provider_id 32 f.provider_id) (
      Reads-bind _ _ _ _ a.provider_public_key a
        (Reads-array a.provider_public_key 32 f.provider_public_key)
        (Reads-bind _ _ _ _ a.relay_id a (Reads-string a.relay_id 64 h.0 (omega arith) f.relay_id) (
          Reads-bind _ _ _ _ a.relay_address a
            (Reads-string a.relay_address 128 h.1 (omega arith) f.relay_address)
            (Reads-last _ _ _ a.route (Reads-string a.route 128 h.2 (omega arith) f.route)))))

pub Reads-none : Reads get_optional_assignment (wire_optional none) none
unfolding get_optional_assignment optional_body
Reads-none = Reads-bind _ _ (0 ∷ []) [] 0 none (Reads-u8 0 (omega arith)) (Reads-nothing none)

pub Reads-some :
    (a : RouteAssignment)
    → AssignmentFields a
    → AssignmentBounds a
    → Reads get_optional_assignment (wire_optional (some a)) (some a)
unfolding get_optional_assignment optional_body
Reads-some a f h =
    Reads-bind _ _ (1 ∷ []) _ 1 (some a) (Reads-u8 1 (omega arith))
      (Reads-last _ _ _ a (Reads-assignment a f h))

assignments_read :
    (values : List RouteAssignment)
    → All AssignmentFields values
    → All AssignmentBounds values
    → All (λ a. Reads get_assignment (wire_assignment a) a) values
assignments_read [] f h = tt
assignments_read (a ∷ rest) f h = (Reads-assignment a f.0 h.0, assignments_read rest f.1 h.1)

assignments-encodings :
    (values : List RouteAssignment)
    → encodings get_assignment wire_assignment values ≡ wire_assignments values
assignments-encodings [] = refl
assignments-encodings (a ∷ rest) = ap (λ r. wire_assignment a ++ r) (assignments-encodings rest)

pub Reads-assignments :
    (values : List RouteAssignment)
    → All AssignmentFields values
    → All AssignmentBounds values
    → Reads (repeat (length values) get_assignment) (wire_assignments values) values
Reads-assignments values f h =
    subst (λ e. Reads (repeat (length values) get_assignment) e values)
      (assignments-encodings values)
      (Reads-repeat get_assignment wire_assignment values (assignments_read values f h))
