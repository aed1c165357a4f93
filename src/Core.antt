-- ===== src/Core.antt =====
-- crates/triptorrent-core/src/lib.rs: content identifiers, chunks and manifests.
-- BLAKE3 (the blake3 crate) is the parameter `hash`; an identifier is its 32 bytes, as a list.
-- `usize` is 64 bits wide, so `usize::try_from` of a `u32` and `u64::try_from` of a length succeed.
pub mod Assembly
use triptorrent.Base.{ℕ, ◌*◌, List, [], ◌∷◌}
use triptorrent.Base.Bytes.{Bytes}

abbrev pub chunk_size_bytes : ℕ
chunk_size_bytes = 32768

abbrev pub max_manifest_chunks : ℕ
max_manifest_chunks = 1048576

abbrev pub max_content_length : ℕ
max_content_length = 32 * 1024 * 1048576

abbrev pub protocol_version : ℕ
protocol_version = 1

-- The ASCII bytes of "triptorrent-testnet-1".
abbrev pub network_id : Bytes
network_id =
    116 ∷ 114 ∷ 105 ∷ 112 ∷ 116 ∷ 111 ∷ 114 ∷ 114 ∷ 101 ∷ 110 ∷ 116 ∷ 45 ∷ 116 ∷ 101 ∷ 115 ∷ 116
    ∷ 110 ∷ 101 ∷ 116 ∷ 45 ∷ 49 ∷ []

pub record Manifest : Type 0 where
  pub content_id : Bytes
  pub length : ℕ
  pub chunk_size : ℕ
  pub chunks : List Bytes

pub record Chunk : Type 0 where
  pub index : ℕ
  pub id : Bytes
  pub content : Bytes

pub data ContentError : Type 0 where
  invalid_index invalid_chunk : ℕ → ContentError
  wrong_chunk_count : ℕ → ℕ → ContentError
  invalid_content too_many_chunks invalid_chunk_size invalid_manifest_shape content_too_large :
      ContentError
