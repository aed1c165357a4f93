-- ===== src/Interop.antt =====
-- crates/triptorrent-interop/src/lib.rs: BitTorrent metadata, magnet links and path components.
-- `hex::encode`, `hex::decode`, SHA-1 and SHA-256 are parameters.
pub mod Bencode
pub mod Magnet
pub mod Merkle
pub mod Metainfo
pub mod Path
use triptorrent.Base.{ℕ, ◌*◌}

abbrev pub max_bencode_depth : ℕ
max_bencode_depth = 64

abbrev pub max_bencode_input : ℕ
max_bencode_input = 4 * 1024 * 1024

abbrev pub max_bencode_nodes : ℕ
max_bencode_nodes = 100_000

abbrev pub max_magnet_length : ℕ
max_magnet_length = 64 * 1024

abbrev pub max_magnet_parameters : ℕ
max_magnet_parameters = 1_024

abbrev pub max_path_component_bytes : ℕ
max_path_component_bytes = 255

abbrev pub v2_block_size : ℕ
v2_block_size = 16 * 1024
