-- ===== src/Core/Assembly/Tests.antt =====
-- Content of three bytes, with a stand-in for the hash that has its 32 bytes.
use triptorrent.Base.{◌≡◌, refl, List, [], ◌∷◌, ◌++◌, map, length, take, replicate, ok, arith}
use triptorrent.Base.Bytes.{Bytes, bytes_eq}
use triptorrent.Core.{Manifest, Chunk}
use triptorrent.Core.Assembly.{from_bytes, reconstruct, validate_shape}
use triptorrent.Core.Assembly.Slices.{concat}
use triptorrent.Core.Assembly.RoundTrip.{reconstruct-from_bytes}
use triptorrent.Core.Assembly.Soundness.{Verified, reconstruct_sound}

abbrev content : Bytes
content = 7 ∷ 8 ∷ 9 ∷ []

abbrev sample_hash : Bytes → Bytes
sample_hash bytes = take 32 (bytes ++ replicate 32 0)

abbrev sample_manifest : Manifest
sample_manifest = record {
  content_id = sample_hash content;
  length = 3;
  chunk_size = 32768;
  chunks = sample_hash content ∷ [];
}

abbrev sample_chunks : List Chunk
sample_chunks = (record { index = 0; id = sample_hash content; content = content }) ∷ []

reconstructs : reconstruct sample_hash sample_manifest sample_chunks ≡ ok content
unfolding reconstruct take replicate bytes_eq
reconstructs = refl

reconstruct-from_bytes_example :
    (m : Manifest) × (cs : List Chunk) × (from_bytes sample_hash content ≡ ok (m, cs))
    × (validate_shape m ≡ ok tt)
    × (reconstruct sample_hash m cs ≡ ok content)
reconstruct-from_bytes_example = reconstruct-from_bytes sample_hash content (omega arith)

reconstruct_sound_example :
    (content ≡ concat (map (λ c. c.content) sample_chunks))
    × Verified sample_hash sample_manifest 0 sample_chunks
    × (length sample_chunks ≡ length sample_manifest.chunks)
    × (length content ≡ sample_manifest.length)
    × (sample_hash content ≡ sample_manifest.content_id)
reconstruct_sound_example =
    reconstruct_sound sample_hash sample_manifest sample_chunks content reconstructs
