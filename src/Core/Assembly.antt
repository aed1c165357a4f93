-- ===== src/Core/Assembly.antt =====
-- The operations of `Manifest`: `from_bytes`, `validate_shape`, `verify_chunk`, `reconstruct`.
mod Slices
mod RoundTrip
mod Soundness
mod Tests
use triptorrent.Base.{
  ℕ, zero, suc, ◌+◌, ◌-◌, ◌*◌, ◌/◌, ◌^◌, ◌≡◌, List, [], ◌∷◌, ◌++◌, map, Bool, true, false, not,
  ◌&&◌, ◌||◌, length, get_elem?, take, drop, ltb, ◌==◌, if◌then◌else◌, Result, ok, err, ok_or,
  guard, ◌>>=◌, ◌>>◌,
}
use triptorrent.Base.Bytes.{Bytes, bytes_eq}
use triptorrent.Core.{
  Manifest, Chunk, ContentError, invalid_index, invalid_chunk, wrong_chunk_count, invalid_content,
  too_many_chunks, invalid_chunk_size, invalid_manifest_shape, content_too_large, chunk_size_bytes,
  max_manifest_chunks, max_content_length,
}

-- `slice::chunks`: pieces of `n` bytes, the last one shorter. Each piece takes at least one byte,
-- so the length is enough fuel.
unfoldable pub slices : ℕ → ℕ → Bytes → List Bytes
slices zero n xs = []
slices (suc f) n [] = []
slices (suc f) n (x ∷ xs) = take n (x ∷ xs) ∷ slices f n (drop n (x ∷ xs))

-- `u64::div_ceil`
unfoldable pub div_ceil : ℕ → ℕ → ℕ
div_ceil a b = (a + b - 1) / b

module _ (hash : Bytes → Bytes) where
  -- The closure of `from_bytes`, over the enumerated slices.
  unfoldable pub number_chunks : ℕ → List Bytes → Result ContentError (List Chunk)
  number_chunks i [] = ok []
  number_chunks i (piece ∷ rest) = do
    guard (ltb i (2 ^ 32)) too_many_chunks
    cs ← number_chunks (suc i) rest
    ok ((record { index = i; id = hash piece; content = piece }) ∷ cs)

  unfoldable pub from_bytes : Bytes → Result ContentError (Manifest × List Chunk)
  unfolding slices number_chunks
  from_bytes bytes = do
    guard (not (ltb max_content_length (length bytes))) content_too_large
    cs ← number_chunks 0 (slices (length bytes) chunk_size_bytes bytes)
    ok (
      (record {
        content_id = hash bytes;
        length = length bytes;
        chunk_size = 32 * 1024;
        chunks = map (λ c. c.id) cs;
      }),
      cs,
    )

  unfoldable pub verify_chunk : Manifest → Chunk → Result ContentError (Unit {0})
  verify_chunk m c = do
    expected ← ok_or (get_elem? m.chunks c.index) (invalid_index c.index)
    guard (bytes_eq c.id expected && bytes_eq (hash c.content) expected) (invalid_chunk c.index)

  -- The loop of `reconstruct`: `bytes` is what has been appended before position `i`.
  unfoldable pub reconstruct_loop : Manifest → ℕ → Bytes → List Chunk → Result ContentError Bytes
  unfolding verify_chunk
  reconstruct_loop m i bytes [] = ok bytes
  reconstruct_loop m i bytes (c ∷ cs) = do
    guard (c.index == i) (invalid_index c.index)
    verify_chunk m c
    reconstruct_loop m (suc i) (bytes ++ c.content) cs

  unfoldable pub reconstruct : Manifest → List Chunk → Result ContentError Bytes
  unfolding reconstruct_loop
  reconstruct m cs = do
    guard (length cs == length m.chunks) (wrong_chunk_count (length m.chunks) (length cs))
    bytes ← reconstruct_loop m 0 [] cs
    guard (length bytes == m.length && bytes_eq (hash bytes) m.content_id) invalid_content
    ok bytes

unfoldable pub validate_shape : Manifest → Result ContentError (Unit {0})
unfolding div_ceil
validate_shape m = do
  guard (m.chunk_size == chunk_size_bytes) invalid_chunk_size
  guard (not (ltb max_content_length m.length || ltb max_manifest_chunks (length m.chunks)))
      content_too_large
  guard (div_ceil m.length m.chunk_size == length m.chunks) invalid_manifest_shape
