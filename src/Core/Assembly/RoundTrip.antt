-- ===== src/Core/Assembly/RoundTrip.antt =====
-- What `from_bytes` cuts, `reconstruct` puts together, and what `reconstruct` accepts is what the
-- manifest names.
use triptorrent.Base.{
  ℕ, zero, suc, ◌+◌, ◌*◌, ◌^◌, ◌≤◌, ◌≡◌, refl, sym, ap, ◌∙◌, subst, List, [], ◌∷◌, ◌++◌, map, true,
  false, some, length, get_elem?, ltb, ◌==◌, ok, arith, append_assoc, append-nil, length-map,
}
use triptorrent.Base.Bytes.{Bytes, bytes_eq_refl}
use triptorrent.Core.{Manifest, Chunk, chunk_size_bytes, max_manifest_chunks, max_content_length}
use triptorrent.Core.Assembly.{
  slices, div_ceil, number_chunks, from_bytes, verify_chunk, reconstruct_loop, reconstruct,
  validate_shape,
}
use triptorrent.Core.Assembly.Slices.{concat, concat-slices, length-slices}

module _ (hash : Bytes → Bytes) where
  -- What the loop of `reconstruct` needs of the list of identifiers: those of the pieces stand in it
  -- from position `i` on.
  abbrev Listed : List Bytes → ℕ → List Bytes → Type 0
  Listed ids i [] = Unit {0}
  Listed ids i (p ∷ ps) = (get_elem? ids i ≡ some (hash p)) × Listed ids (suc i) ps

  -- The chunks of the pieces, numbered from `i`.
  abbrev numbered : ℕ → List Bytes → List Chunk
  numbered i [] = []
  numbered i (p ∷ ps) = (record { index = i; id = hash p; content = p }) ∷ numbered (suc i) ps

  number_chunks_ok :
      (i : ℕ) (ps : List Bytes)
      → i + length ps ≤ 2 ^ 32
      → number_chunks hash i ps ≡ ok (numbered i ps)
  unfolding number_chunks
  number_chunks_ok i [] h = refl
  number_chunks_ok i (p ∷ ps) h =
      let small : ltb i (2 ^ 32) ≡ true = ground arith in
      rw (small, number_chunks_ok (suc i) ps (omega arith)) refl

  length-numbered : (i : ℕ) (ps : List Bytes) → length (numbered i ps) ≡ length ps
  length-numbered i [] = refl
  length-numbered i (p ∷ ps) = ap suc (length-numbered (suc i) ps)

  -- The identifiers of the pieces stand in the list from position `i` on.
  get-ids :
      (i : ℕ) (ps : List Bytes) (j : ℕ) (p : Bytes)
      → get_elem? ps j ≡ some p
      → get_elem? (map (λ c. c.id) (numbered i ps)) j ≡ some (hash p)
  get-ids i [] j p h = cc
  get-ids i (q ∷ ps) zero p h = cc
  get-ids i (q ∷ ps) (suc j) p h = get-ids (suc i) ps j p h

  Listed-from :
      (ids : List Bytes) (i : ℕ) (ps : List Bytes)
      → ((j : ℕ) (p : Bytes) → get_elem? ps j ≡ some p → get_elem? ids (i + j) ≡ some (hash p))
      → Listed ids i ps
  Listed-from ids i [] h = tt
  Listed-from ids i (p ∷ ps) h =
      let here : i + 0 ≡ i = omega arith in
      (
        subst (λ k. get_elem? ids k ≡ some (hash p)) here (h 0 p refl),
        Listed-from ids (suc i) ps (λ j q e.
            let next : i + suc j ≡ suc i + j = omega arith in
            subst (λ k. get_elem? ids k ≡ some (hash q)) next (h (suc j) q e)),
      )

  verify-listed :
      (m : Manifest) (i : ℕ) (p : Bytes)
      → get_elem? m.chunks i ≡ some (hash p)
      → verify_chunk hash m (record { index = i; id = hash p; content = p }) ≡ ok tt
  unfolding verify_chunk
  verify-listed m i p h = rw (h, bytes_eq_refl (hash p)) refl

  loop-numbered :
      (m : Manifest) (i : ℕ) (bytes : Bytes) (ps : List Bytes)
      → Listed m.chunks i ps
      → reconstruct_loop hash m i bytes (numbered i ps) ≡ ok (bytes ++ concat ps)
  unfolding reconstruct_loop
  loop-numbered m i bytes [] listed = ap ok (sym (append-nil bytes))
  loop-numbered m i bytes (p ∷ ps) listed =
      let same : (i == i) ≡ true = ground arith in
      rw (same, verify-listed m i p listed.0)
        (loop-numbered m (suc i) (bytes ++ p) ps listed.1
          ∙ ap ok (append_assoc bytes p (concat ps)))

  abbrev pub made_manifest : Bytes → List Chunk → Manifest
  made_manifest bytes cs = record {
    content_id = hash bytes;
    length = length bytes;
    chunk_size = 32 * 1024;
    chunks = map (λ c. c.id) cs;
  }

  abbrev pub made_chunks : Bytes → List Chunk
  made_chunks bytes = numbered 0 (slices (length bytes) chunk_size_bytes bytes)

  pieces-le :
      (bytes : Bytes)
      → length bytes ≤ max_content_length
      → length (slices (length bytes) chunk_size_bytes bytes) ≤ max_manifest_chunks
  unfolding div_ceil
  pieces-le bytes h = omega (arith, length-slices (length bytes) bytes (omega arith))

  from_bytes_ok :
      (bytes : Bytes)
      → length bytes ≤ max_content_length
      → from_bytes hash bytes ≡ ok (made_manifest bytes (made_chunks bytes), made_chunks bytes)
  unfolding from_bytes
  from_bytes_ok bytes h =
      let small : ltb max_content_length (length bytes) ≡ false = ground arith in
      rw
        (
          small,
          number_chunks_ok 0 (slices (length bytes) chunk_size_bytes bytes)
              (omega (arith, pieces-le bytes h)),
        )
        refl

  shape_ok :
      (bytes : Bytes)
      → length bytes ≤ max_content_length
      → validate_shape (made_manifest bytes (made_chunks bytes)) ≡ ok tt
  unfolding validate_shape
  shape_ok bytes h =
      let pieces = slices (length bytes) chunk_size_bytes bytes in
      let ids : length (map (λ c. c.id) (made_chunks bytes)) ≡ length pieces =
        length-map (λ c. c.id) (made_chunks bytes) ∙ length-numbered 0 pieces in
      let few = pieces-le bytes h in
      let count = length-slices (length bytes) bytes (omega arith) in ground arith

  reconstruct_made :
      (bytes : Bytes)
      → reconstruct hash (made_manifest bytes (made_chunks bytes)) (made_chunks bytes) ≡ ok bytes
  unfolding reconstruct
  reconstruct_made bytes =
      let m = made_manifest bytes (made_chunks bytes) in
      let pieces = slices (length bytes) chunk_size_bytes bytes in
      let count : (length (made_chunks bytes) == length m.chunks) ≡ true =
        ground (arith, length-map (λ c. c.id) (made_chunks bytes)) in
      let listed =
        Listed-from m.chunks 0 pieces
          (λ j p e. let start : 0 + j ≡ j = omega arith in rw start (get-ids 0 pieces j p e)) in
      let size : (length bytes == length bytes) ≡ true = ground arith in
      let joined : reconstruct_loop hash m 0 [] (made_chunks bytes) ≡ ok bytes =
        loop-numbered m 0 [] pieces listed
        ∙ ap ok (concat-slices (length bytes) chunk_size_bytes bytes (omega arith) (omega arith)) in
      rw (count, joined, size, bytes_eq_refl (hash bytes)) refl

  -- Bytes up to the content limit are cut into a manifest and chunks; the manifest has a valid
  -- shape, and the chunks reconstruct the bytes.
  pub reconstruct-from_bytes :
      (bytes : Bytes)
      → length bytes ≤ max_content_length
      → (m : Manifest) × (cs : List Chunk) × (from_bytes hash bytes ≡ ok (m, cs))
        × (validate_shape m ≡ ok tt)
        × (reconstruct hash m cs ≡ ok bytes)
  reconstruct-from_bytes bytes h = (
    made_manifest bytes (made_chunks bytes),
    made_chunks bytes,
    from_bytes_ok bytes h,
    shape_ok bytes h,
    reconstruct_made bytes,
  )
