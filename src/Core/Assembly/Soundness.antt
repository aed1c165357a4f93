-- ===== src/Core/Assembly/Soundness.antt =====
-- What `reconstruct` accepts: the chunks that the manifest names, in order, and their bytes.
use triptorrent.Base.{
  ℕ, suc, ◌≡◌, sym, ap, ◌∙◌, List, [], ◌∷◌, ◌++◌, map, true, some, length, get_elem?, ◌==◌, ok,
  ok_or, guard, arith, append_assoc, append-nil, >>=-eq-ok, ok-injective,
}
use triptorrent.Base.Bytes.{Bytes, bytes_eq, bytes_eq-eq}
use triptorrent.Core.{Manifest, Chunk, invalid_index, wrong_chunk_count}
use triptorrent.Core.Assembly.{verify_chunk, reconstruct_loop, reconstruct}
use triptorrent.Core.Assembly.Slices.{concat}

module _ (hash : Bytes → Bytes) where
  -- From position `i` on, each chunk has its position as index, and the hash of its content is its
  -- identifier and the one that the manifest has there.
  abbrev pub Verified : Manifest → ℕ → List Chunk → Type 0
  Verified m i [] = Unit {0}
  Verified m i (c ∷ cs) =
      (c.index ≡ i)
      × (c.id ≡ hash c.content)
      × (get_elem? m.chunks i ≡ some (hash c.content))
      × Verified m (suc i) cs

  verify_chunk_sound :
      (m : Manifest) (c : Chunk)
      → verify_chunk hash m c ≡ ok tt
      → (c.id ≡ hash c.content) × (get_elem? m.chunks c.index ≡ some (hash c.content))
  unfolding verify_chunk
  verify_chunk_sound m c h =
      let (expected, found, k) =
        >>=-eq-ok (ok_or (get_elem? m.chunks c.index) (invalid_index c.index)) _ h in
      let named : bytes_eq c.id expected ≡ true = ground arith in
      let hashed : bytes_eq (hash c.content) expected ≡ true = ground arith in
      let id = bytes_eq-eq c.id expected named in
      let content = bytes_eq-eq (hash c.content) expected hashed in
      let there : get_elem? m.chunks c.index ≡ some expected = ground arith in (cc, cc)

  loop_sound :
      (m : Manifest) (i : ℕ) (bytes b : Bytes) (cs : List Chunk)
      → reconstruct_loop hash m i bytes cs ≡ ok b
      → (b ≡ bytes ++ concat (map (λ c. c.content) cs)) × Verified m i cs
  unfolding reconstruct_loop
  loop_sound m i bytes b [] h = (sym (ok-injective h) ∙ sym (append-nil bytes), tt)
  loop_sound m i bytes b (c ∷ cs) h =
      let (u, indexed, k) = >>=-eq-ok (guard (c.index == i) (invalid_index c.index)) _ h in
      let (v, checked, rest) = >>=-eq-ok (verify_chunk hash m c) _ k in
      let place : c.index ≡ i = ground arith in
      let good = verify_chunk_sound m c checked in
      let tail = loop_sound m (suc i) (bytes ++ c.content) b cs rest in
      (
        tail.0 ∙ append_assoc bytes c.content (concat (map (λ d. d.content) cs)),
        (place, good.0, ap (get_elem? m.chunks) (sym place) ∙ good.1, tail.1),
      )

  -- When `reconstruct` returns bytes, they are the contents of the chunks in order; the chunks are as
  -- many as the manifest has and are numbered and hashed as it says, and the length and the hash of
  -- the bytes are the manifest's.
  pub reconstruct_sound :
      (m : Manifest) (cs : List Chunk) (b : Bytes)
      → reconstruct hash m cs ≡ ok b
      → (b ≡ concat (map (λ c. c.content) cs))
        × Verified m 0 cs
        × (length cs ≡ length m.chunks)
        × (length b ≡ m.length)
        × (hash b ≡ m.content_id)
  unfolding reconstruct
  reconstruct_sound m cs b h =
      let (u, counted, k) =
        >>=-eq-ok
          (guard (length cs == length m.chunks) (wrong_chunk_count (length m.chunks) (length cs))) _
          h in
      let (bytes, looped, rest) = >>=-eq-ok (reconstruct_loop hash m 0 [] cs) _ k in
      let same : bytes ≡ b = ground arith in
      let made = loop_sound m 0 [] bytes cs looped in
      let size : length b ≡ m.length = ground arith in
      let hashed : bytes_eq (hash b) m.content_id ≡ true = ground arith in
      (sym same ∙ made.0, made.1, ground arith, size, bytes_eq-eq (hash b) m.content_id hashed)
