-- ===== src/Interop/Merkle/Tests.antt =====
-- The root of a file of one block, with a stand-in for the digest.
use triptorrent.Base.{
  ℕ, ◌*◌, ◌^◌, ◌≤◌, ◌<◌, ◌≡◌, refl, length, take, drop, replicate, [], ◌∷◌, some, ok, err,
}
use triptorrent.Base.Bytes.{Bytes}
use triptorrent.Interop.Merkle.{leaves, padded, v2_file_root, empty_file}
use triptorrent.Interop.Merkle.Tree.{root, v2_file_root-root}

abbrev sample : Bytes → Bytes
sample bs = b'#' ∷ bs

one_block : v2_file_root sample (1 ∷ 2 ∷ []) ≡ ok (some (b'#' ∷ 1 ∷ 2 ∷ []))
unfolding v2_file_root take drop replicate
one_block = refl

no_block : v2_file_root sample [] ≡ err empty_file
unfolding v2_file_root
no_block = refl

v2_file_root-root_example :
    (d : ℕ) × (v2_file_root sample (1 ∷ 2 ∷ [])
      ≡ ok (some (root sample d (padded (leaves sample (1 ∷ 2 ∷ []))))))
    × (length (leaves sample (1 ∷ 2 ∷ [])) ≤ 2 ^ d)
    × (2 ^ d < 2 * length (leaves sample (1 ∷ 2 ∷ [])))
v2_file_root-root_example = v2_file_root-root sample 1 (2 ∷ [])
