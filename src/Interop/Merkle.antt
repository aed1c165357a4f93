-- ===== src/Interop/Merkle.antt =====
-- `v2_file_root`. `sha256` is the digest, and the answer is `none` where the source would panic.
pub mod Tree
mod Tests
use triptorrent.Base.{
  ℕ, zero, suc, ◌-◌, ◌*◌, List, [], ◌∷◌, ◌++◌, Bool, Option, none, some, map, length, replicate,
  ltb, leb, ◌==◌, not, if◌then◌else◌, Result, ok, err, guard, ◌>>=◌, ◌>>◌,
}
use triptorrent.Base.Bytes.{Bytes}
use triptorrent.Core.Assembly.{slices}
use triptorrent.Interop.{v2_block_size}

pub data MerkleError : Type 0 where
  empty_file : MerkleError

-- `usize::next_power_of_two`, from `p` on.
unfoldable pub next_power : ℕ → ℕ → ℕ → ℕ
next_power zero p n = p
next_power (suc f) p n = let more = next_power f (p * 2) n in if leb n p then p else more

abbrev pub next_power_of_two : ℕ → ℕ
next_power_of_two n = next_power n 1 n

unfoldable pub first_of : List Bytes → Option Bytes
first_of [] = none
first_of (x ∷ layer) = some x

abbrev pub zero_digest : Bytes
zero_digest = replicate 32 0

-- `resize` to the next power of two.
abbrev pub padded : List Bytes → List Bytes
padded layer = layer ++ replicate (next_power_of_two (length layer) - length layer) zero_digest

module _ (sha256 : Bytes → Bytes) where
  -- `as_chunks::<2>().0` and the closure on each pair.
  unfoldable pub pair_up : List Bytes → List Bytes
  pair_up [] = []
  pair_up (a ∷ []) = []
  pair_up (a ∷ b ∷ rest) = sha256 (a ++ b) ∷ pair_up rest

  -- The loop on the layers.
  unfoldable pub reduce : ℕ → List Bytes → List Bytes
  unfolding pair_up
  reduce zero layer = layer
  reduce (suc f) layer =
      let next = reduce f (pair_up layer) in if ltb 1 (length layer) then next else layer

  abbrev pub leaves : Bytes → List Bytes
  leaves payload = map sha256 (slices (length payload) v2_block_size payload)

  unfoldable pub v2_file_root : Bytes → Result MerkleError (Option Bytes)
  unfolding reduce next_power first_of slices
  v2_file_root payload = do
    guard (not (length payload == 0)) empty_file
    let layer = padded (leaves payload)
    ok (first_of (reduce (length layer) layer))
