-- ===== src/Protocol/Availability.antt =====
-- `PieceAvailability`: a bitfield with one bit for each chunk, least significant bit first.
use triptorrent.Base.{
  ℕ, ◌+◌, ◌-◌, ◌/◌, ◌%◌, ◌^◌, List, [], ◌∷◌, Bool, true, false, not, ◌&&◌, ◌||◌, none, some,
  bit_and, bit_or, length, get_elem?, set, replicate, ltb, ◌==◌, if◌then◌else◌,
}
use triptorrent.Base.Bytes.{Bytes}

pub record PieceAvailability : Type 0 where
  pub chunk_count : ℕ
  pub bits : Bytes

-- `chunk_count.div_ceil(8)`
abbrev pub byte_count : ℕ → ℕ
byte_count n = (n + 7) / 8

-- The mask of the bits in use in the last byte, `(1 << remainder) - 1`.
abbrev used_mask : ℕ → ℕ
used_mask remainder = 2 ^ remainder - 1

-- The complement of a byte is `255 - x`.
unfoldable pub last_unused : ℕ → Bytes → Bool
last_unused remainder [] = true
last_unused remainder (b ∷ []) = bit_and b (255 - used_mask remainder) == 0
last_unused remainder (b ∷ c ∷ bs) = last_unused remainder (c ∷ bs)

unfoldable pub is_valid : PieceAvailability → Bool
unfolding last_unused
is_valid a =
    length a.bits == byte_count a.chunk_count
    && (a.chunk_count % 8 == 0 || last_unused (a.chunk_count % 8) a.bits)

-- The test of one bit. An index out of range panics in the source.
unfoldable pub test_bit : Bytes → ℕ → Bool
test_bit bits i = elim (get_elem? bits (i / 8)) [
  | none ↦ false
  | some b ↦ not (bit_and b (2 ^ (i % 8)) == 0)
]

unfoldable pub contains : PieceAvailability → ℕ → Bool
unfolding is_valid test_bit
contains a i = is_valid a && (ltb i a.chunk_count && test_bit a.bits i)

unfoldable pub mask_last : ℕ → Bytes → Bytes
mask_last remainder [] = []
mask_last remainder (b ∷ []) = bit_and b (used_mask remainder) ∷ []
mask_last remainder (b ∷ c ∷ bs) = b ∷ mask_last remainder (c ∷ bs)

unfoldable pub clear_unused_bits : PieceAvailability → PieceAvailability
unfolding mask_last
clear_unused_bits a =
    if a.chunk_count % 8 == 0 then a else record a { bits = mask_last (a.chunk_count % 8) a.bits }

unfoldable pub full : ℕ → PieceAvailability
unfolding clear_unused_bits
full n = clear_unused_bits (record { chunk_count = n; bits = replicate (byte_count n) 0xff })

unfoldable pub set_bit : Bytes → ℕ → Bytes
set_bit bits i = elim (get_elem? bits (i / 8)) [
  | none ↦ bits
  | some b ↦ set bits (i / 8) (bit_or b (2 ^ (i % 8)))
]

-- The loop of `from_indices`; an index past the end is passed over.
unfoldable pub set_bits : ℕ → Bytes → List ℕ → Bytes
unfolding set_bit
set_bits n bits [] = bits
set_bits n bits (i ∷ is) = set_bits n (if ltb i n then set_bit bits i else bits) is

unfoldable pub from_indices : ℕ → List ℕ → PieceAvailability
unfolding set_bits
from_indices n is = record { chunk_count = n; bits = set_bits n (replicate (byte_count n) 0) is }
