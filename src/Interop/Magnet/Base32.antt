-- ===== src/Interop/Magnet/Base32.antt =====
-- `decode_base32`, a loop that keeps the bits that do not fill a byte yet.
use triptorrent.Base.{
  ℕ, ◌+◌, ◌-◌, ◌*◌, ◌/◌, ◌%◌, ◌^◌, not, ◌&&◌, [], ◌∷◌, ◌++◌, Option, none, some, bit_and, bit_or,
  leb, ◌==◌, if◌then◌else◌, Result, ok, guard, ok_or, ◌>>=◌, ◌>>◌,
}
use triptorrent.Base.Bytes.{Bytes}
use triptorrent.Interop.Magnet.{MagnetError, invalid_exact_topic}

pub record Base32 : Type 0 where
  pub accumulator : ℕ
  pub bits : ℕ
  pub decoded : Bytes

abbrev pub empty : Base32
empty = record { accumulator = 0; bits = 0; decoded = [] }

unfoldable pub symbol_of : ℕ → Option ℕ
symbol_of byte =
    if leb b'a' byte && leb byte b'z'
    then some (byte - b'a')
    else if leb b'2' byte && leb byte b'7'
    then some (byte - b'2' + 26)
    else none

-- One round of the loop, with its symbol.
unfoldable pub push_symbol : Base32 → ℕ → Base32
push_symbol s symbol =
    let accumulator = bit_or (s.accumulator * 2 ^ 5 % 2 ^ 32) symbol in
    let bits = s.bits + 5 in
    if leb 8 bits
    then record {
      accumulator = bit_and accumulator (2 ^ (bits - 8) - 1);
      bits = bits - 8;
      decoded = s.decoded ++ (accumulator / 2 ^ (bits - 8) % 256) ∷ [];
    }
    else record { accumulator = accumulator; bits = bits; decoded = s.decoded }

unfoldable pub decode_symbols : Base32 → Bytes → Result MagnetError Base32
unfolding symbol_of push_symbol
decode_symbols s [] = ok s
decode_symbols s (byte ∷ rest) = do
  symbol ← ok_or (symbol_of byte) invalid_exact_topic
  decode_symbols (push_symbol s symbol) rest

unfoldable pub decode_base32 : Bytes → Result MagnetError Bytes
unfolding decode_symbols
decode_base32 value = do
  s ← decode_symbols empty value
  guard (not (not (s.bits == 0) && not (s.accumulator == 0))) invalid_exact_topic
  ok s.decoded
