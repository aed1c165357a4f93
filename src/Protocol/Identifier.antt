-- ===== src/Protocol/Identifier.antt =====
-- `valid_identifier` and its alphabet: ASCII letters, digits, '-' and '_'.
use triptorrent.Base.{
  ℕ, [], ◌∷◌, Bool, true, false, not, ◌&&◌, ◌||◌, length, all, leb, ltb, ◌==◌, ◌≡◌, arith, All, ◌<◌,
  ◌≤◌,
}
use triptorrent.Base.Bytes.{Bytes}
use triptorrent.Base.Utf8.{is_utf8, is_utf8-ascii}

-- `byte.is_ascii_alphanumeric() || matches!(byte, b'-' | b'_')`
unfoldable pub is_identifier_byte : ℕ → Bool
is_identifier_byte b =
    leb b'0' b && leb b b'9'
    || (leb b'A' b && leb b b'Z' || (leb b'a' b && leb b b'z' || (b == b'-' || b == b'_')))

unfoldable pub is_empty : Bytes → Bool
is_empty [] = true
is_empty (b ∷ bs) = false

unfoldable pub valid_identifier : Bytes → ℕ → Bool
unfolding is_identifier_byte is_empty
valid_identifier value maximum =
    not (is_empty value) && (not (ltb maximum (length value)) && all is_identifier_byte value)

pub identifier_ascii : (bs : Bytes) → all is_identifier_byte bs ≡ true → All (λ b. b < 0x80) bs
unfolding is_identifier_byte
identifier_ascii [] h = tt
identifier_ascii (b ∷ bs) h = (ground arith, identifier_ascii bs (ground arith))

-- An identifier is well-formed UTF-8.
pub valid_identifier-utf8 :
    (bs : Bytes) (maximum : ℕ) → valid_identifier bs maximum ≡ true → is_utf8 bs ≡ true
unfolding valid_identifier
valid_identifier-utf8 bs maximum h = is_utf8-ascii bs (identifier_ascii bs (ground arith))

pub valid_identifier-length :
    (bs : Bytes) (maximum : ℕ) → valid_identifier bs maximum ≡ true → length bs ≤ maximum
unfolding valid_identifier
valid_identifier-length bs maximum h = ground arith
