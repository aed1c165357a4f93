-- ===== src/Interop/Bencode/Canonical.antt =====
-- The texts of numbers that the parser accepts are the printed forms of their numbers.
use triptorrent.Base.{
  ℕ, zero, suc, ◌<◌, ◌≡◌, ◌≢◌, refl, sym, ap, ◌∙◌, subst, [], ◌∷◌, true, false, some, all, take,
  ◌==◌, arith, Bool-cases, inl, inr,
}
use triptorrent.Base.Bytes.{Bytes}
use triptorrent.Interop.Bencode.{bad_integer, bad_length}
use triptorrent.Interop.Bencode.Decimal.{
  ℤ, pos, is_digit, value, parse_usize, parse_i64, negate, decimal, decimal-value,
}
use triptorrent.Interop.Bencode.Emit.{print_integer}

-- The digits of a canonical length.
pub decimal-canonical : (s : Bytes) → bad_length s ≡ false → decimal (value 0 s) ≡ s
unfolding bad_length
decimal-canonical [] h = cc
decimal-canonical (c ∷ []) h = elim (Bool-cases (c == b'0')) [
  | inl zero_digit ↦ unfold value in unfold decimal in ground arith
  | inr other ↦ (decimal-value c [] (ground arith) (ground arith)).0
]
decimal-canonical (c ∷ d ∷ s) h = (decimal-value c (d ∷ s) (ground arith) (ground arith)).0

pub parse_usize-value : (s : Bytes) (n : ℕ) → parse_usize s ≡ some n → n ≡ value 0 s
unfolding parse_usize
parse_usize-value s n h = ground arith

print-negate : (m : ℕ) → 0 < m → print_integer (negate m) ≡ b'-' ∷ decimal m
print-negate zero h = elim h [ ]
print-negate (suc m) h = refl

-- A canonical text without a sign is that of a length.
unsigned_length :
    (c : ℕ) (s : Bytes)
    → (c == b'-') ≡ false
    → bad_integer (c ∷ s) ≡ false
    → bad_length (c ∷ s) ≡ false
unfolding bad_integer bad_length take is_digit
unsigned_length c [] sign h = ground arith
unsigned_length c (d ∷ s) sign h = ground arith

-- A canonical text with a sign goes on with a digit that is not zero, and digits.
signed_digits :
    (d : ℕ) (s : Bytes)
    → bad_integer (b'-' ∷ d ∷ s) ≡ false
    → (all is_digit (d ∷ s) ≡ true) × (d ≢ b'0')
unfolding bad_integer take
signed_digits d [] h = (ground arith, ground arith)
signed_digits d (c ∷ s) h = (ground arith, ground arith)

parse_i64-signed : (s : Bytes) (z : ℤ) → parse_i64 (b'-' ∷ s) ≡ some z → z ≡ negate (value 0 s)
unfolding parse_i64
parse_i64-signed s z e = ground arith

parse_i64-unsigned :
    (c : ℕ) (s : Bytes) (z : ℤ)
    → (c == b'-') ≡ false
    → parse_i64 (c ∷ s) ≡ some z
    → z ≡ pos (value 0 (c ∷ s))
unfolding parse_i64
parse_i64-unsigned c s z sign e = ground arith

print-signed :
    (s : Bytes) (z : ℤ)
    → bad_integer (b'-' ∷ s) ≡ false
    → parse_i64 (b'-' ∷ s) ≡ some z
    → print_integer z ≡ b'-' ∷ s
unfolding take
print-signed [] z h e = unfold bad_integer in cc
print-signed (d ∷ s) z h e =
    let (digits, nonzero) = signed_digits d s h in
    let (printed, positive) = decimal-value d s digits nonzero in
    ap print_integer (parse_i64-signed (d ∷ s) z e)
    ∙ print-negate (value 0 (d ∷ s)) positive
    ∙ ap (λ r. b'-' ∷ r) printed

-- The text of a canonical integer.
pub print-parse_i64 :
    (s : Bytes) (z : ℤ) → bad_integer s ≡ false → parse_i64 s ≡ some z → print_integer z ≡ s
print-parse_i64 [] z h e = unfold bad_integer in cc
print-parse_i64 (c ∷ s) z h e = elim (Bool-cases (c == b'-')) [
  | inl minus ↦
      let same : c ≡ b'-' = ground arith in
      subst
        (λ b. bad_integer (b ∷ s) ≡ false → parse_i64 (b ∷ s) ≡ some z → print_integer z ≡ b ∷ s)
        (sym same) (print-signed s z) h e
  | inr digit ↦
      ap print_integer (parse_i64-unsigned c s z digit e)
      ∙ decimal-canonical (c ∷ s) (unsigned_length c s digit h)
]
