-- ===== src/Interop/Bencode/Decimal.antt =====
-- Decimal texts: `str::parse` of the digits that the parser has checked, and how they are printed.
use triptorrent.Base.{
  ℕ, zero, suc, ◌+◌, ◌-◌, ◌*◌, ◌/◌, ◌%◌, ◌^◌, ◌≤◌, ◌<◌, ◌≡◌, ◌≢◌, refl, ap, ◌∙◌, [], ◌∷◌, ◌++◌,
  Bool, true, false, ◌&&◌, Option, none, some, all, ltb, leb, ◌==◌, if◌then◌else◌, arith,
  append-nil,
}
use triptorrent.Base.Bytes.{Bytes}

-- `i64`: `negsuc n` is -(n + 1).
pub data ℤ : Type 0 where
  pos : ℕ → ℤ
  negsuc : ℕ → ℤ

unfoldable pub is_digit : ℕ → Bool
is_digit b = leb b'0' b && leb b b'9'

-- The number that digits spell behind `n`.
unfoldable pub value : ℕ → Bytes → ℕ
value n [] = n
value n (c ∷ s) = value (n * 10 + (c - b'0')) s

-- `str::parse::<usize>`, of digits.
unfoldable pub parse_usize : Bytes → Option ℕ
unfolding value
parse_usize s = if ltb (value 0 s) (2 ^ 64) then some (value 0 s) else none

abbrev pub negate : ℕ → ℤ
negate zero = pos zero
negate (suc n) = negsuc n

-- `str::parse::<i64>`, of digits behind an optional sign.
unfoldable pub parse_i64 : Bytes → Option ℤ
unfolding value
parse_i64 [] = none
parse_i64 (c ∷ s) =
    if c == b'-'
    then (if leb (value 0 s) (2 ^ 63) then some (negate (value 0 s)) else none)
    else if ltb (value 0 (c ∷ s)) (2 ^ 63)
    then some (pos (value 0 (c ∷ s)))
    else none

-- The decimal digits of a positive number, in front of `out`; as much fuel as the number suffices.
unfoldable pub digits : ℕ → ℕ → Bytes → Bytes
digits zero n out = out
digits (suc f) n out =
    let more = digits f (n / 10) ((b'0' + n % 10) ∷ out) in if n == 0 then out else more

unfoldable pub decimal : ℕ → Bytes
unfolding digits
decimal n = if n == 0 then b'0' ∷ [] else digits n n []

digits_fuel : (f g n : ℕ) (out : Bytes) → n ≤ f → n ≤ g → digits f n out ≡ digits g n out
unfolding digits
digits_fuel zero zero n out hf hg = refl
digits_fuel zero (suc g) n out hf hg = ground arith
digits_fuel (suc f) zero n out hf hg = ground arith
digits_fuel (suc f) (suc g) n out hf hg =
    ground (arith, digits_fuel f g (n / 10) ((b'0' + n % 10) ∷ out))

digits_step :
    (n c : ℕ) (out : Bytes)
    → 0 < n * 10 + c
    → c < 10
    → digits (n * 10 + c) (n * 10 + c) out ≡ digits n n ((b'0' + c) ∷ out)
unfolding digits
digits_step n c out positive small =
    let m = n * 10 + c in
    let back : m / 10 ≡ n = omega arith in
    let low : m % 10 ≡ c = omega arith in
    let nonzero : (m == 0) ≡ false = ground arith in
    let step : digits (suc (m - 1)) m out ≡ digits (m - 1) n ((b'0' + c) ∷ out) =
      rw (nonzero, back, low) refl in
    let same : suc (m - 1) ≡ m = omega arith in
    digits_fuel m (suc (m - 1)) m out (omega arith) (omega arith)
    ∙ step
    ∙ digits_fuel (m - 1) n n ((b'0' + c) ∷ out) (omega arith) (omega arith)

-- Printing what digits spell behind a positive number gives the number's digits and these.
digits-value :
    (s : Bytes) (n : ℕ) (out : Bytes)
    → 0 < n
    → all is_digit s ≡ true
    → digits (value n s) (value n s) out ≡ digits n n (s ++ out)
unfolding value is_digit
digits-value [] n out positive h = refl
digits-value (c ∷ s) n out positive h =
    let d = c - b'0' in
    let code : b'0' + d ≡ c = ground arith in
    let small : d < 10 = ground arith in
    digits-value s (n * 10 + d) out (omega arith) (ground arith)
    ∙ digits_step n d (s ++ out) (omega arith) small
    ∙ ap (λ b. digits n n (b ∷ (s ++ out))) code

le-value : (s : Bytes) (n : ℕ) → n ≤ value n s
unfolding value
le-value [] n = omega arith
le-value (c ∷ s) n = omega (arith, le-value s (n * 10 + (c - b'0')))

-- The number spelled by digits with no leading zero is printed as these digits.
pub decimal-value :
    (c : ℕ) (s : Bytes)
    → all is_digit (c ∷ s) ≡ true
    → c ≢ b'0'
    → (decimal (value 0 (c ∷ s)) ≡ c ∷ s) × (0 < value 0 (c ∷ s))
unfolding decimal value is_digit
decimal-value c s h nonzero =
    let d = c - b'0' in
    let code : b'0' + d ≡ c = ground arith in
    let small : d < 10 = ground arith in
    let start : 0 * 10 + d ≡ d = omega arith in
    let positive : 0 < 0 * 10 + d = ground arith in
    let large = le-value s (0 * 10 + d) in
    let test : (value (0 * 10 + d) s == 0) ≡ false = ground arith in
    (
      rw test (
          digits-value s (0 * 10 + d) [] positive (ground arith)
          ∙ digits_step 0 d (s ++ []) positive small
          ∙ ap (λ b. b ∷ (s ++ [])) code
          ∙ ap (λ r. c ∷ r) (append-nil s)),
      omega arith,
    )
