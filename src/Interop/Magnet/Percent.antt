-- ===== src/Interop/Magnet/Percent.antt =====
-- `percent_decode` and `hex_digit`, and the texts that spell a string.
use triptorrent.Base.{
  ℕ, ◌+◌, ◌-◌, ◌*◌, ◌%◌, ◌^◌, ◌<◌, ◌≡◌, ◌≢◌, ◌↔◌, inl, inr, refl, sym, ap, ◌∙◌, subst, true, false,
  ◌&&◌, [], ◌∷◌, bit_or, leb, ◌==◌, if◌then◌else◌, Result, ok, err, guard, ◌>>=◌, ◌>>◌, arith,
  Bool-cases, >>=-eq-ok, ok-injective, guard-eq-ok,
}
use triptorrent.Base.Bytes.{Bytes}
use triptorrent.Base.Bits.{bit_or-add}
use triptorrent.Base.Utf8.{is_utf8}
use triptorrent.Interop.Magnet.{MagnetError, encoding}

unfoldable pub hex_digit : ℕ → Result MagnetError ℕ
hex_digit value =
    if leb b'0' value && leb value b'9'
    then ok (value - b'0')
    else if leb b'a' value && leb value b'f'
    then ok (value - b'a' + 10)
    else if leb b'A' value && leb value b'F'
    then ok (value - b'A' + 10)
    else err encoding

-- The loop, from an index on; `decode_escape` is its branch behind a `%`.
unfoldable mutual
  unfolding hex_digit

  pub decode_bytes : Bytes → Result MagnetError Bytes
  decode_bytes [] = ok []
  decode_bytes (b ∷ rest) = elim (b == b'%') [
    | true ↦ decode_escape rest
    | false ↦ decode_bytes rest >>= λ decoded. ok (b ∷ decoded)
  ]

  pub decode_escape : Bytes → Result MagnetError Bytes
  decode_escape [] = err encoding
  decode_escape (high ∷ []) = err encoding
  decode_escape (high ∷ low ∷ rest) = do
    upper ← hex_digit high
    lower ← hex_digit low
    decoded ← decode_bytes rest
    ok (bit_or (upper * 2 ^ 4 % 2 ^ 8) lower ∷ decoded)

unfoldable pub percent_decode : Bytes → Result MagnetError Bytes
unfolding decode_bytes
percent_decode value = do decoded ← decode_bytes value; guard (is_utf8 decoded) encoding; ok decoded

-- The texts that spell a string of bytes: a byte stands for itself, or is two digits behind a `%`.
pub data Spells : Bytes → Bytes → Type 0 where
  done : Spells [] []
  plain : (b : ℕ) {text out : Bytes} → b ≢ b'%' → Spells text out → Spells (b ∷ text) (b ∷ out)
  escaped :
      (high low upper lower : ℕ) {text out : Bytes}
      → hex_digit high ≡ ok upper
      → hex_digit low ≡ ok lower
      → Spells text out
      → Spells (b'%' ∷ high ∷ low ∷ text) ((upper * 16 + lower) ∷ out)

hex_digit-small : (c d : ℕ) → hex_digit c ≡ ok d → d < 16
unfolding hex_digit
hex_digit-small c d h = ground arith

both_digits :
    (high low upper lower : ℕ)
    → hex_digit high ≡ ok upper
    → hex_digit low ≡ ok lower
    → bit_or (upper * 2 ^ 4 % 2 ^ 8) lower ≡ upper * 16 + lower
both_digits high low upper lower h k =
    let bound = hex_digit-small high upper h in
    let exact : upper * 2 ^ 4 % 2 ^ 8 ≡ upper * 2 ^ 4 = omega arith in
    rw exact (bit_or-add 4 upper lower (hex_digit-small low lower k))

decode_bytes-escape :
    (b : ℕ) (rest : Bytes) → (b == b'%') ≡ true → decode_bytes (b ∷ rest) ≡ decode_escape rest
unfolding decode_bytes
decode_bytes-escape b rest h =
    ap
      (λ t. elim t [
        | true ↦ decode_escape rest
        | false ↦ decode_bytes rest >>= λ decoded. ok (b ∷ decoded)
      ])
      h

decode_bytes-itself :
    (b : ℕ) (rest : Bytes)
    → (b == b'%') ≡ false
    → decode_bytes (b ∷ rest) ≡ (decode_bytes rest >>= λ decoded. ok (b ∷ decoded))
unfolding decode_bytes
decode_bytes-itself b rest h =
    ap
      (λ t. elim t [
        | true ↦ decode_escape rest
        | false ↦ decode_bytes rest >>= λ decoded. ok (b ∷ decoded)
      ])
      h

mutual
  unfolding decode_bytes

  decode_bytes-Spells : (text out : Bytes) → decode_bytes text ≡ ok out → Spells text out
  decode_bytes-Spells [] out h = subst (Spells []) (ok-injective h) done
  decode_bytes-Spells (b ∷ rest) out h = elim (Bool-cases (b == b'%')) [
    | inl escape ↦
        let is_escape : b'%' ≡ b = ground arith in
        subst (λ c. Spells (c ∷ rest) out) is_escape
          (decode_escape-Spells rest out (sym (decode_bytes-escape b rest escape) ∙ h))
    | inr itself ↦
        let (decoded, rest_is, h₁) =
          >>=-eq-ok (decode_bytes rest) (λ decoded. ok (b ∷ decoded))
            (sym (decode_bytes-itself b rest itself) ∙ h) in
        subst (Spells (b ∷ rest)) (ok-injective h₁)
          (plain b (ground arith) (decode_bytes-Spells rest decoded rest_is))
  ]

  decode_escape-Spells : (text out : Bytes) → decode_escape text ≡ ok out → Spells (b'%' ∷ text) out
  decode_escape-Spells [] out h = cc
  decode_escape-Spells (high ∷ []) out h = cc
  decode_escape-Spells (high ∷ low ∷ rest) out h =
      let (upper, high_is, h₁) = >>=-eq-ok (hex_digit high) _ h in
      let (lower, low_is, h₂) = >>=-eq-ok (hex_digit low) _ h₁ in
      let (decoded, rest_is, h₃) = >>=-eq-ok (decode_bytes rest) _ h₂ in
      let spelled =
        escaped high low upper lower high_is low_is (decode_bytes-Spells rest decoded rest_is) in
      subst (Spells (b'%' ∷ high ∷ low ∷ rest))
        (ap (λ c. c ∷ decoded) (sym (both_digits high low upper lower high_is low_is))
          ∙ ok-injective h₃)
        spelled

Spells-decode_bytes : {text out : Bytes} → Spells text out → decode_bytes text ≡ ok out
unfolding decode_bytes
Spells-decode_bytes done = refl
Spells-decode_bytes (plain b {text = text} {out = out} other s) =
    let itself : (b == b'%') ≡ false = ground arith in
    decode_bytes-itself b text itself
    ∙ ap (λ r. r >>= λ decoded. ok (b ∷ decoded)) (Spells-decode_bytes s)
Spells-decode_bytes (escaped high low upper lower h k s) =
    rw (h, k, Spells-decode_bytes s, both_digits high low upper lower h k) refl

-- `percent_decode` returns a string exactly when the text spells it, with every `%` in front of two
-- hexadecimal digits, and its bytes are UTF-8.
pub percent_decode-Spells :
    (text out : Bytes) → percent_decode text ≡ ok out ↔ Spells text out × (is_utf8 out ≡ true)
unfolding percent_decode
percent_decode-Spells text out = (forth, back)
  where
    forth : percent_decode text ≡ ok out → Spells text out × (is_utf8 out ≡ true)
    forth h =
        let (decoded, read, h₁) = >>=-eq-ok (decode_bytes text) _ h in
        let (valid, h₂) = guard-eq-ok (is_utf8 decoded) encoding h₁ in
        let same : decoded ≡ out = ok-injective h₂ in
        (
          subst (Spells text) same (decode_bytes-Spells text decoded read),
          subst (λ d. is_utf8 d ≡ true) same valid,
        )

    back : Spells text out × (is_utf8 out ≡ true) → percent_decode text ≡ ok out
    back (spelled, valid) = rw (Spells-decode_bytes spelled, valid) refl
