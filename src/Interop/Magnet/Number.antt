-- ===== src/Interop/Magnet/Number.antt =====
-- `decode_base32` against the number that the symbols spell in base 32.
use triptorrent.Base.{
  ℕ, zero, suc, ◌+◌, ◌-◌, ◌*◌, ◌/◌, ◌%◌, ◌^◌, ◌<◌, ◌≡◌, refl, sym, ap, ◌∙◌, subst, Bool, true,
  false, not, ◌&&◌, [], ◌∷◌, ◌++◌, Option, none, some, bit_or, length, leb, ◌==◌, if◌then◌else◌, ok,
  ok_or, arith, length-append, >>=-eq-ok, ok-injective, ok_or-eq-ok, guard-eq-ok,
}
use triptorrent.Base.Bytes.{Bytes, from_be, from_be-append}
use triptorrent.Base.Bits.{bit_or-add, bit_and-mod}
use native.Mathlib.Nat.{
  pow-suc, one-le-pow, pow-le-pow_right, mod-eq_of_lt, mod-lt, div-add-mod', div-lt_iff_lt-mul,
  mul-add-mod_self_right, mul-mod_left, mul-div_cancel,
}
use triptorrent.Interop.Magnet.{invalid_exact_topic}
use triptorrent.Interop.Magnet.Base32.{
  Base32, empty, symbol_of, push_symbol, decode_symbols, decode_base32,
}

-- The number that `k` symbols spell is in the state: the bytes, then the bits left over.
record Holds (n k : ℕ) (s : Base32) : Type 0 where
  spelled : n ≡ from_be 0 s.decoded * 2 ^ s.bits + s.accumulator
  fits : s.accumulator < 2 ^ s.bits
  few : s.bits < 8
  width : 5 * k ≡ 8 * length s.decoded + s.bits

-- A word of less than 8 bits and another symbol.
word :
    (acc bits d : ℕ)
    → acc < 2 ^ bits
    → bits < 8
    → d < 32
    → bit_or (acc * 2 ^ 5 % 2 ^ 32) d ≡ acc * 32 + d
word acc bits d small few h =
    let bound : acc < 128 =
      omega (arith, pow-le-pow_right {n = 2} (omega arith) {i = bits} {j = 7} (omega arith)) in
    let exact : acc * 2 ^ 5 % 2 ^ 32 ≡ acc * 2 ^ 5 = omega arith in rw exact (bit_or-add 5 acc d h)

-- A byte cut off a word.
cut :
    (f acc d p : ℕ)
    → acc < p * 8
    → d < 32
    → 0 < p
    → (f * (p * 8) + acc) * 32 + d ≡ (f * 256 + (acc * 32 + d) / p % 256) * p + (acc * 32 + d) % p
cut f acc d p small h positive =
    let w = acc * 32 + d in
    let narrow : w / p < 256 = (div-lt_iff_lt-mul positive).1 (omega arith) in
    rw (mod-eq_of_lt narrow) (omega (arith, div-add-mod' w p))

-- Three more bits.
shifted : (b : ℕ) → 2 ^ suc (suc (suc b)) ≡ 2 ^ b * 8
shifted b = omega (arith, pow-suc 2 (suc (suc b)), pow-suc 2 (suc b), pow-suc 2 b)

five_more : (b : ℕ) → 2 ^ (b + 5) ≡ 2 ^ b * 32
five_more b =
    let same : b + 5 ≡ suc (suc (suc (suc (suc b)))) = omega arith in
    ap (λ i. 2 ^ i) same ∙ omega (arith, shifted (suc (suc b)), pow-suc 2 (suc b), pow-suc 2 b)

Holds-if :
    {n k : ℕ} {x y : Base32} (t : Bool)
    → (t ≡ true → Holds n k x)
    → (t ≡ false → Holds n k y)
    → Holds n k (if t then x else y)
Holds-if true yes_case no_case = yes_case refl
Holds-if false yes_case no_case = no_case refl

byte_out :
    (n k d acc b : ℕ) (out : Bytes)
    → Holds n k (record { accumulator = acc; bits = suc (suc (suc b)); decoded = out })
    → d < 32
    → Holds (n * 32 + d) (k + 1) (record {
      accumulator = (acc * 32 + d) % 2 ^ b;
      bits = b;
      decoded = out ++ ((acc * 32 + d) / 2 ^ b % 256) ∷ [];
    })
byte_out n k d acc b out h small =
    let positive : 0 < 2 ^ b = one-le-pow b 2 (omega arith) in
    let w = acc * 32 + d in
    record {
      spelled =
          rw (h.spelled, shifted b, from_be-append 0 (w / 2 ^ b % 256) out)
            (cut (from_be 0 out) acc d (2 ^ b) (omega (arith, h.fits, shifted b)) small positive);
      fits = mod-lt w positive;
      few = omega (arith, h.few);
      width = omega (arith, h.width, length-append out ((w / 2 ^ b % 256) ∷ []));
    }

more_bits :
    (n k d acc bits : ℕ) (out : Bytes)
    → Holds n k (record { accumulator = acc; bits = bits; decoded = out })
    → d < 32
    → bits + 5 < 8
    → Holds
        (n * 32 + d)
        (k + 1)
        (record { accumulator = acc * 32 + d; bits = bits + 5; decoded = out })
more_bits n k d acc bits out h small few = record {
  spelled = rw (h.spelled, five_more bits) (omega arith);
  fits = omega (arith, h.fits, five_more bits);
  few = few;
  width = omega (arith, h.width);
}

push_symbol-Holds :
    (n k d : ℕ) (s : Base32) → Holds n k s → d < 32 → Holds (n * 32 + d) (k + 1) (push_symbol s d)
unfolding push_symbol
push_symbol-Holds n k d s h small =
    let b = s.bits + 5 - 8 in
    rw (word s.accumulator s.bits d h.fits h.few small, bit_and-mod b (s.accumulator * 32 + d))
      (Holds-if (leb 8 (s.bits + 5))
        (λ full.
          let same : s.bits ≡ suc (suc (suc b)) = ground arith in
          byte_out n k d s.accumulator b s.decoded
            (subst
              (λ i.
                Holds n k (record { accumulator = s.accumulator; bits = i; decoded = s.decoded }))
              same h)
            small)
        (λ more. more_bits n k d s.accumulator s.bits s.decoded h small (ground arith)))

-- The value of a symbol, and the number that a text of symbols spells behind `n`.
abbrev pub digit : Option ℕ → ℕ
digit none = 0
digit (some d) = d

unfoldable pub number : ℕ → Bytes → ℕ
unfolding symbol_of
number n [] = n
number n (c ∷ cs) = number (n * 32 + digit (symbol_of c)) cs

abbrev pub IsSymbol : ℕ → Type 0
IsSymbol c = (d : ℕ) × (symbol_of c ≡ some d)

abbrev pub Symbols : Bytes → Type 0
Symbols [] = Unit
Symbols (c ∷ cs) = IsSymbol c × Symbols cs

symbol-small : (c d : ℕ) → symbol_of c ≡ some d → d < 32
unfolding symbol_of
symbol-small c d h = ground arith

decode_symbols-Holds :
    (n k : ℕ) (s out : Base32) (text : Bytes)
    → Holds n k s
    → decode_symbols s text ≡ ok out
    → Symbols text × Holds (number n text) (k + length text) out
unfolding decode_symbols number
decode_symbols-Holds n k s out [] h e =
    (tt, subst (Holds n (k + 0)) (ok-injective e) (subst (λ i. Holds n i s) (omega arith) h))
decode_symbols-Holds n k s out (c ∷ cs) h e =
    let (d, found, e₁) =
      >>=-eq-ok (ok_or (symbol_of c) invalid_exact_topic) (λ d. decode_symbols (push_symbol s d) cs)
        e in
    let is_symbol = ok_or-eq-ok (symbol_of c) invalid_exact_topic found in
    let (symbols, holds) =
      decode_symbols-Holds (n * 32 + d) (k + 1) (push_symbol s d) out cs
        (push_symbol-Holds n k d s h (symbol-small c d is_symbol)) e₁ in
    (
      ((d, is_symbol), symbols),
      rw is_symbol (subst (λ i. Holds (number (n * 32 + d) cs) i out) (omega arith) holds),
    )

-- A text of symbols is read to its end.
decode_symbols_total :
    (s : Base32) (text : Bytes) → Symbols text → (out : Base32) × (decode_symbols s text ≡ ok out)
unfolding decode_symbols
decode_symbols_total s [] h = (s, refl)
decode_symbols_total s (c ∷ cs) ((d, is_symbol), rest) =
    rw is_symbol (decode_symbols_total (push_symbol s d) cs rest)

-- What the text and the bytes are to each other: `spare` bits of the last symbol are zero.
abbrev pub Decodes : Bytes → Bytes → Type 0
Decodes text out =
    Symbols text
    × (spare : ℕ) × (spare < 8)
    × (5 * length text ≡ 8 * length out + spare)
    × (number 0 text ≡ from_be 0 out * 2 ^ spare)

empty-Holds : Holds 0 0 empty
unfolding from_be
empty-Holds = record { spelled = refl; fits = omega arith; few = omega arith; width = refl }

nothing_left :
    (acc bits : ℕ) → acc < 2 ^ bits → not (not (bits == 0) && not (acc == 0)) ≡ true → acc ≡ 0
nothing_left acc zero h test = omega arith
nothing_left acc (suc bits) h test = ground arith

-- The bytes that `decode_base32` returns for a text of symbols spell the number that the symbols
-- spell, but for fewer than eight spare bits at its end, which are zero.
pub decode_base32_sound : (text out : Bytes) → decode_base32 text ≡ ok out → Decodes text out
unfolding decode_base32
decode_base32_sound text out h =
    let (s, read, h₁) = >>=-eq-ok (decode_symbols empty text) _ h in
    let (test, h₂) = guard-eq-ok _ invalid_exact_topic h₁ in
    let (symbols, holds) = decode_symbols-Holds 0 0 empty s text empty-Holds read in
    let same : s.decoded ≡ out = ok-injective h₂ in
    let gone : s.accumulator ≡ 0 = nothing_left s.accumulator s.bits holds.fits test in
    (
      symbols,
      s.bits,
      holds.few,
      rw (sym same) (omega (arith, holds.width)),
      rw (sym same) (omega (arith, holds.spelled, gone)),
    )

whole_bytes : (f m acc p : ℕ) → 0 < p → f * p + acc ≡ m * p → acc < p → (acc ≡ 0) × (f ≡ m)
whole_bytes f m acc p positive h small =
    let gone : acc ≡ 0 =
      sym (mod-eq_of_lt small)
      ∙ sym (mul-add-mod_self_right f p acc)
      ∙ ap (λ i. i % p) h
      ∙ mul-mod_left m p in
    let same : f * p ≡ m * p = omega (arith, gone, h) in
    (gone, sym (mul-div_cancel f positive) ∙ ap (λ i. i / p) same ∙ mul-div_cancel m positive)

-- A text of symbols whose number ends in `spare` zero bits, fewer than eight, which fill up the
-- last byte's symbols, is decoded to the `k` bytes of the rest of the number.
pub decode_base32_complete :
    (text : Bytes) (k m spare : ℕ)
    → Symbols text
    → spare < 8
    → 5 * length text ≡ 8 * k + spare
    → number 0 text ≡ m * 2 ^ spare
    → (out : Bytes) × (decode_base32 text ≡ ok out) × (length out ≡ k) × (from_be 0 out ≡ m)
unfolding decode_base32
decode_base32_complete text k m spare symbols few width spelled =
    let (s, read) = decode_symbols_total empty text symbols in
    let (_, holds) = decode_symbols-Holds 0 0 empty s text empty-Holds read in
    let bits_same : s.bits ≡ spare = omega (arith, holds.width, holds.few) in
    let (gone, same) =
      whole_bytes (from_be 0 s.decoded) m s.accumulator (2 ^ s.bits)
        (one-le-pow s.bits 2 (omega arith))
        (sym holds.spelled ∙ spelled ∙ ap (λ i. m * 2 ^ i) (sym bits_same)) holds.fits in
    let passes : not (not (s.bits == 0) && not (s.accumulator == 0)) ≡ true = ground arith in
    (s.decoded, rw (read, passes) refl, omega (arith, holds.width, holds.few), same)
