-- ===== src/Base/Bits.antt =====
-- Words put together from disjoint fields by `|`, and cut with a mask of low bits by `&`.
use Prim.Native.Nat.{
  ℕ, zero, suc, ◌+◌, ◌-◌, ◌*◌, ◌/◌, ◌%◌, ◌^◌, ◌≤◌, ◌<◌, min, max, bit_and, bit_or, digits,
  bit_and-bitwise, bit_or-bitwise,
}
use mathlib.Core.Path.{◌≡◌, refl, sym, ap, ◌∙◌}
use native.Mathlib.Omega.{arith}
use native.Mathlib.Nat.{pow-suc, one-le-pow}

module _ (z : ℕ → ℕ) (f : ℕ → ℕ → ℕ) where
  no_rounds : (i b : ℕ) → digits z f i zero b ≡ z b
  no_rounds zero b = refl
  no_rounds (suc i) b = refl

  -- More rounds than the first word needs change nothing.
  rounds : (k n a b : ℕ) → a ≤ n → digits z f (n + k) a b ≡ digits z f n a b
  rounds k zero zero b h = no_rounds (0 + k) b
  rounds k zero (suc a) b h = absurd (omega arith)
  rounds k (suc n) zero b h = no_rounds (suc n + k) b
  rounds k (suc n) (suc a) b h =
      let shift : suc n + k ≡ suc (n + k) = omega arith in
      ap (λ i. digits z f i (suc a) b) shift
      ∙ ap (λ d. d * 2 + f (suc a % 2) (b % 2)) (rounds k n (suc a / 2) (b / 2) (omega arith))

  lowest :
      (a b : ℕ)
      → digits z f (suc a) (suc a) b
        ≡ digits z f (suc a / 2) (suc a / 2) (b / 2) * 2 + f (suc a % 2) (b % 2)
  lowest a b =
      let n = suc a / 2 in
      let enough : n + (a - n) ≡ a = omega arith in
      let more : digits z f a n (b / 2) ≡ digits z f n n (b / 2) =
        ap (λ i. digits z f i n (b / 2)) (sym enough) ∙ rounds (a - n) n n (b / 2) (omega arith) in
      ap (λ d. d * 2 + f (suc a % 2) (b % 2)) more

bit_or-lowest : (a b : ℕ) → bit_or a b ≡ bit_or (a / 2) (b / 2) * 2 + max (a % 2) (b % 2)
bit_or-lowest zero b = simp bit_or-bitwise (omega arith)
bit_or-lowest (suc a) b = simp bit_or-bitwise (lowest (λ d. d) max a b)

bit_and-lowest : (a b : ℕ) → bit_and a b ≡ bit_and (a / 2) (b / 2) * 2 + min (a % 2) (b % 2)
bit_and-lowest zero b = simp bit_and-bitwise (omega arith)
bit_and-lowest (suc a) b = simp bit_and-bitwise (lowest (λ d. 0) min a b)

-- Enough halvings of a word leave nothing: the other word is as it was, or gone.
bit_or-none : (n a : ℕ) → a ≤ n → bit_or a 0 ≡ a
bit_or-none n zero h = refl
bit_or-none zero (suc a) h = absurd (omega arith)
bit_or-none (suc n) (suc a) h =
    omega (arith, bit_or-lowest (suc a) 0, bit_or-none n (suc a / 2) (omega arith))

bit_and-none : (n a : ℕ) → a ≤ n → bit_and a 0 ≡ 0
bit_and-none n zero h = refl
bit_and-none zero (suc a) h = absurd (omega arith)
bit_and-none (suc n) (suc a) h =
    omega (arith, bit_and-lowest (suc a) 0, bit_and-none n (suc a / 2) (omega arith))

double : (q k : ℕ) → q * 2 ^ suc k ≡ 2 * (q * 2 ^ k)
double q k = omega (arith, ap (λ p. q * p) (pow-suc 2 k))

halved : (q k : ℕ) → q * 2 ^ suc k / 2 ≡ q * 2 ^ k
halved q k = omega (arith, double q k)

-- A field of `k` bits below another word.
pub bit_or-add : (k q r : ℕ) → r < 2 ^ k → bit_or (q * 2 ^ k) r ≡ q * 2 ^ k + r
bit_or-add zero q r h = ground (arith, bit_or-none q q)
bit_or-add (suc k) q r h =
    let half : bit_or (q * 2 ^ suc k / 2) (r / 2) ≡ q * 2 ^ k + r / 2 =
      ap (λ w. bit_or w (r / 2)) (halved q k)
      ∙ bit_or-add k q (r / 2) (omega (arith, pow-suc 2 k)) in
    omega (arith, bit_or-lowest (q * 2 ^ suc k) r, double q k, half)

below_mask : (k q r : ℕ) → r < 2 ^ k → bit_and (q * 2 ^ k + r) (2 ^ k - 1) ≡ r
below_mask zero q r h = ground (arith, bit_and-none q q)
below_mask (suc k) q r h =
    let word : (q * 2 ^ suc k + r) / 2 ≡ q * 2 ^ k + r / 2 = omega (arith, double q k) in
    let mask : (2 ^ suc k - 1) / 2 ≡ 2 ^ k - 1 = omega (arith, pow-suc 2 k, one-le-pow k 2) in
    let half : bit_and ((q * 2 ^ suc k + r) / 2) ((2 ^ suc k - 1) / 2) ≡ r / 2 =
      rw (word, mask) (below_mask k q (r / 2) (omega (arith, pow-suc 2 k))) in
    omega (
      arith,
      bit_and-lowest (q * 2 ^ suc k + r) (2 ^ suc k - 1),
      double q k,
      pow-suc 2 k,
      one-le-pow k 2,
      half,
    )

-- The mask of the `k` lowest bits keeps the remainder by `2 ^ k`.
pub bit_and-mod : (k a : ℕ) → bit_and a (2 ^ k - 1) ≡ a % 2 ^ k
bit_and-mod k a = ground (arith, one-le-pow k 2, below_mask k (a / 2 ^ k) (a % 2 ^ k))
