-- ===== src/Base/Bytes.antt =====
-- Byte strings as lists of numbers: equality, order, and big-endian words (`to_be_bytes`).
use Prim.Native.Nat.{ℕ, zero, suc, ◌+◌, ◌*◌, ◌/◌, ◌%◌, ◌^◌, ◌<◌}
use mathlib.Core.Path.{◌≡◌, refl, subst}
use mathlib.Core.Bool.{Bool, true, false, ◌&&◌}
use mathlib.Core.List.{List, [], ◌∷◌, ◌++◌}
use native.Mathlib.Omega.{arith}
use native.Mathlib.Nat.{pow-suc}
use triptorrent.Base.Tests.{◌==◌}
use triptorrent.Base.Lists.{length, take, drop, length-append, take_length, drop_length}

abbrev pub Bytes : Type 0
Bytes = List ℕ

abbrev pub IsByte : ℕ → Type 0
IsByte b = b < 256

unfoldable pub bytes_eq : Bytes → Bytes → Bool
bytes_eq [] [] = true
bytes_eq [] (y ∷ ys) = false
bytes_eq (x ∷ xs) [] = false
bytes_eq (x ∷ xs) (y ∷ ys) = x == y && bytes_eq xs ys

pub bytes_eq-eq : (xs ys : Bytes) → bytes_eq xs ys ≡ true → xs ≡ ys
unfolding bytes_eq
bytes_eq-eq [] [] h = refl
bytes_eq-eq [] (y ∷ ys) h = cc
bytes_eq-eq (x ∷ xs) [] h = cc
bytes_eq-eq (x ∷ xs) (y ∷ ys) h = ground (arith, bytes_eq-eq xs ys)

pub bytes_eq_refl : (xs : Bytes) → bytes_eq xs xs ≡ true
unfolding bytes_eq
bytes_eq_refl [] = refl
bytes_eq_refl (x ∷ xs) = ground (arith, bytes_eq_refl xs)

-- The big-endian encoding of `n` in `k` bytes, and back.
unfoldable pub be : ℕ → ℕ → Bytes
be zero n = []
be (suc k) n = be k (n / 256) ++ (n % 256) ∷ []

unfoldable pub from_be : ℕ → Bytes → ℕ
from_be acc [] = acc
from_be acc (b ∷ bs) = from_be (acc * 256 + b) bs

pub length-be : (k n : ℕ) → length (be k n) ≡ k
unfolding be
length-be zero n = refl
length-be (suc k) n =
    omega (arith, length-append (be k (n / 256)) ((n % 256) ∷ []), length-be k (n / 256))

pub from_be-append :
    (acc x : ℕ) (xs : Bytes) → from_be acc (xs ++ x ∷ []) ≡ from_be acc xs * 256 + x
unfolding from_be
from_be-append acc x [] = refl
from_be-append acc x (y ∷ ys) = from_be-append (acc * 256 + y) x ys

pub from_be-be : (k n : ℕ) → n < 256 ^ k → from_be 0 (be k n) ≡ n
unfolding be
from_be-be zero n h = unfold from_be in omega arith
from_be-be (suc k) n h = omega (
  arith,
  pow-suc 256 k,
  from_be-append 0 (n % 256) (be k (n / 256)),
  from_be-be k (n / 256) (omega (arith, pow-suc 256 k)),
)

pub be_one : (n : ℕ) → n < 256 → be 1 n ≡ n ∷ []
unfolding be
be_one n h = let same : n % 256 ≡ n = omega arith in rw same

-- A word in front of other bytes is what the first `k` bytes are.
pub take-be : (k n : ℕ) (xs : Bytes) → take k (be k n ++ xs) ≡ be k n
take-be k n xs =
    subst (λ j. take j (be k n ++ xs) ≡ be k n) (length-be k n) (take_length (be k n) xs)

pub drop-be : (k n : ℕ) (xs : Bytes) → drop k (be k n ++ xs) ≡ xs
drop-be k n xs = subst (λ j. drop j (be k n ++ xs) ≡ xs) (length-be k n) (drop_length (be k n) xs)
