-- ===== src/Interop/Merkle/Tree.antt =====
-- The loop on the layers against the Merkle tree of its leaves.
use triptorrent.Base.{
  ℕ, zero, suc, ◌+◌, ◌-◌, ◌*◌, ◌^◌, ◌≤◌, ◌<◌, ◌≡◌, inl, inr, refl, sym, ap, ◌∙◌, List, [], ◌∷◌,
  ◌++◌, true, not, some, length, take, drop, replicate, ltb, leb, ◌==◌, ok, guard, ◌>>◌, arith,
  length-append, length-replicate, length-drop, Bool-cases, take-append-drop, drop-nil,
}
use native.Mathlib.Nat.{pow-suc, one-le-pow}
use triptorrent.Base.Bytes.{Bytes}
use triptorrent.Core.Assembly.{slices}
use triptorrent.Interop.Merkle.{
  empty_file, next_power, next_power_of_two, zero_digest, first_of, pair_up, reduce, leaves, padded,
  v2_file_root,
}

-- The power that is found is the least that is large enough, or short of it.
next_power_found :
    (f k n : ℕ)
    → n ≤ 2 ^ k + f
    → 2 ^ k < 2 * n
    → (d : ℕ) × (next_power f (2 ^ k) n ≡ 2 ^ d) × (n ≤ 2 ^ d) × (2 ^ d < 2 * n)
unfolding next_power
next_power_found zero k n enough small = (k, refl, omega arith, small)
next_power_found (suc f) k n enough small = elim (Bool-cases (leb n (2 ^ k))) [
  | inl large ↦ (k, rw large refl, ground arith, small)
  | inr more ↦
      let positive = one-le-pow k 2 (omega arith) in
      let less : 2 ^ k < n = ground arith in
      let (d, found, bound, least) =
        next_power_found f (suc k) n (omega (arith, pow-suc 2 k, positive))
          (omega (arith, pow-suc 2 k)) in
      (d, rw more (ap (λ p. next_power f p n) (sym (pow-suc 2 k)) ∙ found), bound, least)
]

-- A tree is deeper than a list of its depth is long.
lt-two_pow : (d : ℕ) → d < 2 ^ d
lt-two_pow zero = omega arith
lt-two_pow (suc d) = omega (arith, pow-suc 2 d, lt-two_pow d)

twice : (n : ℕ) → suc n * 2 ≡ suc (suc (n * 2))
twice n = omega arith

length_take : (n : ℕ) (xs : List Bytes) → n ≤ length xs → length (take n xs) ≡ n
length_take n xs h = omega (
  arith,
  ap length (take-append-drop n xs),
  length-append (take n xs) (drop n xs),
  length-drop n xs,
)

module _ (sha256 : Bytes → Bytes) where
  -- The root of the tree of `2 ^ d` leaves: the digest of the roots of its two halves.
  unfoldable pub root : ℕ → List Bytes → Bytes
  root zero [] = []
  root zero (x ∷ xs) = x
  root (suc d) xs = sha256 (root d (take (2 ^ d) xs) ++ root d (drop (2 ^ d) xs))

  take-pair_up :
      (n : ℕ) (xs : List Bytes) → take n (pair_up sha256 xs) ≡ pair_up sha256 (take (n * 2) xs)
  unfolding pair_up take
  take-pair_up zero xs = refl
  take-pair_up (suc n) [] = rw (twice n) refl
  take-pair_up (suc n) (a ∷ []) = rw (twice n) refl
  take-pair_up (suc n) (a ∷ b ∷ xs) =
      rw (twice n) (ap (λ r. sha256 (a ++ b) ∷ r) (take-pair_up n xs))

  drop-pair_up :
      (n : ℕ) (xs : List Bytes) → drop n (pair_up sha256 xs) ≡ pair_up sha256 (drop (n * 2) xs)
  unfolding pair_up drop
  drop-pair_up zero xs = refl
  drop-pair_up (suc n) [] = rw (twice n) refl
  drop-pair_up (suc n) (a ∷ []) = rw (twice n) (sym (ap (pair_up sha256) (drop-nil (suc (n * 2)))))
  drop-pair_up (suc n) (a ∷ b ∷ xs) = rw (twice n) (drop-pair_up n xs)

  length-pair_up : (m : ℕ) (xs : List Bytes) → length xs ≡ m * 2 → length (pair_up sha256 xs) ≡ m
  unfolding pair_up
  length-pair_up zero [] h = refl
  length-pair_up zero (x ∷ xs) h = absurd (omega arith)
  length-pair_up (suc m) [] h = absurd (omega arith)
  length-pair_up (suc m) (a ∷ []) h = absurd (omega arith)
  length-pair_up (suc m) (a ∷ b ∷ xs) h = ap suc (length-pair_up m xs (omega arith))

  -- A layer has the same root as the layer of its pairs.
  root-pair_up :
      (d : ℕ) (xs : List Bytes)
      → length xs ≡ 2 ^ suc d
      → root d (pair_up sha256 xs) ≡ root (suc d) xs
  unfolding root pair_up take drop
  root-pair_up zero [] h = absurd (omega (arith, h))
  root-pair_up zero (a ∷ []) h = absurd (omega (arith, h))
  root-pair_up zero (a ∷ b ∷ []) h = refl
  root-pair_up zero (a ∷ b ∷ c ∷ xs) h = absurd (omega (arith, h))
  root-pair_up (suc d) xs h =
      let outer = pow-suc 2 (suc d) in
      let inner = pow-suc 2 d in
      let left : root d (take (2 ^ d) (pair_up sha256 xs)) ≡ root (suc d) (take (2 ^ suc d) xs) =
        ap (root d) (take-pair_up (2 ^ d) xs)
        ∙ ap (λ k. root d (pair_up sha256 (take k xs))) (sym inner)
        ∙ root-pair_up d (take (2 ^ suc d) xs)
            (length_take (2 ^ suc d) xs (omega (arith, h, outer))) in
      let right : root d (drop (2 ^ d) (pair_up sha256 xs)) ≡ root (suc d) (drop (2 ^ suc d) xs) =
        ap (root d) (drop-pair_up (2 ^ d) xs)
        ∙ ap (λ k. root d (pair_up sha256 (drop k xs))) (sym inner)
        ∙ root-pair_up d (drop (2 ^ suc d) xs)
            (omega (arith, length-drop (2 ^ suc d) xs, h, outer)) in
      ap (λ l. sha256 (l ++ root d (drop (2 ^ d) (pair_up sha256 xs)))) left
      ∙ ap (λ r. sha256 (root (suc d) (take (2 ^ suc d) xs) ++ r)) right

  -- The loop ends with the root alone.
  reduce-root :
      (f d : ℕ) (xs : List Bytes) → length xs ≡ 2 ^ d → d ≤ f → reduce sha256 f xs ≡ root d xs ∷ []
  unfolding reduce root
  reduce-root f zero [] h enough = absurd (omega (arith, h))
  reduce-root zero zero (x ∷ []) h enough = refl
  reduce-root (suc f) zero (x ∷ []) h enough = refl
  reduce-root f zero (x ∷ y ∷ xs) h enough = absurd (omega (arith, h))
  reduce-root zero (suc d) xs h enough = absurd (omega arith)
  reduce-root (suc f) (suc d) xs h enough =
      let large : ltb 1 (length xs) ≡ true =
        ground (arith, h, pow-suc 2 d, one-le-pow d 2 (omega arith)) in
      let half = length-pair_up (2 ^ d) xs (omega (arith, h, pow-suc 2 d)) in
      rw large (
        reduce-root f d (pair_up sha256 xs) half (omega arith)
        ∙ ap (λ r. r ∷ []) (root-pair_up d xs h))

  root_of_blocks :
      (payload : Bytes)
      → not (length payload == 0) ≡ true
      → v2_file_root sha256 payload
        ≡ ok (
            first_of (
              reduce sha256
                (length (padded (leaves sha256 payload)))
                (padded (leaves sha256 payload))))
  unfolding v2_file_root
  root_of_blocks payload h =
      ap
        (λ t.
          guard t empty_file
          >> ok (
              first_of (
                reduce sha256 (length (padded (leaves sha256 payload)))
                  (padded (leaves sha256 payload)))))
        h

  has_leaf : (b : ℕ) (payload : Bytes) → 0 < length (leaves sha256 (b ∷ payload))
  unfolding slices
  has_leaf b payload = omega arith

  -- The root of a payload with a byte in it is that of the tree over the digests of its blocks, which
  -- zeros fill up to the least power of two.
  pub v2_file_root-root :
      (b : ℕ) (payload : Bytes)
      → (d : ℕ) × (v2_file_root sha256 (b ∷ payload)
          ≡ ok (some (root d (padded (leaves sha256 (b ∷ payload))))))
        × (length (leaves sha256 (b ∷ payload)) ≤ 2 ^ d)
        × (2 ^ d < 2 * length (leaves sha256 (b ∷ payload)))
  unfolding first_of
  v2_file_root-root b payload =
      let layer = leaves sha256 (b ∷ payload) in
      let positive = has_leaf b payload in
      let (d, found, bound, least) =
        next_power_found (length layer) 0 (length layer) (omega arith) (omega (arith, positive)) in
      let is_power : next_power_of_two (length layer) ≡ 2 ^ d = found in
      let fill = next_power_of_two (length layer) - length layer in
      let wide : length (padded layer) ≡ 2 ^ d = omega (
        arith,
        is_power,
        bound,
        length-append layer (replicate fill zero_digest),
        length-replicate fill zero_digest,
      ) in
      let reduced =
        reduce-root (length (padded layer)) d (padded layer) wide
          (omega (arith, wide, lt-two_pow d)) in
      let some_bytes : not (length (b ∷ payload) == 0) ≡ true = ground arith in
      (d, root_of_blocks (b ∷ payload) some_bytes ∙ ap (λ l. ok (first_of l)) reduced, bound, least)
