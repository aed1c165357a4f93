-- ===== src/Core/Assembly/Slices.antt =====
-- `slice::chunks` cuts a byte string into pieces that make it up, one for each begun 32 KiB.
use triptorrent.Base.{
  ℕ, zero, suc, ◌≤◌, ◌<◌, ◌≡◌, refl, List, [], ◌∷◌, ◌++◌, length, drop, arith, length-drop,
  take-append-drop,
}
use triptorrent.Base.Bytes.{Bytes}
use triptorrent.Core.{chunk_size_bytes}
use triptorrent.Core.Assembly.{slices, div_ceil}

abbrev pub concat : List Bytes → Bytes
concat [] = []
concat (p ∷ ps) = p ++ concat ps

pub concat-slices : (f n : ℕ) (xs : Bytes) → 0 < n → length xs ≤ f → concat (slices f n xs) ≡ xs
unfolding slices
concat-slices zero n [] positive h = refl
concat-slices zero n (x ∷ xs) positive h = absurd (omega arith)
concat-slices (suc f) n [] positive h = refl
concat-slices (suc f) n (x ∷ xs) positive h =
    let rest =
      concat-slices f n (drop n (x ∷ xs)) positive (omega (arith, length-drop n (x ∷ xs))) in
    rw rest (take-append-drop n (x ∷ xs))

pub length-slices :
    (f : ℕ) (xs : Bytes)
    → length xs ≤ f
    → length (slices f chunk_size_bytes xs) ≡ div_ceil (length xs) chunk_size_bytes
unfolding slices div_ceil
length-slices zero [] h = omega arith
length-slices zero (x ∷ xs) h = absurd (omega arith)
length-slices (suc f) [] h = omega arith
length-slices (suc f) (x ∷ xs) h =
    let shorter = length-drop chunk_size_bytes (x ∷ xs) in
    let rest = length-slices f (drop chunk_size_bytes (x ∷ xs)) (omega (arith, shorter)) in
    omega (arith, shorter, rest)
