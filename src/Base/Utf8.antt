-- ===== src/Base/Utf8.antt =====
-- `core::str::from_utf8` as a test: the well-formed byte sequences of UTF-8.
use triptorrent.Base.Tests.{ltb, leb, ◌==◌, if◌then◌else◌}
use triptorrent.Base.Bytes.{Bytes}
use triptorrent.Base.Lists.{All}
use Prim.Native.Nat.{ℕ, ◌<◌}
use mathlib.Core.Path.{◌≡◌, refl}
use mathlib.Core.Bool.{Bool, true, false, ◌&&◌}
use mathlib.Core.Option.{Option, none, some}
use mathlib.Core.List.{List, [], ◌∷◌}
use native.Mathlib.Omega.{arith}

abbrev tail_range : ℕ × ℕ
tail_range = (0x80, 0xbf)

-- The ranges of the bytes that must follow a lead byte; `none` for a byte that leads nothing.
lead : ℕ → Option (List (ℕ × ℕ))
lead b =
    if ltb b 0x80
    then some []
    else if ltb b 0xc2
    then none
    else if ltb b 0xe0
    then some (tail_range ∷ [])
    else if b == 0xe0
    then some ((0xa0, 0xbf) ∷ tail_range ∷ [])
    else if b == 0xed
    then some ((0x80, 0x9f) ∷ tail_range ∷ [])
    else if ltb b 0xf0
    then some (tail_range ∷ tail_range ∷ [])
    else if b == 0xf0
    then some ((0x90, 0xbf) ∷ tail_range ∷ tail_range ∷ [])
    else if ltb b 0xf4
    then some (tail_range ∷ tail_range ∷ tail_range ∷ [])
    else if b == 0xf4
    then some ((0x80, 0x8f) ∷ tail_range ∷ tail_range ∷ [])
    else none

scan : List (ℕ × ℕ) → Bytes → Bool
unfolding lead
scan [] [] = true
scan (range ∷ ranges) [] = false
scan [] (b ∷ bs) = elim (lead b) [ none ↦ false | some ranges ↦ scan ranges bs ]
scan ((low, high) ∷ ranges) (b ∷ bs) = leb low b && (leb b high && scan ranges bs)

unfoldable pub is_utf8 : Bytes → Bool
unfolding scan
is_utf8 bs = scan [] bs

-- ASCII text is well formed.
pub is_utf8-ascii : (bs : Bytes) → All (λ b. b < 0x80) bs → is_utf8 bs ≡ true
unfolding is_utf8
is_utf8-ascii [] h = refl
is_utf8-ascii (b ∷ bs) h = ground (arith, is_utf8-ascii bs h.1)
