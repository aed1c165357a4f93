-- ===== src/Interop/Path/Device.antt =====
-- The names of devices, in upper or lower case and with or without an extension.
use triptorrent.Base.{
  ℕ, ◌+◌, ◌≤◌, ◌<◌, ◌≡◌, refl, ap, ◌∙◌, List, [], ◌∷◌, ◌++◌, Bool, true, false, ◌&&◌, map, All, leb,
  ◌==◌, arith,
}
use triptorrent.Base.Text.{ascii}
use triptorrent.Interop.Path.{
  Text, stem, to_ascii_uppercase, is_device, is_windows_device_name, ends_badly,
}

-- The text is the name, each letter in either case, and ends there or goes on with a dot.
pub data Names : Text → Text → Type 0 where
  ends : Names [] []
  dotted : (rest : Text) → Names [] (b'.' ∷ rest)
  same : (d : ℕ) {name text : Text} → Names name text → Names (d ∷ name) (d ∷ text)
  small :
      (d : ℕ) {name text : Text}
      → b'A' ≤ d
      → d ≤ b'Z'
      → Names name text
      → Names (d ∷ name) ((d + 32) ∷ text)

abbrev pub devices : List Text
devices =
    ascii "CON"
    ∷ ascii "PRN"
    ∷ ascii "AUX"
    ∷ ascii "NUL"
    ∷ ascii "COM1"
    ∷ ascii "COM2"
    ∷ ascii "COM3"
    ∷ ascii "COM4"
    ∷ ascii "COM5"
    ∷ ascii "COM6"
    ∷ ascii "COM7"
    ∷ ascii "COM8"
    ∷ ascii "COM9"
    ∷ ascii "LPT1"
    ∷ ascii "LPT2"
    ∷ ascii "LPT3"
    ∷ ascii "LPT4"
    ∷ ascii "LPT5"
    ∷ ascii "LPT6"
    ∷ ascii "LPT7"
    ∷ ascii "LPT8"
    ∷ ascii "LPT9"
    ∷ []

-- A character of a device name: neither a dot nor a small letter.
abbrev IsUpper : ℕ → Type 0
IsUpper d = (b'.' < d) × (d < b'a')

abbrev upper : Text → Bool
upper [] = true
upper (d ∷ name) = leb (b'.' + 1) d && (leb d 96 && upper name)

abbrev all_devices : List Text → Bool
all_devices [] = true
all_devices (name ∷ names) = upper name && (is_device name && all_devices names)

Names-stem :
    {name text : Text}
    → Names name text
    → All IsUpper name
    → map to_ascii_uppercase (stem text) ≡ name
unfolding stem to_ascii_uppercase
Names-stem ends h = refl
Names-stem (dotted rest) h = refl
Names-stem (same d {name = name} {text = text} n) ((low, high), h) =
    let rest = Names-stem n h in
    let inside : (d == b'.') ≡ false = ground arith in
    let kept : to_ascii_uppercase d ≡ d = ground arith in
    rw inside (ap (λ c. c ∷ map to_ascii_uppercase (stem text)) kept ∙ ap (λ r. d ∷ r) rest)
Names-stem (small d {name = name} {text = text} from to n) ((low, high), h) =
    let rest = Names-stem n h in
    let inside : (d + 32 == b'.') ≡ false = ground arith in
    let raised : to_ascii_uppercase (d + 32) ≡ d = ground arith in
    rw inside (ap (λ c. c ∷ map to_ascii_uppercase (stem text)) raised ∙ ap (λ r. d ∷ r) rest)

IsUpper-check : (name : Text) → upper name ≡ true → All IsUpper name
IsUpper-check [] h = tt
IsUpper-check (d ∷ name) h =
    ((ground (arith, h), ground (arith, h)), IsUpper-check name (ground (arith, h)))

Names-device :
    (name text : Text)
    → upper name ≡ true
    → is_device name ≡ true
    → is_windows_device_name text ≡ false
    → Names name text
    → ⊥
unfolding is_windows_device_name
Names-device name text plain device other n =
    let spelled : is_windows_device_name text ≡ true =
      ap is_device (Names-stem n (IsUpper-check name plain)) ∙ device in
    cc

checked :
    (text : Text) (names : List Text)
    → all_devices names ≡ true
    → is_windows_device_name text ≡ false
    → All (λ name. Names name text → ⊥) names
checked text [] h other = tt
checked text (name ∷ names) h other = (
  Names-device name text (ground (arith, h)) (ground (arith, h)) other,
  checked text names (ground (arith, h)) other,
)

all_found : all_devices devices ≡ true
unfolding is_device
all_found = refl

pub no_device :
    (text : Text) → is_windows_device_name text ≡ false → All (λ name. Names name text → ⊥) devices
no_device text other = checked text devices all_found other

-- The last character is neither a dot nor a blank.
pub ends_badly-snoc :
    (init : Text)
    → (ends_badly (init ++ b' ' ∷ []) ≡ true) × (ends_badly (init ++ b'.' ∷ []) ≡ true)
unfolding ends_badly
ends_badly-snoc [] = (refl, refl)
ends_badly-snoc (x ∷ []) = (refl, refl)
ends_badly-snoc (x ∷ y ∷ init) = ends_badly-snoc (y ∷ init)
