-- ===== src/Interop/Path/Safe.antt =====
-- An accepted component names one entry of its directory.
use triptorrent.Base.{
  ℕ, ◌≤◌, ◌<◌, ◌≡◌, ◌≢◌, ◌⊎◌, inl, inr, All, ◌++◌, refl, sym, ap, subst, [], ◌∷◌, Bool, true, false,
  not, ◌||◌, any, length, ltb, Bool-cases, ◌∙◌, ◌==◌, ok, arith, guard-eq-ok, ok-injective,
}
use triptorrent.Base.Bytes.{bytes_eq, bytes_eq_refl}
use triptorrent.Base.Text.{ascii}
use triptorrent.Interop.{max_path_component_bytes}
use triptorrent.Interop.Magnet.Query.{split}
use triptorrent.Interop.Path.Device.{Names, devices, no_device, ends_badly-snoc}
use triptorrent.Interop.Path.{
  structural, character, windows_reserved, too_long, Text, utf8_length, is_control, is_forbidden,
  ends_badly, is_windows_device_name, sanitize_path_component,
}

one_part :
    (separator c : ℕ) (text : Text)
    → c ≢ separator
    → split separator text ≡ text ∷ []
    → split separator (c ∷ text) ≡ (c ∷ text) ∷ []
unfolding split
one_part separator c text other h =
    let away : (c == separator) ≡ false = ground arith in rw (h, away) refl

-- No character of an accepted component is a separator.
unsplit :
    (text : Text)
    → any (λ c. is_control c || is_forbidden c) text ≡ false
    → (split b'/' text ≡ text ∷ []) × (split b'\\' text ≡ text ∷ [])
unfolding split
unsplit [] h = (refl, refl)
unsplit (c ∷ text) h =
    let (slash, backslash) = unsplit text (ground (arith, h)) in
    let no_slash : c ≢ b'/' = ground (arith, h) in
    let no_backslash : c ≢ b'\\' = ground (arith, h) in
    (one_part b'/' c text no_slash slash, one_part b'\\' c text no_backslash backslash)

-- No control character, and none of `\/:*?"<>|`.
abbrev pub IsPlain : ℕ → Type 0
IsPlain c =
    (0x20 ≤ c)
    × ((c < 0x7f) ⊎ (0x9f < c))
    × (c ≢ 0x5c)
    × (c ≢ 0x2f)
    × (c ≢ 0x3a)
    × (c ≢ 0x2a)
    × (c ≢ 0x3f)
    × (c ≢ 0x22)
    × (c ≢ 0x3c)
    × (c ≢ 0x3e)
    × (c ≢ 0x7c)

-- A name of at most 255 bytes that is not empty, `.` or `..`, that is a single part of a path with
-- either separator, with plain characters only, that does not end in a dot or a blank, and that is
-- no device in upper or lower case, with or without an extension.
abbrev pub SafeName : Text → Type 0
SafeName name =
    (utf8_length name ≤ max_path_component_bytes)
    × (name ≢ [])
    × (name ≢ ascii ".")
    × (name ≢ ascii "..")
    × (split b'/' name ≡ name ∷ [])
    × (split b'\\' name ≡ name ∷ [])
    × All IsPlain name
    × ((init : Text) → (name ≢ init ++ b' ' ∷ []) × (name ≢ init ++ b'.' ∷ []))
    × All (λ device. Names device name → ⊥) devices

or_false : (a b : Bool) → (a || b) ≡ false → (a ≡ false) × (b ≡ false)
or_false true b h = cc
or_false false b h = (refl, h)

kept_character : (c : ℕ) → (is_control c || is_forbidden c) ≡ false → IsPlain c
kept_character c h = (
  ground (arith, h),
  elim (Bool-cases (ltb c 0x7f)) [
    | inl low ↦ inl (ground arith)
    | inr high ↦ inr (ground (arith, h, high))
  ],
  ground (arith, h),
  ground (arith, h),
  ground (arith, h),
  ground (arith, h),
  ground (arith, h),
  ground (arith, h),
  ground (arith, h),
  ground (arith, h),
  ground (arith, h),
)

kept_characters :
    (text : Text) → any (λ c. is_control c || is_forbidden c) text ≡ false → All IsPlain text
kept_characters [] h = tt
kept_characters (c ∷ text) h =
    let (here, rest) = or_false (is_control c || is_forbidden c) _ h in
    (kept_character c here, kept_characters text rest)

not_named : (text other : Text) → bytes_eq text other ≡ false → text ≢ other
not_named text other h e =
    let same = bytes_eq_refl text in
    let differ : bytes_eq text text ≡ false = subst (λ t. bytes_eq text t ≡ false) (sym e) h in cc

not-false : (a : Bool) → not a ≡ true → a ≡ false
not-false true h = cc
not-false false h = refl

unended :
    (text init : Text)
    → ends_badly text ≡ false
    → (text ≢ init ++ b' ' ∷ []) × (text ≢ init ++ b'.' ∷ [])
unended text init h =
    let (blank, dot) = ends_badly-snoc init in
    (
      λ e. (let ending = ap ends_badly e ∙ blank in cc),
      λ e. (let ending = ap ends_badly e ∙ dot in cc),
    )

named_safe :
    (text : Text)
    → not (ltb max_path_component_bytes (utf8_length text)) ≡ true
    → not (length text == 0 || (bytes_eq text (ascii ".") || bytes_eq text (ascii ".."))) ≡ true
    → any (λ c. is_control c || is_forbidden c) text ≡ false
    → not (ends_badly text || is_windows_device_name text) ≡ true
    → SafeName text
named_safe text short named plain portable =
    let (full, dots) = or_false (length text == 0) _ (not-false _ named) in
    let (dot, dot_dot) = or_false (bytes_eq text (ascii ".")) (bytes_eq text (ascii "..")) dots in
    let (ending, device) =
      or_false (ends_badly text) (is_windows_device_name text) (not-false _ portable) in
    let (slash, backslash) = unsplit text plain in
    (
      ground (arith, short),
      λ e. (let zero : length text ≡ 0 = ap length e in absurd (ground (arith, zero, full))),
      not_named text (ascii ".") dot,
      not_named text (ascii "..") dot_dot,
      slash,
      backslash,
      kept_characters text plain,
      λ init. unended text init ending,
      no_device text device,
    )

-- A component that `sanitize_path_component` returns is the normalised input, has at most 255 bytes,
-- is not empty, `.` or `..`, has only plain characters, so that it is a single part of a path with
-- either separator, does not end in a dot or a blank, and names none of the 22 Windows devices,
-- whatever the case of its letters and with or without an extension.
pub sanitize_path_component_sound :
    (nfc : Text → Text) (component name : Text)
    → sanitize_path_component nfc component ≡ ok name
    → (name ≡ nfc component) × SafeName name
unfolding sanitize_path_component
sanitize_path_component_sound nfc component name h =
    let (short, h₁) =
      guard-eq-ok (not (ltb max_path_component_bytes (utf8_length (nfc component)))) too_long h in
    let (named, h₂) = guard-eq-ok _ structural h₁ in
    let (clean, h₃) = guard-eq-ok _ character h₂ in
    let (portable, h₄) = guard-eq-ok _ windows_reserved h₃ in
    let same : nfc component ≡ name = ok-injective h₄ in
    let plain : any (λ c. is_control c || is_forbidden c) (nfc component) ≡ false =
      ground (arith, clean) in
    subst (λ n. (n ≡ nfc component) × SafeName n) same
      (refl, named_safe (nfc component) short named plain portable)
