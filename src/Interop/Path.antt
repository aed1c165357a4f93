-- ===== src/Interop/Path.antt =====
-- `sanitize_path_component`. A text is its code points, and `nfc` is the normalisation of the crate
-- unicode-normalization.
pub mod Device
pub mod Safe
mod Tests
use triptorrent.Base.{
  ℕ, ◌+◌, ◌-◌, List, [], ◌∷◌, Bool, true, false, not, ◌&&◌, ◌||◌, Option, none, some, map, any,
  length, ltb, leb, ◌==◌, if◌then◌else◌, Result, ok, err, guard, ◌>>=◌, ◌>>◌,
}
use triptorrent.Base.Bytes.{Bytes, bytes_eq}
use triptorrent.Base.Text.{ascii}
use triptorrent.Interop.{max_path_component_bytes}
use triptorrent.Interop.Magnet.Query.{strip_prefix}

pub data PathError : Type 0 where
  structural character windows_reserved too_long : PathError

abbrev pub Text : Type 0
Text = List ℕ

-- `len` of a `String`: the bytes of its UTF-8 form.
unfoldable pub utf8_length : Text → ℕ
utf8_length [] = 0
utf8_length (c ∷ cs) =
    (if ltb c 0x80 then 1 else if ltb c 0x800 then 2 else if ltb c 0x10000 then 3 else 4)
    + utf8_length cs

-- `char::is_control`: the category Cc.
abbrev pub is_control : ℕ → Bool
is_control c = ltb c 0x20 || (leb 0x7f c && leb c 0x9f)

-- The characters `\/:*?"<>|`.
abbrev pub is_forbidden : ℕ → Bool
is_forbidden c =
    (c == b'\\' || (c == b'/' || (c == b':' || c == b'*')))
    || ((c == b'?' || c == 0x22) || (c == b'<' || (c == b'>' || c == b'|')))

-- `ends_with([' ', '.'])`
unfoldable pub ends_badly : Text → Bool
ends_badly [] = false
ends_badly (c ∷ []) = c == b' ' || c == b'.'
ends_badly (c ∷ d ∷ cs) = ends_badly (d ∷ cs)

-- `split('.').next()`
unfoldable pub stem : Text → Text
stem [] = []
stem (c ∷ cs) = let rest = stem cs in if c == b'.' then [] else c ∷ rest

unfoldable pub to_ascii_uppercase : ℕ → ℕ
to_ascii_uppercase c = if leb b'a' c && leb c b'z' then c - 32 else c

-- `matches!(suffix, "1" | .. | "9")`
abbrev pub is_port : Option Text → Bool
is_port none = false
is_port (some []) = false
is_port (some (c ∷ [])) = leb b'1' c && leb c b'9'
is_port (some (c ∷ d ∷ cs)) = false

abbrev pub or_else : Option Text → Option Text → Option Text
or_else none other = other
or_else (some suffix) other = some suffix

-- The tests on the upper-case stem.
unfoldable pub is_device : Text → Bool
unfolding bytes_eq strip_prefix
is_device name =
    (bytes_eq name (ascii "CON")
      || (bytes_eq name (ascii "PRN")
          || (bytes_eq name (ascii "AUX") || bytes_eq name (ascii "NUL"))))
    || is_port (or_else (strip_prefix (ascii "COM") name) (strip_prefix (ascii "LPT") name))

unfoldable pub is_windows_device_name : Text → Bool
unfolding is_device stem to_ascii_uppercase
is_windows_device_name component = is_device (map to_ascii_uppercase (stem component))

unfoldable pub sanitize_path_component : (Text → Text) → Text → Result PathError Text
unfolding utf8_length bytes_eq ends_badly is_windows_device_name
sanitize_path_component nfc component = do
  let normalized = nfc component
  guard (not (ltb max_path_component_bytes (utf8_length normalized))) too_long
  guard
      (not (
        length normalized == 0
        || (bytes_eq normalized (ascii ".") || bytes_eq normalized (ascii ".."))))
      structural
  guard (not (any (λ c. is_control c || is_forbidden c) normalized)) character
  guard (not (ends_badly normalized || is_windows_device_name normalized)) windows_reserved
  ok normalized
