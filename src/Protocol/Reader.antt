-- ===== src/Protocol/Reader.antt =====
-- `Reader` of crates/triptorrent-protocol/src/lib.rs: a cursor over the input.
-- A method is a `Parser`: it returns its value with the moved cursor, or the error.
pub mod Places
use triptorrent.Base.{
  ℕ, zero, suc, ◌+◌, ◌^◌, List, [], ◌∷◌, Option, none, some, length, take, drop, ltb, leb, not,
  ◌==◌, Bool, true, false, if◌then◌else◌, Result, ok, err,
}
use triptorrent.Base.Bytes.{Bytes, from_be, bytes_eq}
use triptorrent.Base.Utf8.{is_utf8}
use triptorrent.Core.{Manifest, Chunk, chunk_size_bytes, protocol_version, network_id}
use triptorrent.Protocol.{
  ProtocolError, malformed, invalid_message, unsupported_version, wrong_network, RouteAssignment,
  max_testnet_manifest_chunks,
}
use triptorrent.Protocol.Writer.{wire_magic}

pub record Reader : Type 0 where
  pub bytes : Bytes
  pub offset : ℕ

abbrev pub Parser {ℓ} : Type ℓ → Type ℓ
Parser A = Reader → Result ProtocolError (A × Reader)

module _ {ℓ} {A : Type ℓ} where
  abbrev pub pure : A → Parser A
  pure a r = ok (a, r)

  abbrev pub fail : ProtocolError → Parser A
  fail e r = err e

-- A test that returns early.
abbrev pub check : Bool → ProtocolError → Parser (Unit {0})
check true e r = ok (tt, r)
check false e r = err e

module _ {ℓ κ} {A : Type ℓ} {B : Type κ} where
  infixl 5 ◌>>=◌
  unfoldable pub ◌>>=◌ : Parser A → (A → Parser B) → Parser B
  ◌>>=◌ p f r = elim (p r) [ ok (a, r') ↦ f a r' | err e ↦ err e ]

module _ {κ} {B : Type κ} where
  infixl 5 ◌>>◌
  abbrev pub ◌>>◌ : Parser (Unit {0}) → Parser B → Parser B
  p >> q = p >>= λ _. q

-- `usize` arithmetic is checked: `offset + length` must stay below 2^64.
unfoldable pub take_bytes : ℕ → Parser Bytes
take_bytes n r =
    if not (ltb (r.offset + n) (2 ^ 64))
    then err (malformed "length overflow")
    else if not (leb (r.offset + n) (length r.bytes))
    then err (malformed "truncated input")
    else ok (take n (drop r.offset r.bytes), record r { offset = r.offset + n })

-- `array::<N>`: `take` returns exactly N bytes, so the conversion succeeds.
unfoldable pub array : ℕ → Parser Bytes
array n = take_bytes n

-- The unsigned words, big-endian over one, two, four and eight bytes.
unfoldable pub word : ℕ → Parser ℕ
word n = do value ← array n; pure (from_be 0 value)

unfoldable pub get_u8 : Parser ℕ
get_u8 = word 1

unfoldable pub get_u16 : Parser ℕ
get_u16 = word 2

unfoldable pub get_u32 : Parser ℕ
get_u32 = word 4

unfoldable pub get_u64 : Parser ℕ
get_u64 = word 8

unfoldable pub get_bytes : ℕ → Parser Bytes
get_bytes maximum = do
  length ← get_u32
  check (not (ltb maximum length)) (invalid_message "byte string exceeds bound")
  take_bytes length

unfoldable pub get_string : ℕ → Parser Bytes
get_string maximum = do
  length ← get_u16
  check (not (ltb maximum length)) (invalid_message "string exceeds bound")
  value ← take_bytes length
  check (is_utf8 value) (malformed "string is not UTF-8")
  pure value

-- `for _ in 0..count { values.push(item?) }`
unfoldable pub repeat {ℓ} : {A : Type ℓ} → ℕ → Parser A → Parser (List A)
repeat zero item = pure []
repeat (suc n) item =
    let others = repeat n item in do value ← item; rest ← others; pure (value ∷ rest)

-- `Reader::new`, from offset 0.
unfoldable pub header : ℕ → Parser (Unit {0})
header domain = do
  magic ← take_bytes 4
  check (bytes_eq magic wire_magic) (malformed "invalid magic")
  version ← get_u16
  check (version == protocol_version) (unsupported_version version)
  length ← get_u8
  network ← take_bytes length
  check (is_utf8 network) (malformed "network identifier is not UTF-8")
  check (bytes_eq network network_id) (wrong_network network)
  found ← get_u8
  check (found == domain) (malformed "wrong message domain")

unfoldable pub get_manifest : Parser Manifest
get_manifest = do
  content_id ← array 32
  length ← get_u64
  chunk_size ← get_u32
  count ← get_u32
  check (not (ltb max_testnet_manifest_chunks count)) (invalid_message "too many manifest chunks")
  chunks ← repeat count (array 32)
  pure (record {
    content_id = content_id;
    length = length;
    chunk_size = chunk_size;
    chunks = chunks;
  })

unfoldable pub get_chunk : Parser Chunk
get_chunk = do
  index ← get_u32
  id ← array 32
  content ← get_bytes chunk_size_bytes
  pure (record { index = index; id = id; content = content })

unfoldable pub get_assignment : Parser RouteAssignment
get_assignment = do
  provider_id ← array 32
  provider_public_key ← array 32
  relay_id ← get_string 64
  relay_address ← get_string 128
  route ← get_string 128
  pure (record {
    provider_id = provider_id;
    provider_public_key = provider_public_key;
    relay_id = relay_id;
    relay_address = relay_address;
    route = route;
  })

unfoldable pub optional_body : ℕ → Parser (Option RouteAssignment)
optional_body zero = pure none
optional_body (suc zero) = do value ← get_assignment; pure (some value)
optional_body (suc (suc n)) = fail (malformed "invalid optional tag")

unfoldable pub get_optional_assignment : Parser (Option RouteAssignment)
get_optional_assignment = do tag ← get_u8; optional_body tag

-- `Reader::end`
unfoldable pub end : Parser (Unit {0})
end r = if r.offset == length r.bytes then ok (tt, r) else err (malformed "trailing bytes")

-- Unfolds every parser of this module, for runs on concrete input.
unfoldable pub running : Unit {0}
unfolding ◌>>=◌ take_bytes array word get_u8 get_u16 get_u32 get_u64 get_bytes get_string repeat
    header get_manifest get_chunk get_assignment optional_body get_optional_assignment end
running = tt
