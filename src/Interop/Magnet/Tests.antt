-- ===== src/Interop/Magnet/Tests.antt =====
-- Runs of `parse_magnet`, `percent_decode` and `decode_base32`.
use triptorrent.Base.{
  ◌*◌, ◌^◌, ◌≤◌, ◌<◌, ◌≡◌, ◌↔◌, refl, [], ◌∷◌, Option, some, ok, err, true, take, length, All,
  arith,
}
use triptorrent.Base.Bytes.{Bytes, from_be}
use triptorrent.Base.Text.{ascii}
use triptorrent.Base.Utf8.{is_utf8}
use triptorrent.Interop.{max_magnet_parameters}
use triptorrent.Interop.Magnet.{invalid_exact_topic, encoding}
use triptorrent.Interop.Magnet.Base32.{decode_base32, symbol_of}
use triptorrent.Interop.Magnet.Number.{Decodes, number, decode_base32_sound, decode_base32_complete}
use triptorrent.Interop.Magnet.Percent.{percent_decode, Spells, percent_decode-Spells}
use triptorrent.Interop.Magnet.Query.{Magnet, no_hints, parse_magnet}
use triptorrent.Interop.Magnet.Hints.{HexOf, topics_of, hints_of, parse_magnet_sound}

-- Two bytes and four spare bits.
two_bytes : decode_base32 (ascii "mzxq") ≡ ok (ascii "fo")
unfolding decode_base32
two_bytes = refl

loose_bits : decode_base32 (ascii "mzxr") ≡ err invalid_exact_topic
unfolding decode_base32
loose_bits = refl

decode_base32_sound_example : Decodes (ascii "mzxq") (ascii "fo")
decode_base32_sound_example = decode_base32_sound (ascii "mzxq") (ascii "fo") two_bytes

m_symbol : symbol_of b'm' ≡ some 12
unfolding symbol_of
m_symbol = refl

y_symbol : symbol_of b'y' ≡ some 24
unfolding symbol_of
y_symbol = refl

my_number : number 0 (ascii "my") ≡ 102 * 2 ^ 2
unfolding number
my_number = refl

decode_base32_complete_example :
    (out : Bytes) × (decode_base32 (ascii "my") ≡ ok out) × (length out ≡ 1) × (from_be 0 out ≡ 102)
decode_base32_complete_example =
    decode_base32_complete (ascii "my") 1 102 2 ((12, m_symbol), ((24, y_symbol), tt)) (omega arith)
      refl my_number

percent_decode-Spells_example :
    percent_decode (ascii "a%20b") ≡ ok (ascii "a b")
    ↔ Spells (ascii "a%20b") (ascii "a b") × (is_utf8 (ascii "a b") ≡ true)
percent_decode-Spells_example = percent_decode-Spells (ascii "a%20b") (ascii "a b")

escape_cut_off : percent_decode (ascii "a%2") ≡ err encoding
unfolding percent_decode
escape_cut_off = refl

-- Stand-ins for the hexadecimal texts.
abbrev sample_encode : Bytes → Bytes
sample_encode bs = bs

abbrev sample_decode : Bytes → Option Bytes
sample_decode bs = some (take 20 bs)

abbrev link : Bytes
link = ascii "magnet:?xt=urn:btih:aaaaaaaaaaaaaaaaaaaaaaaaaaaaaaaaaaaaaaaa&dn=a%20b"

abbrev link_hints : Magnet
link_hints = record no_hints {
  btih = ascii "aaaaaaaaaaaaaaaaaaaa" ∷ [];
  display_names = ascii "a b" ∷ [];
}

link_parsed : parse_magnet sample_encode sample_decode link ≡ ok link_hints
unfolding parse_magnet is_utf8 take
link_parsed = refl

parse_magnet_sound_example :
    (0 < topics_of link_hints)
    × All (HexOf sample_encode 20) link_hints.btih
    × All (HexOf sample_encode 32) link_hints.btmh_sha256
    × (hints_of link_hints ≤ max_magnet_parameters)
parse_magnet_sound_example =
    parse_magnet_sound sample_encode sample_decode link link_hints link_parsed
