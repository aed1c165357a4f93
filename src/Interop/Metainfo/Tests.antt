-- ===== src/Interop/Metainfo/Tests.antt =====
-- Runs of `parse_bencode` and `torrent_identity`.
use triptorrent.Base.{◌≤◌, ◌≡◌, ◌≢◌, refl, ◌∷◌, none, some, ok, err, take, drop}
use triptorrent.Base.Bytes.{Bytes}
use triptorrent.Base.Dict.{bytes_lt}
use triptorrent.Base.Text.{ascii}
use triptorrent.Interop.{max_bencode_nodes}
use triptorrent.Interop.Bencode.{
  BencodeNode, node, integer, dictionary, entry_then, no_entries, failed, out_of_fuel,
  parse_bencode, unsorted_dictionary, invalid, parse_bytes, parse_integer, Entries,
}
use triptorrent.Interop.Bencode.Decimal.{pos}
use triptorrent.Interop.Bencode.Emit.{emit_node}
use triptorrent.Interop.Bencode.Strict.{Strict, count_node}
use triptorrent.Interop.Bencode.Sound.{parse_bencode_sound, parse_bencode-ne-out_of_fuel}
use triptorrent.Interop.Metainfo.{TorrentIdentity, v1, torrent_identity, find, dictionary_of}
use triptorrent.Interop.Metainfo.Identity.{Aliases, torrent_identity_sound}

-- A dictionary of one key.
abbrev small : Bytes
small = ascii "d1:ai1ee"

abbrev small_root : BencodeNode
small_root = node (dictionary (entry_then (ascii "a") (node (integer (pos 1)) 4 7) no_entries)) 0 8

small_parsed : parse_bencode small ≡ ok small_root
unfolding parse_bencode parse_bytes drop take parse_integer
small_parsed = refl

unsorted : parse_bencode (ascii "d1:b0:1:a0:e") ≡ err (failed (unsorted_dictionary 6))
unfolding parse_bencode parse_bytes drop take bytes_lt
unsorted = refl

leading_zero : parse_bencode (ascii "i01e") ≡ err (failed (invalid 1))
unfolding parse_bencode parse_integer drop take
leading_zero = refl

parse_bencode_sound_example :
    (small ≡ emit_node small_root)
    × Strict small 0 small_root
    × (count_node small_root ≤ max_bencode_nodes)
parse_bencode_sound_example = parse_bencode_sound small small_root small_parsed

parse_bencode-ne-out_of_fuel_example : parse_bencode small ≢ err out_of_fuel
parse_bencode-ne-out_of_fuel_example = parse_bencode-ne-out_of_fuel small

-- Metadata of one file of one byte, with stand-ins for the digests.
abbrev single : Bytes
single = ascii "d4:infod6:lengthi1e12:piece lengthi1e6:pieces20:aaaaaaaaaaaaaaaaaaaaee"

abbrev sample_digest : Bytes → Bytes
sample_digest bs = b'#' ∷ bs

abbrev sample_hex : Bytes → Bytes
sample_hex bs = bs

abbrev single_id : TorrentIdentity
single_id = record {
  kind = v1;
  btih = some (ascii "#d6:lengthi1e12:piece lengthi1e6:pieces20:aaaaaaaaaaaaaaaaaaaae");
  btmh_sha256 = none;
}

single_identity : torrent_identity sample_digest sample_digest sample_hex single ≡ ok single_id
unfolding torrent_identity parse_bencode parse_bytes drop take parse_integer bytes_lt
single_identity = refl

torrent_identity_sound_example :
    (root : BencodeNode) × (pairs : Entries) × (info : BencodeNode) × (single ≡ emit_node root)
    × (dictionary_of root ≡ some pairs)
    × (find (ascii "info") pairs ≡ some info)
    × Aliases v1
        (sample_hex (sample_digest (emit_node info)))
        (sample_hex (sample_digest (emit_node info)))
        single_id
torrent_identity_sound_example =
    torrent_identity_sound sample_digest sample_digest sample_hex single single_id single_identity
