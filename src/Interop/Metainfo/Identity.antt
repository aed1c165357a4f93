-- ===== src/Interop/Metainfo/Identity.antt =====
-- Which bytes the aliases of a metainfo file are digests of.
use triptorrent.Base.{
  ℕ, ◌+◌, ◌-◌, ◌≡◌, inl, inr, refl, ap, ◌∙◌, subst, Bool, true, false, ◌++◌, Option, none, some,
  length, take, drop, Result, ok, err, ok_or, arith, >>=-eq-ok, ok-injective, ok_or-eq-ok,
  guard-eq-ok, take_length, Bool-cases,
}
use triptorrent.Base.Bytes.{Bytes, bytes_eq}
use triptorrent.Base.Text.{ascii}
use triptorrent.Interop.Bencode.{
  Failure, BencodeNode, Entries, node, bytes, integer, list, dictionary, entry_then, no_entries,
  parse_bencode,
}
use triptorrent.Interop.Bencode.Emit.{emit, emit_node}
use triptorrent.Interop.Bencode.Strict.{Strict, StrictEntries}
use triptorrent.Interop.Bencode.Sound.{parse_bencode_sound}
use triptorrent.Interop.Metainfo.{
  TorrentKind, v1, v2, hybrid, TorrentIdentity, and_then, start_of, end_of, entries_of,
  dictionary_of, find, positive, integer_field, has_v1, has_v2, kind_of, check_kind,
  parsed_metainfo, when, identity_of, torrent_identity, missing_info, piece_length, invalid_field,
  unsupported, hybrid_length, v2_file_tree, v1_pieces, meta_version,
}

-- A value found in a strict dictionary is strict.
find-Strict :
    (input : Bytes) (depth : ℕ) (previous : Option Bytes) (key : Bytes) (pairs : Entries)
    (n : BencodeNode)
    → StrictEntries input depth previous pairs
    → find key pairs ≡ some n
    → Strict input (depth + 1) n
unfolding find
find-Strict input depth previous key no_entries n h e = cc
find-Strict input depth previous key (entry_then name item rest) n h e =
    elim (Bool-cases (bytes_eq key name)) [
      | inl here ↦ let same : item ≡ n = ground arith in subst (Strict input (depth + 1)) same h.1
      | inr further ↦ find-Strict input depth (some name) key rest n h.2 (ground arith)
    ]

-- The range of a strict node holds its encoding.
range_holds :
    (input : Bytes) (depth : ℕ) (n : BencodeNode)
    → Strict input depth n
    → take (end_of n - start_of n) (drop (start_of n) input) ≡ emit_node n
unfolding emit
range_holds input depth (node v start stop) h =
    let width : stop - start ≡ length (emit v) = omega (arith, h.2) in
    ap (λ r. take (stop - start) r) h.1
    ∙ ap (λ k. take k (emit v ++ drop stop input)) width
    ∙ take_length (emit v) (drop stop input)

root_entries :
    (input : Bytes) (depth : ℕ) (n : BencodeNode) (pairs : Entries)
    → Strict input depth n
    → dictionary_of n ≡ some pairs
    → StrictEntries input depth none pairs
unfolding entries_of
root_entries input depth (node (dictionary found) start stop) pairs h e =
    let same : found ≡ pairs = cc in subst (StrictEntries input depth none) same h.3
root_entries input depth (node (bytes v) start stop) pairs h e = cc
root_entries input depth (node (integer z) start stop) pairs h e = cc
root_entries input depth (node (list items) start stop) pairs h e = cc

parsed_ok : (r : Result Failure BencodeNode) {n : BencodeNode} → parsed_metainfo r ≡ ok n → r ≡ ok n
parsed_ok (ok m) h = cc
parsed_ok (err e) h = cc

-- The kind of checked metadata is the one that its two parts decide.
check_kind-kind :
    (pairs : Entries) (piece : ℕ) (kind : TorrentKind)
    → check_kind pairs piece ≡ ok kind
    → kind_of (has_v1 pairs piece) (has_v2 pairs) ≡ some kind
unfolding check_kind
check_kind-kind pairs piece kind h =
    let (_, h₁) = guard-eq-ok _ (invalid_field meta_version) h in
    let (_, h₂) = guard-eq-ok _ (invalid_field v1_pieces) h₁ in
    let (_, h₃) = guard-eq-ok _ (invalid_field v2_file_tree) h₂ in
    let (_, h₄) = guard-eq-ok _ (invalid_field hybrid_length) h₃ in ok_or-eq-ok _ unsupported h₄

-- What the aliases of a kind are.
abbrev pub Aliases : TorrentKind → Bytes → Bytes → TorrentIdentity → Type 0
Aliases v1 first second id = (id.btih ≡ some first) × (id.btmh_sha256 ≡ none)
Aliases v2 first second id = (id.btih ≡ none) × (id.btmh_sha256 ≡ some second)
Aliases hybrid first second id = (id.btih ≡ some first) × (id.btmh_sha256 ≡ some second)

Aliases-when :
    (one two : Bool) (kind : TorrentKind) (first second : Bytes)
    → kind_of one two ≡ some kind
    → Aliases kind first second
        (record { kind = kind; btih = when one first; btmh_sha256 = when two second })
Aliases-when true true hybrid first second h = (refl, refl)
Aliases-when true true v1 first second h = cc
Aliases-when true true v2 first second h = cc
Aliases-when true false v1 first second h = (refl, refl)
Aliases-when true false v2 first second h = cc
Aliases-when true false hybrid first second h = cc
Aliases-when false true v2 first second h = (refl, refl)
Aliases-when false true v1 first second h = cc
Aliases-when false true hybrid first second h = cc
Aliases-when false false kind first second h = cc

module _ (sha1 : Bytes → Bytes) (sha256 : Bytes → Bytes) (hex : Bytes → Bytes) where
  identity-Aliases :
      (metainfo : Bytes) (info : BencodeNode) (pairs : Entries) (id : TorrentIdentity) (raw : Bytes)
      → take (end_of info - start_of info) (drop (start_of info) metainfo) ≡ raw
      → identity_of sha1 sha256 hex metainfo info pairs ≡ ok id
      → Aliases id.kind (hex (sha1 raw)) (hex (sha256 raw)) id
  unfolding identity_of
  identity-Aliases metainfo info pairs id raw range h =
      let (piece, _, h₁) =
        >>=-eq-ok
          (ok_or (and_then (integer_field pairs (ascii "piece length")) positive)
            (invalid_field piece_length))
          _ h in
      let (kind, checked, h₂) = >>=-eq-ok (check_kind pairs piece) _ h₁ in
      let read = take (end_of info - start_of info) (drop (start_of info) metainfo) in
      let made =
        Aliases-when (has_v1 pairs piece) (has_v2 pairs) kind (hex (sha1 read)) (hex (sha256 read))
          (check_kind-kind pairs piece kind checked) in
      subst (λ r. Aliases id.kind (hex (sha1 r)) (hex (sha256 r)) id) range
        (subst (λ i. Aliases i.kind (hex (sha1 read)) (hex (sha256 read)) i) (ok-injective h₂) made)

  -- An identity that `torrent_identity` returns has the digests of the canonical encoding of the
  -- `info` value in the root dictionary, and of nothing else: the SHA-1 alias for v1 metadata, the
  -- SHA-256 alias for v2, and both for a hybrid.
  pub torrent_identity_sound :
      (metainfo : Bytes) (id : TorrentIdentity)
      → torrent_identity sha1 sha256 hex metainfo ≡ ok id
      → (root : BencodeNode) × (pairs : Entries) × (info : BencodeNode) × (metainfo
          ≡ emit_node root)
        × (dictionary_of root ≡ some pairs)
        × (find (ascii "info") pairs ≡ some info)
        × Aliases id.kind (hex (sha1 (emit_node info))) (hex (sha256 (emit_node info))) id
  unfolding torrent_identity
  torrent_identity_sound metainfo id h =
      let (root, parsed, h₁) = >>=-eq-ok (parsed_metainfo (parse_bencode metainfo)) _ h in
      let (pairs, rooted, h₂) = >>=-eq-ok (ok_or (dictionary_of root) missing_info) _ h₁ in
      let (info, found, h₃) = >>=-eq-ok (ok_or (find (ascii "info") pairs) missing_info) _ h₂ in
      let (fields, is_dictionary, h₄) = >>=-eq-ok (ok_or (dictionary_of info) missing_info) _ h₃ in
      let sound = parse_bencode_sound metainfo root (parsed_ok (parse_bencode metainfo) parsed) in
      let root_is = ok_or-eq-ok (dictionary_of root) missing_info rooted in
      let info_is = ok_or-eq-ok (find (ascii "info") pairs) missing_info found in
      let strict =
        find-Strict metainfo 0 none (ascii "info") pairs info
          (root_entries metainfo 0 root pairs sound.1 root_is) info_is in
      (
        root,
        pairs,
        info,
        sound.0,
        root_is,
        info_is,
        identity-Aliases metainfo info fields id (emit_node info)
            (range_holds metainfo (0 + 1) info strict) h₄,
      )
