-- ===== src/Interop/Metainfo.antt =====
-- `torrent_identity`: the BEP 3 and BEP 52 aliases of a metainfo file. `find` is a binary search in
-- the source; the entries that the parser returns are strictly sorted, so a key is there once.
pub mod Identity
mod Tests
use triptorrent.Base.{
  ℕ, zero, suc, ◌+◌, ◌-◌, ◌*◌, ◌/◌, ◌^◌, ◌≤◌, ◌<◌, List, [], ◌∷◌, Bool, true, false, not, ◌&&◌,
  ◌||◌, Option, none, some, min, length, take, drop, ltb, leb, ◌==◌, if◌then◌else◌, Result, ok, err,
  guard, ok_or, ◌>>=◌, ◌>>◌,
}
use triptorrent.Base.Bytes.{Bytes, bytes_eq}
use triptorrent.Base.Text.{ascii}
use triptorrent.Core.Assembly.{div_ceil}
use triptorrent.Interop.Bencode.{
  BencodeNode, BencodeValue, Nodes, Entries, node, bytes, integer, list, dictionary, no_nodes,
  node_then, no_entries, entry_then, Failure, parse_bencode,
}
use triptorrent.Interop.Bencode.Decimal.{ℤ, pos, negsuc}

pub data TorrentKind : Type 0 where
  v1 v2 hybrid : TorrentKind

pub record TorrentIdentity : Type 0 where
  pub kind : TorrentKind
  pub btih : Option Bytes
  pub btmh_sha256 : Option Bytes

-- The field that `InvalidField` names.
pub data Field : Type 0 where
  piece_length meta_version v1_pieces v2_file_tree hybrid_length : Field

-- `bencode` also holds the end of the fuel.
pub data MetainfoError : Type 0 where
  bencode : Failure → MetainfoError
  missing_info unsupported : MetainfoError
  invalid_field : Field → MetainfoError

abbrev pub and_then {ℓ κ} : {A : Type ℓ} {B : Type κ} → Option A → (A → Option B) → Option B
and_then none f = none
and_then (some a) f = f a

abbrev pub is_some {ℓ} : {A : Type ℓ} → Option A → Bool
is_some none = false
is_some (some a) = true

abbrev pub value_of : BencodeNode → BencodeValue
value_of (node v start stop) = v

abbrev pub start_of : BencodeNode → ℕ
start_of (node v start stop) = start

abbrev pub end_of : BencodeNode → ℕ
end_of (node v start stop) = stop

unfoldable pub entries_of : BencodeValue → Option Entries
entries_of (dictionary pairs) = some pairs
entries_of _ = none

-- The function `dictionary` of the source.
abbrev pub dictionary_of : BencodeNode → Option Entries
dictionary_of n = entries_of (value_of n)

unfoldable pub find : Bytes → Entries → Option BencodeNode
find key no_entries = none
find key (entry_then name n rest) = if bytes_eq key name then some n else find key rest

unfoldable pub bytes_of : BencodeValue → Option Bytes
bytes_of (bytes v) = some v
bytes_of _ = none

unfoldable pub integer_of : BencodeValue → Option ℤ
integer_of (integer z) = some z
integer_of _ = none

unfoldable pub bytes_field : Entries → Bytes → Option Bytes
unfolding find bytes_of
bytes_field pairs key = and_then (find key pairs) (λ n. bytes_of (value_of n))

unfoldable pub integer_field : Entries → Bytes → Option ℤ
unfolding find integer_of
integer_field pairs key = and_then (find key pairs) (λ n. integer_of (value_of n))

-- `u64::try_from` of an `i64`.
abbrev pub to_u64 : ℤ → Option ℕ
to_u64 (pos n) = some n
to_u64 (negsuc n) = none

abbrev pub checked_add : ℕ → ℕ → Option ℕ
checked_add a b = if ltb (a + b) (2 ^ 64) then some (a + b) else none

abbrev pub is_nonempty_bytes : BencodeValue → Bool
is_nonempty_bytes (bytes v) = not (length v == 0)
is_nonempty_bytes _ = false

-- No part of a path is empty or not a byte string.
unfoldable pub good_parts : Nodes → Bool
good_parts no_nodes = true
good_parts (node_then part rest) = is_nonempty_bytes (value_of part) && good_parts rest

abbrev pub has_parts : Nodes → Bool
has_parts no_nodes = false
has_parts (node_then part rest) = true

abbrev pub good_path : BencodeValue → Bool
good_path (list parts) = has_parts parts && good_parts parts
good_path _ = false

-- The length of one file of the list, with a good path.
unfoldable pub file_length : BencodeNode → Option ℕ
unfolding integer_field good_parts
file_length file = and_then (dictionary_of file) (λ fields.
    and_then (integer_field fields (ascii "length")) (λ z. and_then (to_u64 z) (λ size.
      and_then (find (ascii "path") fields)
        (λ path. if good_path (value_of path) then some size else none))))

-- The `try_fold` over the files.
unfoldable pub sum_files : ℕ → Nodes → Option ℕ
unfolding file_length
sum_files total no_nodes = some total
sum_files total (node_then file rest) =
    and_then (file_length file)
      (λ size. and_then (checked_add total size) (λ next. sum_files next rest))

unfoldable pub files_length : BencodeValue → Option ℕ
unfolding sum_files
files_length (list files) = if has_parts files then sum_files 0 files else none
files_length _ = none

unfoldable pub v1_payload_length : Entries → Option ℕ
unfolding files_length
v1_payload_length pairs = elim (find (ascii "length") pairs) [
  | some size ↦ elim (find (ascii "files") pairs) [
    | none ↦ and_then (integer_of (value_of size)) to_u64
    | some files ↦ none
  ]
  | none ↦ elim (find (ascii "files") pairs) [
    | none ↦ none
    | some files ↦ files_length (value_of files)
  ]
]

-- A leaf of the file tree.
unfoldable pub leaf_length : Entries → Option ℕ
unfolding integer_field bytes_field
leaf_length leaf = and_then (integer_field leaf (ascii "length")) (λ z. and_then (to_u64 z) (λ size.
    if ltb 0 size && elim (bytes_field leaf (ascii "pieces root")) [
      | none ↦ true
      | some root ↦ not (length root == 32)
    ]
    then none
    else some size))

abbrev pub is_leaf : Bytes → Entries → Bool
is_leaf name no_entries = length name == 0
is_leaf name (entry_then other n rest) = false

-- `tree_value` is `dictionary` and the recursive call; `sum_tree` is the `try_fold`.
unfoldable mutual
  unfolding leaf_length

  pub v2_tree_length : Entries → Option ℕ
  v2_tree_length no_entries = none
  v2_tree_length (entry_then name n rest) =
      let leaf = and_then (dictionary_of n) leaf_length in
      let whole =
        if length name == 0
        then none
        else and_then (tree_node n)
            (λ size. and_then (checked_add 0 size) (λ total. sum_tree total rest)) in
      if is_leaf name rest then leaf else whole

  pub sum_tree : ℕ → Entries → Option ℕ
  sum_tree total no_entries = some total
  sum_tree total (entry_then name n rest) =
      if length name == 0
      then none
      else and_then (tree_node n)
          (λ size. and_then (checked_add total size) (λ next. sum_tree next rest))

  pub tree_node : BencodeNode → Option ℕ
  tree_node (node v start stop) = tree_value v

  pub tree_value : BencodeValue → Option ℕ
  tree_value (dictionary pairs) = v2_tree_length pairs
  tree_value (bytes v) = none
  tree_value (integer z) = none
  tree_value (list items) = none

abbrev pub is_two : Option ℤ → Bool
is_two none = false
is_two (some (pos n)) = n == 2
is_two (some (negsuc n)) = false

abbrev pub positive : ℤ → Option ℕ
positive (pos zero) = none
positive (pos (suc n)) = some (suc n)
positive (negsuc n) = none

-- The test of `is_v1`: the pieces and their expected number are there and agree.
abbrev pub pieces_agree : Option Bytes → Option ℕ → Bool
pieces_agree none expected = false
pieces_agree (some pieces) none = false
pieces_agree (some pieces) (some number) = length pieces == min (number * 20) (2 ^ 64 - 1)

abbrev pub same_length : Option ℕ → Option ℕ → Bool
same_length none none = true
same_length none (some m) = false
same_length (some n) none = false
same_length (some n) (some m) = n == m

abbrev pub kind_of : Bool → Bool → Option TorrentKind
kind_of true false = some v1
kind_of false true = some v2
kind_of true true = some hybrid
kind_of false false = none

abbrev pub v1_pieces_of : Entries → Option Bytes
v1_pieces_of pairs = bytes_field pairs (ascii "pieces")

abbrev pub meta_version_of : Entries → Option ℤ
meta_version_of pairs = integer_field pairs (ascii "meta version")

-- `is_v1` and `is_v2` of an info dictionary with a positive piece length.
unfoldable pub has_v1 : Entries → ℕ → Bool
unfolding bytes_field v1_payload_length div_ceil
has_v1 pairs piece =
    pieces_agree (v1_pieces_of pairs)
      (and_then (v1_payload_length pairs) (λ size. some (div_ceil size piece)))

abbrev pub v2_length_of : Entries → Option ℕ
v2_length_of pairs =
    and_then (and_then (find (ascii "file tree") pairs) dictionary_of) v2_tree_length

unfoldable pub has_v2 : Entries → Bool
unfolding integer_field v2_tree_length
has_v2 pairs = is_two (meta_version_of pairs) && is_some (v2_length_of pairs)

-- The checks between the fields and the kind.
unfoldable pub check_kind : Entries → ℕ → Result MetainfoError TorrentKind
unfolding has_v1 has_v2
check_kind pairs piece = do
  guard (not (is_some (meta_version_of pairs) && not (is_two (meta_version_of pairs))))
      (invalid_field meta_version)
  guard (not (is_some (v1_pieces_of pairs) && not (has_v1 pairs piece))) (invalid_field v1_pieces)
  guard (not (is_some (meta_version_of pairs) && not (has_v2 pairs))) (invalid_field v2_file_tree)
  guard
      (not (
        (has_v1 pairs piece && has_v2 pairs)
        && not (same_length (v1_payload_length pairs) (v2_length_of pairs))))
      (invalid_field hybrid_length)
  ok_or (kind_of (has_v1 pairs piece) (has_v2 pairs)) unsupported

abbrev pub parsed_metainfo : Result Failure BencodeNode → Result MetainfoError BencodeNode
parsed_metainfo (ok n) = ok n
parsed_metainfo (err e) = err (bencode e)

abbrev pub when {ℓ} : {A : Type ℓ} → Bool → A → Option A
when true a = some a
when false a = none

-- `sha1` and `sha256` are the digests, and `hex` is `hex::encode`.
module _ (sha1 : Bytes → Bytes) (sha256 : Bytes → Bytes) (hex : Bytes → Bytes) where
  unfoldable pub identity_of : Bytes → BencodeNode → Entries → Result MetainfoError TorrentIdentity
  unfolding check_kind
  identity_of metainfo info pairs = do
    piece ←
        ok_or (and_then (integer_field pairs (ascii "piece length")) positive)
          (invalid_field piece_length)
    kind ← check_kind pairs piece
    let raw_info = take (end_of info - start_of info) (drop (start_of info) metainfo)
    ok (record {
      kind = kind;
      btih = when (has_v1 pairs piece) (hex (sha1 raw_info));
      btmh_sha256 = when (has_v2 pairs) (hex (sha256 raw_info));
    })

  unfoldable pub torrent_identity : Bytes → Result MetainfoError TorrentIdentity
  unfolding identity_of entries_of find
  torrent_identity metainfo = do
    root ← parsed_metainfo (parse_bencode metainfo)
    root_pairs ← ok_or (dictionary_of root) missing_info
    info ← ok_or (find (ascii "info") root_pairs) missing_info
    info_pairs ← ok_or (dictionary_of info) missing_info
    identity_of metainfo info info_pairs
