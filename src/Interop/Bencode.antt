-- ===== src/Interop/Bencode.antt =====
-- `parse_bencode` and its `Parser`. The input is a parameter of the section; a method returns its
-- result and the new position and count. `value_start.checked_add(length)` does not overflow: a
-- position is at most the length of the input, 4 MiB.
pub mod Decimal
pub mod Emit
pub mod Canonical
pub mod Strict
pub mod Tokens
pub mod Sound
use triptorrent.Base.{
  ℕ, zero, suc, ◌+◌, ◌-◌, ◌*◌, ◌^◌, List, [], ◌∷◌, Bool, true, false, not, ◌&&◌, ◌||◌, Option, none,
  some, min, length, get_elem?, take, drop, all, ltb, leb, ◌==◌, if◌then◌else◌, Result, ok, err,
  guard, ok_or, ◌>>=◌, ◌>>◌,
}
use triptorrent.Base.Bytes.{Bytes, bytes_eq}
use triptorrent.Base.Dict.{bytes_lt}
use triptorrent.Interop.{max_bencode_depth, max_bencode_input, max_bencode_nodes}
use Decimal.{ℤ, is_digit, parse_usize, parse_i64}

mutual
  -- A value with the range of its bytes.
  pub data BencodeNode : Type 0 where
    node : BencodeValue → ℕ → ℕ → BencodeNode

  pub data BencodeValue : Type 0 where
    bytes : Bytes → BencodeValue
    integer : ℤ → BencodeValue
    list : Nodes → BencodeValue
    dictionary : Entries → BencodeValue

  pub data Nodes : Type 0 where
    no_nodes : Nodes
    node_then : BencodeNode → Nodes → Nodes

  pub data Entries : Type 0 where
    no_entries : Entries
    entry_then : Bytes → BencodeNode → Entries → Entries

pub data BencodeError : Type 0 where
  truncated : BencodeError
  invalid unsorted_dictionary trailing_bytes : ℕ → BencodeError
  too_deep too_large too_many_nodes : BencodeError

-- An error of the source, or the end of the fuel.
pub data Failure : Type 0 where
  failed : BencodeError → Failure
  out_of_fuel : Failure

pub record Parser : Type 0 where
  pub position : ℕ
  pub nodes : ℕ

abbrev pub Parsed : Type 0 → Type 0
Parsed A = Result Failure (A × Parser)

-- `iter().position(..)`
unfoldable pub index_of : ℕ → Bytes → Option ℕ
index_of token [] = none
index_of token (b ∷ bs) =
    if b == token then some 0 else elim (index_of token bs) [ none ↦ none | some i ↦ some (suc i) ]

abbrev pub head_is : ℕ → Bytes → Bool
head_is b [] = false
head_is b (c ∷ s) = c == b

-- The bytes of an integer: digits, the first of them or a sign.
unfoldable pub all_signed : Bytes → Bool
unfolding is_digit
all_signed [] = true
all_signed (c ∷ s) = (is_digit c || c == b'-') && all is_digit s

-- The refusals of `parse_integer`, in their order.
unfoldable pub bad_integer : Bytes → Bool
unfolding bytes_eq all_signed
bad_integer encoded =
    length encoded == 0
    || (bytes_eq encoded (b'-' ∷ b'0' ∷ [])
        || ((head_is b'0' encoded && ltb 1 (length encoded))
            || ((bytes_eq (take 2 encoded) (b'-' ∷ b'0' ∷ []) && ltb 2 (length encoded))
                || ((head_is b'-' encoded && length encoded == 1) || not (all_signed encoded)))))

-- The refusals of `parse_bytes`.
unfoldable pub bad_length : Bytes → Bool
unfolding is_digit
bad_length encoded =
    length encoded == 0
    || ((head_is b'0' encoded && ltb 1 (length encoded)) || not (all is_digit encoded))

abbrev pub next_is : ℕ → Option ℕ → Bool
next_is token none = false
next_is token (some b) = b == token

abbrev pub next_is_digit : Option ℕ → Bool
next_is_digit none = false
next_is_digit (some b) = leb b'0' b && leb b b'9'

-- `previous.is_some_and(|candidate| candidate >= key)`
abbrev pub not_below : Option Bytes → Bytes → Bool
not_below none key = false
not_below (some candidate) key = not (bytes_lt candidate key)

module _ (input : Bytes) where
  unfoldable pub find_terminator : ℕ → Parser → Result Failure ℕ
  unfolding index_of
  find_terminator token s = elim (index_of token (drop s.position input)) [
    | none ↦ err (failed truncated)
    | some relative ↦ ok (s.position + relative)
  ]

  -- `&self.input[start..end]`
  abbrev pub slice : ℕ → ℕ → Bytes
  slice start stop = take (stop - start) (drop start input)

  unfoldable pub parse_integer : Parser → Parsed BencodeValue
  unfolding find_terminator bad_integer parse_i64
  parse_integer s = do
    let start = s.position + 1
    stop ← find_terminator b'e' (record s { position = start })
    let encoded = slice start stop
    guard (not (bad_integer encoded)) (failed (invalid start))
    z ← ok_or (parse_i64 encoded) (failed (invalid start))
    ok (integer z, record s { position = stop + 1 })

  unfoldable pub parse_bytes : Parser → Parsed Bytes
  unfolding find_terminator bad_length parse_usize
  parse_bytes s = do
    colon ← find_terminator b':' s
    let encoded = slice s.position colon
    guard (not (bad_length encoded)) (failed (invalid s.position))
    size ← ok_or (parse_usize encoded) (failed (invalid s.position))
    let value_start = colon + 1
    guard (leb (value_start + size) (length input)) (failed truncated)
    ok (slice value_start (value_start + size), record s { position = value_start + size })

  -- Each call costs a unit of fuel. `parse_list` and `parse_dictionary` go on from behind the
  -- opening byte; a call of either is one round of its loop.
  unfoldable mutual
    pub parse_node : ℕ → ℕ → Parser → Parsed BencodeNode
    parse_node zero depth s = err out_of_fuel
    parse_node (suc f) depth s = do
      guard (not (ltb max_bencode_depth depth)) (failed too_deep)
      let counted = record s { nodes = min (s.nodes + 1) (2 ^ 64 - 1) }
      guard (not (ltb max_bencode_nodes counted.nodes)) (failed too_many_nodes)
      token ← ok_or (get_elem? input s.position) (failed truncated)
      parsed ← parse_value f token depth counted
      ok (node parsed.0 s.position parsed.1.position, parsed.1)

    pub parse_value : ℕ → ℕ → ℕ → Parser → Parsed BencodeValue
    parse_value zero token depth s = err out_of_fuel
    parse_value (suc f) token depth s =
        let inside = record s { position = s.position + 1 } in
        let items = (do r ← parse_list f depth inside; ok (list r.0, r.1)) in
        let entries = (do r ← parse_dictionary f depth none inside; ok (dictionary r.0, r.1)) in
        if token == b'i'
        then parse_integer s
        else if token == b'l'
        then items
        else if token == b'd'
        then entries
        else if leb b'0' token && leb token b'9'
        then (do r ← parse_bytes s; ok (bytes r.0, r.1))
        else err (failed (invalid s.position))

    pub parse_list : ℕ → ℕ → Parser → Parsed Nodes
    parse_list zero depth s = err out_of_fuel
    parse_list (suc f) depth s =
        let more = do
          item ← parse_node f (depth + 1) s
          rest ← parse_list f depth item.1
          ok (node_then item.0 rest.0, rest.1)
        in if next_is b'e' (get_elem? input s.position)
          then ok (no_nodes, record s { position = s.position + 1 })
          else more

    pub parse_dictionary : ℕ → ℕ → Option Bytes → Parser → Parsed Entries
    parse_dictionary zero depth previous s = err out_of_fuel
    parse_dictionary (suc f) depth previous s =
        let more = do
          guard (next_is_digit (get_elem? input s.position)) (failed (invalid s.position))
          key ← parse_bytes s
          guard (not (not_below previous key.0)) (failed (unsorted_dictionary s.position))
          item ← parse_node f (depth + 1) key.1
          rest ← parse_dictionary f depth (some key.0) item.1
          ok (entry_then key.0 item.0 rest.0, rest.1)
        in if next_is b'e' (get_elem? input s.position)
          then ok (no_entries, record s { position = s.position + 1 })
          else more

unfoldable pub parse_bencode : Bytes → Result Failure BencodeNode
unfolding parse_node
parse_bencode input = do
  guard (not (ltb max_bencode_input (length input))) (failed too_large)
  parsed ← parse_node input (3 * length input + 3) 0 (record { position = 0; nodes = 0 })
  guard (parsed.1.position == length input) (failed (trailing_bytes parsed.1.position))
  ok parsed.0
