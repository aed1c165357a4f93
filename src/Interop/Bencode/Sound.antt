-- ===== src/Interop/Bencode/Sound.antt =====
-- The parser accepts only canonical encodings, within its limits, and its fuel is enough.
use triptorrent.Base.{
  ℕ, zero, suc, ◌+◌, ◌-◌, ◌*◌, ◌^◌, ◌≤◌, ◌<◌, ◌≡◌, ◌≢◌, refl, sym, ap, ◌∙◌, subst, [], ◌∷◌, ◌++◌,
  true, not, ◌&&◌, Option, none, some, min, length, get_elem?, drop, ltb, leb, ◌==◌, ok, err, arith,
  length-append, append-nil,
}
use triptorrent.Base.Bytes.{Bytes}
use triptorrent.Interop.{max_bencode_depth, max_bencode_input, max_bencode_nodes}
use triptorrent.Interop.Bencode.{
  BencodeNode, BencodeValue, Nodes, Entries, node, bytes, integer, list, dictionary, no_nodes,
  node_then, no_entries, entry_then, truncated, invalid, unsorted_dictionary, trailing_bytes,
  too_deep, too_large, too_many_nodes, out_of_fuel, Parser, next_is, next_is_digit, not_below,
  parse_node, parse_value, parse_list, parse_dictionary, parse_bencode,
}
use triptorrent.Interop.Bencode.Decimal.{ℤ, decimal}
use triptorrent.Interop.Bencode.Emit.{emit, emit_node, emit_nodes, emit_entries}
use triptorrent.Interop.Bencode.Strict.{
  Returns, accepted, refused, Returns-bind, Returns-guard, Returns-some, Returns-if, Returns-ok,
  Returns-fuel, count, count_node, count_nodes, count_entries, Returns-weaken, Reads, Reads-then,
  Reads-count, Reads-remaining, remaining, Strict, StrictValue, StrictNodes, StrictEntries,
}
use triptorrent.Interop.Bencode.Tokens.{
  drop-get, parse_integer-Returns, parse_bytes-Returns, not-true,
}

pub emit-pos : (v : BencodeValue) → 0 < length (emit v)
unfolding emit
emit-pos (bytes v) = omega (arith, length-append (decimal (length v)) (b':' ∷ v))
emit-pos (integer z) = omega arith
emit-pos (list items) = omega arith
emit-pos (dictionary pairs) = omega arith

emit_node-pos : (n : BencodeNode) → 0 < length (emit_node n)
unfolding emit
emit_node-pos (node v start stop) = emit-pos v

count-pos : (v : BencodeValue) → 0 < count v
unfolding count
count-pos (bytes v) = omega arith
count-pos (integer z) = omega arith
count-pos (list items) = omega arith
count-pos (dictionary pairs) = omega arith

next_is-get : (token : ℕ) (o : Option ℕ) → next_is token o ≡ true → o ≡ some token
next_is-get token none h = cc
next_is-get token (some b) h = ground arith

drop_all : (xs : Bytes) → drop (length xs) xs ≡ []
unfolding drop
drop_all [] = refl
drop_all (x ∷ xs) = drop_all xs

counted_up :
    (n : ℕ)
    → not (ltb max_bencode_nodes (min (n + 1) (2 ^ 64 - 1))) ≡ true
    → min (n + 1) (2 ^ 64 - 1) ≡ n + 1
counted_up n h = ground arith

within_limit : (n : ℕ) → not (ltb max_bencode_nodes n) ≡ true → n ≤ max_bencode_nodes
within_limit n h = ground arith

below_limit : (n : ℕ) → not (ltb max_bencode_depth n) ≡ true → n ≤ max_bencode_depth
below_limit n h = ground arith

module _ (input : Bytes) where
  -- What the parser has established of a node, of the rest of a list and of that of a dictionary.
  abbrev NodeRead : ℕ → Parser → BencodeNode × Parser → Type 0
  NodeRead depth s r =
      Reads input s (emit_node r.0) (count_node r.0) r.1
      × Strict input depth r.0
      × (r.1.nodes ≤ max_bencode_nodes)

  abbrev ValueRead : ℕ → Parser → BencodeValue × Parser → Type 0
  ValueRead depth s r =
      Reads input s (emit r.0) (count r.0 - 1) r.1
      × StrictValue input depth r.0
      × (r.1.nodes ≤ max_bencode_nodes)

  abbrev NodesRead : ℕ → Parser → Nodes × Parser → Type 0
  NodesRead depth s r =
      Reads input s (emit_nodes r.0) (count_nodes r.0) r.1
      × StrictNodes input depth r.0
      × (r.1.nodes ≤ max_bencode_nodes)

  abbrev EntriesRead : ℕ → Option Bytes → Parser → Entries × Parser → Type 0
  EntriesRead depth previous s r =
      Reads input s (emit_entries r.0) (count_entries r.0) r.1
      × StrictEntries input depth previous r.0
      × (r.1.nodes ≤ max_bencode_nodes)

  -- The closing `e` of a list or a dictionary.
  closing :
      (s : Parser)
      → get_elem? input s.position ≡ some b'e'
      → Reads input s (b'e' ∷ []) 0 (record s { position = s.position + 1 })
  closing s h = record {
    rest = drop-get input s.position b'e' h;
    moved = omega arith;
    counted = omega arith;
  }

  -- The opening byte of a list or a dictionary, in front of what is read behind it.
  opened :
      (s t : Parser) (token : ℕ) (e : Bytes) (n m : ℕ)
      → get_elem? input s.position ≡ some token
      → n ≡ m
      → Reads input (record s { position = s.position + 1 }) e n t
      → Reads input s (token ∷ e) m t
  opened s t token e n m h same r = record {
    rest = drop-get input s.position token h ∙ ap (λ x. token ∷ x) r.rest;
    moved = omega (arith, r.moved);
    counted = omega (arith, r.counted, same);
  }

  opened_remaining :
      (s : Parser) (token : ℕ)
      → get_elem? input s.position ≡ some token
      → remaining input s ≡ suc (remaining input (record s { position = s.position + 1 }))
  opened_remaining s token h = ap length (drop-get input s.position token h)

  -- A node from its value: `counted` is the parser with the node counted.
  node_read :
      (depth : ℕ) (s : Parser) (r : BencodeValue × Parser)
      → depth ≤ max_bencode_depth
      → ValueRead depth (record s { nodes = s.nodes + 1 }) r
      → NodeRead depth s (node r.0 s.position r.1.position, r.1)
  unfolding emit count
  node_read depth s r shallow (reads, strict, few) = (
    record {
      rest = reads.rest;
      moved = reads.moved;
      counted = omega (arith, reads.counted, count-pos r.0);
    },
    (shallow, reads.rest, reads.moved, strict),
    few,
  )

  is_token :
      (s : Parser) (token expected : ℕ)
      → get_elem? input s.position ≡ some token
      → (token == expected) ≡ true
      → get_elem? input s.position ≡ some expected
  is_token s token expected here h = here ∙ ap some (ground arith)

  integer_value :
      (depth : ℕ) (s : Parser) (r : BencodeValue × Parser)
      → s.nodes ≤ max_bencode_nodes
      → (z : ℤ) → r.0 ≡ integer z
      → Reads input s (emit r.0) 0 r.1
      → ValueRead depth s r
  unfolding count
  integer_value depth s r few z is_integer read =
      let one : 0 ≡ count r.0 - 1 = rw is_integer (omega arith) in
      let plain : StrictValue input depth r.0 =
        subst (StrictValue input depth) (sym is_integer) tt in
      (Reads-count input s r.1 (emit r.0) 0 _ one read, plain, omega (arith, read.counted))

  mutual
    unfolding parse_node emit count

    parse_node-Returns :
        (f depth : ℕ) (s : Parser)
        → 3 * remaining input s + 1 ≤ f
        → Returns (NodeRead depth s) (parse_node input f depth s)
    parse_node-Returns zero depth s h = absurd (omega arith)
    parse_node-Returns (suc f) depth s h =
        Returns-guard (not (ltb max_bencode_depth depth)) too_deep (λ shallow.
          Returns-guard (not (ltb max_bencode_nodes (min (s.nodes + 1) (2 ^ 64 - 1))))
            too_many_nodes
            (λ few. Returns-some (get_elem? input s.position) truncated (λ token here.
              let grown : min (s.nodes + 1) (2 ^ 64 - 1) ≡ s.nodes + 1 = counted_up s.nodes few in
              let more = drop-get input s.position token here in
              rw grown (
                Returns-bind
                  (parse_value-Returns f token depth (record s { nodes = s.nodes + 1 }) here
                    (rw grown at (within_limit _ few)) (omega arith))
                  (λ r read.
                    accepted (node r.0 s.position r.1.position, r.1)
                      (node_read depth s r (below_limit depth shallow) read))))))

    parse_value-Returns :
        (f token depth : ℕ) (s : Parser)
        → get_elem? input s.position ≡ some token
        → s.nodes ≤ max_bencode_nodes
        → 3 * remaining input s ≤ f
        → Returns (ValueRead depth s) (parse_value input f token depth s)
    parse_value-Returns zero token depth s here few h =
        absurd (omega (arith, opened_remaining s token here))
    parse_value-Returns (suc f) token depth s here few h =
        let left = opened_remaining s token here in
        Returns-if (token == b'i')
          (λ t.
            Returns-weaken (parse_integer-Returns input s (is_token s token b'i' here t))
              (λ r read. integer_value depth s r few read.0.0 read.0.1 read.1))
          (λ _.
            Returns-if (token == b'l')
              (λ t.
                Returns-bind
                  (parse_list-Returns f depth (record s { position = s.position + 1 }) few
                    (omega arith))
                  (λ r read.
                    accepted (list r.0, r.1)
                      (
                        opened s r.1 b'l' _ _ _ (is_token s token b'l' here t) (omega arith) read.0,
                        read.1,
                        read.2,
                      )))
              (λ _.
                Returns-if (token == b'd')
                  (λ t.
                    Returns-bind
                      (parse_dictionary-Returns f depth none
                        (record s { position = s.position + 1 }) few (omega arith))
                      (λ r read.
                        accepted (dictionary r.0, r.1)
                          (
                            opened s r.1 b'd' _ _ _ (is_token s token b'd' here t) (omega arith)
                                read.0,
                            read.1,
                            read.2,
                          )))
                  (λ _.
                    Returns-if (leb b'0' token && leb token b'9')
                      (λ _. Returns-bind (parse_bytes-Returns input s) (λ r read.
                        accepted (bytes r.0, r.1) (read, tt, omega (arith, read.counted))))
                      (λ _. refused (invalid s.position)))))

    parse_list-Returns :
        (f depth : ℕ) (s : Parser)
        → s.nodes ≤ max_bencode_nodes
        → 3 * remaining input s + 2 ≤ f
        → Returns (NodesRead depth s) (parse_list input f depth s)
    parse_list-Returns zero depth s few h = absurd (omega arith)
    parse_list-Returns (suc f) depth s few h =
        Returns-if (next_is b'e' (get_elem? input s.position))
          (λ t.
            accepted (no_nodes, record s { position = s.position + 1 })
              (closing s (next_is-get b'e' _ t), tt, few))
          (λ _. Returns-bind (parse_node-Returns f (depth + 1) s (omega arith)) (λ item read.
            let (reads, strict, bound) = read in
            let left = Reads-remaining input s item.1 _ _ reads in
            Returns-bind
              (parse_list-Returns f depth item.1 bound (omega (arith, left, emit_node-pos item.0)))
              (λ rest others.
                accepted (node_then item.0 rest.0, rest.1)
                  (
                    Reads-then input s item.1 rest.1 _ _ _ _ reads others.0,
                    (strict, others.1),
                    others.2,
                  ))))

    parse_dictionary-Returns :
        (f depth : ℕ) (previous : Option Bytes) (s : Parser)
        → s.nodes ≤ max_bencode_nodes
        → 3 * remaining input s + 2 ≤ f
        → Returns (EntriesRead depth previous s) (parse_dictionary input f depth previous s)
    parse_dictionary-Returns zero depth previous s few h = absurd (omega arith)
    parse_dictionary-Returns (suc f) depth previous s few h =
        Returns-if (next_is b'e' (get_elem? input s.position))
          (λ t.
            accepted (no_entries, record s { position = s.position + 1 })
              (closing s (next_is-get b'e' _ t), tt, few))
          (λ _.
            Returns-guard (next_is_digit (get_elem? input s.position)) (invalid s.position) (λ _.
              Returns-bind (parse_bytes-Returns input s) (λ key key_read.
                Returns-guard (not (not_below previous key.0)) (unsorted_dictionary s.position)
                  (λ sorted.
                    let key_left = Reads-remaining input s key.1 _ _ key_read in
                    Returns-bind (parse_node-Returns f (depth + 1) key.1 (omega (arith, key_left)))
                      (λ item read.
                        let (reads, strict, bound) = read in
                        let left = Reads-remaining input key.1 item.1 _ _ reads in
                        Returns-bind
                          (parse_dictionary-Returns f depth (some key.0) item.1 bound
                            (omega (arith, key_left, left, emit_node-pos item.0)))
                          (λ rest others.
                            accepted (entry_then key.0 item.0 rest.0, rest.1)
                              (
                                Reads-count input s rest.1 _ _ _ (omega arith) (
                                    Reads-then input s key.1 rest.1 _ _ 0 _ key_read (
                                      Reads-then input key.1 item.1 rest.1 _ _ _ _ reads others.0)),
                                (not-true _ sorted, strict, others.1),
                                others.2,
                              )))))))

whole_input :
    (input : Bytes) (r : BencodeNode × Parser)
    → Reads input (record { position = 0; nodes = 0 }) (emit_node r.0) (count_node r.0) r.1
    → r.1.position ≡ length input
    → input ≡ emit_node r.0
unfolding drop
whole_input input r read whole =
    let nothing : drop r.1.position input ≡ [] = ap (λ k. drop k input) whole ∙ drop_all input in
    read.rest ∙ ap (λ x. emit_node r.0 ++ x) nothing ∙ append-nil (emit_node r.0)

started_remaining :
    (input : Bytes)
    → 3 * remaining input (record { position = 0; nodes = 0 }) + 1 ≤ 3 * length input + 3
unfolding drop
started_remaining input = omega arith

parse_bencode-Returns :
    (input : Bytes)
    → Returns
        (λ n. (input ≡ emit_node n) × Strict input 0 n × (count_node n ≤ max_bencode_nodes))
        (parse_bencode input)
unfolding parse_bencode
parse_bencode-Returns input =
    Returns-guard (not (ltb max_bencode_input (length input))) too_large (λ small.
      Returns-bind
        (parse_node-Returns input (3 * length input + 3) 0 (record { position = 0; nodes = 0 })
          (started_remaining input))
        (λ r read.
          Returns-guard (r.1.position == length input) (trailing_bytes r.1.position) (λ whole.
            accepted r.0 (
              whole_input input r read.0 (ground arith),
              read.1,
              omega (arith, read.2, read.0.counted),
            ))))

-- An input that `parse_bencode` accepts is the canonical encoding of the value returned; each node
-- lies within the depth limit and its range holds its own encoding, dictionary keys are strictly
-- increasing, and the values are no more than the limit.
pub parse_bencode_sound :
    (input : Bytes) (n : BencodeNode)
    → parse_bencode input ≡ ok n
    → (input ≡ emit_node n) × Strict input 0 n × (count_node n ≤ max_bencode_nodes)
parse_bencode_sound input n h = Returns-ok (parse_bencode-Returns input) h

-- The fuel that `parse_bencode` starts with is enough for every input.
pub parse_bencode-ne-out_of_fuel : (input : Bytes) → parse_bencode input ≢ err out_of_fuel
parse_bencode-ne-out_of_fuel input h = Returns-fuel (parse_bencode-Returns input) h
