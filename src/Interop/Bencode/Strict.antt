-- ===== src/Interop/Bencode/Strict.antt =====
-- What an accepted parse has established: a family of results, the bytes consumed, and strict trees.
use triptorrent.Base.{
  ℕ, suc, ◌+◌, ◌≤◌, ◌≡◌, refl, sym, ap, ◌∙◌, subst, ◌++◌, Bool, true, false, Option, none, some,
  length, drop, Result, ok, err, guard, ok_or, ◌>>=◌, ◌>>◌, if◌then◌else◌, arith, append_assoc,
  length-append,
}
use triptorrent.Base.Bytes.{Bytes}
use triptorrent.Interop.{max_bencode_depth}
use triptorrent.Interop.Bencode.{
  BencodeNode, BencodeValue, Nodes, Entries, node, bytes, integer, list, dictionary, no_nodes,
  node_then, no_entries, entry_then, BencodeError, Failure, failed, out_of_fuel, Parser, not_below,
}
use triptorrent.Interop.Bencode.Emit.{emit}

-- A result with the property, or an error of the source: never the end of the fuel.
pub data Returns {A : Type 0} (P : A → Type 0) : Result Failure A → Type 0 where
  accepted : (a : A) → P a → Returns P (ok a)
  refused : (e : BencodeError) → Returns P (err (failed e))

module _ {A : Type 0} {B : Type 0} {P : A → Type 0} {Q : B → Type 0} where
  pub Returns-bind :
      {r : Result Failure A} {f : A → Result Failure B}
      → Returns P r
      → ((a : A) → P a → Returns Q (f a))
      → Returns Q (r >>= f)
  Returns-bind (accepted a p) next = next a p
  Returns-bind (refused e) next = refused e

module _ {A : Type 0} {P : A → Type 0} {Q : A → Type 0} where
  pub Returns-weaken : {r : Result Failure A} → Returns P r → ((a : A) → P a → Q a) → Returns Q r
  Returns-weaken (accepted a p) weaker = accepted a (weaker a p)
  Returns-weaken (refused e) weaker = refused e

module _ {B : Type 0} {Q : B → Type 0} where
  pub Returns-guard :
      (t : Bool) (e : BencodeError) {r : Result Failure B}
      → (t ≡ true → Returns Q r)
      → Returns Q (guard t (failed e) >> r)
  Returns-guard true e next = next refl
  Returns-guard false e next = refused e

  pub Returns-some :
      {A : Type 0} (o : Option A) (e : BencodeError) {f : A → Result Failure B}
      → ((a : A) → o ≡ some a → Returns Q (f a))
      → Returns Q (ok_or o (failed e) >>= f)
  Returns-some none e next = refused e
  Returns-some (some a) e next = next a refl

  pub Returns-if :
      (t : Bool) {r r' : Result Failure B}
      → (t ≡ true → Returns Q r)
      → (t ≡ false → Returns Q r')
      → Returns Q (if t then r else r')
  Returns-if true yes_case no_case = yes_case refl
  Returns-if false yes_case no_case = no_case refl

  pub Returns-ok : {b : B} {r : Result Failure B} → Returns Q r → r ≡ ok b → Q b
  Returns-ok {b} (accepted a q) h = let same : a ≡ b = cc in subst Q same q
  Returns-ok (refused e) h = cc

pub Returns-fuel :
    {A : Type 0} {P : A → Type 0} {r : Result Failure A} → Returns P r → r ≡ err out_of_fuel → ⊥
Returns-fuel (accepted a p) h = cc
Returns-fuel (refused e) h = cc

-- The number of values in a tree, its root included.
unfoldable mutual
  pub count : BencodeValue → ℕ
  count (bytes v) = 1
  count (integer z) = 1
  count (list items) = suc (count_nodes items)
  count (dictionary entries) = suc (count_entries entries)

  pub count_node : BencodeNode → ℕ
  count_node (node v start stop) = count v

  pub count_nodes : Nodes → ℕ
  count_nodes no_nodes = 0
  count_nodes (node_then item rest) = count_node item + count_nodes rest

  pub count_entries : Entries → ℕ
  count_entries no_entries = 0
  count_entries (entry_then key item rest) = count_node item + count_entries rest

module _ (input : Bytes) where
  -- From `s` to `s'` the parser has consumed the bytes `e` and met `n` values.
  pub record Reads (s : Parser) (e : Bytes) (n : ℕ) (s' : Parser) : Type 0 where
    pub rest : drop s.position input ≡ e ++ drop s'.position input
    pub moved : s'.position ≡ s.position + length e
    pub counted : s'.nodes ≡ s.nodes + n

  pub Reads-then :
      (s t u : Parser) (e d : Bytes) (n m : ℕ)
      → Reads s e n t
      → Reads t d m u
      → Reads s (e ++ d) (n + m) u
  Reads-then s t u e d n m h k = record {
    rest = h.rest ∙ ap (λ r. e ++ r) k.rest ∙ sym (append_assoc e d _);
    moved = omega (arith, h.moved, k.moved, length-append e d);
    counted = omega (arith, h.counted, k.counted);
  }

  pub Reads-count : (s t : Parser) (e : Bytes) (n m : ℕ) → n ≡ m → Reads s e n t → Reads s e m t
  Reads-count s t e n m same h = subst (λ k. Reads s e k t) same h

  -- The bytes that are left.
  abbrev pub remaining : Parser → ℕ
  remaining s = length (drop s.position input)

  pub Reads-remaining :
      (s t : Parser) (e : Bytes) (n : ℕ) → Reads s e n t → remaining s ≡ length e + remaining t
  Reads-remaining s t e n h = ap length h.rest ∙ length-append e _

  -- Within the depth limit, each node's range holds the encoding of its value, and the keys of each
  -- dictionary are strictly increasing.
  abbrev mutual
    pub Strict : ℕ → BencodeNode → Type 0
    Strict depth (node v start stop) =
        (depth ≤ max_bencode_depth)
        × (drop start input ≡ emit v ++ drop stop input)
        × (stop ≡ start + length (emit v))
        × StrictValue depth v

    pub StrictValue : ℕ → BencodeValue → Type 0
    StrictValue depth (bytes v) = Unit {0}
    StrictValue depth (integer z) = Unit {0}
    StrictValue depth (list items) = StrictNodes depth items
    StrictValue depth (dictionary entries) = StrictEntries depth none entries

    pub StrictNodes : ℕ → Nodes → Type 0
    StrictNodes depth no_nodes = Unit {0}
    StrictNodes depth (node_then item rest) = Strict (depth + 1) item × StrictNodes depth rest

    pub StrictEntries : ℕ → Option Bytes → Entries → Type 0
    StrictEntries depth previous no_entries = Unit {0}
    StrictEntries depth previous (entry_then key item rest) =
        (not_below previous key ≡ false)
        × Strict (depth + 1) item
        × StrictEntries depth (some key) rest
