-- ===== src/Interop/Bencode/Emit.antt =====
-- The canonical encoding of a bencoded value.
use triptorrent.Base.{suc, [], ◌∷◌, ◌++◌, length}
use triptorrent.Base.Bytes.{Bytes}
use triptorrent.Interop.Bencode.{
  BencodeNode, BencodeValue, Nodes, Entries, node, bytes, integer, list, dictionary, no_nodes,
  node_then, no_entries, entry_then,
}
use triptorrent.Interop.Bencode.Decimal.{ℤ, pos, negsuc, decimal}

abbrev pub print_integer : ℤ → Bytes
print_integer (pos n) = decimal n
print_integer (negsuc n) = b'-' ∷ decimal (suc n)

abbrev pub emit_bytes : Bytes → Bytes
emit_bytes v = decimal (length v) ++ (b':' ∷ v)

unfoldable mutual
  pub emit : BencodeValue → Bytes
  emit (bytes v) = emit_bytes v
  emit (integer z) = b'i' ∷ (print_integer z ++ b'e' ∷ [])
  emit (list items) = b'l' ∷ emit_nodes items
  emit (dictionary entries) = b'd' ∷ emit_entries entries

  pub emit_node : BencodeNode → Bytes
  emit_node (node v start stop) = emit v

  pub emit_nodes : Nodes → Bytes
  emit_nodes no_nodes = b'e' ∷ []
  emit_nodes (node_then item rest) = emit_node item ++ emit_nodes rest

  pub emit_entries : Entries → Bytes
  emit_entries no_entries = b'e' ∷ []
  emit_entries (entry_then key item rest) = emit_bytes key ++ (emit_node item ++ emit_entries rest)
