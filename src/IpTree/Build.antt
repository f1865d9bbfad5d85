-- ===== src/IpTree/Build.antt =====
-- Serialising the tree: `build` and the writers of one node (src/ip_tree_builder.rs).
use Prim.Native.Nat.{bit_and, bit_or}
use matchy.Base.{
  ℕ, ◌+◌, ◌*◌, ◌%◌, ◌^◌, ltb, leb, if◌then◌else◌, List, [], ◌∷◌, length, replicate, Result, ok, err,
  ◌>>=◌, ◌>>◌, guard,
}
use matchy.Base.Results.{panic, other}
use matchy.Base.Bits.{shl, shr}
use matchy.Base.Bytes.{write_bytes}
use matchy.Mmdb.Types.{RecordSize, bits24, bits28, bits32, node_bytes}
use matchy.IpTree.{IpTreeBuilder, Node, NodePointer, node, entry, empty}

-- The assertion on a node id and the checked additions panic.
unfoldable pub pointer_to_value : NodePointer → ℕ → Result ℕ
pointer_to_value empty node_count = ok node_count
pointer_to_value (node id) node_count = if ltb id node_count then ok id else err panic
pointer_to_value (entry offset len) node_count =
    if ltb (node_count + 16 + offset) (2 ^ 32) then ok (node_count + 16 + offset) else err panic

-- `((x >> k) & 0xFF) as u8`
abbrev pub byte_at : ℕ → ℕ → ℕ
byte_at x k = bit_and (shr x k) 0xFF

abbrev pub bytes_24bit : ℕ → ℕ → List ℕ
bytes_24bit left right =
    byte_at left 16
    ∷ byte_at left 8
    ∷ bit_and left 0xFF
    ∷ byte_at right 16
    ∷ byte_at right 8
    ∷ bit_and right 0xFF
    ∷ []

abbrev pub bytes_28bit : ℕ → ℕ → List ℕ
bytes_28bit left right =
    byte_at left 16
    ∷ byte_at left 8
    ∷ bit_and left 0xFF
    ∷ bit_or (shl (bit_and (shr left 24) 0x0F) 4) (bit_and (shr right 24) 0x0F)
    ∷ byte_at right 16
    ∷ byte_at right 8
    ∷ bit_and right 0xFF
    ∷ []

abbrev pub bytes_32bit : ℕ → ℕ → List ℕ
bytes_32bit left right =
    byte_at left 24
    ∷ byte_at left 16
    ∷ byte_at left 8
    ∷ bit_and left 0xFF
    ∷ byte_at right 24
    ∷ byte_at right 16
    ∷ byte_at right 8
    ∷ bit_and right 0xFF
    ∷ []

-- The writers: a check of the range, and one assignment for each byte.
unfoldable pub write_24bit_node : List ℕ → ℕ → ℕ → ℕ → Result (List ℕ)
write_24bit_node tree id left right = do
  guard (leb (id * 6 + 6) (length tree)) other
  ok (write_bytes tree (id * 6) (bytes_24bit left right))

unfoldable pub write_28bit_node : List ℕ → ℕ → ℕ → ℕ → Result (List ℕ)
write_28bit_node tree id left right = do
  guard (leb (id * 7 + 7) (length tree)) other
  ok (write_bytes tree (id * 7) (bytes_28bit left right))

unfoldable pub write_32bit_node : List ℕ → ℕ → ℕ → ℕ → Result (List ℕ)
write_32bit_node tree id left right = do
  guard (leb (id * 8 + 8) (length tree)) other
  ok (write_bytes tree (id * 8) (bytes_32bit left right))

unfoldable pub write_values : RecordSize → List ℕ → ℕ → ℕ → ℕ → Result (List ℕ)
unfolding write_24bit_node write_28bit_node write_32bit_node
write_values bits24 tree id left right = write_24bit_node tree id left right
write_values bits28 tree id left right = write_28bit_node tree id left right
write_values bits32 tree id left right = write_32bit_node tree id left right

unfoldable pub write_node : RecordSize → ℕ → List ℕ → ℕ → Node → Result (List ℕ)
unfolding write_values pointer_to_value
write_node size node_count tree id n = do
  left ← pointer_to_value n.left node_count
  right ← pointer_to_value n.right node_count
  write_values size tree id left right

-- `for (node_id, node) in self.nodes.iter().enumerate()`
unfoldable pub write_nodes : RecordSize → ℕ → List ℕ → ℕ → List Node → Result (List ℕ)
unfolding write_node
write_nodes size node_count tree id [] = ok tree
write_nodes size node_count tree id (n ∷ ns) = do
  tree' ← write_node size node_count tree id n
  write_nodes size node_count tree' (id + 1) ns

-- The bytes and the node count, which is the length cast to `u32`.
unfoldable pub build : IpTreeBuilder → Result (List ℕ × ℕ)
unfolding write_nodes node_bytes
build b = do
  let node_count = length b.nodes % 2 ^ 32
  tree ←
      write_nodes b.record_size node_count (replicate (node_count * node_bytes b.record_size) 0) 0
        b.nodes
  ok (tree, node_count)
