-- ===== src/LongestPrefix/RoundTrip.antt =====
-- What the builder writes is what the reader reads.
use matchy.Base.{
  ℕ, ◌+◌, ◌*◌, ◌<◌, ◌≡◌, ◌∙◌, arith, List, ◌++◌, length, get_elem?, get_elem?_lt,
  get_elem?-append_left, some, ok,
}
use matchy.Mmdb.Types.{node_bytes}
use matchy.Mmdb.Types
use matchy.Mmdb.Tree.{SearchTree, read_record, calculate_data_offset}
use matchy.IpTree.{Node, IpTreeBuilder, entry}
use matchy.IpTree.Bounds.{Ranged, AllInRange-get}
use matchy.IpTree.Build.{build, pointer_to_value}
use matchy.LongestPrefix.Records.{limit, header_of, read_record-bytes}
use matchy.LongestPrefix.Written.{value, value-lt, build_lem}

-- Building a tree whose pointers are in range, and whose values fit the record size, succeeds with
-- `node_count` nodes of `node_bytes` bytes each. In front of any other bytes the reader gets back both
-- pointers of every node: a node as its id, an empty pointer as the node count, data as its offset behind
-- the node count and the separator.
pub build-read_record :
    (version : Types.IpVersion) (b : IpTreeBuilder) (d : ℕ) (rest : List ℕ) (i : ℕ) (n : Node)
    → Ranged d b.nodes
    → length b.nodes + 16 + d < limit b.record_size
    → get_elem? b.nodes i ≡ some n
    → (tree : List ℕ) × (build b ≡ ok (tree, length b.nodes))
      × (length tree ≡ length b.nodes * node_bytes b.record_size)
      × let t : SearchTree = record {
        bytes = tree ++ rest;
        header = header_of b.record_size version (length b.nodes);
      } in
        (read_record t i 0 ≡ ok (value (length b.nodes) n.left))
        × (read_record t i 1 ≡ ok (value (length b.nodes) n.right))
build-read_record version b d rest i n ranged room at =
    let (tree, builds, size, holds) = build_lem b d ranged room in
    let count = length b.nodes in
    let (hl, hr) = AllInRange-get count d i b.nodes at ranged in
    (
      tree,
      builds,
      size,
      read_record-bytes b.record_size version (tree ++ rest) count i (value count n.left)
          (value count n.right) (get_elem?_lt b.nodes i at)
          (λ m byte g.
            let held = holds i n at m byte g in
            get_elem?-append_left tree rest _ (get_elem?_lt tree _ held) ∙ held)
          (value-lt b.record_size count d room n.left hl)
          (value-lt b.record_size count d room n.right hr),
    )

-- The reader gets the data offset back from the value that `pointer_to_value` computes for it.
pub calculate_data_offset-pointer_to_value :
    (t : SearchTree) (offset len v : ℕ)
    → pointer_to_value (entry offset len) t.header.node_count ≡ ok v
    → calculate_data_offset t v ≡ ok offset
unfolding pointer_to_value calculate_data_offset
calculate_data_offset-pointer_to_value t offset len v h = ground arith
