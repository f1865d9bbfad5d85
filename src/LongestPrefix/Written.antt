-- ===== src/LongestPrefix/Written.antt =====
-- `build` writes every node of the arena into the bytes.
use matchy.Base.{
  ℕ, zero, suc, ◌+◌, ◌*◌, ◌^◌, ◌%◌, ◌≤◌, ◌<◌, ◌≡◌, refl, ◌∙◌, arith, ltb, leb, List, [], ◌∷◌,
  length, get_elem?, some, true, ok, get_elem?_lt, replicate, length-replicate, lt→ltb, subst,
}
use matchy.Base.Bytes.{write_bytes, length-write_bytes, write_bytes_before, write_bytes_at}
use matchy.Mmdb.Types.{RecordSize, bits24, bits28, bits32, node_bytes}
use mathlib.Core.Option.{some-injective}
use matchy.IpTree.{NodePointer, node, entry, empty, Node, IpTreeBuilder}
use matchy.IpTree.Bounds.{InRange, AllInRange, Ranged}
use matchy.IpTree.Build.{
  pointer_to_value, write_values, write_node, write_nodes, build, bytes_24bit,
}
use matchy.Mmdb.Types
use matchy.Mmdb.Tree.{SearchTree, read_record}
use matchy.LongestPrefix.Records.{bytes_of, limit, HoldsNode, header_of, read_24_low}

-- The record of a pointer in a tree of `count` nodes.
abbrev pub value : ℕ → NodePointer → ℕ
value count empty = count
value count (node id) = id
value count (entry offset len) = count + 16 + offset

limit-le : (size : RecordSize) → limit size ≤ 2 ^ 32
limit-le bits24 = omega arith
limit-le bits28 = omega arith
limit-le bits32 = omega arith

module _ (size : RecordSize) (count d : ℕ) (room : count + 16 + d < limit size) where
  pub value-lt : (p : NodePointer) → InRange count d p → value count p < limit size
  value-lt empty h = omega arith
  value-lt (node id) h = omega arith
  value-lt (entry o e) h = omega arith

  pub pointer_to_value_lem :
      (p : NodePointer) → InRange count d p → pointer_to_value p count ≡ ok (value count p)
  unfolding pointer_to_value
  pointer_to_value_lem empty h = refl
  pointer_to_value_lem (node id) h = ground arith
  pointer_to_value_lem (entry o e) h =
      let small = limit-le size in
      let fits : ltb (count + 16 + o) (2 ^ 32) ≡ true = lt→ltb _ _ (omega arith) in rw fits

write_values_lem :
    (size : RecordSize) (tree : List ℕ) (id l r : ℕ)
    → id * node_bytes size + node_bytes size ≤ length tree
    → write_values size tree id l r
      ≡ ok (write_bytes tree (id * node_bytes size) (bytes_of size l r))
unfolding write_values node_bytes
write_values_lem bits24 tree id l r room =
    let fits : leb (id * 6 + 6) (length tree) ≡ true = ground arith in rw fits
write_values_lem bits28 tree id l r room =
    let fits : leb (id * 7 + 7) (length tree) ≡ true = ground arith in rw fits
write_values_lem bits32 tree id l r room =
    let fits : leb (id * 8 + 8) (length tree) ≡ true = ground arith in rw fits

length-bytes_of : (size : RecordSize) (l r : ℕ) → length (bytes_of size l r) ≡ node_bytes size
unfolding node_bytes
length-bytes_of bits24 l r = refl
length-bytes_of bits28 l r = refl
length-bytes_of bits32 l r = refl

-- The bytes after the nodes `ns` have been written from the place of node `id` on.
record Written (size : RecordSize) (count : ℕ) (tree tree' : List ℕ) (id : ℕ) (ns : List Node)
    : Type 0 where
  size_same : length tree' ≡ length tree
  before : (j : ℕ) → j < id * node_bytes size → get_elem? tree' j ≡ get_elem? tree j
  at :
      (k : ℕ) (n : Node)
      → get_elem? ns k ≡ some n
      → HoldsNode size tree' (id + k) (value count n.left) (value count n.right)

module _ (size : RecordSize) (count d : ℕ) (room : count + 16 + d < limit size) where
  write_nodes_lem :
      (ns : List Node) (tree : List ℕ) (id : ℕ)
      → AllInRange count d ns
      → (id + length ns) * node_bytes size ≤ length tree
      → (tree' : List ℕ) × (write_nodes size count tree id ns ≡ ok tree')
        × Written size count tree tree' id ns
  unfolding write_nodes
  write_nodes_lem [] tree id h fits =
      (tree, refl, record { size_same = refl; before = λ j b. refl; at = λ k n e. absurd (cc) })
  write_nodes_lem (x ∷ ns) tree id (hl, hr, h) fits =
      let w = node_bytes size in
      let bytes = bytes_of size (value count x.left) (value count x.right) in
      let tree₁ = write_bytes tree (id * w) bytes in
      let len₁ : length tree₁ ≡ length tree = length-write_bytes bytes tree (id * w) in
      let here : id * w + w ≤ length tree = grind arith in
      let later : (id + 1 + length ns) * w ≤ length tree₁ = grind arith in
      let (tree', runs, done) = write_nodes_lem ns tree₁ (id + 1) h later in
      (
        tree',
        rw
            (
              pointer_to_value_lem size count d room x.left hl,
              pointer_to_value_lem size count d room x.right hr,
              write_values_lem size tree id (value count x.left) (value count x.right) here,
            )
            runs,
        record {
          size_same = done.size_same ∙ len₁;
          before = λ j b. done.before j (omega arith) ∙ write_bytes_before bytes tree (id * w) j b;
          at = elim [
            | zero ↦ λ n e.
                subst
                  (λ (z : Node).
                    HoldsNode size tree' (id + 0) (value count z.left) (value count z.right))
                  (some-injective x n e)
                  (λ m b g.
                    let inside = get_elem?_lt bytes m g in
                    let same_w : length bytes ≡ w =
                      length-bytes_of size (value count x.left) (value count x.right) in
                    let place : (id + 0) * w + m ≡ id * w + m = grind arith in
                    let below : id * w + m < (id + 1) * w = grind arith in
                    rw place (
                      done.before (id * w + m) below
                      ∙ write_bytes_at bytes tree (id * w) m (omega arith) g))
            | suc k ↦ λ n e m b g.
                let place : (id + suc k) * w + m ≡ (id + 1 + k) * w + m = grind arith in
                rw place (done.at k n e m b g)
          ];
        },
      )

-- A tree in range builds: its bytes hold every node, and its node count is the number of nodes.
pub build_lem :
    (b : IpTreeBuilder) (d : ℕ)
    → Ranged d b.nodes
    → length b.nodes + 16 + d < limit b.record_size
    → (tree : List ℕ) × (build b ≡ ok (tree, length b.nodes))
      × (length tree ≡ length b.nodes * node_bytes b.record_size)
      × ((i : ℕ) (n : Node)
          → get_elem? b.nodes i ≡ some n
          → HoldsNode b.record_size tree i
              (value (length b.nodes) n.left)
              (value (length b.nodes) n.right))
unfolding build
build_lem b d ranged room =
    let small = limit-le b.record_size in
    let count = length b.nodes in
    let same : count % 2 ^ 32 ≡ count = omega arith in
    let w = node_bytes b.record_size in
    let zeros = length-replicate {A = ℕ} (count * w) 0 in
    let start : (0 + count) * w ≤ length (replicate {A = ℕ} (count * w) 0) = grind arith in
    let (tree, runs, done) =
      write_nodes_lem b.record_size count d room b.nodes (replicate (count * w) 0) 0 ranged start in
    (
      tree,
      rw (same, runs),
      done.size_same ∙ zeros,
      λ i n e m x g. let shift : 0 + i ≡ i = omega arith in rw shift at (done.at i n e m x g),
    )

-- `write_node` in a tree of 24-bit records keeps the low 24 bits of each pointer's value, and reports no
-- error: what `read_record` reads back is the remainder by 2^24. The node id is below the node count and
-- the node lies inside the buffer, and the pointers' values are `l` and `r`.
pub write_node-masks :
    (v : Types.IpVersion) (tree : List ℕ) (count id l r : ℕ) (n : Node)
    → id < count
    → id * 6 + 6 ≤ length tree
    → pointer_to_value n.left count ≡ ok l
    → pointer_to_value n.right count ≡ ok r
    → (tree' : List ℕ) × (write_node bits24 count tree id n ≡ ok tree')
      × let t : SearchTree = record { bytes = tree'; header = header_of bits24 v count } in
        (read_record t id 0 ≡ ok (l % 2 ^ 24)) × (read_record t id 1 ≡ ok (r % 2 ^ 24))
unfolding write_node node_bytes
write_node-masks v tree count id l r n below room el er =
    let tree' = write_bytes tree (id * 6) (bytes_24bit l r) in
    (
      tree',
      rw (el, er) (write_values_lem bits24 tree id l r room),
      read_24_low v tree' count id l r below (λ m b g.
          let inside = get_elem?_lt (bytes_24bit l r) m g in
          write_bytes_at (bytes_24bit l r) tree (id * 6) m room g),
    )
