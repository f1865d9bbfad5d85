-- ===== src/IpTree.antt =====
-- The builder of the binary search tree over address bits (src/ip_tree_builder.rs): nodes in an arena,
-- edges by node id, insertion of a prefix. Serialising stands in IpTree/Build.
pub mod Trie
pub mod Shape
pub mod Arena
pub mod Insert
pub mod Loop
pub mod Find
pub mod Ipv4
pub mod Routes
pub mod Table
pub mod Bounds
pub mod Build
pub mod Accepts
pub mod Backfill
mod Examples
use Prim.Native.Nat.{bit_and}
use matchy.Base.{
  ℕ, zero, suc, ◌+◌, ◌-◌, ◌%◌, ◌^◌, none, some, List, [], ◌∷◌, ◌++◌, ltb, leb, ◌==◌, if◌then◌else◌,
  length, get_elem?, set, Result, ok, err, ◌>>=◌, ◌>>◌, guard,
}
use matchy.Base.Results.{invalid_pattern, panic, out_of_fuel}
use matchy.Base.Bits.{shl, shr}
use matchy.Mmdb.Types.{RecordSize}
use matchy.Net.{Ipv4Addr, Ipv6Addr, IpAddr, ipv4_to_bits, ipv6_to_bits, bits_to_u128}

pub data IpVersion : Type 0 where
  v4 v6 : IpVersion

-- `Node(id)`, `Data(data_offset, prefix_len)` and `Empty`
pub data NodePointer : Type 0 where
  node : ℕ → NodePointer
  entry : ℕ → ℕ → NodePointer
  empty : NodePointer

pub record Node : Type 0 where
  pub left : NodePointer
  pub right : NodePointer

pub record IpTreeBuilder : Type 0 where
  pub record_size : RecordSize
  pub nodes : List Node
  pub ip_version : IpVersion

abbrev pub new_empty : Node
new_empty = record { left = empty; right = empty }

abbrev pub new_v4 : RecordSize → IpTreeBuilder
new_v4 size = record { record_size = size; nodes = new_empty ∷ []; ip_version = v4 }

abbrev pub new_v6 : RecordSize → IpTreeBuilder
new_v6 size = record { record_size = size; nodes = new_empty ∷ []; ip_version = v6 }

-- The child on the side of a bit, and the node with that child replaced.
abbrev pub child : Node → ℕ → NodePointer
child n bit = if bit == 0 then n.left else n.right

abbrev pub set_child : Node → ℕ → NodePointer → Node
set_child n bit p = if bit == 0 then record n { left = p } else record n { right = p }

-- `self.nodes[node_id as usize]`
unfoldable pub index_node : List Node → ℕ → Result Node
index_node ns i = elim (get_elem? ns i) [ none ↦ err panic | some n ↦ ok n ]

-- The assignment to `left` or to `right` of that node.
unfoldable pub set_edge : List Node → ℕ → ℕ → NodePointer → Result (List Node)
unfolding index_node
set_edge ns i bit p = do n ← index_node ns i; ok (set ns i (set_child n bit p))

-- `allocate_node`: the id is the length, cast to `u32`.
abbrev pub allocate_node : List Node → ℕ × List Node
allocate_node ns = (length ns % 2 ^ 32, ns ++ new_empty ∷ [])

-- What `backfill_less_specific` does with one of the two children; `rec` is its call on a subtree.
unfoldable pub backfill_child :
    (List Node → ℕ → Result (List Node))
    → List Node
    → ℕ
    → ℕ
    → NodePointer
    → ℕ
    → ℕ
    → Result (List Node)
unfolding set_edge
backfill_child rec ns i bit empty offset len = set_edge ns i bit (entry offset len)
backfill_child rec ns i bit (entry _ existing) offset len =
    if ltb existing len then set_edge ns i bit (entry offset len) else ok ns
backfill_child rec ns i bit (node c) offset len = rec ns c

-- Fuel bounds the height of the subtree. Both children are read before the first write.
unfoldable pub backfill_less_specific : ℕ → ℕ → ℕ → List Node → ℕ → Result (List Node)
unfolding backfill_child
backfill_less_specific zero offset len ns i = err out_of_fuel
backfill_less_specific (suc f) offset len ns i = do
  n ← index_node ns i
  ns' ← backfill_child (backfill_less_specific f offset len) ns i 0 n.left offset len
  backfill_child (backfill_less_specific f offset len) ns' i 1 n.right offset len

-- No subtree is higher than an address has bits.
abbrev pub max_height : ℕ
max_height = 128

-- The edge of the last bit of the prefix.
unfoldable pub place : List Node → ℕ → ℕ → NodePointer → ℕ → ℕ → Result (List Node)
unfolding set_edge
place ns i bit empty offset len = set_edge ns i bit (entry offset len)
place ns i bit (entry _ existing) offset len =
    if leb existing len then set_edge ns i bit (entry offset len) else ok ns
place ns i bit (node c) offset len = backfill_less_specific max_height offset len ns c

-- An edge before the last one: the arena and the node to go on from.
unfoldable pub descend : List Node → ℕ → ℕ → NodePointer → Result (List Node × ℕ)
unfolding set_edge
descend ns i bit empty = do
  let new_id = (allocate_node ns).0
  ns' ← set_edge (allocate_node ns).1 i bit (node new_id)
  ok (ns', new_id)
descend ns i bit (node c) = ok (ns, c)
descend ns i bit (entry offset existing) = do
  let new_id = (allocate_node ns).0
  ns₁ ← set_edge (allocate_node ns).1 new_id 0 (entry offset existing)
  ns₂ ← set_edge ns₁ new_id 1 (entry offset existing)
  ns₃ ← set_edge ns₂ i bit (node new_id)
  ok (ns₃, new_id)

-- `(bits >> (127 - depth)) & 1`
unfoldable pub bit_at : ℕ → ℕ → ℕ
bit_at bits depth = bit_and (shr bits (127 - depth)) 1

-- `for depth in 0..prefix_len`; the first argument counts the rounds left.
unfoldable pub insert_loop : ℕ → List Node → ℕ → ℕ → ℕ → ℕ → ℕ → Result (List Node)
unfolding index_node
insert_loop zero ns i depth bits len offset = ok ns
insert_loop (suc rounds) ns i depth bits len offset = do
  n ← index_node ns i
  let bit = bit_at bits depth
  if depth + 1 == len then place ns i bit (child n bit) offset len else (do
    (ns', next) ← descend ns i bit (child n bit)
    insert_loop rounds ns' next (depth + 1) bits len offset)

abbrev pub max_depth : IpVersion → ℕ
max_depth v4 = 32
max_depth v6 = 128

unfoldable pub insert_bits_u128 : IpTreeBuilder → ℕ → ℕ → ℕ → Result IpTreeBuilder
insert_bits_u128 b bits len offset = do
  guard (leb len (max_depth b.ip_version)) invalid_pattern
  ns ← insert_loop len b.nodes 0 0 bits len offset
  ok (record b { nodes = ns })

-- `insert`, by the versions of the address and of the tree. `96 + prefix_len` is a sum of `u8`.
unfoldable pub insert_v4 : IpVersion → IpTreeBuilder → Ipv4Addr → ℕ → ℕ → Result IpTreeBuilder
insert_v4 v6 b a len offset = insert_bits_u128 b (ipv4_to_bits a) ((96 + len) % 2 ^ 8) offset
insert_v4 v4 b a len offset = do
  guard (leb len 32) invalid_pattern
  insert_bits_u128 b (shl (ipv4_to_bits a) 96) len offset

unfoldable pub insert_v6 : IpVersion → IpTreeBuilder → Ipv6Addr → ℕ → ℕ → Result IpTreeBuilder
insert_v6 v4 b a len offset = err invalid_pattern
insert_v6 v6 b a len offset = do
  guard (leb len 128) invalid_pattern
  insert_bits_u128 b (bits_to_u128 (ipv6_to_bits a)) len offset

unfoldable pub insert : IpTreeBuilder → IpAddr → ℕ → ℕ → Result IpTreeBuilder
insert b (IpAddr.v4 a) len offset = insert_v4 b.ip_version b a len offset
insert b (IpAddr.v6 a) len offset = insert_v6 b.ip_version b a len offset
