-- ===== src/IpTree/Examples.antt =====
-- The builder on concrete trees.
use matchy.Base.{◌^◌, ◌≤◌, ◌≡◌, refl, arith, List, [], ◌∷◌, length, some, ok, get_elem?, true}
use matchy.Mmdb.Types.{bits24}
use matchy.Net.{Ipv4Addr, Ipv6Addr, IpAddr, ipv4_to_bits}
use matchy.Net
use matchy.IpTree.{
  IpTreeBuilder, v4, v6, Node, entry, empty, node, insert, insert_bits_u128, insert_loop, place,
  bit_at, backfill_less_specific,
}
use matchy.IpTree.Trie.{void, leaf, branch, fill}
use matchy.IpTree.Routes.{Route, Inserted, insert_bits-Implements}
use matchy.IpTree.Table.{new_tree, new-Implements, new-Ranged, insert_bits-Ranged}
use matchy.IpTree.Bounds.{Ranged}
use matchy.IpTree.Arena.{Holds}
use matchy.IpTree.Backfill.{backfill_less_specific-fill}
use matchy.IpTree.Accepts.{refused, insert-refused, insert-default_route}

abbrev ten : Ipv4Addr
ten = record { o0 = 10; o1 = 0; o2 = 0; o3 = 0 }

abbrev doc_net : Ipv6Addr
doc_net = record { s0 = 0x2001; s1 = 0xdb8; s2 = 0; s3 = 0; s4 = 0; s5 = 0; s6 = 0; s7 = 0 }

abbrev ten_8 : Route
ten_8 = record { bits = 0x0A000000; len = 104; offset = 5 }

insert_bits-Implements_example : Inserted (new_tree bits24 v6) [] void void ten_8
insert_bits-Implements_example =
    insert_bits-Implements (new_tree bits24 v6) [] void void ten_8 (new-Implements bits24 v6)
      (omega arith) (omega arith) (omega arith)

-- The tree after 128.0.0.0/1 has been inserted into a new tree for IPv4.
abbrev top_half : IpTreeBuilder
top_half = record {
  record_size = bits24;
  nodes = record { left = empty; right = entry 7 1 } ∷ [];
  ip_version = v4;
}

top_half_insert : insert_bits_u128 (new_tree bits24 v4) (2 ^ 127) 1 7 ≡ ok top_half
unfolding insert_bits_u128 insert_loop place bit_at
top_half_insert = refl

insert_bits-Ranged_example : Ranged 9 top_half.nodes × (1 ≤ length top_half.nodes)
insert_bits-Ranged_example =
    insert_bits-Ranged 9 (new_tree bits24 v4) top_half (2 ^ 127) 1 7 (omega arith)
      (new-Ranged bits24 v4 9) top_half_insert

-- A node above one entry: 0/2 in a tree that is filled with the entry of 0/1.
abbrev arena : List Node
arena = record { left = node 1; right = empty } ∷ record { left = entry 3 2; right = empty } ∷ []

backfill_less_specific-fill_example :
    (ns' : List Node) × (backfill_less_specific 128 4 1 arena 1 ≡ ok ns')
    × Holds ns' (fill 4 1 (branch 1 (leaf 3 2) void))
    × (length ns' ≡ 2)
    × (get_elem? ns' 0 ≡ get_elem? arena 0)
backfill_less_specific-fill_example =
    backfill_less_specific-fill 4 1 128 arena 1 (leaf 3 2) void (tt, tt) (tt, tt, tt, tt, tt, tt)
      (refl, tt, tt) 0 (omega arith) ((λ e. absurd (omega arith)), tt, tt)

insert-refused_example : refused (insert (new_tree bits24 v4) (Net.v6 doc_net) 32 1) ≡ some true
insert-refused_example =
    insert-refused (new_tree bits24 v4) [] void void (new-Implements bits24 v4) (omega arith)
      (Net.v6 doc_net) 32 1

insert-default_route_example :
    insert (new_tree bits24 v4) (Net.v4 ten) 0 5 ≡ ok (new_tree bits24 v4)
insert-default_route_example = insert-default_route (new_tree bits24 v4) (Net.v4 ten) 5 refl
