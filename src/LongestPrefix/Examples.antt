-- ===== src/LongestPrefix/Examples.antt =====
-- Tables of prefixes, built, written and looked up.
use matchy.Base.{
  ℕ, ◌*◌, ◌^◌, ◌%◌, ◌≡◌, refl, arith, List, [], ◌∷◌, ◌++◌, length, some, ok, true, inl, inr,
}
use matchy.Mmdb.Types.{RecordSize, bits24, node_bytes}
use matchy.Mmdb.Types
use matchy.Base.Bytes.{write_bytes}
use matchy.Mmdb.Tree.{SearchTree, LookupResult, lookup, lookup_v6, read_record}
use matchy.Net.{Ipv4Addr, Ipv6Addr, IpAddr, ipv4_to_bits, ipv6_to_bits, bits_to_u128}
use matchy.Net
use matchy.IpTree.{
  v4, v6, IpTreeBuilder, entry, empty, insert, insert_v6, insert_bits_u128, insert_loop, place,
  bit_at,
}
use matchy.IpTree.Build.{build, write_nodes, write_node, pointer_to_value}
use matchy.IpTree.Table.{new_tree}
use matchy.IpTree.Find.{agrees}
use matchy.IpTree.Routes.{SomeIpv4, AllHigh}
use matchy.LongestPrefix.AddressBits.{v4_bit_zero}
use matchy.LongestPrefix.Records.{header_of}
use matchy.LongestPrefix.Written.{write_node-masks}
use matchy.LongestPrefix.Network.{lookup-network}
use matchy.LongestPrefix.RoundTrip.{build-read_record}
use matchy.LongestPrefix.Ipv6.{IsIpv6, v6_word}
use matchy.LongestPrefix.Ipv4.{IsIpv4, v4_word}
use matchy.LongestPrefix.Entries.{
  Entry, Accepted, insert_entries, routes, Finds, Served, reader, lookup-ipv6, lookup-ipv4,
  lookup-ipv4_in_v6, lookup-ipv6_in_v4, lookup-ipv4_astray,
}

abbrev ten : Ipv4Addr
ten = record { o0 = 10; o1 = 0; o2 = 0; o3 = 0 }

abbrev host : Ipv4Addr
host = record { o0 = 10; o1 = 1; o2 = 2; o3 = 3 }

abbrev doc_net : Ipv6Addr
doc_net = record { s0 = 0x2001; s1 = 0xdb8; s2 = 0; s3 = 0; s4 = 0; s5 = 0; s6 = 0; s7 = 0 }

abbrev doc_host : Ipv6Addr
doc_host = record { s0 = 0x2001; s1 = 0xdb8; s2 = 0; s3 = 0; s4 = 0; s5 = 0; s6 = 0; s7 = 1 }

abbrev link_local : Ipv6Addr
link_local = record { s0 = 0xfe80; s1 = 0; s2 = 0; s3 = 0; s4 = 0; s5 = 0; s6 = 0; s7 = 0 }

-- 2001:db8::/32 and 10.0.0.0/8
abbrev mixed : List Entry
mixed =
    record { addr = Net.v6 doc_net; prefix_len = 32; data_offset = 4 }
    ∷ record { addr = Net.v4 ten; prefix_len = 8; data_offset = 9 }
    ∷ []

-- 10.0.0.0/8 and 10.1.2.3/32
abbrev only_v4 : List Entry
only_v4 =
    record { addr = Net.v4 ten; prefix_len = 8; data_offset = 4 }
    ∷ record { addr = Net.v4 host; prefix_len = 32; data_offset = 9 }
    ∷ []

-- fe80::/10
abbrev only_link_local : List Entry
only_link_local = record { addr = Net.v6 link_local; prefix_len = 10; data_offset = 4 } ∷ []

mixed-Accepted : Accepted v6 9 mixed
mixed-Accepted = ((omega arith, omega arith), omega arith, (omega arith, omega arith, tt))

only_v4-Accepted : Accepted v4 9 only_v4
only_v4-Accepted =
    ((omega arith, omega arith), omega arith, ((omega arith, omega arith), omega arith, tt))

only_link_local-Accepted : Accepted v6 9 only_link_local
only_link_local-Accepted = ((omega arith, omega arith), omega arith, tt)

mixed-SomeIpv4 : SomeIpv4 (routes v6 mixed)
unfolding ipv4_to_bits
mixed-SomeIpv4 = inr (inl (omega arith, (λ d h. v4_bit_zero (ipv4_to_bits ten) d (omega arith) h)))

only_link_local-AllHigh : AllHigh (routes v6 only_link_local)
unfolding bit_at ipv6_to_bits bits_to_u128
only_link_local-AllHigh = (refl, tt)

abbrev multicast : Ipv6Addr
multicast = record { s0 = 0xff02; s1 = 0; s2 = 0; s3 = 0; s4 = 0; s5 = 0; s6 = 0; s7 = 1 }

link_local-IsIpv6 : IsIpv6 link_local
link_local-IsIpv6 = record {
  lt0 = omega arith;
  lt1 = omega arith;
  lt2 = omega arith;
  lt3 = omega arith;
  lt4 = omega arith;
  lt5 = omega arith;
  lt6 = omega arith;
  lt7 = omega arith;
}

multicast-IsIpv6 : IsIpv6 multicast
multicast-IsIpv6 = record {
  lt0 = omega arith;
  lt1 = omega arith;
  lt2 = omega arith;
  lt3 = omega arith;
  lt4 = omega arith;
  lt5 = omega arith;
  lt6 = omega arith;
  lt7 = omega arith;
}

host-IsIpv4 : IsIpv4 host
host-IsIpv4 = record { lt0 = omega arith; lt1 = omega arith; lt2 = omega arith; lt3 = omega arith }

doc_host-IsIpv6 : IsIpv6 doc_host
doc_host-IsIpv6 = record {
  lt0 = omega arith;
  lt1 = omega arith;
  lt2 = omega arith;
  lt3 = omega arith;
  lt4 = omega arith;
  lt5 = omega arith;
  lt6 = omega arith;
  lt7 = omega arith;
}

lookup-ipv6_example : Finds bits24 9 mixed [] v6 (Net.v6 doc_host) (v6_word doc_host)
lookup-ipv6_example =
    lookup-ipv6 bits24 9 mixed [] doc_host mixed-Accepted (omega arith) doc_host-IsIpv6

lookup-ipv4_example : Finds bits24 9 only_v4 [] v4 (Net.v4 host) (v4_word host)
lookup-ipv4_example = lookup-ipv4 bits24 9 only_v4 [] host only_v4-Accepted (omega arith)

lookup-ipv4_in_v6_example : Finds bits24 9 mixed [] v6 (Net.v4 host) (ipv4_to_bits host)
lookup-ipv4_in_v6_example =
    lookup-ipv4_in_v6 bits24 9 mixed [] host mixed-Accepted (omega arith) host-IsIpv4 mixed-SomeIpv4

lookup-ipv6_in_v4_example : Finds bits24 9 only_v4 [] v4 (Net.v6 doc_host) (v6_word doc_host)
lookup-ipv6_in_v4_example =
    lookup-ipv6_in_v4 bits24 9 only_v4 [] doc_host only_v4-Accepted (omega arith) doc_host-IsIpv6

-- 254.130.0.1 starts as fe80::/10 does.
abbrev stray : Ipv4Addr
stray = record { o0 = 254; o1 = 130; o2 = 0; o3 = 1 }

lookup-ipv4_astray_example : Finds bits24 9 only_link_local [] v6 (Net.v4 stray) (v4_word stray)
lookup-ipv4_astray_example =
    lookup-ipv4_astray bits24 9 only_link_local [] stray only_link_local-Accepted (omega arith)
      only_link_local-AllHigh (omega arith, tt)

-- 8000::/1 in a tree for IPv6: one node.
abbrev upper_half : List Entry
upper_half =
    record {
      addr =
          Net.v6 (record { s0 = 0x8000; s1 = 0; s2 = 0; s3 = 0; s4 = 0; s5 = 0; s6 = 0; s7 = 0 });
      prefix_len = 1;
      data_offset = 4;
    }
    ∷ []

abbrev upper_builder : IpTreeBuilder
upper_builder = record {
  record_size = bits24;
  nodes = record { left = empty; right = entry 4 1 } ∷ [];
  ip_version = v6;
}

upper_inserts : insert_entries (new_tree bits24 v6) upper_half ≡ ok upper_builder
unfolding insert_entries insert insert_v6 insert_bits_u128 insert_loop place bit_at ipv6_to_bits
    bits_to_u128
upper_inserts = refl

upper_builds : build upper_builder ≡ ok ((0 ∷ 0 ∷ 1 ∷ 0 ∷ 0 ∷ 21 ∷ []), 1)
unfolding build write_nodes write_node node_bytes write_bytes
upper_builds = refl

abbrev upper_served : Served bits24 v6 upper_half (0 ∷ [])
upper_served = record {
  builder = upper_builder;
  bytes = 0 ∷ 0 ∷ 1 ∷ 0 ∷ 0 ∷ 21 ∷ [];
  inserts = upper_inserts;
  builds = upper_builds;
}

abbrev upper_found : LookupResult
upper_found = record { data_offset = 4; prefix_len = 1 }

link_local-found : lookup (reader upper_served) (Net.v6 link_local) ≡ ok (some upper_found)
unfolding lookup lookup_v6 node_bytes
link_local-found = refl

link_local-agrees : agrees 1 0 (v6_word link_local) (v6_word multicast) ≡ true
unfolding agrees bit_at ipv6_to_bits bits_to_u128
link_local-agrees = refl

lookup-network_example : lookup (reader upper_served) (Net.v6 multicast) ≡ ok (some upper_found)
lookup-network_example =
    lookup-network bits24 9 upper_half (0 ∷ []) upper_served link_local multicast upper_found
      ((omega arith, omega arith), omega arith, tt) (omega arith) link_local-IsIpv6 multicast-IsIpv6
      link_local-found link_local-agrees

build-read_record_example :
    (tree : List ℕ) × (build upper_builder ≡ ok (tree, 1))
    × (length tree ≡ 1 * node_bytes bits24)
    × let t : SearchTree = record {
      bytes = tree ++ 0 ∷ [];
      header = header_of bits24 Types.v6 1;
    } in
      (read_record t 0 0 ≡ ok 1) × (read_record t 0 1 ≡ ok 21)
build-read_record_example =
    build-read_record Types.v6 upper_builder 9 (0 ∷ []) 0
      (record { left = empty; right = entry 4 1 }) (tt, omega arith, tt) (omega arith) refl

-- A data offset of 2^24 does not fit a record of 24 bits.
write_node-masks_example :
    (tree' : List ℕ) × (write_node bits24 1
        (0 ∷ 0 ∷ 0 ∷ 0 ∷ 0 ∷ 0 ∷ [])
        0
        (record { left = empty; right = entry 16777216 1 })
      ≡ ok tree')
    × let t : SearchTree = record { bytes = tree'; header = header_of bits24 Types.v6 1 } in
      (read_record t 0 0 ≡ ok (1 % 2 ^ 24)) × (read_record t 0 1 ≡ ok (16777233 % 2 ^ 24))
unfolding pointer_to_value
write_node-masks_example =
    write_node-masks Types.v6 (0 ∷ 0 ∷ 0 ∷ 0 ∷ 0 ∷ 0 ∷ []) 1 0 1 16777233
      (record { left = empty; right = entry 16777216 1 }) (omega arith) (omega arith) refl refl
