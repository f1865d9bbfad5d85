-- ===== src/LongestPrefix/Ipv6.antt =====
-- `lookup_v6` on a database.
use matchy.Base.{ℕ, ◌^◌, ◌<◌, ◌≡◌, arith, List, Option, ok}
use matchy.Base.Bytes.{be4_wide}
use matchy.Net.{Ipv6Addr, ipv6_to_bits, bits_to_u128}
use matchy.Mmdb.Types.{RecordSize}
use matchy.Mmdb.Tree.{LookupResult, lookup_v6}
use matchy.IpTree.{IpVersion, max_depth}
use matchy.IpTree.Trie.{branch}
use matchy.IpTree.Routes.{Route, Height-le, max_depth-le}
use matchy.LongestPrefix.AddressBits.{v6_bit_lem}
use matchy.LongestPrefix.Walk.{locate, v6_loop_lem}
use matchy.LongestPrefix.Lookup.{Answers, Database, search_tree, locate-find, version_of}

-- The segments are `u16`.
pub record IsIpv6 (a : Ipv6Addr) : Type 0 where
  pub lt0 : a.s0 < 2 ^ 16
  pub lt1 : a.s1 < 2 ^ 16
  pub lt2 : a.s2 < 2 ^ 16
  pub lt3 : a.s3 < 2 ^ 16
  pub lt4 : a.s4 < 2 ^ 16
  pub lt5 : a.s5 < 2 ^ 16
  pub lt6 : a.s6 < 2 ^ 16
  pub lt7 : a.s7 < 2 ^ 16

-- The address as the builder stores it.
abbrev pub v6_word : Ipv6Addr → ℕ
v6_word a = bits_to_u128 (ipv6_to_bits a)

low_half-lt : (a : Ipv6Addr) → IsIpv6 a → (ipv6_to_bits a).1 < 2 ^ 64
unfolding ipv6_to_bits
low_half-lt a h =
    let e = be4_wide a.s4 a.s5 a.s6 a.s7 h.lt5 h.lt6 h.lt7 in
    let l4 = h.lt4 in let l5 = h.lt5 in let l6 = h.lt6 in let l7 = h.lt7 in omega arith

module _ {size : RecordSize} {v : IpVersion} {d : ℕ} {rs : List Route} {rest : List ℕ}
    (db : Database size v d rs rest) where
  pub lookup_v6-locate :
      (a : Ipv6Addr)
      → IsIpv6 a
      → lookup_v6 (search_tree db) a
        ≡ ok (locate (branch 0 db.built.left db.built.right) (v6_word a) 0)
  unfolding lookup_v6
  lookup_v6-locate a h =
      let imp = db.built.implements in
      let (high, low) = ipv6_to_bits a in
      v6_loop_lem size (version_of v) _ db.built.tree.nodes db.reads high low (v6_word a)
        (λ i lt. v6_bit_lem high low i (low_half-lt a h) lt) 128 0 0 db.built.left db.built.right
        imp.holds
        (Height-le (max_depth db.built.tree.ip_version) 128 (branch 0 db.built.left db.built.right)
          (max_depth-le db.built.tree.ip_version) imp.height)
        (omega arith)

  -- An IPv6 lookup answers by longest match on the 128 bits, whatever the version of the tree.
  pub lookup_v6-longest :
      (a : Ipv6Addr)
      → IsIpv6 a
      → (r : Option LookupResult) × (lookup_v6 (search_tree db) a ≡ ok r) × Answers rs (v6_word a) r
  lookup_v6-longest a h = (
    _,
    lookup_v6-locate a h,
    locate-find rs (v6_word a) 0 _ (db.built.implements.answers (v6_word a)),
  )
