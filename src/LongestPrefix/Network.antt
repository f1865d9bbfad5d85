-- ===== src/LongestPrefix/Network.antt =====
-- The prefix length that a lookup reports: the network of the address on which the answer is the same.
use matchy.Base.{ℕ, zero, suc, ◌+◌, ◌≤◌, ◌≡◌, sym, ap, ◌∙◌, arith, List, some, ok, true}
use matchy.Net.{Ipv6Addr, IpAddr}
use matchy.Mmdb.Types.{RecordSize}
use matchy.Mmdb.Tree.{LookupResult, lookup, lookup_v6}
use matchy.IpTree.{IpVersion, v6}
use matchy.LongestPrefix.Entries.{
  Entry, Accepted, Fits, Served, reader, reader_unique, served-database,
}
use matchy.IpTree.Trie.{Trie, void, leaf, branch}
use matchy.IpTree.Find.{agrees}
use matchy.IpTree.Routes.{Route}
use matchy.LongestPrefix.Walk.{locate}
use matchy.LongestPrefix.Lookup.{Database, search_tree}
use matchy.LongestPrefix.Ipv6.{IsIpv6, v6_word, lookup_v6-locate}

locate-depth :
    (t : Trie) (a depth : ℕ) (r : LookupResult) → locate t a depth ≡ some r → depth ≤ r.prefix_len
unfolding locate
locate-depth void a depth r e = absurd (cc)
locate-depth (leaf o x) a depth r e = ground arith
locate-depth (branch i l r') a depth r e =
    ground (arith, locate-depth l a (depth + 1) r, locate-depth r' a (depth + 1) r)

-- Addresses that share the reported bits are answered alike.
pub locate-agrees :
    (t : Trie) (a b depth k : ℕ) (r : LookupResult)
    → locate t a depth ≡ some r
    → depth + k ≡ r.prefix_len
    → agrees k depth a b ≡ true
    → locate t b depth ≡ some r
unfolding locate agrees
locate-agrees void a b depth k r e size same = absurd (cc)
locate-agrees (leaf o x) a b depth k r e size same = e
locate-agrees (branch i l r') a b depth zero r e size same =
    ground (arith, locate-depth l a (depth + 1) r, locate-depth r' a (depth + 1) r)
locate-agrees (branch i l r') a b depth (suc k) r e size same =
    ground (arith, locate-agrees l a b (depth + 1) k r, locate-agrees r' a b (depth + 1) k r)

-- Any address that has the first `prefix_len` bits of an address that was found gets the same result.
pub lookup_v6-network :
    {size : RecordSize} {v : IpVersion} {d : ℕ} {rs : List Route} {rest : List ℕ}
    (db : Database size v d rs rest) (a b : Ipv6Addr) (r : LookupResult)
    → IsIpv6 a
    → IsIpv6 b
    → lookup_v6 (search_tree db) a ≡ ok (some r)
    → agrees r.prefix_len 0 (v6_word a) (v6_word b) ≡ true
    → lookup_v6 (search_tree db) b ≡ ok (some r)
lookup_v6-network db a b r ha hb found same =
    let here = lookup_v6-locate db a ha in
    let at : locate (branch 0 db.built.left db.built.right) (v6_word a) 0 ≡ some r = cc in
    rw (lookup_v6-locate db b hb) (
      ap ok (
        locate-agrees (branch 0 db.built.left db.built.right) (v6_word a) (v6_word b) 0 r.prefix_len
          r at (omega arith) same))

-- Where an IPv6 address is found in a tree for IPv6 with a prefix length, every IPv6 address that has that
-- many first bits in common with it is found with the same data offset and the same prefix length. The
-- tree is that of entries that it accepts and has room for.
pub lookup-network :
    (size : RecordSize) (d : ℕ) (es : List Entry) (rest : List ℕ) (s : Served size v6 es rest)
    (a b : Ipv6Addr) (r : LookupResult)
    → Accepted v6 d es
    → Fits size d es rest v6
    → IsIpv6 a
    → IsIpv6 b
    → lookup (reader s) (IpAddr.v6 a) ≡ ok (some r)
    → agrees r.prefix_len 0 (v6_word a) (v6_word b) ≡ true
    → lookup (reader s) (IpAddr.v6 b) ≡ ok (some r)
unfolding lookup
lookup-network size d es rest s a b r h room ha hb found same =
    let unique = reader_unique size d es rest v6 h room s in
    let db = served-database size d es rest v6 h room in
    ap (λ t. lookup_v6 t b) unique
    ∙ lookup_v6-network db a b r ha hb (ap (λ t. lookup_v6 t a) (sym unique) ∙ found) same
