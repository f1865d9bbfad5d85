-- ===== src/LongestPrefix/Entries.antt =====
-- The table by the calls of `insert`: which arguments the builder accepts, and what `lookup` answers
-- after they have been inserted and the tree has been built.
use matchy.Base.{
  ℕ, ◌+◌, ◌^◌, ◌%◌, ◌≤◌, ◌<◌, ◌≡◌, refl, sym, ◌∙◌, arith, List, [], ◌∷◌, ◌++◌, map, length, Option,
  ok, err, Result, ◌>>=◌, ap, leb, true,
}
use matchy.Net.{Ipv4Addr, Ipv6Addr, IpAddr, ipv4_to_bits}
use matchy.Mmdb.Types.{RecordSize}
use matchy.Mmdb.Tree.{LookupResult, SearchTree, lookup}
use matchy.IpTree.{
  IpVersion, v4, v6, IpTreeBuilder, max_depth, insert, insert_v4, insert_v6, insert_bits_u128,
}
use matchy.IpTree.Build.{build}
use matchy.IpTree.Routes.{Route, SomeIpv4, AllHigh, AllShort}
use matchy.IpTree.Table.{Fit, total_len, new_tree, insert_routes, insert_routes-Built}
use matchy.LongestPrefix.Records.{header_of, limit}
use matchy.LongestPrefix.Lookup.{Answers, Database, database, search_tree, version_of}
use matchy.LongestPrefix.Ipv6.{IsIpv6, v6_word, lookup_v6-longest}
use matchy.LongestPrefix.Ipv4.{
  IsIpv4, v4_word, lookup_v4-longest, lookup_v4-longest_v6, lookup_v4-astray,
}

-- The arguments of one call of `insert`.
pub record Entry : Type 0 where
  pub addr : IpAddr
  pub prefix_len : ℕ
  pub data_offset : ℕ

-- The calls of `insert`, the last one first.
unfoldable pub insert_entries : IpTreeBuilder → List Entry → Result IpTreeBuilder
insert_entries b [] = ok b
insert_entries b (e ∷ es) = do b' ← insert_entries b es; insert b' e.addr e.prefix_len e.data_offset

-- The prefixes that a tree accepts. An IPv4 prefix in a tree for IPv6 lies below 96 zero bits.
abbrev AcceptsAddr : IpVersion → IpAddr → ℕ → Type 0
AcceptsAddr v4 (IpAddr.v4 a) len = (0 < len) × (len ≤ 32)
AcceptsAddr v4 (IpAddr.v6 a) len = ⊥
AcceptsAddr v6 (IpAddr.v4 a) len = len ≤ 32
AcceptsAddr v6 (IpAddr.v6 a) len = (0 < len) × (len ≤ 128)

abbrev pub Accepted : IpVersion → ℕ → List Entry → Type 0
Accepted v d [] = Unit
Accepted v d (e ∷ es) = AcceptsAddr v e.addr e.prefix_len × (e.data_offset ≤ d) × Accepted v d es

-- The bits and the number of them that an entry stands for.
abbrev route_at : IpVersion → IpAddr → ℕ → ℕ → Route
route_at v4 (IpAddr.v4 a) len offset = record { bits = v4_word a; len = len; offset = offset }
route_at v6 (IpAddr.v4 a) len offset = record {
  bits = ipv4_to_bits a;
  len = 96 + len;
  offset = offset;
}
route_at v (IpAddr.v6 a) len offset = record { bits = v6_word a; len = len; offset = offset }

abbrev pub route_of : IpVersion → Entry → Route
route_of v e = route_at v e.addr e.prefix_len e.data_offset

abbrev pub routes : IpVersion → List Entry → List Route
routes v = map (route_of v)

insert-route :
    (v : IpVersion) (b : IpTreeBuilder) (addr : IpAddr) (len offset : ℕ)
    → b.ip_version ≡ v
    → AcceptsAddr v addr len
    → let r = route_at v addr len offset in
      insert b addr len offset ≡ insert_bits_u128 b r.bits r.len r.offset
unfolding insert insert_v4 insert_v6
insert-route v4 b (IpAddr.v4 a) len offset e h =
    let fits : leb len 32 ≡ true = ground arith in rw (e, fits)
insert-route v4 b (IpAddr.v6 a) len offset e h = absurd h
insert-route v6 b (IpAddr.v4 a) len offset e h =
    let fits : (96 + len) % 2 ^ 8 ≡ 96 + len = omega arith in rw (e, fits)
insert-route v6 b (IpAddr.v6 a) len offset e h =
    let fits : leb len 128 ≡ true = ground arith in rw (e, fits)

AcceptsAddr-Fit :
    (v : IpVersion) (addr : IpAddr) (len offset : ℕ)
    → AcceptsAddr v addr len
    → (0 < (route_at v addr len offset).len)
      × ((route_at v addr len offset).len ≤ max_depth v)
      × ((route_at v addr len offset).offset ≡ offset)
AcceptsAddr-Fit v4 (IpAddr.v4 a) len offset h = omega arith
AcceptsAddr-Fit v4 (IpAddr.v6 a) len offset h = absurd h
AcceptsAddr-Fit v6 (IpAddr.v4 a) len offset h = omega arith
AcceptsAddr-Fit v6 (IpAddr.v6 a) len offset h = omega arith

Accepted-Fit : (v : IpVersion) (d : ℕ) (es : List Entry) → Accepted v d es → Fit v d (routes v es)
Accepted-Fit v d [] h = tt
Accepted-Fit v d (e ∷ es) (accepts, small, h) =
    let (pos, le, same) = AcceptsAddr-Fit v e.addr e.prefix_len e.data_offset accepts in
    (pos, le, omega arith, Accepted-Fit v d es h)

insert_entries-routes :
    (size : RecordSize) (v : IpVersion) (d : ℕ) (es : List Entry)
    → Accepted v d es
    → 1 + total_len (routes v es) ≤ 2 ^ 32
    → insert_entries (new_tree size v) es ≡ insert_routes (new_tree size v) (routes v es)
unfolding insert_entries insert_routes
insert_entries-routes size v d [] h room = refl
insert_entries-routes size v d (e ∷ es) (accepts, small, h) room =
    let ih = insert_entries-routes size v d es h (omega arith) in
    let before = insert_routes-Built size v d (routes v es) (Accepted-Fit v d es h) (omega arith) in
    rw (ih, before.runs)
      (insert-route v before.tree e.addr e.prefix_len e.data_offset before.version accepts)

limit-le_u32 : (size : RecordSize) → limit size ≤ 2 ^ 32
limit-le_u32 RecordSize.bits24 = omega arith
limit-le_u32 RecordSize.bits28 = omega arith
limit-le_u32 RecordSize.bits32 = omega arith

-- The tree of these entries, built and serialised in front of the rest of a file.
pub record Served (size : RecordSize) (v : IpVersion) (es : List Entry) (rest : List ℕ)
    : Type 0 where
  pub builder : IpTreeBuilder
  pub bytes : List ℕ
  pub inserts : insert_entries (new_tree size v) es ≡ ok builder
  pub builds : build builder ≡ ok (bytes, length builder.nodes)

abbrev reader_of : RecordSize → IpVersion → List ℕ → List ℕ → ℕ → SearchTree
reader_of size v rest bytes count = record {
  bytes = bytes ++ rest;
  header = header_of size (version_of v) count;
}

abbrev pub reader :
    {size : RecordSize} {v : IpVersion} {es : List Entry} {rest : List ℕ}
    → Served size v es rest
    → SearchTree
reader {size} {v} {rest} s = reader_of size v rest s.bytes (length s.builder.nodes)

ok-injective : {A : Type 0} (a b : A) → ok a ≡ ok b → a ≡ b
ok-injective a b e = ap (λ r. elim r [ ok x ↦ x | err x ↦ a ]) e

module _ (size : RecordSize) (d : ℕ) (es : List Entry) (rest : List ℕ) where
  abbrev pub Fits : IpVersion → Type 0
  Fits v = 17 + total_len (routes v es) + d < limit size

  pub served-database :
      (v : IpVersion) → Accepted v d es → Fits v → Database size v d (routes v es) rest
  served-database v h room =
      database size v d (routes v es) rest (Accepted-Fit v d es h) room (limit-le_u32 size)

  served : (v : IpVersion) → Accepted v d es → Fits v → Served size v es rest
  served v h room =
      let db = served-database v h room in
      let small = limit-le_u32 size in
      record {
        builder = db.built.tree;
        bytes = db.bytes;
        inserts = insert_entries-routes size v d es h (omega arith) ∙ db.built.runs;
        builds = db.builds;
      }

  -- The entries determine the tree and its bytes.
  pub reader_unique :
      (v : IpVersion) (h : Accepted v d es) (room : Fits v) (s : Served size v es rest)
      → reader s ≡ search_tree (served-database v h room)
  unfolding served
  reader_unique v h room s =
      let t = served v h room in
      let same : s.builder ≡ t.builder =
        ok-injective s.builder t.builder (sym s.inserts ∙ t.inserts) in
      let both : (s.bytes, length s.builder.nodes) ≡ (t.bytes, length t.builder.nodes) =
        ok-injective _ _ (sym s.builds ∙ ap build same ∙ t.builds) in
      ap (λ (p : List ℕ × ℕ). reader_of size v rest p.0 p.1) both

  -- The result of a lookup in the tree of the entries.
  abbrev pub Finds : IpVersion → IpAddr → ℕ → Type 0
  Finds v addr word =
      (s : Served size v es rest) × (r : Option LookupResult) × (lookup (reader s) addr ≡ ok r)
      × Answers (routes v es) word r

  finds :
      (v : IpVersion) (h : Accepted v d es) (room : Fits v) (addr : IpAddr) (word : ℕ)
      → (r : Option LookupResult) × (lookup (search_tree (served-database v h room)) addr ≡ ok r)
        × Answers (routes v es) word r
      → Finds v addr word
  unfolding served
  finds v h room addr word (r, runs, right) = (served v h room, r, runs, right)

  -- Entries that a tree for IPv6 accepts and has room for are all inserted, the tree is built, and the
  -- lookup of an IPv6 address in its bytes, with any bytes behind them, returns the data offset of a longest
  -- prefix that covers the address, or nothing where none does.
  pub lookup-ipv6 :
      (a : Ipv6Addr) → Accepted v6 d es → Fits v6 → IsIpv6 a → Finds v6 (IpAddr.v6 a) (v6_word a)
  unfolding lookup
  lookup-ipv6 a h room ha =
      finds v6 h room (IpAddr.v6 a) (v6_word a) (lookup_v6-longest (served-database v6 h room) a ha)

  -- Entries that a tree for IPv4 accepts and has room for are all inserted, the tree is built, and the
  -- lookup of an IPv4 address returns the data offset of a longest prefix that covers it, or nothing where
  -- none does.
  pub lookup-ipv4 : (a : Ipv4Addr) → Accepted v4 d es → Fits v4 → Finds v4 (IpAddr.v4 a) (v4_word a)
  unfolding lookup
  lookup-ipv4 a h room =
      finds v4 h room (IpAddr.v4 a) (v4_word a) (lookup_v4-longest (served-database v4 h room) a)

  -- In a tree for IPv6 with entries that it accepts and has room for, the lookup of an IPv4 address answers
  -- by longest match over all of them, if some entry is an IPv4 prefix of at least one bit.
  pub lookup-ipv4_in_v6 :
      (a : Ipv4Addr)
      → Accepted v6 d es
      → Fits v6
      → IsIpv4 a
      → SomeIpv4 (routes v6 es)
      → Finds v6 (IpAddr.v4 a) (ipv4_to_bits a)
  unfolding lookup
  lookup-ipv4_in_v6 a h room ha some_ipv4 =
      finds v6 h room (IpAddr.v4 a) (ipv4_to_bits a)
        (lookup_v4-longest_v6 (served-database v6 h room) a ha some_ipv4)

  -- In a tree for IPv4 with entries that it accepts and has room for, an IPv6 address is not refused: it is
  -- answered by longest match, and the IPv4 prefixes are compared with its first bits.
  pub lookup-ipv6_in_v4 :
      (a : Ipv6Addr) → Accepted v4 d es → Fits v4 → IsIpv6 a → Finds v4 (IpAddr.v6 a) (v6_word a)
  unfolding lookup
  lookup-ipv6_in_v4 a h room ha =
      finds v4 h room (IpAddr.v6 a) (v6_word a) (lookup_v6-longest (served-database v4 h room) a ha)

  -- In a tree for IPv6 with entries that it accepts and has room for, which all start with a one bit, so that
  -- none is an IPv4 prefix, and have at most 32 bits, an IPv4 address is not refused and not reported as
  -- missing: it is answered by longest match over the IPv6 prefixes, which are compared with it as if it were
  -- the first 32 bits of an IPv6 address.
  pub lookup-ipv4_astray :
      (a : Ipv4Addr)
      → Accepted v6 d es
      → Fits v6
      → AllHigh (routes v6 es)
      → AllShort (routes v6 es)
      → Finds v6 (IpAddr.v4 a) (v4_word a)
  unfolding lookup
  lookup-ipv4_astray a h room high short =
      finds v6 h room (IpAddr.v4 a) (v4_word a)
        (lookup_v4-astray (served-database v6 h room) a high short)
