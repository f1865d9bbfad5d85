-- ===== src/LongestPrefix/Ipv4.antt =====
-- `lookup_v4` on a database, of either version.
use matchy.Base.{
  ℕ, zero, ◌+◌, ◌^◌, ◌<◌, ◌≡◌, refl, ◌∙◌, arith, List, Option, some, none, ok, subst, ap, true,
  length, get_elem?, ◌==◌, suc, ◌-◌, ◌≤◌, sym, Bool-cases, inl, inr,
}
use matchy.Base.Bits.{shl}
use matchy.Base.Bytes.{be4}
use matchy.Net.{Ipv4Addr, ipv4_to_bits}
use matchy.Mmdb.Types.{RecordSize}
use matchy.Mmdb.Tree.{LookupResult, lookup_v4, start_loop, ipv4_prefix}
use matchy.IpTree.{v4, v6, bit_at}
use matchy.IpTree.Trie.{Trie, void, leaf, branch, Height}
use matchy.IpTree.Arena.{node_of}
use matchy.IpTree.Routes.{Route, SomeIpv4, AllHigh, AllShort}
use matchy.LongestPrefix.AddressBits.{v4_bit_top, v4_bit_low, v4_bit_zero}
use matchy.LongestPrefix.Walk.{locate, locate-branch}
use matchy.LongestPrefix.Ipv4Walk.{
  from_level, v4_loop_lem, zeros_below, locate-zeros, start_loop_lem,
}
use matchy.LongestPrefix.Lookup.{Answers, Database, search_tree, locate-find, version_of}

-- The octets are `u8`.
pub record IsIpv4 (a : Ipv4Addr) : Type 0 where
  pub lt0 : a.o0 < 256
  pub lt1 : a.o1 < 256
  pub lt2 : a.o2 < 256
  pub lt3 : a.o3 < 256

-- The address as a builder for IPv4 stores it.
abbrev pub v4_word : Ipv4Addr → ℕ
v4_word a = shl (ipv4_to_bits a) 96

ipv4_to_bits-lt : (a : Ipv4Addr) → IsIpv4 a → ipv4_to_bits a < 2 ^ 32
unfolding ipv4_to_bits
ipv4_to_bits-lt a h =
    let e = be4 a.o0 a.o1 a.o2 a.o3 h.lt1 h.lt2 h.lt3 in
    let l0 = h.lt0 in let l1 = h.lt1 in let l2 = h.lt2 in let l3 = h.lt3 in omega arith

Answers-from_level :
    (rs : List Route) (a base : ℕ) (r : Option LookupResult)
    → Answers rs a r
    → Answers rs a (from_level base r)
Answers-from_level rs a base none h = h
Answers-from_level rs a base (some r) h = h

prefix_top : (d : ℕ) → d < 32 → ipv4_prefix (0 + d) ≡ d + 1
unfolding ipv4_prefix
prefix_top d h = ground arith

prefix_low : (d : ℕ) → d < 32 → ipv4_prefix (96 + d) ≡ d + 1
unfolding ipv4_prefix
prefix_low d h = ground arith

Height-zeros : (k h : ℕ) (t : Trie) → Height (k + h) t → Height h (zeros_below k t)
Height-zeros zero h t s = let e : 0 + h ≡ h = omega arith in subst (λ n. Height n t) e s
Height-zeros (suc k) h void s = tt
Height-zeros (suc k) h (leaf o e) s = tt
Height-zeros (suc k) h (branch i l r) s =
    let e : suc k + h ≡ suc (k + h) = omega arith in
    Height-zeros k h l (subst (λ n. Height n (branch i l r)) e s).0

-- In a tree for IPv4 a lookup answers by longest match.
pub lookup_v4-longest :
    {size : RecordSize} {d : ℕ} {rs : List Route} {rest : List ℕ} (db : Database size v4 d rs rest)
    (a : Ipv4Addr)
    → (r : Option LookupResult) × (lookup_v4 (search_tree db) a ≡ ok r) × Answers rs (v4_word a) r
unfolding lookup_v4
lookup_v4-longest {size} {rs = rs} db a =
    let imp = db.built.implements in
    let bits = ipv4_to_bits a in
    (
      _,
      v4_loop_lem size (version_of v4) _ db.built.tree.nodes db.reads bits (v4_word a) 0
          (λ i lt. let e : 0 + i ≡ i = omega arith in rw e (v4_bit_top bits i lt)) prefix_top 32 0 0
          0 db.built.left db.built.right refl imp.holds (rw db.built.version at imp.height)
          (omega arith),
      Answers-from_level rs (v4_word a) 0 _
          (locate-find rs (v4_word a) 0 _ (imp.answers (v4_word a))),
    )

-- In a tree for IPv6 it does so too, if the tree holds an IPv4 prefix.
pub lookup_v4-longest_v6 :
    {size : RecordSize} {d : ℕ} {rs : List Route} {rest : List ℕ} (db : Database size v6 d rs rest)
    (a : Ipv4Addr)
    → IsIpv4 a
    → SomeIpv4 rs
    → (r : Option LookupResult) × (lookup_v4 (search_tree db) a ≡ ok r)
      × Answers rs (ipv4_to_bits a) r
unfolding lookup_v4
lookup_v4-longest_v6 {size} {rs = rs} db a h some_ipv4 =
    let imp = db.built.implements in
    let bits = ipv4_to_bits a in
    let t : Trie = branch 0 db.built.left db.built.right in
    let has = imp.ipv4 some_ipv4 in
    let (c, l, r, below, starts, holds) =
      start_loop_lem size (version_of v6) _ db.built.tree.nodes db.reads 96 0 db.built.left
        db.built.right imp.holds has in
    let high = Height-zeros 96 32 t (rw db.built.version at imp.height) in
    let walk =
      v4_loop_lem size (version_of v6) _ db.built.tree.nodes db.reads bits bits 96 (v4_bit_low bits)
        prefix_low 32 c 0 96 l r refl holds (subst (Height 32) below high) (omega arith) in
    let zeros =
      locate-zeros 96 bits 0 t has (λ i lt. v4_bit_zero bits i (ipv4_to_bits-lt a h) (omega arith))
      ∙ ap (λ u. locate u bits 96) below in
    let right = subst (Answers rs bits) zeros (locate-find rs bits 0 t (imp.answers bits)) in
    (_, rw starts walk, Answers-from_level rs bits 96 _ right)

-- The search from the root on the bits behind the first 96 is the search on those bits moved to the front.
locate-moved :
    (h depth a b : ℕ) (t : Trie)
    → Height h t
    → depth + h ≤ 32
    → ((i : ℕ) → i < 32 → bit_at a (96 + i) ≡ bit_at b i)
    → from_level 96 (locate t a (96 + depth)) ≡ locate t b depth
unfolding locate
locate-moved h depth a b void high room bits = refl
locate-moved h depth a b (leaf o e) high room bits =
    let counted : 96 + depth - 96 ≡ depth = omega arith in rw counted refl
locate-moved zero depth a b (branch i l r) high room bits = absurd high
locate-moved (suc h) depth a b (branch i l r) (hl, hr) room bits =
    let bit = bits depth (omega arith) in
    let level : 96 + depth + 1 ≡ 96 + (depth + 1) = omega arith in
    rw (locate-branch i a (96 + depth) l r, locate-branch i b depth l r, bit, level)
      (elim (Bool-cases (bit_at b depth == 0)) [
        | inl left ↦ rw left (locate-moved h (depth + 1) a b l hl (omega arith) bits)
        | inr right ↦ rw right (locate-moved h (depth + 1) a b r hr (omega arith) bits)
      ])

-- In a tree for IPv6 whose routes all start with a one bit and are no longer than 32 bits, the lookup answers
-- by longest match, as if the address were the first 32 bits of an IPv6 address.
pub lookup_v4-astray :
    {size : RecordSize} {d : ℕ} {rs : List Route} {rest : List ℕ} (db : Database size v6 d rs rest)
    (a : Ipv4Addr)
    → AllHigh rs
    → AllShort rs
    → (r : Option LookupResult) × (lookup_v4 (search_tree db) a ≡ ok r) × Answers rs (v4_word a) r
unfolding lookup_v4 start_loop
lookup_v4-astray {size} {rs = rs} db a high short =
    let imp = db.built.implements in
    let nodes = db.built.tree.nodes in
    let bits = ipv4_to_bits a in
    let t : Trie = branch 0 db.built.left db.built.right in
    let root : get_elem? nodes 0 ≡ some (node_of void db.built.right) =
      imp.holds.0 ∙ ap (λ u. some (node_of u db.built.right)) (imp.high high) in
    let same : (length nodes == length nodes) ≡ true = ground arith in
    let walk =
      v4_loop_lem size (version_of v6) _ nodes db.reads bits bits 96 (v4_bit_low bits) prefix_low 32
        0 0 96 db.built.left db.built.right refl imp.holds (imp.short short) (omega arith) in
    let moved : from_level 96 (locate t bits 96) ≡ locate t (v4_word a) 0 =
      locate-moved 32 0 bits (v4_word a) t (imp.short short) (omega arith)
        (λ i lt. sym (v4_bit_low bits i lt) ∙ v4_bit_top bits i lt) in
    (
      locate t (v4_word a) 0,
      rw ((db.reads 0 _ root).0, same) (walk ∙ ap ok moved),
      locate-find rs (v4_word a) 0 t (imp.answers (v4_word a)),
    )
