-- ===== src/IpTree/Routes.antt =====
-- Longest-prefix match: what a table of prefixes means, and that the builder implements it
-- (`insert_bits_u128`).
use matchy.Base.{
  ℕ, zero, suc, ◌+◌, ◌-◌, ◌^◌, ◌≤◌, ◌<◌, ◌≡◌, refl, sym, Bool, true, false, ltb, leb, ◌==◌,
  if◌then◌else◌, none, some, arith, Bool-cases, inl, inr, List, [], ◌∷◌, length, ok, subst, ◌⊎◌,
}
use matchy.IpTree.{IpTreeBuilder, IpVersion, v4, v6, max_depth, insert_bits_u128, bit_at}
use matchy.IpTree.Trie.{Trie, void, branch, ins, Separate, Height, change}
use matchy.IpTree.Ipv4.{HasIpv4, HasIpv4-ins, ins-HasIpv4}
use matchy.IpTree.Shape.{Separate-ins, Height-ins}
use matchy.IpTree.Arena.{Holds, Holds-below}
use matchy.IpTree.Loop.{insert_loop_lem, at_branch}
use native.Mathlib.Nat.{zero-add, suc-add}
use matchy.IpTree.Insert.{Height-mono}
use matchy.IpTree.Find.{Found, find, find-ins, agrees, override, split_below}

-- One call of `insert_bits_u128`.
pub record Route : Type 0 where
  pub bits : ℕ
  pub len : ℕ
  pub offset : ℕ

unfoldable pub covers : Route → ℕ → Bool
covers r a = agrees r.len 0 r.bits a

-- Some route covers the address and has this entry.
abbrev pub Offers : List Route → ℕ → ℕ → ℕ → Type 0
Offers [] a offset len = ⊥
Offers (r ∷ rs) a offset len =
    ((covers r a ≡ true) × (r.offset ≡ offset) × (r.len ≡ len)) ⊎ Offers rs a offset len

-- No route that covers the address is longer.
abbrev pub AtMost : List Route → ℕ → ℕ → Type 0
AtMost [] a len = Unit
AtMost (r ∷ rs) a len = (covers r a ≡ true → r.len ≤ len) × AtMost rs a len

abbrev pub Uncovered : List Route → ℕ → Type 0
Uncovered [] a = Unit
Uncovered (r ∷ rs) a = (covers r a ≡ false) × Uncovered rs a

-- The answer is an entry of a longest prefix of the address, and `none` where there is none.
abbrev pub LongestMatch : List Route → ℕ → Found → Type 0
LongestMatch rs a none = Uncovered rs a
LongestMatch rs a (some (offset, len)) = Offers rs a offset len × AtMost rs a len

AtMost-mono : (rs : List Route) (a m n : ℕ) → m ≤ n → AtMost rs a m → AtMost rs a n
AtMost-mono [] a m n le h = tt
AtMost-mono (r ∷ rs) a m n le h = (λ c. let k = h.0 c in omega arith, AtMost-mono rs a m n le h.1)

Uncovered-AtMost : (rs : List Route) (a n : ℕ) → Uncovered rs a → AtMost rs a n
Uncovered-AtMost [] a n u = tt
Uncovered-AtMost (r ∷ rs) a n u = (λ c. absurd (cc), Uncovered-AtMost rs a n u.1)

wins-le :
    (split : Bool) (existing len : ℕ)
    → (if split then ltb existing len else leb existing len) ≡ true
    → existing ≤ len
wins-le split existing len h = ground arith

loses-le :
    (split : Bool) (existing len : ℕ)
    → (if split then ltb existing len else leb existing len) ≡ false
    → len ≤ existing
loses-le split existing len h = ground arith

-- A new route in front of the table.
LongestMatch-override :
    (r : Route) (rs : List Route) (a : ℕ) (split : Bool) (f : Found)
    → LongestMatch rs a f
    → LongestMatch (r ∷ rs) a (if covers r a then override split r.offset r.len f else f)
LongestMatch-override r rs a split none h = elim (Bool-cases (covers r a)) [
  | inl c ↦ rw c (inl (c, refl, refl), ((λ _. omega arith), Uncovered-AtMost rs a r.len h))
  | inr n ↦ rw n (n, h)
]
LongestMatch-override r rs a split (some (o, e)) h = elim (Bool-cases (covers r a)) [
  | inl c ↦ elim (Bool-cases (if split then ltb e r.len else leb e r.len)) [
    | inl w ↦
        let le = wins-le split e r.len w in
        rw (c, w) (inl (c, refl, refl), ((λ _. omega arith), AtMost-mono rs a e r.len le h.1))
    | inr l ↦ let le = loses-le split e r.len l in rw (c, l) (inr h.0, ((λ _. le), h.1))
  ]
  | inr n ↦ rw n (inr h.0, ((λ c. absurd (cc)), h.1))
]

-- Some route is that of an IPv4 prefix in a tree for IPv6, and not of all its IPv4 addresses.
abbrev pub SomeIpv4 : List Route → Type 0
SomeIpv4 [] = ⊥
SomeIpv4 (r ∷ rs) = ((96 < r.len) × ((d : ℕ) → d < 96 → bit_at r.bits d ≡ 0)) ⊎ SomeIpv4 rs

-- No route starts with a zero bit.
abbrev pub AllHigh : List Route → Type 0
AllHigh [] = Unit
AllHigh (r ∷ rs) = (bit_at r.bits 0 ≡ 1) × AllHigh rs

-- No route is longer than an IPv4 address.
abbrev pub AllShort : List Route → Type 0
AllShort [] = Unit
AllShort (r ∷ rs) = (r.len ≤ 32) × AllShort rs

-- The arena of the builder is a trie below a root, which answers by longest match.
pub record Implements (b : IpTreeBuilder) (rs : List Route) (l r : Trie) : Type 0 where
  pub holds : Holds b.nodes (branch 0 l r)
  pub separate : Separate (branch 0 l r)
  pub height : Height (max_depth b.ip_version) (branch 0 l r)
  pub answers : (a : ℕ) → LongestMatch rs a (find (branch 0 l r) a 0)
  pub ipv4 : SomeIpv4 rs → HasIpv4 96 (branch 0 l r)
  pub high : AllHigh rs → l ≡ void
  pub short : AllShort rs → Height 32 (branch 0 l r)

pub max_depth-le : (v : IpVersion) → max_depth v ≤ 128
max_depth-le v4 = omega arith
max_depth-le v6 = omega arith

Height-up : (k h : ℕ) (t : Trie) → Height h t → Height (k + h) t
Height-up zero h t s = rw zero-add s
Height-up (suc k) h t s = rw suc-add (Height-mono (k + h) t (Height-up k h t s))

pub Height-le : (h k : ℕ) (t : Trie) → h ≤ k → Height h t → Height k t
Height-le h k t le s =
    let e : k - h + h ≡ k = omega arith in subst (λ m. Height m t) e (Height-up (k - h) h t s)

change-branch :
    (bit : ℕ) (f : Trie → Trie) (l r : Trie)
    → change bit f (branch 0 l r)
      ≡ branch 0 (if bit == 0 then f l else l) (if bit == 0 then r else f r)
change-branch bit f l r = ground arith

ins_root :
    (rounds n bits len offset : ℕ) (l r : Trie)
    → let f = ins rounds n 1 bits len offset in
      ins (suc rounds) n 0 bits len offset (branch 0 l r)
      ≡ branch 0 (if bit_at bits 0 == 0 then f l else l) (if bit_at bits 0 == 0 then r else f r)
unfolding ins
ins_root rounds n bits len offset l r =
    change-branch (bit_at bits 0) (ins rounds n 1 bits len offset) l r

halves-128 : (h : ℕ) (l r : Trie) → h ≤ 128 → Height h (branch 0 l r) → Height 128 l × Height 128 r
halves-128 zero l r le s = absurd s
halves-128 (suc h) l r le s =
    (Height-le h 128 l (omega arith) s.0, Height-le h 128 r (omega arith) s.1)

SomeIpv4-ins :
    (rs : List Route) (bits offset len n : ℕ) (t : Trie)
    → (SomeIpv4 rs → HasIpv4 96 t)
    → SomeIpv4 (record { bits = bits; len = len; offset = offset } ∷ rs)
    → HasIpv4 96 (ins len n 0 bits len offset t)
SomeIpv4-ins rs bits offset len n t before (inl (long, zeros)) =
    ins-HasIpv4 offset len 96 len n 0 bits t long (λ d b. zeros d (omega arith))
SomeIpv4-ins rs bits offset len n t before (inr some_before) =
    HasIpv4-ins offset len 96 len n 0 bits t (before some_before)

-- The entry of an address after the insertion of a route into a trie.
abbrev pub overridden : Trie → Route → ℕ → Found
overridden t r a =
    if covers r a
    then override (split_below r.len 0 r.bits t) r.offset r.len (find t a 0)
    else find t a 0

-- The call of `insert_bits_u128` with these arguments inserts its route: it overrides the entries of
-- the addresses that have the prefix, and no other.
abbrev pub Inserted : IpTreeBuilder → List Route → Trie → Trie → Route → Type 0
Inserted b rs l r route =
    (b' : IpTreeBuilder) × (l' : Trie) × (r' : Trie) × (insert_bits_u128 b route.bits route.len
        route.offset
      ≡ ok b')
    × Implements b' (route ∷ rs) l' r'
    × ((a : ℕ) → find (branch 0 l' r') a 0 ≡ overridden (branch 0 l r) route a)
    × (b'.ip_version ≡ b.ip_version)
    × (length b'.nodes ≤ length b.nodes + route.len)

insert_bits_rounds :
    (b : IpTreeBuilder) (rs : List Route) (l r : Trie) (bits len offset : ℕ)
    → Implements b rs l r
    → 0 < len
    → len ≤ max_depth b.ip_version
    → length b.nodes + len ≤ 2 ^ 32
    → Inserted b rs l r (record { bits = bits; len = len; offset = offset })
unfolding insert_bits_u128 covers
insert_bits_rounds b rs l r bits zero offset imp pos le room = absurd (omega arith)
insert_bits_rounds b rs l r bits (suc rounds) offset imp pos le room =
    let short = max_depth-le b.ip_version in
    let n = length b.nodes in
    let t : Trie = branch 0 l r in
    let f = ins rounds n 1 bits (suc rounds) offset in
    let shape = change-branch (bit_at bits 0) f l r in
    let root = ins_root rounds n bits (suc rounds) offset l r in
    let fits : leb (suc rounds) (max_depth b.ip_version) ≡ true = ground arith in
    let (ns', runs, done, size) =
      at_branch bits (suc rounds) offset rounds (insert_loop_lem bits (suc rounds) offset rounds)
        b.nodes 0 0 l r (omega arith) (halves-128 (max_depth b.ip_version) l r short imp.height)
        (omega arith) imp.holds imp.separate in
    (
      record b { nodes = ns' },
      (if bit_at bits 0 == 0 then f l else l),
      (if bit_at bits 0 == 0 then r else f r),
      rw (fits, runs),
      record {
        holds = rw shape at done.holds;
        separate = rw root at (
            Separate-ins bits (suc rounds) offset (suc rounds) n 0 t
              (Holds-below b.nodes t imp.holds) imp.separate);
        height = rw root at (
            Height-ins bits (suc rounds) offset (suc rounds) (max_depth b.ip_version) n 0 t le
              imp.height);
        answers = λ a.
            subst (LongestMatch (_ ∷ rs) a)
              (sym (rw root at (find-ins offset (suc rounds) a (suc rounds) n 0 bits t)))
              (LongestMatch-override (record { bits = bits; len = suc rounds; offset = offset }) rs
                a (split_below (suc rounds) 0 bits t) (find t a 0) (imp.answers a));
        ipv4 =
            subst
              (λ u.
                SomeIpv4 (record { bits = bits; len = suc rounds; offset = offset } ∷ rs)
                → HasIpv4 96 u)
              root (SomeIpv4-ins rs bits offset (suc rounds) n t imp.ipv4);
        high = λ h. rw h.0 (imp.high h.1);
        short = λ h.
            rw root at
              (Height-ins bits (suc rounds) offset (suc rounds) 32 n 0 t h.0 (imp.short h.1));
      },
      λ a. rw root at (find-ins offset (suc rounds) a (suc rounds) n 0 bits t),
      refl,
      omega arith,
    )

-- On a builder that implements a table, inserting a prefix of at least one bit that the tree has depth and
-- room for succeeds, and the builder implements the table with the route added. The entry of an address
-- becomes the new one exactly where the prefix covers the address and `override` lets it win. The version
-- stays, and there is at most one new node for each bit.
pub insert_bits-Implements :
    (b : IpTreeBuilder) (rs : List Route) (l r : Trie) (route : Route)
    → Implements b rs l r
    → 0 < route.len
    → route.len ≤ max_depth b.ip_version
    → length b.nodes + route.len ≤ 2 ^ 32
    → Inserted b rs l r route
insert_bits-Implements b rs l r route imp pos le room =
    insert_bits_rounds b rs l r route.bits route.len route.offset imp pos le room
