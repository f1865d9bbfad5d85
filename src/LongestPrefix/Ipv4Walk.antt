-- ===== src/LongestPrefix/Ipv4Walk.antt =====
-- The IPv4 loop of the reader follows the trie, and so does the search for the node at which IPv4
-- addresses start in a tree for IPv6.
use Prim.Native.Nat.{bit_and}
use matchy.Base.{
  ℕ, zero, suc, ◌+◌, ◌-◌, ◌≤◌, ◌<◌, ◌≡◌, refl, sym, arith, ltb, ◌==◌, List, length, get_elem?,
  Option, some, none, true, false, ok, get_elem?_lt, Bool-cases, inl, inr, subst,
}
use matchy.Base.Bits.{shr}
use matchy.Mmdb.Types.{RecordSize, IpVersion}
use matchy.Mmdb.Tree.{SearchTree, LookupResult, v4_loop, ipv4_prefix, start_loop}
use matchy.IpTree.{Node, bit_at}
use matchy.IpTree.Trie.{Trie, void, leaf, branch, Height}
use matchy.IpTree.Find.{bit_at_lt}
use matchy.IpTree.Ipv4.{HasIpv4, not-HasIpv4-void, not-HasIpv4-leaf}
use matchy.IpTree.Arena.{Holds, node_of}
use matchy.LongestPrefix.Records.{header_of}
use matchy.LongestPrefix.Walk.{locate, locate-branch, side, Reads, tree, read_side, offset_lem}

-- The prefix length counted from the level at which IPv4 addresses start.
abbrev pub from_level : ℕ → Option LookupResult → Option LookupResult
from_level base none = none
from_level base (some r) = some (record r { prefix_len = r.prefix_len - base })

module _ (size : RecordSize) (v : IpVersion) (bytes : List ℕ) (ns : List Node)
    (reads : Reads (record { bytes = bytes; header = header_of size v (length ns) }) ns)
    (bits a base : ℕ)
    (same_bit : (d : ℕ) → d < 32 → bit_and (shr bits (31 - d)) 1 ≡ bit_at a (base + d))
    (prefix : (d : ℕ) → d < 32 → ipv4_prefix (base + d) ≡ d + 1) where
  abbrev db : SearchTree
  db = tree size v bytes ns reads

  v4_step :
      (rounds i idx depth : ℕ) (l r t : Trie)
      → depth ≡ base + idx
      → idx < 32
      → bit_at a depth < 2
      → get_elem? ns i ≡ some (node_of l r)
      → t ≡ side (bit_at a depth) l r
      → Holds ns t
      → ((c : ℕ) (l' r' : Trie)
          → t ≡ branch c l' r'
          → v4_loop rounds db bits (idx + 1) c (depth + 1)
            ≡ ok (from_level base (locate t a (depth + 1))))
      → v4_loop (suc rounds) db bits idx i depth ≡ ok (from_level base (locate t a (depth + 1)))
  unfolding v4_loop locate
  v4_step rounds i idx depth l r void level lt bit at e h next =
      let take =
        subst (λ d. bit_and (shr bits (31 - idx)) 1 ≡ bit_at a d) (sym level) (same_bit idx lt) in
      let run = read_side size v bytes ns reads i (bit_at a depth) l r at bit in
      let same : length ns == length ns ≡ true = ground arith in rw (take, run, ← e, same)
  v4_step rounds i idx depth l r (leaf o x) level lt bit at e h next =
      let take =
        subst (λ d. bit_and (shr bits (31 - idx)) 1 ≡ bit_at a d) (sym level) (same_bit idx lt) in
      let run = read_side size v bytes ns reads i (bit_at a depth) l r at bit in
      let ne : (length ns + 16 + o == length ns) ≡ false = ground arith in
      let ge : ltb (length ns + 16 + o) (length ns) ≡ false = ground arith in
      let reported = subst (λ d. ipv4_prefix d ≡ idx + 1) (sym level) (prefix idx lt) in
      let counted : idx + 1 ≡ depth + 1 - base = omega arith in
      rw (take, run, ← e, ne, ge, offset_lem size v bytes ns reads o, reported, counted)
  v4_step rounds i idx depth l r (branch c l' r') level lt bit at e h next =
      let take =
        subst (λ d. bit_and (shr bits (31 - idx)) 1 ≡ bit_at a d) (sym level) (same_bit idx lt) in
      let run = read_side size v bytes ns reads i (bit_at a depth) l r at bit in
      let below = get_elem?_lt ns c h.0 in
      let ne : (c == length ns) ≡ false = ground arith in
      let lt' : ltb c (length ns) ≡ true = ground arith in
      rw (take, run, ← e, ne, lt') (next c l' r' refl)

  -- The IPv4 loop from a node on.
  pub v4_loop_lem :
      (rounds i idx depth : ℕ) (l r : Trie)
      → depth ≡ base + idx
      → Holds ns (branch i l r)
      → Height rounds (branch i l r)
      → idx + rounds ≤ 32
      → v4_loop rounds db bits idx i depth ≡ ok (from_level base (locate (branch i l r) a depth))
  v4_loop_lem zero i idx depth l r level h high room = absurd high
  v4_loop_lem (suc rounds) i idx depth l r level h (hl, hr) room =
      rw (locate-branch i a depth l r) (elim (Bool-cases (bit_at a depth == 0)) [
        | inl left ↦
            v4_step rounds i idx depth l r _ level (omega arith) (bit_at_lt a depth) h.0 refl
              (rw left h.1)
              (λ c l' r' e.
                let down : l ≡ branch c l' r' = rw left at e in
                rw (left, down)
                  (v4_loop_lem rounds c (idx + 1) (depth + 1) l' r' (omega arith)
                    (subst (Holds ns) down h.1) (subst (Height rounds) down hl) (omega arith)))
        | inr right ↦
            v4_step rounds i idx depth l r _ level (omega arith) (bit_at_lt a depth) h.0 refl
              (rw right h.2)
              (λ c l' r' e.
                let down : r ≡ branch c l' r' = rw right at e in
                rw (right, down)
                  (v4_loop_lem rounds c (idx + 1) (depth + 1) l' r' (omega arith)
                    (subst (Holds ns) down h.2) (subst (Height rounds) down hr) (omega arith)))
      ])

-- The subtree below a run of zero bits.
abbrev pub zeros_below : ℕ → Trie → Trie
zeros_below zero t = t
zeros_below (suc k) void = void
zeros_below (suc k) (leaf o e) = leaf o e
zeros_below (suc k) (branch i l r) = zeros_below k l

pub locate-zeros :
    (k a depth : ℕ) (t : Trie)
    → HasIpv4 k t
    → ((d : ℕ) → d < depth + k → bit_at a d ≡ 0)
    → locate t a depth ≡ locate (zeros_below k t) a (depth + k)
locate-zeros zero a depth t has bits = let e : depth + 0 ≡ depth = omega arith in rw e
locate-zeros (suc k) a depth void has bits = absurd has
locate-zeros (suc k) a depth (leaf o e) has bits = absurd has
locate-zeros (suc k) a depth (branch i l r) has bits =
    let e : depth + suc k ≡ depth + 1 + k = omega arith in
    let here : bit_at a depth ≡ 0 = bits depth (omega arith) in
    rw (locate-branch i a depth l r, here, e)
      (locate-zeros k a (depth + 1) l has (λ d lt. bits d (omega arith)))

module _ (size : RecordSize) (v : IpVersion) (bytes : List ℕ) (ns : List Node)
    (reads : Reads (record { bytes = bytes; header = header_of size v (length ns) }) ns) where
  -- The search for the start goes down the zero bits.
  pub start_loop_lem :
      (k i : ℕ) (l r : Trie)
      → Holds ns (branch i l r)
      → HasIpv4 k (branch i l r)
      → (c : ℕ) × (l' : Trie) × (r' : Trie) × (zeros_below k (branch i l r) ≡ branch c l' r')
        × (start_loop k (tree size v bytes ns reads) i ≡ ok (c, 96))
        × Holds ns (branch c l' r')
  unfolding start_loop
  start_loop_lem zero i l r h has = (i, l, r, refl, refl, h)
  start_loop_lem (suc k) i void r h has = absurd (not-HasIpv4-void k has)
  start_loop_lem (suc k) i (leaf o e) r h has = absurd (not-HasIpv4-leaf k o e has)
  start_loop_lem (suc k) i (branch j l' r') r h has =
      let (c, l'', r'', below, runs, holds) = start_loop_lem k j l' r' h.1 has in
      let lt = get_elem?_lt ns j h.1.0 in
      let ne : (j == length ns) ≡ false = ground arith in
      let lt' : ltb j (length ns) ≡ true = ground arith in
      (
        c,
        l'',
        r'',
        below,
        rw (read_side size v bytes ns reads i 0 (branch j l' r') r h.0 (omega arith), ne, lt') runs,
        holds,
      )
