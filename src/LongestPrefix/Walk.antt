-- ===== src/LongestPrefix/Walk.antt =====
-- The loops of the reader follow the trie.
use matchy.Base.{
  ℕ, zero, suc, ◌+◌, ◌≤◌, ◌<◌, ◌≡◌, refl, arith, ltb, ◌==◌, if◌then◌else◌, List, length, get_elem?,
  Option, some, none, true, false, ok, get_elem?_lt, Bool-cases, inl, inr, subst,
}
use matchy.Mmdb.Types.{RecordSize, IpVersion}
use matchy.Mmdb.Tree.{SearchTree, LookupResult, read_record, calculate_data_offset, v6_loop, v6_bit}
use matchy.IpTree.{Node, bit_at}
use matchy.IpTree.Trie.{Trie, void, leaf, branch, ptr, Height}
use matchy.IpTree.Find.{bit_at_lt}
use matchy.IpTree.Arena.{Holds, node_of}
use matchy.LongestPrefix.Records.{header_of}
use matchy.LongestPrefix.Written.{value}

-- The entry of an address and the depth at which it hangs, which is the prefix length reported.
unfoldable pub locate : Trie → ℕ → ℕ → Option LookupResult
locate void a depth = none
locate (leaf offset len) a depth = some (record { data_offset = offset; prefix_len = depth })
locate (branch i l r) a depth = elim (bit_at a depth == 0) [
  | true ↦ locate l a (depth + 1)
  | false ↦ locate r a (depth + 1)
]

-- The subtree on the side of a bit.
abbrev pub side : ℕ → Trie → Trie → Trie
side bit l r = if bit == 0 then l else r

pub locate-branch :
    (i a depth : ℕ) (l r : Trie)
    → locate (branch i l r) a depth ≡ locate (side (bit_at a depth) l r) a (depth + 1)
unfolding locate
locate-branch i a depth l r = ground arith

-- The bytes of `t` hold the records of the arena.
abbrev pub Reads : SearchTree → List Node → Type 0
Reads t ns =
    (i : ℕ) (n : Node)
    → get_elem? ns i ≡ some n
    → (read_record t i 0 ≡ ok (value (length ns) n.left))
      × (read_record t i 1 ≡ ok (value (length ns) n.right))

module _ (size : RecordSize) (v : IpVersion) (bytes : List ℕ) (ns : List Node)
    (reads : Reads (record { bytes = bytes; header = header_of size v (length ns) }) ns) where
  abbrev pub tree : SearchTree
  tree = record { bytes = bytes; header = header_of size v (length ns) }

  -- Reading the record of a bit gives the value of the subtree on that side.
  pub read_side :
      (i bit : ℕ) (l r : Trie)
      → get_elem? ns i ≡ some (node_of l r)
      → bit < 2
      → read_record tree i bit ≡ ok (value (length ns) (ptr (side bit l r)))
  read_side i zero l r at h = (reads i (node_of l r) at).0
  read_side i (suc zero) l r at h = (reads i (node_of l r) at).1
  read_side i (suc (suc k)) l r at h = absurd (omega arith)

  pub offset_lem : (offset : ℕ) → calculate_data_offset tree (length ns + 16 + offset) ≡ ok offset
  unfolding calculate_data_offset
  offset_lem offset = ground arith

  module _ (high low a : ℕ) (bits : (d : ℕ) → d < 128 → v6_bit high low d ≡ bit_at a d) where
    -- The rest of the loop after a record has been read.
    v6_step :
        (rounds i depth : ℕ) (l r t : Trie)
        → depth < 128
        → bit_at a depth < 2
        → get_elem? ns i ≡ some (node_of l r)
        → t ≡ side (bit_at a depth) l r
        → Holds ns t
        → ((c : ℕ) (l' r' : Trie)
            → t ≡ branch c l' r'
            → v6_loop rounds tree high low (depth + 1) c (depth + 1) ≡ ok (locate t a (depth + 1)))
        → v6_loop (suc rounds) tree high low depth i depth ≡ ok (locate t a (depth + 1))
    unfolding v6_loop locate
    v6_step rounds i depth l r void lt bit at e h next =
        let run = read_side i (bit_at a depth) l r at bit in
        let same : length ns == length ns ≡ true = ground arith in
        rw (bits depth lt, run, ← e, same)
    v6_step rounds i depth l r (leaf o x) lt bit at e h next =
        let run = read_side i (bit_at a depth) l r at bit in
        let ne : (length ns + 16 + o == length ns) ≡ false = ground arith in
        let ge : ltb (length ns + 16 + o) (length ns) ≡ false = ground arith in
        rw (bits depth lt, run, ← e, ne, ge, offset_lem o)
    v6_step rounds i depth l r (branch c l' r') lt bit at e h next =
        let run = read_side i (bit_at a depth) l r at bit in
        let below = get_elem?_lt ns c h.0 in
        let ne : (c == length ns) ≡ false = ground arith in
        let lt' : ltb c (length ns) ≡ true = ground arith in
        rw (bits depth lt, run, ← e, ne, lt') (next c l' r' refl)

    -- The IPv6 loop from a node on.
    pub v6_loop_lem :
        (rounds i depth : ℕ) (l r : Trie)
        → Holds ns (branch i l r)
        → Height rounds (branch i l r)
        → depth + rounds ≤ 128
        → v6_loop rounds tree high low depth i depth ≡ ok (locate (branch i l r) a depth)
    v6_loop_lem zero i depth l r h high room = absurd high
    v6_loop_lem (suc rounds) i depth l r h (hl, hr) room =
        rw (locate-branch i a depth l r) (elim (Bool-cases (bit_at a depth == 0)) [
          | inl left ↦
              v6_step rounds i depth l r _ (omega arith) (bit_at_lt a depth) h.0 refl (rw left h.1)
                (λ c l' r' e.
                  let down : l ≡ branch c l' r' = rw left at e in
                  rw (left, down)
                    (v6_loop_lem rounds c (depth + 1) l' r' (subst (Holds ns) down h.1)
                      (subst (Height rounds) down hl) (omega arith)))
          | inr right ↦
              v6_step rounds i depth l r _ (omega arith) (bit_at_lt a depth) h.0 refl (rw right h.2)
                (λ c l' r' e.
                  let down : r ≡ branch c l' r' = rw right at e in
                  rw (right, down)
                    (v6_loop_lem rounds c (depth + 1) l' r' (subst (Holds ns) down h.2)
                      (subst (Height rounds) down hr) (omega arith)))
        ])
