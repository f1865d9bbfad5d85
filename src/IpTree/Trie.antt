-- ===== src/IpTree/Trie.antt =====
-- The search tree as a value: what the arena of src/ip_tree_builder.rs stands for. A branch carries
-- the id of its node.
use matchy.Base.{ℕ, zero, suc, ◌+◌, ◌≤◌, ◌≢◌, ltb, leb, ◌==◌, if◌then◌else◌, arith}
use matchy.IpTree.{bit_at, NodePointer, entry, empty, node}

pub data Trie : Type 0 where
  void : Trie
  leaf : ℕ → ℕ → Trie
  branch : ℕ → Trie → Trie → Trie

-- The pointer to the root of a trie.
abbrev pub ptr : Trie → NodePointer
ptr void = empty
ptr (leaf offset len) = entry offset len
ptr (branch i l r) = node i

-- Every id of the trie satisfies `P`.
abbrev pub All : (ℕ → Type 0) → Trie → Type 0
All P void = Unit
All P (leaf offset len) = Unit
All P (branch i l r) = P i × All P l × All P r

abbrev pub Avoids : ℕ → Trie → Type 0
Avoids j = All (λ k. k ≢ j)

-- No id occurs twice, so a write to one node changes one place of the trie.
abbrev pub Separate : Trie → Type 0
Separate void = Unit
Separate (leaf offset len) = Unit
Separate (branch i l r) =
    Avoids i l
    × Avoids i r
    × All (λ j. Avoids j r) l
    × All (λ j. Avoids j l) r
    × Separate l
    × Separate r

abbrev pub Height : ℕ → Trie → Type 0
Height h void = Unit
Height h (leaf offset len) = Unit
Height zero (branch i l r) = ⊥
Height (suc h) (branch i l r) = Height h l × Height h r

-- The subtree on the side of a bit, changed by `f`.
abbrev pub change : ℕ → (Trie → Trie) → Trie → Trie
change bit f void = void
change bit f (leaf offset len) = leaf offset len
change bit f (branch i l r) = if bit == 0 then branch i (f l) r else branch i l (f r)

-- The subtree below a prefix that is inserted late.
unfoldable pub fill : ℕ → ℕ → Trie → Trie
fill offset len void = leaf offset len
fill offset len (leaf offset' existing) =
    if ltb existing len then leaf offset len else leaf offset' existing
fill offset len (branch i l r) = branch i (fill offset len l) (fill offset len r)

-- The edge of the last bit of the prefix.
unfoldable pub put : ℕ → ℕ → Trie → Trie
unfolding fill
put offset len void = leaf offset len
put offset len (leaf offset' existing) =
    if leb existing len then leaf offset len else leaf offset' existing
put offset len (branch i l r) = fill offset len (branch i l r)

-- An edge that the insertion goes through becomes a branch; `n` is the id of the next new node.
abbrev pub opened : ℕ → Trie → Trie
opened n void = branch n void void
opened n (leaf offset len) = branch n (leaf offset len) (leaf offset len)
opened n (branch i l r) = branch i l r

abbrev pub next_id : ℕ → Trie → ℕ
next_id n void = n + 1
next_id n (leaf offset len) = n + 1
next_id n (branch i l r) = n

-- Insertion below an edge, with `rounds` bits of the prefix left.
unfoldable pub ins : (rounds n depth bits len offset : ℕ) → Trie → Trie
unfolding put
ins zero n depth bits len offset t = put offset len t
ins (suc rounds) n depth bits len offset t =
    change (bit_at bits depth) (ins rounds (next_id n t) (depth + 1) bits len offset) (opened n t)

module _ (P : ℕ → Type 0) where
  pub All-fill : (offset len : ℕ) (t : Trie) → All P t → All P (fill offset len t)
  unfolding fill
  All-fill offset len void a = tt
  All-fill offset len (leaf o e) a = ground arith
  All-fill offset len (branch i l r) a = (a.0, All-fill offset len l a.1, All-fill offset len r a.2)

  pub All-put : (offset len : ℕ) (t : Trie) → All P t → All P (put offset len t)
  unfolding put
  All-put offset len void a = tt
  All-put offset len (leaf o e) a = ground arith
  All-put offset len (branch i l r) a = All-fill offset len (branch i l r) a

  -- The ids of the result are old ids and new ones.
  pub All-ins :
      (rounds n depth bits len offset : ℕ) (t : Trie)
      → ((j : ℕ) → n ≤ j → P j)
      → All P t
      → All P (ins rounds n depth bits len offset t)
  unfolding ins
  All-ins zero n depth bits len offset t new a = All-put offset len t a
  All-ins (suc rounds) n depth bits len offset void new a =
      let ih =
        All-ins rounds (n + 1) (depth + 1) bits len offset void (λ j h. new j (omega arith)) tt in
      ground (arith, new n)
  All-ins (suc rounds) n depth bits len offset (leaf o e) new a =
      let ih =
        All-ins rounds (n + 1) (depth + 1) bits len offset (leaf o e) (λ j h. new j (omega arith))
          tt in
      ground (arith, new n)
  All-ins (suc rounds) n depth bits len offset (branch i l r) new a =
      let ihl = All-ins rounds n (depth + 1) bits len offset l new a.1 in
      let ihr = All-ins rounds n (depth + 1) bits len offset r new a.2 in ground arith

module _ {P Q : ℕ → Type 0} where
  pub All-imp : ((j : ℕ) → P j → Q j) → (t : Trie) → All P t → All Q t
  All-imp f void a = tt
  All-imp f (leaf o e) a = tt
  All-imp f (branch i l r) a = (f i a.0, All-imp f l a.1, All-imp f r a.2)
