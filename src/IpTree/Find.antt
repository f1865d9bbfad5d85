-- ===== src/IpTree/Find.antt =====
-- What the trie says of an address, before and after an insertion.
use matchy.Base.{
  ℕ, zero, suc, ◌+◌, ◌-◌, ◌<◌, ◌≡◌, refl, Bool, true, false, ◌&&◌, ltb, leb, ◌==◌, if◌then◌else◌,
  Option, none, some, arith,
}
use matchy.Base.Bits.{bit_and-one, shr}
use matchy.IpTree.{bit_at}
use matchy.IpTree.Trie.{Trie, void, leaf, branch, fill, put, ins}

-- The entry of an address: its data offset and the length of its prefix.
abbrev pub Found : Type 0
Found = Option (ℕ × ℕ)

unfoldable pub find : Trie → ℕ → ℕ → Found
find void a depth = none
find (leaf offset len) a depth = some (offset, len)
find (branch i l r) a depth = elim (bit_at a depth == 0) [
  | true ↦ find l a (depth + 1)
  | false ↦ find r a (depth + 1)
]

-- `a` has the `rounds` bits of `bits` from `depth` on.
unfoldable pub agrees : ℕ → ℕ → ℕ → ℕ → Bool
agrees zero depth bits a = true
agrees (suc rounds) depth bits a =
    (bit_at bits depth == bit_at a depth) && agrees rounds (depth + 1) bits a

abbrev pub is_branch : Trie → Bool
is_branch void = false
is_branch (leaf offset len) = false
is_branch (branch i l r) = true

-- Longer prefixes have been inserted below the prefix.
unfoldable pub split_below : ℕ → ℕ → ℕ → Trie → Bool
split_below zero depth bits t = is_branch t
split_below (suc rounds) depth bits void = false
split_below (suc rounds) depth bits (leaf offset len) = false
split_below (suc rounds) depth bits (branch i l r) = elim (bit_at bits depth == 0) [
  | true ↦ split_below rounds (depth + 1) bits l
  | false ↦ split_below rounds (depth + 1) bits r
]

-- A new entry against the one found before: the longer prefix wins. Among equal ones the new entry
-- wins, unless the prefix has been split.
abbrev pub override : Bool → ℕ → ℕ → Found → Found
override split offset len none = some (offset, len)
override split offset len (some (offset', existing)) =
    if (if split then ltb existing len else leb existing len)
    then some (offset, len)
    else some (offset', existing)

pub bit_at_lt : (bits depth : ℕ) → bit_at bits depth < 2
unfolding bit_at
bit_at_lt bits depth = omega (arith, bit_and-one (shr bits (127 - depth)))

split_below-void : (rounds depth bits : ℕ) → split_below rounds depth bits void ≡ false
unfolding split_below
split_below-void zero depth bits = refl
split_below-void (suc rounds) depth bits = refl

split_below-leaf : (rounds depth bits o e : ℕ) → split_below rounds depth bits (leaf o e) ≡ false
unfolding split_below
split_below-leaf zero depth bits o e = refl
split_below-leaf (suc rounds) depth bits o e = refl

module _ (offset len a : ℕ) where
  pub find-fill :
      (t : Trie) (depth : ℕ)
      → find (fill offset len t) a depth ≡ override true offset len (find t a depth)
  unfolding find fill
  find-fill void depth = refl
  find-fill (leaf o e) depth = ground arith
  find-fill (branch i l r) depth = ground (arith, find-fill l (depth + 1), find-fill r (depth + 1))

  find-put :
      (t : Trie) (depth : ℕ)
      → find (put offset len t) a depth ≡ override (is_branch t) offset len (find t a depth)
  unfolding find put
  find-put void depth = refl
  find-put (leaf o e) depth = ground arith
  find-put (branch i l r) depth = find-fill (branch i l r) depth

  -- An insertion overrides the entries of the addresses that have the prefix, and no other.
  pub find-ins :
      (rounds n depth bits : ℕ) (t : Trie)
      → find (ins rounds n depth bits len offset t) a depth ≡ (
          if agrees rounds depth bits a
          then override (split_below rounds depth bits t) offset len (find t a depth)
          else find t a depth)
  unfolding ins agrees split_below find
  find-ins zero n depth bits t = find-put t depth
  find-ins (suc rounds) n depth bits void = ground (
    arith,
    find-ins rounds (n + 1) (depth + 1) bits void,
    split_below-void rounds (depth + 1) bits,
    bit_at_lt bits depth,
    bit_at_lt a depth,
  )
  find-ins (suc rounds) n depth bits (leaf o e) = ground (
    arith,
    find-ins rounds (n + 1) (depth + 1) bits (leaf o e),
    split_below-leaf rounds (depth + 1) bits o e,
    bit_at_lt bits depth,
    bit_at_lt a depth,
  )
  find-ins (suc rounds) n depth bits (branch i l r) = ground (
    arith,
    find-ins rounds n (depth + 1) bits l,
    find-ins rounds n (depth + 1) bits r,
    bit_at_lt bits depth,
    bit_at_lt a depth,
  )
