-- ===== src/IpTree/Ipv4.antt =====
-- The node at which the IPv4 addresses of a tree for IPv6 start, below 96 zero bits.
use matchy.Base.{ℕ, zero, suc, ◌+◌, ◌<◌, ◌≡◌, arith, ◌==◌, Bool-cases, inl, inr}
use matchy.IpTree.{bit_at}
use matchy.IpTree.Trie.{Trie, void, leaf, branch, fill, put, ins}

-- The tree has a node below 96 zero bits, which is where IPv4 addresses start.
abbrev pub HasIpv4 : ℕ → Trie → Type 0
HasIpv4 zero void = ⊥
HasIpv4 zero (leaf o e) = ⊥
HasIpv4 zero (branch i l r) = Unit
HasIpv4 (suc k) void = ⊥
HasIpv4 (suc k) (leaf o e) = ⊥
HasIpv4 (suc k) (branch i l r) = HasIpv4 k l

pub not-HasIpv4-void : (k : ℕ) → ¬ HasIpv4 k void
not-HasIpv4-void zero h = h
not-HasIpv4-void (suc k) h = h

pub not-HasIpv4-leaf : (k o e : ℕ) → ¬ HasIpv4 k (leaf o e)
not-HasIpv4-leaf zero o e h = h
not-HasIpv4-leaf (suc k) o e h = h

module _ (offset len : ℕ) where
  HasIpv4-fill : (k : ℕ) (t : Trie) → HasIpv4 k t → HasIpv4 k (fill offset len t)
  unfolding fill
  HasIpv4-fill k void h = absurd (not-HasIpv4-void k h)
  HasIpv4-fill k (leaf o e) h = absurd (not-HasIpv4-leaf k o e h)
  HasIpv4-fill zero (branch i l r) h = tt
  HasIpv4-fill (suc k) (branch i l r) h = HasIpv4-fill k l h

  HasIpv4-put : (k : ℕ) (t : Trie) → HasIpv4 k t → HasIpv4 k (put offset len t)
  unfolding put
  HasIpv4-put k void h = absurd (not-HasIpv4-void k h)
  HasIpv4-put k (leaf o e) h = absurd (not-HasIpv4-leaf k o e h)
  HasIpv4-put k (branch i l r) h = HasIpv4-fill k (branch i l r) h

  -- An insertion keeps the node.
  pub HasIpv4-ins :
      (k rounds n depth bits : ℕ) (t : Trie)
      → HasIpv4 k t
      → HasIpv4 k (ins rounds n depth bits len offset t)
  unfolding ins
  HasIpv4-ins k zero n depth bits t h = HasIpv4-put k t h
  HasIpv4-ins k (suc rounds) n depth bits void h = absurd (not-HasIpv4-void k h)
  HasIpv4-ins k (suc rounds) n depth bits (leaf o e) h = absurd (not-HasIpv4-leaf k o e h)
  HasIpv4-ins zero (suc rounds) n depth bits (branch i l r) h = ground arith
  HasIpv4-ins (suc k) (suc rounds) n depth bits (branch i l r) h =
      elim (Bool-cases (bit_at bits depth == 0)) [
        | inl e ↦ rw e (HasIpv4-ins k rounds n (depth + 1) bits l h)
        | inr e ↦ rw e h
      ]

  -- A prefix of an IPv4 address makes the node.
  pub ins-HasIpv4 :
      (k rounds n depth bits : ℕ) (t : Trie)
      → k < rounds
      → ((d : ℕ) → d < depth + k → bit_at bits d ≡ 0)
      → HasIpv4 k (ins rounds n depth bits len offset t)
  unfolding ins
  ins-HasIpv4 k zero n depth bits t lt zeros = absurd (omega arith)
  ins-HasIpv4 zero (suc rounds) n depth bits void lt zeros = ground arith
  ins-HasIpv4 zero (suc rounds) n depth bits (leaf o e) lt zeros = ground arith
  ins-HasIpv4 zero (suc rounds) n depth bits (branch i l r) lt zeros = ground arith
  ins-HasIpv4 (suc k) (suc rounds) n depth bits void lt zeros =
      let here : bit_at bits depth ≡ 0 = zeros depth (omega arith) in
      rw here (
        ins-HasIpv4 k rounds (n + 1) (depth + 1) bits void (omega arith)
          (λ d b. zeros d (omega arith)))
  ins-HasIpv4 (suc k) (suc rounds) n depth bits (leaf o e) lt zeros =
      let here : bit_at bits depth ≡ 0 = zeros depth (omega arith) in
      rw here (
        ins-HasIpv4 k rounds (n + 1) (depth + 1) bits (leaf o e) (omega arith)
          (λ d b. zeros d (omega arith)))
  ins-HasIpv4 (suc k) (suc rounds) n depth bits (branch i l r) lt zeros =
      let here : bit_at bits depth ≡ 0 = zeros depth (omega arith) in
      rw here
        (ins-HasIpv4 k rounds n (depth + 1) bits l (omega arith) (λ d b. zeros d (omega arith)))
