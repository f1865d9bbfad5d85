-- ===== src/IpTree/Shape.antt =====
-- Insertion keeps the shape of the trie: no id twice, and no higher than the address has bits.
use matchy.Base.{ℕ, zero, suc, ◌+◌, ◌≤◌, ◌<◌, ◌≢◌, arith}
use matchy.IpTree.Trie.{
  Trie, void, leaf, branch, All, Avoids, Separate, Height, fill, put, ins, All-fill, All-ins,
  All-imp,
}

All-imp₂ :
    {P Q R : ℕ → Type 0} → ((j : ℕ) → P j → Q j → R j) → (t : Trie) → All P t → All Q t → All R t
All-imp₂ f void a b = tt
All-imp₂ f (leaf o e) a b = tt
All-imp₂ f (branch i l r) a b = (f i a.0 b.0, All-imp₂ f l a.1 b.1, All-imp₂ f r a.2 b.2)

All-every : {P : ℕ → Type 0} → ((j : ℕ) → P j) → (t : Trie) → All P t
All-every f void = tt
All-every f (leaf o e) = tt
All-every f (branch i l r) = (f i, All-every f l, All-every f r)

module _ (offset len : ℕ) where
  pub Separate-fill : (t : Trie) → Separate t → Separate (fill offset len t)
  unfolding fill
  Separate-fill void s = tt
  Separate-fill (leaf o e) s = ground arith
  Separate-fill (branch i l r) (il, ir, lr, rl, sl, sr) = (
    All-fill _ offset len l il,
    All-fill _ offset len r ir,
    All-fill _ offset len l (All-imp (λ j. All-fill (λ k. k ≢ j) offset len r) l lr),
    All-fill _ offset len r (All-imp (λ j. All-fill (λ k. k ≢ j) offset len l) r rl),
    Separate-fill l sl,
    Separate-fill r sr,
  )

  Separate-put : (t : Trie) → Separate t → Separate (put offset len t)
  unfolding put
  Separate-put void s = tt
  Separate-put (leaf o e) s = ground arith
  Separate-put (branch i l r) s = Separate-fill (branch i l r) s

  pub Height-fill : (h : ℕ) (t : Trie) → Height h t → Height h (fill offset len t)
  unfolding fill
  Height-fill h void s = tt
  Height-fill h (leaf o e) s = ground arith
  Height-fill zero (branch i l r) s = s
  Height-fill (suc h) (branch i l r) s = (Height-fill h l s.0, Height-fill h r s.1)

  Height-put : (h : ℕ) (t : Trie) → Height h t → Height h (put offset len t)
  unfolding put
  Height-put h void s = tt
  Height-put h (leaf o e) s = ground arith
  Height-put h (branch i l r) s = Height-fill h (branch i l r) s

-- A new subtree in place of one half of a branch: its ids are those of the old half and new ones.
Separate-half :
    (n : ℕ) (l l' r : Trie)
    → ((P : ℕ → Type 0) → ((j : ℕ) → n ≤ j → P j) → All P l → All P l')
    → All (λ j. j < n) r
    → All (λ j. Avoids j r) l
    → All (λ j. Avoids j l) r
    → All (λ j. Avoids j r) l' × All (λ j. Avoids j l') r
Separate-half n l l' r ids below lr rl = (
  ids (λ j. Avoids j r) (λ j h. All-imp (λ k (b : k < n). omega arith) r below) lr,
  All-imp₂ (λ j a (b : j < n). ids (λ k. k ≢ j) (λ k h. omega arith) a) r rl below,
)

module _ (bits len offset : ℕ) where
  pub Separate-ins :
      (rounds n depth : ℕ) (t : Trie)
      → All (λ j. j < n) t
      → Separate t
      → Separate (ins rounds n depth bits len offset t)
  unfolding ins
  Separate-ins zero n depth t below s = Separate-put offset len t s
  Separate-ins (suc rounds) n depth void below s =
      let fresh =
        All-ins (λ j. j ≢ n) rounds (n + 1) (depth + 1) bits len offset void (λ j h. omega arith)
          tt in
      let ih = Separate-ins rounds (n + 1) (depth + 1) void tt tt in
      let any =
        All-every {P = λ _. Unit {0}} (λ _. tt)
          (ins rounds (n + 1) (depth + 1) bits len offset void) in
      ground arith
  Separate-ins (suc rounds) n depth (leaf o e) below s =
      let fresh =
        All-ins (λ j. j ≢ n) rounds (n + 1) (depth + 1) bits len offset (leaf o e)
          (λ j h. omega arith) tt in
      let ih = Separate-ins rounds (n + 1) (depth + 1) (leaf o e) tt tt in
      let any =
        All-every {P = λ _. Unit {0}} (λ _. tt)
          (ins rounds (n + 1) (depth + 1) bits len offset (leaf o e)) in
      ground arith
  Separate-ins (suc rounds) n depth (branch i l r) below (il, ir, lr, rl, sl, sr) =
      let ids = λ (t : Trie) (P : ℕ → Type 0). All-ins P rounds n (depth + 1) bits len offset t in
      let il' = ids l (λ j. j ≢ i) (λ j h. omega arith) il in
      let ir' = ids r (λ j. j ≢ i) (λ j h. omega arith) ir in
      let (lr', rl') = Separate-half n l _ r (ids l) below.2 lr rl in
      let (rl'', lr'') = Separate-half n r _ l (ids r) below.1 rl lr in
      let ihl = Separate-ins rounds n (depth + 1) l below.1 sl in
      let ihr = Separate-ins rounds n (depth + 1) r below.2 sr in ground arith

  pub Height-ins :
      (rounds h n depth : ℕ) (t : Trie)
      → rounds ≤ h
      → Height h t
      → Height h (ins rounds n depth bits len offset t)
  unfolding ins
  Height-ins zero h n depth t le s = Height-put offset len h t s
  Height-ins (suc rounds) zero n depth t le s = absurd (omega arith)
  Height-ins (suc rounds) (suc h) n depth void le s =
      let ih = Height-ins rounds h (n + 1) (depth + 1) void (omega arith) tt in ground arith
  Height-ins (suc rounds) (suc h) n depth (leaf o e) le s =
      let ih = Height-ins rounds h (n + 1) (depth + 1) (leaf o e) (omega arith) tt in ground arith
  Height-ins (suc rounds) (suc h) n depth (branch i l r) le s =
      let ihl = Height-ins rounds h n (depth + 1) l (omega arith) s.0 in
      let ihr = Height-ins rounds h n (depth + 1) r (omega arith) s.1 in ground arith
