-- ===== src/LiteralHash/Offsets.antt =====
-- The offsets of the shards in the joined table (src/literal_hash.rs, `build`).
use matchy.Base.{
  ℕ, zero, suc, ◌+◌, ◌%◌, ◌^◌, ◌<◌, ◌≡◌, refl, ap, ◌∙◌, subst, arith, List, [], ◌∷◌, ◌++◌, length,
  set, get_elem?, replicate, some, get_elem?-set_self, get_elem?-set_ne, length-set,
}
use matchy.LiteralHash.{Shard, Literal}
use matchy.LiteralHash.Build.{shard_offsets_loop}
use matchy.LiteralHash.Layout.{ShardsOf, entries_in}

-- The ids of the shards count from `k` on.
abbrev pub Ids : ℕ → List Shard → Type 0
Ids k [] = Unit
Ids k (s ∷ ss) = (s.shard_id ≡ k) × Ids (k + 1) ss

pub ShardsOf-Ids :
    (k : ℕ) (buckets : List (List Literal)) (shards : List Shard)
    → ShardsOf k buckets shards
    → Ids k shards
ShardsOf-Ids k [] [] all = tt
ShardsOf-Ids k [] (s ∷ ss) all = elim all [ ]
ShardsOf-Ids k (b ∷ bs) [] all = elim all [ ]
ShardsOf-Ids k (b ∷ bs) (s ∷ ss) (id, serves, all) = (id, ShardsOf-Ids (k + 1) bs ss all)

offsets_before :
    (n k off : ℕ) (shards : List Shard) (offsets : List ℕ) (j : ℕ)
    → Ids k shards
    → k + length shards ≡ n
    → j < k
    → get_elem? (shard_offsets_loop n shards off offsets) j ≡ get_elem? offsets j
unfolding shard_offsets_loop
offsets_before n k off [] offsets j ids count below =
    get_elem?-set_ne offsets n j off (λ e. omega arith)
offsets_before n k off (s ∷ ss) offsets j (id, ids) count below =
    offsets_before n (k + 1) _ ss (set offsets s.shard_id off) j ids (omega arith) (omega arith)
    ∙ get_elem?-set_ne offsets s.shard_id j off (λ e. omega arith)

offsets_here :
    (n k off : ℕ) (shards : List Shard) (offsets : List ℕ)
    → Ids k shards
    → k + length shards ≡ n
    → n < length offsets
    → get_elem? (shard_offsets_loop n shards off offsets) k ≡ some off
unfolding shard_offsets_loop
offsets_here n k off [] offsets ids count room =
    let last : n ≡ k = omega arith in
    subst (λ i. get_elem? (set offsets n off) i ≡ some off) last
      (get_elem?-set_self offsets n off room)
offsets_here n k off (s ∷ ss) offsets (id, ids) count room =
    offsets_before n (k + 1) _ ss (set offsets s.shard_id off) k ids (omega arith) (omega arith)
    ∙ rw id (get_elem?-set_self offsets k off (omega arith))

offsets_step :
    (n off : ℕ) (b : Shard) (shards : List Shard) (offsets : List ℕ)
    → off + length b.table < 2 ^ 32
    → shard_offsets_loop n (b ∷ shards) off offsets
      ≡ shard_offsets_loop n shards (off + length b.table) (set offsets b.shard_id off)
unfolding shard_offsets_loop
offsets_step n off b shards offsets small =
    let onward : (off + length b.table % 2 ^ 32) % 2 ^ 32 ≡ off + length b.table = omega arith in
    ap (λ o. shard_offsets_loop n shards o (set offsets b.shard_id off)) onward

-- Where a shard starts and ends.
pub offsets_around :
    (n k off : ℕ) (before : List Shard) (s : Shard) (behind : List Shard) (offsets : List ℕ)
    → Ids k (before ++ s ∷ behind)
    → k + length (before ++ s ∷ behind) ≡ n
    → n < length offsets
    → off + entries_in before + length s.table < 2 ^ 32
    → (get_elem? (shard_offsets_loop n (before ++ s ∷ behind) off offsets) (k + length before)
        ≡ some (off + entries_in before))
      × (get_elem? (shard_offsets_loop n (before ++ s ∷ behind) off offsets) (k + length before + 1)
          ≡ some (off + entries_in before + length s.table))
unfolding entries_in
offsets_around n k off [] s behind offsets (id, ids) count room small =
    let e₁ : k ≡ k + 0 = omega arith in
    let e₂ : k + 1 ≡ k + 0 + 1 = omega arith in
    let v₁ : off ≡ off + 0 = omega arith in
    let v₂ : (off + length s.table % 2 ^ 32) % 2 ^ 32 ≡ off + 0 + length s.table = omega arith in
    let all = shard_offsets_loop n (s ∷ behind) off offsets in
    let next =
      offsets_here n (k + 1) ((off + length s.table % 2 ^ 32) % 2 ^ 32) behind
        (set offsets s.shard_id off) ids (omega arith)
        (omega (arith, length-set offsets s.shard_id off)) in
    let offsets_first : get_elem? all (k + 1)
        ≡ get_elem?
            (shard_offsets_loop n behind ((off + length s.table % 2 ^ 32) % 2 ^ 32)
              (set offsets s.shard_id off))
            (k + 1) =
      unfold shard_offsets_loop in refl in
    (
      subst (λ i. get_elem? all i ≡ some (off + 0)) e₁
          (offsets_here n k off (s ∷ behind) offsets (id, ids) count room ∙ ap some v₁),
      subst (λ i. get_elem? all i ≡ some (off + 0 + length s.table)) e₂
          (offsets_first ∙ next ∙ ap some v₂),
    )
offsets_around n k off (b ∷ before) s behind offsets (id, ids) count room small =
    let e₁ : k + 1 + length before ≡ k + suc (length before) = omega arith in
    let v₁ : off + length b.table + entries_in before ≡ off + (length b.table + entries_in before) =
      omega arith in
    let step = offsets_step n off b (before ++ s ∷ behind) offsets (omega arith) in
    let (start, stop) =
      offsets_around n (k + 1) (off + length b.table) before s behind (set offsets b.shard_id off)
        ids (omega arith) (omega (arith, length-set offsets b.shard_id off)) (omega arith) in
    rw (step, ← e₁, ← v₁) (start, stop)

-- Each offset has 32 bits.
abbrev pub Below32 : List ℕ → Type 0
Below32 [] = Unit
Below32 (x ∷ xs) = (x < 2 ^ 32) × Below32 xs

set-Below32 : (xs : List ℕ) (i x : ℕ) → Below32 xs → x < 2 ^ 32 → Below32 (set xs i x)
set-Below32 [] i x all small = tt
set-Below32 (y ∷ xs) zero x (first, all) small = (small, all)
set-Below32 (y ∷ xs) (suc i) x (first, all) small = (first, set-Below32 xs i x all small)

pub replicate-Below32 : (n : ℕ) → Below32 (replicate n 0)
replicate-Below32 zero = tt
replicate-Below32 (suc n) = (omega arith, replicate-Below32 n)

pub shard_offsets_loop-Below32 :
    (n : ℕ) (shards : List Shard) (off : ℕ) (offsets : List ℕ)
    → Below32 offsets
    → off < 2 ^ 32
    → Below32 (shard_offsets_loop n shards off offsets)
unfolding shard_offsets_loop
shard_offsets_loop-Below32 n [] off offsets all small = set-Below32 offsets n off all small
shard_offsets_loop-Below32 n (s ∷ ss) off offsets all small =
    shard_offsets_loop-Below32 n ss ((off + length s.table % 2 ^ 32) % 2 ^ 32)
      (set offsets s.shard_id off) (set-Below32 offsets s.shard_id off all small) (omega arith)

pub length-shard_offsets_loop :
    (n : ℕ) (shards : List Shard) (off : ℕ) (offsets : List ℕ)
    → length (shard_offsets_loop n shards off offsets) ≡ length offsets
unfolding shard_offsets_loop
length-shard_offsets_loop n [] off offsets = length-set offsets n off
length-shard_offsets_loop n (s ∷ ss) off offsets =
    length-shard_offsets_loop n ss ((off + length s.table % 2 ^ 32) % 2 ^ 32)
      (set offsets s.shard_id off)
    ∙ length-set offsets s.shard_id off
