-- ===== src/LiteralHash/Building.antt =====
-- The shards that the builder makes of its patterns (src/literal_hash.rs, `build`).
use Prim.Native.Nat.{min, max}
use matchy.Base.{
  get_elem?-replicate_below, ℕ, suc, ◌^◌, ◌<◌, ◌≡◌, refl, sym, ◌∙◌, subst, arith, List, [], ◌∷◌,
  length, get_elem?, get_elem?_lt, replicate, length-replicate, some, ok,
}
use matchy.LiteralHash.{Shard, Literal, Host, string_pool}
use matchy.LiteralHash.Build.{shard_bits_for, partition, build_batches, serialize, build_patterns}
use matchy.LiteralHash.Shards.{Walks}
use matchy.LiteralHash.Buckets.{
  in_shard, length-partition, get_elem?-partition, length-in_shard-pool, build_batches-build_chunk,
}
use matchy.LiteralHash.Layout.{ShardsOf, Small, build_chunk-ShardsOf}

Small-pointwise :
    (buckets : List (List Literal))
    → ((i : ℕ) (b : List Literal) → get_elem? buckets i ≡ some b → length (string_pool b) < 2 ^ 32)
    → Small buckets
Small-pointwise [] each = tt
Small-pointwise (b ∷ bs) each = (each 0 b refl, Small-pointwise bs (λ i c e. each (suc i) c e))

-- The patterns of each shard after the partition.
pub bucket_at :
    (n i : ℕ) (ps : List Literal)
    → i < n
    → get_elem? (partition n ps (replicate n [])) i ≡ some (in_shard n i ps)
bucket_at n i ps below =
    get_elem?-partition n i ps (replicate n []) [] (get_elem?-replicate_below n i [] below)

pub partition_size : (n : ℕ) (ps : List Literal) → length (partition n ps (replicate n [])) ≡ n
partition_size n ps = length-partition n ps (replicate n []) ∙ length-replicate n []

pub shard_bits_for-lt : (count : ℕ) → shard_bits_for count < 32
unfolding shard_bits_for
shard_bits_for-lt count = ground arith

-- The shards that `build` makes.
pub build_patterns-ShardsOf :
    (host : Host) (p : Literal) (ps : List Literal) (mappings : List (ℕ × ℕ))
    → Walks host
    → length (string_pool (p ∷ ps)) < 2 ^ 32
    → (shards : List Shard) × (build_patterns host (p ∷ ps) mappings
        ≡ ok (serialize (shard_bits_for (length (p ∷ ps))) shards mappings))
      × ShardsOf 0
          (partition
            (2 ^ shard_bits_for (length (p ∷ ps)))
            (p ∷ ps)
            (replicate (2 ^ shard_bits_for (length (p ∷ ps))) []))
          shards
unfolding build_patterns
build_patterns-ShardsOf host p ps mappings walks small =
    let all = p ∷ ps in
    let n = 2 ^ shard_bits_for (length all) in
    let buckets = partition n all (replicate n []) in
    let size : length buckets ≡ n = partition_size n all in
    let each : Small buckets = Small-pointwise buckets (λ i b e. bound n size i b e) in
    let (shards, built, served) = build_chunk-ShardsOf host 0 buckets walks each in
    let batches : build_batches n host (max (min host.parallelism n) 1) 0 buckets ≡ ok shards =
      build_batches-build_chunk n host (max (min host.parallelism n) 1) 0 buckets (omega arith)
        (omega arith)
      ∙ built in
    (shards, rw batches refl, served)
  where
    bound :
        (n : ℕ)
        → length (partition n (p ∷ ps) (replicate n [])) ≡ n
        → (i : ℕ) (b : List Literal) → get_elem? (partition n (p ∷ ps) (replicate n [])) i ≡ some b
        → length (string_pool b) < 2 ^ 32
    bound n size i b e =
        let below : i < n =
          subst (λ k. i < k) size (get_elem?_lt (partition n (p ∷ ps) (replicate n [])) i e) in
        let both : some b ≡ some (in_shard n i (p ∷ ps)) = sym e ∙ bucket_at n i (p ∷ ps) below in
        let this : in_shard n i (p ∷ ps) ≡ b = cc in
        let less = length-in_shard-pool n i (p ∷ ps) in
        subst (λ c. length (string_pool c) < 2 ^ 32) this (omega arith)
