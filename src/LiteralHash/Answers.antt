-- ===== src/LiteralHash/Answers.antt =====
-- What a lookup in a built table answers (src/literal_hash.rs, from `add_pattern` to `lookup`).
use matchy.Base.{
  ℕ, ◌%◌, ◌^◌, ◌<◌, ◌≡◌, refl, sym, ap, ◌∙◌, subst, arith, List, [], ◌∷◌, length, ok, replicate,
}
use native.Mathlib.Nat.{mod-lt}
use matchy.Base.Bits.{pow-pos}
use matchy.Base.Orders.{Member}
use matchy.Glob.{MatchMode}
use matchy.LiteralHash.{
  Shard, Literal, LiteralHashBuilder, Host, compute_hash, normalize, string_pool,
}
use matchy.LiteralHash.Build.{shard_bits_for, partition, serialize, build_patterns, build}
use matchy.LiteralHash.Table.{LiteralHash, from_buffer, lookup}
use matchy.LiteralHash.Dictionary.{last_with}
use matchy.LiteralHash.Shards.{Walks}
use matchy.LiteralHash.Buckets.{in_shard, last_with-in_shard, Member-in_shard}
use matchy.LiteralHash.Layout.{Between, ShardsOf-Between, length-ShardsOf}
use matchy.LiteralHash.Offsets.{Ids, ShardsOf-Ids}
use matchy.LiteralHash.ShardLookup.{Storable, answer}
use matchy.LiteralHash.Loading.{Sections, serialize-Sections}
use matchy.LiteralHash.Building.{
  bucket_at, shard_bits_for-lt, build_patterns-ShardsOf, partition_size,
}
use matchy.LiteralHash.Lookup.{lookup-answer}

-- `build` ends with bytes for every builder whose strings take less than 2^32 bytes with their
-- lengths and terminators, in whatever order the map walks its entries.
pub build-total :
    (host : Host) (builder : LiteralHashBuilder) (mappings : List (ℕ × ℕ))
    → Walks host
    → length (string_pool builder.patterns) < 2 ^ 32
    → (buffer : List ℕ) × (build host builder mappings ≡ ok buffer)
unfolding build
build-total host builder mappings walks small = by_patterns builder.patterns small
  where
    by_patterns :
        (ps : List Literal)
        → length (string_pool ps) < 2 ^ 32
        → (buffer : List ℕ) × (build_patterns host ps mappings ≡ ok buffer)
    by_patterns [] small = ([], unfold build_patterns in refl)
    by_patterns (p ∷ ps) small =
        let (shards, built, _) = build_patterns-ShardsOf host p ps mappings walks small in
        (serialize (shard_bits_for (length (p ∷ ps))) shards mappings, built)

-- The sections of a built table, and the shard of a hash among the shards.
pub record Served (host : Host) (ps : List Literal) (mappings : List (ℕ × ℕ)) (mode : MatchMode)
    (buffer : List ℕ) (h : ℕ) : Type 0 where
  pub bits : ℕ
  pub shards : List Shard
  pub table : LiteralHash
  pub loaded : from_buffer buffer mode ≡ ok table
  pub sections : Sections table bits shards mappings mode
  pub ids : Ids 0 shards
  pub count : length shards ≡ 2 ^ bits
  pub own : Between 0 (h % 2 ^ bits) (in_shard (2 ^ bits) (h % 2 ^ bits) ps) shards

pub build-Served :
    (host : Host) (p : Literal) (ps : List Literal) (mappings : List (ℕ × ℕ)) (mode : MatchMode)
    (buffer : List ℕ) (h : ℕ)
    → Walks host
    → length (string_pool (p ∷ ps)) < 2 ^ 32
    → build_patterns host (p ∷ ps) mappings ≡ ok buffer
    → length buffer < 2 ^ 32
    → Served host (p ∷ ps) mappings mode buffer h
build-Served host p ps mappings mode buffer h walks small built room =
    let bits = shard_bits_for (length (p ∷ ps)) in
    let n = 2 ^ bits in
    let (shards, built', all) = build_patterns-ShardsOf host p ps mappings walks small in
    let both : ok (serialize bits shards mappings) ≡ ok buffer = sym built' ∙ built in
    let same : serialize bits shards mappings ≡ buffer = cc in
    let room' : length (serialize bits shards mappings) < 2 ^ 32 =
      subst (λ b. length b < 2 ^ 32) (sym same) room in
    let (table, loaded, sections) =
      serialize-Sections bits shards mappings mode (shard_bits_for-lt (length (p ∷ ps))) room' in
    let buckets = partition n (p ∷ ps) (replicate n []) in
    record {
      bits = bits;
      shards = shards;
      table = table;
      loaded = subst (λ b. from_buffer b mode ≡ ok table) same loaded;
      sections = sections;
      ids = ShardsOf-Ids 0 buckets shards all;
      count = length-ShardsOf 0 buckets shards all ∙ partition_size n (p ∷ ps);
      own =
          ShardsOf-Between 0 (h % n) buckets shards all
            (bucket_at n (h % n) (p ∷ ps) (mod-lt h (pow-pos bits)));
    }

lookup-Served :
    (host : Host) (ps : List Literal) (mappings : List (ℕ × ℕ)) (mode : MatchMode)
    (buffer query : List ℕ)
    → (s : Served host ps mappings mode buffer (compute_hash host (normalize host mode query)))
    → ((l : Literal) → Member l ps → Storable l)
    → lookup host s.table query
      ≡ ok (
          answer
            (last_with (compute_hash host (normalize host mode query)) ps)
            (normalize host mode query))
lookup-Served host ps mappings mode buffer query s storable =
    let h = compute_hash host (normalize host mode query) in
    let n = 2 ^ s.bits in
    let own = s.own in
    let sections = subst (λ all. Sections s.table s.bits all mappings mode) own.split s.sections in
    let ids = subst (Ids 0) own.split s.ids in
    let count = subst (λ all. length all ≡ n) own.split s.count in
    lookup-answer host s.table s.bits own.before own.shard own.behind mappings mode sections
      (in_shard n (h % n) ps) query own.serves (λ l m. storable l (Member-in_shard n (h % n) ps m))
      ids count own.place
    ∙ ap (λ o. ok (answer o (normalize host mode query))) (last_with-in_shard n h ps)

-- For every builder with at least one pattern, whose patterns have hashes of 64 bits, ids of 32 bits
-- and valid UTF-8 of fewer than 2^16 bytes: if build gives fewer than 2^32 bytes, from_buffer accepts
-- them, and lookup of any query returns the id of the last pattern with the hash of the normalized
-- query if its text is the normalized query, and nothing if there is none or its text is another one.
pub lookup-build :
    (host : Host) (builder : LiteralHashBuilder) (mappings : List (ℕ × ℕ)) (query buffer : List ℕ)
    → Walks host
    → 0 < length builder.patterns
    → length (string_pool builder.patterns) < 2 ^ 32
    → ((l : Literal) → Member l builder.patterns → Storable l)
    → build host builder mappings ≡ ok buffer
    → length buffer < 2 ^ 32
    → (table : LiteralHash) × (from_buffer buffer builder.mode ≡ ok table)
      × (lookup host table query
          ≡ ok (
              answer
                (last_with (compute_hash host (normalize host builder.mode query)) builder.patterns)
                (normalize host builder.mode query)))
unfolding build
lookup-build host builder mappings query buffer walks some_pattern small storable built room =
    by_patterns builder.patterns builder.mode some_pattern small storable built
  where
    by_patterns :
        (ps : List Literal) (mode : MatchMode)
        → 0 < length ps
        → length (string_pool ps) < 2 ^ 32
        → ((l : Literal) → Member l ps → Storable l)
        → build_patterns host ps mappings ≡ ok buffer
        → (table : LiteralHash) × (from_buffer buffer mode ≡ ok table)
          × (lookup host table query
              ≡ ok (
                  answer
                    (last_with (compute_hash host (normalize host mode query)) ps)
                    (normalize host mode query)))
    by_patterns [] mode some_pattern small storable built = absurd (omega arith)
    by_patterns (p ∷ ps) mode some_pattern small storable built =
        let s =
          build-Served host p ps mappings mode buffer
            (compute_hash host (normalize host mode query)) walks small built room in
        (s.table, s.loaded, lookup-Served host (p ∷ ps) mappings mode buffer query s storable)
