-- ===== src/LiteralHash/Layout.antt =====
-- The shards behind one another (src/literal_hash.rs, `build`): where the entries and the strings of
-- one shard are in the joined table and pool, and the offsets of the shards.
use matchy.Base.{
  ℕ, zero, suc, ◌+◌, ◌%◌, ◌^◌, ◌<◌, ◌≡◌, refl, sym, ap, ◌∙◌, subst, arith, List, [], ◌∷◌, ◌++◌,
  length, length-append, get_elem?, some, if◌then◌else◌, append_assoc, ok,
}
use matchy.LiteralHash.{
  HashEntry, Shard, Literal, Host, is_empty, string_pool, build_shard_auto_size,
}
use matchy.LiteralHash.Build.{build_chunk, adjust, final_table, final_string_pool}
use matchy.LiteralHash.Shards.{Walks, Serves, build_shard_auto_size-Serves}

abbrev pub ShardOf : List Literal → Shard → Type 0
ShardOf [] shard = (shard.table ≡ []) × (shard.strings ≡ [])
ShardOf (e ∷ es) shard = Serves (e ∷ es) shard

-- The shards of the buckets, with ids from `k` on.
abbrev pub ShardsOf : ℕ → List (List Literal) → List Shard → Type 0
ShardsOf k [] [] = Unit
ShardsOf k [] (s ∷ ss) = ⊥
ShardsOf k (b ∷ bs) [] = ⊥
ShardsOf k (b ∷ bs) (s ∷ ss) = (s.shard_id ≡ k) × ShardOf b s × ShardsOf (k + 1) bs ss

abbrev pub Small : List (List Literal) → Type 0
Small [] = Unit
Small (b ∷ bs) = (length (string_pool b) < 2 ^ 32) × Small bs

build_one :
    (host : Host) (k : ℕ) (es : List Literal)
    → Walks host
    → length (string_pool es) < 2 ^ 32
    → (s : Shard) × (build_shard_auto_size host k es ≡ ok s) × (s.shard_id ≡ k) × ShardOf es s
build_one host k [] walks small = (
  record { table = []; strings = []; shard_id = k },
  unfold build_shard_auto_size in refl,
  refl,
  (refl, refl),
)
build_one host k (e ∷ es) walks small = build_shard_auto_size-Serves host k e es walks small

pub build_chunk-ShardsOf :
    (host : Host) (k : ℕ) (buckets : List (List Literal))
    → Walks host
    → Small buckets
    → (shards : List Shard) × (build_chunk host k buckets ≡ ok shards) × ShardsOf k buckets shards
unfolding build_chunk
build_chunk-ShardsOf host k [] walks small = ([], refl, tt)
build_chunk-ShardsOf host k (b ∷ bs) walks (small, smalls) =
    let (s, built, id, serves) = build_one host k b walks small in
    let (ss, builts, all) = build_chunk-ShardsOf host (k + 1) bs walks smalls in
    (s ∷ ss, rw (built, builts) refl, (id, serves, all))

-- One shard between those before and those behind it.
pub record Between (k i : ℕ) (bucket : List Literal) (shards : List Shard) : Type 0 where
  pub before : List Shard
  pub shard : Shard
  pub behind : List Shard
  pub split : shards ≡ before ++ shard ∷ behind
  pub place : length before ≡ i
  pub serves : ShardOf bucket shard

pub ShardsOf-Between :
    (k i : ℕ) (buckets : List (List Literal)) (shards : List Shard) {bucket : List Literal}
    → ShardsOf k buckets shards
    → get_elem? buckets i ≡ some bucket
    → Between k i bucket shards
ShardsOf-Between k i [] shards all found = absurd (cc)
ShardsOf-Between k i (b ∷ bs) [] all found = elim all [ ]
ShardsOf-Between k zero (b ∷ bs) (s ∷ ss) (id, serves, all) found = record {
  before = [];
  shard = s;
  behind = ss;
  split = refl;
  place = refl;
  serves = let this : b ≡ _ = cc in subst (λ c. ShardOf c s) this serves;
}
ShardsOf-Between k (suc i) (b ∷ bs) (s ∷ ss) (id, serves, all) found =
    let inner = ShardsOf-Between (k + 1) i bs ss all found in
    record {
      before = s ∷ inner.before;
      shard = inner.shard;
      behind = inner.behind;
      split = ap (λ t. s ∷ t) inner.split;
      place = ap suc inner.place;
      serves = inner.serves;
    }

pub length-ShardsOf :
    (k : ℕ) (buckets : List (List Literal)) (shards : List Shard)
    → ShardsOf k buckets shards
    → length shards ≡ length buckets
length-ShardsOf k [] [] all = refl
length-ShardsOf k [] (s ∷ ss) all = elim all [ ]
length-ShardsOf k (b ∷ bs) [] all = elim all [ ]
length-ShardsOf k (b ∷ bs) (s ∷ ss) (id, serves, all) = ap suc (length-ShardsOf (k + 1) bs ss all)

-- The number of entries, and of bytes of strings.
unfoldable pub entries_in : List Shard → ℕ
entries_in [] = 0
entries_in (s ∷ ss) = length s.table + entries_in ss

unfoldable pub bytes_in : List Shard → ℕ
bytes_in [] = 0
bytes_in (s ∷ ss) = length s.strings + bytes_in ss

pub length-adjust : (pool : ℕ) (es : List HashEntry) → length (adjust pool es) ≡ length es
unfolding adjust
length-adjust pool [] = refl
length-adjust pool (e ∷ es) = ap suc (length-adjust pool es)

pub length-final_table :
    (pool : ℕ) (shards : List Shard) → length (final_table pool shards) ≡ entries_in shards
unfolding final_table entries_in
length-final_table pool [] = refl
length-final_table pool (s ∷ ss) =
    let onward = (pool + length s.strings % 2 ^ 32) % 2 ^ 32 in
    omega (
      arith,
      length-append (adjust pool s.table) (final_table onward ss),
      length-adjust pool s.table,
      length-final_table onward ss,
    )

pub length-final_string_pool :
    (shards : List Shard) → length (final_string_pool shards) ≡ bytes_in shards
unfolding final_string_pool bytes_in
length-final_string_pool [] = refl
length-final_string_pool (s ∷ ss) =
    omega (arith, length-append s.strings (final_string_pool ss), length-final_string_pool ss)

-- The parts of the joined table and pool in front of a shard.
final_table-behind :
    (pool : ℕ) (b : Shard) (before : List Shard) (s : Shard) (behind : List Shard)
    (rest : List HashEntry)
    → pool + length b.strings < 2 ^ 32
    → final_table (pool + length b.strings) (before ++ s ∷ behind)
      ≡ final_table (pool + length b.strings) before
        ++ (adjust (pool + length b.strings + bytes_in before) s.table ++ rest)
    → final_table pool (b ∷ before ++ s ∷ behind)
      ≡ final_table pool (b ∷ before)
        ++ (adjust (pool + (length b.strings + bytes_in before)) s.table ++ rest)
unfolding final_table
final_table-behind pool b before s behind rest small e =
    let onward : (pool + length b.strings % 2 ^ 32) % 2 ^ 32 ≡ pool + length b.strings =
      omega arith in
    let sum : pool + length b.strings + bytes_in before
        ≡ pool + (length b.strings + bytes_in before) =
      omega arith in
    rw onward (
      ap (λ t. adjust pool b.table ++ t) e
      ∙ sym (append_assoc (adjust pool b.table) (final_table (pool + length b.strings) before) _)
      ∙ ap
          (λ p.
            (adjust pool b.table ++ final_table (pool + length b.strings) before)
            ++ (adjust p s.table ++ rest))
          sum)

pub final_table-split :
    (pool : ℕ) (before : List Shard) (s : Shard) (behind : List Shard)
    → pool + bytes_in before < 2 ^ 32
    → (rest : List HashEntry) × (final_table pool (before ++ s ∷ behind)
        ≡ final_table pool before ++ (adjust (pool + bytes_in before) s.table ++ rest))
unfolding final_table bytes_in
final_table-split pool [] s behind small =
    let same : pool + 0 ≡ pool = omega arith in
    (final_table ((pool + length s.strings % 2 ^ 32) % 2 ^ 32) behind, rw same refl)
final_table-split pool (b ∷ before) s behind small =
    let (rest, e) = final_table-split (pool + length b.strings) before s behind (omega arith) in
    (rest, final_table-behind pool b before s behind rest (omega arith) e)

pub final_string_pool-split :
    (before : List Shard) (s : Shard) (behind : List Shard)
    → final_string_pool (before ++ s ∷ behind)
      ≡ final_string_pool before ++ (s.strings ++ final_string_pool behind)
unfolding final_string_pool
final_string_pool-split [] s behind = refl
final_string_pool-split (b ∷ before) s behind =
    ap (λ t. b.strings ++ t) (final_string_pool-split before s behind)
    ∙ sym (append_assoc b.strings (final_string_pool before) _)

pub entries_in-split :
    (before : List Shard) (s : Shard) (behind : List Shard)
    → entries_in (before ++ s ∷ behind) ≡ entries_in before + length s.table + entries_in behind
unfolding entries_in
entries_in-split [] s behind = omega arith
entries_in-split (b ∷ before) s behind = omega (arith, entries_in-split before s behind)

pub get_elem?-adjust :
    (pool i : ℕ) (es : List HashEntry) {e : HashEntry}
    → get_elem? es i ≡ some e
    → get_elem? (adjust pool es) i
      ≡ some (
          if is_empty e then e else record {
            hash = e.hash;
            string_offset = (e.string_offset + pool) % 2 ^ 32;
            pattern_id = e.pattern_id;
          })
unfolding adjust
get_elem?-adjust pool i [] found = absurd (cc)
get_elem?-adjust pool zero (x ∷ es) {e} found = let this : x ≡ e = cc in rw this refl
get_elem?-adjust pool (suc i) (x ∷ es) found = get_elem?-adjust pool i es found
