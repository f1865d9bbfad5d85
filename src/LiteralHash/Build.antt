-- ===== src/LiteralHash/Build.antt =====
-- `LiteralHashBuilder::build` (src/literal_hash.rs). `par_iter_mut` with `collect` keeps the order of the
-- shards, and so is a loop. The entries are written by `ptr::write` with the layout of `repr(C)`; this is
-- the layout of a little-endian machine. The messages on stderr and the capacities reserved are left out.
use matchy.Base.{
  ℕ, zero, suc, ◌+◌, ◌*◌, ◌%◌, ◌^◌, ltb, if◌then◌else◌, List, [], ◌∷◌, ◌++◌, length, take, drop,
  set, replicate, Result, ok, err, ◌>>=◌,
}
use Prim.Native.Nat.{min, max}
use matchy.Base.LittleEndian.{to_le_bytes}
use matchy.Base.Results.{out_of_fuel}
use matchy.LiteralHash.{
  HashEntry, LiteralHashHeader, Shard, Literal, LiteralHashBuilder, Host, is_empty,
  literal_hash_magic, literal_hash_version, build_shard_auto_size,
}

unfoldable pub shard_bits_for : ℕ → ℕ
shard_bits_for count = if ltb count 10000 then 4 else if ltb count 100000 then 5 else 6

-- `shard_buckets[shard_id].push(..)` for each pattern
unfoldable pub push_at : List (List Literal) → ℕ → Literal → List (List Literal)
push_at [] i e = []
push_at (bucket ∷ buckets) zero e = (bucket ++ e ∷ []) ∷ buckets
push_at (bucket ∷ buckets) (suc i) e = bucket ∷ push_at buckets i e

unfoldable pub partition : ℕ → List Literal → List (List Literal) → List (List Literal)
unfolding push_at
partition num_shards [] buckets = buckets
partition num_shards (e ∷ es) buckets =
    partition num_shards es (push_at buckets (e.hash % num_shards) e)

-- The shards of one batch, from the id `shard_id` on.
unfoldable pub build_chunk : Host → ℕ → List (List Literal) → Result (List Shard)
unfolding build_shard_auto_size
build_chunk host shard_id [] = ok []
build_chunk host shard_id (entries ∷ buckets) = do
  shard ← build_shard_auto_size host shard_id entries
  shards ← build_chunk host (shard_id + 1) buckets
  ok (shard ∷ shards)

-- `for chunk_start in (0..num_shards).step_by(batch_size)`, over the buckets that are left
unfoldable pub build_batches : ℕ → Host → ℕ → ℕ → List (List Literal) → Result (List Shard)
unfolding build_chunk
build_batches fuel host batch_size chunk_start [] = ok []
build_batches zero host batch_size chunk_start (b ∷ bs) = err out_of_fuel
build_batches (suc fuel) host batch_size chunk_start (b ∷ bs) = do
  chunk ← build_chunk host chunk_start (take batch_size (b ∷ bs))
  shards ← build_batches fuel host batch_size (chunk_start + batch_size) (drop batch_size (b ∷ bs))
  ok (chunk ++ shards)

-- `shard_offsets[shard.shard_id] = table_offset` for each shard, and the end behind them.
unfoldable pub shard_offsets_loop : ℕ → List Shard → ℕ → List ℕ → List ℕ
shard_offsets_loop num_shards [] table_offset offsets = set offsets num_shards table_offset
shard_offsets_loop num_shards (shard ∷ shards) table_offset offsets =
    shard_offsets_loop num_shards shards ((table_offset + length shard.table % 2 ^ 32) % 2 ^ 32)
      (set offsets shard.shard_id table_offset)

-- `entry.string_offset += pool_offset`, on the entries that are not empty
unfoldable pub adjust : ℕ → List HashEntry → List HashEntry
unfolding is_empty
adjust pool_offset [] = []
adjust pool_offset (e ∷ es) =
    (if is_empty e then e else record {
      hash = e.hash;
      string_offset = (e.string_offset + pool_offset) % 2 ^ 32;
      pattern_id = e.pattern_id;
    })
    ∷ adjust pool_offset es

unfoldable pub final_table : ℕ → List Shard → List HashEntry
unfolding adjust
final_table pool_offset [] = []
final_table pool_offset (shard ∷ shards) =
    adjust pool_offset shard.table
    ++ final_table ((pool_offset + length shard.strings % 2 ^ 32) % 2 ^ 32) shards

unfoldable pub final_string_pool : List Shard → List ℕ
final_string_pool [] = []
final_string_pool (shard ∷ shards) = shard.strings ++ final_string_pool shards

-- `final_table.iter().filter(|e| !e.is_empty()).count()`
unfoldable pub count_entries : List HashEntry → ℕ
unfolding is_empty
count_entries [] = 0
count_entries (e ∷ es) = (if is_empty e then 0 else 1) + count_entries es

-- Each number of a list in four bytes.
unfoldable pub offset_bytes : List ℕ → List ℕ
offset_bytes [] = []
offset_bytes (offset ∷ offsets) = to_le_bytes 4 offset ++ offset_bytes offsets

unfoldable pub entry_bytes : List HashEntry → List ℕ
entry_bytes [] = []
entry_bytes (e ∷ es) =
    (to_le_bytes 8 e.hash ++ (to_le_bytes 4 e.string_offset ++ to_le_bytes 4 e.pattern_id))
    ++ entry_bytes es

unfoldable pub mapping_bytes : List (ℕ × ℕ) → List ℕ
mapping_bytes [] = []
mapping_bytes ((pattern_id, data_offset) ∷ mappings) =
    (to_le_bytes 4 pattern_id ++ to_le_bytes 4 data_offset) ++ mapping_bytes mappings

unfoldable pub header_bytes : LiteralHashHeader → List ℕ
header_bytes header =
    header.magic
    ++ (to_le_bytes 4 header.version
        ++ (to_le_bytes 4 header.entry_count
            ++ (to_le_bytes 4 header.table_size
                ++ (to_le_bytes 4 header.strings_offset
                    ++ (to_le_bytes 4 header.strings_size
                        ++ (to_le_bytes 4 header.num_shards ++ to_le_bytes 4 header.shard_bits))))))

unfoldable pub header_for : ℕ → List HashEntry → List ℕ → LiteralHashHeader
unfolding count_entries
header_for shard_bits table strings = record {
  magic = literal_hash_magic;
  version = literal_hash_version;
  entry_count = count_entries table % 2 ^ 32;
  table_size = length table % 2 ^ 32;
  strings_offset = (32 + (2 ^ shard_bits + 1) * 4 + length table * 16) % 2 ^ 32;
  strings_size = length strings % 2 ^ 32;
  num_shards = 2 ^ shard_bits;
  shard_bits = shard_bits;
}

-- `let mut shard_offsets = vec![0u32; num_shards + 1]`, filled
unfoldable pub shard_offsets_of : ℕ → List Shard → List ℕ
unfolding shard_offsets_loop
shard_offsets_of num_shards shards =
    shard_offsets_loop num_shards shards 0 (replicate (num_shards + 1) 0)

-- The header, the offsets of the shards, the entries, the strings and the mappings.
unfoldable pub serialize : ℕ → List Shard → List (ℕ × ℕ) → List ℕ
unfolding final_table final_string_pool header_for shard_offsets_of header_bytes offset_bytes
    entry_bytes mapping_bytes
serialize shard_bits shards pattern_data_offsets =
    let table = final_table 0 shards in
    let strings = final_string_pool shards in
    header_bytes (header_for shard_bits table strings)
    ++ (offset_bytes (shard_offsets_of (2 ^ shard_bits) shards)
        ++ (entry_bytes table
            ++ (strings
                ++ (to_le_bytes 4 (length pattern_data_offsets % 2 ^ 32)
                    ++ mapping_bytes pattern_data_offsets))))

-- `build` on the patterns that were added
unfoldable pub build_patterns : Host → List Literal → List (ℕ × ℕ) → Result (List ℕ)
unfolding shard_bits_for partition build_batches serialize
build_patterns host [] pattern_data_offsets = ok []
build_patterns host (p ∷ ps) pattern_data_offsets =
    let shard_bits = shard_bits_for (length (p ∷ ps)) in
    let num_shards = 2 ^ shard_bits in
    let buckets = partition num_shards (p ∷ ps) (replicate num_shards []) in
    let batch_size = max (min host.parallelism num_shards) 1 in
    do
      shards ← build_batches num_shards host batch_size 0 buckets
      ok (serialize shard_bits shards pattern_data_offsets)

unfoldable pub build : Host → LiteralHashBuilder → List (ℕ × ℕ) → Result (List ℕ)
unfolding build_patterns
build host builder pattern_data_offsets = build_patterns host builder.patterns pattern_data_offsets
