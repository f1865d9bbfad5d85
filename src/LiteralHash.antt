-- ===== src/LiteralHash.antt =====
-- The hash table of literal strings (src/literal_hash.rs): its records, and the builder. A string is
-- the list of its UTF-8 bytes.
pub mod Build
pub mod Table
pub mod Probe
pub mod Fill
pub mod Dictionary
pub mod Shards
pub mod Buckets
pub mod Layout
pub mod Offsets
pub mod Reading
pub mod Search
pub mod ShardLookup
pub mod Loading
pub mod Building
pub mod Lookup
pub mod Answers
pub mod Added
pub mod Mappings
pub mod Faults
mod Examples
use matchy.Base.{
  ℕ, zero, suc, ◌+◌, ◌-◌, ◌*◌, ◌/◌, ◌%◌, ◌^◌, leb, ◌==◌, if◌then◌else◌, List, [], ◌∷◌, ◌++◌, Bool,
  length, get_elem?, set, replicate, none, some, Result, ok, err, ◌>>=◌,
}
use Prim.Native.Nat.{max, bit_and}
use matchy.Base.LittleEndian.{to_le_bytes}
use matchy.Base.Results.{panic, out_of_fuel}
use matchy.Glob.{MatchMode, case_sensitive, case_insensitive}

-- `LITERAL_HASH_MAGIC`, `LITERAL_HASH_VERSION`, `EMPTY_SLOT`, `HASH_SEED_1`
abbrev pub literal_hash_magic : List ℕ
literal_hash_magic = b'L' ∷ b'H' ∷ b'S' ∷ b'H' ∷ []

abbrev pub literal_hash_version : ℕ
literal_hash_version = 1

abbrev pub empty_slot : ℕ
empty_slot = 0xFFFFFFFF

abbrev pub hash_seed_1 : ℕ
hash_seed_1 = 0

pub record LiteralHashHeader : Type 0 where
  pub magic : List ℕ
  pub version : ℕ
  pub entry_count : ℕ
  pub table_size : ℕ
  pub strings_offset : ℕ
  pub strings_size : ℕ
  pub num_shards : ℕ
  pub shard_bits : ℕ

pub record HashEntry : Type 0 where
  pub hash : ℕ
  pub string_offset : ℕ
  pub pattern_id : ℕ

-- `HashEntry::empty`
abbrev pub empty : HashEntry
empty = record { hash = 0; string_offset = empty_slot; pattern_id = 0 }

unfoldable pub is_empty : HashEntry → Bool
is_empty e = e.string_offset == empty_slot

-- `PatternMapping`; the builder gets these as pairs
pub record PatternMapping : Type 0 where
  pub pattern_id : ℕ
  pub data_offset : ℕ

pub record Shard : Type 0 where
  pub table : List HashEntry
  pub strings : List ℕ
  pub shard_id : ℕ

-- `(pattern, pattern_id, hash)`
pub record Literal : Type 0 where
  pub pattern : List ℕ
  pub pattern_id : ℕ
  pub hash : ℕ

pub record LiteralHashBuilder : Type 0 where
  pub patterns : List Literal
  pub mode : MatchMode

-- What the file takes from elsewhere: `xxh64` of the crate xxhash-rust on bytes and a seed,
-- `str::to_lowercase`, whose tables are Unicode's, the order in which `into_iter` of an `FxHashMap`
-- walks its entries, and `available_parallelism`.
pub record Host : Type 0 where
  pub xxh64 : List ℕ → ℕ → ℕ
  pub to_lowercase : List ℕ → List ℕ
  pub into_iter : List HashEntry → List HashEntry
  pub parallelism : ℕ

unfoldable pub compute_hash : Host → List ℕ → ℕ
compute_hash host s = host.xxh64 s hash_seed_1

-- `match self.mode` in `add_pattern` and in `lookup`
abbrev pub normalize : Host → MatchMode → List ℕ → List ℕ
normalize host case_sensitive s = s
normalize host case_insensitive s = host.to_lowercase s

unfoldable pub new : MatchMode → LiteralHashBuilder
new mode = record { patterns = []; mode = mode }

unfoldable pub add_pattern : Host → LiteralHashBuilder → List ℕ → ℕ → LiteralHashBuilder
add_pattern host builder pattern pattern_id =
    let normalized = normalize host builder.mode pattern in
    record builder {
      patterns =
          builder.patterns
          ++ record {
            pattern = normalized;
            pattern_id = pattern_id;
            hash = compute_hash host normalized;
          }
            ∷ [];
    }

-- `next_power_of_two`: from the power `p` on, doubled until it is large enough.
unfoldable pub power_from : ℕ → ℕ → ℕ → ℕ
power_from zero p n = p
power_from (suc fuel) p n = let larger = power_from fuel (p * 2) n in if leb n p then p else larger

-- `((entries.len() as f64) / 0.60).ceil()` is the quotient by 3/5, rounded up
unfoldable pub shard_capacity : ℕ → ℕ
unfolding power_from
shard_capacity count = let needed = (5 * count + 2) / 3 in max (power_from needed 1 needed) 16

-- The bytes of one string of the pool: its length as u16, the string, and a terminator.
unfoldable pub string_bytes : List ℕ → List ℕ
string_bytes s = to_le_bytes 2 (length s % 2 ^ 16) ++ (s ++ 0 ∷ [])

-- The loop that writes the pool, and the offsets that it pushes.
unfoldable pub string_pool : List Literal → List ℕ
string_pool [] = []
string_pool (e ∷ es) = string_bytes e.pattern ++ string_pool es

unfoldable pub string_offsets : ℕ → List Literal → List ℕ
string_offsets offset [] = []
string_offsets offset (e ∷ es) = offset ∷ string_offsets (offset + 2 + length e.pattern + 1) es

-- `map.insert(hash, (string_offset, pattern_id))`: the value of a key that is there is replaced.
unfoldable pub map_insert : HashEntry → List HashEntry → List HashEntry
map_insert new_entry [] = new_entry ∷ []
map_insert new_entry (e ∷ es) =
    let rest = map_insert new_entry es in
    if e.hash == new_entry.hash then new_entry ∷ es else e ∷ rest

unfoldable pub map_loop : List Literal → List ℕ → List HashEntry → List HashEntry
map_loop [] offsets table = table
map_loop (e ∷ es) [] table = table
map_loop (e ∷ es) (offset ∷ offsets) table = map_loop es offsets (
    map_insert
      (record { hash = e.hash; string_offset = offset % 2 ^ 32; pattern_id = e.pattern_id }) table)

-- `table[pos]`
unfoldable pub entry_at : List HashEntry → ℕ → Result HashEntry
entry_at table pos = elim (get_elem? table pos) [ none ↦ err panic | some e ↦ ok e ]

-- `while !table[pos].is_empty() { pos = (pos + 1) & mask }`
unfoldable pub free_slot : ℕ → List HashEntry → ℕ → ℕ → Result ℕ
unfolding entry_at is_empty
free_slot zero table mask pos = err out_of_fuel
free_slot (suc fuel) table mask pos =
    let onward = free_slot fuel table mask (bit_and (pos + 1) mask) in
    do e ← entry_at table pos; if is_empty e then ok pos else onward

unfoldable pub fill_table : List HashEntry → ℕ → List HashEntry → Result (List HashEntry)
unfolding free_slot
fill_table [] mask table = ok table
fill_table (e ∷ es) mask table = do
  pos ← free_slot (mask + 1) table mask (bit_and e.hash mask)
  fill_table es mask (set table pos e)

unfoldable pub build_shard_auto_size : Host → ℕ → List Literal → Result Shard
unfolding shard_capacity string_pool string_offsets map_loop fill_table
build_shard_auto_size host shard_id [] =
    ok (record { table = []; strings = []; shard_id = shard_id })
build_shard_auto_size host shard_id (e ∷ es) =
    let entries = e ∷ es in
    let capacity = shard_capacity (length entries) in
    let pairs = map_loop entries (string_offsets 0 entries) [] in
    do
      table ← fill_table (host.into_iter pairs) (capacity - 1) (replicate capacity empty)
      ok (record { table = table; strings = string_pool entries; shard_id = shard_id })
