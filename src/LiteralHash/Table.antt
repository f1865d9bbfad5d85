-- ===== src/LiteralHash/Table.antt =====
-- The reader `LiteralHash` (src/literal_hash.rs), on the bytes. An index out of range, a remainder by
-- zero and a subtraction below zero are the error panic.
use Prim.Native.Nat.{bit_and}
use matchy.Base.{
  ℕ, zero, suc, ◌+◌, ◌-◌, ◌*◌, ◌%◌, leb, ltb, ◌==◌, if◌then◌else◌, List, [], ◌∷◌, Bool, false, not,
  length, get_elem?, Option, none, some, Result, ok, err, ◌>>=◌, ◌>>◌, guard,
}
use matchy.Base.Bytes.{same_bytes}
use matchy.Base.LittleEndian.{from_le_bytes}
use matchy.Base.Results.{panic, invalid_pattern}
use matchy.DataSection.Decode.{slice, from_utf8}
use matchy.Glob.{MatchMode}
use matchy.LiteralHash.{
  HashEntry, LiteralHashHeader, Host, compute_hash, normalize, is_empty, literal_hash_magic,
  literal_hash_version,
}

pub record LiteralHash : Type 0 where
  pub buffer : List ℕ
  pub header : LiteralHashHeader
  pub table_start : ℕ
  pub strings_start : ℕ
  pub mappings_start : ℕ
  pub shard_offsets : List ℕ
  pub mode : MatchMode

-- `u32::from_le_bytes(buffer[i..i + 4].try_into().unwrap())`, and of other widths
unfoldable pub read_le : ℕ → List ℕ → ℕ → Result ℕ
unfolding slice
read_le width buffer i = do bs ← slice width buffer i; ok (from_le_bytes bs)

-- The loop that reads the offsets of the shards.
unfoldable pub read_offsets : ℕ → List ℕ → ℕ → Result (List ℕ)
unfolding read_le
read_offsets zero buffer offset_pos = ok []
read_offsets (suc rounds) buffer offset_pos = do
  guard (leb (offset_pos + 4) (length buffer)) invalid_pattern
  offset ← read_le 4 buffer offset_pos
  offsets ← read_offsets rounds buffer (offset_pos + 4)
  ok (offset ∷ offsets)

unfoldable pub from_buffer : List ℕ → MatchMode → Result LiteralHash
unfolding slice read_le read_offsets
from_buffer buffer mode = do
  guard (leb 32 (length buffer)) invalid_pattern
  magic ← slice 4 buffer 0
  guard (same_bytes magic literal_hash_magic) invalid_pattern
  version ← read_le 4 buffer 4
  guard (version == literal_hash_version) invalid_pattern
  entry_count ← read_le 4 buffer 8
  table_size ← read_le 4 buffer 12
  strings_offset ← read_le 4 buffer 16
  strings_size ← read_le 4 buffer 20
  num_shards ← read_le 4 buffer 24
  shard_bits ← read_le 4 buffer 28
  shard_offsets ← read_offsets (num_shards + 1) buffer 32
  ok (record {
    buffer = buffer;
    header = record {
      magic = literal_hash_magic;
      version = version;
      entry_count = entry_count;
      table_size = table_size;
      strings_offset = strings_offset;
      strings_size = strings_size;
      num_shards = num_shards;
      shard_bits = shard_bits;
    };
    table_start = 32 + (num_shards + 1) * 4;
    strings_start = strings_offset;
    mappings_start = strings_offset + strings_size;
    shard_offsets = shard_offsets;
    mode = mode;
  })

-- `self.shard_offsets[i]`
unfoldable pub shard_offset : List ℕ → ℕ → Result ℕ
shard_offset offsets i = elim (get_elem? offsets i) [ none ↦ err panic | some o ↦ ok o ]

unfoldable pub read_string : List ℕ → ℕ → ℕ → Result (Option (List ℕ))
unfolding read_le slice
read_string buffer strings_start offset =
    let abs_offset = strings_start + offset in
    let found = (do
      len ← read_le 2 buffer abs_offset
      let str_end = abs_offset + 2 + len
      let stored = (do
        bs ← slice len buffer (abs_offset + 2)
        ok (if from_utf8 bs then some bs else none))
      if ltb (length buffer) str_end then ok none else stored) in
    if ltb (length buffer) (abs_offset + 2) then ok none else found

-- Whether the string of an entry is the query.
unfoldable pub stores : List ℕ → ℕ → ℕ → List ℕ → Result Bool
unfolding read_string
stores buffer strings_start string_offset query = do
  stored ← read_string buffer strings_start string_offset
  elim stored [ none ↦ ok false | some s ↦ ok (same_bytes s query) ]

-- The three fields of the entry at an offset.
unfoldable pub read_entry : List ℕ → ℕ → Result HashEntry
unfolding read_le
read_entry buffer entry_offset = do
  hash ← read_le 8 buffer entry_offset
  string_offset ← read_le 4 buffer (entry_offset + 8)
  pattern_id ← read_le 4 buffer (entry_offset + 12)
  ok (record { hash = hash; string_offset = string_offset; pattern_id = pattern_id })

-- One entry that is in the buffer: the answer, or `none` where the loop goes on.
unfoldable pub examine : LiteralHash → ℕ → List ℕ → HashEntry → Result (Option (Option ℕ))
unfolding is_empty stores
examine table hash query e =
    let verified = (do
      same ← stores table.buffer table.strings_start e.string_offset query
      ok (if same then some (some e.pattern_id) else none)) in
    if is_empty e then ok (some none) else if e.hash == hash then verified else ok none

-- `for _ in 0..shard_capacity`
unfoldable pub probe : ℕ → LiteralHash → ℕ → List ℕ → ℕ → ℕ → ℕ → Result (Option ℕ)
unfolding read_entry examine
probe zero table hash query shard_start shard_mask slot = ok none
probe (suc rounds) table hash query shard_start shard_mask slot =
    let entry_offset = table.table_start + slot * 16 in
    let next_slot = shard_start + bit_and (slot + 1 - shard_start) shard_mask in
    let onward = probe rounds table hash query shard_start shard_mask next_slot in
    let here = (do
      e ← read_entry table.buffer entry_offset
      verdict ← examine table hash query e
      elim verdict [ some answer ↦ ok answer | none ↦ onward ]) in
    if ltb (length table.buffer) (entry_offset + 16) then ok none else here

unfoldable pub lookup : Host → LiteralHash → List ℕ → Result (Option ℕ)
unfolding compute_hash shard_offset probe
lookup host table query =
    let normalized_query = normalize host table.mode query in
    let hash = compute_hash host normalized_query in
    let num_shards = table.header.num_shards in
    do
      guard (not (num_shards == 0)) panic
      let shard_id = hash % num_shards
      shard_start ← shard_offset table.shard_offsets shard_id
      shard_end ← shard_offset table.shard_offsets (shard_id + 1)
      guard (leb shard_start shard_end) panic
      let capacity = shard_end - shard_start
      let mask = capacity - 1
      let found =
          probe capacity table hash normalized_query shard_start mask
            (shard_start + bit_and hash mask)
      if capacity == 0 then ok none else found

-- `for i in 0..count`, at the mapping with the given offset
unfoldable pub find_mapping : ℕ → List ℕ → ℕ → ℕ → Result (Option ℕ)
unfolding read_le
find_mapping zero buffer pattern_id offset = ok none
find_mapping (suc rounds) buffer pattern_id offset =
    let onward = find_mapping rounds buffer pattern_id (offset + 8) in
    let here = (do
      pid ← read_le 4 buffer offset
      let hit = (do data_offset ← read_le 4 buffer (offset + 4); ok (some data_offset))
      if pid == pattern_id then hit else onward) in
    if ltb (length buffer) (offset + 8) then ok none else here

unfoldable pub get_data_offset : LiteralHash → ℕ → Result (Option ℕ)
unfolding find_mapping
get_data_offset table pattern_id =
    let found = (do
      count ← read_le 4 table.buffer table.mappings_start
      find_mapping count table.buffer pattern_id (table.mappings_start + 4)) in
    if ltb (length table.buffer) (table.mappings_start + 4) then ok none else found
