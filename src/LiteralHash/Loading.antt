-- ===== src/LiteralHash/Loading.antt =====
-- The sections of a built table found again by the reader (src/literal_hash.rs, `from_buffer`).
use matchy.Base.{
  ℕ, ◌+◌, ◌*◌, ◌%◌, ◌^◌, ◌<◌, ◌≡◌, refl, sym, ap, ◌∙◌, subst, arith, leb, ◌==◌, List, [], ◌∷◌, ◌++◌,
  length, length-append, length-replicate, replicate, ok, true,
}
use matchy.Base.LittleEndian.{to_le_bytes, length-to_le_bytes}
use matchy.DataSection.Decode.{byte_at, slice}
use matchy.DataSection.Buffer.{Stands, Stands-left, Stands-right, slice-Stands}
use matchy.Glob.{MatchMode}
use matchy.LiteralHash.{Shard, LiteralHashHeader, literal_hash_magic}
use matchy.LiteralHash.Build.{
  final_table, final_string_pool, header_for, shard_offsets_of, header_bytes, offset_bytes,
  entry_bytes, mapping_bytes, serialize,
}
use matchy.LiteralHash.Table.{LiteralHash, read_le, read_offsets, from_buffer}
use matchy.LiteralHash.Offsets.{
  Below32, shard_offsets_loop-Below32, replicate-Below32, length-shard_offsets_loop,
}
use matchy.LiteralHash.Reading.{read_le-to_le_bytes, read_offsets-offset_bytes, length-entry_bytes}

pub whole-Stands : (buffer : List ℕ) → Stands buffer 0 buffer
unfolding byte_at
whole-Stands buffer = record {
  at = λ k b e. let same : 0 + k ≡ k = omega arith in rw (same, byte_at, e) refl;
  room = omega arith;
}

-- A number, and what stands behind it.
pub read_le-next :
    (x i : ℕ) (rest buffer : List ℕ)
    → Stands buffer i (to_le_bytes 4 x ++ rest)
    → x < 2 ^ 32
    → (read_le 4 buffer i ≡ ok x) × Stands buffer (i + 4) rest
read_le-next x i rest buffer s small = (
  read_le-to_le_bytes 4 x i buffer (Stands-left (to_le_bytes 4 x) rest s) small,
  subst (λ n. Stands buffer (i + n) rest) (length-to_le_bytes 4 x)
      (Stands-right (to_le_bytes 4 x) rest i s),
)

pub record InWords (h : LiteralHashHeader) : Type 0 where
  pub version : h.version < 2 ^ 32
  pub entry_count : h.entry_count < 2 ^ 32
  pub table_size : h.table_size < 2 ^ 32
  pub strings_offset : h.strings_offset < 2 ^ 32
  pub strings_size : h.strings_size < 2 ^ 32
  pub num_shards : h.num_shards < 2 ^ 32
  pub shard_bits : h.shard_bits < 2 ^ 32

pub length-header_bytes :
    (h : LiteralHashHeader) → length h.magic ≡ 4 → length (header_bytes h) ≡ 32
unfolding header_bytes
length-header_bytes h four =
    let w = λ (x : ℕ). to_le_bytes 4 x in
    let t₆ = w h.num_shards ++ w h.shard_bits in
    let t₅ = w h.strings_size ++ t₆ in
    let t₄ = w h.strings_offset ++ t₅ in
    let t₃ = w h.table_size ++ t₄ in
    let t₂ = w h.entry_count ++ t₃ in
    let t₁ = w h.version ++ t₂ in
    omega (
      arith,
      four,
      length-append h.magic t₁,
      length-append (w h.version) t₂,
      length-append (w h.entry_count) t₃,
      length-append (w h.table_size) t₄,
      length-append (w h.strings_offset) t₅,
      length-append (w h.strings_size) t₆,
      length-append (w h.num_shards) (w h.shard_bits),
      length-to_le_bytes 4 h.version,
      length-to_le_bytes 4 h.entry_count,
      length-to_le_bytes 4 h.table_size,
      length-to_le_bytes 4 h.strings_offset,
      length-to_le_bytes 4 h.strings_size,
      length-to_le_bytes 4 h.num_shards,
      length-to_le_bytes 4 h.shard_bits,
    )

pub length-offset_bytes : (offsets : List ℕ) → length (offset_bytes offsets) ≡ length offsets * 4
unfolding offset_bytes
length-offset_bytes [] = refl
length-offset_bytes (x ∷ xs) = omega (
  arith,
  length-append (to_le_bytes 4 x) (offset_bytes xs),
  length-to_le_bytes 4 x,
  length-offset_bytes xs,
)

-- What `from_buffer` makes of a header and the offsets behind it.
unfoldable pub loaded : LiteralHashHeader → List ℕ → List ℕ → MatchMode → LiteralHash
loaded h offsets buffer mode = record {
  buffer = buffer;
  header = record h { magic = literal_hash_magic };
  table_start = 32 + (h.num_shards + 1) * 4;
  strings_start = h.strings_offset;
  mappings_start = h.strings_offset + h.strings_size;
  shard_offsets = offsets;
  mode = mode;
}

pub from_buffer-loaded :
    (h : LiteralHashHeader) (offsets buffer : List ℕ) (mode : MatchMode)
    → h.magic ≡ literal_hash_magic
    → h.version ≡ 1
    → InWords h
    → Below32 offsets
    → length offsets ≡ h.num_shards + 1
    → Stands buffer 0 (header_bytes h)
    → Stands buffer 32 (offset_bytes offsets)
    → from_buffer buffer mode ≡ ok (loaded h offsets buffer mode)
unfolding from_buffer loaded header_bytes
from_buffer-loaded h offsets buffer mode magic version words below count s more =
    let w = λ (x : ℕ). to_le_bytes 4 x in
    let t₆ = w h.num_shards ++ w h.shard_bits in
    let t₅ = w h.strings_size ++ t₆ in
    let t₄ = w h.strings_offset ++ t₅ in
    let t₃ = w h.table_size ++ t₄ in
    let t₂ = w h.entry_count ++ t₃ in
    let t₁ = w h.version ++ t₂ in
    let s₀ : Stands buffer 0 (literal_hash_magic ++ t₁) =
      subst (λ m. Stands buffer 0 (m ++ t₁)) magic s in
    let room = more.room in
    let fits : leb 32 (length buffer) ≡ true = ground arith in
    let tag : slice 4 buffer 0 ≡ ok literal_hash_magic =
      slice-Stands literal_hash_magic buffer 0 (Stands-left literal_hash_magic t₁ s₀) in
    let s₁ : Stands buffer 4 t₁ = Stands-right literal_hash_magic t₁ 0 s₀ in
    let (r₁, s₂) = read_le-next h.version 4 t₂ buffer s₁ words.version in
    let (r₂, s₃) = read_le-next h.entry_count 8 t₃ buffer s₂ words.entry_count in
    let (r₃, s₄) = read_le-next h.table_size 12 t₄ buffer s₃ words.table_size in
    let (r₄, s₅) = read_le-next h.strings_offset 16 t₅ buffer s₄ words.strings_offset in
    let (r₅, s₆) = read_le-next h.strings_size 20 t₆ buffer s₅ words.strings_size in
    let (r₆, s₇) = read_le-next h.num_shards 24 (w h.shard_bits) buffer s₆ words.num_shards in
    let r₇ = read_le-to_le_bytes 4 h.shard_bits 28 buffer s₇ words.shard_bits in
    let r₈ : read_offsets (h.num_shards + 1) buffer 32 ≡ ok offsets =
      subst (λ n. read_offsets n buffer 32 ≡ ok offsets) count
        (read_offsets-offset_bytes offsets 32 buffer below more) in
    let one : (h.version == 1) ≡ true = ground arith in
    simp (fits, tag, r₁, one, r₂, r₃, r₄, r₅, r₆, r₇, r₈)

-- The sections of a table that was loaded.
pub record Sections (table : LiteralHash) (bits : ℕ) (shards : List Shard) (mappings : List (ℕ × ℕ))
    (mode : MatchMode) : Type 0 where
  pub small : length table.buffer < 2 ^ 32
  pub same_mode : table.mode ≡ mode
  pub num_shards : table.header.num_shards ≡ 2 ^ bits
  pub offsets : table.shard_offsets ≡ shard_offsets_of (2 ^ bits) shards
  pub entries : Stands table.buffer table.table_start (entry_bytes (final_table 0 shards))
  pub strings : Stands table.buffer table.strings_start (final_string_pool shards)
  pub mapped :
      Stands table.buffer table.mappings_start
        (to_le_bytes 4 (length mappings % 2 ^ 32) ++ mapping_bytes mappings)

pub serialize-Sections :
    (bits : ℕ) (shards : List Shard) (mappings : List (ℕ × ℕ)) (mode : MatchMode)
    → bits < 32
    → length (serialize bits shards mappings) < 2 ^ 32
    → (table : LiteralHash) × (from_buffer (serialize bits shards mappings) mode ≡ ok table)
      × Sections table bits shards mappings mode
unfolding serialize loaded header_for shard_offsets_of
serialize-Sections bits shards mappings mode narrow small =
    let table = final_table 0 shards in
    let strings = final_string_pool shards in
    let header = header_for bits table strings in
    let offsets = shard_offsets_of (2 ^ bits) shards in
    let t₄ = to_le_bytes 4 (length mappings % 2 ^ 32) ++ mapping_bytes mappings in
    let t₃ = strings ++ t₄ in
    let t₂ = entry_bytes table ++ t₃ in
    let t₁ = offset_bytes offsets ++ t₂ in
    let buffer = header_bytes header ++ t₁ in
    let n = 2 ^ bits in
    let count : length offsets ≡ n + 1 =
      length-shard_offsets_loop n shards 0 (replicate (n + 1) 0) ∙ length-replicate (n + 1) 0 in
    let l₀ = length-header_bytes header refl in
    let l₁ : length (offset_bytes offsets) ≡ (n + 1) * 4 =
      length-offset_bytes offsets ∙ ap (λ k. k * 4) count in
    let l₂ = length-entry_bytes table in
    let sum₀ = length-append (header_bytes header) t₁ in
    let sum₁ = length-append (offset_bytes offsets) t₂ in
    let sum₂ = length-append (entry_bytes table) t₃ in
    let sum₃ = length-append strings t₄ in
    let whole = whole-Stands buffer in
    let s₁ : Stands buffer 32 t₁ =
      subst (λ k. Stands buffer k t₁) (ap (λ k. 0 + k) l₀ ∙ omega arith)
        (Stands-right (header_bytes header) t₁ 0 whole) in
    let s₂ : Stands buffer (32 + (n + 1) * 4) t₂ =
      subst (λ k. Stands buffer (32 + k) t₂) l₁ (Stands-right (offset_bytes offsets) t₂ 32 s₁) in
    let s₃ : Stands buffer (32 + (n + 1) * 4 + length table * 16) t₃ =
      subst (λ k. Stands buffer (32 + (n + 1) * 4 + k) t₃) l₂
        (Stands-right (entry_bytes table) t₃ (32 + (n + 1) * 4) s₂) in
    let start = 32 + (n + 1) * 4 + length table * 16 in
    let s₄ : Stands buffer (start + length strings) t₄ = Stands-right strings t₄ start s₃ in
    let at : start % 2 ^ 32 ≡ start = omega arith in
    let both : start + length strings ≡ start % 2 ^ 32 + length strings % 2 ^ 32 = omega arith in
    let below : Below32 offsets =
      shard_offsets_loop-Below32 n shards 0 (replicate (n + 1) 0) (replicate-Below32 (n + 1))
        (omega arith) in
    let words : InWords header = record {
      version = omega arith;
      entry_count = omega arith;
      table_size = omega arith;
      strings_offset = omega arith;
      strings_size = omega arith;
      num_shards = omega arith;
      shard_bits = omega arith;
    } in
    (
      loaded header offsets buffer mode,
      from_buffer-loaded header offsets buffer mode refl refl words below count
          (Stands-left (header_bytes header) t₁ whole) (Stands-left (offset_bytes offsets) t₂ s₁),
      record {
        small = small;
        same_mode = refl;
        num_shards = refl;
        offsets = refl;
        entries = Stands-left (entry_bytes table) t₃ s₂;
        strings = subst (λ k. Stands buffer k strings) (sym at) (Stands-left strings t₄ s₃);
        mapped = subst (λ k. Stands buffer k t₄) both s₄;
      },
    )
