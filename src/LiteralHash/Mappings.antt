-- ===== src/LiteralHash/Mappings.antt =====
-- The data offsets of pattern ids (src/literal_hash.rs, `get_data_offset`).
use matchy.Base.{
  ℕ, ◌+◌, ◌*◌, ◌%◌, ◌^◌, ◌<◌, ◌≡◌, refl, subst, arith, ◌==◌, ltb, List, [], ◌∷◌, ◌++◌, inl, inr,
  false, Bool-cases, length, length-append, Option, none, some, ok, if◌then◌else◌,
}
use matchy.Base.LittleEndian.{to_le_bytes, length-to_le_bytes}
use matchy.DataSection.Buffer.{Stands, Stands-left, Stands-right}
use matchy.LiteralHash.{LiteralHashBuilder, Host, Literal, string_pool}
use matchy.LiteralHash.Build.{mapping_bytes, build, build_patterns}
use matchy.LiteralHash.Table.{LiteralHash, from_buffer, find_mapping, get_data_offset}
use matchy.LiteralHash.Shards.{Walks}
use matchy.LiteralHash.Reading.{read_le-to_le_bytes}
use matchy.LiteralHash.Loading.{read_le-next}
use matchy.LiteralHash.Answers.{build-Served}

-- The data offset of the first mapping of an id.
unfoldable pub first_mapping : ℕ → List (ℕ × ℕ) → Option ℕ
first_mapping id [] = none
first_mapping id ((pattern_id, data_offset) ∷ ms) =
    let rest = first_mapping id ms in if pattern_id == id then some data_offset else rest

abbrev pub MappingsFit : List (ℕ × ℕ) → Type 0
MappingsFit [] = Unit
MappingsFit ((pattern_id, data_offset) ∷ ms) =
    (pattern_id < 2 ^ 32) × (data_offset < 2 ^ 32) × MappingsFit ms

pub length-mapping_bytes : (ms : List (ℕ × ℕ)) → length (mapping_bytes ms) ≡ length ms * 8
unfolding mapping_bytes
length-mapping_bytes [] = refl
length-mapping_bytes ((p, d) ∷ ms) = omega (
  arith,
  length-append (to_le_bytes 4 p ++ to_le_bytes 4 d) (mapping_bytes ms),
  length-append (to_le_bytes 4 p) (to_le_bytes 4 d),
  length-to_le_bytes 4 p,
  length-to_le_bytes 4 d,
  length-mapping_bytes ms,
)

find_mapping-mapping_bytes :
    (ms : List (ℕ × ℕ)) (id offset : ℕ) (buffer : List ℕ)
    → MappingsFit ms
    → Stands buffer offset (mapping_bytes ms)
    → find_mapping (length ms) buffer id offset ≡ ok (first_mapping id ms)
unfolding find_mapping mapping_bytes first_mapping
find_mapping-mapping_bytes [] id offset buffer fit s = refl
find_mapping-mapping_bytes ((p, d) ∷ ms) id offset buffer (small, small', fit) s =
    let both = to_le_bytes 4 p ++ to_le_bytes 4 d in
    let wide : length both ≡ 8 = omega (
      arith,
      length-append (to_le_bytes 4 p) (to_le_bytes 4 d),
      length-to_le_bytes 4 p,
      length-to_le_bytes 4 d,
    ) in
    let first = Stands-left both (mapping_bytes ms) s in
    let rest =
      subst (λ n. Stands buffer (offset + n) (mapping_bytes ms)) wide
        (Stands-right both (mapping_bytes ms) offset s) in
    let (r₁, s₂) = read_le-next p offset (to_le_bytes 4 d) buffer first small in
    let r₂ = read_le-to_le_bytes 4 d (offset + 4) buffer s₂ small' in
    let room = first.room in
    let fits : ltb (length buffer) (offset + 8) ≡ false = ground arith in
    let ih = find_mapping-mapping_bytes ms id (offset + 8) buffer fit rest in
    elim (Bool-cases (p == id)) [
      | inl same ↦ rw (fits, r₁, same, r₂) refl
      | inr other ↦ rw (fits, r₁, other) ih
    ]

-- For every builder with at least one pattern and fewer than 2^32 bytes of strings, and mappings of 32
-- bits: if build gives fewer than 2^32 bytes, from_buffer accepts them and get_data_offset gives the
-- data offset of the first mapping of the id, and nothing if there is none.
pub get_data_offset-build :
    (host : Host) (builder : LiteralHashBuilder) (mappings : List (ℕ × ℕ)) (id : ℕ)
    (buffer : List ℕ)
    → Walks host
    → 0 < length builder.patterns
    → length (string_pool builder.patterns) < 2 ^ 32
    → MappingsFit mappings
    → build host builder mappings ≡ ok buffer
    → length buffer < 2 ^ 32
    → (table : LiteralHash) × (from_buffer buffer builder.mode ≡ ok table)
      × (get_data_offset table id ≡ ok (first_mapping id mappings))
unfolding build get_data_offset
get_data_offset-build host builder mappings id buffer walks some_pattern small fit built room =
    by_patterns builder.patterns some_pattern small built
  where
    by_patterns :
        (ps : List Literal)
        → 0 < length ps
        → length (string_pool ps) < 2 ^ 32
        → build_patterns host ps mappings ≡ ok buffer
        → (table : LiteralHash) × (from_buffer buffer builder.mode ≡ ok table)
          × (get_data_offset table id ≡ ok (first_mapping id mappings))
    by_patterns [] some_pattern small built = absurd (omega arith)
    by_patterns (p ∷ ps) some_pattern small built =
        let s = build-Served host p ps mappings builder.mode buffer 0 walks small built room in
        let mapped = s.sections.mapped in
        let buffer_size = s.sections.small in
        let here = mapped.room in
        let count = length mappings in
        let wide = length-to_le_bytes 4 (count % 2 ^ 32) in
        let sum = length-append (to_le_bytes 4 (count % 2 ^ 32)) (mapping_bytes mappings) in
        let bytes = length-mapping_bytes mappings in
        let same : count % 2 ^ 32 ≡ count = omega arith in
        let (r₁, rest) =
          read_le-next (count % 2 ^ 32) s.table.mappings_start (mapping_bytes mappings)
            s.table.buffer mapped (omega arith) in
        let fits : ltb (length s.table.buffer) (s.table.mappings_start + 4) ≡ false =
          ground arith in
        let found =
          find_mapping-mapping_bytes mappings id (s.table.mappings_start + 4) s.table.buffer fit
            rest in
        (s.table, s.loaded, simp (fits, r₁, same) found)
