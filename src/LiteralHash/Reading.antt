-- ===== src/LiteralHash/Reading.antt =====
-- Numbers, entries and strings read back from the bytes (src/literal_hash.rs).
use matchy.Base.{
  ℕ, zero, suc, ◌+◌, ◌*◌, ◌%◌, ◌^◌, ◌≤◌, ◌<◌, ◌≡◌, refl, ap, ◌∙◌, subst, arith, List, [], ◌∷◌, ◌++◌,
  length, length-append, get_elem?, some, ok, leb, ltb, true, false,
}
use matchy.Base.LittleEndian.{to_le_bytes, length-to_le_bytes, from_le_bytes-to_le_bytes}
use matchy.DataSection.Decode.{slice, from_utf8}
use matchy.DataSection.Buffer.{Stands, Stands-left, Stands-right, slice-Stands}
use matchy.LiteralHash.{HashEntry, string_bytes}
use matchy.LiteralHash.Build.{offset_bytes, entry_bytes}
use matchy.LiteralHash.Table.{read_le, read_offsets, read_entry, read_string}
use matchy.LiteralHash.Offsets.{Below32}
use matchy.LiteralHash.Dictionary.{length-string_bytes}

pub read_le-to_le_bytes :
    (width x i : ℕ) (buffer : List ℕ)
    → Stands buffer i (to_le_bytes width x)
    → x < 2 ^ (8 * width)
    → read_le width buffer i ≡ ok x
unfolding read_le
read_le-to_le_bytes width x i buffer s small =
    let bytes : slice width buffer i ≡ ok (to_le_bytes width x) =
      subst (λ n. slice n buffer i ≡ ok (to_le_bytes width x)) (length-to_le_bytes width x)
        (slice-Stands (to_le_bytes width x) buffer i s) in
    rw (bytes, from_le_bytes-to_le_bytes width x small) refl

pub read_offsets-offset_bytes :
    (offsets : List ℕ) (pos : ℕ) (buffer : List ℕ)
    → Below32 offsets
    → Stands buffer pos (offset_bytes offsets)
    → read_offsets (length offsets) buffer pos ≡ ok offsets
unfolding read_offsets offset_bytes
read_offsets-offset_bytes [] pos buffer all s = refl
read_offsets-offset_bytes (x ∷ xs) pos buffer (small, all) s =
    let first = Stands-left (to_le_bytes 4 x) (offset_bytes xs) s in
    let rest = Stands-right (to_le_bytes 4 x) (offset_bytes xs) pos s in
    let wide = length-to_le_bytes 4 x in
    let rest' = subst (λ n. Stands buffer (pos + n) (offset_bytes xs)) wide rest in
    let room = first.room in
    let fits : leb (pos + 4) (length buffer) ≡ true = ground arith in
    rw
      (
        fits,
        read_le-to_le_bytes 4 x pos buffer first small,
        read_offsets-offset_bytes xs (pos + 4) buffer all rest',
      )
      refl

pub record InRange (e : HashEntry) : Type 0 where
  pub hash : e.hash < 2 ^ 64
  pub offset : e.string_offset < 2 ^ 32
  pub id : e.pattern_id < 2 ^ 32

-- The bytes of one entry.
read_entry-fields :
    (e : HashEntry) (i : ℕ) (buffer : List ℕ)
    → InRange e
    → Stands buffer i
        (to_le_bytes 8 e.hash ++ (to_le_bytes 4 e.string_offset ++ to_le_bytes 4 e.pattern_id))
    → read_entry buffer i ≡ ok e
unfolding read_entry
read_entry-fields e i buffer range s =
    let hash = to_le_bytes 8 e.hash in
    let offset = to_le_bytes 4 e.string_offset in
    let id = to_le_bytes 4 e.pattern_id in
    let s₁ = Stands-left hash (offset ++ id) s in
    let s₂ =
      subst (λ n. Stands buffer (i + n) (offset ++ id)) (length-to_le_bytes 8 e.hash)
        (Stands-right hash (offset ++ id) i s) in
    let s₃ = Stands-left offset id s₂ in
    let sum : i + 8 + 4 ≡ i + 12 = omega arith in
    let s₄ =
      subst (λ n. Stands buffer n id) sum
        (subst (λ n. Stands buffer (i + 8 + n) id) (length-to_le_bytes 4 e.string_offset)
          (Stands-right offset id (i + 8) s₂)) in
    rw
      (
        read_le-to_le_bytes 8 e.hash i buffer s₁ range.hash,
        read_le-to_le_bytes 4 e.string_offset (i + 8) buffer s₃ range.offset,
        read_le-to_le_bytes 4 e.pattern_id (i + 12) buffer s₄ range.id,
      )
      refl

length-entry :
    (e : HashEntry)
    → length (to_le_bytes 8 e.hash ++ (to_le_bytes 4 e.string_offset ++ to_le_bytes 4 e.pattern_id))
      ≡ 16
length-entry e = omega (
  arith,
  length-append (to_le_bytes 8 e.hash)
      (to_le_bytes 4 e.string_offset ++ to_le_bytes 4 e.pattern_id),
  length-append (to_le_bytes 4 e.string_offset) (to_le_bytes 4 e.pattern_id),
  length-to_le_bytes 8 e.hash,
  length-to_le_bytes 4 e.string_offset,
  length-to_le_bytes 4 e.pattern_id,
)

pub length-entry_bytes : (es : List HashEntry) → length (entry_bytes es) ≡ length es * 16
unfolding entry_bytes
length-entry_bytes [] = refl
length-entry_bytes (e ∷ es) =
    let whole =
      length-append
        (to_le_bytes 8 e.hash ++ (to_le_bytes 4 e.string_offset ++ to_le_bytes 4 e.pattern_id))
        (entry_bytes es) in
    omega (arith, whole, length-entry e, length-entry_bytes es)

-- One entry of a table.
pub read_entry-entry_bytes :
    (es : List HashEntry) (start slot : ℕ) (buffer : List ℕ) (e : HashEntry)
    → Stands buffer start (entry_bytes es)
    → get_elem? es slot ≡ some e
    → InRange e
    → (read_entry buffer (start + slot * 16) ≡ ok e) × (start + slot * 16 + 16 ≤ length buffer)
unfolding entry_bytes
read_entry-entry_bytes [] start slot buffer e s found range = absurd (cc)
read_entry-entry_bytes (x ∷ es) start zero buffer e s found range =
    let this : x ≡ e = cc in
    let here : start ≡ start + 0 * 16 = omega arith in
    let bytes =
      to_le_bytes 8 x.hash ++ (to_le_bytes 4 x.string_offset ++ to_le_bytes 4 x.pattern_id) in
    let first = Stands-left bytes (entry_bytes es) s in
    let room = first.room in
    let size = length-entry x in
    rw (← here) (
      read_entry-fields e start buffer range (
          subst
            (λ (c : HashEntry). Stands buffer start (
              to_le_bytes 8 c.hash
              ++ (to_le_bytes 4 c.string_offset ++ to_le_bytes 4 c.pattern_id)))
            this first),
      omega arith,
    )
read_entry-entry_bytes (x ∷ es) start (suc slot) buffer e s found range =
    let bytes =
      to_le_bytes 8 x.hash ++ (to_le_bytes 4 x.string_offset ++ to_le_bytes 4 x.pattern_id) in
    let rest =
      subst (λ n. Stands buffer (start + n) (entry_bytes es)) (length-entry x)
        (Stands-right bytes (entry_bytes es) start s) in
    let same : start + 16 + slot * 16 ≡ start + suc slot * 16 = omega arith in
    rw (← same) (read_entry-entry_bytes es (start + 16) slot buffer e rest found range)

-- A string of the pool.
pub read_string-string_bytes :
    (text : List ℕ) (start offset : ℕ) (buffer : List ℕ)
    → length text < 2 ^ 16
    → from_utf8 text ≡ true
    → Stands buffer (start + offset) (string_bytes text)
    → read_string buffer start offset ≡ ok (some text)
unfolding read_string string_bytes
read_string-string_bytes text start offset buffer short valid s =
    let abs = start + offset in
    let prefix = to_le_bytes 2 (length text % 2 ^ 16) in
    let room = s.room in
    let size : length (prefix ++ (text ++ 0 ∷ [])) ≡ 2 + length text + 1 =
      length-string_bytes text in
    let len : length text % 2 ^ 16 ≡ length text = omega arith in
    let s₁ = Stands-left prefix (text ++ 0 ∷ []) s in
    let s₂ =
      subst (λ n. Stands buffer (abs + n) (text ++ 0 ∷ []))
        (length-to_le_bytes 2 (length text % 2 ^ 16))
        (Stands-right prefix (text ++ 0 ∷ []) abs s) in
    let s₃ = Stands-left text (0 ∷ []) s₂ in
    let fits₁ : ltb (length buffer) (abs + 2) ≡ false = ground arith in
    let fits₂ : ltb (length buffer) (abs + 2 + length text) ≡ false = ground arith in
    let read : read_le 2 buffer abs ≡ ok (length text) =
      read_le-to_le_bytes 2 (length text % 2 ^ 16) abs buffer s₁ (omega arith) ∙ ap ok len in
    rw (fits₁, read, fits₂, slice-Stands text buffer (abs + 2) s₃, valid) refl
