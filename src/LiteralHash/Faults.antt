-- ===== src/LiteralHash/Faults.antt =====
-- Bytes that no builder wrote (src/literal_hash.rs, `from_buffer`, `lookup`).
use matchy.Base.{
  ℕ, zero, suc, ◌+◌, ◌^◌, ◌≤◌, ◌<◌, ◌≡◌, refl, ap, ◌∙◌, subst, arith, ◌==◌, leb, List, [], ◌∷◌,
  ◌++◌, ◌⊎◌, inl, inr, true, Bool-cases, length, Result, ok, err,
}
use matchy.Base.Results.{invalid_pattern, panic}
use matchy.Base.Bytes.{same_bytes}
use matchy.Base.LittleEndian.{from_le_bytes}
use matchy.DataSection.Decode.{byte_at, slice}
use matchy.DataSection.Buffer.{Stands, Stands-left, Stands-right}
use matchy.Glob.{MatchMode}
use matchy.LiteralHash.{LiteralHashHeader, Host, literal_hash_magic}
use matchy.LiteralHash.Build.{header_bytes, offset_bytes}
use matchy.LiteralHash.Table.{LiteralHash, read_le, read_offsets, from_buffer, lookup}
use matchy.LiteralHash.Loading.{
  InWords, loaded, from_buffer-loaded, length-header_bytes, whole-Stands,
}
use matchy.LiteralHash.Probe.{get_elem?_below}

pub slice-total :
    (n cursor : ℕ) (buffer : List ℕ)
    → cursor + n ≤ length buffer
    → (bs : List ℕ) × (slice n buffer cursor ≡ ok bs)
unfolding slice byte_at
slice-total zero cursor buffer room = ([], refl)
slice-total (suc n) cursor buffer room =
    let (b, here) = get_elem?_below buffer cursor (omega arith) in
    let (bs, rest) = slice-total n (cursor + 1) buffer (omega arith) in
    (b ∷ bs, rw (byte_at, here, rest) refl)

pub read_le-total :
    (width cursor : ℕ) (buffer : List ℕ)
    → cursor + width ≤ length buffer
    → (x : ℕ) × (read_le width buffer cursor ≡ ok x)
unfolding read_le
read_le-total width cursor buffer room =
    let (bs, read) = slice-total width cursor buffer room in (from_le_bytes bs, rw read refl)

-- A value, or the refusal of a malformed table.
abbrev pub Refusable {ℓ} : {T : Type ℓ} → Result T → Type ℓ
Refusable {T} r = ((v : T) × (r ≡ ok v)) ⊎ (r ≡ err invalid_pattern)

read_offsets-Refusable :
    (rounds pos : ℕ) (buffer : List ℕ) → Refusable (read_offsets rounds buffer pos)
unfolding read_offsets
read_offsets-Refusable zero pos buffer = inl ([], refl)
read_offsets-Refusable (suc rounds) pos buffer = elim (Bool-cases (leb (pos + 4) (length buffer))) [
  | inr short ↦ inr (rw short refl)
  | inl fits ↦
      let (x, read) = read_le-total 4 pos buffer (ground arith) in
      elim (read_offsets-Refusable rounds (pos + 4) buffer) [
        | inl (xs, rest) ↦ inl (x ∷ xs, rw (fits, read, rest) refl)
        | inr refused ↦ inr (rw (fits, read, refused) refl)
      ]
]

-- from_buffer on any bytes at all returns a table or InvalidPattern: no index of it is ever out of
-- range.
pub from_buffer-Refusable :
    (buffer : List ℕ) (mode : MatchMode)
    → ((table : LiteralHash) × (from_buffer buffer mode ≡ ok table))
      ⊎ (from_buffer buffer mode ≡ err invalid_pattern)
unfolding from_buffer loaded
from_buffer-Refusable buffer mode = elim (Bool-cases (leb 32 (length buffer))) [
  | inr short ↦ inr (rw short refl)
  | inl fits ↦
      let room : 32 ≤ length buffer = ground arith in
      let (magic, m) = slice-total 4 0 buffer (omega arith) in
      let (version, r₁) = read_le-total 4 4 buffer (omega arith) in
      let (entry_count, r₂) = read_le-total 4 8 buffer (omega arith) in
      let (table_size, r₃) = read_le-total 4 12 buffer (omega arith) in
      let (strings_offset, r₄) = read_le-total 4 16 buffer (omega arith) in
      let (strings_size, r₅) = read_le-total 4 20 buffer (omega arith) in
      let (num_shards, r₆) = read_le-total 4 24 buffer (omega arith) in
      let (shard_bits, r₇) = read_le-total 4 28 buffer (omega arith) in
      elim (Bool-cases (same_bytes magic literal_hash_magic)) [
        | inr wrong ↦ inr (simp (fits, m, wrong))
        | inl tagged ↦ elim (Bool-cases (version == 1)) [
          | inr other ↦ inr (simp (fits, m, tagged, r₁, other))
          | inl same ↦ elim (read_offsets-Refusable (num_shards + 1) 32 buffer) [
            | inl (offsets, read) ↦ inl (
              loaded
                  (record {
                    magic = literal_hash_magic;
                    version = version;
                    entry_count = entry_count;
                    table_size = table_size;
                    strings_offset = strings_offset;
                    strings_size = strings_size;
                    num_shards = num_shards;
                    shard_bits = shard_bits;
                  })
                  offsets buffer mode,
              simp (fits, m, tagged, r₁, same, r₂, r₃, r₄, r₅, r₆, r₇, read),
            )
            | inr refused ↦ inr (simp (fits, m, tagged, r₁, same, r₂, r₃, r₄, r₅, r₆, r₇, refused))
          ]
        ]
      ]
]

-- from_buffer accepts a well-formed header that says there are no shards, and every lookup in such a
-- table, whatever the query, panics on a remainder by zero.
pub lookup-no_shards :
    (host : Host) (h : LiteralHashHeader) (offset : ℕ) (mode : MatchMode) (query : List ℕ)
    → h.magic ≡ literal_hash_magic
    → h.version ≡ 1
    → InWords h
    → h.num_shards ≡ 0
    → offset < 2 ^ 32
    → (table : LiteralHash) × (from_buffer (header_bytes h ++ offset_bytes (offset ∷ [])) mode
        ≡ ok table)
      × (lookup host table query ≡ err panic)
unfolding lookup loaded
lookup-no_shards host h offset mode query magic version words empty small =
    let buffer = header_bytes h ++ offset_bytes (offset ∷ []) in
    let whole = whole-Stands buffer in
    let size = length-header_bytes h (ap length magic) in
    let behind : Stands buffer 32 (offset_bytes (offset ∷ [])) =
      subst (λ k. Stands buffer k (offset_bytes (offset ∷ []))) (ap (λ k. 0 + k) size ∙ omega arith)
        (Stands-right (header_bytes h) (offset_bytes (offset ∷ [])) 0 whole) in
    let zero_shards : (h.num_shards == 0) ≡ true = ground arith in
    (
      loaded h (offset ∷ []) buffer mode,
      from_buffer-loaded h (offset ∷ []) buffer mode magic version words (small, tt) (omega arith)
          (Stands-left (header_bytes h) (offset_bytes (offset ∷ [])) whole) behind,
      simp zero_shards,
    )
