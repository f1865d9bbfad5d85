-- ===== src/LongestPrefix/Records.antt =====
-- A record that the builder writes is the record that the reader reads, for each record size.
use Prim.Native.Nat.{bit_and, bit_or}
use matchy.Base.{
  ℕ, ◌+◌, ◌*◌, ◌/◌, ◌%◌, ◌^◌, ◌<◌, ◌≡◌, refl, ap, ◌∙◌, arith, ltb, leb, List, get_elem?, some, true,
  ok,
}
use matchy.Base.Bits.{shl, shr, bit_and_ff, bit_and_0f, shl-bit_or}
use matchy.Base.Bytes.{be3, be4}
use matchy.Mmdb.Types.{IpVersion, RecordSize, bits24, bits28, bits32, node_bytes}
use matchy.Mmdb.Tree.{
  SearchTree, MmdbHeader, index_byte, read_record, read_24bit_record, read_28bit_record,
  read_32bit_record, read_sized,
}
use matchy.IpTree.Build.{bytes_24bit, bytes_28bit, bytes_32bit, byte_at}

-- The bytes of a node, and the numbers that its records can hold.
abbrev pub bytes_of : RecordSize → ℕ → ℕ → List ℕ
bytes_of bits24 = bytes_24bit
bytes_of bits28 = bytes_28bit
bytes_of bits32 = bytes_32bit

abbrev pub limit : RecordSize → ℕ
limit bits24 = 2 ^ 24
limit bits28 = 2 ^ 28
limit bits32 = 2 ^ 32

byte_at-div : (x k : ℕ) → byte_at x k ≡ x / 2 ^ k % 256
byte_at-div x k = bit_and_ff (x / 2 ^ k)

-- The low three bytes of a record, whatever stands above them.
low3 :
    (x : ℕ)
    → bit_or (bit_or (shl (byte_at x 16) 16) (shl (byte_at x 8) 8)) (bit_and x 0xFF) ≡ x % 2 ^ 24
low3 x =
    rw (byte_at-div x 16, byte_at-div x 8, bit_and_ff x)
      (be3 (x / 65536 % 256) (x / 256 % 256) (x % 256) (omega arith) (omega arith) ∙ omega arith)

split4 :
    (x : ℕ)
    → x < 2 ^ 32
    → bit_or
        (bit_or (bit_or (shl (byte_at x 24) 24) (shl (byte_at x 16) 16)) (shl (byte_at x 8) 8))
        (bit_and x 0xFF)
      ≡ x
split4 x h =
    rw (byte_at-div x 24, byte_at-div x 16, byte_at-div x 8, bit_and_ff x)
      (be4 (x / 16777216 % 256) (x / 65536 % 256) (x / 256 % 256) (x % 256) (omega arith)
          (omega arith) (omega arith)
        ∙ omega arith)

-- The middle byte of a 28-bit node.
middle : ℕ → ℕ → ℕ
middle l r = bit_or (shl (bit_and (shr l 24) 0x0F) 4) (bit_and (shr r 24) 0x0F)

middle_lem : (l r : ℕ) → middle l r ≡ l / 2 ^ 24 % 16 * 16 + r / 2 ^ 24 % 16
unfolding middle
middle_lem l r =
    rw (bit_and_0f (l / 2 ^ 24), bit_and_0f (r / 2 ^ 24))
      (shl-bit_or 4 (l / 2 ^ 24 % 16) (r / 2 ^ 24 % 16) (omega arith))

left28 :
    (l r : ℕ)
    → l < 2 ^ 28
    → bit_or
        (shl (bit_and (shr (middle l r) 4) 0x0F) 24)
        (bit_or (bit_or (shl (byte_at l 16) 16) (shl (byte_at l 8) 8)) (bit_and l 0xFF))
      ≡ l
left28 l r h =
    rw (low3 l, bit_and_0f (middle l r / 2 ^ 4), middle_lem l r)
      (shl-bit_or 24 _ (l % 2 ^ 24) (omega arith) ∙ omega arith)

right28 :
    (l r : ℕ)
    → r < 2 ^ 28
    → bit_or
        (shl (bit_and (middle l r) 0x0F) 24)
        (bit_or (bit_or (shl (byte_at r 16) 16) (shl (byte_at r 8) 8)) (bit_and r 0xFF))
      ≡ r
right28 l r h =
    rw (low3 r, bit_and_0f (middle l r), middle_lem l r)
      (shl-bit_or 24 _ (r % 2 ^ 24) (omega arith) ∙ omega arith)

pub index_byte_lem :
    (bytes : List ℕ) (i j : ℕ) {b : ℕ}
    → j ≡ i
    → get_elem? bytes i ≡ some b
    → index_byte bytes j ≡ ok b
unfolding index_byte
index_byte_lem bytes i j e h = rw (e, h, index_byte)

-- The header of a tree of this many nodes.
abbrev pub header_of : RecordSize → IpVersion → ℕ → MmdbHeader
header_of size v count = record {
  node_count = count;
  record_size = size;
  ip_version = v;
  tree_size = count * node_bytes size;
}

-- The bytes hold a node with these values.
abbrev pub HoldsNode : RecordSize → List ℕ → ℕ → ℕ → ℕ → Type 0
HoldsNode size bytes i l r =
    (m : ℕ) (b : ℕ)
    → get_elem? (bytes_of size l r) m ≡ some b
    → get_elem? bytes (i * node_bytes size + m) ≡ some b

module _ (v : IpVersion) (bytes : List ℕ) (count i l r : ℕ) (below : i < count) where
  pub read_24_low :
      HoldsNode bits24 bytes i l r
      → let t : SearchTree = record { bytes = bytes; header = header_of bits24 v count } in
        (read_record t i 0 ≡ ok (l % 2 ^ 24)) × (read_record t i 1 ≡ ok (r % 2 ^ 24))
  unfolding read_record read_sized read_24bit_record node_bytes
  read_24_low h =
      let inside : ltb i count ≡ true = ground arith in
      let fit0 : leb (i * 6 + 0 * 3 + 3) (count * 6) ≡ true = ground arith in
      let fit1 : leb (i * 6 + 1 * 3 + 3) (count * 6) ≡ true = ground arith in
      let at = λ (m j b : ℕ) (e : j ≡ i * 6 + m) (g : get_elem? (bytes_24bit l r) m ≡ some b).
        index_byte_lem bytes (i * 6 + m) j e (h m b g) in
      (
        rw
            (
              inside,
              fit0,
              at 0 (i * 6 + 0 * 3) (byte_at l 16) (omega arith) refl,
              at 1 (i * 6 + 0 * 3 + 1) (byte_at l 8) (omega arith) refl,
              at 2 (i * 6 + 0 * 3 + 2) (bit_and l 0xFF) (omega arith) refl,
              low3 l,
            )
            refl,
        rw
            (
              inside,
              fit1,
              at 3 (i * 6 + 1 * 3) (byte_at r 16) (omega arith) refl,
              at 4 (i * 6 + 1 * 3 + 1) (byte_at r 8) (omega arith) refl,
              at 5 (i * 6 + 1 * 3 + 2) (bit_and r 0xFF) (omega arith) refl,
              low3 r,
            )
            refl,
      )

  read_24 :
      HoldsNode bits24 bytes i l r
      → l < 2 ^ 24
      → r < 2 ^ 24
      → let t : SearchTree = record { bytes = bytes; header = header_of bits24 v count } in
        (read_record t i 0 ≡ ok l) × (read_record t i 1 ≡ ok r)
  read_24 h hl hr =
      let low = read_24_low h in
      let el : l % 2 ^ 24 ≡ l = omega arith in
      let er : r % 2 ^ 24 ≡ r = omega arith in (low.0 ∙ ap ok el, low.1 ∙ ap ok er)

  read_28 :
      HoldsNode bits28 bytes i l r
      → l < 2 ^ 28
      → r < 2 ^ 28
      → let t : SearchTree = record { bytes = bytes; header = header_of bits28 v count } in
        (read_record t i 0 ≡ ok l) × (read_record t i 1 ≡ ok r)
  unfolding read_record read_sized read_28bit_record node_bytes middle
  read_28 h hl hr =
      let inside : ltb i count ≡ true = ground arith in
      let fits : leb (i * 7 + 7) (count * 7) ≡ true = ground arith in
      let at = λ (m j b : ℕ) (e : j ≡ i * 7 + m) (g : get_elem? (bytes_28bit l r) m ≡ some b).
        index_byte_lem bytes (i * 7 + m) j e (h m b g) in
      let b0 = at 0 (i * 7) (byte_at l 16) (omega arith) refl in
      let b1 = at 1 (i * 7 + 1) (byte_at l 8) (omega arith) refl in
      let b2 = at 2 (i * 7 + 2) (bit_and l 0xFF) (omega arith) refl in
      let b3 = at 3 (i * 7 + 3) (middle l r) (omega arith) refl in
      let b4 = at 4 (i * 7 + 4) (byte_at r 16) (omega arith) refl in
      let b5 = at 5 (i * 7 + 5) (byte_at r 8) (omega arith) refl in
      let b6 = at 6 (i * 7 + 6) (bit_and r 0xFF) (omega arith) refl in
      (
        rw (inside, fits, b0, b1, b2, b3, b4, b5, b6) (ap ok (left28 l r hl)),
        rw (inside, fits, b0, b1, b2, b3, b4, b5, b6) (ap ok (right28 l r hr)),
      )

  read_32 :
      HoldsNode bits32 bytes i l r
      → l < 2 ^ 32
      → r < 2 ^ 32
      → let t : SearchTree = record { bytes = bytes; header = header_of bits32 v count } in
        (read_record t i 0 ≡ ok l) × (read_record t i 1 ≡ ok r)
  unfolding read_record read_sized read_32bit_record node_bytes
  read_32 h hl hr =
      let inside : ltb i count ≡ true = ground arith in
      let fit0 : leb (i * 8 + 0 * 4 + 4) (count * 8) ≡ true = ground arith in
      let fit1 : leb (i * 8 + 1 * 4 + 4) (count * 8) ≡ true = ground arith in
      let at = λ (m j b : ℕ) (e : j ≡ i * 8 + m) (g : get_elem? (bytes_32bit l r) m ≡ some b).
        index_byte_lem bytes (i * 8 + m) j e (h m b g) in
      (
        rw
            (
              inside,
              fit0,
              at 0 (i * 8 + 0 * 4) (byte_at l 24) (omega arith) refl,
              at 1 (i * 8 + 0 * 4 + 1) (byte_at l 16) (omega arith) refl,
              at 2 (i * 8 + 0 * 4 + 2) (byte_at l 8) (omega arith) refl,
              at 3 (i * 8 + 0 * 4 + 3) (bit_and l 0xFF) (omega arith) refl,
            )
            (ap ok (split4 l hl)),
        rw
            (
              inside,
              fit1,
              at 4 (i * 8 + 1 * 4) (byte_at r 24) (omega arith) refl,
              at 5 (i * 8 + 1 * 4 + 1) (byte_at r 16) (omega arith) refl,
              at 6 (i * 8 + 1 * 4 + 2) (byte_at r 8) (omega arith) refl,
              at 7 (i * 8 + 1 * 4 + 3) (bit_and r 0xFF) (omega arith) refl,
            )
            (ap ok (split4 r hr)),
      )

-- Both records of a node read back what was written, if they fit the record size.
pub read_record-bytes :
    (size : RecordSize) (v : IpVersion) (bytes : List ℕ) (count i l r : ℕ)
    → i < count
    → HoldsNode size bytes i l r
    → l < limit size
    → r < limit size
    → let t : SearchTree = record { bytes = bytes; header = header_of size v count } in
      (read_record t i 0 ≡ ok l) × (read_record t i 1 ≡ ok r)
read_record-bytes bits24 v bytes count i l r below h hl hr =
    read_24 v bytes count i l r below h hl hr
read_record-bytes bits28 v bytes count i l r below h hl hr =
    read_28 v bytes count i l r below h hl hr
read_record-bytes bits32 v bytes count i l r below h hl hr =
    read_32 v bytes count i l r below h hl hr
