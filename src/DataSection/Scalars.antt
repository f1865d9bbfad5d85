-- ===== src/DataSection/Scalars.antt =====
-- Values without parts: what `encode_to_buffer` writes for them is what `decode_at` reads.
use Prim.Native.Nat.{bit_and, bit_or}
use matchy.Base.{
  ℕ, zero, suc, ◌+◌, ◌-◌, ◌*◌, ◌/◌, ◌%◌, ◌^◌, ◌<◌, ◌≡◌, refl, ap, ◌∙◌, arith, List, ◌∷◌, length,
  Bool, true, false, ltb, leb, ◌==◌, if◌then◌else◌, ok,
}
use native.Mathlib.Nat.{mod-eq_of_lt}
use matchy.Base.Bits.{shr, shl-bit_or}
use matchy.DataSection.{
  DataValue, pointer, string, double, bytes, uint16, uint32, map, int32, uint64, uint128, array,
  bool, float, to_be_bytes, encode_to_buffer,
}
use matchy.DataSection.Decode.{
  Decoded, byte_at, read_be, decode_size, decode_uint, decode_int32, decode_fixed, decode_extended,
  decode_type, decode_at, decode, sign_start,
}
use matchy.DataSection.Buffer.{Stands, Stands-head, Stands-tail, Stands-below}
use matchy.DataSection.Integers.{read_be-to_be_bytes}
use matchy.DataSection.Pointers.{decode_at-Stands}

-- Values without parts, in the range of their width.
abbrev pub IsScalar : DataValue → Type 0
IsScalar (pointer o) = o < 2 ^ 32
IsScalar (string s) = ⊥
IsScalar (double d) = d < 2 ^ 64
IsScalar (bytes b) = ⊥
IsScalar (uint16 n) = n < 2 ^ 16
IsScalar (uint32 n) = n < 2 ^ 32
IsScalar (map m) = ⊥
IsScalar (int32 n) = n < 2 ^ 32
IsScalar (uint64 n) = n < 2 ^ 64
IsScalar (uint128 n) = n < 2 ^ 128
IsScalar (array a) = ⊥
IsScalar (bool b) = Unit
IsScalar (float f) = f < 2 ^ 32

length-to_be_bytes : (w n : ℕ) → length (to_be_bytes w n) ≡ w
length-to_be_bytes zero n = refl
length-to_be_bytes (suc w) n = ap suc (length-to_be_bytes w n)

module _ (buffer : List ℕ) (cursor w x : ℕ) (s : Stands buffer cursor (to_be_bytes w x))
    (small : x < 2 ^ (8 * w)) where
  inside : leb (cursor + w) (length buffer) ≡ true
  inside = let r = s.room in let e = length-to_be_bytes w x in ground arith

  read_word : read_be (8 * w) w buffer cursor 0 ≡ ok x
  read_word =
      read_be-to_be_bytes (8 * w) w x 0 cursor buffer (omega arith) s
      ∙ ap ok (let e : x % 2 ^ (8 * w) ≡ x = mod-eq_of_lt small in omega arith)

  decode_uint-to_be_bytes :
      (value : ℕ → DataValue)
      → w < 29
      → decode_uint w value buffer cursor w ≡ ok (value x, cursor + w)
  unfolding decode_uint decode_size
  decode_uint-to_be_bytes value h =
      let plain : ltb w 29 ≡ true = ground arith in
      let fits : leb w w ≡ true = ground arith in rw (plain, fits, inside, read_word) refl

  decode_fixed-to_be_bytes :
      (value : ℕ → DataValue) → decode_fixed w value buffer cursor ≡ ok (value x, cursor + w)
  unfolding decode_fixed
  decode_fixed-to_be_bytes value = rw (inside, read_word) refl

-- One byte more of a word of 32 bits, whose upper byte is shifted out.
read_be-wrap : (v b : ℕ) → b < 256 → bit_or (v * 2 ^ 8 % 2 ^ 32) b ≡ v % 2 ^ 24 * 256 + b
read_be-wrap v b hb =
    let fits : v * 2 ^ 8 % 2 ^ 32 ≡ v % 2 ^ 24 * 2 ^ 8 = omega arith in
    rw fits (shl-bit_or 8 (v % 2 ^ 24) b hb)

-- Four bytes shift the sign extension out.
read_be-signed :
    (buffer : List ℕ) (cursor start x : ℕ)
    → x < 2 ^ 32
    → Stands buffer cursor (to_be_bytes 4 x)
    → read_be 32 4 buffer cursor start ≡ ok x
unfolding read_be
read_be-signed buffer cursor start x h s =
    let s1 = Stands-tail s in
    let s2 = Stands-tail s1 in
    let s3 = Stands-tail s2 in
    let b0 = x / 2 ^ (8 * 3) % 256 in
    let b1 = x / 2 ^ (8 * 2) % 256 in
    let b2 = x / 2 ^ (8 * 1) % 256 in
    let b3 = x / 2 ^ (8 * 0) % 256 in
    let t0 = start % 2 ^ 24 * 256 + b0 in
    let t1 = t0 % 2 ^ 24 * 256 + b1 in
    let t2 = t1 % 2 ^ 24 * 256 + b2 in
    rw
      (
        Stands-head s,
        read_be-wrap start b0 (omega arith),
        Stands-head s1,
        read_be-wrap t0 b1 (omega arith),
        Stands-head s2,
        read_be-wrap t1 b2 (omega arith),
        Stands-head s3,
        read_be-wrap t2 b3 (omega arith),
      )
      (ap ok (omega arith))

sign_start-Stands :
    (buffer : List ℕ) (cursor b : ℕ) (bs : List ℕ)
    → Stands buffer cursor (b ∷ bs)
    → (start : ℕ) × (sign_start 4 buffer cursor ≡ ok start)
unfolding sign_start
sign_start-Stands buffer cursor b bs s =
    (if bit_and b 0x80 == 0 then 0 else 2 ^ 32 - 1, rw (Stands-head s) refl)

decode_int32-to_be_bytes :
    (buffer : List ℕ) (cursor x : ℕ)
    → x < 2 ^ 32
    → Stands buffer cursor (to_be_bytes 4 x)
    → decode_int32 buffer cursor 4 ≡ ok (int32 x, cursor + 4)
unfolding decode_int32 decode_size sign_start
decode_int32-to_be_bytes buffer cursor x h s =
    let room : leb (cursor + 4) (length buffer) ≡ true = inside buffer cursor 4 x s (omega arith) in
    let (start, started) = sign_start-Stands buffer cursor _ _ s in
    rw (room, started, read_be-signed buffer cursor start x h s) refl

module _ (fuel base : ℕ) (buffer : List ℕ) (cursor : ℕ) where
  -- The control byte selects the decoder.
  pub decode_at-type :
      (ctrl : ℕ) (bs : List ℕ)
      → Stands buffer cursor (ctrl ∷ bs)
      → decode_at (suc fuel) buffer base cursor
        ≡ decode_type
            (decode_at fuel buffer base)
            (decode fuel buffer base)
            buffer
            (cursor + 1)
            (shr ctrl 5)
            (bit_and ctrl 0x1F)
  unfolding decode_at
  decode_at-type ctrl bs s =
      let below : ltb cursor (length buffer) ≡ true = let lt = Stands-below s in ground arith in
      rw (below, Stands-head s) refl

  abbrev pub Reads : DataValue → Type 0
  Reads v =
      Stands buffer cursor (encode_to_buffer v)
      → decode_at (suc fuel) buffer base cursor ≡ ok (v, cursor + length (encode_to_buffer v))

  at_cursor : DataValue → ℕ → Decoded
  at_cursor v c = ok (v, c)

  behind : (v : DataValue) {c d : ℕ} → c ≡ d → at_cursor v c ≡ at_cursor v d
  behind v e = ap (at_cursor v) e

  read-uint16 : (n : ℕ) → n < 2 ^ 16 → Reads (uint16 n)
  unfolding encode_to_buffer decode_type at_cursor
  read-uint16 n h s =
      decode_at-type 0xA2 _ s
      ∙ decode_uint-to_be_bytes buffer (cursor + 1) 2 n (Stands-tail s) h uint16 (omega arith)
      ∙ behind (uint16 n) (omega arith)

  read-uint32 : (n : ℕ) → n < 2 ^ 32 → Reads (uint32 n)
  unfolding encode_to_buffer decode_type at_cursor
  read-uint32 n h s =
      decode_at-type 0xC4 _ s
      ∙ decode_uint-to_be_bytes buffer (cursor + 1) 4 n (Stands-tail s) h uint32 (omega arith)
      ∙ behind (uint32 n) (omega arith)

  read-double : (n : ℕ) → n < 2 ^ 64 → Reads (double n)
  unfolding encode_to_buffer decode_type at_cursor
  read-double n h s =
      decode_at-type 0x68 _ s
      ∙ decode_fixed-to_be_bytes buffer (cursor + 1) 8 n (Stands-tail s) h double
      ∙ behind (double n) (omega arith)

  -- An extended type, by the byte behind the control byte.
  extended :
      (ctrl raw : ℕ) (bs : List ℕ)
      → Stands buffer cursor (ctrl ∷ raw ∷ bs)
      → (ltb (cursor + 1) (length buffer) ≡ true)
        × (byte_at buffer (cursor + 1) ≡ ok raw)
        × Stands buffer (cursor + 1 + 1) bs
  extended ctrl raw bs s =
      let s1 = Stands-tail s in
      let lt = Stands-below s1 in (ground arith, Stands-head s1, Stands-tail s1)

  read-int32 : (n : ℕ) → n < 2 ^ 32 → Reads (int32 n)
  unfolding encode_to_buffer decode_type decode_extended at_cursor
  read-int32 n h s =
      let (below, raw, s2) = extended 0x04 0x01 _ s in
      decode_at-type 0x04 _ s
      ∙ rw (below, raw) (decode_int32-to_be_bytes buffer (cursor + 1 + 1) n h s2)
      ∙ behind (int32 n) {c = cursor + 1 + 1 + 4} (omega arith)

  read-uint64 : (n : ℕ) → n < 2 ^ 64 → Reads (uint64 n)
  unfolding encode_to_buffer decode_type decode_extended at_cursor
  read-uint64 n h s =
      let (below, raw, s2) = extended 0x08 0x02 _ s in
      decode_at-type 0x08 _ s
      ∙ rw (below, raw)
          (decode_uint-to_be_bytes buffer (cursor + 1 + 1) 8 n s2 h uint64 (omega arith))
      ∙ behind (uint64 n) {c = cursor + 1 + 1 + 8} (omega arith)

  read-uint128 : (n : ℕ) → n < 2 ^ 128 → Reads (uint128 n)
  unfolding encode_to_buffer decode_type decode_extended at_cursor
  read-uint128 n h s =
      let (below, raw, s2) = extended 0x10 0x03 _ s in
      decode_at-type 0x10 _ s
      ∙ rw (below, raw)
          (decode_uint-to_be_bytes buffer (cursor + 1 + 1) 16 n s2 h uint128 (omega arith))
      ∙ behind (uint128 n) {c = cursor + 1 + 1 + 16} (omega arith)

  read-float : (n : ℕ) → n < 2 ^ 32 → Reads (float n)
  unfolding encode_to_buffer decode_type decode_extended at_cursor
  read-float n h s =
      let (below, raw, s2) = extended 0x04 0x08 _ s in
      decode_at-type 0x04 _ s
      ∙ rw (below, raw) (decode_fixed-to_be_bytes buffer (cursor + 1 + 1) 4 n s2 h float)
      ∙ behind (float n) {c = cursor + 1 + 1 + 4} (omega arith)

  read-bool : (b : Bool) → Reads (bool b)
  unfolding encode_to_buffer decode_type decode_extended at_cursor
  read-bool true s =
      let (below, raw, s2) = extended 0x01 0x07 _ s in
      decode_at-type 0x01 _ s
      ∙ rw (below, raw) (behind (bool true) {c = cursor + 1 + 1} (omega arith))
  read-bool false s =
      let (below, raw, s2) = extended 0x00 0x07 _ s in
      decode_at-type 0x00 _ s
      ∙ rw (below, raw) (behind (bool false) {c = cursor + 1 + 1} (omega arith))

  read-pointer : (o : ℕ) → o < 2 ^ 32 → Reads (pointer o)
  unfolding encode_to_buffer
  read-pointer o h s = decode_at-Stands buffer cursor fuel base o h s

  pub read-scalar : (v : DataValue) → IsScalar v → Reads v
  read-scalar (string x) g s = absurd g
  read-scalar (bytes b) g s = absurd g
  read-scalar (map m) g s = absurd g
  read-scalar (array a) g s = absurd g
  read-scalar (pointer o) g s = read-pointer o g s
  read-scalar (double n) g s = read-double n g s
  read-scalar (uint16 n) g s = read-uint16 n g s
  read-scalar (uint32 n) g s = read-uint32 n g s
  read-scalar (int32 n) g s = read-int32 n g s
  read-scalar (uint64 n) g s = read-uint64 n g s
  read-scalar (uint128 n) g s = read-uint128 n g s
  read-scalar (bool b) g s = read-bool b s
  read-scalar (float n) g s = read-float n g s
