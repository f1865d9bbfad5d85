-- ===== src/DataSection/PointerSizes.antt =====
-- The four sizes of a pointer: the bytes of each, and how the decoder reads them.
use Prim.Native.Nat.{bit_and, bit_or}
use matchy.Base.{
  ℕ, suc, ◌+◌, ◌-◌, ◌*◌, ◌/◌, ◌%◌, ◌^◌, ◌≤◌, ◌<◌, ◌≡◌, refl, ap, ◌∙◌, arith, List, [], ◌∷◌, length,
  true, false, ltb, ok,
}
use matchy.Base.Bits.{shr, shl-bit_or, bit_and_three, bit_and_seven, bit_and_1f, bit_and_ff}
use matchy.Base.Bytes.{be3, be4}
use matchy.DataSection.{pointer, encode_pointer}
use matchy.DataSection.Decode.{read_be, decode_pointer, decode_type, decode_at}
use matchy.DataSection.Buffer.{Stands, Stands-head, Stands-tail, Stands-below}

-- The control byte of a pointer with two bits for its size and three for its value.
abbrev pub control : ℕ → ℕ → ℕ
control kind top = 32 + kind * 8 + top

control-payload :
    (kind top : ℕ) → kind < 4 → top < 8 → bit_and (control kind top) 0x1F ≡ kind * 8 + top
control-payload kind top hk ht = bit_and_1f (control kind top) ∙ omega arith

control-kind : (kind top : ℕ) → kind < 4 → top < 8 → bit_and (shr (kind * 8 + top) 3) 0x3 ≡ kind
control-kind kind top hk ht = bit_and_three ((kind * 8 + top) / 2 ^ 3) ∙ omega arith

control-top : (kind top : ℕ) → top < 8 → bit_and (kind * 8 + top) 0x7 ≡ top
control-top kind top ht = bit_and_seven (kind * 8 + top) ∙ omega arith

-- A control byte of a pointer leads to `decode_pointer`.
pub decode_at-control :
    (fuel base cursor kind top : ℕ) (buffer bs : List ℕ)
    → kind < 4
    → top < 8
    → Stands buffer cursor (control kind top ∷ bs)
    → decode_at (suc fuel) buffer base cursor ≡ decode_pointer buffer (cursor + 1) (kind * 8 + top)
unfolding decode_at decode_type
decode_at-control fuel base cursor kind top buffer bs hk ht s =
    let below : ltb cursor (length buffer) ≡ true = let lt = Stands-below s in ground arith in
    let type_id : shr (control kind top) 5 ≡ 1 = omega arith in
    rw (below, Stands-head s, control-payload kind top hk ht, type_id) refl

module _ (buffer : List ℕ) (cursor top : ℕ) (ht : top < 8) where
  pub decode_pointer-0 :
      (b0 : ℕ)
      → b0 < 256
      → Stands buffer cursor (b0 ∷ [])
      → decode_pointer buffer cursor (0 * 8 + top) ≡ ok (pointer (top * 256 + b0), cursor + 1)
  unfolding decode_pointer
  decode_pointer-0 b0 h0 s =
      let below : ltb cursor (length buffer) ≡ true = let lt = Stands-below s in ground arith in
      rw
        (
          control-kind 0 top (omega arith) ht,
          control-top 0 top ht,
          below,
          Stands-head s,
          shl-bit_or 8 top b0 h0,
        )
        refl

  pub decode_pointer-1 :
      (b0 b1 : ℕ)
      → b0 < 256
      → b1 < 256
      → Stands buffer cursor (b0 ∷ b1 ∷ [])
      → decode_pointer buffer cursor (1 * 8 + top)
        ≡ ok (pointer (2048 + (top * 65536 + b0 * 256 + b1)), cursor + 2)
  unfolding decode_pointer
  decode_pointer-1 b0 b1 h0 h1 s =
      let s1 = Stands-tail s in
      let below : ltb (cursor + 1) (length buffer) ≡ true =
        let lt = Stands-below s1 in ground arith in
      rw
        (
          control-kind 1 top (omega arith) ht,
          control-top 1 top ht,
          below,
          Stands-head s,
          Stands-head s1,
          be3 top b0 b1 h0 h1,
        )
        refl

  pub decode_pointer-2 :
      (b0 b1 b2 : ℕ)
      → b0 < 256
      → b1 < 256
      → b2 < 256
      → Stands buffer cursor (b0 ∷ b1 ∷ b2 ∷ [])
      → decode_pointer buffer cursor (2 * 8 + top)
        ≡ ok (pointer (526336 + (top * 16777216 + b0 * 65536 + b1 * 256 + b2)), cursor + 3)
  unfolding decode_pointer
  decode_pointer-2 b0 b1 b2 h0 h1 h2 s =
      let s1 = Stands-tail s in
      let s2 = Stands-tail s1 in
      let next : cursor + 1 + 1 ≡ cursor + 2 = omega arith in
      let below : ltb (cursor + 2) (length buffer) ≡ true =
        let lt = Stands-below s2 in ground arith in
      rw
        (
          control-kind 2 top (omega arith) ht,
          control-top 2 top ht,
          below,
          Stands-head s,
          Stands-head s1,
          rw next at (Stands-head s2),
          be4 top b0 b1 b2 h0 h1 h2,
        )
        refl

-- One byte more of a word of 32 bits.
read_be-step : (v b : ℕ) → v < 2 ^ 24 → b < 256 → bit_or (v * 2 ^ 8 % 2 ^ 32) b ≡ v * 256 + b
read_be-step v b hv hb =
    let fits : v * 2 ^ 8 % 2 ^ 32 ≡ v * 2 ^ 8 = omega arith in rw fits (shl-bit_or 8 v b hb)

read_be-word :
    (buffer : List ℕ) (cursor b0 b1 b2 b3 : ℕ)
    → b0 < 256
    → b1 < 256
    → b2 < 256
    → b3 < 256
    → Stands buffer cursor (b0 ∷ b1 ∷ b2 ∷ b3 ∷ [])
    → read_be 32 4 buffer cursor 0 ≡ ok (((b0 * 256 + b1) * 256 + b2) * 256 + b3)
unfolding read_be
read_be-word buffer cursor b0 b1 b2 b3 h0 h1 h2 h3 s =
    let s1 = Stands-tail s in
    let s2 = Stands-tail s1 in
    let s3 = Stands-tail s2 in
    rw
      (
        Stands-head s,
        read_be-step 0 b0 (omega arith) h0,
        Stands-head s1,
        read_be-step (0 * 256 + b0) b1 (omega arith) h1,
        Stands-head s2,
        read_be-step ((0 * 256 + b0) * 256 + b1) b2 (omega arith) h2,
        Stands-head s3,
        read_be-step (((0 * 256 + b0) * 256 + b1) * 256 + b2) b3 (omega arith) h3,
      )
      (ap ok (omega arith))

pub decode_pointer-3 :
    (buffer : List ℕ) (cursor b0 b1 b2 b3 : ℕ)
    → b0 < 256
    → b1 < 256
    → b2 < 256
    → b3 < 256
    → Stands buffer cursor (b0 ∷ b1 ∷ b2 ∷ b3 ∷ [])
    → decode_pointer buffer cursor (3 * 8 + 0)
      ≡ ok (pointer (((b0 * 256 + b1) * 256 + b2) * 256 + b3), cursor + 4)
unfolding decode_pointer
decode_pointer-3 buffer cursor b0 b1 b2 b3 h0 h1 h2 h3 s =
    let s3 = Stands-tail (Stands-tail (Stands-tail s)) in
    let below : ltb (cursor + 3) (length buffer) ≡ true =
      let lt = Stands-below s3 in ground arith in
    rw
      (
        control-kind 3 0 (omega arith) (omega arith),
        below,
        read_be-word buffer cursor b0 b1 b2 b3 h0 h1 h2 h3 s,
      )
      refl

-- The bytes of a pointer, by the range of its offset.
pub encode_pointer-0 :
    (o : ℕ) → o < 2048 → encode_pointer o ≡ control 0 (o / 256 % 8) ∷ o % 256 ∷ []
unfolding encode_pointer
encode_pointer-0 o h =
    let small : ltb o 2048 ≡ true = ground arith in
    rw
      (small, bit_and_seven (o / 2 ^ 8), bit_and_ff o, shl-bit_or 3 4 (o / 2 ^ 8 % 8) (omega arith))
      refl

pub encode_pointer-1 :
    (a : ℕ)
    → a < 524288
    → encode_pointer (a + 2048) ≡ control 1 (a / 65536 % 8) ∷ a / 256 % 256 ∷ a % 256 ∷ []
unfolding encode_pointer
encode_pointer-1 a h =
    let large : ltb (a + 2048) 2048 ≡ false = ground arith in
    let small : ltb (a + 2048) (2048 + 524288) ≡ true = ground arith in
    let less : a + 2048 - 2048 ≡ a = omega arith in
    rw
      (
        large,
        small,
        less,
        bit_and_seven (a / 2 ^ 16),
        bit_and_ff (a / 2 ^ 8),
        bit_and_ff a,
        shl-bit_or 3 5 (a / 2 ^ 16 % 8) (omega arith),
      )
      refl

pub encode_pointer-2 :
    (a : ℕ)
    → a < 134217728
    → encode_pointer (a + 526336)
      ≡ control 2 (a / 16777216 % 8) ∷ a / 65536 % 256 ∷ a / 256 % 256 ∷ a % 256 ∷ []
unfolding encode_pointer
encode_pointer-2 a h =
    let large : ltb (a + 526336) 2048 ≡ false = ground arith in
    let larger : ltb (a + 526336) (2048 + 524288) ≡ false = ground arith in
    let small : ltb (a + 526336) (2048 + 524288 + 134217728) ≡ true = ground arith in
    let less : a + 526336 - 526336 ≡ a = omega arith in
    rw
      (
        large,
        larger,
        small,
        less,
        bit_and_seven (a / 2 ^ 24),
        bit_and_ff (a / 2 ^ 16),
        bit_and_ff (a / 2 ^ 8),
        bit_and_ff a,
        shl-bit_or 3 6 (a / 2 ^ 24 % 8) (omega arith),
      )
      refl

pub encode_pointer-3 :
    (o : ℕ)
    → 134744064 ≤ o
    → encode_pointer o
      ≡ control 3 0 ∷ o / 16777216 % 256 ∷ o / 65536 % 256 ∷ o / 256 % 256 ∷ o / 1 % 256 ∷ []
unfolding encode_pointer
encode_pointer-3 o h =
    let n0 : ltb o 2048 ≡ false = ground arith in
    let n1 : ltb o (2048 + 524288) ≡ false = ground arith in
    let n2 : ltb o (2048 + 524288 + 134217728) ≡ false = ground arith in rw (n0, n1, n2) refl
