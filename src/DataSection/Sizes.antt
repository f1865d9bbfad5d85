-- ===== src/DataSection/Sizes.antt =====
-- Sizes, strings and byte arrays: what `encode_with_size` writes is what `decode_size` reads.
use Prim.Native.Nat.{bit_and, bit_or}
use matchy.Base.{
  ℕ, suc, ◌+◌, ◌-◌, ◌*◌, ◌/◌, ◌%◌, ◌^◌, ◌≤◌, ◌<◌, ◌≡◌, refl, sym, ap, ◌∙◌, arith, List, [], ◌∷◌,
  ◌++◌, length, length-append, true, false, ltb, leb, ok,
}
use native.Mathlib.Decide.{dec_lt}
use matchy.Base.Bits.{shl-bit_or, bit_and_1f}
use matchy.Base.Bytes.{be3}
use matchy.DataSection.{
  string, bytes, size_bits, size_bytes, encode_with_size, encode_string, encode_bytes,
}
use matchy.DataSection.Decode.{
  slice, decode_size, decode_bytes, decode_string, from_utf8, decode_type, decode_at,
}
use matchy.DataSection.Buffer.{
  Stands, Stands-head, Stands-tail, Stands-below, Stands-left, Stands-right, slice-Stands,
}
use matchy.DataSection.Scalars.{decode_at-type}

-- The largest size that three bytes can hold.
abbrev pub max_size : ℕ
max_size = 29 + 256 + 65536 + 2 ^ 24

-- The decoder finds the size from the size bits and the bytes behind the control byte.
Sized : List ℕ → ℕ → ℕ → Type 0
Sized buffer cursor size =
    decode_size buffer cursor (size_bits size) ≡ ok (size, cursor + length (size_bytes size))

module _ (buffer : List ℕ) (cursor : ℕ) where
  size-0 : (n : ℕ) → n < 29 → Stands buffer cursor (size_bytes n) → Sized buffer cursor n
  unfolding Sized decode_size
  size-0 n h s =
      let small : ltb n 29 ≡ true = ground arith in
      rw (small, small) (ap (λ c. ok (n, c)) (omega arith))

  size-1 :
      (n : ℕ) → 29 ≤ n → n < 29 + 256 → Stands buffer cursor (size_bytes n) → Sized buffer cursor n
  unfolding Sized decode_size
  size-1 n l h s =
      let n0 : ltb n 29 ≡ false = ground arith in
      let y1 : ltb n (29 + 256) ≡ true = ground arith in
      let s' : Stands buffer cursor ((n - 29) ∷ []) = rw (n0, y1) at s in
      let below : ltb cursor (length buffer) ≡ true = let lt = Stands-below s' in ground arith in
      let back : 29 + (n - 29) ≡ n = omega arith in rw (n0, y1, below, Stands-head s', back) refl

  size-2 :
      (n : ℕ)
      → 29 + 256 ≤ n
      → n < 29 + 256 + 65536
      → Stands buffer cursor (size_bytes n)
      → Sized buffer cursor n
  unfolding Sized decode_size
  size-2 n l h s =
      let n0 : ltb n 29 ≡ false = ground arith in
      let n1 : ltb n (29 + 256) ≡ false = ground arith in
      let y2 : ltb n (29 + 256 + 65536) ≡ true = ground arith in
      let a = (n - 29 - 256) % 2 ^ 16 in
      let s' : Stands buffer cursor (a / 2 ^ 8 % 256 ∷ a / 2 ^ 0 % 256 ∷ []) =
        rw (n0, n1, y2) at s in
      let below : leb (cursor + 2) (length buffer) ≡ true = let r = s'.room in ground arith in
      let back : 29 + 256 + (a / 2 ^ 8 % 256 * 2 ^ 8 + a / 2 ^ 0 % 256) ≡ n = omega arith in
      rw (n0, n1, y2, below, Stands-head s', Stands-head (Stands-tail s'), back) refl

  size-3 :
      (n : ℕ)
      → 29 + 256 + 65536 ≤ n
      → n < max_size
      → Stands buffer cursor (size_bytes n)
      → Sized buffer cursor n
  unfolding Sized decode_size
  size-3 n l h s =
      let n0 : ltb n 29 ≡ false = ground arith in
      let n1 : ltb n (29 + 256) ≡ false = ground arith in
      let n2 : ltb n (29 + 256 + 65536) ≡ false = ground arith in
      let a = (n - 29 - 256 - 65536) % 2 ^ 32 in
      let s' : Stands buffer cursor (a / 2 ^ 16 % 256 ∷ a / 2 ^ 8 % 256 ∷ a / 2 ^ 0 % 256 ∷ []) =
        rw (n0, n1, n2) at s in
      let s1 = Stands-tail s' in
      let below : leb (cursor + 3) (length buffer) ≡ true = let r = s'.room in ground arith in
      let next : cursor + 1 + 1 ≡ cursor + 2 = omega arith in
      let joined =
        be3 (a / 2 ^ 16 % 256) (a / 2 ^ 8 % 256) (a / 2 ^ 0 % 256) (omega arith) (omega arith) in
      let back : 29
            + 256
            + 65536
            + (a / 2 ^ 16 % 256 * 65536 + a / 2 ^ 8 % 256 * 256 + a / 2 ^ 0 % 256)
          ≡ n =
        omega arith in
      rw
        (
          n0,
          n1,
          n2,
          below,
          Stands-head s',
          Stands-head s1,
          rw next at (Stands-head (Stands-tail s1)),
          joined,
          back,
        )
        refl

  size-any : (n : ℕ) → n < max_size → Stands buffer cursor (size_bytes n) → Sized buffer cursor n
  size-any n h s = elim (dec_lt n 29) [
    | yes y0 ↦ size-0 n y0 s
    | no n0 ↦ elim (dec_lt n (29 + 256)) [
      | yes y1 ↦ size-1 n (omega arith) y1 s
      | no n1 ↦ elim (dec_lt n (29 + 256 + 65536)) [
        | yes y2 ↦ size-2 n (omega arith) y2 s
        | no n2 ↦ size-3 n (omega arith) h s
      ]
    ]
  ]

  -- Whatever the size, in range.
  pub decode_size-size_bits :
      (n : ℕ)
      → n < max_size
      → Stands buffer cursor (size_bytes n)
      → decode_size buffer cursor (size_bits n) ≡ ok (n, cursor + length (size_bytes n))
  unfolding Sized
  decode_size-size_bits n h s = size-any n h s

size_bits-lt : (n : ℕ) → size_bits n < 32
size_bits-lt n = ground arith

-- The control byte of a type below 8, in front of a size.
pub control_bits :
    (t n : ℕ)
    → t < 8
    → (bit_or (t * 2 ^ 5) (size_bits n) / 2 ^ 5 ≡ t)
      × (bit_and (bit_or (t * 2 ^ 5) (size_bits n)) 0x1F ≡ size_bits n)
control_bits t n h =
    let lt = size_bits-lt n in
    let sum = shl-bit_or 5 t (size_bits n) lt in
    rw sum (omega arith, bit_and_1f (t * 2 ^ 5 + size_bits n) ∙ omega arith)

module _ (fuel base : ℕ) (buffer : List ℕ) (cursor : ℕ) (text : List ℕ)
    (small : length text < max_size) where
  abbrev run : ℕ → List ℕ
  run t = encode_with_size t (length text) ++ text

  abbrev behind : ℕ
  behind = cursor + 1 + length (size_bytes (length text)) + length text

  -- The parts of a run: the control byte, the size, the text.
  parts :
      (t : ℕ)
      → Stands buffer cursor (run t)
      → Stands buffer cursor
          (bit_or (t * 2 ^ 5) (size_bits (length text)) ∷ (size_bytes (length text) ++ text))
  unfolding encode_with_size
  parts t s = s

  length-run : (t : ℕ) → cursor + length (run t) ≡ behind
  unfolding encode_with_size
  length-run t = omega (arith, length-append (size_bytes (length text)) text)

  inside_text :
      Stands buffer (cursor + 1) (size_bytes (length text) ++ text)
      → leb behind (length buffer) ≡ true
  inside_text s =
      let r = s.room in let e = length-append (size_bytes (length text)) text in ground arith

  sized :
      Stands buffer (cursor + 1) (size_bytes (length text) ++ text)
      → decode_size buffer (cursor + 1) (size_bits (length text))
        ≡ ok (length text, cursor + 1 + length (size_bytes (length text)))
  sized s =
      decode_size-size_bits buffer (cursor + 1) (length text) small
        (Stands-left (size_bytes (length text)) text s)

  sliced :
      Stands buffer (cursor + 1) (size_bytes (length text) ++ text)
      → slice (length text) buffer (cursor + 1 + length (size_bytes (length text))) ≡ ok text
  sliced s =
      slice-Stands text buffer _ (Stands-right (size_bytes (length text)) text (cursor + 1) s)

  pub read-bytes :
      Stands buffer cursor (encode_bytes text)
      → decode_at (suc fuel) buffer base cursor
        ≡ ok (bytes text, cursor + length (encode_bytes text))
  unfolding encode_bytes decode_type decode_bytes
  read-bytes s =
      let s' = parts 4 s in
      let rest = Stands-tail s' in
      let (type_id, payload) = control_bits 4 (length text) (omega arith) in
      decode_at-type fuel base buffer cursor _ _ s'
      ∙ rw (type_id, payload, sized rest, inside_text rest, sliced rest)
          (ap (λ c. ok (bytes text, c)) (sym (length-run 4)))

  pub read-string :
      from_utf8 text ≡ true
      → Stands buffer cursor (encode_string text)
      → decode_at (suc fuel) buffer base cursor
        ≡ ok (string text, cursor + length (encode_string text))
  unfolding encode_string decode_type decode_string
  read-string valid s =
      let s' = parts 2 s in
      let rest = Stands-tail s' in
      let (type_id, payload) = control_bits 2 (length text) (omega arith) in
      decode_at-type fuel base buffer cursor _ _ s'
      ∙ rw (type_id, payload, sized rest, inside_text rest, sliced rest, valid)
          (ap (λ c. ok (string text, c)) (sym (length-run 2)))
