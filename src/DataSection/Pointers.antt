-- ===== src/DataSection/Pointers.antt =====
-- Pointers: what `encode_pointer` writes is what `decode_pointer` reads, in each of the four sizes.
use matchy.Base.{
  ℕ, suc, ◌+◌, ◌-◌, ◌/◌, ◌%◌, ◌^◌, ◌≤◌, ◌<◌, ◌≡◌, refl, ◌∙◌, subst, arith, List, ◌++◌, length, ok,
}
use matchy.DataSection.{pointer, encode_pointer}
use native.Mathlib.Decide.{dec_lt}
use matchy.DataSection.Decode.{Decoded, decode_at}
use matchy.DataSection.Buffer.{Stands, Stands-tail, middle-Stands}
use matchy.DataSection.PointerSizes.{
  decode_at-control, decode_pointer-0, decode_pointer-1, decode_pointer-2, decode_pointer-3,
  encode_pointer-0, encode_pointer-1, encode_pointer-2, encode_pointer-3,
}

-- The result of decoding a pointer.
abbrev decoded : ℕ → ℕ → Decoded
decoded offset cursor = ok (pointer offset, cursor)

same_decoded : {m n c d : ℕ} → m ≡ n → c ≡ d → decoded m c ≡ decoded n d
same_decoded e f = rw (e, f) refl

module _ (buffer : List ℕ) (cursor fuel base : ℕ) where
  abbrev Read : ℕ → List ℕ → Type 0
  Read offset bs = decode_at (suc fuel) buffer base cursor ≡ decoded offset (cursor + length bs)

  Read-0 : (o : ℕ) → o < 2048 → Stands buffer cursor (encode_pointer o) → Read o (encode_pointer o)
  Read-0 o h s =
      let s' = subst (Stands buffer cursor) (encode_pointer-0 o h) s in
      rw (encode_pointer-0 o h) (
        decode_at-control fuel base cursor 0 (o / 256 % 8) buffer _ (omega arith) (omega arith) s'
        ∙ decode_pointer-0 buffer (cursor + 1) (o / 256 % 8) (omega arith) (o % 256) (omega arith)
            (Stands-tail s')
        ∙ same_decoded (omega arith) (omega arith))

  Read-1 :
      (a : ℕ)
      → a < 524288
      → Stands buffer cursor (encode_pointer (a + 2048))
      → Read (a + 2048) (encode_pointer (a + 2048))
  Read-1 a h s =
      let s' = subst (Stands buffer cursor) (encode_pointer-1 a h) s in
      rw (encode_pointer-1 a h) (
        decode_at-control fuel base cursor 1 (a / 65536 % 8) buffer _ (omega arith) (omega arith) s'
        ∙ decode_pointer-1 buffer (cursor + 1) (a / 65536 % 8) (omega arith) (a / 256 % 256)
            (a % 256) (omega arith) (omega arith) (Stands-tail s')
        ∙ same_decoded (omega arith) (omega arith))

  Read-2 :
      (a : ℕ)
      → a < 134217728
      → Stands buffer cursor (encode_pointer (a + 526336))
      → Read (a + 526336) (encode_pointer (a + 526336))
  Read-2 a h s =
      let s' = subst (Stands buffer cursor) (encode_pointer-2 a h) s in
      rw (encode_pointer-2 a h) (
        decode_at-control fuel base cursor 2 (a / 16777216 % 8) buffer _ (omega arith) (omega arith)
          s'
        ∙ decode_pointer-2 buffer (cursor + 1) (a / 16777216 % 8) (omega arith) (a / 65536 % 256)
            (a / 256 % 256) (a % 256) (omega arith) (omega arith) (omega arith) (Stands-tail s')
        ∙ same_decoded (omega arith) (omega arith))

  Read-3 :
      (o : ℕ)
      → 134744064 ≤ o
      → o < 2 ^ 32
      → Stands buffer cursor (encode_pointer o)
      → Read o (encode_pointer o)
  Read-3 o h w s =
      let s' = subst (Stands buffer cursor) (encode_pointer-3 o h) s in
      rw (encode_pointer-3 o h) (
        decode_at-control fuel base cursor 3 0 buffer _ (omega arith) (omega arith) s'
        ∙ decode_pointer-3 buffer (cursor + 1) (o / 16777216 % 256) (o / 65536 % 256)
            (o / 256 % 256) (o / 1 % 256) (omega arith) (omega arith) (omega arith) (omega arith)
            (Stands-tail s')
        ∙ same_decoded (omega arith) (omega arith))

  -- The offset behind the smaller sizes, moved back.
  Read-below :
      (n o : ℕ)
      → n ≤ o
      → ((a : ℕ) → a + n ≡ o → Read o (encode_pointer o))
      → Read o (encode_pointer o)
  Read-below n o le f = f (o - n) (omega arith)

  pub decode_at-Stands :
      (o : ℕ) → o < 2 ^ 32 → Stands buffer cursor (encode_pointer o) → Read o (encode_pointer o)
  decode_at-Stands o w s = elim (dec_lt o 2048) [
    | yes h ↦ Read-0 o h s
    | no h ↦ elim (dec_lt o 526336) [
      | yes k ↦ Read-below 2048 o (omega arith) (λ a e.
          subst (λ x. Stands buffer cursor (encode_pointer x) → Read x (encode_pointer x)) e
            (Read-1 a (omega arith)) s)
      | no k ↦ elim (dec_lt o 134744064) [
        | yes m ↦ Read-below 526336 o (omega arith) (λ a e.
            subst (λ x. Stands buffer cursor (encode_pointer x) → Read x (encode_pointer x)) e
              (Read-2 a (omega arith)) s)
        | no m ↦ Read-3 o (omega arith) w s
      ]
    ]
  ]

-- A pointer with an offset of 32 bits, written by `encode_pointer` anywhere in a buffer, is read by
-- `decode_at` as the same pointer, and the cursor ends behind its bytes. This holds in each of the four sizes
-- that the encoder chooses.
pub decode_at-encode_pointer :
    (front rest : List ℕ) (fuel base offset : ℕ)
    → offset < 2 ^ 32
    → decode_at (suc fuel) (front ++ (encode_pointer offset ++ rest)) base (length front)
      ≡ ok (pointer offset, length front + length (encode_pointer offset))
decode_at-encode_pointer front rest fuel base offset h =
    decode_at-Stands (front ++ (encode_pointer offset ++ rest)) (length front) fuel base offset h
      (middle-Stands front (encode_pointer offset) rest)
