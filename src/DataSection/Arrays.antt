-- ===== src/DataSection/Arrays.antt =====
-- Arrays of 29 elements and more: the encoder writes the bytes of the size in front of the type, the
-- decoder reads them behind it.
use matchy.Base.{
  ℕ, suc, ◌+◌, ◌-◌, ◌%◌, ◌^◌, ◌≤◌, ◌<◌, ◌≡◌, refl, subst, arith, List, ◌∷◌, ◌++◌, length, true,
  false, ltb, ◌==◌, err,
}
use matchy.Base.Results.{invalid_format}
use matchy.DataSection.{array, Items, count_items, encode_to_buffer, encode_items}
use matchy.DataSection.Decode.{decode_extended, decode_type, decode_at}
use matchy.DataSection.Buffer.{Stands, Stands-head, Stands-tail, Stands-below, middle-Stands}

encode-long :
    (vs : Items) (k : ℕ)
    → k < 256
    → count_items vs ≡ 29 + k
    → encode_to_buffer (array vs) ≡ 29 ∷ k ∷ 0x04 ∷ encode_items vs
unfolding encode_to_buffer
encode-long vs k h e =
    let large : ltb (29 + k) 29 ≡ false = ground arith in
    let small : ltb (29 + k) (29 + 256) ≡ true = ground arith in
    let less : 29 + k - 29 ≡ k = omega arith in rw (e, large, small, less) refl

decode-long :
    (buffer bs : List ℕ) (cursor fuel base k : ℕ)
    → 9 ≤ k
    → k < 256
    → Stands buffer cursor (29 ∷ k ∷ bs)
    → decode_at (suc fuel) buffer base cursor ≡ err invalid_format
unfolding decode_at decode_type decode_extended
decode-long buffer bs cursor fuel base k large small s =
    let s1 = Stands-tail s in
    let below : ltb cursor (length buffer) ≡ true = let lt = Stands-below s in ground arith in
    let below1 : ltb (cursor + 1) (length buffer) ≡ true =
      let lt = Stands-below s1 in ground arith in
    let n8 : ((7 + k) % 2 ^ 8 == 8) ≡ false = ground arith in
    let n9 : ((7 + k) % 2 ^ 8 == 9) ≡ false = ground arith in
    let n10 : ((7 + k) % 2 ^ 8 == 10) ≡ false = ground arith in
    let n11 : ((7 + k) % 2 ^ 8 == 11) ≡ false = ground arith in
    let n14 : ((7 + k) % 2 ^ 8 == 14) ≡ false = ground arith in
    let n15 : ((7 + k) % 2 ^ 8 == 15) ≡ false = ground arith in
    rw (below, Stands-head s, below1, Stands-head s1, n8, n9, n10, n11, n14, n15) refl

-- An array of 38 to 284 elements, as `encode_to_buffer` writes it, is refused by `decode_at`: the byte for
-- its size is taken for the extended type.
pub decode_at-long_array :
    (front rest : List ℕ) (fuel base k : ℕ) (vs : Items)
    → 9 ≤ k
    → k < 256
    → count_items vs ≡ 29 + k
    → decode_at (suc fuel) (front ++ (encode_to_buffer (array vs) ++ rest)) base (length front)
      ≡ err invalid_format
decode_at-long_array front rest fuel base k vs large small e =
    let bs = encode_to_buffer (array vs) in
    decode-long (front ++ (bs ++ rest)) (0x04 ∷ encode_items vs) (length front) fuel base k large
      small
      (subst (Stands (front ++ (bs ++ rest)) (length front)) (encode-long vs k small e)
        (middle-Stands front bs rest))
