-- ===== src/DataSection/Cycles.antt =====
-- Pointers that lead to themselves.
use matchy.Base.{ℕ, zero, suc, ◌≡◌, refl, List, ◌∷◌, length, ltb, true, arith, ok, err}
use matchy.Base.Results.{out_of_fuel}
use matchy.DataSection.{pointer}
use matchy.DataSection.Decode.{
  byte_at, decode_pointer, decode_type, decode_at, decode, resolve_pointers,
}

-- A pointer to the offset 0, at the offset 0.
abbrev pub self_pointer : List ℕ → List ℕ
self_pointer rest = 0x20 ∷ 0x00 ∷ rest

decode_at-self_pointer :
    (fuel : ℕ) (rest : List ℕ) → decode_at (suc fuel) (self_pointer rest) 0 0 ≡ ok (pointer 0, 2)
unfolding decode_at decode_type decode_pointer byte_at
decode_at-self_pointer fuel rest =
    let first : ltb 0 (length (self_pointer rest)) ≡ true = ground arith in
    let second : ltb 1 (length (self_pointer rest)) ≡ true = ground arith in rw (first, second) refl

resolve_pointers-self_pointer :
    (fuel : ℕ) (rest : List ℕ)
    → resolve_pointers fuel (self_pointer rest) 0 (pointer 0) ≡ err out_of_fuel
unfolding resolve_pointers
resolve_pointers-self_pointer zero rest = refl
resolve_pointers-self_pointer (suc zero) rest = refl
resolve_pointers-self_pointer (suc (suc fuel)) rest =
    rw (decode_at-self_pointer fuel rest) (resolve_pointers-self_pointer (suc fuel) rest)

-- `decode` does not end where a pointer leads to itself: no amount of fuel is enough for a data section
-- that starts with one, whatever follows.
pub decode-self_pointer :
    (fuel : ℕ) (rest : List ℕ) → decode fuel (self_pointer rest) 0 0 ≡ err out_of_fuel
unfolding decode
decode-self_pointer zero rest = refl
decode-self_pointer (suc zero) rest = refl
decode-self_pointer (suc (suc fuel)) rest =
    rw (decode_at-self_pointer fuel rest) (resolve_pointers-self_pointer (suc fuel) rest)
