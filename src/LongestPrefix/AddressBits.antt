-- ===== src/LongestPrefix/AddressBits.antt =====
-- The bits that the reader takes from an address are those that the builder takes.
use Prim.Native.Nat.{bit_and, bit_or}
use matchy.Base.{
  ℕ, suc, ◌+◌, ◌-◌, ◌*◌, ◌/◌, ◌%◌, ◌^◌, ◌≤◌, ◌<◌, ◌≡◌, sym, ap, ◌∙◌, arith, ltb, ltb→lt, Bool-cases,
  inl, inr,
}
use native.Mathlib.Nat.{pow-succ', div-div-eq-div-mul, mul-add-div_right}
use matchy.Base.Bits.{shl, shr, bit_and-one, shl-bit_or, pow-add, pow-pos}
use matchy.Net.{bits_to_u128}
use matchy.Mmdb.Tree.{v6_bit}
use matchy.IpTree.{bit_at}

-- A bit of the upper part of `(high << w) | low`, and one of the lower part.
upper_bit : (high low w k : ℕ) → low < 2 ^ w → (high * 2 ^ w + low) / 2 ^ (w + k) ≡ high / 2 ^ k
upper_bit high low w k h =
    let pos = pow-pos w in
    let rest : (high * 2 ^ w + low) / 2 ^ w ≡ high = mul-add-div_right pos high low ∙ grind arith in
    rw (pow-add w k, ← div-div-eq-div-mul (high * 2 ^ w + low) (2 ^ w) (2 ^ k), rest)

lower_bit : (high low j k : ℕ) → (high * 2 ^ (suc j + k) + low) / 2 ^ k % 2 ≡ low / 2 ^ k % 2
lower_bit high low j k =
    let pos = pow-pos k in
    let split : high * 2 ^ (suc j + k) ≡ (high * 2 ^ j * 2) * 2 ^ k =
      rw (pow-add (suc j) k, pow-succ' 2 j) (omega arith) in
    rw (split, mul-add-div_right pos (high * 2 ^ j * 2) low) (omega arith)

-- The two halves of an IPv6 address.
pub v6_bit_lem :
    (high low d : ℕ)
    → low < 2 ^ 64
    → d < 128
    → v6_bit high low d ≡ bit_at (bits_to_u128 (high, low)) d
unfolding v6_bit bit_at bits_to_u128
v6_bit_lem high low d h lt =
    let joined : bit_or (shl high 64) low ≡ high * 2 ^ 64 + low = shl-bit_or 64 high low h in
    elim (Bool-cases (ltb d 64)) [
      | inl upper ↦
          let below : d < 64 = ltb→lt d 64 upper in
          let e : 127 - d ≡ 64 + (63 - d) = omega arith in
          rw (upper, joined, e, upper_bit high low 64 (63 - d) h)
      | inr lower ↦
          let above : 64 ≤ d = ground arith in
          let e : 2 ^ 64 ≡ 2 ^ (suc (d - 64) + (127 - d)) =
            let w : 64 ≡ suc (d - 64) + (127 - d) = omega arith in ap (λ x. 2 ^ x) w in
          rw
            (
              lower,
              joined,
              bit_and-one (low / 2 ^ (127 - d)),
              bit_and-one ((high * 2 ^ 64 + low) / 2 ^ (127 - d)),
              e,
            )
            (sym (lower_bit high low (d - 64) (127 - d)))
    ]

-- An IPv4 address at the top of the word, as a tree of 32 levels has it.
pub v4_bit_top : (bits d : ℕ) → d < 32 → bit_and (shr bits (31 - d)) 1 ≡ bit_at (shl bits 96) d
unfolding bit_at
v4_bit_top bits d lt =
    let e : 127 - d ≡ 96 + (31 - d) = omega arith in
    let top : bits * 2 ^ 96 / 2 ^ (96 + (31 - d)) ≡ bits / 2 ^ (31 - d) =
      let plus : bits * 2 ^ 96 ≡ bits * 2 ^ 96 + 0 = omega arith in
      rw plus (upper_bit bits 0 96 (31 - d) (omega arith)) in
    rw (e, top)

-- An IPv4 address in a tree of 128 levels: 96 zero bits, and then its own.
pub v4_bit_low : (bits d : ℕ) → d < 32 → bit_and (shr bits (31 - d)) 1 ≡ bit_at bits (96 + d)
unfolding bit_at
v4_bit_low bits d lt = let e : 127 - (96 + d) ≡ 31 - d = omega arith in rw e

pub v4_bit_zero : (bits d : ℕ) → bits < 2 ^ 32 → d < 96 → bit_at bits d ≡ 0
unfolding bit_at
v4_bit_zero bits d h lt =
    let e : 127 - d ≡ 32 + (95 - d) = omega arith in
    let plus : bits ≡ 0 * 2 ^ 32 + bits = omega arith in
    let none_left : bits / 2 ^ (32 + (95 - d)) ≡ 0 / 2 ^ (95 - d) =
      ap (λ x. x / 2 ^ (32 + (95 - d))) plus ∙ upper_bit 0 bits 32 (95 - d) h in
    rw (e, none_left, bit_and-one (0 / 2 ^ (95 - d))) (omega arith)
