-- ===== src/DataSection/Integers.antt =====
-- Numbers of a fixed width: what `to_be_bytes` writes is what the loops of the decoder read.
use Prim.Native.Nat.{bit_or}
use matchy.Base.{
  ℕ, zero, suc, ◌+◌, ◌*◌, ◌/◌, ◌%◌, ◌^◌, ◌≤◌, ◌<◌, ◌≡◌, sym, ap, ◌∙◌, arith, List, ok,
}
use matchy.Base.Bits.{shl-bit_or, pow-add, pow-pos}
use native.Mathlib.Nat.{div-div-eq-div-mul, div-add-mod', mod-eq_of_lt}
use matchy.DataSection.{to_be_bytes}
use matchy.DataSection.Decode.{read_be}
use matchy.DataSection.Buffer.{Stands, Stands-head, Stands-tail}

pow-256 : (n : ℕ) → 2 ^ (8 * suc n) ≡ 256 * 2 ^ (8 * n)
pow-256 n =
    let e : 8 * suc n ≡ 8 * n + 8 = omega arith in
    ap (λ k. 2 ^ k) e ∙ pow-add (8 * n) 8 ∙ omega arith

step_room : (v b p w : ℕ) → b < 256 → v * (256 * p) + 256 * p ≤ w → (v * 256 + b) * p + p ≤ w
step_room v b p w hb h = grind arith

step_fits : (v p w : ℕ) → 0 < p → v * (256 * p) + 256 * p ≤ w → v * 256 < w
step_fits v p w hp h = grind arith

-- The byte in front of the rest of the number.
join_digits : (q d p r : ℕ) → (q * 256 + d) * p + r ≡ q * (256 * p) + (d * p + r)
join_digits q d p r = grind arith

top_digit : (x p : ℕ) → x / p % 256 * p + x % p ≡ x % (256 * p)
top_digit x p =
    let q = x / p in
    let whole : q * p + x % p ≡ x = div-add-mod' x p in
    let digits : q / 256 * 256 + q % 256 ≡ q = div-add-mod' q 256 in
    let same : q / 256 ≡ x / (p * 256) = div-div-eq-div-mul x p 256 in
    let outer : x / (p * 256) * (p * 256) + x % (p * 256) ≡ x = div-add-mod' x (p * 256) in
    let swap : p * 256 ≡ 256 * p = omega arith in
    let split : q * p ≡ q / 256 * (p * 256) + q % 256 * p =
      ap (λ n. n * p) (sym digits) ∙ grind arith in
    let inner : q / 256 * (p * 256) + x % (p * 256) ≡ x = rw same outer in rw (← swap) (omega arith)

join : (v x p : ℕ) → (v * 256 + x / p % 256) * p + x % p ≡ v * (256 * p) + x % (256 * p)
join v x p = join_digits v (x / p % 256) p (x % p) ∙ ap (λ r. v * (256 * p) + r) (top_digit x p)

-- The loop that reads a big-endian number, behind the digits `v`.
pub read_be-to_be_bytes :
    (width n x v cursor : ℕ) (buffer : List ℕ)
    → v * 2 ^ (8 * n) + 2 ^ (8 * n) ≤ 2 ^ width
    → Stands buffer cursor (to_be_bytes n x)
    → read_be width n buffer cursor v ≡ ok (v * 2 ^ (8 * n) + x % 2 ^ (8 * n))
unfolding read_be
read_be-to_be_bytes width zero x v cursor buffer room s = ap ok (omega arith)
read_be-to_be_bytes width (suc n) x v cursor buffer room s =
    let p = 2 ^ (8 * n) in
    let b = x / p % 256 in
    let room' : v * (256 * p) + 256 * p ≤ 2 ^ width = rw (pow-256 n) at room in
    let less = step_fits v p (2 ^ width) (pow-pos (8 * n)) room' in
    let fits : v * 2 ^ 8 % 2 ^ width ≡ v * 2 ^ 8 = mod-eq_of_lt less in
    let pushed : bit_or (v * 2 ^ 8 % 2 ^ width) b ≡ v * 256 + b =
      rw fits (shl-bit_or 8 v b (omega arith)) in
    let ih =
      read_be-to_be_bytes width n x (v * 256 + b) (cursor + 1) buffer
        (step_room v b p (2 ^ width) (omega arith) room') (Stands-tail s) in
    rw (Stands-head s, pushed, ih, pow-256 n) (ap ok (join v x p))
