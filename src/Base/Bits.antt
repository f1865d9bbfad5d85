-- ===== src/Base/Bits.antt =====
-- Shifts and bit operations of machine words, as functions of native numbers: `&` and `|` are
-- `bit_and` and `bit_or`. A mask of low ones is a remainder, and `|` of parts that share no bit is a
-- sum.
use Prim.Native.Nat.{ℕ, zero, suc, ◌+◌, ◌-◌, ◌*◌, ◌/◌, ◌%◌, ◌^◌, ◌≤◌, ◌<◌, min, max}
use Prim.Native.Nat.{bit_and, bit_or, digits, bit_and-bitwise, bit_or-bitwise}
use mathlib.Core.Path.{◌≡◌, refl, ◌∙◌}
use native.Mathlib.Nat.{pow-succ', div-div-eq-div-mul, div-add-mod', zero-add, suc-add, one-le-pow}
use native.Mathlib.Omega.{arith}

-- `x << k` where the word is wide enough for the result, and `x >> k`.
abbrev pub shl : ℕ → ℕ → ℕ
shl x k = x * 2 ^ k

abbrev pub shr : ℕ → ℕ → ℕ
shr x k = x / 2 ^ k

-- Powers of two.
pub pow-add : (j k : ℕ) → 2 ^ (j + k) ≡ 2 ^ j * 2 ^ k
pow-add zero k = rw zero-add (omega arith)
pow-add (suc j) k = rw (suc-add, pow-succ' 2 (j + k), pow-succ' 2 j, pow-add j k) (omega arith)

pub pow-pos : (k : ℕ) → 0 < 2 ^ k
pow-pos k = one-le-pow k 2 (omega arith)

-- Rounds of the digit recursion beyond the size of the number change nothing.
module _ (rest : ℕ → ℕ) (digit : ℕ → ℕ → ℕ) where
  enough_rounds : (n x y m : ℕ) → x ≤ n → x ≤ m → digits rest digit n x y ≡ digits rest digit m x y
  enough_rounds zero (suc x) y m below _ = absurd (omega arith)
  enough_rounds (suc n) (suc x) y zero _ below = absurd (omega arith)
  enough_rounds zero zero y zero _ _ = refl
  enough_rounds zero zero y (suc m) _ _ = refl
  enough_rounds (suc n) zero y zero _ _ = refl
  enough_rounds (suc n) zero y (suc m) _ _ = refl
  enough_rounds (suc n) (suc x) y (suc m) hn hm =
      let less = enough_rounds n (suc x / 2) (y / 2) m (omega arith) (omega arith) in omega arith

-- The lowest bit and the bits above it.
bit_and-halves : (x y : ℕ) → bit_and x y ≡ bit_and (x / 2) (y / 2) * 2 + min (x % 2) (y % 2)
bit_and-halves zero y =
    let none_here = bit_and-bitwise 0 y in let none_above = bit_and-bitwise 0 (y / 2) in omega arith
bit_and-halves (suc x) y =
    let whole = bit_and-bitwise (suc x) y in
    let above = bit_and-bitwise (suc x / 2) (y / 2) in
    let rounds =
      enough_rounds (λ _. 0) min x (suc x / 2) (y / 2) (suc x / 2) (omega arith) (omega arith) in
    omega arith

bit_or-halves : (x y : ℕ) → bit_or x y ≡ bit_or (x / 2) (y / 2) * 2 + max (x % 2) (y % 2)
bit_or-halves zero y =
    let all_here = bit_or-bitwise 0 y in let all_above = bit_or-bitwise 0 (y / 2) in omega arith
bit_or-halves (suc x) y =
    let whole = bit_or-bitwise (suc x) y in
    let above = bit_or-bitwise (suc x / 2) (y / 2) in
    let rounds =
      enough_rounds (λ d. d) max x (suc x / 2) (y / 2) (suc x / 2) (omega arith) (omega arith) in
    omega arith

bit_and_nothing : (n x : ℕ) → x ≤ n → bit_and x 0 ≡ 0
bit_and_nothing zero zero below = refl
bit_and_nothing (suc n) zero below = refl
bit_and_nothing zero (suc x) below = absurd (omega arith)
bit_and_nothing (suc n) (suc x) below =
    let above = bit_and_nothing n (suc x / 2) (omega arith) in
    omega (arith, bit_and-halves (suc x) 0)

bit_or_nothing : (n x : ℕ) → x ≤ n → bit_or x 0 ≡ x
bit_or_nothing zero zero below = refl
bit_or_nothing (suc n) zero below = refl
bit_or_nothing zero (suc x) below = absurd (omega arith)
bit_or_nothing (suc n) (suc x) below =
    let above = bit_or_nothing n (suc x / 2) (omega arith) in omega (arith, bit_or-halves (suc x) 0)

pub bit_or-zero : (x : ℕ) → bit_or x 0 ≡ x
bit_or-zero x = bit_or_nothing x x (omega arith)

-- `x & 1`, `x & 7`, `x & 0x0F`, `x & 0x1F`, `x & 0xFF`
pub bit_and-one : (x : ℕ) → bit_and x 1 ≡ x % 2
bit_and-one x =
    let above = bit_and_nothing (x / 2) (x / 2) (omega arith) in omega (arith, bit_and-halves x 1)

pub bit_and_three : (a : ℕ) → bit_and a 3 ≡ a % 4
bit_and_three a = omega (arith, bit_and-halves a 3, bit_and-one (a / 2))

pub bit_and_seven : (a : ℕ) → bit_and a 7 ≡ a % 8
bit_and_seven a = omega (arith, bit_and-halves a 7, bit_and_three (a / 2))

pub bit_and_0f : (a : ℕ) → bit_and a 0x0F ≡ a % 16
bit_and_0f a = omega (arith, bit_and-halves a 15, bit_and_seven (a / 2))

pub bit_and_1f : (a : ℕ) → bit_and a 0x1F ≡ a % 32
bit_and_1f a = omega (arith, bit_and-halves a 31, bit_and_0f (a / 2))

bit_and_3f : (a : ℕ) → bit_and a 63 ≡ a % 64
bit_and_3f a = omega (arith, bit_and-halves a 63, bit_and_1f (a / 2))

bit_and_7f : (a : ℕ) → bit_and a 127 ≡ a % 128
bit_and_7f a = omega (arith, bit_and-halves a 127, bit_and_3f (a / 2))

pub bit_and_ff : (a : ℕ) → bit_and a 0xFF ≡ a % 256
bit_and_ff a = omega (arith, bit_and-halves a 255, bit_and_7f (a / 2))

-- `(a << k) | b` where `b` has at most `k` bits
pub shl-bit_or : (k a b : ℕ) → b < 2 ^ k → bit_or (a * 2 ^ k) b ≡ a * 2 ^ k + b
shl-bit_or zero a b h =
    let none_left : b ≡ 0 = omega arith in rw none_left (omega (arith, bit_or-zero (a * 2 ^ 0)))
shl-bit_or (suc k) a b h =
    let e : 2 ^ suc k ≡ 2 * 2 ^ k = pow-succ' 2 k in
    let product : a * 2 ^ suc k ≡ a * 2 ^ k + a * 2 ^ k = rw e (omega arith) in
    let half : a * 2 ^ suc k / 2 ≡ a * 2 ^ k = omega arith in
    let step = rw half at (bit_or-halves (a * 2 ^ suc k) b) in
    omega (arith, step, shl-bit_or k a (b / 2) (omega arith))

-- `x & (2^k - 1)`
pub bit_and_mask : (k x : ℕ) → bit_and x (2 ^ k - 1) ≡ x % 2 ^ k
bit_and_mask zero x = bit_and_nothing x x (omega arith) ∙ omega arith
bit_and_mask (suc k) x =
    let p = 2 ^ k in
    let e : 2 ^ suc k ≡ 2 * 2 ^ k = pow-succ' 2 k in
    let positive : 0 < 2 ^ k = pow-pos k in
    let ih = bit_and_mask k (x / 2) in
    let half : (2 * p - 1) / 2 ≡ p - 1 = omega arith in
    let step = bit_and-halves x (2 * p - 1) in
    let step' : bit_and x (2 * p - 1)
        ≡ bit_and (x / 2) (p - 1) * 2 + min (x % 2) ((2 * p - 1) % 2) =
      rw half at step in
    let outer : x / (2 * p) * (2 * p) + x % (2 * p) ≡ x = div-add-mod' x (2 * p) in
    let inner : x / 2 / p * p + x / 2 % p ≡ x / 2 = div-add-mod' (x / 2) p in
    let same : x / 2 / p ≡ x / (2 * p) = div-div-eq-div-mul x 2 p in
    let inner' : x / (2 * p) * p + x / 2 % p ≡ x / 2 = rw same at inner in
    let twice : x / (2 * p) * (2 * p) ≡ 2 * (x / (2 * p) * p) = grind arith in rw e (omega arith)

pub ruleset masks = (arith, bit_and-one, bit_and_seven, bit_and_0f, bit_and_1f, bit_and_ff)
