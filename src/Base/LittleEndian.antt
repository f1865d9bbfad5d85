-- ===== src/Base/LittleEndian.antt =====
-- Little-endian numbers: `to_le_bytes` and `from_le_bytes` of the standard library.
use Prim.Native.Nat.{ℕ, zero, suc, ◌+◌, ◌*◌, ◌/◌, ◌%◌, ◌^◌, ◌<◌}
use mathlib.Core.Path.{◌≡◌, refl, ap, ◌∙◌}
use mathlib.Core.List.{List, [], ◌∷◌}
use native.Mathlib.Omega.{arith}
use matchy.Base.Lists.{length}
use matchy.Base.Bits.{pow-add}

-- `x.to_le_bytes()` of an integer of the given number of bytes
unfoldable pub to_le_bytes : ℕ → ℕ → List ℕ
to_le_bytes zero x = []
to_le_bytes (suc n) x = (x % 256) ∷ to_le_bytes n (x / 256)

unfoldable pub from_le_bytes : List ℕ → ℕ
from_le_bytes [] = 0
from_le_bytes (b ∷ bs) = b + 256 * from_le_bytes bs

pub length-to_le_bytes : (n x : ℕ) → length (to_le_bytes n x) ≡ n
unfolding to_le_bytes
length-to_le_bytes zero x = refl
length-to_le_bytes (suc n) x = ap suc (length-to_le_bytes n (x / 256))

-- The low `n` bytes come back.
pub from_le_bytes-to_le_bytes : (n x : ℕ) → x < 2 ^ (8 * n) → from_le_bytes (to_le_bytes n x) ≡ x
unfolding to_le_bytes from_le_bytes
from_le_bytes-to_le_bytes zero x small = omega arith
from_le_bytes-to_le_bytes (suc n) x small =
    let e : 8 * suc n ≡ 8 + 8 * n = omega arith in
    let split : 2 ^ (8 * suc n) ≡ 256 * 2 ^ (8 * n) = ap (λ k. 2 ^ k) e ∙ pow-add 8 (8 * n) in
    let room : x < 256 * 2 ^ (8 * n) = rw split at small in
    let ih = from_le_bytes-to_le_bytes n (x / 256) (omega arith) in omega arith
