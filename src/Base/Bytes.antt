-- ===== src/Base/Bytes.antt =====
-- Byte buffers: runs of bytes written into a buffer, and big-endian numbers.
use Prim.Native.Nat.{ℕ, zero, suc, ◌+◌, ◌*◌, ◌^◌, ◌≤◌, ◌<◌, bit_or}
use mathlib.Core.Path.{◌≡◌, refl, ◌∙◌}
use mathlib.Core.List.{List, [], ◌∷◌}
use mathlib.Core.Option.{some}
use mathlib.Core.Bool.{Bool, true, false, ◌&&◌}
use native.Mathlib.Omega.{arith}
use matchy.Base.Tests.{◌==◌}
use matchy.Base.Lists.{length, get_elem?, set, length-set, get_elem?-set_self, get_elem?-set_ne}
use matchy.Base.Bits.{shl, shl-bit_or}

-- Equality of byte strings.
abbrev pub same_bytes : List ℕ → List ℕ → Bool
same_bytes [] [] = true
same_bytes [] (d ∷ l) = false
same_bytes (c ∷ k) [] = false
same_bytes (c ∷ k) (d ∷ l) = (c == d) && same_bytes k l

pub same_bytes_refl : (s : List ℕ) → same_bytes s s ≡ true
same_bytes_refl [] = refl
same_bytes_refl (c ∷ s) = ground (arith, same_bytes_refl s)

pub same_bytes-eq : (s t : List ℕ) → same_bytes s t ≡ true → s ≡ t
same_bytes-eq [] [] h = refl
same_bytes-eq [] (d ∷ t) h = cc
same_bytes-eq (c ∷ s) [] h = cc
same_bytes-eq (c ∷ s) (d ∷ t) h = ground (arith, same_bytes-eq s t)

-- One assignment `buffer[offset + k] = b` for each byte.
unfoldable pub write_bytes : List ℕ → ℕ → List ℕ → List ℕ
write_bytes buffer offset [] = buffer
write_bytes buffer offset (b ∷ bs) = write_bytes (set buffer offset b) (offset + 1) bs

pub length-write_bytes :
    (bs buffer : List ℕ) (offset : ℕ) → length (write_bytes buffer offset bs) ≡ length buffer
unfolding write_bytes
length-write_bytes [] buffer offset = refl
length-write_bytes (b ∷ bs) buffer offset =
    length-write_bytes bs (set buffer offset b) (offset + 1) ∙ length-set buffer offset b

-- Bytes in front of the run and behind it stay.
pub write_bytes_before :
    (bs buffer : List ℕ) (offset j : ℕ)
    → j < offset
    → get_elem? (write_bytes buffer offset bs) j ≡ get_elem? buffer j
unfolding write_bytes
write_bytes_before [] buffer offset j h = refl
write_bytes_before (b ∷ bs) buffer offset j h =
    write_bytes_before bs (set buffer offset b) (offset + 1) j (omega arith)
    ∙ get_elem?-set_ne buffer offset j b (λ q. omega arith)

pub write_bytes_after :
    (bs buffer : List ℕ) (offset j : ℕ)
    → offset + length bs ≤ j
    → get_elem? (write_bytes buffer offset bs) j ≡ get_elem? buffer j
unfolding write_bytes
write_bytes_after [] buffer offset j h = refl
write_bytes_after (b ∷ bs) buffer offset j h =
    write_bytes_after bs (set buffer offset b) (offset + 1) j (omega arith)
    ∙ get_elem?-set_ne buffer offset j b (λ q. omega arith)

-- The run reads back.
pub write_bytes_at :
    (bs buffer : List ℕ) (offset k : ℕ) {b : ℕ}
    → offset + length bs ≤ length buffer
    → get_elem? bs k ≡ some b
    → get_elem? (write_bytes buffer offset bs) (offset + k) ≡ some b
unfolding write_bytes
write_bytes_at [] buffer offset k room h = ground arith
write_bytes_at (x ∷ bs) buffer offset zero {b = b} room h =
    let e : offset + 0 ≡ offset = omega arith in
    rw e (
      write_bytes_before bs (set buffer offset x) (offset + 1) offset (omega arith)
      ∙ get_elem?-set_self buffer offset x (omega arith)
      ∙ h)
write_bytes_at (x ∷ bs) buffer offset (suc k) room h =
    let e : offset + suc k ≡ offset + 1 + k = omega arith in
    rw e (
      write_bytes_at bs (set buffer offset x) (offset + 1) k
        (omega (arith, length-set buffer offset x)) h)

-- Big-endian numbers, as the shifts and ors of the source put them together.
pub be2 : (a b : ℕ) → b < 256 → bit_or (shl a 8) b ≡ a * 256 + b
be2 a b hb = shl-bit_or 8 a b hb

pub be3 :
    (a b c : ℕ)
    → b < 256
    → c < 256
    → bit_or (bit_or (shl a 16) (shl b 8)) c ≡ a * 65536 + b * 256 + c
be3 a b c hb hc =
    let high : bit_or (shl a 16) (shl b 8) ≡ (a * 256 + b) * 2 ^ 8 =
      shl-bit_or 16 a (b * 2 ^ 8) (omega arith) ∙ omega arith in
    rw high (shl-bit_or 8 (a * 256 + b) c hc ∙ omega arith)

pub be4 :
    (a b c d : ℕ)
    → b < 256
    → c < 256
    → d < 256
    → bit_or (bit_or (bit_or (shl a 24) (shl b 16)) (shl c 8)) d
      ≡ a * 16777216 + b * 65536 + c * 256 + d
be4 a b c d hb hc hd =
    let high : bit_or (shl a 24) (shl b 16) ≡ (a * 256 + b) * 2 ^ 16 =
      shl-bit_or 24 a (b * 2 ^ 16) (omega arith) ∙ omega arith in
    let middle : bit_or ((a * 256 + b) * 2 ^ 16) (shl c 8) ≡ ((a * 256 + b) * 256 + c) * 2 ^ 8 =
      shl-bit_or 16 (a * 256 + b) (c * 2 ^ 8) (omega arith) ∙ omega arith in
    rw (high, middle) (shl-bit_or 8 ((a * 256 + b) * 256 + c) d hd ∙ omega arith)

-- Four 16-bit parts.
pub be4_wide :
    (a b c d : ℕ)
    → b < 2 ^ 16
    → c < 2 ^ 16
    → d < 2 ^ 16
    → bit_or (bit_or (bit_or (shl a 48) (shl b 32)) (shl c 16)) d
      ≡ a * 2 ^ 48 + b * 2 ^ 32 + c * 2 ^ 16 + d
be4_wide a b c d hb hc hd =
    let high : bit_or (shl a 48) (shl b 32) ≡ (a * 2 ^ 16 + b) * 2 ^ 32 =
      shl-bit_or 48 a (b * 2 ^ 32) (omega arith) ∙ omega arith in
    let middle : bit_or ((a * 2 ^ 16 + b) * 2 ^ 32) (shl c 16)
        ≡ ((a * 2 ^ 16 + b) * 2 ^ 16 + c) * 2 ^ 16 =
      shl-bit_or 32 (a * 2 ^ 16 + b) (c * 2 ^ 16) (omega arith) ∙ omega arith in
    rw (high, middle) (shl-bit_or 16 ((a * 2 ^ 16 + b) * 2 ^ 16 + c) d hd ∙ omega arith)
