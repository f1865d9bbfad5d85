-- ===== src/LiteralHash/Probe.antt =====
-- Open addressing: where the table of a shard (src/literal_hash.rs, `build_shard_auto_size`) keeps its
-- entries. The probe sequence of a hash is its home slot and the slots behind it, around the table.
use Prim.Native.Nat.{bit_and}
use native.Mathlib.Nat.{mod-lt, mod-add-mod, mod-eq_of_lt}
use matchy.Base.{
  ℕ, zero, suc, ◌+◌, ◌-◌, ◌%◌, ◌^◌, ◌≤◌, ◌<◌, ◌≡◌, refl, sym, ap, ◌∙◌, subst, arith, dec_lt,
  ℕ_discrete, List, [], ◌∷◌, ◌⊎◌, inl, inr, true, false, Bool-cases, length, get_elem?, some, ok,
}
use matchy.Base.Bits.{bit_and_mask, pow-pos}
use matchy.LiteralHash.{HashEntry, is_empty, entry_at, free_slot}

abbrev pub Full : List HashEntry → ℕ → Type 0
Full table i = (e : HashEntry) × (get_elem? table i ≡ some e) × (is_empty e ≡ false)

abbrev pub Free : List HashEntry → ℕ → Type 0
Free table i = (e : HashEntry) × (get_elem? table i ≡ some e) × (is_empty e ≡ true)

-- An entry is in its table, and no slot that a search passes before it is free.
abbrev pub Reaches : ℕ → List HashEntry → HashEntry → Type 0
Reaches capacity table e =
    (d : ℕ) × (d < capacity)
    × (get_elem? table ((e.hash + d) % capacity) ≡ some e)
    × ((j : ℕ) → j < d → Full table ((e.hash + j) % capacity))

pub get_elem?_below {ℓ} :
    {A : Type ℓ} (xs : List A) (i : ℕ) → i < length xs → (a : A) × (get_elem? xs i ≡ some a)
get_elem?_below [] i h = elim h [ ]
get_elem?_below (x ∷ xs) zero h = (x, refl)
get_elem?_below (x ∷ xs) (suc i) h = get_elem?_below xs i (omega arith)

pub Slot-cases : (table : List HashEntry) (i : ℕ) → i < length table → Free table i ⊎ Full table i
Slot-cases table i h = cases (get_elem?_below table i h)
  where
    cases : (e : HashEntry) × (get_elem? table i ≡ some e) → Free table i ⊎ Full table i
    cases (e, found) = elim (Bool-cases (is_empty e)) [
      | inl free ↦ inl (e, found, free)
      | inr full ↦ inr (e, found, full)
    ]

-- A free slot is not a full one.
pub Full-ne-Free : (table : List HashEntry) (i j : ℕ) → Full table i → Free table j → i ≡ j → ⊥
Full-ne-Free table i j (e, found, full) (d, found', free) same =
    let e₁ : some e ≡ some d = sym found ∙ ap (get_elem? table) same ∙ found' in cc

-- One round of the loop.
free_slot-Free :
    (fuel mask pos : ℕ) (table : List HashEntry)
    → Free table pos
    → free_slot (suc fuel) table mask pos ≡ ok pos
unfolding free_slot entry_at
free_slot-Free fuel mask pos table (e, found, free) = rw (entry_at, found, free) refl

free_slot-Full :
    (fuel mask pos : ℕ) (table : List HashEntry)
    → Full table pos
    → free_slot (suc fuel) table mask pos ≡ free_slot fuel table mask (bit_and (pos + 1) mask)
unfolding free_slot entry_at
free_slot-Full fuel mask pos table (e, found, full) = rw (entry_at, found, full) refl

module _ (k : ℕ) where
  -- The next slot, by the mask.
  pub next_slot : (h i : ℕ) → bit_and ((h + i) % 2 ^ k + 1) (2 ^ k - 1) ≡ (h + (i + 1)) % 2 ^ k
  next_slot h i =
      bit_and_mask k ((h + i) % 2 ^ k + 1)
      ∙ mod-add-mod (h + i) (2 ^ k) 1
      ∙ ap (λ n. n % 2 ^ k) (omega arith)

  -- Each slot is on each probe sequence.
  pub visits : (h i : ℕ) → i < 2 ^ k → (d : ℕ) × (d < 2 ^ k) × ((h + d) % 2 ^ k ≡ i)
  visits h i below =
      let p = 2 ^ k in
      let r = h % p in
      let small : r < p = mod-lt h (pow-pos k) in
      elim (dec_lt i r) [
        | yes wraps ↦
            let d : ℕ = i + p - r in
            let sum : r + d ≡ i + p = omega arith in
            (d, omega arith, sym (mod-add-mod h p d) ∙ ap (λ n. n % p) sum ∙ around i below)
        | no onward ↦
            let d : ℕ = i - r in
            let sum : r + d ≡ i = omega arith in
            (d, omega arith, sym (mod-add-mod h p d) ∙ ap (λ n. n % p) sum ∙ mod-eq_of_lt below)
      ]
    where
      around : (i : ℕ) → i < 2 ^ k → (i + 2 ^ k) % 2 ^ k ≡ i
      around i below = grind (arith, mod-eq_of_lt)

  -- The loop stops at the first free slot of the sequence.
  pub free_slot-first :
      (table : List HashEntry) (h : ℕ)
      → length table ≡ 2 ^ k
      → (fuel i d : ℕ) → i ≤ d
      → d < i + fuel
      → Free table ((h + d) % 2 ^ k)
      → (s : ℕ) × (free_slot fuel table (2 ^ k - 1) ((h + i) % 2 ^ k) ≡ ok ((h + s) % 2 ^ k))
        × (i ≤ s)
        × (s ≤ d)
        × Free table ((h + s) % 2 ^ k)
        × ((j : ℕ) → i ≤ j → j < s → Full table ((h + j) % 2 ^ k))
  free_slot-first table h len zero i d low high free = absurd (omega arith)
  free_slot-first table h len (suc fuel) i d low high free =
      let inside : (h + i) % 2 ^ k < length table = rw len (mod-lt (h + i) (pow-pos k)) in
      elim (Slot-cases table ((h + i) % 2 ^ k) inside) [
        | inl (e, found, vacant) ↦ (
          i,
          free_slot-Free fuel (2 ^ k - 1) ((h + i) % 2 ^ k) table (e, found, vacant),
          omega arith,
          omega arith,
          (e, found, vacant),
          λ j a b. absurd (omega arith),
        )
        | inr (e, found, taken) ↦ elim (ℕ_discrete i d) [
          | yes same ↦ absurd (
              Full-ne-Free table ((h + i) % 2 ^ k) ((h + d) % 2 ^ k) (e, found, taken) free
                (ap (λ n. (h + n) % 2 ^ k) same))
          | no other ↦
              let (s, result, above, below, vacant, passed) =
                free_slot-first table h len fuel (i + 1) d (omega arith) (omega arith) free in
              (
                s,
                free_slot-Full fuel (2 ^ k - 1) ((h + i) % 2 ^ k) table (e, found, taken)
                    ∙ rw (next_slot h i) result,
                omega arith,
                below,
                vacant,
                λ j a b. elim (ℕ_discrete i j) [
                  | yes this ↦ subst (λ n. Full table ((h + n) % 2 ^ k)) this (e, found, taken)
                  | no onward ↦ passed j (omega arith) b
                ],
              )
        ]
      ]
