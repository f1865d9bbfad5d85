-- ===== src/LiteralHash/Search.antt =====
-- The search of the reader in one shard (src/literal_hash.rs, the loop of `lookup`).
use Prim.Native.Nat.{bit_and}
use native.Mathlib.Nat.{mod-lt}
use matchy.Base.{
  ℕ, zero, suc, ◌+◌, ◌-◌, ◌*◌, ◌%◌, ◌^◌, ◌≤◌, ◌<◌, ◌≡◌, refl, ap, ◌∙◌, subst, arith, ltb,
  ℕ_discrete, List, ◌⊎◌, inl, inr, length, get_elem?, Option, none, some, Result, ok, false,
}
use matchy.Base.Bits.{pow-pos}
use matchy.LiteralHash.{HashEntry}
use matchy.LiteralHash.Table.{LiteralHash, read_entry, examine, probe}
use matchy.LiteralHash.Probe.{next_slot, get_elem?_below}

-- What the loop does with the verdict on an entry.
verdict_then : Option (Option ℕ) → Result (Option ℕ) → Result (Option ℕ)
verdict_then (some answer) onward = ok answer
verdict_then none onward = onward

-- The bytes of a shard hold its entries.
abbrev pub Holds : LiteralHash → ℕ → List HashEntry → Type 0
Holds table start entries =
    (i : ℕ) (e : HashEntry)
    → get_elem? entries i ≡ some e
    → (read_entry table.buffer (table.table_start + (start + i) * 16) ≡ ok e)
      × (table.table_start + (start + i) * 16 + 16 ≤ length table.buffer)

module _ (table : LiteralHash) (hash : ℕ) (query : List ℕ) (start k : ℕ) where
  probe_round :
      (fuel i : ℕ) (entries : List HashEntry) (e : HashEntry) (v : Option (Option ℕ))
      → Holds table start entries
      → get_elem? entries ((hash + i) % 2 ^ k) ≡ some e
      → examine table hash query e ≡ ok v
      → probe (suc fuel) table hash query start (2 ^ k - 1) (start + (hash + i) % 2 ^ k)
        ≡ verdict_then v
            (probe fuel table hash query start (2 ^ k - 1) (start + (hash + (i + 1)) % 2 ^ k))
  unfolding probe verdict_then
  probe_round fuel i entries e v holds found verdict =
      let place = (hash + i) % 2 ^ k in
      let (read, room) = holds place e found in
      let fits : ltb (length table.buffer) (table.table_start + (start + place) * 16 + 16) ≡ false =
        ground arith in
      let round = λ (s : ℕ). probe fuel table hash query start (2 ^ k - 1) s in
      let back : start + place + 1 - start ≡ place + 1 = omega arith in
      let next : start + bit_and (start + place + 1 - start) (2 ^ k - 1)
          ≡ start + (hash + (i + 1)) % 2 ^ k =
        ap (λ p. start + bit_and p (2 ^ k - 1)) back ∙ ap (λ p. start + p) (next_slot k hash i) in
      rw (fits, read, verdict)
        (either v (round (start + bit_and (start + place + 1 - start) (2 ^ k - 1)))
          ∙ ap (λ s. verdict_then v (round s)) next)
    where
      either :
          (v : Option (Option ℕ)) (onward : Result (Option ℕ))
          → (elim v [ some answer ↦ ok answer | none ↦ onward ]) ≡ verdict_then v onward
      either (some answer) onward = refl
      either none onward = refl

  -- All entries on the way are passed over, or give the answer.
  pub probe_hit :
      (fuel i d pattern_id : ℕ) (entries : List HashEntry) (e : HashEntry)
      → Holds table start entries
      → i ≤ d
      → d < i + fuel
      → get_elem? entries ((hash + d) % 2 ^ k) ≡ some e
      → examine table hash query e ≡ ok (some (some pattern_id))
      → ((j : ℕ)
          → i ≤ j
          → j < d
          → (c : HashEntry) × (get_elem? entries ((hash + j) % 2 ^ k) ≡ some c)
            × ((examine table hash query c ≡ ok none)
                ⊎ (examine table hash query c ≡ ok (some (some pattern_id)))))
      → probe fuel table hash query start (2 ^ k - 1) (start + (hash + i) % 2 ^ k)
        ≡ ok (some pattern_id)
  unfolding verdict_then
  probe_hit zero i d id entries e holds low high found hit passed = absurd (omega arith)
  probe_hit (suc fuel) i d id entries e holds low high found hit passed = elim (ℕ_discrete d i) [
    | yes same ↦
        probe_round fuel i entries e (some (some id)) holds
          (subst (λ n. get_elem? entries ((hash + n) % 2 ^ k) ≡ some e) same found) hit
    | no other ↦
        let (c, at, verdict) = passed i (omega arith) (omega arith) in
        elim verdict [
          | inl nothing ↦
              probe_round fuel i entries c none holds at nothing
              ∙ probe_hit fuel (i + 1) d id entries e holds (omega arith) (omega arith) found hit
                  (λ j a b. passed j (omega arith) b)
          | inr early ↦ probe_round fuel i entries c (some (some id)) holds at early
        ]
  ]

  -- No entry gives an answer.
  pub probe_miss :
      (fuel i : ℕ) (entries : List HashEntry)
      → Holds table start entries
      → length entries ≡ 2 ^ k
      → ((j : ℕ) (c : HashEntry)
          → get_elem? entries j ≡ some c
          → (examine table hash query c ≡ ok none) ⊎ (examine table hash query c ≡ ok (some none)))
      → probe fuel table hash query start (2 ^ k - 1) (start + (hash + i) % 2 ^ k) ≡ ok none
  unfolding verdict_then
  probe_miss zero i entries holds size none_hits = unfold probe in refl
  probe_miss (suc fuel) i entries holds size none_hits =
      let place = (hash + i) % 2 ^ k in
      let below : place < length entries = rw size (mod-lt (hash + i) (pow-pos k)) in
      let (c, at) = get_elem?_below entries place below in
      elim (none_hits place c at) [
        | inl nothing ↦
            probe_round fuel i entries c none holds at nothing
            ∙ probe_miss fuel (i + 1) entries holds size none_hits
        | inr stop ↦ probe_round fuel i entries c (some none) holds at stop
      ]
