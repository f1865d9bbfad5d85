-- ===== src/AhoCorasick/Sections/AllStates.antt =====
-- All states of the buffer (src/ac_offset.rs), one after the other.
use matchy.Base.{
  ℕ, zero, suc, ◌+◌, ◌*◌, ◌^◌, ◌<◌, ◌≡◌, refl, ◌∙◌, subst, arith, List, [], ◌∷◌, length, get_elem?,
  some, ok, ◌>>=◌,
}
use matchy.AhoCorasick.{BuilderState, Host}
use matchy.AhoCorasick.Levels.{Walks}
use matchy.AhoCorasick.Serialize.{Writer, write_state, write_states}
use matchy.AhoCorasick.Placing.{next_writer}
use matchy.AhoCorasick.Sections.{Room, Placed, Fit}
use matchy.AhoCorasick.Sections.OneState.{
  state-runs, state-Room, after_size, state-Placed, Placed-kept,
}

module _ (E D P : ℕ) (host : Host) (walks : Walks host) (count : ℕ) where
  pub write_states-Placed :
      (states : List BuilderState) (i : ℕ) (w : Writer)
      → Room E D P i states w
      → ((j : ℕ) (st : BuilderState) → get_elem? states j ≡ some st → Fit count st)
      → count * 16 < 2 ^ 32
      → (last : Writer) × (write_states host count states i w ≡ ok last)
        × (length last.buffer ≡ length w.buffer)
        × ((j : ℕ) (st : BuilderState)
            → get_elem? states j ≡ some st
            → Placed E D P host (i + length states) last (i + j) st)
        × ((j : ℕ) (old : BuilderState)
            → Placed E D P host i w j old
            → Placed E D P host (i + length states) last j old)
  write_states-Placed [] i w room fit many =
      let same : i ≡ i + 0 = omega arith in
      (
        w,
        unfold write_states in refl,
        refl,
        λ j st found. absurd (cc),
        λ j old pl. subst (λ n. Placed E D P host n w j old) same pl,
      )
  write_states-Placed (st ∷ states) i w room fit many =
      let mine = fit 0 st refl in
      let runs = state-runs E D P host walks count i st states w room mine many in
      let room' = state-Room E D P host walks count i st states w room mine many in
      let w' = next_writer host i st w in
      let (last, rest, size, placed, stays) =
        write_states-Placed states (i + 1) w' room' (λ j s found. fit (suc j) s found) many in
      let same : i + 1 + length states ≡ i + suc (length states) = omega arith in
      (
        last,
        on runs rest,
        size ∙ after_size E D P host walks count i st states w room mine many,
        λ j s found.
            at_index j s found same placed
              (stays i st (state-Placed E D P host walks count i st states w room mine many)),
        λ j old pl.
            subst (λ n. Placed E D P host n last j old) same
              (stays j old
                (Placed-kept E D P host walks count i st states w room mine many j old pl)),
      )
    where
      on :
          {w' last : Writer}
          → write_state host count i st w ≡ ok w'
          → write_states host count states (i + 1) w' ≡ ok last
          → write_states host count (st ∷ states) i w ≡ ok last
      on {w'} {last} runs rest = unfold write_states in rw (runs, ◌>>=◌) rest

      at_index :
          {last : Writer}
          → (j : ℕ) (s : BuilderState) → get_elem? (st ∷ states) j ≡ some s
          → i + 1 + length states ≡ i + suc (length states)
          → ((k : ℕ) (s : BuilderState)
              → get_elem? states k ≡ some s
              → Placed E D P host (i + 1 + length states) last (i + 1 + k) s)
          → Placed E D P host (i + 1 + length states) last i st
          → Placed E D P host (i + suc (length states)) last (i + j) s
      at_index {last} zero s found same placed first =
          let this : st ≡ s = cc in
          let e : i ≡ i + 0 = omega arith in
          subst (λ n. Placed E D P host n last (i + 0) s) same
            (subst (λ n. Placed E D P host (i + 1 + length states) last n s) e
              (subst (λ x. Placed E D P host (i + 1 + length states) last i x) this first))
      at_index {last} (suc k) s found same placed first =
          let e : i + 1 + k ≡ i + suc k = omega arith in
          subst (λ n. Placed E D P host n last (i + suc k) s) same
            (subst (λ n. Placed E D P host (i + 1 + length states) last n s) e (placed k s found))
