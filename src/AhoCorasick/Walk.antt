-- ===== src/AhoCorasick/Walk.antt =====
-- A step of the search (src/ac_offset.rs, the body of the loop of `find_with_positions_bytes`), in bytes
-- that are those of an automaton: the state of the longest suffix.
use matchy.Base.{
  length-take_le, ℕ, zero, suc, ◌*◌, ◌≤◌, ◌<◌, ◌≡◌, ◌≢◌, refl, sym, ap, ◌∙◌, arith, ◌==◌, List, [],
  ◌∷◌, ◌⊎◌, inl, inr, true, false, Option-cases, length, get_elem?, take, Option, none, some, ok,
  ◌>>=◌, ℕ_discrete,
}
use matchy.AhoCorasick.{BuilderState}
use matchy.AhoCorasick.Trie.{step, goto, best, best-found, best-none, best-take}
use matchy.AhoCorasick.Search.{
  AcAutomaton, AcNodeHot, read_node, find_transition, follow, next_node, ids_at,
}

-- The offset of a state that may be there.
abbrev pub scaled : Option ℕ → Option ℕ
scaled none = none
scaled (some t) = some (t * 16)

abbrev offset_or_root' : Option ℕ → ℕ
offset_or_root' none = 0
offset_or_root' (some t) = t

abbrev pub offset_or_root : Option ℕ → ℕ
offset_or_root none = 0
offset_or_root (some t) = t * 16

-- Bytes that have each state at sixteen times its id.
pub record Image (automaton : AcAutomaton) (states : List BuilderState) : Type 0 where
  pub some_byte : (length automaton.buffer == 0) ≡ false
  pub reads :
      (s : ℕ) (st : BuilderState)
      → get_elem? states s ≡ some st
      → (node : AcNodeHot) × (read_node automaton (s * 16) ≡ some node)
        × (node.failure_offset ≡ st.failure * 16)
  pub ids :
      (s : ℕ) (st : BuilderState)
      → get_elem? states s ≡ some st
      → ids_at automaton (s * 16) ≡ st.outputs
  pub moves :
      (s ch : ℕ) (st : BuilderState)
      → get_elem? states s ≡ some st
      → ch < 256
      → find_transition automaton (s * 16) ch ≡ ok (scaled (step states s ch))

-- States with the links of the longest suffixes.
pub record Chained (states : List BuilderState) : Type 0 where
  pub present :
      (w : List ℕ) (t : ℕ)
      → goto states w ≡ some t
      → (st : BuilderState) × (get_elem? states t ≡ some st)
  pub off_root : (ch : ℕ) (w : List ℕ) (t : ℕ) → goto states (ch ∷ w) ≡ some t → t ≢ 0
  pub link :
      (ch : ℕ) (w : List ℕ) (t : ℕ) (st : BuilderState)
      → goto states (ch ∷ w) ≡ some t
      → get_elem? states t ≡ some st
      → st.failure ≡ best states (length w) (ch ∷ w)

module _ (automaton : AcAutomaton) (states : List BuilderState) (image : Image automaton states)
    (chained : Chained states) (ch : ℕ) (octet : ch < 256) where
  pub best_present :
      (n : ℕ) (w : List ℕ) → (st : BuilderState) × (get_elem? states (best states n w) ≡ some st)
  best_present zero w = unfold best in (chained.present [] 0 (unfold goto in refl))
  best_present (suc n) w = elim (Option-cases (goto states (take (suc n) w))) [
    | inl nothing ↦
        let (st, there) = best_present n w in
        (st, ap (get_elem? states) (best-none states n w nothing) ∙ there)
    | inr (t, found) ↦
        let (st, there) = chained.present (take (suc n) w) t found in
        (st, ap (get_elem? states) (best-found states n t w found) ∙ there)
  ]

  root_moves : find_transition automaton 0 ch ≡ ok (scaled (step states 0 ch))
  root_moves =
      let (st, there) = chained.present [] 0 (unfold goto in refl) in
      image.moves 0 ch st there octet

  next-hit :
      (fuel s t : ℕ) (st : BuilderState)
      → get_elem? states s ≡ some st
      → step states s ch ≡ some t
      → next_node (suc fuel) automaton (s * 16) ch ≡ ok (t * 16)
  unfolding next_node follow
  next-hit fuel s t st there hit =
      let moved = image.moves s ch st there octet ∙ ap (λ o. ok (scaled o)) hit in
      rw (moved, ◌>>=◌) refl

  next-root :
      (fuel : ℕ) → next_node (suc fuel) automaton 0 ch ≡ ok (offset_or_root (step states 0 ch))
  unfolding next_node follow
  next-root fuel = elim (Option-cases (step states 0 ch)) [
    | inl miss ↦
        let moved = root_moves ∙ ap (λ o. ok (scaled o)) miss in
        rw (moved, ◌>>=◌, miss) (ap (λ r. r >>= λ next. ok (offset_or_root' next)) moved)
    | inr (t, hit) ↦
        let moved = root_moves ∙ ap (λ o. ok (scaled o)) hit in rw (moved, ◌>>=◌, hit) refl
  ]

  next-to_root :
      (fuel s : ℕ) (st : BuilderState)
      → get_elem? states s ≡ some st
      → s ≢ 0
      → step states s ch ≡ none
      → st.failure ≡ 0
      → next_node (suc fuel) automaton (s * 16) ch ≡ ok (offset_or_root (step states 0 ch))
  unfolding next_node follow
  next-to_root fuel s st there other miss root =
      let moved = image.moves s ch st there octet ∙ ap (λ o. ok (scaled o)) miss in
      let (node, read, fail) = image.reads s st there in
      let away : (s * 16 == 0) ≡ false = ground arith in
      let back : (node.failure_offset == 0) ≡ true = ground arith in
      elim (Option-cases (step states 0 ch)) [
        | inl miss' ↦
            let moved' = root_moves ∙ ap (λ o. ok (scaled o)) miss' in
            rw (moved, ◌>>=◌, away, read, back, moved', miss') refl
        | inr (t, hit) ↦
            let moved' = root_moves ∙ ap (λ o. ok (scaled o)) hit in
            rw (moved, ◌>>=◌, away, read, back, moved', hit) refl
      ]

  next-on :
      (fuel s : ℕ) (st behind_it : BuilderState)
      → get_elem? states s ≡ some st
      → s ≢ 0
      → step states s ch ≡ none
      → st.failure ≢ 0
      → get_elem? states st.failure ≡ some behind_it
      → next_node (suc fuel) automaton (s * 16) ch ≡ next_node fuel automaton (st.failure * 16) ch
  unfolding next_node follow
  next-on fuel s st behind_it there other miss further there' =
      let moved = image.moves s ch st there octet ∙ ap (λ o. ok (scaled o)) miss in
      let moved' = image.moves st.failure ch behind_it there' octet in
      let (node, read, fail) = image.reads s st there in
      let away : (s * 16 == 0) ≡ false = ground arith in
      let onward : (node.failure_offset == 0) ≡ false = ground arith in
      rw (moved, ◌>>=◌, away, read, onward, fail, moved') refl

  root_best : (w : List ℕ) → offset_or_root (step states 0 ch) ≡ best states 1 (ch ∷ w) * 16
  root_best w =
      let same : goto states (ch ∷ []) ≡ step states 0 ch = unfold goto in refl in
      elim (Option-cases (step states 0 ch)) [
        | inl miss ↦
            let e = best-none states 0 (ch ∷ w) (same ∙ miss) in
            let zero_best : best states 0 (ch ∷ w) ≡ 0 = unfold best in refl in
            ap offset_or_root miss ∙ sym (ap (λ n. n * 16) (e ∙ zero_best))
        | inr (t, hit) ↦
            let e = best-found states 0 t (ch ∷ w) (same ∙ hit) in
            ap offset_or_root hit ∙ sym (ap (λ n. n * 16) e)
      ]

  part_chained :
      (k s : ℕ) (w : List ℕ) (st : BuilderState)
      → suc k ≤ length w
      → goto states (take (suc k) w) ≡ some s
      → get_elem? states s ≡ some st
      → (s ≢ 0) × (st.failure ≡ best states k w)
  part_chained k s [] st less found there = absurd (omega arith)
  part_chained k s (c ∷ v) st less found there =
      let size = length-take_le k v (omega arith) in
      (
        chained.off_root c (take k v) s found,
        chained.link c (take k v) s st found there
            ∙ ap (λ n. best states n (c ∷ take k v)) size
            ∙ best-take states k (suc k) (c ∷ v) (omega arith),
      )

  -- Where the state has no transition, the search is where it would be from the link.
  missed :
      (k fuel s : ℕ) (w : List ℕ) (st : BuilderState)
      → get_elem? states s ≡ some st
      → s ≢ 0
      → st.failure ≡ best states k w
      → step states s ch ≡ none
      → next_node (suc fuel) automaton (s * 16) ch
          ≡ next_node (suc fuel) automaton (best states k w * 16) ch
        ⊎ (next_node (suc fuel) automaton (s * 16) ch
            ≡ next_node fuel automaton (best states k w * 16) ch)
  missed k fuel s w st there other link miss = elim (ℕ_discrete st.failure 0) [
    | yes root ↦ inl (
        next-to_root fuel s st there other miss root
        ∙ sym (
            ap (λ n. next_node (suc fuel) automaton (n * 16) ch) (sym link ∙ root)
            ∙ next-root fuel))
    | no further ↦
        let (behind_it, there') = best_present k w in
        inr (
          next-on fuel s st behind_it there other miss further (ap (get_elem? states) link ∙ there')
          ∙ ap (λ n. next_node fuel automaton (n * 16) ch) link)
  ]

  -- From the state of the longest suffix of a word to that of the longer word.
  pub next_node-best :
      (k : ℕ) (w : List ℕ) (fuel : ℕ)
      → k ≤ length w
      → k < fuel
      → next_node fuel automaton (best states k w * 16) ch ≡ ok (best states (suc k) (ch ∷ w) * 16)
  next_node-best k w zero less room = absurd (omega arith)
  next_node-best zero w (suc fuel) less room =
      let start : best states zero w ≡ 0 = unfold best in refl in
      ap (λ n. next_node (suc fuel) automaton (n * 16) ch) start
      ∙ next-root fuel
      ∙ ap ok (root_best w)
  next_node-best (suc k) w (suc fuel) less room =
      elim (Option-cases (goto states (take (suc k) w))) [
        | inl nothing ↦
            let longer : goto states (take (suc (suc k)) (ch ∷ w)) ≡ none =
              unfold goto in rw nothing refl in
            ap (λ n. next_node (suc fuel) automaton (n * 16) ch) (best-none states k w nothing)
            ∙ next_node-best k w (suc fuel) (omega arith) (omega arith)
            ∙ sym (ap (λ n. ok (n * 16)) (best-none states (suc k) (ch ∷ w) longer))
        | inr (s, found) ↦
            let on : goto states (take (suc (suc k)) (ch ∷ w)) ≡ step states s ch =
              unfold goto in rw found refl in
            let (st, there) = chained.present (take (suc k) w) s found in
            let (other, link) = part_chained k s w st less found there in
            ap (λ n. next_node (suc fuel) automaton (n * 16) ch) (best-found states k s w found)
            ∙ elim (Option-cases (step states s ch)) [
              | inr (t, hit) ↦
                  next-hit fuel s t st there hit
                  ∙ sym (ap (λ n. ok (n * 16)) (best-found states (suc k) t (ch ∷ w) (on ∙ hit)))
              | inl miss ↦
                  elim (missed k fuel s w st there other link miss) [
                    | inl same ↦ same ∙ next_node-best k w (suc fuel) (omega arith) (omega arith)
                    | inr same ↦ same ∙ next_node-best k w fuel (omega arith) (omega arith)
                  ]
                  ∙ sym (ap (λ n. ok (n * 16)) (best-none states (suc k) (ch ∷ w) (on ∙ miss)))
            ]
      ]
