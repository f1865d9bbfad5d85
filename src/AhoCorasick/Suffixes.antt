-- ===== src/AhoCorasick/Suffixes.antt =====
-- Outputs of the automaton (src/ac_offset.rs) by the suffixes of a text, and walks through the states
-- with their links.
use matchy.Base.{
  ℕ, zero, suc, ◌+◌, ◌≤◌, ◌≡◌, ◌≢◌, refl, sym, ap, ◌∙◌, arith, List, [], ◌∷◌, ◌++◌, inl, inr,
  Option-cases, length, length-take_le, get_elem?, take, none, some,
}
use matchy.Glob.{MatchMode}
use matchy.AhoCorasick.{BuilderState, Host, get_transition, pattern_bytes}
use matchy.AhoCorasick.Trie.{
  step, goto, best, IsTrie, label-goto, goto-label, best-found, best-none,
}
use matchy.AhoCorasick.Chains.{Hits, Keeps, base_state}
use matchy.AhoCorasick.Paths.{backwards, length-backwards}
use matchy.AhoCorasick.Words.{take-backwards, suffix-backwards}
use matchy.AhoCorasick.Stored.{Stored}

-- Walking through the linked states is walking through the trie.
module _ (base after : List BuilderState) (labels : List (List ℕ)) (trie : IsTrie base labels)
    (keeps : Keeps base after) where
  step_kept :
      (s c : ℕ) (st : BuilderState) → get_elem? base s ≡ some st → step after s c ≡ step base s c
  unfolding step
  step_kept s c st there =
      let (now, found, same) = keeps.kept s st there in
      rw (found, there) (ap (get_transition c) same)

  goto-cons_some :
      (states : List BuilderState) (ch s : ℕ) (w : List ℕ)
      → goto states w ≡ some s
      → goto states (ch ∷ w) ≡ step states s ch
  unfolding goto
  goto-cons_some states ch s w found = rw found refl

  goto-cons_none :
      (states : List BuilderState) (ch : ℕ) (w : List ℕ)
      → goto states w ≡ none
      → goto states (ch ∷ w) ≡ none
  unfolding goto
  goto-cons_none states ch w nothing = rw nothing refl

  pub goto_kept : (w : List ℕ) → goto after w ≡ goto base w
  goto_kept [] = unfold goto in refl
  goto_kept (ch ∷ w) = elim (Option-cases (goto base w)) [
    | inl nothing ↦
        goto-cons_none after ch w (goto_kept w ∙ nothing) ∙ sym (goto-cons_none base ch w nothing)
    | inr (s, found) ↦
        let (st, there) = base_state base labels w s trie found in
        goto-cons_some after ch s w (goto_kept w ∙ found)
        ∙ step_kept s ch st there
        ∙ sym (goto-cons_some base ch s w found)
  ]

  pub best_kept : (n : ℕ) (w : List ℕ) → best after n w ≡ best base n w
  best_kept zero w = unfold best in refl
  best_kept (suc n) w = elim (Option-cases (goto base (take (suc n) w))) [
    | inl nothing ↦
        best-none after n w (goto_kept (take (suc n) w) ∙ nothing)
        ∙ best_kept n w
        ∙ sym (best-none base n w nothing)
    | inr (t, found) ↦
        best-found after n t w (goto_kept (take (suc n) w) ∙ found)
        ∙ sym (best-found base n t w found)
  ]

-- A pattern that ends a text, which has at least one byte.
abbrev pub EndsWith : Host → MatchMode → List (List ℕ) → ℕ → List ℕ → Type 0
EndsWith host mode patterns id text =
    (p : List ℕ) × (get_elem? patterns id ≡ some p)
    × (pattern_bytes host mode p ≢ [])
    × (u : List ℕ) × (u ++ pattern_bytes host mode p ≡ text)

module _ (host : Host) (mode : MatchMode) (bound : ℕ) (base : List BuilderState)
    (patterns labels : List (List ℕ)) (stored : Stored host mode bound base patterns labels) where
  pub Hits-EndsWith :
      (id : ℕ) (text : List ℕ)
      → Hits base id (backwards text [])
      → EndsWith host mode patterns id text
  Hits-EndsWith id text (m, above, below, s, at_s, st, there, own) =
      let label = label-goto base labels stored.trie (take m (backwards text [])) s at_s in
      let (p, at_id, same) = stored.owns s st (take m (backwards text [])) id there label own in
      let size = ap length same in
      let full = length-take_le m (backwards text []) below in
      let some_byte : pattern_bytes host mode p ≢ [] = λ e.
        let none_left : length (pattern_bytes host mode p) ≡ 0 = ap length e in
        omega (arith, length-backwards (pattern_bytes host mode p) []) in
      let (u, whole) = suffix-backwards m text (pattern_bytes host mode p) same in
      (p, at_id, some_byte, u, whole)

  pub EndsWith-Hits :
      (id : ℕ) (text : List ℕ)
      → EndsWith host mode patterns id text
      → Hits base id (backwards text [])
  EndsWith-Hits id text (p, at_id, some_byte, u, same) =
      let bytes = pattern_bytes host mode p in
      let (s, label, st, there, own) = stored.has id p at_id in
      let at_s = goto-label base labels stored.trie (backwards bytes []) s label in
      let cut : take (length (backwards bytes [])) (backwards text []) ≡ backwards bytes [] =
        ap (λ x. take (length (backwards bytes [])) (backwards x [])) (sym same)
        ∙ take-backwards u bytes in
      let whole : length u + length bytes ≡ length text = sizes u bytes text same in
      (
        length (backwards bytes []),
        omega (arith, length-backwards bytes [], positive bytes some_byte),
        omega (arith, length-backwards bytes [], length-backwards text []),
        s,
        ap (goto base) cut ∙ at_s,
        st,
        there,
        own,
      )
    where
      sizes : (u v w : List ℕ) → u ++ v ≡ w → length u + length v ≡ length w
      sizes [] v w e = let same : length v ≡ length w = ap length e in omega arith
      sizes (x ∷ u) v [] e = absurd (cc)
      sizes (x ∷ u) v (y ∷ w) e = let ih = sizes u v w (cc) in omega arith

      positive : (v : List ℕ) → v ≢ [] → 1 ≤ length v
      positive [] full = absurd (full refl)
      positive (x ∷ v) full = omega arith
