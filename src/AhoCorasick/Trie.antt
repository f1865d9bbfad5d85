-- ===== src/AhoCorasick/Trie.antt =====
-- The trie of the builder (src/ac_offset.rs): the state of a word. Words are written backwards, the
-- last byte first, so that a suffix is a `take`.
use matchy.Base.{
  ℕ, zero, suc, ◌≤◌, ◌≡◌, ◌≢◌, refl, sym, ap, ◌∙◌, subst, arith, ◌==◌, List, [], ◌∷◌, inl, inr,
  Bool-cases, Option-cases, length, get_elem?, take, Option, none, some,
}
use matchy.Base.Orders.{Member, here, later}
use matchy.AhoCorasick.{BuilderState, get_transition}

abbrev pub bind {ℓ κ} : {A : Type ℓ} {B : Type κ} → Option A → (A → Option B) → Option B
bind none f = none
bind (some a) f = f a

-- The transition of a state by its id.
unfoldable pub step : List BuilderState → ℕ → ℕ → Option ℕ
step states s ch = bind (get_elem? states s) (λ st. get_transition ch st.transitions)

-- The state of a word, from the root on.
unfoldable pub goto : List BuilderState → List ℕ → Option ℕ
goto states [] = some 0
goto states (ch ∷ w) = bind (goto states w) (λ s. step states s ch)

-- The state of the longest suffix of a word that has at most `n` bytes and is in the trie.
unfoldable pub best : List BuilderState → ℕ → List ℕ → ℕ
best states zero w = 0
best states (suc n) w =
    let shorter = best states n w in
    elim (goto states (take (suc n) w)) [ some t ↦ t | none ↦ shorter ]

-- Each state but the root has one word: `labels` has it at the id of the state.
pub record IsTrie (states : List BuilderState) (labels : List (List ℕ)) : Type 0 where
  pub sizes : length labels ≡ length states
  pub root : get_elem? labels 0 ≡ some []
  pub only_root : (t : ℕ) → get_elem? labels t ≡ some [] → t ≡ 0
  pub down :
      (s ch t : ℕ) (w : List ℕ)
      → get_elem? labels s ≡ some w
      → step states s ch ≡ some t
      → get_elem? labels t ≡ some (ch ∷ w)
  pub up :
      (t ch : ℕ) (w : List ℕ)
      → get_elem? labels t ≡ some (ch ∷ w)
      → (s : ℕ) × (get_elem? labels s ≡ some w) × (step states s ch ≡ some t)
  pub listed :
      (s : ℕ) (st : BuilderState) (ch t : ℕ)
      → get_elem? states s ≡ some st
      → Member (ch, t) st.transitions
      → get_transition ch st.transitions ≡ some t

pub Member-get_transition :
    (ch t : ℕ) (ts : List (ℕ × ℕ)) → get_transition ch ts ≡ some t → Member (ch, t) ts
unfolding get_transition
Member-get_transition ch t [] found = absurd (cc)
Member-get_transition ch t ((c, u) ∷ ts) found = elim (Bool-cases (c == ch)) [
  | inl same ↦
      let e : some u ≡ some t = rw same at found in
      let equal : c ≡ ch = ground arith in let this : u ≡ t = cc in rw (equal, this) here
  | inr other ↦ later (Member-get_transition ch t ts (rw other at found))
]

module _ (states : List BuilderState) (labels : List (List ℕ)) (trie : IsTrie states labels) where
  pub label-goto : (w : List ℕ) (t : ℕ) → goto states w ≡ some t → get_elem? labels t ≡ some w
  unfolding goto
  label-goto [] t found =
      let this : 0 ≡ t = cc in subst (λ n. get_elem? labels n ≡ some []) this trie.root
  label-goto (ch ∷ w) t found = elim (Option-cases (goto states w)) [
    | inl nothing ↦ let contrary = rw nothing at found in absurd (cc)
    | inr (s, before) ↦ trie.down s ch t w (label-goto w s before) (rw before at found)
  ]

  pub goto-label : (w : List ℕ) (t : ℕ) → get_elem? labels t ≡ some w → goto states w ≡ some t
  unfolding goto
  goto-label [] t found = ap some (sym (trie.only_root t found))
  goto-label (ch ∷ w) t found =
      let (s, before, last) = trie.up t ch w found in rw (goto-label w s before) last

  -- A state that is not the word's root is not the root.
  pub goto-ne-zero : (ch : ℕ) (w : List ℕ) (t : ℕ) → goto states (ch ∷ w) ≡ some t → t ≢ 0
  goto-ne-zero ch w t found zero_state =
      let there = label-goto (ch ∷ w) t found in
      let root = trie.root in
      let here : get_elem? labels 0 ≡ some (ch ∷ w) =
        subst (λ n. get_elem? labels n ≡ some (ch ∷ w)) zero_state there in
      let clash : some [] ≡ some (ch ∷ w) = sym root ∙ here in absurd (cc)

-- The last byte of a word.
pub goto-cons :
    (states : List BuilderState) (ch t : ℕ) (w : List ℕ)
    → goto states (ch ∷ w) ≡ some t
    → (s : ℕ) × (goto states w ≡ some s) × (step states s ch ≡ some t)
unfolding goto
goto-cons states ch t w found = elim (Option-cases (goto states w)) [
  | inl nothing ↦ let contrary = rw nothing at found in absurd (cc)
  | inr (s, before) ↦ (s, before, rw before at found)
]

-- `best`, one length at a time.
pub best-found :
    (states : List BuilderState) (n t : ℕ) (w : List ℕ)
    → goto states (take (suc n) w) ≡ some t
    → best states (suc n) w ≡ t
unfolding best
best-found states n t w found = rw (best, found) refl

pub best-none :
    (states : List BuilderState) (n : ℕ) (w : List ℕ)
    → goto states (take (suc n) w) ≡ none
    → best states (suc n) w ≡ best states n w
unfolding best
best-none states n w nothing = rw (best, nothing) refl

pub take-take {ℓ} : {A : Type ℓ} (n m : ℕ) (w : List A) → n ≤ m → take n (take m w) ≡ take n w
take-take zero m w less = refl
take-take (suc n) zero w less = absurd (omega arith)
take-take (suc n) (suc m) [] less = refl
take-take (suc n) (suc m) (x ∷ w) less = ap (λ t. x ∷ t) (take-take n m w (omega arith))

pub best-take :
    (states : List BuilderState) (n m : ℕ) (w : List ℕ)
    → n ≤ m
    → best states n (take m w) ≡ best states n w
best-take states zero m w less = unfold best in refl
best-take states (suc n) m w less =
    let same = take-take (suc n) m w less in
    let ih = best-take states n m w (omega arith) in
    elim (Option-cases (goto states (take (suc n) w))) [
      | inl nothing ↦
          best-none states n (take m w) (ap (goto states) same ∙ nothing)
          ∙ ih
          ∙ sym (best-none states n w nothing)
      | inr (t, found) ↦
          best-found states n t (take m w) (ap (goto states) same ∙ found)
          ∙ sym (best-found states n t w found)
    ]

pub take_all {ℓ} : {A : Type ℓ} (w : List A) → take (length w) w ≡ w
take_all [] = refl
take_all (x ∷ w) = ap (λ t. x ∷ t) (take_all w)
