-- ===== src/Glob/Budget.antt =====
-- How many steps the matcher takes, and the patterns for which its budget is enough.
use matchy.Base.{
  ℕ, zero, suc, ◌+◌, ◌*◌, ◌≤◌, ◌<◌, ◌≡◌, refl, arith, List, [], ◌∷◌, length, drop, Bool, true,
  false, ◌↔◌,
}
use matchy.Glob.{
  MatchMode, GlobSegment, literal, star, question, char_class, GlobPattern, literal_at, class_has,
  star_loop, first_char, after_literal, matches_impl, matches, Call, max_steps,
}
use matchy.Glob.Matching.{Matches, Decides, matches_impl-Right}

-- An upper bound on the steps for a text of at most `n` characters: a `*` multiplies by `n + 1`.
abbrev pub cost : List GlobSegment → ℕ → ℕ
cost [] n = 1
cost (star ∷ segs) n = 1 + (n + 1) * cost segs n
cost (literal lit ∷ segs) n = 1 + cost segs n
cost (question ∷ segs) n = 1 + cost segs n
cost (char_class items negated ∷ segs) n = 1 + cost segs n

-- A call takes at most `k` steps on a text of at most `n` characters.
abbrev Within : ℕ → ℕ → Call → Type 0
Within n k call = (text : List ℕ) (steps : ℕ) → length text ≤ n → steps ≤ (call text steps).1 + k

length-drop : (k : ℕ) (xs : List ℕ) → length (drop k xs) ≤ length xs
length-drop zero xs = omega arith
length-drop (suc k) [] = omega arith
length-drop (suc k) (x ∷ xs) = omega (arith, length-drop k xs)

-- One round of `*` and the rounds after it.
star_cost :
    (steps k m : ℕ) (here later : Bool × ℕ)
    → steps ≤ here.1 + k
    → here.1 ≤ later.1 + m
    → let r : Bool × ℕ = elim here.0 [ true ↦ (true, here.1) | false ↦ later ] in
      steps ≤ r.1 + (k + m)
star_cost steps k m (true, s) later h l = omega arith
star_cost steps k m (false, s) later h l = omega arith

module _ (n k : ℕ) (call : Call) (within : Within n k call) where
  after_literal-Within :
      (found : Bool × ℕ) (text : List ℕ) (steps : ℕ)
      → length text ≤ n
      → steps ≤ (after_literal call found text steps).1 + k
  unfolding after_literal
  after_literal-Within (true, m) text steps h =
      within (drop m text) steps (omega (arith, length-drop m text))
  after_literal-Within (false, m) text steps h = omega arith

  first_char-Within : (accepts : ℕ → Bool) → Within n k (first_char accepts call)
  unfolding first_char
  first_char-Within accepts [] steps h = omega arith
  first_char-Within accepts (c ∷ cs) steps h =
      char_cost steps k (accepts c) (call cs steps) (within cs steps (omega arith))
    where
      char_cost :
          (steps k : ℕ) (b : Bool) (later : Bool × ℕ)
          → steps ≤ later.1 + k
          → let r : Bool × ℕ = elim b [ true ↦ later | false ↦ (false, steps) ] in steps ≤ r.1 + k
      char_cost steps k true later h = h
      char_cost steps k false later h = omega arith

  star_loop-Within :
      (text : List ℕ) (steps : ℕ)
      → length text ≤ n
      → steps ≤ (star_loop call text steps).1 + (length text + 1) * k
  unfolding star_loop
  star_loop-Within [] steps h = let e = within [] steps h in omega arith
  star_loop-Within (c ∷ cs) steps h =
      let here = call (c ∷ cs) steps in
      let e : (length (c ∷ cs) + 1) * k ≡ k + (length cs + 1) * k = grind arith in
      rw e (
        star_cost steps k ((length cs + 1) * k) here (star_loop call cs here.1)
          (within (c ∷ cs) steps h) (star_loop-Within cs here.1 (omega arith)))

  star-Within : Within n ((n + 1) * k) (star_loop call)
  star-Within text steps h =
      let less = star_loop-Within text steps h in
      let le : (length text + 1) * k ≤ (n + 1) * k =
        mul_mono (length text + 1) (n + 1) k (omega arith) in
      omega arith
    where
      mul_mono : (a b c : ℕ) → a ≤ b → a * c ≤ b * c
      mul_mono a b c h = grind arith

matches_impl-Within :
    (mode : MatchMode) (n : ℕ) (segs : List GlobSegment)
    → Within n (cost segs n) (matches_impl mode segs)
unfolding matches_impl
matches_impl-Within mode n segs text zero h = omega arith
matches_impl-Within mode n [] text (suc s) h = omega arith
matches_impl-Within mode n (literal lit ∷ segs) text (suc s) h = omega (
  arith,
  after_literal-Within n (cost segs n) (matches_impl mode segs) (matches_impl-Within mode n segs)
      (literal_at mode lit text) text s h,
)
matches_impl-Within mode n (question ∷ segs) text (suc s) h = omega (
  arith,
  first_char-Within n (cost segs n) (matches_impl mode segs) (matches_impl-Within mode n segs)
      (λ c. true) text s h,
)
matches_impl-Within mode n (char_class items negated ∷ segs) text (suc s) h = omega (
  arith,
  first_char-Within n (cost segs n) (matches_impl mode segs) (matches_impl-Within mode n segs)
      (class_has mode items negated) text s h,
)
matches_impl-Within mode n (star ∷ []) text (suc s) h = omega arith
matches_impl-Within mode n (star ∷ seg ∷ segs) text (suc s) h = omega (
  arith,
  star-Within n (cost (seg ∷ segs) n) (matches_impl mode (seg ∷ segs))
      (matches_impl-Within mode n (seg ∷ segs)) text s h,
)

Decides-iff_true : (P : Type 0) (r : Bool × ℕ) → 0 < r.1 → Decides P r → (r.0 ≡ true) ↔ P
Decides-iff_true P (true, steps) h d = ((λ e. d), (λ p. refl))
Decides-iff_true P (false, zero) h d = absurd (omega arith)
Decides-iff_true P (false, suc steps) h d = ((λ e. absurd (cc)), (λ p. absurd (d p)))

-- Where the bound on the steps is below the budget, `matches` returns `true` exactly for the texts that
-- the pattern means.
pub matches_iff :
    (p : GlobPattern) (text : List ℕ)
    → cost p.segments (length text) < max_steps
    → (matches p text ≡ true) ↔ Matches p.mode p.segments text
unfolding matches
matches_iff p text room =
    let taken = matches_impl-Within p.mode (length text) p.segments text max_steps (omega arith) in
    Decides-iff_true (Matches p.mode p.segments text)
      (matches_impl p.mode p.segments text max_steps) (omega arith)
      (matches_impl-Right p.mode p.segments text max_steps).0
