-- ===== src/Glob/Matching.antt =====
-- What a glob pattern means, and that the matcher answers accordingly while steps remain.
use matchy.Base.{
  ℕ, zero, suc, ◌+◌, ◌≤◌, ◌≡◌, refl, sym, ap, ◌∙◌, subst, arith, List, [], ◌∷◌, ◌++◌, length, drop,
  Bool, true, false, ◌&&◌, ◌==◌, Bool-cases, inl, inr, ◌⊎◌, append-nil, drop-append,
}
use matchy.Glob.{
  MatchMode, case_sensitive, case_insensitive, GlobSegment, literal, star, question, char_class,
  GlobPattern, starts_with, compare_loop, literal_at, class_has, is_empty, star_loop, first_char,
  after_literal, matches_impl, matches, Call, to_ascii_lowercase, max_steps,
}
use matchy.Glob.Classes.{folded, folded-normalized, ClassHas, class_has_iff}

-- The text is the literal, up to case where the mode says so.
abbrev pub Same : MatchMode → List ℕ → List ℕ → Type 0
Same mode [] [] = Unit
Same mode [] (c ∷ cs) = ⊥
Same mode (l ∷ ls) [] = ⊥
Same mode (l ∷ ls) (c ∷ cs) = (folded mode l ≡ folded mode c) × Same mode ls cs

-- The text falls into one piece for each segment.
abbrev pub Matches : MatchMode → List GlobSegment → List ℕ → Type 0
Matches mode [] text = text ≡ []
Matches mode (literal lit ∷ segs) text =
    (front : List ℕ) × (rest : List ℕ) × (text ≡ front ++ rest)
    × Same mode lit front
    × Matches mode segs rest
Matches mode (question ∷ segs) text =
    (c : ℕ) × (rest : List ℕ) × (text ≡ c ∷ rest) × Matches mode segs rest
Matches mode (char_class items negated ∷ segs) text =
    (c : ℕ) × (rest : List ℕ) × (text ≡ c ∷ rest)
    × ClassHas mode items negated c
    × Matches mode segs rest
Matches mode (star ∷ segs) text =
    (front : List ℕ) × (rest : List ℕ) × (text ≡ front ++ rest) × Matches mode segs rest

-- A literal that is found stands in front of the text that is left.
abbrev pub Front : MatchMode → List ℕ → List ℕ → List ℕ → Type 0
Front mode lit text rest = (front : List ℕ) × (text ≡ front ++ rest) × Same mode lit front

starts_with-Front :
    (lit text : List ℕ)
    → starts_with text lit ≡ true
    → Front case_sensitive lit text (drop (length lit) text)
unfolding starts_with
starts_with-Front [] text h = ([], refl, tt)
starts_with-Front (l ∷ ls) [] h = absurd (cc)
starts_with-Front (l ∷ ls) (c ∷ cs) h = elim (Bool-cases (c == l)) [
  | inl e ↦
      let (front, split, same) = starts_with-Front ls cs (rw e at h) in
      let eq : l ≡ c = ground arith in (c ∷ front, ap (λ t. c ∷ t) split, (eq, same))
  | inr n ↦ absurd (let f : false ≡ true = rw n at h in cc)
]

Front-starts_with :
    (lit front rest : List ℕ)
    → Same case_sensitive lit front
    → (starts_with (front ++ rest) lit ≡ true) × (drop (length lit) (front ++ rest) ≡ rest)
unfolding starts_with
Front-starts_with [] [] [] s = (refl, refl)
Front-starts_with [] [] (r ∷ rest) s = (refl, refl)
Front-starts_with [] (c ∷ cs) rest s = absurd s
Front-starts_with (l ∷ ls) [] rest s = absurd s
Front-starts_with (l ∷ ls) (c ∷ cs) rest (e, s) =
    let ih = Front-starts_with ls cs rest s in
    let eq : (c == l) ≡ true = ground arith in (rw eq ih.0, ih.1)

-- The comparison that ignores case, with `matched` characters matched before.
compare_loop-Front :
    (lit text : List ℕ) (matched : ℕ)
    → (compare_loop text lit matched).0 && is_empty (compare_loop text lit matched).1 ≡ true
    → (n : ℕ) × ((compare_loop text lit matched).2 ≡ matched + n)
      × Front case_insensitive lit text (drop n text)
unfolding compare_loop
compare_loop-Front [] [] matched h = (0, omega arith, ([], refl, tt))
compare_loop-Front (l ∷ ls) [] matched h = absurd (cc)
compare_loop-Front [] (c ∷ cs) matched h = (0, omega arith, ([], refl, tt))
compare_loop-Front (l ∷ ls) (c ∷ cs) matched h =
    elim (Bool-cases (to_ascii_lowercase l == to_ascii_lowercase c)) [
      | inl e ↦
          let (n, count, (front, split, same)) =
            compare_loop-Front ls cs (matched + 1) (rw e at h) in
          let eq : to_ascii_lowercase l ≡ to_ascii_lowercase c = ground arith in
          let folds : folded case_insensitive l ≡ folded case_insensitive c =
            folded-normalized case_insensitive l
            ∙ eq
            ∙ sym (folded-normalized case_insensitive c) in
          (suc n, rw e (omega arith), (c ∷ front, ap (λ t. c ∷ t) split, (folds, same)))
      | inr n ↦ absurd (let f : false ≡ true = rw n at h in cc)
    ]

lower_test :
    (l c : ℕ)
    → to_ascii_lowercase l ≡ to_ascii_lowercase c
    → (to_ascii_lowercase l == to_ascii_lowercase c) ≡ true
lower_test l c same = ground arith

Front-compare_loop :
    (lit front rest : List ℕ) (matched : ℕ)
    → Same case_insensitive lit front
    → ((compare_loop (front ++ rest) lit matched).0
          && is_empty (compare_loop (front ++ rest) lit matched).1
        ≡ true)
      × ((compare_loop (front ++ rest) lit matched).2 ≡ matched + length front)
unfolding compare_loop
Front-compare_loop [] [] [] matched s = (refl, omega arith)
Front-compare_loop [] [] (r ∷ rest) matched s = (refl, omega arith)
Front-compare_loop [] (c ∷ cs) rest matched s = absurd s
Front-compare_loop (l ∷ ls) [] rest matched s = absurd s
Front-compare_loop (l ∷ ls) (c ∷ cs) rest matched (e, s) =
    let (found, count) = Front-compare_loop ls cs rest (matched + 1) s in
    let lowers : to_ascii_lowercase l ≡ to_ascii_lowercase c =
      sym (folded-normalized case_insensitive l) ∙ e ∙ folded-normalized case_insensitive c in
    let eq : (to_ascii_lowercase l == to_ascii_lowercase c) ≡ true = lower_test l c lowers in
    (rw eq found, rw eq (omega arith))

literal_at-Front :
    (mode : MatchMode) (lit text : List ℕ)
    → (literal_at mode lit text).0 ≡ true
    → Front mode lit text (drop (literal_at mode lit text).1 text)
unfolding literal_at
literal_at-Front case_sensitive lit text h = starts_with-Front lit text h
literal_at-Front case_insensitive lit text h =
    let (n, count, front) = compare_loop-Front lit text 0 h in
    let same : n ≡ (compare_loop text lit 0).2 = omega arith in
    subst (λ k. Front case_insensitive lit text (drop k text)) same front

Front-literal_at :
    (mode : MatchMode) (lit front rest : List ℕ)
    → Same mode lit front
    → ((literal_at mode lit (front ++ rest)).0 ≡ true)
      × (drop (literal_at mode lit (front ++ rest)).1 (front ++ rest) ≡ rest)
unfolding literal_at
Front-literal_at case_sensitive lit front rest s = Front-starts_with lit front rest s
Front-literal_at case_insensitive lit front rest s =
    let (found, count) = Front-compare_loop lit front rest 0 s in
    let same : (compare_loop (front ++ rest) lit 0).2 ≡ length front = omega arith in
    (found, ap (λ k. drop k (front ++ rest)) same ∙ drop-append front rest)

cons-head : {c d : ℕ} {cs ds : List ℕ} → c ∷ cs ≡ d ∷ ds → c ≡ d
cons-head e = cc

cons-tail : {c d : ℕ} {cs ds : List ℕ} → c ∷ cs ≡ d ∷ ds → cs ≡ ds
cons-tail e = cc

-- The answer of a call is right about `P`, unless the steps have run out.
abbrev pub Decides : Type 0 → Bool × ℕ → Type 0
Decides P (true, steps) = P
Decides P (false, zero) = Unit
Decides P (false, suc steps) = ¬ P

-- A call that is right about `P` and adds no steps.
abbrev pub Right : (List ℕ → Type 0) → Call → Type 0
Right P call =
    (text : List ℕ) (steps : ℕ) → Decides (P text) (call text steps) × ((call text steps).1 ≤ steps)

Decides-iff : {P Q : Type 0} (r : Bool × ℕ) → (Q → P) → (P → Q) → Decides Q r → Decides P r
Decides-iff (true, steps) f g h = f h
Decides-iff (false, zero) f g h = tt
Decides-iff (false, suc steps) f g h = λ p. h (g p)

not-Decides : {P : Type 0} (steps : ℕ) → ¬ P → Decides P (false, steps)
not-Decides zero h = tt
not-Decides (suc steps) h = h

-- A text that starts with an accepted character, and the rest of it.
abbrev Starts : (ℕ → Bool) → (List ℕ → Type 0) → List ℕ → Type 0
Starts accepts Q text = (c : ℕ) × (rest : List ℕ) × (text ≡ c ∷ rest) × (accepts c ≡ true) × Q rest

-- A text of which some end satisfies `Q`.
abbrev Ends : (List ℕ → Type 0) → List ℕ → Type 0
Ends Q text = (front : List ℕ) × (rest : List ℕ) × (text ≡ front ++ rest) × Q rest

Ends-nil : (Q : List ℕ → Type 0) → Ends Q [] → Q []
Ends-nil Q ([], rest, e, q) = subst Q (sym e) q
Ends-nil Q (c ∷ cs, rest, e, q) = absurd (cc)

Ends-cons : (Q : List ℕ → Type 0) (c : ℕ) (cs : List ℕ) → ¬ Q (c ∷ cs) → Ends Q (c ∷ cs) → Ends Q cs
Ends-cons Q c cs miss ([], rest, e, q) = absurd (miss (subst Q (sym e) q))
Ends-cons Q c cs miss (d ∷ front, rest, e, q) = (front, rest, (cons-tail e), q)

-- One round of the loop of `*`.
star_round :
    (Q : List ℕ → Type 0) (c : ℕ) (cs : List ℕ) (steps : ℕ) (here later : Bool × ℕ)
    → Decides (Q (c ∷ cs)) here
    → here.1 ≤ steps
    → Decides (Ends Q cs) later
    → later.1 ≤ here.1
    → let r : Bool × ℕ = elim here.0 [ true ↦ (true, here.1) | false ↦ later ] in
      Decides (Ends Q (c ∷ cs)) r × (r.1 ≤ steps)
star_round Q c cs steps (true, n) later h le dl ll = (([], c ∷ cs, refl, h), le)
star_round Q c cs steps (false, zero) (true, m) h le (front, rest, e, q) ll =
    ((c ∷ front, rest, ap (λ t. c ∷ t) e, q), omega arith)
star_round Q c cs steps (false, zero) (false, zero) h le dl ll = (tt, omega arith)
star_round Q c cs steps (false, zero) (false, suc m) h le dl ll = absurd (omega arith)
star_round Q c cs steps (false, suc n) (true, m) h le (front, rest, e, q) ll =
    ((c ∷ front, rest, ap (λ t. c ∷ t) e, q), omega arith)
star_round Q c cs steps (false, suc n) (false, zero) h le dl ll = (tt, omega arith)
star_round Q c cs steps (false, suc n) (false, suc m) h le dl ll =
    ((λ e. dl (Ends-cons Q c cs h e)), omega arith)

module _ (Q : List ℕ → Type 0) (call : Call) (right : Right Q call) where
  after_literal-Right :
      (P : Type 0) (found : Bool × ℕ) (text : List ℕ) (steps : ℕ)
      → (found.0 ≡ true → Q (drop found.1 text) → P)
      → (P → (found.0 ≡ true) × Q (drop found.1 text))
      → Decides P (after_literal call found text steps)
        × ((after_literal call found text steps).1 ≤ steps)
  unfolding after_literal
  after_literal-Right P (true, n) text steps f g =
      let (d, le) = right (drop n text) steps in
      (Decides-iff (call (drop n text) steps) (f refl) (λ p. (g p).1) d, le)
  after_literal-Right P (false, n) text steps f g =
      (not-Decides steps (λ p. let (e, _) = g p in absurd (cc)), omega arith)

  first_char-hit :
      (accepts : ℕ → Bool) (c : ℕ) (cs : List ℕ) (steps : ℕ)
      → accepts c ≡ true
      → first_char accepts call (c ∷ cs) steps ≡ call cs steps
  unfolding first_char
  first_char-hit accepts c cs steps e = rw (first_char, e) refl

  first_char-miss :
      (accepts : ℕ → Bool) (c : ℕ) (cs : List ℕ) (steps : ℕ)
      → accepts c ≡ false
      → first_char accepts call (c ∷ cs) steps ≡ (false, steps)
  unfolding first_char
  first_char-miss accepts c cs steps e = rw (first_char, e) refl

  first_char-Right : (accepts : ℕ → Bool) → Right (Starts accepts Q) (first_char accepts call)
  unfolding first_char
  first_char-Right accepts [] steps =
      (not-Decides steps (λ (c, rest, e, _, _). absurd (cc)), omega arith)
  first_char-Right accepts (c ∷ cs) steps =
      let Good = λ (r : Bool × ℕ). Decides (Starts accepts Q (c ∷ cs)) r × (r.1 ≤ steps) in
      elim (Bool-cases (accepts c)) [
        | inl hit ↦
            let (d, le) = right cs steps in
            subst Good (sym (first_char-hit accepts c cs steps hit)) (
              Decides-iff (call cs steps) (λ q. (c, cs, refl, hit, q))
                  (λ (c', rest, e, _, q). subst Q (sym (cons-tail e)) q) d,
              le,
            )
        | inr miss ↦ subst Good (sym (first_char-miss accepts c cs steps miss)) (
          not-Decides steps (λ (c', rest, e, hit, q).
              let f : false ≡ true = sym miss ∙ ap accepts (cons-head e) ∙ hit in absurd (cc)),
          omega arith,
        )
      ]

  star_loop-Right : Right (Ends Q) (star_loop call)
  unfolding star_loop
  star_loop-Right [] steps =
      let (d, le) = right [] steps in
      (Decides-iff (call [] steps) (λ q. ([], [], refl, q)) (Ends-nil Q) d, le)
  star_loop-Right (c ∷ cs) steps =
      let (d, le) = right (c ∷ cs) steps in
      let (dl, ll) = star_loop-Right cs (call (c ∷ cs) steps).1 in
      star_round Q c cs steps (call (c ∷ cs) steps) (star_loop call cs (call (c ∷ cs) steps).1) d le
        dl ll

-- The matcher says yes only of texts that the pattern means, and says no only of others while steps
-- remain; it never gains steps.
pub matches_impl-Right :
    (mode : MatchMode) (segs : List GlobSegment)
    → Right (Matches mode segs) (matches_impl mode segs)
unfolding matches_impl
matches_impl-Right mode [] text zero = (tt, omega arith)
matches_impl-Right mode (seg ∷ segs) text zero = (tt, omega arith)
matches_impl-Right mode [] [] (suc n) = (refl, omega arith)
matches_impl-Right mode [] (c ∷ cs) (suc n) = (not-Decides n (λ e. absurd (cc)), omega arith)
matches_impl-Right mode (literal lit ∷ segs) text (suc n) =
    let (d, le) =
      after_literal-Right (Matches mode segs) (matches_impl mode segs)
        (matches_impl-Right mode segs) (Matches mode (literal lit ∷ segs) text)
        (literal_at mode lit text) text n
        (λ found q.
          let (front, split, same) = literal_at-Front mode lit text found in
          (front, drop (literal_at mode lit text).1 text, split, same, q))
        (λ (front, rest, e, s, q).
          let (found, at) = Front-literal_at mode lit front rest s in
          (
            ap (λ t. (literal_at mode lit t).0) e ∙ found,
            subst (Matches mode segs) (sym at ∙ ap (λ t. drop (literal_at mode lit t).1 t) (sym e))
                q,
          )) in
    (d, omega arith)
matches_impl-Right mode (question ∷ segs) text (suc n) =
    let (d, le) =
      first_char-Right (Matches mode segs) (matches_impl mode segs) (matches_impl-Right mode segs)
        (λ c. true) text n in
    (
      Decides-iff (matches_impl mode (question ∷ segs) text (suc n))
          (λ (c, rest, e, _, q). (c, rest, e, q)) (λ (c, rest, e, q). (c, rest, e, refl, q)) d,
      omega arith,
    )
matches_impl-Right mode (char_class items negated ∷ segs) text (suc n) =
    let (d, le) =
      first_char-Right (Matches mode segs) (matches_impl mode segs) (matches_impl-Right mode segs)
        (class_has mode items negated) text n in
    (
      Decides-iff (matches_impl mode (char_class items negated ∷ segs) text (suc n))
          (λ (c, rest, e, h, q). (c, rest, e, (class_has_iff mode items negated c).0 h, q))
          (λ (c, rest, e, h, q). (c, rest, e, (class_has_iff mode items negated c).1 h, q)) d,
      omega arith,
    )
matches_impl-Right mode (star ∷ []) text (suc n) =
    ((text, [], sym (append-nil text), refl), omega arith)
matches_impl-Right mode (star ∷ seg ∷ segs) text (suc n) =
    let (d, le) =
      star_loop-Right (Matches mode (seg ∷ segs)) (matches_impl mode (seg ∷ segs))
        (matches_impl-Right mode (seg ∷ segs)) text n in
    (d, omega arith)

-- A Boolean answer to `P`, which may be a wrong `false` only under `Excuse`.
abbrev pub Verdict : Type 0 → Type 0 → Bool → Type 0
Verdict P Excuse true = P
Verdict P Excuse false = (¬ P) ⊎ Excuse

Decides-Verdict : (P : Type 0) (r : Bool × ℕ) → Decides P r → Verdict P (r.1 ≡ 0) r.0
Decides-Verdict P (true, steps) h = h
Decides-Verdict P (false, zero) h = inr refl
Decides-Verdict P (false, suc steps) h = inl h

-- The steps have run out.
abbrev pub Exhausted : GlobPattern → List ℕ → Type 0
Exhausted p text = (matches_impl p.mode p.segments text max_steps).1 ≡ 0

-- The Boolean that `matches` returns is right: if it is `true` the text matches, and if it is `false` the
-- text does not match or the steps have run out.
pub matches-Verdict :
    (p : GlobPattern) (text : List ℕ)
    → Verdict (Matches p.mode p.segments text) (Exhausted p text) (matches p text)
unfolding matches
matches-Verdict p text =
    Decides-Verdict (Matches p.mode p.segments text) (matches_impl p.mode p.segments text max_steps)
      (matches_impl-Right p.mode p.segments text max_steps).0
