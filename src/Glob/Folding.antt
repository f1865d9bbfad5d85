-- ===== src/Glob/Folding.antt =====
-- `CaseInsensitive`: ASCII letters of the text are matched whatever their case.
use matchy.Base.{
  ℕ, zero, suc, ◌+◌, ◌<◌, ◌≤◌, ◌≡◌, refl, sym, ap, ◌∙◌, subst, arith, List, [], ◌∷◌, drop, map,
  Bool, true, false,
}
use matchy.Glob.{
  case_sensitive, case_insensitive, CharClassItem, char, range, GlobSegment, literal, star,
  question, char_class, GlobPattern, to_ascii_lowercase, literal_at, compare_loop, class_has,
  in_class, item_has, star_loop, first_char, after_literal, matches_impl, matches, Call, max_steps,
}

abbrev pub lowered : List ℕ → List ℕ
lowered = map to_ascii_lowercase

lowercase-lowercase : (c : ℕ) → to_ascii_lowercase (to_ascii_lowercase c) ≡ to_ascii_lowercase c
unfolding to_ascii_lowercase
lowercase-lowercase c = ground arith

drop-lowered : (k : ℕ) (text : List ℕ) → drop k (lowered text) ≡ lowered (drop k text)
drop-lowered zero text = refl
drop-lowered (suc k) [] = refl
drop-lowered (suc k) (c ∷ cs) = drop-lowered k cs

compare_loop-lowered :
    (text lit : List ℕ) (matched : ℕ)
    → compare_loop (lowered text) lit matched ≡ compare_loop text lit matched
unfolding compare_loop
compare_loop-lowered [] lit matched = refl
compare_loop-lowered (c ∷ cs) [] matched = refl
compare_loop-lowered (c ∷ cs) (l ∷ ls) matched =
    rw (lowercase-lowercase c, compare_loop-lowered cs ls (matched + 1)) refl

literal_at-lowered :
    (lit text : List ℕ)
    → literal_at case_insensitive lit (lowered text) ≡ literal_at case_insensitive lit text
unfolding literal_at
literal_at-lowered lit text = rw (compare_loop-lowered text lit 0) refl

item_has-lowered :
    (c : ℕ) (item : CharClassItem)
    → item_has case_insensitive (to_ascii_lowercase c) item ≡ item_has case_insensitive c item
item_has-lowered c (char d) = rw (lowercase-lowercase c) refl
item_has-lowered c (range start end) = rw (lowercase-lowercase c) refl

in_class-lowered :
    (c : ℕ) (items : List CharClassItem)
    → in_class case_insensitive (to_ascii_lowercase c) items ≡ in_class case_insensitive c items
unfolding in_class
in_class-lowered c [] = refl
in_class-lowered c (item ∷ items) = rw (item_has-lowered c item, in_class-lowered c items) refl

class_has-lowered :
    (items : List CharClassItem) (negated : Bool) (c : ℕ)
    → class_has case_insensitive items negated (to_ascii_lowercase c)
      ≡ class_has case_insensitive items negated c
class_has-lowered items negated c = rw (in_class-lowered c items) refl

-- A call that does not see the case of the text.
abbrev Blind : Call → Type 0
Blind call = (text : List ℕ) (steps : ℕ) → call (lowered text) steps ≡ call text steps

-- Two tests with the same answer, and two rounds of `*`.
pick_same :
    (b b' : Bool) (x x' y : Bool × ℕ)
    → b ≡ b'
    → x ≡ x'
    → elim b [ true ↦ x | false ↦ y ] ≡ elim b' [ true ↦ x' | false ↦ y ]
pick_same true true x x' y e f = f
pick_same true false x x' y e f = absurd (cc)
pick_same false true x x' y e f = absurd (cc)
pick_same false false x x' y e f = refl

later_same :
    (here : Bool × ℕ) (later later' : ℕ → Bool × ℕ)
    → ((n : ℕ) → later n ≡ later' n)
    → elim here.0 [ true ↦ (true, here.1) | false ↦ later here.1 ]
      ≡ elim here.0 [ true ↦ (true, here.1) | false ↦ later' here.1 ]
later_same (true, n) later later' f = refl
later_same (false, n) later later' f = f n

module _ (call : Call) (blind : Blind call) where
  after_literal-Blind :
      (found : Bool × ℕ) (text : List ℕ) (steps : ℕ)
      → after_literal call found (lowered text) steps ≡ after_literal call found text steps
  unfolding after_literal
  after_literal-Blind (true, n) text steps = rw (drop-lowered n text) (blind (drop n text) steps)
  after_literal-Blind (false, n) text steps = refl

  first_char-Blind :
      (accepts : ℕ → Bool)
      → ((c : ℕ) → accepts (to_ascii_lowercase c) ≡ accepts c)
      → Blind (first_char accepts call)
  unfolding first_char
  first_char-Blind accepts same [] steps = refl
  first_char-Blind accepts same (c ∷ cs) steps =
      pick_same (accepts (to_ascii_lowercase c)) (accepts c) (call (lowered cs) steps)
        (call cs steps) (false, steps) (same c) (blind cs steps)

  star_loop-Blind : Blind (star_loop call)
  unfolding star_loop
  star_loop-Blind [] steps = blind [] steps
  star_loop-Blind (c ∷ cs) steps =
      ap
        (λ (r : Bool × ℕ). elim r.0 [
          | true ↦ (true, r.1)
          | false ↦ star_loop call (lowered cs) r.1
        ])
        (blind (c ∷ cs) steps)
      ∙ later_same (call (c ∷ cs) steps) (star_loop call (lowered cs)) (star_loop call cs)
          (star_loop-Blind cs)

pub matches_impl-Blind : (segs : List GlobSegment) → Blind (matches_impl case_insensitive segs)
unfolding matches_impl
matches_impl-Blind segs text zero = refl
matches_impl-Blind [] [] (suc n) = refl
matches_impl-Blind [] (c ∷ cs) (suc n) = refl
matches_impl-Blind (literal lit ∷ segs) text (suc n) = rw (literal_at-lowered lit text) (
    after_literal-Blind (matches_impl case_insensitive segs) (matches_impl-Blind segs)
      (literal_at case_insensitive lit text) text n)
matches_impl-Blind (question ∷ segs) text (suc n) =
    first_char-Blind (matches_impl case_insensitive segs) (matches_impl-Blind segs) (λ c. true)
      (λ c. refl) text n
matches_impl-Blind (char_class items negated ∷ segs) text (suc n) =
    first_char-Blind (matches_impl case_insensitive segs) (matches_impl-Blind segs)
      (class_has case_insensitive items negated) (class_has-lowered items negated) text n
matches_impl-Blind (star ∷ []) text (suc n) = refl
matches_impl-Blind (star ∷ seg ∷ segs) text (suc n) =
    star_loop-Blind (matches_impl case_insensitive (seg ∷ segs)) (matches_impl-Blind (seg ∷ segs))
      text n

-- A pattern with the mode `CaseInsensitive` gives a text and the text in ASCII lower case the same answer,
-- also where the steps run out.
pub matches-lowered :
    (p : GlobPattern) (text : List ℕ)
    → p.mode ≡ case_insensitive
    → matches p (lowered text) ≡ matches p text
unfolding matches
matches-lowered p text e =
    subst
      (λ m.
        (matches_impl m p.segments (lowered text) max_steps).0
        ≡ (matches_impl m p.segments text max_steps).0)
      (sym e) (ap (λ r. r.0) (matches_impl-Blind p.segments text max_steps))

-- A range whose ends are in order, and in reverse order once they are in ASCII lower case, such as `[Z-a]`,
-- holds its first character in the mode `CaseSensitive` and not in the mode `CaseInsensitive`.
pub item_has-range_start :
    (start end : ℕ)
    → start ≤ end
    → to_ascii_lowercase end < to_ascii_lowercase start
    → (item_has case_sensitive start (range start end) ≡ true)
      × (item_has case_insensitive start (range start end) ≡ false)
item_has-range_start start end le lt = ground arith
