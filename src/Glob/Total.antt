-- ===== src/Glob/Total.antt =====
-- Parsing ends, with segments or with `InvalidPattern`; and what holds of the tokens that it reads.
use matchy.Base.{
  ℕ, suc, ◌≤◌, ◌<◌, ◌≡◌, refl, arith, ltb, ◌==◌, if◌then◌else◌, List, [], ◌∷◌, ◌++◌, length, Option,
  none, some, Bool, true, false, not, ◌&&◌, ◌||◌, Result, ok, err, ◌>>=◌, ◌>>◌, guard,
}
use matchy.Base.Results.{
  invalid_pattern, invalid_format, other, panic, out_of_fuel, resource_limit, metadata_not_found,
  invalid_metadata,
}
use matchy.Glob.{CharClassItem, char, range, GlobSegment, literal, star, question, char_class}
use matchy.Glob.Parse.{
  is_some, no_items, push_prev, range_goes_on, ClassStep, finished, goes_on, failed, complete_range,
  class_step, class_loop, negation, Token, segment, plain, class_token, escaped_token, next_token,
  close_char, dash_char, star_char, question_char, open_char, escape_char, bang_char, caret_char,
}

-- The value satisfies `P`, or the error is `InvalidPattern`: no panic, and enough fuel.
abbrev pub Sane : {A : Type 0} → (A → Type 0) → Result A → Type 0
Sane P (ok a) = P a
Sane P (err invalid_pattern) = Unit
Sane P (err invalid_format) = ⊥
Sane P (err other) = ⊥
Sane P (err panic) = ⊥
Sane P (err out_of_fuel) = ⊥
Sane P (err resource_limit) = ⊥
Sane P (err metadata_not_found) = ⊥
Sane P (err invalid_metadata) = ⊥

pub Sane->>= :
    {A B : Type 0} (P : A → Type 0) (Q : B → Type 0) (m : Result A) (f : A → Result B)
    → Sane P m
    → ((a : A) → P a → Sane Q (f a))
    → Sane Q (m >>= f)
Sane->>= P Q (ok a) f h g = g a h
Sane->>= P Q (err invalid_pattern) f h g = tt
Sane->>= P Q (err invalid_format) f h g = absurd h
Sane->>= P Q (err other) f h g = absurd h
Sane->>= P Q (err panic) f h g = absurd h
Sane->>= P Q (err out_of_fuel) f h g = absurd h
Sane->>= P Q (err resource_limit) f h g = absurd h
Sane->>= P Q (err metadata_not_found) f h g = absurd h
Sane->>= P Q (err invalid_metadata) f h g = absurd h

-- A property of both branches of a test.
if_both :
    {A : Type 0} (P : A → Type 0) (b : Bool) (x y : A)
    → (b ≡ true → P x)
    → (b ≡ false → P y)
    → P (if b then x else y)
if_both P true x y f g = f refl
if_both P false x y f g = g refl

-- Ranges run upwards.
abbrev pub Ordered : CharClassItem → Type 0
Ordered (char c) = Unit
Ordered (range start end) = start ≤ end

abbrev pub AllOrdered : List CharClassItem → Type 0
AllOrdered [] = Unit
AllOrdered (item ∷ items) = Ordered item × AllOrdered items

AllOrdered-append :
    (items : List CharClassItem) (item : CharClassItem)
    → AllOrdered items
    → Ordered item
    → AllOrdered (items ++ item ∷ [])
AllOrdered-append [] item h o = (o, tt)
AllOrdered-append (i ∷ items) item h o = (h.0, AllOrdered-append items item h.1 o)

push_prev-AllOrdered :
    (items : List CharClassItem) (prev : Option ℕ)
    → AllOrdered items
    → AllOrdered (push_prev items prev)
push_prev-AllOrdered items none h = h
push_prev-AllOrdered items (some c) h = AllOrdered-append items (char c) h tt

-- The end of a range is expected only after its start.
abbrev Expects : Option ℕ → Bool → Type 0
Expects prev true = is_some prev ≡ true
Expects prev false = Unit

abbrev GoodStep : ClassStep → Type 0
GoodStep (finished items) = AllOrdered items
GoodStep (goes_on items prev expect) = AllOrdered items × Expects prev expect
GoodStep (failed e) = e ≡ invalid_pattern

complete_range-GoodStep :
    (items : List CharClassItem) (prev : Option ℕ) (end : ℕ)
    → AllOrdered items
    → is_some prev ≡ true
    → GoodStep (complete_range items prev end)
unfolding complete_range
complete_range-GoodStep items none end h e = absurd (cc)
complete_range-GoodStep items (some start) end h e =
    if_both GoodStep (ltb end start) (failed invalid_pattern)
      (goes_on (items ++ range start end ∷ []) none false) (λ lt. refl)
      (λ ge. (AllOrdered-append items (range start end) h (ground arith), tt))

and-right : (a b c : Bool) → (a && b && c) ≡ true → b ≡ true
and-right a true c h = refl
and-right true false c h = absurd (cc)
and-right false false c h = absurd (cc)

class_step-GoodStep :
    (c : ℕ) (cs : List ℕ) (items : List CharClassItem) (prev : Option ℕ) (expect : Bool)
    → AllOrdered items
    → Expects prev expect
    → GoodStep (class_step c cs items prev expect)
unfolding class_step
class_step-GoodStep c cs items prev expect h x =
    if_both GoodStep (c == close_char && (not (no_items items) || is_some prev))
      (finished (push_prev items prev)) _ (λ _. push_prev-AllOrdered items prev h)
      (λ _.
        if_both GoodStep (c == dash_char && is_some prev && range_goes_on cs)
          (goes_on items prev true) _
          (λ e. (h, and-right (c == dash_char) (is_some prev) (range_goes_on cs) e))
          (λ _. last expect x))
  where
    last :
        (expect : Bool)
        → Expects prev expect
        → GoodStep (
            if expect
            then complete_range items prev c
            else goes_on (push_prev items prev) (some c) false)
    last true x = complete_range-GoodStep items prev c h x
    last false x = (push_prev-AllOrdered items prev h, tt)

-- The items of a class are in order, and the loop takes a character.
abbrev GoodClass : List ℕ → List CharClassItem × List ℕ → Type 0
GoodClass cs (items, rest) = AllOrdered items × (length rest < length cs)

GoodClass-shorter :
    (cs : List ℕ) (r : Result (List CharClassItem × List ℕ))
    → Sane (GoodClass cs) r
    → (c : ℕ) → Sane (GoodClass (c ∷ cs)) r
GoodClass-shorter cs (ok (items, rest)) h c = (h.0, omega arith)
GoodClass-shorter cs (err invalid_pattern) h c = tt
GoodClass-shorter cs (err invalid_format) h c = h
GoodClass-shorter cs (err other) h c = h
GoodClass-shorter cs (err panic) h c = h
GoodClass-shorter cs (err out_of_fuel) h c = h
GoodClass-shorter cs (err resource_limit) h c = h
GoodClass-shorter cs (err metadata_not_found) h c = h
GoodClass-shorter cs (err invalid_metadata) h c = h

-- What follows one step.
class_round :
    (c : ℕ) (cs : List ℕ)
    → ((items : List CharClassItem) (prev : Option ℕ) (expect : Bool)
        → AllOrdered items
        → Expects prev expect
        → Sane (GoodClass cs) (class_loop cs items prev expect))
    → (s : ClassStep) → GoodStep s
    → Sane (GoodClass (c ∷ cs)) (elim s [
      | finished items ↦ ok (items, cs)
      | goes_on items prev expect ↦ class_loop cs items prev expect
      | failed e ↦ err e
    ])
class_round c cs ih (finished items) h = (h, omega arith)
class_round c cs ih (goes_on items prev expect) (h, x) =
    GoodClass-shorter cs (class_loop cs items prev expect) (ih items prev expect h x) c
class_round c cs ih (failed invalid_pattern) h = tt
class_round c cs ih (failed invalid_format) h = absurd (cc)
class_round c cs ih (failed other) h = absurd (cc)
class_round c cs ih (failed panic) h = absurd (cc)
class_round c cs ih (failed out_of_fuel) h = absurd (cc)
class_round c cs ih (failed resource_limit) h = absurd (cc)
class_round c cs ih (failed metadata_not_found) h = absurd (cc)
class_round c cs ih (failed invalid_metadata) h = absurd (cc)

class_loop-Sane :
    (cs : List ℕ) (items : List CharClassItem) (prev : Option ℕ) (expect : Bool)
    → AllOrdered items
    → Expects prev expect
    → Sane (GoodClass cs) (class_loop cs items prev expect)
unfolding class_loop
class_loop-Sane [] items prev expect h x = tt
class_loop-Sane (c ∷ cs) items prev expect h x =
    class_round c cs (class_loop-Sane cs) (class_step c cs items prev expect)
      (class_step-GoodStep c cs items prev expect h x)

-- A segment that is not a literal, with a class that has items in order.
abbrev pub GoodSegment : GlobSegment → Type 0
GoodSegment (literal lit) = ⊥
GoodSegment star = Unit
GoodSegment question = Unit
GoodSegment (char_class items negated) = (no_items items ≡ false) × AllOrdered items

-- A token, and what is left of `n` characters.
abbrev pub GoodToken : ℕ → Token × List ℕ → Type 0
GoodToken n (segment s, rest) = GoodSegment s × (length rest ≤ n)
GoodToken n (plain c, rest) = length rest ≤ n

length-negation : (cs : List ℕ) → length (negation cs).1 ≤ length cs
unfolding negation
length-negation [] = omega arith
length-negation (c ∷ cs) =
    if_both (λ (r : Bool × List ℕ). length r.1 ≤ suc (length cs))
      (c == bang_char || c == caret_char) (true, cs) (false, c ∷ cs) (λ _. omega arith)
      (λ _. omega arith)

guarded_items :
    (cs : List ℕ) (negated : Bool) (items : List CharClassItem) (rest : List ℕ)
    → AllOrdered items
    → length rest ≤ length cs
    → Sane (GoodToken (length cs)) (
        guard (not (no_items items)) invalid_pattern
        >> ok (segment (char_class items negated), rest))
guarded_items cs negated [] rest h le = tt
guarded_items cs negated (item ∷ items) rest h le = ((refl, h), le)

class_token-Sane : (cs : List ℕ) → Sane (GoodToken (length cs)) (class_token cs)
unfolding class_token
class_token-Sane cs =
    Sane->>= (GoodClass (negation cs).1) (GoodToken (length cs))
      (class_loop (negation cs).1 [] none false) _
      (class_loop-Sane (negation cs).1 [] none false tt tt)
      (λ (items, rest) (h, lt).
        let shorter = length-negation cs in
        guarded_items cs (negation cs).0 items rest h (omega arith))

escaped_token-Sane : (cs : List ℕ) → Sane (GoodToken (length cs)) (escaped_token cs)
escaped_token-Sane [] = tt
escaped_token-Sane (c ∷ cs) = omega arith

pub next_token-Sane : (c : ℕ) (cs : List ℕ) → Sane (GoodToken (length cs)) (next_token c cs)
unfolding next_token
next_token-Sane c cs =
    let Good = Sane (GoodToken (length cs)) in
    if_both Good (c == star_char) (ok (segment star, cs)) _ (λ _. (tt, omega arith))
      (λ _.
        if_both Good (c == question_char) (ok (segment question, cs)) _ (λ _. (tt, omega arith))
          (λ _.
            if_both Good (c == open_char) (class_token cs) _ (λ _. class_token-Sane cs)
              (λ _.
                if_both Good (c == escape_char) (escaped_token cs) (ok (plain c, cs))
                  (λ _. escaped_token-Sane cs) (λ _. omega arith))))
