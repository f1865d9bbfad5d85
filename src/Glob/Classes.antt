-- ===== src/Glob/Classes.antt =====
-- Which characters a class of a glob pattern means (src/glob.rs), and that the matcher tests for them.
use matchy.Base.{
  ℕ, ◌+◌, ◌≤◌, ◌≡◌, refl, arith, List, [], ◌∷◌, Bool, true, false, not, ◌||◌, dec_lt, ◌↔◌, ◌⊎◌, inl,
  inr,
}
use matchy.Glob.{
  MatchMode, case_sensitive, case_insensitive, CharClassItem, char, range, to_ascii_lowercase,
  normalized, item_has, in_class, class_has,
}

-- A character up to case: the 26 capital letters of ASCII stand for the letters 32 above them.
abbrev pub folded : MatchMode → ℕ → ℕ
folded case_sensitive c = c
folded case_insensitive c = elim (dec_lt c 65) [
  | yes below ↦ c
  | no letter ↦ elim (dec_lt 90 c) [ yes above ↦ c | no capital ↦ c + 32 ]
]

pub folded-normalized : (mode : MatchMode) (c : ℕ) → folded mode c ≡ normalized mode c
unfolding to_ascii_lowercase
folded-normalized case_sensitive c = refl
folded-normalized case_insensitive c = ground arith

-- An item holds a character, or a range with both its ends; a class holds what some item holds, and a negated
-- class what none holds.
abbrev pub ItemHas : MatchMode → ℕ → CharClassItem → Type 0
ItemHas mode c (char d) = folded mode c ≡ folded mode d
ItemHas mode c (range start end) =
    (folded mode start ≤ folded mode c) × (folded mode c ≤ folded mode end)

abbrev pub SomeItemHas : MatchMode → ℕ → List CharClassItem → Type 0
SomeItemHas mode c [] = ⊥
SomeItemHas mode c (item ∷ items) = ItemHas mode c item ⊎ SomeItemHas mode c items

abbrev pub ClassHas : MatchMode → List CharClassItem → Bool → ℕ → Type 0
ClassHas mode items false c = SomeItemHas mode c items
ClassHas mode items true c = ¬ (SomeItemHas mode c items)

-- The Boolean tests of the matcher.
item_has_iff :
    (mode : MatchMode) (c : ℕ) (item : CharClassItem)
    → (item_has mode c item ≡ true) ↔ ItemHas mode c item
item_has_iff mode c (char d) =
    rw (folded-normalized mode c, folded-normalized mode d) (ground arith)
item_has_iff mode c (range start end) =
    rw (folded-normalized mode c, folded-normalized mode start, folded-normalized mode end)
      (ground arith)

or_iff : {P Q : Type 0} (a b : Bool) → (a ≡ true) ↔ P → (b ≡ true) ↔ Q → ((a || b) ≡ true) ↔ (P ⊎ Q)
or_iff true b p q = ((λ e. inl (p.0 refl)), (λ h. refl))
or_iff false b p q =
    ((λ e. inr (q.0 e)), (λ h. elim h [ inl x ↦ absurd (let bad = p.1 x in cc) | inr y ↦ q.1 y ]))

in_class_iff :
    (mode : MatchMode) (c : ℕ) (items : List CharClassItem)
    → (in_class mode c items ≡ true) ↔ SomeItemHas mode c items
unfolding in_class
in_class_iff mode c [] = ((λ e. absurd (cc)), (λ h. absurd h))
in_class_iff mode c (item ∷ items) =
    or_iff (item_has mode c item) (in_class mode c items) (item_has_iff mode c item)
      (in_class_iff mode c items)

not_iff : {P : Type 0} (a : Bool) → (a ≡ true) ↔ P → (not a ≡ true) ↔ (¬ P)
not_iff true p = ((λ e. absurd (cc)), (λ h. absurd (h (p.0 refl))))
not_iff false p = ((λ e x. let bad = p.1 x in cc), (λ h. refl))

pub class_has_iff :
    (mode : MatchMode) (items : List CharClassItem) (negated : Bool) (c : ℕ)
    → (class_has mode items negated c ≡ true) ↔ ClassHas mode items negated c
class_has_iff mode items false c = in_class_iff mode c items
class_has_iff mode items true c = not_iff (in_class mode c items) (in_class_iff mode c items)
