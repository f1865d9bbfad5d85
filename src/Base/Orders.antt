-- ===== src/Base/Orders.antt =====
-- Membership and the order of a list, with the place kept.
use Prim.Native.Nat.{suc}
use mathlib.Core.Path.{◌≡◌, refl, sym, ap, ◌∙◌, subst}
use mathlib.Core.Logic.{◌⊎◌, inl, inr}
use mathlib.Core.List.{List, [], ◌∷◌, ◌++◌}
use matchy.Base.Lists.{length}

pub data Member {ℓ} {A : Type ℓ} (a : A) : List A → Type ℓ where
  here : {xs : List A} → Member a (a ∷ xs)
  later : {x : A} {xs : List A} → Member a xs → Member a (x ∷ xs)

-- The same elements, as often, in another order.
pub data Rearranges {ℓ} {A : Type ℓ} : List A → List A → Type ℓ where
  nothing : Rearranges [] []
  behind : (x : A) {xs ys : List A} → Rearranges xs ys → Rearranges (x ∷ xs) (x ∷ ys)
  swapped : (x y : A) (xs : List A) → Rearranges (x ∷ y ∷ xs) (y ∷ x ∷ xs)
  then_on : {xs ys zs : List A} → Rearranges xs ys → Rearranges ys zs → Rearranges xs zs

module _ {ℓ} {A : Type ℓ} where
  pub Rearranges_refl : (xs : List A) → Rearranges xs xs
  Rearranges_refl [] = nothing
  Rearranges_refl (x ∷ xs) = behind x (Rearranges_refl xs)

  pub Rearranges_sym : {xs ys : List A} → Rearranges xs ys → Rearranges ys xs
  Rearranges_sym nothing = nothing
  Rearranges_sym (behind x r) = behind x (Rearranges_sym r)
  Rearranges_sym (swapped x y xs) = swapped y x xs
  Rearranges_sym (then_on r s) = then_on (Rearranges_sym s) (Rearranges_sym r)

  pub length-Rearranges : {xs ys : List A} → Rearranges xs ys → length xs ≡ length ys
  length-Rearranges nothing = refl
  length-Rearranges (behind x r) = ap suc (length-Rearranges r)
  length-Rearranges (swapped x y xs) = refl
  length-Rearranges (then_on r s) = length-Rearranges r ∙ length-Rearranges s

  pub Member-Rearranges : {a : A} {xs ys : List A} → Rearranges xs ys → Member a xs → Member a ys
  Member-Rearranges nothing m = m
  Member-Rearranges (behind x r) here = here
  Member-Rearranges (behind x r) (later m) = later (Member-Rearranges r m)
  Member-Rearranges (swapped x y xs) here = later here
  Member-Rearranges (swapped x y xs) (later here) = here
  Member-Rearranges (swapped x y xs) (later (later m)) = later (later m)
  Member-Rearranges (then_on r s) m = Member-Rearranges s (Member-Rearranges r m)

  pub Member-cases : {a x : A} {xs : List A} → Member a (x ∷ xs) → (a ≡ x) ⊎ Member a xs
  Member-cases here = inl refl
  Member-cases (later m) = inr m

  pub Member-append_left : {a : A} {xs : List A} (ys : List A) → Member a xs → Member a (xs ++ ys)
  Member-append_left ys here = here
  Member-append_left ys (later m) = later (Member-append_left ys m)

  pub Member-append_right : {a : A} (xs : List A) {ys : List A} → Member a ys → Member a (xs ++ ys)
  Member-append_right [] m = m
  Member-append_right (x ∷ xs) m = later (Member-append_right xs m)

  pub Member-append : {a : A} (xs ys : List A) → Member a (xs ++ ys) → Member a xs ⊎ Member a ys
  Member-append [] ys m = inr m
  Member-append (x ∷ xs) ys m = elim (Member-cases m) [
    | inl same ↦ inl (subst (λ c. Member c (x ∷ xs)) (sym same) here)
    | inr old ↦ elim (Member-append xs ys old) [
      | inl front ↦ inl (later front)
      | inr rest ↦ inr rest
    ]
  ]
