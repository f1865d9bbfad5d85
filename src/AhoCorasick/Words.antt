-- ===== src/AhoCorasick/Words.antt =====
-- Words forwards and backwards, for the automaton of src/ac_offset.rs.
use matchy.Base.{
  take-append, ℕ, zero, suc, ◌≡◌, refl, sym, ap, ◌∙◌, List, [], ◌∷◌, ◌++◌, length, take, drop,
  append-nil, append_assoc,
}
use matchy.AhoCorasick.Paths.{backwards}

backwards-append : (a b w : List ℕ) → backwards (a ++ b) w ≡ backwards b (backwards a w)
backwards-append [] b w = refl
backwards-append (ch ∷ a) b w = backwards-append a b (ch ∷ w)

backwards_behind : (a w : List ℕ) → backwards a w ≡ backwards a [] ++ w
backwards_behind [] w = refl
backwards_behind (ch ∷ a) w =
    backwards_behind a (ch ∷ w)
    ∙ sym (append_assoc (backwards a []) (ch ∷ []) w)
    ∙ ap (λ x. x ++ w) (sym (backwards_behind a (ch ∷ [])))

backwards_twice : (a v w : List ℕ) → backwards (backwards a v) w ≡ backwards v (a ++ w)
backwards_twice [] v w = refl
backwards_twice (ch ∷ a) v w = backwards_twice a (ch ∷ v) w

pub backwards-backwards : (a : List ℕ) → backwards (backwards a []) [] ≡ a
backwards-backwards a = backwards_twice a [] [] ∙ append-nil a

-- A suffix of a word is a `take` of it backwards.
pub backwards_split : (u p : List ℕ) → backwards (u ++ p) [] ≡ backwards p [] ++ backwards u []
backwards_split u p = backwards-append u p [] ∙ backwards_behind p (backwards u [])

take-drop {ℓ} : {A : Type ℓ} (n : ℕ) (w : List A) → take n w ++ drop n w ≡ w
take-drop zero w = refl
take-drop (suc n) [] = refl
take-drop (suc n) (x ∷ w) = ap (λ t. x ∷ t) (take-drop n w)

pub take-backwards :
    (u p : List ℕ) → take (length (backwards p [])) (backwards (u ++ p) []) ≡ backwards p []
take-backwards u p =
    ap (take (length (backwards p []))) (backwards_split u p)
    ∙ take-append (backwards p []) (backwards u [])

pub suffix-backwards :
    (m : ℕ) (text p : List ℕ)
    → backwards p [] ≡ take m (backwards text [])
    → (u : List ℕ) × (u ++ p ≡ text)
suffix-backwards m text p same =
    let w = backwards text [] in
    let u = backwards (drop m w) [] in
    let whole : backwards (backwards p [] ++ drop m w) [] ≡ text =
      ap (λ x. backwards (x ++ drop m w) []) same
      ∙ ap (λ x. backwards x []) (take-drop m w)
      ∙ backwards-backwards text in
    (
      u,
      ap (λ x. u ++ x) (sym (backwards-backwards p))
          ∙ sym (backwards_split (backwards p []) (drop m w))
          ∙ whole,
    )
