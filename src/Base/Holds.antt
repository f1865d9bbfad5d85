-- ===== src/Base/Holds.antt =====
-- Bytes that a buffer holds at a place, and that writes elsewhere leave alone.
use Prim.Native.Nat.{ℕ, zero, suc, ◌+◌, ◌≤◌}
use mathlib.Core.Path.{◌≡◌, refl, ap, ◌∙◌, subst}
use mathlib.Core.Logic.{◌⊎◌, inl, inr}
use mathlib.Core.List.{List, [], ◌∷◌, ◌++◌}
use mathlib.Core.Option.{some}
use native.Mathlib.Omega.{arith}
use matchy.Base.Lists.{
  length, get_elem?, get_elem?_lt, set, drop, length-append, get_elem?-append_left,
  get_elem?-append_right,
}
use matchy.Base.Bytes.{
  write_bytes, length-write_bytes, write_bytes_before, write_bytes_after, write_bytes_at,
}

pub record Holds (buffer : List ℕ) (c : ℕ) (bs : List ℕ) : Type 0 where
  pub at : (k b : ℕ) → get_elem? bs k ≡ some b → get_elem? buffer (c + k) ≡ some b
  pub room : c + length bs ≤ length buffer

pub write_bytes-Holds :
    (buffer : List ℕ) (c : ℕ) (bs : List ℕ)
    → c + length bs ≤ length buffer
    → Holds (write_bytes buffer c bs) c bs
write_bytes-Holds buffer c bs room = record {
  at = λ k b e. write_bytes_at bs buffer c k room e;
  room = omega (arith, length-write_bytes bs buffer c);
}

pub Holds-write_bytes :
    (buffer : List ℕ) (c : ℕ) (bs : List ℕ) (d : ℕ) (ws : List ℕ)
    → Holds buffer c bs
    → (c + length bs ≤ d) ⊎ (d + length ws ≤ c)
    → Holds (write_bytes buffer d ws) c bs
Holds-write_bytes buffer c bs d ws h apart = record {
  at = λ k b e.
      let low = get_elem?_lt bs k e in
      elim apart [
        | inl below ↦ write_bytes_before ws buffer d (c + k) (omega arith) ∙ h.at k b e
        | inr rear ↦ write_bytes_after ws buffer d (c + k) (omega arith) ∙ h.at k b e
      ];
  room = let r = h.room in omega (arith, length-write_bytes ws buffer d);
}

pub write_bytes-append :
    (front bs buffer : List ℕ) (c : ℕ)
    → write_bytes buffer c (front ++ bs)
      ≡ write_bytes (write_bytes buffer c front) (c + length front) bs
unfolding write_bytes
write_bytes-append [] bs buffer c =
    let e : c ≡ c + 0 = omega arith in ap (λ n. write_bytes buffer n bs) e
write_bytes-append (a ∷ front) bs buffer c =
    let e : c + 1 + length front ≡ c + suc (length front) = omega arith in
    write_bytes-append front bs (set buffer c a) (c + 1)
    ∙ ap (λ n. write_bytes (write_bytes (set buffer c a) (c + 1) front) n bs) e

pub Holds-left :
    (buffer : List ℕ) (c : ℕ) (front bs : List ℕ)
    → Holds buffer c (front ++ bs)
    → Holds buffer c front
Holds-left buffer c front bs h = record {
  at = λ k b e. h.at k b (get_elem?-append_left front bs k (get_elem?_lt front k e) ∙ e);
  room = let r = h.room in omega (arith, length-append front bs);
}

pub Holds-right :
    (buffer : List ℕ) (c : ℕ) (front bs : List ℕ)
    → Holds buffer c (front ++ bs)
    → Holds buffer (c + length front) bs
Holds-right buffer c front bs h = record {
  at = λ k b e.
      let same : c + (length front + k) ≡ c + length front + k = omega arith in
      subst (λ n. get_elem? buffer n ≡ some b) same
        (h.at (length front + k) b (get_elem?-append_right front bs k ∙ e));
  room = let r = h.room in omega (arith, length-append front bs);
}

begins :
    (bs l : List ℕ)
    → ((k b : ℕ) → get_elem? bs k ≡ some b → get_elem? l k ≡ some b)
    → (rest : List ℕ) × (l ≡ bs ++ rest)
begins [] l alike = (l, refl)
begins (b ∷ bs) [] alike = let contrary = alike 0 b refl in absurd (cc)
begins (b ∷ bs) (c ∷ l) alike =
    let (rest, same) = begins bs l (λ k d e. alike (suc k) d e) in
    let first : some c ≡ some b = alike 0 b refl in
    let this : c ≡ b = cc in (rest, ap (λ x. x ∷ l) this ∙ ap (λ t. b ∷ t) same)

get_elem?-drop : (n k : ℕ) (l : List ℕ) → get_elem? (drop n l) k ≡ get_elem? l (n + k)
get_elem?-drop zero k l = let e : k ≡ 0 + k = omega arith in ap (get_elem? l) e
get_elem?-drop (suc n) k [] = refl
get_elem?-drop (suc n) k (x ∷ l) =
    let e : suc (n + k) ≡ suc n + k = omega arith in get_elem?-drop n k l ∙ ap (get_elem? (x ∷ l)) e

pub drop-Holds :
    (buffer : List ℕ) (c : ℕ) (bs : List ℕ)
    → Holds buffer c bs
    → (rest : List ℕ) × (drop c buffer ≡ bs ++ rest)
drop-Holds buffer c bs h =
    begins bs (drop c buffer) (λ k b e. get_elem?-drop c k buffer ∙ h.at k b e)
