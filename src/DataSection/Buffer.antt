-- ===== src/DataSection/Buffer.antt =====
-- Bytes that stand in a buffer from a cursor on.
use matchy.Base.{
  ℕ, suc, ◌+◌, ◌≤◌, ◌<◌, ◌≡◌, refl, subst, ◌∙◌, arith, List, [], ◌∷◌, ◌++◌, length, length-append,
  get_elem?, some, ok, get_elem?-append_left, get_elem?-append_right, get_elem?_lt,
}
use matchy.DataSection.Decode.{byte_at, slice}

pub record Stands (buffer : List ℕ) (cursor : ℕ) (bs : List ℕ) : Type 0 where
  pub at : (k : ℕ) (b : ℕ) → get_elem? bs k ≡ some b → byte_at buffer (cursor + k) ≡ ok b
  pub room : cursor + length bs ≤ length buffer

pub middle-Stands : (front bs rest : List ℕ) → Stands (front ++ (bs ++ rest)) (length front) bs
unfolding byte_at
middle-Stands front bs rest = record {
  at = λ k b e.
      let found : get_elem? (front ++ (bs ++ rest)) (length front + k) ≡ some b =
        get_elem?-append_right front (bs ++ rest) k
        ∙ get_elem?-append_left bs rest k (get_elem?_lt bs k e)
        ∙ e in
      rw (byte_at, found) refl;
  room = omega (arith, length-append front (bs ++ rest), length-append bs rest);
}

-- The first byte, and those behind it.
pub Stands-head :
    {buffer : List ℕ} {cursor b : ℕ} {bs : List ℕ}
    → Stands buffer cursor (b ∷ bs)
    → byte_at buffer cursor ≡ ok b
Stands-head {buffer} {cursor} {b} s =
    let e : cursor + 0 ≡ cursor = omega arith in
    subst (λ c. byte_at buffer c ≡ ok b) e (s.at 0 b refl)

pub Stands-tail :
    {buffer : List ℕ} {cursor b : ℕ} {bs : List ℕ}
    → Stands buffer cursor (b ∷ bs)
    → Stands buffer (cursor + 1) bs
Stands-tail {buffer} {cursor} s = record {
  at = λ k b e.
      let same : cursor + suc k ≡ cursor + 1 + k = omega arith in
      subst (λ c. byte_at buffer c ≡ ok b) same (s.at (suc k) b e);
  room = let r = s.room in omega arith;
}

pub Stands-below :
    {buffer : List ℕ} {cursor b : ℕ} {bs : List ℕ}
    → Stands buffer cursor (b ∷ bs)
    → cursor < length buffer
Stands-below s = let r = s.room in omega arith

-- Two runs behind one another.
pub Stands-left :
    {buffer : List ℕ} {cursor : ℕ} (bs cs : List ℕ)
    → Stands buffer cursor (bs ++ cs)
    → Stands buffer cursor bs
Stands-left bs cs s = record {
  at = λ k b e. s.at k b (get_elem?-append_left bs cs k (get_elem?_lt bs k e) ∙ e);
  room = let r = s.room in omega (arith, length-append bs cs);
}

pub Stands-right :
    {buffer : List ℕ} (bs cs : List ℕ) (cursor : ℕ)
    → Stands buffer cursor (bs ++ cs)
    → Stands buffer (cursor + length bs) cs
Stands-right {buffer} [] cs cursor s =
    let e : cursor ≡ cursor + 0 = omega arith in subst (λ c. Stands buffer c cs) e s
Stands-right {buffer} (b ∷ bs) cs cursor s =
    let e : cursor + 1 + length bs ≡ cursor + suc (length bs) = omega arith in
    subst (λ c. Stands buffer c cs) e (Stands-right bs cs (cursor + 1) (Stands-tail s))

pub slice-Stands :
    (bs buffer : List ℕ) (cursor : ℕ)
    → Stands buffer cursor bs
    → slice (length bs) buffer cursor ≡ ok bs
unfolding slice
slice-Stands [] buffer cursor s = refl
slice-Stands (b ∷ bs) buffer cursor s =
    rw (Stands-head s, slice-Stands bs buffer (cursor + 1) (Stands-tail s)) refl
