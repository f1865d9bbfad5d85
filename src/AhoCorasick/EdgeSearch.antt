-- ===== src/AhoCorasick/EdgeSearch.antt =====
-- The searches of the reader among the edges of one state, and among its ids (src/ac_offset.rs).
use matchy.Base.{
  ℕ, zero, suc, ◌+◌, ◌*◌, ◌≤◌, ◌≡◌, ◌≢◌, refl, arith, ◌==◌, ltb, leb, List, [], ◌∷◌, inl, inr, true,
  false, Bool-cases, length, none, some, ok,
}
use Prim.Native.Nat.{min}
use matchy.AhoCorasick.{get_transition}
use matchy.AhoCorasick.Search.{
  AcNodeHot, AcAutomaton, u32_at, fits, read_node, read_edges, sparse_transition, dense_transition,
  node_transition, find_transition, read_ids, ids_at,
}
use matchy.AhoCorasick.Serialize.{empty, sparse, kind_of}

-- The numbers of transitions of each kind.
pub kind_of-empty : (n : ℕ) → kind_of n ≡ empty → n ≡ 0
unfolding kind_of
kind_of-empty zero e = refl
kind_of-empty (suc zero) e = cc
kind_of-empty (suc (suc n)) e = elim (Bool-cases (ltb 6 n)) [
  | inl more ↦ let contrary = rw more at e in absurd (cc)
  | inr few ↦ let contrary = rw few at e in absurd (cc)
]

pub kind_of-sparse : (n : ℕ) → kind_of n ≡ sparse → n ≤ 8
unfolding kind_of
kind_of-sparse zero e = cc
kind_of-sparse (suc zero) e = cc
kind_of-sparse (suc (suc n)) e = elim (Bool-cases (ltb 6 n)) [
  | inl more ↦ let contrary = rw more at e in absurd (cc)
  | inr few ↦ ground arith
]

pub no_transitions : (ts : List (ℕ × ℕ)) (ch : ℕ) → length ts ≡ 0 → get_transition ch ts ≡ none
unfolding get_transition
no_transitions [] ch e = refl
no_transitions (x ∷ ts) ch e = absurd (omega arith)

pub single : (es : List (ℕ × ℕ)) → length es ≡ 1 → (c : ℕ) × (u : ℕ) × (es ≡ (c, u) ∷ [])
single [] e = absurd (omega arith)
single ((c, u) ∷ []) e = (c, u, refl)
single (x ∷ y ∷ es) e = absurd (omega arith)

-- A step from a node whose fields are known.
pub sparse-found :
    (automaton : AcAutomaton) (node : AcNodeHot) (ch : ℕ) (es : List (ℕ × ℕ))
    → node.state_kind ≡ 2
    → node.edge_count ≡ length es
    → length es ≤ 8
    → node.edges_offset + length es * 8 ≤ length automaton.buffer
    → read_edges (length es) automaton node.edges_offset ≡ some es
    → node_transition automaton node ch ≡ ok (get_transition ch es)
unfolding node_transition sparse_transition
sparse-found automaton node ch es kind count bound room read =
    let wide : leb (node.edges_offset + length es * 8) (length automaton.buffer) ≡ true =
      ground arith in
    let all : min (length es) 8 ≡ length es = omega arith in
    let fair : ltb 8 (length es) ≡ false = ground arith in
    rw (kind, count, wide, all, read, count, fair, read) refl

pub dense-none :
    (automaton : AcAutomaton) (node : AcNodeHot) (ch d : ℕ)
    → node.state_kind ≡ 3
    → node.edges_offset ≡ d
    → d + ch * 4 + 4 ≤ length automaton.buffer
    → u32_at automaton.buffer (d + ch * 4) ≡ 0
    → node_transition automaton node ch ≡ ok none
unfolding node_transition dense_transition
dense-none automaton node ch d kind field room read =
    let wide : leb (d + ch * 4 + 4) (length automaton.buffer) ≡ true = ground arith in
    rw (kind, field, wide, read) refl

pub dense-some :
    (automaton : AcAutomaton) (node : AcNodeHot) (ch d u : ℕ)
    → node.state_kind ≡ 3
    → node.edges_offset ≡ d
    → d + ch * 4 + 4 ≤ length automaton.buffer
    → u32_at automaton.buffer (d + ch * 4) ≡ u
    → u ≢ 0
    → node_transition automaton node ch ≡ ok (some u)
unfolding node_transition dense_transition
dense-some automaton node ch d u kind field room read nonzero =
    let wide : leb (d + ch * 4 + 4) (length automaton.buffer) ≡ true = ground arith in
    let other : (u == 0) ≡ false = ground arith in rw (kind, field, wide, read, other) refl

pub at_node :
    (automaton : AcAutomaton) (c ch : ℕ) (node : AcNodeHot)
    → read_node automaton c ≡ some node
    → find_transition automaton c ch ≡ node_transition automaton node ch
unfolding find_transition
at_node automaton c ch node there = rw (find_transition, there) refl

pub ids_at-none :
    (automaton : AcAutomaton) (c : ℕ) (node : AcNodeHot)
    → read_node automaton c ≡ some node
    → node.pattern_count ≡ 0
    → ids_at automaton c ≡ []
unfolding ids_at read_ids
ids_at-none automaton c node there count =
    elim (Bool-cases (fits automaton node.patterns_offset 0)) [
      | inl fit ↦ rw (ids_at, there, count, fit) refl
      | inr bare ↦ rw (ids_at, there, count, bare) refl
    ]

pub ids_at-some :
    (automaton : AcAutomaton) (c : ℕ) (node : AcNodeHot) (count p : ℕ)
    → read_node automaton c ≡ some node
    → node.pattern_count ≡ count
    → node.patterns_offset ≡ p
    → fits automaton p (count * 4) ≡ true
    → ids_at automaton c ≡ read_ids count automaton.buffer p
unfolding ids_at
ids_at-some automaton c node count p there e field fit = rw (ids_at, there, e, field, fit) refl
