-- ===== src/AhoCorasick/Layout.antt =====
-- How large the buffer has to be (src/ac_offset.rs, the comments of `ACBuilder::serialize`), counted from the states.
use matchy.Base.{
  ℕ, zero, suc, ◌+◌, ◌*◌, ◌%◌, ◌≤◌, ◌<◌, ◌≡◌, refl, arith, List, [], ◌∷◌, length, ltb, Bool-cases,
  inl, inr, dec_lt,
}
use matchy.AhoCorasick.{BuilderState}
use matchy.AhoCorasick.Serialize.{
  empty, one, sparse, dense, kind_of, sparse_bytes, dense_bytes, id_bytes, sum_of, edges_start,
  dense_start, patterns_start, total_size,
}

-- A state with two to eight transitions has an edge for each, one with more has a table, and others have neither.
abbrev pub edges_of : ℕ → ℕ
edges_of n = elim (dec_lt n 2) [
  | yes few ↦ 0
  | no some ↦ elim (dec_lt 8 n) [ yes many ↦ 0 | no within ↦ n ]
]

abbrev pub tables_of : ℕ → ℕ
tables_of n = elim (dec_lt 8 n) [ yes many ↦ 1 | no within ↦ 0 ]

abbrev pub edges : List BuilderState → ℕ
edges [] = 0
edges (st ∷ states) = edges_of (length st.transitions) + edges states

abbrev pub tables : List BuilderState → ℕ
tables [] = 0
tables (st ∷ states) = tables_of (length st.transitions) + tables states

abbrev pub ids : List BuilderState → ℕ
ids [] = 0
ids (st ∷ states) = length st.outputs + ids states

-- Nodes of 16 bytes and edges of 8, then from the next multiple of 64 on tables of 256 offsets of 4 bytes, and
-- ids of 4 bytes.
abbrev pub LaidOut : List BuilderState → ℕ → Type 0
LaidOut states size =
    (start : ℕ) × (start % 64 ≡ 0)
    × (16 * length states + 8 * edges states ≤ start)
    × (start < 16 * length states + 8 * edges states + 64)
    × (size ≡ start + 1024 * tables states + 4 * ids states)

sparse_bytes-edges : (st : BuilderState) → sparse_bytes st ≡ 8 * edges_of (length st.transitions)
unfolding sparse_bytes dec_lt
sparse_bytes-edges st = by_count (length st.transitions)
  where
    by_count :
        (n : ℕ)
        → elim (kind_of n) [ sparse ↦ n * 8 | empty ↦ 0 | one ↦ 0 | dense ↦ 0 ] ≡ 8 * edges_of n
    by_count zero = refl
    by_count (suc zero) = refl
    by_count (suc (suc more)) = elim (Bool-cases (ltb 6 more)) [
      | inl many ↦ rw many (ground arith)
      | inr within ↦ rw within (ground arith)
    ]

dense_bytes-tables : (st : BuilderState) → dense_bytes st ≡ 1024 * tables_of (length st.transitions)
unfolding dense_bytes dec_lt
dense_bytes-tables st = by_count (length st.transitions)
  where
    by_count :
        (n : ℕ)
        → elim (kind_of n) [ dense ↦ 1024 | empty ↦ 0 | one ↦ 0 | sparse ↦ 0 ] ≡ 1024 * tables_of n
    by_count zero = refl
    by_count (suc zero) = refl
    by_count (suc (suc more)) = elim (Bool-cases (ltb 6 more)) [
      | inl many ↦ rw many (ground arith)
      | inr within ↦ rw within (ground arith)
    ]

sums :
    (states : List BuilderState)
    → (sum_of sparse_bytes states ≡ 8 * edges states)
      × (sum_of dense_bytes states ≡ 1024 * tables states)
      × (sum_of id_bytes states ≡ 4 * ids states)
unfolding sum_of
sums [] = (refl, refl, refl)
sums (st ∷ states) =
    let (a, b, c) = sums states in
    let d = sparse_bytes-edges st in
    let e = dense_bytes-tables st in (omega arith, omega arith, omega arith)

-- The size that `serialize` computes is that of the layout.
pub total_size-LaidOut : (states : List BuilderState) → LaidOut states (total_size states)
unfolding total_size patterns_start dense_start edges_start
total_size-LaidOut states =
    let (a, b, c) = sums states in
    (dense_start states, omega arith, omega arith, omega arith, omega arith)
