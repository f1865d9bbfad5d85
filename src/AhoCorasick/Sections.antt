-- ===== src/AhoCorasick/Sections.antt =====
-- The sections of the buffer (src/ac_offset.rs, `ACBuilder::serialize`): what one state wrote is there
-- when all are written.
pub mod OneState
pub mod AllStates
use matchy.Base.{
  ℕ, zero, suc, ◌+◌, ◌*◌, ◌%◌, ◌^◌, ◌≤◌, ◌<◌, ◌≡◌, ◌⊎◌, refl, sym, ◌∙◌, subst, arith, List, [], ◌∷◌,
  inl, inr, length, replicate, length-replicate, get_elem?, some, ok, ◌>>=◌,
}
use matchy.Base.Bytes.{write_bytes, length-write_bytes}
use matchy.Base.Holds.{Holds, write_bytes-Holds, Holds-write_bytes}
use matchy.Base.Orders.{Member, Member-Rearranges}
use matchy.AhoCorasick.{BuilderState, Host}
use matchy.AhoCorasick.Levels.{Walks}
use matchy.AhoCorasick.Edges.{Keyed, sorted_edges, length-sorted_edges, length-dense_targets}
use matchy.AhoCorasick.Serialize.{
  StateKind, empty, one, sparse, dense, classify_state_kind, sparse_bytes, dense_bytes, id_bytes,
  dense_targets, sum_of, Writer, write_state, write_states,
}
use matchy.AhoCorasick.Placing.{
  all_id_bytes, body, body_start, body_for, node_for, next_writer, write_state-runs,
  length-all_edge_bytes, length-all_id_bytes, length-target_bytes, length-node_bytes, char_field,
  edges_field, ids_field,
}

-- A place among what is written: in a node before the `i`-th, or in a section before its cursor.
abbrev pub Behind : ℕ → ℕ → ℕ → ℕ → Writer → ℕ → ℕ → Type 0
Behind E D P i w c size =
    (c + size ≤ i * 16)
    ⊎ ((E ≤ c) × (c + size ≤ w.edge_offset))
    ⊎ ((D ≤ c) × (c + size ≤ w.dense_offset))
    ⊎ ((P ≤ c) × (c + size ≤ w.pattern_offset))

-- A cursor for each section, and room for the states that follow.
pub record Room (E D P : ℕ) (i : ℕ) (states : List BuilderState) (w : Writer) : Type 0 where
  pub nodes : (i + length states) * 16 ≤ E
  pub from_e : E ≤ w.edge_offset
  pub to_e : w.edge_offset + sum_of sparse_bytes states ≤ D
  pub from_d : D ≤ w.dense_offset
  pub to_d : w.dense_offset + sum_of dense_bytes states ≤ P
  pub from_p : P ≤ w.pattern_offset
  pub to_p : w.pattern_offset + sum_of id_bytes states ≤ length w.buffer
  pub small : length w.buffer < 2 ^ 32
  pub aligned_e : w.edge_offset % 4 ≡ 0
  pub aligned_d : w.dense_offset % 4 ≡ 0
  pub aligned_p : w.pattern_offset % 4 ≡ 0

-- What the `j`-th state wrote.
pub record Placed (E D P : ℕ) (host : Host) (i : ℕ) (w : Writer) (j : ℕ) (st : BuilderState)
    : Type 0 where
  pub e : ℕ
  pub d : ℕ
  pub p : ℕ
  pub even_e : e % 4 ≡ 0
  pub even_d : d % 4 ≡ 0
  pub even_p : p % 4 ≡ 0
  pub small_e : e < 2 ^ 32
  pub small_d : d < 2 ^ 32
  pub small_p : p < 2 ^ 32
  pub node : Holds w.buffer (j * 16) (node_for host st e d p)
  pub transitions : Holds w.buffer (body_start (classify_state_kind st) e d) (body_for host st)
  pub ids : Holds w.buffer p (all_id_bytes st.outputs)
  pub node_in : Behind E D P i w (j * 16) 16
  pub transitions_in :
      Behind E D P i w (body_start (classify_state_kind st) e d) (length (body_for host st))
  pub ids_in : Behind E D P i w p (length (all_id_bytes st.outputs))

-- What a state can be laid out with.
pub record Fit (count : ℕ) (st : BuilderState) : Type 0 where
  pub keyed : Keyed st.transitions
  pub inside : (ch t : ℕ) → Member {A = ℕ × ℕ} (ch, t) st.transitions → t < count
  pub low : st.failure < count

module _ (E D P : ℕ) (host : Host) (walks : Walks host) (count : ℕ) where
  -- Where the transitions of a state stand.
  pub body-Behind :
      (kind : StateKind) (st : BuilderState) (w : Writer)
      → classify_state_kind st ≡ kind
      → Keyed st.transitions
      → ((body_start kind w.edge_offset w.dense_offset ≡ w.edge_offset)
          × (body_start kind w.edge_offset w.dense_offset
                + length (body kind (sorted_edges host st.transitions))
              ≤ w.edge_offset + sparse_bytes st))
        ⊎ ((body_start kind w.edge_offset w.dense_offset ≡ w.dense_offset)
            × (body_start kind w.edge_offset w.dense_offset
                  + length (body kind (sorted_edges host st.transitions))
                ≤ w.dense_offset + dense_bytes st))
  unfolding body body_start sparse_bytes dense_bytes
  body-Behind empty st w e keyed = inl (refl, omega arith)
  body-Behind one st w e keyed = inl (refl, omega arith)
  body-Behind sparse st w e keyed =
      let size : sparse_bytes st ≡ length st.transitions * 8 = rw (sparse_bytes, e) refl in
      inl (
        refl,
        omega (
          arith,
          size,
          length-all_edge_bytes (sorted_edges host st.transitions),
          length-sorted_edges host walks st.transitions keyed,
        ),
      )
  body-Behind dense st w e keyed =
      let size : dense_bytes st ≡ 1024 = rw (dense_bytes, e) refl in
      let table = dense_targets (sorted_edges host st.transitions) (replicate 256 0) in
      let blank : List ℕ = replicate 256 0 in
      let blank_size : length blank ≡ 256 = length-replicate {A = ℕ} 256 0 in
      inr (
        refl,
        omega (
          arith,
          size,
          blank_size,
          length-target_bytes table,
          length-dense_targets (sorted_edges host st.transitions) blank,
        ),
      )

  -- Both sections keep their cursors at multiples of four.
  pub bytes_even : (st : BuilderState) → (sparse_bytes st % 4 ≡ 0) × (dense_bytes st % 4 ≡ 0)
  unfolding sparse_bytes dense_bytes
  bytes_even st = by_kind (classify_state_kind st) refl
    where
      by_kind :
          (kind : StateKind)
          → classify_state_kind st ≡ kind
          → (sparse_bytes st % 4 ≡ 0) × (dense_bytes st % 4 ≡ 0)
      by_kind empty e = (rw (sparse_bytes, e) refl, rw (dense_bytes, e) refl)
      by_kind one e = (rw (sparse_bytes, e) refl, rw (dense_bytes, e) refl)
      by_kind sparse e =
          let size : sparse_bytes st ≡ length st.transitions * 8 = rw (sparse_bytes, e) refl in
          (omega arith, rw (dense_bytes, e) refl)
      by_kind dense e = (rw (sparse_bytes, e) refl, rw (dense_bytes, e) refl)
