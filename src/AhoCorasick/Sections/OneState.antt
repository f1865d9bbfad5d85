-- ===== src/AhoCorasick/Sections/OneState.antt =====
-- One state of the buffer (src/ac_offset.rs): it is placed, and what was placed before stays.
use matchy.Base.{
  ℕ, ◌+◌, ◌*◌, ◌^◌, ◌≤◌, ◌<◌, ◌≡◌, ◌⊎◌, refl, sym, ◌∙◌, subst, arith, List, ◌∷◌, inl, inr, length,
  ok,
}
use matchy.Base.Bytes.{write_bytes, length-write_bytes}
use matchy.Base.Holds.{Holds, write_bytes-Holds, Holds-write_bytes}
use matchy.Base.Orders.{Member-Rearranges}
use matchy.AhoCorasick.{BuilderState, Host}
use matchy.AhoCorasick.Levels.{Walks}
use matchy.AhoCorasick.Edges.{sorted_edges}
use matchy.AhoCorasick.Serialize.{
  classify_state_kind, sparse_bytes, dense_bytes, id_bytes, sum_of, Writer, write_state,
}
use matchy.AhoCorasick.Placing.{
  all_id_bytes, body_start, body_for, node_for, next_writer, write_state-runs, length-all_id_bytes,
  length-node_bytes, char_field, edges_field, ids_field,
}
use matchy.AhoCorasick.Sections.{Behind, Room, Placed, Fit, body-Behind, bytes_even}

module _ (E D P : ℕ) (host : Host) (walks : Walks host) (count : ℕ) where
  module _ (i : ℕ) (st : BuilderState) (states : List BuilderState) (w : Writer)
      (room : Room E D P i (st ∷ states) w) (fit : Fit count st) (many : count * 16 < 2 ^ 32) where
    abbrev pub after : Writer
    after = next_writer host i st w

    abbrev start : ℕ
    start = body_start (classify_state_kind st) w.edge_offset w.dense_offset

    abbrev node : List ℕ
    node = node_for host st w.edge_offset w.dense_offset w.pattern_offset

    -- The bounds, with the bytes of this state.
    bounds :
        (i * 16 + 16 ≤ E)
        × (w.edge_offset + sparse_bytes st ≤ D)
        × (w.dense_offset + dense_bytes st ≤ P)
        × (w.pattern_offset + id_bytes st ≤ length w.buffer)
        × (E ≤ w.edge_offset)
        × (D ≤ w.dense_offset)
        × (P ≤ w.pattern_offset)
        × (length w.buffer < 2 ^ 32)
    unfolding sum_of
    bounds =
        let a = room.nodes in
        let b = room.to_e in
        let c = room.to_d in
        let d = room.to_p in
        let e : E ≤ w.edge_offset = room.from_e in
        let f : D ≤ w.dense_offset = room.from_d in
        let g : P ≤ w.pattern_offset = room.from_p in
        (omega arith, omega arith, omega arith, omega arith, e, f, g, room.small)

    node_size : length node ≡ 16
    node_size =
        let kind = classify_state_kind st in
        let edges = sorted_edges host st.transitions in
        length-node_bytes kind (char_field kind edges) st
          (edges_field kind edges w.edge_offset w.dense_offset) (st.failure * 16)
          (ids_field st w.pattern_offset)

    ids_size : length (all_id_bytes st.outputs) ≡ id_bytes st
    ids_size = length-all_id_bytes st.outputs

    abbrev with_body : List ℕ
    with_body = write_bytes w.buffer start (body_for host st)

    abbrev with_ids : List ℕ
    with_ids = write_bytes with_body w.pattern_offset (all_id_bytes st.outputs)

    body_size : length with_body ≡ length w.buffer
    body_size = length-write_bytes (body_for host st) w.buffer start

    with_ids_size : length with_ids ≡ length w.buffer
    with_ids_size =
        length-write_bytes (all_id_bytes st.outputs) with_body w.pattern_offset ∙ body_size

    pub after_size : length after.buffer ≡ length w.buffer
    after_size = length-write_bytes node with_ids (i * 16) ∙ with_ids_size

    pub state-runs : write_state host count i st w ≡ ok after
    state-runs =
        let (_, b, c, d, e, f, g, small) = bounds in
        write_state-runs host count i st w walks fit.keyed
          (λ ch t m. fit.inside ch t (Member-Rearranges (walks.walk st.transitions) m)) fit.low many
          (omega arith) (omega arith) (omega arith)

    in_section :
        ((start ≡ w.edge_offset)
          × (start + length (body_for host st) ≤ w.edge_offset + sparse_bytes st))
        ⊎ ((start ≡ w.dense_offset)
            × (start + length (body_for host st) ≤ w.dense_offset + dense_bytes st))
    in_section = body-Behind E D P host walks count (classify_state_kind st) st w refl fit.keyed

    kept :
        (c : ℕ) (bs : List ℕ)
        → Behind E D P i w c (length bs)
        → Holds w.buffer c bs
        → Holds after.buffer c bs
    kept c bs place h =
        Holds-write_bytes with_ids c bs (i * 16) node
          (Holds-write_bytes with_body c bs w.pattern_offset (all_id_bytes st.outputs)
            (Holds-write_bytes w.buffer c bs start (body_for host st) h off_body) off_ids)
          off_node
      where
        off_body : (c + length bs ≤ start) ⊎ (start + length (body_for host st) ≤ c)
        off_body =
            let (n, b, c', d, e, f, g, _) = bounds in
            elim in_section [
              | inl (at, size) ↦ elim place [
                | inl front ↦ inl (omega arith)
                | inr (inl (_, front)) ↦ inl (omega arith)
                | inr (inr (inl (rear, _))) ↦ inr (omega arith)
                | inr (inr (inr (rear, _))) ↦ inr (omega arith)
              ]
              | inr (at, size) ↦ elim place [
                | inl front ↦ inl (omega arith)
                | inr (inl (_, front)) ↦ inl (omega arith)
                | inr (inr (inl (_, front))) ↦ inl (omega arith)
                | inr (inr (inr (rear, _))) ↦ inr (omega arith)
              ]
            ]

        off_ids :
            (c + length bs ≤ w.pattern_offset)
            ⊎ (w.pattern_offset + length (all_id_bytes st.outputs) ≤ c)
        off_ids =
            let (n, b, c', d, e, f, g, _) = bounds in
            elim place [
              | inl front ↦ inl (omega arith)
              | inr (inl (_, front)) ↦ inl (omega arith)
              | inr (inr (inl (_, front))) ↦ inl (omega arith)
              | inr (inr (inr (_, front))) ↦ inl (omega arith)
            ]

        off_node : (c + length bs ≤ i * 16) ⊎ (i * 16 + length node ≤ c)
        off_node =
            let (n, b, c', d, e, f, g, _) = bounds in
            let size = node_size in
            elim place [
              | inl front ↦ inl (omega arith)
              | inr (inl (rear, _)) ↦ inr (omega arith)
              | inr (inr (inl (rear, _))) ↦ inr (omega arith)
              | inr (inr (inr (rear, _))) ↦ inr (omega arith)
            ]

    -- Behind stays behind.
    further : (c size : ℕ) → Behind E D P i w c size → Behind E D P (i + 1) after c size
    further c size place = elim place [
      | inl front ↦ inl (omega arith)
      | inr (inl (rear, front)) ↦ inr (inl (rear, omega arith))
      | inr (inr (inl (rear, front))) ↦ inr (inr (inl (rear, omega arith)))
      | inr (inr (inr (rear, front))) ↦ inr (inr (inr (rear, omega arith)))
    ]

    pub Placed-kept :
        (j : ℕ) (old : BuilderState)
        → Placed E D P host i w j old
        → Placed E D P host (i + 1) after j old
    Placed-kept j old pl =
        let n = pl.node_in in
        let size =
          length-node_bytes (classify_state_kind old)
            (char_field (classify_state_kind old) (sorted_edges host old.transitions)) old
            (edges_field (classify_state_kind old) (sorted_edges host old.transitions) pl.e pl.d)
            (old.failure * 16) (ids_field old pl.p) in
        record {
          e = pl.e;
          d = pl.d;
          p = pl.p;
          even_e = pl.even_e;
          even_d = pl.even_d;
          even_p = pl.even_p;
          small_e = pl.small_e;
          small_d = pl.small_d;
          small_p = pl.small_p;
          node =
              kept (j * 16) (node_for host old pl.e pl.d pl.p)
                (subst (λ k. Behind E D P i w (j * 16) k) (sym size) n) pl.node;
          transitions =
              kept (body_start (classify_state_kind old) pl.e pl.d) (body_for host old)
                pl.transitions_in pl.transitions;
          ids = kept pl.p (all_id_bytes old.outputs) pl.ids_in pl.ids;
          node_in = further (j * 16) 16 n;
          transitions_in =
              further (body_start (classify_state_kind old) pl.e pl.d) (length (body_for host old))
                pl.transitions_in;
          ids_in = further pl.p (length (all_id_bytes old.outputs)) pl.ids_in;
        }

    pub state-Placed : Placed E D P host (i + 1) after i st
    state-Placed =
        let (n, b, c, d, e, f, g, small) = bounds in
        let in_room : start + length (body_for host st) ≤ length w.buffer = body_room in
        let first = write_bytes-Holds w.buffer start (body_for host st) in_room in
        let second =
          Holds-write_bytes with_body start (body_for host st) w.pattern_offset
            (all_id_bytes st.outputs) (first) (inl body_front) in
        let third =
          Holds-write_bytes with_ids start (body_for host st) (i * 16) node second
            (inr body_rear) in
        let ids_first =
          write_bytes-Holds with_body w.pattern_offset (all_id_bytes st.outputs)
            (omega (arith, ids_size, body_size)) in
        let ids_second =
          Holds-write_bytes with_ids w.pattern_offset (all_id_bytes st.outputs) (i * 16) node
            ids_first (inr (omega (arith, node_size))) in
        record {
          e = w.edge_offset;
          d = w.dense_offset;
          p = w.pattern_offset;
          even_e = room.aligned_e;
          even_d = room.aligned_d;
          even_p = room.aligned_p;
          small_e = omega arith;
          small_d = omega arith;
          small_p = omega arith;
          node = write_bytes-Holds with_ids (i * 16) node (omega (arith, node_size, with_ids_size));
          transitions = third;
          ids = ids_second;
          node_in = inl (omega arith);
          transitions_in = body_in;
          ids_in = inr (inr (inr (g, omega (arith, ids_size))));
        }
      where
        body_front : start + length (body_for host st) ≤ w.pattern_offset
        body_front =
            let (n, b, c, d, e, f, g, small) = bounds in
            elim in_section [ inl (at, size) ↦ omega arith | inr (at, size) ↦ omega arith ]

        body_room : start + length (body_for host st) ≤ length w.buffer
        body_room =
            let (n, b, c, d, e, f, g, small) = bounds in let less = body_front in omega arith

        body_rear : i * 16 + length node ≤ start
        body_rear =
            let (n, b, c, d, e, f, g, small) = bounds in
            elim in_section [
              | inl (at, size) ↦ omega (arith, node_size)
              | inr (at, size) ↦ omega (arith, node_size)
            ]

        body_in : Behind E D P (i + 1) after start (length (body_for host st))
        body_in =
            let (n, b, c, d, e, f, g, small) = bounds in
            elim in_section [
              | inl (at, size) ↦ inr (inl (omega arith, size))
              | inr (at, size) ↦ inr (inr (inl (omega arith, size)))
            ]

    pub state-Room : Room E D P (i + 1) states after
    unfolding sum_of
    state-Room =
        let a = room.nodes in
        let b = room.to_e in
        let c = room.to_d in
        let d = room.to_p in
        let e : E ≤ w.edge_offset = room.from_e in
        let f : D ≤ w.dense_offset = room.from_d in
        let g : P ≤ w.pattern_offset = room.from_p in
        let (even_s, even_d) = bytes_even E D P host walks count st in
        let m = room.aligned_e in
        let n = room.aligned_d in
        let o = room.aligned_p in
        record {
          nodes = omega arith;
          from_e = omega arith;
          to_e = omega arith;
          from_d = omega arith;
          to_d = omega arith;
          from_p = omega arith;
          to_p = omega (arith, after_size);
          small = omega (arith, after_size, room.small);
          aligned_e = omega arith;
          aligned_d = omega arith;
          aligned_p = omega arith;
        }
