-- ===== src/AhoCorasick/Encodings.antt =====
-- The search in the bytes that the writer made (src/ac_offset.rs): `find_transition` in each of the four
-- encodings, and the ids of a node.
use matchy.Base.{
  ℕ, ◌+◌, ◌*◌, ◌%◌, ◌^◌, ◌≤◌, ◌<◌, ◌≡◌, ◌≢◌, refl, sym, ap, ◌∙◌, subst, arith, ◌==◌, List, [], ◌∷◌,
  inl, inr, Bool-cases, Option-cases, length, replicate, get_elem?, get_elem?-replicate_below,
  length-replicate, Option, none, some, ok,
}
use matchy.Base.LittleEndian.{to_le_bytes, length-to_le_bytes}
use matchy.Base.Holds.{Holds}
use matchy.Base.Orders.{Member, here}
use matchy.AhoCorasick.{BuilderState, Host, get_transition}
use matchy.AhoCorasick.Trie.{step, Member-get_transition}
use matchy.AhoCorasick.Levels.{Walks}
use matchy.AhoCorasick.Walk.{scaled, Image}
use matchy.AhoCorasick.Machine.{Tidy}
use matchy.AhoCorasick.Edges.{
  Keyed, sorted_edges, get_transition-sorted_edges, length-sorted_edges, sorted_edges-Keyed,
  get_elem?-dense_targets,
}
use matchy.AhoCorasick.Search.{
  AcNodeHot, AcAutomaton, read_node, read_edges, node_transition, find_transition, ids_at,
}
use matchy.AhoCorasick.Serialize.{
  StateKind, kind_byte, empty, one, sparse, dense, classify_state_kind, dense_targets, target_bytes,
  Writer,
}
use matchy.AhoCorasick.Placing.{
  kind_of-one, all_edge_bytes, all_id_bytes, body, body_start, edges_field, char_field, ids_field,
  length-all_edge_bytes, length-all_id_bytes, length-node_bytes,
}
use matchy.AhoCorasick.Sections.{Placed}
use matchy.AhoCorasick.Imaging.{
  node_with, u32_at-Holds, Holds-target_bytes, fits-true, read_node-node_bytes,
  read_edges-all_edge_bytes, read_ids-all_id_bytes,
}
use matchy.AhoCorasick.EdgeSearch.{
  kind_of-empty, kind_of-sparse, no_transitions, single, sparse-found, dense-none, dense-some,
  at_node, ids_at-none, ids_at-some,
}

module _ (E D P : ℕ) (host : Host) (walks : Walks host) (states : List BuilderState)
    (tidy : Tidy states) (many : length states * 16 < 2 ^ 32) (n : ℕ) (w : Writer) (address : ℕ)
    (even : address % 4 ≡ 0)
    (placed : (j : ℕ) (st : BuilderState)
      → get_elem? states j ≡ some st
      → Placed E D P host n w j st)
    (few : (j : ℕ) (st : BuilderState)
      → get_elem? states j ≡ some st
      → length st.outputs ≤ 255) where
  abbrev automaton : AcAutomaton
  automaton = record { buffer = w.buffer; address = address }

  module _ (j : ℕ) (st : BuilderState) (there : get_elem? states j ≡ some st) where
    abbrev pl : Placed E D P host n w j st
    pl = placed j st there

    abbrev edges : List (ℕ × ℕ)
    edges = sorted_edges host st.transitions

    abbrev kind : StateKind
    kind = classify_state_kind st

    keyed : Keyed st.transitions
    keyed ch t m = tidy.keyed j st ch t there m

    -- The target of an edge is the offset of a state other than the root.
    edge_target : (ch u : ℕ) → get_transition ch edges ≡ some u → (u ≢ 0) × (u < 2 ^ 32)
    edge_target ch u found =
        let same : scaled (get_transition ch st.transitions) ≡ some u =
          sym (get_transition-sorted_edges host walks st.transitions keyed ch) ∙ found in
        elim (Option-cases (get_transition ch st.transitions)) [
          | inl miss ↦ let contrary = rw miss at same in absurd (cc)
          | inr (t, hit) ↦
              let e : some (t * 16) ≡ some u = rw hit at same in
              let this : t * 16 ≡ u = cc in
              let (other, low) =
                tidy.target j st ch t there (Member-get_transition ch t st.transitions hit) in
              let nonzero : u ≢ 0 = λ z. other (omega arith) in (nonzero, omega arith)
        ]

    edge_small : (ch u : ℕ) → Member {A = ℕ × ℕ} (ch, u) edges → u < 2 ^ 32
    edge_small ch u m =
        let (_, small) =
          edge_target ch u (sorted_edges-Keyed host walks st.transitions keyed ch u m) in
        small

    field_small : edges_field kind edges pl.e pl.d < 2 ^ 32
    field_small = by_kind kind edges edge_small
      where
        by_kind :
            (k : StateKind) (es : List (ℕ × ℕ))
            → ((ch u : ℕ) → Member {A = ℕ × ℕ} (ch, u) es → u < 2 ^ 32)
            → edges_field k es pl.e pl.d < 2 ^ 32
        by_kind empty es small = unfold edges_field in omega arith
        by_kind one [] small = unfold edges_field in omega arith
        by_kind one ((ch, t) ∷ es) small = unfold edges_field in (small ch t here)
        by_kind sparse es small = unfold edges_field in pl.small_e
        by_kind dense es small = unfold edges_field in pl.small_d

    ids_small : ids_field st pl.p < 2 ^ 32
    ids_small =
        let s = pl.small_p in
        elim (Bool-cases (length st.outputs == 0)) [
          | inl none_left ↦ rw none_left (omega arith)
          | inr full ↦ rw full s
        ]

    abbrev node : AcNodeHot
    node =
        node_with kind (char_field kind edges) st (edges_field kind edges pl.e pl.d)
          (st.failure * 16) (ids_field st pl.p)

    reads_node : read_node automaton (j * 16) ≡ some node
    reads_node =
        let low = tidy.failure j st there in
        read_node-node_bytes automaton even (j * 16) kind (char_field kind edges) st
          (edges_field kind edges pl.e pl.d) (st.failure * 16) (ids_field st pl.p) (omega arith)
          field_small (omega arith) ids_small pl.node

    -- The transitions, in each encoding.
    moves_empty :
        (ch : ℕ) → kind ≡ empty → node_transition automaton node ch ≡ ok (get_transition ch edges)
    unfolding node_transition
    moves_empty ch e =
        let size = kind_of-empty (length st.transitions) e in
        let none_left : length edges ≡ 0 =
          length-sorted_edges host walks st.transitions keyed ∙ size in
        rw e (ap ok (sym (no_transitions edges ch none_left)))

    moves_one :
        (ch : ℕ) → kind ≡ one → node_transition automaton node ch ≡ ok (get_transition ch edges)
    unfolding node_transition edges_field char_field get_transition
    moves_one ch e =
        let size = kind_of-one (length st.transitions) e in
        let (c, u, this) =
          single edges (length-sorted_edges host walks st.transitions keyed ∙ size) in
        rw (e, this) refl

    moves_sparse :
        (ch : ℕ) → kind ≡ sparse → node_transition automaton node ch ≡ ok (get_transition ch edges)
    moves_sparse ch e =
        let bound = kind_of-sparse (length st.transitions) e in
        let size = length-sorted_edges host walks st.transitions keyed in
        let region : Holds w.buffer pl.e (all_edge_bytes edges) =
          unfold body in
          (unfold body_start in
            (subst (λ k. Holds w.buffer (body_start k pl.e pl.d) (body k edges)) e
              pl.transitions)) in
        let read =
          read_edges-all_edge_bytes automaton even edges pl.e pl.even_e edge_small region in
        let within = region.room in
        let bytes = length-all_edge_bytes edges in
        let field : edges_field kind edges pl.e pl.d ≡ pl.e =
          subst (λ k. edges_field k edges pl.e pl.d ≡ pl.e) (sym e) (unfold edges_field in refl) in
        sparse-found automaton node ch edges (ap kind_byte e) (omega arith) (omega arith)
          (subst (λ o. o + length edges * 8 ≤ length w.buffer) (sym field) (omega arith))
          (ap (read_edges (length edges) automaton) field ∙ read)

    moves_dense :
        (ch : ℕ)
        → ch < 256
        → kind ≡ dense
        → node_transition automaton node ch ≡ ok (get_transition ch edges)
    moves_dense ch octet e =
        let blank : List ℕ = replicate 256 0 in
        let blank_size : length blank ≡ 256 = length-replicate {A = ℕ} 256 0 in
        let region : Holds w.buffer pl.d (target_bytes (dense_targets edges blank)) =
          unfold body in
          (unfold body_start in
            (subst (λ k. Holds w.buffer (body_start k pl.e pl.d) (body k edges)) e
              pl.transitions)) in
        let field : edges_field kind edges pl.e pl.d ≡ pl.d =
          subst (λ k. edges_field k edges pl.e pl.d ≡ pl.d) (sym e) (unfold edges_field in refl) in
        let alike : (u : ℕ) → Member {A = ℕ × ℕ} (ch, u) edges → get_transition ch edges ≡ some u =
          λ u m. sorted_edges-Keyed host walks st.transitions keyed ch u m in
        elim (Option-cases (get_transition ch edges)) [
          | inl miss ↦
              let slot =
                get_elem?-dense_targets edges blank ch 0 (omega arith)
                  (λ u m. let contrary = alike u m in absurd (cc))
                  (inl (get_elem?-replicate_below 256 ch 0 octet)) in
              let cell =
                Holds-target_bytes (dense_targets edges blank) w.buffer pl.d ch 0 slot region in
              dense-none automaton node ch pl.d (ap kind_byte e) field (cell_room ch 0 cell)
                (u32_at-Holds w.buffer (pl.d + ch * 4) 0 (omega arith) cell)
              ∙ ap ok (sym miss)
          | inr (u, hit) ↦
              let (nonzero, small) = edge_target ch u hit in
              let slot =
                get_elem?-dense_targets edges blank ch u (omega arith)
                  (λ v m. let both = alike v m in cc_eq u v hit both)
                  (inr (u, Member-get_transition ch u edges hit)) in
              let cell =
                Holds-target_bytes (dense_targets edges blank) w.buffer pl.d ch u slot region in
              dense-some automaton node ch pl.d u (ap kind_byte e) field (cell_room ch u cell)
                (u32_at-Holds w.buffer (pl.d + ch * 4) u small cell) nonzero
              ∙ ap ok (sym hit)
        ]
      where
        cell_room :
            (ch v : ℕ)
            → Holds w.buffer (pl.d + ch * 4) (to_le_bytes 4 v)
            → pl.d + ch * 4 + 4 ≤ length w.buffer
        cell_room ch v cell = let r = cell.room in omega (arith, length-to_le_bytes 4 v)

        cc_eq : {o : Option ℕ} → (u v : ℕ) → o ≡ some u → o ≡ some v → v ≡ u
        cc_eq {o} u v a b = cc

    moves_node :
        (ch : ℕ) → ch < 256 → node_transition automaton node ch ≡ ok (get_transition ch edges)
    moves_node ch octet = by_kind kind refl
      where
        by_kind :
            (k : StateKind)
            → kind ≡ k
            → node_transition automaton node ch ≡ ok (get_transition ch edges)
        by_kind empty e = moves_empty ch e
        by_kind one e = moves_one ch e
        by_kind sparse e = moves_sparse ch e
        by_kind dense e = moves_dense ch octet e

    moves_state :
        (ch : ℕ) → ch < 256 → find_transition automaton (j * 16) ch ≡ ok (scaled (step states j ch))
    moves_state ch octet =
        let from : find_transition automaton (j * 16) ch ≡ node_transition automaton node ch =
          at_node automaton (j * 16) ch node reads_node in
        let on : step states j ch ≡ get_transition ch st.transitions =
          unfold step in rw there refl in
        from
        ∙ moves_node ch octet
        ∙ ap ok
            (get_transition-sorted_edges host walks st.transitions keyed ch ∙ ap scaled (sym on))

    reads_ids : ids_at automaton (j * 16) ≡ st.outputs
    reads_ids =
        let bound = few j st there in
        let count : node.pattern_count ≡ length st.outputs = omega arith in
        let ids : Holds w.buffer pl.p (all_id_bytes st.outputs) = pl.ids in
        let room = ids.room in
        let size = length-all_id_bytes st.outputs in
        let whole =
          read_ids-all_id_bytes automaton even st.outputs pl.p (λ id m. tidy.id j st id there m)
            ids in
        elim (Bool-cases (length st.outputs == 0)) [
          | inl none_left ↦
              ids_at-none automaton (j * 16) node reads_node (count ∙ ground arith)
              ∙ sym (no_ids st.outputs (ground arith))
          | inr full ↦
              let field : ids_field st pl.p ≡ pl.p = rw full refl in
              ids_at-some automaton (j * 16) node (length st.outputs) pl.p reads_node count field
                (fits-true automaton even pl.p (length st.outputs * 4) pl.even_p (omega arith))
              ∙ whole
        ]
      where
        no_ids : (ids : List ℕ) → length ids ≡ 0 → ids ≡ []
        no_ids [] e = refl
        no_ids (x ∷ ids) e = absurd (omega arith)

  pub written-Image : get_elem? states 0 ≢ none → Image automaton states
  written-Image root = record {
    some_byte = elim (Option-cases (get_elem? states 0)) [
      | inl nothing ↦ absurd (root nothing)
      | inr (st, there) ↦
          let low = tidy.failure 0 st there in let room = node_room 0 st there in ground arith
    ];
    reads = λ j st there. (node j st there, reads_node j st there, refl);
    ids = λ j st there. reads_ids j st there;
    moves = λ j ch st there octet. moves_state j st there ch octet;
  }
    where
      node_room : (j : ℕ) (st : BuilderState) → get_elem? states j ≡ some st → 16 ≤ length w.buffer
      node_room j st there =
          let h = (placed j st there).node in
          let r = h.room in
          let k = kind j st there in
          let es = edges j st there in
          omega (
            arith,
            length-node_bytes k (char_field k es) st
                (edges_field k es (placed j st there).e (placed j st there).d) (st.failure * 16)
                (ids_field st (placed j st there).p),
          )
