-- ===== src/AhoCorasick/Panics.antt =====
-- Where a step through the bytes of the automaton panics (src/ac_offset.rs, `find_transition`).
use matchy.Base.{
  ℕ, zero, suc, ◌+◌, ◌*◌, ◌%◌, ◌≤◌, ◌<◌, ◌≡◌, ◌↔◌, refl, sym, ap, ◌∙◌, subst, arith, ◌==◌, ltb, leb,
  List, [], inl, inr, true, false, Bool-cases, Option-cases, length, none, some, ok, err,
}
use Prim.Native.Nat.{min}
use matchy.Base.Results.{panic}
use matchy.AhoCorasick.Search.{
  AcAutomaton, AcNodeHot, fits, read_node, read_edges, sparse_transition, node_transition,
  find_transition,
}

-- Edges beyond the eight that a sparse state has room for, all of them within the bytes.
abbrev pub Crowded : AcAutomaton → AcNodeHot → Type 0
Crowded automaton node =
    (node.state_kind ≡ 2)
    × (8 < node.edge_count)
    × (node.edges_offset + node.edge_count * 8 ≤ length automaton.buffer)
    × ((automaton.address + node.edges_offset) % 4 ≡ 0)

module _ (automaton : AcAutomaton) where
  read_edges-some :
      (count offset : ℕ)
      → (automaton.address + offset) % 4 ≡ 0
      → offset + count * 8 ≤ length automaton.buffer
      → (edges : List (ℕ × ℕ)) × (read_edges count automaton offset ≡ some edges)
  unfolding read_edges fits
  read_edges-some zero offset aligned room = ([], refl)
  read_edges-some (suc count) offset aligned room =
      let (edges, found) = read_edges-some count (offset + 8) (omega arith) (omega arith) in
      let even : ((automaton.address + offset) % 4 == 0) ≡ true = ground arith in
      let wide : leb (offset + 8) (length automaton.buffer) ≡ true = ground arith in
      elim (Option-cases (read_edges (suc count) automaton offset)) [
        | inl nothing ↦ let contrary = rw (even, wide, found) at nothing in absurd (cc)
        | inr (whole, there) ↦ (whole, there)
      ]

  read_edges-none :
      (count offset : ℕ)
      → ((automaton.address + offset) % 4 == 0) ≡ false
      → read_edges (suc count) automaton offset ≡ none
  unfolding read_edges fits
  read_edges-none count offset odd = rw odd refl

  module _ (node : AcNodeHot) (ch : ℕ) where
    Crowded-panic : Crowded automaton node → sparse_transition automaton node ch ≡ err panic
    unfolding sparse_transition
    Crowded-panic (kind, many, room, aligned) =
        let wide : leb (node.edges_offset + node.edge_count * 8) (length automaton.buffer) ≡ true =
          ground arith in
        let more : ltb 8 node.edge_count ≡ true = ground arith in
        let eight : min node.edge_count 8 ≡ 8 = omega arith in
        let (edges, found) = read_edges-some 8 node.edges_offset aligned (omega arith) in
        let found' = ap (λ n. read_edges n automaton node.edges_offset) eight ∙ found in
        rw (wide, found', more) refl

    panic-Crowded :
        node.state_kind ≡ 2
        → sparse_transition automaton node ch ≡ err panic
        → Crowded automaton node
    unfolding sparse_transition
    panic-Crowded kind fails =
        elim (Bool-cases
          (leb (node.edges_offset + node.edge_count * 8) (length automaton.buffer))) [
            | inr narrow ↦ let contrary : ok none ≡ err panic = rw narrow at fails in absurd (cc)
            | inl wide ↦ elim (Bool-cases (ltb 8 node.edge_count)) [
              | inl more ↦
                  let many : 8 < node.edge_count = ground arith in
                  let eight : min node.edge_count 8 ≡ 8 = omega arith in
                  elim (Bool-cases ((automaton.address + node.edges_offset) % 4 == 0)) [
                    | inl even ↦ (kind, many, ground arith, ground arith)
                    | inr odd ↦
                        let miss =
                          ap (λ n. read_edges n automaton node.edges_offset) eight
                          ∙ read_edges-none 7 node.edges_offset odd in
                        let contrary : ok none ≡ err panic = rw (wide, miss) at fails in absurd (cc)
                  ]
              | inr few ↦
                  elim (Option-cases
                    (read_edges (min node.edge_count 8) automaton node.edges_offset)) [
                      | inl miss ↦
                          let contrary : ok none ≡ err panic = rw (wide, miss) at fails in
                          absurd (cc)
                      | inr (es, hit) ↦
                          elim (Option-cases
                            (read_edges node.edge_count automaton node.edges_offset)) [
                              | inl miss ↦
                                  let contrary = rw (wide, hit, few, miss) at fails in absurd (cc)
                              | inr (edges, found) ↦
                                  let contrary = rw (wide, hit, few, found) at fails in absurd (cc)
                            ]
                    ]
            ]
          ]

    node_transition-Crowded : node_transition automaton node ch ≡ err panic ↔ Crowded automaton node
    unfolding node_transition
    node_transition-Crowded = elim (Bool-cases (node.state_kind == 1)) [
      | inl one ↦ (
        λ fails. let contrary = rw one at fails in absurd (cc),
        λ crowded. let kind = crowded.0 in absurd (ground arith),
      )
      | inr not_one ↦ elim (Bool-cases (node.state_kind == 2)) [
        | inl two ↦ (
          λ fails. panic-Crowded (ground arith) (rw (not_one, two) at fails),
          λ crowded. rw (not_one, two) (Crowded-panic crowded),
        )
        | inr not_two ↦ (
          λ fails. elim (Bool-cases (node.state_kind == 3)) [
            | inl three ↦ let contrary = rw (not_one, not_two, three) at fails in absurd (cc)
            | inr other ↦ let contrary = rw (not_one, not_two, other) at fails in absurd (cc)
          ],
          λ crowded. let kind = crowded.0 in absurd (ground arith),
        )
      ]
    ]

  -- In any bytes, at any offset and for any byte: `find_transition` panics just where a node with the kind
  -- of a sparse state stands that has more than eight edges, all of them in aligned bytes of the buffer.
  pub find_transition-Crowded :
      (offset ch : ℕ)
      → find_transition automaton offset ch ≡ err panic
        ↔ ((node : AcNodeHot) × (read_node automaton offset ≡ some node) × Crowded automaton node)
  unfolding find_transition
  find_transition-Crowded offset ch = elim (Option-cases (read_node automaton offset)) [
    | inl nothing ↦ (
      λ fails. let contrary = rw (find_transition, nothing) at fails in absurd (cc),
      λ (node, found, crowded). absurd (cc),
    )
    | inr (node, found) ↦
        let (down, up) = node_transition-Crowded node ch in
        (
          λ fails.
              let crowded = down (rw (find_transition, found) at fails) in (node, found, crowded),
          λ (node', found', crowded).
              let both : some node ≡ some node' = sym found ∙ found' in
              let this : node' ≡ node = cc in
              rw (find_transition, found) (up (subst (Crowded automaton) this crowded)),
        )
  ]
