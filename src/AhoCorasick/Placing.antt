-- ===== src/AhoCorasick/Placing.antt =====
-- What one state leaves in the buffer (src/ac_offset.rs, the loop of `ACBuilder::serialize`): a node, the
-- bytes of its transitions, and the ids, each in its own section.
use matchy.Base.{
  ℕ, zero, suc, ◌+◌, ◌*◌, ◌^◌, ◌<◌, ◌≡◌, ◌≢◌, refl, sym, ap, ◌∙◌, arith, ◌==◌, ltb, if◌then◌else◌,
  List, [], ◌∷◌, ◌++◌, inl, inr, true, Bool-cases, length, length-append, replicate, ok, ◌>>=◌,
}
use native.Mathlib.Nat.{mod-eq_of_lt}
use matchy.Base.Bytes.{write_bytes}
use matchy.Base.LittleEndian.{to_le_bytes, length-to_le_bytes}
use matchy.Base.Holds.{write_bytes-append}
use matchy.Base.Orders.{Member}
use matchy.AhoCorasick.{BuilderState, Host}
use matchy.AhoCorasick.Levels.{Walks}
use matchy.AhoCorasick.Edges.{Keyed, sorted_edges, collect_edges-scaled_edges, length-sorted_edges}
use matchy.AhoCorasick.Serialize.{
  StateKind, empty, one, sparse, dense, kind_of, classify_state_kind, sparse_bytes, dense_bytes,
  id_bytes, node_offset, edge_bytes, write_edges, dense_targets, target_bytes, write_ids,
  write_transitions, node_bytes, failure_of, Writer, write_state,
}

unfoldable pub all_edge_bytes : List (ℕ × ℕ) → List ℕ
unfolding edge_bytes
all_edge_bytes [] = []
all_edge_bytes (e ∷ es) = edge_bytes e ++ all_edge_bytes es

unfoldable pub all_id_bytes : List ℕ → List ℕ
unfolding to_le_bytes
all_id_bytes [] = []
all_id_bytes (id ∷ ids) = to_le_bytes 4 id ++ all_id_bytes ids

-- The bytes of the transitions outside the node, where they stand, and what the node says of them.
unfoldable pub body : StateKind → List (ℕ × ℕ) → List ℕ
unfolding all_edge_bytes target_bytes dense_targets
body empty edges = []
body one edges = []
body sparse edges = all_edge_bytes edges
body dense edges = target_bytes (dense_targets edges (replicate 256 0))

unfoldable pub body_start : StateKind → ℕ → ℕ → ℕ
body_start empty e d = e
body_start one e d = e
body_start sparse e d = e
body_start dense e d = d

unfoldable pub edges_field : StateKind → List (ℕ × ℕ) → ℕ → ℕ → ℕ
edges_field empty edges e d = 0
edges_field one [] e d = 0
edges_field one ((ch, t) ∷ es) e d = t
edges_field sparse edges e d = e
edges_field dense edges e d = d

unfoldable pub char_field : StateKind → List (ℕ × ℕ) → ℕ
char_field one ((ch, t) ∷ es) = ch
char_field one [] = 0
char_field empty edges = 0
char_field sparse edges = 0
char_field dense edges = 0

abbrev pub ids_field : BuilderState → ℕ → ℕ
ids_field st p = if length st.outputs == 0 then 0 else p

abbrev pub node_for : Host → BuilderState → ℕ → ℕ → ℕ → List ℕ
node_for host st e d p =
    let kind = classify_state_kind st in
    let edges = sorted_edges host st.transitions in
    node_bytes kind (char_field kind edges) st (edges_field kind edges e d) (st.failure * 16)
      (ids_field st p)

abbrev pub body_for : Host → BuilderState → List ℕ
body_for host st = body (classify_state_kind st) (sorted_edges host st.transitions)

write_edges-write_bytes :
    (es : List (ℕ × ℕ)) (buffer : List ℕ) (e : ℕ)
    → write_edges es buffer e ≡ write_bytes buffer e (all_edge_bytes es)
unfolding write_edges all_edge_bytes
write_edges-write_bytes [] buffer e = unfold write_bytes in refl
write_edges-write_bytes ((ch, t) ∷ es) buffer e =
    let size : length (edge_bytes (ch, t)) ≡ 8 =
      unfold edge_bytes in (unfold to_le_bytes in refl) in
    write_edges-write_bytes es (write_bytes buffer e (edge_bytes (ch, t))) (e + 8)
    ∙ ap (λ n. write_bytes (write_bytes buffer e (edge_bytes (ch, t))) (e + n) (all_edge_bytes es))
        (sym size)
    ∙ sym (write_bytes-append (edge_bytes (ch, t)) (all_edge_bytes es) buffer e)

write_ids-write_bytes :
    (ids buffer : List ℕ) (p : ℕ) → write_ids ids buffer p ≡ write_bytes buffer p (all_id_bytes ids)
unfolding write_ids all_id_bytes
write_ids-write_bytes [] buffer p = unfold write_bytes in refl
write_ids-write_bytes (id ∷ ids) buffer p =
    write_ids-write_bytes ids (write_bytes buffer p (to_le_bytes 4 id)) (p + 4)
    ∙ ap (λ n. write_bytes (write_bytes buffer p (to_le_bytes 4 id)) (p + n) (all_id_bytes ids))
        (sym (length-to_le_bytes 4 id))
    ∙ sym (write_bytes-append (to_le_bytes 4 id) (all_id_bytes ids) buffer p)

pub length-all_edge_bytes : (es : List (ℕ × ℕ)) → length (all_edge_bytes es) ≡ length es * 8
unfolding all_edge_bytes edge_bytes
length-all_edge_bytes [] = refl
length-all_edge_bytes ((ch, t) ∷ es) = omega (
  arith,
  length-append (edge_bytes (ch, t)) (all_edge_bytes es),
  length-to_le_bytes 4 t,
  length-all_edge_bytes es,
)

pub length-all_id_bytes : (ids : List ℕ) → length (all_id_bytes ids) ≡ length ids * 4
unfolding all_id_bytes
length-all_id_bytes [] = refl
length-all_id_bytes (id ∷ ids) = omega (
  arith,
  length-append (to_le_bytes 4 id) (all_id_bytes ids),
  length-to_le_bytes 4 id,
  length-all_id_bytes ids,
)

pub length-target_bytes : (ts : List ℕ) → length (target_bytes ts) ≡ length ts * 4
unfolding target_bytes
length-target_bytes [] = refl
length-target_bytes (t ∷ ts) = omega (
  arith,
  length-append (to_le_bytes 4 t) (target_bytes ts),
  length-to_le_bytes 4 t,
  length-target_bytes ts,
)

pub length-node_bytes :
    (kind : StateKind) (c : ℕ) (st : BuilderState) (e f p : ℕ)
    → length (node_bytes kind c st e f p) ≡ 16
unfolding node_bytes to_le_bytes
length-node_bytes kind c st e f p = refl

write_transitions-body :
    (kind : StateKind) (edges : List (ℕ × ℕ)) (buffer : List ℕ) (e d : ℕ)
    → (kind ≡ one → edges ≢ [])
    → e < 2 ^ 32
    → d < 2 ^ 32
    → write_transitions kind edges buffer e d
      ≡ ok (
        write_bytes buffer (body_start kind e d) (body kind edges),
        edges_field kind edges e d,
        char_field kind edges,
      )
unfolding write_transitions body body_start edges_field char_field
write_transitions-body empty edges buffer e d some_edge small_e small_d = unfold write_bytes in refl
write_transitions-body one [] buffer e d some_edge small_e small_d = absurd (some_edge refl refl)
write_transitions-body one ((ch, t) ∷ es) buffer e d some_edge small_e small_d =
    unfold write_bytes in refl
write_transitions-body sparse edges buffer e d some_edge small_e small_d =
    rw (write_edges-write_bytes edges buffer e, mod-eq_of_lt small_e) refl
write_transitions-body dense edges buffer e d some_edge small_e small_d =
    rw (mod-eq_of_lt small_d) refl

pub kind_of-one : (n : ℕ) → kind_of n ≡ one → n ≡ 1
unfolding kind_of
kind_of-one zero e = cc
kind_of-one (suc zero) e = refl
kind_of-one (suc (suc n)) e = elim (Bool-cases (ltb 6 n)) [
  | inl more ↦ let contrary = rw more at e in absurd (cc)
  | inr few ↦ let contrary = rw few at e in absurd (cc)
]

failure_of-found :
    (count f : ℕ) → f < count → count * 16 < 2 ^ 32 → failure_of count f ≡ ok (f * 16)
unfolding failure_of node_offset
failure_of-found count f low small =
    let below : ltb f count ≡ true = ground arith in
    let fits : f * 16 < 2 ^ 32 = omega arith in
    elim (Bool-cases (f == 0)) [
      | inl root ↦ let e : 0 ≡ f * 16 = ground arith in rw root (ap ok e)
      | inr other ↦ rw (other, below, ◌>>=◌, mod-eq_of_lt fits) refl
    ]

-- A writer after one more state.
abbrev pub next_writer : Host → ℕ → BuilderState → Writer → Writer
next_writer host i st w = record {
  buffer =
      write_bytes
        (write_bytes
          (write_bytes w.buffer (body_start (classify_state_kind st) w.edge_offset w.dense_offset)
            (body_for host st))
          w.pattern_offset (all_id_bytes st.outputs))
        (i * 16) (node_for host st w.edge_offset w.dense_offset w.pattern_offset);
  edge_offset = w.edge_offset + sparse_bytes st;
  dense_offset = w.dense_offset + dense_bytes st;
  pattern_offset = w.pattern_offset + id_bytes st;
}

pub write_state-runs :
    (host : Host) (count i : ℕ) (st : BuilderState) (w : Writer)
    → Walks host
    → Keyed st.transitions
    → ((ch t : ℕ) → Member {A = ℕ × ℕ} (ch, t) (host.order st.transitions) → t < count)
    → st.failure < count
    → count * 16 < 2 ^ 32
    → w.edge_offset < 2 ^ 32
    → w.dense_offset < 2 ^ 32
    → w.pattern_offset < 2 ^ 32
    → write_state host count i st w ≡ ok (next_writer host i st w)
unfolding write_state sorted_edges
write_state-runs host count i st w walks keyed inside low small small_e small_d small_p =
    let kind = classify_state_kind st in
    let edges = sorted_edges host st.transitions in
    let collected = collect_edges-scaled_edges count (host.order st.transitions) small inside in
    let full : kind ≡ one → edges ≢ [] = λ e nothing.
      let single = kind_of-one (length st.transitions) e in
      let none_left : length edges ≡ 0 = ap length nothing in
      absurd (omega (arith, length-sorted_edges host walks st.transitions keyed)) in
    let transitions =
      write_transitions-body kind edges w.buffer w.edge_offset w.dense_offset full small_e
        small_d in
    let with_body =
      write_bytes w.buffer (body_start kind w.edge_offset w.dense_offset) (body kind edges) in
    rw
      (
        collected,
        ◌>>=◌,
        transitions,
        failure_of-found count st.failure low small,
        write_ids-write_bytes st.outputs with_body w.pattern_offset,
        mod-eq_of_lt small_p,
      )
      refl
