-- ===== src/AhoCorasick/Serialize.antt =====
-- The writer of the automaton's bytes (src/ac_offset.rs, `ACBuilder::serialize` and
-- `ACAutomaton::build`): nodes, edges of sparse states, tables of dense states, ids of patterns. A write
-- through a pointer is a run of bytes written into the buffer.
use matchy.Base.{
  ℕ, zero, suc, ◌+◌, ◌-◌, ◌*◌, ◌%◌, ◌^◌, ◌==◌, ltb, leb, if◌then◌else◌, List, [], ◌∷◌, ◌++◌, length,
  replicate, set, Result, ok, err, ◌>>=◌, ◌>>◌, guard,
}
use Prim.Native.Nat.{min}
use matchy.Base.Results.{panic, resource_limit}
use matchy.Base.Bytes.{write_bytes}
use matchy.Base.LittleEndian.{to_le_bytes}
use matchy.Glob.{MatchMode}
use matchy.AhoCorasick.{BuilderState, Host, build_states}

pub data StateKind : Type 0 where
  empty one sparse dense : StateKind

-- `kind as u8`
abbrev pub kind_byte : StateKind → ℕ
kind_byte empty = 0
kind_byte one = 1
kind_byte sparse = 2
kind_byte dense = 3

-- The match of `classify_state_kind`, for a number of transitions.
unfoldable pub kind_of : ℕ → StateKind
kind_of zero = empty
kind_of (suc zero) = one
kind_of (suc (suc more)) = if ltb 6 more then dense else sparse

abbrev pub classify_state_kind : BuilderState → StateKind
classify_state_kind st = kind_of (length st.transitions)

-- The bytes that a state takes in each section.
unfoldable pub sparse_bytes : BuilderState → ℕ
unfolding kind_of
sparse_bytes st = elim (classify_state_kind st) [
  | sparse ↦ length st.transitions * 8
  | empty ↦ 0
  | one ↦ 0
  | dense ↦ 0
]

unfoldable pub dense_bytes : BuilderState → ℕ
unfolding kind_of
dense_bytes st = elim (classify_state_kind st) [ dense ↦ 1024 | empty ↦ 0 | one ↦ 0 | sparse ↦ 0 ]

abbrev pub id_bytes : BuilderState → ℕ
id_bytes st = length st.outputs * 4

unfoldable pub sum_of : (BuilderState → ℕ) → List BuilderState → ℕ
sum_of size [] = 0
sum_of size (st ∷ states) = size st + sum_of size states

-- Where the sections start, and where the last one ends.
unfoldable pub edges_start : List BuilderState → ℕ
edges_start states = length states * 16

unfoldable pub dense_start : List BuilderState → ℕ
unfolding edges_start sum_of sparse_bytes
dense_start states =
    let unaligned_dense_start = edges_start states + sum_of sparse_bytes states in
    unaligned_dense_start + (64 - unaligned_dense_start % 64) % 64

unfoldable pub patterns_start : List BuilderState → ℕ
unfolding dense_start dense_bytes
patterns_start states = dense_start states + sum_of dense_bytes states

unfoldable pub total_size : List BuilderState → ℕ
unfolding patterns_start
total_size states = patterns_start states + sum_of id_bytes states

-- `node_offsets[target]`
unfoldable pub node_offset : ℕ → ℕ → Result ℕ
node_offset count target = if ltb target count then ok (target * 16) else err panic

-- The edges of a state, from the walk over its map.
unfoldable pub collect_edges : ℕ → List (ℕ × ℕ) → Result (List (ℕ × ℕ))
unfolding node_offset
collect_edges count [] = ok []
collect_edges count ((ch, target) ∷ ts) = do
  offset ← node_offset count target
  edges ← collect_edges count ts
  ok ((ch, offset % 2 ^ 32) ∷ edges)

-- `sort_by_key`, by insertion.
unfoldable pub insert_edge : ℕ × ℕ → List (ℕ × ℕ) → List (ℕ × ℕ)
insert_edge e [] = e ∷ []
insert_edge e (f ∷ fs) =
    let behind = insert_edge e fs in if leb e.0 f.0 then e ∷ f ∷ fs else f ∷ behind

unfoldable pub sort_by_key : List (ℕ × ℕ) → List (ℕ × ℕ)
unfolding insert_edge
sort_by_key [] = []
sort_by_key (e ∷ es) = insert_edge e (sort_by_key es)

-- `ACEdge`
unfoldable pub edge_bytes : ℕ × ℕ → List ℕ
unfolding to_le_bytes
edge_bytes (ch, target) = ch ∷ 0 ∷ 0 ∷ 0 ∷ to_le_bytes 4 target

unfoldable pub write_edges : List (ℕ × ℕ) → List ℕ → ℕ → List ℕ
unfolding edge_bytes write_bytes
write_edges [] buffer edge_offset = buffer
write_edges (e ∷ es) buffer edge_offset =
    write_edges es (write_bytes buffer edge_offset (edge_bytes e)) (edge_offset + 8)

-- `DenseLookup`
unfoldable pub dense_targets : List (ℕ × ℕ) → List ℕ → List ℕ
dense_targets [] targets = targets
dense_targets ((ch, target) ∷ es) targets = dense_targets es (set targets ch target)

unfoldable pub target_bytes : List ℕ → List ℕ
unfolding to_le_bytes
target_bytes [] = []
target_bytes (t ∷ ts) = to_le_bytes 4 t ++ target_bytes ts

unfoldable pub write_ids : List ℕ → List ℕ → ℕ → List ℕ
unfolding to_le_bytes write_bytes
write_ids [] buffer pattern_offset = buffer
write_ids (id ∷ ids) buffer pattern_offset =
    write_ids ids (write_bytes buffer pattern_offset (to_le_bytes 4 id)) (pattern_offset + 4)

-- `match kind`: the buffer with the edges, and `edges_offset` and `one_char` of the node.
unfoldable pub write_transitions :
    StateKind → List (ℕ × ℕ) → List ℕ → ℕ → ℕ → Result (List ℕ × ℕ × ℕ)
unfolding write_edges dense_targets target_bytes write_bytes
write_transitions empty edges buffer edge_offset dense_offset = ok (buffer, 0, 0)
write_transitions one [] buffer edge_offset dense_offset = err panic
write_transitions one ((ch, target) ∷ es) buffer edge_offset dense_offset = ok (buffer, target, ch)
write_transitions sparse edges buffer edge_offset dense_offset =
    ok (write_edges edges buffer edge_offset, edge_offset % 2 ^ 32, 0)
write_transitions dense edges buffer edge_offset dense_offset = ok (
  write_bytes buffer dense_offset (target_bytes (dense_targets edges (replicate 256 0))),
  dense_offset % 2 ^ 32,
  0,
)

-- `ACNodeHot`
unfoldable pub node_bytes : StateKind → ℕ → BuilderState → ℕ → ℕ → ℕ → List ℕ
unfolding to_le_bytes
node_bytes kind one_char st edges_offset failure_offset patterns_offset =
    kind_byte kind
      ∷ one_char
      ∷ min (length st.transitions) 255
      ∷ min (length st.outputs) 255
      ∷ to_le_bytes 4 edges_offset
    ++ to_le_bytes 4 failure_offset
    ++ to_le_bytes 4 patterns_offset

unfoldable pub failure_of : ℕ → ℕ → Result ℕ
unfolding node_offset
failure_of count failure =
    let onward = (do offset ← node_offset count failure; ok (offset % 2 ^ 32)) in
    if failure == 0 then ok 0 else onward

-- The buffer and the offsets that move through its sections.
pub record Writer : Type 0 where
  pub buffer : List ℕ
  pub edge_offset : ℕ
  pub dense_offset : ℕ
  pub pattern_offset : ℕ

-- One round of the loop over the states.
unfoldable pub write_state : Host → ℕ → ℕ → BuilderState → Writer → Result Writer
unfolding collect_edges sort_by_key write_transitions write_ids node_bytes failure_of sparse_bytes
    dense_bytes kind_of
write_state host count i st w = do
  edges ← collect_edges count (host.order st.transitions)
  let kind = classify_state_kind st
  (buffer, edges_offset, one_char) ←
      write_transitions kind (sort_by_key edges) w.buffer w.edge_offset w.dense_offset
  let patterns_offset = if length st.outputs == 0 then 0 else w.pattern_offset % 2 ^ 32
  failure_offset ← failure_of count st.failure
  let with_ids = write_ids st.outputs buffer w.pattern_offset
  ok (record {
    buffer =
        write_bytes with_ids (i * 16)
          (node_bytes kind one_char st edges_offset failure_offset patterns_offset);
    edge_offset = w.edge_offset + sparse_bytes st;
    dense_offset = w.dense_offset + dense_bytes st;
    pattern_offset = w.pattern_offset + id_bytes st;
  })

unfoldable pub write_states : Host → ℕ → List BuilderState → ℕ → Writer → Result Writer
unfolding write_state
write_states host count [] i w = ok w
write_states host count (st ∷ states) i w = do
  w ← write_state host count i st w
  write_states host count states (i + 1) w

unfoldable pub serialize : Host → List BuilderState → Result (List ℕ)
unfolding write_states total_size
serialize host states = do
  guard (leb (total_size states) 2000000000) resource_limit
  w ← write_states host (length states) states 0 (record {
    buffer = replicate (total_size states) 0;
    edge_offset = edges_start states;
    dense_offset = dense_start states;
    pattern_offset = patterns_start states;
  })
  ok w.buffer

-- `ACAutomaton::build`: the buffer.
unfoldable pub build_automaton : Host → MatchMode → List (List ℕ) → Result (List ℕ)
unfolding build_states serialize
build_automaton host mode patterns = do
  builder ← build_states host mode patterns
  serialize host builder.states
