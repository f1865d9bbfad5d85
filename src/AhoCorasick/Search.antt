-- ===== src/AhoCorasick/Search.antt =====
-- The search in the bytes of the automaton (src/ac_offset.rs, `find_transition`,
-- `find_with_positions_bytes` and `find_pattern_ids_bytes`). The address of the buffer counts, because
-- zerocopy refuses a reference that is not aligned; integers are little-endian. The loop over failure
-- links is on fuel, which bytes that are no automaton can use up.
use matchy.Base.{
  Bool, ℕ, zero, suc, ◌+◌, ◌*◌, ◌%◌, ◌==◌, ◌&&◌, ltb, leb, if◌then◌else◌, List, [], ◌∷◌, ◌++◌,
  length, take, drop, map, Option, none, some, Result, ok, err, ◌>>=◌,
}
use Prim.Native.Nat.{min}
use matchy.Base.Results.{panic, out_of_fuel}
use matchy.Base.LittleEndian.{from_le_bytes}
use matchy.AhoCorasick.{get_transition}

pub record AcNodeHot : Type 0 where
  pub state_kind : ℕ
  pub one_char : ℕ
  pub edge_count : ℕ
  pub pattern_count : ℕ
  pub edges_offset : ℕ
  pub failure_offset : ℕ
  pub patterns_offset : ℕ

-- The buffer, and where it lies in memory.
pub record AcAutomaton : Type 0 where
  pub buffer : List ℕ
  pub address : ℕ

-- `u32` at an offset that is in range
unfoldable pub u32_at : List ℕ → ℕ → ℕ
unfolding from_le_bytes
u32_at buffer i = from_le_bytes (take 4 (drop i buffer))

unfoldable pub node_of : List ℕ → Option AcNodeHot
unfolding u32_at
node_of (kind ∷ one ∷ edges ∷ patterns ∷ rest) = some (record {
  state_kind = kind;
  one_char = one;
  edge_count = edges;
  pattern_count = patterns;
  edges_offset = u32_at rest 0;
  failure_offset = u32_at rest 4;
  patterns_offset = u32_at rest 8;
})
node_of bytes = none

-- `Ref::<_, T>::from_prefix` for a type of so many bytes that is aligned to four.
unfoldable pub fits : AcAutomaton → ℕ → ℕ → Bool
fits automaton offset size =
    (automaton.address + offset) % 4 == 0 && leb (offset + size) (length automaton.buffer)

-- `buffer.get(offset..)` and `Ref::<_, ACNodeHot>::from_prefix`
unfoldable pub read_node : AcAutomaton → ℕ → Option AcNodeHot
unfolding node_of fits
read_node automaton offset =
    if fits automaton offset 16 then node_of (drop offset automaton.buffer) else none

-- The edges of a sparse state, one after the other.
unfoldable pub read_edges : ℕ → AcAutomaton → ℕ → Option (List (ℕ × ℕ))
unfolding u32_at fits
read_edges zero automaton offset = some []
read_edges (suc count) automaton offset =
    let rest = read_edges count automaton (offset + 8) in
    let character = from_le_bytes (take 1 (drop offset automaton.buffer)) in
    let target = u32_at automaton.buffer (offset + 4) in
    if fits automaton offset 8
    then elim rest [ none ↦ none | some edges ↦ some ((character, target) ∷ edges) ]
    else none

-- `StateKind::Sparse`: `chars` has eight bytes, and `chars[..count]` panics beyond.
unfoldable pub sparse_transition : AcAutomaton → AcNodeHot → ℕ → Result (Option ℕ)
unfolding read_edges get_transition
sparse_transition automaton node ch =
    let count = node.edge_count in
    let searched : Result (Option ℕ) =
      (if ltb 8 count then err panic else elim (read_edges count automaton node.edges_offset) [
        | none ↦ ok none
        | some edges ↦ ok (get_transition ch edges)
      ]) in
    let collected : Result (Option ℕ) =
      elim (read_edges (min count 8) automaton node.edges_offset) [
        | none ↦ ok none
        | some edges ↦ searched
      ] in
    if leb (node.edges_offset + count * 8) (length automaton.buffer) then collected else ok none

-- `StateKind::Dense`
unfoldable pub dense_transition : AcAutomaton → AcNodeHot → ℕ → Option ℕ
unfolding u32_at
dense_transition automaton node ch =
    let offset = node.edges_offset + ch * 4 in
    let target = u32_at automaton.buffer offset in
    if leb (offset + 4) (length automaton.buffer)
    then (if target == 0 then none else some target)
    else none

-- `match kind`: 0 is Empty, 1 One, 2 Sparse and 3 Dense.
unfoldable pub node_transition : AcAutomaton → AcNodeHot → ℕ → Result (Option ℕ)
unfolding sparse_transition dense_transition
node_transition automaton node ch =
    if node.state_kind == 1
    then ok (if node.one_char == ch then some node.edges_offset else none)
    else if node.state_kind == 2
    then sparse_transition automaton node ch
    else if node.state_kind == 3
    then ok (dense_transition automaton node ch)
    else ok none

unfoldable pub find_transition : AcAutomaton → ℕ → ℕ → Result (Option ℕ)
unfolding read_node node_transition
find_transition automaton node_offset ch = elim (read_node automaton node_offset) [
  | none ↦ ok none
  | some node ↦ node_transition automaton node ch
]

-- `while next_offset.is_none() && current_offset != 0`, on fuel
unfoldable pub follow : ℕ → AcAutomaton → ℕ → ℕ → Option ℕ → Result (Option ℕ)
unfolding read_node find_transition
follow zero automaton current ch next = err out_of_fuel
follow (suc fuel) automaton current ch (some next) = ok (some next)
follow (suc fuel) automaton current ch none =
    let behind_failure = λ (failure : ℕ). (do
      next ← find_transition automaton failure ch
      follow fuel automaton failure ch next) in
    let onward : Result (Option ℕ) = elim (read_node automaton current) [
      | none ↦ ok none
      | some node ↦ if node.failure_offset == 0 then ok none else behind_failure node.failure_offset
    ] in
    if current == 0 then ok none else onward

-- The node behind one byte of the text.
unfoldable pub next_node : ℕ → AcAutomaton → ℕ → ℕ → Result ℕ
unfolding find_transition follow
next_node fuel automaton current ch = do
  next ← find_transition automaton current ch
  next ← follow fuel automaton current ch next
  next ← elim next [ none ↦ find_transition automaton 0 ch | some t ↦ ok (some t) ]
  ok (elim next [ none ↦ 0 | some t ↦ t ])

unfoldable pub read_ids : ℕ → List ℕ → ℕ → List ℕ
unfolding u32_at
read_ids zero buffer offset = []
read_ids (suc count) buffer offset = u32_at buffer offset ∷ read_ids count buffer (offset + 4)

-- The pattern ids of a node.
unfoldable pub ids_at : AcAutomaton → ℕ → List ℕ
unfolding read_node read_ids fits
ids_at automaton current = elim (read_node automaton current) [
  | none ↦ []
  | some node ↦
      if fits automaton node.patterns_offset (node.pattern_count * 4)
      then read_ids node.pattern_count automaton.buffer node.patterns_offset
      else []
]

unfoldable pub positions_from : ℕ → AcAutomaton → List ℕ → ℕ → ℕ → Result (List (ℕ × ℕ))
unfolding next_node ids_at
positions_from fuel automaton [] pos current = ok []
positions_from fuel automaton (ch ∷ text) pos current = do
  current ← next_node fuel automaton current ch
  rest ← positions_from fuel automaton text (pos + 1) current
  ok (map (λ id. (pos + 1, id)) (ids_at automaton current) ++ rest)

unfoldable pub find_with_positions_bytes : ℕ → AcAutomaton → List ℕ → Result (List (ℕ × ℕ))
unfolding positions_from
find_with_positions_bytes fuel automaton text =
    if length automaton.buffer == 0 then ok [] else positions_from fuel automaton text 0 0

unfoldable pub ids_from : ℕ → AcAutomaton → List ℕ → ℕ → Result (List ℕ)
unfolding next_node ids_at
ids_from fuel automaton [] current = ok []
ids_from fuel automaton (ch ∷ text) current = do
  current ← next_node fuel automaton current ch
  rest ← ids_from fuel automaton text current
  ok (ids_at automaton current ++ rest)

-- `sort_unstable`, by insertion.
unfoldable pub insert_sorted : ℕ → List ℕ → List ℕ
insert_sorted x [] = x ∷ []
insert_sorted x (y ∷ ys) =
    let later = insert_sorted x ys in if leb x y then x ∷ y ∷ ys else y ∷ later

unfoldable pub sort_unstable : List ℕ → List ℕ
unfolding insert_sorted
sort_unstable [] = []
sort_unstable (x ∷ xs) = insert_sorted x (sort_unstable xs)

-- `dedup`: an element goes when it equals the one before.
unfoldable pub dedup_behind : ℕ → List ℕ → List ℕ
dedup_behind x [] = []
dedup_behind x (y ∷ ys) = let rest = dedup_behind y ys in if x == y then rest else y ∷ rest

unfoldable pub dedup : List ℕ → List ℕ
unfolding dedup_behind
dedup [] = []
dedup (x ∷ xs) = x ∷ dedup_behind x xs

unfoldable pub find_pattern_ids_bytes : ℕ → AcAutomaton → List ℕ → Result (List ℕ)
unfolding ids_from sort_unstable dedup
find_pattern_ids_bytes fuel automaton text =
    let found = (do ids ← ids_from fuel automaton text 0; ok (dedup (sort_unstable ids))) in
    if length automaton.buffer == 0 then ok [] else found
