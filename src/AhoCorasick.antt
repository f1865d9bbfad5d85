-- ===== src/AhoCorasick.antt =====
-- The Aho-Corasick automaton (src/ac_offset.rs): the builder, with its trie, failure links and outputs. A
-- pattern is the list of its bytes. `MatchMode` has the constructors of that of src/glob.rs, and the
-- model uses that type. `depth` in `add_pattern`, a u8 that wraps around in a release build, is never
-- read, and is left out, as is the id that `add_pattern` returns and `build` drops.
pub mod Trie
pub mod Chains
pub mod Links
pub mod Levels
pub mod Queue
pub mod FailureLinks
pub mod Steady
pub mod Insert
pub mod Paths
pub mod Stored
pub mod Filling
pub mod Words
pub mod Suffixes
pub mod Automaton
pub mod Search
pub mod Serialize
pub mod Walk
pub mod Machine
pub mod Positions
pub mod Edges
pub mod Placing
pub mod Sections
pub mod Imaging
pub mod EdgeSearch
pub mod Encodings
pub mod Layout
pub mod Occurrences
pub mod Reports
pub mod Panics
mod Examples
use matchy.Base.{
  ℕ, zero, suc, ◌+◌, ◌%◌, ◌^◌, ◌==◌, if◌then◌else◌, List, [], ◌∷◌, ◌++◌, length, get_elem?, set,
  map, Option, none, some, Result, ok, err, ◌>>=◌, ◌>>◌,
}
use Prim.Native.Nat.{max}
use matchy.Base.Results.{panic, out_of_fuel, invalid_pattern}
use matchy.Glob.{MatchMode, case_sensitive, case_insensitive}

-- The map of transitions is a list of pairs with distinct bytes.
pub record BuilderState : Type 0 where
  pub transitions : List (ℕ × ℕ)
  pub failure : ℕ
  pub outputs : List ℕ

pub record AcBuilder : Type 0 where
  pub states : List BuilderState
  pub mode : MatchMode
  pub patterns : List (List ℕ)

-- What comes from elsewhere: `str::to_lowercase`, and the order in which a `HashMap` is walked.
pub record Host : Type 0 where
  pub to_lowercase : List ℕ → List ℕ
  pub order : List (ℕ × ℕ) → List (ℕ × ℕ)

-- `BuilderState::new`
abbrev pub new_state : BuilderState
new_state = record { transitions = []; failure = 0; outputs = [] }

unfoldable pub new : MatchMode → AcBuilder
new mode = record { states = new_state ∷ []; mode = mode; patterns = [] }

-- `transitions.get(&ch)`
unfoldable pub get_transition : ℕ → List (ℕ × ℕ) → Option ℕ
get_transition ch [] = none
get_transition ch ((c, t) ∷ ts) =
    let rest = get_transition ch ts in if c == ch then some t else rest

-- `self.states[i]`
unfoldable pub state_at : List BuilderState → ℕ → Result BuilderState
state_at states i = elim (get_elem? states i) [ none ↦ err panic | some s ↦ ok s ]

-- One byte of a pattern: the state behind it, made if it is not there.
unfoldable pub advance : List BuilderState → ℕ → ℕ → Result (List BuilderState × ℕ)
unfolding state_at get_transition
advance states current ch = do
  s ← state_at states current
  let new_id = length states % 2 ^ 32
  let grown =
      set (states ++ new_state ∷ []) current
        (record s { transitions = (ch, new_id) ∷ s.transitions })
  elim (get_transition ch s.transitions) [
    | some next ↦ ok (states, next)
    | none ↦ ok (grown, new_id)
  ]

unfoldable pub walk_path : List ℕ → List BuilderState → ℕ → Result (List BuilderState × ℕ)
unfolding advance
walk_path [] states current = ok (states, current)
walk_path (ch ∷ bytes) states current = do
  (states, next) ← advance states current ch
  walk_path bytes states next

-- `match self.mode` in `add_pattern`
abbrev pub pattern_bytes : Host → MatchMode → List ℕ → List ℕ
pattern_bytes host case_sensitive pattern = pattern
pattern_bytes host case_insensitive pattern = host.to_lowercase pattern

unfoldable pub add_pattern : Host → AcBuilder → List ℕ → Result AcBuilder
unfolding walk_path state_at
add_pattern host builder pattern = do
  let pattern_id = length builder.patterns % 2 ^ 32
  (states, current) ← walk_path (pattern_bytes host builder.mode pattern) builder.states 0
  s ← state_at states current
  ok (record builder {
    states = set states current (record s { outputs = s.outputs ++ pattern_id ∷ [] });
    patterns = builder.patterns ++ pattern ∷ [];
  })

-- `while fail != 0`, on fuel: a state on the chain of failure links with a transition.
unfoldable pub find_failure : ℕ → List BuilderState → ℕ → ℕ → Result (Option ℕ)
unfolding state_at get_transition
find_failure zero states fail ch = err out_of_fuel
find_failure (suc fuel) states fail ch =
    let onward = (do
      s ← state_at states fail
      let further = find_failure fuel states s.failure ch
      elim (get_transition ch s.transitions) [ some target ↦ ok (some target) | none ↦ further ]) in
    if fail == 0 then ok none else onward

-- "If not found, check root"
unfoldable pub root_failure : List BuilderState → ℕ → ℕ → Result ℕ
unfolding state_at get_transition
root_failure states next_state ch = do
  root ← state_at states 0
  ok (elim (get_transition ch root.transitions) [
    | some target ↦ if target == next_state then 0 else target
    | none ↦ 0
  ])

-- `while suffix_state != 0`, on fuel: what the states on the chain add to the outputs.
unfoldable pub suffix_outputs : ℕ → List BuilderState → ℕ → Result (List ℕ)
unfolding state_at
suffix_outputs zero states suffix_state = err out_of_fuel
suffix_outputs (suc fuel) states suffix_state =
    let onward = (do
      s ← state_at states suffix_state
      rest ← suffix_outputs fuel states s.failure
      ok (s.outputs ++ rest)) in
    if suffix_state == 0 then ok [] else onward

-- The failure link, from what the loop found.
unfoldable pub chosen_failure : Option ℕ → List BuilderState → ℕ → ℕ → Result ℕ
unfolding root_failure
chosen_failure (some target) states next_state ch = ok target
chosen_failure none states next_state ch = root_failure states next_state ch

-- One transition of the state that was taken from the queue.
unfoldable pub link : ℕ → List BuilderState → ℕ → ℕ → ℕ → Result (List BuilderState)
unfolding find_failure chosen_failure suffix_outputs
link depth states state_id ch next_state = do
  s ← state_at states state_id
  found ← find_failure (suc depth) states s.failure ch
  failure ← chosen_failure found states next_state ch
  next ← state_at states next_state
  let linked = set states next_state (record next { failure = failure })
  added ← suffix_outputs (suc depth) linked failure
  ok (set linked next_state (record next { failure = failure; outputs = next.outputs ++ added }))

-- `for (ch, next_state) in transitions`
unfoldable pub link_all : ℕ → List (ℕ × ℕ) → ℕ → List BuilderState → Result (List BuilderState)
unfolding link
link_all depth [] state_id states = ok states
link_all depth ((ch, next_state) ∷ ts) state_id states = do
  states ← link depth states state_id ch next_state
  link_all depth ts state_id states

-- The states behind transitions.
unfoldable pub targets : List (ℕ × ℕ) → List ℕ
targets [] = []
targets ((ch, t) ∷ ts) = t ∷ targets ts

-- `while let Some(state_id) = queue.pop_front()`, on fuel
unfoldable pub link_queue : ℕ → Host → ℕ → List ℕ → List BuilderState → Result (List BuilderState)
unfolding link_all targets
link_queue fuel host depth [] states = ok states
link_queue zero host depth (q ∷ queue) states = err out_of_fuel
link_queue (suc fuel) host depth (q ∷ queue) states = do
  s ← state_at states q
  let transitions = host.order s.transitions
  states ← link_all depth transitions q states
  link_queue fuel host depth (queue ++ targets transitions) states

-- `for child in root_children`
unfoldable pub reset_failures : List ℕ → List BuilderState → Result (List BuilderState)
unfolding state_at
reset_failures [] states = ok states
reset_failures (child ∷ children) states = do
  s ← state_at states child
  reset_failures children (set states child (record s { failure = 0 }))

-- The fuel of the inner loops: the length of the longest pattern.
unfoldable pub longest : List (List ℕ) → ℕ
longest [] = 0
longest (p ∷ ps) = max (length p) (longest ps)

-- The states behind the transitions of some states.
unfoldable pub children_of : Host → Option BuilderState → List ℕ
children_of host none = []
children_of host (some st) = targets (host.order st.transitions)

unfoldable pub all_children : Host → List BuilderState → List ℕ → List ℕ
unfolding targets children_of
all_children host base [] = []
all_children host base (s ∷ level) =
    children_of host (get_elem? base s) ++ all_children host base level

-- The fuel of the queue: its rounds from a level on, with `k` levels behind it.
unfoldable pub rounds : ℕ → Host → List BuilderState → List ℕ → ℕ
unfolding all_children
rounds zero host base level = length level
rounds (suc k) host base level = length level + rounds k host base (all_children host base level)

unfoldable pub build_failure_links : ℕ → ℕ → Host → List BuilderState → Result (List BuilderState)
unfolding reset_failures link_queue
build_failure_links fuel depth host states = do
  root ← state_at states 0
  let root_children = targets (host.order root.transitions)
  states ← reset_failures root_children states
  link_queue fuel host depth root_children states

-- `for pattern in patterns` in `ACAutomaton::build`
unfoldable pub add_patterns : Host → AcBuilder → List (List ℕ) → Result AcBuilder
unfolding add_pattern
add_patterns host builder [] = ok builder
add_patterns host builder ([] ∷ ps) = err invalid_pattern
add_patterns host builder ((ch ∷ p) ∷ ps) = do
  builder ← add_pattern host builder (ch ∷ p)
  add_patterns host builder ps

-- `ACAutomaton::build`, up to the bytes.
unfoldable pub build_states : Host → MatchMode → List (List ℕ) → Result AcBuilder
unfolding new add_patterns build_failure_links longest rounds
build_states host mode [] = err invalid_pattern
build_states host mode (p ∷ ps) = do
  builder ← add_patterns host (new mode) (p ∷ ps)
  let k = longest (map (pattern_bytes host mode) (p ∷ ps))
  let fuel = rounds k host builder.states (children_of host (get_elem? builder.states 0))
  states ← build_failure_links fuel (suc k) host builder.states
  ok (record builder { states = states })
