-- ===== src/AhoCorasick/Examples.antt =====
-- Runs of the automaton of src/ac_offset.rs on small sets of patterns.
use matchy.Base.{
  Bool, true, zero, suc, ltb, leb, ◌&&◌, ◌<◌, length, subst, Result, replicate, ℕ, ◌+◌, ◌^◌, ◌≤◌,
  ◌≡◌, ◌≢◌, ◌↔◌, refl, arith, List, [], ◌∷◌, inl, inr, get_elem?, some, ok, err,
}
use matchy.Base.Results.{panic}
use matchy.Base.Orders.{Member, Member-cases, Rearranges_refl}
use matchy.Glob.{case_sensitive}
use matchy.AhoCorasick.{BuilderState, AcBuilder, Host, get_transition, build_states}
use matchy.AhoCorasick.Trie.{goto, best, step}
use matchy.AhoCorasick.Levels.{Walks}
use matchy.AhoCorasick.Filling.{total_size}
use matchy.AhoCorasick.Suffixes.{EndsWith}
use matchy.AhoCorasick.Search.{
  AcAutomaton, AcNodeHot, read_node, find_transition, find_with_positions_bytes,
  find_pattern_ids_bytes,
}
use matchy.AhoCorasick.Serialize
use matchy.AhoCorasick.Serialize.{build_automaton}
use matchy.AhoCorasick.Layout.{LaidOut}
use matchy.AhoCorasick.Occurrences.{Occurs, Sized, build-Occurs, build_automaton-Sized}
use matchy.AhoCorasick.Panics.{Crowded, find_transition-Crowded}
use matchy.AhoCorasick.Reports.{Agree, find_pattern_ids-Agree}
use matchy.AhoCorasick.Automaton.{outputs_iff, failure-best, build_states-total}

abbrev host : Host
host = record { to_lowercase = λ p. p; order = λ ts. ts }

-- `ab`, `b` and `bc`
abbrev patterns : List (List ℕ)
patterns = (97 ∷ 98 ∷ []) ∷ (98 ∷ []) ∷ (98 ∷ 99 ∷ []) ∷ []

host-Walks : Walks host
host-Walks = record { walk = λ ts. Rearranges_refl ts }

abbrev state_of : List (ℕ × ℕ) → ℕ → List ℕ → BuilderState
state_of transitions failure outputs = record {
  transitions = transitions;
  failure = failure;
  outputs = outputs;
}

abbrev built : AcBuilder
built = record {
  states =
      state_of ((98, 3) ∷ (97, 1) ∷ []) 0 []
      ∷ state_of ((98, 2) ∷ []) 0 []
      ∷ state_of [] 3 (0 ∷ 1 ∷ [])
      ∷ state_of ((99, 4) ∷ []) 0 (1 ∷ [])
      ∷ state_of [] 0 (2 ∷ [])
      ∷ [];
  mode = case_sensitive;
  patterns = patterns;
}

built-runs : build_states host case_sensitive patterns ≡ ok built
unfolding build_states
built-runs = refl

patterns-full : ¬ (Member [] patterns)
patterns-full m = elim (Member-cases m) [
  | inl e ↦ absurd (cc)
  | inr m₁ ↦ elim (Member-cases m₁) [
    | inl e ↦ absurd (cc)
    | inr m₂ ↦ elim (Member-cases m₂) [ inl e ↦ absurd (cc) | inr m₃ ↦ elim m₃ [ ] ]
  ]
]

some_patterns : patterns ≢ []
some_patterns e = absurd (cc)

patterns-fit : 1 + total_size host case_sensitive patterns ≤ 2 ^ 32
unfolding total_size
patterns-fit = omega arith

outputs_iff_example :
    Member {A = ℕ} 1 (0 ∷ 1 ∷ []) ↔ EndsWith host case_sensitive patterns 1 (97 ∷ 98 ∷ [])
unfolding goto step get_transition
outputs_iff_example =
    outputs_iff host case_sensitive patterns host-Walks some_patterns patterns-full patterns-fit
      built built-runs (97 ∷ 98 ∷ []) 2 (state_of [] 3 (0 ∷ 1 ∷ [])) 1 (λ e. absurd (cc)) refl refl

failure-best_example : 3 ≡ best built.states 1 (98 ∷ 97 ∷ [])
unfolding goto step get_transition
failure-best_example =
    failure-best host case_sensitive patterns host-Walks some_patterns patterns-full patterns-fit
      built built-runs 97 2 (98 ∷ []) (state_of [] 3 (0 ∷ 1 ∷ [])) refl refl

build_states-total_example :
    (b : AcBuilder) × (build_states host case_sensitive patterns ≡ ok b) × (b.patterns ≡ patterns)
build_states-total_example =
    build_states-total host case_sensitive patterns host-Walks some_patterns patterns-full
      patterns-fit

-- The bytes for the pattern `a` with the id 7: a root with one transition, its child, and the id.
abbrev small_automaton : AcAutomaton
small_automaton = record {
  buffer =
      1 ∷ 97 ∷ 1 ∷ 0 ∷ 16 ∷ 0 ∷ 0 ∷ 0 ∷ 0 ∷ 0 ∷ 0 ∷ 0 ∷ 0 ∷ 0 ∷ 0 ∷ 0 ∷ 0 ∷ 0 ∷ 0 ∷ 1 ∷ 0 ∷ 0 ∷ 0
      ∷ 0 ∷ 0 ∷ 0 ∷ 0 ∷ 0 ∷ 32 ∷ 0 ∷ 0 ∷ 0 ∷ 7 ∷ 0 ∷ 0 ∷ 0 ∷ [];
  address = 64;
}

find_pattern_ids-Agree_example : Agree (ok ((1, 7) ∷ (3, 7) ∷ [])) (ok (7 ∷ []))
unfolding find_with_positions_bytes find_pattern_ids_bytes
find_pattern_ids-Agree_example = find_pattern_ids-Agree 3 small_automaton (97 ∷ 98 ∷ 97 ∷ [])

-- A sparse root with nine edges.
abbrev crowded_automaton : AcAutomaton
crowded_automaton = record { buffer = 2 ∷ 0 ∷ 9 ∷ 0 ∷ 16 ∷ replicate 83 0; address = 64 }

find_transition-Crowded_example : find_transition crowded_automaton 0 97 ≡ err panic ↔ (
    (node : AcNodeHot) × (read_node crowded_automaton 0 ≡ some node)
    × Crowded crowded_automaton node)
find_transition-Crowded_example = find_transition-Crowded crowded_automaton 0 97

crowded-panics : find_transition crowded_automaton 0 97 ≡ err panic
unfolding find_transition
crowded-panics = refl

all_few : List BuilderState → Bool
all_few [] = true
all_few (st ∷ states) = leb (length st.outputs) 255 && all_few states

few_outputs :
    (states : List BuilderState)
    → all_few states ≡ true
    → (s : ℕ) (st : BuilderState) → get_elem? states s ≡ some st
    → length st.outputs ≤ 255
unfolding all_few
few_outputs [] e s st found = absurd (cc)
few_outputs (first ∷ states) e zero st found =
    let this : first ≡ st = cc in
    subst (λ (b : BuilderState). length b.outputs ≤ 255) this (ground arith)
few_outputs (first ∷ states) e (suc s) st found = few_outputs states (ground arith) s st found

all_octets : List ℕ → Bool
all_octets [] = true
all_octets (ch ∷ text) = ltb ch 256 && all_octets text

octets : (text : List ℕ) → all_octets text ≡ true → (ch : ℕ) → Member ch text → ch < 256
unfolding all_octets
octets [] e ch m = elim m [ ]
octets (c ∷ text) e ch m = elim (Member-cases m) [
  | inl same ↦ ground arith
  | inr old ↦ octets text (ground arith) ch old
]

build-Occurs_example :
    (buffer : List ℕ) × (build_automaton host case_sensitive patterns ≡ ok buffer)
    × (matches : List (ℕ × ℕ)) × (find_with_positions_bytes 9
          (record { buffer = buffer; address = 64 })
          (97 ∷ 98 ∷ 99 ∷ [])
        ≡ ok matches)
    × ((end id : ℕ)
        → Member {A = ℕ × ℕ} (end, id) matches
          ↔ Occurs host case_sensitive patterns (97 ∷ 98 ∷ 99 ∷ []) end id)
unfolding all_few all_octets Serialize.total_size
build-Occurs_example =
    build-Occurs host case_sensitive patterns built 64 (97 ∷ 98 ∷ 99 ∷ []) 9 host-Walks
      some_patterns patterns-full (λ p m e. patterns-full (subst (λ q. Member q patterns) e m))
      patterns-fit built-runs (few_outputs built.states refl) (omega arith) refl
      (octets (97 ∷ 98 ∷ 99 ∷ []) refl) (omega arith)

build_automaton-Sized_example :
    (size : ℕ) × LaidOut built.states size
    × Sized size (build_automaton host case_sensitive patterns)
build_automaton-Sized_example =
    build_automaton-Sized host case_sensitive patterns built host-Walks some_patterns patterns-full
      patterns-fit built-runs

-- `ab`, `b` and `bc` in `abcb`.
automaton_for : Result (List ℕ) → Result (List (ℕ × ℕ))
automaton_for (ok buffer) =
    find_with_positions_bytes 9 (record { buffer = buffer; address = 64 }) (97 ∷ 98 ∷ 99 ∷ 98 ∷ [])
automaton_for (err e) = err e

abcb-matches :
    automaton_for (build_automaton host case_sensitive patterns)
    ≡ ok ((2, 0) ∷ (2, 1) ∷ (3, 2) ∷ (4, 1) ∷ [])
unfolding automaton_for build_automaton find_with_positions_bytes
abcb-matches = refl
