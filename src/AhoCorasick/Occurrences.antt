-- ===== src/AhoCorasick/Occurrences.antt =====
-- From patterns to matches (src/ac_offset.rs, `ACAutomaton::build` and `find_with_positions_bytes`), with
-- only the bytes between the two.
use matchy.Base.{
  ℕ, ◌+◌, ◌*◌, ◌%◌, ◌^◌, ◌≤◌, ◌<◌, ◌≡◌, ◌≢◌, ◌↔◌, refl, sym, ◌∙◌, subst, arith, leb, List, [], ◌∷◌,
  ◌++◌, length, replicate, length-replicate, get_elem?, none, some, Result, ok, err, ◌>>=◌, true,
  Bool-cases, inl, inr,
}
use matchy.Base.Results.{resource_limit}
use matchy.Base.Orders.{Member}
use matchy.Glob.{MatchMode}
use matchy.AhoCorasick.{BuilderState, AcBuilder, Host, pattern_bytes, build_states}
use matchy.AhoCorasick.Trie.{goto, best}
use matchy.AhoCorasick.Paths.{backwards}
use matchy.AhoCorasick.Levels.{Walks}
use matchy.AhoCorasick.Filling.{total_size}
use matchy.AhoCorasick.Suffixes.{EndsWith}
use matchy.AhoCorasick.Automaton.{outcome, the_states}
use matchy.AhoCorasick.Walk.{Image, Chained}
use matchy.AhoCorasick.Machine.{Tidy, after-Tidy, after-Chained, after-EndsWith}
use matchy.AhoCorasick.Positions.{EndsAt, find_with_positions-EndsAt}
use matchy.AhoCorasick.Search.{AcAutomaton, find_with_positions_bytes}
use matchy.AhoCorasick.Serialize
use matchy.AhoCorasick.Serialize.{
  edges_start, dense_start, patterns_start, sum_of, sparse_bytes, dense_bytes, id_bytes, Writer,
  write_states, serialize, build_automaton,
}
use matchy.AhoCorasick.Sections.{Room, Placed, bytes_even}
use matchy.AhoCorasick.Sections.AllStates.{write_states-Placed}
use matchy.AhoCorasick.Encodings.{written-Image}
use matchy.AhoCorasick.Layout.{LaidOut, total_size-LaidOut}

sum_even :
    (E D P : ℕ) (host : Host) (walks : Walks host) (states : List BuilderState)
    → sum_of dense_bytes states % 4 ≡ 0
unfolding sum_of
sum_even E D P host walks [] = refl
sum_even E D P host walks (st ∷ states) =
    let ih = sum_even E D P host walks states in
    let (_, even) = bytes_even E D P host walks 0 st in omega arith

abbrev first_writer : List BuilderState → Writer
first_writer states = record {
  buffer = replicate (Serialize.total_size states) 0;
  edge_offset = edges_start states;
  dense_offset = dense_start states;
  pattern_offset = patterns_start states;
}

first-Room :
    (host : Host) (walks : Walks host) (states : List BuilderState)
    → Serialize.total_size states ≤ 2000000000
    → Room
        (edges_start states)
        (dense_start states)
        (patterns_start states)
        0
        states
        (first_writer states)
unfolding edges_start dense_start patterns_start Serialize.total_size
first-Room host walks states limit =
    let zeros : List ℕ = replicate (Serialize.total_size states) 0 in
    let blank : length zeros ≡ Serialize.total_size states =
      length-replicate {A = ℕ} (Serialize.total_size states) 0 in
    let even = sum_even 0 0 0 host walks states in
    record {
      nodes = omega arith;
      from_e = omega arith;
      to_e = omega arith;
      from_d = omega arith;
      to_d = omega arith;
      from_p = omega arith;
      to_p = omega arith;
      small = omega arith;
      aligned_e = omega arith;
      aligned_d = omega arith;
      aligned_p = omega arith;
    }

few_states :
    (states : List BuilderState)
    → Serialize.total_size states ≤ 2000000000
    → length states * 16 < 2 ^ 32
unfolding edges_start dense_start patterns_start Serialize.total_size
few_states states limit = omega arith

serialize-last :
    (host : Host) (states : List BuilderState) (last : Writer)
    → Serialize.total_size states ≤ 2000000000
    → write_states host (length states) states 0 (first_writer states) ≡ ok last
    → serialize host states ≡ ok last.buffer
unfolding serialize
serialize-last host states last limit written =
    let fits : leb (Serialize.total_size states) 2000000000 ≡ true = ground arith in
    rw (fits, ◌>>=◌, written) refl

-- The writer goes through all sections.
all_placed :
    (host : Host) (walks : Walks host) (states : List BuilderState)
    → Tidy states
    → Serialize.total_size states ≤ 2000000000
    → (last : Writer) × (write_states host (length states) states 0 (first_writer states) ≡ ok last)
      × (length last.buffer ≡ length (first_writer states).buffer)
      × ((j : ℕ) (st : BuilderState)
          → get_elem? states j ≡ some st
          → Placed
              (edges_start states)
              (dense_start states)
              (patterns_start states)
              host
              (0 + length states)
              last
              (0 + j)
              st)
      × ((j : ℕ) (old : BuilderState)
          → Placed
              (edges_start states)
              (dense_start states)
              (patterns_start states)
              host
              0
              (first_writer states)
              j
              old
          → Placed
              (edges_start states)
              (dense_start states)
              (patterns_start states)
              host
              (0 + length states)
              last
              j
              old)
all_placed host walks states tidy limit =
    write_states-Placed (edges_start states) (dense_start states) (patterns_start states) host walks
      (length states) states 0 (first_writer states) (first-Room host walks states limit)
      (λ j st there. record {
        keyed = λ ch t m. tidy.keyed j st ch t there m;
        inside = λ ch t m. let (_, low) = tidy.target j st ch t there m in low;
        low = tidy.failure j st there;
      })
      (few_states states limit)

sections :
    (host : Host) (walks : Walks host) (states : List BuilderState)
    → Tidy states
    → Serialize.total_size states ≤ 2000000000
    → (last : Writer) × (write_states host (length states) states 0 (first_writer states) ≡ ok last)
      × (length last.buffer ≡ Serialize.total_size states)
sections host walks states tidy limit =
    let (last, runs, size, _, _) = all_placed host walks states tidy limit in
    (last, runs, size ∙ length-replicate {A = ℕ} (Serialize.total_size states) 0)

-- The bytes of tidy states are an image of them.
record Written (host : Host) (states : List BuilderState) (address : ℕ) : Type 0 where
  buffer : List ℕ
  serialized : serialize host states ≡ ok buffer
  image : Image (record { buffer = buffer; address = address }) states

written :
    (host : Host) (walks : Walks host) (states : List BuilderState) (address : ℕ)
    → Tidy states
    → get_elem? states 0 ≢ none
    → address % 4 ≡ 0
    → Serialize.total_size states ≤ 2000000000
    → ((s : ℕ) (st : BuilderState) → get_elem? states s ≡ some st → length st.outputs ≤ 255)
    → Written host states address
written host walks states address tidy root even limit few =
    let (last, runs, _, placed, _) = all_placed host walks states tidy limit in
    record {
      buffer = last.buffer;
      serialized = serialize-last host states last limit runs;
      image =
          written-Image (edges_start states) (dense_start states) (patterns_start states) host walks
            states tidy (few_states states limit) (0 + length states) last address even
            (λ j st there.
              subst
                (λ k.
                  Placed (edges_start states) (dense_start states) (patterns_start states) host
                    (0 + length states) last k st)
                (omega arith) (placed j st there))
            few root;
    }

-- An occurrence: the text begins with a part that ends with the bytes of the pattern, and has that length.
abbrev pub Occurs : Host → MatchMode → List (List ℕ) → List ℕ → ℕ → ℕ → Type 0
Occurs host mode patterns text end id =
    (a : List ℕ) × (b : List ℕ) × (a ++ b ≡ text)
    × (length a ≡ end)
    × EndsWith host mode patterns id a

EndsAt-Occurs :
    (host : Host) (mode : MatchMode) (patterns : List (List ℕ)) (text : List ℕ) (end id : ℕ)
    → EndsAt (EndsWith host mode patterns) [] text end id ↔ Occurs host mode patterns text end id
EndsAt-Occurs host mode patterns text end id = (
  λ (a, b, whole, full, place, ends). (a, b, whole, omega arith, ends),
  λ (a, b, whole, size, (p, at_id, some_byte, u, same)). (
    a,
    b,
    whole,
    (λ nothing. some_byte (last_part u (pattern_bytes host mode p) (same ∙ nothing))),
    omega arith,
    (p, at_id, some_byte, u, same),
  ),
)
  where
    last_part : (u v : List ℕ) → u ++ v ≡ [] → v ≡ []
    last_part [] v e = e
    last_part (x ∷ u) v e = absurd (cc)

build-serialize :
    (host : Host) (mode : MatchMode) (patterns : List (List ℕ)) (built : AcBuilder)
    (buffer : List ℕ)
    → build_states host mode patterns ≡ ok built
    → serialize host built.states ≡ ok buffer
    → build_automaton host mode patterns ≡ ok buffer
unfolding build_automaton
build-serialize host mode patterns built buffer made bytes = rw (made, ◌>>=◌, bytes) refl

-- Let there be at least one pattern, none of them empty or empty when lowered, with at most 2^32 - 1 patterns
-- and bytes in all, and maps that are walked once. Let each state that is built have at most 255 outputs,
-- and the bytes take at most 2 * 10^9. Then `build` gives a buffer, and in it, at an address that is a
-- multiple of four, the search for positions in any text (of bytes, with a fuel above its length) reports
-- just the occurrences of the patterns: each position where the bytes of a pattern end, with its id.
pub build-Occurs :
    (host : Host) (mode : MatchMode) (patterns : List (List ℕ)) (built : AcBuilder) (address : ℕ)
    (text : List ℕ) (fuel : ℕ)
    → Walks host
    → patterns ≢ []
    → ¬ (Member [] patterns)
    → ((p : List ℕ) → Member p patterns → pattern_bytes host mode p ≢ [])
    → 1 + total_size host mode patterns ≤ 2 ^ 32
    → build_states host mode patterns ≡ ok built
    → ((s : ℕ) (st : BuilderState) → get_elem? built.states s ≡ some st → length st.outputs ≤ 255)
    → Serialize.total_size built.states ≤ 2000000000
    → address % 4 ≡ 0
    → ((ch : ℕ) → Member ch text → ch < 256)
    → length text < fuel
    → (buffer : List ℕ) × (build_automaton host mode patterns ≡ ok buffer)
      × (matches : List (ℕ × ℕ)) × (find_with_positions_bytes fuel
            (record { buffer = buffer; address = address })
            text
          ≡ ok matches)
      × ((end id : ℕ)
          → Member {A = ℕ × ℕ} (end, id) matches ↔ Occurs host mode patterns text end id)
build-Occurs host mode patterns built address text fuel walks some_pattern full lowered room made
      few limit even octets enough =
    let o = outcome host mode patterns walks some_pattern full room in
    let same = the_states host mode patterns walks some_pattern full room built made in
    let chained =
      subst Chained (sym same) (after-Chained host mode patterns walks some_pattern full room) in
    let tidy = subst Tidy (sym same) (after-Tidy host mode patterns walks some_pattern full room) in
    let (root, there) = chained.present [] 0 (unfold goto in refl) in
    let w = written host walks built.states address tidy (λ nothing. absurd (cc)) even limit few in
    let bytes = w.serialized in
    let image = w.image in
    let automaton : AcAutomaton = record { buffer = w.buffer; address = address } in
    let (ms, found, meaning) =
      find_with_positions-EndsAt (EndsWith host mode patterns) automaton built.states image chained
        (λ t now id at_best.
          after-EndsWith host mode patterns walks some_pattern full room lowered t now id (
            subst (λ states. get_elem? states (best states (length t) (backwards t [])) ≡ some now)
              same at_best))
        text fuel octets enough in
    (
      w.buffer,
      build-serialize host mode patterns built w.buffer made bytes,
      ms,
      found,
      λ end id.
          let (down, up) = meaning end id in
          let (to, from) = EndsAt-Occurs host mode patterns text end id in
          (λ m. to (down m), λ h. up (from h)),
    )

-- A buffer has just its size, within the limit, and only what goes beyond the limit is refused.
unfoldable pub Sized : ℕ → Result (List ℕ) → Type 0
Sized size (ok buffer) = (length buffer ≡ size) × (size ≤ 2000000000)
Sized size (err why) = (why ≡ resource_limit) × (2000000000 < size)

-- Let there be at least one pattern, none of them empty, with at most 2^32 - 1 patterns and bytes in all, and maps
-- that are walked once. Then the states need a buffer of 16 bytes for each of them, 8 for each transition of a
-- state with two to eight, from the next multiple of 64 on 1024 for each state with more than eight, and 4 for
-- each output. `build` gives a buffer of just that size where it is at most 2 * 10^9, and fails for
-- no other reason than that it is more.
pub build_automaton-Sized :
    (host : Host) (mode : MatchMode) (patterns : List (List ℕ)) (built : AcBuilder)
    → Walks host
    → patterns ≢ []
    → ¬ (Member [] patterns)
    → 1 + total_size host mode patterns ≤ 2 ^ 32
    → build_states host mode patterns ≡ ok built
    → (size : ℕ) × LaidOut built.states size × Sized size (build_automaton host mode patterns)
unfolding Sized build_automaton
build_automaton-Sized host mode patterns built walks some_pattern full room made =
    let same = the_states host mode patterns walks some_pattern full room built made in
    let tidy = subst Tidy (sym same) (after-Tidy host mode patterns walks some_pattern full room) in
    (
      Serialize.total_size built.states,
      total_size-LaidOut built.states,
      elim (Bool-cases (leb (Serialize.total_size built.states) 2000000000)) [
        | inr over ↦ rw (made, ◌>>=◌, serialize, over) (refl, ground arith)
        | inl fits ↦
            let limit : Serialize.total_size built.states ≤ 2000000000 = ground arith in
            let (last, runs, size) = sections host walks built.states tidy limit in
            rw (made, ◌>>=◌, serialize-last host built.states last limit runs) (size, limit)
      ],
    )
