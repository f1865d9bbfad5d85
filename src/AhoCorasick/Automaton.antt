-- ===== src/AhoCorasick/Automaton.antt =====
-- The automaton that `ACAutomaton::build` (src/ac_offset.rs) puts together before it writes it: its
-- outputs and its failure links against the patterns.
use matchy.Base.{
  ℕ, suc, ◌+◌, ◌^◌, ◌≤◌, ◌≡◌, ◌≢◌, ◌↔◌, refl, sym, ap, ◌∙◌, subst, arith, List, [], ◌∷◌, ◌⊎◌, inl,
  inr, length, get_elem?, map, some, Result, ok, err, ◌>>=◌,
}
use matchy.Base.Results.{invalid_pattern}
use matchy.Base.Orders.{Member}
use matchy.Glob.{MatchMode}
use matchy.AhoCorasick.{
  BuilderState, AcBuilder, Host, new, add_patterns, pattern_bytes, longest, build_failure_links,
  build_states, rounds, children_of,
}
use matchy.AhoCorasick.Trie.{goto, best, label-goto}
use matchy.AhoCorasick.Chains.{Hits, Linked}
use matchy.AhoCorasick.Levels.{Walks, Progress}
use matchy.AhoCorasick.FailureLinks.{build_failure_links-Progress}
use matchy.AhoCorasick.Paths.{backwards, length-backwards}
use matchy.AhoCorasick.Words.{backwards-backwards}
use matchy.AhoCorasick.Stored.{Stored}
use matchy.AhoCorasick.Filling.{total_size, filled, filled_refused}
use matchy.AhoCorasick.Suffixes.{goto_kept, best_kept, EndsWith, Hits-EndsWith, EndsWith-Hits}

abbrev pub linked_up :
    Host → MatchMode → List (List ℕ) → List BuilderState → Result (List BuilderState)
linked_up host mode patterns base =
    let k = longest (map (pattern_bytes host mode) patterns) in
    build_failure_links (rounds k host base (children_of host (get_elem? base 0))) (suc k) host base

pub record Outcome (host : Host) (mode : MatchMode) (patterns : List (List ℕ))
    (result : Result AcBuilder) : Type 0 where
  pub bound : ℕ
  pub base : List BuilderState
  pub labels : List (List ℕ)
  pub after : List BuilderState
  pub runs : result ≡ ok (record { states = after; mode = mode; patterns = patterns })
  pub stored : Stored host mode bound base patterns labels
  pub progress : Progress base after (suc bound)
  pub linked : linked_up host mode patterns base ≡ ok after

build_states-runs :
    (host : Host) (mode : MatchMode) (patterns : List (List ℕ)) (base after : List BuilderState)
    → patterns ≢ []
    → add_patterns host (new mode) patterns
      ≡ ok (record { states = base; mode = mode; patterns = patterns })
    → linked_up host mode patterns base ≡ ok after
    → build_states host mode patterns
      ≡ ok (record { states = after; mode = mode; patterns = patterns })
unfolding build_states
build_states-runs host mode [] base after full added linked = absurd (full refl)
build_states-runs host mode (p ∷ ps) base after full added linked = rw (added, ◌>>=◌, linked) refl

pub outcome :
    (host : Host) (mode : MatchMode) (patterns : List (List ℕ))
    → Walks host
    → patterns ≢ []
    → ¬ (Member [] patterns)
    → 1 + total_size host mode patterns ≤ 2 ^ 32
    → Outcome host mode patterns (build_states host mode patterns)
outcome host mode patterns walks some_pattern full room =
    let k = longest (map (pattern_bytes host mode) patterns) in
    let f = filled host mode patterns full room in
    let stored = f.stored in
    let trie = stored.trie in
    let (after, linked, progress) =
      build_failure_links-Progress host walks f.after f.labels trie (suc k) k
        (rounds k host f.after (children_of host (get_elem? f.after 0))) stored.fresh (omega arith)
        (λ w t found.
          let less = stored.short t w (label-goto f.after f.labels trie w t found) in omega arith)
        (omega arith) in
    record {
      bound = k;
      base = f.after;
      labels = f.labels;
      after = after;
      runs = build_states-runs host mode patterns f.after after some_pattern f.runs linked;
      stored = stored;
      progress = progress;
      linked = linked;
    }

-- For at least one pattern, none of them empty, with at most 2^32 - 1 patterns and bytes in all and a map
-- that is walked once, the automaton is built, from these patterns.
pub build_states-total :
    (host : Host) (mode : MatchMode) (patterns : List (List ℕ))
    → Walks host
    → patterns ≢ []
    → ¬ (Member [] patterns)
    → 1 + total_size host mode patterns ≤ 2 ^ 32
    → (built : AcBuilder) × (build_states host mode patterns ≡ ok built)
      × (built.patterns ≡ patterns)
build_states-total host mode patterns walks some_pattern full room =
    let o = outcome host mode patterns walks some_pattern full room in
    (record { states = o.after; mode = mode; patterns = patterns }, o.runs, refl)

-- An empty pattern, or none at all, is refused as an invalid pattern (for at most 2^32 - 1 patterns and
-- bytes in all).
pub build_states-refused :
    (host : Host) (mode : MatchMode) (patterns : List (List ℕ))
    → (patterns ≡ []) ⊎ Member [] patterns
    → 1 + total_size host mode patterns ≤ 2 ^ 32
    → build_states host mode patterns ≡ err invalid_pattern
unfolding build_states
build_states-refused host mode [] empty room = refl
build_states-refused host mode (p ∷ ps) empty room = elim empty [
  | inl nothing ↦ absurd (cc)
  | inr there ↦ rw (filled_refused host mode (p ∷ ps) there room, ◌>>=◌) refl
]

module _ (host : Host) (mode : MatchMode) (patterns : List (List ℕ)) (walks : Walks host)
    (some_pattern : patterns ≢ []) (full : ¬ (Member [] patterns))
    (room : 1 + total_size host mode patterns ≤ 2 ^ 32) (built : AcBuilder)
    (built_ok : build_states host mode patterns ≡ ok built) where
  abbrev pub o : Outcome host mode patterns (build_states host mode patterns)
  o = outcome host mode patterns walks some_pattern full room

  pub the_states : built.states ≡ o.after
  the_states =
      let r = o.runs in
      let both : ok built ≡ ok (record { states = o.after; mode = mode; patterns = patterns }) =
        sym built_ok ∙ r in
      let this : built ≡ record { states = o.after; mode = mode; patterns = patterns } = cc in
      ap (λ (b : AcBuilder). b.states) this

  pub goto-built : (w : List ℕ) → goto built.states w ≡ goto o.base w
  goto-built w =
      ap (λ l. goto l w) the_states
      ∙ goto_kept o.base o.after o.labels o.stored.trie o.progress.keeps w

  pub state-Linked :
      (ch t : ℕ) (v : List ℕ) → goto built.states (ch ∷ v) ≡ some t → Linked o.base o.after t ch v
  state-Linked ch t v found =
      let at_t = sym (goto-built (ch ∷ v)) ∙ found in
      let less =
        o.stored.short t (ch ∷ v) (label-goto o.base o.labels o.stored.trie (ch ∷ v) t at_t) in
      o.progress.linked ch t v at_t (omega arith)

  pub same_state :
      (ch t : ℕ) (v : List ℕ) (st : BuilderState) (l : Linked o.base o.after t ch v)
      → get_elem? built.states t ≡ some st
      → st ≡ l.state
  same_state ch t v st l there =
      let there' : get_elem? o.after t ≡ some st =
        subst (λ s. get_elem? s t ≡ some st) the_states there in
      let both : some st ≡ some l.state = sym there' ∙ l.found in cc

  pub outputs_backwards :
      (ch t : ℕ) (v : List ℕ) (st : BuilderState) (id : ℕ)
      → goto built.states (ch ∷ v) ≡ some t
      → get_elem? built.states t ≡ some st
      → Member id st.outputs ↔ Hits o.base id (ch ∷ v)
  outputs_backwards ch t v st id found there =
      let l = state-Linked ch t v found in
      let this = same_state ch t v st l there in
      (
        λ m. l.sound id (subst (λ (b : BuilderState). Member id b.outputs) this m),
        λ h. subst (λ (b : BuilderState). Member id b.outputs) (sym this) (l.complete id h),
      )

  -- With the conditions of `build_states-total`: in the automaton that is built, a state that is reached
  -- from the root by a text of at least one byte has as outputs just the ids of the patterns, other than
  -- one that lowercases to nothing, whose bytes are a suffix of the text.
  pub outputs_iff :
      (text : List ℕ) (t : ℕ) (st : BuilderState) (id : ℕ)
      → text ≢ []
      → goto built.states (backwards text []) ≡ some t
      → get_elem? built.states t ≡ some st
      → Member id st.outputs ↔ EndsWith host mode patterns id text
  outputs_iff text t st id some_byte found there = by_word (backwards text []) refl
    where
      by_word :
          (w : List ℕ)
          → w ≡ backwards text []
          → Member id st.outputs ↔ EndsWith host mode patterns id text
      by_word [] e =
          absurd (some_byte (sym (backwards-backwards text) ∙ ap (λ x. backwards x []) (sym e)))
      by_word (ch ∷ v) e =
          let (sound, complete) =
            outputs_backwards ch t v st id (ap (goto built.states) e ∙ found) there in
          (
            λ m.
                Hits-EndsWith host mode o.bound o.base patterns o.labels o.stored id text
                  (subst (Hits o.base id) e (sound m)),
            λ h. complete (
                subst (Hits o.base id) (sym e)
                  (EndsWith-Hits host mode o.bound o.base patterns o.labels o.stored id text h)),
          )

  -- With the same conditions: the failure link of a state that is reached by a text is the state of the
  -- longest proper suffix of the text that is reached from the root.
  pub failure-best :
      (ch t : ℕ) (text : List ℕ) (st : BuilderState)
      → goto built.states (backwards (ch ∷ text) []) ≡ some t
      → get_elem? built.states t ≡ some st
      → st.failure ≡ best built.states (length text) (backwards (ch ∷ text) [])
  failure-best ch t text st found there = by_word (backwards (ch ∷ text) []) refl
    where
      by_word :
          (w : List ℕ)
          → w ≡ backwards (ch ∷ text) []
          → st.failure ≡ best built.states (length text) (backwards (ch ∷ text) [])
      by_word [] e =
          let size : 0 ≡ length (backwards (ch ∷ text) []) = ap length e in
          absurd (omega (arith, length-backwards (ch ∷ text) []))
      by_word (c ∷ v) e =
          let l = state-Linked c t v (ap (goto built.states) e ∙ found) in
          let this = same_state c t v st l there in
          let size : length (c ∷ v) ≡ length (backwards (ch ∷ text) []) = ap length e in
          let sizes : length v ≡ length text = omega (arith, length-backwards (ch ∷ text) []) in
          ap (λ (b : BuilderState). b.failure) this
          ∙ l.failure
          ∙ sym
              (best_kept o.base o.after o.labels o.stored.trie o.progress.keeps (length v) (c ∷ v))
          ∙ ap (λ s. best s (length v) (c ∷ v)) (sym the_states)
          ∙ ap (λ n. best built.states n (c ∷ v)) sizes
          ∙ ap (best built.states (length text)) e
