-- ===== src/AhoCorasick/Filling.antt =====
-- All patterns in turn (src/ac_offset.rs, the loop of `ACAutomaton::build`).
use matchy.Base.{
  ℕ, zero, suc, ◌+◌, ◌^◌, ◌≤◌, ◌≡◌, refl, sym, ap, ◌∙◌, subst, arith, List, [], ◌∷◌, ◌++◌, inl, inr,
  length, get_elem?, length-append, append-nil, append_assoc, map, none, some, Result, ok, err,
  ◌>>=◌,
}
use matchy.Base.Results.{invalid_pattern}
use matchy.Base.Orders.{Member, here, later, Member-cases}
use matchy.Glob.{MatchMode}
use matchy.AhoCorasick.{
  BuilderState, AcBuilder, Host, new, new_state, get_transition, add_pattern, add_patterns,
  pattern_bytes, longest,
}
use matchy.AhoCorasick.Trie.{step}
use matchy.AhoCorasick.Stored.{Stored, add_pattern-AddedTo}

-- The bytes of the patterns, and one more for each.
unfoldable pub total_size : Host → MatchMode → List (List ℕ) → ℕ
total_size host mode [] = 0
total_size host mode (p ∷ ps) = 1 + length (pattern_bytes host mode p) + total_size host mode ps

pub record Filled (host : Host) (mode : MatchMode) (bound : ℕ) (patterns : List (List ℕ))
    (result : Result AcBuilder) : Type 0 where
  pub after : List BuilderState
  pub labels : List (List ℕ)
  pub runs : result ≡ ok (record { states = after; mode = mode; patterns = patterns })
  pub stored : Stored host mode bound after patterns labels

no_step : (t c : ℕ) → step (new_state ∷ []) t c ≡ none
unfolding step get_transition
no_step zero c = refl
no_step (suc t) c = refl

only_root : (t : ℕ) (w : List ℕ) → get_elem? ([] ∷ []) t ≡ some w → (t ≡ 0) × (w ≡ [])
only_root zero w found = (refl, cc)
only_root (suc t) w found = absurd (cc)

only_state : (t : ℕ) (st : BuilderState) → get_elem? (new_state ∷ []) t ≡ some st → new_state ≡ st
only_state zero st found = cc
only_state (suc t) st found = absurd (cc)

new-Stored :
    (host : Host) (mode : MatchMode) (bound : ℕ)
    → Stored host mode bound (new_state ∷ []) [] ([] ∷ [])
new-Stored host mode bound = record {
  trie = record {
    sizes = refl;
    root = refl;
    only_root = λ t found. let (e, _) = only_root t [] found in e;
    down = λ s ch t w label move. let n = no_step s ch in absurd (cc);
    up = λ t ch w label. let (_, e) = only_root t (ch ∷ w) label in absurd (cc);
    listed = λ s st ch t found m.
        let m' : Member (ch, t) [] =
          subst (λ (b : BuilderState). Member (ch, t) b.transitions) (sym (only_state s st found))
            m in
        elim m' [ ];
  };
  fresh = λ t st found. sym (ap (λ (b : BuilderState). b.failure) (only_state t st found));
  owns = λ t st w id found label m.
      let m' : Member id [] =
        subst (λ (b : BuilderState). Member id b.outputs) (sym (only_state t st found)) m in
      elim m' [ ];
  has = λ id p found. absurd (cc);
  short = λ t w label.
      let (_, e) = only_root t w label in let size : length w ≡ 0 = ap length e in omega arith;
}

add_patterns-on :
    (host : Host) (builder after : AcBuilder) (ch : ℕ) (p : List ℕ) (ps : List (List ℕ))
    → add_pattern host builder (ch ∷ p) ≡ ok after
    → add_patterns host builder ((ch ∷ p) ∷ ps) ≡ add_patterns host after ps
unfolding add_patterns
add_patterns-on host builder after ch p ps added = rw (added, ◌>>=◌) refl

module _ (host : Host) (mode : MatchMode) (bound : ℕ) where
  abbrev with_states : List BuilderState → List (List ℕ) → AcBuilder
  with_states states patterns = record { states = states; mode = mode; patterns = patterns }

  add_patterns-Filled :
      (ps : List (List ℕ)) (states : List BuilderState) (patterns labels : List (List ℕ))
      → Stored host mode bound states patterns labels
      → ¬ (Member [] ps)
      → ((q : List ℕ) → Member q ps → length (pattern_bytes host mode q) ≤ bound)
      → length states + total_size host mode ps ≤ 2 ^ 32
      → length patterns + total_size host mode ps ≤ 2 ^ 32
      → Filled host mode bound (patterns ++ ps) (add_patterns host (with_states states patterns) ps)
  add_patterns-Filled [] states patterns labels stored full fits room small =
      subst (λ l. Filled host mode bound l (add_patterns host (with_states states patterns) []))
        (sym (append-nil patterns))
        (record {
          after = states;
          labels = labels;
          runs = unfold add_patterns in refl;
          stored = stored;
        })
  add_patterns-Filled ([] ∷ ps) states patterns labels stored full fits room small =
      absurd (full here)
  add_patterns-Filled ((ch ∷ p) ∷ ps) states patterns labels stored full fits room small =
      let sum : total_size host mode ((ch ∷ p) ∷ ps)
          ≡ 1 + length (pattern_bytes host mode (ch ∷ p)) + total_size host mode ps =
        unfold total_size in refl in
      let a =
        add_pattern-AddedTo host mode bound states patterns labels (ch ∷ p) stored
          (fits (ch ∷ p) here) (omega arith) (omega arith) in
      let size = a.size in
      let rest =
        add_patterns-Filled ps a.after (patterns ++ (ch ∷ p) ∷ []) a.labels' a.stored
          (λ m. full (later m)) (λ q m. fits q (later m)) (omega arith)
          (omega (arith, length-append patterns ((ch ∷ p) ∷ []))) in
      let on =
        add_patterns-on host (with_states states patterns)
          (with_states a.after (patterns ++ (ch ∷ p) ∷ [])) ch p ps a.runs in
      subst
        (λ l.
          Filled host mode bound l
            (add_patterns host (with_states states patterns) ((ch ∷ p) ∷ ps)))
        (append_assoc patterns ((ch ∷ p) ∷ []) ps)
        (record {
          after = rest.after;
          labels = rest.labels;
          runs = on ∙ rest.runs;
          stored = rest.stored;
        })

  -- An empty pattern ends the loop.
  pub add_patterns-refused :
      (ps : List (List ℕ)) (states : List BuilderState) (patterns labels : List (List ℕ))
      → Stored host mode bound states patterns labels
      → Member [] ps
      → ((q : List ℕ) → Member q ps → length (pattern_bytes host mode q) ≤ bound)
      → length states + total_size host mode ps ≤ 2 ^ 32
      → length patterns + total_size host mode ps ≤ 2 ^ 32
      → add_patterns host (with_states states patterns) ps ≡ err invalid_pattern
  add_patterns-refused [] states patterns labels stored empty fits room small = elim empty [ ]
  add_patterns-refused ([] ∷ ps) states patterns labels stored empty fits room small =
      unfold add_patterns in refl
  add_patterns-refused ((ch ∷ p) ∷ ps) states patterns labels stored empty fits room small =
      let sum : total_size host mode ((ch ∷ p) ∷ ps)
          ≡ 1 + length (pattern_bytes host mode (ch ∷ p)) + total_size host mode ps =
        unfold total_size in refl in
      let a =
        add_pattern-AddedTo host mode bound states patterns labels (ch ∷ p) stored
          (fits (ch ∷ p) here) (omega arith) (omega arith) in
      let size = a.size in
      let on =
        add_patterns-on host (with_states states patterns)
          (with_states a.after (patterns ++ (ch ∷ p) ∷ [])) ch p ps a.runs in
      elim (Member-cases empty) [
        | inl same ↦ absurd (cc)
        | inr behind_it ↦
            on
            ∙ add_patterns-refused ps a.after (patterns ++ (ch ∷ p) ∷ []) a.labels' a.stored
                behind_it (λ q m. fits q (later m)) (omega arith)
                (omega (arith, length-append patterns ((ch ∷ p) ∷ [])))
      ]

pub Member-longest :
    (host : Host) (mode : MatchMode) (q : List ℕ) (ps : List (List ℕ))
    → Member q ps
    → length (pattern_bytes host mode q) ≤ longest (map (pattern_bytes host mode) ps)
unfolding longest
Member-longest host mode q [] m = elim m [ ]
Member-longest host mode q (p ∷ ps) m = elim (Member-cases m) [
  | inl same ↦
      let size : length (pattern_bytes host mode q) ≡ length (pattern_bytes host mode p) =
        ap (λ x. length (pattern_bytes host mode x)) same in
      omega arith
  | inr old ↦ let ih = Member-longest host mode q ps old in omega arith
]

-- The builder of `build`, with its patterns.
pub filled :
    (host : Host) (mode : MatchMode) (ps : List (List ℕ))
    → ¬ (Member [] ps)
    → 1 + total_size host mode ps ≤ 2 ^ 32
    → Filled host mode
        (longest (map (pattern_bytes host mode) ps))
        ps
        (add_patterns host (new mode) ps)
unfolding new
filled host mode ps full room =
    let bound = longest (map (pattern_bytes host mode) ps) in
    add_patterns-Filled host mode bound ps (new_state ∷ []) [] ([] ∷ [])
      (new-Stored host mode bound) full (λ q m. Member-longest host mode q ps m) room (omega arith)

pub filled_refused :
    (host : Host) (mode : MatchMode) (ps : List (List ℕ))
    → Member [] ps
    → 1 + total_size host mode ps ≤ 2 ^ 32
    → add_patterns host (new mode) ps ≡ err invalid_pattern
unfolding new
filled_refused host mode ps empty room =
    let bound = longest (map (pattern_bytes host mode) ps) in
    add_patterns-refused host mode bound ps (new_state ∷ []) [] ([] ∷ [])
      (new-Stored host mode bound) empty (λ q m. Member-longest host mode q ps m) room (omega arith)
