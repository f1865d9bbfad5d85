-- ===== src/AhoCorasick/Chains.antt =====
-- The chains of failure links (src/ac_offset.rs, `build_failure_links`): what the two inner loops find
-- where the links of shorter words are right.
use matchy.Base.{
  ℕ, zero, suc, ◌≤◌, ◌<◌, ◌≡◌, ◌≢◌, refl, sym, ap, ◌∙◌, subst, arith, ◌==◌, List, [], ◌∷◌, ◌++◌,
  ◌⊎◌, inl, inr, false, Option-cases, length, get_elem?, get_elem?_lt, take, none, some, ok, ◌>>=◌,
  ℕ_discrete, length-take_le,
}
use matchy.Base.Orders.{Member, Member-append_left, Member-append}
use matchy.LiteralHash.Probe.{get_elem?_below}
use matchy.AhoCorasick.{BuilderState, get_transition, state_at, find_failure, suffix_outputs}
use matchy.AhoCorasick.Trie.{
  step, goto, best, IsTrie, label-goto, goto-ne-zero, best-found, best-none, best-take, take-take,
}

-- A pattern that the trie had before the links were built ends a word: its id is an output of the
-- state of a suffix.
abbrev pub Hits : List BuilderState → ℕ → List ℕ → Type 0
Hits base id w =
    (m : ℕ) × (1 ≤ m)
    × (m ≤ length w)
    × (s : ℕ) × (goto base (take m w) ≡ some s)
    × (st : BuilderState) × (get_elem? base s ≡ some st)
    × Member id st.outputs

-- The states have the transitions that they had.
pub record Keeps (base states : List BuilderState) : Type 0 where
  pub kept :
      (s : ℕ) (st : BuilderState)
      → get_elem? base s ≡ some st
      → (now : BuilderState) × (get_elem? states s ≡ some now) × (now.transitions ≡ st.transitions)

-- A state with its final link and outputs.
pub record Linked (base states : List BuilderState) (t ch : ℕ) (v : List ℕ) : Type 0 where
  pub state : BuilderState
  pub found : get_elem? states t ≡ some state
  pub failure : state.failure ≡ best base (length v) (ch ∷ v)
  pub complete : (id : ℕ) → Hits base id (ch ∷ v) → Member id state.outputs
  pub sound : (id : ℕ) → Member id state.outputs → Hits base id (ch ∷ v)

-- All words of at most `d` bytes are linked.
abbrev pub LinkedTo : List BuilderState → List BuilderState → ℕ → Type 0
LinkedTo base states d =
    (ch t : ℕ) (v : List ℕ)
    → goto base (ch ∷ v) ≡ some t
    → length (ch ∷ v) ≤ d
    → Linked base states t ch v

-- One round of each loop.
find_failure-hit :
    (fuel s ch t : ℕ) (states : List BuilderState) (now : BuilderState)
    → s ≢ 0
    → get_elem? states s ≡ some now
    → get_transition ch now.transitions ≡ some t
    → find_failure (suc fuel) states s ch ≡ ok (some t)
unfolding find_failure state_at
find_failure-hit fuel s ch t states now other found hit =
    let nonzero : (s == 0) ≡ false = ground arith in rw (nonzero, state_at, found, ◌>>=◌, hit) refl

find_failure-on :
    (fuel s ch : ℕ) (states : List BuilderState) (now : BuilderState)
    → s ≢ 0
    → get_elem? states s ≡ some now
    → get_transition ch now.transitions ≡ none
    → find_failure (suc fuel) states s ch ≡ find_failure fuel states now.failure ch
unfolding find_failure state_at
find_failure-on fuel s ch states now other found miss =
    let nonzero : (s == 0) ≡ false = ground arith in rw (nonzero, state_at, found, ◌>>=◌, miss) refl

suffix_outputs-on :
    (fuel s : ℕ) (states : List BuilderState) (now : BuilderState) (rest : List ℕ)
    → s ≢ 0
    → get_elem? states s ≡ some now
    → suffix_outputs fuel states now.failure ≡ ok rest
    → suffix_outputs (suc fuel) states s ≡ ok (now.outputs ++ rest)
unfolding suffix_outputs state_at
suffix_outputs-on fuel s states now rest other found added =
    let nonzero : (s == 0) ≡ false = ground arith in
    rw (nonzero, state_at, found, ◌>>=◌, added) refl

pub base_state :
    (base : List BuilderState) (labels : List (List ℕ)) (w : List ℕ) (s : ℕ)
    → IsTrie base labels
    → goto base w ≡ some s
    → (st : BuilderState) × (get_elem? base s ≡ some st)
base_state base labels w s trie found =
    let there = label-goto base labels trie w s found in
    let below = get_elem?_lt labels s there in
    let sizes = trie.sizes in get_elem?_below base s (omega arith)

-- A suffix that the trie lacks hits nothing more.
pub longer_hit :
    (base : List BuilderState) (k : ℕ) (w : List ℕ) (id : ℕ)
    → suc k ≤ length w
    → Hits base id (take k w)
    → Hits base id (take (suc k) w)
longer_hit base k w id less (m, above, below, s, found, st, there, own) =
    let size = length-take_le k w (omega arith) in
    let size' = length-take_le (suc k) w less in
    let same = take-take m k w (omega arith) in
    let same' = take-take m (suc k) w (omega arith) in
    (m, above, omega arith, s, ap (goto base) (same' ∙ sym same) ∙ found, st, there, own)

pub shorter_hit :
    (base : List BuilderState) (k : ℕ) (w : List ℕ) (id : ℕ)
    → suc k ≤ length w
    → goto base (take (suc k) w) ≡ none
    → Hits base id (take (suc k) w)
    → Hits base id (take k w)
shorter_hit base k w id less nothing (m, above, below, s, found, st, there, own) =
    let size = length-take_le k w (omega arith) in
    let size' = length-take_le (suc k) w less in
    let same' = take-take m (suc k) w (omega arith) in
    let found' : goto base (take m w) ≡ some s = sym (ap (goto base) same') ∙ found in
    elim (ℕ_discrete m (suc k)) [
      | yes last ↦
          let here_too : goto base (take (suc k) w) ≡ some s =
            subst (λ n. goto base (take n w) ≡ some s) last found' in
          absurd (cc)
      | no other ↦
          let same = take-take m k w (omega arith) in
          (m, above, omega arith, s, ap (goto base) same ∙ found', st, there, own)
    ]

module _ (base states : List BuilderState) (labels : List (List ℕ)) (trie : IsTrie base labels)
    (keeps : Keeps base states) (d : ℕ) (linked : LinkedTo base states d) where
  -- A transition that the trie has is in the current state, and one that it lacks is not.
  pub transition_now :
      (s ch : ℕ) (now : BuilderState)
      → get_elem? states s ≡ some now
      → (st : BuilderState) → get_elem? base s ≡ some st
      → get_transition ch now.transitions ≡ step base s ch
  unfolding step
  transition_now s ch now current st before =
      let (now', current', same) = keeps.kept s st before in
      let both : some now ≡ some now' = sym current ∙ current' in
      let this : now ≡ now' = cc in
      rw before (ap (λ c. get_transition ch c.transitions) this ∙ ap (get_transition ch) same)

  -- The state of a non-empty part of a word, which has a link.
  part_linked :
      (k s : ℕ) (w : List ℕ)
      → suc k ≤ length w
      → suc k ≤ d
      → goto base (take (suc k) w) ≡ some s
      → (s ≢ 0)
        × ((now : BuilderState) × (get_elem? states s ≡ some now)
            × (now.failure ≡ best base k w)
            × ((id : ℕ) → Hits base id (take (suc k) w) → Member id now.outputs)
            × ((id : ℕ) → Member id now.outputs → Hits base id (take (suc k) w)))
  part_linked k s [] less deep found = absurd (omega arith)
  part_linked k s (ch ∷ v) less deep found =
      let size = length-take_le k v (omega arith) in
      let l = linked ch s (take k v) found (omega arith) in
      let link : l.state.failure ≡ best base k (ch ∷ take k v) =
        l.failure ∙ ap (λ n. best base n (ch ∷ take k v)) size in
      let shorter : best base k (ch ∷ take k v) ≡ best base k (ch ∷ v) =
        best-take base k (suc k) (ch ∷ v) (omega arith) in
      (
        goto-ne-zero base labels trie ch (take k v) s found,
        (l.state, l.found, link ∙ shorter, l.complete, l.sound),
      )

  -- The loop that looks for a transition on the chain.
  pub find_failure-best :
      (k ch : ℕ) (w : List ℕ) (fuel : ℕ)
      → k ≤ length w
      → k ≤ d
      → k < fuel
      → ((t : ℕ) × (find_failure fuel states (best base k w) ch ≡ ok (some t))
          × (best base (suc k) (ch ∷ w) ≡ t))
        ⊎ ((find_failure fuel states (best base k w) ch ≡ ok none)
            × (best base (suc k) (ch ∷ w) ≡ best base 1 (ch ∷ w)))
  find_failure-best k ch w zero less deep room = absurd (omega arith)
  find_failure-best zero ch w (suc fuel) less deep room =
      inr (unfold best in unfold find_failure in refl, refl)
  find_failure-best (suc k) ch w (suc fuel) less deep room =
      elim (Option-cases (goto base (take (suc k) w))) [
        | inl nothing ↦
            let longer : goto base (take (suc (suc k)) (ch ∷ w)) ≡ none =
              unfold goto in rw nothing refl in
            let e₁ = best-none base k w nothing in
            let e₂ = best-none base (suc k) (ch ∷ w) longer in
            rw (e₁, e₂)
              (find_failure-best k ch w (suc fuel) (omega arith) (omega arith) (omega arith))
        | inr (s, found) ↦
            let here_now = best-found base k s w found in
            let (other, (now, current, link, _, _)) = part_linked k s w less deep found in
            let (st, before) = base_state base labels (take (suc k) w) s trie found in
            let same = transition_now s ch now current st before in
            let on : goto base (take (suc (suc k)) (ch ∷ w)) ≡ step base s ch =
              unfold goto in rw found refl in
            elim (Option-cases (step base s ch)) [
              | inr (t, hit) ↦ rw here_now (
                  inl (
                    t,
                    find_failure-hit fuel s ch t states now other current (same ∙ hit),
                    best-found base (suc k) t (ch ∷ w) (on ∙ hit),
                  ))
              | inl miss ↦
                  let round = find_failure-on fuel s ch states now other current (same ∙ miss) in
                  let shorter = best-none base (suc k) (ch ∷ w) (on ∙ miss) in
                  rw (here_now, round, link, shorter)
                    (find_failure-best k ch w fuel (omega arith) (omega arith) (omega arith))
            ]
      ]

  -- The loop that collects the outputs of the chain.
  pub suffix_outputs-Hits :
      (k : ℕ) (w : List ℕ) (fuel : ℕ)
      → k ≤ length w
      → k ≤ d
      → k < fuel
      → (outs : List ℕ) × (suffix_outputs fuel states (best base k w) ≡ ok outs)
        × ((id : ℕ) → Hits base id (take k w) → Member id outs)
        × ((id : ℕ) → Member id outs → Hits base id (take k w))
  suffix_outputs-Hits k w zero less deep room = absurd (omega arith)
  suffix_outputs-Hits zero w (suc fuel) less deep room = (
    [],
    unfold best in unfold suffix_outputs in refl,
    λ id (m, above, below, _, _, _, _, _). absurd (omega arith),
    λ id m. elim m [ ],
  )
  suffix_outputs-Hits (suc k) w (suc fuel) less deep room =
      elim (Option-cases (goto base (take (suc k) w))) [
        | inl nothing ↦
            let e₁ = best-none base k w nothing in
            let (outs, result, complete, sound) =
              suffix_outputs-Hits k w (suc fuel) (omega arith) (omega arith) (omega arith) in
            (
              outs,
              rw e₁ result,
              λ id hit. complete id (shorter_hit base k w id less nothing hit),
              λ id m. longer_hit base k w id less (sound id m),
            )
        | inr (s, found) ↦
            let here_now = best-found base k s w found in
            let (other, (now, current, link, complete, sound)) =
              part_linked k s w less deep found in
            let (outs, result, more_complete, more_sound) =
              suffix_outputs-Hits k w fuel (omega arith) (omega arith) (omega arith) in
            let result' : suffix_outputs fuel states now.failure ≡ ok outs = rw link result in
            (
              now.outputs ++ outs,
              rw here_now (suffix_outputs-on fuel s states now outs other current result'),
              λ id hit. Member-append_left outs (complete id hit),
              λ id m. elim (Member-append now.outputs outs m) [
                | inl own ↦ sound id own
                | inr rest ↦ longer_hit base k w id less (more_sound id rest)
              ],
            )
      ]
