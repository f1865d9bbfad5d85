-- ===== src/AhoCorasick/Links.antt =====
-- One failure link (src/ac_offset.rs, the body of the loop of `build_failure_links`): the state of a
-- word gets its link and the outputs of its suffixes.
use matchy.Base.{
  ℕ, suc, ◌≤◌, ◌<◌, ◌≡◌, ◌≢◌, refl, sym, ap, ◌∙◌, subst, arith, ◌==◌, List, [], ◌∷◌, ◌++◌, inl, inr,
  false, Option-cases, length, get_elem?, get_elem?_lt, get_elem?-set_self, get_elem?-set_ne,
  length-set, set, take, Option, none, some, ok, ◌>>=◌, ℕ_discrete, length-take_le,
}
use matchy.Base.Orders.{Member, Member-append_left, Member-append_right, Member-append}
use matchy.AhoCorasick.{
  BuilderState, get_transition, state_at, find_failure, root_failure, chosen_failure,
  suffix_outputs, link,
}
use matchy.AhoCorasick.Trie.{
  step, goto, best, IsTrie, label-goto, best-found, best-none, take-take, take_all,
}
use matchy.AhoCorasick.Chains.{
  Hits, Keeps, Linked, LinkedTo, base_state, find_failure-best, suffix_outputs-Hits,
}

-- A state that may not have its link yet: its outputs are its own, and perhaps of suffixes.
pub record Partial (base states : List BuilderState) (t : ℕ) (w : List ℕ) : Type 0 where
  pub state : BuilderState
  pub found : get_elem? states t ≡ some state
  pub own :
      (st : BuilderState)
      → get_elem? base t ≡ some st
      → (id : ℕ) → Member id st.outputs
      → Member id state.outputs
  pub sound : (id : ℕ) → Member id state.outputs → Hits base id w

Keeps-set :
    (base states : List BuilderState) (i : ℕ) (old new : BuilderState)
    → Keeps base states
    → get_elem? states i ≡ some old
    → new.transitions ≡ old.transitions
    → Keeps base (set states i new)
Keeps-set base states i old new keeps found same = record {
  kept = λ s st before.
      let (now, current, kept) = keeps.kept s st before in
      elim (ℕ_discrete i s) [
        | yes this ↦
            let both : some old ≡ some now =
              sym found ∙ subst (λ n. get_elem? states n ≡ some now) (sym this) current in
            let equal : old ≡ now = cc in
            (
              new,
              subst (λ n. get_elem? (set states i new) n ≡ some new) this
                  (get_elem?-set_self states i new (get_elem?_lt states i found)),
              same ∙ ap (λ (c : BuilderState). c.transitions) equal ∙ kept,
            )
        | no other ↦ (now, get_elem?-set_ne states i s new other ∙ current, kept)
      ];
}

-- The steps of `link`.
link_steps :
    (depth s ch next failure : ℕ) (states : List BuilderState) (st nx : BuilderState)
    (found : Option ℕ) (added : List ℕ)
    → get_elem? states s ≡ some st
    → find_failure (suc depth) states st.failure ch ≡ ok found
    → chosen_failure found states next ch ≡ ok failure
    → get_elem? states next ≡ some nx
    → suffix_outputs (suc depth) (set states next (record nx { failure = failure })) failure
      ≡ ok added
    → link depth states s ch next
      ≡ ok (
          set
            (set states next (record nx { failure = failure }))
            next
            (record nx { failure = failure; outputs = nx.outputs ++ added }))
unfolding link state_at
link_steps depth s ch next failure states st nx found added at_s looked chose at_next collected =
    rw (state_at, at_s, ◌>>=◌, looked, chose, at_next, collected) refl

-- What a change of one state leaves.
abbrev pub Frame : List BuilderState → List BuilderState → ℕ → Type 0
Frame states later i = (t : ℕ) → t ≢ i → get_elem? later t ≡ get_elem? states t

module _ (base : List BuilderState) (labels : List (List ℕ)) (trie : IsTrie base labels) where
  -- Words of different lengths have different states.
  pub apart :
      (v w : List ℕ) (s t : ℕ)
      → goto base v ≡ some s
      → goto base w ≡ some t
      → length v ≢ length w
      → s ≢ t
  apart v w s t at_s at_t differ same =
      let l = label-goto base labels trie v s at_s in
      let l' = label-goto base labels trie w t at_t in
      let both : some v ≡ some w = sym l ∙ subst (λ n. get_elem? labels n ≡ some w) (sym same) l' in
      let equal : v ≡ w = cc in differ (ap length equal)

  pub Linked-Frame :
      (states later : List BuilderState) (i t ch : ℕ) (v : List ℕ)
      → Frame states later i
      → t ≢ i
      → Linked base states t ch v
      → Linked base later t ch v
  Linked-Frame states later i t ch v frame other l = record {
    state = l.state;
    found = frame t other ∙ l.found;
    failure = l.failure;
    complete = l.complete;
    sound = l.sound;
  }

  pub LinkedTo-Frame :
      (states later : List BuilderState) (d i : ℕ) (w : List ℕ)
      → Frame states later i
      → goto base w ≡ some i
      → d < length w
      → LinkedTo base states d
      → LinkedTo base later d
  LinkedTo-Frame states later d i w frame at_i deeper linked ch t v found short =
      Linked-Frame states later i t ch v frame (apart (ch ∷ v) w t i found at_i (λ e. omega arith))
        (linked ch t v found short)

  -- `root_failure`, for a word of at least two bytes.
  root_failure-best :
      (states : List BuilderState) (ch next : ℕ) (w : List ℕ)
      → Keeps base states
      → 1 ≤ length w
      → goto base (ch ∷ w) ≡ some next
      → root_failure states next ch ≡ ok (best base 1 (ch ∷ w))
  unfolding root_failure state_at
  root_failure-best states ch next w keeps long at_next =
      let (root, before) = base_state base labels [] 0 trie (unfold goto in refl) in
      let (now, current, kept) = keeps.kept 0 root before in
      let one : goto base (take 1 (ch ∷ w)) ≡ step base 0 ch = unfold goto in refl in
      let same : get_transition ch now.transitions ≡ step base 0 ch =
        unfold step in rw before (ap (get_transition ch) kept) in
      elim (Option-cases (step base 0 ch)) [
        | inl nothing ↦
            rw (state_at, current, ◌>>=◌, same ∙ nothing)
              (ap ok (sym (best-none base 0 (ch ∷ w) (one ∙ nothing) ∙ unfold best in refl)))
        | inr (t, found) ↦
            let other : t ≢ next =
              apart (take 1 (ch ∷ w)) (ch ∷ w) t next (one ∙ found) at_next (λ e. omega arith) in
            let differ : (t == next) ≡ false = ground arith in
            rw (state_at, current, ◌>>=◌, same ∙ found, differ)
              (ap ok (sym (best-found base 0 t (ch ∷ w) (one ∙ found))))
      ]

  -- The link of a word of at least two bytes.
  chosen_failure-best :
      (states : List BuilderState) (d ch next c : ℕ) (v : List ℕ) (fuel : ℕ)
      → Keeps base states
      → LinkedTo base states d
      → length v < d
      → length v < fuel
      → goto base (ch ∷ c ∷ v) ≡ some next
      → (found : Option ℕ) × (find_failure fuel states (best base (length v) (c ∷ v)) ch ≡ ok found)
        × (chosen_failure found states next ch ≡ ok (best base (suc (length v)) (ch ∷ c ∷ v)))
  unfolding chosen_failure
  chosen_failure-best states d ch next c v fuel keeps linked deep room at_next =
      elim (find_failure-best base states labels trie keeps d linked (length v) ch (c ∷ v) fuel
        (omega arith) (omega arith) room) [
          | inl (t, looked, same) ↦ (some t, looked, ap ok (sym same))
          | inr (looked, same) ↦ (
            none,
            looked,
            root_failure-best states ch next (c ∷ v) keeps (omega arith) at_next ∙ ap ok (sym same),
          )
        ]

  pub link-Linked :
      (states : List BuilderState) (depth d s ch next c : ℕ) (v : List ℕ)
      → Keeps base states
      → LinkedTo base states d
      → length (c ∷ v) ≡ d
      → d ≤ depth
      → goto base (c ∷ v) ≡ some s
      → goto base (ch ∷ c ∷ v) ≡ some next
      → Partial base states next (ch ∷ c ∷ v)
      → (later : List BuilderState) × (link depth states s ch next ≡ ok later)
        × Keeps base later
        × Linked base later next ch (c ∷ v)
        × Frame states later next
  link-Linked states depth d s ch next c v keeps linked deep room at_s at_next part =
      let w = c ∷ v in
      let l = linked c s v at_s (omega arith) in
      let (found, looked, chose) =
        chosen_failure-best states d ch next c v (suc depth) keeps linked (omega arith)
          (omega arith) at_next in
      let failure = best base (suc (length v)) (ch ∷ w) in
      let nx = part.state in
      let half : BuilderState = record nx { failure = failure } in
      let middle = set states next half in
      let inside = get_elem?_lt states next part.found in
      let keeps' = Keeps-set base states next nx half keeps part.found refl in
      let frame : Frame states middle next =
        λ t other. get_elem?-set_ne states next t half (λ e. other (sym e)) in
      let linked' : LinkedTo base middle d =
        LinkedTo-Frame states middle d next (ch ∷ w) frame at_next (omega arith) linked in
      let (added, collected, complete, sound) =
        suffix_outputs-Hits base middle labels trie keeps' d linked' (suc (length v)) (ch ∷ w)
          (suc depth) (omega arith) (omega arith) (omega arith) in
      let whole : BuilderState = record nx { failure = failure; outputs = nx.outputs ++ added } in
      let at_half = get_elem?-set_self states next half inside in
      let inside' : next < length middle = omega (arith, length-set states next half) in
      (
        set middle next whole,
        link_steps depth s ch next failure states l.state nx found added l.found
            (rw l.failure looked) chose part.found collected,
        Keeps-set base middle next half whole keeps' at_half refl,
        record {
          state = whole;
          found = get_elem?-set_self middle next whole inside';
          failure = refl;
          complete = λ id hit. all_hits id nx added hit complete;
          sound = λ id m. elim (Member-append nx.outputs added m) [
            | inl own ↦ part.sound id own
            | inr more ↦ longer id (sound id more)
          ];
        },
        λ t other. get_elem?-set_ne middle next t whole (λ e. other (sym e)) ∙ frame t other,
      )
    where
      longer :
          (id : ℕ) → Hits base id (take (suc (length v)) (ch ∷ c ∷ v)) → Hits base id (ch ∷ c ∷ v)
      longer id (m, above, below, t, found, st, there, own) =
          let size = length-take_le (suc (length v)) (ch ∷ c ∷ v) (omega arith) in
          let same = take-take m (suc (length v)) (ch ∷ c ∷ v) (omega arith) in
          (m, above, omega arith, t, sym (ap (goto base) same) ∙ found, st, there, own)

      all_hits :
          (id : ℕ) (nx : BuilderState) (added : List ℕ)
          → Hits base id (ch ∷ c ∷ v)
          → ((i : ℕ) → Hits base i (take (suc (length v)) (ch ∷ c ∷ v)) → Member i added)
          → Member id (part.state.outputs ++ added)
      all_hits id nx added (m, above, below, t, found, st, there, own) complete =
          elim (ℕ_discrete m (length (ch ∷ c ∷ v))) [
            | yes last ↦
                let full : take m (ch ∷ c ∷ v) ≡ ch ∷ c ∷ v =
                  ap (λ n. take n (ch ∷ c ∷ v)) last ∙ take_all (ch ∷ c ∷ v) in
                let both : some next ≡ some t = sym at_next ∙ sym (ap (goto base) full) ∙ found in
                let same : t ≡ next = cc in
                Member-append_left added
                  (part.own st (subst (λ n. get_elem? base n ≡ some st) same there) id own)
            | no other ↦
                let size = length-take_le (suc (length v)) (ch ∷ c ∷ v) (omega arith) in
                let same = take-take m (suc (length v)) (ch ∷ c ∷ v) (omega arith) in
                Member-append_right part.state.outputs (
                  complete id
                    (m, above, omega arith, t, ap (goto base) same ∙ found, st, there, own))
          ]
