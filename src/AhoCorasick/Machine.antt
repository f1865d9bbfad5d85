-- ===== src/AhoCorasick/Machine.antt =====
-- What the search and the writer rely on of the automaton that is built (src/ac_offset.rs): its states are
-- linked by their suffixes, tidy enough to be laid out in bytes, and report the patterns.
use matchy.Base.{
  ℕ, zero, suc, ◌+◌, ◌^◌, ◌≤◌, ◌<◌, ◌≡◌, ◌≢◌, ◌↔◌, refl, sym, ap, ◌∙◌, subst, arith, List, [], ◌∷◌,
  ◌⊎◌, inl, inr, Option-cases, length, get_elem?, get_elem?_lt, take, map, some,
}
use matchy.Base.Orders.{Member, here, later}
use matchy.LiteralHash.Probe.{get_elem?_below}
use matchy.Glob.{MatchMode}
use matchy.AhoCorasick.{
  BuilderState, Host, get_transition, pattern_bytes, longest, rounds, children_of, build_states,
}
use matchy.AhoCorasick.Trie.{
  step, goto, best, IsTrie, label-goto, goto-label, goto-ne-zero, best-found, best-none, take_all,
}
use matchy.AhoCorasick.Chains.{Hits, Linked, base_state, longer_hit, shorter_hit}
use matchy.AhoCorasick.Levels.{Walks}
use matchy.AhoCorasick.Steady.{Steady, build_failure_links-Steady}
use matchy.AhoCorasick.Paths.{backwards, length-backwards}
use matchy.AhoCorasick.Filling.{total_size}
use matchy.AhoCorasick.Suffixes.{goto_kept, best_kept, EndsWith, Hits-EndsWith, EndsWith-Hits}
use matchy.AhoCorasick.Automaton.{Outcome, outcome}
use matchy.AhoCorasick.Walk.{Chained}

-- States that can be laid out in bytes.
pub record Tidy (states : List BuilderState) : Type 0 where
  pub keyed :
      (s : ℕ) (st : BuilderState) (ch t : ℕ)
      → get_elem? states s ≡ some st
      → Member (ch, t) st.transitions
      → get_transition ch st.transitions ≡ some t
  pub target :
      (s : ℕ) (st : BuilderState) (ch t : ℕ)
      → get_elem? states s ≡ some st
      → Member (ch, t) st.transitions
      → (t ≢ 0) × (t < length states)
  pub failure :
      (s : ℕ) (st : BuilderState) → get_elem? states s ≡ some st → st.failure < length states
  pub id :
      (s : ℕ) (st : BuilderState) (id : ℕ)
      → get_elem? states s ≡ some st
      → Member id st.outputs
      → id < 2 ^ 32

length-total_size :
    (host : Host) (mode : MatchMode) (patterns : List (List ℕ))
    → length patterns ≤ total_size host mode patterns
unfolding total_size
length-total_size host mode [] = omega arith
length-total_size host mode (p ∷ ps) = omega (arith, length-total_size host mode ps)

get_elem?-Member : (ps : List (List ℕ)) (i : ℕ) (p : List ℕ) → get_elem? ps i ≡ some p → Member p ps
get_elem?-Member [] i p found = absurd (cc)
get_elem?-Member (q ∷ ps) zero p found =
    let this : q ≡ p = cc in subst (λ x. Member p (x ∷ ps)) (sym this) here
get_elem?-Member (q ∷ ps) (suc i) p found = later (get_elem?-Member ps i p found)

module _ (host : Host) (mode : MatchMode) (patterns : List (List ℕ)) (walks : Walks host)
    (some_pattern : patterns ≢ []) (full : ¬ (Member [] patterns))
    (room : 1 + total_size host mode patterns ≤ 2 ^ 32) where
  abbrev o : Outcome host mode patterns (build_states host mode patterns)
  o = outcome host mode patterns walks some_pattern full room

  abbrev trie : IsTrie o.base o.labels
  trie = o.stored.trie

  -- The word of a state.
  word_of : (s : ℕ) → s < length o.base → (w : List ℕ) × (goto o.base w ≡ some s)
  word_of s low =
      let sizes = trie.sizes in
      let (w, label) = get_elem?_below o.labels s (omega arith) in
      (w, goto-label o.base o.labels trie w s label)

  base_target :
      (s ch t : ℕ) (st : BuilderState)
      → get_elem? o.base s ≡ some st
      → Member (ch, t) st.transitions
      → (t ≢ 0) × (t < length o.base)
  base_target s ch t st there m =
      let (w, at_w) = word_of s (get_elem?_lt o.base s there) in
      let listed = trie.listed s st ch t there m in
      let move : step o.base s ch ≡ some t = unfold step in rw there listed in
      let on : goto o.base (ch ∷ w) ≡ some t = unfold goto in rw at_w move in
      let (now, at_t) = base_state o.base o.labels (ch ∷ w) t trie on in
      (goto-ne-zero o.base o.labels trie ch w t on, get_elem?_lt o.base t at_t)

  steady : Steady o.base o.after
  steady =
      let k = longest (map (pattern_bytes host mode) patterns) in
      build_failure_links-Steady host walks
        (rounds k host o.base (children_of host (get_elem? o.base 0))) (suc k) o.base o.after
        (λ s ch t st there m. let (other, _) = base_target s ch t st there m in other) o.linked

  -- The state before the links.
  base_of :
      (s : ℕ) (now : BuilderState)
      → get_elem? o.after s ≡ some now
      → (st : BuilderState) × (get_elem? o.base s ≡ some st) × (now.transitions ≡ st.transitions)
  base_of s now at_s =
      let low = get_elem?_lt o.after s at_s in
      let size = steady.size in
      let (st, there) = get_elem?_below o.base s (omega arith) in
      let (now', at_s', same) = o.progress.keeps.kept s st there in
      let both : some now ≡ some now' = sym at_s ∙ at_s' in
      let this : now ≡ now' = cc in
      (st, there, ap (λ (b : BuilderState). b.transitions) this ∙ same)

  goto-after : (w : List ℕ) → goto o.after w ≡ goto o.base w
  goto-after w = goto_kept o.base o.after o.labels trie o.progress.keeps w

  state-Linked :
      (ch t : ℕ) (v : List ℕ) → goto o.base (ch ∷ v) ≡ some t → Linked o.base o.after t ch v
  state-Linked ch t v found =
      let less = o.stored.short t (ch ∷ v) (label-goto o.base o.labels trie (ch ∷ v) t found) in
      o.progress.linked ch t v found (omega arith)

  pub after-Chained : Chained o.after
  after-Chained = record {
    present = λ w t found.
        let found' = sym (goto-after w) ∙ found in
        let (st, there) = base_state o.base o.labels w t trie found' in
        let (now, at_t, _) = o.progress.keeps.kept t st there in (now, at_t);
    off_root = λ ch w t found.
        goto-ne-zero o.base o.labels trie ch w t (sym (goto-after (ch ∷ w)) ∙ found);
    link = λ ch w t st found there.
        let l = state-Linked ch t w (sym (goto-after (ch ∷ w)) ∙ found) in
        let both : some st ≡ some l.state = sym there ∙ l.found in
        let this : st ≡ l.state = cc in
        ap (λ (b : BuilderState). b.failure) this
        ∙ l.failure
        ∙ sym (best_kept o.base o.after o.labels trie o.progress.keeps (length w) (ch ∷ w));
  }

  root_base : (now : BuilderState) → get_elem? o.after 0 ≡ some now → get_elem? o.base 0 ≡ some now
  root_base now at_0 = sym steady.root ∙ at_0

  best_low : (n : ℕ) (w : List ℕ) → best o.base n w < length o.base
  best_low zero w =
      let (st, there) = base_state o.base o.labels [] 0 trie (unfold goto in refl) in
      unfold best in (get_elem?_lt o.base 0 there)
  best_low (suc n) w = elim (Option-cases (goto o.base (take (suc n) w))) [
    | inl nothing ↦
        subst (λ k. k < length o.base) (sym (best-none o.base n w nothing)) (best_low n w)
    | inr (t, found) ↦
        let (st, there) = base_state o.base o.labels (take (suc n) w) t trie found in
        subst (λ k. k < length o.base) (sym (best-found o.base n t w found))
          (get_elem?_lt o.base t there)
  ]

  own_id :
      (s id : ℕ) (st : BuilderState)
      → get_elem? o.base s ≡ some st
      → Member id st.outputs
      → id < 2 ^ 32
  own_id s id st there m =
      let low = get_elem?_lt o.base s there in
      let sizes = trie.sizes in
      let (w, label) = get_elem?_below o.labels s (omega arith) in
      let (p, at_id, _) = o.stored.owns s st w id there label m in
      let small = get_elem?_lt patterns id at_id in
      omega (arith, length-total_size host mode patterns)

  -- A state is the root, or has a link.
  state-cases :
      (s : ℕ) (now : BuilderState)
      → get_elem? o.after s ≡ some now
      → (get_elem? o.base s ≡ some now)
        ⊎ ((ch : ℕ) × (v : List ℕ) × (l : Linked o.base o.after s ch v) × (now ≡ l.state))
  state-cases s now at_s =
      let (st, there, _) = base_of s now at_s in
      let (w, found) = word_of s (get_elem?_lt o.base s there) in by_word w found
    where
      by_word :
          (w : List ℕ)
          → goto o.base w ≡ some s
          → (get_elem? o.base s ≡ some now)
            ⊎ ((ch : ℕ) × (v : List ℕ) × (l : Linked o.base o.after s ch v) × (now ≡ l.state))
      by_word [] found =
          let opened : some 0 ≡ some s = unfold goto in found in
          let root : 0 ≡ s = cc in
          inl (
            subst (λ n. get_elem? o.base n ≡ some now) root
              (root_base now (subst (λ n. get_elem? o.after n ≡ some now) (sym root) at_s)))
      by_word (ch ∷ v) found =
          let l = state-Linked ch s v found in
          let both : some now ≡ some l.state = sym at_s ∙ l.found in
          let this : now ≡ l.state = cc in inr (ch, v, l, this)

  pub after-Tidy : Tidy o.after
  after-Tidy = record {
    keyed = λ s now ch t at_s m.
        let (st, there, same) = base_of s now at_s in
        let m' : Member (ch, t) st.transitions = subst (λ ts. Member (ch, t) ts) same m in
        ap (get_transition ch) same ∙ trie.listed s st ch t there m';
    target = λ s now ch t at_s m.
        let (st, there, same) = base_of s now at_s in
        let m' : Member (ch, t) st.transitions = subst (λ ts. Member (ch, t) ts) same m in
        let (other, low) = base_target s ch t st there m' in
        let size = steady.size in (other, omega arith);
    failure = λ s now at_s.
        let size = steady.size in
        elim (state-cases s now at_s) [
          | inl old ↦
              let low = get_elem?_lt o.after s at_s in
              let zero_link = o.stored.fresh s now old in omega arith
          | inr (ch, v, l, this) ↦
              let e : now.failure ≡ best o.base (length v) (ch ∷ v) =
                ap (λ (b : BuilderState). b.failure) this ∙ l.failure in
              let low = best_low (length v) (ch ∷ v) in omega arith
        ];
    id = λ s now id at_s m. elim (state-cases s now at_s) [
      | inl old ↦ own_id s id now old m
      | inr (ch, v, l, this) ↦
          let (_, _, _, t, _, st, there, own) =
            l.sound id (subst (λ (b : BuilderState). Member id b.outputs) this m) in
          own_id t id st there own
    ];
  }

  module _ (lowered : (p : List ℕ) → Member p patterns → pattern_bytes host mode p ≢ []) where
    -- The state of the longest suffix reports what ends the word.
    outputs-best :
        (n : ℕ) (w : List ℕ) (now : BuilderState) (id : ℕ)
        → n ≤ length w
        → get_elem? o.after (best o.base n w) ≡ some now
        → Member id now.outputs ↔ Hits o.base id (take n w)
    outputs-best zero w now id less at_best = (
      λ m.
          let at_0 : get_elem? o.base 0 ≡ some now = root_base now (unfold best in at_best) in
          let (p, at_id, same) = o.stored.owns 0 now [] id at_0 trie.root m in
          let size : length (backwards (pattern_bytes host mode p) []) ≡ 0 = ap length same in
          absurd (
            lowered p (get_elem?-Member patterns id p at_id) (
              no_bytes (pattern_bytes host mode p)
                (omega (arith, length-backwards (pattern_bytes host mode p) [])))),
      λ (m, above, below, _, _, _, _, _). absurd (omega arith),
    )
      where
        no_bytes : (v : List ℕ) → length v ≡ 0 → v ≡ []
        no_bytes [] e = refl
        no_bytes (x ∷ v) e = absurd (omega arith)
    outputs-best (suc n) w now id less at_best =
        elim (Option-cases (goto o.base (take (suc n) w))) [
          | inl nothing ↦
              let shorter = ap (get_elem? o.after) (sym (best-none o.base n w nothing)) ∙ at_best in
              let (down, up) = outputs-best n w now id (omega arith) shorter in
              (
                λ m. longer_hit o.base n w id less (down m),
                λ h. up (shorter_hit o.base n w id less nothing h),
              )
          | inr (t, found) ↦
              let at_t = ap (get_elem? o.after) (sym (best-found o.base n t w found)) ∙ at_best in
              found_outputs n w t now id less found at_t
        ]
      where
        found_outputs :
            (n : ℕ) (w : List ℕ) (t : ℕ) (now : BuilderState) (id : ℕ)
            → suc n ≤ length w
            → goto o.base (take (suc n) w) ≡ some t
            → get_elem? o.after t ≡ some now
            → Member id now.outputs ↔ Hits o.base id (take (suc n) w)
        found_outputs n [] t now id less found at_t = absurd (omega arith)
        found_outputs n (ch ∷ v) t now id less found at_t =
            let l = state-Linked ch t (take n v) found in
            let both : some now ≡ some l.state = sym at_t ∙ l.found in
            let this : now ≡ l.state = cc in
            (
              λ m. l.sound id (subst (λ (b : BuilderState). Member id b.outputs) this m),
              λ h. subst (λ (b : BuilderState). Member id b.outputs) (sym this) (l.complete id h),
            )

    pub after-EndsWith :
        (text : List ℕ) (now : BuilderState) (id : ℕ)
        → get_elem? o.after (best o.after (length text) (backwards text [])) ≡ some now
        → Member id now.outputs ↔ EndsWith host mode patterns id text
    after-EndsWith text now id at_best =
        let w = backwards text [] in
        let size : length w ≡ length text = omega (arith, length-backwards text []) in
        let kept = best_kept o.base o.after o.labels trie o.progress.keeps (length text) w in
        let (down, up) =
          outputs-best (length text) w now id (omega arith)
            (ap (get_elem? o.after) (sym kept) ∙ at_best) in
        let whole : take (length text) w ≡ w = ap (λ n. take n w) (sym size) ∙ take_all w in
        (
          λ m.
              Hits-EndsWith host mode o.bound o.base patterns o.labels o.stored id text
                (subst (Hits o.base id) whole (down m)),
          λ h. up (
              subst (Hits o.base id) (sym whole)
                (EndsWith-Hits host mode o.bound o.base patterns o.labels o.stored id text h)),
        )
