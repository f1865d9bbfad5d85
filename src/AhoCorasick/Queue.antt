-- ===== src/AhoCorasick/Queue.antt =====
-- The run of the queue (src/ac_offset.rs, `build_failure_links`), level by level: all words are linked when
-- it is empty, and the rounds suffice.
use matchy.Base.{
  ℕ, zero, suc, ◌+◌, ◌-◌, ◌≤◌, ◌≡◌, refl, sym, ap, ◌∙◌, subst, arith, List, [], ◌∷◌, ◌++◌, inl, inr,
  Option-cases, length, get_elem?, none, some, ok, ◌>>=◌, ℕ_discrete, append_assoc, append-nil,
}
use matchy.Base.Orders.{
  Member, here, later, Member-cases, Member-append_left, Member-append_right, Member-append,
  Rearranges_sym, Member-Rearranges,
}
use matchy.AhoCorasick.{
  BuilderState, Host, get_transition, state_at, link_all, targets, link_queue, children_of,
  all_children, rounds,
}
use matchy.AhoCorasick.Trie.{step, goto, IsTrie, goto-cons, Member-get_transition}
use matchy.AhoCorasick.Chains.{Linked, LinkedTo, base_state}
use matchy.AhoCorasick.Levels.{
  Walks, Progress, Preserves, Member-targets, targets-Member, link_all-Progress, same_word,
}

module _ (host : Host) (walks : Walks host) (base : List BuilderState) (labels : List (List ℕ))
    (trie : IsTrie base labels) (depth : ℕ) where
  -- A transition of a state of the trie, by the map and by the walk over it.
  pub step-Member :
      (s ch t : ℕ) (st : BuilderState)
      → get_elem? base s ≡ some st
      → step base s ch ≡ some t
      → Member (ch, t) (host.order st.transitions)
  unfolding step
  step-Member s ch t st there move =
      let found : get_transition ch st.transitions ≡ some t = rw there at move in
      Member-Rearranges (Rearranges_sym (walks.walk st.transitions))
        (Member-get_transition ch t st.transitions found)

  pub Member-step :
      (s ch t : ℕ) (st : BuilderState)
      → get_elem? base s ≡ some st
      → Member (ch, t) (host.order st.transitions)
      → step base s ch ≡ some t
  unfolding step
  Member-step s ch t st there m =
      rw there (trie.listed s st ch t there (Member-Rearranges (walks.walk st.transitions) m))

  step-none : (q ch : ℕ) → get_elem? base q ≡ none → step base q ch ≡ none
  unfolding step
  step-none q ch nothing = rw nothing refl

  -- All states of a level belong to words of its length, and the transitions from them are known.
  abbrev OfLength : ℕ → List ℕ → Type 0
  OfLength d level =
      (s : ℕ)
      → Member s level
      → (c : ℕ) × (v : List ℕ) × (goto base (c ∷ v) ≡ some s) × (length (c ∷ v) ≡ d)

  abbrev HasAll : ℕ → List ℕ → Type 0
  HasAll d level =
      (c s : ℕ) (v : List ℕ) → goto base (c ∷ v) ≡ some s → length (c ∷ v) ≡ d → Member s level

  children-step :
      (s t ch : ℕ) (level : List ℕ)
      → Member s level
      → step base s ch ≡ some t
      → Member t (all_children host base level)
  unfolding all_children
  children-step s t ch [] m move = elim m [ ]
  children-step s t ch (q ∷ level) m move = elim (Member-cases m) [
    | inr old ↦
        Member-append_right (children_of host (get_elem? base q))
          (children-step s t ch level old move)
    | inl same ↦
        let move' : step base q ch ≡ some t = subst (λ n. step base n ch ≡ some t) same move in
        Member-append_left (all_children host base level) (own_child q t ch move')
  ]
    where
      own_child :
          (q t ch : ℕ) → step base q ch ≡ some t → Member t (children_of host (get_elem? base q))
      own_child q t ch move = elim (Option-cases (get_elem? base q)) [
        | inl nothing ↦ let contrary = step-none q ch nothing in absurd (cc)
        | inr (st, there) ↦ rw there (
            unfold children_of in
            (targets-Member ch t (host.order st.transitions) (step-Member q ch t st there move)))
      ]

  -- What is in the children of a level.
  step-children :
      (t : ℕ) (level : List ℕ)
      → Member t (all_children host base level)
      → (s : ℕ) × Member s level × ((ch : ℕ) × (step base s ch ≡ some t))
  unfolding all_children
  step-children t [] m = elim m [ ]
  step-children t (q ∷ level) m =
      elim (Member-append (children_of host (get_elem? base q)) (all_children host base level) m) [
        | inr old ↦
            let (s, in_level, moves) = step-children t level old in (s, later in_level, moves)
        | inl own ↦ elim (Option-cases (get_elem? base q)) [
          | inl nothing ↦ none_here q t nothing own
          | inr (st, there) ↦
              let own' : Member t (children_of host (some st)) =
                subst (λ o. Member t (children_of host o)) there own in
              let (ch, listed) = from_targets st own' in
              (q, here, (ch, Member-step q ch t st there listed))
        ]
      ]
    where
      from_targets :
          {t : ℕ} (st : BuilderState)
          → Member t (children_of host (some st))
          → (ch : ℕ) × Member (ch, t) (host.order st.transitions)
      from_targets {t} st m = Member-targets t (host.order st.transitions) (unfold children_of in m)

      none_here :
          (q t : ℕ)
          → get_elem? base q ≡ none
          → Member t (children_of host (get_elem? base q))
          → (s : ℕ) × Member s (q ∷ level) × ((ch : ℕ) × (step base s ch ≡ some t))
      none_here q t nothing m =
          let m' : Member t [] =
            unfold children_of in (subst (λ o. Member t (children_of host o)) nothing m) in
          elim m' [ ]

  -- One round of the queue.
  link_queue_round :
      (fuel q : ℕ) (queue : List ℕ) (states after : List BuilderState) (now : BuilderState)
      → get_elem? states q ≡ some now
      → link_all depth (host.order now.transitions) q states ≡ ok after
      → link_queue (suc fuel) host depth (q ∷ queue) states
        ≡ link_queue fuel host depth (queue ++ targets (host.order now.transitions)) after
  unfolding link_queue state_at
  link_queue_round fuel q queue states after now found done = rw (state_at, found, ◌>>=◌, done) refl

  -- One level of the queue.
  run_level :
      (level : List ℕ) (d fuel f : ℕ) (rest : List ℕ) (states : List BuilderState)
      → fuel ≡ length level + f
      → d ≤ depth
      → OfLength d level
      → Progress base states d
      → (after : List BuilderState) × (link_queue fuel host depth (level ++ rest) states
          ≡ link_queue f host depth (rest ++ all_children host base level) after)
        × Progress base after d
        × Preserves base states after
        × ((s ch t c : ℕ) (v : List ℕ)
            → Member s level
            → goto base (c ∷ v) ≡ some s
            → step base s ch ≡ some t
            → Linked base after t ch (c ∷ v))
  unfolding all_children
  run_level [] d fuel f rest states enough deep words progress =
      let same : fuel ≡ f = omega arith in
      (
        states,
        ap (λ n. link_queue n host depth rest states) same
            ∙ ap (λ q. link_queue f host depth q states) (sym (append-nil rest)),
        progress,
        λ ch t v found l. l,
        λ s ch t c v m. elim m [ ],
      )
  run_level (q ∷ level) d zero f rest states enough deep words progress = absurd (omega arith)
  run_level (q ∷ level) d (suc fuel) f rest states enough deep words progress =
      let (c, v, at_q, size) = words q here in
      let (st, there) = base_state base labels (c ∷ v) q trie at_q in
      let (now, current, same) = progress.keeps.kept q st there in
      let ts = host.order st.transitions in
      let (middle, done, progress', keep, all) =
        link_all-Progress base labels trie depth d q c v size deep at_q ts states progress
          (λ ch t m. Member-step q ch t st there m) in
      let now_ts : host.order now.transitions ≡ ts = ap host.order same in
      let done' : link_all depth (host.order now.transitions) q states ≡ ok middle =
        rw now_ts done in
      let round = link_queue_round fuel q (level ++ rest) states middle now current done' in
      let (after, run, progress'', keep', others) =
        run_level level d fuel f (rest ++ targets ts) middle (omega arith) deep
          (λ s m. words s (later m)) progress' in
      (
        after,
        round
            ∙ ap (λ t. link_queue fuel host depth ((level ++ rest) ++ targets t) middle) now_ts
            ∙ ap (λ queue. link_queue fuel host depth queue middle)
                (append_assoc level rest (targets ts))
            ∙ run
            ∙ ap (λ queue. link_queue f host depth queue after)
                (append_assoc rest (targets ts) (all_children host base level)
                  ∙ ap (λ o. rest ++ (children_of host o ++ all_children host base level))
                      (sym there)),
        progress'',
        λ ch t w found l. keep' ch t w found (keep ch t w found l),
        λ s ch t c' v' m at_s move. elim (Member-cases m) [
          | inr old ↦ others s ch t c' v' old at_s move
          | inl this ↦
              let move' : step base q ch ≡ some t =
                subst (λ n. step base n ch ≡ some t) this move in
              let word : c' ∷ v' ≡ c ∷ v =
                same_word base labels trie (c' ∷ v') (c ∷ v) q
                  (subst (λ n. goto base (c' ∷ v') ≡ some n) this at_s) at_q in
              let linked = all ch t (step-Member q ch t st there move') in
              let e₁ : c ≡ c' = cc in
              let e₂ : v ≡ v' = cc in
              let at_t : goto base (ch ∷ c ∷ v) ≡ some t = unfold goto in rw at_q move' in
              subst (λ n. Linked base after t ch (n ∷ v')) e₁
                (subst (λ n. Linked base after t ch (c ∷ n)) e₂ (keep' ch t (c ∷ v) at_t linked))
        ],
      )

  next_level :
      (d : ℕ) (level : List ℕ) → OfLength d level → OfLength (suc d) (all_children host base level)
  next_level d level words t m =
      let (s, in_level, (ch, move)) = step-children t level m in
      let (c, v, at_s, size) = words s in_level in
      (ch, c ∷ v, unfold goto in rw at_s move, omega arith)

  next_level_all :
      (d : ℕ) (level : List ℕ)
      → 1 ≤ d
      → HasAll d level
      → HasAll (suc d) (all_children host base level)
  next_level_all d level positive all ch t [] found size = absurd (omega arith)
  next_level_all d level positive all ch t (c ∷ v) found size =
      let (s, at_s, move) = goto-cons base ch t (c ∷ v) found in
      children-step s t ch level (all c s v at_s (omega arith)) move

  no-Member {ℓ} : {A : Type ℓ} (xs : List A) → ((x : A) → Member x xs → ⊥) → xs ≡ []
  no-Member [] none_in = refl
  no-Member (x ∷ xs) none_in = absurd (none_in x here)

  -- The levels one after another, down to the longest words.
  pub run_levels :
      (k d fuel : ℕ) (level : List ℕ) (states : List BuilderState)
      → 1 ≤ d
      → d + k ≡ depth
      → ((w : List ℕ) (t : ℕ) → goto base w ≡ some t → length w ≤ depth)
      → rounds k host base level ≤ fuel
      → OfLength d level
      → HasAll d level
      → Progress base states d
      → (after : List BuilderState) × (link_queue fuel host depth level states ≡ ok after)
        × Progress base after depth
  unfolding rounds
  run_levels zero d fuel level states positive end short enough words all progress =
      let f = fuel - length level in
      let (after, run, progress', _, _) =
        run_level level d fuel f [] states (omega arith) (omega arith) words progress in
      let childless : all_children host base level ≡ [] =
        no-Member (all_children host base level) (λ t m.
          let (c, v, found, size) = next_level d level words t m in
          let less = short (c ∷ v) t found in absurd (omega arith)) in
      let last : d ≡ depth = omega arith in
      (
        after,
        ap (λ q. link_queue fuel host depth q states) (sym (append-nil level))
            ∙ run
            ∙ ap (λ q. link_queue f host depth q after) childless
            ∙ nothing_left f after,
        subst (Progress base after) last progress',
      )
    where
      nothing_left :
          (f : ℕ) (after : List BuilderState) → link_queue f host depth [] after ≡ ok after
      nothing_left zero after = unfold link_queue in refl
      nothing_left (suc f) after = unfold link_queue in refl
  run_levels (suc k) d fuel level states positive end short enough words all progress =
      let f = fuel - length level in
      let (middle, run, progress', keep, linked) =
        run_level level d fuel f [] states (omega arith) (omega arith) words progress in
      let deeper : Progress base middle (suc d) = record {
        keeps = progress'.keeps;
        linked = λ ch t v found less.
            deep d level middle positive all linked progress' ch t v found less;
        partial = progress'.partial;
      } in
      let (after, rest, final) =
        run_levels k (suc d) f (all_children host base level) middle (omega arith) (omega arith)
          short (omega arith) (next_level d level words) (next_level_all d level positive all)
          deeper in
      (
        after,
        ap (λ q. link_queue fuel host depth q states) (sym (append-nil level)) ∙ run ∙ rest,
        final,
      )
    where
      deep :
          (d : ℕ) (level : List ℕ) (middle : List BuilderState)
          → 1 ≤ d
          → HasAll d level
          → ((s ch t c : ℕ) (v : List ℕ)
              → Member s level
              → goto base (c ∷ v) ≡ some s
              → step base s ch ≡ some t
              → Linked base middle t ch (c ∷ v))
          → Progress base middle d
          → LinkedTo base middle (suc d)
      deep d level middle positive all linked progress' ch t [] found less =
          progress'.linked ch t [] found (omega arith)
      deep d level middle positive all linked progress' ch t (c ∷ v) found less =
          elim (ℕ_discrete (length (c ∷ v)) d) [
            | no other ↦ progress'.linked ch t (c ∷ v) found (omega arith)
            | yes here_now ↦
                let (s, at_s, move) = goto-cons base ch t (c ∷ v) found in
                linked s ch t c v (all c s v at_s here_now) at_s move
          ]
