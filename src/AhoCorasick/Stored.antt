-- ===== src/AhoCorasick/Stored.antt =====
-- The builder behind its patterns (src/ac_offset.rs, `ACBuilder::add_pattern`): what the states and the
-- outputs have to do with the patterns.
use matchy.Base.{
  ℕ, ◌+◌, ◌%◌, ◌^◌, ◌≤◌, ◌<◌, ◌≡◌, refl, sym, ap, ◌∙◌, subst, arith, ltb, List, [], ◌∷◌, ◌++◌, ◌⊎◌,
  inl, inr, Bool-cases, length, get_elem?, get_elem?_lt, length-set, get_elem?-set_self,
  get_elem?-set_ne, get_elem?-append_left, get_elem?-append_end, some, Result, ok, ◌>>=◌, set,
  ℕ_discrete,
}
use native.Mathlib.Nat.{mod-eq_of_lt}
use matchy.Base.Orders.{
  Member, here, Member-cases, Member-append_left, Member-append_right, Member-append,
}
use matchy.LiteralHash.Probe.{get_elem?_below}
use matchy.Glob.{MatchMode}
use matchy.AhoCorasick.{
  BuilderState, AcBuilder, Host, get_transition, state_at, walk_path, add_pattern, pattern_bytes,
}
use matchy.AhoCorasick.Trie.{bind, step, IsTrie}
use matchy.AhoCorasick.Insert.{append_end-cases, Extends}
use matchy.AhoCorasick.Paths.{backwards, length-backwards, walk_path-Reached}

-- Another state with the same transitions.
module _ (states : List BuilderState) (i : ℕ) (s now : BuilderState)
    (found : get_elem? states i ≡ some s) (same : now.transitions ≡ s.transitions) where
  set_here : get_elem? (set states i now) i ≡ some now
  set_here = get_elem?-set_self states i now (get_elem?_lt states i found)

  step-set : (t c : ℕ) → step (set states i now) t c ≡ step states t c
  unfolding step
  step-set t c = elim (ℕ_discrete i t) [
    | no other ↦ rw (get_elem?-set_ne states i t now other) refl
    | yes e ↦
        subst
          (λ n.
            bind (get_elem? (set states i now) n) (λ b. get_transition c b.transitions)
            ≡ bind (get_elem? states n) (λ b. get_transition c b.transitions))
          e (rw (set_here, found) (ap (get_transition c) same))
  ]

  set-IsTrie : (labels : List (List ℕ)) → IsTrie states labels → IsTrie (set states i now) labels
  set-IsTrie labels trie = record {
    sizes = trie.sizes ∙ sym (length-set states i now);
    root = trie.root;
    only_root = trie.only_root;
    down = λ t c u w label move. trie.down t c u w label (sym (step-set t c) ∙ move);
    up = λ t c w label. let (p, at_p, move) = trie.up t c w label in (p, at_p, step-set p c ∙ move);
    listed = λ t st c u at_t m. elim (ℕ_discrete i t) [
      | no other ↦ trie.listed t st c u (sym (get_elem?-set_ne states i t now other) ∙ at_t) m
      | yes e ↦
          let both : some now ≡ some st =
            sym set_here ∙ subst (λ n. get_elem? (set states i now) n ≡ some st) (sym e) at_t in
          let this : st ≡ now = cc in
          let old : st.transitions ≡ s.transitions =
            ap (λ (b : BuilderState). b.transitions) this ∙ same in
          subst (λ ts. get_transition c ts ≡ some u) (sym old)
            (trie.listed i s c u found (subst (λ ts. Member (c, u) ts) old m))
    ];
  }

-- The id of a pattern whose bytes are the word.
abbrev pub WordOf : Host → MatchMode → List (List ℕ) → ℕ → List ℕ → Type 0
WordOf host mode patterns id w =
    (p : List ℕ) × (get_elem? patterns id ≡ some p) × (backwards (pattern_bytes host mode p) [] ≡ w)

-- The states of a builder with patterns of at most `bound` bytes.
pub record Stored (host : Host) (mode : MatchMode) (bound : ℕ) (states : List BuilderState)
    (patterns labels : List (List ℕ)) : Type 0 where
  pub trie : IsTrie states labels
  pub fresh : (t : ℕ) (st : BuilderState) → get_elem? states t ≡ some st → st.failure ≡ 0
  pub owns :
      (t : ℕ) (st : BuilderState) (w : List ℕ) (id : ℕ)
      → get_elem? states t ≡ some st
      → get_elem? labels t ≡ some w
      → Member id st.outputs
      → WordOf host mode patterns id w
  pub has :
      (id : ℕ) (p : List ℕ)
      → get_elem? patterns id ≡ some p
      → (t : ℕ) × (get_elem? labels t ≡ some (backwards (pattern_bytes host mode p) []))
        × (st : BuilderState) × (get_elem? states t ≡ some st)
        × Member id st.outputs
  pub short : (t : ℕ) (w : List ℕ) → get_elem? labels t ≡ some w → length w ≤ bound

pub record AddedTo (host : Host) (mode : MatchMode) (bound : ℕ) (states : List BuilderState)
    (patterns : List (List ℕ)) (p : List ℕ) (result : Result AcBuilder) : Type 0 where
  pub after : List BuilderState
  pub labels' : List (List ℕ)
  pub runs : result ≡ ok (record { states = after; mode = mode; patterns = patterns ++ p ∷ [] })
  pub stored : Stored host mode bound after (patterns ++ p ∷ []) labels'
  pub size : length after ≤ length states + length (pattern_bytes host mode p)

module _ (host : Host) (mode : MatchMode) (bound : ℕ) (states : List BuilderState)
    (patterns labels : List (List ℕ)) (p : List ℕ)
    (stored : Stored host mode bound states patterns labels) where
  abbrev word : List ℕ
  word = backwards (pattern_bytes host mode p) []

  add_pattern-runs :
      (after : List BuilderState) (next : ℕ) (s : BuilderState)
      → walk_path (pattern_bytes host mode p) states 0 ≡ ok (after, next)
      → get_elem? after next ≡ some s
      → length patterns % 2 ^ 32 ≡ length patterns
      → add_pattern host (record { states = states; mode = mode; patterns = patterns }) p
        ≡ ok (record {
          states = set after next (record s { outputs = s.outputs ++ length patterns ∷ [] });
          mode = mode;
          patterns = patterns ++ p ∷ [];
        })
  unfolding add_pattern state_at
  add_pattern-runs after next s walked found small = rw (walked, found, ◌>>=◌, small) refl

  WordOf-append :
      (id : ℕ) (w : List ℕ)
      → WordOf host mode patterns id w
      → WordOf host mode (patterns ++ p ∷ []) id w
  WordOf-append id w (q, at_id, same) =
      (q, get_elem?-append_left patterns (p ∷ []) id (get_elem?_lt patterns id at_id) ∙ at_id, same)

  WordOf-new : WordOf host mode (patterns ++ p ∷ []) (length patterns) word
  WordOf-new = (p, get_elem?-append_end patterns p, refl)

  module _ (after : List BuilderState) (next : ℕ) (labels' : List (List ℕ)) (s : BuilderState)
      (trie' : IsTrie after labels') (at_word : get_elem? labels' next ≡ some word)
      (extends : Extends bound states labels after labels')
      (found : get_elem? after next ≡ some s) where
    abbrev final_state : BuilderState
    final_state = record s { outputs = s.outputs ++ length patterns ∷ [] }

    abbrev final : List BuilderState
    final = set after next final_state

    -- What the longer path left of the outputs.
    outputs_before :
        (t : ℕ) (now : BuilderState) (w : List ℕ) (id : ℕ)
        → get_elem? after t ≡ some now
        → get_elem? labels' t ≡ some w
        → Member id now.outputs
        → WordOf host mode (patterns ++ p ∷ []) id w
    outputs_before t now w id at_t label m = elim (Bool-cases (ltb t (length states))) [
      | inl less ↦
          let low : t < length states = ground arith in
          let (st, at_st, o, _) = extends.old_state t now at_t low in
          let sizes = stored.trie.sizes in
          let (v, at_v) = get_elem?_below labels t (omega arith) in
          let both : some v ≡ some w = sym (extends.old_label t v at_v) ∙ label in
          let this : v ≡ w = cc in
          WordOf-append id w (
            stored.owns t st w id at_st (subst (λ x. get_elem? labels t ≡ some x) this at_v)
              (subst (λ os. Member id os) o m))
      | inr more ↦
          let (o, _) = extends.blank_state t now at_t (ground arith) in
          let m' : Member id [] = subst (λ os. Member id os) o m in elim m' [ ]
    ]

    failure_before : (t : ℕ) (now : BuilderState) → get_elem? after t ≡ some now → now.failure ≡ 0
    failure_before t now at_t = elim (Bool-cases (ltb t (length states))) [
      | inl less ↦
          let low : t < length states = ground arith in
          let (st, at_st, _, f) = extends.old_state t now at_t low in f ∙ stored.fresh t st at_st
      | inr more ↦ let (_, f) = extends.blank_state t now at_t (ground arith) in f
    ]

    final-cases :
        (t : ℕ) (now : BuilderState)
        → get_elem? final t ≡ some now
        → ((next ≡ t) × (now ≡ final_state)) ⊎ (get_elem? after t ≡ some now)
    final-cases t now at_t = elim (ℕ_discrete next t) [
      | no other ↦ inr (sym (get_elem?-set_ne after next t final_state other) ∙ at_t)
      | yes e ↦
          let both : some final_state ≡ some now =
            sym (set_here after next s final_state found refl)
            ∙ subst (λ n. get_elem? final n ≡ some now) (sym e) at_t in
          inl (e, cc)
    ]

    -- Outputs that are there stay.
    final_has :
        (t id : ℕ) (now : BuilderState)
        → get_elem? after t ≡ some now
        → Member id now.outputs
        → (st : BuilderState) × (get_elem? final t ≡ some st) × Member id st.outputs
    final_has t id now at_t m = elim (ℕ_discrete next t) [
      | no other ↦ (now, get_elem?-set_ne after next t final_state other ∙ at_t, m)
      | yes e ↦
          let both : some s ≡ some now =
            sym found ∙ subst (λ n. get_elem? after n ≡ some now) (sym e) at_t in
          let this : now ≡ s = cc in
          (
            final_state,
            subst (λ n. get_elem? final n ≡ some final_state) e
                (set_here after next s final_state found refl),
            Member-append_left (length patterns ∷ [])
                (subst (λ (b : BuilderState). Member id b.outputs) this m),
          )
    ]

    final-Stored : length word ≤ bound → Stored host mode bound final (patterns ++ p ∷ []) labels'
    final-Stored fits = record {
      trie = set-IsTrie after next s final_state found refl labels' trie';
      fresh = λ t now at_t. elim (final-cases t now at_t) [
        | inl (_, this) ↦ ap (λ (b : BuilderState). b.failure) this ∙ failure_before next s found
        | inr old ↦ failure_before t now old
      ];
      owns = λ t now w id at_t label m. elim (final-cases t now at_t) [
        | inr old ↦ outputs_before t now w id old label m
        | inl (e, this) ↦ at_end t now w id e this label m
      ];
      has = λ id q at_id. elim (append_end-cases patterns p q id at_id) [
        | inr (place, same) ↦ (
          next,
          subst (λ x. get_elem? labels' next ≡ some (backwards (pattern_bytes host mode x) [])) same
              at_word,
          final_state,
          set_here after next s final_state found refl,
          Member-append_right s.outputs
              (subst (λ n. Member n (length patterns ∷ [])) (sym place) here),
        )
        | inl old ↦ kept id q old
      ];
      short = λ t w label. elim (extends.short t w label) [
        | inl before ↦ stored.short t w before
        | inr less ↦ less
      ];
    }
      where
        at_end :
            (t : ℕ) (now : BuilderState) (w : List ℕ) (id : ℕ)
            → next ≡ t
            → now ≡ final_state
            → get_elem? labels' t ≡ some w
            → Member id now.outputs
            → WordOf host mode (patterns ++ p ∷ []) id w
        at_end t now w id e this label m =
            let label' : get_elem? labels' next ≡ some w =
              subst (λ n. get_elem? labels' n ≡ some w) (sym e) label in
            let both : some word ≡ some w = sym at_word ∙ label' in
            let same : word ≡ w = cc in
            let m' : Member id (s.outputs ++ length patterns ∷ []) =
              subst (λ (b : BuilderState). Member id b.outputs) this m in
            elim (Member-append s.outputs (length patterns ∷ []) m') [
              | inl old ↦ outputs_before next s w id found label' old
              | inr new_one ↦ elim (Member-cases new_one) [
                | inr nowhere ↦ elim nowhere [ ]
                | inl equal ↦
                    subst (λ n. WordOf host mode (patterns ++ p ∷ []) n w) (sym equal)
                      (subst (λ x. WordOf host mode (patterns ++ p ∷ []) (length patterns) x) same
                        WordOf-new)
              ]
            ]

        kept :
            (id : ℕ) (q : List ℕ)
            → get_elem? patterns id ≡ some q
            → (t : ℕ) × (get_elem? labels' t ≡ some (backwards (pattern_bytes host mode q) []))
              × (st : BuilderState) × (get_elem? final t ≡ some st)
              × Member id st.outputs
        kept id q at_id =
            let (t, label, st, at_st, m) = stored.has id q at_id in
            let low = get_elem?_lt states t at_st in
            let label' = extends.old_label t (backwards (pattern_bytes host mode q) []) label in
            let low' = get_elem?_lt labels' t label' in
            let sizes = trie'.sizes in
            let (now, at_now) = get_elem?_below after t (omega arith) in
            let (st', at_st', o, _) = extends.old_state t now at_now low in
            let both : some st ≡ some st' = sym at_st ∙ at_st' in
            let this : st ≡ st' = cc in
            let mine : Member id now.outputs =
              subst (λ os. Member id os) (sym o)
                (subst (λ (b : BuilderState). Member id b.outputs) this m) in
            let (f, at_f, m') = final_has t id now at_now mine in (t, label', f, at_f, m')

  pub add_pattern-AddedTo :
      length (pattern_bytes host mode p) ≤ bound
      → length states + length (pattern_bytes host mode p) ≤ 2 ^ 32
      → length patterns < 2 ^ 32
      → AddedTo host mode bound states patterns p
          (add_pattern host (record { states = states; mode = mode; patterns = patterns }) p)
  add_pattern-AddedTo fits room small =
      let r =
        walk_path-Reached (pattern_bytes host mode p) bound states labels 0 [] stored.trie
          stored.trie.root room (omega arith) in
      let low = get_elem?_lt r.labels' r.next r.at_word in
      let sizes = r.trie.sizes in
      let (s, found) = get_elem?_below r.after r.next (omega arith) in
      record {
        after = set r.after r.next (record s { outputs = s.outputs ++ length patterns ∷ [] });
        labels' = r.labels';
        runs = add_pattern-runs r.after r.next s r.runs found (mod-eq_of_lt small);
        stored =
            final-Stored r.after r.next r.labels' s r.trie r.at_word r.extends found
              (omega (arith, length-backwards (pattern_bytes host mode p) []));
        size = omega (
          arith,
          r.size,
          length-set r.after r.next (record s { outputs = s.outputs ++ length patterns ∷ [] }),
        );
      }
