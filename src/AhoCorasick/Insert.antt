-- ===== src/AhoCorasick/Insert.antt =====
-- Adding a pattern to the trie (src/ac_offset.rs, `ACBuilder::add_pattern`).
use matchy.Base.{
  ℕ, zero, suc, ◌≤◌, ◌<◌, ◌≡◌, ◌≢◌, refl, sym, ap, ◌∙◌, subst, arith, ◌==◌, if◌then◌else◌, List, [],
  ◌∷◌, ◌++◌, ◌⊎◌, inl, inr, true, false, Bool-cases, Option-cases, length, get_elem?, get_elem?_lt,
  get_elem?-append_left, get_elem?-append_end, get_elem?-set_self, get_elem?-set_ne, length-set,
  length-append, set, none, some, ℕ_discrete,
}
use matchy.Base.Orders.{Member, Member-cases}
use matchy.AhoCorasick.{BuilderState, new_state, get_transition}
use matchy.AhoCorasick.Trie.{bind, step, IsTrie}

pub append_end-cases {ℓ} :
    {A : Type ℓ} (xs : List A) (a b : A) (i : ℕ)
    → get_elem? (xs ++ a ∷ []) i ≡ some b
    → (get_elem? xs i ≡ some b) ⊎ ((i ≡ length xs) × (a ≡ b))
append_end-cases [] a b zero found = inr (refl, cc)
append_end-cases [] a b (suc i) found = absurd (cc)
append_end-cases (x ∷ xs) a b zero found = inl found
append_end-cases (x ∷ xs) a b (suc i) found = elim (append_end-cases xs a b i found) [
  | inl old ↦ inl old
  | inr (place, same) ↦ inr (ap suc place, same)
]

-- What a grown trie keeps of the one before. New states have words of at most `bound` bytes.
pub record Extends (bound : ℕ) (states : List BuilderState) (labels : List (List ℕ))
    (after : List BuilderState) (labels' : List (List ℕ)) : Type 0 where
  pub grows : length states ≤ length after
  pub old_label : (t : ℕ) (w : List ℕ) → get_elem? labels t ≡ some w → get_elem? labels' t ≡ some w
  pub old_state :
      (t : ℕ) (now : BuilderState)
      → get_elem? after t ≡ some now
      → t < length states
      → (st : BuilderState) × (get_elem? states t ≡ some st)
        × (now.outputs ≡ st.outputs)
        × (now.failure ≡ st.failure)
  pub blank_state :
      (t : ℕ) (now : BuilderState)
      → get_elem? after t ≡ some now
      → length states ≤ t
      → (now.outputs ≡ []) × (now.failure ≡ 0)
  pub short :
      (t : ℕ) (w : List ℕ)
      → get_elem? labels' t ≡ some w
      → (get_elem? labels t ≡ some w) ⊎ (length w ≤ bound)

module _ (states : List BuilderState) (labels : List (List ℕ)) (trie : IsTrie states labels)
    (current ch : ℕ) (w : List ℕ) (s : BuilderState) (at_w : get_elem? labels current ≡ some w)
    (at_s : get_elem? states current ≡ some s)
    (missing : get_transition ch s.transitions ≡ none) where
  abbrev pub grown_state : BuilderState
  grown_state = record s { transitions = (ch, length states) ∷ s.transitions }

  abbrev pub grown : List BuilderState
  grown = set (states ++ new_state ∷ []) current grown_state

  below : current < length states
  below = get_elem?_lt states current at_s

  -- The states of the grown trie.
  grown-cases :
      (t : ℕ) (now : BuilderState)
      → get_elem? grown t ≡ some now
      → ((t ≡ current) × (now ≡ grown_state))
        ⊎ ((t ≢ current)
            × ((get_elem? states t ≡ some now) ⊎ ((t ≡ length states) × (new_state ≡ now))))
  grown-cases t now found =
      let wide : current < length (states ++ new_state ∷ []) =
        omega (arith, below, length-append states (new_state ∷ [])) in
      elim (ℕ_discrete current t) [
        | yes same ↦
            let self = get_elem?-set_self (states ++ new_state ∷ []) current grown_state wide in
            let both : some grown_state ≡ some now =
              sym self ∙ subst (λ n. get_elem? grown n ≡ some now) (sym same) found in
            inl (sym same, cc)
        | no other ↦
            let before =
              sym (get_elem?-set_ne (states ++ new_state ∷ []) current t grown_state other) in
            inr (λ e. other (sym e), append_end-cases states new_state now t (before ∙ found))
      ]

  grown_old :
      (t : ℕ) (st : BuilderState)
      → get_elem? states t ≡ some st
      → current ≢ t
      → get_elem? grown t ≡ some st
  grown_old t st found other =
      get_elem?-set_ne (states ++ new_state ∷ []) current t grown_state other
      ∙ get_elem?-append_left states (new_state ∷ []) t (get_elem?_lt states t found)
      ∙ found

  grown_current : get_elem? grown current ≡ some grown_state
  grown_current =
      get_elem?-set_self (states ++ new_state ∷ []) current grown_state
        (omega (arith, below, length-append states (new_state ∷ [])))

  -- Old transitions stay, and the new one is there.
  step_kept : (t c u : ℕ) → step states t c ≡ some u → step grown t c ≡ some u
  unfolding step get_transition
  step_kept t c u move = elim (Option-cases (get_elem? states t)) [
    | inl nothing ↦ let contrary : none ≡ some u = rw nothing at move in absurd (cc)
    | inr (st, found) ↦
        let listed : get_transition c st.transitions ≡ some u = rw found at move in
        elim (ℕ_discrete current t) [
          | no other ↦ rw (grown_old t st found other) listed
          | yes same ↦
              let found' : get_elem? states current ≡ some st =
                subst (λ n. get_elem? states n ≡ some st) (sym same) found in
              let both : some s ≡ some st = sym at_s ∙ found' in
              let equal : st ≡ s = cc in
              let listed' : get_transition c s.transitions ≡ some u =
                subst (λ (b : BuilderState). get_transition c b.transitions ≡ some u) equal
                  listed in
              let differ : (ch == c) ≡ false = elim (Bool-cases (ch == c)) [
                | inr no_match ↦ no_match
                | inl match ↦
                    let e : ch ≡ c = ground arith in
                    let missing' : get_transition c s.transitions ≡ none =
                      subst (λ n. get_transition n s.transitions ≡ none) e missing in
                    absurd (cc)
              ] in
              subst (λ n. bind (get_elem? grown n) (λ b. get_transition c b.transitions) ≡ some u)
                same (rw (grown_current, differ) listed')
        ]
  ]

  step_new : step grown current ch ≡ some (length states)
  unfolding step get_transition
  step_new = let match : (ch == ch) ≡ true = ground arith in rw (grown_current, match) refl

  -- There are no others.
  step_back :
      (t c u : ℕ)
      → step grown t c ≡ some u
      → (step states t c ≡ some u) ⊎ ((t ≡ current) × (c ≡ ch) × (u ≡ length states))
  unfolding step get_transition
  step_back t c u move = elim (Option-cases (get_elem? grown t)) [
    | inl nothing ↦ let contrary : none ≡ some u = rw nothing at move in absurd (cc)
    | inr (now, found) ↦
        let listed : get_transition c now.transitions ≡ some u = rw found at move in
        elim (grown-cases t now found) [
          | inr (other, places) ↦ elim places [
            | inl old ↦ inl (rw old listed)
            | inr (_, blank) ↦
                let listed' : none ≡ some u =
                  subst (λ (b : BuilderState). get_transition c b.transitions ≡ some u) (sym blank)
                    listed in
                absurd (cc)
          ]
          | inl (place, this) ↦
              let listed' : (if ch == c
                    then some (length states)
                    else get_transition c s.transitions)
                  ≡ some u =
                subst (λ (b : BuilderState). get_transition c b.transitions ≡ some u) this listed in
              elim (Bool-cases (ch == c)) [
                | inl match ↦
                    let e : some (length states) ≡ some u = rw match at listed' in
                    inr (place, ground arith, cc)
                | inr differ ↦
                    let old : get_transition c s.transitions ≡ some u = rw differ at listed' in
                    inl (
                      subst
                        (λ n.
                          bind (get_elem? states n) (λ b. get_transition c b.transitions) ≡ some u)
                        (sym place) (rw at_s old))
              ]
        ]
  ]

  abbrev pub grown_labels : List (List ℕ)
  grown_labels = labels ++ (ch ∷ w) ∷ []

  label_kept :
      (t : ℕ) (v : List ℕ) → get_elem? labels t ≡ some v → get_elem? grown_labels t ≡ some v
  label_kept t v found =
      get_elem?-append_left labels ((ch ∷ w) ∷ []) t (get_elem?_lt labels t found) ∙ found

  label_back :
      (t : ℕ) (v : List ℕ)
      → get_elem? grown_labels t ≡ some v
      → (get_elem? labels t ≡ some v) ⊎ ((t ≡ length states) × (ch ∷ w ≡ v))
  label_back t v found = elim (append_end-cases labels (ch ∷ w) v t found) [
    | inl old ↦ inl old
    | inr (place, same) ↦ inr (place ∙ trie.sizes, same)
  ]

  pub label_new : get_elem? grown_labels (length states) ≡ some (ch ∷ w)
  label_new =
      subst (λ n. get_elem? grown_labels n ≡ some (ch ∷ w)) trie.sizes
        (get_elem?-append_end labels (ch ∷ w))

  pub grown-IsTrie : IsTrie grown grown_labels
  grown-IsTrie = record {
    sizes = omega (
      arith,
      trie.sizes,
      length-append labels ((ch ∷ w) ∷ []),
      length-append states (new_state ∷ []),
      length-set (states ++ new_state ∷ []) current grown_state,
    );
    root = label_kept 0 [] trie.root;
    only_root = λ t found. elim (label_back t [] found) [
      | inl old ↦ trie.only_root t old
      | inr (_, same) ↦ absurd (cc)
    ];
    down = λ t c u v found move. goes_down t c u v found move;
    up = λ t c v found. goes_up t c v found;
    listed = λ t now c u found m. is_listed t now c u found m;
  }
    where
      open_step :
          (t c u : ℕ)
          → step states t c ≡ some u
          → bind (get_elem? states t) (λ st. get_transition c st.transitions) ≡ some u
      open_step t c u move = unfold step in move

      no_step : (t c u : ℕ) → step states t c ≡ some u → length states ≤ t → ⊥
      no_step t c u move high = elim (Option-cases (get_elem? states t)) [
        | inl nothing ↦ let contrary : none ≡ some u = rw nothing at (open_step t c u move) in cc
        | inr (st, found) ↦ let low = get_elem?_lt states t found in omega arith
      ]

      goes_down :
          (t c u : ℕ) (v : List ℕ)
          → get_elem? grown_labels t ≡ some v
          → step grown t c ≡ some u
          → get_elem? grown_labels u ≡ some (c ∷ v)
      goes_down t c u v found move = elim (step_back t c u move) [
        | inl old ↦ elim (label_back t v found) [
          | inl label ↦ label_kept u (c ∷ v) (trie.down t c u v label old)
          | inr (place, _) ↦ absurd (no_step t c u old (omega arith))
        ]
        | inr (place, same, target) ↦
            let here_w : get_elem? grown_labels t ≡ some w =
              subst (λ n. get_elem? grown_labels n ≡ some w) (sym place)
                (label_kept current w at_w) in
            let both : some v ≡ some w = sym found ∙ here_w in
            let e : w ≡ v = cc in
            subst (λ n. get_elem? grown_labels n ≡ some (c ∷ v)) (sym target)
              (subst (λ x. get_elem? grown_labels (length states) ≡ some (x ∷ v)) (sym same)
                (subst (λ x. get_elem? grown_labels (length states) ≡ some (ch ∷ x)) e label_new))
      ]

      goes_up :
          (t c : ℕ) (v : List ℕ)
          → get_elem? grown_labels t ≡ some (c ∷ v)
          → (p : ℕ) × (get_elem? grown_labels p ≡ some v) × (step grown p c ≡ some t)
      goes_up t c v found = elim (label_back t (c ∷ v) found) [
        | inl old ↦
            let (p, label, move) = trie.up t c v old in
            (p, label_kept p v label, step_kept p c t move)
        | inr (place, same) ↦
            let e₁ : ch ≡ c = cc in
            let e₂ : w ≡ v = cc in
            (
              current,
              label_kept current v (subst (λ x. get_elem? labels current ≡ some x) e₂ at_w),
              subst (λ n. step grown current c ≡ some n) (sym place)
                  (subst (λ n. step grown current n ≡ some (length states)) e₁ step_new),
            )
      ]

      in_grown :
          (c u : ℕ)
          → Member (c, u) ((ch, length states) ∷ s.transitions)
          → get_transition c ((ch, length states) ∷ s.transitions) ≡ some u
      in_grown c u m = elim (Member-cases m) [
        | inl same ↦
            let e₁ : c ≡ ch = ap (λ (p : ℕ × ℕ). p.0) same in
            let e₂ : u ≡ length states = ap (λ (p : ℕ × ℕ). p.1) same in
            let match : (ch == c) ≡ true = ground arith in
            unfold get_transition in rw match (ap some (sym e₂))
        | inr old ↦
            let listed = trie.listed current s c u at_s old in
            let differ : (ch == c) ≡ false = elim (Bool-cases (ch == c)) [
              | inr no_match ↦ no_match
              | inl match ↦
                  let e : ch ≡ c = ground arith in
                  let missing' : get_transition c s.transitions ≡ none =
                    subst (λ n. get_transition n s.transitions ≡ none) e missing in
                  absurd (cc)
            ] in
            unfold get_transition in rw differ listed
      ]

      is_listed :
          (t : ℕ) (now : BuilderState) (c u : ℕ)
          → get_elem? grown t ≡ some now
          → Member (c, u) now.transitions
          → get_transition c now.transitions ≡ some u
      is_listed t now c u found m = elim (grown-cases t now found) [
        | inr (other, places) ↦ elim places [
          | inl old ↦ trie.listed t now c u old m
          | inr (_, blank) ↦
              let none_in : Member (c, u) [] =
                subst (λ (b : BuilderState). Member (c, u) b.transitions) (sym blank) m in
              elim none_in [ ]
        ]
        | inl (place, this) ↦
            let m' : Member (c, u) ((ch, length states) ∷ s.transitions) =
              subst (λ (b : BuilderState). Member (c, u) b.transitions) this m in
            subst (λ (b : BuilderState). get_transition c b.transitions ≡ some u) (sym this)
              (in_grown c u m')
      ]

  pub grown-Extends :
      (bound : ℕ) → length (ch ∷ w) ≤ bound → Extends bound states labels grown grown_labels
  grown-Extends bound fits = record {
    grows = omega (
      arith,
      length-append states (new_state ∷ []),
      length-set (states ++ new_state ∷ []) current grown_state,
    );
    old_label = label_kept;
    old_state = λ t now found low. elim (grown-cases t now found) [
      | inl (place, this) ↦ (
        s,
        subst (λ n. get_elem? states n ≡ some s) (sym place) at_s,
        ap (λ (b : BuilderState). b.outputs) this,
        ap (λ (b : BuilderState). b.failure) this,
      )
      | inr (_, places) ↦ elim places [
        | inl old ↦ (now, old, refl, refl)
        | inr (place, _) ↦ absurd (omega arith)
      ]
    ];
    blank_state = λ t now found high. elim (grown-cases t now found) [
      | inl (place, _) ↦ absurd (omega (arith, below))
      | inr (_, places) ↦ elim places [
        | inl old ↦ let low = get_elem?_lt states t old in absurd (omega arith)
        | inr (_, blank) ↦ (
          sym (ap (λ (b : BuilderState). b.outputs) blank),
          sym (ap (λ (b : BuilderState). b.failure) blank),
        )
      ]
    ];
    short = λ t v found. elim (label_back t v found) [
      | inl old ↦ inl old
      | inr (_, same) ↦ inr (subst (λ x. length x ≤ bound) same fits)
    ];
  }
