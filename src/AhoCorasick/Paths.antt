-- ===== src/AhoCorasick/Paths.antt =====
-- The path of a pattern (src/ac_offset.rs, the loop of `ACBuilder::add_pattern`): where it ends, and
-- what the trie keeps.
use matchy.Base.{
  ℕ, ◌+◌, ◌%◌, ◌^◌, ◌≤◌, ◌<◌, ◌≡◌, refl, ◌∙◌, arith, ltb, List, [], ◌∷◌, ◌++◌, inl, inr, Bool-cases,
  Option-cases, length, get_elem?, get_elem?_lt, length-append, length-set, none, some, Result, ok,
  ◌>>=◌, set,
}
use native.Mathlib.Nat.{mod-eq_of_lt}
use matchy.LiteralHash.Probe.{get_elem?_below}
use matchy.AhoCorasick.{BuilderState, new_state, get_transition, state_at, advance, walk_path}
use matchy.AhoCorasick.Trie.{step, IsTrie}
use matchy.AhoCorasick.Insert.{Extends, grown, grown_labels, grown-IsTrie, grown-Extends, label_new}

-- A word, the last byte first, with bytes behind it.
abbrev pub backwards : List ℕ → List ℕ → List ℕ
backwards [] w = w
backwards (ch ∷ bytes) w = backwards bytes (ch ∷ w)

pub length-backwards : (bytes w : List ℕ) → length (backwards bytes w) ≡ length bytes + length w
length-backwards [] w = omega arith
length-backwards (ch ∷ bytes) w = omega (arith, length-backwards bytes (ch ∷ w))

pub Extends-refl :
    (bound : ℕ) (states : List BuilderState) (labels : List (List ℕ))
    → Extends bound states labels states labels
Extends-refl bound states labels = record {
  grows = omega arith;
  old_label = λ t w found. found;
  old_state = λ t now found low. (now, found, refl, refl);
  blank_state = λ t now found high. let low = get_elem?_lt states t found in absurd (omega arith);
  short = λ t w found. inl found;
}

pub Extends-trans :
    (bound : ℕ) (a b c : List BuilderState) (la lb lc : List (List ℕ))
    → Extends bound a la b lb
    → Extends bound b lb c lc
    → Extends bound a la c lc
Extends-trans bound a b c la lb lc first second = record {
  grows = omega (arith, first.grows, second.grows);
  old_label = λ t w found. second.old_label t w (first.old_label t w found);
  old_state = λ t now found low.
      let wide : t < length b = omega (arith, first.grows) in
      let (mid, at_mid, o₂, f₂) = second.old_state t now found wide in
      let (st, at_st, o₁, f₁) = first.old_state t mid at_mid low in (st, at_st, o₂ ∙ o₁, f₂ ∙ f₁);
  blank_state = λ t now found high. elim (Bool-cases (ltb t (length b))) [
    | inl less ↦
        let wide : t < length b = ground arith in
        let (mid, at_mid, o₂, f₂) = second.old_state t now found wide in
        let (o₁, f₁) = first.blank_state t mid at_mid high in (o₂ ∙ o₁, f₂ ∙ f₁)
    | inr more ↦ second.blank_state t now found (ground arith)
  ];
  short = λ t w found. elim (second.short t w found) [
    | inl middle ↦ first.short t w middle
    | inr bounded ↦ inr bounded
  ];
}

-- A trie that has grown, with the state of a word.
pub record Reached (bound room : ℕ) (states : List BuilderState) (labels : List (List ℕ))
    (w : List ℕ) (result : Result (List BuilderState × ℕ)) : Type 0 where
  pub after : List BuilderState
  pub next : ℕ
  pub labels' : List (List ℕ)
  pub runs : result ≡ ok (after, next)
  pub trie : IsTrie after labels'
  pub at_word : get_elem? labels' next ≡ some w
  pub extends : Extends bound states labels after labels'
  pub size : length after ≤ length states + room

advance-there :
    (states : List BuilderState) (current ch next : ℕ) (s : BuilderState)
    → get_elem? states current ≡ some s
    → get_transition ch s.transitions ≡ some next
    → advance states current ch ≡ ok (states, next)
unfolding advance state_at
advance-there states current ch next s found hit = rw (found, ◌>>=◌, hit) refl

advance-grown :
    (states : List BuilderState) (current ch : ℕ) (s : BuilderState)
    → get_elem? states current ≡ some s
    → get_transition ch s.transitions ≡ none
    → length states % 2 ^ 32 ≡ length states
    → advance states current ch
      ≡ ok (
        set
            (states ++ new_state ∷ [])
            current
            (record s { transitions = (ch, length states) ∷ s.transitions }),
        length states,
      )
unfolding advance state_at
advance-grown states current ch s found miss small = rw (found, ◌>>=◌, miss, small) refl

pub advance-Reached :
    (bound : ℕ) (states : List BuilderState) (labels : List (List ℕ)) (current ch : ℕ) (w : List ℕ)
    → IsTrie states labels
    → get_elem? labels current ≡ some w
    → length states < 2 ^ 32
    → length (ch ∷ w) ≤ bound
    → Reached bound 1 states labels (ch ∷ w) (advance states current ch)
advance-Reached bound states labels current ch w trie at_w small fits =
    let low = get_elem?_lt labels current at_w in
    let sizes = trie.sizes in
    let (s, found) = get_elem?_below states current (omega arith) in
    elim (Option-cases (get_transition ch s.transitions)) [
      | inr (next, hit) ↦
          let move : step states current ch ≡ some next = unfold step in rw found hit in
          record {
            after = states;
            next = next;
            labels' = labels;
            runs = advance-there states current ch next s found hit;
            trie = trie;
            at_word = trie.down current ch next w at_w move;
            extends = Extends-refl bound states labels;
            size = omega arith;
          }
      | inl miss ↦ record {
        after = grown states labels trie current ch w s at_w found miss;
        next = length states;
        labels' = grown_labels states labels trie current ch w s at_w found miss;
        runs = advance-grown states current ch s found miss (mod-eq_of_lt small);
        trie = grown-IsTrie states labels trie current ch w s at_w found miss;
        at_word = label_new states labels trie current ch w s at_w found miss;
        extends = grown-Extends states labels trie current ch w s at_w found miss bound fits;
        size = omega (
          arith,
          length-append states (new_state ∷ []),
          length-set (states ++ new_state ∷ []) current
              (record s { transitions = (ch, length states) ∷ s.transitions }),
        );
      }
    ]

walk_path-on :
    (ch : ℕ) (bytes : List ℕ) (states after : List BuilderState) (current next : ℕ)
    → advance states current ch ≡ ok (after, next)
    → walk_path (ch ∷ bytes) states current ≡ walk_path bytes after next
unfolding walk_path
walk_path-on ch bytes states after current next moved = rw (moved, ◌>>=◌) refl

pub walk_path-Reached :
    (bytes : List ℕ) (bound : ℕ) (states : List BuilderState) (labels : List (List ℕ)) (current : ℕ)
    (w : List ℕ)
    → IsTrie states labels
    → get_elem? labels current ≡ some w
    → length states + length bytes ≤ 2 ^ 32
    → length bytes + length w ≤ bound
    → Reached bound
        (length bytes)
        states
        labels
        (backwards bytes w)
        (walk_path bytes states current)
walk_path-Reached [] bound states labels current w trie at_w small fits = record {
  after = states;
  next = current;
  labels' = labels;
  runs = unfold walk_path in refl;
  trie = trie;
  at_word = at_w;
  extends = Extends-refl bound states labels;
  size = omega arith;
}
walk_path-Reached (ch ∷ bytes) bound states labels current w trie at_w small fits =
    let r =
      advance-Reached bound states labels current ch w trie at_w (omega arith) (omega arith) in
    let size = r.size in
    let r' =
      walk_path-Reached bytes bound r.after r.labels' r.next (ch ∷ w) r.trie r.at_word (omega arith)
        (omega arith) in
    record {
      after = r'.after;
      next = r'.next;
      labels' = r'.labels';
      runs = walk_path-on ch bytes states r.after current r.next r.runs ∙ r'.runs;
      trie = r'.trie;
      at_word = r'.at_word;
      extends =
          Extends-trans bound states r.after r'.after labels r.labels' r'.labels' r.extends
            r'.extends;
      size = omega (arith, r'.size);
    }
