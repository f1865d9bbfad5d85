-- ===== src/AhoCorasick/Levels.antt =====
-- The queue of `build_failure_links` (src/ac_offset.rs), level by level: the words of one length after
-- those of all smaller lengths.
use matchy.Base.{
  ℕ, ◌≤◌, ◌≡◌, ◌≢◌, refl, sym, ap, ◌∙◌, subst, arith, List, [], ◌∷◌, inl, inr, length, some, ok,
  ℕ_discrete,
}
use matchy.Base.Orders.{Member, here, later, Member-cases, Rearranges}
use matchy.AhoCorasick.{BuilderState, Host, link, link_all, targets}
use matchy.AhoCorasick.Trie.{step, goto, IsTrie, label-goto, take_all}
use matchy.AhoCorasick.Chains.{Keeps, Linked, LinkedTo}
use matchy.AhoCorasick.Links.{Partial, Frame, Linked-Frame, LinkedTo-Frame, link-Linked}

-- The documented behaviour of walking a map: each entry once, in some order.
pub record Walks (host : Host) : Type 0 where
  pub walk : (ts : List (ℕ × ℕ)) → Rearranges (host.order ts) ts

-- The states where all words of at most `d` bytes are linked.
pub record Progress (base states : List BuilderState) (d : ℕ) : Type 0 where
  pub keeps : Keeps base states
  pub linked : LinkedTo base states d
  pub partial :
      (ch t : ℕ) (v : List ℕ) → goto base (ch ∷ v) ≡ some t → Partial base states t (ch ∷ v)

-- Links that are right stay right.
abbrev pub Preserves : List BuilderState → List BuilderState → List BuilderState → Type 0
Preserves base states after =
    (ch t : ℕ) (v : List ℕ)
    → goto base (ch ∷ v) ≡ some t
    → Linked base states t ch v
    → Linked base after t ch v

pub Member-targets :
    (t : ℕ) (ts : List (ℕ × ℕ)) → Member t (targets ts) → (ch : ℕ) × Member (ch, t) ts
unfolding targets
Member-targets t [] m = elim m [ ]
Member-targets t ((c, u) ∷ ts) m = elim (Member-cases m) [
  | inl same ↦ (c, subst (λ n. Member (c, t) ((c, n) ∷ ts)) same here)
  | inr old ↦ let (ch, in_ts) = Member-targets t ts old in (ch, later in_ts)
]

pub targets-Member : (ch t : ℕ) (ts : List (ℕ × ℕ)) → Member (ch, t) ts → Member t (targets ts)
unfolding targets
targets-Member ch t [] m = elim m [ ]
targets-Member ch t ((c, u) ∷ ts) m = elim (Member-cases m) [
  | inl same ↦
      let this : t ≡ u = ap (λ (p : ℕ × ℕ). p.1) same in
      subst (λ n. Member n (u ∷ targets ts)) (sym this) here
  | inr old ↦ later (targets-Member ch t ts old)
]

module _ (base : List BuilderState) (labels : List (List ℕ)) (trie : IsTrie base labels) where
  -- One word for each state.
  pub same_word : (v w : List ℕ) (t : ℕ) → goto base v ≡ some t → goto base w ≡ some t → v ≡ w
  same_word v w t at_v at_w =
      let l = label-goto base labels trie v t at_v in
      let l' = label-goto base labels trie w t at_w in let both : some v ≡ some w = sym l ∙ l' in cc

  Linked-Partial :
      (states : List BuilderState) (t ch : ℕ) (v : List ℕ)
      → goto base (ch ∷ v) ≡ some t
      → Linked base states t ch v
      → Partial base states t (ch ∷ v)
  Linked-Partial states t ch v found l = record {
    state = l.state;
    found = l.found;
    own = λ st there id m. l.complete id (
      length (ch ∷ v),
      omega arith,
      omega arith,
      t,
      ap (goto base) (take_all (ch ∷ v)) ∙ found,
      st,
      there,
      m,
    );
    sound = l.sound;
  }

  Partial-Frame :
      (states after : List BuilderState) (i t : ℕ) (w : List ℕ)
      → Frame states after i
      → t ≢ i
      → Partial base states t w
      → Partial base after t w
  Partial-Frame states after i t w frame other p = record {
    state = p.state;
    found = frame t other ∙ p.found;
    own = p.own;
    sound = p.sound;
  }

  module _ (depth d s c : ℕ) (v : List ℕ) (size : length (c ∷ v) ≡ d) (room : d ≤ depth)
      (at_s : goto base (c ∷ v) ≡ some s) where
    link-Progress :
        (states : List BuilderState) (ch next : ℕ)
        → Progress base states d
        → step base s ch ≡ some next
        → (after : List BuilderState) × (link depth states s ch next ≡ ok after)
          × Progress base after d
          × Preserves base states after
          × Linked base after next ch (c ∷ v)
    link-Progress states ch next progress move =
        let at_next : goto base (ch ∷ c ∷ v) ≡ some next = unfold goto in rw at_s move in
        let (after, done, keeps, linked, frame) =
          link-Linked base labels trie states depth d s ch next c v progress.keeps progress.linked
            size room at_s at_next (progress.partial ch next (c ∷ v) at_next) in
        (
          after,
          done,
          record {
            keeps = keeps;
            linked =
                LinkedTo-Frame base labels trie states after d next (ch ∷ c ∷ v) frame at_next
                  (omega arith) progress.linked;
            partial = λ ch' t' v' found. elim (ℕ_discrete t' next) [
              | yes same ↦
                  let word : ch' ∷ v' ≡ ch ∷ c ∷ v =
                    same_word (ch' ∷ v') (ch ∷ c ∷ v) next
                      (subst (λ n. goto base (ch' ∷ v') ≡ some n) same found) at_next in
                  subst (λ n. Partial base after n (ch' ∷ v')) (sym same)
                    (subst (Partial base after next) (sym word)
                      (Linked-Partial after next ch (c ∷ v) at_next linked))
              | no other ↦
                  Partial-Frame states after next t' (ch' ∷ v') frame other
                    (progress.partial ch' t' v' found)
            ];
          },
          λ ch' t' v' found l. keep ch' t' v' after next ch found l linked frame at_next,
          linked,
        )
      where
        keep :
            (ch' t' : ℕ) (v' : List ℕ) (after : List BuilderState) (next ch : ℕ)
            → goto base (ch' ∷ v') ≡ some t'
            → Linked base states t' ch' v'
            → Linked base after next ch (c ∷ v)
            → Frame states after next
            → goto base (ch ∷ c ∷ v) ≡ some next
            → Linked base after t' ch' v'
        keep ch' t' v' after next ch found l linked frame at_next = elim (ℕ_discrete t' next) [
          | no other ↦ Linked-Frame base labels trie states after next t' ch' v' frame other l
          | yes same ↦
              let word : ch' ∷ v' ≡ ch ∷ c ∷ v =
                same_word (ch' ∷ v') (ch ∷ c ∷ v) next
                  (subst (λ n. goto base (ch' ∷ v') ≡ some n) same found) at_next in
              let e₁ : ch' ≡ ch = cc in
              let e₂ : v' ≡ c ∷ v = cc in
              subst (λ n. Linked base after n ch' v') (sym same)
                (subst (λ n. Linked base after next n v') (sym e₁)
                  (subst (Linked base after next ch) (sym e₂) linked))
        ]

    pub link_all-Progress :
        (ts : List (ℕ × ℕ)) (states : List BuilderState)
        → Progress base states d
        → ((ch t : ℕ) → Member (ch, t) ts → step base s ch ≡ some t)
        → (after : List BuilderState) × (link_all depth ts s states ≡ ok after)
          × Progress base after d
          × Preserves base states after
          × ((ch t : ℕ) → Member (ch, t) ts → Linked base after t ch (c ∷ v))
    unfolding link_all
    link_all-Progress [] states progress moves =
        (states, refl, progress, λ ch t w found l. l, λ ch t m. elim m [ ])
    link_all-Progress ((ch, next) ∷ ts) states progress moves =
        let move = moves ch next here in
        let (middle, first, progress', keep, linked) = link-Progress states ch next progress move in
        let (after, rest, progress'', keep', all) =
          link_all-Progress ts middle progress' (λ c t m. moves c t (later m)) in
        let at_next : goto base (ch ∷ c ∷ v) ≡ some next = unfold goto in rw at_s move in
        (
          after,
          rw first rest,
          progress'',
          λ ch' t' v' found l. keep' ch' t' v' found (keep ch' t' v' found l),
          λ c' t' m. elim (Member-cases m) [
            | inl same ↦
                let e₁ : c' ≡ ch = ap (λ (p : ℕ × ℕ). p.0) same in
                let e₂ : t' ≡ next = ap (λ (p : ℕ × ℕ). p.1) same in
                subst (λ n. Linked base after t' n (c ∷ v)) (sym e₁)
                  (subst (λ n. Linked base after n ch (c ∷ v)) (sym e₂)
                    (keep' ch next (c ∷ v) at_next linked))
            | inr old ↦ all c' t' old
          ],
        )
