-- ===== src/AhoCorasick/Steady.antt =====
-- What the failure links leave alone (src/ac_offset.rs, `build_failure_links`): the number of the states,
-- the root, and that no transition leads to it.
use matchy.Base.{
  ℕ, zero, suc, ◌≡◌, ◌≢◌, refl, sym, ap, ◌∙◌, subst, List, [], ◌∷◌, ◌++◌, inl, inr, Option-cases,
  length, get_elem?, get_elem?_lt, set, length-set, get_elem?-set_self, get_elem?-set_ne, some, ok,
  ℕ_discrete,
}
use matchy.Base.Results.{>>=-eq-ok}
use matchy.Base.Orders.{Member, here, later, Member-Rearranges}
use matchy.AhoCorasick.{
  BuilderState, Host, state_at, find_failure, chosen_failure, suffix_outputs, link, link_all,
  targets, link_queue, reset_failures, build_failure_links,
}
use matchy.AhoCorasick.Levels.{Walks, Member-targets}

pub record Steady (base states : List BuilderState) : Type 0 where
  pub size : length states ≡ length base
  pub root : get_elem? states 0 ≡ get_elem? base 0
  pub away :
      (s ch t : ℕ) (st : BuilderState)
      → get_elem? states s ≡ some st
      → Member (ch, t) st.transitions
      → t ≢ 0

pub state_at-found :
    (states : List BuilderState) (i : ℕ) (st : BuilderState)
    → state_at states i ≡ ok st
    → get_elem? states i ≡ some st
unfolding state_at
state_at-found states i st e = elim (Option-cases (get_elem? states i)) [
  | inl nothing ↦ let contrary = rw (state_at, nothing) at e in absurd (cc)
  | inr (found, there) ↦
      let same : ok found ≡ ok st = rw (state_at, there) at e in
      let this : found ≡ st = cc in there ∙ ap some this
]

-- Another link and other outputs of a state that is not the root.
set-Steady :
    (base states : List BuilderState) (i : ℕ) (st now : BuilderState)
    → Steady base states
    → get_elem? states i ≡ some st
    → i ≢ 0
    → now.transitions ≡ st.transitions
    → Steady base (set states i now)
set-Steady base states i st now steady there other same = record {
  size = length-set states i now ∙ steady.size;
  root = get_elem?-set_ne states i 0 now other ∙ steady.root;
  away = λ s ch t found at_s m. elim (ℕ_discrete i s) [
    | no apart ↦ steady.away s ch t found (sym (get_elem?-set_ne states i s now apart) ∙ at_s) m
    | yes e ↦
        let self = get_elem?-set_self states i now (get_elem?_lt states i there) in
        let both : some now ≡ some found =
          sym self ∙ subst (λ n. get_elem? (set states i now) n ≡ some found) (sym e) at_s in
        let this : found ≡ now = cc in
        let old : found.transitions ≡ st.transitions =
          ap (λ (b : BuilderState). b.transitions) this ∙ same in
        steady.away i ch t st there (subst (λ ts. Member (ch, t) ts) old m)
  ];
}

link-Steady :
    (depth : ℕ) (base states after : List BuilderState) (state_id ch next : ℕ)
    → Steady base states
    → next ≢ 0
    → link depth states state_id ch next ≡ ok after
    → Steady base after
unfolding link
link-Steady depth base states after state_id ch next steady other e =
    let (s, _, e₁) = >>=-eq-ok (state_at states state_id) _ e in
    let (found, _, e₂) = >>=-eq-ok (find_failure (suc depth) states s.failure ch) _ e₁ in
    let (failure, _, e₃) = >>=-eq-ok (chosen_failure found states next ch) _ e₂ in
    let (st, at_st, e₄) = >>=-eq-ok (state_at states next) _ e₃ in
    let linked = set states next (record st { failure = failure }) in
    let (added, _, e₅) = >>=-eq-ok (suffix_outputs (suc depth) linked failure) _ e₄ in
    let final = record st { failure = failure; outputs = st.outputs ++ added } in
    let there = state_at-found states next st at_st in
    let first =
      set-Steady base states next st (record st { failure = failure }) steady there other refl in
    let there' =
      get_elem?-set_self states next (record st { failure = failure })
        (get_elem?_lt states next there) in
    let second =
      set-Steady base linked next (record st { failure = failure }) final first there' other refl in
    let same : ok (set linked next final) ≡ ok after = e₅ in
    let this : set linked next final ≡ after = cc in subst (Steady base) this second

link_all-Steady :
    (ts : List (ℕ × ℕ)) (depth : ℕ) (base states after : List BuilderState) (state_id : ℕ)
    → Steady base states
    → ((ch t : ℕ) → Member (ch, t) ts → t ≢ 0)
    → link_all depth ts state_id states ≡ ok after
    → Steady base after
unfolding link_all
link_all-Steady [] depth base states after state_id steady others e =
    let this : states ≡ after = cc in subst (Steady base) this steady
link_all-Steady ((ch, next) ∷ ts) depth base states after state_id steady others e =
    let (mid, e₁, e₂) = >>=-eq-ok (link depth states state_id ch next) _ e in
    let steady' =
      link-Steady depth base states mid state_id ch next steady (others ch next here) e₁ in
    link_all-Steady ts depth base mid after state_id steady' (λ c t m. others c t (later m)) e₂

module _ (host : Host) (walks : Walks host) where
  ordered_away :
      (base states : List BuilderState) (q : ℕ) (s : BuilderState)
      → Steady base states
      → get_elem? states q ≡ some s
      → (ch t : ℕ) → Member (ch, t) (host.order s.transitions)
      → t ≢ 0
  ordered_away base states q s steady there ch t m =
      steady.away q ch t s there (Member-Rearranges (walks.walk s.transitions) m)

  link_queue-Steady :
      (fuel depth : ℕ) (queue : List ℕ) (base states after : List BuilderState)
      → Steady base states
      → link_queue fuel host depth queue states ≡ ok after
      → Steady base after
  unfolding link_queue
  link_queue-Steady fuel depth [] base states after steady e =
      let this : states ≡ after = cc in subst (Steady base) this steady
  link_queue-Steady zero depth (q ∷ queue) base states after steady e = absurd (cc)
  link_queue-Steady (suc fuel) depth (q ∷ queue) base states after steady e =
      let (s, e₁, e₂) = >>=-eq-ok (state_at states q) _ e in
      let ts = host.order s.transitions in
      let (mid, e₃, e₄) = >>=-eq-ok (link_all depth ts q states) _ e₂ in
      let there = state_at-found states q s e₁ in
      let steady' =
        link_all-Steady ts depth base states mid q steady
          (ordered_away base states q s steady there) e₃ in
      link_queue-Steady fuel depth (queue ++ targets ts) base mid after steady' e₄

  reset_failures-Steady :
      (children : List ℕ) (base states after : List BuilderState)
      → Steady base states
      → ((t : ℕ) → Member t children → t ≢ 0)
      → reset_failures children states ≡ ok after
      → Steady base after
  unfolding reset_failures
  reset_failures-Steady [] base states after steady others e =
      let this : states ≡ after = cc in subst (Steady base) this steady
  reset_failures-Steady (c ∷ children) base states after steady others e =
      let (s, e₁, e₂) = >>=-eq-ok (state_at states c) _ e in
      let there = state_at-found states c s e₁ in
      let steady' =
        set-Steady base states c s (record s { failure = 0 }) steady there (others c here) refl in
      reset_failures-Steady children base (set states c (record s { failure = 0 })) after steady'
        (λ t m. others t (later m)) e₂

  pub build_failure_links-Steady :
      (fuel depth : ℕ) (base after : List BuilderState)
      → ((s ch t : ℕ) (st : BuilderState)
          → get_elem? base s ≡ some st
          → Member (ch, t) st.transitions
          → t ≢ 0)
      → build_failure_links fuel depth host base ≡ ok after
      → Steady base after
  unfolding build_failure_links
  build_failure_links-Steady fuel depth base after away e =
      let (root, e₁, e₂) = >>=-eq-ok (state_at base 0) _ e in
      let children = targets (host.order root.transitions) in
      let (mid, e₃, e₄) = >>=-eq-ok (reset_failures children base) _ e₂ in
      let start : Steady base base = record { size = refl; root = refl; away = away } in
      let there = state_at-found base 0 root e₁ in
      let steady =
        reset_failures-Steady children base base mid start
          (λ t m.
            let (ch, in_ts) = Member-targets t (host.order root.transitions) m in
            ordered_away base base 0 root start there ch t in_ts)
          e₃ in
      link_queue-Steady fuel depth children base mid after steady e₄
