-- ===== src/AhoCorasick/FailureLinks.antt =====
-- The whole of `build_failure_links` (src/ac_offset.rs): its start, then the queue.
use matchy.Base.{
  ℕ, zero, suc, ◌+◌, ◌≤◌, ◌≡◌, refl, sym, ap, ◌∙◌, subst, arith, List, [], ◌∷◌, length, get_elem?,
  some, ok, ◌>>=◌, set, take,
}
use matchy.Base.Orders.{Member, here, later}
use matchy.AhoCorasick.{
  BuilderState, Host, state_at, targets, link_queue, reset_failures, build_failure_links,
  children_of, rounds,
}
use matchy.AhoCorasick.Trie.{goto, best, IsTrie, take_all}
use matchy.AhoCorasick.Chains.{Linked, base_state}
use matchy.AhoCorasick.Levels.{Walks, Progress, Member-targets, targets-Member}
use matchy.AhoCorasick.Queue.{step-Member, Member-step, run_levels}

module _ (host : Host) (walks : Walks host) (base : List BuilderState) (labels : List (List ℕ))
    (trie : IsTrie base labels) (depth : ℕ) where
  abbrev Fresh : Type 0
  Fresh = (s : ℕ) (st : BuilderState) → get_elem? base s ≡ some st → st.failure ≡ 0

  set_same {ℓ} :
      {A : Type ℓ} (xs : List A) (i : ℕ) (a : A) → get_elem? xs i ≡ some a → set xs i a ≡ xs
  set_same [] i a found = refl
  set_same (x ∷ xs) zero a found = let this : x ≡ a = cc in ap (λ c. c ∷ xs) (sym this)
  set_same (x ∷ xs) (suc i) a found = ap (λ t. x ∷ t) (set_same xs i a found)

  -- The links of the children of the root are 0 already.
  reset_failures-Fresh :
      (children : List ℕ)
      → Fresh
      → ((t : ℕ) → Member t children → (st : BuilderState) × (get_elem? base t ≡ some st))
      → reset_failures children base ≡ ok base
  unfolding reset_failures state_at
  reset_failures-Fresh [] fresh there = refl
  reset_failures-Fresh (c ∷ children) fresh there =
      let (st, found) = there c here in
      let zero_link : st.failure ≡ 0 = fresh c st found in
      let same : record st { failure = 0 } ≡ st = unchanged st zero_link in
      rw (state_at, found, ◌>>=◌)
        (ap (reset_failures children) (ap (set base c) same ∙ set_same base c st found)
          ∙ reset_failures-Fresh children fresh (λ t m. there t (later m)))
    where
      unchanged : (st : BuilderState) → st.failure ≡ 0 → record st { failure = 0 } ≡ st
      unchanged st e = ground arith

  start : Fresh → Progress base base 1
  start fresh = record {
    keeps = record { kept = λ s st there. (st, there, refl) };
    linked = λ ch t v found short. first ch t v found short fresh;
    partial = λ ch t v found.
        let (st, there) = base_state base labels (ch ∷ v) t trie found in
        record {
          state = st;
          found = there;
          own = λ st' there' id m.
              let both : some st ≡ some st' = sym there ∙ there' in
              let this : st' ≡ st = cc in subst (λ (c : BuilderState). Member id c.outputs) this m;
          sound = λ id m. (
            length (ch ∷ v),
            omega arith,
            omega arith,
            t,
            ap (goto base) (take_all (ch ∷ v)) ∙ found,
            st,
            there,
            m,
          );
        };
  }
    where
      first :
          (ch t : ℕ) (v : List ℕ)
          → goto base (ch ∷ v) ≡ some t
          → length (ch ∷ v) ≤ 1
          → Fresh
          → Linked base base t ch v
      first ch t (c ∷ v) found short fresh = absurd (omega arith)
      first ch t [] found short fresh =
          let (st, there) = base_state base labels (ch ∷ []) t trie found in
          record {
            state = st;
            found = there;
            failure = fresh t st there ∙ unfold best in refl;
            complete = λ id (m, above, below, s, at_s, st', there', own).
                let whole : m ≡ 1 = omega arith in
                let same : goto base (ch ∷ []) ≡ some s =
                  subst (λ n. goto base (take n (ch ∷ [])) ≡ some s) whole at_s in
                let both : some t ≡ some s = sym found ∙ same in
                let equal : s ≡ t = cc in
                let both' : some st' ≡ some st =
                  sym there' ∙ subst (λ n. get_elem? base n ≡ some st) (sym equal) there in
                let this : st' ≡ st = cc in
                subst (λ (c : BuilderState). Member id c.outputs) this own;
            sound = λ id m. (1, omega arith, omega arith, t, found, st, there, m);
          }

  links_start :
      (fuel : ℕ) (root : BuilderState) (after : List BuilderState)
      → get_elem? base 0 ≡ some root
      → reset_failures (targets (host.order root.transitions)) base ≡ ok base
      → link_queue fuel host depth (targets (host.order root.transitions)) base ≡ ok after
      → build_failure_links fuel depth host base ≡ ok after
  unfolding build_failure_links state_at
  links_start fuel root after there reset done = rw (state_at, there, ◌>>=◌, reset, done) refl

  pub build_failure_links-Progress :
      (k fuel : ℕ)
      → Fresh
      → 1 + k ≡ depth
      → ((w : List ℕ) (t : ℕ) → goto base w ≡ some t → length w ≤ depth)
      → rounds k host base (children_of host (get_elem? base 0)) ≤ fuel
      → (after : List BuilderState) × (build_failure_links fuel depth host base ≡ ok after)
        × Progress base after depth
  build_failure_links-Progress k fuel fresh levels short enough =
      let (root, there) = base_state base labels [] 0 trie (unfold goto in refl) in
      let children = targets (host.order root.transitions) in
      let same : children_of host (get_elem? base 0) ≡ children =
        unfold children_of in rw there refl in
      let at_child : (t : ℕ) → Member t children → (ch : ℕ) × (goto base (ch ∷ []) ≡ some t) =
        λ t m.
          let (ch, listed) = Member-targets t (host.order root.transitions) m in
          (
            ch,
            unfold goto in (Member-step host walks base labels trie depth 0 ch t root there listed),
          ) in
      let reset =
        reset_failures-Fresh children fresh (λ t m.
          let (ch, found) = at_child t m in base_state base labels (ch ∷ []) t trie found) in
      let (after, done, final) =
        run_levels host walks base labels trie depth k 1 fuel children base (omega arith) levels
          short (subst (λ l. rounds k host base l ≤ fuel) same enough)
          (λ t m. let (ch, found) = at_child t m in (ch, [], found, refl))
          (λ c s v found size. first_child c s v root there found size) (start fresh) in
      (after, links_start fuel root after there reset done, final)
    where
      first_child :
          (c s : ℕ) (v : List ℕ) (root : BuilderState)
          → get_elem? base 0 ≡ some root
          → goto base (c ∷ v) ≡ some s
          → length (c ∷ v) ≡ 1
          → Member s (targets (host.order root.transitions))
      first_child c s (x ∷ v) root there found size = absurd (omega arith)
      first_child c s [] root there found size =
          targets-Member c s (host.order root.transitions)
            (step-Member host walks base labels trie depth 0 c s root there (unfold goto in found))
