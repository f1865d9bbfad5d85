-- ===== src/AhoCorasick/Edges.antt =====
-- The edges of a state as the writer sorts them (src/ac_offset.rs, `ACBuilder::serialize`), against the
-- transitions that they come from.
use matchy.Base.{
  ℕ, suc, ◌*◌, ◌^◌, ◌<◌, ◌≡◌, ◌⊎◌, refl, sym, ap, ◌∙◌, subst, arith, ◌==◌, ltb, leb, List, [], ◌∷◌,
  inl, inr, true, Bool-cases, Option-cases, length, get_elem?, set, length-set, get_elem?-set_self,
  get_elem?-set_ne, some, ok, ◌>>=◌, ℕ_discrete,
}
use native.Mathlib.Nat.{mod-eq_of_lt}
use matchy.Base.Orders.{
  Member, here, later, Member-cases, Rearranges, nothing, behind, swapped, then_on, Rearranges_refl,
  Rearranges_sym, length-Rearranges, Member-Rearranges,
}
use matchy.AhoCorasick.{Host, get_transition}
use matchy.AhoCorasick.Trie.{Member-get_transition}
use matchy.AhoCorasick.Levels.{Walks}
use matchy.AhoCorasick.Walk.{scaled}
use matchy.AhoCorasick.Serialize.{
  node_offset, collect_edges, insert_edge, sort_by_key, dense_targets,
}

-- Edges of which each is found by its byte.
abbrev pub Keyed : List (ℕ × ℕ) → Type 0
Keyed ts = (ch t : ℕ) → Member {A = ℕ × ℕ} (ch, t) ts → get_transition ch ts ≡ some t

unfoldable pub scaled_edges : List (ℕ × ℕ) → List (ℕ × ℕ)
scaled_edges [] = []
scaled_edges ((ch, t) ∷ ts) = (ch, t * 16) ∷ scaled_edges ts

pub collect_edges-scaled_edges :
    (count : ℕ) (ts : List (ℕ × ℕ))
    → count * 16 < 2 ^ 32
    → ((ch t : ℕ) → Member {A = ℕ × ℕ} (ch, t) ts → t < count)
    → collect_edges count ts ≡ ok (scaled_edges ts)
unfolding collect_edges node_offset scaled_edges
collect_edges-scaled_edges count [] small inside = refl
collect_edges-scaled_edges count ((ch, t) ∷ ts) small inside =
    let low = inside ch t here in
    let ih = collect_edges-scaled_edges count ts small (λ c u m. inside c u (later m)) in
    let below : ltb t count ≡ true = ground arith in
    let fits : t * 16 < 2 ^ 32 = omega arith in rw (below, ◌>>=◌, ih, mod-eq_of_lt fits) refl

insert_edge-Rearranges : (e : ℕ × ℕ) (fs : List (ℕ × ℕ)) → Rearranges (insert_edge e fs) (e ∷ fs)
unfolding insert_edge
insert_edge-Rearranges e [] = Rearranges_refl (e ∷ [])
insert_edge-Rearranges e (f ∷ fs) = elim (Bool-cases (leb e.0 f.0)) [
  | inl first ↦ rw first (Rearranges_refl (e ∷ f ∷ fs))
  | inr further ↦ rw further (then_on (behind f (insert_edge-Rearranges e fs)) (swapped f e fs))
]

sort_by_key-Rearranges : (es : List (ℕ × ℕ)) → Rearranges (sort_by_key es) es
unfolding sort_by_key
sort_by_key-Rearranges [] = nothing
sort_by_key-Rearranges (e ∷ es) =
    then_on (insert_edge-Rearranges e (sort_by_key es)) (behind e (sort_by_key-Rearranges es))

scaled_edges-Rearranges :
    {xs ys : List (ℕ × ℕ)} → Rearranges xs ys → Rearranges (scaled_edges xs) (scaled_edges ys)
unfolding scaled_edges
scaled_edges-Rearranges nothing = nothing
scaled_edges-Rearranges (behind (c, t) r) = behind (c, t * 16) (scaled_edges-Rearranges r)
scaled_edges-Rearranges (swapped (c, t) (d, u) xs) =
    swapped (c, t * 16) (d, u * 16) (scaled_edges xs)
scaled_edges-Rearranges (then_on r s) =
    then_on (scaled_edges-Rearranges r) (scaled_edges-Rearranges s)

pub length-scaled_edges : (ts : List (ℕ × ℕ)) → length (scaled_edges ts) ≡ length ts
unfolding scaled_edges
length-scaled_edges [] = refl
length-scaled_edges ((c, t) ∷ ts) = ap suc (length-scaled_edges ts)

get_transition-scaled_edges :
    (ch : ℕ) (ts : List (ℕ × ℕ))
    → get_transition ch (scaled_edges ts) ≡ scaled (get_transition ch ts)
unfolding scaled_edges get_transition
get_transition-scaled_edges ch [] = refl
get_transition-scaled_edges ch ((c, t) ∷ ts) = elim (Bool-cases (c == ch)) [
  | inl same ↦ rw same refl
  | inr other ↦ rw other (get_transition-scaled_edges ch ts)
]

scaled_edges-Member :
    (ch u : ℕ) (ts : List (ℕ × ℕ))
    → Member {A = ℕ × ℕ} (ch, u) (scaled_edges ts)
    → (t : ℕ) × Member {A = ℕ × ℕ} (ch, t) ts × (u ≡ t * 16)
unfolding scaled_edges
scaled_edges-Member ch u [] m = elim m [ ]
scaled_edges-Member ch u ((c, t) ∷ ts) m = elim (Member-cases m) [
  | inl same ↦
      let e : ch ≡ c = ap (λ (p : ℕ × ℕ). p.0) same in
      (
        t,
        subst (λ n. Member {A = ℕ × ℕ} (n, t) ((c, t) ∷ ts)) (sym e) here,
        ap (λ (p : ℕ × ℕ). p.1) same,
      )
  | inr old ↦ let (t', in_ts, e) = scaled_edges-Member ch u ts old in (t', later in_ts, e)
]

Keyed-scaled_edges : (ts : List (ℕ × ℕ)) → Keyed ts → Keyed (scaled_edges ts)
Keyed-scaled_edges ts keyed ch u m =
    let (t, in_ts, e) = scaled_edges-Member ch u ts m in
    get_transition-scaled_edges ch ts ∙ ap scaled (keyed ch t in_ts) ∙ ap some (sym e)

get_transition-some :
    (ch t : ℕ) (ts : List (ℕ × ℕ))
    → Member {A = ℕ × ℕ} (ch, t) ts
    → (u : ℕ) × (get_transition ch ts ≡ some u)
unfolding get_transition
get_transition-some ch t [] m = elim m [ ]
get_transition-some ch t ((c, v) ∷ ts) m = elim (Bool-cases (c == ch)) [
  | inl same ↦ (v, rw same refl)
  | inr other ↦ elim (Member-cases m) [
    | inl e ↦ let same : ch ≡ c = ap (λ (p : ℕ × ℕ). p.0) e in absurd (ground arith)
    | inr old ↦ let (u, found) = get_transition-some ch t ts old in (u, rw other found)
  ]
]

get_transition-Rearranges :
    (ch : ℕ) (xs ys : List (ℕ × ℕ))
    → Keyed ys
    → Rearranges xs ys
    → get_transition ch xs ≡ get_transition ch ys
get_transition-Rearranges ch xs ys keyed r = elim (Option-cases (get_transition ch xs)) [
  | inr (u, found) ↦
      found ∙ sym (keyed ch u (Member-Rearranges r (Member-get_transition ch u xs found)))
  | inl miss ↦ elim (Option-cases (get_transition ch ys)) [
    | inl miss' ↦ miss ∙ sym miss'
    | inr (u, found) ↦
        let m = Member-Rearranges (Rearranges_sym r) (Member-get_transition ch u ys found) in
        let (v, contrary) = get_transition-some ch u xs m in absurd (cc)
  ]
]

unfoldable pub sorted_edges : Host → List (ℕ × ℕ) → List (ℕ × ℕ)
sorted_edges host ts = sort_by_key (scaled_edges (host.order ts))

module _ (host : Host) (walks : Walks host) (ts : List (ℕ × ℕ)) (keyed : Keyed ts) where
  edges-Rearranges : Rearranges (sorted_edges host ts) (scaled_edges ts)
  unfolding sorted_edges
  edges-Rearranges =
      then_on (sort_by_key-Rearranges (scaled_edges (host.order ts)))
        (scaled_edges-Rearranges (walks.walk ts))

  pub get_transition-sorted_edges :
      (ch : ℕ) → get_transition ch (sorted_edges host ts) ≡ scaled (get_transition ch ts)
  get_transition-sorted_edges ch =
      get_transition-Rearranges ch (sorted_edges host ts) (scaled_edges ts)
        (Keyed-scaled_edges ts keyed) edges-Rearranges
      ∙ get_transition-scaled_edges ch ts

  pub length-sorted_edges : length (sorted_edges host ts) ≡ length ts
  length-sorted_edges = length-Rearranges edges-Rearranges ∙ length-scaled_edges ts

  pub sorted_edges-Keyed : Keyed (sorted_edges host ts)
  sorted_edges-Keyed ch u m =
      get_transition-Rearranges ch (sorted_edges host ts) (scaled_edges ts)
        (Keyed-scaled_edges ts keyed) edges-Rearranges
      ∙ Keyed-scaled_edges ts keyed ch u (Member-Rearranges edges-Rearranges m)

-- The table of a dense state.
pub length-dense_targets :
    (es : List (ℕ × ℕ)) (targets : List ℕ) → length (dense_targets es targets) ≡ length targets
unfolding dense_targets
length-dense_targets [] targets = refl
length-dense_targets ((c, t) ∷ es) targets =
    length-dense_targets es (set targets c t) ∙ length-set targets c t

pub get_elem?-dense_targets :
    (es : List (ℕ × ℕ)) (targets : List ℕ) (ch v : ℕ)
    → ch < length targets
    → ((u : ℕ) → Member {A = ℕ × ℕ} (ch, u) es → u ≡ v)
    → (get_elem? targets ch ≡ some v) ⊎ ((u : ℕ) × Member {A = ℕ × ℕ} (ch, u) es)
    → get_elem? (dense_targets es targets) ch ≡ some v
unfolding dense_targets
get_elem?-dense_targets [] targets ch v low alike (inl found) = found
get_elem?-dense_targets [] targets ch v low alike (inr (u, m)) = elim m [ ]
get_elem?-dense_targets ((c, t) ∷ es) targets ch v low alike start =
    get_elem?-dense_targets es (set targets c t) ch v (omega (arith, length-set targets c t))
      (λ u m. alike u (later m)) (onward start)
  where
    onward :
        (get_elem? targets ch ≡ some v) ⊎ ((u : ℕ) × Member {A = ℕ × ℕ} (ch, u) ((c, t) ∷ es))
        → (get_elem? (set targets c t) ch ≡ some v) ⊎ ((u : ℕ) × Member {A = ℕ × ℕ} (ch, u) es)
    onward start = elim (ℕ_discrete c ch) [
      | yes e ↦
          let same : t ≡ v =
            alike t (subst (λ n. Member {A = ℕ × ℕ} (n, t) ((c, t) ∷ es)) e here) in
          inl (
            subst (λ n. get_elem? (set targets c t) n ≡ some v) e
              (get_elem?-set_self targets c t (subst (λ n. n < length targets) (sym e) low)
                ∙ ap some same))
      | no other ↦ elim start [
        | inl found ↦ inl (get_elem?-set_ne targets c ch t other ∙ found)
        | inr (u, m) ↦ elim (Member-cases m) [
          | inl e ↦ absurd (other (sym (ap (λ (p : ℕ × ℕ). p.0) e)))
          | inr old ↦ inr (u, old)
        ]
      ]
    ]
