-- ===== src/IpTree/Bounds.antt =====
-- Every pointer in the arena is in range: a node id is an index, and a data offset is at most the
-- largest that was inserted.
use matchy.Base.{
  ℕ, zero, suc, ◌+◌, ◌%◌, ◌^◌, ◌≤◌, ◌<◌, ◌≡◌, arith, ltb, leb, ◌==◌, List, [], ◌∷◌, ◌++◌, length,
  set, some, Result, ok, ◌>>=◌, >>=-eq-ok, Bool-cases, inl, inr, length-set, length-append,
  get_elem?, subst, Option-cases,
}
use mathlib.Core.Option.{some-injective}
use matchy.IpTree.{
  NodePointer, node, entry, empty, Node, new_empty, child, set_child, index_node, set_edge,
  backfill_child, backfill_less_specific, place, descend, bit_at, insert_loop, max_height,
}

-- `n` bounds the ids and `d` the data offsets.
abbrev pub InRange : ℕ → ℕ → NodePointer → Type 0
InRange n d empty = Unit
InRange n d (node i) = i < n
InRange n d (entry offset len) = offset ≤ d

abbrev pub AllInRange : ℕ → ℕ → List Node → Type 0
AllInRange n d [] = Unit
AllInRange n d (x ∷ xs) = InRange n d x.left × InRange n d x.right × AllInRange n d xs

InRange-mono : (n m d : ℕ) (p : NodePointer) → n ≤ m → InRange n d p → InRange m d p
InRange-mono n m d empty le h = tt
InRange-mono n m d (node i) le h = omega arith
InRange-mono n m d (entry o e) le h = h

AllInRange-mono : (n m d : ℕ) (xs : List Node) → n ≤ m → AllInRange n d xs → AllInRange m d xs
AllInRange-mono n m d [] le h = tt
AllInRange-mono n m d (x ∷ xs) le h = (
  InRange-mono n m d x.left le h.0,
  InRange-mono n m d x.right le h.1,
  AllInRange-mono n m d xs le h.2,
)

AllInRange-append :
    (n d : ℕ) (xs : List Node) → AllInRange n d xs → AllInRange n d (xs ++ new_empty ∷ [])
AllInRange-append n d [] h = (tt, tt, tt)
AllInRange-append n d (x ∷ xs) h = (h.0, h.1, AllInRange-append n d xs h.2)

AllInRange-set :
    (n d i bit : ℕ) (p : NodePointer) (xs : List Node) {x : Node}
    → get_elem? xs i ≡ some x
    → InRange n d p
    → AllInRange n d xs
    → AllInRange n d (set xs i (set_child x bit p))
AllInRange-set n d i bit p [] at hp h = tt
AllInRange-set n d zero bit p (y ∷ xs) {x = x} at hp h = elim (Bool-cases (bit == 0)) [
  | inl e ↦ rw e (hp, subst (λ z. InRange n d z.right) (some-injective y x at) h.1, h.2)
  | inr e ↦ rw e (subst (λ z. InRange n d z.left) (some-injective y x at) h.0, hp, h.2)
]
AllInRange-set n d (suc i) bit p (y ∷ xs) at hp h =
    (h.0, h.1, AllInRange-set n d i bit p xs at hp h.2)

pub AllInRange-get :
    (n d i : ℕ) (xs : List Node) {x : Node}
    → get_elem? xs i ≡ some x
    → AllInRange n d xs
    → InRange n d x.left × InRange n d x.right
AllInRange-get n d i [] at h = absurd (cc)
AllInRange-get n d zero (y ∷ xs) {x = x} at h =
    subst (λ z. InRange n d z.left × InRange n d z.right) (some-injective y x at) (h.0, h.1)
AllInRange-get n d (suc i) (y ∷ xs) at h = AllInRange-get n d i xs at h.2

InRange-child :
    (n d bit : ℕ) (x : Node) → InRange n d x.left → InRange n d x.right → InRange n d (child x bit)
InRange-child n d bit x hl hr = elim (Bool-cases (bit == 0)) [ inl e ↦ rw e hl | inr e ↦ rw e hr ]

module _ (d : ℕ) where
  abbrev pub Ranged : List Node → Type 0
  Ranged ns = AllInRange (length ns) d ns

  -- A step that keeps all pointers in range and drops no node; `arena` reads the arena in its result.
  abbrev Kept : {A : Type 0} → (A → List Node) → List Node → Result A → Type 0
  Kept arena ns result = (a : _) → result ≡ ok a → Ranged (arena a) × (length ns ≤ length (arena a))

  abbrev Keeps : List Node → Result (List Node) → Type 0
  Keeps ns result = Kept (λ ns'. ns') ns result

  Kept-bind :
      {A B : Type 0} (f : A → List Node) (g : B → List Node) (ns : List Node) (m : Result A)
      (k : A → Result B)
      → Kept f ns m
      → ((a : A) → Ranged (f a) → Kept g (f a) (k a))
      → Kept g ns (m >>= k)
  Kept-bind f g ns m k hm hk b e =
      let (a, ran, rest) = >>=-eq-ok m k e in
      let (ranged, le) = hm a ran in
      let (ranged', le') = hk a ranged b rest in (ranged', omega arith)

  Kept-index :
      {B : Type 0} (g : B → List Node) (ns : List Node) (i : ℕ) (k : Node → Result B)
      → ((n : Node) → get_elem? ns i ≡ some n → Kept g ns (k n))
      → Kept g ns (index_node ns i >>= k)
  unfolding index_node
  Kept-index g ns i k hk = elim (Option-cases (get_elem? ns i)) [
    | inl e ↦ λ b q. let q' = rw (e, index_node) at q in absurd (cc)
    | inr (n, e) ↦ λ b q. hk n e b (rw (e, index_node) at q)
  ]

  set_edge-Keeps :
      (ns : List Node) (i bit : ℕ) (p : NodePointer)
      → InRange (length ns) d p
      → Ranged ns
      → Keeps ns (set_edge ns i bit p)
  unfolding set_edge
  set_edge-Keeps ns i bit p hp h =
      Kept-index (λ ns'. ns') ns i _
        λ n at ns' e.
          let written : set ns i (set_child n bit p) ≡ ns' = cc in
          let size = length-set ns i (set_child n bit p) in
          subst (λ z. Ranged z × (length ns ≤ length z)) written
            (
              AllInRange-mono (length ns) _ d _ (omega arith)
                  (AllInRange-set (length ns) d i bit p ns at hp h),
              omega arith,
            )

  Keeps-refl : (ns : List Node) → Ranged ns → Keeps ns (ok ns)
  Keeps-refl ns h ns' e =
      let same : ns ≡ ns' = cc in
      subst (λ z. Ranged z × (length ns ≤ length z)) same (h, omega arith)

  module _ (offset len : ℕ) (le : offset ≤ d) where
    backfill_child-Keeps :
        (rec : List Node → ℕ → Result (List Node)) (ns : List Node) (i bit : ℕ) (p : NodePointer)
        → ((c : ℕ) → Keeps ns (rec ns c))
        → Ranged ns
        → Keeps ns (backfill_child rec ns i bit p offset len)
    unfolding backfill_child
    backfill_child-Keeps rec ns i bit empty hrec h = set_edge-Keeps ns i bit (entry offset len) le h
    backfill_child-Keeps rec ns i bit (node c) hrec h = hrec c
    backfill_child-Keeps rec ns i bit (entry o e) hrec h = elim (Bool-cases (ltb e len)) [
      | inl w ↦ rw w (set_edge-Keeps ns i bit (entry offset len) le h)
      | inr l ↦ rw l (Keeps-refl ns h)
    ]

    backfill-Keeps :
        (fuel : ℕ) (ns : List Node) (i : ℕ)
        → Ranged ns
        → Keeps ns (backfill_less_specific fuel offset len ns i)
    unfolding backfill_less_specific
    backfill-Keeps zero ns i h = λ ns' e. absurd (cc)
    backfill-Keeps (suc fuel) ns i h =
        Kept-index (λ ns'. ns') ns i _
          λ n at.
            let rec = backfill_less_specific fuel offset len in
            Kept-bind (λ ns'. ns') (λ ns'. ns') ns _ _
              (backfill_child-Keeps rec ns i 0 n.left (λ c. backfill-Keeps fuel ns c h) h)
              (λ ns' h'.
                backfill_child-Keeps rec ns' i 1 n.right (λ c. backfill-Keeps fuel ns' c h') h')

    place-Keeps :
        (ns : List Node) (i bit : ℕ) (p : NodePointer)
        → Ranged ns
        → Keeps ns (place ns i bit p offset len)
    unfolding place
    place-Keeps ns i bit empty h = set_edge-Keeps ns i bit (entry offset len) le h
    place-Keeps ns i bit (node c) h = backfill-Keeps max_height ns c h
    place-Keeps ns i bit (entry o e) h = elim (Bool-cases (leb e len)) [
      | inl w ↦ rw w (set_edge-Keeps ns i bit (entry offset len) le h)
      | inr l ↦ rw l (Keeps-refl ns h)
    ]

  abbrev first : List Node × ℕ → List Node
  first r = r.0

  Kept-pair : (ns : List Node) (i : ℕ) → Ranged ns → Kept first ns (ok (ns, i))
  Kept-pair ns i h r e =
      let same : (ns, i) ≡ r = cc in
      subst (λ (z : List Node × ℕ). Ranged z.0 × (length ns ≤ length z.0)) same (h, omega arith)

  allocate-Ranged : (ns : List Node) → Ranged ns → Ranged (ns ++ new_empty ∷ [])
  allocate-Ranged ns h =
      AllInRange-mono (length ns) _ d _ (omega (arith, length-append ns (new_empty ∷ [])))
        (AllInRange-append (length ns) d ns h)

  -- The step from the arena that has one node more.
  Kept-allocated :
      (ns : List Node) (m : Result (List Node × ℕ))
      → Kept first (ns ++ new_empty ∷ []) m
      → Kept first ns m
  Kept-allocated ns m k r e =
      let (h, le) = k r e in (h, omega (arith, length-append ns (new_empty ∷ [])))

  id-lt : (ns : List Node) → length ns % 2 ^ 32 < length (ns ++ new_empty ∷ [])
  id-lt ns = omega (arith, length-append ns (new_empty ∷ []))

  descend-Kept :
      (ns : List Node) (i bit : ℕ) (p : NodePointer)
      → Ranged ns
      → InRange (length ns) d p
      → Kept first ns (descend ns i bit p)
  unfolding descend
  descend-Kept ns i bit empty h hp = Kept-allocated ns _ (
      Kept-bind (λ ns'. ns') first _ _ _
        (set_edge-Keeps (ns ++ new_empty ∷ []) i bit (node _) (id-lt ns) (allocate-Ranged ns h))
        (λ ns' h'. Kept-pair ns' _ h'))
  descend-Kept ns i bit (node c) h hp = Kept-pair ns c h
  descend-Kept ns i bit (entry o e) h hp =
      let id = length ns % 2 ^ 32 in
      let all = ns ++ new_empty ∷ [] in
      Kept-allocated ns _ (λ r run.
        let (ns₁, run₁, rest₁) = >>=-eq-ok (set_edge all id 0 (entry o e)) _ run in
        let (ns₂, run₂, rest₂) = >>=-eq-ok (set_edge ns₁ id 1 (entry o e)) _ rest₁ in
        let (h₁, le₁) = set_edge-Keeps all id 0 (entry o e) hp (allocate-Ranged ns h) ns₁ run₁ in
        let (h₂, le₂) = set_edge-Keeps ns₁ id 1 (entry o e) hp h₁ ns₂ run₂ in
        let below = id-lt ns in
        let (h₃, le₃) =
          Kept-bind (λ ns'. ns') first ns₂ (set_edge ns₂ i bit (node id)) _
            (set_edge-Keeps ns₂ i bit (node id) (omega arith) h₂) (λ ns' h'. Kept-pair ns' id h') r
            rest₂ in
        (h₃, omega arith))

  pub insert_loop-Keeps :
      (bits len offset : ℕ)
      → offset ≤ d
      → (rounds : ℕ) (ns : List Node) (i depth : ℕ) → Ranged ns
      → Keeps ns (insert_loop rounds ns i depth bits len offset)
  unfolding insert_loop
  insert_loop-Keeps bits len offset le zero ns i depth h = Keeps-refl ns h
  insert_loop-Keeps bits len offset le (suc rounds) ns i depth h =
      Kept-index (λ ns'. ns') ns i _
        λ n at.
          let bit = bit_at bits depth in
          let (hl, hr) = AllInRange-get (length ns) d i ns at h in
          elim (Bool-cases (depth + 1 == len)) [
            | inl last ↦ rw last (place-Keeps offset len le ns i bit (child n bit) h)
            | inr more ↦ rw more (
                Kept-bind first (λ ns'. ns') ns (descend ns i bit (child n bit)) _
                  (descend-Kept ns i bit (child n bit) h (InRange-child (length ns) d bit n hl hr))
                  (λ (ns', next) h'.
                    insert_loop-Keeps bits len offset le rounds ns' next (depth + 1) h'))
          ]
