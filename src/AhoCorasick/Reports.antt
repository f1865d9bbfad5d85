-- ===== src/AhoCorasick/Reports.antt =====
-- The two searches of the automaton (src/ac_offset.rs) against each other.
use matchy.Base.{
  ℕ, ◌+◌, ◌≤◌, ◌<◌, ◌≡◌, ◌↔◌, refl, sym, ap, ◌∙◌, subst, arith, ◌==◌, leb, List, [], ◌∷◌, ◌++◌, ◌⊎◌,
  inl, inr, Bool-cases, length, map, Result, ok, err, ◌>>=◌,
}
use matchy.Base.Results.{Error}
use matchy.Base.Orders.{Member, here, later, Member-cases}
use matchy.AhoCorasick.Search.{
  AcAutomaton, next_node, ids_at, positions_from, find_with_positions_bytes, ids_from,
  insert_sorted, sort_unstable, dedup_behind, dedup, find_pattern_ids_bytes,
}

-- Each element is larger than the one before, or in `AtLeast` than a number that may be there too.
pub data AtLeast : ℕ → List ℕ → Type 0 where
  nothing_left : {x : ℕ} → AtLeast x []
  next_one : {x y : ℕ} {ys : List ℕ} → x ≤ y → AtLeast y ys → AtLeast x (y ∷ ys)

pub data Above : ℕ → List ℕ → Type 0 where
  no_more : {x : ℕ} → Above x []
  one_more : {x y : ℕ} {ys : List ℕ} → x < y → Above y ys → Above x (y ∷ ys)

pub data Ascending : List ℕ → Type 0 where
  no_ids : Ascending []
  from_id : {x : ℕ} {xs : List ℕ} → Above x xs → Ascending (x ∷ xs)

abbrev second : ℕ × ℕ → ℕ
second p = p.1

-- The ids without their positions.
abbrev pub ids_of : List (ℕ × ℕ) → List ℕ
ids_of [] = []
ids_of (m ∷ ms) = second m ∷ ids_of ms

-- What two searches found: ascending ids, which are those of the matches, or the same error.
unfoldable pub Agree : Result (List (ℕ × ℕ)) → Result (List ℕ) → Type 0
Agree (ok ms) (ok ids) = Ascending ids × ((id : ℕ) → Member id ids ↔ Member id (ids_of ms))
Agree (err e) (err f) = e ≡ f
Agree (ok ms) (err f) = ⊥
Agree (err e) (ok ids) = ⊥

AtLeast-insert_sorted :
    (x y : ℕ) (ys : List ℕ) → x ≤ y → AtLeast x ys → AtLeast x (insert_sorted y ys)
unfolding insert_sorted
AtLeast-insert_sorted x y [] less sorted = next_one less nothing_left
AtLeast-insert_sorted x y (z ∷ zs) less (next_one below sorted) = elim (Bool-cases (leb y z)) [
  | inl first ↦ rw first (next_one less (next_one (ground arith) sorted))
  | inr behind_it ↦
      rw behind_it (next_one below (AtLeast-insert_sorted z y zs (ground arith) sorted))
]

AtLeast-sort_unstable : (xs : List ℕ) → AtLeast 0 (sort_unstable xs)
unfolding sort_unstable
AtLeast-sort_unstable [] = nothing_left
AtLeast-sort_unstable (x ∷ xs) =
    AtLeast-insert_sorted 0 x (sort_unstable xs) (omega arith) (AtLeast-sort_unstable xs)

Above-dedup_behind : (x : ℕ) (ys : List ℕ) → AtLeast x ys → Above x (dedup_behind x ys)
unfolding dedup_behind
Above-dedup_behind x [] sorted = no_more
Above-dedup_behind x (y ∷ ys) (next_one below sorted) =
    let ih = Above-dedup_behind y ys sorted in
    elim (Bool-cases (x == y)) [
      | inl same ↦
          let e : y ≡ x = ground arith in rw same (subst (λ n. Above n (dedup_behind y ys)) e ih)
      | inr other ↦ rw other (one_more (ground arith) ih)
    ]

Ascending-dedup : (x : ℕ) (ys : List ℕ) → AtLeast x ys → Ascending (dedup ys)
unfolding dedup
Ascending-dedup x [] sorted = no_ids
Ascending-dedup x (y ∷ ys) (next_one below sorted) = from_id (Above-dedup_behind y ys sorted)

Member-insert_sorted :
    (id x : ℕ) (ys : List ℕ) → Member id (insert_sorted x ys) ↔ Member id (x ∷ ys)
unfolding insert_sorted
Member-insert_sorted id x [] = (λ m. m, λ m. m)
Member-insert_sorted id x (y ∷ ys) =
    let (down, up) = Member-insert_sorted id x ys in
    elim (Bool-cases (leb x y)) [
      | inl first ↦ rw first (λ m. m, λ m. m)
      | inr behind_it ↦ rw behind_it (λ m. swap (map_later down m), λ m. map_later up (swap m))
    ]
  where
    swap : {a b : ℕ} {zs : List ℕ} → Member id (a ∷ b ∷ zs) → Member id (b ∷ a ∷ zs)
    swap {a} {b} {zs} m = elim (Member-cases m) [
      | inl same ↦ subst (λ n. Member n (b ∷ a ∷ zs)) (sym same) (later here)
      | inr old ↦ elim (Member-cases old) [
        | inl same ↦ subst (λ n. Member n (b ∷ a ∷ zs)) (sym same) here
        | inr rest ↦ later (later rest)
      ]
    ]

    map_later :
        {a : ℕ} {us vs : List ℕ}
        → (Member id us → Member id vs)
        → Member id (a ∷ us)
        → Member id (a ∷ vs)
    map_later {a} {us} {vs} f m = elim (Member-cases m) [
      | inl same ↦ subst (λ n. Member n (a ∷ vs)) (sym same) here
      | inr old ↦ later (f old)
    ]

Member-sort_unstable : (id : ℕ) (xs : List ℕ) → Member id (sort_unstable xs) ↔ Member id xs
unfolding sort_unstable
Member-sort_unstable id [] = (λ m. m, λ m. m)
Member-sort_unstable id (x ∷ xs) =
    let (down, up) = Member-insert_sorted id x (sort_unstable xs) in
    let (ih, hi) = Member-sort_unstable id xs in
    (
      λ m. elim (Member-cases (down m)) [
        | inl same ↦ subst (λ n. Member n (x ∷ xs)) (sym same) here
        | inr old ↦ later (ih old)
      ],
      λ m. elim (Member-cases m) [
        | inl same ↦ up (subst (λ n. Member n (x ∷ sort_unstable xs)) (sym same) here)
        | inr old ↦ up (later (hi old))
      ],
    )

Member-dedup_behind :
    (id x : ℕ) (ys : List ℕ) → Member id (x ∷ dedup_behind x ys) ↔ Member id (x ∷ ys)
unfolding dedup_behind
Member-dedup_behind id x [] = (λ m. m, λ m. m)
Member-dedup_behind id x (y ∷ ys) =
    let (down, up) = Member-dedup_behind id y ys in
    elim (Bool-cases (x == y)) [
      | inl same ↦
          let e : y ≡ x = ground arith in
          rw same (
            λ m. later (down (subst (λ n. Member id (n ∷ dedup_behind y ys)) (sym e) m)),
            λ m.
                subst (λ n. Member id (n ∷ dedup_behind y ys)) e
                  (up (elim (Member-cases m) [
                    | inl this ↦ subst (λ n. Member n (y ∷ ys)) (e ∙ sym this) here
                    | inr old ↦ old
                  ])),
          )
      | inr other ↦ rw other (
        λ m. elim (Member-cases m) [
          | inl this ↦ subst (λ n. Member n (x ∷ y ∷ ys)) (sym this) here
          | inr old ↦ later (down old)
        ],
        λ m. elim (Member-cases m) [
          | inl this ↦ subst (λ n. Member n (x ∷ y ∷ dedup_behind y ys)) (sym this) here
          | inr old ↦ later (up old)
        ],
      )
    ]

Member-dedup : (id : ℕ) (xs : List ℕ) → Member id (dedup xs) ↔ Member id xs
unfolding dedup
Member-dedup id [] = (λ m. m, λ m. m)
Member-dedup id (x ∷ xs) = Member-dedup_behind id x xs

ids_of-append :
    (pos : ℕ) (ids : List ℕ) (ms : List (ℕ × ℕ))
    → ids_of (map (λ id. (pos, id)) ids ++ ms) ≡ ids ++ ids_of ms
ids_of-append pos [] ms = refl
ids_of-append pos (id ∷ ids) ms = ap (λ l. id ∷ l) (ids_of-append pos ids ms)

-- The same walk twice.
abbrev without_positions : Result (List (ℕ × ℕ)) → Result (List ℕ)
without_positions (ok ms) = ok (ids_of ms)
without_positions (err e) = err e

abbrev Result-cases :
    {A : Type 0} (r : Result A) → ((a : A) × (r ≡ ok a)) ⊎ ((e : Error) × (r ≡ err e))
Result-cases (ok a) = inl (a, refl)
Result-cases (err e) = inr (e, refl)

ids_from-positions_from :
    (fuel : ℕ) (automaton : AcAutomaton) (text : List ℕ) (pos current : ℕ)
    → ids_from fuel automaton text current
      ≡ without_positions (positions_from fuel automaton text pos current)
unfolding ids_from positions_from
ids_from-positions_from fuel automaton [] pos current = refl
ids_from-positions_from fuel automaton (ch ∷ text) pos current =
    elim (Result-cases (next_node fuel automaton current ch)) [
      | inr (e, failed) ↦ rw (failed, ◌>>=◌) refl
      | inl (next, moved) ↦
          let ih = ids_from-positions_from fuel automaton text (pos + 1) next in
          elim (Result-cases (positions_from fuel automaton text (pos + 1) next)) [
            | inr (e, failed) ↦ rw (moved, ◌>>=◌, ih, failed) refl
            | inl (ms, found) ↦
                rw (moved, ◌>>=◌, ih, found)
                  (ap ok (sym (ids_of-append (pos + 1) (ids_at automaton next) ms)))
          ]
    ]

-- In any bytes and with any fuel: the search for ids gives ascending ids, without repeats, which are just
-- the ids that the search for positions reports, and it fails with the same error when that one fails.
pub find_pattern_ids-Agree :
    (fuel : ℕ) (automaton : AcAutomaton) (text : List ℕ)
    → Agree
        (find_with_positions_bytes fuel automaton text)
        (find_pattern_ids_bytes fuel automaton text)
unfolding find_with_positions_bytes find_pattern_ids_bytes Agree
find_pattern_ids-Agree fuel automaton text = elim (Bool-cases (length automaton.buffer == 0)) [
  | inl empty ↦ rw empty (no_ids, λ id. (λ m. m, λ m. m))
  | inr full ↦
      let same = ids_from-positions_from fuel automaton text 0 0 in
      elim (Result-cases (positions_from fuel automaton text 0 0)) [
        | inr (e, failed) ↦ rw (full, same, failed, ◌>>=◌) refl
        | inl (ms, found) ↦ rw (full, same, found, ◌>>=◌) (both ms)
      ]
]
  where
    both :
        (ms : List (ℕ × ℕ))
        → Ascending (dedup (sort_unstable (ids_of ms)))
          × ((id : ℕ) → Member id (dedup (sort_unstable (ids_of ms))) ↔ Member id (ids_of ms))
    both ms = (
      Ascending-dedup 0 (sort_unstable (ids_of ms)) (AtLeast-sort_unstable (ids_of ms)),
      λ id.
          let (down, up) = Member-dedup id (sort_unstable (ids_of ms)) in
          let (down', up') = Member-sort_unstable id (ids_of ms) in
          (λ m. down' (down m), λ m. up (up' m)),
    )
