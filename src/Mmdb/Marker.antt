-- ===== src/Mmdb/Marker.antt =====
-- The search for the metadata marker.
use matchy.Base.{
  ℕ, zero, suc, ◌+◌, ◌-◌, ◌≤◌, ◌<◌, ltb, ◌≡◌, refl, sym, ap, ◌∙◌, arith, List, ◌++◌, length,
  length-append, take-append-drop, length-take_le, take-append, drop-append, take, drop, Bool, true,
  false, Option, none, some, ◌⊎◌, inl, inr, Bool-cases, Result, ok, err, if◌then◌else◌, subst,
  ℕ_discrete, dec_lt, lt→ltb,
}
use matchy.Base.Results.{metadata_not_found}
use matchy.Base.Bytes.{same_bytes, same_bytes_refl, same_bytes-eq}
use matchy.Mmdb.Format.{metadata_marker, search_size, marker_loop, find_metadata_marker}

-- The marker stands behind `i` bytes.
abbrev pub MarkerAt : List ℕ → ℕ → Type 0
MarkerAt bytes i =
    (front : List ℕ) × (back : List ℕ) × (bytes ≡ front ++ (metadata_marker ++ back))
    × (length front ≡ i)

-- What the search has to find: the last marker, if one starts within the last 128 KB.
abbrev pub Finds : List ℕ → Result ℕ → Type 0
Finds bytes (ok i) =
    MarkerAt bytes i × (length bytes ≤ i + search_size) × ((j : ℕ) → MarkerAt bytes j → j ≤ i)
Finds bytes (err why) =
    (why ≡ metadata_not_found) × ((j : ℕ) → MarkerAt bytes j → j + search_size < length bytes)

module _ (bytes : List ℕ) where
  abbrev here : ℕ → Bool
  here i = same_bytes (take (length metadata_marker) (drop i bytes)) metadata_marker

  here→MarkerAt : (i : ℕ) → i ≤ length bytes → here i ≡ true → MarkerAt bytes i
  here→MarkerAt i h test =
      let rest = drop i bytes in
      let marker = same_bytes-eq (take 14 rest) metadata_marker test in
      (
        take i bytes,
        drop 14 rest,
        sym (take-append-drop i bytes)
            ∙ ap (λ l. take i bytes ++ l)
                (sym (take-append-drop 14 rest) ∙ ap (λ l. l ++ drop 14 rest) marker),
        length-take_le i bytes h,
      )

  MarkerAt→here : (i : ℕ) → MarkerAt bytes i → here i ≡ true
  MarkerAt→here i (front, back, split, size) =
      let found : take 14 (drop i bytes) ≡ metadata_marker =
        rw (split, sym size, drop-append front (metadata_marker ++ back))
          (take-append metadata_marker back) in
      ap (λ l. same_bytes l metadata_marker) found ∙ same_bytes_refl metadata_marker

  MarkerAt-room : (i : ℕ) → MarkerAt bytes i → i + 14 ≤ length bytes
  MarkerAt-room i (front, back, split, size) = omega (
    arith,
    ap length split,
    length-append front (metadata_marker ++ back),
    length-append metadata_marker back,
  )

  Free : ℕ → ℕ → Type 0
  Free low high = (j : ℕ) → low ≤ j → j < high → here j ≡ false

  -- What the rounds from `i` on make of the last marker so far.
  Scanned : ℕ → ℕ → Option ℕ → Option ℕ → Type 0
  Scanned n i last result =
      ((result ≡ last) × Free i (i + n))
      ⊎ ((j : ℕ) × (result ≡ some j)
          × (i ≤ j)
          × (j < i + n)
          × (here j ≡ true)
          × Free (j + 1) (i + n))

  Free-none : (i : ℕ) → Free i (i + 0)
  unfolding Free
  Free-none i j low high = absurd (omega arith)

  Free-more : (n i : ℕ) → here i ≡ false → Free (i + 1) (i + 1 + n) → Free i (i + suc n)
  unfolding Free
  Free-more n i not_here others j low high = elim (ℕ_discrete i j) [
    | yes e ↦ subst (λ k. here k ≡ false) e not_here
    | no apart ↦ others j (omega arith) (omega arith)
  ]

  Scanned-step :
      (n i : ℕ) (last result : Option ℕ)
      → Scanned n (i + 1) (if here i then some i else last) result
      → Scanned (suc n) i last result
  unfolding Scanned Free
  Scanned-step n i last result (inr (j, at, low, high, test, others)) =
      inr (j, at, omega arith, omega arith, test, λ k l h. others k l (omega arith))
  Scanned-step n i last result (inl (at, others)) = elim (Bool-cases (here i)) [
    | inl here_i ↦ inr (
      i,
      at ∙ ap (λ b. if b then some i else last) here_i,
      omega arith,
      omega arith,
      here_i,
      λ k l h. others k l (omega arith),
    )
    | inr not_here ↦
        inl (at ∙ ap (λ b. if b then some i else last) not_here, Free-more n i not_here others)
  ]

  marker_loop-Scanned : (n i : ℕ) (last : Option ℕ) → Scanned n i last (marker_loop n bytes i last)
  unfolding marker_loop Scanned
  marker_loop-Scanned zero i last = inl (refl, Free-none i)
  marker_loop-Scanned (suc n) i last =
      Scanned-step n i last _ (marker_loop-Scanned n (i + 1) (if here i then some i else last))

  -- Where the search starts, and how many rounds it has.
  start : ℕ
  start = if ltb search_size (length bytes) then length bytes - search_size else 0

  start_eq : start ≡ length bytes - search_size
  unfolding start
  start_eq = ground arith

  last_marker : Option ℕ
  last_marker = marker_loop (length bytes - 14 + 1 - start) bytes start none

  -- Where a marker is, none was overlooked.
  not-Free : (low high j : ℕ) → Free low high → MarkerAt bytes j → low ≤ j → j < high → ⊥
  unfolding Free
  not-Free low high j free marker l h =
      let yes_here = MarkerAt→here j marker in let no_here = free j l h in cc

  last_marker-Finds :
      14 ≤ length bytes
      → (result : Option ℕ) → Scanned (length bytes - 14 + 1 - start) start none result
      → Finds bytes (elim result [ none ↦ err metadata_not_found | some i ↦ ok i ])
  unfolding Scanned
  last_marker-Finds long none (inl (at, free)) = (
    refl,
    λ j marker. elim (dec_lt j start) [
      | yes below ↦ omega (arith, start_eq)
      | no above ↦ absurd (
          not-Free _ _ j free marker (omega arith)
            (omega (arith, start_eq, MarkerAt-room j marker)))
    ],
  )
  last_marker-Finds long (some i) (inl (at, free)) = absurd (cc)
  last_marker-Finds long none (inr (j, at, low, high, test, free)) = absurd (cc)
  last_marker-Finds long (some i) (inr (j, at, low, high, test, free)) =
      let same : j ≡ i = cc in
      subst (λ k. Finds bytes (ok k)) same
        (
          here→MarkerAt j (omega (arith, start_eq)) test,
          omega (arith, start_eq),
          λ k marker. elim (dec_lt j k) [
            | yes behind ↦ absurd (
                not-Free _ _ k free marker (omega arith)
                  (omega (arith, start_eq, MarkerAt-room k marker)))
            | no before ↦ omega arith
          ],
        )

-- For every file, the search returns the place of the last metadata marker, if one starts within the last
-- 128 KB. Otherwise it returns that there is none.
pub find_metadata_marker-Finds : (bytes : List ℕ) → Finds bytes (find_metadata_marker bytes)
unfolding find_metadata_marker last_marker start
find_metadata_marker-Finds bytes = elim (dec_lt (length bytes) 14) [
  | yes short ↦
      let test : ltb (length bytes) 14 ≡ true = lt→ltb _ _ short in
      rw test (refl, λ j marker. absurd (omega (arith, MarkerAt-room bytes j marker)))
  | no long ↦
      let test : ltb (length bytes) 14 ≡ false = ground arith in
      let found = last_marker-Finds bytes (omega arith) _ (marker_loop-Scanned bytes _ _ none) in
      rw test found
]
