-- ===== src/LiteralHash/Added.antt =====
-- Lookup in terms of the patterns that were added (src/literal_hash.rs, `add_pattern`).
use matchy.Base.{
  ℕ, ◌^◌, ◌<◌, ◌≡◌, ◌≢◌, ◌⊎◌, refl, sym, ap, ◌∙◌, subst, arith, ◌==◌, List, [], ◌∷◌, ◌++◌, inl, inr,
  true, false, Bool-cases, length, Option, none, some, ok, if◌then◌else◌, append_assoc, append-nil,
  map, length-append,
}
use matchy.Base.Bytes.{same_bytes, same_bytes-eq, same_bytes_refl}
use matchy.Base.Orders.{Member}
use matchy.Glob.{MatchMode, case_sensitive}
use matchy.LiteralHash.{
  Literal, LiteralHashBuilder, Host, compute_hash, normalize, string_pool, new, add_pattern,
}
use matchy.LiteralHash.Build.{build}
use matchy.LiteralHash.Table.{LiteralHash, from_buffer, lookup}
use matchy.LiteralHash.Dictionary.{last_with, latest}
use matchy.LiteralHash.Shards.{Walks}
use matchy.LiteralHash.ShardLookup.{Storable, answer}
use matchy.LiteralHash.Answers.{lookup-build}

-- A run of calls of `add_pattern`.
unfoldable pub add_patterns : Host → LiteralHashBuilder → List (List ℕ × ℕ) → LiteralHashBuilder
unfolding add_pattern
add_patterns host builder [] = builder
add_patterns host builder ((pattern, id) ∷ ps) =
    add_patterns host (add_pattern host builder pattern id) ps

-- The id of the last pattern that has the normal form of the query.
unfoldable pub last_added : Host → MatchMode → List (List ℕ × ℕ) → List ℕ → Option ℕ
last_added host mode [] query = none
last_added host mode ((pattern, id) ∷ ps) query =
    latest (last_added host mode ps query) (
      if same_bytes (normalize host mode pattern) (normalize host mode query)
      then some id
      else none)

-- The literal that one call adds.
abbrev pub literal_of : Host → MatchMode → List ℕ × ℕ → Literal
literal_of host mode (pattern, id) = record {
  pattern = normalize host mode pattern;
  pattern_id = id;
  hash = compute_hash host (normalize host mode pattern);
}

pub add_patterns-patterns :
    (host : Host) (builder : LiteralHashBuilder) (ps : List (List ℕ × ℕ))
    → ((add_patterns host builder ps).patterns
        ≡ builder.patterns ++ map (literal_of host builder.mode) ps)
      × ((add_patterns host builder ps).mode ≡ builder.mode)
unfolding add_patterns add_pattern
add_patterns-patterns host builder [] = (sym (append-nil builder.patterns), refl)
add_patterns-patterns host builder ((pattern, id) ∷ ps) =
    let (rest, mode) = add_patterns-patterns host (add_pattern host builder pattern id) ps in
    (
      rest
          ∙ append_assoc builder.patterns (literal_of host builder.mode (pattern, id) ∷ [])
              (map (literal_of host builder.mode) ps),
      mode,
    )

-- Patterns whose hash is the query's have the query's text.
abbrev pub NoCollision : Host → MatchMode → List (List ℕ × ℕ) → List ℕ → Type 0
NoCollision host mode [] query = Unit
NoCollision host mode ((pattern, id) ∷ ps) query =
    (compute_hash host (normalize host mode pattern) ≡ compute_hash host (normalize host mode query)
      → normalize host mode pattern ≡ normalize host mode query)
    × NoCollision host mode ps query

-- The last literal with the hash, where no text but the query's has it.
last_literal :
    (host : Host) (mode : MatchMode) (query : List ℕ) (ps : List (List ℕ × ℕ))
    → NoCollision host mode ps query
    → ((last_with (compute_hash host (normalize host mode query)) (map (literal_of host mode) ps)
          ≡ none)
        × (last_added host mode ps query ≡ none))
      ⊎ ((l : Literal) × (last_with
              (compute_hash host (normalize host mode query))
              (map (literal_of host mode) ps)
            ≡ some l)
          × (l.pattern ≡ normalize host mode query)
          × (last_added host mode ps query ≡ some l.pattern_id))
unfolding last_with last_added
last_literal host mode query [] none_meet = inl (refl, refl)
last_literal host mode query ((pattern, id) ∷ ps) (apart, none_meet) =
    let q = normalize host mode query in
    let p = normalize host mode pattern in
    elim (last_literal host mode query ps none_meet) [
      | inr (l, found, text, added) ↦ inr (l, rw found refl, text, rw added refl)
      | inl (nothing, not_added) ↦ elim (Bool-cases (compute_hash host p == compute_hash host q)) [
        | inl meet ↦
            let text : p ≡ q = apart (ground arith) in
            let same : same_bytes p q ≡ true =
              subst (λ t. same_bytes p t ≡ true) text (same_bytes_refl p) in
            inr (
              literal_of host mode (pattern, id),
              rw (nothing, meet) refl,
              text,
              rw (not_added, same) refl,
            )
        | inr differ ↦
            let other = differ_bytes host p q differ in
            inl (rw (nothing, differ) refl, rw (not_added, other) refl)
      ]
    ]
  where
    differ_bytes :
        (host : Host) (p q : List ℕ)
        → (compute_hash host p == compute_hash host q) ≡ false
        → same_bytes p q ≡ false
    differ_bytes host p q differ = elim (Bool-cases (same_bytes p q)) [
      | inl same ↦
          let text = same_bytes-eq p q same in
          let equal : compute_hash host p ≡ compute_hash host q = ap (compute_hash host) text in
          absurd (ground arith)
      | inr other ↦ other
    ]

-- For patterns added in turn to a new builder, at least one of them, all storable and with fewer than
-- 2^32 bytes in all: if build gives fewer than 2^32 bytes and no pattern of another text shares the
-- hash of the query, from_buffer accepts the bytes and lookup returns the id that was added last with
-- the text of the query, both normalized by the mode, and nothing if none was added.
pub lookup-added :
    (host : Host) (mode : MatchMode) (p : List ℕ × ℕ) (ps : List (List ℕ × ℕ))
    (mappings : List (ℕ × ℕ)) (query buffer : List ℕ)
    → Walks host
    → length (string_pool (map (literal_of host mode) (p ∷ ps))) < 2 ^ 32
    → ((l : Literal) → Member l (map (literal_of host mode) (p ∷ ps)) → Storable l)
    → NoCollision host mode (p ∷ ps) query
    → build host (add_patterns host (new mode) (p ∷ ps)) mappings ≡ ok buffer
    → length buffer < 2 ^ 32
    → (table : LiteralHash) × (from_buffer buffer mode ≡ ok table)
      × (lookup host table query ≡ ok (last_added host mode (p ∷ ps) query))
unfolding new
lookup-added host mode p ps mappings query buffer walks small storable apart built room =
    let (patterns, same_mode) = add_patterns-patterns host (new mode) (p ∷ ps) in
    let builder = add_patterns host (new mode) (p ∷ ps) in
    let (table, loaded, found) =
      lookup-build host builder mappings query buffer walks
        (subst (λ l. 0 < length l) (sym patterns) (omega arith))
        (subst (λ l. length (string_pool l) < 2 ^ 32) (sym patterns) small)
        (subst (λ l. (c : Literal) → Member c l → Storable c) (sym patterns) storable) built room in
    (
      table,
      subst (λ m. from_buffer buffer m ≡ ok table) same_mode loaded,
      found
          ∙ ap
              (λ m. ok (
                answer (last_with (compute_hash host (normalize host m query)) builder.patterns)
                  (normalize host m query)))
              same_mode
          ∙ ap
              (λ l. ok (
                answer (last_with (compute_hash host (normalize host mode query)) l)
                  (normalize host mode query)))
              patterns
          ∙ ap ok (answered (last_literal host mode query (p ∷ ps) apart)),
    )
  where
    answered :
        ((last_with
                (compute_hash host (normalize host mode query))
                (map (literal_of host mode) (p ∷ ps))
              ≡ none)
            × (last_added host mode (p ∷ ps) query ≡ none))
          ⊎ ((l : Literal) × (last_with
                  (compute_hash host (normalize host mode query))
                  (map (literal_of host mode) (p ∷ ps))
                ≡ some l)
              × (l.pattern ≡ normalize host mode query)
              × (last_added host mode (p ∷ ps) query ≡ some l.pattern_id))
        → answer
            (last_with
              (compute_hash host (normalize host mode query))
              (map (literal_of host mode) (p ∷ ps)))
            (normalize host mode query)
          ≡ last_added host mode (p ∷ ps) query
    answered (inl (nothing, not_added)) = rw (nothing, not_added) (unfold answer in refl)
    answered (inr (l, found, text, added)) =
        rw (found, added)
          (unfold answer in rw (text, same_bytes_refl (normalize host mode query)) refl)

last_with-append_end :
    (h : ℕ) (front : List Literal) (l : Literal)
    → l.hash ≡ h
    → last_with h (front ++ l ∷ []) ≡ some l
unfolding last_with
last_with-append_end h [] l same = let e : (l.hash == h) ≡ true = ground arith in rw e refl
last_with-append_end h (x ∷ front) l same = rw (last_with-append_end h front l same) refl

-- A case-sensitive builder with the patterns of `front`, to which two more are added.
unfoldable pub two_more : Host → List Literal → List ℕ × ℕ → List ℕ × ℕ → LiteralHashBuilder
unfolding add_patterns
two_more host front first second =
    add_patterns host (record { patterns = front; mode = case_sensitive }) (first ∷ second ∷ [])

-- Where two patterns with different text have the same hash and are added one after the other to a
-- case-sensitive builder, with whatever patterns before them, lookup in the built table finds nothing
-- for the first. The patterns are storable, and the strings and the table have less than 2^32 bytes.
pub lookup-collision :
    (host : Host) (front : List Literal) (a b : List ℕ) (i j : ℕ) (mappings : List (ℕ × ℕ))
    (buffer : List ℕ)
    → Walks host
    → compute_hash host a ≡ compute_hash host b
    → a ≢ b
    → length (string_pool (two_more host front (a, i) (b, j)).patterns) < 2 ^ 32
    → ((l : Literal) → Member l (two_more host front (a, i) (b, j)).patterns → Storable l)
    → build host (two_more host front (a, i) (b, j)) mappings ≡ ok buffer
    → length buffer < 2 ^ 32
    → (table : LiteralHash) × (from_buffer buffer case_sensitive ≡ ok table)
      × (lookup host table a ≡ ok none)
unfolding answer two_more add_pattern
lookup-collision host front a b i j mappings buffer walks meet apart small storable built room =
    let builder = two_more host front (a, i) (b, j) in
    let last = literal_of host case_sensitive (b, j) in
    let before = front ++ literal_of host case_sensitive (a, i) ∷ [] in
    let nonempty : 0 < length builder.patterns = omega (arith, length-append before (last ∷ [])) in
    let (table, loaded, found) =
      lookup-build host builder mappings a buffer walks nonempty small storable built room in
    let stays : last_with (compute_hash host a) (before ++ last ∷ []) ≡ some last =
      last_with-append_end (compute_hash host a) before last (sym meet) in
    let other : same_bytes b a ≡ false = elim (Bool-cases (same_bytes b a)) [
      | inl same ↦ absurd (apart (sym (same_bytes-eq b a same)))
      | inr differ ↦ differ
    ] in
    (table, loaded, found ∙ rw stays (rw other refl))
