-- ===== src/LiteralHash/Buckets.antt =====
-- The patterns of each shard, and the batches in which the shards are built (src/literal_hash.rs).
use matchy.Base.{
  ℕ, zero, suc, ◌+◌, ◌-◌, ◌%◌, ◌≤◌, ◌<◌, ◌≡◌, refl, sym, ap, ◌∙◌, subst, arith, ◌==◌, List, [], ◌∷◌,
  ◌++◌, inl, inr, true, Bool-cases, length, length-append, take, drop, get_elem?, Option, none,
  some, if◌then◌else◌, append_assoc, append-nil, Result, ok, err, ◌>>=◌, take-append-drop,
}
use matchy.Base.Orders.{Member, here, later, Member-cases}
use matchy.LiteralHash.{Shard, Literal, Host, string_pool, string_bytes, build_shard_auto_size}
use matchy.LiteralHash.Build.{push_at, partition, build_chunk, build_batches}
use matchy.LiteralHash.Dictionary.{last_with, latest}

-- The patterns of one shard, in the order in which they were added.
unfoldable pub in_shard : ℕ → ℕ → List Literal → List Literal
in_shard num_shards i [] = []
in_shard num_shards i (e ∷ es) =
    let rest = in_shard num_shards i es in if e.hash % num_shards == i then e ∷ rest else rest

get_elem?-push_at :
    (buckets : List (List Literal)) (i j : ℕ) (e : Literal) {bucket : List Literal}
    → get_elem? buckets i ≡ some bucket
    → get_elem? (push_at buckets j e) i ≡ some (if j == i then bucket ++ e ∷ [] else bucket)
unfolding push_at
get_elem?-push_at [] i j e found = absurd (cc)
get_elem?-push_at (b ∷ buckets) zero zero e found = ground arith
get_elem?-push_at (b ∷ buckets) zero (suc j) e found = ground arith
get_elem?-push_at (b ∷ buckets) (suc i) zero e found = ground arith
get_elem?-push_at (b ∷ buckets) (suc i) (suc j) e found =
    ground (arith, get_elem?-push_at buckets i j e found)

length-push_at :
    (buckets : List (List Literal)) (j : ℕ) (e : Literal)
    → length (push_at buckets j e) ≡ length buckets
unfolding push_at
length-push_at [] j e = refl
length-push_at (b ∷ buckets) zero e = refl
length-push_at (b ∷ buckets) (suc j) e = ap suc (length-push_at buckets j e)

pub length-partition :
    (n : ℕ) (es : List Literal) (buckets : List (List Literal))
    → length (partition n es buckets) ≡ length buckets
unfolding partition
length-partition n [] buckets = refl
length-partition n (e ∷ es) buckets =
    length-partition n es (push_at buckets (e.hash % n) e) ∙ length-push_at buckets (e.hash % n) e

pub get_elem?-partition :
    (n i : ℕ) (es : List Literal) (buckets : List (List Literal)) (bucket : List Literal)
    → get_elem? buckets i ≡ some bucket
    → get_elem? (partition n es buckets) i ≡ some (bucket ++ in_shard n i es)
unfolding partition in_shard
get_elem?-partition n i [] buckets bucket found = found ∙ ap some (sym (append-nil bucket))
get_elem?-partition n i (e ∷ es) buckets bucket found =
    let pushed = get_elem?-push_at buckets i (e.hash % n) e found in
    elim (Bool-cases (e.hash % n == i)) [
      | inl home ↦ rw home (
          get_elem?-partition n i es (push_at buckets (e.hash % n) e) (bucket ++ e ∷ [])
            (pushed ∙ rw home refl)
          ∙ ap some (append_assoc bucket (e ∷ []) (in_shard n i es)))
      | inr away ↦ rw away (
          get_elem?-partition n i es (push_at buckets (e.hash % n) e) bucket
            (pushed ∙ rw away refl))
    ]

-- A hash is looked for in its own shard.
pub last_with-in_shard :
    (n h : ℕ) (es : List Literal) → last_with h (in_shard n (h % n) es) ≡ last_with h es
unfolding last_with in_shard
last_with-in_shard n h [] = refl
last_with-in_shard n h (e ∷ es) =
    let ih = last_with-in_shard n h es in
    elim (Bool-cases (e.hash == h)) [
      | inl same ↦
          let equal : e.hash ≡ h = ground arith in
          let home : (e.hash % n == h % n) ≡ true = rw equal (ground arith) in
          rw (home, same, ih) refl
      | inr other ↦ elim (Bool-cases (e.hash % n == h % n)) [
        | inl home ↦ rw (home, other, ih) refl
        | inr away ↦ rw (away, other, ih) (sym (no_more (last_with h es)))
      ]
    ]
  where
    no_more : (o : Option Literal) → latest o none ≡ o
    no_more none = refl
    no_more (some l) = refl

pub Member-in_shard :
    (n i : ℕ) (es : List Literal) {l : Literal} → Member l (in_shard n i es) → Member l es
unfolding in_shard
Member-in_shard n i [] m = m
Member-in_shard n i (e ∷ es) {l} m = elim (Bool-cases (e.hash % n == i)) [
  | inl home ↦ elim (Member-cases (rw home at m)) [
    | inl same ↦ subst (λ c. Member c (e ∷ es)) (sym same) here
    | inr old ↦ later (Member-in_shard n i es old)
  ]
  | inr away ↦ later (Member-in_shard n i es (rw away at m))
]

pub length-in_shard-pool :
    (n i : ℕ) (es : List Literal) → length (string_pool (in_shard n i es)) ≤ length (string_pool es)
unfolding in_shard string_pool
length-in_shard-pool n i [] = omega arith
length-in_shard-pool n i (e ∷ es) =
    let ih = length-in_shard-pool n i es in
    let whole = length-append (string_bytes e.pattern) (string_pool es) in
    let part = length-append (string_bytes e.pattern) (string_pool (in_shard n i es)) in
    elim (Bool-cases (e.hash % n == i)) [
      | inl home ↦ rw home (omega arith)
      | inr away ↦ rw away (omega arith)
    ]

-- The batches change nothing.
build_chunk-append :
    (host : Host) (xs ys : List (List Literal)) (k : ℕ)
    → build_chunk host k (xs ++ ys)
      ≡ (build_chunk host k xs >>= λ a. build_chunk host (k + length xs) ys >>= λ b. ok (a ++ b))
unfolding build_chunk
build_chunk-append host [] ys k =
    let e : k + 0 ≡ k = omega arith in rw e (sym (unchanged (build_chunk host k ys)))
  where
    unchanged : (r : Result (List Shard)) → (r >>= λ b. ok b) ≡ r
    unchanged (err why) = refl
    unchanged (ok b) = refl
build_chunk-append host (x ∷ xs) ys k =
    let e : k + 1 + length xs ≡ k + length (x ∷ xs) = omega arith in
    let ih = build_chunk-append host xs ys (k + 1) in
    rw ih (
      rw e (
        regroup (build_shard_auto_size host k x) (build_chunk host (k + 1) xs)
          (build_chunk host (k + length (x ∷ xs)) ys)))
  where
    regroup :
        (r : Result Shard) (s t : Result (List Shard))
        → (r >>= λ a. s >>= (λ b. t >>= λ c. ok (b ++ c)) >>= λ d. ok (a ∷ d))
          ≡ ((r >>= λ a. s >>= λ b. ok (a ∷ b)) >>= λ f. t >>= λ c. ok (f ++ c))
    regroup (err why) s t = refl
    regroup (ok a) (err why) t = refl
    regroup (ok a) (ok b) (err why) = refl
    regroup (ok a) (ok b) (ok c) = refl

length-drop {ℓ} : {A : Type ℓ} (n : ℕ) (xs : List A) → length (drop n xs) ≡ length xs - n
length-drop zero xs = omega arith
length-drop (suc n) [] = omega arith
length-drop (suc n) (x ∷ xs) = omega (arith, length-drop n xs)

length-take {ℓ} :
    {A : Type ℓ} (n : ℕ) (xs : List A) (y : A) (ys : List A)
    → drop n xs ≡ y ∷ ys
    → length (take n xs) ≡ n
length-take zero xs y ys more = refl
length-take (suc n) [] y ys more = absurd (cc)
length-take (suc n) (x ∷ xs) y ys more = ap suc (length-take n xs y ys more)

-- Behind the last batch there is nothing, and before it each batch is whole.
build_rest :
    (host : Host) (start n : ℕ) (xs : List (List Literal))
    → build_chunk host (start + length (take n xs)) (drop n xs)
      ≡ build_chunk host (start + n) (drop n xs)
unfolding build_chunk
build_rest host start n xs = cases (drop n xs) refl
  where
    cases :
        (rest : List (List Literal))
        → drop n xs ≡ rest
        → build_chunk host (start + length (take n xs)) (drop n xs)
          ≡ build_chunk host (start + n) (drop n xs)
    cases [] none_left = rw none_left refl
    cases (y ∷ ys) more = rw (length-take n xs y ys more) refl

pub build_batches-build_chunk :
    (fuel : ℕ) (host : Host) (batch_size start : ℕ) (buckets : List (List Literal))
    → 0 < batch_size
    → length buckets ≤ fuel
    → build_batches fuel host batch_size start buckets ≡ build_chunk host start buckets
unfolding build_batches
build_batches-build_chunk zero host size start [] some_size room = unfold build_chunk in refl
build_batches-build_chunk (suc fuel) host size start [] some_size room = unfold build_chunk in refl
build_batches-build_chunk zero host size start (b ∷ bs) some_size room = absurd (omega arith)
build_batches-build_chunk (suc fuel) host size start (b ∷ bs) some_size room =
    let all = b ∷ bs in
    let ih =
      build_batches-build_chunk fuel host size (start + size) (drop size all) some_size
        (omega (arith, length-drop size all)) in
    rw ih (
      rw (← build_rest host start size all) (
        sym (build_chunk-append host (take size all) (drop size all) start)
        ∙ ap (build_chunk host start) (take-append-drop size all)))
