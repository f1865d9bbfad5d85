-- ===== src/LiteralHash/Shards.antt =====
-- One shard (src/literal_hash.rs, `build_shard_auto_size`): its construction ends, and its table has
-- the last pattern of each hash.
use native.Mathlib.Nat.{pow-succ'}
use matchy.Base.{
  ℕ, zero, suc, ◌+◌, ◌-◌, ◌*◌, ◌/◌, ◌%◌, ◌^◌, ◌≤◌, ◌<◌, ◌≡◌, refl, sym, ap, ◌∙◌, subst, arith, List,
  [], ◌∷◌, ◌++◌, inl, inr, true, false, Bool-cases, length, get_elem?, leb, ltb, replicate,
  length-replicate, Option, none, some, ok, length-append,
}
use matchy.Base.Bits.{pow-pos}
use matchy.Base.Orders.{Member, Rearranges, Rearranges_sym, length-Rearranges, Member-Rearranges}
use matchy.LiteralHash.{
  HashEntry, Shard, Literal, Host, empty, is_empty, power_from, shard_capacity, fill_table,
  map_loop, string_pool, string_offsets, string_bytes, build_shard_auto_size,
}
use matchy.LiteralHash.Build.{count_entries}
use matchy.LiteralHash.Probe.{Reaches}
use matchy.LiteralHash.Fill.{Filled, fill_table-Filled, Member-onto, onto-cases}
use matchy.LiteralHash.Dictionary.{
  find_entry, Unique, latest, last_entry, find_entry-Member, Member-find_entry, find_entry-map_loop,
  map_loop-Unique, length-map_loop-le, last_entry-Pooled, length-string_bytes,
}

-- The documented behaviour of `into_iter`: each entry once, in some order.
pub record Walks (host : Host) : Type 0 where
  pub order : (es : List HashEntry) → Rearranges (host.into_iter es) es

-- The capacity is a power of two above the number of entries.
power_from_lem :
    (fuel j n : ℕ) → n ≤ 2 ^ j + fuel → (k : ℕ) × (power_from fuel (2 ^ j) n ≡ 2 ^ k) × (n ≤ 2 ^ k)
unfolding power_from
power_from_lem zero j n h = (j, refl, omega arith)
power_from_lem (suc fuel) j n h = elim (Bool-cases (leb n (2 ^ j))) [
  | inl enough ↦ (j, rw enough refl, ground arith)
  | inr small ↦
      let twice : 2 ^ suc j ≡ 2 * 2 ^ j = pow-succ' 2 j in
      let same : 2 ^ j * 2 ≡ 2 ^ suc j = omega arith in
      let (k, result, fits) = power_from_lem fuel (suc j) n (omega (arith, pow-pos j)) in
      (k, rw (small, same) result, fits)
]

pub shard_capacity-power : (n : ℕ) → 0 < n → (k : ℕ) × (shard_capacity n ≡ 2 ^ k) × (n < 2 ^ k)
unfolding shard_capacity
shard_capacity-power n some_entry =
    let needed = (5 * n + 2) / 3 in
    let (k, result, fits) = power_from_lem needed 0 needed (omega arith) in
    elim (Bool-cases (ltb (2 ^ k) 16)) [
      | inl small ↦ (4, rw result (ground arith), ground arith)
      | inr large ↦ (k, rw result (ground arith), ground arith)
    ]

is_empty-empty : is_empty empty ≡ true
unfolding is_empty
is_empty-empty = refl

get_elem?-replicate : (n i : ℕ) {e d : HashEntry} → get_elem? (replicate n e) i ≡ some d → e ≡ d
get_elem?-replicate zero i found = absurd (cc)
get_elem?-replicate (suc n) zero found = cc
get_elem?-replicate (suc n) (suc i) found = get_elem?-replicate n i found

count_entries-replicate : (n : ℕ) → count_entries (replicate n empty) ≡ 0
unfolding count_entries is_empty
count_entries-replicate zero = refl
count_entries-replicate (suc n) = omega (arith, count_entries-replicate n)

empty_table-Filled : (n : ℕ) → Filled n (replicate n empty) []
empty_table-Filled n = record {
  size = length-replicate n empty;
  reached = λ e m. elim m [ ];
  kept = λ i e found full.
      let same = get_elem?-replicate n i found in
      let blank : is_empty e ≡ true = subst (λ c. is_empty c ≡ true) same is_empty-empty in
      absurd (cc);
  blank = λ i e found _. sym (get_elem?-replicate n i found);
  counted = count_entries-replicate n;
}

pub record Serves (es : List Literal) (shard : Shard) : Type 0 where
  pub bits : ℕ
  pub size : length shard.table ≡ 2 ^ bits
  pub found :
      (h : ℕ) (r : HashEntry) → last_entry h 0 es ≡ some r → Reaches (2 ^ bits) shard.table r
  pub only :
      (i : ℕ) (e : HashEntry)
      → get_elem? shard.table i ≡ some e
      → is_empty e ≡ false
      → last_entry e.hash 0 es ≡ some e
  pub blank :
      (i : ℕ) (e : HashEntry) → get_elem? shard.table i ≡ some e → is_empty e ≡ true → e ≡ empty
  pub pool : shard.strings ≡ string_pool es

-- An entry of a pool that is not too large does not look empty.
pub last_entry-full :
    (es : List Literal) (h : ℕ) (r : HashEntry)
    → length (string_pool es) < 2 ^ 32
    → last_entry h 0 es ≡ some r
    → is_empty r ≡ false
unfolding is_empty
last_entry-full es h r small found =
    let p = last_entry-Pooled h 0 es r found in
    let e = p.entry in
    let sizes = ap length p.place in
    let size = length-string_bytes p.literal.pattern in
    let total = length-append p.front (string_bytes p.literal.pattern ++ p.rest) in
    let total' = length-append (string_bytes p.literal.pattern) p.rest in
    let offset : r.string_offset ≡ (0 + length p.front) % 2 ^ 32 = ap (λ c. c.string_offset) e in
    ground arith

build_shard_auto_size-fill :
    (host : Host) (shard_id k : ℕ) (e : Literal) (es : List Literal) {table : List HashEntry}
    → shard_capacity (length (e ∷ es)) ≡ 2 ^ k
    → fill_table
        (host.into_iter (map_loop (e ∷ es) (string_offsets 0 (e ∷ es)) []))
        (2 ^ k - 1)
        (replicate (2 ^ k) empty)
      ≡ ok table
    → build_shard_auto_size host shard_id (e ∷ es)
      ≡ ok (record { table = table; strings = string_pool (e ∷ es); shard_id = shard_id })
unfolding build_shard_auto_size
build_shard_auto_size-fill host shard_id k e es capacity filled = rw (capacity, filled) refl

pub build_shard_auto_size-Serves :
    (host : Host) (shard_id : ℕ) (e : Literal) (es : List Literal)
    → Walks host
    → length (string_pool (e ∷ es)) < 2 ^ 32
    → (shard : Shard) × (build_shard_auto_size host shard_id (e ∷ es) ≡ ok shard)
      × (shard.shard_id ≡ shard_id)
      × Serves (e ∷ es) shard
unfolding find_entry
build_shard_auto_size-Serves host shard_id e es walks small =
    let entries = e ∷ es in
    let pairs = map_loop entries (string_offsets 0 entries) [] in
    let (k, capacity, more) = shard_capacity-power (length entries) (omega arith) in
    let order = walks.order pairs in
    let unique : Unique pairs = map_loop-Unique (string_offsets 0 entries) entries [] tt in
    let looked : (h : ℕ) → find_entry h pairs ≡ last_entry h 0 entries =
      λ h. find_entry-map_loop h 0 entries [] ∙ no_earlier (last_entry h 0 entries) in
    let last : (d : HashEntry) → Member d pairs → last_entry d.hash 0 entries ≡ some d =
      λ d m. sym (looked d.hash) ∙ find_entry-Member pairs d unique m in
    let full : (d : HashEntry) → Member d (host.into_iter pairs) → is_empty d ≡ false =
      λ d m. last_entry-full entries d.hash d small (last d (Member-Rearranges order m)) in
    let few = length-map_loop-le (string_offsets 0 entries) entries [] in
    let as_many = length-Rearranges order in
    let (table, filled, all) =
      fill_table-Filled k (host.into_iter pairs) [] (replicate (2 ^ k) empty)
        (empty_table-Filled (2 ^ k)) (λ d m. elim m [ ]) full (omega arith) in
    (
      record { table = table; strings = string_pool entries; shard_id = shard_id },
      build_shard_auto_size-fill host shard_id k e es capacity filled,
      refl,
      record {
        bits = k;
        size = all.size;
        found = λ h r at.
            let (m, same) = Member-find_entry h pairs (looked h ∙ at) in
            all.reached r (Member-onto [] (Member-Rearranges (Rearranges_sym order) m));
        only = λ i d found taken.
            elim (onto-cases (host.into_iter pairs) [] (all.kept i d found taken)) [
              | inl m ↦ last d (Member-Rearranges order m)
              | inr m ↦ elim m [ ]
            ];
        blank = all.blank;
        pool = refl;
      },
    )
  where
    no_earlier : (o : Option HashEntry) → latest o none ≡ o
    no_earlier none = refl
    no_earlier (some r) = refl
