-- ===== src/LiteralHash/Examples.antt =====
-- Concrete runs of the literal hash table (src/literal_hash.rs). The hash is the sum of the bytes, and
-- the map is walked in the order of insertion.
use matchy.Base.{
  ℕ, ◌+◌, ◌^◌, ◌<◌, ◌≡◌, ◌≢◌, ◌⊎◌, inl, inr, refl, sym, subst, arith, ◌++◌, List, [], ◌∷◌, length,
  some, none, Result, ok, err, map, ltb→lt, ◌>>=◌,
}
use matchy.Base.Results.{panic, invalid_pattern}
use matchy.Base.Orders.{Member, here, later, Member-cases, Rearranges_refl}
use matchy.Base.LittleEndian.{to_le_bytes, from_le_bytes}
use matchy.DataSection.Decode.{utf8_from}
use matchy.Glob.{case_sensitive, case_insensitive, to_ascii_lowercase}
use matchy.LiteralHash.{
  Literal, LiteralHashBuilder, LiteralHashHeader, Host, literal_hash_magic, compute_hash, new,
  string_bytes, string_pool, map_insert,
}
use matchy.LiteralHash.Build.{offset_bytes, header_bytes, build}
use matchy.LiteralHash.Table.{LiteralHash, from_buffer, lookup, get_data_offset}
use matchy.LiteralHash.Dictionary.{last_with}
use matchy.LiteralHash.Shards.{Walks}
use matchy.LiteralHash.ShardLookup.{Storable, answer}
use matchy.LiteralHash.Answers.{build-total, lookup-build}
use matchy.LiteralHash.Added.{
  add_patterns, last_added, literal_of, two_more, lookup-added, lookup-collision,
}
use matchy.LiteralHash.Mappings.{first_mapping, get_data_offset-build}
use matchy.LiteralHash.Faults.{from_buffer-Refusable, lookup-no_shards}

sum_bytes : List ℕ → ℕ → ℕ
sum_bytes [] seed = seed
sum_bytes (b ∷ bs) seed = b + sum_bytes bs seed

abbrev host : Host
host = record {
  xxh64 = sum_bytes;
  to_lowercase = map to_ascii_lowercase;
  into_iter = λ es. es;
  parallelism = 5;
}

host-Walks : Walks host
host-Walks = record { order = λ es. Rearranges_refl es }

running : Unit {0}
unfolding sum_bytes build lookup from_buffer get_data_offset add_patterns two_more new last_with
    last_added answer first_mapping to_ascii_lowercase string_pool to_le_bytes header_bytes
    offset_bytes compute_hash map_insert string_bytes from_le_bytes utf8_from
running = tt

-- "evil", "Ab"
abbrev evil : List ℕ
evil = 101 ∷ 118 ∷ 105 ∷ 108 ∷ []

abbrev ab : List ℕ
ab = 65 ∷ 98 ∷ []

abbrev ba : List ℕ
ba = 98 ∷ 65 ∷ []

abbrev contents : Result (List ℕ) → List ℕ
contents (ok bytes) = bytes
contents (err why) = []

abbrev mappings : List (ℕ × ℕ)
mappings = (7, 100) ∷ (8, 200) ∷ []

abbrev two : LiteralHashBuilder
two = add_patterns host (new case_insensitive) ((evil, 7) ∷ (ab, 8) ∷ [])

abbrev two_bytes : List ℕ
two_bytes = contents (build host two mappings)

two_built : build host two mappings ≡ ok two_bytes
unfolding running
two_built = refl

two_small : length two_bytes < 2 ^ 32
unfolding running
two_small = ltb→lt (length two_bytes) (2 ^ 32) refl

-- Lookups, one in another case, and the data offset of an id.
found_ab : (from_buffer two_bytes case_insensitive >>= λ t. lookup host t ba) ≡ ok none
unfolding running
found_ab = refl

found_evil :
    (from_buffer two_bytes case_insensitive >>= λ t. lookup host t (69 ∷ 118 ∷ 105 ∷ 76 ∷ []))
    ≡ ok (some 7)
unfolding running
found_evil = refl

found_mapping :
    (from_buffer two_bytes case_insensitive >>= λ t. get_data_offset t 8) ≡ ok (some 200)
unfolding running
found_mapping = refl

evil-Storable : Storable (literal_of host case_insensitive (evil, 7))
unfolding running
evil-Storable = record { hash = omega arith; id = omega arith; short = omega arith; valid = refl }

ab-Storable : Storable (literal_of host case_insensitive (ab, 8))
unfolding running
ab-Storable = record { hash = omega arith; id = omega arith; short = omega arith; valid = refl }

two-Storable :
    (l : Literal)
    → Member l (map (literal_of host case_insensitive) ((evil, 7) ∷ (ab, 8) ∷ []))
    → Storable l
two-Storable _ here = evil-Storable
two-Storable _ (later here) = ab-Storable
two-Storable _ (later (later m)) = elim m [ ]

pool_small :
    length (string_pool (map (literal_of host case_insensitive) ((evil, 7) ∷ (ab, 8) ∷ [])))
    < 2 ^ 32
unfolding running
pool_small = ltb→lt _ (2 ^ 32) refl

build-total_example : (buffer : List ℕ) × (build host two mappings ≡ ok buffer)
unfolding running
build-total_example = build-total host two mappings host-Walks pool_small

lookup-build_example :
    (table : LiteralHash) × (from_buffer two_bytes case_insensitive ≡ ok table)
    × (lookup host table evil ≡ ok (some 7))
unfolding running
lookup-build_example =
    lookup-build host two mappings evil two_bytes host-Walks (omega arith) pool_small two-Storable
      two_built two_small

lookup-added_example :
    (table : LiteralHash) × (from_buffer two_bytes case_insensitive ≡ ok table)
    × (lookup host table evil ≡ ok (some 7))
unfolding running
lookup-added_example =
    lookup-added host case_insensitive (evil, 7) ((ab, 8) ∷ []) mappings evil two_bytes host-Walks
      pool_small two-Storable ((λ _. refl), ((λ meet. absurd (omega arith)), tt)) two_built
      two_small

get_data_offset-build_example :
    (table : LiteralHash) × (from_buffer two_bytes case_insensitive ≡ ok table)
    × (get_data_offset table 8 ≡ ok (some 200))
unfolding running
get_data_offset-build_example =
    get_data_offset-build host two mappings 8 two_bytes host-Walks (omega arith) pool_small
      (omega arith) two_built two_small

-- "Ab" and "bA" have the same sum.
abbrev clash : LiteralHashBuilder
clash = two_more host [] (ab, 1) (ba, 2)

abbrev clash_bytes : List ℕ
clash_bytes = contents (build host clash [])

clash_built : build host clash [] ≡ ok clash_bytes
unfolding running
clash_built = refl

clash_small : length clash_bytes < 2 ^ 32
unfolding running
clash_small = ltb→lt (length clash_bytes) (2 ^ 32) refl

clash-Storable : (l : Literal) → Member l (two_more host [] (ab, 1) (ba, 2)).patterns → Storable l
unfolding running
clash-Storable l m = elim (Member-cases m) [
  | inl first ↦
      subst Storable (sym first)
        (record { hash = omega arith; id = omega arith; short = omega arith; valid = refl })
  | inr rest ↦ elim (Member-cases rest) [
    | inl second ↦
        subst Storable (sym second)
          (record { hash = omega arith; id = omega arith; short = omega arith; valid = refl })
    | inr none_left ↦ elim none_left [ ]
  ]
]

ab-ne-ba : ab ≢ ba
ab-ne-ba same = cc

lookup-collision_example :
    (table : LiteralHash) × (from_buffer clash_bytes case_sensitive ≡ ok table)
    × (lookup host table ab ≡ ok none)
unfolding running
lookup-collision_example =
    lookup-collision host [] ab ba 1 2 [] clash_bytes host-Walks refl ab-ne-ba
      (ltb→lt _ (2 ^ 32) refl) clash-Storable clash_built clash_small

from_buffer-Refusable_example :
    ((table : LiteralHash) × (from_buffer (1 ∷ 2 ∷ []) case_sensitive ≡ ok table))
    ⊎ (from_buffer (1 ∷ 2 ∷ []) case_sensitive ≡ err invalid_pattern)
from_buffer-Refusable_example = from_buffer-Refusable (1 ∷ 2 ∷ []) case_sensitive

abbrev no_shards : LiteralHashHeader
no_shards = record {
  magic = literal_hash_magic;
  version = 1;
  entry_count = 0;
  table_size = 0;
  strings_offset = 36;
  strings_size = 0;
  num_shards = 0;
  shard_bits = 0;
}

lookup-no_shards_example :
    (table : LiteralHash) × (from_buffer
        (header_bytes no_shards ++ offset_bytes (0 ∷ []))
        case_sensitive
      ≡ ok table)
    × (lookup host table evil ≡ err panic)
lookup-no_shards_example =
    lookup-no_shards host no_shards 0 case_sensitive evil refl refl
      (record {
        version = omega arith;
        entry_count = omega arith;
        table_size = omega arith;
        strings_offset = omega arith;
        strings_size = omega arith;
        num_shards = omega arith;
        shard_bits = omega arith;
      })
      refl (omega arith)
