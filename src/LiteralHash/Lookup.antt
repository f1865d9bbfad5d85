-- ===== src/LiteralHash/Lookup.antt =====
-- Lookup in a table that the builder wrote (src/literal_hash.rs, `build`, `from_buffer`, `lookup`).
use Prim.Native.Nat.{bit_and}
use matchy.Base.{
  ℕ, ◌+◌, ◌-◌, ◌%◌, ◌^◌, ◌≤◌, ◌<◌, ◌≡◌, refl, sym, ap, ◌∙◌, subst, arith, ◌==◌, leb, List, [], ◌∷◌,
  ◌++◌, true, false, length, length-append, get_elem?, get_elem?_lt, get_elem?-append_left,
  get_elem?-append_right, replicate, length-replicate, none, some, ok, if◌then◌else◌,
}
use matchy.Base.Bits.{pow-pos}
use matchy.Base.Orders.{Member}
use matchy.DataSection.Buffer.{Stands, Stands-left, Stands-right}
use matchy.Glob.{MatchMode}
use matchy.LiteralHash.{Shard, Literal, Host, compute_hash, normalize, string_pool}
use matchy.LiteralHash.Build.{adjust, final_table, final_string_pool, shard_offsets_of}
use matchy.LiteralHash.Table.{LiteralHash, shard_offset, probe, lookup}
use matchy.LiteralHash.Dictionary.{last_with}
use matchy.LiteralHash.Shards.{Serves}
use matchy.LiteralHash.Layout.{
  ShardOf, entries_in, bytes_in, length-final_table, length-final_string_pool, final_table-split,
  final_string_pool-split, entries_in-split,
}
use matchy.LiteralHash.Offsets.{Ids, offsets_around}
use matchy.LiteralHash.Reading.{read_entry-entry_bytes, length-entry_bytes}
use matchy.LiteralHash.Search.{Holds}
use matchy.LiteralHash.ShardLookup.{Storable, answer, probe-answer, moved-InRange}
use matchy.LiteralHash.Loading.{Sections}

-- The steps of `lookup` up to the loop.
lookup_steps :
    (host : Host) (table : LiteralHash) (query normalized : List ℕ) (start stop : ℕ)
    → normalize host table.mode query ≡ normalized
    → 0 < table.header.num_shards
    → get_elem? table.shard_offsets (compute_hash host normalized % table.header.num_shards)
      ≡ some start
    → get_elem? table.shard_offsets (compute_hash host normalized % table.header.num_shards + 1)
      ≡ some stop
    → start ≤ stop
    → lookup host table query ≡ (
        if stop - start == 0
        then ok none
        else probe
            (stop - start)
            table
            (compute_hash host normalized)
            normalized
            start
            (stop - start - 1)
            (start + bit_and (compute_hash host normalized) (stop - start - 1)))
unfolding lookup shard_offset
lookup_steps host table query normalized start stop same some_shard first last order =
    let nonzero : (table.header.num_shards == 0) ≡ false = ground arith in
    let ordered : leb start stop ≡ true = ground arith in
    simp (same, nonzero, shard_offset, first, last, ordered)

module _ (host : Host) (table : LiteralHash) (bits : ℕ) (before : List Shard) (shard : Shard)
    (behind : List Shard) (mappings : List (ℕ × ℕ)) (mode : MatchMode)
    (sections : Sections table bits (before ++ shard ∷ behind) mappings mode) where
  -- All sizes have 32 bits.
  sizes :
      (bytes_in (before ++ shard ∷ behind) < 2 ^ 32)
      × (entries_in (before ++ shard ∷ behind) < 2 ^ 32)
  sizes =
      let small = sections.small in
      let room = sections.entries.room in
      let room' = sections.strings.room in
      let count = length-entry_bytes (final_table 0 (before ++ shard ∷ behind)) in
      let same = length-final_table 0 (before ++ shard ∷ behind) in
      let pool = length-final_string_pool (before ++ shard ∷ behind) in (omega arith, omega arith)

  pool_parts :
      bytes_in (before ++ shard ∷ behind) ≡ bytes_in before + length shard.strings + bytes_in behind
  pool_parts =
      let whole = length-final_string_pool (before ++ shard ∷ behind) in
      let split = ap length (final_string_pool-split before shard behind) in
      let outer =
        length-append (final_string_pool before) (shard.strings ++ final_string_pool behind) in
      let inner = length-append shard.strings (final_string_pool behind) in
      omega (arith, length-final_string_pool before, length-final_string_pool behind)

  -- The entries of the shard, where the joined table has them.
  shard-Holds :
      (e : Literal) (es : List Literal)
      → Serves (e ∷ es) shard
      → ((l : Literal) → Member l (e ∷ es) → Storable l)
      → (strings : Stands table.buffer
          (table.strings_start + bytes_in before)
          (string_pool (e ∷ es)))
      → (small : bytes_in before + length (string_pool (e ∷ es)) < 2 ^ 32)
      → Holds table (entries_in before) (adjust (bytes_in before) shard.table)
  shard-Holds e es serves storable strings small j c found =
      let (rest, split) = final_table-split 0 before shard behind (omega arith) in
      let zero_first : 0 + bytes_in before ≡ bytes_in before = omega arith in
      let split' : final_table 0 (before ++ shard ∷ behind)
          ≡ final_table 0 before ++ (adjust (bytes_in before) shard.table ++ rest) =
        split ∙ ap (λ p. final_table 0 before ++ (adjust p shard.table ++ rest)) zero_first in
      let front = length-final_table 0 before in
      let below = get_elem?_lt (adjust (bytes_in before) shard.table) j found in
      let there : get_elem? (final_table 0 (before ++ shard ∷ behind)) (entries_in before + j)
          ≡ some c =
        ap (λ t. get_elem? t (entries_in before + j)) split'
        ∙ ap
            (λ k.
              get_elem? (final_table 0 before ++ (adjust (bytes_in before) shard.table ++ rest))
                (k + j))
            (sym front)
        ∙ get_elem?-append_right (final_table 0 before)
            (adjust (bytes_in before) shard.table ++ rest) j
        ∙ get_elem?-append_left (adjust (bytes_in before) shard.table) rest j below
        ∙ found in
      read_entry-entry_bytes (final_table 0 (before ++ shard ∷ behind)) table.table_start
        (entries_in before + j) table.buffer c sections.entries there
        (moved-InRange table (e ∷ es) (bytes_in before) [] storable strings small shard j c serves
          found)

  -- A lookup whose hash belongs to the shard.
  pub lookup-answer :
      (es : List Literal) (query : List ℕ)
      → ShardOf es shard
      → ((l : Literal) → Member l es → Storable l)
      → Ids 0 (before ++ shard ∷ behind)
      → length (before ++ shard ∷ behind) ≡ 2 ^ bits
      → length before ≡ compute_hash host (normalize host mode query) % 2 ^ bits
      → lookup host table query
        ≡ ok (
            answer
              (last_with (compute_hash host (normalize host mode query)) es)
              (normalize host mode query))
  unfolding answer last_with shard_offsets_of
  lookup-answer es query served storable ids count place =
      let q = normalize host mode query in
      let h = compute_hash host q in
      let start = entries_in before in
      let (bytes, entries) = sizes in
      let parts = entries_in-split before shard behind in
      let offsets = shard_offsets_of (2 ^ bits) (before ++ shard ∷ behind) in
      let zeros = length-replicate {A = ℕ} (2 ^ bits + 1) 0 in
      let around =
        offsets_around (2 ^ bits) 0 0 before shard behind (replicate (2 ^ bits + 1) 0) ids
          (omega arith) (omega (arith, zeros)) (omega arith) in
      let num = sections.num_shards in
      let same_mode : normalize host table.mode query ≡ q =
        ap (λ m. normalize host m query) sections.same_mode in
      let id : 0 + length before ≡ h % table.header.num_shards =
        omega arith ∙ place ∙ ap (λ n. h % n) (sym num) in
      let zero_first : 0 + start ≡ start = omega arith in
      let stop_sum : 0 + start + length shard.table ≡ start + length shard.table = omega arith in
      let first : get_elem? table.shard_offsets (h % table.header.num_shards) ≡ some start =
        ap (λ o. get_elem? o (h % table.header.num_shards)) sections.offsets
        ∙ ap (get_elem? offsets) (sym id)
        ∙ around.0
        ∙ ap some zero_first in
      let last : get_elem? table.shard_offsets (h % table.header.num_shards + 1)
          ≡ some (start + length shard.table) =
        ap (λ o. get_elem? o (h % table.header.num_shards + 1)) sections.offsets
        ∙ ap (λ i. get_elem? offsets (i + 1)) (sym id)
        ∙ around.1
        ∙ ap some stop_sum in
      let steps =
        lookup_steps host table query q start (start + length shard.table) same_mode
          (omega (arith, pow-pos bits)) first last (omega arith) in
      let capacity : start + length shard.table - start ≡ length shard.table = omega arith in
      steps ∙ rw capacity (by_bucket es served storable)
    where
      by_bucket :
          (es : List Literal)
          → ShardOf es shard
          → ((l : Literal) → Member l es → Storable l)
          → (if length shard.table == 0
              then ok none
              else probe
                  (length shard.table)
                  table
                  (compute_hash host (normalize host mode query))
                  (normalize host mode query)
                  (entries_in before)
                  (length shard.table - 1)
                  (entries_in before
                    + bit_and
                        (compute_hash host (normalize host mode query))
                        (length shard.table - 1)))
            ≡ ok (
                answer
                  (last_with (compute_hash host (normalize host mode query)) es)
                  (normalize host mode query))
      by_bucket [] (no_table, _) storable = rw no_table refl
      by_bucket (e ∷ es) serves storable =
          let q = normalize host mode query in
          let (bytes, _) = sizes in
          let split = final_string_pool-split before shard behind in
          let joined = subst (Stands table.buffer table.strings_start) split sections.strings in
          let own = Stands-left shard.strings (final_string_pool behind) (
            Stands-right (final_string_pool before) (shard.strings ++ final_string_pool behind)
              table.strings_start joined) in
          let moved_to =
            subst (λ n. Stands table.buffer (table.strings_start + n) shard.strings)
              (length-final_string_pool before) own in
          let strings : Stands table.buffer (table.strings_start + bytes_in before)
              (string_pool (e ∷ es)) =
            subst (Stands table.buffer (table.strings_start + bytes_in before)) serves.pool
              moved_to in
          let same = ap length serves.pool in
          let small : bytes_in before + length (string_pool (e ∷ es)) < 2 ^ 32 =
            omega (arith, pool_parts) in
          let holds = shard-Holds e es serves storable strings small in
          let found =
            probe-answer table (e ∷ es) (bytes_in before) q storable strings small shard
              (entries_in before) (compute_hash host q) serves holds in
          let some_slot : (2 ^ serves.bits == 0) ≡ false = ground (arith, pow-pos serves.bits) in
          rw (serves.size, some_slot) found
