-- ===== src/LiteralHash/Fill.antt =====
-- The table of a shard once all entries are in it (src/literal_hash.rs, `build_shard_auto_size`).
use Prim.Native.Nat.{bit_and}
use matchy.Base.{
  ℕ, zero, suc, ◌+◌, ◌-◌, ◌%◌, ◌^◌, ◌<◌, ◌≡◌, refl, sym, ap, ◌∙◌, subst, arith, ℕ_discrete, List,
  [], ◌∷◌, ◌⊎◌, inl, inr, true, false, Bool-cases, length, get_elem?, set, get_elem?_lt,
  get_elem?-set_self, get_elem?-set_ne, length-set, some, ok,
}
use matchy.Base.Orders.{Member, here, later, Member-cases}
use matchy.Base.Bits.{bit_and_mask, pow-pos}
use matchy.LiteralHash.{HashEntry, empty, is_empty, free_slot, fill_table}
use matchy.LiteralHash.Build.{count_entries}
use matchy.LiteralHash.Probe.{Full, Free, Reaches, Full-ne-Free, free_slot-first, visits}

pub record Filled (capacity : ℕ) (table : List HashEntry) (es : List HashEntry) : Type 0 where
  pub size : length table ≡ capacity
  pub reached : (e : HashEntry) → Member e es → Reaches capacity table e
  pub kept : (i : ℕ) (e : HashEntry) → get_elem? table i ≡ some e → is_empty e ≡ false → Member e es
  pub blank : (i : ℕ) (e : HashEntry) → get_elem? table i ≡ some e → is_empty e ≡ true → e ≡ empty
  pub counted : count_entries table ≡ length es

-- A table with fewer entries than slots has a free slot.
spare_slot : (table : List HashEntry) → count_entries table < length table → (i : ℕ) × Free table i
unfolding count_entries
spare_slot [] less = absurd (omega arith)
spare_slot (e ∷ table) less = elim (Bool-cases (is_empty e)) [
  | inl vacant ↦ (0, (e, refl, vacant))
  | inr taken ↦
      let fewer : 1 + count_entries table < suc (length table) = rw taken at less in
      let (i, free) = spare_slot table (omega arith) in (suc i, free)
]

count_entries-set :
    (table : List HashEntry) (i : ℕ) (e : HashEntry)
    → Free table i
    → is_empty e ≡ false
    → count_entries (set table i e) ≡ count_entries table + 1
unfolding count_entries
count_entries-set [] i e (d, found, vacant) full = absurd (cc)
count_entries-set (x ∷ table) zero e (d, found, vacant) full =
    let same : x ≡ d = cc in rw (same, vacant, full) (omega arith)
count_entries-set (x ∷ table) (suc i) e free full =
    let ih = count_entries-set table i e free full in omega arith

module _ (table : List HashEntry) (i : ℕ) (e : HashEntry) where
  Full-set : (j : ℕ) → is_empty e ≡ false → Full table j → Full (set table i e) j
  Full-set j full (d, found, taken) = elim (ℕ_discrete i j) [
    | yes same ↦ (
      e,
      subst (λ n. get_elem? (set table i e) n ≡ some e) same
          (get_elem?-set_self table i e (rw same (get_elem?_lt table j found))),
      full,
    )
    | no other ↦ (d, get_elem?-set_ne table i j e other ∙ found, taken)
  ]

  -- An entry that a free slot gets does not hide the others.
  Reaches-set :
      (capacity : ℕ) (d : HashEntry)
      → is_empty e ≡ false
      → is_empty d ≡ false
      → Free table i
      → Reaches capacity table d
      → Reaches capacity (set table i e) d
  Reaches-set capacity d full full' free (far, below, found, passed) = (
    far,
    below,
    get_elem?-set_ne table i ((d.hash + far) % capacity) e (λ same.
          Full-ne-Free table ((d.hash + far) % capacity) i (d, found, full') free (sym same))
        ∙ found,
    λ j near. Full-set ((d.hash + j) % capacity) full (passed j near),
  )

  -- What is in the table afterwards.
  kept-set :
      (j : ℕ) (d : HashEntry) {es : List HashEntry}
      → i < length table
      → ((n : ℕ) (c : HashEntry) → get_elem? table n ≡ some c → is_empty c ≡ false → Member c es)
      → get_elem? (set table i e) j ≡ some d
      → is_empty d ≡ false
      → Member d (e ∷ es)
  kept-set j d {es} inside kept found full = elim (ℕ_discrete i j) [
    | yes same ↦
        let found' : some e ≡ some d =
          sym (get_elem?-set_self table i e inside) ∙ ap (get_elem? (set table i e)) same ∙ found in
        let this : e ≡ d = cc in subst (λ c. Member c (e ∷ es)) this here
    | no other ↦ later (kept j d (sym (get_elem?-set_ne table i j e other) ∙ found) full)
  ]

  blank-set :
      (j : ℕ) (d : HashEntry)
      → i < length table
      → is_empty e ≡ false
      → ((n : ℕ) (c : HashEntry) → get_elem? table n ≡ some c → is_empty c ≡ true → c ≡ empty)
      → get_elem? (set table i e) j ≡ some d
      → is_empty d ≡ true
      → d ≡ empty
  blank-set j d inside full blank found vacant = elim (ℕ_discrete i j) [
    | yes same ↦
        let found' : some e ≡ some d =
          sym (get_elem?-set_self table i e inside) ∙ ap (get_elem? (set table i e)) same ∙ found in
        let this : e ≡ d = cc in
        let contrary : is_empty e ≡ true = subst (λ c. is_empty c ≡ true) (sym this) vacant in
        absurd (cc)
    | no other ↦ blank j d (sym (get_elem?-set_ne table i j e other) ∙ found) vacant
  ]

-- The entries behind those that are there, the last one first.
unfoldable pub onto : List HashEntry → List HashEntry → List HashEntry
onto [] before = before
onto (e ∷ es) before = onto es (e ∷ before)

pub Member-onto_before :
    {e : HashEntry} (es before : List HashEntry) → Member e before → Member e (onto es before)
unfolding onto
Member-onto_before [] before m = m
Member-onto_before (x ∷ es) before m = Member-onto_before es (x ∷ before) (later m)

pub Member-onto :
    {e : HashEntry} {es : List HashEntry} (before : List HashEntry)
    → Member e es
    → Member e (onto es before)
unfolding onto
Member-onto {e} before (here {xs = es}) = Member-onto_before es (e ∷ before) here
Member-onto before (later {x = x} m) = Member-onto (x ∷ before) m

pub onto-cases :
    {e : HashEntry} (es before : List HashEntry)
    → Member e (onto es before)
    → Member e es ⊎ Member e before
unfolding onto
onto-cases [] before m = inr m
onto-cases {e} (x ∷ es) before m = elim (onto-cases es (x ∷ before) m) [
  | inl behind ↦ inl (later behind)
  | inr front ↦ elim (Member-cases front) [
    | inl same ↦ inl (subst (λ c. Member c (x ∷ es)) (sym same) here)
    | inr old ↦ inr old
  ]
]

module _ (k : ℕ) where
  -- One entry more.
  add_entry :
      (table es : List HashEntry) (e : HashEntry)
      → Filled (2 ^ k) table es
      → ((d : HashEntry) → Member d es → is_empty d ≡ false)
      → is_empty e ≡ false
      → length es < 2 ^ k
      → (s : ℕ) × (free_slot (2 ^ k) table (2 ^ k - 1) (bit_and e.hash (2 ^ k - 1)) ≡ ok s)
        × Filled (2 ^ k) (set table s e) (e ∷ es)
  add_entry table es e filled fulls full room =
      let len = filled.size in
      let counted = filled.counted in
      let (i, free) = spare_slot table (rw (counted, len) room) in
      let (_, found, _) = free in
      let below : i < 2 ^ k = subst (λ n. i < n) len (get_elem?_lt table i found) in
      let (d, near, at_i) = visits k e.hash i below in
      let start : (e.hash + 0) % 2 ^ k ≡ bit_and e.hash (2 ^ k - 1) =
        ap (λ n. n % 2 ^ k) (omega arith) ∙ sym (bit_and_mask k e.hash) in
      let (s, result, _, upto, vacant, passed) =
        free_slot-first k table e.hash len (2 ^ k) 0 d (omega arith) (omega arith)
          (subst (Free table) (sym at_i) free) in
      let slot = (e.hash + s) % 2 ^ k in
      let (_, found', _) = vacant in
      let inside : slot < length table = get_elem?_lt table slot found' in
      (
        slot,
        subst (λ p. free_slot (2 ^ k) table (2 ^ k - 1) p ≡ ok slot) start result,
        record {
          size = length-set table slot e ∙ len;
          reached = λ c m. member c m slot vacant (
            s,
            omega arith,
            get_elem?-set_self table slot e inside,
            λ j near.
                Full-set table slot e ((e.hash + j) % 2 ^ k) full (passed j (omega arith) near),
          );
          kept = λ j c. kept-set table slot e j c inside filled.kept;
          blank = λ j c. blank-set table slot e j c inside full filled.blank;
          counted = count_entries-set table slot e vacant full ∙ omega arith;
        },
      )
    where
      member :
          (c : HashEntry)
          → Member c (e ∷ es)
          → (slot : ℕ) → Free table slot
          → Reaches (2 ^ k) (set table slot e) e
          → Reaches (2 ^ k) (set table slot e) c
      member c m slot vacant r = elim (Member-cases m) [
        | inl same ↦ subst (Reaches (2 ^ k) (set table slot e)) (sym same) r
        | inr old ↦
            Reaches-set table slot e (2 ^ k) c full (fulls c old) vacant (filled.reached c old)
      ]

  pub fill_table-Filled :
      (es before table : List HashEntry)
      → Filled (2 ^ k) table before
      → ((d : HashEntry) → Member d before → is_empty d ≡ false)
      → ((d : HashEntry) → Member d es → is_empty d ≡ false)
      → length before + length es < 2 ^ k
      → (t : List HashEntry) × (fill_table es (2 ^ k - 1) table ≡ ok t)
        × Filled (2 ^ k) t (onto es before)
  unfolding fill_table onto
  fill_table-Filled [] before table filled olds news room = (table, refl, filled)
  fill_table-Filled (e ∷ es) before table filled olds news room =
      let full = news e here in
      let (s, slot, filled') = add_entry table before e filled olds full (omega arith) in
      let olds' : (d : HashEntry) → Member d (e ∷ before) → is_empty d ≡ false =
        λ d m. grown d m full in
      let (t, rest, all) =
        fill_table-Filled es (e ∷ before) (set table s e) filled' olds' (λ d m. news d (later m))
          (omega arith) in
      let rounds : 2 ^ k - 1 + 1 ≡ 2 ^ k = omega (arith, pow-pos k) in
      (t, rw (rounds, slot) rest, all)
    where
      grown : (d : HashEntry) → Member d (e ∷ before) → is_empty e ≡ false → is_empty d ≡ false
      grown d m full = elim (Member-cases m) [
        | inl same ↦ subst (λ c. is_empty c ≡ false) (sym same) full
        | inr old ↦ olds d old
      ]
