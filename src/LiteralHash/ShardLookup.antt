-- ===== src/LiteralHash/ShardLookup.antt =====
-- A search in the bytes of one shard (src/literal_hash.rs): the answer is the last pattern of the hash.
use Prim.Native.Nat.{bit_and}
use matchy.Base.{
  ℕ, ◌+◌, ◌-◌, ◌%◌, ◌^◌, ◌<◌, ◌≡◌, refl, sym, ap, ◌∙◌, subst, arith, ◌==◌, List, [], ◌∷◌, ◌++◌, ◌⊎◌,
  inl, inr, true, false, Bool, Bool-cases, Option-cases, length, length-append, get_elem?,
  get_elem?_lt, Option, none, some, Result, ok, ◌>>=◌, if◌then◌else◌,
}
use matchy.Base.Bits.{bit_and_mask}
use matchy.Base.Bytes.{same_bytes}
use matchy.Base.Orders.{Member, here, later}
use matchy.DataSection.Decode.{from_utf8}
use matchy.DataSection.Buffer.{Stands, Stands-left, Stands-right}
use matchy.LiteralHash.{HashEntry, Shard, Literal, empty, is_empty, string_pool, string_bytes}
use matchy.LiteralHash.Build.{adjust}
use matchy.LiteralHash.Table.{LiteralHash, examine, stores, probe}
use matchy.LiteralHash.Dictionary.{
  last_with, last_entry, last_entry-Pooled, last_entry-none, length-string_bytes,
}
use matchy.LiteralHash.Shards.{Serves, last_entry-full}
use matchy.LiteralHash.Layout.{get_elem?-adjust, length-adjust}
use matchy.LiteralHash.Reading.{InRange, read_string-string_bytes}
use matchy.LiteralHash.Search.{Holds, probe_hit, probe_miss}
use matchy.LiteralHash.Probe.{get_elem?_below}

-- What the file can store: machine words, and valid strings whose length has 16 bits.
pub record Storable (l : Literal) : Type 0 where
  pub hash : l.hash < 2 ^ 64
  pub id : l.pattern_id < 2 ^ 32
  pub short : length l.pattern < 2 ^ 16
  pub valid : from_utf8 l.pattern ≡ true

-- The specification of a lookup, from the last literal with the hash of the query.
unfoldable pub answer : Option Literal → List ℕ → Option ℕ
answer none query = none
answer (some l) query = if same_bytes l.pattern query then some l.pattern_id else none

pub last_with-Member :
    (h : ℕ) (es : List Literal) {l : Literal} → last_with h es ≡ some l → Member l es × (l.hash ≡ h)
unfolding last_with
last_with-Member h [] e = absurd (cc)
last_with-Member h (x ∷ es) {l} e = elim (Option-cases (last_with h es)) [
  | inr (m, found) ↦
      let e' : some m ≡ some l = rw found at e in
      let this : m ≡ l = cc in
      let (member, same) = last_with-Member h es (found ∙ ap some this) in (later member, same)
  | inl nothing ↦
      let e' : (if x.hash == h then some x else none) ≡ some l = rw nothing at e in
      elim (Bool-cases (x.hash == h)) [
        | inl same ↦
            let e'' : some x ≡ some l = rw same at e' in
            let this : x ≡ l = cc in
            subst (λ c. Member c (x ∷ es) × (c.hash ≡ h)) this (here, ground arith)
        | inr other ↦ let e'' : none ≡ some l = rw other at e' in absurd (cc)
      ]
]

module _ (table : LiteralHash) (es : List Literal) (pool : ℕ) (query : List ℕ)
    (storable : (l : Literal) → Member l es → Storable l)
    (strings : Stands table.buffer (table.strings_start + pool) (string_pool es))
    (small : pool + length (string_pool es) < 2 ^ 32) where
  moved : HashEntry → HashEntry
  moved e = if is_empty e then e else record {
    hash = e.hash;
    string_offset = (e.string_offset + pool) % 2 ^ 32;
    pattern_id = e.pattern_id;
  }

  as_verdict : Option ℕ → Option (Option ℕ)
  as_verdict none = none
  as_verdict (some id) = some (some id)

  -- The entry of the last literal with the hash.
  examine-moved :
      (h : ℕ) (r : HashEntry)
      → last_entry h 0 es ≡ some r
      → is_empty r ≡ false
      → examine table h query (moved r) ≡ ok (as_verdict (answer (last_with h es) query))
  unfolding moved examine stores answer is_empty as_verdict
  examine-moved h r found full =
      let p = last_entry-Pooled h 0 es r found in
      let l = p.literal in
      let (member, same) = last_with-Member h es p.last in
      let fits = storable l member in
      let text = l.pattern in
      let size = length-string_bytes text in
      let total = ap length p.place in
      let whole = length-append p.front (string_bytes text ++ p.rest) in
      let tail = length-append (string_bytes text) p.rest in
      let offset : r.string_offset ≡ length p.front =
        ap (λ c. c.string_offset) p.entry ∙ omega arith in
      let hash : r.hash ≡ h = ap (λ c. c.hash) p.entry in
      let id : r.pattern_id ≡ l.pattern_id = ap (λ c. c.pattern_id) p.entry in
      let placed : (r.string_offset + pool) % 2 ^ 32 ≡ pool + length p.front = omega arith in
      let there : Stands table.buffer (table.strings_start + pool)
          (p.front ++ (string_bytes text ++ p.rest)) =
        subst (λ b. Stands table.buffer (table.strings_start + pool) b) p.place strings in
      let sum : table.strings_start + pool + length p.front
          ≡ table.strings_start + (pool + length p.front) =
        omega arith in
      let bytes : Stands table.buffer (table.strings_start + (pool + length p.front))
          (string_bytes text) =
        subst (λ n. Stands table.buffer n (string_bytes text)) sum
          (Stands-left (string_bytes text) p.rest (
            Stands-right p.front (string_bytes text ++ p.rest) (table.strings_start + pool)
              there)) in
      let read =
        read_string-string_bytes text table.strings_start (pool + length p.front) table.buffer
          fits.short fits.valid bytes in
      let not_empty : (pool + length p.front == 0xFFFFFFFF) ≡ false = ground arith in
      let equal : (r.hash == h) ≡ true = ground arith in
      simp (full, placed, not_empty, equal, read, p.last, id) (verdict (same_bytes text query) l)
    where
      verdict :
          (b : Bool) (l : Literal)
          → (ok b >>= λ same. ok (if same then some (some l.pattern_id) else none))
            ≡ ok (as_verdict (if b then some l.pattern_id else none))
      verdict true l = refl
      verdict false l = refl

  -- An entry with another hash.
  examine-other :
      (h : ℕ) (r : HashEntry)
      → last_entry r.hash 0 es ≡ some r
      → is_empty r ≡ false
      → (r.hash == h) ≡ false
      → examine table h query (moved r) ≡ ok none
  unfolding moved examine is_empty
  examine-other h r found full other =
      let p = last_entry-Pooled r.hash 0 es r found in
      let size = length-string_bytes p.literal.pattern in
      let total = ap length p.place in
      let whole = length-append p.front (string_bytes p.literal.pattern ++ p.rest) in
      let tail = length-append (string_bytes p.literal.pattern) p.rest in
      let offset : r.string_offset ≡ length p.front =
        ap (λ c. c.string_offset) p.entry ∙ omega arith in
      let placed : (r.string_offset + pool) % 2 ^ 32 ≡ pool + length p.front = omega arith in
      let not_empty : (pool + length p.front == 0xFFFFFFFF) ≡ false = ground arith in
      simp (full, placed, not_empty, other)

  -- An entry of the joined table is one of the shard's, moved.
  entry_before :
      (shard : Shard) (j : ℕ) (c : HashEntry)
      → get_elem? (adjust pool shard.table) j ≡ some c
      → (e : HashEntry) × (get_elem? shard.table j ≡ some e) × (c ≡ moved e)
  unfolding moved
  entry_before shard j c found =
      let below : j < length shard.table =
        subst (λ n. j < n) (length-adjust pool shard.table)
          (get_elem?_lt (adjust pool shard.table) j found) in
      let (e, at) = get_elem?_below shard.table j below in
      let both : some c ≡ some (moved e) = sym found ∙ get_elem?-adjust pool j shard.table at in
      (e, at, cc)

  entry_after :
      (shard : Shard) (j : ℕ) (e : HashEntry)
      → get_elem? shard.table j ≡ some e
      → get_elem? (adjust pool shard.table) j ≡ some (moved e)
  unfolding moved
  entry_after shard j e at = get_elem?-adjust pool j shard.table at

  -- The entries of the shard in the joined table are machine words.
  pub moved-InRange :
      (shard : Shard) (j : ℕ) (c : HashEntry)
      → Serves es shard
      → get_elem? (adjust pool shard.table) j ≡ some c
      → InRange c
  unfolding moved
  moved-InRange shard j c serves found =
      let (e, at, same) = entry_before shard j c found in
      elim (Bool-cases (is_empty e)) [
        | inl vacant ↦
            let this : c ≡ empty = same ∙ rw vacant (serves.blank j e at vacant) in
            subst InRange (sym this)
              (record { hash = omega arith; offset = omega arith; id = omega arith })
        | inr full ↦
            let p = last_entry-Pooled e.hash 0 es e (serves.only j e at full) in
            let (member, equal) = last_with-Member e.hash es p.last in
            let fits = storable p.literal member in
            let hash = fits.hash in
            let id = fits.id in
            let entry : e.pattern_id ≡ p.literal.pattern_id = ap (λ c. c.pattern_id) p.entry in
            let this : c ≡ record {
              hash = e.hash;
              string_offset = (e.string_offset + pool) % 2 ^ 32;
              pattern_id = e.pattern_id;
            } =
              same ∙ rw full refl in
            subst InRange (sym this)
              (record { hash = omega arith; offset = omega arith; id = omega arith })
      ]

  module _ (shard : Shard) (start h : ℕ) (serves : Serves es shard)
      (holds : Holds table start (adjust pool shard.table)) where
    -- The verdict on each entry of the shard.
    examine-entry :
        (i : ℕ) (e : HashEntry)
        → get_elem? shard.table i ≡ some e
        → ((is_empty e ≡ true) × (examine table h query (moved e) ≡ ok (some none)))
          ⊎ ((is_empty e ≡ false)
              × ((examine table h query (moved e) ≡ ok none)
                  ⊎ (examine table h query (moved e)
                      ≡ ok (as_verdict (answer (last_with h es) query)))))
    examine-entry i e found = elim (Bool-cases (is_empty e)) [
      | inl vacant ↦ inl (vacant, unfold moved in unfold examine in rw (vacant, vacant) refl)
      | inr full ↦
          let last = serves.only i e found full in
          elim (Bool-cases (e.hash == h)) [
            | inl same ↦
                let equal : e.hash ≡ h = ground arith in
                let last' : last_entry h 0 es ≡ some e =
                  subst (λ n. last_entry n 0 es ≡ some e) equal last in
                inr (full, inr (examine-moved h e last' full))
            | inr other ↦ inr (full, inl (examine-other h e last full other))
          ]
    ]

    home : start + bit_and h (2 ^ serves.bits - 1) ≡ start + (h + 0) % 2 ^ serves.bits
    home =
        ap (λ p. start + p)
          (bit_and_mask serves.bits h ∙ ap (λ n. n % 2 ^ serves.bits) (omega arith))

    abbrev found_by : Result (Option ℕ)
    found_by =
        probe (2 ^ serves.bits) table h query start (2 ^ serves.bits - 1)
          (start + bit_and h (2 ^ serves.bits - 1))

    nothing_there : answer (last_with h es) query ≡ none → found_by ≡ ok none
    unfolding as_verdict
    nothing_there no_answer =
        subst (λ p. probe (2 ^ serves.bits) table h query start (2 ^ serves.bits - 1) p ≡ ok none)
          (sym home)
          (probe_miss table h query start serves.bits (2 ^ serves.bits) 0 (adjust pool shard.table)
            holds (length-adjust pool shard.table ∙ serves.size)
            (λ j c found.
              let (e, at, same) = entry_before shard j c found in
              elim (examine-entry j e at) [
                | inl (vacant, stop) ↦ rw same (inr stop)
                | inr (full, verdict) ↦ elim verdict [
                  | inl other ↦ rw same (inl other)
                  | inr this ↦ rw same (inl (this ∙ rw no_answer refl))
                ]
              ]))

    something_there : (id : ℕ) → answer (last_with h es) query ≡ some id → found_by ≡ ok (some id)
    unfolding as_verdict answer
    something_there id answered = elim (Option-cases (last_entry h 0 es)) [
      | inl nothing ↦
          let no_literal = last_entry-none h 0 es nothing in
          let contrary : none ≡ some id = rw no_literal at answered in absurd (cc)
      | inr (r, last) ↦
          let (d, near, at, passed) = serves.found h r last in
          let p = last_entry-Pooled h 0 es r last in
          let hash : r.hash ≡ h = ap (λ c. c.hash) p.entry in
          let at' : get_elem? shard.table ((h + d) % 2 ^ serves.bits) ≡ some r =
            subst (λ n. get_elem? shard.table ((n + d) % 2 ^ serves.bits) ≡ some r) hash at in
          let full = last_entry-full es h r (omega arith) last in
          let hit : examine table h query (moved r) ≡ ok (some (some id)) =
            examine-moved h r last full ∙ rw answered refl in
          subst
            (λ q.
              probe (2 ^ serves.bits) table h query start (2 ^ serves.bits - 1) q ≡ ok (some id))
            (sym home)
            (probe_hit table h query start serves.bits (2 ^ serves.bits) 0 d id
              (adjust pool shard.table) (moved r) holds (omega arith) (omega arith)
              (entry_after shard ((h + d) % 2 ^ serves.bits) r at') hit
              (λ j low high.
                let (e, there, taken) = passed j high in
                let there' : get_elem? shard.table ((h + j) % 2 ^ serves.bits) ≡ some e =
                  subst (λ n. get_elem? shard.table ((n + j) % 2 ^ serves.bits) ≡ some e) hash
                    there in
                (
                  moved e,
                  entry_after shard ((h + j) % 2 ^ serves.bits) e there',
                  elim (examine-entry ((h + j) % 2 ^ serves.bits) e there') [
                    | inl (vacant, stop) ↦ absurd (cc)
                    | inr (_, verdict) ↦ elim verdict [
                      | inl other ↦ inl other
                      | inr this ↦ inr (this ∙ rw answered refl)
                    ]
                  ],
                )))
    ]

    pub probe-answer : found_by ≡ ok (answer (last_with h es) query)
    probe-answer = elim (Option-cases (answer (last_with h es) query)) [
      | inl no_answer ↦ rw no_answer (nothing_there no_answer)
      | inr (id, answered) ↦ rw answered (something_there id answered)
    ]
