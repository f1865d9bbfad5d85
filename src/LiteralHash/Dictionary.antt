-- ===== src/LiteralHash/Dictionary.antt =====
-- The map from hashes to strings of a shard (src/literal_hash.rs): the last pattern of a hash stays.
use matchy.Base.{
  ℕ, ◌+◌, ◌%◌, ◌^◌, ◌≤◌, ◌≡◌, refl, sym, ap, ◌∙◌, subst, arith, ◌==◌, List, [], ◌∷◌, ◌++◌, inl, inr,
  true, false, Bool-cases, Option-cases, length, length-append, Option, none, some, if◌then◌else◌,
  append_assoc,
}
use matchy.Base.Orders.{Member, here, later}
use matchy.LiteralHash.{
  HashEntry, Literal, map_insert, map_loop, string_bytes, string_pool, string_offsets,
}
use matchy.Base.LittleEndian.{to_le_bytes, length-to_le_bytes}

unfoldable pub find_entry : ℕ → List HashEntry → Option HashEntry
find_entry h [] = none
find_entry h (e ∷ es) = let rest = find_entry h es in if e.hash == h then some e else rest

abbrev pub Unique : List HashEntry → Type 0
Unique [] = Unit
Unique (e ∷ es) = (find_entry e.hash es ≡ none) × Unique es

-- What a later part of a list found, or else an earlier one.
abbrev pub latest {ℓ} : {A : Type ℓ} → Option A → Option A → Option A
latest none earlier = earlier
latest (some a) earlier = some a

-- The last literal with a hash.
unfoldable pub last_with : ℕ → List Literal → Option Literal
last_with h [] = none
last_with h (e ∷ es) = latest (last_with h es) (if e.hash == h then some e else none)

-- Its entry, for a pool that starts at `base`.
unfoldable pub last_entry : ℕ → ℕ → List Literal → Option HashEntry
last_entry h base [] = none
last_entry h base (e ∷ es) = latest (last_entry h (base + 2 + length e.pattern + 1) es) (
    if e.hash == h
    then some (record { hash = e.hash; string_offset = base % 2 ^ 32; pattern_id = e.pattern_id })
    else none)

find_entry-map_insert :
    (h : ℕ) (e : HashEntry) (es : List HashEntry)
    → find_entry h (map_insert e es) ≡ (if e.hash == h then some e else find_entry h es)
unfolding find_entry map_insert
find_entry-map_insert h e [] = refl
find_entry-map_insert h e (x ∷ es) = ground (arith, find_entry-map_insert h e es)

map_insert-Unique : (e : HashEntry) (es : List HashEntry) → Unique es → Unique (map_insert e es)
unfolding find_entry map_insert
map_insert-Unique e [] u = (refl, tt)
map_insert-Unique e (x ∷ es) (absent, u) = elim (Bool-cases (x.hash == e.hash)) [
  | inl same ↦
      let equal : x.hash ≡ e.hash = ground arith in
      rw same (subst (λ h. find_entry h es ≡ none) equal absent, u)
  | inr other ↦
      let apart : (e.hash == x.hash) ≡ false = ground arith in
      rw other (find_entry-map_insert x.hash e es ∙ rw apart absent, map_insert-Unique e es u)
]

length-map_insert-le :
    (e : HashEntry) (es : List HashEntry) → length (map_insert e es) ≤ length es + 1
unfolding map_insert
length-map_insert-le e [] = omega arith
length-map_insert-le e (x ∷ es) = ground (arith, length-map_insert-le e es)

pub find_entry-Member :
    (es : List HashEntry) (e : HashEntry) → Unique es → Member e es → find_entry e.hash es ≡ some e
unfolding find_entry
find_entry-Member [] e u m = elim m [ ]
find_entry-Member (x ∷ es) _ u here = ground arith
find_entry-Member (x ∷ es) e (absent, u) (later m) =
    let ih = find_entry-Member es e u m in
    elim (Bool-cases (x.hash == e.hash)) [
      | inl same ↦
          let equal : x.hash ≡ e.hash = ground arith in
          let none_left : find_entry e.hash es ≡ none =
            subst (λ h. find_entry h es ≡ none) equal absent in
          cc
      | inr other ↦ rw other ih
    ]

pub Member-find_entry :
    (h : ℕ) (es : List HashEntry) {e : HashEntry}
    → find_entry h es ≡ some e
    → Member e es × (e.hash ≡ h)
unfolding find_entry
Member-find_entry h [] found = absurd (cc)
Member-find_entry h (x ∷ es) {e} found = elim (Bool-cases (x.hash == h)) [
  | inl same ↦
      let found' : some x ≡ some e = rw same at found in
      let this : x ≡ e = cc in
      subst (λ c. Member c (x ∷ es) × (c.hash ≡ h)) this (here, ground arith)
  | inr other ↦ let (m, equal) = Member-find_entry h es (rw other at found) in (later m, equal)
]

latest_assoc {ℓ} : {A : Type ℓ} (a b c : Option A) → latest (latest a b) c ≡ latest a (latest b c)
latest_assoc none b c = refl
latest_assoc (some a) b c = refl

-- What the loop leaves in the map.
pub find_entry-map_loop :
    (h base : ℕ) (es : List Literal) (entries : List HashEntry)
    → find_entry h (map_loop es (string_offsets base es) entries)
      ≡ latest (last_entry h base es) (find_entry h entries)
unfolding map_loop string_offsets last_entry
find_entry-map_loop h base [] entries = refl
find_entry-map_loop h base (e ∷ es) entries =
    let added : HashEntry = record {
      hash = e.hash;
      string_offset = base % 2 ^ 32;
      pattern_id = e.pattern_id;
    } in
    let onward = base + 2 + length e.pattern + 1 in
    find_entry-map_loop h onward es (map_insert added entries)
    ∙ ap (latest (last_entry h onward es)) (find_entry-map_insert h added entries ∙ ground arith)
    ∙ sym (
        latest_assoc (last_entry h onward es) (if e.hash == h then some added else none)
          (find_entry h entries))

pub map_loop-Unique :
    (offsets : List ℕ) (es : List Literal) (entries : List HashEntry)
    → Unique entries
    → Unique (map_loop es offsets entries)
unfolding map_loop
map_loop-Unique offsets [] entries u = u
map_loop-Unique [] (e ∷ es) entries u = u
map_loop-Unique (offset ∷ offsets) (e ∷ es) entries u =
    map_loop-Unique offsets es (map_insert _ entries) (map_insert-Unique _ entries u)

pub length-map_loop-le :
    (offsets : List ℕ) (es : List Literal) (entries : List HashEntry)
    → length (map_loop es offsets entries) ≤ length entries + length es
unfolding map_loop
length-map_loop-le offsets [] entries = omega arith
length-map_loop-le [] (e ∷ es) entries = omega arith
length-map_loop-le (offset ∷ offsets) (e ∷ es) entries =
    let added : HashEntry = record {
      hash = e.hash;
      string_offset = offset % 2 ^ 32;
      pattern_id = e.pattern_id;
    } in
    let ih = length-map_loop-le offsets es (map_insert added entries) in
    omega (arith, length-map_insert-le added entries)

pub length-string_bytes : (s : List ℕ) → length (string_bytes s) ≡ 2 + length s + 1
unfolding string_bytes
length-string_bytes s = omega (
  arith,
  length-to_le_bytes 2 (length s % 2 ^ 16),
  length-append (to_le_bytes 2 (length s % 2 ^ 16)) (s ++ 0 ∷ []),
  length-append s (0 ∷ []),
)

-- A literal, its entry, and its place in the pool.
pub record Pooled (h base : ℕ) (es : List Literal) (r : HashEntry) : Type 0 where
  pub literal : Literal
  pub front : List ℕ
  pub rest : List ℕ
  pub last : last_with h es ≡ some literal
  pub entry : r ≡ record {
    hash = h;
    string_offset = (base + length front) % 2 ^ 32;
    pattern_id = literal.pattern_id;
  }
  pub place : string_pool es ≡ front ++ (string_bytes literal.pattern ++ rest)

pub last_entry-none :
    (h base : ℕ) (es : List Literal) → last_entry h base es ≡ none → last_with h es ≡ none
unfolding last_entry last_with
last_entry-none h base [] e = refl
last_entry-none h base (x ∷ es) e =
    elim (Option-cases (last_entry h (base + 2 + length x.pattern + 1) es)) [
      | inl nothing ↦
          let ih = last_entry-none h (base + 2 + length x.pattern + 1) es nothing in
          let e' = rw nothing at e in rw ih (ground arith)
      | inr (r, found) ↦ let e' = rw found at e in absurd (cc)
    ]

pub last_entry-Pooled :
    (h base : ℕ) (es : List Literal) (r : HashEntry)
    → last_entry h base es ≡ some r
    → Pooled h base es r
unfolding last_entry last_with string_pool
last_entry-Pooled h base [] r e = absurd (cc)
last_entry-Pooled h base (x ∷ es) r e =
    let onward = base + 2 + length x.pattern + 1 in
    elim (Option-cases (last_entry h onward es)) [
      | inl nothing ↦
          let ih = last_entry-none h onward es nothing in
          let e' = rw nothing at e in
          let same : (x.hash == h) ≡ true = ground arith in
          record {
            literal = x;
            front = [];
            rest = string_pool es;
            last = rw (ih, same) refl;
            entry = ground arith;
            place = refl;
          }
      | inr (r', found) ↦
          let e' : some r' ≡ some r = rw found at e in
          let this : r' ≡ r = cc in
          let inner = last_entry-Pooled h onward es r (found ∙ e') in
          record {
            literal = inner.literal;
            front = string_bytes x.pattern ++ inner.front;
            rest = inner.rest;
            last = rw inner.last refl;
            entry =
                inner.entry
                ∙ ground (
                  arith,
                  length-append (string_bytes x.pattern) inner.front,
                  length-string_bytes x.pattern,
                );
            place =
                ap (λ t. string_bytes x.pattern ++ t) inner.place
                ∙ sym (append_assoc (string_bytes x.pattern) inner.front _);
          }
    ]
