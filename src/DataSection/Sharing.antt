-- ===== src/DataSection/Sharing.antt =====
-- The encoder as a whole: values encoded one after the other, with whole values and strings shared, and
-- decoded from the bytes at their offsets.
use matchy.Base.{
  ℕ, zero, suc, ◌+◌, ◌-◌, ◌^◌, ◌%◌, ◌≤◌, ◌<◌, ◌≡◌, ◌≢◌, refl, sym, ap, subst, ◌∙◌, arith, List, [],
  ◌∷◌, ◌++◌, false, length, true, leb, ok, if◌then◌else◌, Bool, Bool-cases, inl, inr, Option, some,
  none, get_elem?,
}
use matchy.Base.Bytes.{same_bytes, same_bytes-eq}
use matchy.DataSection.{DataValue, encode_to_buffer}
use matchy.DataSection.Decode.{decode}
use matchy.DataSection.Normal.{depth, normal, Storable}
use matchy.DataSection.Encoder.{
  DataEncoder, get, new, new_without_interning, encode_value_interned, encode, encode_each,
  into_bytes, size,
}
use matchy.DataSection.Extends.{Extends, Extends-refl, Extends-trans, Extends-append, CacheHolds}
use matchy.DataSection.Interning.{Found}
use matchy.DataSection.Encoded.{Plain, value-Works, depth-normal, encode_to_buffer-injective}

-- In the bytes, and in any that extend them, the value is decoded at the offset.
abbrev Answers : List ℕ → ℕ → DataValue → Type 0
Answers short offset v =
    (buffer : List ℕ)
    → Extends short buffer
    → (k : ℕ) → depth v ≤ k
    → decode (suc (suc (suc (suc k)))) buffer 0 offset ≡ ok (normal v)

leb_zero : (n : ℕ) → leb 0 n ≡ true
leb_zero n = ground arith

Answers-found :
    (short : List ℕ) (offset behind : ℕ) (v : DataValue)
    → ((buffer : List ℕ)
        → Extends short buffer
        → (k : ℕ) → depth v ≤ k
        → Found k buffer offset behind v)
    → Answers short offset v
unfolding decode
Answers-found short offset behind v found buffer g k deep =
    let f = found buffer g k deep in
    let same : offset - 0 ≡ offset = omega arith in rw (leb_zero offset, same, f.decoded) f.resolved

Answers-Extends :
    (short long : List ℕ) (offset : ℕ) (v : DataValue)
    → Extends short long
    → Answers short offset v
    → Answers long offset v
Answers-Extends short long offset v g answers buffer h = answers buffer (Extends-trans g h)

-- The offsets of whole values are theirs, and those of the strings.
abbrev DedupHolds : DataEncoder → Type 0
DedupHolds e =
    (t : List ℕ) (o : ℕ)
    → get t e.dedup_map ≡ some o
    → (w : DataValue) × (encode_to_buffer w ≡ t) × Storable w × Answers e.buffer o w

abbrev Kept : DataEncoder → Type 0
Kept e = CacheHolds e × DedupHolds e

record Encodes (v : DataValue) (e : DataEncoder) (r : ℕ × DataEncoder) : Type 0 where
  grows : Extends e.buffer r.1.buffer
  kept : length r.1.buffer < 2 ^ 32 → Kept e → Kept r.1
  answers : length r.1.buffer < 2 ^ 32 → Kept e → Answers r.1.buffer r.0 v

-- A value that was encoded before.
Encodes-old :
    (v : DataValue) (e : DataEncoder) (o : ℕ)
    → Storable v
    → get (encode_to_buffer v) e.dedup_map ≡ some o
    → Encodes v e (o, e)
Encodes-old v e o h there = record {
  grows = Extends-refl e.buffer;
  kept = λ room all. all;
  answers = λ room all.
      let (w, same, g, answers) = all.1 (encode_to_buffer v) o there in
      let equal = encode_to_buffer-injective w v g h same in
      let deep : depth w ≡ depth v = sym (depth-normal w) ∙ ap depth equal ∙ depth-normal v in
      λ buffer ext k low.
        subst (λ u. decode (suc (suc (suc (suc k)))) buffer 0 o ≡ ok u) equal
          (answers buffer ext k (omega arith));
}

-- The offsets after a new value.
dedup_more :
    (v : DataValue) (e : DataEncoder) (offset : ℕ) (long : List ℕ)
    → Storable v
    → Extends e.buffer long
    → Answers long offset v
    → DedupHolds e
    → (t : List ℕ) (o : ℕ) → get t ((encode_to_buffer v, offset) ∷ e.dedup_map) ≡ some o
    → (w : DataValue) × (encode_to_buffer w ≡ t) × Storable w × Answers long o w
dedup_more v e offset long h g answers all t o there =
    elim (Bool-cases (same_bytes t (encode_to_buffer v))) [
      | inl same ↦
          let at : offset ≡ o = let got = rw same at there in cc in
          (
            v,
            sym (same_bytes-eq t (encode_to_buffer v) same),
            h,
            subst (λ c. Answers long c v) at answers,
          )
      | inr other ↦
          let (w, same, g', old) = all t o (rw other at there) in
          (w, same, g', Answers-Extends e.buffer long o w g old)
    ]

Encodes-new :
    (v : DataValue) (e : DataEncoder)
    → Storable v
    → Plain v
    → Encodes v e (
      length e.buffer % 2 ^ 32,
      record (encode_value_interned v e) {
        dedup_map =
            (encode_to_buffer v, length e.buffer % 2 ^ 32) ∷ (encode_value_interned v e).dedup_map;
      },
    )
Encodes-new v e h plain =
    let step = value-Works v h plain e in
    let long = (encode_value_interned v e).buffer in
    let offset = length e.buffer % 2 ^ 32 in
    let found : length long < 2 ^ 32 → CacheHolds e → Answers long offset v = λ room cache.
      let r = step.grows.room in
      let start : length e.buffer ≡ offset = omega arith in
      subst (λ c. Answers long c v) start
        (Answers-found long (length e.buffer) (length long) v (step.found (omega arith) cache)) in
    record {
      grows = step.grows;
      kept = λ room (cache, all). (
        step.cached (omega arith) cache,
        λ t o there.
            dedup_more v e offset long h step.grows (found room cache) all t o
              (rw step.same_map at there),
      );
      answers = λ room all. found room all.0;
    }

Encodes-by :
    (v : DataValue) (e : DataEncoder) (old : Option ℕ)
    → Storable v
    → Plain v
    → get (encode_to_buffer v) e.dedup_map ≡ old
    → Encodes v e (elim old [
      | some offset ↦ (offset, e)
      | none ↦ (
        length e.buffer % 2 ^ 32,
        record (encode_value_interned v e) {
          dedup_map =
              (encode_to_buffer v, length e.buffer % 2 ^ 32)
              ∷ (encode_value_interned v e).dedup_map;
        },
      )
    ])
Encodes-by v e none h plain there = Encodes-new v e h plain
Encodes-by v e (some o) h plain there = Encodes-old v e o h there

encode-Encodes : (v : DataValue) (e : DataEncoder) → Storable v → Plain v → Encodes v e (encode v e)
unfolding encode
encode-Encodes v e h plain = Encodes-by v e (get (encode_to_buffer v) e.dedup_map) h plain refl

abbrev pub AllStorable : List DataValue → Type 0
AllStorable [] = Unit
AllStorable (v ∷ vs) = (Storable v × Plain v) × AllStorable vs

record EncodesEach (vs : List DataValue) (e : DataEncoder) (r : List ℕ × DataEncoder) : Type 0 where
  grows : Extends e.buffer r.1.buffer
  answers :
      length r.1.buffer < 2 ^ 32
      → Kept e
      → (i : ℕ) (v : DataValue) → get_elem? vs i ≡ some v
      → (o : ℕ) × (get_elem? r.0 i ≡ some o) × Answers r.1.buffer o v

each_more :
    (v : DataValue) (vs : List DataValue) (e : DataEncoder)
    → Storable v
    → Plain v
    → Encodes v e (encode v e)
    → EncodesEach vs (encode v e).1 (encode_each vs (encode v e).1)
    → length (encode_each vs (encode v e).1).1.buffer < 2 ^ 32
    → Kept e
    → (i : ℕ) (w : DataValue) → get_elem? (v ∷ vs) i ≡ some w
    → (o : ℕ) × (get_elem? ((encode v e).0 ∷ (encode_each vs (encode v e).1).0) i ≡ some o)
      × Answers (encode_each vs (encode v e).1).1.buffer o w
each_more v vs e h plain first others room kept zero w there =
    let r = others.grows.room in
    let same : v ≡ w = let got : some v ≡ some w = there in cc in
    (
      (encode v e).0,
      refl,
      subst (Answers (encode_each vs (encode v e).1).1.buffer (encode v e).0) same
          (Answers-Extends _ _ (encode v e).0 v others.grows (first.answers (omega arith) kept)),
    )
each_more v vs e h plain first others room kept (suc i) w there =
    let r = others.grows.room in others.answers room (first.kept (omega arith) kept) i w there

encode_each-Encodes :
    (vs : List DataValue) (e : DataEncoder) → AllStorable vs → EncodesEach vs e (encode_each vs e)
unfolding encode_each
encode_each-Encodes [] e all = record {
  grows = Extends-refl e.buffer;
  answers = λ room kept i v there. absurd (let bad : none ≡ some v = there in cc);
}
encode_each-Encodes (v ∷ vs) e ((h, plain), all) =
    let first = encode-Encodes v e h plain in
    let others = encode_each-Encodes vs (encode v e).1 all in
    record {
      grows = Extends-trans first.grows others.grows;
      answers = each_more v vs e h plain first others;
    }

nothing_at_first : (k : List ℕ) (o : ℕ) → get k [] ≢ some o
nothing_at_first k o there = let bad : none ≡ some o = there in cc

fresh : (interning : Bool) → Kept (if interning then new else new_without_interning)
fresh true = (
  λ s o there. absurd (nothing_at_first s o there),
  λ t o there. absurd (nothing_at_first t o there),
)
fresh false = (
  λ s o there. absurd (nothing_at_first s o there),
  λ t o there. absurd (nothing_at_first t o there),
)

-- Values are encoded in turn by a new encoder, with interning of strings or without. Their numbers are in
-- range, their strings are valid UTF-8, their maps have different keys, their arrays have at most 28 elements,
-- they have no pointers inside, and their strings, byte arrays and maps are shorter than the largest size of the
-- format. If the bytes are fewer than 2^32, then in them, and whatever follows them, `decode` finds each value
-- at the offset that `encode` gave for it, with the entries of maps in the order of their keys. It takes four
-- nested calls more than the maps and arrays of the value are deep.
pub encode_each-decode :
    (interning : Bool) (vs : List DataValue) (rest : List ℕ) (fuel i : ℕ) (v : DataValue)
    → AllStorable vs
    → size (encode_each vs (if interning then new else new_without_interning)).1 < 2 ^ 32
    → get_elem? vs i ≡ some v
    → depth v ≤ fuel
    → (offset : ℕ) × (get_elem?
          (encode_each vs (if interning then new else new_without_interning)).0
          i
        ≡ some offset)
      × (decode
            (4 + fuel)
            (into_bytes (encode_each vs (if interning then new else new_without_interning)).1
              ++ rest)
            0
            offset
          ≡ ok (normal v))
encode_each-decode interning vs rest fuel i v all room there deep =
    let start = if interning then new else new_without_interning in
    let (o, at, answers) =
      (encode_each-Encodes vs start all).answers room (fresh interning) i v there in
    let four : 4 + fuel ≡ suc (suc (suc (suc fuel))) = omega arith in
    (o, at, rw four (answers _ (Extends-append _ rest) fuel deep))
