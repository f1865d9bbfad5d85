-- ===== src/DataSection/Nested.antt =====
-- Values that hold other values: encoded and decoded.
use Prim.Native.Nat.{bit_and, bit_or}
use matchy.Base.{
  ℕ, zero, suc, ◌+◌, ◌*◌, ◌/◌, ◌^◌, ◌≤◌, ◌<◌, ◌≡◌, ap, ◌∙◌, arith, List, ◌∷◌, ◌++◌, length,
  length-append, true, ltb, ok,
}
use matchy.Base.Bits.{bit_and_1f}
use matchy.DataSection.{
  DataValue, pointer, string, double, bytes, uint16, uint32, map, int32, uint64, uint128, array,
  bool, float, Items, nil, cons, Fields, end, field, count_items, count_fields, size_bits,
  size_bytes, encode_with_size, encode_string, encode_pairs, encode_to_buffer, encode_items,
  encode_fields,
}
use matchy.DataSection.Decode.{
  decode_at, decode, decode_items, decode_entries, decode_type, decode_extended, decode_array,
  decode_map, insert_field,
}
use matchy.DataSection.Buffer.{
  Stands, Stands-head, Stands-tail, Stands-below, Stands-left, Stands-right, middle-Stands,
}
use matchy.DataSection.Scalars.{decode_at-type}
use matchy.DataSection.Sizes.{max_size, decode_size-size_bits, control_bits}
use matchy.DataSection.RoundTrip.{IsFlat, read_flat}
use matchy.DataSection.Entries.{
  Each, Distinct, sort_fields, collect, sort_by_key-encode_fields, count-sort_fields,
  Each-sort_fields,
}
use matchy.DataSection.Normal.{
  depth, depth_items, depth_fields, larger_le, normal, normal_items, normal_fields, Storable,
  StorableItems, StorableFields, collect-sorted,
}

-- What is read back of a value, and of a run of elements.
abbrev ReadsBack : ℕ → DataValue → Type 0
ReadsBack fuel v =
    (base : ℕ) (buffer : List ℕ) (cursor : ℕ)
    → Stands buffer cursor (encode_to_buffer v)
    → decode_at (suc fuel) buffer base cursor ≡ ok (normal v, cursor + length (encode_to_buffer v))

abbrev ReadsItems : ℕ → Items → Type 0
ReadsItems fuel vs =
    (base : ℕ) (buffer : List ℕ) (cursor : ℕ)
    → Stands buffer cursor (encode_items vs)
    → decode_items (decode_at (suc fuel) buffer base) (count_items vs) cursor
      ≡ ok (normal_items vs, cursor + length (encode_items vs))

items-end : (fuel : ℕ) → ReadsItems fuel nil
unfolding decode_items encode_to_buffer
items-end fuel base buffer cursor s = ap (λ c. ok (nil, c)) (omega arith)

items-more :
    (fuel : ℕ) (v : DataValue) (vs : Items)
    → ReadsBack fuel v
    → ReadsItems fuel vs
    → ReadsItems fuel (cons v vs)
unfolding decode_items encode_to_buffer
items-more fuel v vs first further base buffer cursor s =
    let head = first base buffer cursor (Stands-left (encode_to_buffer v) (encode_items vs) s) in
    let tail =
      further base buffer _ (Stands-right (encode_to_buffer v) (encode_items vs) cursor s) in
    let e = length-append (encode_to_buffer v) (encode_items vs) in
    rw (head, tail) (ap (λ c. ok (cons (normal v) (normal_items vs), c)) (omega (arith, e)))

-- The elements of an array stand behind its control byte and the byte of its type.
array-read :
    (fuel : ℕ) (vs : Items)
    → count_items vs < 29
    → ReadsItems fuel vs
    → ReadsBack (suc fuel) (array vs)
unfolding decode_type decode_extended decode_array encode_to_buffer
array-read fuel vs few inner base buffer cursor s =
    let small : ltb (count_items vs) 29 ≡ true = ground arith in
    let s' : Stands buffer cursor (count_items vs ∷ 0x04 ∷ encode_items vs) = rw small at s in
    let s1 = Stands-tail s' in
    let below : ltb (cursor + 1) (length buffer) ≡ true =
      let lt = Stands-below s1 in ground arith in
    let items = inner base buffer (cursor + 1 + 1) (Stands-tail s1) in
    let type_id : count_items vs / 2 ^ 5 ≡ 0 = omega arith in
    let payload : bit_and (count_items vs) 0x1F ≡ count_items vs =
      bit_and_1f (count_items vs) ∙ omega arith in
    decode_at-type (suc fuel) base buffer cursor _ _ s'
    ∙ rw (type_id, payload, below, Stands-head s1, small, items)
        (ap (λ c. ok (array (normal_items vs), c)) (omega arith))

module _ (fuel base : ℕ) (buffer : List ℕ) where
  entries-read :
      (fs : Fields)
      → Each (λ k v. IsFlat (string k) × ReadsBack fuel v) fs
      → (m : Fields) (cursor : ℕ) → Stands buffer cursor (encode_pairs (encode_fields fs))
      → decode_entries
          (decode_at (suc fuel) buffer base)
          (decode (suc fuel) buffer base)
          (count_fields fs)
          cursor
          m
        ≡ ok (collect (normal_fields fs) m, cursor + length (encode_pairs (encode_fields fs)))
  unfolding decode_entries encode_to_buffer
  entries-read end all m cursor s = ap (λ c. ok (m, c)) (omega arith)
  entries-read (field k v fs) ((flat, first), all) m cursor s =
      let rest = encode_pairs (encode_fields fs) in
      let pair = encode_string k ++ encode_to_buffer v in
      let s' = Stands-left pair rest s in
      let key =
        read_flat fuel base buffer cursor (string k) flat
          (Stands-left (encode_string k) (encode_to_buffer v) s') in
      let value =
        first base buffer _ (Stands-right (encode_string k) (encode_to_buffer v) cursor s') in
      let e = length-append pair rest in
      let f = length-append (encode_string k) (encode_to_buffer v) in
      let here : cursor + length pair
          ≡ cursor + length (encode_string k) + length (encode_to_buffer v) =
        omega (arith, f) in
      let further =
        entries-read fs all (insert_field k (normal v) m) _
          (rw here at (Stands-right pair rest cursor s)) in
      rw (key, value, further)
        (ap (λ c. ok (collect (normal_fields fs) (insert_field k (normal v) m), c))
          (omega (arith, e, f)))

map-read :
    (fuel : ℕ) (m : Fields)
    → count_fields m < max_size
    → Distinct m
    → Each (λ k v. IsFlat (string k) × ReadsBack fuel v) m
    → ReadsBack (suc fuel) (map m)
unfolding decode_type decode_map encode_to_buffer encode_with_size
map-read fuel m small apart all base buffer cursor s =
    let n = count_fields m in
    let run = encode_pairs (encode_fields (sort_fields m)) in
    let sorted = sort_by_key-encode_fields m in
    let s' : Stands buffer cursor (bit_or (7 * 2 ^ 5) (size_bits n) ∷ (size_bytes n ++ run)) =
      rw sorted at s in
    let rest = Stands-tail s' in
    let (type_id, payload) = control_bits 7 n (omega arith) in
    let size =
      decode_size-size_bits buffer (cursor + 1) n small (Stands-left (size_bytes n) run rest) in
    let count = count-sort_fields m in
    let inner =
      entries-read fuel base buffer (sort_fields m) (Each-sort_fields _ m all) end _
        (Stands-right (size_bytes n) run (cursor + 1) rest) in
    decode_at-type (suc fuel) base buffer cursor _ _ s'
    ∙ rw (type_id, payload, size, rw (count, collect-sorted m apart) at inner, sorted)
        (ap (λ c. ok (map (sort_fields (normal_fields m)), c))
          (omega (arith, length-append (size_bytes n) run)))

mutual
  value-read : (v : DataValue) → Storable v → (fuel : ℕ) → depth v ≤ fuel → ReadsBack fuel v
  value-read (map m) (small, apart, all) zero deep base buffer cursor = absurd (omega arith)
  value-read (map m) (small, apart, all) (suc fuel) deep base buffer cursor =
      map-read fuel m small apart (fields-read m all fuel (omega arith)) base buffer cursor
  value-read (array a) (few, all) zero deep base buffer cursor = absurd (omega arith)
  value-read (array a) (few, all) (suc fuel) deep base buffer cursor =
      array-read fuel a few (items-read a all fuel (omega arith)) base buffer cursor
  value-read (string x) h fuel deep base buffer cursor =
      read_flat fuel base buffer cursor (string x) h
  value-read (bytes b) h fuel deep base buffer cursor =
      read_flat fuel base buffer cursor (bytes b) h
  value-read (pointer o) h fuel deep base buffer cursor =
      read_flat fuel base buffer cursor (pointer o) h
  value-read (double d) h fuel deep base buffer cursor =
      read_flat fuel base buffer cursor (double d) h
  value-read (uint16 n) h fuel deep base buffer cursor =
      read_flat fuel base buffer cursor (uint16 n) h
  value-read (uint32 n) h fuel deep base buffer cursor =
      read_flat fuel base buffer cursor (uint32 n) h
  value-read (int32 n) h fuel deep base buffer cursor =
      read_flat fuel base buffer cursor (int32 n) h
  value-read (uint64 n) h fuel deep base buffer cursor =
      read_flat fuel base buffer cursor (uint64 n) h
  value-read (uint128 n) h fuel deep base buffer cursor =
      read_flat fuel base buffer cursor (uint128 n) h
  value-read (bool b) h fuel deep base buffer cursor = read_flat fuel base buffer cursor (bool b) h
  value-read (float f) h fuel deep base buffer cursor =
      read_flat fuel base buffer cursor (float f) h

  items-read :
      (vs : Items) → StorableItems vs → (fuel : ℕ) → depth_items vs ≤ fuel → ReadsItems fuel vs
  items-read nil all fuel deep = items-end fuel
  items-read (cons v vs) (h, all) fuel deep =
      let (head, tail) = larger_le (depth v) (depth_items vs) fuel deep in
      items-more fuel v vs (value-read v h fuel head) (items-read vs all fuel tail)

  fields-read :
      (fs : Fields)
      → StorableFields fs
      → (fuel : ℕ) → depth_fields fs ≤ fuel
      → Each (λ k v. IsFlat (string k) × ReadsBack fuel v) fs
  fields-read end all fuel deep = tt
  fields-read (field k v fs) (key, h, all) fuel deep =
      let (head, tail) = larger_le (depth v) (depth_fields fs) fuel deep in
      ((key, value-read v h fuel head), fields-read fs all fuel tail)

-- A value that is encoded anywhere in a buffer is decoded, by as many nested calls as its maps and arrays are
-- deep and one more, and the cursor ends behind its bytes. The value found is the same, but that the entries of
-- each map, also inside, are in the order of their keys. This holds of values whose numbers are in range,
-- whose strings are valid UTF-8, whose maps have different keys, whose arrays have at most 28 elements, and
-- whose strings, byte arrays and maps are shorter than the largest size that the format can express.
pub decode_at-encode_to_buffer_nested :
    (front rest : List ℕ) (fuel base : ℕ) (v : DataValue)
    → Storable v
    → depth v ≤ fuel
    → decode_at (suc fuel) (front ++ (encode_to_buffer v ++ rest)) base (length front)
      ≡ ok (normal v, length front + length (encode_to_buffer v))
decode_at-encode_to_buffer_nested front rest fuel base v h deep =
    value-read v h fuel deep base _ _ (middle-Stands front (encode_to_buffer v) rest)
