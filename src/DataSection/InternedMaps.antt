-- ===== src/DataSection/InternedMaps.antt =====
-- Maps and arrays encoded with interning.
use Prim.Native.Nat.{bit_and, bit_or}
use matchy.Base.{
  ℕ, zero, suc, ◌+◌, ◌*◌, ◌/◌, ◌^◌, ◌≤◌, ◌<◌, ◌≡◌, refl, sym, ap, subst, ◌∙◌, arith, List, [], ◌∷◌,
  ◌++◌, length, length-append, lt→ltb,
}
use matchy.Base.Bits.{bit_and_1f}
use matchy.DataSection.{
  DataValue, string, map, array, Items, Fields, end, field, count_items, count_fields, size_bits,
  size_bytes, encode_with_size, sort_by_key,
}
use matchy.DataSection.Decode.{
  decode_entries, decode_type, decode_extended, decode_array, decode_map, insert_field,
  resolve_pointers, resolve_items, resolve_fields,
}
use matchy.DataSection.Buffer.{Stands, Stands-head, Stands-tail, Stands-below}
use matchy.DataSection.Scalars.{decode_at-type}
use matchy.DataSection.Sizes.{max_size, decode_size-size_bits, control_bits}
use matchy.DataSection.RoundTrip.{IsFlat}
use matchy.DataSection.Entries.{
  Each, Absent, Distinct, sort_fields, pairs_by, sort_by_key-pairs_by, count-sort_fields,
  Each-sort_fields, Distinct-sort_fields, collect-Distinct,
}
use matchy.DataSection.Normal.{depth, depth_fields, normal-sort_fields, larger_le}
use matchy.DataSection.Encoder.{
  DataEncoder, push_bytes, intern_string, intern_pairs, encode_value_interned,
  encode_items_interned, interned_fields,
}
use matchy.DataSection.Extends.{
  Extends-refl, Extends-trans, Extends-append, Stands-Extends, end-Stands, intern_string-Step,
}
use matchy.DataSection.Interning.{
  Found, FoundItems, FoundFields, SameKeys, ItemsStep, FieldsStep, Works, push-cached,
}

-- One entry, and those behind it.
fields-more :
    (l : List ℕ) (v : DataValue) (fs : Fields)
    → IsFlat (string l)
    → Works v
    → (e e' : DataEncoder) → FieldsStep fs (encode_value_interned v (intern_string l e)) e'
    → FieldsStep (field l v fs) e e'
unfolding decode_entries resolve_fields
fields-more l v fs flat works e e' c =
    let a = intern_string-Step l e flat in
    let b = works (intern_string l e) in
    let room_b : length e'.buffer ≤ 2 ^ 32
        → length (encode_value_interned v (intern_string l e)).buffer ≤ 2 ^ 32 =
      λ room. let r = c.grows.room in omega arith in
    let room_a : length e'.buffer ≤ 2 ^ 32 → length (intern_string l e).buffer ≤ 2 ^ 32 =
      λ room. let r = room_b room in let q = b.grows.room in omega arith in
    record {
      grows = Extends-trans a.grows (Extends-trans b.grows c.grows);
      same_map = c.same_map ∙ b.same_map ∙ a.same_map;
      cached = λ room cache. c.cached room (b.cached (room_b room) (a.cached (room_a room) cache));
      found = λ room cache buffer g k (deep, rest).
          let held = a.cached (room_a room) cache in
          let behind = Extends-trans c.grows g in
          let key = a.found (room_a room) cache buffer (Extends-trans b.grows behind) k in
          let value = b.found (room_b room) held buffer behind k deep in
          let others = c.found room (b.cached (room_b room) held) buffer g k rest in
          record {
            raws = field l value.raw others.raws;
            same = (refl, others.same);
            decoded = λ m.
                rw (key.decoded, key.key, value.decoded)
                  (others.decoded (insert_field l value.raw m));
            resolved = rw (value.resolved, others.resolved) refl;
          };
    }

fields-Step :
    (fs : Fields)
    → Each (λ l v. IsFlat (string l) × Works v) fs
    → (e : DataEncoder) → FieldsStep fs e (intern_pairs (pairs_by encode_value_interned fs) e)
unfolding decode_entries resolve_fields
fields-Step end all e = record {
  grows = Extends-refl e.buffer;
  same_map = refl;
  cached = λ room cache. cache;
  found = λ room cache buffer g k deep. record {
    raws = end;
    same = tt;
    decoded = λ m. refl;
    resolved = refl;
  };
}
fields-Step (field l v fs) ((flat, works), all) e =
    fields-more l v fs flat works e _
      (fields-Step fs all (encode_value_interned v (intern_string l e)))

interned_fields-pairs_by : (fs : Fields) → interned_fields fs ≡ pairs_by encode_value_interned fs
unfolding encode_value_interned
interned_fields-pairs_by end = refl
interned_fields-pairs_by (field k v fs) =
    ap (λ r. (k, encode_value_interned v) ∷ r) (interned_fields-pairs_by fs)

sorted_actions :
    (m : Fields) → pairs_by encode_value_interned (sort_fields m) ≡ sort_by_key (interned_fields m)
sorted_actions m =
    sym (ap sort_by_key (interned_fields-pairs_by m) ∙ sort_by_key-pairs_by encode_value_interned m)

-- The entries that are found have the keys that were written.
Absent-SameKeys : (k : List ℕ) (fs gs : Fields) → SameKeys fs gs → Absent k gs → Absent k fs
Absent-SameKeys k end gs same new = tt
Absent-SameKeys k (field l v fs) end same new = absurd same
Absent-SameKeys k (field l v fs) (field l' w gs) (e, same) (other, new) =
    (rw e other, Absent-SameKeys k fs gs same new)

Distinct-SameKeys : (fs gs : Fields) → SameKeys fs gs → Distinct gs → Distinct fs
Distinct-SameKeys end gs same all = tt
Distinct-SameKeys (field l v fs) end same all = absurd same
Distinct-SameKeys (field l v fs) (field l' w gs) (e, same) (new, all) =
    (rw e (Absent-SameKeys l' fs gs same new), Distinct-SameKeys fs gs same all)

depth-Each : (fs : Fields) (k : ℕ) → depth_fields fs ≤ k → Each (λ l v. depth v ≤ k) fs
depth-Each end k h = tt
depth-Each (field l v fs) k h =
    let (head, tail) = larger_le (depth v) (depth_fields fs) k h in (head, depth-Each fs k tail)

-- What is found of a map whose control bytes stand in front of its entries.
found-map :
    (k : ℕ) (buffer : List ℕ) (cursor behind : ℕ) (m : Fields)
    → count_fields m < max_size
    → Distinct m
    → Stands buffer cursor (encode_with_size 7 (count_fields m))
    → FoundFields k buffer
        (cursor + length (encode_with_size 7 (count_fields m)))
        behind
        (sort_fields m)
    → Found (suc k) buffer cursor behind (map m)
unfolding decode_type decode_map encode_with_size resolve_fields resolve_pointers
found-map k buffer cursor behind m small apart st fs =
    let n = count_fields m in
    let st' : Stands buffer cursor (bit_or (7 * 2 ^ 5) (size_bits n) ∷ size_bytes n) = st in
    let (type_id, payload) = control_bits 7 n (omega arith) in
    let sized = decode_size-size_bits buffer (cursor + 1) n small (Stands-tail st') in
    let count = count-sort_fields m in
    let here : cursor + suc (length (size_bytes n)) ≡ cursor + 1 + length (size_bytes n) =
      omega arith in
    let all = Distinct-SameKeys fs.raws (sort_fields m) fs.same (Distinct-sort_fields m apart) in
    record {
      raw = map fs.raws;
      decoded =
          decode_at-type (suc (suc (suc k))) 0 buffer cursor _ _ st'
          ∙ rw
              (
                type_id,
                payload,
                sized,
                rw (count, here, collect-Distinct fs.raws all) at (fs.decoded end),
              )
              refl;
      resolved = rw (fs.resolved, normal-sort_fields m) refl;
    }

-- A bound above zero.
one_deeper : (P : ℕ → Type 0) {d : ℕ} (k : ℕ) → suc d ≤ k → ((j : ℕ) → d ≤ j → P (suc j)) → P k
one_deeper P zero deep next = absurd (omega arith)
one_deeper P (suc j) deep next = next j (omega arith)

pub map-Step :
    (m : Fields)
    → count_fields m < max_size
    → Distinct m
    → Each (λ l v. IsFlat (string l) × Works v) m
    → Works (map m)
unfolding encode_value_interned
map-Step m small apart all e =
    let n = count_fields m in
    let bs = encode_with_size 7 n in
    let inner : FieldsStep (sort_fields m) (push_bytes bs e) (encode_value_interned (map m) e) =
      subst (λ ps. FieldsStep (sort_fields m) (push_bytes bs e) (intern_pairs ps (push_bytes bs e)))
        (sorted_actions m)
        (fields-Step (sort_fields m) (Each-sort_fields _ m all) (push_bytes bs e)) in
    record {
      grows = Extends-trans (Extends-append e.buffer bs) inner.grows;
      same_map = inner.same_map;
      cached = λ room cache. inner.cached room (push-cached bs e cache);
      found = λ room cache buffer g k deep.
          one_deeper
            (λ j.
              Found j buffer (length e.buffer) (length (encode_value_interned (map m) e).buffer)
                (map m))
            k deep
            (λ j less.
              found-map j buffer (length e.buffer) _ m small apart
                (Stands-Extends g (Stands-Extends inner.grows (end-Stands e.buffer bs)))
                (rw (length-append e.buffer bs) at (
                  inner.found room (push-cached bs e cache) buffer g j
                    (Each-sort_fields _ m (depth-Each m j less)))));
    }

-- An array with few elements.
found-array :
    (k : ℕ) (buffer : List ℕ) (cursor behind : ℕ) (vs : Items)
    → count_items vs < 29
    → Stands buffer cursor (count_items vs ∷ 0x04 ∷ [])
    → FoundItems k buffer (cursor + 2) behind vs
    → Found (suc k) buffer cursor behind (array vs)
unfolding decode_type decode_extended decode_array resolve_items resolve_pointers
found-array k buffer cursor behind vs few st items =
    let n = count_items vs in
    let small = lt→ltb n 29 few in
    let s1 = Stands-tail st in
    let below = lt→ltb (cursor + 1) (length buffer) (Stands-below s1) in
    let here : cursor + 2 ≡ cursor + 1 + 1 = omega arith in
    let type_id : n / 2 ^ 5 ≡ 0 = omega arith in
    let payload : bit_and n 0x1F ≡ n = bit_and_1f n ∙ omega arith in
    record {
      raw = array items.raws;
      decoded =
          decode_at-type (suc (suc (suc k))) 0 buffer cursor _ _ st
          ∙ rw (type_id, payload, below, Stands-head s1, small, rw here at items.decoded) refl;
      resolved = rw items.resolved refl;
    }

pub array-Step :
    (vs : Items)
    → count_items vs < 29
    → ((e : DataEncoder) → ItemsStep vs e (encode_items_interned vs e))
    → Works (array vs)
unfolding encode_value_interned
array-Step vs few each e =
    let n = count_items vs in
    let small = lt→ltb n 29 few in
    let bs = (size_bits n ∷ size_bytes n) ++ 0x04 ∷ [] in
    let short : bs ≡ n ∷ 0x04 ∷ [] = rw small refl in
    let inner = each (push_bytes bs e) in
    let st : Stands (e.buffer ++ bs) (length e.buffer) (n ∷ 0x04 ∷ []) =
      subst (Stands (e.buffer ++ bs) (length e.buffer)) short (end-Stands e.buffer bs) in
    let size : length (e.buffer ++ bs) ≡ length e.buffer + 2 =
      length-append e.buffer bs ∙ ap (λ l. length e.buffer + length l) short in
    record {
      grows = Extends-trans (Extends-append e.buffer bs) inner.grows;
      same_map = inner.same_map;
      cached = λ room cache. inner.cached room (push-cached bs e cache);
      found = λ room cache buffer g k deep.
          one_deeper
            (λ j.
              Found j buffer (length e.buffer) (length (encode_value_interned (array vs) e).buffer)
                (array vs))
            k deep
            (λ j less.
              found-array j buffer (length e.buffer) _ vs few
                (Stands-Extends g (Stands-Extends inner.grows st))
                (subst
                  (λ c.
                    FoundItems j buffer c (length (encode_value_interned (array vs) e).buffer) vs)
                  size (inner.found room (push-cached bs e cache) buffer g j less)));
    }
