-- ===== src/DataSection/Encoded.antt =====
-- All values that can be written, with interning; and that values with the same bytes are the same.
use matchy.Base.{ℕ, suc, ◌+◌, ◌≡◌, refl, sym, ap, ◌∙◌, arith, List, [], ◌++◌, Bool-cases, inl, inr}
use matchy.DataSection.{
  DataValue, pointer, string, double, bytes, uint16, uint32, map, int32, uint64, uint128, array,
  bool, float, Items, nil, cons, Fields, end, field, before, encode_to_buffer,
}
use matchy.DataSection.Decode.{decode_at, resolve_pointers}
use matchy.DataSection.RoundTrip.{IsFlat}
use matchy.DataSection.Entries.{Each, place_field, sort_fields}
use matchy.DataSection.Normal.{
  larger, depth, depth_items, depth_fields, normal, normal_items, normal_fields, Storable,
  StorableItems, StorableFields,
}
use matchy.DataSection.Nested.{decode_at-encode_to_buffer_nested}
use matchy.DataSection.Encoder.{DataEncoder, encode_value_interned, encode_items_interned}
use matchy.DataSection.Interning.{Works, ItemsStep, push-Step, string-Step, items-end, items-more}
use matchy.DataSection.InternedMaps.{map-Step, array-Step}

-- Values without pointers inside.
abbrev mutual
  pub Plain : DataValue → Type 0
  Plain (pointer o) = ⊥
  Plain (map m) = PlainFields m
  Plain (array a) = PlainItems a
  Plain v = Unit

  pub PlainItems : Items → Type 0
  PlainItems nil = Unit
  PlainItems (cons v vs) = Plain v × PlainItems vs

  pub PlainFields : Fields → Type 0
  PlainFields end = Unit
  PlainFields (field k v fs) = Plain v × PlainFields fs

mutual
  unfolding encode_value_interned resolve_pointers

  pub value-Works : (v : DataValue) → Storable v → Plain v → Works v
  value-Works (map m) (small, apart, all) plain e =
      map-Step m small apart (fields-Works m all plain) e
  value-Works (array a) (few, all) plain e = array-Step a few (items-Works a all plain) e
  value-Works (string s) h plain e = string-Step s h e
  value-Works (pointer o) h plain e = absurd plain
  value-Works (bytes b) h plain e = push-Step (bytes b) e h (λ k buffer. refl)
  value-Works (double d) h plain e = push-Step (double d) e h (λ k buffer. refl)
  value-Works (uint16 n) h plain e = push-Step (uint16 n) e h (λ k buffer. refl)
  value-Works (uint32 n) h plain e = push-Step (uint32 n) e h (λ k buffer. refl)
  value-Works (int32 n) h plain e = push-Step (int32 n) e h (λ k buffer. refl)
  value-Works (uint64 n) h plain e = push-Step (uint64 n) e h (λ k buffer. refl)
  value-Works (uint128 n) h plain e = push-Step (uint128 n) e h (λ k buffer. refl)
  value-Works (bool b) h plain e = push-Step (bool b) e h (λ k buffer. refl)
  value-Works (float f) h plain e = push-Step (float f) e h (λ k buffer. refl)

  items-Works :
      (vs : Items)
      → StorableItems vs
      → PlainItems vs
      → (e : DataEncoder) → ItemsStep vs e (encode_items_interned vs e)
  items-Works nil all plain e = items-end e
  items-Works (cons v vs) (h, all) (p, plain) e =
      items-more v vs (value-Works v h p) (items-Works vs all plain) e

  fields-Works :
      (fs : Fields)
      → StorableFields fs
      → PlainFields fs
      → Each (λ l v. IsFlat (string l) × Works v) fs
  fields-Works end all plain = tt
  fields-Works (field k v fs) (key, h, all) (p, plain) =
      ((key, value-Works v h p), fields-Works fs all plain)

-- Sorting keeps the depth.
larger_swap : (a b c : ℕ) → larger a (larger b c) ≡ larger b (larger a c)
larger_swap a b c = ground arith

depth-place_field :
    (k : List ℕ) (v : DataValue) (fs : Fields)
    → depth_fields (place_field k v fs) ≡ larger (depth v) (depth_fields fs)
depth-place_field k v end = refl
depth-place_field k v (field l w fs) = elim (Bool-cases (before k l)) [
  | inl h ↦ rw h refl
  | inr h ↦ rw h (
      ap (larger (depth w)) (depth-place_field k v fs)
      ∙ larger_swap (depth w) (depth v) (depth_fields fs))
]

depth-sort_fields : (fs : Fields) → depth_fields (sort_fields fs) ≡ depth_fields fs
depth-sort_fields end = refl
depth-sort_fields (field k v fs) =
    depth-place_field k v (sort_fields fs) ∙ ap (larger (depth v)) (depth-sort_fields fs)

mutual
  pub depth-normal : (v : DataValue) → depth (normal v) ≡ depth v
  depth-normal (map m) = ap suc (depth-sort_fields (normal_fields m) ∙ depth-normal_fields m)
  depth-normal (array a) = ap suc (depth-normal_items a)
  depth-normal (string s) = refl
  depth-normal (pointer o) = refl
  depth-normal (bytes b) = refl
  depth-normal (double d) = refl
  depth-normal (uint16 n) = refl
  depth-normal (uint32 n) = refl
  depth-normal (int32 n) = refl
  depth-normal (uint64 n) = refl
  depth-normal (uint128 n) = refl
  depth-normal (bool b) = refl
  depth-normal (float f) = refl

  depth-normal_items : (vs : Items) → depth_items (normal_items vs) ≡ depth_items vs
  depth-normal_items nil = refl
  depth-normal_items (cons v vs) = rw (depth-normal v, depth-normal_items vs) refl

  depth-normal_fields : (fs : Fields) → depth_fields (normal_fields fs) ≡ depth_fields fs
  depth-normal_fields end = refl
  depth-normal_fields (field k v fs) = rw (depth-normal v, depth-normal_fields fs) refl

-- Values with the same bytes are read as the same value.
pub encode_to_buffer-injective :
    (v w : DataValue)
    → Storable v
    → Storable w
    → encode_to_buffer v ≡ encode_to_buffer w
    → normal v ≡ normal w
encode_to_buffer-injective v w h g same =
    let fuel = depth v + depth w in
    let first = decode_at-encode_to_buffer_nested [] [] fuel 0 v h (omega arith) in
    let second = decode_at-encode_to_buffer_nested [] [] fuel 0 w g (omega arith) in
    let both = sym first ∙ ap (λ bs. decode_at (suc fuel) (bs ++ []) 0 0) same ∙ second in cc
