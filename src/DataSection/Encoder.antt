-- ===== src/DataSection/Encoder.antt =====
-- The encoder of src/data_section.rs: a buffer to which values are appended, with the offsets of the values
-- and of the strings that are in it already. Both maps are association lists, in which the last entry stands first.
use matchy.Base.{
  ℕ, ◌^◌, ◌%◌, List, [], ◌∷◌, ◌++◌, length, Bool, true, false, if◌then◌else◌, Option, none, some,
}
use matchy.Base.Bytes.{same_bytes}
use matchy.DataSection.{
  DataValue, string, map, array, Items, nil, cons, Fields, end, field, count_items, count_fields,
  size_bits, size_bytes, sort_by_key, encode_pointer, encode_string, encode_with_size,
  encode_to_buffer,
}

pub record DataEncoder : Type 0 where
  pub buffer : List ℕ
  pub dedup_map : List (List ℕ × ℕ)
  pub string_cache : List (List ℕ × ℕ)
  pub intern_strings : Bool

abbrev pub new : DataEncoder
new = record { buffer = []; dedup_map = []; string_cache = []; intern_strings = true }

abbrev pub new_without_interning : DataEncoder
new_without_interning = record {
  buffer = [];
  dedup_map = [];
  string_cache = [];
  intern_strings = false;
}

-- `HashMap::get`
abbrev pub get : List ℕ → List (List ℕ × ℕ) → Option ℕ
get k [] = none
get k ((l, offset) ∷ m) = if same_bytes k l then some offset else get k m

abbrev pub push_bytes : List ℕ → DataEncoder → DataEncoder
push_bytes bs e = record e { buffer = e.buffer ++ bs }

-- A string, or the key of a map: a pointer to the same string where one stands in the buffer.
unfoldable pub intern_string : List ℕ → DataEncoder → DataEncoder
intern_string s e =
    if e.intern_strings
    then elim (get s e.string_cache) [
      | some existing_offset ↦ push_bytes (encode_pointer existing_offset) e
      | none ↦ record e {
        buffer = e.buffer ++ encode_string s;
        string_cache = (s, length e.buffer % 2 ^ 32) ∷ e.string_cache;
      }
    ]
    else push_bytes (encode_string s) e

-- The loop over the entries of a map, whose values are given by what encodes them.
abbrev pub intern_pairs : List (List ℕ × (DataEncoder → DataEncoder)) → DataEncoder → DataEncoder
intern_pairs [] e = e
intern_pairs ((k, encode_value) ∷ ps) e = intern_pairs ps (encode_value (intern_string k e))

unfoldable mutual
  unfolding encode_to_buffer encode_with_size intern_string

  pub encode_value_interned : DataValue → DataEncoder → DataEncoder
  encode_value_interned (string s) e = intern_string s e
  encode_value_interned (map m) e =
      intern_pairs (sort_by_key (interned_fields m))
        (push_bytes (encode_with_size 7 (count_fields m)) e)
  encode_value_interned (array a) e =
      encode_items_interned a
        (push_bytes ((size_bits (count_items a) ∷ size_bytes (count_items a)) ++ 0x04 ∷ []) e)
  encode_value_interned v e = push_bytes (encode_to_buffer v) e

  pub encode_items_interned : Items → DataEncoder → DataEncoder
  encode_items_interned nil e = e
  encode_items_interned (cons v vs) e = encode_items_interned vs (encode_value_interned v e)

  pub interned_fields : Fields → List (List ℕ × (DataEncoder → DataEncoder))
  interned_fields end = []
  interned_fields (field k v fs) = (k, encode_value_interned v) ∷ interned_fields fs

-- The offset of a value, and the encoder after it. That interning is switched off while the value is written
-- for the comparison has no effect, since that writing does not look at it.
unfoldable pub encode : DataValue → DataEncoder → ℕ × DataEncoder
unfolding encode_value_interned
encode v e =
    let temp = encode_to_buffer v in
    elim (get temp e.dedup_map) [
      | some offset ↦ (offset, e)
      | none ↦
          let offset = length e.buffer % 2 ^ 32 in
          let e' = encode_value_interned v e in
          (offset, record e' { dedup_map = (temp, offset) ∷ e'.dedup_map })
    ]

abbrev pub into_bytes : DataEncoder → List ℕ
into_bytes e = e.buffer

abbrev pub size : DataEncoder → ℕ
size e = length e.buffer

-- `encode` for each of the values.
unfoldable pub encode_each : List DataValue → DataEncoder → List ℕ × DataEncoder
unfolding encode
encode_each [] e = ([], e)
encode_each (v ∷ vs) e =
    let (offset, e₁) = encode v e in let (offsets, e₂) = encode_each vs e₁ in (offset ∷ offsets, e₂)
