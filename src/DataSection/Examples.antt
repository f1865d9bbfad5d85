-- ===== src/DataSection/Examples.antt =====
-- Values in concrete buffers.
use matchy.Base.{
  ℕ, ◌-◌, ◌<◌, ◌^◌, List, get_elem?, some, zero, suc, ◌+◌, ◌≡◌, refl, arith, [], ◌∷◌, ◌++◌, length,
  ok, err, true,
}
use matchy.Base.Results.{invalid_format, out_of_fuel}
use matchy.DataSection.{
  DataValue, encode_string, encode_with_size, bool, string, array, Items, nil, cons, map, end,
  field, encode_pointer, encode_to_buffer, int32,
}
use matchy.DataSection.Decode.{decode_at, decode, utf8_from}
use matchy.DataSection.Cycles.{decode-self_pointer}
use matchy.DataSection.Normal.{Storable, normal}
use matchy.DataSection.Nested.{decode_at-encode_to_buffer_nested}
use matchy.DataSection.Encoder.{
  new, encode_value_interned, intern_string, encode, encode_each, into_bytes,
}
use matchy.DataSection.Sharing.{encode_each-decode}
use matchy.DataSection.Arrays.{decode_at-long_array}

decode-self_pointer_example : decode 1000 (0x20 ∷ 0x00 ∷ 7 ∷ []) 0 0 ≡ err out_of_fuel
decode-self_pointer_example = decode-self_pointer 1000 (7 ∷ [])

abbrev trues : ℕ → Items
trues zero = nil
trues (suc n) = cons (bool true) (trues n)

decode_at-long_array_example :
    decode_at 50 (encode_to_buffer (array (trues 38)) ++ []) 0 0 ≡ err invalid_format
decode_at-long_array_example =
    decode_at-long_array [] [] 49 0 9 (trues 38) (omega arith) (omega arith) refl

-- {"b": [true], "a": "x"}: the keys are sorted.
abbrev nested : DataValue
nested =
    map (field (98 ∷ []) (array (cons (bool true) nil)) (field (97 ∷ []) (string (120 ∷ [])) end))

encode_to_buffer-nested :
    encode_to_buffer nested
    ≡ 0xE2 ∷ 0x41 ∷ 97 ∷ 0x41 ∷ 120 ∷ 0x41 ∷ 98 ∷ 0x01 ∷ 0x04 ∷ 0x01 ∷ 0x07 ∷ []
unfolding encode_to_buffer
encode_to_buffer-nested = refl

decode-nested :
    decode 9 (encode_to_buffer nested) 0 0
    ≡ ok (
        map (
          field (97 ∷ []) (string (120 ∷ [])) (field (98 ∷ []) (array (cons (bool true) nil)) end)))
unfolding encode_to_buffer decode
decode-nested = refl

-- Four bytes are an int32, five are not.
decode-four : decode 9 (0x04 ∷ 0x01 ∷ 255 ∷ 255 ∷ 255 ∷ 254 ∷ []) 0 0 ≡ ok (int32 (2 ^ 32 - 2))
unfolding decode
decode-four = refl

decode-five : decode 9 (0x05 ∷ 0x01 ∷ 0 ∷ 0 ∷ 0 ∷ 0 ∷ 1 ∷ []) 0 0 ≡ err invalid_format
unfolding decode
decode-five = refl

nested-Storable : Storable nested
unfolding utf8_from
nested-Storable = (
  omega arith,
  ((refl, tt), (tt, tt)),
  ((omega arith, refl), (omega arith, (tt, tt)), ((omega arith, refl), (omega arith, refl), tt)),
)

letter-Storable : Storable (string (98 ∷ []))
unfolding utf8_from
letter-Storable = (omega arith, refl)

decode_at-encode_to_buffer_nested_example :
    decode_at 3 (7 ∷ encode_to_buffer nested ++ 9 ∷ []) 0 1
    ≡ ok (normal nested, 1 + length (encode_to_buffer nested))
decode_at-encode_to_buffer_nested_example =
    decode_at-encode_to_buffer_nested (7 ∷ []) (9 ∷ []) 2 0 nested nested-Storable (omega arith)

-- The string "b" is the key of the map before, and the map is the same.
abbrev thrice : List DataValue
thrice = nested ∷ string (98 ∷ []) ∷ nested ∷ []

offsets-thrice : (encode_each thrice new).0 ≡ 0 ∷ 11 ∷ 0 ∷ []
unfolding encode_each encode encode_value_interned intern_string encode_to_buffer encode_string
    encode_with_size
offsets-thrice = refl

bytes-thrice :
    into_bytes (encode_each thrice new).1
    ≡ 0xE2 ∷ 0x41 ∷ 97 ∷ 0x41 ∷ 120 ∷ 0x41 ∷ 98 ∷ 0x01 ∷ 0x04 ∷ 0x01 ∷ 0x07 ∷ 0x20 ∷ 0x05 ∷ []
unfolding encode_each encode encode_value_interned intern_string encode_to_buffer encode_string
    encode_with_size encode_pointer
bytes-thrice = refl

short_thrice : length (encode_each thrice new).1.buffer < 2 ^ 32
unfolding encode_each encode encode_value_interned intern_string encode_to_buffer encode_string
    encode_with_size encode_pointer
short_thrice = omega arith

encode_each-decode_example :
    (offset : ℕ) × (get_elem? (encode_each thrice new).0 2 ≡ some offset)
    × (decode (4 + 2) (into_bytes (encode_each thrice new).1 ++ 9 ∷ []) 0 offset
        ≡ ok (normal nested))
encode_each-decode_example =
    encode_each-decode true thrice (9 ∷ []) 2 2 nested
      (
        (nested-Storable, ((tt, tt), (tt, tt))),
        ((letter-Storable, tt), ((nested-Storable, ((tt, tt), (tt, tt))), tt)),
      )
      short_thrice refl (omega arith)
