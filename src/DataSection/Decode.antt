-- ===== src/DataSection/Decode.antt =====
-- Decoding (`DataDecoder` of src/data_section.rs). The error messages are one error. Each nested call of
-- `decode_at`, `decode` and `resolve_pointers` takes one unit of fuel.
use Prim.Native.Nat.{bit_and, bit_or}
use matchy.Base.{
  ℕ, zero, suc, ◌+◌, ◌-◌, ◌*◌, ◌%◌, ◌^◌, ltb, leb, ◌==◌, if◌then◌else◌, List, [], ◌∷◌, length, Bool,
  true, false, not, ◌&&◌, Option, none, some, get_elem?, Result, ok, err, ◌>>=◌, ◌>>◌, guard,
}
use matchy.Base.Results.{invalid_format, panic, out_of_fuel}
use matchy.Base.Bits.{shl, shr}
use matchy.Base.Bytes.{same_bytes}
use matchy.DataSection.{
  DataValue, pointer, string, double, bytes, uint16, uint32, map, int32, uint64, uint128, array,
  bool, float, Items, nil, cons, Fields, end, field,
}

-- `buffer[i]`
unfoldable pub byte_at : List ℕ → ℕ → Result ℕ
byte_at buffer i = elim (get_elem? buffer i) [ none ↦ err panic | some b ↦ ok b ]

-- `buffer[cursor..cursor + n]`
unfoldable pub slice : ℕ → List ℕ → ℕ → Result (List ℕ)
unfolding byte_at
slice zero buffer cursor = ok []
slice (suc n) buffer cursor = do
  b ← byte_at buffer cursor
  bs ← slice n buffer (cursor + 1)
  ok (b ∷ bs)

-- `for i in 0..size { value = (value << 8) | buffer[cursor + i] }` on a word of `width` bits
unfoldable pub read_be : ℕ → ℕ → List ℕ → ℕ → ℕ → Result ℕ
unfolding byte_at
read_be width zero buffer cursor value = ok value
read_be width (suc n) buffer cursor value = do
  b ← byte_at buffer cursor
  read_be width n buffer (cursor + 1) (bit_or (value * 2 ^ 8 % 2 ^ width) b)

-- A size and the cursor behind its bytes.
unfoldable pub decode_size : List ℕ → ℕ → ℕ → Result (ℕ × ℕ)
unfolding byte_at
decode_size buffer cursor bits =
    if ltb bits 29
    then ok (bits, cursor)
    else if bits == 29
    then (do
      guard (ltb cursor (length buffer)) invalid_format
      b0 ← byte_at buffer cursor
      ok (29 + b0, cursor + 1))
    else if bits == 30
    then (do
      guard (leb (cursor + 2) (length buffer)) invalid_format
      b0 ← byte_at buffer cursor
      b1 ← byte_at buffer (cursor + 1)
      ok (29 + 256 + (b0 * 2 ^ 8 + b1), cursor + 2))
    else if bits == 31
    then (do
      guard (leb (cursor + 3) (length buffer)) invalid_format
      b0 ← byte_at buffer cursor
      b1 ← byte_at buffer (cursor + 1)
      b2 ← byte_at buffer (cursor + 2)
      ok (29 + 256 + 65536 + bit_or (bit_or (shl b0 16) (shl b1 8)) b2, cursor + 3))
    else err invalid_format

abbrev pub Decoded : Type 0
Decoded = Result (DataValue × ℕ)

unfoldable pub decode_pointer : List ℕ → ℕ → ℕ → Decoded
unfolding byte_at read_be
decode_pointer buffer cursor payload =
    let kind = bit_and (shr payload 3) 0x3 in
    let top = bit_and payload 0x7 in
    if kind == 0
    then (do
      guard (ltb cursor (length buffer)) invalid_format
      b0 ← byte_at buffer cursor
      ok (pointer (bit_or (shl top 8) b0), cursor + 1))
    else if kind == 1
    then (do
      guard (ltb (cursor + 1) (length buffer)) invalid_format
      b0 ← byte_at buffer cursor
      b1 ← byte_at buffer (cursor + 1)
      ok (pointer (2048 + bit_or (bit_or (shl top 16) (shl b0 8)) b1), cursor + 2))
    else if kind == 2
    then (do
      guard (ltb (cursor + 2) (length buffer)) invalid_format
      b0 ← byte_at buffer cursor
      b1 ← byte_at buffer (cursor + 1)
      b2 ← byte_at buffer (cursor + 2)
      ok (
        pointer (526336 + bit_or (bit_or (bit_or (shl top 24) (shl b0 16)) (shl b1 8)) b2),
        cursor + 3,
      ))
    else (do
      guard (ltb (cursor + 3) (length buffer)) invalid_format
      n ← read_be 32 4 buffer cursor 0
      ok (pointer n, cursor + 4))

-- `decode_uint16`, `decode_uint32`, `decode_uint64` and `decode_uint128`: `most` bytes at most.
unfoldable pub decode_uint : ℕ → (ℕ → DataValue) → List ℕ → ℕ → ℕ → Decoded
unfolding decode_size read_be
decode_uint most value buffer cursor bits = do
  (size, cursor) ← decode_size buffer cursor bits
  guard (leb size most) invalid_format
  guard (leb (cursor + size) (length buffer)) invalid_format
  n ← read_be (8 * most) size buffer cursor 0
  ok (value n, cursor + size)

-- The start value of the sign extension: all ones where the first byte has its high bit set.
unfoldable pub sign_start : ℕ → List ℕ → ℕ → Result ℕ
unfolding byte_at
sign_start zero buffer cursor = ok 0
sign_start (suc n) buffer cursor = do
  b0 ← byte_at buffer cursor
  ok (if bit_and b0 0x80 == 0 then 0 else 2 ^ 32 - 1)

unfoldable pub decode_int32 : List ℕ → ℕ → ℕ → Decoded
unfolding decode_size read_be sign_start
decode_int32 buffer cursor bits = do
  (size, cursor) ← decode_size buffer cursor bits
  guard (leb size 4) invalid_format
  guard (leb (cursor + size) (length buffer)) invalid_format
  start ← sign_start size buffer cursor
  n ← read_be 32 size buffer cursor start
  ok (int32 n, cursor + size)

-- The eight bytes of a double, the four of a float.
unfoldable pub decode_fixed : ℕ → (ℕ → DataValue) → List ℕ → ℕ → Decoded
unfolding read_be
decode_fixed width value buffer cursor = do
  guard (leb (cursor + width) (length buffer)) invalid_format
  n ← read_be (8 * width) width buffer cursor 0
  ok (value n, cursor + width)

abbrev pub decode_float : List ℕ → ℕ → ℕ → Decoded
decode_float buffer cursor bits = do
  guard (bits == 4) invalid_format
  decode_fixed 4 float buffer cursor

unfoldable pub decode_bytes : List ℕ → ℕ → ℕ → Decoded
unfolding decode_size slice
decode_bytes buffer cursor bits = do
  (size, cursor) ← decode_size buffer cursor bits
  guard (leb (cursor + size) (length buffer)) invalid_format
  b ← slice size buffer cursor
  ok (bytes b, cursor + size)

-- `str::from_utf8`. The first byte of a character fixes how many bytes follow, and the range of the next.
abbrev pub between : ℕ → ℕ → ℕ → Bool
between low high b = leb low b && leb b high

abbrev pub lead : ℕ → Option (ℕ × ℕ × ℕ)
lead b =
    if ltb b 0x80
    then some (0, 0x80, 0xBF)
    else if between 0xC2 0xDF b
    then some (1, 0x80, 0xBF)
    else if b == 0xE0
    then some (2, 0xA0, 0xBF)
    else if b == 0xED
    then some (2, 0x80, 0x9F)
    else if between 0xE1 0xEF b
    then some (2, 0x80, 0xBF)
    else if b == 0xF0
    then some (3, 0x90, 0xBF)
    else if between 0xF1 0xF3 b
    then some (3, 0x80, 0xBF)
    else if b == 0xF4
    then some (3, 0x80, 0x8F)
    else none

-- `n` bytes of a character are missing, the next of them in the range.
unfoldable pub utf8_from : ℕ → ℕ → ℕ → List ℕ → Bool
utf8_from zero low high [] = true
utf8_from (suc n) low high [] = false
utf8_from zero low high (b ∷ bs) = elim (lead b) [
  | none ↦ false
  | some (n, l, h) ↦ utf8_from n l h bs
]
utf8_from (suc n) low high (b ∷ bs) = between low high b && utf8_from n 0x80 0xBF bs

abbrev pub from_utf8 : List ℕ → Bool
from_utf8 bs = utf8_from 0 0x80 0xBF bs

unfoldable pub decode_string : List ℕ → ℕ → ℕ → Decoded
unfolding decode_size slice utf8_from
decode_string buffer cursor bits = do
  (size, cursor) ← decode_size buffer cursor bits
  guard (leb (cursor + size) (length buffer)) invalid_format
  s ← slice size buffer cursor
  guard (from_utf8 s) invalid_format
  ok (string s, cursor + size)

-- `for _ in 0..count { array.push(self.decode_at(cursor)?) }`
unfoldable pub decode_items : (ℕ → Decoded) → ℕ → ℕ → Result (Items × ℕ)
decode_items at zero cursor = ok (nil, cursor)
decode_items at (suc count) cursor = do
  (v, cursor) ← at cursor
  (vs, cursor) ← decode_items at count cursor
  ok (cons v vs, cursor)

-- `HashMap::insert`: a later entry replaces an earlier one with the same key.
abbrev pub insert_field : List ℕ → DataValue → Fields → Fields
insert_field k v end = field k v end
insert_field k v (field l w fs) =
    if same_bytes k l then field k v fs else field l w (insert_field k v fs)

-- The key of an entry: a string, or a pointer to one.
abbrev pub key_of : (ℕ → Result DataValue) → DataValue → Result (List ℕ)
key_of follow (string s) = ok s
key_of follow (pointer offset) = do
  v ← follow offset
  elim v [ string s ↦ ok s | _ ↦ err invalid_format ]
key_of follow _ = err invalid_format

unfoldable pub decode_entries :
    (ℕ → Decoded) → (ℕ → Result DataValue) → ℕ → ℕ → Fields → Result (Fields × ℕ)
decode_entries at follow zero cursor m = ok (m, cursor)
decode_entries at follow (suc count) cursor m = do
  (key_value, cursor) ← at cursor
  key ← key_of follow key_value
  (v, cursor) ← at cursor
  decode_entries at follow count cursor (insert_field key v m)

unfoldable pub decode_array : (ℕ → Decoded) → List ℕ → ℕ → ℕ → Decoded
unfolding decode_size decode_items
decode_array at buffer cursor bits = do
  (count, cursor) ← decode_size buffer cursor bits
  (vs, cursor) ← decode_items at count cursor
  ok (array vs, cursor)

unfoldable pub decode_map : (ℕ → Decoded) → (ℕ → Result DataValue) → List ℕ → ℕ → ℕ → Decoded
unfolding decode_size decode_entries
decode_map at follow buffer cursor bits = do
  (count, cursor) ← decode_size buffer cursor bits
  (m, cursor) ← decode_entries at follow count cursor end
  ok (map m, cursor)

-- `7 + raw_ext_type` is a sum of `u8`.
unfoldable pub decode_extended : (ℕ → Decoded) → List ℕ → ℕ → ℕ → Decoded
unfolding decode_int32 decode_uint decode_fixed decode_array byte_at
decode_extended at buffer cursor bits = do
  guard (ltb cursor (length buffer)) invalid_format
  raw ← byte_at buffer cursor
  let type_id = (7 + raw) % 2 ^ 8
  if type_id == 8
      then decode_int32 buffer (cursor + 1) bits
      else if type_id == 9
      then decode_uint 8 uint64 buffer (cursor + 1) bits
      else if type_id == 10
      then decode_uint 16 uint128 buffer (cursor + 1) bits
      else if type_id == 11
      then decode_array at buffer (cursor + 1) bits
      else if type_id == 14
      then ok (bool (not (bits == 0)), cursor + 1)
      else if type_id == 15
      then decode_float buffer (cursor + 1) bits
      else err invalid_format

-- The `match` of `decode_at`.
unfoldable pub decode_type : (ℕ → Decoded) → (ℕ → Result DataValue) → List ℕ → ℕ → ℕ → ℕ → Decoded
unfolding decode_extended decode_pointer decode_string decode_bytes decode_map
decode_type at follow buffer cursor type_id payload =
    if type_id == 0
    then decode_extended at buffer cursor payload
    else if type_id == 1
    then decode_pointer buffer cursor payload
    else if type_id == 2
    then decode_string buffer cursor payload
    else if type_id == 3
    then decode_fixed 8 double buffer cursor
    else if type_id == 4
    then decode_bytes buffer cursor payload
    else if type_id == 5
    then decode_uint 2 uint16 buffer cursor payload
    else if type_id == 6
    then decode_uint 4 uint32 buffer cursor payload
    else if type_id == 7
    then decode_map at follow buffer cursor payload
    else err invalid_format

unfoldable pub resolve_items : (DataValue → Result DataValue) → Items → Result Items
resolve_items resolve nil = ok nil
resolve_items resolve (cons v vs) = do
  v' ← resolve v
  vs' ← resolve_items resolve vs
  ok (cons v' vs')

unfoldable pub resolve_fields : (DataValue → Result DataValue) → Fields → Result Fields
resolve_fields resolve end = ok end
resolve_fields resolve (field k v fs) = do
  v' ← resolve v
  fs' ← resolve_fields resolve fs
  ok (field k v' fs')

unfoldable mutual
  unfolding decode_type resolve_items resolve_fields

  pub decode_at : ℕ → List ℕ → ℕ → ℕ → Decoded
  decode_at zero buffer base cursor = err out_of_fuel
  decode_at (suc fuel) buffer base cursor = do
    guard (ltb cursor (length buffer)) invalid_format
    ctrl ← byte_at buffer cursor
    decode_type (decode_at fuel buffer base) (decode fuel buffer base) buffer (cursor + 1)
        (shr ctrl 5) (bit_and ctrl 0x1F)

  pub decode : ℕ → List ℕ → ℕ → ℕ → Result DataValue
  decode zero buffer base offset = err out_of_fuel
  decode (suc fuel) buffer base offset = do
    guard (leb base offset) invalid_format
    (v, _) ← decode_at fuel buffer base (offset - base)
    resolve_pointers fuel buffer base v

  pub resolve_pointers : ℕ → List ℕ → ℕ → DataValue → Result DataValue
  resolve_pointers zero buffer base v = err out_of_fuel
  resolve_pointers (suc fuel) buffer base (pointer offset) = do
    guard (leb base offset) invalid_format
    (v, _) ← decode_at fuel buffer base (offset - base)
    resolve_pointers fuel buffer base v
  resolve_pointers (suc fuel) buffer base (map m) = do
    m' ← resolve_fields (resolve_pointers fuel buffer base) m
    ok (map m')
  resolve_pointers (suc fuel) buffer base (array vs) = do
    vs' ← resolve_items (resolve_pointers fuel buffer base) vs
    ok (array vs')
  resolve_pointers (suc fuel) buffer base v = ok v
