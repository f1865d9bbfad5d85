-- ===== src/DataSection.antt =====
-- The data section of src/data_section.rs: its values, and their encoding without interning
-- (`encode_to_buffer`). A string is its UTF-8 bytes, a float its bits, a signed number its two's
-- complement, and a map the list of its entries.
pub mod Decode
pub mod Buffer
pub mod PointerSizes
pub mod Pointers
pub mod Cycles
pub mod Arrays
pub mod Integers
pub mod Scalars
pub mod Sizes
pub mod RoundTrip
pub mod Entries
pub mod Encoder
pub mod Extends
pub mod Interning
pub mod InternedMaps
pub mod Encoded
pub mod Sharing
pub mod Normal
pub mod Nested
mod Examples
use Prim.Native.Nat.{bit_and, bit_or}
use matchy.Base.{
  ℕ, zero, suc, ◌+◌, ◌-◌, ◌*◌, ◌/◌, ◌%◌, ◌^◌, ltb, ◌==◌, if◌then◌else◌, List, [], ◌∷◌, ◌++◌, length,
  Bool, true, false,
}
use matchy.Base.Bits.{shl, shr}

mutual
  pub data DataValue : Type 0 where
    pointer : ℕ → DataValue
    string : List ℕ → DataValue
    double : ℕ → DataValue
    bytes : List ℕ → DataValue
    uint16 uint32 : ℕ → DataValue
    map : Fields → DataValue
    int32 uint64 uint128 : ℕ → DataValue
    array : Items → DataValue
    bool : Bool → DataValue
    float : ℕ → DataValue

  pub data Items : Type 0 where
    nil : Items
    cons : DataValue → Items → Items

  pub data Fields : Type 0 where
    end : Fields
    field : List ℕ → DataValue → Fields → Fields

abbrev pub count_items : Items → ℕ
count_items nil = 0
count_items (cons v vs) = suc (count_items vs)

abbrev pub count_fields : Fields → ℕ
count_fields end = 0
count_fields (field k v fs) = suc (count_fields fs)

-- `to_be_bytes` of a number of `w` bytes
abbrev pub to_be_bytes : ℕ → ℕ → List ℕ
to_be_bytes zero n = []
to_be_bytes (suc w) n = n / 2 ^ (8 * w) % 256 ∷ to_be_bytes w n

-- `((x >> k) & 0xFF) as u8`
abbrev pub low_byte : ℕ → ℕ → ℕ
low_byte x k = bit_and (shr x k) 0xFF

unfoldable pub encode_pointer : ℕ → List ℕ
encode_pointer offset =
    if ltb offset 2048
    then bit_or 0x20 (bit_and (shr offset 8) 0x7) ∷ bit_and offset 0xFF ∷ []
    else if ltb offset (2048 + 524288)
    then (let adjusted = offset - 2048 in
        bit_or 0x28 (bit_and (shr adjusted 16) 0x7)
        ∷ low_byte adjusted 8
        ∷ bit_and adjusted 0xFF
        ∷ [])
    else if ltb offset (2048 + 524288 + 134217728)
    then (let adjusted = offset - 526336 in
        bit_or 0x30 (bit_and (shr adjusted 24) 0x7)
        ∷ low_byte adjusted 16
        ∷ low_byte adjusted 8
        ∷ bit_and adjusted 0xFF
        ∷ [])
    else 0x38 ∷ to_be_bytes 4 offset

-- The size bits of the control byte, and the bytes behind it.
abbrev pub size_bits : ℕ → ℕ
size_bits size =
    if ltb size 29
    then size
    else if ltb size (29 + 256)
    then 29
    else if ltb size (29 + 256 + 65536)
    then 30
    else 31

abbrev pub size_bytes : ℕ → List ℕ
size_bytes size =
    if ltb size 29
    then []
    else if ltb size (29 + 256)
    then (size - 29) ∷ []
    else if ltb size (29 + 256 + 65536)
    then to_be_bytes 2 ((size - 29 - 256) % 2 ^ 16)
    else to_be_bytes 3 ((size - 29 - 256 - 65536) % 2 ^ 32)

unfoldable pub encode_with_size : ℕ → ℕ → List ℕ
encode_with_size type_id size = bit_or (shl type_id 5) (size_bits size) ∷ size_bytes size

unfoldable pub encode_string : List ℕ → List ℕ
unfolding encode_with_size
encode_string s = encode_with_size 2 (length s) ++ s

unfoldable pub encode_bytes : List ℕ → List ℕ
unfolding encode_with_size
encode_bytes b = encode_with_size 4 (length b) ++ b

-- The comparison of strings, and `sort_by_key` on the entries of a map, by what is to be done with a value.
abbrev pub before : List ℕ → List ℕ → Bool
before [] l = true
before (c ∷ k) [] = false
before (c ∷ k) (d ∷ l) = if c == d then before k l else ltb c d

abbrev pub insert_pair {ℓ} : {A : Type ℓ} → List ℕ × A → List (List ℕ × A) → List (List ℕ × A)
insert_pair p [] = p ∷ []
insert_pair p (q ∷ qs) = if before p.0 q.0 then p ∷ q ∷ qs else q ∷ insert_pair p qs

abbrev pub sort_by_key {ℓ} : {A : Type ℓ} → List (List ℕ × A) → List (List ℕ × A)
sort_by_key [] = []
sort_by_key (p ∷ ps) = insert_pair p (sort_by_key ps)

abbrev pub encode_pairs : List (List ℕ × List ℕ) → List ℕ
encode_pairs [] = []
encode_pairs ((k, v) ∷ ps) = encode_string k ++ v ++ encode_pairs ps

unfoldable mutual
  unfolding encode_pointer encode_string encode_bytes encode_with_size

  pub encode_to_buffer : DataValue → List ℕ
  encode_to_buffer (pointer offset) = encode_pointer offset
  encode_to_buffer (string s) = encode_string s
  encode_to_buffer (double d) = 0x68 ∷ to_be_bytes 8 d
  encode_to_buffer (bytes b) = encode_bytes b
  encode_to_buffer (uint16 n) = 0xA2 ∷ to_be_bytes 2 n
  encode_to_buffer (uint32 n) = 0xC4 ∷ to_be_bytes 4 n
  encode_to_buffer (map m) =
      encode_with_size 7 (count_fields m) ++ encode_pairs (sort_by_key (encode_fields m))
  encode_to_buffer (int32 n) = 0x04 ∷ 0x01 ∷ to_be_bytes 4 n
  encode_to_buffer (uint64 n) = 0x08 ∷ 0x02 ∷ to_be_bytes 8 n
  encode_to_buffer (uint128 n) = 0x10 ∷ 0x03 ∷ to_be_bytes 16 n
  encode_to_buffer (array a) =
      (size_bits (count_items a) ∷ size_bytes (count_items a)) ++ 0x04 ∷ encode_items a
  encode_to_buffer (bool true) = 0x01 ∷ 0x07 ∷ []
  encode_to_buffer (bool false) = 0x00 ∷ 0x07 ∷ []
  encode_to_buffer (float f) = 0x04 ∷ 0x08 ∷ to_be_bytes 4 f

  pub encode_items : Items → List ℕ
  encode_items nil = []
  encode_items (cons v vs) = encode_to_buffer v ++ encode_items vs

  pub encode_fields : Fields → List (List ℕ × List ℕ)
  encode_fields end = []
  encode_fields (field k v fs) = (k, encode_to_buffer v) ∷ encode_fields fs
