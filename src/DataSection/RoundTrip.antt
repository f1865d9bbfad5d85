-- ===== src/DataSection/RoundTrip.antt =====
-- Values that hold no other values: encoded and decoded.
use matchy.Base.{ℕ, suc, ◌+◌, ◌<◌, ◌≡◌, List, ◌++◌, length, true, ok}
use matchy.DataSection.{
  DataValue, pointer, string, double, bytes, uint16, uint32, map, int32, uint64, uint128, array,
  bool, float, encode_to_buffer,
}
use matchy.DataSection.Decode.{decode_at, from_utf8}
use matchy.DataSection.Buffer.{middle-Stands}
use matchy.DataSection.Scalars.{IsScalar, Reads, read-scalar}
use matchy.DataSection.Sizes.{max_size, read-string, read-bytes}

-- Numbers in the range of their width, strings and byte arrays that three size bytes can measure.
abbrev pub IsFlat : DataValue → Type 0
IsFlat (string s) = (length s < max_size) × (from_utf8 s ≡ true)
IsFlat (bytes b) = length b < max_size
IsFlat (pointer o) = IsScalar (pointer o)
IsFlat (double d) = IsScalar (double d)
IsFlat (uint16 n) = IsScalar (uint16 n)
IsFlat (uint32 n) = IsScalar (uint32 n)
IsFlat (map m) = ⊥
IsFlat (int32 n) = IsScalar (int32 n)
IsFlat (uint64 n) = IsScalar (uint64 n)
IsFlat (uint128 n) = IsScalar (uint128 n)
IsFlat (array a) = ⊥
IsFlat (bool b) = IsScalar (bool b)
IsFlat (float f) = IsScalar (float f)

module _ (fuel base : ℕ) (buffer : List ℕ) (cursor : ℕ) where
  read_text : (s : List ℕ) → IsFlat (string s) → Reads fuel base buffer cursor (string s)
  unfolding encode_to_buffer
  read_text s (small, valid) = read-string fuel base buffer cursor s small valid

  read_raw : (b : List ℕ) → IsFlat (bytes b) → Reads fuel base buffer cursor (bytes b)
  unfolding encode_to_buffer
  read_raw b small = read-bytes fuel base buffer cursor b small

  pub read_flat : (v : DataValue) → IsFlat v → Reads fuel base buffer cursor v
  read_flat (string s) h = read_text s h
  read_flat (bytes b) h = read_raw b h
  read_flat (map m) h = absurd h
  read_flat (array a) h = absurd h
  read_flat (pointer o) h = read-scalar fuel base buffer cursor (pointer o) h
  read_flat (double d) h = read-scalar fuel base buffer cursor (double d) h
  read_flat (uint16 n) h = read-scalar fuel base buffer cursor (uint16 n) h
  read_flat (uint32 n) h = read-scalar fuel base buffer cursor (uint32 n) h
  read_flat (int32 n) h = read-scalar fuel base buffer cursor (int32 n) h
  read_flat (uint64 n) h = read-scalar fuel base buffer cursor (uint64 n) h
  read_flat (uint128 n) h = read-scalar fuel base buffer cursor (uint128 n) h
  read_flat (bool b) h = read-scalar fuel base buffer cursor (bool b) h
  read_flat (float f) h = read-scalar fuel base buffer cursor (float f) h

-- A value that holds no other values, encoded anywhere in a buffer, is decoded as the same value, and the
-- cursor ends behind its bytes: pointers, floats by their bits, numbers of each width in their range, Booleans,
-- valid UTF-8 strings and byte arrays, shorter than the largest size that the format can express.
pub decode_at-encode_to_buffer :
    (front rest : List ℕ) (fuel base : ℕ) (v : DataValue)
    → IsFlat v
    → decode_at (suc fuel) (front ++ (encode_to_buffer v ++ rest)) base (length front)
      ≡ ok (v, length front + length (encode_to_buffer v))
decode_at-encode_to_buffer front rest fuel base v h =
    read_flat fuel base (front ++ (encode_to_buffer v ++ rest)) (length front) v h
      (middle-Stands front (encode_to_buffer v) rest)
