-- ===== src/Mmdb/Metadata.antt =====
-- The header that is read from the metadata of a file, where the metadata were written by the encoder of the
-- data section.
use matchy.Base.{
  ℕ, ◌+◌, ◌*◌, ◌%◌, ◌^◌, ◌≤◌, ◌<◌, ◌≡◌, refl, sym, ap, subst, ◌∙◌, arith, List, [], ◌∷◌, ◌++◌,
  append_assoc, length, length-append, drop-append, drop, true, false, some, Bool-cases, inl, inr,
  ok,
}
use matchy.Base.Bytes.{same_bytes, same_bytes-eq}
use matchy.DataSection.{DataValue, map, uint16, uint32, Fields, end, field, before}
use matchy.DataSection.Decode.{decode}
use matchy.DataSection.Entries.{Absent, Distinct, place_field, sort_fields, Each-sort_fields}
use matchy.DataSection.Normal.{depth, normal, normal_fields, Storable, Distinct-normal}
use matchy.DataSection.Encoder.{new, encode, encode_each, into_bytes, size}
use matchy.DataSection.Encoded.{Plain}
use matchy.DataSection.Sharing.{encode_each-decode}
use matchy.Mmdb.Types.{IpVersion, v4, v6, RecordSize, bits24, bits28, bits32, node_bytes, from_bits}
use matchy.Mmdb.Format.{
  metadata_marker, find_metadata_marker, get_field, node_count_key, record_size_key, ip_version_key,
  from_file, version_of,
}

module _ (k : List ℕ) where
  place_get_ne :
      (l : List ℕ) (v : DataValue) (fs : Fields)
      → same_bytes k l ≡ false
      → get_field k (place_field l v fs) ≡ get_field k fs
  place_get_ne l v end h = rw h refl
  place_get_ne l v (field l' w fs) h = elim (Bool-cases (before l l')) [
    | inl first ↦ rw (first, h) refl
    | inr later ↦ elim (Bool-cases (same_bytes k l')) [
      | inl same ↦ rw (later, same) refl
      | inr other ↦ rw (later, other) (place_get_ne l v fs h)
    ]
  ]

  place_get_eq :
      (l : List ℕ) (v : DataValue) (fs : Fields)
      → same_bytes k l ≡ true
      → Absent l fs
      → get_field k (place_field l v fs) ≡ some v
  place_get_eq l v end h new = rw h refl
  place_get_eq l v (field l' w fs) h (apart, new) = elim (Bool-cases (before l l')) [
    | inl first ↦ rw (first, h) refl
    | inr later ↦
        let other : same_bytes k l' ≡ false =
          ap (λ s. same_bytes s l') (same_bytes-eq k l h) ∙ apart in
        rw (later, other) (place_get_eq l v fs h new)
  ]

  -- Sorting does not change what is found under a key.
  get_field-sort_fields :
      (fs : Fields) → Distinct fs → get_field k (sort_fields fs) ≡ get_field k fs
  get_field-sort_fields end all = refl
  get_field-sort_fields (field l v fs) (new, all) = elim (Bool-cases (same_bytes k l)) [
    | inl same ↦ rw same (
        place_get_eq l v (sort_fields fs) same
          (Each-sort_fields (λ l' w. same_bytes l l' ≡ false) fs new))
    | inr other ↦ rw other (place_get_ne l v (sort_fields fs) other ∙ get_field-sort_fields fs all)
  ]

  get_field-normal :
      (fs : Fields) (v : DataValue)
      → get_field k fs ≡ some v
      → get_field k (normal_fields fs) ≡ some (normal v)
  get_field-normal end v found = absurd (cc)
  get_field-normal (field l w fs) v found = elim (Bool-cases (same_bytes k l)) [
    | inl same ↦
        let e : some w ≡ some v = rw same at found in let e' : w ≡ v = cc in rw (same, e') refl
    | inr other ↦ rw other (get_field-normal fs v (rw other at found))
  ]

  found-sorted :
      (m : Fields) (v : DataValue)
      → Distinct m
      → get_field k m ≡ some v
      → get_field k (sort_fields (normal_fields m)) ≡ some (normal v)
  found-sorted m v all found =
      get_field-sort_fields (normal_fields m) (Distinct-normal m all) ∙ get_field-normal m v found

-- The numbers of the record sizes and of the versions.
abbrev pub bits_of : RecordSize → ℕ
bits_of bits24 = 24
bits_of bits28 = 28
bits_of bits32 = 32

abbrev pub number_of : IpVersion → ℕ
number_of v4 = 4
number_of v6 = 6

-- A file whose metadata are the encoding of a map.
abbrev pub file_of : List ℕ → Fields → List ℕ → List ℕ
file_of front m rest = front ++ (metadata_marker ++ (into_bytes (encode (map m) new).1 ++ rest))

-- The decoder starts at the encoded map.
decode-metadata :
    (m : Fields) (rest : List ℕ) (fuel : ℕ)
    → Storable (map m)
    → Plain (map m)
    → size (encode (map m) new).1 < 2 ^ 32
    → depth (map m) ≤ fuel
    → decode (4 + fuel) (into_bytes (encode (map m) new).1 ++ rest) 0 0 ≡ ok (normal (map m))
unfolding encode_each encode
decode-metadata m rest fuel h plain room deep =
    let (o, at, found) =
      encode_each-decode true (map m ∷ []) rest fuel 0 (map m) ((h, plain), tt) room refl deep in
    let first : some 0 ≡ some o = at in
    let start : 0 ≡ o = cc in
    subst
      (λ c. decode (4 + fuel) (into_bytes (encode (map m) new).1 ++ rest) 0 c ≡ ok (normal (map m)))
      (sym start) found

drop-metadata :
    (front : List ℕ) (m : Fields) (rest : List ℕ)
    → drop (length front + length metadata_marker) (file_of front m rest)
      ≡ into_bytes (encode (map m) new).1 ++ rest
drop-metadata front m rest =
    let behind = into_bytes (encode (map m) new).1 ++ rest in
    let joined = append_assoc front metadata_marker behind in
    let count = length-append front metadata_marker in
    ap (drop (length front + length metadata_marker)) (sym joined)
    ∙ ap (λ k. drop k ((front ++ metadata_marker) ++ behind)) (sym count)
    ∙ drop-append (front ++ metadata_marker) behind

from_bits-bits_of : (s : RecordSize) → from_bits (bits_of s % 2 ^ 16) ≡ ok s
from_bits-bits_of bits24 = refl
from_bits-bits_of bits28 = refl
from_bits-bits_of bits32 = refl

version_of-number_of : (v : IpVersion) → version_of (number_of v) ≡ ok v
version_of-number_of v4 = refl
version_of-number_of v6 = refl

small_tree : (n : ℕ) (s : RecordSize) → n < 2 ^ 32 → n * node_bytes s % 2 ^ 64 ≡ n * node_bytes s
unfolding node_bytes
small_tree n bits24 h = omega arith
small_tree n bits28 h = omega arith
small_tree n bits32 h = omega arith

-- A file consists of any bytes, the metadata marker, a map as a new encoder writes it, and any further bytes, and
-- the marker is the one that the search finds. The map holds the number of nodes as 32 bits, and the record
-- size and the version as 16 bits, among any other entries: its keys differ, its numbers are in range, its
-- strings are valid UTF-8, its arrays have at most 28 elements, there are no pointers inside, nothing is longer
-- than the format can express, and the map takes fewer than 2^32 bytes. Then `from_file` reads the header
-- back, with four nested calls of the decoder more than the map is deep, and the size of the tree is the number
-- of nodes times the bytes of a node.
pub from_file-encode :
    (front rest : List ℕ) (m : Fields) (n : ℕ) (s : RecordSize) (v : IpVersion) (fuel : ℕ)
    → Storable (map m)
    → Plain (map m)
    → size (encode (map m) new).1 < 2 ^ 32
    → depth (map m) ≤ fuel
    → find_metadata_marker (file_of front m rest) ≡ ok (length front)
    → get_field node_count_key m ≡ some (uint32 n)
    → n < 2 ^ 32
    → get_field record_size_key m ≡ some (uint16 (bits_of s))
    → get_field ip_version_key m ≡ some (uint16 (number_of v))
    → from_file (4 + fuel) (file_of front m rest)
      ≡ ok
          (record { node_count = n; record_size = s; ip_version = v; tree_size = n * node_bytes s })
unfolding from_file
from_file-encode front rest m n s v fuel h plain room deep marker count small sized version =
    let found = found-sorted node_count_key m (uint32 n) h.1 count in
    let found_size = found-sorted record_size_key m (uint16 (bits_of s)) h.1 sized in
    let found_version = found-sorted ip_version_key m (uint16 (number_of v)) h.1 version in
    let kept : n % 2 ^ 32 ≡ n = omega arith in
    rw
      (
        marker,
        drop-metadata front m rest,
        decode-metadata m rest fuel h plain room deep,
        found,
        found_size,
        found_version,
        from_bits-bits_of s,
        version_of-number_of v,
        kept,
        small_tree n s small,
      )
      refl
