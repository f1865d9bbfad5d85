-- ===== src/Mmdb/Examples.antt =====
-- Headers in concrete files.
use matchy.Base.{◌*◌, ◌+◌, ◌^◌, ◌<◌, ◌≡◌, refl, arith, [], ◌∷◌, ◌++◌, ok}
use matchy.DataSection.{
  map, Fields, end, field, uint16, uint32, encode_to_buffer, encode_string, encode_with_size,
}
use matchy.DataSection.Decode.{utf8_from}
use matchy.DataSection.Normal.{Storable}
use matchy.DataSection.Encoder.{new, encode, encode_value_interned, intern_string, size}
use matchy.Mmdb.Types.{v4, bits24, node_bytes}
use matchy.Mmdb.Format.{
  metadata_marker, find_metadata_marker, from_file, node_count_key, record_size_key, ip_version_key,
}
use matchy.Mmdb.Marker.{Finds, find_metadata_marker-Finds}
use matchy.Mmdb.Metadata.{file_of, from_file-encode}

-- Two markers, of which the second counts.
find_metadata_marker-Finds_example :
    Finds
      (7 ∷ metadata_marker ++ metadata_marker ++ 8 ∷ [])
      (find_metadata_marker (7 ∷ metadata_marker ++ metadata_marker ++ 8 ∷ []))
find_metadata_marker-Finds_example =
    find_metadata_marker-Finds (7 ∷ metadata_marker ++ metadata_marker ++ 8 ∷ [])

find_metadata_marker-two :
    find_metadata_marker (7 ∷ metadata_marker ++ metadata_marker ++ 8 ∷ []) ≡ ok 15
unfolding find_metadata_marker
find_metadata_marker-two = refl

-- `\xAB\xCD\xEFMaxMind.com` behind one byte.
find_metadata_marker-bytes :
    find_metadata_marker
      (7 ∷ 171 ∷ 205 ∷ 239 ∷ 77 ∷ 97 ∷ 120 ∷ 77 ∷ 105 ∷ 110 ∷ 100 ∷ 46 ∷ 99 ∷ 111 ∷ 109 ∷ [])
    ≡ ok 1
unfolding find_metadata_marker
find_metadata_marker-bytes = refl

abbrev fields : Fields
fields =
    field node_count_key (uint32 1000)
      (field record_size_key (uint16 24) (field ip_version_key (uint16 4) end))

fields-Storable : Storable (map fields)
unfolding utf8_from
fields-Storable = (
  omega arith,
  ((refl, (refl, tt)), ((refl, tt), (tt, tt))),
  (
    (omega arith, refl),
    omega arith,
    ((omega arith, refl), omega arith, ((omega arith, refl), omega arith, tt)),
  ),
)

size-fields : size (encode (map fields) new).1 < 2 ^ 32
unfolding encode encode_value_interned intern_string encode_to_buffer encode_string encode_with_size
size-fields = omega arith

marker-fields : find_metadata_marker (file_of (1 ∷ 2 ∷ []) fields (3 ∷ [])) ≡ ok 2
unfolding find_metadata_marker encode encode_value_interned intern_string encode_to_buffer
    encode_string encode_with_size
marker-fields = refl

from_file-encode_example :
    from_file (4 + 1) (file_of (1 ∷ 2 ∷ []) fields (3 ∷ []))
    ≡ ok (record {
      node_count = 1000;
      record_size = bits24;
      ip_version = v4;
      tree_size = 1000 * node_bytes bits24;
    })
from_file-encode_example =
    from_file-encode (1 ∷ 2 ∷ []) (3 ∷ []) fields 1000 bits24 v4 1 fields-Storable
      (tt, (tt, (tt, tt))) size-fields (omega arith) marker-fields refl (omega arith) refl refl
