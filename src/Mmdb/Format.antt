-- ===== src/Mmdb/Format.antt =====
-- The header and the metadata of a database (src/mmdb/format.rs). Where the decoder fails, the fuel of the model
-- aside, the metadata are invalid.
use matchy.Base.{
  ℕ, zero, suc, ◌+◌, ◌-◌, ◌*◌, ◌%◌, ◌^◌, ltb, ◌==◌, if◌then◌else◌, Option, none, some, List, [],
  ◌∷◌, length, take, drop, Result, ok, err, ◌>>=◌,
}
use matchy.Base.Results.{metadata_not_found, invalid_metadata, invalid_format}
use matchy.Base.Bytes.{same_bytes}
use matchy.DataSection.{DataValue, map, uint16, uint32, uint64, Fields, end, field}
use matchy.DataSection.Decode.{decode}
use matchy.Mmdb.Types.{IpVersion, v4, v6, node_bytes, from_bits}
use matchy.Mmdb.Tree.{MmdbHeader}

-- "\xAB\xCD\xEFMaxMind.com"
abbrev pub metadata_marker : List ℕ
metadata_marker =
    0xAB ∷ 0xCD ∷ 0xEF ∷ 77 ∷ 97 ∷ 120 ∷ 77 ∷ 105 ∷ 110 ∷ 100 ∷ 46 ∷ 99 ∷ 111 ∷ 109 ∷ []

abbrev pub search_size : ℕ
search_size = 128 * 1024

-- `n` rounds of the loop over `i`
unfoldable pub marker_loop : ℕ → List ℕ → ℕ → Option ℕ → Option ℕ
marker_loop zero bytes i last_marker = last_marker
marker_loop (suc n) bytes i last_marker = marker_loop n bytes (i + 1) (
    if same_bytes (take (length metadata_marker) (drop i bytes)) metadata_marker
    then some i
    else last_marker)

unfoldable pub find_metadata_marker : List ℕ → Result ℕ
unfolding marker_loop
find_metadata_marker bytes =
    let marker_len = length metadata_marker in
    let search_start = if ltb search_size (length bytes) then length bytes - search_size else 0 in
    let rounds = length bytes - marker_len + 1 - search_start in
    let last_marker = marker_loop rounds bytes search_start none in
    if ltb (length bytes) marker_len
    then err metadata_not_found
    else elim last_marker [ none ↦ err metadata_not_found | some i ↦ ok i ]

-- `map.get(key)`
abbrev pub get_field : List ℕ → Fields → Option DataValue
get_field k end = none
get_field k (field l v fs) = if same_bytes k l then some v else get_field k fs

abbrev pub uint_of : DataValue → Result ℕ
uint_of (uint16 n) = ok n
uint_of (uint32 n) = ok n
uint_of (uint64 n) = ok n
uint_of _ = err invalid_metadata

abbrev pub extract_uint : Fields → List ℕ → Result ℕ
extract_uint m key = elim (get_field key m) [ none ↦ err invalid_metadata | some v ↦ uint_of v ]

-- `map_err`
abbrev pub as_metadata {ℓ} : {A : Type ℓ} → Result A → Result A
as_metadata (err invalid_format) = err invalid_metadata
as_metadata (err why) = err why
as_metadata (ok value) = ok value

-- "node_count", "record_size" and "ip_version"
abbrev pub node_count_key : List ℕ
node_count_key = 110 ∷ 111 ∷ 100 ∷ 101 ∷ 95 ∷ 99 ∷ 111 ∷ 117 ∷ 110 ∷ 116 ∷ []

abbrev pub record_size_key : List ℕ
record_size_key = 114 ∷ 101 ∷ 99 ∷ 111 ∷ 114 ∷ 100 ∷ 95 ∷ 115 ∷ 105 ∷ 122 ∷ 101 ∷ []

abbrev pub ip_version_key : List ℕ
ip_version_key = 105 ∷ 112 ∷ 95 ∷ 118 ∷ 101 ∷ 114 ∷ 115 ∷ 105 ∷ 111 ∷ 110 ∷ []

abbrev pub required_fields : DataValue → Result (ℕ × ℕ × ℕ)
required_fields (map m) = do
  node_count ← extract_uint m node_count_key
  record_size ← extract_uint m record_size_key
  ip_version ← extract_uint m ip_version_key
  ok (node_count, record_size % 2 ^ 16, ip_version)
required_fields _ = err invalid_metadata

abbrev pub version_of : ℕ → Result IpVersion
version_of n = if n == 4 then ok v4 else if n == 6 then ok v6 else err invalid_metadata

-- The values are 64 bits wide; the number of nodes is cut to 32 after the size of the tree is computed.
-- The product wraps around, as in a release build.
unfoldable pub from_file : ℕ → List ℕ → Result MmdbHeader
unfolding find_metadata_marker decode
from_file fuel bytes = do
  marker_offset ← find_metadata_marker bytes
  let metadata_bytes = drop (marker_offset + length metadata_marker) bytes
  metadata ← as_metadata (decode fuel metadata_bytes 0 0)
  (node_count, record_size_bits, ip_version_num) ← required_fields metadata
  size ← from_bits record_size_bits
  version ← version_of ip_version_num
  ok (record {
    node_count = node_count % 2 ^ 32;
    record_size = size;
    ip_version = version;
    tree_size = node_count * node_bytes size % 2 ^ 64;
  })

pub record MmdbMetadata : Type 0 where
  pub raw_data : List ℕ
  pub metadata_offset : ℕ

abbrev pub metadata_of : List ℕ → Result MmdbMetadata
metadata_of bytes = do
  metadata_start ← find_metadata_marker bytes
  ok (record { raw_data = bytes; metadata_offset = metadata_start + length metadata_marker })

abbrev pub as_value : ℕ → MmdbMetadata → Result DataValue
as_value fuel metadata =
    as_metadata (decode fuel (drop metadata.metadata_offset metadata.raw_data) 0 0)
