-- ===== src/Mmdb/Types.antt =====
-- The types of src/mmdb/types.rs.
use matchy.Base.{ℕ, ◌==◌, if◌then◌else◌, Result, ok, err}
use matchy.Base.Results.{invalid_format}

pub data IpVersion : Type 0 where
  v4 v6 : IpVersion

pub data RecordSize : Type 0 where
  bits24 bits28 bits32 : RecordSize

unfoldable pub node_bytes : RecordSize → ℕ
node_bytes bits24 = 6
node_bytes bits28 = 7
node_bytes bits32 = 8

abbrev pub from_bits : ℕ → Result RecordSize
from_bits bits =
    if bits == 24
    then ok bits24
    else if bits == 28
    then ok bits28
    else if bits == 32
    then ok bits32
    else err invalid_format
