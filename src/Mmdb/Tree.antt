-- ===== src/Mmdb/Tree.antt =====
-- Traversal of the search tree in the bytes of a database (src/mmdb/tree.rs).
use Prim.Native.Nat.{bit_and, bit_or}
use matchy.Base.{
  ℕ, zero, suc, ◌+◌, ◌-◌, ◌*◌, ltb, leb, ◌==◌, if◌then◌else◌, Option, none, some, List, get_elem?,
  Result, ok, err, ◌>>=◌, ◌>>◌, guard,
}
use matchy.Base.Results.{invalid_format, panic}
use matchy.Base.Bits.{shl, shr}
use matchy.Mmdb.Types.{IpVersion, v4, v6, RecordSize, bits24, bits28, bits32}
use matchy.Net.{Ipv4Addr, Ipv6Addr, IpAddr, ipv4_to_bits, ipv6_to_bits}

-- The parts of src/mmdb/format.rs's header that the traversal reads.
pub record MmdbHeader : Type 0 where
  pub node_count : ℕ
  pub record_size : RecordSize
  pub ip_version : IpVersion
  pub tree_size : ℕ

pub record LookupResult : Type 0 where
  pub data_offset : ℕ
  pub prefix_len : ℕ

pub record SearchTree : Type 0 where
  pub bytes : List ℕ
  pub header : MmdbHeader

-- `self.data[i]`
unfoldable pub index_byte : List ℕ → ℕ → Result ℕ
index_byte bytes i = elim (get_elem? bytes i) [ none ↦ err panic | some b ↦ ok b ]

unfoldable pub read_24bit_record : SearchTree → ℕ → ℕ → Result ℕ
read_24bit_record t node side = do
  let record_offset = node * 6 + side * 3
  guard (leb (record_offset + 3) t.header.tree_size) invalid_format
  b0 ← index_byte t.bytes record_offset
  b1 ← index_byte t.bytes (record_offset + 1)
  b2 ← index_byte t.bytes (record_offset + 2)
  ok (bit_or (bit_or (shl b0 16) (shl b1 8)) b2)

-- The slice of seven bytes panics where it is not whole.
unfoldable pub read_28bit_record : SearchTree → ℕ → ℕ → Result ℕ
read_28bit_record t node side = do
  let node_offset = node * 7
  guard (leb (node_offset + 7) t.header.tree_size) invalid_format
  b0 ← index_byte t.bytes node_offset
  b1 ← index_byte t.bytes (node_offset + 1)
  b2 ← index_byte t.bytes (node_offset + 2)
  b3 ← index_byte t.bytes (node_offset + 3)
  b4 ← index_byte t.bytes (node_offset + 4)
  b5 ← index_byte t.bytes (node_offset + 5)
  b6 ← index_byte t.bytes (node_offset + 6)
  if side == 0
      then ok
          (bit_or (shl (bit_and (shr b3 4) 0x0F) 24) (bit_or (bit_or (shl b0 16) (shl b1 8)) b2))
      else ok (bit_or (shl (bit_and b3 0x0F) 24) (bit_or (bit_or (shl b4 16) (shl b5 8)) b6))

unfoldable pub read_32bit_record : SearchTree → ℕ → ℕ → Result ℕ
read_32bit_record t node side = do
  let record_offset = node * 8 + side * 4
  guard (leb (record_offset + 4) t.header.tree_size) invalid_format
  b0 ← index_byte t.bytes record_offset
  b1 ← index_byte t.bytes (record_offset + 1)
  b2 ← index_byte t.bytes (record_offset + 2)
  b3 ← index_byte t.bytes (record_offset + 3)
  ok (bit_or (bit_or (bit_or (shl b0 24) (shl b1 16)) (shl b2 8)) b3)

unfoldable pub read_sized : RecordSize → SearchTree → ℕ → ℕ → Result ℕ
unfolding read_24bit_record read_28bit_record read_32bit_record
read_sized bits24 t node side = read_24bit_record t node side
read_sized bits28 t node side = read_28bit_record t node side
read_sized bits32 t node side = read_32bit_record t node side

unfoldable pub read_record : SearchTree → ℕ → ℕ → Result ℕ
unfolding read_sized index_byte
read_record t node side = do
  guard (ltb node t.header.node_count) invalid_format
  read_sized t.header.record_size t node side

-- The two checked subtractions return errors.
unfoldable pub calculate_data_offset : SearchTree → ℕ → Result ℕ
calculate_data_offset t value = do
  guard (ltb t.header.node_count value) invalid_format
  guard (leb 16 (value - t.header.node_count)) invalid_format
  ok (value - t.header.node_count - 16)

-- `for _ in 0..96`
unfoldable pub start_loop : ℕ → SearchTree → ℕ → Result (ℕ × ℕ)
unfolding read_record
start_loop zero t node = ok (node, 96)
start_loop (suc rounds) t node = do
  value ← read_record t node 0
  let rest = start_loop rounds t value
  if value == t.header.node_count
      then ok (node, 96)
      else if ltb value t.header.node_count
      then rest
      else ok (node, 96)

unfoldable pub find_ipv4_start_node : SearchTree → Result (ℕ × ℕ)
unfolding start_loop
find_ipv4_start_node t = start_loop 96 t 0

-- The prefix length that an IPv4 lookup reports.
unfoldable pub ipv4_prefix : ℕ → ℕ
ipv4_prefix depth = if leb 96 depth then depth - 96 + 1 else depth + 1

-- `for bit_index in 0..32`; the first argument counts the rounds left.
unfoldable pub v4_loop : ℕ → SearchTree → ℕ → ℕ → ℕ → ℕ → Result (Option LookupResult)
unfolding read_record calculate_data_offset ipv4_prefix
v4_loop zero t bits bit_index node depth = ok none
v4_loop (suc rounds) t bits bit_index node depth = do
  value ← read_record t node (bit_and (shr bits (31 - bit_index)) 1)
  let rest = v4_loop rounds t bits (bit_index + 1) value (depth + 1)
  if value == t.header.node_count
      then ok none
      else if ltb value t.header.node_count
      then rest
      else (do
        offset ← calculate_data_offset t value
        ok (some (record { data_offset = offset; prefix_len = ipv4_prefix depth })))

unfoldable pub v4_start : IpVersion → SearchTree → Result (ℕ × ℕ)
unfolding find_ipv4_start_node
v4_start v6 t = find_ipv4_start_node t
v4_start v4 t = ok (0, 0)

unfoldable pub lookup_v4 : SearchTree → Ipv4Addr → Result (Option LookupResult)
unfolding v4_loop v4_start ipv4_to_bits
lookup_v4 t a = do
  (node, depth) ← v4_start t.header.ip_version t
  v4_loop 32 t (ipv4_to_bits a) 0 node depth

-- The bit of an IPv6 address, whose halves are `high` and `low`.
unfoldable pub v6_bit : ℕ → ℕ → ℕ → ℕ
v6_bit high low bit_index =
    if ltb bit_index 64
    then bit_and (shr high (63 - bit_index)) 1
    else bit_and (shr low (127 - bit_index)) 1

-- `for bit_index in 0..128`
unfoldable pub v6_loop : ℕ → SearchTree → ℕ → ℕ → ℕ → ℕ → ℕ → Result (Option LookupResult)
unfolding read_record calculate_data_offset v6_bit
v6_loop zero t high low bit_index node depth = ok none
v6_loop (suc rounds) t high low bit_index node depth = do
  value ← read_record t node (v6_bit high low bit_index)
  let rest = v6_loop rounds t high low (bit_index + 1) value (bit_index + 1)
  if value == t.header.node_count
      then ok none
      else if ltb value t.header.node_count
      then rest
      else (do
        offset ← calculate_data_offset t value
        ok (some (record { data_offset = offset; prefix_len = depth + 1 })))

unfoldable pub lookup_v6 : SearchTree → Ipv6Addr → Result (Option LookupResult)
unfolding v6_loop ipv6_to_bits
lookup_v6 t a = let (high, low) = ipv6_to_bits a in v6_loop 128 t high low 0 0 0

unfoldable pub lookup : SearchTree → IpAddr → Result (Option LookupResult)
unfolding lookup_v4 lookup_v6
lookup t (IpAddr.v4 a) = lookup_v4 t a
lookup t (IpAddr.v6 a) = lookup_v6 t a
