-- ===== src/Net.antt =====
-- IP addresses as in std::net, and their bits (src/ip_tree_builder.rs, and the same functions in
-- src/mmdb/tree.rs).
use matchy.Base.{ℕ}
use matchy.Base.Bits.{shl}
use Prim.Native.Nat.{bit_or}

-- `addr.octets()`
pub record Ipv4Addr : Type 0 where
  pub o0 : ℕ
  pub o1 : ℕ
  pub o2 : ℕ
  pub o3 : ℕ

-- `addr.segments()`
pub record Ipv6Addr : Type 0 where
  pub s0 : ℕ
  pub s1 : ℕ
  pub s2 : ℕ
  pub s3 : ℕ
  pub s4 : ℕ
  pub s5 : ℕ
  pub s6 : ℕ
  pub s7 : ℕ

pub data IpAddr : Type 0 where
  v4 : Ipv4Addr → IpAddr
  v6 : Ipv6Addr → IpAddr

unfoldable pub ipv4_to_bits : Ipv4Addr → ℕ
ipv4_to_bits a = bit_or (bit_or (bit_or (shl a.o0 24) (shl a.o1 16)) (shl a.o2 8)) a.o3

-- The two halves, `high` first.
unfoldable pub ipv6_to_bits : Ipv6Addr → ℕ × ℕ
ipv6_to_bits a = (
  bit_or (bit_or (bit_or (shl a.s0 48) (shl a.s1 32)) (shl a.s2 16)) a.s3,
  bit_or (bit_or (bit_or (shl a.s4 48) (shl a.s5 32)) (shl a.s6 16)) a.s7,
)

unfoldable pub bits_to_u128 : ℕ × ℕ → ℕ
bits_to_u128 (high, low) = bit_or (shl high 64) low
