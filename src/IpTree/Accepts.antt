-- ===== src/IpTree/Accepts.antt =====
-- Which calls `insert` accepts and which it refuses, on a builder with a history.
use matchy.Base.{
  ℕ, zero, suc, ◌+◌, ◌%◌, ◌^◌, ◌≤◌, ◌≡◌, refl, ◌∙◌, ap, arith, Bool, true, false, ltb, leb, Option,
  none, some, List, length, Result, ok, err, Bool-cases, inl, inr,
}
use matchy.Base.Results.{
  invalid_pattern, invalid_format, other, panic, out_of_fuel, resource_limit, metadata_not_found,
  invalid_metadata,
}
use matchy.Base.Bits.{shl}
use matchy.Net.{IpAddr, ipv4_to_bits, ipv6_to_bits, bits_to_u128}
use matchy.IpTree.{
  IpTreeBuilder, IpVersion, v4, v6, max_depth, insert, insert_v4, insert_v6, insert_bits_u128,
  insert_loop,
}
use matchy.IpTree.Trie.{Trie}
use matchy.IpTree.Routes.{Route, Implements, insert_bits-Implements, max_depth-le}

-- How a call ends: refused with `InvalidPattern`, done, or any other error.
abbrev pub refused : {A : Type 0} → Result A → Option Bool
refused (ok a) = some false
refused (err invalid_pattern) = some true
refused (err invalid_format) = none
refused (err other) = none
refused (err panic) = none
refused (err out_of_fuel) = none
refused (err resource_limit) = none
refused (err metadata_not_found) = none
refused (err invalid_metadata) = none

-- The prefix lengths that are too long, and the addresses that a tree cannot hold. The sum of an IPv4
-- prefix length and 96 is one of `u8`.
abbrev pub too_long : IpVersion → IpAddr → ℕ → Bool
too_long v4 (IpAddr.v4 a) len = ltb 32 len
too_long v4 (IpAddr.v6 a) len = true
too_long v6 (IpAddr.v4 a) len = ltb 128 ((96 + len) % 2 ^ 8)
too_long v6 (IpAddr.v6 a) len = ltb 128 len

-- A prefix without bits is accepted, and inserts nothing.
insert_bits-zero : (b : IpTreeBuilder) (bits offset : ℕ) → insert_bits_u128 b bits 0 offset ≡ ok b
unfolding insert_bits_u128 insert_loop
insert_bits-zero b bits offset =
    let fits : leb 0 (max_depth b.ip_version) ≡ true = ground arith in rw fits

module _ (b : IpTreeBuilder) (rs : List Route) (l r : Trie) (imp : Implements b rs l r)
    (room : length b.nodes + 128 ≤ 2 ^ 32) where
  insert_bits-refused :
      (bits len offset : ℕ)
      → refused (insert_bits_u128 b bits len offset) ≡ some (ltb (max_depth b.ip_version) len)
  unfolding insert_bits_u128
  insert_bits-refused bits zero offset =
      let short : ltb (max_depth b.ip_version) 0 ≡ false = ground arith in
      rw (insert_bits-zero b bits offset, short)
  insert_bits-refused bits (suc k) offset =
      elim (Bool-cases (leb (suc k) (max_depth b.ip_version))) [
        | inl fits ↦
            let le : suc k ≤ max_depth b.ip_version = ground arith in
            let small = max_depth-le b.ip_version in
            let short : ltb (max_depth b.ip_version) (suc k) ≡ false = ground arith in
            let done =
              insert_bits-Implements b rs l r (record { bits = bits; len = suc k; offset = offset })
                imp (omega arith) le (omega arith) in
            rw (done.3, short)
        | inr long ↦
            let over : ltb (max_depth b.ip_version) (suc k) ≡ true = ground arith in rw (long, over)
      ]

  insert_bits-refused_at :
      (v : IpVersion) (bits len offset : ℕ)
      → b.ip_version ≡ v
      → refused (insert_bits_u128 b bits len offset) ≡ some (ltb (max_depth v) len)
  insert_bits-refused_at v bits len offset e =
      insert_bits-refused bits len offset ∙ ap (λ u. some (ltb (max_depth u) len)) e

  insert_version-refused :
      (v : IpVersion) (addr : IpAddr) (len offset : ℕ)
      → b.ip_version ≡ v
      → refused (insert b addr len offset) ≡ some (too_long v addr len)
  unfolding insert insert_v4 insert_v6
  insert_version-refused v4 (IpAddr.v4 a) len offset e = elim (Bool-cases (leb len 32)) [
    | inl fits ↦ simp (e, fits) (insert_bits-refused_at v4 (shl (ipv4_to_bits a) 96) len offset e)
    | inr long ↦ let over : ltb 32 len ≡ true = ground arith in rw (e, long, over)
  ]
  insert_version-refused v4 (IpAddr.v6 a) len offset e = rw e
  insert_version-refused v6 (IpAddr.v4 a) len offset e =
      simp e (insert_bits-refused_at v6 (ipv4_to_bits a) ((96 + len) % 2 ^ 8) offset e)
  insert_version-refused v6 (IpAddr.v6 a) len offset e = elim (Bool-cases (leb len 128)) [
    | inl fits ↦
        simp (e, fits) (insert_bits-refused_at v6 (bits_to_u128 (ipv6_to_bits a)) len offset e)
    | inr long ↦ let over : ltb 128 len ≡ true = ground arith in rw (e, long, over)
  ]

  -- On a builder whose arena implements some routes and has room for 128 more nodes, `insert` ends in one
  -- of two ways: it is refused with `InvalidPattern` exactly where the prefix is too long for the tree or
  -- an IPv6 address goes to a tree for IPv4, and it succeeds in every other case. An IPv4 prefix in a tree
  -- for IPv6 is too long if its length plus 96, modulo 2^8, is above 128.
  pub insert-refused :
      (addr : IpAddr) (len offset : ℕ)
      → refused (insert b addr len offset) ≡ some (too_long b.ip_version addr len)
  insert-refused addr len offset = insert_version-refused b.ip_version addr len offset refl

-- The address is of the version of the tree.
abbrev pub same_version : IpVersion → IpAddr → Bool
same_version v4 (IpAddr.v4 a) = true
same_version v4 (IpAddr.v6 a) = false
same_version v6 (IpAddr.v4 a) = false
same_version v6 (IpAddr.v6 a) = true

default_route_version :
    (v : IpVersion) (b : IpTreeBuilder) (addr : IpAddr) (offset : ℕ)
    → b.ip_version ≡ v
    → same_version v addr ≡ true
    → insert b addr 0 offset ≡ ok b
unfolding insert insert_v4 insert_v6
default_route_version v4 b (IpAddr.v4 a) offset e h =
    simp e (insert_bits-zero b (shl (ipv4_to_bits a) 96) offset)
default_route_version v4 b (IpAddr.v6 a) offset e h = absurd (cc)
default_route_version v6 b (IpAddr.v4 a) offset e h = absurd (cc)
default_route_version v6 b (IpAddr.v6 a) offset e h =
    simp e (insert_bits-zero b (bits_to_u128 (ipv6_to_bits a)) offset)

-- Inserting a prefix of length 0, the default route, into a tree of the version of its address returns
-- success and leaves the builder as it was.
pub insert-default_route :
    (b : IpTreeBuilder) (addr : IpAddr) (offset : ℕ)
    → same_version b.ip_version addr ≡ true
    → insert b addr 0 offset ≡ ok b
insert-default_route b addr offset h = default_route_version b.ip_version b addr offset refl h
