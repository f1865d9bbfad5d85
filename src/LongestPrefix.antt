-- ===== src/LongestPrefix.antt =====
-- The builder of src/ip_tree_builder.rs and the reader of src/mmdb/tree.rs together: an address that
-- is looked up in the bytes of a built tree is answered by longest match.
pub mod Records
pub mod Written
pub mod Walk
pub mod AddressBits
pub mod Ipv4Walk
pub mod Lookup
pub mod Ipv6
pub mod Network
pub mod Entries
pub mod Ipv4
pub mod RoundTrip
mod Examples
