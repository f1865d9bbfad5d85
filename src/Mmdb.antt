-- ===== src/Mmdb.antt =====
-- The reader of the MMDB format (src/mmdb).
pub mod Types
pub mod Tree
pub mod Format
pub mod Marker
pub mod Metadata
mod Examples
