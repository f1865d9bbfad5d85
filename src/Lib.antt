-- ===== src/Lib.antt =====
-- Verification of matchy, a database of IP prefixes, strings and glob patterns in the MMDB format.
--
-- The builder (src/ip_tree_builder.rs) collects prefixes in a binary tree over address bits, which is an
-- arena of nodes, and writes the arena as records of 24, 28 or 32 bits. The reader (src/mmdb/tree.rs)
-- walks those records, from the bytes alone. Between the two there are only the bytes and the header, so
-- LongestPrefix puts them together: prefixes inserted, tree built, address looked up. The glob matcher
-- (src/glob.rs) is separate: it parses a pattern into segments and matches them against a text by
-- backtracking, with a budget of steps. The data section (src/data_section.rs), to which the records of the
-- tree point, holds tagged values; the header of a file (src/mmdb/format.rs) is read from values of the same
-- kind. For patterns without a wildcard there is a hash table on disk (src/literal_hash.rs), with a builder
-- and a reader that again share only bytes, and for the literal parts of globs an Aho-Corasick automaton
-- (src/ac_offset.rs).
--
-- Files, by the code that they model:
--   Base            shared names; Base/Results has the errors, Base/Bits the shifts and masks, Base/Bytes
--                   runs of bytes in a buffer, Base/LittleEndian integers as bytes, Base/Orders membership and
--                   lists in another order
--   Net             addresses as in std::net, and their bits
--   Mmdb            src/mmdb/types.rs, src/mmdb/tree.rs and src/mmdb/format.rs, one function for each method; a
--                   loop of n rounds is recursion on the rounds left. Marker is about the search for the
--                   metadata, Metadata about the header in what the encoder of the data section wrote
--   IpTree          src/ip_tree_builder.rs: nodes in a list that ids index, insert and insert_bits_u128 with
--                   their branches place and descend, backfill_less_specific; IpTree/Build is build and the
--                   writers. The children prove things of it: Trie is the tree as a value, Arena says what it
--                   means that the arena holds one, Loop and Routes that insertion is correct, Table follows
--                   whole histories, Bounds the ranges of ids and offsets, Accepts the errors
--   LongestPrefix   builder and reader together: Records and Written the bytes, Walk and Ipv4Walk the loops
--                   of the reader, Entries the tables by the calls of insert
--   Glob            src/glob.rs: the matcher; Glob/Parse is the parser, Classes says what a class
--                   means and Matching what a pattern does, Budget is about the number of steps, Folding
--                   about the case, Total and Form about the results of the parser, Print about the way back
--   DataSection     src/data_section.rs: values and their encoding without interning; DataSection/Encoder is
--                   the encoder with interning and deduplication, DataSection/Decode the decoder. Buffer
--                   says that bytes stand at a cursor, Integers, PointerSizes, Pointers, Sizes, Scalars and
--                   RoundTrip are the way back of values that hold no others, Entries is about the order of
--                   the keys of a map, Normal says what a reader finds of maps and arrays, and Nested is
--                   their way back. Extends, Interning, InternedMaps and Encoded follow the bytes that the
--                   encoder appends, and Sharing its offsets. Arrays is about long arrays, Cycles about
--                   pointers to themselves
--   LiteralHash     src/literal_hash.rs: the records of the file and build_shard_auto_size; LiteralHash/Build is
--                   the rest of the builder, Table the reader. Probe, Fill and Dictionary are about one
--                   shard, Shards, Buckets and Building about all of them, Layout, Offsets, Reading and
--                   Loading about the bytes, Search, ShardLookup, Lookup, Answers and Added about lookups,
--                   Mappings about the offsets of the data, Faults about bytes that are no table
--   AhoCorasick     src/ac_offset.rs: the builder, one function for each loop. Trie says what it means that
--                   the states are a trie, Insert, Paths, Stored and Filling are about the patterns,
--                   Chains, Links, Levels, Queue and FailureLinks about the failure links, Words and Suffixes
--                   about words written backwards; Automaton puts them together. Serialize is the writer
--                   and Search the reader, from any bytes; Reports and Panics are about the reader alone.
--                   Edges, Placing, Sections, Imaging, EdgeSearch and Encodings follow the bytes of a state
--                   from the one to the other, Layout says how large a buffer is, Steady and Machine what
--                   writer and reader rely on, Walk and Positions are about the search, and Occurrences
--                   joins builder, writer and reader
-- Files named Examples hold concrete runs.
--
-- Numbers are natural numbers; where the code has a fixed width the wrap-around is written out (the sum of
-- 96 and a prefix length, the length of the arena as u32) or the range is a hypothesis (octets below 256,
-- segments below 2^16). Indexing out of range, failed assertions and checked arithmetic that the code
-- unwraps are the error panic. In Glob a string is the list of its code points; the code slices strings
-- at character boundaries only, so a byte offset is the list of characters that remain. Elsewhere a string
-- is the list of its bytes.
--
-- What is not in the repository is a parameter: records named Host hold the hash xxh64, str::to_lowercase,
-- the order in which a hash map is walked and the number of cores, and a buffer has the address where it
-- lies. Of the order the theorems suppose that each entry comes once (Walks). The bound of the load factor,
-- 0.6 as a float, is (5 n + 2) / 3 for n patterns. Threads that build batches of shards are taken one after
-- the other, since they share nothing.
--
-- Fuel: backfill_less_specific recurses on the height of the subtree, for which place gives it the 128 bits
-- of an address. parse takes a character in each round, and its fuel is the length of the pattern. The 100,000
-- steps of matches are the code's own. The decoder of the data section takes one unit of fuel for each nested
-- call of decode_at, decode and resolve_pointers. Linear probing has as many rounds as the shard has slots.
-- In the automaton the chains of failure links have two rounds more than the longest pattern has bytes, and the
-- queue has as many rounds as the trie has states but the root, which rounds counts level by level. The
-- searches of the automaton take bytes that may be malformed, where the chain of failure links need not
-- end, so their fuel is an argument, as is that of the decoder, whose pointers may lead back.
--
-- Not modelled: file access, memory mapping, the C interface, the command line tools, the import of other
-- formats, the extraction of addresses from text, the file format that joins literals and globs, the
-- assembly of a database from its sections, and the validation of files. Of the data section the hash of
-- values and the conversions from and to JSON are left out.
pub mod Base
pub mod Net
pub mod Mmdb
pub mod IpTree
pub mod LongestPrefix
pub mod Glob
pub mod DataSection
pub mod LiteralHash
pub mod AhoCorasick
