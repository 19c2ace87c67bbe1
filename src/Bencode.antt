-- ===== src/Bencode.antt =====
-- src/bencode.c: the metainfo format. Its parser, its encoder and their laws stand in the children.
pub mod Node
pub mod Parser
pub mod Emit
pub mod Encoder
pub mod Encoding
pub mod Parsing
pub mod Scalars
pub mod RoundTrip
pub mod Lookup
pub mod Lenient
mod Tests
