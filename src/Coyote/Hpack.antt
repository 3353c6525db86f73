-- ===== src/Coyote/Hpack.antt =====
-- crates/tomcatrs-coyote/src/hpack.rs: header compression for HTTP/2.
pub mod Static
pub mod Table
pub mod Integer
pub mod Huffman
pub mod Decoder
pub mod Encoder
