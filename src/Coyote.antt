-- ===== src/Coyote.antt =====
-- crates/tomcatrs-coyote: the connector layer, which turns bytes from the network into requests.
pub mod Normalize
pub mod Hpack
pub mod Chunked
pub mod Http1
pub mod Http2
