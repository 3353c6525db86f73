-- ===== src/Tests.antt =====
-- Runs of the definitions on concrete inputs, and the theorems at inputs that meet their
-- hypotheses.
mod Normalize
mod Frame
mod Transport
mod Constraints
mod Mapper
mod Hpack
mod AccessControl
mod Chunked
mod HpackBlock
mod Http1
mod HpackEncoder
mod Http2
