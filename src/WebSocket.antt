-- ===== src/WebSocket.antt =====
-- crates/tomcatrs-websocket: RFC 6455 frames, and messages over them.
pub mod Frame
pub mod Lenient
pub mod Close
pub mod Transport
