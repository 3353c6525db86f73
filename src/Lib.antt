-- ===== src/Lib.antt =====
-- Michael (Tomcat-RS): a model of the request path of a Rust rewrite of Apache Tomcat, and what
-- can be proved of it.
--
-- The program is a workspace of crates. The connector layer (crates/tomcatrs-coyote) turns bytes
-- from the network into requests: it parses HTTP/1.1 and HTTP/2, and normalizes the request target.
-- The container (crates/tomcatrs-catalina) routes a request to a virtual host, a web application
-- and a servlet. The security crate (crates/tomcatrs-security) decides whether the request is let
-- through. A connection may be upgraded to a WebSocket (crates/tomcatrs-websocket), which
-- exchanges frames. The target that the normalizer hands on is the URI that the mapper routes, and
-- the path that the security constraints are matched against.
--
-- Files and sources:
--   Prelude            shared names: native numbers and their Boolean tests (Tests), lists (Lists),
--                      Rust's Result (Fallible), bit masks (Bits, Bits/Masks), integers (Int), the
--                      big-endian bytes of a number (BigEndian), the streams that a connection reads
--                      and writes (Streams), and str as a list of bytes with the methods that the
--                      code calls (Text, Text/Laws, Text/Trim)
--   Coyote/Normalize   crates/tomcatrs-coyote/src/normalize.rs: normalize_target and its helpers;
--                      the children hold the proofs (Segments, Decode, Safety, Idempotent)
--   Coyote/Hpack       crates/tomcatrs-coyote/src/hpack.rs: the static table (Static), DynamicTable,
--                      resolve_index, find_full and find_name (Table, with Table/Fitting, Invariant and
--                      Index), encode_integer and decode_integer (Integer, Integer/RoundTrip),
--                      the module huffman (Huffman, Huffman/Codes; the proofs are in Binary, Prefix,
--                      Packing, Matching, Peeling and RoundTrip there), decode_string and HpackDecoder
--                      (Decoder, with Decoder/Budget, Decoder/Block, and Decoder/Failing for the
--                      table that an error leaves), encode_string and HpackEncoder (Encoder, with
--                      Encoder/Strings, Literals, Block and Refinement)
--   Coyote/Chunked     crates/tomcatrs-coyote/src/chunked.rs: ChunkedDecoder::push and what it calls,
--                      and encode_chunked; the proofs are in Bounds and Push
--   Coyote/Http1       crates/tomcatrs-coyote/src/http1.rs: parse_head, body_framing and wants_keep_alive;
--                      read_request and what it calls, over a stream (Reading); the bytes that
--                      write_response writes, and the answer of serve_connection to a request
--                      (Serving, Decimal), with Response of lib.rs; the proofs are in Framing,
--                      Delivery, Conservation, Decimal, Serving and Written
--   Coyote/Http2       crates/tomcatrs-coyote/src/http2.rs: Frame::parse, Frame::encode (Encode) and
--                      Settings, and http2_conn.rs: build_request (Request), Http2Connection and its
--                      streams (Connection), what it does with the frames that it reads (Receive) and
--                      how it sends a response under flow control (Send); the steps of a connection
--                      are in Reachable, and the proofs in Fields, RoundTrip, Incremental,
--                      Request/Pseudo, Request/Sound, Stalls, Delivery, Ledger, Invariant, Books and Reachable
--   Catalina/Mapper    crates/tomcatrs-catalina/src/mapper.rs: UrlPattern and Mapper, with Engine::host
--                      of engine.rs; the proofs are in Patterns, Best, Longest and Paths
--   Security/Constraints
--                      crates/tomcatrs-security/src/constraints.rs: ConstraintRegistry::check, with
--                      Principal of realm.rs; the proofs are in Decision, Winners and Patterns
--   Security/AccessControl
--                      crates/tomcatrs-security/src/access_control.rs: normalize_and_validate_uri and
--                      enforce_limits, with RequestLimits of crates/tomcatrs-config/src/lib.rs; the
--                      proofs are in Safety and Limits
--   WebSocket/Frame    crates/tomcatrs-websocket/src/frame.rs: Frame::parse and Frame::encode; the
--                      proofs are in Fields, RoundTrip and Incremental
--   WebSocket/Lenient  crates/tomcatrs-websocket/src/transport.rs: parse_lenient, with its round trip
--   WebSocket/Close    the same file: CloseFrame, and the errors of a connection
--   WebSocket/Transport
--                      the same file: WebSocketConnection over a stream, with what it writes (Send) and
--                      what it does with what it reads (Receive); the proofs are in Invariant,
--                      Reachable, Panic, Termination, Messages and RoundTrip
--   Tests              runs on small inputs, and the theorems applied to them
--
-- How the code is represented. Bytes are natural numbers, a str is the list of its bytes, a Vec
-- or a VecDeque is a list, and a DashMap is the list of its entries in the order of iteration. A
-- method that changes its receiver returns the new one. An early return is a value of Result or
-- Option; the text of an error message is left out. A slice that could panic is a result that
-- says so; the panic of parse_lenient is the error `panicked`. The two searches of HPACK are one
-- function with the test as an argument, since the loops of the source differ in the test alone.
-- A usize has 64 bits; sums of lengths are not wrapped, since a length of a slice is below 2^63.
-- The sum of code lengths in encoded_len is a u32, and wrapped.
--
-- Loops are structural recursion, but for these that run on fuel. ChunkedDecoder::push has the
-- length of its input, as every round takes a byte. DynamicTable::evict_to_fit has the number of
-- entries: each round takes an entry off, and the loop stops at none. The loop of encode_integer
-- has the number to encode, as each round divides it by 128; so do the hex digits of a chunk
-- size, by 16. HpackDecoder::decode has the length of the block, and the inner loops of the
-- Huffman code have the number of bits at hand. write_fragments has the length of the payload.
-- The loop of read_message has any fuel, and a theorem says which is enough; read_head has one
-- round more than its cap has bytes, and a theorem says that it is enough where no read waits
-- for ever; read_chunks has any fuel. The decimal digits of a number n have n rounds, as each
-- divides by 10; the wait of close has the rounds that it makes before its deadline. The rounds
-- over the frames of an HTTP/2 connection have the number of bytes read, as a frame takes nine
-- at least; write_body has any fuel, and a theorem says that the length of the body is enough
-- where the windows have room.
--
-- The streams are parameters, records of their operations: AsyncStream under a WebSocket connection
-- and an HTTP/2 connection, RequestStream under the HTTP/1.1 parser, with its timers; the law of the
-- latter is InOrder. What a theorem asks of the former are records of laws: that reading writes
-- nothing and a write that succeeds appends its bytes (Transcript), and that the bytes to be read
-- are bounded (FiniteStream).
-- On an HTTP/2 connection the task that runs the adapter on a request is not modelled: the response
-- that it sends back is a step of its own, in any order with the frames that arrive. The window
-- to send on a stream is an integer, as a change of the settings can take it below 0; the other
-- windows are natural numbers, as each is compared with what is taken from it. None is wrapped at 63
-- bits. The debug data of a GOAWAY is the text of an error, and an argument of the round that sends
-- it.
--
-- Not modelled: sockets, TLS, tasks and timers (crates/tomcatrs-coyote/src/acceptor.rs, tls.rs and
-- the asynchronous parts elsewhere); the loop over the requests of an HTTP/1.1 connection; the
-- preface of an HTTP/2 connection and the select of its loop; the AJP parser; cookies and the
-- negotiation of content; the WebSocket handshake and its extensions; authenticators, realms and
-- sessions; configuration, deployment, the command line, logging, JSP and the bridge into the Java
-- virtual machine.
pub mod Prelude
pub mod Coyote
pub mod WebSocket
pub mod Catalina
pub mod Security
mod Tests
