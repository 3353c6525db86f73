-- ===== src/Tests/Http2.antt =====
-- Frames of the unit tests, connections in the states that the theorems are about, and the theorems
-- at them.
use michael.Prelude.{
  ℕ, ◌+◌, ◌≤◌, true, false, [], ◌∷◌, ◌++◌, none, some, ok, err, ◌≡◌, ◌⊎◌, refl, if◌then◌else◌,
  arith, length, All, any, retain,
}
use michael.Prelude.Streams.{AsyncStream, Transcript}
use michael.Prelude.BigEndian.{be_value, be_bytes}
use michael.Prelude.Text.{
  Bytes, codes, str_eq, lower, split_on, split_once, strip_prefix, contains, from_utf8, join,
  ends_with,
}
use michael.Coyote.Normalize.{
  normalize_target, normalize_path, percent_decode, collapse_dot_segments, collapse_loop,
  collapse_step, render_path,
}
use michael.Coyote.Normalize.Safety.{IsCanonical}
use michael.Coyote.Http1.Serving.{Response}
use michael.Coyote.Http1.{Headers}
use michael.Coyote.Http1.Reading.{Request}
use michael.Coyote.Http2.{
  Frame, parse, parse_loop, parse_frame_header, from_u8, decode_payload, split_priority,
  frame_size_error,
}
use michael.Coyote.Http2.Encode.{encode, frame_parts, encode_priority}
use michael.Coyote.Http2.RoundTrip.{parse-encode}
use michael.Coyote.Http2.Settings.{protocol_error_code}
use michael.Coyote.Http2.Request.{
  build_request, add_fields, add_field, set_pseudo, add_host, is_host, is_connection_specific,
}
use michael.Coyote.Http2.Request.Pseudo.{last_value}
use michael.Coyote.Http2.Request.Sound.{
  IsAllowed, PseudoFirst, is_regular, host_of, build_request-IsClean,
}
use michael.Coyote.Http2.Connection.{Connection, Stream, new_stream, find_stream}
use michael.Coyote.Http2.Send.{
  has_credit, write_body, write_response, turn, finished, unfinished, starts_over, is_flow_frame,
}
use michael.Coyote.Http2.Stalls.{Talks, repeat, turns, write_body-stalls, turn-spins}
use michael.Coyote.Http2.Delivery.{Receives, write_body-Receives}
use michael.Coyote.Http2.Ledger.{Distinct, served_ids}
use michael.Coyote.Http2.Reachable.{
  new_connection, Steps, here, next, arrives, cycles, responds, Steps-bounded, Steps-once,
}

-- A HEADERS frame with a priority block, as the peer reads it in front of a byte of the next frame.
abbrev with_priority : Frame
with_priority =
    Frame.headers 3 (codes "block") true false
      (some (record { exclusive = true; stream_dependency = 1; weight = 200 }))

abbrev after_it : Bytes
after_it = 0x00 ∷ []

parse-encode_example :
    parse (encode with_priority ++ after_it) 16384
    ≡ ok (some (with_priority, length (encode with_priority)))
parse-encode_example =
    parse-encode with_priority 16384 after_it (omega arith, omega arith)
      (unfold frame_parts encode_priority be_bytes in omega arith) (omega arith)

-- A frame of unknown type is skipped; a PING follows it.
abbrev grease : Bytes
grease = 0 ∷ 0 ∷ 1 ∷ 0x0b ∷ 0 ∷ 0 ∷ 0 ∷ 0 ∷ 0 ∷ 7 ∷ []

abbrev ping_bytes : Bytes
ping_bytes = 0 ∷ 0 ∷ 8 ∷ 6 ∷ 0 ∷ 0 ∷ 0 ∷ 0 ∷ 0 ∷ 1 ∷ 2 ∷ 3 ∷ 4 ∷ 5 ∷ 6 ∷ 7 ∷ 8 ∷ []

abbrev ping_payload : Bytes
ping_payload = 1 ∷ 2 ∷ 3 ∷ 4 ∷ 5 ∷ 6 ∷ 7 ∷ 8 ∷ []

skips : parse (grease ++ ping_bytes) 16384 ≡ ok (some (Frame.ping false ping_payload, 27))
unfolding parse parse_loop parse_frame_header from_u8 decode_payload be_value
skips = refl

-- A request with an authority and a cookie.
abbrev block : Headers
block =
    (codes ":method", codes "GET")
    ∷ (codes ":path", codes "/a?q")
    ∷ (codes ":authority", codes "example.org")
    ∷ (codes "cookie", codes "k=v")
    ∷ []

abbrev request : Request
request = record {
  method = codes "GET";
  uri = codes "/a?q";
  path = codes "/a";
  query = some (codes "q");
  version = codes "HTTP/2.0";
  headers = (codes "host", codes "example.org") ∷ (codes "cookie", codes "k=v") ∷ [];
  body = codes "body";
}

built : build_request block (codes "body") ≡ ok request
unfolding build_request add_fields add_field set_pseudo add_host is_connection_specific any
    normalize_target normalize_path str_eq lower split_on split_once strip_prefix contains from_utf8
    percent_decode collapse_dot_segments collapse_loop collapse_step render_path join ends_with
built = refl

build_request-IsClean_example :
    PseudoFirst false block
    × (last_value (codes ":method") block ≡ some request.method)
    × (last_value (codes ":path") block ≡ some request.uri)
    × (request.headers
        ≡ (if any is_host (retain is_regular block)
            then []
            else host_of (last_value (codes ":authority") block))
          ++ retain is_regular block)
    × All IsAllowed request.headers
    × (request.body ≡ codes "body")
    × ((request.path ≡ codes "*") ⊎ IsCanonical request.path)
build_request-IsClean_example = build_request-IsClean block (codes "body") request built

-- A socket that keeps what was written, and on which the peer sends a byte at a time.
abbrev socket : AsyncStream Bytes
socket = record {
  read_buf = λ s. (s, some (0x00 ∷ []));
  write_all = λ s bytes. (s ++ bytes, true);
  flush = λ s. (s, true);
  shutdown = λ s. s;
}

abbrev transcript : Transcript socket
transcript = record {
  written = λ s. s;
  read_buf-written = λ s. refl;
  shutdown-written = λ s. refl;
  write_all-written = λ s bytes h. refl;
  flush-written = λ s. refl;
}

abbrev talks : Talks socket
talks = record { first = λ s. 0x00; others = λ s. []; talks = λ s. refl }

abbrev open_stream : Stream
open_stream = new_stream 1 65535 65535

-- A connection with one stream, and what stands in its buffer.
abbrev connection : Bytes → ℕ → Connection Bytes
connection inbuf credit = record (new_connection [] inbuf) {
  streams = open_stream ∷ [];
  open_stream_count = 1;
  last_stream_id = 1;
  conn_send_window = credit;
}

-- The head of the next request, and a window that is used up.
abbrev next_head : Bytes
next_head = 0 ∷ 0 ∷ 1 ∷ 1 ∷ 4 ∷ 0 ∷ 0 ∷ 0 ∷ 3 ∷ 0x82 ∷ []

next_request : parse next_head 16384 ≡ ok (some (Frame.headers 3 (0x82 ∷ []) false true none, 10))
unfolding parse parse_loop parse_frame_header from_u8 decode_payload split_priority be_value
next_request = refl

next_is_left : is_flow_frame (Frame.headers 3 (0x82 ∷ []) false true none) ≡ false
unfolding is_flow_frame
next_is_left = refl

no_credit : has_credit 1 (connection next_head 0) ≡ false
unfolding find_stream
no_credit = refl

write_body-stalls_example :
    (write_body socket 1000 1 (codes "body") (connection next_head 0)).1 ≡ unfinished
write_body-stalls_example =
    write_body-stalls socket talks (connection next_head 0) 1 b'b' (codes "ody")
      (Frame.headers 3 (0x82 ∷ []) false true none) 10 next_request next_is_left no_credit 1000

-- A RST_STREAM of three bytes.
abbrev short_reset : Bytes
short_reset = 0 ∷ 0 ∷ 3 ∷ 3 ∷ 0 ∷ 0 ∷ 0 ∷ 0 ∷ 1 ∷ 0 ∷ 0 ∷ 0 ∷ []

refused : parse short_reset 16384 ≡ err frame_size_error
unfolding parse parse_loop parse_frame_header from_u8 decode_payload be_value
refused = refl

turn-spins_example :
    ((turn socket (codes "e") (turns socket (codes "e") 5 (connection short_reset 65535))).1
      ≡ starts_over)
    × ((turns socket (codes "e") 5 (connection short_reset 65535)).io
        ≡ [] ++ repeat 5 (encode (Frame.go_away 1 protocol_error_code (codes "e"))))
turn-spins_example =
    turn-spins socket transcript (λ s bytes. refl) (codes "e") (connection short_reset 65535)
      frame_size_error refused refl 5

there : find_stream 1 (connection [] 65535).streams ≡ some open_stream
unfolding find_stream
there = refl

write_body-Receives_example :
    ((write_body socket 4 1 (codes "body") (connection [] 65535)).1 ≡ finished)
    × ((write_body socket 4 1 (codes "body") (connection [] 65535)).0.conn_send_window + 4 ≡ 65535)
    × ((out : Bytes) × ((write_body socket 4 1 (codes "body") (connection [] 65535)).0.io
          ≡ [] ++ out)
        × Receives 16384 1 out (codes "body"))
write_body-Receives_example =
    write_body-Receives socket transcript (λ s bytes. refl) 4 (connection [] 65535) 1 (codes "body")
      (record {
        stream = open_stream;
        found = there;
        in_stream = omega arith;
        in_connection = omega arith;
        frame_pos = omega arith;
        frame_lt = omega arith;
        id_lt = omega arith;
      })
      (omega arith) (omega arith)

-- A connection that has read the head of a request, and answered it.
abbrev started : Connection Bytes
started = new_connection [] []

abbrev read_on : Connection Bytes
read_on = record started { io = []; inbuf = started.inbuf ++ next_head }

abbrev ok_response : Response
ok_response = record { status = 200; headers = []; body = codes "hi" }

abbrev answered : Connection Bytes
answered = (write_response socket 10 3 ok_response (turn socket [] read_on).0).0

life : Steps socket started answered
life =
    next (next (next here (arrives started [] next_head)) (cycles [] read_on))
      (responds (turn socket [] read_on).0 10 3 ok_response)

Steps-bounded_example :
    (answered.open_stream_count ≡ length answered.streams)
    × (length answered.streams ≤ 128)
    × (answered.conn_recv_window ≤ 65535)
    × All (λ (stream : Stream). stream.recv_window ≤ 65535) answered.streams
Steps-bounded_example = Steps-bounded socket [] [] answered life

Steps-once_example :
    Distinct (served_ids answered.serviced)
    × All (λ id. id ≤ answered.last_stream_id) (served_ids answered.serviced)
    × All (λ (stream : Stream). stream.id ≤ answered.last_stream_id) answered.streams
Steps-once_example = Steps-once socket [] [] answered life
