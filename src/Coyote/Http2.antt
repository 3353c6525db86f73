-- ===== src/Coyote/Http2.antt =====
-- crates/tomcatrs-coyote/src/http2.rs: the frames of HTTP/2 and their wire form. An error is named
-- by the code in front of its message.
pub mod Encode
pub mod Fields
pub mod RoundTrip
pub mod Incremental
pub mod Settings
pub mod Request
pub mod Connection
pub mod Receive
pub mod Send
pub mod Stalls
pub mod Delivery
pub mod Ledger
pub mod Invariant
pub mod Books
pub mod Reachable
use michael.Prelude.{
  ℕ, zero, suc, ◌+◌, ◌-◌, ◌%◌, Bool, true, false, not, ◌&&◌, List, [], ◌∷◌, Option, none, some,
  Result, ok, err, ◌>>=◌, ◌>>◌, guard, bit_and, ltb, leb, ◌==◌, if◌then◌else◌, length, take, drop,
  get_or, is_empty,
}
use michael.Prelude.BigEndian.{be_value}
use michael.Prelude.Text.{Bytes, codes}

abbrev pub preface : Bytes
preface = codes "PRI * HTTP/2.0\r\n\r\nSM\r\n\r\n"

abbrev pub frame_header_len : ℕ
frame_header_len = 9

abbrev pub stream_id_mask : ℕ
stream_id_mask = 0x7fffffff

pub data FrameType : Type 0 where
  data_frame headers priority rst_stream settings push_promise ping go_away : FrameType
  window_update continuation : FrameType

unfoldable pub from_u8 : ℕ → Option FrameType
from_u8 v =
    if v == 0
    then some data_frame
    else if v == 1
    then some headers
    else if v == 2
    then some priority
    else if v == 3
    then some rst_stream
    else if v == 4
    then some settings
    else if v == 5
    then some push_promise
    else if v == 6
    then some ping
    else if v == 7
    then some go_away
    else if v == 8
    then some window_update
    else if v == 9
    then some continuation
    else none

pub record FrameHeader : Type 0 where
  pub payload_length : ℕ
  pub frame_type : ℕ
  pub flags : ℕ
  pub stream_id : ℕ

-- `buf[i..i + n]`, which the callers know to lie in the buffer.
abbrev pub bytes_at : Bytes → ℕ → ℕ → Bytes
bytes_at buf i n = take n (drop i buf)

-- `FrameHeader::parse`
unfoldable pub parse_frame_header : Bytes → Option FrameHeader
parse_frame_header buf =
    if ltb (length buf) frame_header_len
    then none
    else some (record {
      payload_length = be_value 0 (bytes_at buf 0 3);
      frame_type = get_or buf 3 0;
      flags = get_or buf 4 0;
      stream_id = bit_and (be_value 0 (bytes_at buf 5 4)) stream_id_mask;
    })

-- The module `flags`.
abbrev pub end_stream_flag : ℕ
end_stream_flag = 0x1

abbrev pub ack_flag : ℕ
ack_flag = 0x1

abbrev pub end_headers_flag : ℕ
end_headers_flag = 0x4

abbrev pub padded_flag : ℕ
padded_flag = 0x8

abbrev pub priority_flag : ℕ
priority_flag = 0x20

abbrev pub has_flag : ℕ → ℕ → Bool
has_flag flags mask = not (bit_and flags mask == 0)

pub record Priority : Type 0 where
  pub exclusive : Bool
  pub stream_dependency : ℕ
  pub weight : ℕ

-- `Priority::parse`
unfoldable pub parse_priority : Bytes → Priority
parse_priority buf =
    let raw = be_value 0 (bytes_at buf 0 4) in
    record {
      exclusive = not (bit_and raw 0x80000000 == 0);
      stream_dependency = bit_and raw stream_id_mask;
      weight = get_or buf 4 0;
    }

pub data Frame : Type 0 where
  data_frame : (stream_id : ℕ) (content : Bytes) (end_stream : Bool) → Frame
  headers :
      (stream_id : ℕ) (block : Bytes) (end_stream end_headers : Bool) (priority : Option Priority)
      → Frame
  priority : (stream_id : ℕ) (priority : Priority) → Frame
  rst_stream : (stream_id error_code : ℕ) → Frame
  settings : (ack : Bool) (params : List (ℕ × ℕ)) → Frame
  ping : (ack : Bool) (payload : Bytes) → Frame
  go_away : (last_stream_id error_code : ℕ) (debug : Bytes) → Frame
  window_update : (stream_id increment : ℕ) → Frame
  continuation : (stream_id : ℕ) (block : Bytes) (end_headers : Bool) → Frame

pub data FrameError : Type 0 where
  frame_size_error protocol_error : FrameError

unfoldable pub strip_padding : Bytes → Result FrameError Bytes
strip_padding [] = err protocol_error
strip_padding (pad_len ∷ rest) = do
  guard (not (ltb (length rest) pad_len)) protocol_error
  ok (take (length rest - pad_len) rest)

abbrev pub strip_if : Bool → Bytes → Result FrameError Bytes
strip_if padded payload = if padded then strip_padding payload else ok payload

-- The priority block of a HEADERS frame, and what follows it.
unfoldable pub split_priority : Bool → Bytes → Result FrameError (Option Priority × Bytes)
split_priority true content = do
  guard (not (ltb (length content) 5)) frame_size_error
  ok (some (parse_priority (take 5 content)), drop 5 content)
split_priority false content = ok (none, content)

-- `payload.chunks_exact(6)`, each as an identifier and a value.
unfoldable pub read_params : Bytes → List (ℕ × ℕ)
read_params (a ∷ b ∷ c ∷ d ∷ e ∷ f ∷ rest) =
    (be_value 0 (a ∷ b ∷ []), be_value 0 (c ∷ d ∷ e ∷ f ∷ [])) ∷ read_params rest
read_params _ = []

unfoldable pub decode_payload : FrameType → FrameHeader → Bytes → Result FrameError Frame
decode_payload FrameType.data_frame header payload = do
  content ← strip_if (has_flag header.flags padded_flag) payload
  ok (Frame.data_frame header.stream_id content (has_flag header.flags end_stream_flag))
decode_payload FrameType.headers header payload = do
  content ← strip_if (has_flag header.flags padded_flag) payload
  (dependency, block) ← split_priority (has_flag header.flags priority_flag) content
  ok (
      Frame.headers header.stream_id block (has_flag header.flags end_stream_flag)
        (has_flag header.flags end_headers_flag) dependency)
decode_payload FrameType.priority header payload = do
  guard (length payload == 5) frame_size_error
  ok (Frame.priority header.stream_id (parse_priority payload))
decode_payload FrameType.rst_stream header payload = do
  guard (length payload == 4) frame_size_error
  ok (Frame.rst_stream header.stream_id (be_value 0 (bytes_at payload 0 4)))
decode_payload FrameType.settings header payload = do
  let ack = has_flag header.flags ack_flag
  guard (not (ack && not (is_empty payload))) frame_size_error
  guard (length payload % 6 == 0) frame_size_error
  ok (Frame.settings ack (read_params payload))
decode_payload FrameType.push_promise header payload = err protocol_error
decode_payload FrameType.ping header payload = do
  guard (length payload == 8) frame_size_error
  ok (Frame.ping (has_flag header.flags ack_flag) payload)
decode_payload FrameType.go_away header payload = do
  guard (not (ltb (length payload) 8)) frame_size_error
  ok (
      Frame.go_away (bit_and (be_value 0 (bytes_at payload 0 4)) stream_id_mask)
        (be_value 0 (bytes_at payload 4 4)) (drop 8 payload))
decode_payload FrameType.window_update header payload = do
  guard (length payload == 4) frame_size_error
  let increment = bit_and (be_value 0 (bytes_at payload 0 4)) stream_id_mask
  guard (not (increment == 0)) protocol_error
  ok (Frame.window_update header.stream_id increment)
decode_payload FrameType.continuation header payload =
    ok (Frame.continuation header.stream_id payload (has_flag header.flags end_headers_flag))

-- The loop of `Frame::parse`, on what is left of the buffer behind `offset`: a frame of unknown
-- type is skipped. The length of the buffer is fuel enough, since a frame takes nine bytes.
unfoldable pub parse_loop : ℕ → ℕ → ℕ → Bytes → Result FrameError (Option (Frame × ℕ))
parse_loop zero max_frame_size offset rest = ok none
parse_loop (suc fuel) max_frame_size offset rest = elim (parse_frame_header rest) [
  | none ↦ ok none
  | some header ↦
      let frame_len = frame_header_len + header.payload_length in
      let payload = bytes_at rest frame_header_len header.payload_length in
      let skipped = parse_loop fuel max_frame_size (offset + frame_len) (drop frame_len rest) in
      if ltb max_frame_size header.payload_length
      then err frame_size_error
      else if ltb (length rest) frame_len
      then ok none
      else elim (from_u8 header.frame_type) [
        | some frame_type ↦ decode_payload frame_type header payload >>= λ frame.
            ok (some (frame, offset + frame_len))
        | none ↦ skipped
      ]
]

-- `Frame::parse`
unfoldable pub parse : Bytes → ℕ → Result FrameError (Option (Frame × ℕ))
parse buf max_frame_size = parse_loop (length buf) max_frame_size 0 buf
