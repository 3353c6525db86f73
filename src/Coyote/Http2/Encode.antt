-- ===== src/Coyote/Http2/Encode.antt =====
-- crates/tomcatrs-coyote/src/http2.rs: writing a frame.
use michael.Prelude.{
  ℕ, ◌%◌, ◌^◌, Bool, List, [], ◌∷◌, ◌++◌, Option, none, some, bit_and, bit_or, if◌then◌else◌,
  length,
}
use michael.Prelude.BigEndian.{be_bytes}
use michael.Prelude.Text.{Bytes}
use michael.Coyote.Http2.{
  FrameType, FrameHeader, Priority, Frame, stream_id_mask, end_stream_flag, ack_flag,
  end_headers_flag, priority_flag,
}

-- `ft as u8`
unfoldable pub to_u8 : FrameType → ℕ
to_u8 FrameType.data_frame = 0
to_u8 FrameType.headers = 1
to_u8 FrameType.priority = 2
to_u8 FrameType.rst_stream = 3
to_u8 FrameType.settings = 4
to_u8 FrameType.push_promise = 5
to_u8 FrameType.ping = 6
to_u8 FrameType.go_away = 7
to_u8 FrameType.window_update = 8
to_u8 FrameType.continuation = 9

-- `FrameHeader::encode`: the lower three bytes of the length.
unfoldable pub encode_frame_header : FrameHeader → Bytes
encode_frame_header h =
    be_bytes 3 h.payload_length
    ++ (h.frame_type ∷ h.flags ∷ be_bytes 4 (bit_and h.stream_id stream_id_mask))

-- `Priority::encode_into`
unfoldable pub encode_priority : Priority → Bytes
encode_priority p =
    let dep = bit_and p.stream_dependency stream_id_mask in
    be_bytes 4 (if p.exclusive then bit_or dep 0x80000000 else dep) ++ (p.weight ∷ [])

unfoldable pub encode_params : List (ℕ × ℕ) → Bytes
encode_params [] = []
encode_params ((id, value) ∷ params) = be_bytes 2 id ++ (be_bytes 4 value ++ encode_params params)

abbrev pub flag_if : Bool → ℕ → ℕ
flag_if test flag = if test then flag else 0

abbrev pub encode_optional : Option Priority → Bytes
encode_optional none = []
encode_optional (some p) = encode_priority p

abbrev pub priority_bit : Option Priority → ℕ
priority_bit none = 0
priority_bit (some p) = priority_flag

-- The type, the flags, the stream and the payload of a frame.
unfoldable pub frame_parts : Frame → FrameType × ℕ × ℕ × Bytes
frame_parts (Frame.data_frame stream_id content end_stream) =
    (FrameType.data_frame, flag_if end_stream end_stream_flag, stream_id, content)
frame_parts (Frame.headers stream_id block end_stream end_headers priority) = (
  FrameType.headers,
  bit_or (bit_or (flag_if end_stream end_stream_flag) (flag_if end_headers end_headers_flag))
      (priority_bit priority),
  stream_id,
  encode_optional priority ++ block,
)
frame_parts (Frame.priority stream_id priority) =
    (FrameType.priority, 0, stream_id, encode_priority priority)
frame_parts (Frame.rst_stream stream_id error_code) =
    (FrameType.rst_stream, 0, stream_id, be_bytes 4 error_code)
frame_parts (Frame.settings ack params) =
    (FrameType.settings, flag_if ack ack_flag, 0, encode_params params)
frame_parts (Frame.ping ack payload) = (FrameType.ping, flag_if ack ack_flag, 0, payload)
frame_parts (Frame.go_away last_stream_id error_code debug) = (
  FrameType.go_away,
  0,
  0,
  be_bytes 4 (bit_and last_stream_id stream_id_mask) ++ (be_bytes 4 error_code ++ debug),
)
frame_parts (Frame.window_update stream_id increment) =
    (FrameType.window_update, 0, stream_id, be_bytes 4 (bit_and increment stream_id_mask))
frame_parts (Frame.continuation stream_id block end_headers) =
    (FrameType.continuation, flag_if end_headers end_headers_flag, stream_id, block)

-- `Frame::encode`; `body.len() as u32` wraps.
unfoldable pub encode : Frame → Bytes
unfolding to_u8 frame_parts
encode frame =
    let (frame_type, flags, stream_id, body) = frame_parts frame in
    encode_frame_header (record {
      payload_length = length body % 2 ^ 32;
      frame_type = to_u8 frame_type;
      flags = flags;
      stream_id = stream_id;
    })
    ++ body
