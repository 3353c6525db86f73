-- ===== src/Coyote/Http2/RoundTrip.antt =====
-- A frame that was written is read back, and what follows it stays in the buffer.
use michael.Prelude.{
  ℕ, suc, ◌+◌, ◌%◌, ◌^◌, ◌≤◌, ◌<◌, Bool, true, false, [], ◌∷◌, ◌++◌, Option, none, some, List,
  Result, ok, ◌≡◌, refl, ap, ◌∙◌, arith, length, All, append-nil, append_assoc, length-append,
  take-append_self, drop-append_self, ◌>>=◌, sym,
}
use michael.Prelude.BigEndian.{be_bytes, be_value-be_bytes_4}
use michael.Prelude.Text.{Bytes}
use michael.Coyote.Http2.{
  FrameType, FrameHeader, Priority, Frame, FrameError, parse_frame_header, from_u8, decode_payload,
  parse_loop, parse, split_priority, parse_priority, read_params, bytes_at,
}
use michael.Coyote.Http2.Encode.{
  to_u8, encode_frame_header, encode_priority, encode_optional, encode_params, frame_parts, encode,
}
use michael.Coyote.Http2.Fields.{
  mask_31, parse_frame_header-encode, length-encode_frame_header, parse_priority-encode,
  length-encode_priority, IsParam, read_params-encode, length-encode_params,
}

abbrev pub IsDependency : Option Priority → Type 0
IsDependency none = Unit {0}
IsDependency (some p) = p.stream_dependency < 2 ^ 31

-- The fields are within the bits that the wire form has for them.
abbrev pub IsValid : Frame → Type 0
IsValid (Frame.data_frame stream_id content end_stream) = stream_id < 2 ^ 31
IsValid (Frame.headers stream_id block end_stream end_headers dependency) =
    (stream_id < 2 ^ 31) × IsDependency dependency
IsValid (Frame.priority stream_id dependency) =
    (stream_id < 2 ^ 31) × (dependency.stream_dependency < 2 ^ 31)
IsValid (Frame.rst_stream stream_id error_code) = (stream_id < 2 ^ 31) × (error_code < 2 ^ 32)
IsValid (Frame.settings true params) = params ≡ []
IsValid (Frame.settings false params) = All IsParam params
IsValid (Frame.ping ack payload) = length payload ≡ 8
IsValid (Frame.go_away last_stream_id error_code debug) =
    (last_stream_id < 2 ^ 31) × (error_code < 2 ^ 32)
IsValid (Frame.window_update stream_id increment) =
    (stream_id < 2 ^ 31) × (0 < increment) × (increment < 2 ^ 31)
IsValid (Frame.continuation stream_id block end_headers) = stream_id < 2 ^ 31

abbrev body_of : Frame → Bytes
body_of f = (frame_parts f).3

-- The header that `encode` writes.
abbrev header_of : Frame → FrameHeader
header_of f = record {
  payload_length = length (body_of f) % 2 ^ 32;
  frame_type = to_u8 (frame_parts f).0;
  flags = (frame_parts f).1;
  stream_id = (frame_parts f).2;
}

split_priority-encode :
    (p : Priority) (block : Bytes)
    → p.stream_dependency < 2 ^ 31
    → split_priority true (encode_priority p ++ block) ≡ ok (some p, block)
unfolding split_priority
split_priority-encode p block h =
    let short = length-encode_priority p in
    rw
      (
        take-append_self 5 (encode_priority p) block short,
        drop-append_self 5 (encode_priority p) block short,
      )
      (ground (
        arith,
        short,
        length-append (encode_priority p) block,
        parse_priority-encode p [] h,
        append-nil (encode_priority p),
      ))

params_fit : (params : List (ℕ × ℕ)) → length (encode_params params) % 6 ≡ 0
params_fit params = omega (arith, length-encode_params params)

after_priority :
    {A : Type 0} (p : Priority) (block : Bytes)
    → p.stream_dependency < 2 ^ 31
    → (f : Option Priority × Bytes → Result FrameError A)
    → (split_priority true (encode_priority p ++ block) >>= f) ≡ f (some p, block)
after_priority p block h f = rw (split_priority-encode p block h) refl

parse_priority_whole :
    (p : Priority) → p.stream_dependency < 2 ^ 31 → parse_priority (encode_priority p) ≡ p
parse_priority_whole p h =
    ap parse_priority (sym (append-nil (encode_priority p))) ∙ parse_priority-encode p [] h

decode_headers :
    (stream_id : ℕ) (block : Bytes) (end_stream end_headers : Bool) (p : Option Priority)
    → IsDependency p
    → decode_payload FrameType.headers
        (header_of (Frame.headers stream_id block end_stream end_headers p))
        (encode_optional p ++ block)
      ≡ ok (Frame.headers stream_id block end_stream end_headers p)
unfolding decode_payload frame_parts split_priority
decode_headers stream_id block true true none d = refl
decode_headers stream_id block true false none d = refl
decode_headers stream_id block false true none d = refl
decode_headers stream_id block false false none d = refl
decode_headers stream_id block true true (some p) d =
    after_priority p block d (λ r. ok (Frame.headers stream_id r.1 true true r.0))
decode_headers stream_id block true false (some p) d =
    after_priority p block d (λ r. ok (Frame.headers stream_id r.1 true false r.0))
decode_headers stream_id block false true (some p) d =
    after_priority p block d (λ r. ok (Frame.headers stream_id r.1 false true r.0))
decode_headers stream_id block false false (some p) d =
    after_priority p block d (λ r. ok (Frame.headers stream_id r.1 false false r.0))

decode_ack :
    (params : List (ℕ × ℕ))
    → params ≡ []
    → decode_payload FrameType.settings
        (header_of (Frame.settings true params))
        (encode_params params)
      ≡ ok (Frame.settings true params)
unfolding decode_payload frame_parts encode_params read_params
decode_ack [] h = refl
decode_ack (p ∷ params) h = cc

-- The payload of each frame is decoded as this frame.
decode_payload-frame_parts :
    (f : Frame) → IsValid f → decode_payload (frame_parts f).0 (header_of f) (body_of f) ≡ ok f
unfolding decode_payload frame_parts be_bytes
decode_payload-frame_parts (Frame.data_frame stream_id content true) h = refl
decode_payload-frame_parts (Frame.data_frame stream_id content false) h = refl
decode_payload-frame_parts (Frame.headers stream_id block es eh p) h =
    decode_headers stream_id block es eh p h.1
decode_payload-frame_parts (Frame.priority stream_id p) h =
    rw (length-encode_priority p, parse_priority_whole p h.1) refl
decode_payload-frame_parts (Frame.rst_stream stream_id error_code) h =
    rw (be_value-be_bytes_4 error_code h.1) refl
decode_payload-frame_parts (Frame.settings true params) h = decode_ack params h
decode_payload-frame_parts (Frame.settings false params) h =
    rw (params_fit params, read_params-encode params h) refl
decode_payload-frame_parts (Frame.ping true payload) h = rw h refl
decode_payload-frame_parts (Frame.ping false payload) h = rw h refl
decode_payload-frame_parts (Frame.go_away last error_code debug) h =
    rw
      (
        mask_31 last h.0,
        be_value-be_bytes_4 last (omega arith),
        be_value-be_bytes_4 error_code h.1,
        mask_31 last h.0,
      )
      (ground arith)
decode_payload-frame_parts (Frame.window_update stream_id increment) h =
    rw (mask_31 increment h.2, be_value-be_bytes_4 increment (omega arith), mask_31 increment h.2)
      (ground arith)
decode_payload-frame_parts (Frame.continuation stream_id block true) h = refl
decode_payload-frame_parts (Frame.continuation stream_id block false) h = refl

unknown_no : (f : Frame) → from_u8 (to_u8 (frame_parts f).0) ≡ some (frame_parts f).0
unfolding from_u8 to_u8 frame_parts
unknown_no (Frame.data_frame stream_id content end_stream) = refl
unknown_no (Frame.headers stream_id block end_stream end_headers dependency) = refl
unknown_no (Frame.priority stream_id dependency) = refl
unknown_no (Frame.rst_stream stream_id error_code) = refl
unknown_no (Frame.settings ack params) = refl
unknown_no (Frame.ping ack payload) = refl
unknown_no (Frame.go_away last_stream_id error_code debug) = refl
unknown_no (Frame.window_update stream_id increment) = refl
unknown_no (Frame.continuation stream_id block end_headers) = refl

stream_id-lt : (f : Frame) → IsValid f → (frame_parts f).2 < 2 ^ 31
unfolding frame_parts
stream_id-lt (Frame.data_frame stream_id content end_stream) h = h
stream_id-lt (Frame.headers stream_id block end_stream end_headers dependency) h = h.0
stream_id-lt (Frame.priority stream_id dependency) h = h.0
stream_id-lt (Frame.rst_stream stream_id error_code) h = h.0
stream_id-lt (Frame.settings ack params) h = omega arith
stream_id-lt (Frame.ping ack payload) h = omega arith
stream_id-lt (Frame.go_away last_stream_id error_code debug) h = omega arith
stream_id-lt (Frame.window_update stream_id increment) h = h.0
stream_id-lt (Frame.continuation stream_id block end_headers) h = h

parse_loop_known :
    (fuel max_frame_size : ℕ) (buf : Bytes) (h : FrameHeader) (frame_type : FrameType)
    → parse_frame_header buf ≡ some h
    → h.payload_length ≤ max_frame_size
    → 9 + h.payload_length ≤ length buf
    → from_u8 h.frame_type ≡ some frame_type
    → parse_loop (suc fuel) max_frame_size 0 buf ≡ (
        decode_payload frame_type h (bytes_at buf 9 h.payload_length) >>= λ f.
        ok (some (f, 9 + h.payload_length)))
unfolding parse_loop
parse_loop_known fuel max_frame_size buf h frame_type found fits whole known =
    rw (found, parse_loop) (ground arith)

parse_known :
    (max_frame_size : ℕ) (buf : Bytes) (h : FrameHeader) (frame_type : FrameType)
    → parse_frame_header buf ≡ some h
    → h.payload_length ≤ max_frame_size
    → 9 + h.payload_length ≤ length buf
    → from_u8 h.frame_type ≡ some frame_type
    → parse buf max_frame_size ≡ (
        decode_payload frame_type h (bytes_at buf 9 h.payload_length) >>= λ f.
        ok (some (f, 9 + h.payload_length)))
unfolding parse
parse_known max_frame_size [] h frame_type found fits whole known = absurd (omega arith)
parse_known max_frame_size (b ∷ buf) h frame_type found fits whole known =
    parse_loop_known (length buf) max_frame_size (b ∷ buf) h frame_type found fits whole known

-- A frame of a known type at the front of the buffer.
parse-frame :
    (max_frame_size : ℕ) (h : FrameHeader) (frame_type : FrameType) (body rest : Bytes)
    → h.payload_length ≡ length body
    → length body ≤ max_frame_size
    → length body < 2 ^ 24
    → h.stream_id < 2 ^ 31
    → from_u8 h.frame_type ≡ some frame_type
    → parse (encode_frame_header h ++ (body ++ rest)) max_frame_size
      ≡ (decode_payload frame_type h body >>= λ f. ok (some (f, 9 + length body)))
parse-frame max_frame_size h frame_type body rest len fits small id known =
    let front = encode_frame_header h in
    let nine = length-encode_frame_header h in
    parse_known max_frame_size (front ++ (body ++ rest)) h frame_type
      (parse_frame_header-encode h (body ++ rest) (omega arith) id) (omega arith)
      (omega (arith, length-append front (body ++ rest), length-append body rest)) known
    ∙ rw
        (
          drop-append_self 9 front (body ++ rest) nine,
          len,
          take-append_self (length body) body rest refl,
        )
        refl

-- A frame whose fields are within the bits that the wire form has for them, and whose payload is
-- within the limit on frames, is read back as it was, with the number of bytes that it takes,
-- whatever follows it in the buffer.
pub parse-encode :
    (f : Frame) (max_frame_size : ℕ) (rest : Bytes)
    → IsValid f
    → length (frame_parts f).3 ≤ max_frame_size
    → max_frame_size < 2 ^ 24
    → parse (encode f ++ rest) max_frame_size ≡ ok (some (f, length (encode f)))
unfolding encode
parse-encode f max_frame_size rest valid fits small =
    let body = (frame_parts f).3 in
    let h = header_of f in
    let shape : encode f ++ rest ≡ encode_frame_header h ++ (body ++ rest) =
      append_assoc (encode_frame_header h) body rest in
    let total : length (encode f) ≡ 9 + length body =
      omega (arith, length-append (encode_frame_header h) body, length-encode_frame_header h) in
    ap (λ b. parse b max_frame_size) shape
    ∙ parse-frame max_frame_size h (frame_parts f).0 body rest (omega arith) fits (omega arith)
        (stream_id-lt f valid) (unknown_no f)
    ∙ rw (decode_payload-frame_parts f valid, total) refl
