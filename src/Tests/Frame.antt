-- ===== src/Tests/Frame.antt =====
-- The codec on the frames of its unit tests, and its theorems at concrete buffers.
use michael.Prelude.BigEndian.{be_value}
use michael.Prelude.{[], ◌∷◌, ◌++◌, none, some, ◌≡◌, ◌<◌, ◌+◌, true, refl, ok, err, arith, length}
use michael.Prelude.Text.{Bytes, codes}
use michael.WebSocket.Frame.{
  Frame, text, encode, parse, parse_header, payload_len, check_header, parse_payload, unmask,
  from_u8, to_u8, length_fields, reserved_opcode, unmasked, max_payload_len,
}
use michael.WebSocket.Frame.RoundTrip.{IsValid, client_frame, parse-client_frame}
use michael.WebSocket.Frame.Incremental.{parse-append, parse-waits}

abbrev hello : Frame
hello = record { fin = true; opcode = text; payload = codes "Hello" }

abbrev key : Bytes
key = 0x37 ∷ 0xfa ∷ 0x21 ∷ 0x3d ∷ []

-- The masked "Hello" of RFC 6455, section 5.7.
abbrev masked_hello : Bytes
masked_hello = 0x81 ∷ 0x85 ∷ 0x37 ∷ 0xfa ∷ 0x21 ∷ 0x3d ∷ 0x7f ∷ 0x9f ∷ 0x4d ∷ 0x51 ∷ 0x58 ∷ []

runs :
    (parse masked_hello ≡ ok (some (hello, 11)))
    × (encode hello ≡ 0x81 ∷ 0x05 ∷ codes "Hello")
    × (parse (0x83 ∷ 0x80 ∷ []) ≡ err reserved_opcode)
    × (parse (0x81 ∷ 0x00 ∷ []) ≡ err unmasked)
    × (parse (0x81 ∷ 0x85 ∷ 0x37 ∷ []) ≡ ok none)
unfolding parse parse_header payload_len check_header parse_payload unmask from_u8 be_value encode
runs = (refl, refl, refl, refl, refl)

client_frame_runs : client_frame key hello ≡ masked_hello
unfolding client_frame length_fields unmask to_u8
client_frame_runs = refl

hello-IsValid : IsValid hello
hello-IsValid = record {
  bytes = omega arith;
  fits = omega arith;
  whole = λ _. refl;
  short = λ _. omega arith;
}

parse-client_frame_example :
    parse (client_frame key hello ++ (0x81 ∷ []))
    ≡ ok (some (hello, length (client_frame key hello)))
parse-client_frame_example =
    parse-client_frame key hello (0x81 ∷ []) hello-IsValid (omega arith) refl

parse-append_example : parse (masked_hello ++ (0x81 ∷ [])) ≡ parse masked_hello
parse-append_example = parse-append masked_hello (0x81 ∷ []) (λ e. cc (runs.0, e))

abbrev cut : Bytes
cut = 0x81 ∷ 0x85 ∷ 0x37 ∷ []

parse-waits_example : length cut < 14 + max_payload_len
parse-waits_example = parse-waits cut runs.4
