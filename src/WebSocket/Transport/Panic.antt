-- ===== src/WebSocket/Transport/Panic.antt =====
-- A connection panics in `parse_lenient` alone, so only where it accepts frames that are not masked.
use michael.Prelude.Streams.{AsyncStream}
use michael.Prelude.{
  ℕ, zero, suc, Bool, false, not, [], ◌∷◌, Option, none, some, ◌≡◌, ◌≢◌, arith, err, inl, inr,
  Result-cases, Result, ◌==◌, bit_and,
}
use michael.Prelude.Text.{Bytes}
use michael.WebSocket.Frame.{
  Opcode, Frame, panicked, parse, parse_header, payload_len, check_header, parse_payload, from_u8,
}
use michael.WebSocket.Frame.Incremental.{waits, gives, fails, outcome}
use michael.WebSocket.Close.{TransportError, frame_refused, from_payload}
use michael.WebSocket.Transport.{
  Message, Connection, try_parse_frame, handle_first_frame, handle_continuation,
  finish_data_message, check_message_size,
}
use michael.WebSocket.Transport.Send.{write_frame, write_control_frame}
use michael.WebSocket.Transport.Receive.{
  fill_read_buf, handle_ping, handle_pong, handle_close, handle_frame, end_of_stream, after_parse,
  read_round, read_loop, read_message,
}

from_u8-errors : (n : ℕ) → from_u8 n ≢ err panicked
unfolding from_u8
from_u8-errors n h = ground arith

payload_len-errors : (len7 : ℕ) (rest : Bytes) → payload_len len7 rest ≢ err panicked
unfolding payload_len
payload_len-errors len7 rest h = ground arith

check_header-errors :
    (fin : Bool) (op : Opcode) (len : ℕ) (masked : Bool)
    → check_header fin op len masked ≢ err panicked
unfolding check_header
check_header-errors fin op len masked h = ground arith

parse_payload-errors :
    (fin : Bool) (op : Opcode) (len offset : ℕ) (buf : Bytes)
    → parse_payload fin op len offset buf ≢ err panicked
unfolding parse_payload
parse_payload-errors fin op len offset buf h = ground arith

parse_header-errors : (b0 b1 : ℕ) (rest : Bytes) → parse_header b0 b1 rest ≢ err panicked
unfolding parse_header
parse_header-errors b0 b1 rest h = elim (outcome (payload_len (bit_and b1 0x7f) rest)) [
  | waits q ↦ ground (arith, from_u8-errors (bit_and b0 0x0f))
  | fails e q ↦
      ground (arith, from_u8-errors (bit_and b0 0x0f), payload_len-errors (bit_and b1 0x7f) rest)
  | gives (len, offset) q ↦ elim (Result-cases (from_u8 (bit_and b0 0x0f))) [
    | inr (e, o) ↦ ground (arith, from_u8-errors (bit_and b0 0x0f))
    | inl (op, o) ↦ ground (
      arith,
      check_header-errors (not (bit_and b0 0x80 == 0)) op len (not (bit_and b1 0x80 == 0)),
      parse_payload-errors (not (bit_and b0 0x80 == 0)) op len offset (b0 ∷ b1 ∷ rest),
    )
  ]
]

parse-errors : (buf : Bytes) → parse buf ≢ err panicked
unfolding parse
parse-errors [] h = cc
parse-errors (b0 ∷ []) h = cc
parse-errors (b0 ∷ b1 ∷ rest) h = parse_header-errors b0 b1 rest h

-- An outcome that is not a panic.
abbrev pub NoPanic {ℓ} : {A : Type ℓ} → Result TransportError A → Type ℓ
NoPanic r = r ≢ err (frame_refused panicked)

try_parse_frame-NoPanic :
    {S : Type 0} (c : Connection S)
    → c.config.accept_unmasked_frames ≡ false
    → NoPanic (try_parse_frame c).1
unfolding try_parse_frame
try_parse_frame-NoPanic c strict h = elim (outcome (parse c.read_bytes)) [
  | waits q ↦ ground arith
  | gives (frame, n) q ↦ ground arith
  | fails e q ↦ ground (arith, parse-errors c.read_bytes)
]

try_parse_frame-config : {S : Type 0} (c : Connection S) → (try_parse_frame c).0.config ≡ c.config
unfolding try_parse_frame
try_parse_frame-config c = ground arith

module _ {S : Type 0} (io : AsyncStream S) where
  handle_frame-NoPanic :
      (f : Frame) (c : Connection S)
      → NoPanic (handle_frame io f c).1 × ((handle_frame io f c).0.config ≡ c.config)
  unfolding handle_frame handle_ping handle_pong handle_close handle_first_frame from_payload
      handle_continuation finish_data_message check_message_size write_control_frame write_frame
  handle_frame-NoPanic f c = ((λ h. ground arith), ground arith)

  after_parse-NoPanic :
      (parsed : Option Frame) (c : Connection S)
      → NoPanic (after_parse io parsed c).1 × ((after_parse io parsed c).0.config ≡ c.config)
  unfolding fill_read_buf end_of_stream
  after_parse-NoPanic none c = ((λ h. ground arith), ground arith)
  after_parse-NoPanic (some f) c = elim (Result-cases (handle_frame io f c).1) [
    | inr (e, p) ↦
        ((λ h. ground (arith, handle_frame-NoPanic f c)), ground (arith, handle_frame-NoPanic f c))
    | inl (none, p) ↦ ((λ h. ground arith), ground (arith, handle_frame-NoPanic f c))
    | inl (some m, p) ↦ ((λ h. ground arith), ground (arith, handle_frame-NoPanic f c))
  ]

  read_round-NoPanic :
      (c : Connection S)
      → c.config.accept_unmasked_frames ≡ false
      → NoPanic (read_round io c).1 × ((read_round io c).0.config ≡ c.config)
  unfolding read_round
  read_round-NoPanic c strict = elim (Result-cases (try_parse_frame c).1) [
    | inr (e, p) ↦ (
      (λ h. ground (arith, try_parse_frame-NoPanic c strict)),
      ground (arith, try_parse_frame-config c),
    )
    | inl (parsed, p) ↦
        let after = after_parse-NoPanic parsed (try_parse_frame c).0 in
        ((λ h. after.0 (ground arith)), ground (arith, after.1, try_parse_frame-config c))
  ]

  read_loop-NoPanic :
      (fuel : ℕ) (c : Connection S) (next : Connection S × Result TransportError (Option Message))
      → c.config.accept_unmasked_frames ≡ false
      → read_loop io fuel c ≡ some next
      → NoPanic next.1
  unfolding read_loop
  read_loop-NoPanic zero c next strict h = cc
  read_loop-NoPanic (suc fuel) c next strict h =
      let round = read_round-NoPanic c strict in
      elim (Result-cases (read_round io c).1) [
        | inr (e, p) ↦ (λ q. round.0 (ground arith))
        | inl (some m, p) ↦ (λ q. ground arith)
        | inl (none, p) ↦
            read_loop-NoPanic fuel (read_round io c).0 next (ground arith) (ground arith)
      ]

  pub read_message-NoPanic :
      (fuel : ℕ) (c : Connection S) (next : Connection S × Result TransportError (Option Message))
      → c.config.accept_unmasked_frames ≡ false
      → read_message io fuel c ≡ some next
      → NoPanic next.1
  unfolding read_message
  read_message-NoPanic fuel c next strict h q = ground (arith, read_loop-NoPanic fuel c next strict)
