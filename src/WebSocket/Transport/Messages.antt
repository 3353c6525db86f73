-- ===== src/WebSocket/Transport/Messages.antt =====
-- What a message that is delivered satisfies.
use mathlib.Core.Path.{subst}
use michael.Prelude.Streams.{AsyncStream, Transcript}
use michael.Prelude.{
  ℕ, zero, suc, ◌≤◌, Bool, true, false, [], ◌∷◌, ◌++◌, Option, none, some, ◌≡◌, refl, ap, ◌∙◌,
  arith, length, ok, err, inl, inr, Bool-cases, Option-cases, Result-cases, Result,
}
use michael.Prelude.Text.{Bytes, from_utf8}
use michael.Prelude.Text.Laws.{from_utf8-eq_some}
use michael.WebSocket.Frame.{Frame, parse, is_control}
use michael.WebSocket.Frame.Incremental.{waits, gives, fails, outcome, parse-takes}
use michael.WebSocket.Lenient.{parse_lenient}
use michael.WebSocket.Close.{CloseFrame, TransportError, from_payload}
use michael.WebSocket.Transport.{
  WebSocketConfig, Message, Connection, is_closed, try_parse_frame, handle_first_frame,
  handle_continuation, finish_data_message, check_message_size,
}
use michael.WebSocket.Transport.Receive.{
  fill_read_buf, handle_ping, handle_pong, handle_close, handle_frame, end_of_stream, after_parse,
  resume, read_round, read_loop, read_message,
}
use michael.WebSocket.Transport.Reachable.{read_round-Follows}
use michael.WebSocket.Transport.Termination.{parse_lenient-takes}

-- A message within the limits of the configuration, and UTF-8 where it is text.
abbrev pub CloseFits : Option CloseFrame → Type 0
CloseFits none = Unit {0}
CloseFits (some frame) = (length frame.reason ≤ 123) × (from_utf8 frame.reason ≡ some frame.reason)

abbrev pub Fits : WebSocketConfig → Message → Type 0
Fits config (Message.text s) = (length s ≤ config.max_message_size) × (from_utf8 s ≡ some s)
Fits config (Message.binary s) = length s ≤ config.max_message_size
Fits config (Message.ping s) = length s ≤ 125
Fits config (Message.pong s) = length s ≤ 125
Fits config (Message.close reply) = CloseFits reply

from_utf8_again : (s t : Bytes) → from_utf8 s ≡ some t → from_utf8 t ≡ some t
from_utf8_again s t h = let e = from_utf8-eq_some s t h in cc

module _ {S : Type 0} where
  try_parse_frame-short :
      (c : Connection S) (f : Frame)
      → (try_parse_frame c).1 ≡ ok (some f)
      → is_control f.opcode ≡ true
      → length f.payload ≤ 125
  unfolding try_parse_frame
  try_parse_frame-short c f h k = elim (outcome (parse c.read_bytes)) [
    | waits q ↦ ground arith
    | gives (frame, n) q ↦ ground (arith, parse-takes c.read_bytes frame n q)
    | fails e q ↦ elim (outcome (parse_lenient c.read_bytes)) [
      | waits l ↦ ground arith
      | fails e' l ↦ ground arith
      | gives (frame, n) l ↦ ground (arith, parse_lenient-takes c.read_bytes frame n l)
    ]
  ]

  finish_data_message-Fits :
      (is_text : Bool) (payload : Bytes) (c : Connection S) (m : Message)
      → (finish_data_message is_text payload c).1 ≡ ok (some m)
      → Fits c.config m
  unfolding finish_data_message check_message_size
  finish_data_message-Fits false payload c m h = ground arith
  finish_data_message-Fits true payload c m h = elim (Option-cases (from_utf8 payload)) [
    | inl n ↦ ground arith
    | inr (s, e) ↦ ground (arith, from_utf8-eq_some payload s e, from_utf8_again payload s e)
  ]

  handle_first_frame-Fits :
      (is_text : Bool) (f : Frame) (c : Connection S) (m : Message)
      → (handle_first_frame is_text f c).1 ≡ ok (some m)
      → Fits c.config m
  unfolding handle_first_frame check_message_size
  handle_first_frame-Fits is_text f c m h =
      ground (arith, finish_data_message-Fits is_text f.payload c m)

  handle_continuation-Fits :
      (f : Frame) (c : Connection S) (m : Message)
      → (handle_continuation f c).1 ≡ ok (some m)
      → Fits c.config m
  unfolding handle_continuation
  handle_continuation-Fits f c m h = elim (Option-cases c.fragment) [
    | inl n ↦ ground arith
    | inr (buffer, e) ↦ ground (
      arith,
      finish_data_message-Fits buffer.is_text (buffer.data_bytes ++ f.payload)
          (record c { fragment = none }) m,
    )
  ]

from_payload-CloseFits :
    (payload : Bytes) (reply : Option CloseFrame)
    → length payload ≤ 125
    → from_payload payload ≡ ok reply
    → CloseFits reply
unfolding from_payload
from_payload-CloseFits [] reply l h = ground arith
from_payload-CloseFits (a ∷ []) reply l h = ground arith
from_payload-CloseFits (a ∷ b ∷ rest) reply l h = elim (Option-cases (from_utf8 rest)) [
  | inl n ↦ ground arith
  | inr (s, e) ↦ ground (arith, from_utf8-eq_some rest s e, from_utf8_again rest s e)
]

module _ {S : Type 0} (io : AsyncStream S) where
  handle_frame-Fits :
      (f : Frame) (c : Connection S) (m : Message)
      → (is_control f.opcode ≡ true → length f.payload ≤ 125)
      → (handle_frame io f c).1 ≡ ok (some m)
      → Fits c.config m
  unfolding handle_frame handle_ping handle_pong handle_close
  handle_frame-Fits f c m k h = elim (Result-cases (from_payload f.payload)) [
    | inl (reply, e) ↦ ground (
      arith,
      handle_first_frame-Fits true f c m,
      handle_first_frame-Fits false f c m,
      handle_continuation-Fits f c m,
      from_payload-CloseFits f.payload reply,
    )
    | inr (x, e) ↦ ground (
      arith,
      handle_first_frame-Fits true f c m,
      handle_first_frame-Fits false f c m,
      handle_continuation-Fits f c m,
    )
  ]

  after_parse-Fits :
      (parsed : Option Frame) (c : Connection S) (m : Message)
      → ((f : Frame) → parsed ≡ some f → is_control f.opcode ≡ true → length f.payload ≤ 125)
      → (after_parse io parsed c).1 ≡ ok (some (some m))
      → Fits c.config m
  unfolding end_of_stream
  after_parse-Fits (some f) c m k h = elim (Result-cases (handle_frame io f c).1) [
    | inl (none, e) ↦ ground arith
    | inl (some m', e) ↦ ground (arith, handle_frame-Fits f c m (k f refl))
    | inr (x, e) ↦ ground arith
  ]
  after_parse-Fits none c m k h = elim (Result-cases (fill_read_buf io c).1) [
    | inl (true, e) ↦ ground arith
    | inl (false, e) ↦ ground arith
    | inr (x, e) ↦ ground arith
  ]

  try_parse_frame-config : (c : Connection S) → (try_parse_frame c).0.config ≡ c.config
  unfolding try_parse_frame
  try_parse_frame-config c = ground arith

  read_round-Fits :
      (c : Connection S) (m : Message) → (read_round io c).1 ≡ ok (some (some m)) → Fits c.config m
  unfolding read_round
  read_round-Fits c m h = elim (Result-cases (try_parse_frame c).1) [
    | inr (x, e) ↦ ground arith
    | inl (parsed, e) ↦
        subst (λ config. Fits config m) (try_parse_frame-config c)
          (after_parse-Fits parsed (try_parse_frame c).0 m
            (λ f p. try_parse_frame-short c f (e ∙ ap ok p)) (ground arith))
  ]

module _ {S : Type 0} (io : AsyncStream S) (t : Transcript io) where
  read_loop-Fits :
      (fuel : ℕ) (c c' : Connection S) (m : Message)
      → read_loop io fuel c ≡ some (c', ok (some m))
      → Fits c.config m
  unfolding read_loop
  read_loop-Fits zero c c' m h = cc
  read_loop-Fits (suc fuel) c c' m h = resumed (read_round io c).1 refl h (λ h'.
      subst (λ config. Fits config m) (read_round-Follows io t c).kept
        (read_loop-Fits fuel (read_round io c).0 c' m h'))
    where
      resumed :
          (r : Result TransportError (Option (Option Message)))
          → (read_round io c).1 ≡ r
          → resume io r (read_round io c).0 (λ c''. read_loop io fuel c'') ≡ some (c', ok (some m))
          → (read_loop io fuel (read_round io c).0 ≡ some (c', ok (some m)) → Fits c.config m)
          → Fits c.config m
      resumed (err e) q h' rest = cc
      resumed (ok none) q h' rest = rest h'
      resumed (ok (some o)) q h' rest = read_round-Fits io c m (ground arith)

  -- A message that `read_message` delivers, from however many frames, is within the limits: text
  -- and binary within `max_message_size`, the text UTF-8; a ping and a pong of at most 125 bytes,
  -- and the reason of a close UTF-8 of at most 123.
  pub read_message-Fits :
      (fuel : ℕ) (c c' : Connection S) (m : Message)
      → read_message io fuel c ≡ some (c', ok (some m))
      → Fits c.config m
  unfolding read_message
  read_message-Fits fuel c c' m h = elim (Bool-cases (is_closed c.state)) [
    | inl e ↦ ground arith
    | inr e ↦ read_loop-Fits fuel c c' m (ground arith)
  ]
