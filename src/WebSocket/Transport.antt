-- ===== src/WebSocket/Transport.antt =====
-- crates/tomcatrs-websocket/src/transport.rs: messages over frames. A method of the connection is
-- a function to the connection that it leaves, also where it fails, and its result.
pub mod Send
pub mod Receive
pub mod Invariant
pub mod Reachable
pub mod Panic
pub mod Termination
pub mod Messages
pub mod RoundTrip
use michael.Prelude.{
  ℕ, zero, suc, Bool, true, false, not, ◌&&◌, [], ◌++◌, Option, none, some, ◌+◌, ◌≤◌, ltb, leb,
  if◌then◌else◌, ◌≡◌, length, take, drop, is_empty, max, Result, ok, err,
}
use michael.Prelude.Streams.{AsyncStream}
use michael.Prelude.Text.{Bytes, from_utf8, is_some}
use michael.WebSocket.Frame.{Opcode, Frame, is_control, encode, parse}
use michael.WebSocket.Lenient.{parse_lenient}
use michael.WebSocket.Close.{
  CloseFrame, TransportError, frame_refused, frame_too_large, message_too_large, text_not_utf8,
  message_in_progress, no_message_in_progress, ended_in_message, control_too_long, close_too_long,
  not_yet_open, closing_started, io_failed, to_payload, from_payload,
}

-- The interval of pings and the time to wait for a close belong to timers and are left out.
pub record WebSocketConfig : Type 0 where
  pub max_message_size : ℕ
  pub max_frame_size : ℕ
  pub accept_unmasked_frames : Bool

pub data WebSocketState : Type 0 where
  connecting opened closing closed : WebSocketState

pub data Message : Type 0 where
  text binary ping pong : Bytes → Message
  close : Option CloseFrame → Message

pub record FragmentBuffer : Type 0 where
  pub is_text : Bool
  pub data_bytes : Bytes

pub record Connection (S : Type 0) : Type 0 where
  pub stream : S
  pub config : WebSocketConfig
  pub state : WebSocketState
  pub read_bytes : Bytes
  pub fragment : Option FragmentBuffer
  pub last_pong : Option Bytes
  pub close_sent : Bool
  pub close_received : Bool

abbrev pub Run : Type 0 → Type 0 → Type 0
Run S A = Connection S → Connection S × Result TransportError A

infixl 5 ◌>>=◌ ◌>>◌
abbrev pub ◌>>=◌ : {S A B : Type 0} → Run S A → (A → Run S B) → Run S B
◌>>=◌ m f c = let (c', r) = m c in elim r [ ok a ↦ f a c' | err e ↦ (c', err e) ]

abbrev pub ◌>>◌ : {S B : Type 0} → Run S (Unit {0}) → Run S B → Run S B
m >> k = m >>= λ _. k

abbrev pub done : {S A : Type 0} → A → Run S A
done a c = (c, ok a)

abbrev pub fail : {S A : Type 0} → TransportError → Run S A
fail e c = (c, err e)

abbrev pub is_opened : WebSocketState → Bool
is_opened opened = true
is_opened _ = false

abbrev pub is_close : Opcode → Bool
is_close Opcode.close = true
is_close _ = false

abbrev pub is_closed : WebSocketState → Bool
is_closed closed = true
is_closed _ = false

unfoldable pub new : {S : Type 0} → S → WebSocketConfig → Connection S
new stream config = record {
  stream = stream;
  config = config;
  state = opened;
  read_bytes = [];
  fragment = none;
  last_pong = none;
  close_sent = false;
  close_received = false;
}

unfoldable pub try_parse_frame : {S : Type 0} → Run S (Option Frame)
try_parse_frame c = elim (parse c.read_bytes) [
  | ok none ↦ (c, ok none)
  | ok (some (frame, consumed)) ↦ (
    record c { read_bytes = drop consumed c.read_bytes },
    if not (is_control frame.opcode) && ltb c.config.max_frame_size (length frame.payload)
        then err frame_too_large
        else ok (some frame),
  )
  | err e ↦
      if c.config.accept_unmasked_frames
      then elim (parse_lenient c.read_bytes) [
        | ok none ↦ (c, ok none)
        | ok (some (frame, consumed)) ↦
            (record c { read_bytes = drop consumed c.read_bytes }, ok (some frame))
        | err e' ↦ (c, err (frame_refused e'))
      ]
      else (c, err (frame_refused e))
]

unfoldable pub check_message_size : {S : Type 0} → ℕ → Run S (Unit {0})
check_message_size len c =
    (c, if ltb c.config.max_message_size len then err message_too_large else ok tt)

abbrev pub text_message : Bytes → Result TransportError (Option Message)
text_message payload = elim (from_utf8 payload) [
  | some s ↦ ok (some (Message.text s))
  | none ↦ err text_not_utf8
]

unfoldable pub finish_data_message : {S : Type 0} → Bool → Bytes → Run S (Option Message)
finish_data_message is_text payload = do
  check_message_size (length payload)
  λ c. (c, if is_text then text_message payload else ok (some (Message.binary payload)))

-- A text or binary frame.
unfoldable pub handle_first_frame : {S : Type 0} → Bool → Frame → Run S (Option Message)
handle_first_frame is_text frame c =
    if is_some c.fragment
    then (c, err message_in_progress)
    else if frame.fin
    then finish_data_message is_text frame.payload c
    else (do
      check_message_size (length frame.payload)
      let buffer = some (record { is_text = is_text; data_bytes = frame.payload })
      λ c'. (record c' { fragment = buffer }, ok none))
        c

unfoldable pub handle_continuation : {S : Type 0} → Frame → Run S (Option Message)
handle_continuation frame c = elim c.fragment [
  | none ↦ (c, err no_message_in_progress)
  | some buffer ↦
      let whole = buffer.data_bytes ++ frame.payload in
      if ltb c.config.max_message_size (length buffer.data_bytes + length frame.payload)
      then (c, err message_too_large)
      else if frame.fin
      then finish_data_message buffer.is_text whole (record c { fragment = none })
      else (record c { fragment = some (record buffer { data_bytes = whole }) }, ok none)
]
