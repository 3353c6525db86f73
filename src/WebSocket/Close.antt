-- ===== src/WebSocket/Close.antt =====
-- crates/tomcatrs-websocket/src/transport.rs: `CloseFrame` and the errors of a connection.
use michael.Prelude.BigEndian.{be_bytes, be_value}
use michael.Prelude.{
  ℕ, ◌+◌, ◌*◌, ◌/◌, ◌%◌, ◌^◌, ◌<◌, [], ◌∷◌, ◌++◌, Option, none, some, Result, ok, err, ok_or, ◌>>=◌,
  ◌≡◌, arith,
}
use michael.Prelude.Text.{Bytes, from_utf8}
use michael.WebSocket.Frame.{FrameError}

pub data TransportError : Type 0 where
  frame_refused : FrameError → TransportError
  frame_too_large message_too_large text_not_utf8 : TransportError
  message_in_progress no_message_in_progress ended_in_message : TransportError
  control_too_long close_too_long : TransportError
  one_byte_close reason_not_utf8 : TransportError
  not_yet_open closing_started io_failed : TransportError

pub record CloseFrame : Type 0 where
  pub code : ℕ
  pub reason : Bytes

-- `code.to_be_bytes()`, then the reason.
unfoldable pub to_payload : CloseFrame → Bytes
to_payload close = be_bytes 2 close.code ++ close.reason

unfoldable pub from_payload : Bytes → Result TransportError (Option CloseFrame)
from_payload [] = ok none
from_payload (a ∷ []) = err one_byte_close
from_payload (a ∷ b ∷ rest) = do
  reason ← ok_or (from_utf8 rest) reason_not_utf8
  ok (some (record { code = be_value 0 (a ∷ b ∷ []); reason = reason }))

be_value-be_bytes : (n : ℕ) → n < 65536 → n / 256 ^ 1 % 256 * 256 + n / 256 ^ 0 % 256 ≡ n
be_value-be_bytes n h = omega arith

-- A close frame whose code is a `u16` and whose reason is UTF-8 is read back from its payload.
pub from_payload-to_payload :
    (close : CloseFrame)
    → close.code < 65536
    → from_utf8 close.reason ≡ some close.reason
    → from_payload (to_payload close) ≡ ok (some close)
unfolding from_payload to_payload be_bytes be_value
from_payload-to_payload close h u = ground (arith, be_value-be_bytes close.code h)
