-- ===== src/WebSocket/Lenient.antt =====
-- crates/tomcatrs-websocket/src/transport.rs: `parse_lenient`, which reads a frame whether it is
-- masked or not.
pub mod RoundTrip
use michael.Prelude.BigEndian.{be_value}
use michael.Prelude.{
  ℕ, ◌+◌, ◌==◌, Bool, true, false, not, ◌&&◌, ◌||◌, [], ◌∷◌, Option, none, some, ltb, if◌then◌else◌,
  bit_and, length, take, drop, ok, err,
}
use michael.Prelude.Bits.{usize_max}
use michael.Prelude.Text.{Bytes}
use michael.WebSocket.Frame.{
  Opcode, Frame, Parse, ◌>>=◌, ◌>>◌, refuse_if, wait_if, is_control, from_u8, unmask, reserved_bits,
  malformed_control, panicked,
}

-- The payload's length, and the offset behind it.
unfoldable pub lenient_len : ℕ → Bytes → Parse (ℕ × ℕ)
lenient_len len7 rest =
    if len7 == 126
    then (do wait_if (ltb (length rest) 2); ok (some (be_value 0 (take 2 rest), 4)))
    else if len7 == 127
    then (do wait_if (ltb (length rest) 8); ok (some (be_value 0 (take 8 rest), 10)))
    else ok (some (len7, 2))

-- The masking key, if there is one, and the offset behind it.
unfoldable pub mask_key : Bool → ℕ → Bytes → Parse (Option Bytes × ℕ)
mask_key false offset buf = ok (some (none, offset))
mask_key true offset buf = do
  wait_if (ltb (length buf) (offset + 4))
  ok (some (some (take 4 (drop offset buf)), offset + 4))

abbrev pub unmask_with : Option Bytes → Bytes → Bytes
unmask_with none s = s
unmask_with (some key) s = unmask key 0 s

-- Where the sum `offset + payload_len` leaves a `usize` the function panics: with overflow checks the
-- addition panics, and without them the slice does, since its end lies before its start.
unfoldable pub lenient_payload : Bool → Opcode → ℕ → Option Bytes → ℕ → Bytes → Parse (Frame × ℕ)
lenient_payload fin opcode len key offset buf = do
  refuse_if (ltb usize_max (offset + len)) panicked
  wait_if (ltb (length buf) (offset + len))
  let payload = unmask_with key (take len (drop offset buf))
  ok (some (record { fin = fin; opcode = opcode; payload = payload }, offset + len))

-- `parse_lenient` behind the two header bytes.
unfoldable pub lenient_header : ℕ → ℕ → Bytes → Parse (Frame × ℕ)
lenient_header b0 b1 rest = do
  let fin = not (bit_and b0 0x80 == 0)
  refuse_if (not (bit_and b0 0x70 == 0)) reserved_bits
  opcode ← elim (from_u8 (bit_and b0 0x0f)) [ ok o ↦ ok (some o) | err e ↦ err e ]
  (len, offset) ← lenient_len (bit_and b1 0x7f) rest
  refuse_if (is_control opcode && (not fin || ltb 125 len)) malformed_control
  (key, start) ← mask_key (not (bit_and b1 0x80 == 0)) offset (b0 ∷ b1 ∷ rest)
  lenient_payload fin opcode len key start (b0 ∷ b1 ∷ rest)

unfoldable pub parse_lenient : Bytes → Parse (Frame × ℕ)
parse_lenient [] = ok none
parse_lenient (b0 ∷ []) = ok none
parse_lenient (b0 ∷ b1 ∷ rest) = lenient_header b0 b1 rest
