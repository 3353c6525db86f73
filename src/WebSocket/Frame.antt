-- ===== src/WebSocket/Frame.antt =====
-- crates/tomcatrs-websocket/src/frame.rs: the frame codec. An error is named by its message.
-- `panicked` is no error: it stands for a panic, which ends the task.
-- `usize` is 64 bits wide.
pub mod Fields
pub mod RoundTrip
pub mod Incremental
use michael.Prelude.{
  ℕ, zero, suc, ◌+◌, ◌-◌, ◌*◌, ◌/◌, ◌%◌, ◌^◌, Bool, true, false, not, List, [], ◌∷◌, ◌++◌, Option,
  none, some, bit_and, bit_or, bit_xor, ltb, leb, ◌==◌, if◌then◌else◌, length, take, drop, get_or,
  Result, ok, err,
}
use michael.Prelude.BigEndian.{be_value, be_bytes}
use michael.Prelude.Bits.{usize_max}
use michael.Prelude.Text.{Bytes}

abbrev pub max_payload_len : ℕ
max_payload_len = 64 * 1024 * 1024

pub data Opcode : Type 0 where
  continuation text binary close ping pong : Opcode

pub data FrameError : Type 0 where
  reserved_opcode reserved_bits unaddressable_length too_long : FrameError
  fragmented_control long_control unmasked : FrameError
  malformed_control panicked : FrameError

-- The discriminants of the enum, `opcode as u8`.
unfoldable pub to_u8 : Opcode → ℕ
to_u8 continuation = 0x0
to_u8 text = 0x1
to_u8 binary = 0x2
to_u8 close = 0x8
to_u8 ping = 0x9
to_u8 pong = 0xa

unfoldable pub from_u8 : ℕ → Result FrameError Opcode
from_u8 value =
    if value == 0x0
    then ok continuation
    else if value == 0x1
    then ok text
    else if value == 0x2
    then ok binary
    else if value == 0x8
    then ok close
    else if value == 0x9
    then ok ping
    else if value == 0xa
    then ok pong
    else err reserved_opcode

abbrev pub is_control : Opcode → Bool
is_control close = true
is_control ping = true
is_control pong = true
is_control continuation = false
is_control text = false
is_control binary = false

pub record Frame : Type 0 where
  pub fin : Bool
  pub opcode : Opcode
  pub payload : Bytes

-- `Result<Option<A>>`: `Ok(None)` asks for more bytes, and ends the function like an error does.
abbrev pub Parse {ℓ} : Type ℓ → Type ℓ
Parse A = Result FrameError (Option A)

infixl 5 ◌>>=◌ ◌>>◌
abbrev pub ◌>>=◌ {ℓ κ} : {A : Type ℓ} {B : Type κ} → Parse A → (A → Parse B) → Parse B
ok none >>= f = ok none
ok (some a) >>= f = f a
err e >>= f = err e

abbrev pub ◌>>◌ {ℓ} : {B : Type ℓ} → Parse (Unit {0}) → Parse B → Parse B
m >> k = m >>= λ _. k

-- `if test { return Err(e) }`, and `if test { return Ok(None) }`.
abbrev pub refuse_if : Bool → FrameError → Parse (Unit {0})
refuse_if true e = err e
refuse_if false e = ok (some tt)

abbrev pub wait_if : Bool → Parse (Unit {0})
wait_if true = ok none
wait_if false = ok (some tt)

-- The payload's length and the offset behind it, from the seven bits of the header and what
-- follows the two header bytes.
unfoldable pub payload_len : ℕ → Bytes → Parse (ℕ × ℕ)
payload_len len7 rest =
    if len7 == 126
    then (do wait_if (ltb (length rest) 2); ok (some (be_value 0 (take 2 rest), 4)))
    else if len7 == 127
    then (do
      wait_if (ltb (length rest) 8)
      let len = be_value 0 (take 8 rest)
      refuse_if (ltb usize_max len) unaddressable_length
      ok (some (len, 10)))
    else ok (some (len7, 2))

-- The checks between the length and the masking key.
unfoldable pub check_header : Bool → Opcode → ℕ → Bool → Parse (Unit {0})
check_header fin opcode len masked = do
  refuse_if (ltb max_payload_len len) too_long
  refuse_if (if is_control opcode then not fin else false) fragmented_control
  refuse_if (if is_control opcode then ltb 125 len else false) long_control
  refuse_if (not masked) unmasked

-- `byte ^ mask_key[i & 3]` for the bytes from index `i` on.
unfoldable pub unmask : Bytes → ℕ → Bytes → Bytes
unmask key i [] = []
unmask key i (b ∷ s) = bit_xor b (get_or key (bit_and i 3) 0) ∷ unmask key (i + 1) s

unfoldable pub parse_payload : Bool → Opcode → ℕ → ℕ → Bytes → Parse (Frame × ℕ)
parse_payload fin opcode len offset buf = do
  wait_if (ltb (length buf) (offset + 4))
  let key = take 4 (drop offset buf)
  wait_if (ltb (length buf) (offset + 4 + len))
  let payload = unmask key 0 (take len (drop (offset + 4) buf))
  ok (some (record { fin = fin; opcode = opcode; payload = payload }, offset + 4 + len))

-- `Frame::parse` behind the two header bytes.
unfoldable pub parse_header : ℕ → ℕ → Bytes → Parse (Frame × ℕ)
parse_header b0 b1 rest = do
  let fin = not (bit_and b0 0x80 == 0)
  refuse_if (not (bit_and b0 0x70 == 0)) reserved_bits
  opcode ← elim (from_u8 (bit_and b0 0x0f)) [ ok o ↦ ok (some o) | err e ↦ err e ]
  let masked = not (bit_and b1 0x80 == 0)
  (len, offset) ← payload_len (bit_and b1 0x7f) rest
  check_header fin opcode len masked
  parse_payload fin opcode len offset (b0 ∷ b1 ∷ rest)

unfoldable pub parse : Bytes → Parse (Frame × ℕ)
parse [] = ok none
parse (b0 ∷ []) = ok none
parse (b0 ∷ b1 ∷ rest) = parse_header b0 b1 rest

-- The length of a payload in a header: the seven bits, and the extended bytes.
unfoldable pub length_fields : ℕ → ℕ × Bytes
length_fields len =
    if ltb len 126
    then (len, [])
    else if leb len 65535
    then (126, be_bytes 2 len)
    else (127, be_bytes 8 len)

unfoldable pub encode : Frame → Bytes
unfolding length_fields to_u8
encode f =
    let (len7, extended) = length_fields (length f.payload) in
    bit_or (if f.fin then 0x80 else 0x00) (to_u8 f.opcode) ∷ len7 ∷ (extended ++ f.payload)
