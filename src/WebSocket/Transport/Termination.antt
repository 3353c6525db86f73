-- ===== src/WebSocket/Transport/Termination.antt =====
-- The loop of `read_message` ends on a stream that ends.
use michael.Prelude.Streams.{AsyncStream, FiniteStream}
use michael.Prelude.{
  ℕ, ◌+◌, ◌*◌, ◌≤◌, Bool, true, false, not, [], ◌∷◌, Option, none, some, ◌≡◌, arith, length, take,
  drop, ok, inl, inr, Result-cases, length-take, ◌==◌, bit_and,
}
use michael.Prelude.Text.{Bytes}
use michael.WebSocket.Frame.{Opcode, Frame, is_control, from_u8}
use michael.WebSocket.Frame.Incremental.{waits, gives, fails, outcome}
use michael.WebSocket.Frame.Fields.{length-unmask}
use michael.WebSocket.Lenient.{
  lenient_len, mask_key, lenient_payload, lenient_header, parse_lenient,
}
use michael.WebSocket.Transport.{Connection}

lenient_len-offset :
    (len7 : ℕ) (rest : Bytes) (len offset : ℕ)
    → lenient_len len7 rest ≡ ok (some (len, offset))
    → 2 ≤ offset
unfolding lenient_len
lenient_len-offset len7 rest len offset h = ground arith

lenient_payload-takes :
    (fin : Bool) (op : Opcode) (len : ℕ) (key : Option Bytes) (offset n : ℕ) (buf : Bytes)
    (f : Frame)
    → lenient_payload fin op len key offset buf ≡ ok (some (f, n))
    → (offset ≤ n) × (n ≤ length buf) × (f.opcode ≡ op) × (length f.payload ≤ len)
unfolding lenient_payload
lenient_payload-takes fin op len none offset n buf f h =
    ground (arith, length-take len (drop offset buf))
lenient_payload-takes fin op len (some k) offset n buf f h =
    ground
      (arith, length-take len (drop offset buf), length-unmask k 0 (take len (drop offset buf)))

mask_key-offset :
    (masked : Bool) (offset start : ℕ) (key : Option Bytes) (buf : Bytes)
    → mask_key masked offset buf ≡ ok (some (key, start))
    → offset ≤ start
unfolding mask_key
mask_key-offset true offset start key buf h = ground arith
mask_key-offset false offset start key buf h = ground arith

lenient_header-takes :
    (b0 b1 : ℕ) (rest : Bytes) (f : Frame) (n : ℕ)
    → lenient_header b0 b1 rest ≡ ok (some (f, n))
    → (2 ≤ n)
      × (n ≤ length (b0 ∷ b1 ∷ rest))
      × (is_control f.opcode ≡ true → length f.payload ≤ 125)
unfolding lenient_header
lenient_header-takes b0 b1 rest f n h = elim (outcome (lenient_len (bit_and b1 0x7f) rest)) [
  | waits q ↦ ground arith
  | fails e q ↦ ground arith
  | gives (len, offset) q ↦ elim (Result-cases (from_u8 (bit_and b0 0x0f))) [
    | inr (e, o) ↦ ground arith
    | inl (op, o) ↦ elim (outcome (mask_key (not (bit_and b1 0x80 == 0)) offset (b0 ∷ b1 ∷ rest))) [
      | waits k ↦ ground arith
      | fails e k ↦ ground arith
      | gives (key, start) k ↦ ground (
        arith,
        lenient_len-offset (bit_and b1 0x7f) rest len offset,
        mask_key-offset (not (bit_and b1 0x80 == 0)) offset start key (b0 ∷ b1 ∷ rest),
        lenient_payload-takes (not (bit_and b0 0x80 == 0)) op len key start n (b0 ∷ b1 ∷ rest) f,
      )
    ]
  ]
]

pub parse_lenient-takes :
    (buf : Bytes) (f : Frame) (n : ℕ)
    → parse_lenient buf ≡ ok (some (f, n))
    → (2 ≤ n) × (n ≤ length buf) × (is_control f.opcode ≡ true → length f.payload ≤ 125)
unfolding parse_lenient
parse_lenient-takes [] f n h = cc
parse_lenient-takes (b0 ∷ []) f n h = cc
parse_lenient-takes (b0 ∷ b1 ∷ rest) f n h = lenient_header-takes b0 b1 rest f n h

module _ {S : Type 0} (io : AsyncStream S) (finite : FiniteStream io) where
  -- The bytes to be read count twice: they are read, and then parsed.
  measure : Connection S → ℕ
  measure c = 2 * finite.pending c.stream + length c.read_bytes
