-- ===== src/WebSocket/Frame/RoundTrip.antt =====
-- A frame that a client sends masked is read back.
use michael.Prelude.BigEndian.{
  be_bytes, be_value-be_bytes_2, be_value-be_bytes_8, length-be_bytes, take-be_bytes,
}
use michael.Prelude.{
  ℕ, suc, ◌+◌, ◌^◌, ◌<◌, ◌≤◌, Bool, true, not, ◌∷◌, ◌++◌, some, ◌≡◌, refl, ◌∙◌, arith, bit_and,
  bit_or, length, take, drop, ok, All, ◌==◌, if◌then◌else◌, Bool-cases, inl, inr, ltb, leb,
  append_assoc, length-append, take-append_self, drop-append_self, le→ltb,
}
use michael.Prelude.Bits.{usize_max}
use michael.Prelude.Text.{Bytes}
use michael.WebSocket.Frame.{
  Opcode, Frame, to_u8, from_u8, is_control, max_payload_len, payload_len, length_fields,
  check_header, parse_payload, parse_header, parse, unmask,
}
use michael.WebSocket.Frame.Fields.{IsByte, first_byte, second_byte, length-unmask, unmask-unmask}

-- A frame that may be sent: bytes, within the size limit, and a control frame whole and short.
pub record IsValid (f : Frame) : Type 0 where
  pub bytes : All IsByte f.payload
  pub fits : length f.payload ≤ max_payload_len
  pub whole : is_control f.opcode ≡ true → f.fin ≡ true
  pub short : is_control f.opcode ≡ true → length f.payload ≤ 125

-- The frame as RFC 6455 has a client send it: the bytes of `encode` with the mask bit set, the
-- key behind the length, and the payload masked.
unfoldable pub client_frame : Bytes → Frame → Bytes
client_frame key f =
    let (len7, extended) = length_fields (length f.payload) in
    bit_or (if f.fin then 0x80 else 0x00) (to_u8 f.opcode)
    ∷ (128 + len7)
    ∷ (extended ++ (key ++ unmask key 0 f.payload))

pub length_fields-lt : (len : ℕ) → (length_fields len).0 < 128
unfolding length_fields
length_fields-lt len = ground arith

payload_len_2 :
    (n : ℕ) (rest : Bytes) → n < 2 ^ 16 → payload_len 126 (be_bytes 2 n ++ rest) ≡ ok (some (n, 4))
unfolding payload_len
payload_len_2 n rest h = ground (
  arith,
  length-append (be_bytes 2 n) rest,
  length-be_bytes 2 n,
  take-be_bytes 2 n rest,
  be_value-be_bytes_2 n,
)

payload_len_8 :
    (n : ℕ) (rest : Bytes) → n < 2 ^ 64 → payload_len 127 (be_bytes 8 n ++ rest) ≡ ok (some (n, 10))
unfolding payload_len
payload_len_8 n rest h = ground (
  arith,
  length-append (be_bytes 8 n) rest,
  length-be_bytes 8 n,
  take-be_bytes 8 n rest,
  be_value-be_bytes_8 n,
)

-- The length is read back from its fields, whatever follows them.
pub payload_len-length_fields :
    (len : ℕ) (rest : Bytes)
    → len ≤ usize_max
    → payload_len (length_fields len).0 ((length_fields len).1 ++ rest)
      ≡ ok (some (len, 2 + length (length_fields len).1))
payload_len-length_fields len rest h = elim (Bool-cases (ltb len 126)) [
  | inl small ↦ unfold payload_len length_fields in rw small (ground arith)
  | inr large ↦ elim (Bool-cases (leb len 65535)) [
    | inl medium ↦
        unfold length_fields in
        rw (large, medium) (payload_len_2 len rest (ground arith) ∙ rw length-be_bytes)
    | inr huge ↦
        unfold length_fields in
        rw (large, huge) (payload_len_8 len rest (omega arith) ∙ rw length-be_bytes)
  ]
]

check_header-ok :
    (f : Frame) → IsValid f → check_header f.fin f.opcode (length f.payload) true ≡ ok (some tt)
unfolding check_header
check_header-ok f v = ground arith

-- The payload behind any header of the length that `offset` says.
parse_payload-ok :
    (f : Frame) (head key rest : Bytes)
    → All IsByte f.payload
    → All IsByte key
    → length key ≡ 4
    → parse_payload f.fin f.opcode
        (length f.payload)
        (length head)
        (head ++ (key ++ (unmask key 0 f.payload ++ rest)))
      ≡ ok (some (f, length head + 4 + length f.payload))
unfolding parse_payload
parse_payload-ok f head key rest hb hk h4 =
    let masked = unmask key 0 f.payload in
    let buf = head ++ (key ++ (masked ++ rest)) in
    let size : length buf ≡ length head + 4 + length f.payload + length rest = omega (
      arith,
      length-append head (key ++ (masked ++ rest)),
      length-append key (masked ++ rest),
      length-append masked rest,
      length-unmask key 0 f.payload,
    ) in
    let at_key : take 4 (drop (length head) buf) ≡ key =
      rw (drop-append_self (length head) head (key ++ (masked ++ rest)) refl)
        (take-append_self 4 key (masked ++ rest) h4) in
    let at_payload : take (length f.payload) (drop (length head + 4) buf) ≡ masked =
      rw (← append_assoc head key (masked ++ rest)) (
        rw
          (drop-append_self (length head + 4) (head ++ key) (masked ++ rest)
            (omega (arith, length-append head key)))
          (take-append_self (length f.payload) masked rest (length-unmask key 0 f.payload))) in
    rw
      (
        le→ltb (length buf) (length head + 4) (omega arith),
        le→ltb (length buf) (length head + 4 + length f.payload) (omega arith),
        at_key,
        at_payload,
        unmask-unmask key 0 f.payload hk hb,
      )
      refl

pub add_two : (n : ℕ) → 2 + n ≡ suc (suc n)
add_two n = omega arith

-- `parse` reaches the payload where each header field reads as it should.
parse_header_lem :
    (b0 b1 len7 len offset : ℕ) (fin : Bool) (op : Opcode) (rest : Bytes)
    → not (bit_and b0 0x80 == 0) ≡ fin
    → bit_and b0 0x70 ≡ 0
    → from_u8 (bit_and b0 0x0f) ≡ ok op
    → not (bit_and b1 0x80 == 0) ≡ true
    → bit_and b1 0x7f ≡ len7
    → payload_len len7 rest ≡ ok (some (len, offset))
    → check_header fin op len true ≡ ok (some tt)
    → parse_header b0 b1 rest ≡ parse_payload fin op len offset (b0 ∷ b1 ∷ rest)
unfolding parse_header
parse_header_lem b0 b1 len7 len offset fin op rest f r o m s l c = rw (r, o, m, s, l, f, c) refl

-- A valid frame that a client sends under any key is read back whole, with the number of bytes
-- that it takes, whatever follows it in the buffer.
pub parse-client_frame :
    (key : Bytes) (f : Frame) (rest : Bytes)
    → IsValid f
    → All IsByte key
    → length key ≡ 4
    → parse (client_frame key f ++ rest) ≡ ok (some (f, length (client_frame key f)))
unfolding parse client_frame
parse-client_frame key f rest v hk h4 =
    let len = length f.payload in
    let b0 = bit_or (if f.fin then 0x80 else 0x00) (to_u8 f.opcode) in
    let (len7, extended) = length_fields len in
    let masked = unmask key 0 f.payload in
    let head = b0 ∷ (128 + len7) ∷ extended in
    let first = first_byte f.fin f.opcode in
    let second = second_byte len7 (length_fields-lt len) in
    let shape : (extended ++ (key ++ masked)) ++ rest ≡ extended ++ (key ++ (masked ++ rest)) =
      rw (append_assoc extended (key ++ masked) rest, append_assoc key masked rest) refl in
    let size : suc (suc (length (extended ++ (key ++ masked)))) ≡ length head + 4 + len = omega (
      arith,
      length-append extended (key ++ masked),
      length-append key masked,
      length-unmask key 0 f.payload,
    ) in
    rw (shape, size)
      (parse_header_lem b0 (128 + len7) len7 len (2 + length extended) f.fin f.opcode
          (extended ++ (key ++ (masked ++ rest))) first.0 first.1 first.2 second.0 second.1
          (payload_len-length_fields len (key ++ (masked ++ rest)) (omega (arith, v.fits)))
          (check_header-ok f v)
        ∙ rw (add_two (length extended)) (parse_payload-ok f head key rest v.bytes hk h4))
