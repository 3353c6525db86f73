-- ===== src/WebSocket/Lenient/RoundTrip.antt =====
-- The frames of `Frame::encode`, which are not masked: the codec refuses them, and the lenient
-- parser reads them back.
use michael.Prelude.BigEndian.{be_bytes}
use michael.WebSocket.Frame.RoundTrip.{add_two, length_fields-lt, payload_len-length_fields}
use michael.Prelude.{
  ℕ, suc, ◌+◌, ◌≤◌, Bool, true, false, not, ◌&&◌, ◌||◌, ◌∷◌, ◌++◌, none, some, ◌≡◌, refl, ◌∙◌,
  arith, bit_and, bit_or, length, ok, err, ◌==◌, if◌then◌else◌, Bool-cases, inl, inr, ltb,
  append_assoc, length-append, take-append_self, drop-append_self, le→ltb,
}
use michael.Prelude.Bits.{usize_max}
use michael.Prelude.Text.{Bytes}
use michael.WebSocket.Frame.{
  Frame, FrameError, Opcode, is_control, to_u8, from_u8, length_fields, encode, parse, parse_header,
  payload_len, check_header, max_payload_len, too_long, fragmented_control, long_control, unmasked,
}
use michael.WebSocket.Frame.Fields.{first_byte, unmasked_byte}
use michael.WebSocket.Lenient.{
  lenient_len, lenient_header, lenient_payload, parse_lenient, mask_key,
}

lenient_len-payload_len :
    (len7 len offset : ℕ) (rest : Bytes)
    → payload_len len7 rest ≡ ok (some (len, offset))
    → lenient_len len7 rest ≡ ok (some (len, offset))
unfolding payload_len lenient_len
lenient_len-payload_len len7 len offset rest h = ground arith

-- A frame that the transport sends: its length is a `usize` with the header, and a control frame
-- is whole and short.
pub record IsSendable (f : Frame) : Type 0 where
  pub fits : length f.payload + 14 ≤ usize_max
  pub whole : is_control f.opcode ≡ true → f.fin ≡ true
  pub short : is_control f.opcode ≡ true → length f.payload ≤ 125

lenient_payload-ok :
    (f : Frame) (head rest : Bytes)
    → length head + length f.payload ≤ usize_max
    → lenient_payload f.fin f.opcode
        (length f.payload)
        none
        (length head)
        (head ++ (f.payload ++ rest))
      ≡ ok (some (f, length head + length f.payload))
unfolding lenient_payload
lenient_payload-ok f head rest h =
    let size : length (head ++ (f.payload ++ rest)) ≡ length head + length f.payload + length rest =
      omega (arith, length-append head (f.payload ++ rest), length-append f.payload rest) in
    rw
      (
        le→ltb usize_max (length head + length f.payload) h,
        le→ltb (length (head ++ (f.payload ++ rest))) (length head + length f.payload)
            (omega arith),
        drop-append_self (length head) head (f.payload ++ rest) refl,
        take-append_self (length f.payload) f.payload rest refl,
      )
      refl

control_lem :
    (f : Frame)
    → IsSendable f
    → (is_control f.opcode && (not f.fin || ltb 125 (length f.payload))) ≡ false
control_lem f v = ground arith

check_header-unmasked :
    (fin : Bool) (op : Opcode) (len : ℕ)
    → (e : FrameError) × (check_header fin op len false ≡ err e)
unfolding check_header
check_header-unmasked fin op len = elim (Bool-cases (ltb max_payload_len len)) [
  | inl a ↦ (too_long, rw a)
  | inr a ↦ elim (Bool-cases (if is_control op then not fin else false)) [
    | inl b ↦ (fragmented_control, rw (a, b))
    | inr b ↦ elim (Bool-cases (if is_control op then ltb 125 len else false)) [
      | inl c ↦ (long_control, rw (a, b, c))
      | inr c ↦ (unmasked, rw (a, b, c))
    ]
  ]
]

-- What the header bytes read as, for a frame that is not masked.
record HeaderReads (b0 b1 len7 offset : ℕ) (f : Frame) (rest : Bytes) : Type 0 where
  fin : not (bit_and b0 0x80 == 0) ≡ f.fin
  reserved : bit_and b0 0x70 ≡ 0
  opcode : from_u8 (bit_and b0 0x0f) ≡ ok f.opcode
  unmasked : not (bit_and b1 0x80 == 0) ≡ false
  bits : bit_and b1 0x7f ≡ len7
  len : payload_len len7 rest ≡ ok (some (length f.payload, offset))

lenient_header_lem :
    (b0 b1 len7 offset : ℕ) (f : Frame) (rest : Bytes)
    → IsSendable f
    → HeaderReads b0 b1 len7 offset f rest
    → lenient_header b0 b1 rest
      ≡ lenient_payload f.fin f.opcode (length f.payload) none offset (b0 ∷ b1 ∷ rest)
unfolding lenient_header mask_key
lenient_header_lem b0 b1 len7 offset f rest v h =
    rw
      (
        h.reserved,
        h.opcode,
        h.bits,
        lenient_len-payload_len len7 (length f.payload) offset rest h.len,
        h.fin,
        h.unmasked,
        control_lem f v,
      )
      refl

parse_header-refuses :
    (b0 b1 len7 offset : ℕ) (f : Frame) (rest : Bytes)
    → HeaderReads b0 b1 len7 offset f rest
    → (e : FrameError) × (parse_header b0 b1 rest ≡ err e)
unfolding parse_header
parse_header-refuses b0 b1 len7 offset f rest h =
    let (e, c) = check_header-unmasked f.fin f.opcode (length f.payload) in
    (e, rw (h.reserved, h.opcode, h.bits, h.len, h.fin, h.unmasked, c) refl)

header_reads :
    (f : Frame) (rest : Bytes)
    → IsSendable f
    → (let (len7, extended) = length_fields (length f.payload) in
        HeaderReads
          (bit_or (if f.fin then 0x80 else 0x00) (to_u8 f.opcode))
          len7
          len7
          (2 + length extended)
          f
          (extended ++ (f.payload ++ rest)))
header_reads f rest v =
    let (len7, extended) = length_fields (length f.payload) in
    let first = first_byte f.fin f.opcode in
    let second = unmasked_byte len7 (length_fields-lt (length f.payload)) in
    record {
      fin = first.0;
      reserved = first.1;
      opcode = first.2;
      unmasked = second.0;
      bits = second.1;
      len =
          payload_len-length_fields (length f.payload) (f.payload ++ rest) (omega (arith, v.fits));
    }

length_fields-length : (len : ℕ) → length (length_fields len).1 ≤ 8
unfolding length_fields be_bytes
length_fields-length len = ground arith

-- The lenient parser takes a frame of the encoder from the front of the buffer.
pub parse_lenient-encode :
    (f : Frame) (rest : Bytes)
    → IsSendable f
    → parse_lenient (encode f ++ rest) ≡ ok (some (f, length (encode f)))
unfolding parse_lenient encode
parse_lenient-encode f rest v =
    let len = length f.payload in
    let b0 = bit_or (if f.fin then 0x80 else 0x00) (to_u8 f.opcode) in
    let (len7, extended) = length_fields len in
    let head = b0 ∷ len7 ∷ extended in
    let size : suc (suc (length (extended ++ f.payload))) ≡ length head + len =
      omega (arith, length-append extended f.payload) in
    rw (append_assoc extended f.payload rest, size)
      (lenient_header_lem b0 len7 len7 (2 + length extended) f (extended ++ (f.payload ++ rest)) v
          (header_reads f rest v)
        ∙ rw (add_two (length extended))
            (lenient_payload-ok f head rest (omega (arith, v.fits, length_fields-length len))))

-- The codec does not: a frame that is not masked is an error for it.
pub parse-encode :
    (f : Frame) (rest : Bytes)
    → IsSendable f
    → (e : FrameError) × (parse (encode f ++ rest) ≡ err e)
unfolding parse encode
parse-encode f rest v =
    let (len7, extended) = length_fields (length f.payload) in
    rw (append_assoc extended f.payload rest) (
      parse_header-refuses (bit_or (if f.fin then 0x80 else 0x00) (to_u8 f.opcode)) len7 len7
        (2 + length extended) f (extended ++ (f.payload ++ rest)) (header_reads f rest v))
