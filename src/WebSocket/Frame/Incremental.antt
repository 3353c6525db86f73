-- ===== src/WebSocket/Frame/Incremental.antt =====
-- Reading from a stream: what was decided on a buffer stays decided when more bytes arrive, the
-- frame taken lies within the buffer and within the limits, and a buffer that holds the largest
-- frame is never asked to grow.
use michael.Prelude.{
  ℕ, ◌+◌, ◌<◌, ◌≤◌, Bool, true, not, [], ◌∷◌, ◌++◌, none, some, ◌≡◌, refl, inl, inr, ◌≢◌, arith,
  bit_and, length, take, drop, ok, err, ◌==◌, ltb, Bool-cases, length-append, take-append,
  drop-append, length-drop, length-take, Result-cases,
}
use michael.Prelude.Text.{Bytes}
use michael.WebSocket.Frame.{
  Frame, Opcode, FrameError, Parse, is_control, max_payload_len, payload_len, check_header,
  parse_payload, parse_header, parse, from_u8,
}
use michael.WebSocket.Frame.Fields.{length-unmask}

-- What a parse comes to: a wait for more bytes, a value, or an error.
pub data Outcome {ℓ} {A : Type ℓ} (m : Parse A) : Type ℓ where
  waits : m ≡ ok none → Outcome m
  gives : (a : A) → m ≡ ok (some a) → Outcome m
  fails : (e : FrameError) → m ≡ err e → Outcome m

pub outcome {ℓ} : {A : Type ℓ} (m : Parse A) → Outcome m
outcome (ok none) = waits refl
outcome (ok (some a)) = gives a refl
outcome (err e) = fails e refl

payload_len-append :
    (len7 : ℕ) (rest more : Bytes)
    → payload_len len7 rest ≢ ok none
    → payload_len len7 (rest ++ more) ≡ payload_len len7 rest
unfolding payload_len
payload_len-append len7 rest more d =
    ground (arith, length-append rest more, take-append 2 rest more, take-append 8 rest more)

parse_payload-append :
    (fin : Bool) (op : Opcode) (len offset : ℕ) (buf more : Bytes)
    → parse_payload fin op len offset buf ≢ ok none
    → parse_payload fin op len offset (buf ++ more) ≡ parse_payload fin op len offset buf
unfolding parse_payload
parse_payload-append fin op len offset buf more d =
    elim (Bool-cases (ltb (length buf) (offset + 4 + len))) [
      | inl short ↦ ground arith
      | inr long ↦ ground (
        arith,
        length-append buf more,
        drop-append offset buf more,
        drop-append (offset + 4) buf more,
        take-append 4 (drop offset buf) more,
        take-append len (drop (offset + 4) buf) more,
        length-drop offset buf,
        length-drop (offset + 4) buf,
      )
    ]

parse_header-append :
    (b0 b1 : ℕ) (rest more : Bytes)
    → parse_header b0 b1 rest ≢ ok none
    → parse_header b0 b1 (rest ++ more) ≡ parse_header b0 b1 rest
unfolding parse_header
parse_header-append b0 b1 rest more d = elim (outcome (payload_len (bit_and b1 0x7f) rest)) [
  | waits q ↦ ground arith
  | fails e q ↦ ground (arith, payload_len-append (bit_and b1 0x7f) rest more)
  | gives (len, offset) q ↦ elim (Result-cases (from_u8 (bit_and b0 0x0f))) [
    | inr (e, o) ↦ ground arith
    | inl (op, o) ↦ ground (
      arith,
      payload_len-append (bit_and b1 0x7f) rest more,
      parse_payload-append (not (bit_and b0 0x80 == 0)) op len offset (b0 ∷ b1 ∷ rest) more,
    )
  ]
]

-- A frame or an error that was found on a buffer is found again, the same, when more bytes stand
-- behind it.
pub parse-append : (buf more : Bytes) → parse buf ≢ ok none → parse (buf ++ more) ≡ parse buf
unfolding parse
parse-append [] more d = absurd (d refl)
parse-append (b0 ∷ []) more d = absurd (d refl)
parse-append (b0 ∷ b1 ∷ rest) more d = parse_header-append b0 b1 rest more d

payload_len-offset :
    (len7 : ℕ) (rest : Bytes) (len offset : ℕ)
    → payload_len len7 rest ≡ ok (some (len, offset))
    → (2 ≤ offset) × (offset ≤ 10)
unfolding payload_len
payload_len-offset len7 rest len offset h = ground arith

payload_len-waits : (len7 : ℕ) (rest : Bytes) → payload_len len7 rest ≡ ok none → length rest < 8
unfolding payload_len
payload_len-waits len7 rest h = ground arith

-- What the limits of the header say of a frame.
abbrev pub WithinLimits : Frame → Type 0
WithinLimits f =
    (length f.payload ≤ max_payload_len)
    × (is_control f.opcode ≡ true → f.fin ≡ true)
    × (is_control f.opcode ≡ true → length f.payload ≤ 125)

check_header-limits :
    (fin : Bool) (op : Opcode) (len : ℕ) (masked : Bool)
    → check_header fin op len masked ≡ ok (some tt)
    → (len ≤ max_payload_len)
      × (is_control op ≡ true → fin ≡ true)
      × (is_control op ≡ true → len ≤ 125)
      × (masked ≡ true)
unfolding check_header
check_header-limits fin op len masked h = ground arith

parse_payload-takes :
    (fin : Bool) (op : Opcode) (len offset n : ℕ) (buf : Bytes) (f : Frame)
    → parse_payload fin op len offset buf ≡ ok (some (f, n))
    → (f.fin ≡ fin)
      × (f.opcode ≡ op)
      × (length f.payload ≡ len)
      × (n ≡ offset + 4 + len)
      × (n ≤ length buf)
unfolding parse_payload
parse_payload-takes fin op len offset n buf f h = ground (
  arith,
  length-unmask (take 4 (drop offset buf)) 0 (take len (drop (offset + 4) buf)),
  length-take len (drop (offset + 4) buf),
  length-drop (offset + 4) buf,
)

parse_header-takes :
    (b0 b1 : ℕ) (rest : Bytes) (f : Frame) (n : ℕ)
    → parse_header b0 b1 rest ≡ ok (some (f, n))
    → (6 + length f.payload ≤ n) × (n ≤ length (b0 ∷ b1 ∷ rest)) × WithinLimits f
unfolding parse_header
parse_header-takes b0 b1 rest f n h = elim (outcome (payload_len (bit_and b1 0x7f) rest)) [
  | waits q ↦ ground arith
  | fails e q ↦ ground arith
  | gives (len, offset) q ↦ elim (Result-cases (from_u8 (bit_and b0 0x0f))) [
    | inr (e, o) ↦ ground arith
    | inl (op, o) ↦ ground (
      arith,
      payload_len-offset (bit_and b1 0x7f) rest len offset,
      check_header-limits (not (bit_and b0 0x80 == 0)) op len (not (bit_and b1 0x80 == 0)),
      parse_payload-takes (not (bit_and b0 0x80 == 0)) op len offset n (b0 ∷ b1 ∷ rest) f,
    )
  ]
]

-- A frame that is returned lies in the buffer, with at least six bytes of header, and is within
-- the limits: at most `max_payload_len` bytes, and a control frame final and of at most 125.
pub parse-takes :
    (buf : Bytes) (f : Frame) (n : ℕ)
    → parse buf ≡ ok (some (f, n))
    → (6 + length f.payload ≤ n) × (n ≤ length buf) × WithinLimits f
unfolding parse
parse-takes [] f n h = cc
parse-takes (b0 ∷ []) f n h = cc
parse-takes (b0 ∷ b1 ∷ rest) f n h = parse_header-takes b0 b1 rest f n h

parse_payload-waits :
    (fin : Bool) (op : Opcode) (len offset : ℕ) (buf : Bytes)
    → parse_payload fin op len offset buf ≡ ok none
    → length buf < offset + 4 + len
unfolding parse_payload
parse_payload-waits fin op len offset buf h = ground arith

check_header-decides :
    (fin : Bool) (op : Opcode) (len : ℕ) (masked : Bool) → check_header fin op len masked ≢ ok none
unfolding check_header
check_header-decides fin op len masked h = ground arith

parse_header-waits :
    (b0 b1 : ℕ) (rest : Bytes)
    → parse_header b0 b1 rest ≡ ok none
    → length (b0 ∷ b1 ∷ rest) < 14 + max_payload_len
unfolding parse_header
parse_header-waits b0 b1 rest h = elim (outcome (payload_len (bit_and b1 0x7f) rest)) [
  | waits q ↦ omega (arith, payload_len-waits (bit_and b1 0x7f) rest q)
  | fails e q ↦ ground arith
  | gives (len, offset) q ↦ elim (Result-cases (from_u8 (bit_and b0 0x0f))) [
    | inr (e, o) ↦ ground arith
    | inl (op, o) ↦ ground (
      arith,
      payload_len-offset (bit_and b1 0x7f) rest len offset,
      check_header-limits (not (bit_and b0 0x80 == 0)) op len (not (bit_and b1 0x80 == 0)),
      check_header-decides (not (bit_and b0 0x80 == 0)) op len (not (bit_and b1 0x80 == 0)),
      parse_payload-waits (not (bit_and b0 0x80 == 0)) op len offset (b0 ∷ b1 ∷ rest),
    )
  ]
]

-- `Frame::parse` asks for more bytes only while the buffer is shorter than the largest frame.
pub parse-waits : (buf : Bytes) → parse buf ≡ ok none → length buf < 14 + max_payload_len
unfolding parse
parse-waits [] h = omega arith
parse-waits (b0 ∷ []) h = omega arith
parse-waits (b0 ∷ b1 ∷ rest) h = parse_header-waits b0 b1 rest h
