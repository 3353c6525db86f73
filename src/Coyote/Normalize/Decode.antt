-- ===== src/Coyote/Normalize/Decode.antt =====
-- `percent_decode`: the bytes that may come out of it, and that it undoes percent-encoding.
use michael.Prelude.{
  ℕ, ◌+◌, ◌-◌, ◌/◌, ◌%◌, ◌<◌, true, false, [], ◌∷◌, some, ◌≡◌, ◌≢◌, refl, sym, ◌∙◌, arith, ltb, inl,
  inr, Bool-cases, length, ◌==◌, if◌then◌else◌, Result, ok, err, All,
}
use michael.Prelude.Text.{Bytes, contains}
use michael.Coyote.Normalize.{
  NormalizeError, bad_percent_encoding, hex_val, escaped_byte, push_front, literal_byte,
  percent_decode,
}

-- No NUL byte is decoded, from whatever input.
push_front-nul :
    (b : Result NormalizeError ℕ) (r : Result NormalizeError Bytes) {out : Bytes}
    → ((c : ℕ) → b ≡ ok c → c == 0 ≡ false)
    → ((t : Bytes) → r ≡ ok t → contains t 0 ≡ false)
    → push_front b r ≡ ok out
    → contains out 0 ≡ false
unfolding push_front contains
push_front-nul (err e) r hb hr h = cc
push_front-nul (ok b) (err e) hb hr h = cc
push_front-nul (ok b) (ok t) hb hr h = ground (arith, hb b refl, hr t refl)

literal_byte-nul : (b c : ℕ) → literal_byte b ≡ ok c → c == 0 ≡ false
unfolding literal_byte
literal_byte-nul b c h = ground arith

escaped_byte-nul : (a b c : ℕ) → escaped_byte a b ≡ ok c → c == 0 ≡ false
unfolding escaped_byte
escaped_byte-nul a b c h = ground arith

-- One round of the loop: at an escape, at a `%` with too little behind it, and at any other byte.
percent_decode_escape :
    (c a b : ℕ) (s : Bytes)
    → c == b'%' ≡ true
    → percent_decode (c ∷ a ∷ b ∷ s) ≡ push_front (escaped_byte a b) (percent_decode s)
unfolding percent_decode
percent_decode_escape c a b s e = rw e

percent_decode_literal :
    (c : ℕ) (s : Bytes)
    → c == b'%' ≡ false
    → percent_decode (c ∷ s) ≡ push_front (literal_byte c) (percent_decode s)
unfolding percent_decode
percent_decode_literal c [] e = rw e
percent_decode_literal c (a ∷ []) e = rw e
percent_decode_literal c (a ∷ b ∷ s) e = rw e

percent_decode_short :
    (c : ℕ) (s : Bytes)
    → c == b'%' ≡ true
    → length s < 2
    → percent_decode (c ∷ s) ≡ err bad_percent_encoding
unfolding percent_decode
percent_decode_short c [] e h = rw e
percent_decode_short c (a ∷ []) e h = rw e
percent_decode_short c (a ∷ b ∷ s) e h = absurd (omega arith)

literal_round-nul :
    (c : ℕ) (s out : Bytes)
    → c == b'%' ≡ false
    → ((t : Bytes) → percent_decode s ≡ ok t → contains t 0 ≡ false)
    → percent_decode (c ∷ s) ≡ ok out
    → contains out 0 ≡ false
literal_round-nul c s out e ih h =
    push_front-nul (literal_byte c) (percent_decode s) (literal_byte-nul c) ih
      (sym (percent_decode_literal c s e) ∙ h)

pub percent_decode-nul :
    (s : Bytes) (out : Bytes) → percent_decode s ≡ ok out → contains out 0 ≡ false
percent_decode-nul [] out h = unfold percent_decode contains in ground arith
percent_decode-nul (c ∷ []) out h = elim (Bool-cases (c == b'%')) [
  | inl e ↦ cc (percent_decode_short c [] e (omega arith))
  | inr e ↦ literal_round-nul c [] out e (percent_decode-nul []) h
]
percent_decode-nul (c ∷ a ∷ []) out h = elim (Bool-cases (c == b'%')) [
  | inl e ↦ cc (percent_decode_short c (a ∷ []) e (omega arith))
  | inr e ↦ literal_round-nul c (a ∷ []) out e (percent_decode-nul (a ∷ [])) h
]
percent_decode-nul (c ∷ a ∷ b ∷ s) out h = elim (Bool-cases (c == b'%')) [
  | inl e ↦
      push_front-nul (escaped_byte a b) (percent_decode s) (escaped_byte-nul a b)
        (percent_decode-nul s) (sym (percent_decode_escape c a b s e) ∙ h)
  | inr e ↦ literal_round-nul c (a ∷ b ∷ s) out e (percent_decode-nul (a ∷ b ∷ s)) h
]

-- The two upper-case hex digits of a byte.
hex_digit : ℕ → ℕ
hex_digit n = if ltb n 10 then b'0' + n else b'A' + n - 10

-- Percent-encoding as a client does it: each byte as an escape, but `/` as itself.
pub percent_encode : Bytes → Bytes
percent_encode [] = []
percent_encode (b ∷ s) =
    if b == b'/'
    then b ∷ percent_encode s
    else b'%' ∷ hex_digit (b / 16) ∷ hex_digit (b % 16) ∷ percent_encode s

hex_val-hex_digit : (n : ℕ) → n < 16 → hex_val (hex_digit n) ≡ some n
unfolding hex_val hex_digit
hex_val-hex_digit n h = ground arith

escaped_byte_lem :
    (b : ℕ)
    → b < 256
    → b ≢ 0
    → b ≢ b'/'
    → escaped_byte (hex_digit (b / 16)) (hex_digit (b % 16)) ≡ ok b
unfolding escaped_byte
escaped_byte_lem b h z s =
    rw (hex_val-hex_digit (b / 16) (omega arith), hex_val-hex_digit (b % 16) (omega arith))
      (ground arith)

-- The bytes that a path may hold.
abbrev pub IsPathByte : ℕ → Type 0
IsPathByte b = (b < 256) × (b ≢ 0)

-- Decoding undoes percent-encoding, for every text of path bytes.
pub percent_decode-percent_encode :
    (s : Bytes) → All IsPathByte s → percent_decode (percent_encode s) ≡ ok s
percent_decode-percent_encode [] h = unfold percent_decode percent_encode in refl
percent_decode-percent_encode (b ∷ s) h = elim (Bool-cases (b == b'/')) [
  | inl e ↦ slash e (percent_decode-percent_encode s h.1)
  | inr e ↦ other e (percent_decode-percent_encode s h.1)
]
  where
    slash :
        b == b'/' ≡ true
        → percent_decode (percent_encode s) ≡ ok s
        → percent_decode (percent_encode (b ∷ s)) ≡ ok (b ∷ s)
    slash e ih =
        unfold percent_encode in
        rw e (
          percent_decode_literal b (percent_encode s) (ground arith)
          ∙ rw ih (unfold push_front literal_byte in ground arith))

    other :
        b == b'/' ≡ false
        → percent_decode (percent_encode s) ≡ ok s
        → percent_decode (percent_encode (b ∷ s)) ≡ ok (b ∷ s)
    other e ih =
        unfold percent_encode in
        rw e (
          percent_decode_escape b'%' (hex_digit (b / 16)) (hex_digit (b % 16)) (percent_encode s)
            refl
          ∙ rw (ih, escaped_byte_lem b h.0.0 h.0.1 (ground arith)) (unfold push_front in refl))
