-- ===== src/Coyote/Hpack/Encoder/Strings.antt =====
-- A string literal is read back.
use native.Mathlib.Nat.{one-le-pow, pow-suc}
use michael.Prelude.{
  ltb→lt, Result, if◌then◌else◌, ℕ, zero, suc, ◌+◌, ◌*◌, ◌^◌, ◌≤◌, ◌<◌, ◌-◌, [], ◌∷◌, ◌++◌, some,
  ok, ◌≡◌, inl, inr, refl, ◌∙◌, arith, length, drop, ltb, ◌==◌, bit_and, bit_or, Bool-cases,
  length-append, take-append_self, drop-append_self, append_assoc,
}
use michael.Prelude.Bits.{usize_max, bit_and_80}
use michael.Prelude.Bits.Masks.{bit_or_flag}
use michael.Prelude.Text.{Bytes, from_utf8}
use michael.Coyote.Hpack.Table.{HpackError}
use michael.Coyote.Hpack.Integer.{
  encode_rest, encode_integer, decode_integer, set_flags, max_prefix,
}
use michael.Coyote.Hpack.Integer.RoundTrip.{decode_integer-encode_integer}
use michael.Coyote.Hpack.Huffman as Huffman
use michael.Coyote.Hpack.Huffman.Packing.{AreBytes, code_bits, length-encode}
use michael.Coyote.Hpack.Huffman.RoundTrip.{decode-encode}
use michael.Coyote.Hpack.Decoder.{decode_string}
use michael.Coyote.Hpack.Encoder.{encode_string}

-- The first byte of an integer is its prefix under the flags.
pub encode_integer-first :
    (value p flag : ℕ)
    → p ≤ 8
    → (b : ℕ) × (tail : Bytes) × (set_flags (flag * 2 ^ p) (encode_integer value p)
        ≡ (b + flag * 2 ^ p) ∷ tail)
      × (b < 2 ^ p)
      × (length (encode_integer value p) ≡ suc (length tail))
unfolding encode_integer
encode_integer-first value p flag h = elim (Bool-cases (ltb value (max_prefix p))) [
  | inl e ↦
      let small = ltb→lt value (max_prefix p) e in
      (value, [], rw (e, bit_or_flag p value flag (omega arith)) refl, omega arith, rw e refl)
  | inr e ↦
      let some_bits = one-le-pow p 2 (omega arith) in
      (
        max_prefix p,
        encode_rest (value - max_prefix p) (value - max_prefix p),
        rw (e, bit_or_flag p (max_prefix p) flag (omega (arith, some_bits))) refl,
        omega (arith, some_bits),
        rw e refl,
      )
]

pub length-set_flags : (flags : ℕ) (s : Bytes) → length (set_flags flags s) ≡ length s
length-set_flags flags [] = refl
length-set_flags flags (b ∷ s) = refl

-- Whether the payload is under the Huffman code, by the first bit.
abbrev payload_of : ℕ → Bytes → Result HpackError Bytes
payload_of flag payload = if flag == 0 then ok payload else Huffman.decode payload

decode_string-at :
    (b flag : ℕ) (tail payload raw s rest : Bytes)
    → b < 128
    → flag < 2
    → decode_integer ((b + flag * 128) ∷ (tail ++ (payload ++ rest))) 7
      ≡ ok (length payload, suc (length tail))
    → suc (length tail) + length payload ≤ usize_max
    → payload_of flag payload ≡ ok raw
    → from_utf8 raw ≡ some s
    → decode_string ((b + flag * 128) ∷ (tail ++ (payload ++ rest)))
      ≡ ok (s, suc (length tail) + length payload)
unfolding decode_string
decode_string-at b flag tail payload raw s rest small f d fits p u =
    let first = b + flag * 128 in
    let whole = first ∷ (tail ++ (payload ++ rest)) in
    let size : length whole ≡ suc (length tail) + length payload + length rest =
      omega (arith, length-append tail (payload ++ rest), length-append payload rest) in
    let at_payload : drop (suc (length tail)) whole ≡ payload ++ rest =
      drop-append_self (length tail) tail (payload ++ rest) refl in
    let bit : (bit_and first 0x80 == 0) ≡ (flag == 0) = ground (arith, bit_and_80 first) in
    ground
      (arith, d, size, at_payload, bit, p, u, take-append_self (length payload) payload rest refl)

decode_string-shaped :
    (b flag n : ℕ) (head tail payload raw s rest : Bytes)
    → head ≡ (b + flag * 128) ∷ tail
    → n ≡ suc (length tail)
    → b < 128
    → flag < 2
    → decode_integer (head ++ (payload ++ rest)) 7 ≡ ok (length payload, n)
    → n + length payload ≤ usize_max
    → payload_of flag payload ≡ ok raw
    → from_utf8 raw ≡ some s
    → decode_string (head ++ (payload ++ rest)) ≡ ok (s, n + length payload)
decode_string-shaped b flag n head tail payload raw s rest h k small f d fits p u =
    rw (h, k)
      (decode_string-at b flag tail payload raw s rest small f (rw (h, k) at d) (rw k at fits) p u)

decode_string-payload :
    (flag : ℕ) (payload raw s rest : Bytes)
    → flag < 2
    → length (encode_integer (length payload) 7) + length payload ≤ usize_max
    → payload_of flag payload ≡ ok raw
    → from_utf8 raw ≡ some s
    → decode_string
        (set_flags (flag * 2 ^ 7) (encode_integer (length payload) 7) ++ (payload ++ rest))
      ≡ ok (s, length (encode_integer (length payload) 7) + length payload)
decode_string-payload flag payload raw s rest f fits p u =
    let (b, tail, shape, small, size) =
      encode_integer-first (length payload) 7 flag (omega arith) in
    let d =
      decode_integer-encode_integer (length payload) 7 flag (payload ++ rest) (omega arith)
        (omega arith) in
    decode_string-shaped b flag (length (encode_integer (length payload) 7))
      (set_flags (flag * 2 ^ 7) (encode_integer (length payload) 7)) tail payload raw s rest shape
      size small f d fits p u

-- A string of bytes that is UTF-8, whose Huffman code has fewer bits than a `u32` can count, and
-- whose literal has a length that is a `usize`.
pub record IsCodable (s : Bytes) : Type 0 where
  pub utf8 : from_utf8 s ≡ some s
  pub bytes : AreBytes s
  pub short : length (code_bits s) < 2 ^ 32
  pub fits : length (encode_string s) ≤ usize_max

below_pow : (n : ℕ) → n < 2 ^ n
below_pow zero = omega arith
below_pow (suc n) = omega (arith, pow-suc 2 n, below_pow n)

no_flag : (n p : ℕ) → bit_or n (0 * 2 ^ p) ≡ n
no_flag n p =
    let nothing : 0 * 2 ^ p ≡ 0 * 2 ^ n = omega arith in
    rw nothing (bit_or_flag n n 0 (below_pow n) ∙ omega arith)

set_no_flags :
    (value p : ℕ) → set_flags (0 * 2 ^ p) (encode_integer value p) ≡ encode_integer value p
unfolding encode_integer
set_no_flags value p = elim (Bool-cases (ltb value (max_prefix p))) [
  | inl e ↦ rw (e, no_flag value p) refl
  | inr e ↦ rw (e, no_flag (max_prefix p) p) refl
]

pub decode_string-encode_string :
    (s rest : Bytes)
    → IsCodable s
    → decode_string (encode_string s ++ rest) ≡ ok (s, length (encode_string s))
unfolding encode_string
decode_string-encode_string s rest c = elim (Bool-cases (ltb (Huffman.encoded_len s) (length s))) [
  | inl e ↦
      let h = Huffman.encode s in
      let n = length-encode s c.bytes c.short in
      ground (
        arith,
        append_assoc (set_flags (1 * 2 ^ 7) (encode_integer (length h) 7)) h rest,
        length-append (set_flags (1 * 2 ^ 7) (encode_integer (length h) 7)) h,
        length-set_flags (1 * 2 ^ 7) (encode_integer (length h) 7),
        decode_string-payload 1 h s s rest,
        c.fits,
        decode-encode s c.bytes,
        c.utf8,
      )
  | inr e ↦ ground (
    arith,
    append_assoc (encode_integer (length s) 7) s rest,
    length-append (encode_integer (length s) 7) s,
    set_no_flags (length s) 7,
    decode_string-payload 0 s s s rest,
    c.fits,
    c.utf8,
  )
]
