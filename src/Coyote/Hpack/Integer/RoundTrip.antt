-- ===== src/Coyote/Hpack/Integer/RoundTrip.antt =====
-- Decoding what was encoded, under any flags of the first byte, and the bounds of a decoding.
use native.Mathlib.Nat.{
  add-mul, mul_assoc, pow-le-pow_right, one-le-pow, le-mul_of_pos_right, div-add-mod', mul_comm,
  pow-suc,
}
use michael.Prelude.{
  ℕ, zero, suc, ◌+◌, ◌-◌, ◌*◌, ◌/◌, ◌%◌, ◌^◌, ◌≤◌, ◌<◌, ◌∷◌, ◌++◌, Result, ok, ◌≡◌, inl, inr, refl,
  sym, ap, ◌∙◌, arith, ltb, leb, bit_and, bit_or, length, Bool-cases, ltb→lt, ltb→le, le→ltb,
  lt→leb,
}
use michael.Prelude.Bits.{usize_max, agree_below, agree_below→eq, bit_and_80}
use michael.Prelude.Bits.Masks.{bit_and_mask, mask-bit_or_flag}
use michael.Prelude.Text.{Bytes}
use michael.Coyote.Hpack.Table.{HpackError}
use michael.Coyote.Hpack.Integer.{
  max_prefix, encode_rest, encode_integer, decode_rest, decode_integer, set_flags,
}

-- A continuation byte, and a last one.
continuation : (m : ℕ) → m < 128 → bit_or m 0x80 ≡ m + 128
unfolding agree_below
continuation = agree_below→eq _ _ 128 refl

-- `2 ^ (s + 7)` and the product that a round of either loop splits.
seven_more : (s : ℕ) → s + 7 ≡ suc (suc (suc (suc (suc (suc (suc s))))))
seven_more s = omega arith

pow_step : (s : ℕ) → 2 ^ (s + 7) ≡ 128 * 2 ^ s
pow_step s = ap (λ n. 2 ^ n) (seven_more s) ∙ simp pow-suc (omega arith)

split_product : (r s : ℕ) → r * 2 ^ s ≡ r % 128 * 2 ^ s + r / 128 * 2 ^ (s + 7)
split_product r s =
    ap (λ x. x * 2 ^ s) (sym (div-add-mod' r 128))
    ∙ add-mul (r / 128 * 128) (r % 128) (2 ^ s)
    ∙ rw (pow_step s) (omega (arith, mul_assoc (r / 128) 128 (2 ^ s)))

-- A value that fits leaves room for the shift.
shift_fits : (r s : ℕ) → 1 ≤ r → r * 2 ^ s ≤ usize_max → s < 64
shift_fits r s h k = elim (Bool-cases (ltb s 64)) [
  | inl e ↦ ltb→lt s 64 e
  | inr e ↦
      let big : 2 ^ 64 ≤ 2 ^ s = pow-le-pow_right (omega arith) (ltb→le s 64 e) in
      let more : 2 ^ s ≤ 2 ^ s * r = le-mul_of_pos_right (2 ^ s) h in
      absurd (omega (arith, big, more, mul_comm r (2 ^ s)))
]

low_digit : (n : ℕ) → bit_and n 0x7f ≡ n % 128
low_digit n = bit_and_mask 7 n

encoded_digit : (r : ℕ) → bit_or (bit_and r 0x7f) 0x80 ≡ r % 128 + 128
encoded_digit r = ap (λ x. bit_or x 0x80) (low_digit r) ∙ continuation (r % 128) (omega arith)

-- One round of the decoder on a continuation byte, and on the last byte.
decode_more :
    (m : ℕ) (bytes : Bytes) (v s c : ℕ)
    → m < 128
    → s < 64
    → v + m * 2 ^ s ≤ usize_max
    → decode_rest ((m + 128) ∷ bytes) v s c ≡ decode_rest bytes (v + m * 2 ^ s) (s + 7) (c + 1)
unfolding decode_rest
decode_more m bytes v s c h k fits =
    let low : bit_and (m + 128) 0x7f ≡ m = low_digit (m + 128) ∙ omega arith in
    let high : bit_and (m + 128) 0x80 ≡ 128 = bit_and_80 (m + 128) (omega arith) ∙ omega arith in
    rw (low, high, lt→leb 64 s k, le→ltb usize_max (v + m * 2 ^ s) fits) refl

decode_last :
    (m : ℕ) (bytes : Bytes) (v s c : ℕ)
    → m < 128
    → s < 64
    → v + m * 2 ^ s ≤ usize_max
    → decode_rest (m ∷ bytes) v s c ≡ ok (v + m * 2 ^ s, c + 1)
unfolding decode_rest
decode_last m bytes v s c h k fits =
    let low : bit_and m 0x7f ≡ m = low_digit m ∙ omega arith in
    let high : bit_and m 0x80 ≡ 0 = bit_and_80 m (omega arith) ∙ omega arith in
    rw (low, high, lt→leb 64 s k, le→ltb usize_max (v + m * 2 ^ s) fits) refl

same_result :
    {v w n m : ℕ} → v ≡ w → n ≡ m → ◌≡◌ {A = Result HpackError (ℕ × ℕ)} (ok (v, n)) (ok (w, m))
same_result p q = cc

decode-encode_rest :
    (fuel r : ℕ) (rest : Bytes) (v s c : ℕ)
    → r ≤ fuel
    → s < 64
    → v + r * 2 ^ s ≤ usize_max
    → decode_rest (encode_rest fuel r ++ rest) v s c
      ≡ ok (v + r * 2 ^ s, c + length (encode_rest fuel r))
unfolding encode_rest
decode-encode_rest zero r rest v s c h k fits = decode_last r rest v s c (omega arith) k fits
decode-encode_rest (suc fuel) r rest v s c h k fits = elim (Bool-cases (leb 128 r)) [
  | inr e ↦ rw e (decode_last r rest v s c (ground arith) k fits)
  | inl e ↦
      let large : 128 ≤ r = ground arith in
      let split = split_product r s in
      let next_fits : v + r % 128 * 2 ^ s + r / 128 * 2 ^ (s + 7) ≤ usize_max =
        omega (arith, split, fits) in
      let next_shift : s + 7 < 64 =
        shift_fits (r / 128) (s + 7) (omega arith) (omega (arith, next_fits)) in
      let ih =
        decode-encode_rest fuel (r / 128) rest (v + r % 128 * 2 ^ s) (s + 7) (c + 1) (omega arith)
          next_shift next_fits in
      rw (e, encoded_digit r)
        (decode_more (r % 128) (encode_rest fuel (r / 128) ++ rest) v s c (omega arith) k
            (omega (arith, next_fits))
          ∙ ih
          ∙ same_result (omega (arith, split)) (omega arith))
]

-- A `usize` survives encoding and decoding with any prefix, whatever flags are or-ed in above the
-- prefix bits and whatever bytes follow; the decoder consumes exactly the encoding.
pub decode_integer-encode_integer :
    (value prefix_bits flag : ℕ) (rest : Bytes)
    → value ≤ usize_max
    → prefix_bits ≤ 8
    → decode_integer
        (set_flags (flag * 2 ^ prefix_bits) (encode_integer value prefix_bits) ++ rest)
        prefix_bits
      ≡ ok (value, length (encode_integer value prefix_bits))
unfolding encode_integer decode_integer
decode_integer-encode_integer value p flag rest h k = elim (Bool-cases (ltb value (max_prefix p))) [
  | inl e ↦
      let small = ltb→lt value (max_prefix p) e in
      rw (e, mask-bit_or_flag p value flag (omega (arith, small)), e) refl
  | inr e ↦
      let some_bits = one-le-pow p 2 (omega arith) in
      let big = ltb→le value (max_prefix p) e in
      let at_max = le→ltb (max_prefix p) (max_prefix p) (omega arith) in
      let diff = value - max_prefix p in
      rw (e, mask-bit_or_flag p (max_prefix p) flag (omega (arith, some_bits)), at_max)
        (decode-encode_rest diff diff rest (max_prefix p) 0 1 (omega arith) (omega arith)
            (omega arith)
          ∙ same_result (omega (arith, big)) (omega arith))
]
