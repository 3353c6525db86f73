-- ===== src/Coyote/Hpack/Huffman/RoundTrip.antt =====
-- The decoder of the Huffman code on what its encoder writes.
use native.Mathlib.Nat.{one-le-pow, mod-eq_of_lt}
use michael.Prelude.{
  ℕ, zero, suc, ◌+◌, ◌-◌, ◌%◌, ◌^◌, ◌≤◌, ◌<◌, [], ◌∷◌, ◌++◌, ok, ◌≡◌, inl, inr, refl, ◌∙◌, sym, ap,
  arith, length, leb, ltb, Bool-cases, length-append, append_assoc, append-nil, bit_or, All-append,
}
use michael.Prelude.Bits.Masks.{bit_and_mask}
use michael.Prelude.Text.{Bytes}
use michael.Coyote.Hpack.Huffman.{
  code_of, flush_bytes, encode_from, decode_from, decode, encode, shl,
}
use michael.Coyote.Hpack.Huffman.Binary.{bits_of, length-bits_of, bits_of-bit_or-shl, bits_of→mod}
use michael.Coyote.Hpack.Huffman.Prefix.{Entry-of}
use michael.Coyote.Hpack.Huffman.Packing.{AreBytes, unpack, code_bits, ones, encode_from-bits}
use michael.Coyote.Hpack.Huffman.Peeling.{first_len, Peeled, peel_lem}

first_len-le : (s : Bytes) → AreBytes s → first_len s ≤ 30
first_len-le [] v = omega arith
first_len-le (b ∷ s) v = (Entry-of b (omega (arith, v.0))).at_most

first_len-pos : (s : Bytes) → AreBytes s → 0 < first_len s
first_len-pos [] v = omega arith
first_len-pos (b ∷ s) v = omega (arith, (Entry-of b (omega (arith, v.0))).at_least)

-- At the end nothing but padding is left.
decode_from_end :
    (acc n p : ℕ) (s : Bytes)
    → AreBytes s
    → p < 8
    → n < first_len s
    → bits_of n acc ++ [] ≡ code_bits s ++ ones p
    → decode_from acc n [] ≡ ok s
unfolding decode_from code_bits
decode_from_end acc n p [] v h short e =
    let bits : bits_of n acc ≡ ones p = sym (append-nil (bits_of n acc)) ∙ e in
    let all : n ≡ p = sym (length-bits_of n acc) ∙ ap length bits ∙ length-bits_of p (2 ^ p - 1) in
    let some_bits = one-le-pow n 2 (omega arith) in
    let low : acc % 2 ^ n ≡ 2 ^ n - 1 =
      bits_of→mod n acc (2 ^ n - 1) (rw (sym all) at bits)
      ∙ mod-eq_of_lt (omega (arith, some_bits)) in
    ground (arith, bit_and_mask n acc ∙ low)
decode_from_end acc n p (b ∷ s) v h short e = absurd (
    omega (
      arith,
      ap length e,
      length-append (bits_of n acc) [],
      length-bits_of n acc,
      length-append (bits_of (code_of b).1 (code_of b).0 ++ code_bits s) (ones p),
      length-append (bits_of (code_of b).1 (code_of b).0) (code_bits s),
      length-bits_of (code_of b).1 (code_of b).0,
    ))

decode_from_lem :
    (acc n p : ℕ) (s bytes : Bytes)
    → AreBytes bytes
    → AreBytes s
    → p < 8
    → n < first_len s
    → bits_of n acc ++ unpack bytes ≡ code_bits s ++ ones p
    → decode_from acc n bytes ≡ ok s
unfolding decode_from unpack
decode_from_lem acc n p s [] w v h short e = decode_from_end acc n p s v h short e
decode_from_lem acc n p s (byte ∷ bytes) w v h short e =
    let acc' = bit_or (shl acc 8) byte in
    let more : bits_of (n + 8) acc' ++ unpack bytes ≡ code_bits s ++ ones p =
      ap (λ x. x ++ unpack bytes)
        (bits_of-bit_or-shl acc n 8 byte (omega (arith, first_len-le s v)) (omega (arith, w.0)))
      ∙ append_assoc (bits_of n acc) (bits_of 8 byte) (unpack bytes)
      ∙ e in
    let r : Peeled acc' (n + 8) p s (unpack bytes) (n + 8) =
      peel_lem (n + 8) acc' (n + 8) p s (unpack bytes) (omega arith) v h more in
    rw (r.runs, decode_from_lem acc' r.left p r.rest bytes w.1 r.bytes h r.short r.ahead, r.whole)
      refl

flush_bytes-AreBytes : (fuel acc bits : ℕ) → AreBytes (flush_bytes fuel acc bits).0
unfolding flush_bytes
flush_bytes-AreBytes zero acc bits = tt
flush_bytes-AreBytes (suc fuel) acc bits = elim (Bool-cases (leb 8 bits)) [
  | inl e ↦ rw e (omega arith, flush_bytes-AreBytes fuel acc (bits - 8))
  | inr e ↦ rw e tt
]

encode_from-AreBytes : (acc bits : ℕ) (s : Bytes) → AreBytes (encode_from acc bits s)
unfolding encode_from
encode_from-AreBytes acc bits [] = elim (Bool-cases (ltb 0 bits)) [
  | inl e ↦ rw e (omega arith, tt)
  | inr e ↦ rw e tt
]
encode_from-AreBytes acc bits (b ∷ s) =
    let len = (code_of b).1 in
    let acc' = bit_or (shl acc len) (code_of b).0 in
    All-append (λ x. x < 256) (flush_bytes (bits + len) acc' (bits + len)).0 _
      (flush_bytes-AreBytes (bits + len) acc' (bits + len))
      (encode_from-AreBytes acc' (flush_bytes (bits + len) acc' (bits + len)).1 s)

-- Every string of bytes is decoded from its Huffman code.
pub decode-encode : (s : Bytes) → AreBytes s → decode (encode s) ≡ ok s
unfolding bits_of
decode-encode s v =
    let (p, h, e) = encode_from-bits 0 0 s (omega arith) v in
    let some_bits : 0 < first_len s = first_len-pos s v in
    decode_from_lem 0 0 p s (encode s) (encode_from-AreBytes 0 0 s) v h some_bits e
