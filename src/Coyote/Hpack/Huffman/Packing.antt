-- ===== src/Coyote/Hpack/Huffman/Packing.antt =====
-- What the Huffman code writes: the bits of the codes, padded with ones to whole bytes.
use native.Mathlib.Nat.{one-le-pow}
use michael.Prelude.{
  ℕ, zero, suc, ◌+◌, ◌-◌, ◌*◌, ◌/◌, ◌%◌, ◌^◌, ◌≤◌, ◌<◌, true, List, [], ◌∷◌, ◌++◌, ◌≡◌, inl, inr,
  refl, ◌∙◌, sym, ap, arith, length, leb, ltb, Bool-cases, length-append, append_assoc, append-nil,
  bit_or, All,
}
use michael.Prelude.Text.{Bytes}
use michael.Coyote.Hpack.Huffman.{
  code_of, flush_bytes, encode_from, encode, encoded_len, total_bits, shl,
}
use michael.Coyote.Hpack.Huffman.Binary.{
  bits_of, length-bits_of, bits_of-mod, bits_of_sum, bits_of-bit_or-shl,
}
use michael.Coyote.Hpack.Huffman.Prefix.{Entry, Entry-of}

-- The bits of bytes, those of the codes of a string, and those of the padding.
unfoldable pub unpack : Bytes → List ℕ
unpack [] = []
unpack (b ∷ bytes) = bits_of 8 b ++ unpack bytes

unfoldable pub code_bits : Bytes → List ℕ
code_bits [] = []
code_bits (b ∷ s) = bits_of (code_of b).1 (code_of b).0 ++ code_bits s

abbrev pub ones : ℕ → List ℕ
ones n = bits_of n (2 ^ n - 1)

abbrev pub AreBytes : Bytes → Type 0
AreBytes s = All (λ b. b < 256) s

pub unpack-append : (a b : Bytes) → unpack (a ++ b) ≡ unpack a ++ unpack b
unfolding unpack
unpack-append [] b = refl
unpack-append (x ∷ a) b =
    rw (unpack-append a b, append_assoc (bits_of 8 x) (unpack a) (unpack b)) refl

pub length-unpack : (bytes : Bytes) → length (unpack bytes) ≡ 8 * length bytes
unfolding unpack
length-unpack [] = refl
length-unpack (b ∷ bytes) =
    omega
      (arith, length-append (bits_of 8 b) (unpack bytes), length-bits_of 8 b, length-unpack bytes)

-- Where the bits of the codes are fewer than a `u32` can count.
pub length-code_bits :
    (s : Bytes) → length (code_bits s) < 2 ^ 32 → length (code_bits s) ≡ total_bits s
unfolding code_bits total_bits
length-code_bits [] h = refl
length-code_bits (b ∷ s) h =
    let size : length (code_bits (b ∷ s)) ≡ (code_of b).1 + length (code_bits s) =
      length-append (bits_of (code_of b).1 (code_of b).0) (code_bits s)
      ∙ ap (λ (n : ℕ). n + length (code_bits s)) (length-bits_of (code_of b).1 (code_of b).0) in
    let rest = length-code_bits s (omega (arith, size)) in omega (arith, size, rest)

flush_bytes-bits :
    (fuel acc bits : ℕ)
    → bits ≤ fuel
    → (bits_of bits acc
        ≡ unpack (flush_bytes fuel acc bits).0 ++ bits_of (flush_bytes fuel acc bits).1 acc)
      × ((flush_bytes fuel acc bits).1 < 8)
unfolding flush_bytes unpack
flush_bytes-bits zero acc bits h = (refl, omega arith)
flush_bytes-bits (suc fuel) acc bits h = elim (Bool-cases (leb 8 bits)) [
  | inl e ↦
      let left = bits - 8 in
      let (ih, small) = flush_bytes-bits fuel acc left (ground arith) in
      let split : bits_of bits acc ≡ bits_of 8 (acc / 2 ^ left) ++ bits_of left acc =
        ap (λ n. bits_of n acc) {x = bits} {y = 8 + left} (ground arith) ∙ bits_of_sum 8 left acc in
      rw e (
        split
            ∙ rw
                (
                  sym (bits_of-mod 8 8 (acc / 2 ^ left) (omega arith)),
                  ih,
                  append_assoc (bits_of 8 (acc / 2 ^ left % 256))
                      (unpack (flush_bytes fuel acc left).0)
                      (bits_of (flush_bytes fuel acc left).1 acc),
                )
                refl,
        small,
      )
  | inr e ↦ rw e (refl, ground arith)
]

pow-pred : (n : ℕ) → 2 ^ n - 1 < 2 ^ n
pow-pred n = omega (arith, one-le-pow n 2 (omega arith))

-- The padding of less than a byte.
padded :
    (acc bits : ℕ)
    → bits < 8
    → bits_of 8 (bit_or (shl acc (8 - bits)) (2 ^ (8 - bits) - 1) % 256)
      ≡ bits_of bits acc ++ ones (8 - bits)
padded acc bits h =
    let p = 8 - bits in
    bits_of-mod 8 8 (bit_or (shl acc p) (2 ^ p - 1)) (omega arith)
    ∙ ap (λ n. bits_of n (bit_or (shl acc p) (2 ^ p - 1))) {x = 8} {y = bits + p} (omega arith)
    ∙ bits_of-bit_or-shl acc bits p (2 ^ p - 1) (omega arith) (pow-pred p)

-- The whole output is the bits at hand, the codes and the padding.
pub encode_from-bits :
    (acc bits : ℕ) (s : Bytes)
    → bits < 8
    → AreBytes s
    → (p : ℕ) × (p < 8)
      × (unpack (encode_from acc bits s) ≡ bits_of bits acc ++ (code_bits s ++ ones p))
unfolding encode_from unpack code_bits bits_of
encode_from-bits acc zero [] h v = (0, omega arith, refl)
encode_from-bits acc (suc bits) [] h v =
    let some_bits : ltb 0 (suc bits) ≡ true = ground arith in
    (8 - suc bits, omega arith, rw some_bits (append-nil _ ∙ padded acc (suc bits) h))
encode_from-bits acc bits (b ∷ s) h (v, vs) =
    let code = (code_of b).0 in
    let len = (code_of b).1 in
    let entry : Entry b code len = Entry-of b (omega arith) in
    let acc' = bit_or (shl acc len) code in
    let (flushed, small) = flush_bytes-bits (bits + len) acc' (bits + len) (omega arith) in
    let out = (flush_bytes (bits + len) acc' (bits + len)).0 in
    let left = (flush_bytes (bits + len) acc' (bits + len)).1 in
    let (p, q, rest) = encode_from-bits acc' left s small vs in
    let coded = code_bits s ++ ones p in
    (
      p,
      q,
      unpack-append out (encode_from acc' left s)
          ∙ ap (λ x. unpack out ++ x) rest
          ∙ sym (append_assoc (unpack out) (bits_of left acc') coded)
          ∙ ap (λ x. x ++ coded)
              (sym flushed
                ∙ bits_of-bit_or-shl acc bits len code (omega (arith, entry.at_most)) entry.fits)
          ∙ append_assoc (bits_of bits acc) (bits_of len code) coded
          ∙ ap (λ x. bits_of bits acc ++ x)
              (sym (append_assoc (bits_of len code) (code_bits s) (ones p))),
    )

-- A string takes as many bytes as were announced, where its bits are fewer than a `u32` can count.
pub length-encode :
    (s : Bytes) → AreBytes s → length (code_bits s) < 2 ^ 32 → length (encode s) ≡ encoded_len s
unfolding bits_of
length-encode s v short =
    let (p, q, e) = encode_from-bits 0 0 s (omega arith) v in
    let sizes : 8 * length (encode s) ≡ total_bits s + p =
      sym (length-unpack (encode s))
      ∙ ap length e
      ∙ length-append (code_bits s) (ones p)
      ∙ omega (arith, length-code_bits s short, length-bits_of p (2 ^ p - 1)) in
    omega (arith, sizes)
