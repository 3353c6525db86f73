-- ===== src/Coyote/Hpack/Huffman/Binary.antt =====
-- The bits of a number, the highest first, and those of the accumulators of the Huffman code.
use native.Mathlib.Nat.{
  pow-suc, mul_assoc, one-le-pow, add-mul-mod_self_right, add-mul-div_right, mod-add-div',
  div-div-eq-div-mul, zero-add, suc-add, add_comm, mul-lt-mul_of_pos_right, mod-lt, mod-eq_of_lt,
  add-mul, div-eq_of_lt, mul_comm,
}
use michael.Prelude.{
  ℕ, zero, suc, ◌+◌, ◌-◌, ◌*◌, ◌/◌, ◌%◌, ◌^◌, ◌≤◌, ◌<◌, List, [], ◌∷◌, ◌++◌, ◌≡◌, refl, ◌∙◌, sym,
  ap, arith, bit_or, length, drop, get_or, inl, inr, ◌==◌, Bool-cases,
}
use michael.Prelude.Bits.Masks.{bit_or_flag_left}
use michael.Coyote.Hpack.Huffman.{shl}

pub pow-add : (n m : ℕ) → 2 ^ (n + m) ≡ 2 ^ n * 2 ^ m
pow-add zero m = ap (λ x. 2 ^ x) (zero-add m) ∙ omega arith
pow-add (suc n) m =
    ap (λ x. 2 ^ x) (suc-add n m)
    ∙ rw (pow-suc 2 (n + m), pow-add n m, pow-suc 2 n)
        (mul_assoc (2 ^ n) (2 ^ m) 2
          ∙ ap (λ x. 2 ^ n * x) (mul_comm (2 ^ m) 2)
          ∙ sym (mul_assoc (2 ^ n) 2 (2 ^ m)))

-- The low `n` bits of a number.
unfoldable pub bits_of : ℕ → ℕ → List ℕ
bits_of zero v = []
bits_of (suc n) v = v / 2 ^ n % 2 ∷ bits_of n v

pub length-bits_of : (n v : ℕ) → length (bits_of n v) ≡ n
unfolding bits_of
length-bits_of zero v = refl
length-bits_of (suc n) v = omega (arith, length-bits_of n v)

bits_of-above : (n v k : ℕ) → bits_of n (v + k * 2 ^ n) ≡ bits_of n v
unfolding bits_of
bits_of-above zero v k = refl
bits_of-above (suc n) v k =
    let twice : k * 2 ^ suc n ≡ k * 2 * 2 ^ n =
      ap (λ x. k * x) (pow-suc 2 n ∙ mul_comm (2 ^ n) 2) ∙ sym (mul_assoc k 2 (2 ^ n)) in
    let head : (v + k * 2 * 2 ^ n) / 2 ^ n % 2 ≡ v / 2 ^ n % 2 =
      ap (λ x. x % 2) (add-mul-div_right v (k * 2) (one-le-pow n 2 (omega arith)))
      ∙ add-mul-mod_self_right (v / 2 ^ n) k 2 in
    rw (twice, head, bits_of-above n v (k * 2)) refl

-- Bits above those asked for do not count.
pub bits_of-mod : (n m v : ℕ) → n ≤ m → bits_of n (v % 2 ^ m) ≡ bits_of n v
bits_of-mod n m v h =
    let up : 2 ^ m ≡ 2 ^ (m - n) * 2 ^ n =
      ap (λ x. 2 ^ x) {x = m} {y = m - n + n} (omega arith) ∙ pow-add (m - n) n in
    let split : v ≡ v % 2 ^ m + v / 2 ^ m * 2 ^ (m - n) * 2 ^ n =
      sym (mod-add-div' v (2 ^ m))
      ∙ ap (λ x. v % 2 ^ m + x)
          (ap (λ x. v / 2 ^ m * x) up ∙ sym (mul_assoc (v / 2 ^ m) (2 ^ (m - n)) (2 ^ n))) in
    sym (ap (bits_of n) split ∙ bits_of-above n (v % 2 ^ m) (v / 2 ^ m * 2 ^ (m - n)))

pub bits_of_sum : (n m v : ℕ) → bits_of (n + m) v ≡ bits_of n (v / 2 ^ m) ++ bits_of m v
unfolding bits_of
bits_of_sum zero m v = ap (λ n. bits_of n v) (zero-add m)
bits_of_sum (suc n) m v =
    let down : v / 2 ^ (n + m) ≡ v / 2 ^ m / 2 ^ n =
      ap (λ x. v / x) (pow-add n m ∙ mul_comm (2 ^ n) (2 ^ m))
      ∙ sym (div-div-eq-div-mul v (2 ^ m) (2 ^ n)) in
    ap (λ n. bits_of n v) (suc-add n m) ∙ rw (down, bits_of_sum n m v) refl

-- `acc << len` keeps the bits of the accumulator above `len` zeros.
shl-bits : (acc len : ℕ) → len ≤ 64 → shl acc len ≡ acc % 2 ^ (64 - len) * 2 ^ len
shl-bits acc len h =
    let r = acc % 2 ^ (64 - len) in
    let q = acc / 2 ^ (64 - len) in
    let whole : 2 ^ (64 - len) * 2 ^ len ≡ 2 ^ 64 =
      sym (pow-add (64 - len) len) ∙ ap (λ x. 2 ^ x) {x = 64 - len + len} {y = 64} (omega arith) in
    let below : r * 2 ^ len < 2 ^ (64 - len) * 2 ^ len =
      mul-lt-mul_of_pos_right (mod-lt acc (one-le-pow (64 - len) 2 (omega arith)))
        (one-le-pow len 2 (omega arith)) in
    let small : r * 2 ^ len < 2 ^ 64 = rw whole at below in
    let split : acc * 2 ^ len ≡ r * 2 ^ len + q * 2 ^ 64 =
      ap (λ x. x * 2 ^ len) (sym (mod-add-div' acc (2 ^ (64 - len))))
      ∙ add-mul r (q * 2 ^ (64 - len)) (2 ^ len)
      ∙ ap (λ x. r * 2 ^ len + x)
          (mul_assoc q (2 ^ (64 - len)) (2 ^ len) ∙ ap (λ x. q * x) whole) in
    ap (λ x. x % 2 ^ 64) split
    ∙ add-mul-mod_self_right (r * 2 ^ len) q (2 ^ 64)
    ∙ mod-eq_of_lt small

-- `acc << len | code` has the bits of the accumulator, then those of the code.
pub bits_of-bit_or-shl :
    (acc bits len code : ℕ)
    → bits + len ≤ 64
    → code < 2 ^ len
    → bits_of (bits + len) (bit_or (shl acc len) code) ≡ bits_of bits acc ++ bits_of len code
bits_of-bit_or-shl acc bits len code h small =
    let high = acc % 2 ^ (64 - len) in
    let joined : bit_or (shl acc len) code ≡ code + high * 2 ^ len =
      ap (λ x. bit_or x code) (shl-bits acc len (omega arith))
      ∙ bit_or_flag_left len code high small
      ∙ add_comm (high * 2 ^ len) code in
    let above : (code + high * 2 ^ len) / 2 ^ len ≡ high =
      add-mul-div_right code high (one-le-pow len 2 (omega arith))
      ∙ ap (λ x. x + high) (div-eq_of_lt small)
      ∙ zero-add high in
    ap (bits_of (bits + len)) joined
    ∙ bits_of_sum bits len (code + high * 2 ^ len)
    ∙ rw (above, bits_of-mod bits (64 - len) acc (omega arith), bits_of-above len code high) refl

-- The number of the low bits, by the highest of them.
mod_split : (n v : ℕ) → v % 2 ^ suc n ≡ v / 2 ^ n % 2 * 2 ^ n + v % 2 ^ n
mod_split n v =
    let p = 2 ^ n in
    let q = v / p in
    let some_bits : 0 < p = one-le-pow n 2 (omega arith) in
    let halves : q * p ≡ q % 2 * p + q / 2 * (p * 2) =
      ap (λ x. x * p) {y = q % 2 + q / 2 * 2} (omega arith)
      ∙ add-mul (q % 2) (q / 2 * 2) p
      ∙ ap (λ x. q % 2 * p + x) (mul_assoc (q / 2) 2 p ∙ ap (λ x. q / 2 * x) (mul_comm 2 p)) in
    let split : v ≡ q % 2 * p + v % p + q / 2 * 2 ^ suc n =
      rw (pow-suc 2 n) (omega (arith, halves, mod-add-div' v p)) in
    let one : q % 2 * p ≤ p = elim (Bool-cases (q % 2 == 0)) [
      | inl e ↦ (let e0 : q % 2 ≡ 0 = ground (arith, e) in rw e0 (omega arith))
      | inr e ↦ (let e1 : q % 2 ≡ 1 = ground (arith, e) in rw e1 (omega arith))
    ] in
    let small : q % 2 * p + v % p < 2 ^ suc n =
      omega (arith, one, mod-lt v some_bits, pow-suc 2 n) in
    ap (λ x. x % 2 ^ suc n) split
    ∙ add-mul-mod_self_right (q % 2 * p + v % p) (q / 2) (2 ^ suc n)
    ∙ mod-eq_of_lt small

-- The bits tell the number.
pub bits_of→mod : (n v w : ℕ) → bits_of n v ≡ bits_of n w → v % 2 ^ n ≡ w % 2 ^ n
unfolding bits_of
bits_of→mod zero v w e = omega arith
bits_of→mod (suc n) v w e =
    let top : v / 2 ^ n % 2 ≡ w / 2 ^ n % 2 = ap (λ bs. get_or bs 0 0) e in
    let below = bits_of→mod n v w (ap (drop 1) e) in
    mod_split n v ∙ rw (top, below) (sym (mod_split n w))
