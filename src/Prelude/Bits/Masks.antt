-- ===== src/Prelude/Bits/Masks.antt =====
-- `and` with a mask of low bits is a remainder, and `or` with a flag above the bits in use is a sum.
-- The native operations go over binary digits with a count that runs down; what they come to is
-- proved for every count that is large enough.
use Prim.Native.Nat.{
  ℕ, zero, suc, ◌+◌, ◌-◌, ◌*◌, ◌/◌, ◌%◌, ◌^◌, ◌<◌, ◌≤◌, min, max, bit_and, bit_or,
}
use Prim.Native.Nat.{digits, bit_and-bitwise, bit_or-bitwise}
use mathlib.Core.Path.{◌≡◌, refl, ◌∙◌, sym, ap}
use native.Mathlib.Omega.{arith}
use native.Mathlib.Nat.{
  pow-suc, pow-succ', mul_assoc, one-le-pow, add-mul-mod_self_right, mod_def, div-div-eq-div-mul,
  mul-div-le, mod-eq_of_lt, zero-mod, zero-div,
}

-- The remainder by an even divisor, by its lowest digit.
mod_double : (n p : ℕ) → n % (2 * p) ≡ n / 2 % p * 2 + n % 2
mod_double n p =
    let q = n / 2 / p in
    let by_def : n % (2 * p) ≡ n - 2 * (p * q) =
      mod_def n (2 * p)
      ∙ ap (λ x. n - 2 * p * x) (sym (div-div-eq-div-mul n 2 p))
      ∙ ap (λ x. n - x) (mul_assoc 2 p q) in
    omega (arith, by_def, mod_def (n / 2) p, mul-div-le (n / 2) p)

-- A mask of no bits, and the halves of a longer one.
mask_half : (k : ℕ) → ((2 ^ suc k - 1) / 2 ≡ 2 ^ k - 1) × ((2 ^ suc k - 1) % 2 ≡ 1)
mask_half k = (
  omega (arith, pow-succ' 2 k, one-le-pow k 2 (omega arith)),
  omega (arith, pow-succ' 2 k, one-le-pow k 2 (omega arith)),
)

no_mask : (count n : ℕ) → digits (λ _. 0) min count n 0 ≡ 0
no_mask zero n = refl
no_mask (suc count) zero = refl
no_mask (suc count) (suc n) = omega (arith, no_mask count (suc n / 2))

masked : (count k n : ℕ) → n ≤ count → digits (λ _. 0) min count n (2 ^ k - 1) ≡ n % 2 ^ k
masked zero k n h = sym (ap (λ x. x % 2 ^ k) {x = n} {y = 0} (omega arith) ∙ zero-mod (2 ^ k))
masked (suc count) k zero h = sym (zero-mod (2 ^ k))
masked (suc count) zero (suc n) h = no_mask (suc count) (suc n) ∙ omega arith
masked (suc count) (suc k) (suc n) h =
    let (half, odd) = mask_half k in
    let split : suc n % 2 ^ suc k ≡ suc n / 2 % 2 ^ k * 2 + suc n % 2 =
      ap (λ x. suc n % x) (pow-succ' 2 k) ∙ mod_double (suc n) (2 ^ k) in
    rw (half, odd, masked count k (suc n / 2) (omega arith)) (omega (arith, split))

pub bit_and_mask : (k n : ℕ) → bit_and n (2 ^ k - 1) ≡ n % 2 ^ k
bit_and_mask k n = bit_and-bitwise n (2 ^ k - 1) ∙ masked n k n (omega arith)

flagged :
    (count k m h : ℕ)
    → m ≤ count
    → m < 2 ^ k
    → digits (λ y. y) max count m (h * 2 ^ k) ≡ m + h * 2 ^ k
flagged zero k zero h p q = omega arith
flagged zero k (suc m) h p q = absurd (omega arith)
flagged (suc count) k zero h p q = omega arith
flagged (suc count) zero (suc m) h p q = absurd (omega arith)
flagged (suc count) (suc k) (suc m) h p q =
    let twice : h * 2 ^ suc k ≡ h * 2 ^ k * 2 =
      ap (λ x. h * x) (pow-suc 2 k) ∙ sym (mul_assoc h (2 ^ k) 2) in
    let half : h * 2 ^ suc k / 2 ≡ h * 2 ^ k = omega (arith, twice) in
    let even : h * 2 ^ suc k % 2 ≡ 0 = omega (arith, twice) in
    let small : suc m / 2 < 2 ^ k = omega (arith, pow-suc 2 k) in
    rw (half, even, flagged count k (suc m / 2) h (omega arith) small) (omega (arith, twice))

pub bit_or_flag : (k m h : ℕ) → m < 2 ^ k → bit_or m (h * 2 ^ k) ≡ m + h * 2 ^ k
bit_or_flag k m h p = bit_or-bitwise m (h * 2 ^ k) ∙ flagged m k m h (omega arith) p

-- A flag above the mask does not show through it.
pub mask-bit_or_flag : (k m h : ℕ) → m < 2 ^ k → bit_and (bit_or m (h * 2 ^ k)) (2 ^ k - 1) ≡ m
mask-bit_or_flag k m h p =
    rw (bit_or_flag k m h p, bit_and_mask k (m + h * 2 ^ k))
      (add-mul-mod_self_right m h (2 ^ k) ∙ mod-eq_of_lt p)

-- `and` with one bit is that digit, in its place.
one_bit : (count k n : ℕ) → n ≤ count → digits (λ _. 0) min count n (2 ^ k) ≡ n / 2 ^ k % 2 * 2 ^ k
one_bit zero k n h = sym (
    ap (λ x. x / 2 ^ k % 2 * 2 ^ k) {x = n} {y = 0} (omega arith)
    ∙ rw (zero-div (2 ^ k)) (omega arith))
one_bit (suc count) k zero h = sym (rw (zero-div (2 ^ k)) (omega arith))
one_bit (suc count) zero (suc n) h = rw (no_mask count (suc n / 2)) (omega arith)
one_bit (suc count) (suc k) (suc n) h =
    let half : 2 ^ suc k / 2 ≡ 2 ^ k = omega (arith, pow-suc 2 k) in
    let even : 2 ^ suc k % 2 ≡ 0 = omega (arith, pow-suc 2 k) in
    let down : suc n / 2 ^ suc k ≡ suc n / 2 / 2 ^ k =
      ap (λ x. suc n / x) (pow-succ' 2 k) ∙ sym (div-div-eq-div-mul (suc n) 2 (2 ^ k)) in
    rw (half, even, one_bit count k (suc n / 2) (omega arith), down, pow-suc 2 k)
      (omega (arith, mul_assoc (suc n / 2 / 2 ^ k % 2) (2 ^ k) 2))

pub bit_and_bit : (k n : ℕ) → bit_and n (2 ^ k) ≡ n / 2 ^ k % 2 * 2 ^ k
bit_and_bit k n = bit_and-bitwise n (2 ^ k) ∙ one_bit n k n (omega arith)

-- The same as `bit_or_flag`, with the flag on the left.
or_none : (count n : ℕ) → n ≤ count → digits (λ y. y) max count n 0 ≡ n
or_none zero n h = omega arith
or_none (suc count) zero h = refl
or_none (suc count) (suc n) h = omega (arith, or_none count (suc n / 2) (omega arith))

flagged_left :
    (count k m h n : ℕ)
    → n ≡ h * 2 ^ k
    → n ≤ count
    → m < 2 ^ k
    → digits (λ y. y) max count n m ≡ n + m
flagged_left zero k m h n e p q = omega arith
flagged_left (suc count) k m h zero e p q = omega arith
flagged_left (suc count) zero zero h (suc n) e p q =
    omega (arith, or_none count (suc n / 2) (omega arith))
flagged_left (suc count) zero (suc m) h (suc n) e p q = absurd (omega arith)
flagged_left (suc count) (suc k) m h (suc n) e p q =
    let twice : h * 2 ^ suc k ≡ h * 2 ^ k * 2 =
      ap (λ x. h * x) (pow-suc 2 k) ∙ sym (mul_assoc h (2 ^ k) 2) in
    let half : suc n / 2 ≡ h * 2 ^ k = omega (arith, twice) in
    let small : m / 2 < 2 ^ k = omega (arith, pow-suc 2 k) in
    omega (arith, twice, flagged_left count k (m / 2) h (suc n / 2) half (omega arith) small)

pub bit_or_flag_left : (k m h : ℕ) → m < 2 ^ k → bit_or (h * 2 ^ k) m ≡ h * 2 ^ k + m
bit_or_flag_left k m h p =
    bit_or-bitwise (h * 2 ^ k) m ∙ flagged_left (h * 2 ^ k) k m h (h * 2 ^ k) refl (omega arith) p
