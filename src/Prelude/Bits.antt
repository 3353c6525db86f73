-- ===== src/Prelude/Bits.antt =====
-- Masks on a byte as arithmetic, and `xor` as its own inverse.
pub mod Masks
use Prim.Native.Nat.{ℕ, zero, suc, ◌+◌, ◌-◌, ◌*◌, ◌/◌, ◌%◌, ◌^◌, ◌<◌, ◌≤◌, bit_and, bit_xor}
use Prim.Native.Nat.{digits, differ, bit_xor-bitwise}
use mathlib.Core.Path.{◌≡◌, refl, ◌∙◌}
use mathlib.Core.Bool.{Bool, true, ◌&&◌}
use native.Mathlib.Omega.{arith}
use native.Mathlib.Nat.{pow-suc}
use michael.Prelude.Tests.{◌==◌}

-- `usize::MAX`
abbrev pub usize_max : ℕ
usize_max = 2 ^ 64 - 1

-- Two functions agree on every number below a bound.
module _ (f g : ℕ → ℕ) where
  unfoldable pub agree_below : ℕ → Bool
  agree_below zero = true
  agree_below (suc n) = f n == g n && agree_below n

  pub agree_below→eq : (n : ℕ) → agree_below n ≡ true → (i : ℕ) → i < n → f i ≡ g i
  unfolding agree_below
  agree_below→eq zero e i h = absurd (omega arith)
  agree_below→eq (suc n) e i h = ground (arith, agree_below→eq n (ground arith) i)

pub bit_and_80 : (b : ℕ) → b < 256 → bit_and b 0x80 ≡ b / 128 * 128
unfolding agree_below
bit_and_80 = agree_below→eq _ _ 256 refl

pub bit_and_7f : (b : ℕ) → b < 256 → bit_and b 0x7f ≡ b % 128
unfolding agree_below
bit_and_7f = agree_below→eq _ _ 256 refl

pub bit_and_70 : (b : ℕ) → b < 256 → bit_and b 0x70 ≡ b / 16 % 8 * 16
unfolding agree_below
bit_and_70 = agree_below→eq _ _ 256 refl

pub bit_and_0f : (b : ℕ) → b < 256 → bit_and b 0x0f ≡ b % 16
unfolding agree_below
bit_and_0f = agree_below→eq _ _ 256 refl

-- One equation for the lowest binary digit of an exclusive or: the library's recursion counts
-- digits by a fuel, which does not matter once it is large enough.
abbrev xor_digits : ℕ → ℕ → ℕ → ℕ
xor_digits n a b = digits (λ b. b) differ n a b

xor_digits_fuel : (n m a b : ℕ) → a ≤ n → a ≤ m → xor_digits n a b ≡ xor_digits m a b
xor_digits_fuel zero zero a b p q = refl
xor_digits_fuel zero (suc m) zero b p q = refl
xor_digits_fuel zero (suc m) (suc a) b p q = absurd (omega arith)
xor_digits_fuel (suc n) zero zero b p q = refl
xor_digits_fuel (suc n) zero (suc a) b p q = absurd (omega arith)
xor_digits_fuel (suc n) (suc m) zero b p q = refl
xor_digits_fuel (suc n) (suc m) (suc a) b p q =
    omega (arith, xor_digits_fuel n m (suc a / 2) (b / 2) (omega arith) (omega arith))

zero-bit_xor : (b : ℕ) → bit_xor 0 b ≡ b
zero-bit_xor b = bit_xor-bitwise 0 b

bit_xor_step : (a b : ℕ) → bit_xor a b ≡ bit_xor (a / 2) (b / 2) * 2 + differ (a % 2) (b % 2)
bit_xor_step zero b = omega (arith, zero-bit_xor b, zero-bit_xor (b / 2))
bit_xor_step (suc a) b = omega (
  arith,
  bit_xor-bitwise (suc a) b,
  bit_xor-bitwise (suc a / 2) (b / 2),
  xor_digits_fuel a (suc a / 2) (suc a / 2) (b / 2) (omega arith) (omega arith),
)

-- Two binary digits.
differ-differ : (x y : ℕ) → x < 2 → y < 2 → (differ (differ x y) y ≡ x) × (differ x y < 2)
differ-differ zero zero p q = omega arith
differ-differ zero (suc zero) p q = omega arith
differ-differ (suc zero) zero p q = omega arith
differ-differ (suc zero) (suc zero) p q = omega arith
differ-differ zero (suc (suc y)) p q = absurd (omega arith)
differ-differ (suc zero) (suc (suc y)) p q = absurd (omega arith)
differ-differ (suc (suc x)) y p q = absurd (omega arith)

xor_halves :
    (a b : ℕ)
    → (bit_xor a b / 2 ≡ bit_xor (a / 2) (b / 2)) × (bit_xor a b % 2 ≡ differ (a % 2) (b % 2))
xor_halves a b = (
  omega (arith, bit_xor_step a b, (differ-differ (a % 2) (b % 2) (omega arith) (omega arith)).1),
  omega (arith, bit_xor_step a b, (differ-differ (a % 2) (b % 2) (omega arith) (omega arith)).1),
)

-- On numbers of `k` bits, `xor` stays in `k` bits and undoes itself.
bit_xor_bits :
    (k a b : ℕ) → a < 2 ^ k → b < 2 ^ k → (bit_xor (bit_xor a b) b ≡ a) × (bit_xor a b < 2 ^ k)
bit_xor_bits zero zero zero p q = (refl, omega arith)
bit_xor_bits zero (suc a) b p q = absurd (omega arith)
bit_xor_bits zero zero (suc b) p q = absurd (omega arith)
bit_xor_bits (suc k) a b p q =
    let ih =
      bit_xor_bits k (a / 2) (b / 2) (omega (arith, pow-suc 2 k)) (omega (arith, pow-suc 2 k)) in
    let low = differ-differ (a % 2) (b % 2) (omega arith) (omega arith) in
    let (half, bit) = xor_halves a b in
    (
      bit_xor_step (bit_xor a b) b ∙ rw (half, bit) (omega (arith, ih.0, low.0)),
      omega (arith, ih.1, low.1, pow-suc 2 k, bit_xor_step a b),
    )

pub bit_xor_self_inverse : (a b : ℕ) → a < 256 → b < 256 → bit_xor (bit_xor a b) b ≡ a
bit_xor_self_inverse a b p q = (bit_xor_bits 8 a b p q).0

pub bit_xor-lt : (a b : ℕ) → a < 256 → b < 256 → bit_xor a b < 256
bit_xor-lt a b p q = (bit_xor_bits 8 a b p q).1
