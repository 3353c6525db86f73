-- ===== src/Prelude/BigEndian.antt =====
-- Numbers in big-endian bytes, as the wire formats hold them.
use michael.Prelude.{
  ℕ, zero, suc, ◌+◌, ◌*◌, ◌/◌, ◌%◌, ◌^◌, ◌<◌, [], ◌∷◌, ◌++◌, ◌≡◌, refl, ap, arith, length, take,
}
use michael.Prelude.Text.{Bytes}

-- `from_be_bytes` of any width.
unfoldable pub be_value : ℕ → Bytes → ℕ
be_value acc [] = acc
be_value acc (b ∷ s) = be_value (acc * 256 + b) s

-- `n.to_be_bytes()`: the last `k` bytes of a number, the highest first.
unfoldable pub be_bytes : ℕ → ℕ → Bytes
be_bytes zero n = []
be_bytes (suc k) n = n / 256 ^ k % 256 ∷ be_bytes k n

-- Bytes hold every number of their width.
pub be_value-be_bytes_2 : (n : ℕ) → n < 2 ^ 16 → be_value 0 (be_bytes 2 n) ≡ n
unfolding be_value be_bytes
be_value-be_bytes_2 n h = omega arith

pub be_value-be_bytes_8 : (n : ℕ) → n < 2 ^ 64 → be_value 0 (be_bytes 8 n) ≡ n
unfolding be_value be_bytes
be_value-be_bytes_8 n h = omega arith

pub length-be_bytes : (k n : ℕ) → length (be_bytes k n) ≡ k
unfolding be_bytes
length-be_bytes zero n = refl
length-be_bytes (suc k) n = ap suc (length-be_bytes k n)

pub take-be_bytes : (k n : ℕ) (rest : Bytes) → take k (be_bytes k n ++ rest) ≡ be_bytes k n
unfolding be_bytes
take-be_bytes zero n rest = refl
take-be_bytes (suc k) n rest = ap (◌∷◌ (n / 256 ^ k % 256)) (take-be_bytes k n rest)

pub be_value-be_bytes_4 : (n : ℕ) → n < 2 ^ 32 → be_value 0 (be_bytes 4 n) ≡ n
unfolding be_value be_bytes
be_value-be_bytes_4 n h = omega arith

pub be_value-be_bytes_3 : (n : ℕ) → n < 2 ^ 24 → be_value 0 (be_bytes 3 n) ≡ n
unfolding be_value be_bytes
be_value-be_bytes_3 n h = omega arith
