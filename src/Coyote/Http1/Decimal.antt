-- ===== src/Coyote/Http1/Decimal.antt =====
-- The length that a response states: `{}` of a number, read back by `str::parse`.
use michael.Prelude.{
  if◌then◌else◌, ltb, ℕ, zero, suc, ◌+◌, ◌-◌, ◌*◌, ◌/◌, ◌%◌, ◌≤◌, ◌<◌, true, false, [], ◌∷◌, ◌++◌,
  some, ◌≡◌, refl, arith, all, is_empty, le→leb,
}
use michael.Prelude.Bits.{usize_max}
use michael.Prelude.Text.{Bytes}
use michael.Coyote.Http1.{parse_usize, decimal, without_plus, is_digit}

-- `format!("{}", n)`, on fuel: a number has no more digits than its value, or one for zero.
unfoldable pub to_decimal : ℕ → ℕ → Bytes
to_decimal zero n = (b'0' + n) ∷ []
to_decimal (suc fuel) n =
    let high = to_decimal fuel (n / 10) in
    if ltb n 10 then (b'0' + n) ∷ [] else high ++ ((b'0' + n % 10) ∷ [])

abbrev pub decimal_text : ℕ → Bytes
decimal_text n = to_decimal n n

decimal-append :
    (acc : ℕ) (s : Bytes) (d : ℕ) → decimal acc (s ++ ((b'0' + d) ∷ [])) ≡ decimal acc s * 10 + d
unfolding decimal
decimal-append acc [] d = omega arith
decimal-append acc (b ∷ s) d = decimal-append (acc * 10 + (b - b'0')) s d

decimal-to_decimal : (fuel n : ℕ) → n ≤ fuel → decimal 0 (to_decimal fuel n) ≡ n
unfolding to_decimal decimal
decimal-to_decimal zero n h = omega arith
decimal-to_decimal (suc fuel) n h =
    ground (
      arith,
      decimal-append 0 (to_decimal fuel (n / 10)) (n % 10),
      decimal-to_decimal fuel (n / 10),
    )

all-is_digit-append :
    (s : Bytes) (d : ℕ)
    → d < 10
    → all is_digit s ≡ true
    → all is_digit (s ++ ((b'0' + d) ∷ [])) ≡ true
unfolding all
all-is_digit-append [] d k h = ground arith
all-is_digit-append (b ∷ s) d k h = ground (arith, all-is_digit-append s d k)

all-to_decimal : (fuel n : ℕ) → n ≤ fuel → all is_digit (to_decimal fuel n) ≡ true
unfolding to_decimal all
all-to_decimal zero n h = ground arith
all-to_decimal (suc fuel) n h =
    ground
      (arith, all-is_digit-append (to_decimal fuel (n / 10)) (n % 10), all-to_decimal fuel (n / 10))

digits-without_plus : (s : Bytes) → all is_digit s ≡ true → without_plus s ≡ s
unfolding all
digits-without_plus [] h = refl
digits-without_plus (b ∷ s) h = ground arith

append-is_empty : (s : Bytes) (b : ℕ) → is_empty (s ++ (b ∷ [])) ≡ false
append-is_empty [] b = refl
append-is_empty (c ∷ s) b = refl

to_decimal-is_empty : (fuel n : ℕ) → is_empty (to_decimal fuel n) ≡ false
unfolding to_decimal
to_decimal-is_empty zero n = refl
to_decimal-is_empty (suc fuel) n =
    ground (arith, append-is_empty (to_decimal fuel (n / 10)) (b'0' + n % 10))

pub all-decimal_text : (n : ℕ) → all is_digit (decimal_text n) ≡ true
all-decimal_text n = all-to_decimal n n (omega arith)

-- A number that fits in a `usize` is read back from its decimal text.
pub parse_usize-decimal_text : (n : ℕ) → n ≤ usize_max → parse_usize (decimal_text n) ≡ some n
unfolding parse_usize
parse_usize-decimal_text n h =
    rw
      (
        digits-without_plus (decimal_text n) (all-to_decimal n n (omega arith)),
        to_decimal-is_empty n n,
        all-to_decimal n n (omega arith),
        decimal-to_decimal n n (omega arith),
        le→leb n usize_max h,
      )
      refl
