-- ===== src/Prelude/Text/Trim.antt =====
-- `s.trim()`: without the whitespace characters of Unicode at either end of the text.
use mathlib.Core.List.{reverse-reverse}
use michael.Prelude.{
  ℕ, zero, suc, Bool, true, ◌&&◌, ◌||◌, [], ◌∷◌, ◌==◌, ◌≡◌, refl, arith, if◌then◌else◌, reverse,
  All, All-reverse,
}
use michael.Prelude.Text.{Bytes, within}

-- The whitespace characters of one, two and three bytes.
space_of_1 : ℕ → Bool
space_of_1 a = within 9 13 a || a == 32

space_of_2 : ℕ → ℕ → Bool
space_of_2 a b = a == 0xc2 && (b == 0x85 || b == 0xa0)

space_of_3 : ℕ → ℕ → ℕ → Bool
space_of_3 a b c =
    (a == 0xe1 && (b == 0x9a && c == 0x80))
    || ((a == 0xe2
          && (b == 0x80 && (within 0x80 0x8a c || (c == 0xa8 || (c == 0xa9 || c == 0xaf)))))
        || ((a == 0xe2 && (b == 0x81 && c == 0x9f)) || (a == 0xe3 && (b == 0x80 && c == 0x80))))

-- The length of the whitespace character that a text starts with, 0 for none; then the same for
-- the character it ends with, on the reversed text.
space_at_start : Bytes → ℕ
unfolding space_of_1 space_of_2 space_of_3
space_at_start [] = 0
space_at_start (a ∷ []) = if space_of_1 a then 1 else 0
space_at_start (a ∷ b ∷ []) = if space_of_1 a then 1 else if space_of_2 a b then 2 else 0
space_at_start (a ∷ b ∷ c ∷ s) =
    if space_of_1 a then 1 else if space_of_2 a b then 2 else if space_of_3 a b c then 3 else 0

space_at_end : Bytes → ℕ
unfolding space_of_1 space_of_2 space_of_3
space_at_end [] = 0
space_at_end (c ∷ []) = if space_of_1 c then 1 else 0
space_at_end (c ∷ b ∷ []) = if space_of_1 c then 1 else if space_of_2 b c then 2 else 0
space_at_end (c ∷ b ∷ a ∷ s) =
    if space_of_1 c then 1 else if space_of_2 b c then 2 else if space_of_3 a b c then 3 else 0

-- Drops `k` bytes, the rest of a character, then whitespace characters while there are any.
trim_with : (Bytes → ℕ) → ℕ → Bytes → Bytes
trim_with len k [] = []
trim_with len (suc k) (x ∷ s) = trim_with len k s
trim_with len zero (x ∷ s) = elim (len (x ∷ s)) [ zero ↦ x ∷ s | suc k ↦ trim_with len k s ]

unfoldable pub trim : Bytes → Bytes
unfolding trim_with space_at_start space_at_end
trim s = reverse (trim_with space_at_end 0 (reverse (trim_with space_at_start 0 s)))

-- A text is trimmed as it is without a space in front.
pub trim-space : (s : Bytes) → trim (32 ∷ s) ≡ trim s
unfolding trim
trim-space [] = refl
trim-space (b ∷ []) = refl
trim-space (b ∷ c ∷ s) = refl

-- A text of visible ASCII characters is left as it is.
abbrev pub AreGraphic : Bytes → Type 0
AreGraphic s = All (λ b. within 33 126 b ≡ true) s

graphic_start : (x : ℕ) (s : Bytes) → within 33 126 x ≡ true → space_at_start (x ∷ s) ≡ 0
unfolding space_at_start
graphic_start x [] h = ground arith
graphic_start x (b ∷ []) h = ground arith
graphic_start x (b ∷ c ∷ s) h = ground arith

graphic_end : (x : ℕ) (s : Bytes) → within 33 126 x ≡ true → space_at_end (x ∷ s) ≡ 0
unfolding space_at_end
graphic_end x [] h = ground arith
graphic_end x (b ∷ []) h = ground arith
graphic_end x (b ∷ c ∷ s) h = ground arith

graphic_kept :
    (len : Bytes → ℕ) (s : Bytes)
    → ((x : ℕ) (t : Bytes) → within 33 126 x ≡ true → len (x ∷ t) ≡ 0)
    → AreGraphic s
    → trim_with len 0 s ≡ s
unfolding trim_with
graphic_kept len [] none_there g = refl
graphic_kept len (x ∷ s) none_there g = rw (none_there x s g.0, trim_with) refl

pub trim-AreGraphic : (s : Bytes) → AreGraphic s → trim s ≡ s
unfolding trim
trim-AreGraphic s g =
    rw (graphic_kept space_at_start s graphic_start g) (
      rw (graphic_kept space_at_end (reverse s) graphic_end (All-reverse _ s g))
        (reverse-reverse s))
