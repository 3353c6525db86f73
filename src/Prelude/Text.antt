-- ===== src/Prelude/Text.antt =====
-- Rust's `str` and `[u8]` as lists of bytes, with the methods of the standard library that the
-- modelled code calls. A `str` is the list of its UTF-8 bytes.
pub mod Laws
pub mod Trim
use Prim.Native.Char.{code}
use michael.Prelude.{
  ℕ, zero, suc, ◌+◌, ◌-◌, Bool, true, false, not, ◌&&◌, ◌||◌, List, [], ◌∷◌, ◌++◌, Option, none,
  some, String, ltb, leb, ◌==◌, if◌then◌else◌, map, reverse,
}

abbrev pub Bytes : Type 0
Bytes = List ℕ

-- The bytes of a literal (every literal of the development is ASCII).
abbrev pub codes : String → Bytes
codes String.[] = []
codes (String.◌∷◌ c s) = code c ∷ codes s

abbrev pub within : ℕ → ℕ → ℕ → Bool
within lo hi c = leb lo c && leb c hi

-- `a == b` on `str`.
unfoldable pub str_eq : Bytes → Bytes → Bool
str_eq [] [] = true
str_eq (x ∷ a) (y ∷ b) = x == y && str_eq a b
str_eq _ _ = false

-- `s.strip_prefix(p)`; `s.starts_with(p)` is that it is `Some`.
unfoldable pub strip_prefix : Bytes → Bytes → Option Bytes
strip_prefix s [] = some s
strip_prefix [] (y ∷ p) = none
strip_prefix (x ∷ s) (y ∷ p) = let rest = strip_prefix s p in if x == y then rest else none

abbrev pub is_some {ℓ} : {A : Type ℓ} → Option A → Bool
is_some none = false
is_some (some a) = true

abbrev pub starts_with : Bytes → Bytes → Bool
starts_with s p = is_some (strip_prefix s p)

-- `s.strip_suffix(p)`.
abbrev map_reverse : Option Bytes → Option Bytes
map_reverse none = none
map_reverse (some s) = some (reverse s)

unfoldable pub strip_suffix : Bytes → Bytes → Option Bytes
strip_suffix s p = map_reverse (strip_prefix (reverse s) (reverse p))

-- What stands behind the last `c`: `s.rfind(c)`, or `s.rsplit_once(c)`.
unfoldable pub after_last : ℕ → Bytes → Option Bytes
after_last c [] = none
after_last c (x ∷ s) =
    let rest = after_last c s in
    elim rest [ some r ↦ some r | none ↦ if x == c then some s else none ]

-- `s.contains(&b)` on bytes.
unfoldable pub contains : Bytes → ℕ → Bool
contains [] b = false
contains (x ∷ s) b = x == b || contains s b

-- `s.split_once(c)`: what stands before and after the first `c`.
unfoldable pub split_once : ℕ → Bytes → Option (Bytes × Bytes)
split_once c [] = none
split_once c (x ∷ s) =
    let rest = split_once c s in
    if x == c then some ([], s) else elim rest [ none ↦ none | some (a, b) ↦ some (x ∷ a, b) ]

-- `s.split(c)`: the pieces between the occurrences of `c`; there is always one.
abbrev pub cons_head : ℕ → List Bytes → List Bytes
cons_head x [] = (x ∷ []) ∷ []
cons_head x (p ∷ ps) = (x ∷ p) ∷ ps

unfoldable pub split_on : ℕ → Bytes → List Bytes
split_on c [] = [] ∷ []
split_on c (x ∷ s) = let rest = split_on c s in if x == c then [] ∷ rest else cons_head x rest

-- `pieces.join(c)` for a separator of one byte.
unfoldable pub join : ℕ → List Bytes → Bytes
join c [] = []
join c (p ∷ []) = p
join c (p ∷ q ∷ ps) = p ++ (c ∷ join c (q ∷ ps))

-- `s.ends_with(c)` for one byte.
unfoldable pub ends_with : Bytes → ℕ → Bool
ends_with [] c = false
ends_with (x ∷ []) c = x == c
ends_with (x ∷ y ∷ s) c = ends_with (y ∷ s) c

-- `b.to_ascii_lowercase()`, `s.to_ascii_lowercase()`, `a.eq_ignore_ascii_case(b)`.
unfoldable pub lower : ℕ → ℕ
lower b = if within b'A' b'Z' b then b + 32 else b

abbrev pub to_ascii_lowercase : Bytes → Bytes
to_ascii_lowercase = map lower

abbrev pub eq_ignore_ascii_case : Bytes → Bytes → Bool
eq_ignore_ascii_case a b = str_eq (to_ascii_lowercase a) (to_ascii_lowercase b)

-- Well-formed UTF-8, as in the Unicode standard: between characters, or inside one whose next
-- byte is to lie in a range and to be followed by a number of continuation bytes.
pub data Utf8State : Type 0 where
  boundary : Utf8State
  expect : ℕ → ℕ → ℕ → Utf8State

utf8_next : ℕ → Utf8State
utf8_next zero = boundary
utf8_next (suc n) = expect 0x80 0xbf n

utf8_lead : ℕ → Option Utf8State
utf8_lead b =
    if ltb b 0x80
    then some boundary
    else if within 0xc2 0xdf b
    then some (expect 0x80 0xbf 0)
    else if b == 0xe0
    then some (expect 0xa0 0xbf 1)
    else if b == 0xed
    then some (expect 0x80 0x9f 1)
    else if within 0xe1 0xef b
    then some (expect 0x80 0xbf 1)
    else if b == 0xf0
    then some (expect 0x90 0xbf 2)
    else if within 0xf1 0xf3 b
    then some (expect 0x80 0xbf 2)
    else if b == 0xf4
    then some (expect 0x80 0x8f 2)
    else none

unfoldable pub utf8_step : Utf8State → ℕ → Option Utf8State
unfolding utf8_next utf8_lead
utf8_step boundary b = utf8_lead b
utf8_step (expect lo hi n) b = if within lo hi b then some (utf8_next n) else none

utf8_done : Utf8State → Bool
utf8_done boundary = true
utf8_done (expect lo hi n) = false

unfoldable pub utf8_from : Utf8State → Bytes → Bool
unfolding utf8_done
utf8_from st [] = utf8_done st
utf8_from st (b ∷ s) = elim (utf8_step st b) [ none ↦ false | some st' ↦ utf8_from st' s ]

-- `String::from_utf8(bytes)`
unfoldable pub from_utf8 : Bytes → Option Bytes
unfolding utf8_from utf8_step
from_utf8 s = if utf8_from boundary s then some s else none
