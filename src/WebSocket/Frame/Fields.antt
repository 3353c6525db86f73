-- ===== src/WebSocket/Frame/Fields.antt =====
-- The header fields: lengths in big-endian bytes, the opcode, and the mask.
use michael.Prelude.{
  ℕ, zero, suc, ◌+◌, ◌<◌, Bool, true, false, not, [], ◌∷◌, ◌≡◌, refl, ap, arith, bit_and, length,
  get_or, ok, All, ◌==◌, if◌then◌else◌, bit_or,
}
use michael.Prelude.Bits.{bit_and_80, bit_and_7f, bit_xor_self_inverse}
use michael.Prelude.Text.{Bytes}
use michael.WebSocket.Frame.{
  Opcode, continuation, text, binary, close, ping, pong, to_u8, from_u8, unmask,
}

abbrev pub IsByte : ℕ → Type 0
IsByte b = b < 256

pub length-unmask : (key : Bytes) (i : ℕ) (s : Bytes) → length (unmask key i s) ≡ length s
unfolding unmask
length-unmask key i [] = refl
length-unmask key i (b ∷ s) = ap suc (length-unmask key (i + 1) s)

get_or-IsByte : (key : Bytes) (i : ℕ) → All IsByte key → get_or key i 0 < 256
get_or-IsByte [] i h = omega arith
get_or-IsByte (x ∷ key) zero h = h.0
get_or-IsByte (x ∷ key) (suc i) h = get_or-IsByte key i h.1

-- Masking twice with one key gives the payload back.
pub unmask-unmask :
    (key : Bytes) (i : ℕ) (s : Bytes)
    → All IsByte key
    → All IsByte s
    → unmask key i (unmask key i s) ≡ s
unfolding unmask
unmask-unmask key i [] hk h = refl
unmask-unmask key i (b ∷ s) hk h =
    rw
      (bit_xor_self_inverse b (get_or key (bit_and i 3) 0) h.0 (get_or-IsByte key (bit_and i 3) hk))
      (ap (◌∷◌ b) (unmask-unmask key (i + 1) s hk h.1))

-- The first header byte gives its three fields back.
pub first_byte :
    (fin : Bool) (op : Opcode)
    → (not (bit_and (bit_or (if fin then 0x80 else 0x00) (to_u8 op)) 0x80 == 0) ≡ fin)
      × (bit_and (bit_or (if fin then 0x80 else 0x00) (to_u8 op)) 0x70 ≡ 0)
      × (from_u8 (bit_and (bit_or (if fin then 0x80 else 0x00) (to_u8 op)) 0x0f) ≡ ok op)
unfolding to_u8 from_u8
first_byte true continuation = (refl, refl, refl)
first_byte true text = (refl, refl, refl)
first_byte true binary = (refl, refl, refl)
first_byte true close = (refl, refl, refl)
first_byte true ping = (refl, refl, refl)
first_byte true pong = (refl, refl, refl)
first_byte false continuation = (refl, refl, refl)
first_byte false text = (refl, refl, refl)
first_byte false binary = (refl, refl, refl)
first_byte false close = (refl, refl, refl)
first_byte false ping = (refl, refl, refl)
first_byte false pong = (refl, refl, refl)

-- The second header byte of a masked frame: the mask bit over the seven bits of the length.
pub second_byte :
    (len7 : ℕ)
    → len7 < 128
    → (not (bit_and (128 + len7) 0x80 == 0) ≡ true) × (bit_and (128 + len7) 0x7f ≡ len7)
second_byte len7 h =
    (ground (arith, bit_and_80 (128 + len7)), omega (arith, bit_and_7f (128 + len7) (omega arith)))

-- The second header byte of a frame that is not masked is the seven bits of the length.
pub unmasked_byte :
    (len7 : ℕ) → len7 < 128 → (not (bit_and len7 0x80 == 0) ≡ false) × (bit_and len7 0x7f ≡ len7)
unmasked_byte len7 h =
    (ground (arith, bit_and_80 len7), omega (arith, bit_and_7f len7 (omega arith)))
