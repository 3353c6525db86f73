-- ===== src/Coyote/Hpack/Integer.antt =====
-- crates/tomcatrs-coyote/src/hpack.rs: the variable-length integers of RFC 7541, section 5.1, on
-- a `usize` of 64 bits.
pub mod RoundTrip
use michael.Prelude.{
  ℕ, zero, suc, ◌+◌, ◌-◌, ◌*◌, ◌/◌, ◌^◌, List, [], ◌∷◌, ◌++◌, Result, ok, err, if◌then◌else◌, ltb,
  leb, ◌==◌, bit_and, bit_or, not,
}
use michael.Prelude.Bits.{usize_max}
use michael.Prelude.Text.{Bytes}
use michael.Coyote.Hpack.Table.{HpackError, truncated, integer_overflow}

abbrev pub usize_bits : ℕ
usize_bits = 64

-- `(1usize << prefix_bits) - 1`
abbrev pub max_prefix : ℕ → ℕ
max_prefix prefix_bits = 2 ^ prefix_bits - 1

-- The `while` loop and the push behind it, on fuel: `remaining` itself is enough, since every
-- round divides it by 128.
unfoldable pub encode_rest : ℕ → ℕ → Bytes
encode_rest zero remaining = remaining ∷ []
encode_rest (suc fuel) remaining =
    let rest = encode_rest fuel (remaining / 128) in
    if leb 128 remaining then bit_or (bit_and remaining 0x7f) 0x80 ∷ rest else remaining ∷ []

-- What `encode_integer` appends.
unfoldable pub encode_integer : ℕ → ℕ → Bytes
encode_integer value prefix_bits =
    if ltb value (max_prefix prefix_bits)
    then value ∷ []
    else max_prefix prefix_bits
      ∷ encode_rest (value - max_prefix prefix_bits) (value - max_prefix prefix_bits)

-- `prefix[0] |= flag_bits`
abbrev pub set_flags : ℕ → Bytes → Bytes
set_flags flags [] = []
set_flags flags (b ∷ bytes) = bit_or b flags ∷ bytes

-- The loop of `decode_integer`, on the bytes from `consumed` on.
unfoldable pub decode_rest : Bytes → ℕ → ℕ → ℕ → Result HpackError (ℕ × ℕ)
decode_rest [] value shift consumed = err truncated
decode_rest (byte ∷ bytes) value shift consumed =
    let candidate = value + bit_and byte 0x7f * 2 ^ shift in
    let rest = decode_rest bytes candidate (shift + 7) (consumed + 1) in
    if leb usize_bits shift
    then err integer_overflow
    else if ltb usize_max candidate
    then err integer_overflow
    else if bit_and byte 0x80 == 0
    then ok (candidate, consumed + 1)
    else rest

unfoldable pub decode_integer : Bytes → ℕ → Result HpackError (ℕ × ℕ)
decode_integer [] prefix_bits = err truncated
decode_integer (first ∷ bytes) prefix_bits =
    let prefix = bit_and first (max_prefix prefix_bits) in
    if ltb prefix (max_prefix prefix_bits)
    then ok (prefix, 1)
    else decode_rest bytes (max_prefix prefix_bits) 0 1
