-- ===== src/Coyote/Hpack/Huffman.antt =====
-- crates/tomcatrs-coyote/src/hpack.rs, module huffman: the coding of string literals. The
-- accumulators of 64 bits are kept with their wrap-around.
pub mod Binary
pub mod Packing
pub mod RoundTrip
pub mod Peeling
pub mod Matching
pub mod Prefix
pub mod Codes
use michael.Prelude.{
  ℕ, zero, suc, ◌+◌, ◌-◌, ◌*◌, ◌/◌, ◌%◌, ◌^◌, Bool, true, false, ◌&&◌, List, [], ◌∷◌, ◌++◌, Option,
  none, some, Result, ok, err, ◌>>=◌, if◌then◌else◌, ltb, leb, ◌==◌, bit_and, bit_or, length,
  get_or,
}
use michael.Prelude.Text.{Bytes}
use michael.Coyote.Hpack.Huffman.Codes.{Code, table}
use michael.Coyote.Hpack.Table.{HpackError, invalid_huffman}

-- `TABLE[byte as usize]`
abbrev pub code_of : ℕ → Code
code_of byte = get_or table byte (0, 0)

-- `acc << n` on a `u64`
abbrev pub shl : ℕ → ℕ → ℕ
shl acc n = acc * 2 ^ n % 2 ^ 64

-- The inner loop of `encode`: the bytes pushed, and the bits that are left. On fuel: `bits` is
-- enough, as a round takes eight of them.
unfoldable pub flush_bytes : ℕ → ℕ → ℕ → Bytes × ℕ
flush_bytes zero acc bits = ([], bits)
flush_bytes (suc fuel) acc bits =
    let (rest, left) = flush_bytes fuel acc (bits - 8) in
    if leb 8 bits then (acc / 2 ^ (bits - 8) % 256 ∷ rest, left) else ([], bits)

-- The loop over the data, and the padding behind it.
unfoldable pub encode_from : ℕ → ℕ → Bytes → Bytes
encode_from acc bits [] =
    if ltb 0 bits then bit_or (shl acc (8 - bits)) (2 ^ (8 - bits) - 1) % 256 ∷ [] else []
encode_from acc bits (byte ∷ data_left) =
    let (code, len) = code_of byte in
    let acc' = bit_or (shl acc len) code in
    let (out, left) = flush_bytes (bits + len) acc' (bits + len) in
    out ++ encode_from acc' left data_left

abbrev pub encode : Bytes → Bytes
encode bytes = encode_from 0 0 bytes

-- The sum of the code lengths, in a `u32`, with its wrap-around (with overflow checks it panics).
unfoldable pub total_bits : Bytes → ℕ
total_bits [] = 0
total_bits (byte ∷ bytes) = ((code_of byte).1 + total_bits bytes) % 2 ^ 32

abbrev pub encoded_len : Bytes → ℕ
encoded_len bytes = (total_bits bytes + 7) / 8

-- `lookup`: the first symbol, counted from `sym`, that has this code of this length.
unfoldable pub lookup_from : ℕ → List Code → ℕ → ℕ → Option ℕ
lookup_from sym [] code len = none
lookup_from sym ((c, l) ∷ codes) code len =
    let rest = lookup_from (sym + 1) codes code len in
    if (l == len) && (c == code) then some sym else rest

abbrev pub lookup : ℕ → ℕ → Option ℕ
lookup code len = lookup_from 0 table code len

-- The loop `for len in 5..=30`: the symbol found and its length. `count` lengths are left to try.
unfoldable pub match_symbol : ℕ → ℕ → ℕ → ℕ → Option (ℕ × ℕ)
match_symbol zero len acc acc_bits = none
match_symbol (suc count) len acc acc_bits =
    let rest = match_symbol count (len + 1) acc acc_bits in
    if ltb acc_bits len then none else elim (lookup (acc / 2 ^ (acc_bits - len) % 2 ^ len) len) [
      | some sym ↦ some (sym, len)
      | none ↦ rest
    ]

-- Peels symbols off the accumulator: the bytes pushed, and the bits that are left. On fuel:
-- `acc_bits` is enough, as a symbol takes five bits at least.
unfoldable pub peel : ℕ → ℕ → ℕ → Result HpackError (Bytes × ℕ)
peel zero acc acc_bits = ok ([], acc_bits)
peel (suc fuel) acc acc_bits = elim (match_symbol 26 5 acc acc_bits) [
  | none ↦ ok ([], acc_bits)
  | some (sym, len) ↦
      if sym == 256
      then err invalid_huffman
      else (peel fuel acc (acc_bits - len) >>= λ r. ok (sym ∷ r.0, r.1))
]

unfoldable pub decode_from : ℕ → ℕ → Bytes → Result HpackError Bytes
decode_from acc acc_bits [] =
    if leb 8 acc_bits
    then err invalid_huffman
    else if ltb 0 acc_bits
    then if bit_and acc (2 ^ acc_bits - 1) == 2 ^ acc_bits - 1 then ok [] else err invalid_huffman
    else ok []
decode_from acc acc_bits (byte ∷ bytes) =
    let acc' = bit_or (shl acc 8) byte in
    peel (acc_bits + 8) acc' (acc_bits + 8) >>= λ r.
    decode_from acc' r.1 bytes >>= λ out. ok (r.0 ++ out)

abbrev pub decode : Bytes → Result HpackError Bytes
decode bytes = decode_from 0 0 bytes
