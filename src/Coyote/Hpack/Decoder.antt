-- ===== src/Coyote/Hpack/Decoder.antt =====
-- crates/tomcatrs-coyote/src/hpack.rs: string literals and the decoder of header blocks.
pub mod Budget
pub mod Block
pub mod Failing
use michael.Prelude.{
  ℕ, zero, suc, ◌+◌, ◌-◌, Bool, true, false, not, List, [], ◌∷◌, ◌++◌, Option, none, some, Result,
  ok, err, ◌>>=◌, ◌>>◌, guard, ok_or, if◌then◌else◌, ltb, leb, ◌==◌, bit_and, length, take, drop,
  reverse,
}
use michael.Prelude.Bits.{usize_max}
use michael.Prelude.Text.{Bytes, from_utf8}
use michael.Coyote.Hpack.Table.{
  HpackError, truncated, integer_overflow, invalid_utf8, unexpected_table_size_update,
  header_list_too_large, Field, entry_size, DynamicTable, insert, apply_size_update, resolve_index,
}
use michael.Coyote.Hpack.Integer.{decode_integer}
use michael.Coyote.Hpack.Huffman as Huffman

unfoldable pub decode_string : Bytes → Result HpackError (Bytes × ℕ)
decode_string [] = err truncated
decode_string (first ∷ bytes) = do
  (len, start) ← decode_integer (first ∷ bytes) 7
  let end = start + len
  guard (leb end usize_max) integer_overflow
  guard (leb end (length (first ∷ bytes))) truncated
  let payload = take len (drop start (first ∷ bytes))
  raw ← if bit_and first 0x80 == 0 then ok payload else Huffman.decode payload
  s ← ok_or (from_utf8 raw) invalid_utf8
  ok (s, end)

pub record HpackDecoder : Type 0 where
  pub dynamic : DynamicTable
  pub max_header_list_size : ℕ

-- `decode_literal`: the field and the bytes consumed.
unfoldable pub decode_literal : DynamicTable → Bytes → ℕ → Result HpackError (Field × ℕ)
decode_literal dynamic bytes prefix_bits = do
  (idx, pos) ← decode_integer bytes prefix_bits
  (name, pos') ←
      if idx == 0
      then (decode_string (drop pos bytes) >>= λ r. ok (r.0, pos + r.1))
      else (resolve_index idx dynamic >>= λ f. ok (f.0, pos))
  (value, used) ← decode_string (drop pos' bytes)
  ok ((name, value), pos' + used)

abbrev pub check_size : HpackDecoder → ℕ → Result HpackError (Unit {0})
check_size d total =
    guard (leb total d.max_header_list_size) (header_list_too_large d.max_header_list_size)

-- The variables of the loop of `decode`; the headers are kept with the newest first.
pub record Progress : Type 0 where
  pub dynamic : DynamicTable
  pub allow_size_update : Bool
  pub total_size : ℕ
  pub headers : List Field

-- `total_size += ..; self.check_size(total_size)?; headers.push(..)`
abbrev pub push_field : HpackDecoder → Progress → DynamicTable → Field → Result HpackError Progress
push_field d p dynamic field = do
  check_size d (p.total_size + entry_size field)
  ok (record {
    dynamic = dynamic;
    allow_size_update = false;
    total_size = p.total_size + entry_size field;
    headers = field ∷ p.headers;
  })

-- One round of the loop, on what is left of the block: the variables and the bytes consumed.
unfoldable pub decode_one : HpackDecoder → Progress → ℕ → Bytes → Result HpackError (Progress × ℕ)
decode_one d p byte bytes =
    if not (bit_and byte 0x80 == 0)
    then (do
      (idx, used) ← decode_integer (byte ∷ bytes) 7
      field ← resolve_index idx p.dynamic
      p' ← push_field d p p.dynamic field
      ok (p', used))
    else if not (bit_and byte 0x40 == 0)
    then (do
      (field, used) ← decode_literal p.dynamic (byte ∷ bytes) 6
      p' ← push_field d p (insert p.dynamic field) field
      ok (p', used))
    else if not (bit_and byte 0x20 == 0)
    then (do
      guard p.allow_size_update unexpected_table_size_update
      (new_size, used) ← decode_integer (byte ∷ bytes) 5
      dynamic ← apply_size_update p.dynamic new_size
      ok (record p { dynamic = dynamic }, used))
    else (do
      (field, used) ← decode_literal p.dynamic (byte ∷ bytes) 4
      p' ← push_field d p p.dynamic field
      ok (p', used))

-- The loop, on fuel: the length of the block is enough, as every round consumes a byte. The
-- second part of an answer is what is left of the block.
unfoldable pub decode_loop :
    ℕ → HpackDecoder → Progress → Bytes → Result HpackError (Progress × Bytes)
decode_loop fuel d p [] = ok (p, [])
decode_loop zero d p (byte ∷ bytes) = ok (p, byte ∷ bytes)
decode_loop (suc fuel) d p (byte ∷ bytes) =
    decode_one d p byte bytes >>= λ r. decode_loop fuel d r.0 (drop r.1 (byte ∷ bytes))

abbrev pub start : HpackDecoder → Progress
start d = record { dynamic = d.dynamic; allow_size_update = true; total_size = 0; headers = [] }

-- `HpackDecoder::decode`: the decoder with its new table, and the headers. What an error leaves is
-- in Failing.
unfoldable pub decode : HpackDecoder → Bytes → Result HpackError (HpackDecoder × List Field)
decode d block = decode_loop (length block) d (start d) block >>= λ r.
    ok (record d { dynamic = r.0.dynamic }, reverse r.0.headers)
