-- ===== src/Coyote/Hpack/Decoder/Failing.antt =====
-- crates/tomcatrs-coyote/src/hpack.rs: `HpackDecoder::decode` with the table that it leaves, also
-- where it fails. Of the steps that can fail, only the check of the size comes behind a change.
use michael.Prelude.{
  ℕ, zero, suc, not, ◌&&◌, List, [], ◌∷◌, Result, ok, err, if◌then◌else◌, ◌==◌, bit_and, length,
  drop,
}
use michael.Prelude.Text.{Bytes}
use michael.Coyote.Hpack.Table.{HpackError, Field, DynamicTable, insert}
use michael.Coyote.Hpack.Decoder.{HpackDecoder, Progress, decode_literal, decode_one, decode, start}

-- The table behind a round that fails.
unfoldable pub failed_table : Progress → ℕ → Bytes → DynamicTable
failed_table p byte bytes =
    if (bit_and byte 0x80 == 0) && not (bit_and byte 0x40 == 0)
    then elim (decode_literal p.dynamic (byte ∷ bytes) 6) [
      | ok (field, used) ↦ insert p.dynamic field
      | err e ↦ p.dynamic
    ]
    else p.dynamic

unfoldable pub failed_loop : ℕ → HpackDecoder → Progress → Bytes → DynamicTable
failed_loop fuel d p [] = p.dynamic
failed_loop zero d p (byte ∷ bytes) = p.dynamic
failed_loop (suc fuel) d p (byte ∷ bytes) = elim (decode_one d p byte bytes) [
  | ok (p', used) ↦ failed_loop fuel d p' (drop used (byte ∷ bytes))
  | err e ↦ failed_table p byte bytes
]

unfoldable pub decode_mut : HpackDecoder → Bytes → HpackDecoder × Result HpackError (List Field)
decode_mut d block = elim (decode d block) [
  | ok (d', headers) ↦ (d', ok headers)
  | err e ↦ (record d { dynamic = failed_loop (length block) d (start d) block }, err e)
]
