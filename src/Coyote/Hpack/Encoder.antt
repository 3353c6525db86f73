-- ===== src/Coyote/Hpack/Encoder.antt =====
-- crates/tomcatrs-coyote/src/hpack.rs: string literals and the encoder of header blocks. The bytes
-- that a function appends to its output are its result.
pub mod Strings
pub mod Literals
pub mod Block
pub mod Refinement
use michael.Prelude.{
  ℕ, Bool, true, false, ◌||◌, List, [], ◌∷◌, ◌++◌, Option, none, some, ltb, if◌then◌else◌, length,
  min, map,
}
use michael.Prelude.Text.{Bytes, codes, str_eq}
use michael.Coyote.Hpack.Table.{
  Field, DynamicTable, new_table, insert, resize, find_full, find_name,
}
use michael.Coyote.Hpack.Integer.{encode_integer, set_flags}
use michael.Coyote.Hpack.Huffman as Huffman

unfoldable pub encode_string : Bytes → Bytes
encode_string s =
    let huff_len = Huffman.encoded_len s in
    if ltb huff_len (length s)
    then set_flags 0x80 (encode_integer huff_len 7) ++ Huffman.encode s
    else encode_integer (length s) 7 ++ s

pub data HeaderHint : Type 0 where
  index without_index never_index : HeaderHint

pub record HpackEncoder : Type 0 where
  pub dynamic : DynamicTable
  pub sensitive : Field → Bool
  pub pending_size_update : Option ℕ

unfoldable pub default_sensitive : Field → Bool
default_sensitive (name, value) =
    str_eq name (codes "authorization")
    || (str_eq name (codes "proxy-authorization")
        || (str_eq name (codes "cookie") || str_eq name (codes "set-cookie")))

-- `HpackEncoder::new`
unfoldable pub new_encoder : ℕ → HpackEncoder
new_encoder header_table_size = record {
  dynamic = new_table header_table_size;
  sensitive = default_sensitive;
  pending_size_update = none;
}

unfoldable pub set_sensitivity_predicate : HpackEncoder → (Field → Bool) → HpackEncoder
set_sensitivity_predicate e pred = record e { sensitive = pred }

unfoldable pub set_table_size : HpackEncoder → ℕ → HpackEncoder
set_table_size e new_size =
    let clamped = min new_size e.dynamic.max_capacity in
    record e { dynamic = resize e.dynamic clamped; pending_size_update = some clamped }

-- The name of a literal: its index, or 0 and the name spelled out.
abbrev pub name_prefix : Option ℕ → ℕ
name_prefix none = 0
name_prefix (some idx) = idx

abbrev pub spelled_name : Bytes → Option ℕ → Bytes
spelled_name name none = encode_string name
spelled_name name (some idx) = []

unfoldable pub encode_literal : Field → Option ℕ → ℕ → ℕ → Bytes
encode_literal (name, value) name_idx prefix_bits flag_bits =
    set_flags flag_bits (encode_integer (name_prefix name_idx) prefix_bits)
    ++ (spelled_name name name_idx ++ encode_string value)

-- The table behind a field, and its bytes.
abbrev pub encode_new : DynamicTable → Field → Option ℕ → HeaderHint → DynamicTable × Bytes
encode_new dynamic field name_idx index =
    (insert dynamic field, encode_literal field name_idx 6 0x40)
encode_new dynamic field name_idx without_index = (dynamic, encode_literal field name_idx 4 0x00)
encode_new dynamic field name_idx never_index = (dynamic, encode_literal field name_idx 4 0x10)

unfoldable pub encode_field : DynamicTable → Field → HeaderHint → DynamicTable × Bytes
encode_field dynamic field hint = elim (find_full field dynamic) [
  | some idx ↦ (dynamic, set_flags 0x80 (encode_integer idx 7))
  | none ↦ encode_new dynamic field (find_name field.0 dynamic) hint
]

-- The loop over the headers and their hints, in step.
unfoldable pub encode_fields : DynamicTable → List (Field × HeaderHint) → DynamicTable × Bytes
encode_fields dynamic [] = (dynamic, [])
encode_fields dynamic ((field, hint) ∷ fields) =
    let (dynamic', bytes) = encode_field dynamic field hint in
    let (last, more) = encode_fields dynamic' fields in (last, bytes ++ more)

abbrev pub size_update : Option ℕ → Bytes
size_update none = []
size_update (some size) = set_flags 0x20 (encode_integer size 5)

-- `encode_with_hints`, with each header beside its hint, so that there are as many of both.
unfoldable pub encode_with_hints : HpackEncoder → List (Field × HeaderHint) → HpackEncoder × Bytes
encode_with_hints e fields =
    let (dynamic, bytes) = encode_fields e.dynamic fields in
    (
      record e { dynamic = dynamic; pending_size_update = none },
      size_update e.pending_size_update ++ bytes,
    )

abbrev pub hint_of : HpackEncoder → Field → Field × HeaderHint
hint_of e field = (field, if e.sensitive field then never_index else index)

unfoldable pub encode : HpackEncoder → List Field → HpackEncoder × Bytes
encode e headers = encode_with_hints e (map (hint_of e) headers)
