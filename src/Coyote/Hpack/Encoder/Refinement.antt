-- ===== src/Coyote/Hpack/Encoder/Refinement.antt =====
-- Encoder and decoder of a connection: what one writes, the other reads, and their tables stay
-- equal, block after block.
use michael.Prelude.{
  ℕ, zero, suc, ◌+◌, ◌*◌, ◌≤◌, List, [], ◌∷◌, ◌++◌, Option, none, ok, ◌≡◌, inl, inr, refl, sym, ap,
  ◌∙◌, arith, length, All, Option-cases, length-append, append_assoc, reverse, append-nil,
}
use mathlib.Core.List.{reverse-append}
use michael.Prelude.Bits.{usize_max}
use michael.Prelude.Text.{Bytes}
use michael.Coyote.Hpack.Table.{Field, DynamicTable, find_full, find_name}
use michael.Coyote.Hpack.Table.Fitting.{total}
use michael.Coyote.Hpack.Table.Invariant.{IsConsistent, insert-IsConsistent}
use michael.Coyote.Hpack.Table.Index.{resolve-position, resolve_index-range}
use michael.Coyote.Hpack.Decoder.{HpackDecoder, Progress, decode_loop, start, decode}
use michael.Coyote.Hpack.Encoder.{
  HeaderHint, index, without_index, never_index, HpackEncoder, encode_new, encode_field,
  encode_fields, encode_with_hints,
}
use michael.Coyote.Hpack.Encoder.Strings.{IsCodable, encode_integer-first}
use michael.Coyote.Hpack.Encoder.Literals.{encode_literal-first}
use michael.Coyote.Hpack.Encoder.Block.{
  Indexable, pushed, step_field, encode_field-indexed, encode_field-new,
}

-- A table whose invariant holds and whose capacity is a `usize`.
abbrev pub IsGood : DynamicTable → Type 0
IsGood t = IsConsistent t × (t.capacity ≤ usize_max)

entries_total : (es : List Field) → 32 * length es ≤ total es
entries_total [] = omega arith
entries_total ((name, value) ∷ es) = omega (arith, entries_total es)

IsGood-Indexable : (t : DynamicTable) → IsGood t → Indexable t
IsGood-Indexable t (c, k) test i h =
    let (f, found, _) = resolve-position t test i h in
    elim (resolve_index-range t i) [
      | inl (_, small, _, _) ↦
          omega (arith, small, entries_total t.entries, c.counted, c.bounded, k)
      | inr (_, refused) ↦ cc
    ]

encode_new-IsGood :
    (t : DynamicTable) (field : Field) (idx : Option ℕ) (hint : HeaderHint)
    → IsGood t
    → IsGood (encode_new t field idx hint).0
encode_new-IsGood t field idx index (c, k) =
    let (c', _, same) = insert-IsConsistent t field c in (c', omega (arith, same, k))
encode_new-IsGood t field idx without_index g = g
encode_new-IsGood t field idx never_index g = g

encode_field-IsGood :
    (t : DynamicTable) (field : Field) (hint : HeaderHint)
    → IsGood t
    → IsGood (encode_field t field hint).0
encode_field-IsGood t field hint g = elim (Option-cases (find_full field t)) [
  | inr (i, e) ↦ rw (encode_field-indexed t field hint i e) g
  | inl e ↦
      rw (encode_field-new t field hint e) (encode_new-IsGood t field (find_name field.0 t) hint g)
]

encode_new-length :
    (t : DynamicTable) (name value : Bytes) (idx : Option ℕ) (hint : HeaderHint)
    → 1 ≤ length (encode_new t (name, value) idx hint).1
encode_new-length t name value idx index =
    let (b, tail, shape, _) = encode_literal-first name value idx 6 1 (omega arith) in
    omega (arith, ap length shape)
encode_new-length t name value idx without_index =
    let (b, tail, shape, _) = encode_literal-first name value idx 4 0 (omega arith) in
    omega (arith, ap length shape)
encode_new-length t name value idx never_index =
    let (b, tail, shape, _) = encode_literal-first name value idx 4 1 (omega arith) in
    omega (arith, ap length shape)

encode_field-length :
    (t : DynamicTable) (field : Field) (hint : HeaderHint)
    → 1 ≤ length (encode_field t field hint).1
encode_field-length t field hint = elim (Option-cases (find_full field t)) [
  | inr (i, e) ↦
      let (b, tail, shape, _, _) = encode_integer-first i 7 1 (omega arith) in
      rw (encode_field-indexed t field hint i e) (omega (arith, ap length shape))
  | inl e ↦
      rw (encode_field-new t field hint e)
        (encode_new-length t field.0 field.1 (find_name field.0 t) hint)
]

-- The fields of a block, and the space that the decoder counts for them.
abbrev pub fields_of : List (Field × HeaderHint) → List Field
fields_of [] = []
fields_of ((field, hint) ∷ fields) = field ∷ fields_of fields

abbrev pub AreCodable : List (Field × HeaderHint) → Type 0
AreCodable fields =
    All (λ (entry : Field × HeaderHint). IsCodable entry.0.0 × IsCodable entry.0.1) fields

newest_first :
    (field : Field) (headers fields : List Field)
    → reverse (field ∷ headers) ++ fields ≡ reverse headers ++ (field ∷ fields)
newest_first field headers fields =
    ap (λ hs. hs ++ fields) (reverse-append (field ∷ []) headers)
    ∙ append_assoc (reverse headers) (field ∷ []) fields

decode_loop-encode_fields :
    (fields : List (Field × HeaderHint)) (fuel : ℕ) (d : HpackDecoder) (p : Progress)
    → length (encode_fields p.dynamic fields).1 ≤ fuel
    → AreCodable fields
    → IsGood p.dynamic
    → p.total_size + total (fields_of fields) ≤ d.max_header_list_size
    → (last : Progress) × (decode_loop fuel d p (encode_fields p.dynamic fields).1 ≡ ok (last, []))
      × (last.dynamic ≡ (encode_fields p.dynamic fields).0)
      × (reverse last.headers ≡ reverse p.headers ++ fields_of fields)
unfolding encode_fields
decode_loop-encode_fields [] zero d p l c g room =
    (p, unfold decode_loop in refl, refl, sym (append-nil (reverse p.headers)))
decode_loop-encode_fields [] (suc fuel) d p l c g room =
    (p, unfold decode_loop in refl, refl, sym (append-nil (reverse p.headers)))
decode_loop-encode_fields (((name, value), hint) ∷ fields) zero d p l c g room = absurd (
    omega (
      arith,
      encode_field-length p.dynamic (name, value) hint,
      length-append (encode_field p.dynamic (name, value) hint).1
          (encode_fields (encode_field p.dynamic (name, value) hint).0 fields).1,
    ))
decode_loop-encode_fields (((name, value), hint) ∷ fields) (suc fuel) d p l c g room =
    let t = (encode_field p.dynamic (name, value) hint).0 in
    let bytes = (encode_field p.dynamic (name, value) hint).1 in
    let more = (encode_fields t fields).1 in
    let (last, runs, same, read) =
      decode_loop-encode_fields fields fuel d (pushed p t (name, value))
        (omega (arith, encode_field-length p.dynamic (name, value) hint, length-append bytes more))
        c.1 (encode_field-IsGood p.dynamic (name, value) hint g) (omega arith) in
    (
      last,
      step_field fuel d p name value more hint c.0.0 c.0.1 (IsGood-Indexable p.dynamic g)
            (omega arith)
          ∙ runs,
      same,
      read ∙ newest_first (name, value) p.headers (fields_of fields),
    )

-- Where the tables of the encoder and the decoder are equal, the decoder reads the block that the
-- encoder writes for any headers with any hints as these headers, in their order, and the two
-- tables are equal afterwards, so that this holds of the next block. The invariant of the table
-- holds, no size update is pending, the headers are within the limit on a header list, and every
-- name and value is UTF-8, with a Huffman code of fewer bits than a `u32` can count and a literal
-- whose length is a `usize`.
pub decode-encode_with_hints :
    (e : HpackEncoder) (d : HpackDecoder) (fields : List (Field × HeaderHint))
    → e.dynamic ≡ d.dynamic
    → IsGood d.dynamic
    → e.pending_size_update ≡ none
    → AreCodable fields
    → total (fields_of fields) ≤ d.max_header_list_size
    → decode d (encode_with_hints e fields).1
      ≡ ok (record d { dynamic = (encode_with_hints e fields).0.dynamic }, fields_of fields)
unfolding decode encode_with_hints
decode-encode_with_hints e d fields same g n c room =
    let (last, runs, tables, read) =
      decode_loop-encode_fields fields (length (encode_fields d.dynamic fields).1) d (start d)
        (omega arith) c g (omega (arith, room)) in
    ground (arith, runs, tables, read)
