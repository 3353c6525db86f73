-- ===== src/Tests/HpackEncoder.antt =====
-- The encoder on the requests of RFC 7541, appendix C, and what the decoder makes of them.
use michael.Prelude.{List, [], ◌∷◌, none, ok, ◌≡◌, refl, arith}
use michael.Prelude.Text.{Bytes, codes, from_utf8, str_eq}
use michael.Coyote.Hpack.Table.{
  Field, new_table, insert, evict_to_fit, evict_loop, find_in_tables, position,
}
use michael.Coyote.Hpack.Integer.{encode_integer, encode_rest}
use michael.Coyote.Hpack.Huffman as Huffman
use michael.Coyote.Hpack.Decoder.{HpackDecoder, decode}
use michael.Coyote.Hpack.Encoder.{
  encode_string, HeaderHint, index, never_index, HpackEncoder, default_sensitive, encode_literal,
  encode_field, encode_fields, encode_with_hints,
}
use michael.Coyote.Hpack.Huffman.Binary.{bits_of}
use michael.Coyote.Hpack.Huffman.Packing.{code_bits}
use michael.Coyote.Hpack.Encoder.Strings.{IsCodable}
use michael.Coyote.Hpack.Encoder.Refinement.{
  IsGood, AreCodable, fields_of, decode-encode_with_hints,
}

abbrev fields : List (Field × HeaderHint)
fields =
    ((codes ":method", codes "GET"), index)
    ∷ ((codes ":authority", codes "www.example.com"), index)
    ∷ ((codes "cookie", codes "a=1"), never_index)
    ∷ []

abbrev encoder : HpackEncoder
encoder = record {
  dynamic = new_table 4096;
  sensitive = default_sensitive;
  pending_size_update = none;
}

abbrev decoder : HpackDecoder
decoder = record { dynamic = new_table 4096; max_header_list_size = 8192 }

-- C.4.1, with the never-indexed field behind it.
abbrev block : Bytes
block =
    0x82 ∷ 0x41 ∷ 0x8c ∷ 0xf1 ∷ 0xe3 ∷ 0xc2 ∷ 0xe5 ∷ 0xf2 ∷ 0x3a ∷ 0x6b ∷ 0xa0 ∷ 0xab ∷ 0x90 ∷ 0xf4
    ∷ 0xff ∷ []

runs :
    (encode_fields (new_table 4096) (
      ((codes ":method", codes "GET"), index)
      ∷ ((codes ":authority", codes "www.example.com"), index)
      ∷ [])).1
    ≡ block
unfolding encode_fields encode_field encode_literal encode_string encode_integer encode_rest
    find_in_tables position str_eq insert evict_to_fit evict_loop Huffman.encode_from
    Huffman.flush_bytes Huffman.total_bits
runs = refl

-- The strings of the fields come back.
method_IsCodable : IsCodable (codes ":method")
unfolding encode_string encode_integer encode_rest from_utf8 Huffman.encode_from Huffman.flush_bytes
    Huffman.total_bits code_bits bits_of
method_IsCodable = record {
  utf8 = refl;
  bytes = omega arith;
  short = omega arith;
  fits = omega arith;
}

get_IsCodable : IsCodable (codes "GET")
unfolding encode_string encode_integer encode_rest from_utf8 Huffman.encode_from Huffman.flush_bytes
    Huffman.total_bits code_bits bits_of
get_IsCodable = record { utf8 = refl; bytes = omega arith; short = omega arith; fits = omega arith }

authority_IsCodable : IsCodable (codes ":authority")
unfolding encode_string encode_integer encode_rest from_utf8 Huffman.encode_from Huffman.flush_bytes
    Huffman.total_bits code_bits bits_of
authority_IsCodable = record {
  utf8 = refl;
  bytes = omega arith;
  short = omega arith;
  fits = omega arith;
}

example_IsCodable : IsCodable (codes "www.example.com")
unfolding encode_string encode_integer encode_rest from_utf8 Huffman.encode_from Huffman.flush_bytes
    Huffman.total_bits code_bits bits_of
example_IsCodable = record {
  utf8 = refl;
  bytes = omega arith;
  short = omega arith;
  fits = omega arith;
}

cookie_IsCodable : IsCodable (codes "cookie")
unfolding encode_string encode_integer encode_rest from_utf8 Huffman.encode_from Huffman.flush_bytes
    Huffman.total_bits code_bits bits_of
cookie_IsCodable = record {
  utf8 = refl;
  bytes = omega arith;
  short = omega arith;
  fits = omega arith;
}

value_IsCodable : IsCodable (codes "a=1")
unfolding encode_string encode_integer encode_rest from_utf8 Huffman.encode_from Huffman.flush_bytes
    Huffman.total_bits code_bits bits_of
value_IsCodable = record {
  utf8 = refl;
  bytes = omega arith;
  short = omega arith;
  fits = omega arith;
}

new_table-IsGood : IsGood (new_table 4096)
new_table-IsGood =
    (record { counted = refl; bounded = omega arith; capped = omega arith }, omega arith)

fields_codable : AreCodable fields
fields_codable = (
  (method_IsCodable, get_IsCodable),
  ((authority_IsCodable, example_IsCodable), ((cookie_IsCodable, value_IsCodable), tt)),
)

decode-encode_with_hints_example :
    decode decoder (encode_with_hints encoder fields).1
    ≡ ok (
      record decoder { dynamic = (encode_with_hints encoder fields).0.dynamic },
      fields_of fields,
    )
decode-encode_with_hints_example =
    decode-encode_with_hints encoder decoder fields refl new_table-IsGood refl fields_codable
      (omega arith)
