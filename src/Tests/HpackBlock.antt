-- ===== src/Tests/HpackBlock.antt =====
-- The header block of RFC 7541, C.3.1, and the Huffman code on one text of C.4.1.
use michael.Prelude.{[], ◌∷◌, ok, ◌≡◌, ◌≤◌, refl, arith, List, length}
use michael.Prelude.Text.{Bytes, codes, from_utf8}
use michael.Coyote.Hpack.Table.{
  Field, new_table, insert, evict_to_fit, evict_loop, pop_back, resolve_index,
}
use michael.Coyote.Hpack.Table.Invariant.{IsConsistent, total}
use michael.Coyote.Hpack.Integer.{decode_integer, decode_rest}
use michael.Coyote.Hpack.Huffman as Huffman
use michael.Coyote.Hpack.Huffman.RoundTrip.{decode-encode}
use michael.Coyote.Hpack.Decoder.{
  HpackDecoder, Progress, decode, decode_loop, decode_one, decode_literal, decode_string, start,
}
use michael.Coyote.Hpack.Decoder.Block.{decode-budget}

abbrev block : Bytes
block = 0x82 ∷ 0x86 ∷ 0x84 ∷ 0x41 ∷ 0x0f ∷ codes "www.example.com"

abbrev fields : List Field
fields =
    (codes ":method", codes "GET")
    ∷ (codes ":scheme", codes "http")
    ∷ (codes ":path", codes "/")
    ∷ (codes ":authority", codes "www.example.com")
    ∷ []

abbrev before : HpackDecoder
before = record { dynamic = new_table 4096; max_header_list_size = 16777216 }

abbrev after : HpackDecoder
after = record {
  dynamic = record {
    entries = (codes ":authority", codes "www.example.com") ∷ [];
    size = 57;
    capacity = 4096;
    max_capacity = 4096;
  };
  max_header_list_size = 16777216;
}

decoded : decode before block ≡ ok (after, fields)
unfolding decode decode_loop decode_one decode_literal decode_string decode_integer decode_rest
    resolve_index insert evict_to_fit evict_loop pop_back from_utf8
decoded = refl

huffman_runs : Huffman.encode (codes "no-cache") ≡ 0xa8 ∷ 0xeb ∷ 0x10 ∷ 0x64 ∷ 0x9c ∷ 0xbf ∷ []
unfolding Huffman.encode_from Huffman.flush_bytes
huffman_runs = refl

decode-budget_example :
    IsConsistent after.dynamic
    × (total fields ≤ 16777216)
    × ((p : Progress) × (decode_loop (length block) before (start before) block ≡ ok (p, [])))
decode-budget_example =
    decode-budget before after block fields
      (record { counted = refl; bounded = omega arith; capped = omega arith }) decoded

decode-encode_example : Huffman.decode (Huffman.encode (codes "no-cache")) ≡ ok (codes "no-cache")
decode-encode_example = decode-encode (codes "no-cache") (omega arith)
