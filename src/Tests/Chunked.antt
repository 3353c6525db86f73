-- ===== src/Tests/Chunked.antt =====
-- The chunked decoder on the bodies of its unit tests.
use michael.Prelude.{[], ok, err, ◌≡◌, ◌≤◌, ◌⊎◌, true, refl, arith, length, all}
use michael.Prelude.Text.{Bytes, codes, split_once, ends_with, from_utf8}
use michael.Prelude.Text.Trim.{trim}
use michael.Coyote.Normalize.{hex_val}
use michael.Coyote.Chunked.{
  ChunkedDecoder, new_decoder, push, push_loop, round, feed_line, parse_size_line, size_of_line,
  hex_number, without_last, is_complete, encode_chunked, to_hex, too_large, malformed, done,
}
use michael.Coyote.Chunked.Bounds.{WithinCap}
use michael.Coyote.Chunked.Push.{push-WithinCap}

abbrev wiki : Bytes
wiki = codes "4\r\nWiki\r\n5;x=y\r\npedia\r\n0\r\n\r\nGET"

abbrev decoded : ChunkedDecoder
decoded = record {
  max_body = 100;
  state = done;
  line = [];
  line_terminated = true;
  body = codes "Wikipedia";
  trailers = [];
}

runs :
    (push (new_decoder 100) wiki ≡ ok (decoded, codes "GET"))
    × (push (new_decoder 8) wiki ≡ err too_large)
    × (push (new_decoder 8) (codes "xyz\r\n") ≡ err malformed)
    × (encode_chunked (codes "Wikipedia") ≡ codes "9\r\nWikipedia\r\n0\r\n\r\n")
unfolding push push_loop round feed_line parse_size_line size_of_line hex_number without_last trim
    split_once ends_with from_utf8 hex_val all encode_chunked to_hex
runs = (refl, refl, refl, refl)

push-WithinCap_example :
    WithinCap decoded
    × (length (codes "Wikipedia") ≤ 100)
    × ((codes "GET" ≡ []) ⊎ (is_complete decoded ≡ true))
push-WithinCap_example =
    push-WithinCap (new_decoder 100) decoded wiki (codes "GET") (omega arith) (omega arith) runs.0
