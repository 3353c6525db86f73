-- ===== src/Coyote/Chunked.antt =====
-- crates/tomcatrs-coyote/src/chunked.rs: the incremental decoder of chunked request bodies, and
-- the encoder. On an error the source leaves the decoder as it stands and the caller gives up the
-- request, so an error is returned without one.
pub mod Bounds
pub mod Push
use michael.Prelude.{
  ℕ, zero, suc, ◌+◌, ◌-◌, ◌*◌, ◌/◌, ◌%◌, Bool, true, false, not, List, [], ◌∷◌, ◌++◌, Option, none,
  some, Result, ok, err, ◌>>=◌, ◌>>◌, guard, ok_or, if◌then◌else◌, ltb, leb, ◌==◌, length, take,
  drop, min, all, is_empty,
}
use michael.Prelude.Bits.{usize_max}
use michael.Prelude.Text.{Bytes, codes, split_once, ends_with, from_utf8}
use michael.Prelude.Text.Trim.{trim}
use michael.Coyote.Normalize.{hex_val}

abbrev pub max_chunk_line_len : ℕ
max_chunk_line_len = 4096

abbrev pub max_trailer_line_len : ℕ
max_trailer_line_len = 8192

abbrev pub max_trailer_count : ℕ
max_trailer_count = 32

pub data ChunkedError : Type 0 where
  too_large malformed : ChunkedError

pub data State : Type 0 where
  size : State
  chunk_data : ℕ → State
  data_crlf : Bool → State
  trailer done : State

pub record ChunkedDecoder : Type 0 where
  pub max_body : ℕ
  pub state : State
  pub line : Bytes
  pub line_terminated : Bool
  pub body : Bytes
  pub trailers : List (Bytes × Bytes)

-- `ChunkedDecoder::new`
abbrev pub new_decoder : ℕ → ChunkedDecoder
new_decoder max_body = record {
  max_body = max_body;
  state = size;
  line = [];
  line_terminated = false;
  body = [];
  trailers = [];
}

-- `self.line.pop()`
unfoldable pub without_last : Bytes → Bytes
without_last [] = []
without_last (x ∷ []) = []
without_last (x ∷ y ∷ s) = x ∷ without_last (y ∷ s)

-- What `feed_line` makes of `line` and the input: the line, whether it is whole, and the input
-- that is left.
pub record Fed : Type 0 where
  pub line : Bytes
  pub line_terminated : Bool
  pub rest : Bytes

unfoldable pub feed_line : ℕ → Bytes → Bytes → Result ChunkedError Fed
feed_line max_len line [] = ok (record { line = line; line_terminated = false; rest = [] })
feed_line max_len line (b ∷ input) =
    let more = feed_line max_len (line ++ (b ∷ [])) input in
    if b == b'\n'
    then if ends_with line b'\r'
      then ok (record { line = without_last line; line_terminated = true; rest = input })
      else err malformed
    else if ltb max_len (length (line ++ (b ∷ [])))
    then err too_large
    else more

-- `usize::from_str_radix(size_str, 16)` on hex digits, before the check that it fits.
unfoldable pub hex_number : ℕ → Bytes → ℕ
hex_number acc [] = acc
hex_number acc (b ∷ s) = hex_number (acc * 16 + elim (hex_val b) [ none ↦ 0 | some d ↦ d ]) s

abbrev pub is_hex_digit : ℕ → Bool
is_hex_digit b = elim (hex_val b) [ none ↦ false | some d ↦ true ]

abbrev pub before_extension : Bytes → Bytes
before_extension line = elim (split_once b';' line) [ none ↦ line | some (front, _) ↦ front ]

-- The number on a size line.
unfoldable pub size_of_line : Bytes → Result ChunkedError ℕ
size_of_line line = do
  text ← ok_or (from_utf8 (before_extension line)) malformed
  let size_str = trim text
  guard (not (is_empty size_str)) malformed
  guard (all is_hex_digit size_str) malformed
  let number = hex_number 0 size_str
  guard (leb number usize_max) malformed
  ok number

-- `self.body.len().saturating_add(size) > self.max_body`
abbrev pub exceeds : ℕ → ℕ → ℕ → Bool
exceeds body_len number max_body = ltb max_body (min (body_len + number) usize_max)

abbrev pub enter_chunk : ChunkedDecoder → ℕ → Result ChunkedError ChunkedDecoder
enter_chunk d number =
    if number == 0
    then ok (record d { state = trailer; line = [] })
    else if exceeds (length d.body) number d.max_body
    then err too_large
    else ok (record d { state = chunk_data number; line = [] })

unfoldable pub parse_size_line : ChunkedDecoder → Result ChunkedError ChunkedDecoder
parse_size_line d = do number ← size_of_line d.line; enter_chunk d number

unfoldable pub parse_trailer_line : ChunkedDecoder → Result ChunkedError ChunkedDecoder
parse_trailer_line d = do
  guard (ltb (length d.trailers) max_trailer_count) too_large
  text ← ok_or (from_utf8 d.line) malformed
  field ← ok_or (split_once b':' text) malformed
  guard (not (is_empty (trim field.0))) malformed
  ok (record d { line = []; trailers = d.trailers ++ ((trim field.0, trim field.1) ∷ []) })

abbrev pub fed : ChunkedDecoder → Fed → ChunkedDecoder
fed d f = record d { line = f.line; line_terminated = f.line_terminated }

-- One round of the loop of `push`, on input that is not empty, in a state that is not `done`: the
-- decoder and the input that is left.
unfoldable pub round : ChunkedDecoder → ℕ → Bytes → Result ChunkedError (ChunkedDecoder × Bytes)
round d b input = elim d.state [
  | done ↦ ok (d, b ∷ input)
  | size ↦ do
    f ← feed_line max_chunk_line_len d.line (b ∷ input)
    d' ← if f.line_terminated then parse_size_line (fed d f) else ok (fed d f)
    ok (d', f.rest)
  | chunk_data remaining ↦
      let taken = min remaining (length (b ∷ input)) in
      let left = remaining - taken in
      ok (
        record d {
          body = d.body ++ take taken (b ∷ input);
          state = if left == 0 then data_crlf false else chunk_data left;
        },
        drop taken (b ∷ input),
      )
  | data_crlf false ↦
      if b == b'\r' then ok (record d { state = data_crlf true }, input) else err malformed
  | data_crlf true ↦ if b == b'\n' then ok (record d { state = size }, input) else err malformed
  | trailer ↦ do
    f ← feed_line max_trailer_line_len d.line (b ∷ input)
    d' ←
        if f.line_terminated
        then if is_empty f.line
          then ok (record (fed d f) { state = done })
          else parse_trailer_line (fed d f)
        else ok (fed d f)
    ok (d', f.rest)
]

abbrev pub is_complete : ChunkedDecoder → Bool
is_complete d = elim d.state [ done ↦ true | _ ↦ false ]

-- The loop of `push`, on fuel: the length of the input is enough, as every round takes a byte.
unfoldable pub push_loop : ℕ → ChunkedDecoder → Bytes → Result ChunkedError (ChunkedDecoder × Bytes)
push_loop fuel d [] = ok (d, [])
push_loop zero d (b ∷ input) = ok (d, b ∷ input)
push_loop (suc fuel) d (b ∷ input) =
    if is_complete d
    then ok (d, b ∷ input)
    else (round d b input >>= λ next. push_loop fuel next.0 next.1)

-- `push`, with the input that it leaves in place of the count of bytes that it consumed.
unfoldable pub push : ChunkedDecoder → Bytes → Result ChunkedError (ChunkedDecoder × Bytes)
push d input = push_loop (length input) d input

-- `format!("{:x}", n)`, on fuel: a number has no more hex digits than its value, or one for zero.
abbrev pub hex_digit : ℕ → ℕ
hex_digit d = if ltb d 10 then b'0' + d else b'a' + (d - 10)

unfoldable pub to_hex : ℕ → ℕ → Bytes
to_hex zero n = hex_digit n ∷ []
to_hex (suc fuel) n =
    let high = to_hex fuel (n / 16) in
    if ltb n 16 then hex_digit n ∷ [] else high ++ (hex_digit (n % 16) ∷ [])

unfoldable pub encode_chunked : Bytes → Bytes
encode_chunked body =
    (if is_empty body
      then []
      else to_hex (length body) (length body) ++ codes "\r\n" ++ body ++ codes "\r\n")
    ++ codes "0\r\n\r\n"
