-- ===== src/Coyote/Normalize.antt =====
-- crates/tomcatrs-coyote/src/normalize.rs: from a raw request target to a safe path.
-- Texts are lists of bytes. The loops of the source over an index are recursions on the list.
pub mod Segments
pub mod Decode
pub mod Safety
pub mod Idempotent
use michael.Prelude.{
  ℕ, ◌+◌, ◌-◌, ◌*◌, ◌%◌, ◌≤◌, Bool, true, false, ◌&&◌, List, [], ◌∷◌, ◌++◌, Option, none, some,
  reverse, ltb, ◌==◌, if◌then◌else◌, length, Result, ok, err, ◌>>=◌, ok_or,
}
use michael.Prelude.Text.{
  Bytes, codes, within, str_eq, contains, split_once, split_on, join, ends_with, starts_with,
  from_utf8,
}

pub record NormalizedUri : Type 0 where
  pub path : Bytes
  pub query : Option Bytes

pub data NormalizeError : Type 0 where
  path_traversal backslash nul_byte encoded_slash : NormalizeError
  bad_percent_encoding invalid_utf8 not_absolute : NormalizeError

unfoldable pub hex_val : ℕ → Option ℕ
hex_val b =
    if within b'0' b'9' b
    then some (b - b'0')
    else if within b'a' b'f' b
    then some (b - b'a' + 10)
    else if within b'A' b'F' b
    then some (b - b'A' + 10)
    else none

-- The byte that two hex digits stand for, refused if it is `/` or NUL. Of two numbers below 16,
-- `(hi << 4) | lo` is `hi * 16 + lo`.
escaped_byte : ℕ → ℕ → Result NormalizeError ℕ
escaped_byte a b = do
  hi ← ok_or (hex_val a) bad_percent_encoding
  lo ← ok_or (hex_val b) bad_percent_encoding
  let byte = hi * 16 + lo
  if byte == b'/' then err encoded_slash else if byte == 0 then err nul_byte else ok byte

-- What one round of the loop does to the rest of the output.
push_front : Result NormalizeError ℕ → Result NormalizeError Bytes → Result NormalizeError Bytes
push_front (err e) rest = err e
push_front (ok b) (err e) = err e
push_front (ok b) (ok out) = ok (b ∷ out)

literal_byte : ℕ → Result NormalizeError ℕ
literal_byte b = if b == 0 then err nul_byte else ok b

-- The `out` that the source grows at its end is the list that is returned. A `%` with fewer than
-- two bytes behind it is malformed.
unfoldable pub percent_decode : Bytes → Result NormalizeError Bytes
unfolding push_front literal_byte escaped_byte hex_val
percent_decode [] = ok []
percent_decode (c ∷ []) =
    if c == b'%' then err bad_percent_encoding else push_front (literal_byte c) (ok [])
percent_decode (c ∷ a ∷ []) =
    let rest = percent_decode (a ∷ []) in
    if c == b'%' then err bad_percent_encoding else push_front (literal_byte c) rest
percent_decode (c ∷ a ∷ b ∷ s) =
    let skip = percent_decode s in
    let rest = percent_decode (a ∷ b ∷ s) in
    if c == b'%' then push_front (escaped_byte a b) skip else push_front (literal_byte c) rest

-- The `match segment` of the loop. The stack is a list with its top first.
abbrev pub is_skip : Bytes → Bool
is_skip s = if str_eq s [] then true else str_eq s (codes ".")

abbrev pub is_up : Bytes → Bool
is_up s = str_eq s (codes "..")

abbrev pub pop : List Bytes → Result NormalizeError (List Bytes)
pop [] = err path_traversal
pop (top ∷ stack) = ok stack

unfoldable pub collapse_step : List Bytes → Bytes → Result NormalizeError (List Bytes)
collapse_step stack seg =
    if is_skip seg then ok stack else if is_up seg then pop stack else ok (seg ∷ stack)

unfoldable pub collapse_loop : List Bytes → List Bytes → Result NormalizeError (List Bytes)
collapse_loop stack [] = ok stack
collapse_loop stack (seg ∷ segs) = do stack' ← collapse_step stack seg; collapse_loop stack' segs

-- The string that is built: `/`, the joined stack from its bottom, and `/` again where the path
-- had one at its end and something stands before it.
unfoldable pub render_path : Bool → List Bytes → Bytes
render_path trailing stack =
    let result = b'/' ∷ join b'/' (reverse stack) in
    if trailing && ltb 1 (length result) then result ++ (b'/' ∷ []) else result

unfoldable pub collapse_dot_segments : Bytes → Result NormalizeError Bytes
collapse_dot_segments path = do
  let trailing_slash = ltb 1 (length path) && ends_with path b'/'
  stack ← collapse_loop [] (split_on b'/' path)
  ok (render_path trailing_slash stack)

-- `target.find('?')`: the path before it and the query behind it.
unfoldable pub split_query : Bytes → Bytes × Option Bytes
split_query target = elim (split_once b'?' target) [
  | none ↦ (target, none)
  | some (path, query) ↦ (path, some query)
]

-- From `if !raw_path.starts_with('/')` on.
unfoldable pub normalize_path : Bytes → Result NormalizeError Bytes
normalize_path raw =
    if starts_with raw (codes "/")
    then if contains raw b'\\' then err backslash else (do
      decoded ← percent_decode raw
      if contains decoded b'\\'
          then err backslash
          else (ok_or (from_utf8 decoded) invalid_utf8 >>= collapse_dot_segments))
    else err not_absolute

unfoldable pub normalize_target : Bytes → Result NormalizeError NormalizedUri
unfolding split_query
normalize_target target =
    let (raw_path, query) = split_query target in
    if str_eq raw_path (codes "*")
    then ok (record { path = codes "*"; query = query })
    else (do path ← normalize_path raw_path; ok (record { path = path; query = query }))
