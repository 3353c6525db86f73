-- ===== src/Coyote/Http1.antt =====
-- crates/tomcatrs-coyote/src/http1.rs: the head of a request and the framing of its body. A
-- response that refuses a request is named by its status.
pub mod Framing
pub mod Reading
pub mod Decimal
pub mod Delivery
pub mod Conservation
pub mod Serving
pub mod Written
use michael.Prelude.{
  ℕ, zero, suc, ◌+◌, ◌-◌, ◌*◌, Bool, true, false, not, ◌&&◌, ◌||◌, List, [], ◌∷◌, ◌++◌, Option,
  none, some, Result, ok, err, ◌>>=◌, ◌>>◌, guard, ok_or, if◌then◌else◌, ltb, leb, ◌==◌, length,
  all, is_empty,
}
use michael.Prelude.Bits.{usize_max}
use michael.Prelude.Text.{
  Bytes, codes, within, str_eq, contains, split_once, split_on, cons_head, to_ascii_lowercase,
  eq_ignore_ascii_case, from_utf8, is_some,
}
use michael.Prelude.Text.Trim.{trim}
use michael.Security.AccessControl.{RequestLimits}

abbrev pub Status : Type 0
Status = ℕ

abbrev pub Headers : Type 0
Headers = List (Bytes × Bytes)

pub record ParsedHead : Type 0 where
  pub method : Bytes
  pub target : Bytes
  pub version : Bytes
  pub headers : Headers

-- `text.split("\r\n")`
unfoldable pub split_crlf : Bytes → List Bytes
split_crlf [] = [] ∷ []
split_crlf (x ∷ []) = (x ∷ []) ∷ []
split_crlf (x ∷ y ∷ s) =
    let behind = split_crlf s in
    let rest = split_crlf (y ∷ s) in
    if x == b'\r' && y == b'\n' then [] ∷ behind else cons_head x rest

-- `b.is_ascii_graphic()`
abbrev pub is_ascii_graphic : ℕ → Bool
is_ascii_graphic b = within 33 126 b

unfoldable pub is_token_char : ℕ → Bool
is_token_char b =
    contains (codes "!#$%&'*+-.^_`|~") b
    || (within b'0' b'9' b || (within b'A' b'Z' b || within b'a' b'z' b))

-- `request_line.splitn(3, ' ')`, with all three parts there.
unfoldable pub split_request_line : Bytes → Result Status (Bytes × Bytes × Bytes)
split_request_line line = do
  guard (not (is_empty line)) 400
  (method, rest) ← ok_or (split_once b' ' line) 400
  (target, version) ← ok_or (split_once b' ' rest) 400
  ok (method, target, version)

unfoldable pub parse_header_line : RequestLimits → Bytes → Result Status (Bytes × Bytes)
parse_header_line limits line = do
  guard (not (ltb limits.max_header_size (length line))) 431
  (before, after) ← ok_or (split_once b':' line) 400
  guard (not (is_empty (trim before)) && all is_token_char (trim before)) 400
  ok (trim before, trim after)

-- The loop over the lines behind the request line.
unfoldable pub parse_headers : RequestLimits → Headers → List Bytes → Result Status Headers
parse_headers limits headers [] = ok headers
parse_headers limits headers (line ∷ lines) = if is_empty line then ok headers else (do
  guard (ltb (length headers) limits.max_header_count) 431
  field ← parse_header_line limits line
  parse_headers limits (headers ++ (field ∷ [])) lines)

unfoldable pub check_request_line : RequestLimits → Bytes → Bytes → Bytes → Result Status (Unit {0})
check_request_line limits method target version = do
  guard (not (is_empty method) && all is_ascii_graphic method) 400
  guard (str_eq version (codes "HTTP/1.1") || str_eq version (codes "HTTP/1.0")) 505
  guard (not (ltb limits.max_uri_len (length target))) 414

abbrev pub first_line : List Bytes → Bytes × List Bytes
first_line [] = ([], [])
first_line (line ∷ lines) = (line, lines)

unfoldable pub parse_head : Bytes → RequestLimits → Result Status ParsedHead
parse_head buf limits = do
  text ← ok_or (from_utf8 buf) 400
  let (request_line, lines) = first_line (split_crlf text)
  (method, target, version) ← split_request_line request_line
  check_request_line limits method target version
  headers ← parse_headers limits [] lines
  ok (record { method = method; target = target; version = version; headers = headers })

pub data BodyFraming : Type 0 where
  no_body chunked : BodyFraming
  fixed : ℕ → BodyFraming

-- `v.parse::<usize>()`: digits in base ten, behind a `+` or not, of a number that fits.
abbrev pub is_digit : ℕ → Bool
is_digit b = within b'0' b'9' b

unfoldable pub decimal : ℕ → Bytes → ℕ
decimal acc [] = acc
decimal acc (b ∷ s) = decimal (acc * 10 + (b - b'0')) s

abbrev pub without_plus : Bytes → Bytes
without_plus [] = []
without_plus (b ∷ s) = if b == b'+' then s else b ∷ s

unfoldable pub parse_usize : Bytes → Option ℕ
parse_usize s =
    let digits = without_plus s in
    if not (is_empty digits) && all is_digit digits && leb (decimal 0 digits) usize_max
    then some (decimal 0 digits)
    else none

-- The codings of one Transfer-Encoding header, and whether `chunked` is among them or was before.
unfoldable pub scan_codings : Bool → List Bytes → Result Status Bool
scan_codings is_chunked [] = ok is_chunked
scan_codings is_chunked (coding ∷ codings) =
    if str_eq (trim coding) (codes "chunked")
    then scan_codings true codings
    else if is_empty (trim coding)
    then scan_codings is_chunked codings
    else err 501

abbrev pub is_header : Bytes → Bytes → Bool
is_header name key = eq_ignore_ascii_case key name

-- The loop over the Transfer-Encoding headers: `has_transfer_encoding` and `is_chunked`.
unfoldable pub scan_transfer_encoding : Bool × Bool → Headers → Result Status (Bool × Bool)
scan_transfer_encoding seen [] = ok seen
scan_transfer_encoding seen ((key, value) ∷ headers) =
    if is_header (codes "transfer-encoding") key
    then (do
      is_chunked ← scan_codings seen.1 (split_on b',' (to_ascii_lowercase value))
      scan_transfer_encoding (true, is_chunked) headers)
    else scan_transfer_encoding seen headers

-- Whether a length contradicts the one before it.
abbrev pub conflicts : Option ℕ → ℕ → Bool
conflicts none parsed = false
conflicts (some prev) parsed = not (prev == parsed)

unfoldable pub scan_content_length : Option ℕ → Headers → Result Status (Option ℕ)
scan_content_length seen [] = ok seen
scan_content_length seen ((key, value) ∷ headers) =
    if is_header (codes "content-length") key
    then (do
      parsed ← ok_or (parse_usize (trim value)) 400
      guard (not (conflicts seen parsed)) 400
      scan_content_length (some parsed) headers)
    else scan_content_length seen headers

abbrev pub framing_of_length : Option ℕ → BodyFraming
framing_of_length none = no_body
framing_of_length (some n) = if n == 0 then no_body else fixed n

unfoldable pub body_framing : Headers → Result Status BodyFraming
body_framing headers = do
  (has_transfer_encoding, is_chunked) ← scan_transfer_encoding (false, false) headers
  guard (not (has_transfer_encoding && not is_chunked)) 400
  content_length ← scan_content_length none headers
  guard (not (is_chunked && is_some content_length)) 400
  ok (if is_chunked then chunked else framing_of_length content_length)

-- `headers.iter().find(..)`
unfoldable pub find_header : Bytes → Headers → Option Bytes
find_header name [] = none
find_header name ((key, value) ∷ headers) =
    let rest = find_header name headers in if is_header name key then some value else rest

abbrev pub value_is : Option Bytes → Bytes → Bool
value_is none s = false
value_is (some value) s = str_eq (to_ascii_lowercase value) s

unfoldable pub wants_keep_alive : Bytes → Headers → Bool
wants_keep_alive version headers =
    let connection = find_header (codes "connection") headers in
    if str_eq version (codes "HTTP/1.1")
    then not (value_is connection (codes "close"))
    else value_is connection (codes "keep-alive")
