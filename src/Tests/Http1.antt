-- ===== src/Tests/Http1.antt =====
-- Requests of the parser's unit tests, and the theorems at them.
use michael.Prelude.{
  ℕ, ◌≤◌, false, [], ◌∷◌, ◌++◌, Option, none, some, ok, err, ◌≡◌, ◌≢◌, ◌↔◌, refl, arith, length,
  take, drop, take-append-drop, all, length-take,
}
use michael.Prelude.Text.{
  Bytes, codes, str_eq, lower, split_on, split_once, strip_prefix, contains, from_utf8, join,
  ends_with,
}
use michael.Prelude.Text.Trim.{trim}
use michael.Coyote.Normalize.{
  normalize_target, normalize_path, percent_decode, collapse_dot_segments, collapse_loop,
  collapse_step, render_path,
}
use michael.Security.AccessControl.{RequestLimits}
use michael.Coyote.Http1.{
  find_header, Headers, parse_head, body_framing, no_body, chunked, fixed, scan_transfer_encoding,
  scan_codings, scan_content_length, parse_usize, decimal, split_crlf, split_request_line,
  check_request_line, parse_headers, parse_header_line, is_token_char,
}
use michael.Coyote.Http1.Framing.{IsFramed, body_framing_iff}
use michael.Coyote.Http1.Reading.{
  RequestStream, Request, request, read_head, read_request, read_head_loop, split_head,
  find_header_end, extend_head, arrive, timed_read, untimed_read, read_rest, read_body,
  read_fixed_body, fill_body, normalize_request,
}
use michael.Coyote.Http1.Decimal.{to_decimal}
use michael.Coyote.Http1.Serving.{
  Response, response_bytes, reason_phrase, response_headers, header_lines,
}
use michael.Coyote.Http1.Delivery.{InOrder, IsHead, read_head-decides}
use michael.Coyote.Http1.Conservation.{read_request-fixed, read_request-no_body}

-- A connection on which all the bytes are at hand.
abbrev socket : RequestStream Bytes
socket = record {
  read = λ s want. (drop want s, some (take want s));
  elapses = λ s. false;
  hangs = λ s. false;
}

length_taken : (s : Bytes) (want : ℕ) → length (take want s) ≤ want
length_taken s want = omega (arith, length-take want s)

taken_first :
    (s : Bytes) (want : ℕ) (bytes : Bytes)
    → ◌≡◌ {A = Option Bytes} (some (take want s)) (some bytes)
    → s ≡ bytes ++ drop want s
taken_first s want bytes h = ground (arith, take-append-drop want s)

taken_length :
    (s : Bytes) (want : ℕ) (bytes : Bytes)
    → ◌≡◌ {A = Option Bytes} (some (take want s)) (some bytes)
    → length bytes ≤ want
taken_length s want bytes h = ground (arith, length_taken s want)

abbrev socket_in_order : InOrder socket
socket_in_order = record {
  pending = λ s. s;
  read-pending = taken_first;
  read-length = taken_length;
}

abbrev limits : RequestLimits
limits = record {
  max_header_count = 8;
  max_header_size = 64;
  max_parameter_count = 8;
  max_post_size = 16;
  max_part_count = 8;
  max_uri_len = 32;
}

abbrev sized : Headers
sized = (codes "Content-Length", codes "5") ∷ []

abbrev both : Headers
both = (codes "content-length", codes "5") ∷ (codes "Transfer-Encoding", codes "chunked") ∷ []

framings :
    (body_framing sized ≡ ok (fixed 5))
    × (body_framing both ≡ err 400)
    × (body_framing ((codes "Transfer-Encoding", codes "gzip") ∷ []) ≡ err 501)
    × (body_framing ((codes "transfer-encoding", codes "CHUNKED") ∷ []) ≡ ok chunked)
    × (body_framing [] ≡ ok no_body)
unfolding body_framing scan_transfer_encoding scan_codings scan_content_length parse_usize decimal
    all str_eq lower split_on trim
framings = (refl, refl, refl, refl, refl)

body_framing_iff_example : (body_framing sized ≡ ok (fixed 5)) ↔ IsFramed sized (fixed 5)
body_framing_iff_example = body_framing_iff sized (fixed 5)

-- A request with a body, and the start of the next one behind it.
abbrev post : Bytes
post = codes "POST /a HTTP/1.1\r\nContent-Length: 5\r\n\r\nhelloGET"

abbrev posted : Request
posted = record {
  method = codes "POST";
  uri = codes "/a";
  path = codes "/a";
  query = none;
  version = codes "HTTP/1.1";
  headers = sized;
  body = codes "hello";
}

posts : read_request socket 1 post [] limits ≡ some ([], request posted, codes "GET")
unfolding read_request read_head read_head_loop split_head find_header_end extend_head timed_read
    arrive untimed_read read_rest parse_head split_crlf split_request_line check_request_line
    parse_headers parse_header_line is_token_char read_body read_fixed_body fill_body
    normalize_request normalize_target normalize_path body_framing scan_transfer_encoding
    scan_content_length parse_usize decimal all str_eq lower split_on split_once trim strip_prefix
    contains from_utf8 percent_decode collapse_dot_segments collapse_loop collapse_step render_path
    join ends_with
posts = refl

read_request-fixed_example :
    (head : Bytes) × ([] ++ post ≡ head ++ (codes "hello" ++ (codes "GET" ++ [])))
    × IsHead head
    × (length (codes "hello") ≡ 5)
    × (5 ≤ 16)
read_request-fixed_example =
    read_request-fixed socket socket_in_order 1 5 post [] [] (codes "GET") limits posted posts
      framings.0

-- Two requests that arrive together, and the first of them as it is read.
abbrev gets : Bytes
gets = codes "GET /a HTTP/1.1\r\n\r\nGET /b HTTP/1.1\r\n\r\n"

abbrev first_get : Request
first_get = record {
  method = codes "GET";
  uri = codes "/a";
  path = codes "/a";
  query = none;
  version = codes "HTTP/1.1";
  headers = [];
  body = [];
}

gets_first : read_request socket 1 gets [] limits ≡ some ([], request first_get, [])
unfolding read_request read_head read_head_loop split_head find_header_end extend_head timed_read
    arrive untimed_read read_rest parse_head split_crlf split_request_line check_request_line
    parse_headers parse_header_line is_token_char read_body read_fixed_body fill_body
    normalize_request normalize_target normalize_path body_framing scan_transfer_encoding
    scan_content_length parse_usize decimal all str_eq lower split_on split_once trim strip_prefix
    contains from_utf8 percent_decode collapse_dot_segments collapse_loop collapse_step render_path
    join ends_with
gets_first = refl

read_request-no_body_example :
    (head : Bytes) × (lost : Bytes) × ([] ++ gets ≡ head ++ (lost ++ []))
    × IsHead head
    × (◌≡◌ {A = Bytes} [] [])
    × (◌≡◌ {A = Bytes} [] [])
read_request-no_body_example =
    read_request-no_body socket socket_in_order 1 gets [] [] [] limits first_get gets_first
      framings.4

read_head-decides_example : read_head socket gets [] ≢ none
read_head-decides_example = read_head-decides socket (λ s. refl) gets []

-- A response without headers, as it is written.
abbrev not_found : Response
not_found = record { status = 404; headers = []; body = codes "gone" }

written :
    response_bytes not_found false
    ≡ codes
        "HTTP/1.1 404 Not Found\r\nContent-Length: 4\r\nServer: Tomcat-RS Compatibility Runtime\r\nConnection: close\r\n\r\ngone"
unfolding response_bytes reason_phrase to_decimal response_headers header_lines find_header
written = refl

-- An adapter that answers with a header of its own, and a request that asks for the connection to
-- be closed.
abbrev refusal : Response
refusal = record { status = 405; headers = (codes "Allow", codes "GET") ∷ []; body = codes "no" }

abbrev refuses : Request → Response
refuses req = refusal

abbrev last_get : Request
last_get = record {
  method = codes "GET";
  uri = codes "/";
  path = codes "/";
  query = none;
  version = codes "HTTP/1.1";
  headers = (codes "Connection", codes "close") ∷ [];
  body = [];
}

abbrev wide : RequestLimits
wide = record limits { max_header_size = 128 }
