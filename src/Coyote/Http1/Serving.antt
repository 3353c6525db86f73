-- ===== src/Coyote/Http1/Serving.antt =====
-- crates/tomcatrs-coyote/src/http1.rs: the bytes of a response. The write and the flush that
-- follow are of the stream.
use michael.Prelude.{
  ◌≤◌, Bool, true, false, [], ◌∷◌, ◌++◌, none, some, ◌≡◌, refl, sym, ap, ◌∙◌, append-nil, arith,
  if◌then◌else◌, ◌==◌, length,
}
use michael.Prelude.Bits.{usize_max}
use michael.Prelude.Text.{Bytes, codes, is_some, str_eq, lower}
use michael.Coyote.Http1.Reading.{Request}
use michael.Coyote.Http1.Decimal.{decimal_text, parse_usize-decimal_text}
use michael.Coyote.Http1.{Status, parse_usize, Headers, is_header, find_header, wants_keep_alive}

pub record Response : Type 0 where
  pub status : Status
  pub headers : Headers
  pub body : Bytes

unfoldable pub reason_phrase : Status → Bytes
reason_phrase status =
    if status == 200
    then codes "OK"
    else if status == 201
    then codes "Created"
    else if status == 204
    then codes "No Content"
    else if status == 301
    then codes "Moved Permanently"
    else if status == 302
    then codes "Found"
    else if status == 304
    then codes "Not Modified"
    else if status == 400
    then codes "Bad Request"
    else if status == 401
    then codes "Unauthorized"
    else if status == 403
    then codes "Forbidden"
    else if status == 404
    then codes "Not Found"
    else if status == 405
    then codes "Method Not Allowed"
    else if status == 408
    then codes "Request Timeout"
    else if status == 411
    then codes "Length Required"
    else if status == 413
    then codes "Payload Too Large"
    else if status == 414
    then codes "URI Too Long"
    else if status == 431
    then codes "Request Header Fields Too Large"
    else if status == 500
    then codes "Internal Server Error"
    else if status == 501
    then codes "Not Implemented"
    else if status == 505
    then codes "HTTP Version Not Supported"
    else codes "Status"

-- A header that is added where the response has none of the name.
abbrev pub has_header : Bytes → Headers → Bool
has_header name headers = is_some (find_header name headers)

abbrev pub unless_there : Bytes → Bytes → Bytes → Headers → Headers
unless_there name written value headers =
    if has_header name headers then [] else (written, value) ∷ []

abbrev pub connection_value : Bool → Bytes
connection_value true = codes "keep-alive"
connection_value false = codes "close"

abbrev pub server_info : Bytes
server_info = codes "Tomcat-RS Compatibility Runtime"

-- The headers as they are written.
unfoldable pub response_headers : Response → Bool → Headers
response_headers resp keep_alive =
    resp.headers
    ++ (unless_there (codes "content-length") (codes "Content-Length")
          (decimal_text (length resp.body)) resp.headers
        ++ (unless_there (codes "server") (codes "Server") server_info resp.headers
            ++ unless_there (codes "connection") (codes "Connection") (connection_value keep_alive)
                resp.headers))

unfoldable pub header_lines : Headers → Bytes
header_lines [] = []
header_lines ((name, value) ∷ headers) =
    name ++ codes ": " ++ value ++ codes "\r\n" ++ header_lines headers

unfoldable pub response_bytes : Response → Bool → Bytes
response_bytes resp keep_alive =
    codes "HTTP/1.1 "
    ++ decimal_text resp.status
    ++ codes " "
    ++ reason_phrase resp.status
    ++ codes "\r\n"
    ++ header_lines (response_headers resp keep_alive)
    ++ codes "\r\n"
    ++ resp.body

-- The answer to a request, as `serve_connection` gives it: the bytes that are written, and whether
-- the loop goes on with the next request. The adapter is `service`.
unfoldable pub serve_request : (Request → Response) → Request → Bytes × Bool
serve_request service req =
    let keep_alive = wants_keep_alive req.version req.headers in
    (response_bytes (service req) keep_alive, keep_alive)

find_header-append :
    (name : Bytes) (xs ys : Headers)
    → find_header name xs ≡ none
    → find_header name (xs ++ ys) ≡ find_header name ys
unfolding find_header
find_header-append name [] ys h = refl
find_header-append name ((k, v) ∷ xs) ys h = ground (arith, find_header-append name xs ys)

find_header-has :
    (name : Bytes) (xs ys : Headers)
    → has_header name xs ≡ true
    → find_header name (xs ++ ys) ≡ find_header name xs
unfolding find_header
find_header-has name [] ys h = cc
find_header-has name ((k, v) ∷ xs) ys h = ground (arith, find_header-has name xs ys)

find_header-unless_there :
    (name other written value : Bytes) (headers rest : Headers)
    → is_header name written ≡ false
    → find_header name (unless_there other written value headers ++ rest) ≡ find_header name rest
unfolding find_header
find_header-unless_there name other written value headers rest h = ground arith

find_header-added :
    (name written value : Bytes) (headers rest : Headers)
    → is_header name written ≡ true
    → find_header name headers ≡ none
    → find_header name (unless_there name written value headers ++ rest) ≡ some value
unfolding find_header
find_header-added name written value headers rest s h = ground arith

-- The names of the added headers differ, whatever their case.
names_apart :
    (is_header (codes "connection") (codes "Content-Length") ≡ false)
    × (is_header (codes "connection") (codes "Server") ≡ false)
    × (is_header (codes "connection") (codes "Connection") ≡ true)
    × (is_header (codes "content-length") (codes "Content-Length") ≡ true)
unfolding str_eq lower
names_apart = (refl, refl, refl, refl)

find_connection :
    (resp : Response) (keep_alive : Bool)
    → find_header (codes "connection") resp.headers ≡ none
    → find_header (codes "connection") (response_headers resp keep_alive)
      ≡ some (connection_value keep_alive)
unfolding response_headers
find_connection resp keep_alive h =
    let length_text = decimal_text (length resp.body) in
    let last =
      unless_there (codes "connection") (codes "Connection") (connection_value keep_alive)
        resp.headers in
    let server = unless_there (codes "server") (codes "Server") server_info resp.headers in
    find_header-append (codes "connection") resp.headers _ h
    ∙ find_header-unless_there (codes "connection") (codes "content-length")
        (codes "Content-Length") length_text resp.headers (server ++ last) names_apart.0
    ∙ find_header-unless_there (codes "connection") (codes "server") (codes "Server") server_info
        resp.headers last names_apart.1
    ∙ ap (find_header (codes "connection")) (sym (append-nil last))
    ∙ find_header-added (codes "connection") (codes "Connection") (connection_value keep_alive)
        resp.headers [] names_apart.2 h

agree :
    (headers : Headers) (keep_alive : Bool)
    → find_header (codes "connection") headers ≡ some (connection_value keep_alive)
    → wants_keep_alive (codes "HTTP/1.1") headers ≡ keep_alive
unfolding wants_keep_alive str_eq lower
agree headers true h = rw h refl
agree headers false h = rw h refl

-- What is found in the list of headers, before it is written.
pub response_headers-agree :
    (resp : Response) (keep_alive : Bool)
    → find_header (codes "connection") resp.headers ≡ none
    → find_header (codes "content-length") resp.headers ≡ none
    → length resp.body ≤ usize_max
    → (wants_keep_alive (codes "HTTP/1.1") (response_headers resp keep_alive) ≡ keep_alive)
      × (find_header (codes "content-length") (response_headers resp keep_alive)
          ≡ some (decimal_text (length resp.body)))
      × (parse_usize (decimal_text (length resp.body)) ≡ some (length resp.body))
unfolding response_headers
response_headers-agree resp keep_alive h l fits = (
  agree (response_headers resp keep_alive) keep_alive (find_connection resp keep_alive h),
  find_header-append (codes "content-length") resp.headers _ l
      ∙ find_header-added (codes "content-length") (codes "Content-Length")
          (decimal_text (length resp.body)) resp.headers _ names_apart.3 l,
  parse_usize-decimal_text (length resp.body) fits,
)
