-- ===== src/Coyote/Http2/Request.antt =====
-- crates/tomcatrs-coyote/src/http2_conn.rs: `build_request`. The peer's address is left out.
pub mod Pseudo
pub mod Sound
use michael.Prelude.{
  ℕ, Bool, true, false, not, ◌&&◌, ◌||◌, List, [], ◌∷◌, ◌++◌, Option, none, some, Result, ok, err,
  ◌>>=◌, ◌>>◌, guard, ok_or, if◌then◌else◌, ◌==◌, any, is_empty,
}
use michael.Prelude.Text.{Bytes, codes, within, str_eq, is_some, strip_prefix}
use michael.Coyote.Normalize.{normalize_target}
use michael.Coyote.Http1.{Headers}
use michael.Coyote.Http1.Reading.{Request}
use michael.Coyote.Http2.Settings.{Http2Error, stream_error, protocol_error_code}

-- The variables of the loop over the decoded fields.
pub record Fields : Type 0 where
  pub method : Option Bytes
  pub path : Option Bytes
  pub scheme : Option Bytes
  pub authority : Option Bytes
  pub headers : Headers
  pub seen_regular : Bool

abbrev pub no_fields : Fields
no_fields = record {
  method = none;
  path = none;
  scheme = none;
  authority = none;
  headers = [];
  seen_regular = false;
}

abbrev pub malformed : Http2Error
malformed = stream_error protocol_error_code

abbrev pub is_ascii_uppercase : ℕ → Bool
is_ascii_uppercase b = within b'A' b'Z' b

unfoldable pub is_connection_specific : Bytes → Bool
is_connection_specific name =
    str_eq name (codes "connection")
    || (str_eq name (codes "keep-alive")
        || (str_eq name (codes "proxy-connection")
            || (str_eq name (codes "transfer-encoding") || str_eq name (codes "upgrade"))))

unfoldable pub set_pseudo : Fields → Bytes → Bytes → Result Http2Error Fields
set_pseudo f pseudo value =
    if str_eq pseudo (codes "method")
    then ok (record f { method = some value })
    else if str_eq pseudo (codes "path")
    then ok (record f { path = some value })
    else if str_eq pseudo (codes "scheme")
    then ok (record f { scheme = some value })
    else if str_eq pseudo (codes "authority")
    then ok (record f { authority = some value })
    else err malformed

-- One field: a pseudo-header, or a header.
unfoldable pub add_field : Fields → Bytes → Bytes → Result Http2Error Fields
add_field f name value = elim (strip_prefix name (codes ":")) [
  | some pseudo ↦ if f.seen_regular then err malformed else set_pseudo f pseudo value
  | none ↦
      if any is_ascii_uppercase name
      then err malformed
      else if is_connection_specific name
      then err malformed
      else ok (record f { headers = f.headers ++ ((name, value) ∷ []); seen_regular = true })
]

unfoldable pub add_fields : Fields → Headers → Result Http2Error Fields
add_fields f [] = ok f
add_fields f ((name, value) ∷ decoded) = add_field f name value >>= λ f'. add_fields f' decoded

abbrev pub is_host : Bytes × Bytes → Bool
is_host (name, value) = str_eq name (codes "host")

-- `:authority` as a header, where there is no host.
unfoldable pub add_host : Option Bytes → Headers → Headers
add_host none headers = headers
add_host (some auth) headers =
    if any is_host headers then headers else (codes "host", auth) ∷ headers

unfoldable pub build_request : Headers → Bytes → Result Http2Error Request
build_request decoded body = do
  f ← add_fields no_fields decoded
  method ← ok_or f.method malformed
  raw_path ← ok_or f.path malformed
  guard (not (is_empty raw_path)) malformed
  normalized ← elim (normalize_target raw_path) [ ok n ↦ ok n | err e ↦ err malformed ]
  ok (record {
    method = method;
    uri = raw_path;
    path = normalized.path;
    query = normalized.query;
    version = codes "HTTP/2.0";
    headers = add_host f.authority f.headers;
    body = body;
  })
