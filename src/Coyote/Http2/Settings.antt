-- ===== src/Coyote/Http2/Settings.antt =====
-- crates/tomcatrs-coyote/src/http2_conn.rs: the settings of an endpoint, the states of a stream, and
-- the errors. The text of an error is left out.
use michael.Prelude.{
  ℕ, ◌^◌, ◌-◌, Bool, true, false, List, [], ◌∷◌, Option, none, some, Result, ok, err, ltb, leb,
  ◌==◌, ◌&&◌, if◌then◌else◌,
}

-- The modules `error_codes` and `settings` of http2.rs.
abbrev pub protocol_error_code : ℕ
protocol_error_code = 0x1

abbrev pub internal_error_code : ℕ
internal_error_code = 0x2

abbrev pub flow_control_error_code : ℕ
flow_control_error_code = 0x3

abbrev pub stream_closed_code : ℕ
stream_closed_code = 0x5

abbrev pub frame_size_error_code : ℕ
frame_size_error_code = 0x6

abbrev pub refused_stream_code : ℕ
refused_stream_code = 0x7

abbrev pub compression_error_code : ℕ
compression_error_code = 0x9

abbrev pub max_window : ℕ
max_window = 0x7fffffff

-- A `stream_only` names the stream of a stream error, or 0 until it is known. The text `detail` is
-- not a field: where it is sent, it is an argument.
pub record Http2Error : Type 0 where
  pub code : ℕ
  pub stream_only : Option ℕ

abbrev pub connection_error : ℕ → Http2Error
connection_error code = record { code = code; stream_only = none }

abbrev pub stream_error : ℕ → Http2Error
stream_error code = record { code = code; stream_only = some 0 }

abbrev named : Option ℕ → ℕ → Option ℕ
named none id = none
named (some other) id = some id

abbrev pub on_stream : Http2Error → ℕ → Http2Error
on_stream e id = record e { stream_only = named e.stream_only id }

pub record Http2Settings : Type 0 where
  pub header_table_size : ℕ
  pub max_concurrent_streams : ℕ
  pub initial_window_size : ℕ
  pub max_frame_size : ℕ
  pub max_header_list_size : ℕ

abbrev pub default_settings : Http2Settings
default_settings = record {
  header_table_size = 4096;
  max_concurrent_streams = 128;
  initial_window_size = 65535;
  max_frame_size = 16384;
  max_header_list_size = 2 ^ 32 - 1;
}

unfoldable pub as_params : Http2Settings → List (ℕ × ℕ)
as_params s =
    (0x1, s.header_table_size)
    ∷ (0x3, s.max_concurrent_streams)
    ∷ (0x4, s.initial_window_size)
    ∷ (0x5, s.max_frame_size)
    ∷ (0x6, s.max_header_list_size)
    ∷ []

-- `Http2Settings::apply`; an error leaves the settings alone.
unfoldable pub apply : Http2Settings → ℕ → ℕ → Result Http2Error Http2Settings
apply s id value =
    if id == 0x1
    then ok (record s { header_table_size = value })
    else if (id == 0x2) && ltb 1 value
    then err (connection_error protocol_error_code)
    else if id == 0x3
    then ok (record s { max_concurrent_streams = value })
    else if id == 0x4
    then if ltb max_window value
      then err (connection_error flow_control_error_code)
      else ok (record s { initial_window_size = value })
    else if id == 0x5
    then if leb 16384 value && leb value 16777215
      then ok (record s { max_frame_size = value })
      else err (connection_error protocol_error_code)
    else if id == 0x6
    then ok (record s { max_header_list_size = value })
    else ok s

-- The loop of `on_settings`: what was applied before an error stays.
unfoldable pub apply_all :
    Http2Settings → List (ℕ × ℕ) → Http2Settings × Result Http2Error (Unit {0})
apply_all s [] = (s, ok tt)
apply_all s ((id, value) ∷ params) = elim (apply s id value) [
  | ok s' ↦ apply_all s' params
  | err e ↦ (s, err e)
]

pub data StreamState : Type 0 where
  idle opened half_closed_local half_closed_remote closed : StreamState

unfoldable pub on_recv_headers : StreamState → Bool → Result Http2Error StreamState
on_recv_headers idle end_stream = ok (if end_stream then half_closed_remote else opened)
on_recv_headers opened true = ok half_closed_remote
on_recv_headers opened false = err (connection_error stream_closed_code)
on_recv_headers half_closed_local end_stream = err (connection_error stream_closed_code)
on_recv_headers half_closed_remote end_stream = err (connection_error stream_closed_code)
on_recv_headers closed end_stream = err (connection_error stream_closed_code)

unfoldable pub on_recv_data : StreamState → Bool → Result Http2Error StreamState
on_recv_data opened end_stream = ok (if end_stream then half_closed_remote else opened)
on_recv_data half_closed_local end_stream = ok (if end_stream then closed else half_closed_local)
on_recv_data idle end_stream = err (stream_error stream_closed_code)
on_recv_data half_closed_remote end_stream = err (stream_error stream_closed_code)
on_recv_data closed end_stream = err (stream_error stream_closed_code)

unfoldable pub on_send_end_stream : StreamState → StreamState
on_send_end_stream opened = half_closed_local
on_send_end_stream half_closed_remote = closed
on_send_end_stream idle = idle
on_send_end_stream half_closed_local = half_closed_local
on_send_end_stream closed = closed

abbrev pub is_closed : StreamState → Bool
is_closed closed = true
is_closed idle = false
is_closed opened = false
is_closed half_closed_local = false
is_closed half_closed_remote = false
