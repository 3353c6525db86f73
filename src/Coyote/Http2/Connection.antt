-- ===== src/Coyote/Http2/Connection.antt =====
-- crates/tomcatrs-coyote/src/http2_conn.rs: the state of a connection, and what it does with a frame.
-- The map of the streams is the list of its values in the order of iteration, each under its `id`.
-- An `i64` that the code keeps at zero or more is a natural number. A request that is handed to a
-- task of the adapter is added to `serviced`, and the task's response arrives later.
use michael.Prelude.{
  ℕ, ◌+◌, ◌-◌, ◌*◌, Bool, true, false, not, List, [], ◌∷◌, ◌++◌, Option, none, some, Result, ok,
  err, ltb, ◌==◌, if◌then◌else◌, length, retain,
}
use michael.Prelude.Int.{ℤ, pos, ◌+ℤ◌, ltb_ℤ}
use michael.Prelude.Text.{Bytes}
use michael.Coyote.Hpack.Decoder.{HpackDecoder}
use michael.Coyote.Hpack.Decoder.Failing.{decode_mut}
use michael.Coyote.Hpack.Encoder.{HpackEncoder}
use michael.Coyote.Http1.{Headers}
use michael.Coyote.Http1.Reading.{Request}
use michael.Coyote.Http2.Request.{build_request}
use michael.Coyote.Http2.Settings.{
  Http2Settings, Http2Error, connection_error, stream_error, on_stream, StreamState, idle, closed,
  is_closed, on_recv_headers, max_window, protocol_error_code, flow_control_error_code,
  compression_error_code,
}

abbrev pub header_block_hard_cap : ℕ
header_block_hard_cap = 1024 * 1024

pub record Stream : Type 0 where
  pub id : ℕ
  pub state : StreamState
  pub recv_window : ℕ
  pub send_window : ℤ
  pub header_block : Bytes
  pub awaiting_continuation : Bool
  pub headers_end_stream : Bool
  pub headers : Headers
  pub headers_decoded : Bool
  pub body : Bytes
  pub dispatched : Bool

-- `Stream::new`
abbrev pub new_stream : ℕ → ℕ → ℕ → Stream
new_stream id local_initial_window peer_initial_window = record {
  id = id;
  state = idle;
  recv_window = local_initial_window;
  send_window = pos peer_initial_window;
  header_block = [];
  awaiting_continuation = false;
  headers_end_stream = false;
  headers = [];
  headers_decoded = false;
  body = [];
  dispatched = false;
}

pub record Connection (S : Type 0) : Type 0 where
  pub io : S
  pub local_settings : Http2Settings
  pub peer_settings : Http2Settings
  pub peer_acked_settings : Bool
  pub conn_recv_window : ℕ
  pub conn_send_window : ℕ
  pub streams : List Stream
  pub last_stream_id : ℕ
  pub open_stream_count : ℕ
  pub hpack_decoder : HpackDecoder
  pub hpack_encoder : HpackEncoder
  pub inbuf : Bytes
  pub going_away : Bool
  pub serviced : List (ℕ × Request)

-- A method leaves a connection, also where it fails.
abbrev pub Run : Type 0 → Type 0 → Type 0
Run S A = Connection S → Connection S × Result Http2Error A

abbrev pub and_then :
    {S A B : Type 0}
    → Connection S × Result Http2Error A
    → (A → Run S B)
    → Connection S × Result Http2Error B
and_then (c, ok a) f = f a c
and_then (c, err e) f = (c, err e)

infixl 5 ◌>>=◌ ◌>>◌
abbrev pub ◌>>=◌ : {S A B : Type 0} → Run S A → (A → Run S B) → Run S B
◌>>=◌ m f c = and_then (m c) f

abbrev pub ◌>>◌ : {S B : Type 0} → Run S (Unit {0}) → Run S B → Run S B
m >> k = m >>= λ _. k

abbrev pub done : {S : Type 0} → Run S (Unit {0})
done c = (c, ok tt)

abbrev pub fail : {S A : Type 0} → Http2Error → Run S A
fail e c = (c, err e)

abbrev pub modify : {S : Type 0} → (Connection S → Connection S) → Run S (Unit {0})
modify f c = (f c, ok tt)

-- The look-up, the removal and the change of a stream of the map.
unfoldable pub find_stream : ℕ → List Stream → Option Stream
find_stream id [] = none
find_stream id (s ∷ streams) =
    let rest = find_stream id streams in if s.id == id then some s else rest

unfoldable pub put_stream : Stream → List Stream → List Stream
put_stream new [] = []
put_stream new (s ∷ streams) = (if s.id == new.id then new else s) ∷ put_stream new streams

abbrev pub with_stream : {S : Type 0} → Stream → Connection S → Connection S
with_stream stream c = record c { streams = put_stream stream c.streams }

unfoldable pub awaiting : List Stream → Option ℕ
awaiting [] = none
awaiting (s ∷ streams) =
    let rest = awaiting streams in if s.awaiting_continuation then some s.id else rest

abbrev pub continuation_expected_on : {S : Type 0} → Connection S → Option ℕ
continuation_expected_on c = awaiting c.streams

abbrev pub is_live : Stream → Bool
is_live s = not (is_closed s.state)

unfoldable pub retire_closed_streams : {S : Type 0} → Connection S → Connection S
retire_closed_streams c =
    let kept = retain is_live c.streams in
    record c {
      streams = kept;
      open_stream_count = c.open_stream_count - (length c.streams - length kept);
    }

-- The loop of `on_settings` over the streams, which ends at the first overflow.
unfoldable pub shift_windows : ℤ → List Stream → List Stream × Bool
shift_windows delta [] = ([], true)
shift_windows delta (s ∷ streams) =
    let s' = record s { send_window = s.send_window +ℤ delta } in
    let (streams', fits) = shift_windows delta streams in
    if ltb_ℤ (pos max_window) s'.send_window then (s' ∷ streams, false) else (s' ∷ streams', fits)

unfoldable pub on_window_update : {S : Type 0} → ℕ → ℕ → Run S (Unit {0})
on_window_update stream_id increment c =
    if increment == 0
    then if stream_id == 0
      then (c, err (connection_error protocol_error_code))
      else (c, err (on_stream (stream_error protocol_error_code) stream_id))
    else if stream_id == 0
    then (
      record c { conn_send_window = c.conn_send_window + increment },
      if ltb max_window (c.conn_send_window + increment)
          then err (connection_error flow_control_error_code)
          else ok tt,
    )
    else elim (find_stream stream_id c.streams) [
      | none ↦ (c, ok tt)
      | some stream ↦
          let window = stream.send_window +ℤ pos increment in
          (
            with_stream (record stream { send_window = window }) c,
            if ltb_ℤ (pos max_window) window
                then err (on_stream (stream_error flow_control_error_code) stream_id)
                else ok tt,
          )
    ]

unfoldable pub on_rst_stream : {S : Type 0} → ℕ → Run S (Unit {0})
on_rst_stream stream_id c =
    if stream_id == 0
    then (c, err (connection_error protocol_error_code))
    else elim (find_stream stream_id c.streams) [
      | none ↦ (c, ok tt)
      | some stream ↦
          (retire_closed_streams (with_stream (record stream { state = closed }) c), ok tt)
    ]

-- `try_dispatch`, on a stream that the callers have looked up.
unfoldable pub try_dispatch : {S : Type 0} → Stream → Run S (Unit {0})
try_dispatch stream c =
    if stream.dispatched
    then (c, ok tt)
    else (let c' = with_stream (record stream { dispatched = true; body = [] }) c in
        elim (build_request stream.headers stream.body) [
          | ok request ↦
              (record c' { serviced = c'.serviced ++ ((stream.id, request) ∷ []) }, ok tt)
          | err e ↦ (c', err (on_stream e stream.id))
        ])

-- The decoded headers of a stream: those of the request, or trailers behind them.
abbrev pub with_headers : Stream → Headers → Stream
with_headers stream decoded =
    if stream.headers_decoded
    then record stream { headers = stream.headers ++ decoded }
    else record stream { headers = decoded; headers_decoded = true }

unfoldable pub finish_header_block : {S : Type 0} → Stream → Run S (Unit {0})
finish_header_block stream c =
    let taken = record stream { header_block = [] } in
    let (decoder, decoded) = decode_mut c.hpack_decoder stream.header_block in
    let c' = with_stream taken (record c { hpack_decoder = decoder }) in
    elim decoded [
      | err e ↦ (c', err (connection_error compression_error_code))
      | ok headers ↦
          let read = with_headers taken headers in
          if stream.headers_end_stream
          then try_dispatch read (with_stream read c')
          else (with_stream read c', ok tt)
    ]

-- `on_headers` behind the checks of a new stream.
unfoldable pub receive_headers : {S : Type 0} → Stream → Bytes → Bool → Bool → Run S (Unit {0})
receive_headers stream block end_stream end_headers c =
    elim (on_recv_headers stream.state end_stream) [
      | err e ↦ (c, err (on_stream e stream.id))
      | ok state ↦
          let stream' = record stream {
            state = state;
            headers_end_stream = end_stream;
            header_block = stream.header_block ++ block;
            awaiting_continuation = not end_headers;
          } in
          let c' = with_stream stream' c in
          if ltb header_block_hard_cap (length stream'.header_block)
          then (c', err (connection_error protocol_error_code))
          else if end_headers
          then finish_header_block stream' c'
          else (c', ok tt)
    ]

unfoldable pub on_continuation : {S : Type 0} → ℕ → Bytes → Bool → Run S (Unit {0})
on_continuation stream_id block end_headers c = elim (find_stream stream_id c.streams) [
  | none ↦ (c, err (connection_error protocol_error_code))
  | some stream ↦
      if not stream.awaiting_continuation
      then (c, err (connection_error protocol_error_code))
      else (let stream' = record stream { header_block = stream.header_block ++ block } in
          let last = record stream' { awaiting_continuation = false } in
          if ltb header_block_hard_cap (length stream'.header_block)
          then (with_stream stream' c, err (connection_error protocol_error_code))
          else if end_headers
          then finish_header_block last (with_stream last c)
          else (with_stream stream' c, ok tt))
]
