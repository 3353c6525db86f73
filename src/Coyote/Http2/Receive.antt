-- ===== src/Coyote/Http2/Receive.antt =====
-- crates/tomcatrs-coyote/src/http2_conn.rs: the handlers that answer on the stream, the dispatch of
-- frames, and the errors.
use michael.Prelude.{
  ℕ, zero, suc, ◌+◌, ◌-◌, ◌%◌, Bool, true, false, not, ◌||◌, List, [], ◌∷◌, ◌++◌, Option, none,
  some, Result, ok, err, ltb, leb, ◌==◌, if◌then◌else◌, length, is_empty, drop,
}
use michael.Prelude.Int.{sub_ℕ}
use michael.Prelude.Streams.{AsyncStream}
use michael.Prelude.Text.{Bytes}
use michael.Coyote.Http2.{Frame, parse}
use michael.Coyote.Http2.Encode.{encode}
use michael.Coyote.Http2.Settings.{
  Http2Error, connection_error, stream_error, on_stream, apply_all, closed, on_recv_data,
  protocol_error_code, internal_error_code, flow_control_error_code, stream_closed_code,
  frame_size_error_code, refused_stream_code,
}
use michael.Coyote.Http2.Connection.{
  Connection, Stream, Run, ◌>>◌, done, modify, new_stream, find_stream, with_stream,
  continuation_expected_on, retire_closed_streams, shift_windows, on_window_update, on_rst_stream,
  try_dispatch, receive_headers, on_continuation,
}

-- `map_err(|e| e.on_stream(stream_id))`
abbrev pub name_error : ℕ → Result Http2Error (Unit {0}) → Result Http2Error (Unit {0})
name_error stream_id (ok u) = ok u
name_error stream_id (err e) = err (on_stream e stream_id)

abbrev pub named_on : {S : Type 0} → ℕ → Run S (Unit {0}) → Run S (Unit {0})
named_on stream_id m c = let (c', r) = m c in (c', name_error stream_id r)

-- The stream of a stream error is closed.
abbrev pub close_stream : {S : Type 0} → ℕ → Connection S → Connection S
close_stream stream_id c = elim (find_stream stream_id c.streams) [
  | none ↦ retire_closed_streams c
  | some stream ↦ retire_closed_streams (with_stream (record stream { state = closed }) c)
]

module _ {S : Type 0} (io : AsyncStream S) where
  -- Whether the bytes of the frame could be written.
  unfoldable pub send_frame : Frame → Connection S → Connection S × Bool
  send_frame frame c =
      let (s, written) = io.write_all c.io (encode frame) in (record c { io = s }, written)

  -- `send_frame(..).await.map_err(io_to_h2)?`
  unfoldable pub send : Frame → Run S (Unit {0})
  send frame c =
      let (c', written) = send_frame frame c in
      (c', if written then ok tt else err (connection_error internal_error_code))

  -- The parameters have been applied: the windows move by the change, and the peer is told.
  unfoldable pub settle : ℕ → Run S (Unit {0})
  settle old_initial c =
      let new_initial = c.peer_settings.initial_window_size in
      let (streams, fits) = shift_windows (sub_ℕ new_initial old_initial) c.streams in
      let ack = Frame.settings true [] in
      if new_initial == old_initial
      then send ack c
      else if fits
      then send ack (record c { streams = streams })
      else (record c { streams = streams }, err (connection_error flow_control_error_code))

  unfoldable pub on_settings : Bool → List (ℕ × ℕ) → Run S (Unit {0})
  on_settings true params c =
      if not (is_empty params)
      then (c, err (connection_error frame_size_error_code))
      else (record c { peer_acked_settings = true }, ok tt)
  on_settings false params c =
      let (peer, applied) = apply_all c.peer_settings params in
      let c' = record c { peer_settings = peer } in
      elim applied [ err e ↦ (c', err e) | ok u ↦ settle c.peer_settings.initial_window_size c' ]

  unfoldable pub on_ping : Bool → Bytes → Run S (Unit {0})
  on_ping ack payload = if ack then done else send (Frame.ping true payload)

  -- A new stream, where there is room for it.
  unfoldable pub admit : ℕ → Bytes → Bool → Bool → Run S (Unit {0})
  admit stream_id block end_stream end_headers c =
      let stream =
        new_stream stream_id c.local_settings.initial_window_size
          c.peer_settings.initial_window_size in
      if leb c.local_settings.max_concurrent_streams c.open_stream_count
      then send (Frame.rst_stream stream_id refused_stream_code) c
      else receive_headers stream block end_stream end_headers
          (record c { streams = stream ∷ c.streams; open_stream_count = c.open_stream_count + 1 })

  unfoldable pub on_headers : ℕ → Bytes → Bool → Bool → Run S (Unit {0})
  on_headers stream_id block end_stream end_headers c =
      if (stream_id == 0) || (stream_id % 2 == 0)
      then (c, err (connection_error protocol_error_code))
      else elim (find_stream stream_id c.streams) [
        | some stream ↦ receive_headers stream block end_stream end_headers c
        | none ↦
            if leb stream_id c.last_stream_id
            then (c, err (connection_error protocol_error_code))
            else admit stream_id block end_stream end_headers
                (record c { last_stream_id = stream_id })
      ]

  -- Both windows are given back, since the bytes are consumed at once.
  unfoldable pub replenish : Stream → ℕ → Run S (Unit {0})
  replenish stream len =
      if ltb 0 len
      then (do
        modify (λ c. record c { conn_recv_window = c.conn_recv_window + len })
        send (Frame.window_update 0 len)
        modify (with_stream stream)
        send (Frame.window_update stream.id len))
      else done

  -- The bytes of a stream that may receive them.
  unfoldable pub receive_data : Stream → Bytes → Bool → Run S (Unit {0})
  receive_data stream content end_stream c =
      let len = length content in
      let spent = record stream { recv_window = stream.recv_window - len } in
      elim (on_recv_data stream.state end_stream) [
        | err e ↦ (with_stream spent c, err e)
        | ok state ↦
            let taken = record spent { state = state; body = stream.body ++ content } in
            let given = record taken { recv_window = taken.recv_window + len } in
            (do
              modify (with_stream taken)
              replenish given len
              if end_stream then try_dispatch given else done)
              c
      ]

  unfoldable pub on_data : ℕ → Bytes → Bool → Run S (Unit {0})
  on_data stream_id content end_stream c =
      let len = length content in
      let c' = record c { conn_recv_window = c.conn_recv_window - len } in
      if stream_id == 0
      then (c, err (connection_error protocol_error_code))
      else if ltb c.conn_recv_window len
      then (c, err (connection_error flow_control_error_code))
      else elim (find_stream stream_id c.streams) [
        | none ↦ (c', err (stream_error stream_closed_code))
        | some stream ↦
            if ltb stream.recv_window len
            then (c', err (stream_error flow_control_error_code))
            else receive_data stream content end_stream c'
      ]

  unfoldable pub handle_frame : Frame → Run S (Unit {0})
  handle_frame (Frame.settings ack params) = on_settings ack params
  handle_frame (Frame.ping ack payload) = on_ping ack payload
  handle_frame (Frame.window_update stream_id increment) = on_window_update stream_id increment
  handle_frame (Frame.headers stream_id block end_stream end_headers dependency) =
      on_headers stream_id block end_stream end_headers
  handle_frame (Frame.continuation stream_id block end_headers) =
      on_continuation stream_id block end_headers
  handle_frame (Frame.data_frame stream_id content end_stream) =
      named_on stream_id (on_data stream_id content end_stream)
  handle_frame (Frame.rst_stream stream_id error_code) = on_rst_stream stream_id
  handle_frame (Frame.priority stream_id dependency) = done
  handle_frame (Frame.go_away last_stream_id error_code debug) =
      modify (λ c. record c { going_away = true })

  -- Whether a frame may come while a header block of a stream is open.
  unfoldable pub continues : ℕ → Frame → Bool
  continues sid (Frame.continuation stream_id block end_headers) = stream_id == sid
  continues sid (Frame.data_frame stream_id content end_stream) = false
  continues sid (Frame.headers stream_id block end_stream end_headers dependency) = false
  continues sid (Frame.priority stream_id dependency) = false
  continues sid (Frame.rst_stream stream_id error_code) = false
  continues sid (Frame.settings ack params) = false
  continues sid (Frame.ping ack payload) = false
  continues sid (Frame.go_away last_stream_id error_code debug) = false
  continues sid (Frame.window_update stream_id increment) = false

  abbrev pub is_expected : Option ℕ → Frame → Bool
  is_expected none frame = true
  is_expected (some sid) frame = continues sid frame

  unfoldable pub dispatch_frame : Frame → Run S (Unit {0})
  dispatch_frame frame c =
      if is_expected (continuation_expected_on c) frame
      then handle_frame frame c
      else (c, err (connection_error protocol_error_code))

  -- The loop of `process_buffered_frames`, on fuel: a frame takes nine bytes of the buffer.
  unfoldable pub process_frames : ℕ → Run S (Unit {0})
  process_frames zero c = (c, ok tt)
  process_frames (suc fuel) c = elim (parse c.inbuf c.local_settings.max_frame_size) [
    | err e ↦ (c, err (connection_error protocol_error_code))
    | ok none ↦ (c, ok tt)
    | ok (some (frame, consumed)) ↦
        (dispatch_frame frame >> process_frames fuel) (record c { inbuf = drop consumed c.inbuf })
  ]

  unfoldable pub process_buffered_frames : Run S (Unit {0})
  process_buffered_frames c = process_frames (length c.inbuf) c

  -- Whether the answer could be written. The text of the error, `e.detail`, is an argument.
  abbrev pub go_away : ℕ → Bytes → Connection S → Connection S × Bool
  go_away code detail c =
      let (c', sent) = send_frame (Frame.go_away c.last_stream_id code detail) c in
      (if sent then record c' { going_away = true } else c', sent)

  abbrev pub reset : ℕ → ℕ → Connection S → Connection S × Bool
  reset stream_id code c =
      let (c', sent) = send_frame (Frame.rst_stream stream_id code) c in
      (if sent then close_stream stream_id c' else c', sent)

  unfoldable pub handle_protocol_error : Http2Error → Bytes → Connection S → Connection S × Bool
  handle_protocol_error e detail c = elim e.stream_only [
    | none ↦ go_away e.code detail c
    | some zero ↦ go_away e.code detail c
    | some (suc n) ↦ reset (suc n) e.code c
  ]
