-- ===== src/Coyote/Http2/Send.antt =====
-- crates/tomcatrs-coyote/src/http2_conn.rs: the writing of responses under flow control, and the
-- rounds of the connection's loop.
use michael.Prelude.{
  ℕ, zero, suc, ◌-◌, Bool, true, false, not, ◌&&◌, [], ◌∷◌, ◌++◌, Option, none, some, Result, ok,
  err, ltb, ◌==◌, if◌then◌else◌, length, is_empty, take, drop, min,
}
use michael.Prelude.Int.{ℤ, pos, pos_part, ◌-ℤ◌}
use michael.Prelude.Streams.{AsyncStream}
use michael.Prelude.Text.{Bytes, codes, to_ascii_lowercase}
use michael.Coyote.Hpack.Encoder.{encode}
use michael.Coyote.Http1.{Headers}
use michael.Coyote.Http1.Decimal.{decimal_text}
use michael.Coyote.Http1.Serving.{Response}
use michael.Coyote.Http2.{Frame, parse}
use michael.Coyote.Http2.Request.{is_connection_specific}
use michael.Coyote.Http2.Settings.{Http2Error, on_send_end_stream}
use michael.Coyote.Http2.Connection.{
  Connection, Stream, find_stream, with_stream, retire_closed_streams,
}
use michael.Coyote.Http2.Receive.{
  send_frame, dispatch_frame, process_buffered_frames, handle_protocol_error,
}

-- The fields of a response, `:status` first.
unfoldable pub regular_fields : Headers → Headers
regular_fields [] = []
regular_fields ((name, value) ∷ headers) =
    let lowered = to_ascii_lowercase name in
    let rest = regular_fields headers in
    if is_connection_specific lowered then rest else (lowered, value) ∷ rest

abbrev pub response_fields : Response → Headers
response_fields response =
    (codes ":status", decimal_text response.status) ∷ regular_fields response.headers

-- The frames that are handled while a body waits for credit.
unfoldable pub is_flow_frame : Frame → Bool
is_flow_frame (Frame.window_update stream_id increment) = true
is_flow_frame (Frame.settings ack params) = true
is_flow_frame (Frame.ping ack payload) = true
is_flow_frame (Frame.rst_stream stream_id error_code) = true
is_flow_frame (Frame.data_frame stream_id content end_stream) = false
is_flow_frame (Frame.headers stream_id block end_stream end_headers dependency) = false
is_flow_frame (Frame.priority stream_id dependency) = false
is_flow_frame (Frame.go_away last_stream_id error_code debug) = false
is_flow_frame (Frame.continuation stream_id block end_headers) = false

-- `Ok(())`, an error of the stream, or a loop that the fuel has not brought to its end.
pub data Outcome : Type 0 where
  finished io_failed unfinished : Outcome

abbrev window_value : Option Stream → ℤ
window_value none = pos 0
window_value (some stream) = stream.send_window

-- `.map(|s| s.send_window).unwrap_or(0)`
abbrev pub stream_window : {S : Type 0} → ℕ → Connection S → ℤ
stream_window stream_id c = window_value (find_stream stream_id c.streams)

-- The bytes of a chunk are taken from both windows.
unfoldable pub spend : {S : Type 0} → ℕ → ℕ → Connection S → Connection S
spend stream_id budget c =
    let c' = record c { conn_send_window = c.conn_send_window - budget } in
    elim (find_stream stream_id c.streams) [
      | none ↦ c'
      | some stream ↦
          with_stream (record stream { send_window = stream.send_window -ℤ pos budget }) c'
    ]

-- How much of what is left may be sent now.
abbrev pub send_budget : {S : Type 0} → ℕ → Bytes → Connection S → ℕ
send_budget stream_id rest c =
    min
      (min (min (length rest) c.peer_settings.max_frame_size)
        (pos_part (stream_window stream_id c)))
      c.conn_send_window

abbrev pub has_credit : {S : Type 0} → ℕ → Connection S → Bool
has_credit stream_id c = ltb 0 (pos_part (stream_window stream_id c)) && ltb 0 c.conn_send_window

-- What follows a wait for credit.
abbrev pub after_wait :
    {S : Type 0}
    → (Connection S → Connection S × Outcome)
    → Connection S × Option Bool
    → Connection S × Outcome
after_wait again (c, none) = (c, io_failed)
after_wait again (c, some false) = (c, finished)
after_wait again (c, some true) = again c

abbrev pub after_chunk :
    {S : Type 0}
    → (Connection S → Connection S × Outcome)
    → Connection S × Bool
    → Connection S × Outcome
after_chunk more (c, true) = more c
after_chunk more (c, false) = (c, io_failed)

-- What becomes of a round of the loop of `run` that has no response to write: the loop ends, an
-- error of the stream ends it, it starts over, or it waits for bytes or a response.
pub data Turn : Type 0 where
  breaks breaks_with_error starts_over waits : Turn

module _ {S : Type 0} (io : AsyncStream S) where
  -- The loop of `read_more_for_flow_control`, on fuel: a frame takes nine bytes of the buffer.
  unfoldable pub flow_loop : ℕ → Connection S → Connection S
  flow_loop zero c = c
  flow_loop (suc fuel) c = elim (parse c.inbuf c.local_settings.max_frame_size) [
    | err e ↦ c
    | ok none ↦ c
    | ok (some (frame, consumed)) ↦ elim (is_flow_frame frame) [
      | false ↦ c
      | true ↦
          let (c', r) = dispatch_frame io frame (record c { inbuf = drop consumed c.inbuf }) in
          elim r [ ok u ↦ flow_loop fuel c' | err e ↦ c' ]
    ]
  ]

  -- Whether the peer is still there; no answer is an error of the stream.
  unfoldable pub read_more_for_flow_control : Connection S → Connection S × Option Bool
  read_more_for_flow_control c =
      let (s, arrived) = io.read_buf c.io in
      elim arrived [
        | none ↦ (record c { io = s }, none)
        | some [] ↦ (record c { io = s }, some false)
        | some (b ∷ more) ↦
            let inbuf = c.inbuf ++ (b ∷ more) in
            (flow_loop (length inbuf) (record c { io = s; inbuf = inbuf }), some true)
      ]

  -- One chunk of a body.
  unfoldable pub write_chunk : ℕ → ℕ → Bytes → Connection S → Connection S × Bool
  write_chunk stream_id budget body c =
      send_frame io (Frame.data_frame stream_id (take budget body) (is_empty (drop budget body)))
        (spend stream_id budget c)

  -- The loop of `write_body`, on what is left of the body.
  unfoldable pub write_body : ℕ → ℕ → Bytes → Connection S → Connection S × Outcome
  write_body fuel stream_id [] c = (c, finished)
  write_body zero stream_id (b ∷ rest) c = (c, unfinished)
  write_body (suc fuel) stream_id (b ∷ rest) c =
      let body = b ∷ rest in
      let budget = send_budget stream_id body c in
      let waited = after_wait (write_body fuel stream_id body) (read_more_for_flow_control c) in
      let written =
        after_chunk (write_body fuel stream_id (drop budget body))
          (write_chunk stream_id budget body c) in
      let again = write_body fuel stream_id body c in
      if not (has_credit stream_id c) then waited else if budget == 0 then again else written

  -- `write_response` behind the body.
  unfoldable pub finish_response : ℕ → Connection S → Connection S × Outcome
  finish_response stream_id c =
      let ended : Connection S = elim (find_stream stream_id c.streams) [
        | none ↦ c
        | some stream ↦ with_stream (record stream { state = on_send_end_stream stream.state }) c
      ] in
      let c' = retire_closed_streams ended in
      let (s, flushed) = io.flush c'.io in
      (record c' { io = s }, if flushed then finished else io_failed)

  abbrev pub then_finish : ℕ → Connection S × Outcome → Connection S × Outcome
  then_finish stream_id (c, finished) = finish_response stream_id c
  then_finish stream_id (c, io_failed) = (c, io_failed)
  then_finish stream_id (c, unfinished) = (c, unfinished)

  unfoldable pub write_response : ℕ → ℕ → Response → Connection S → Connection S × Outcome
  write_response fuel stream_id response c = elim (find_stream stream_id c.streams) [
    | none ↦ (c, finished)
    | some stream ↦
        let (encoder, block) = encode c.hpack_encoder (response_fields response) in
        let head = Frame.headers stream_id block (is_empty response.body) true none in
        let (c', sent) = send_frame io head (record c { hpack_encoder = encoder }) in
        if sent
        then then_finish stream_id (write_body fuel stream_id response.body c')
        else (c', io_failed)
  ]

  abbrev pub after_error : Connection S × Bool → Connection S × Turn
  after_error (c, false) = (c, breaks_with_error)
  after_error (c, true) = (c, if c.going_away then starts_over else waits)

  abbrev pub after_frames :
      Bytes → Connection S × Result Http2Error (Unit {0}) → Connection S × Turn
  after_frames detail (c, ok u) = (c, waits)
  after_frames detail (c, err e) = after_error (handle_protocol_error io e detail c)

  -- `detail` is the text of the error that the frames of this round end with, if they do.
  unfoldable pub turn : Bytes → Connection S → Connection S × Turn
  turn detail c =
      if c.going_away && is_empty c.streams
      then (c, breaks)
      else after_frames detail (process_buffered_frames io c)
