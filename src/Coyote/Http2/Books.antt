-- ===== src/Coyote/Http2/Books.antt =====
-- The books of a connection over everything that it does: frames, errors, responses and the rounds of
-- its loop.
use michael.Prelude.{
  ℕ, zero, suc, Bool, true, false, ◌&&◌, [], ◌∷◌, ◌++◌, none, some, Result, ok, err, inl, inr,
  length, is_empty, drop, Option-cases, Result-cases, Bool-cases,
}
use michael.Prelude.Text.{Bytes}
use michael.Prelude.Streams.{AsyncStream}
use michael.Coyote.Http2.{Frame, parse}
use michael.Coyote.Http2.Settings.{Http2Error, closed}
use michael.Coyote.Http2.Connection.{Connection, find_stream, with_stream}
use michael.Coyote.Http2.Receive.{
  send_frame, handle_frame, dispatch_frame, process_frames, process_buffered_frames, close_stream,
  go_away, reset, handle_protocol_error,
}
use michael.Coyote.Http2.Send.{
  flow_loop, is_flow_frame, read_more_for_flow_control, turn, after_frames, after_error, Turn,
}
use michael.Coyote.Http2.Ledger.{IsSound}
use michael.Coyote.Http2.Ledger.Moves as Moves
use michael.Coyote.Http2.Invariant.{
  Keeps, either, seq, on_window_update-IsSound, on_rst_stream-IsSound, on_continuation-IsSound,
  retire-IsSound,
}
use michael.Coyote.Http2.Invariant.Answering.{
  on_settings-IsSound, on_ping-IsSound, on_headers-IsSound, on_data-IsSound,
}

module _ {S : Type 0} (io : AsyncStream S) where
  handle_frame-IsSound : (frame : Frame) → Keeps (handle_frame io frame)
  unfolding handle_frame
  handle_frame-IsSound (Frame.settings ack params) = on_settings-IsSound io ack params
  handle_frame-IsSound (Frame.ping ack payload) = on_ping-IsSound io ack payload
  handle_frame-IsSound (Frame.window_update id increment) = on_window_update-IsSound id increment
  handle_frame-IsSound (Frame.headers id block end_stream end_headers dependency) =
      on_headers-IsSound io id block end_stream end_headers
  handle_frame-IsSound (Frame.continuation id block end_headers) =
      on_continuation-IsSound id block end_headers
  handle_frame-IsSound (Frame.data_frame id content end_stream) =
      on_data-IsSound io id content end_stream
  handle_frame-IsSound (Frame.rst_stream id error_code) = on_rst_stream-IsSound id
  handle_frame-IsSound (Frame.priority id dependency) = λ c v. v
  handle_frame-IsSound (Frame.go_away last_stream_id error_code debug) = λ c v. v

  dispatch_frame-IsSound : (frame : Frame) → Keeps (dispatch_frame io frame)
  unfolding dispatch_frame
  dispatch_frame-IsSound frame c v =
      either (λ (r : Connection S × Result Http2Error (Unit {0})). IsSound r.0) _
        (handle_frame-IsSound frame c v) v

  process_frames-IsSound : (fuel : ℕ) → Keeps (process_frames io fuel)
  unfolding process_frames
  process_frames-IsSound zero c v = v
  process_frames-IsSound (suc fuel) c v =
      elim (Result-cases (parse c.inbuf c.local_settings.max_frame_size)) [
        | inr (e, p) ↦ rw (p, process_frames) v
        | inl (none, p) ↦ rw (p, process_frames) v
        | inl (some (frame, consumed), p) ↦
            rw (p, process_frames)
              (seq IsSound IsSound (dispatch_frame io frame) (process_frames io fuel)
                (record c { inbuf = drop consumed c.inbuf })
                (dispatch_frame-IsSound frame (record c { inbuf = drop consumed c.inbuf }) v)
                (λ d w. w) (process_frames-IsSound fuel))
      ]

  close_stream-IsSound : (id : ℕ) (c : Connection S) → IsSound c → IsSound (close_stream id c)
  close_stream-IsSound id c v = elim (Option-cases (find_stream id c.streams)) [
    | inl missing ↦ rw (missing, close_stream) (retire-IsSound c v)
    | inr (s, there) ↦
        rw (there, close_stream)
          (retire-IsSound (with_stream (record s { state = closed }) c)
            (Moves.put v _ (Moves.found v id s there)))
  ]

  go_away-IsSound :
      (code : ℕ) (detail : Bytes) (c : Connection S)
      → IsSound c
      → IsSound (go_away io code detail c).0
  unfolding send_frame
  go_away-IsSound code detail c v =
      either IsSound (send_frame io (Frame.go_away c.last_stream_id code detail) c).1 v v

  reset-IsSound : (id code : ℕ) (c : Connection S) → IsSound c → IsSound (reset io id code c).0
  unfolding send_frame
  reset-IsSound id code c v =
      let (c', sent) = send_frame io (Frame.rst_stream id code) c in
      either IsSound sent (close_stream-IsSound id c' v) v

  handle_protocol_error-IsSound :
      (e : Http2Error) (detail : Bytes) (c : Connection S)
      → IsSound c
      → IsSound (handle_protocol_error io e detail c).0
  unfolding handle_protocol_error
  handle_protocol_error-IsSound e detail c v = elim (Option-cases e.stream_only) [
    | inl conn ↦ rw (conn, handle_protocol_error) (go_away-IsSound e.code detail c v)
    | inr (zero, conn) ↦ rw (conn, handle_protocol_error) (go_away-IsSound e.code detail c v)
    | inr (suc n, stream) ↦ rw (stream, handle_protocol_error) (reset-IsSound (suc n) e.code c v)
  ]

  after_error-IsSound : (r : Connection S × Bool) → IsSound r.0 → IsSound (after_error io r).0
  after_error-IsSound (c, false) v = v
  after_error-IsSound (c, true) v = v

  after_frames-IsSound :
      (detail : Bytes) (r : Connection S × Result Http2Error (Unit {0}))
      → IsSound r.0
      → IsSound (after_frames io detail r).0
  after_frames-IsSound detail (c, ok u) v = v
  after_frames-IsSound detail (c, err e) v =
      after_error-IsSound (handle_protocol_error io e detail c)
        (handle_protocol_error-IsSound e detail c v)

  pub turn-IsSound : (detail : Bytes) (c : Connection S) → IsSound c → IsSound (turn io detail c).0
  unfolding turn process_buffered_frames
  turn-IsSound detail c v =
      either (λ (r : Connection S × Turn). IsSound r.0) (c.going_away && is_empty c.streams) v
        (after_frames-IsSound detail (process_buffered_frames io c)
          (process_frames-IsSound (length c.inbuf) c v))

  flow_loop-IsSound : (fuel : ℕ) (c : Connection S) → IsSound c → IsSound (flow_loop io fuel c)
  unfolding flow_loop
  flow_loop-IsSound zero c v = v
  flow_loop-IsSound (suc fuel) c v =
      elim (Result-cases (parse c.inbuf c.local_settings.max_frame_size)) [
        | inr (e, p) ↦ rw (p, flow_loop) v
        | inl (none, p) ↦ rw (p, flow_loop) v
        | inl (some (frame, consumed), p) ↦
            let rest : Connection S = record c { inbuf = drop consumed c.inbuf } in
            let (c', r) = dispatch_frame io frame rest in
            let v' : IsSound c' = dispatch_frame-IsSound frame rest v in
            elim (Bool-cases (is_flow_frame frame)) [
              | inr left ↦ rw (p, flow_loop) (rw left v)
              | inl flow ↦ elim (Result-cases r) [
                | inl (u, e) ↦ rw (p, flow_loop) (rw flow (rw e (flow_loop-IsSound fuel c' v')))
                | inr (x, e) ↦ rw (p, flow_loop) (rw flow (rw e v'))
              ]
            ]
      ]

  pub read_more-IsSound :
      (c : Connection S) → IsSound c → IsSound (read_more_for_flow_control io c).0
  unfolding read_more_for_flow_control
  read_more-IsSound c v = elim (Option-cases (io.read_buf c.io).1) [
    | inl failed ↦ rw (failed, read_more_for_flow_control) v
    | inr ([], e) ↦ rw (e, read_more_for_flow_control) v
    | inr (b ∷ more, e) ↦
        rw (e, read_more_for_flow_control) (flow_loop-IsSound (length (c.inbuf ++ (b ∷ more))) _ v)
  ]
