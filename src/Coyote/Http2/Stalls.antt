-- ===== src/Coyote/Http2/Stalls.antt =====
-- Two ways in which a connection makes no progress.
use michael.Prelude.{
  ℕ, zero, suc, true, false, [], ◌∷◌, ◌++◌, some, ok, err, ◌≡◌, refl, sym, ap, ◌∙◌, arith, is_empty,
  Bool-cases, inl, inr, append-nil, append_assoc, length,
}
use mathlib.Core.Path.{subst}
use michael.Prelude.Streams.{AsyncStream, Transcript}
use michael.Prelude.Text.{Bytes}
use michael.Coyote.Http2.{Frame, FrameError, parse, parse_loop}
use michael.Coyote.Http2.Encode.{encode}
use michael.Coyote.Http2.Incremental.{parse-append}
use michael.Coyote.Http2.Settings.{protocol_error_code, connection_error}
use michael.Coyote.Http2.Connection.{Connection}
use michael.Coyote.Http2.Receive.{
  send_frame, process_frames, process_buffered_frames, handle_protocol_error,
}
use michael.Coyote.Http2.Send.{
  is_flow_frame, flow_loop, read_more_for_flow_control, has_credit, write_body, unfinished, turn,
  Turn, starts_over,
}

-- The peer keeps the stream open, and sends something whenever the connection reads.
pub record Talks {S : Type 0} (io : AsyncStream S) : Type 0 where
  pub first : S → ℕ
  pub others : S → Bytes
  pub talks : (s : S) → (io.read_buf s).1 ≡ some (first s ∷ others s)

-- A text `n` times over.
unfoldable pub repeat : ℕ → Bytes → Bytes
repeat zero s = []
repeat (suc n) s = s ++ repeat n s

module _ {S : Type 0} (io : AsyncStream S) where
  flow_loop-blocked :
      (fuel : ℕ) (c : Connection S) (frame : Frame) (n : ℕ)
      → parse c.inbuf c.local_settings.max_frame_size ≡ ok (some (frame, n))
      → is_flow_frame frame ≡ false
      → flow_loop io fuel c ≡ c
  unfolding flow_loop
  flow_loop-blocked zero c frame n p b = refl
  flow_loop-blocked (suc fuel) c frame n p b = rw (p, flow_loop) (rw b refl)

  read_more-blocked :
      (t : Talks io) (c : Connection S) (frame : Frame) (n : ℕ)
      → parse c.inbuf c.local_settings.max_frame_size ≡ ok (some (frame, n))
      → is_flow_frame frame ≡ false
      → read_more_for_flow_control io c ≡ (
        record c { io = (io.read_buf c.io).0; inbuf = c.inbuf ++ (t.first c.io ∷ t.others c.io) },
        some true,
      )
  unfolding read_more_for_flow_control
  read_more-blocked t c frame n p b =
      let more = t.first c.io ∷ t.others c.io in
      let again : parse (c.inbuf ++ more) c.local_settings.max_frame_size ≡ ok (some (frame, n)) =
        parse-append c.inbuf more c.local_settings.max_frame_size (λ w. cc) ∙ p in
      rw (t.talks c.io, read_more_for_flow_control)
        (ap (λ (d : Connection S). (d, some true))
          (flow_loop-blocked (length (c.inbuf ++ more))
            (record c { io = (io.read_buf c.io).0; inbuf = c.inbuf ++ more }) frame n again b))

  -- A body that waits for credit waits for ever where the first frame in the buffer is one of those
  -- that are left for the main loop, such as the HEADERS of another request: whatever the peer
  -- sends then, the WINDOW_UPDATE that would give the credit included, no number of rounds brings
  -- the loop of `write_body` to its end.
  pub write_body-stalls :
      Talks io
      → (c : Connection S) (stream_id b : ℕ) (rest : Bytes) (frame : Frame) (n : ℕ)
      → parse c.inbuf c.local_settings.max_frame_size ≡ ok (some (frame, n))
      → is_flow_frame frame ≡ false
      → has_credit stream_id c ≡ false
      → (fuel : ℕ) → (write_body io fuel stream_id (b ∷ rest) c).1 ≡ unfinished
  unfolding write_body
  write_body-stalls t c stream_id b rest frame n p left dry zero = refl
  write_body-stalls t c stream_id b rest frame n p left dry (suc fuel) =
      let more = t.first c.io ∷ t.others c.io in
      let c' : Connection S = record c { io = (io.read_buf c.io).0; inbuf = c.inbuf ++ more } in
      let again : parse c'.inbuf c.local_settings.max_frame_size ≡ ok (some (frame, n)) =
        parse-append c.inbuf more c.local_settings.max_frame_size (λ w. cc) ∙ p in
      rw (dry, read_more-blocked t c frame n p left)
        (write_body-stalls t c' stream_id b rest frame n again left dry fuel)

  -- The rounds of the loop, and the GOAWAY frames, of a connection whose buffer does not parse.
  unfoldable pub turns : Bytes → ℕ → Connection S → Connection S
  turns detail zero c = c
  turns detail (suc n) c = turns detail n (turn io detail c).0

  process_frames-bad :
      (fuel : ℕ) (c : Connection S) (e : FrameError)
      → parse c.inbuf c.local_settings.max_frame_size ≡ err e
      → process_frames io (suc fuel) c ≡ (c, err (connection_error protocol_error_code))
  unfolding process_frames
  process_frames-bad fuel c e bad = rw (bad, process_frames) refl

  fuel_left :
      (buf : Bytes) (max : ℕ) (e : FrameError)
      → parse buf max ≡ err e
      → (fuel : ℕ) × (length buf ≡ suc fuel)
  unfolding parse parse_loop
  fuel_left [] max e bad = cc
  fuel_left (b ∷ buf) max e bad = (length buf, refl)

  process_buffered-bad :
      (c : Connection S) (e : FrameError)
      → parse c.inbuf c.local_settings.max_frame_size ≡ err e
      → process_buffered_frames io c ≡ (c, err (connection_error protocol_error_code))
  unfolding process_buffered_frames
  process_buffered-bad c e bad =
      let (fuel, some_fuel) = fuel_left c.inbuf c.local_settings.max_frame_size e bad in
      rw some_fuel (process_frames-bad fuel c e bad)

  go_away-sent :
      (detail : Bytes) (c : Connection S)
      → (io.write_all c.io (encode (Frame.go_away c.last_stream_id protocol_error_code detail))).1
        ≡ true
      → handle_protocol_error io (connection_error protocol_error_code) detail c ≡ (
        record c {
          io =
              (io.write_all c.io
                (encode (Frame.go_away c.last_stream_id protocol_error_code detail))).0;
          going_away = true;
        },
        true,
      )
  unfolding handle_protocol_error send_frame
  go_away-sent detail c sent = rw sent refl

  turn_once :
      (detail : Bytes) (c : Connection S) (e : FrameError)
      → ((s : S) (bytes : Bytes) → (io.write_all s bytes).1 ≡ true)
      → parse c.inbuf c.local_settings.max_frame_size ≡ err e
      → is_empty c.streams ≡ false
      → turn io detail c ≡ (
        record c {
          io =
              (io.write_all c.io
                (encode (Frame.go_away c.last_stream_id protocol_error_code detail))).0;
          going_away = true;
        },
        starts_over,
      )
  unfolding turn
  turn_once detail c e reliable bad busy =
      let notice = encode (Frame.go_away c.last_stream_id protocol_error_code detail) in
      rw (busy, process_buffered-bad c e bad, go_away-sent detail c (reliable c.io notice))
        (elim (Bool-cases c.going_away) [ inl g ↦ ground arith | inr g ↦ ground arith ])

  -- A buffer at whose front is a frame that does not parse, on a connection with a stream that is
  -- not done and whose writes all succeed, keeps the loop of `run` at work for as long as no
  -- response of the adapter comes: with the text of the error in its debug data, whatever that is,
  -- each round writes the same GOAWAY again, starts over, and never reads.
  pub turn-spins :
      (transcript : Transcript io)
      → ((s : S) (bytes : Bytes) → (io.write_all s bytes).1 ≡ true)
      → (detail : Bytes) (c : Connection S) (e : FrameError)
      → parse c.inbuf c.local_settings.max_frame_size ≡ err e
      → is_empty c.streams ≡ false
      → (n : ℕ)
      → ((turn io detail (turns detail n c)).1 ≡ starts_over)
        × (transcript.written (turns detail n c).io
            ≡ transcript.written c.io
              ++ repeat n (encode (Frame.go_away c.last_stream_id protocol_error_code detail)))
  unfolding turns repeat
  turn-spins transcript reliable detail c e bad busy zero = (
    ap (λ (r : Connection S × Turn). r.1) (turn_once detail c e reliable bad busy),
    sym (append-nil (transcript.written c.io)),
  )
  turn-spins transcript reliable detail c e bad busy (suc n) =
      let notice = encode (Frame.go_away c.last_stream_id protocol_error_code detail) in
      let next : Connection S = record c { io = (io.write_all c.io notice).0; going_away = true } in
      let (again, wrote) = turn-spins transcript reliable detail next e bad busy n in
      let step : turns detail (suc n) c ≡ turns detail n next =
        ap (λ (r : Connection S × Turn). turns detail n r.0)
          (turn_once detail c e reliable bad busy) in
      subst
        (λ (d : Connection S).
          ((turn io detail d).1 ≡ starts_over)
          × (transcript.written d.io ≡ transcript.written c.io ++ (notice ++ repeat n notice)))
        (sym step)
        (
          again,
          wrote
              ∙ rw (transcript.write_all-written c.io notice (reliable c.io notice))
                  (append_assoc (transcript.written c.io) notice (repeat n notice)),
        )
