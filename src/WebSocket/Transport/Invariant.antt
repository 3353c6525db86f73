-- ===== src/WebSocket/Transport/Invariant.antt =====
-- What a connection keeps, whatever is read from it and written to it, errors included.
use michael.Prelude.Streams.{AsyncStream, Transcript}
use michael.Prelude.{
  ℕ, zero, suc, ◌≤◌, Bool, true, false, Option, none, some, ◌≡◌, refl, ◌∙◌, arith, take, drop, max,
  leb, max, length, ok, err, inl, inr, Option-cases, length-append, Result,
}
use michael.Prelude.Text.{Bytes}
use michael.WebSocket.Frame.{Opcode, Frame}
use michael.WebSocket.Close.{CloseFrame, TransportError}
use michael.WebSocket.Transport.{
  WebSocketState, FragmentBuffer, Connection, Run, ◌>>=◌, is_opened, connecting, opened, closing,
  closed, try_parse_frame, handle_first_frame, handle_continuation, finish_data_message,
  check_message_size,
}
use michael.WebSocket.Transport.Send.{
  reply_payload, write_frame, write_control_frame, write_fragments, write_data_frames,
  send_close_frame,
}
use michael.WebSocket.Transport.Receive.{
  fill_read_buf, handle_ping, handle_pong, handle_close, handle_frame,
}

abbrev pub FragmentFits : Option FragmentBuffer → ℕ → Type 0
FragmentFits none limit = Unit {0}
FragmentFits (some buffer) limit = length buffer.data_bytes ≤ limit

-- A connection that has sent a close is no longer open, and the part of a message that has
-- arrived is within the limit for a message.
pub record IsSound {S : Type 0} (c : Connection S) : Type 0 where
  pub sent_closes : c.close_sent ≡ true → is_opened c.state ≡ false
  pub fragment_fits : FragmentFits c.fragment c.config.max_message_size

-- How far the closing handshake has come.
abbrev pub rank : WebSocketState → ℕ
rank connecting = 0
rank opened = 1
rank closing = 2
rank closed = 3

-- `c'` comes from `c` by an operation.
pub record Follows {S : Type 0} (io : AsyncStream S) (t : Transcript io) (c c' : Connection S)
    : Type 0 where
  pub sound : IsSound c → IsSound c'
  pub silent :
      IsSound c
      → c.close_sent ≡ true
      → (c'.close_sent ≡ true) × (t.written c'.stream ≡ t.written c.stream)
  pub later : rank c.state ≤ rank c'.state
  pub kept : c'.config ≡ c.config

module _ {S : Type 0} (io : AsyncStream S) (t : Transcript io) where
  pub Follows-refl : (c : Connection S) → Follows io t c c
  Follows-refl c = record {
    sound = λ h. h;
    silent = λ h e. (e, refl);
    later = omega arith;
    kept = refl;
  }

  pub Follows-trans :
      {a b c : Connection S} → Follows io t a b → Follows io t b c → Follows io t a c
  Follows-trans f g = record {
    sound = λ h. g.sound (f.sound h);
    silent = λ h e.
        let (e', w) = f.silent h e in let (e'', w') = g.silent (f.sound h) e' in (e'', w' ∙ w);
    later = omega (arith, f.later, g.later);
    kept = g.kept ∙ f.kept;
  }

  -- A `do` block follows where its parts do.
  pub bind-Follows :
      {A B : Type 0} (m : Run S A) (f : A → Run S B) (c : Connection S)
      → Follows io t c (m c).0
      → ((a : A) (c' : Connection S) → Follows io t c' (f a c').0)
      → Follows io t c ((m >>= f) c).0
  bind-Follows {A} {B} m f c h k = go (m c).1 h
    where
      go :
          (r : Result TransportError A)
          → Follows io t c (m c).0
          → Follows io t c (◌>>=◌ (λ _. ((m c).0, r)) f c).0
      go (ok a) h' = Follows-trans h' (k a (m c).0)
      go (err e) h' = h'

  -- Parsing changes the read buffer alone.
  pub try_parse_frame-Follows : (c : Connection S) → Follows io t c (try_parse_frame c).0
  unfolding try_parse_frame
  try_parse_frame-Follows c = ground arith

  pub fill_read_buf-Follows : (c : Connection S) → Follows io t c (fill_read_buf io c).0
  unfolding fill_read_buf
  fill_read_buf-Follows c = ground (arith, t.read_buf-written c.stream)

  handle_first_frame-Follows :
      (is_text : Bool) (f : Frame) (c : Connection S)
      → Follows io t c (handle_first_frame is_text f c).0
  unfolding handle_first_frame finish_data_message check_message_size
  handle_first_frame-Follows is_text f c = ground arith

  handle_continuation-Follows :
      (f : Frame) (c : Connection S) → Follows io t c (handle_continuation f c).0
  unfolding handle_continuation finish_data_message check_message_size
  handle_continuation-Follows f c = elim (Option-cases c.fragment) [
    | inl n ↦ ground arith
    | inr (buffer, e) ↦ ground (arith, length-append buffer.data_bytes f.payload)
  ]

  -- A write changes the stream alone.
  write_frame-stream :
      (f : Frame) (c : Connection S)
      → (write_frame io f c).0 ≡ record c { stream = (write_frame io f c).0.stream }
  unfolding write_frame
  write_frame-stream f c = ground arith

  write_fragments-stream :
      (fuel max_size : ℕ) (opcode : Opcode) (rest : Bytes) (c : Connection S)
      → (write_fragments io fuel max_size opcode rest c).0
        ≡ record c { stream = (write_fragments io fuel max_size opcode rest c).0.stream }
  unfolding write_fragments
  write_fragments-stream zero max_size opcode rest c = refl
  write_fragments-stream (suc fuel) max_size opcode rest c =
      let f : Frame = record {
        fin = leb (length rest) max_size;
        opcode = opcode;
        payload = take max_size rest;
      } in
      ground (
        arith,
        write_frame-stream f c,
        write_fragments-stream fuel max_size Opcode.continuation (drop max_size rest)
            (write_frame io f c).0,
      )

  pub write_data_frames-stream :
      (opcode : Opcode) (payload : Bytes) (c : Connection S)
      → (write_data_frames io opcode payload c).0
        ≡ record c { stream = (write_data_frames io opcode payload c).0.stream }
  unfolding write_data_frames
  write_data_frames-stream opcode payload c = ground (
    arith,
    write_frame-stream (record { fin = true; opcode = opcode; payload = payload }) c,
    write_fragments-stream (length payload) (max c.config.max_frame_size 1) opcode payload c,
  )

  pub write_control_frame-stream :
      (opcode : Opcode) (payload : Bytes) (c : Connection S)
      → (write_control_frame io opcode payload c).0
        ≡ record c { stream = (write_control_frame io opcode payload c).0.stream }
  unfolding write_control_frame
  write_control_frame-stream opcode payload c =
      ground
        (arith, write_frame-stream (record { fin = true; opcode = opcode; payload = payload }) c)

  -- An open connection has not sent a close, so that it may write.
  pub stream-Follows :
      (c c' : Connection S)
      → is_opened c.state ≡ true
      → c' ≡ record c { stream = c'.stream }
      → Follows io t c c'
  stream-Follows c c' o e = ground arith

  pub send_close_frame-Follows :
      (reply : Option CloseFrame) (c : Connection S)
      → Follows io t c (send_close_frame io reply c).0
  unfolding send_close_frame
  send_close_frame-Follows reply c = ground (
    arith,
    write_frame-stream (record { fin = true; opcode = Opcode.close; payload = reply_payload reply })
        c,
  )

  handle_ping-Follows :
      (payload : Bytes) (c : Connection S) → Follows io t c (handle_ping io payload c).0
  unfolding handle_ping
  handle_ping-Follows payload c = ground (
    arith,
    write_control_frame-stream Opcode.pong payload c,
    stream-Follows c (write_control_frame io Opcode.pong payload c).0,
  )

  pub handle_frame-Follows : (f : Frame) (c : Connection S) → Follows io t c (handle_frame io f c).0
  unfolding handle_frame handle_pong handle_close
  handle_frame-Follows f c = ground (
    arith,
    handle_ping-Follows f.payload c,
    handle_first_frame-Follows true f c,
    handle_first_frame-Follows false f c,
    handle_continuation-Follows f c,
  )
