-- ===== src/WebSocket/Transport/Reachable.antt =====
-- The connections that any run of reads, writes and closes can reach, each of them with any
-- result.
use michael.Prelude.Streams.{AsyncStream, Transcript}
use michael.Prelude.{
  ℕ, zero, suc, ◌≤◌, Bool, true, false, not, Option, none, some, ◌≡◌, arith, if◌then◌else◌, ok, err,
  inl, inr, Bool-cases, Result,
}
use michael.WebSocket.Frame.{Opcode, Frame}
use michael.WebSocket.Close.{CloseFrame, TransportError}
use michael.WebSocket.Transport.{
  WebSocketConfig, Message, Connection, Run, ◌>>=◌, done, is_closed, new, try_parse_frame,
}
use michael.WebSocket.Transport.Send.{
  send_close_frame, write_message, write_data_frames, write_control_frame,
}
use michael.WebSocket.Transport.Receive.{
  fill_read_buf, handle_frame, end_of_stream, read_round, after_fill, after_handle, after_parse,
  resume, read_loop, read_message, see_frame, drain_parsed, proceed, finish_close, drain_round,
  await_close, shut, close,
}
use michael.WebSocket.Transport.Invariant.{
  IsSound, Follows, rank, Follows-refl, Follows-trans, bind-Follows, try_parse_frame-Follows,
  fill_read_buf-Follows, handle_frame-Follows, write_data_frames-stream, write_control_frame-stream,
  stream-Follows, send_close_frame-Follows,
}

-- One call of the application on its connection.
pub data Step {S : Type 0} (io : AsyncStream S) : Connection S → Connection S → Type 0 where
  reads :
      {c : Connection S} (fuel : ℕ) (next : Connection S × Result TransportError (Option Message))
      → read_message io fuel c ≡ some next
      → Step io c next.0
  writes : {c : Connection S} (message : Message) → Step io c (write_message io message c).0
  closes :
      {c : Connection S} (rounds : ℕ) (reply : CloseFrame) → Step io c (close io rounds reply c).0

pub data Steps {S : Type 0} (io : AsyncStream S) : Connection S → Connection S → Type 0 where
  stop : {c : Connection S} → Steps io c c
  call : {a b c : Connection S} → Step io a b → Steps io b c → Steps io a c

module _ {S : Type 0} (io : AsyncStream S) (t : Transcript io) where
  end_of_stream-Follows : (c : Connection S) → Follows io t c (end_of_stream io c).0
  unfolding end_of_stream
  end_of_stream-Follows c = ground arith

  after_parse-Follows :
      (parsed : Option Frame) (c : Connection S) → Follows io t c (after_parse io parsed c).0
  after_parse-Follows none c =
      bind-Follows io t (fill_read_buf io) (after_fill io) c (fill_read_buf-Follows io t c) filled
    where
      filled : (more : Bool) (c' : Connection S) → Follows io t c' (after_fill io more c').0
      filled true c' = Follows-refl io t c'
      filled false c' = end_of_stream-Follows c'
  after_parse-Follows (some frame) c =
      bind-Follows io t (handle_frame io frame) (after_handle io) c
        (handle_frame-Follows io t frame c) handled
    where
      handled :
          (message : Option Message) (c' : Connection S)
          → Follows io t c' (after_handle io message c').0
      handled none c' = Follows-refl io t c'
      handled (some m) c' = Follows-refl io t c'

  pub read_round-Follows : (c : Connection S) → Follows io t c (read_round io c).0
  unfolding read_round
  read_round-Follows c =
      bind-Follows io t try_parse_frame (after_parse io) c (try_parse_frame-Follows io t c)
        after_parse-Follows

  read_loop-Follows :
      (fuel : ℕ) (c : Connection S) (next : Connection S × Result TransportError (Option Message))
      → read_loop io fuel c ≡ some next
      → Follows io t c next.0
  unfolding read_loop
  read_loop-Follows zero c next h = cc
  read_loop-Follows (suc fuel) c next h =
      resumed (read_round io c).1 (read_round io c).0 (read_round-Follows c) h
        (λ c' h'. read_loop-Follows fuel c' next h')
    where
      resumed :
          (r : Result TransportError (Option (Option Message))) (c' : Connection S)
          → Follows io t c c'
          → resume io r c' (λ c''. read_loop io fuel c'') ≡ some next
          → ((c'' : Connection S) → read_loop io fuel c'' ≡ some next → Follows io t c'' next.0)
          → Follows io t c next.0
      resumed (err e) c' f h' rest = ground arith
      resumed (ok (some m)) c' f h' rest = ground arith
      resumed (ok none) c' f h' rest = Follows-trans io t f (rest c' h')

  read_message-Follows :
      (fuel : ℕ) (c : Connection S) (next : Connection S × Result TransportError (Option Message))
      → read_message io fuel c ≡ some next
      → Follows io t c next.0
  unfolding read_message
  read_message-Follows fuel c next h =
      ground (arith, read_loop-Follows fuel c next, Follows-refl io t c)

  write_message-Follows :
      (message : Message) (c : Connection S) → Follows io t c (write_message io message c).0
  unfolding write_message
  write_message-Follows (Message.text s) c = ground (
    arith,
    stream-Follows io t c (write_data_frames io Opcode.text s c).0,
    write_data_frames-stream io t Opcode.text s c,
  )
  write_message-Follows (Message.binary s) c = ground (
    arith,
    stream-Follows io t c (write_data_frames io Opcode.binary s c).0,
    write_data_frames-stream io t Opcode.binary s c,
  )
  write_message-Follows (Message.ping s) c = ground (
    arith,
    stream-Follows io t c (write_control_frame io Opcode.ping s c).0,
    write_control_frame-stream io t Opcode.ping s c,
  )
  write_message-Follows (Message.pong s) c = ground (
    arith,
    stream-Follows io t c (write_control_frame io Opcode.pong s c).0,
    write_control_frame-stream io t Opcode.pong s c,
  )
  write_message-Follows (Message.close reply) c =
      ground (arith, send_close_frame-Follows io t reply c)

  drain_parsed-Follows :
      (r : Result TransportError (Option Frame)) (c : Connection S)
      → Follows io t c (drain_parsed io r c).0
  unfolding see_frame
  drain_parsed-Follows (err e) c = Follows-refl io t c
  drain_parsed-Follows (ok (some frame)) c = ground arith
  drain_parsed-Follows (ok none) c = fill_read_buf-Follows io t c

  drain_round-Follows : (c : Connection S) → Follows io t c (drain_round io c).0
  unfolding drain_round
  drain_round-Follows c =
      Follows-trans io t (try_parse_frame-Follows io t c)
        (drain_parsed-Follows (try_parse_frame c).1 (try_parse_frame c).0)

  proceed-Follows :
      (again : Run S (Unit {0})) (more : Bool) (c : Connection S)
      → ((c' : Connection S) → Follows io t c' (again c').0)
      → Follows io t c (proceed io again more c).0
  proceed-Follows again true c h = h c
  proceed-Follows again false c h = Follows-refl io t c

  await_close-Follows : (rounds : ℕ) (c : Connection S) → Follows io t c (await_close io rounds c).0
  unfolding await_close
  await_close-Follows zero c = Follows-refl io t c
  await_close-Follows (suc rounds) c =
      let again : Run S (Unit {0}) = await_close io rounds in
      proceed-Follows (drain_round io >>= proceed io again) (not c.close_received) c (λ c'.
        bind-Follows io t (drain_round io) (proceed io again) c' (drain_round-Follows c')
          (λ more c''. proceed-Follows again more c'' (await_close-Follows rounds)))

  finish_close-Follows :
      (received : Bool) (rounds : ℕ) (c : Connection S)
      → Follows io t c (finish_close io received rounds c).0
  unfolding finish_close
  finish_close-Follows true rounds c = ground arith
  finish_close-Follows false rounds c =
      bind-Follows io t (await_close io rounds) (λ _. shut io) c (await_close-Follows rounds c)
        (λ _ c'. ground (arith, t.shutdown-written c'.stream))

  close-Follows :
      (rounds : ℕ) (reply : CloseFrame) (c : Connection S)
      → Follows io t c (close io rounds reply c).0
  unfolding close
  close-Follows rounds reply c = elim (Bool-cases (is_closed c.state)) [
    | inl e ↦ rw e (Follows-refl io t c)
    | inr e ↦ rw e (
        bind-Follows io t (if c.close_sent then done tt else send_close_frame io (some reply))
          (λ _. finish_close io c.close_received rounds) c
          (ground (arith, Follows-refl io t c, send_close_frame-Follows io t (some reply) c))
          (λ _ c'. finish_close-Follows c.close_received rounds c'))
  ]

  -- Every call follows, and so does a run of them.
  Step-Follows : {a b : Connection S} → Step io a b → Follows io t a b
  Step-Follows (reads fuel next h) = read_message-Follows fuel _ next h
  Step-Follows (writes message) = write_message-Follows message _
  Step-Follows (closes rounds reply) = close-Follows rounds reply _

  Steps-Follows : {a b : Connection S} → Steps io a b → Follows io t a b
  Steps-Follows stop = Follows-refl io t _
  Steps-Follows (call s r) = Follows-trans io t (Step-Follows s) (Steps-Follows r)

  -- Whatever calls an application makes on a new connection, and whatever the stream does, an open
  -- connection has not sent a close, and the part of a message that it keeps is within
  -- `max_message_size`.
  pub Steps-IsSound :
      (stream : S) (config : WebSocketConfig) (c : Connection S)
      → Steps io (new stream config) c
      → IsSound c
  unfolding new
  Steps-IsSound stream config c r = (Steps-Follows r).sound (ground arith)

  -- Once a connection has sent a close, no further run of calls writes a byte to its stream: it
  -- sends no second close, no message, and no pong to a ping.
  pub Steps-silent :
      (stream : S) (config : WebSocketConfig) (c c' : Connection S)
      → Steps io (new stream config) c
      → c.close_sent ≡ true
      → Steps io c c'
      → (c'.close_sent ≡ true) × (t.written c'.stream ≡ t.written c.stream)
  Steps-silent stream config c c' r e r' =
      (Steps-Follows r').silent (Steps-IsSound stream config c r) e

  -- The state of a connection goes from open to closing to closed, and never back.
  pub Steps-later : (c c' : Connection S) → Steps io c c' → rank c.state ≤ rank c'.state
  Steps-later c c' r = (Steps-Follows r).later
