-- ===== src/WebSocket/Transport/Receive.antt =====
-- crates/tomcatrs-websocket/src/transport.rs: what a connection does with the frames that it reads,
-- and the closing handshake.
use michael.Prelude.Streams.{AsyncStream}
use michael.Prelude.{
  ℕ, zero, suc, Bool, true, false, not, ◌++◌, Option, none, some, if◌then◌else◌, is_empty, Result,
  ok, err,
}
use michael.Prelude.Text.{Bytes, is_some}
use michael.WebSocket.Frame.{Opcode, Frame, panicked}
use michael.WebSocket.Close.{
  CloseFrame, TransportError, frame_refused, ended_in_message, io_failed, from_payload,
}
use michael.WebSocket.Transport.{
  Message, Connection, Run, ◌>>=◌, ◌>>◌, done, is_opened, is_closed, is_close, connecting, opened,
  closing, closed, try_parse_frame, handle_first_frame, handle_continuation,
}
use michael.WebSocket.Transport.Send.{write_control_frame, send_close_frame}

-- `fill_read_buf`: whether bytes were read.
module _ {S : Type 0} (io : AsyncStream S) where
  unfoldable pub fill_read_buf : Run S Bool
  fill_read_buf c =
      let (s, r) = io.read_buf c.stream in
      elim r [
        | none ↦ (record c { stream = s }, err io_failed)
        | some bytes ↦
            (record c { stream = s; read_bytes = c.read_bytes ++ bytes }, ok (not (is_empty bytes)))
      ]

  -- The three branches of `handle_control_frame`.
  unfoldable pub handle_ping : Bytes → Run S (Option Message)
  handle_ping payload c =
      (do
        if is_opened c.state then write_control_frame io Opcode.pong payload else done tt
        done (some (Message.ping payload)))
        c

  unfoldable pub handle_pong : Bytes → Run S (Option Message)
  handle_pong payload c = (record c { last_pong = some payload }, ok (some (Message.pong payload)))

  unfoldable pub handle_close : Bytes → Run S (Option Message)
  handle_close payload c = elim (from_payload payload) [
    | err e ↦ (record c { close_received = true }, err e)
    | ok frame ↦ (
      record c { close_received = true; state = if is_opened c.state then closing else c.state },
      ok (some (Message.close frame)),
    )
  ]

  unfoldable pub handle_frame : Frame → Run S (Option Message)
  handle_frame frame = elim frame.opcode [
    | Opcode.ping ↦ handle_ping frame.payload
    | Opcode.pong ↦ handle_pong frame.payload
    | Opcode.close ↦ handle_close frame.payload
    | Opcode.text ↦ handle_first_frame true frame
    | Opcode.binary ↦ handle_first_frame false frame
    | Opcode.continuation ↦ handle_continuation frame
  ]

  -- The stream has ended.
  unfoldable pub end_of_stream : Run S (Option (Option Message))
  end_of_stream c =
      if is_some c.fragment
      then (c, err ended_in_message)
      else (record c { state = closed }, ok (some none))

  -- One round of the loop of `read_message`: `none` goes on, `some r` returns `Ok(r)`.
  abbrev pub after_fill : Bool → Run S (Option (Option Message))
  after_fill true = done none
  after_fill false = end_of_stream

  abbrev pub after_handle : Option Message → Run S (Option (Option Message))
  after_handle none = done none
  after_handle (some message) = done (some (some message))

  abbrev pub after_parse : Option Frame → Run S (Option (Option Message))
  after_parse none = do more ← fill_read_buf; after_fill more
  after_parse (some frame) = do message ← handle_frame frame; after_handle message

  unfoldable pub read_round : Run S (Option (Option Message))
  read_round = do parsed ← try_parse_frame; after_parse parsed

  -- The loop, on fuel: `none` where it has run out.
  abbrev pub MessageOutcome : Type 0
  MessageOutcome = Option (Connection S × Result TransportError (Option Message))

  abbrev pub resume :
      Result TransportError (Option (Option Message))
      → Connection S
      → (Connection S → MessageOutcome)
      → MessageOutcome
  resume (err e) c again = some (c, err e)
  resume (ok (some message)) c again = some (c, ok message)
  resume (ok none) c again = again c

  unfoldable pub read_loop : ℕ → Connection S → MessageOutcome
  read_loop zero c = none
  read_loop (suc fuel) c = let (c', r) = read_round c in resume r c' (λ next. read_loop fuel next)

  unfoldable pub read_message : ℕ → Connection S → MessageOutcome
  read_message fuel c = elim c.state [
    | closed ↦ some (c, ok none)
    | connecting ↦ read_loop fuel c
    | opened ↦ read_loop fuel c
    | closing ↦ read_loop fuel c
  ]

  -- One round of the loop of `close`, and whether it goes on. An error ends the loop; a panic ends
  -- the task.
  unfoldable pub see_frame : Frame → Connection S → Connection S
  see_frame frame c = if is_close frame.opcode then record c { close_received = true } else c

  abbrev pub goes_on : Result TransportError Bool → Bool
  goes_on (ok more) = more
  goes_on (err e) = false

  abbrev pub is_panic : TransportError → Bool
  is_panic (frame_refused panicked) = true
  is_panic _ = false

  abbrev pub drain_parsed : Result TransportError (Option Frame) → Run S Bool
  drain_parsed (err e) c = (c, if is_panic e then err e else ok false)
  drain_parsed (ok (some frame)) c = (see_frame frame c, ok true)
  drain_parsed (ok none) c = let (c', r) = fill_read_buf c in (c', ok (goes_on r))

  unfoldable pub drain_round : Run S Bool
  drain_round c = let (c', r) = try_parse_frame c in drain_parsed r c'

  -- The loop of `close`, for the rounds that it makes before the deadline.
  abbrev pub proceed : Run S (Unit {0}) → Bool → Run S (Unit {0})
  proceed again true = again
  proceed again false = done tt

  unfoldable pub await_close : ℕ → Run S (Unit {0})
  await_close zero c = done tt c
  await_close (suc rounds) c =
      proceed (drain_round >>= proceed (λ next. await_close rounds next)) (not c.close_received) c

  abbrev pub shut : Run S (Unit {0})
  shut c = (record c { state = closed; stream = io.shutdown c.stream }, ok tt)

  unfoldable pub finish_close : Bool → ℕ → Run S (Unit {0})
  finish_close true rounds c = (record c { state = closed }, ok tt)
  finish_close false rounds c = (await_close rounds >> shut) c

  unfoldable pub close : ℕ → CloseFrame → Run S (Unit {0})
  close rounds reply c =
      if is_closed c.state
      then (c, ok tt)
      else (do
        if c.close_sent then done tt else send_close_frame io (some reply)
        finish_close c.close_received rounds)
          c
