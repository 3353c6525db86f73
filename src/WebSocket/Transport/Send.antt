-- ===== src/WebSocket/Transport/Send.antt =====
-- crates/tomcatrs-websocket/src/transport.rs: what a connection writes.
use michael.Prelude.Streams.{AsyncStream}
use michael.Prelude.{
  ℕ, zero, suc, true, [], Option, none, some, ltb, leb, if◌then◌else◌, length, take, drop, is_empty,
  max, ok, err,
}
use michael.Prelude.Text.{Bytes}
use michael.WebSocket.Frame.{Opcode, Frame, encode}
use michael.WebSocket.Close.{
  CloseFrame, control_too_long, close_too_long, not_yet_open, closing_started, io_failed,
  to_payload,
}
use michael.WebSocket.Transport.{
  Message, Run, ◌>>◌, done, fail, is_opened, connecting, opened, closing, closed,
}

-- `close.map(|c| c.to_payload()).unwrap_or_default()`
abbrev pub reply_payload : Option CloseFrame → Bytes
reply_payload none = []
reply_payload (some frame) = to_payload frame

module _ {S : Type 0} (io : AsyncStream S) where
  unfoldable pub write_frame : Frame → Run S (Unit {0})
  write_frame frame c =
      let (s, written) = io.write_all c.stream (encode frame) in
      if written
      then (let (s', flushed) = io.flush s in
          (record c { stream = s' }, if flushed then ok tt else err io_failed))
      else (record c { stream = s }, err io_failed)

  unfoldable pub write_control_frame : Opcode → Bytes → Run S (Unit {0})
  write_control_frame opcode payload =
      if ltb 125 (length payload)
      then fail control_too_long
      else write_frame (record { fin = true; opcode = opcode; payload = payload })

  -- The loop of `write_data_frames`, on what is left of the payload, with its length as fuel: a
  -- round takes at least one byte.
  unfoldable pub write_fragments : ℕ → ℕ → Opcode → Bytes → Run S (Unit {0})
  write_fragments zero max_size opcode rest = done tt
  write_fragments (suc fuel) max_size opcode rest = if is_empty rest then done tt else (do
    write_frame
        (record { fin = leb (length rest) max_size; opcode = opcode; payload = take max_size rest })
    write_fragments fuel max_size Opcode.continuation (drop max_size rest))

  unfoldable pub write_data_frames : Opcode → Bytes → Run S (Unit {0})
  write_data_frames opcode payload c =
      let max_size = max c.config.max_frame_size 1 in
      if leb (length payload) max_size
      then write_frame (record { fin = true; opcode = opcode; payload = payload }) c
      else write_fragments (length payload) max_size opcode payload c

  unfoldable pub send_close_frame : Option CloseFrame → Run S (Unit {0})
  send_close_frame reply c =
      let payload = reply_payload reply in
      if c.close_sent
      then (c, ok tt)
      else if ltb 125 (length payload)
      then (c, err close_too_long)
      else (do
        write_frame (record { fin = true; opcode = Opcode.close; payload = payload })
        λ c'. (
          record c' { close_sent = true; state = if is_opened c'.state then closing else c'.state },
          ok tt,
        ))
          c

  unfoldable pub write_message : Message → Run S (Unit {0})
  write_message message c = elim c.state [
    | connecting ↦ (c, err not_yet_open)
    | closing ↦ (c, err closing_started)
    | closed ↦ (c, err closing_started)
    | opened ↦ elim message [
      | Message.text s ↦ write_data_frames Opcode.text s c
      | Message.binary s ↦ write_data_frames Opcode.binary s c
      | Message.ping s ↦ write_control_frame Opcode.ping s c
      | Message.pong s ↦ write_control_frame Opcode.pong s c
      | Message.close frame ↦ send_close_frame frame c
    ]
  ]

  unfoldable pub send_ping : Bytes → Run S (Unit {0})
  send_ping payload = write_message (Message.ping payload)

  unfoldable pub send_pong : Bytes → Run S (Unit {0})
  send_pong payload = write_message (Message.pong payload)
