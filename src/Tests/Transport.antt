-- ===== src/Tests/Transport.antt =====
-- Two ends of a connection over a pipe in memory, as the unit tests of the transport have them.
use michael.Prelude.Streams.{AsyncStream, FiniteStream, Transcript}
use michael.Prelude.BigEndian.{be_bytes}
use michael.Prelude.{
  ℕ, ◌+◌, ◌≤◌, true, List, [], ◌∷◌, ◌++◌, Option, some, ◌≡◌, refl, arith, ok, length, Result,
}
use michael.Prelude.Text.{Bytes, codes, from_utf8}
use michael.WebSocket.Frame.{
  encode, parse, parse_header, payload_len, check_header, parse_payload, from_u8, unmask,
  length_fields, to_u8,
}
use michael.WebSocket.Close.{CloseFrame, TransportError, to_payload}
use michael.WebSocket.Transport.{WebSocketConfig, Message, Connection, new, try_parse_frame}
use michael.WebSocket.Transport.Send.{
  write_message, write_data_frames, write_fragments, write_control_frame, write_frame,
  send_close_frame,
}
use michael.WebSocket.Transport.Receive.{
  read_message, read_loop, read_round, handle_frame, handle_ping, fill_read_buf, close,
}
use michael.WebSocket.Transport.Invariant.{IsSound, rank}
use michael.WebSocket.Transport.Reachable.{
  stop, call, reads, writes, closes, Steps-IsSound, Steps-silent, Steps-later,
}
use michael.WebSocket.Transport.Messages.{Fits, read_message-Fits}
use michael.WebSocket.Transport.RoundTrip.{read_message-write_message}

-- The pieces in which the bytes arrive, and the bytes that were written.
record Pipe : Type 0 where
  incoming : List Bytes
  outgoing : Bytes

abbrev read_pipe : Pipe → Pipe × Option Bytes
read_pipe p = elim p.incoming [
  | [] ↦ (p, some [])
  | bytes ∷ rest ↦ (record p { incoming = rest }, some bytes)
]

abbrev pipe : AsyncStream Pipe
pipe = record {
  read_buf = read_pipe;
  write_all = λ p bytes. (record p { outgoing = p.outgoing ++ bytes }, true);
  flush = λ p. (p, true);
  shutdown = λ p. p;
}

abbrev total : List Bytes → ℕ
total [] = 0
total (bytes ∷ rest) = length bytes + total rest

read_pipe-outgoing : (p : Pipe) → (read_pipe p).0.outgoing ≡ p.outgoing
read_pipe-outgoing p = ground arith

abbrev pipe_transcript : Transcript pipe
pipe_transcript = record {
  written = λ p. p.outgoing;
  read_buf-written = read_pipe-outgoing;
  shutdown-written = λ p. refl;
  write_all-written = λ p bytes h. refl;
  flush-written = λ p. refl;
}

read_pipe-total :
    (p : Pipe) (bytes : Bytes)
    → (read_pipe p).1 ≡ some bytes
    → total (read_pipe p).0.incoming + length bytes ≤ total p.incoming
read_pipe-total p bytes h = ground arith

abbrev pipe_is_finite : FiniteStream pipe
pipe_is_finite = record {
  pending = λ p. total p.incoming;
  read_buf-pending = read_pipe-total;
  write_all-pending = λ p bytes. omega arith;
  flush-pending = λ p. omega arith;
}

abbrev config : WebSocketConfig
config = record { max_message_size = 64; max_frame_size = 2; accept_unmasked_frames = true }

abbrev pipe_with : List Bytes → Pipe
pipe_with incoming = record { incoming = incoming; outgoing = [] }

abbrev bye : CloseFrame
bye = record { code = 1000; reason = codes "bye" }

bye_reason : from_utf8 bye.reason ≡ some bye.reason
unfolding from_utf8
bye_reason = refl

-- A client that pings.
abbrev ping_frame : Bytes
ping_frame = 0x89 ∷ 0x82 ∷ 0 ∷ 0 ∷ 0 ∷ 0 ∷ codes "hi"

abbrev client : Connection Pipe
client = new (pipe_with (ping_frame ∷ [])) config

abbrev greeted : Connection Pipe × Result TransportError (Option Message)
greeted = (
  record client {
    stream = record { incoming = []; outgoing = 0x8a ∷ 0x02 ∷ codes "hi" };
    read_bytes = [];
  },
  ok (some (Message.ping (codes "hi"))),
)

greets : read_message pipe 9 client ≡ some greeted
unfolding new read_message read_loop read_round try_parse_frame parse parse_header payload_len
    check_header parse_payload from_u8 unmask handle_frame handle_ping write_control_frame
    write_frame encode length_fields to_u8 fill_read_buf
greets = refl

-- The server sends a message in three fragments, and another end reads it.
abbrev server : Connection Pipe
server = new (pipe_with []) config

abbrev hello_fragments : Bytes
hello_fragments =
    (0x01 ∷ 0x02 ∷ codes "He") ++ (0x00 ∷ 0x02 ∷ codes "ll") ++ (0x80 ∷ 0x01 ∷ codes "o")

sends :
    write_message pipe (Message.text (codes "Hello")) server
    ≡ (record server { stream = record { incoming = []; outgoing = hello_fragments } }, ok tt)
unfolding new write_message write_data_frames write_fragments write_frame encode length_fields to_u8
sends = refl

abbrev reader : Connection Pipe
reader = record (new (pipe_with []) config) { read_bytes = hello_fragments ++ (0x81 ∷ []) }

read_message-write_message_example :
    read_message pipe 6 reader
    ≡ some (record reader { read_bytes = 0x81 ∷ [] }, ok (some (Message.text (codes "Hello"))))
unfolding new from_utf8
read_message-write_message_example =
    read_message-write_message pipe pipe_transcript pipe true 6 (codes "Hello") hello_fragments
      (0x81 ∷ []) server _ reader sends refl refl refl refl refl (omega arith) (omega arith)
      (λ _. refl) (omega arith)

read_message-Fits_example : Fits client.config (Message.ping (codes "hi"))
read_message-Fits_example =
    read_message-Fits pipe pipe_transcript 9 client greeted.0 (Message.ping (codes "hi")) greets

Steps-IsSound_example : IsSound greeted.0
unfolding new
Steps-IsSound_example =
    Steps-IsSound pipe pipe_transcript client.stream config greeted.0
      (call (reads 9 greeted greets) stop)

abbrev closing_server : Connection Pipe
closing_server = (write_message pipe (Message.close (some bye)) client).0

sent_close : closing_server.close_sent ≡ true
unfolding new write_message send_close_frame write_frame to_payload be_bytes
sent_close = refl

Steps-silent_example :
    ((close pipe 3 bye closing_server).0.close_sent ≡ true)
    × ((close pipe 3 bye closing_server).0.stream.outgoing ≡ closing_server.stream.outgoing)
Steps-silent_example =
    Steps-silent pipe pipe_transcript (pipe_with (ping_frame ∷ [])) config closing_server
      (close pipe 3 bye closing_server).0 (call (writes (Message.close (some bye))) stop) sent_close
      (call (closes 3 bye) stop)

Steps-later_example : rank client.state ≤ rank closing_server.state
Steps-later_example =
    Steps-later pipe pipe_transcript client closing_server
      (call (writes (Message.close (some bye))) stop)
