-- ===== src/WebSocket/Transport/RoundTrip/Written.antt =====
-- The bytes that a message is written as.
use michael.Prelude.Streams.{AsyncStream, Transcript}
use michael.Prelude.{
  ℕ, zero, suc, ◌+◌, ◌≤◌, Bool, true, false, [], ◌∷◌, ◌++◌, ◌≡◌, refl, ap, sym, ◌∙◌, arith, length,
  leb, take, drop, max, is_empty, if◌then◌else◌, ok, inl, inr, Bool-cases, Result-cases,
  length-take, append_assoc, append-nil, drop-append_self,
}
use michael.Prelude.Bits.{usize_max}
use michael.Prelude.Text.{Bytes}
use michael.WebSocket.Frame.{Opcode, Frame, is_control, encode}
use michael.WebSocket.Lenient.RoundTrip.{IsSendable}
use michael.WebSocket.Transport.{Message, Connection}
use michael.WebSocket.Transport.Send.{
  write_frame, write_fragments, write_data_frames, write_message,
}

-- The frames of the loop of `write_data_frames`, as bytes.
abbrev pub piece : ℕ → Opcode → Bytes → Frame
piece max_size opcode rest = record {
  fin = leb (length rest) max_size;
  opcode = opcode;
  payload = take max_size rest;
}

unfoldable pub fragment_bytes : ℕ → ℕ → Opcode → Bytes → Bytes
fragment_bytes zero max_size opcode rest = []
fragment_bytes (suc fuel) max_size opcode rest =
    let more = fragment_bytes fuel max_size Opcode.continuation (drop max_size rest) in
    if is_empty rest then [] else encode (piece max_size opcode rest) ++ more

unfoldable pub data_bytes : ℕ → Opcode → Bytes → Bytes
data_bytes max_size opcode payload =
    if leb (length payload) max_size
    then encode (record { fin = true; opcode = opcode; payload = payload })
    else fragment_bytes (length payload) max_size opcode payload

abbrev pub as_message : Bool → Bytes → Message
as_message true s = Message.text s
as_message false s = Message.binary s

abbrev pub data_opcode : Bool → Opcode
data_opcode true = Opcode.text
data_opcode false = Opcode.binary

pub data_opcode_lem : (is_text : Bool) → is_control (data_opcode is_text) ≡ false
data_opcode_lem true = refl
data_opcode_lem false = refl

append-cancel : (a b c : Bytes) → a ++ b ≡ a ++ c → b ≡ c
append-cancel a b c h =
    sym (drop-append_self (length a) a b refl)
    ∙ ap (drop (length a)) h
    ∙ drop-append_self (length a) a c refl

module _ {S : Type 0} (io : AsyncStream S) (t : Transcript io) where
  write_frame-written :
      (f : Frame) (c : Connection S)
      → (write_frame io f c).1 ≡ ok tt
      → t.written (write_frame io f c).0.stream ≡ t.written c.stream ++ encode f
  unfolding write_frame
  write_frame-written f c h = ground (
    arith,
    t.write_all-written c.stream (encode f),
    t.flush-written (io.write_all c.stream (encode f)).0,
  )

  pub write_fragments-written :
      (fuel max_size : ℕ) (opcode : Opcode) (rest : Bytes) (c : Connection S)
      → (write_fragments io fuel max_size opcode rest c).1 ≡ ok tt
      → t.written (write_fragments io fuel max_size opcode rest c).0.stream
        ≡ t.written c.stream ++ fragment_bytes fuel max_size opcode rest
  unfolding write_fragments fragment_bytes
  write_fragments-written zero max_size opcode rest c h =
      ground (arith, append-nil (t.written c.stream))
  write_fragments-written (suc fuel) max_size opcode rest c h =
      let f = piece max_size opcode rest in
      let c' = (write_frame io f c).0 in
      elim (Bool-cases (is_empty rest)) [
        | inl e ↦ ground (arith, append-nil (t.written c.stream))
        | inr e ↦ elim (Result-cases (write_frame io f c).1) [
          | inr (x, w) ↦ ground arith
          | inl (_, w) ↦ ground (
            arith,
            write_frame-written f c w,
            write_fragments-written fuel max_size Opcode.continuation (drop max_size rest) c',
            append_assoc (t.written c.stream) (encode f)
                (fragment_bytes fuel max_size Opcode.continuation (drop max_size rest)),
          )
        ]
      ]

  pub write_data_frames-written :
      (opcode : Opcode) (payload : Bytes) (c : Connection S)
      → (write_data_frames io opcode payload c).1 ≡ ok tt
      → t.written (write_data_frames io opcode payload c).0.stream
        ≡ t.written c.stream ++ data_bytes (max c.config.max_frame_size 1) opcode payload
  unfolding write_data_frames data_bytes
  write_data_frames-written opcode payload c h = ground (
    arith,
    write_frame-written (record { fin = true; opcode = opcode; payload = payload }) c,
    write_fragments-written (length payload) (max c.config.max_frame_size 1) opcode payload c,
  )

  -- What a message that was sent has added to the stream.
  pub write_message-written :
      (is_text : Bool) (payload sent : Bytes) (c c' : Connection S)
      → write_message io (as_message is_text payload) c ≡ (c', ok tt)
      → t.written c'.stream ≡ t.written c.stream ++ sent
      → sent ≡ data_bytes (max c.config.max_frame_size 1) (data_opcode is_text) payload
  unfolding write_message
  write_message-written true payload sent c c' h w =
      append-cancel (t.written c.stream) _ _
        (ground (arith, write_data_frames-written Opcode.text payload c))
  write_message-written false payload sent c c' h w =
      append-cancel (t.written c.stream) _ _
        (ground (arith, write_data_frames-written Opcode.binary payload c))

pub fragment_bytes-nil :
    (fuel max_size : ℕ) (opcode : Opcode) → fragment_bytes fuel max_size opcode [] ≡ []
unfolding fragment_bytes
fragment_bytes-nil zero max_size opcode = refl
fragment_bytes-nil (suc fuel) max_size opcode = refl

pub fragment_bytes-cons :
    (fuel max_size : ℕ) (opcode : Opcode) (rest more : Bytes)
    → 1 ≤ length rest
    → fragment_bytes (suc fuel) max_size opcode rest ++ more
      ≡ encode (piece max_size opcode rest)
        ++ (fragment_bytes fuel max_size Opcode.continuation (drop max_size rest) ++ more)
unfolding fragment_bytes
fragment_bytes-cons fuel max_size opcode [] more h = absurd (omega arith)
fragment_bytes-cons fuel max_size opcode (x ∷ rest) more h =
    append_assoc (encode (piece max_size opcode (x ∷ rest)))
      (fragment_bytes fuel max_size Opcode.continuation (drop max_size (x ∷ rest))) more

pub piece-IsSendable :
    (max_size : ℕ) (opcode : Opcode) (rest : Bytes)
    → is_control opcode ≡ false
    → length rest + 14 ≤ usize_max
    → IsSendable (piece max_size opcode rest)
piece-IsSendable max_size opcode rest k l = ground (arith, length-take max_size rest)
