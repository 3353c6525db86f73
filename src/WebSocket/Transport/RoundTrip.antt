-- ===== src/WebSocket/Transport/RoundTrip.antt =====
-- A message that one end sends, in one frame or in fragments, is what the other end reads.
pub mod Written
pub mod Frames
use michael.Prelude.Streams.{AsyncStream, Transcript}
use michael.Prelude.{
  lt→leb, ℕ, zero, suc, ◌+◌, ◌-◌, ◌≤◌, ◌<◌, Bool, true, false, not, ◌&&◌, [], ◌∷◌, ◌++◌, Option,
  none, some, ◌≡◌, refl, ap, sym, ◌∙◌, arith, length, ltb, leb, take, drop, max, is_empty,
  if◌then◌else◌, ok, err, inl, inr, Bool-cases, Option-cases, Result-cases, Result, length-append,
  length-take, length-drop, take_whole, drop_whole, take-append-drop, append_assoc, append-nil,
  drop-append_self,
}
use michael.Prelude.Bits.{usize_max}
use michael.Prelude.Text.{Bytes, from_utf8}
use michael.WebSocket.Frame.{Opcode, Frame, parse, is_control, encode}
use michael.WebSocket.Lenient.{parse_lenient}
use michael.WebSocket.Lenient.RoundTrip.{IsSendable, parse_lenient-encode, parse-encode}
use michael.WebSocket.Close.{CloseFrame, TransportError, from_payload}
use michael.WebSocket.Transport.{
  FragmentBuffer, WebSocketConfig, Message, Connection, Run, ◌>>=◌, ◌>>◌, done, is_opened,
  is_closed, connecting, opened, closing, closed, try_parse_frame, handle_first_frame,
  handle_continuation, finish_data_message, check_message_size,
}
use michael.WebSocket.Transport.Receive.{
  handle_frame, after_handle, after_parse, resume, read_round, read_loop, read_message,
}
use michael.WebSocket.Transport.Send.{
  write_frame, write_fragments, write_data_frames, write_message,
}
use michael.WebSocket.Transport.RoundTrip.Written.{
  piece, fragment_bytes, data_bytes, as_message, data_opcode, data_opcode_lem,
  write_message-written, fragment_bytes-nil, fragment_bytes-cons, piece-IsSendable,
}
use michael.WebSocket.Transport.RoundTrip.Frames.{
  try_parse_frame-encode, handle_continuation-last, handle_continuation-more, read_loop-returns,
  read_loop-goes_on, handle_frame-continuation, handle_first_frame-whole, handle_first_frame-part,
  handle_frame-first,
}

module _ {S : Type 0} (io : AsyncStream S) where
  -- What is left of a message behind its first fragment.
  read_fragments :
      (fuel n max_size : ℕ) (buffer : FragmentBuffer) (rest more : Bytes) (r : Connection S)
      → length rest ≤ fuel
      → fuel < n
      → 1 ≤ max_size
      → 1 ≤ length rest
      → length rest + 14 ≤ usize_max
      → r.config.accept_unmasked_frames ≡ true
      → r.fragment ≡ some buffer
      → length buffer.data_bytes + length rest ≤ r.config.max_message_size
      → (buffer.is_text ≡ true
          → from_utf8 (buffer.data_bytes ++ rest) ≡ some (buffer.data_bytes ++ rest))
      → r.read_bytes ≡ fragment_bytes fuel max_size Opcode.continuation rest ++ more
      → read_loop io n r
        ≡ some (
          record r { fragment = none; read_bytes = more },
          ok (some (as_message buffer.is_text (buffer.data_bytes ++ rest))),
        )
  read_fragments zero n max_size buffer rest more r l1 l2 l3 l4 l5 a fr lm u b =
      absurd (omega arith)
  read_fragments (suc fuel) zero max_size buffer rest more r l1 l2 l3 l4 l5 a fr lm u b =
      absurd (omega arith)
  read_fragments (suc fuel) (suc n) max_size buffer rest more r l1 l2 l3 l4 l5 a fr lm u b =
      let f = piece max_size Opcode.continuation rest in
      let behind = fragment_bytes fuel max_size Opcode.continuation (drop max_size rest) in
      let r1 : Connection S = record r { read_bytes = behind ++ more } in
      let b' : r.read_bytes ≡ encode f ++ (behind ++ more) =
        b ∙ fragment_bytes-cons fuel max_size Opcode.continuation rest more l4 in
      let sendable = piece-IsSendable max_size Opcode.continuation rest refl l5 in
      let taken = try_parse_frame-encode f (behind ++ more) r sendable a b' in
      elim (Bool-cases (leb (length rest) max_size)) [
        | inl e ↦
            let all = take_whole max_size rest (ground arith) in
            let none_left = drop_whole max_size rest (ground arith) in
            let returned =
              read_loop-returns io (suc n) r r1 (record r1 { fragment = none }) f
                (as_message buffer.is_text (buffer.data_bytes ++ f.payload)) (omega arith) taken
                (handle_frame-continuation io f r1 refl
                  ∙ handle_continuation-last io f buffer r1 e fr
                      (omega (arith, length-take max_size rest)) (λ h. rw all (u h))) in
            ground (arith, returned, fragment_bytes-nil fuel max_size Opcode.continuation)
        | inr e ↦
            let grown : FragmentBuffer = record buffer {
              data_bytes = buffer.data_bytes ++ f.payload;
            } in
            let r2 : Connection S = record r1 { fragment = some grown } in
            let joined : grown.data_bytes ++ drop max_size rest ≡ buffer.data_bytes ++ rest =
              append_assoc buffer.data_bytes f.payload (drop max_size rest)
              ∙ ap (◌++◌ buffer.data_bytes) (take-append-drop max_size rest) in
            let long : max_size < length rest = ground arith in
            let rest_read =
              read_fragments fuel n max_size grown (drop max_size rest) more r2
                (omega (arith, length-drop max_size rest)) (omega arith) l3
                (omega (arith, length-drop max_size rest))
                (omega (arith, length-drop max_size rest)) a refl
                (omega (
                  arith,
                  ap length joined,
                  length-append grown.data_bytes (drop max_size rest),
                  length-append buffer.data_bytes rest,
                ))
                (λ h. rw joined (u h)) refl in
            read_loop-goes_on io n r r1 r2 f taken (
              handle_frame-continuation io f r1 refl
              ∙ handle_continuation-more io f buffer r1 e fr
                  (omega (arith, length-take max_size rest)))
            ∙ rest_read
            ∙ rw joined refl
      ]

  -- A message in fragments, from the first of them.
  read_parts :
      (is_text : Bool) (fuel n max_size : ℕ) (payload more : Bytes) (r : Connection S)
      → length payload ≤ suc fuel
      → suc fuel < suc n
      → 1 ≤ max_size
      → max_size < length payload
      → length payload + 14 ≤ usize_max
      → r.config.accept_unmasked_frames ≡ true
      → r.fragment ≡ none
      → length payload ≤ r.config.max_message_size
      → (is_text ≡ true → from_utf8 payload ≡ some payload)
      → r.read_bytes ≡ fragment_bytes (suc fuel) max_size (data_opcode is_text) payload ++ more
      → read_loop io (suc n) r
        ≡ some (
          record r { fragment = none; read_bytes = more },
          ok (some (as_message is_text payload)),
        )
  read_parts is_text fuel n max_size payload more r l1 l2 l3 long l5 a fr lm u b =
      let f = piece max_size (data_opcode is_text) payload in
      let behind = fragment_bytes fuel max_size Opcode.continuation (drop max_size payload) in
      let r1 : Connection S = record r { read_bytes = behind ++ more } in
      let buffer : FragmentBuffer = record { is_text = is_text; data_bytes = f.payload } in
      let r2 : Connection S = record r1 { fragment = some buffer } in
      let joined = take-append-drop max_size payload in
      let taken =
        try_parse_frame-encode f (behind ++ more) r
          (piece-IsSendable max_size (data_opcode is_text) payload (data_opcode_lem is_text) l5) a
          (b
            ∙ fragment_bytes-cons fuel max_size (data_opcode is_text) payload more (omega arith)) in
      read_loop-goes_on io n r r1 r2 f taken (
        handle_frame-first io is_text f r1 refl
        ∙ handle_first_frame-part io is_text f r1 (lt→leb (length payload) max_size long) fr
            (omega (arith, length-take max_size payload, length-drop max_size payload)))
      ∙ read_fragments fuel n max_size buffer (drop max_size payload) more r2
          (omega (arith, length-take max_size payload, length-drop max_size payload)) (omega arith)
          l3 (omega (arith, length-take max_size payload, length-drop max_size payload))
          (omega (arith, length-take max_size payload, length-drop max_size payload)) a refl
          (omega (arith, length-take max_size payload, length-drop max_size payload))
          (λ h. rw joined (u h)) refl
      ∙ rw joined refl

  read_data_bytes :
      (is_text : Bool) (n max_size : ℕ) (payload more : Bytes) (r : Connection S)
      → length payload < n
      → 1 ≤ max_size
      → length payload + 14 ≤ usize_max
      → r.config.accept_unmasked_frames ≡ true
      → r.fragment ≡ none
      → length payload ≤ r.config.max_message_size
      → (is_text ≡ true → from_utf8 payload ≡ some payload)
      → r.read_bytes ≡ data_bytes max_size (data_opcode is_text) payload ++ more
      → read_loop io n r
        ≡ some (record r { read_bytes = more }, ok (some (as_message is_text payload)))
  unfolding data_bytes
  read_data_bytes is_text zero max_size payload more r l1 l2 l3 a fr lm u b = absurd (omega arith)
  read_data_bytes is_text (suc n) max_size payload more r l1 l2 l3 a fr lm u b =
      elim (Bool-cases (leb (length payload) max_size)) [
        | inl e ↦
            let f : Frame = record {
              fin = true;
              opcode = data_opcode is_text;
              payload = payload;
            } in
            let r1 : Connection S = record r { read_bytes = more } in
            ground (
              arith,
              read_loop-returns io (suc n) r r1 r1 f (as_message is_text payload) (omega arith)
                  (try_parse_frame-encode f more r (ground (arith, data_opcode_lem is_text)) a
                    (ground arith))
                  (handle_frame-first io is_text f r1 refl
                    ∙ handle_first_frame-whole io is_text f r1 refl fr lm u),
            )
        | inr e ↦
            let k = length payload - 1 in
            let long : max_size < length payload = ground arith in
            let size : length payload ≡ suc k = omega arith in
            ground (
              arith,
              read_parts is_text k n max_size payload more r (omega arith) (omega arith) l2 long l3
                  a fr lm u (ground arith),
            )
      ]

module _ {S R : Type 0} (io : AsyncStream S) (t : Transcript io) (other : AsyncStream R) where
  -- A text or binary message that one end has sent, whole or in fragments of any size, is read by
  -- the other end as it was, text as text. The other end has received the bytes that were written,
  -- whatever follows them, and keeps what follows; it accepts frames that are not masked, is not
  -- closed, is in no other message, and lets the length through; the text is UTF-8, and the
  -- length with a header is a `usize`.
  pub read_message-write_message :
      (is_text : Bool) (fuel : ℕ) (payload sent more : Bytes) (c c' : Connection S)
      → (r : Connection R) → write_message io (as_message is_text payload) c ≡ (c', ok tt)
      → t.written c'.stream ≡ t.written c.stream ++ sent
      → r.read_bytes ≡ sent ++ more
      → r.config.accept_unmasked_frames ≡ true
      → is_closed r.state ≡ false
      → r.fragment ≡ none
      → length payload ≤ r.config.max_message_size
      → length payload + 14 ≤ usize_max
      → (is_text ≡ true → from_utf8 payload ≡ some payload)
      → length payload < fuel
      → read_message other fuel r
        ≡ some (record r { read_bytes = more }, ok (some (as_message is_text payload)))
  unfolding read_message
  read_message-write_message is_text fuel payload sent more c c' r h w b a st fr lm l u n =
      let bytes = write_message-written io t is_text payload sent c c' h w in
      ground (
        arith,
        read_data_bytes other is_text fuel (max c.config.max_frame_size 1) payload more r n
            (omega arith) l a fr lm u (b ∙ ap (λ s. s ++ more) bytes),
      )
