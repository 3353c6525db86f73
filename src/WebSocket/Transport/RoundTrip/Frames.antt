-- ===== src/WebSocket/Transport/RoundTrip/Frames.antt =====
-- What one round of `read_message` does with a frame of a message.
use michael.Prelude.Streams.{AsyncStream}
use michael.Prelude.{
  ℕ, zero, suc, ◌+◌, ◌≤◌, Bool, true, false, ◌++◌, Option, none, some, ◌≡◌, refl, arith, length, ok,
  length-append, drop-append_self,
}
use michael.Prelude.Text.{Bytes, from_utf8}
use michael.WebSocket.Frame.{Opcode, Frame, encode}
use michael.WebSocket.Lenient.RoundTrip.{IsSendable, parse_lenient-encode, parse-encode}
use michael.WebSocket.Transport.{
  FragmentBuffer, Message, Connection, try_parse_frame, handle_first_frame, handle_continuation,
  finish_data_message, check_message_size,
}
use michael.WebSocket.Transport.Receive.{handle_frame, after_handle, read_round, read_loop}
use michael.WebSocket.Transport.RoundTrip.Written.{as_message, data_opcode}

module _ {S : Type 0} where
  -- A frame of the encoder is taken from the front of the buffer, where the end of the connection
  -- accepts frames that are not masked.
  pub try_parse_frame-encode :
      (f : Frame) (more : Bytes) (r : Connection S)
      → IsSendable f
      → r.config.accept_unmasked_frames ≡ true
      → r.read_bytes ≡ encode f ++ more
      → try_parse_frame r ≡ (record r { read_bytes = more }, ok (some f))
  unfolding try_parse_frame
  try_parse_frame-encode f more r v a b =
      let (e, refused) = parse-encode f more v in
      ground (
        arith,
        parse_lenient-encode f more v,
        drop-append_self (length (encode f)) (encode f) more refl,
      )

module _ {S : Type 0} (io : AsyncStream S) where
  -- The last fragment completes the message, and the ones before it are kept.
  pub handle_continuation-last :
      (f : Frame) (buffer : FragmentBuffer) (r : Connection S)
      → f.fin ≡ true
      → r.fragment ≡ some buffer
      → length buffer.data_bytes + length f.payload ≤ r.config.max_message_size
      → (buffer.is_text ≡ true
          → from_utf8 (buffer.data_bytes ++ f.payload) ≡ some (buffer.data_bytes ++ f.payload))
      → handle_continuation f r ≡ (
        record r { fragment = none },
        ok (some (as_message buffer.is_text (buffer.data_bytes ++ f.payload))),
      )
  unfolding handle_continuation finish_data_message check_message_size
  handle_continuation-last f buffer r fin h l u =
      ground (arith, length-append buffer.data_bytes f.payload)

  pub handle_continuation-more :
      (f : Frame) (buffer : FragmentBuffer) (r : Connection S)
      → f.fin ≡ false
      → r.fragment ≡ some buffer
      → length buffer.data_bytes + length f.payload ≤ r.config.max_message_size
      → handle_continuation f r ≡ (
        record r {
          fragment = some (record buffer { data_bytes = buffer.data_bytes ++ f.payload });
        },
        ok none,
      )
  unfolding handle_continuation
  handle_continuation-more f buffer r fin h l = ground arith

  pub read_round-frame :
      (f : Frame) (r r1 r2 : Connection S) (o : Option Message)
      → try_parse_frame r ≡ (r1, ok (some f))
      → handle_frame io f r1 ≡ (r2, ok o)
      → read_round io r ≡ after_handle io o r2
  unfolding read_round
  read_round-frame f r r1 r2 o p h = ground arith

  pub read_loop-returns :
      (n : ℕ) (r r1 r2 : Connection S) (f : Frame) (m : Message)
      → 1 ≤ n
      → try_parse_frame r ≡ (r1, ok (some f))
      → handle_frame io f r1 ≡ (r2, ok (some m))
      → read_loop io n r ≡ some (r2, ok (some m))
  unfolding read_loop
  read_loop-returns zero r r1 r2 f m l p h = absurd (omega arith)
  read_loop-returns (suc n) r r1 r2 f m l p h =
      ground (arith, read_round-frame f r r1 r2 (some m) p h)

  pub read_loop-goes_on :
      (n : ℕ) (r r1 r2 : Connection S) (f : Frame)
      → try_parse_frame r ≡ (r1, ok (some f))
      → handle_frame io f r1 ≡ (r2, ok none)
      → read_loop io (suc n) r ≡ read_loop io n r2
  unfolding read_loop
  read_loop-goes_on n r r1 r2 f p h = ground (arith, read_round-frame f r r1 r2 none p h)

  pub handle_frame-continuation :
      (f : Frame) (r : Connection S)
      → f.opcode ≡ Opcode.continuation
      → handle_frame io f r ≡ handle_continuation f r
  unfolding handle_frame
  handle_frame-continuation f r e = ground arith

  pub handle_first_frame-whole :
      (is_text : Bool) (f : Frame) (r : Connection S)
      → f.fin ≡ true
      → r.fragment ≡ none
      → length f.payload ≤ r.config.max_message_size
      → (is_text ≡ true → from_utf8 f.payload ≡ some f.payload)
      → handle_first_frame is_text f r ≡ (r, ok (some (as_message is_text f.payload)))
  unfolding handle_first_frame finish_data_message check_message_size
  handle_first_frame-whole true f r fin h l u = ground arith
  handle_first_frame-whole false f r fin h l u = ground arith

  pub handle_first_frame-part :
      (is_text : Bool) (f : Frame) (r : Connection S)
      → f.fin ≡ false
      → r.fragment ≡ none
      → length f.payload ≤ r.config.max_message_size
      → handle_first_frame is_text f r ≡ (
        record r { fragment = some (record { is_text = is_text; data_bytes = f.payload }) },
        ok none,
      )
  unfolding handle_first_frame check_message_size
  handle_first_frame-part is_text f r fin h l = ground arith

  pub handle_frame-first :
      (is_text : Bool) (f : Frame) (r : Connection S)
      → f.opcode ≡ data_opcode is_text
      → handle_frame io f r ≡ handle_first_frame is_text f r
  unfolding handle_frame
  handle_frame-first true f r e = ground arith
  handle_frame-first false f r e = ground arith
