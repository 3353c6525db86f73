-- ===== src/Coyote/Http2/Delivery.antt =====
-- A body that the windows have room for reaches the peer.
use michael.Prelude.{
  ℕ, zero, suc, ◌+◌, ◌-◌, ◌^◌, ◌≤◌, ◌<◌, true, false, List, [], ◌∷◌, ◌++◌, some, ok, ◌≡◌, refl, sym,
  ap, ◌∙◌, arith, ◌==◌, is_empty, length, take, drop, min, append-nil, append_assoc,
  take-append-drop, length-take, length-drop, drop-append_self,
}
use mathlib.Core.Path.{subst}
use michael.Prelude.Int.{pos, pos_part, ◌-ℤ◌}
use michael.Prelude.Streams.{AsyncStream, Transcript}
use michael.Prelude.Text.{Bytes}
use michael.Coyote.Http2.{Frame, parse}
use michael.Coyote.Http2.Encode.{encode, frame_parts}
use michael.Coyote.Http2.RoundTrip.{parse-encode}
use michael.Coyote.Http2.Connection.{Connection, Stream, find_stream, put_stream, with_stream}
use michael.Coyote.Http2.Receive.{send_frame}
use michael.Coyote.Http2.Send.{
  Outcome, finished, spend, send_budget, has_credit, write_chunk, write_body,
}

-- A peer that parses frames of at most `max` bytes reads from `out` the DATA frames of a stream, of
-- which the last ends it, and their contents together are the body.
pub data Receives (max id : ℕ) : Bytes → Bytes → Type 0 where
  last :
      {out body : Bytes}
      → parse out max ≡ ok (some (Frame.data_frame id body true, length out))
      → Receives max id out body
  more :
      {out body : Bytes} (content rest : Bytes) (n : ℕ)
      → parse out max ≡ ok (some (Frame.data_frame id content false, n))
      → Receives max id (drop n out) rest
      → body ≡ content ++ rest
      → Receives max id out body

find_stream-id :
    (id : ℕ) (streams : List Stream) (s : Stream) → find_stream id streams ≡ some s → s.id ≡ id
unfolding find_stream
find_stream-id id [] s h = cc
find_stream-id id (t ∷ streams) s h = ground (arith, find_stream-id id streams s)

find_stream-put :
    (id : ℕ) (streams : List Stream) (s new : Stream)
    → new.id ≡ id
    → find_stream id streams ≡ some s
    → find_stream id (put_stream new streams) ≡ some new
unfolding find_stream put_stream
find_stream-put id [] s new e h = cc
find_stream-put id (t ∷ streams) s new e h = ground (arith, find_stream-put id streams s new)

-- A budget within a window is taken from it.
window_left :
    (s : Stream) (b : ℕ)
    → b ≤ pos_part s.send_window
    → pos_part (s.send_window -ℤ pos b) ≡ pos_part s.send_window - b
unfolding ◌-ℤ◌
window_left s b h = ground arith

module _ {S : Type 0} (io : AsyncStream S) (transcript : Transcript io)
    (reliable : (s : S) (bytes : Bytes) → (io.write_all s bytes).1 ≡ true) where
  open transcript use {written, write_all-written}

  -- What a body of `n` bytes needs: a stream and windows that take it, frames that hold a byte,
  -- and numbers within the wire form.
  pub record Fits (c : Connection S) (id n : ℕ) : Type 0 where
    pub stream : Stream
    pub found : find_stream id c.streams ≡ some stream
    pub in_stream : n ≤ pos_part stream.send_window
    pub in_connection : n ≤ c.conn_send_window
    pub frame_pos : 1 ≤ c.peer_settings.max_frame_size
    pub frame_lt : c.peer_settings.max_frame_size < 2 ^ 24
    pub id_lt : id < 2 ^ 31

  abbrev chunk_frame : ℕ → ℕ → Bytes → Frame
  chunk_frame id b body = Frame.data_frame id (take b body) (is_empty (drop b body))

  -- The connection behind a chunk.
  abbrev after : (c : Connection S) → Stream → ℕ → ℕ → Bytes → Connection S
  after c stream id b body =
      let spent =
        with_stream (record stream { send_window = stream.send_window -ℤ pos b })
          (record c { conn_send_window = c.conn_send_window - b }) in
      record spent { io = (io.write_all c.io (encode (chunk_frame id b body))).0 }

  spend-found :
      (c : Connection S) (stream : Stream) (id b : ℕ)
      → find_stream id c.streams ≡ some stream
      → spend id b c
        ≡ with_stream
            (record stream { send_window = stream.send_window -ℤ pos b })
            (record c { conn_send_window = c.conn_send_window - b })
  unfolding spend
  spend-found c stream id b found = rw (found, spend) refl

  write_chunk-after :
      (c : Connection S) (stream : Stream) (id b : ℕ) (body : Bytes)
      → find_stream id c.streams ≡ some stream
      → write_chunk io id b body c ≡ (after c stream id b body, true)
  unfolding write_chunk send_frame
  write_chunk-after c stream id b body found =
      rw (spend-found c stream id b found, reliable c.io (encode (chunk_frame id b body))) refl

  after-Fits :
      (c : Connection S) (id n b : ℕ) (body : Bytes) (f : Fits c id n)
      → b ≤ n
      → Fits (after c f.stream id b body) id (n - b)
  after-Fits c id n b body f h = record {
    stream = record f.stream { send_window = f.stream.send_window -ℤ pos b };
    found =
        find_stream-put id c.streams f.stream _ (find_stream-id id c.streams f.stream f.found)
          f.found;
    in_stream = omega (arith, f.in_stream, window_left f.stream b (omega (arith, f.in_stream)));
    in_connection = omega (arith, f.in_connection);
    frame_pos = f.frame_pos;
    frame_lt = f.frame_lt;
    id_lt = f.id_lt;
  }

  -- With room in the windows, the budget is what is left, or a whole frame.
  budget_of :
      (c : Connection S) (id b : ℕ) (rest : Bytes) (f : Fits c id (length (b ∷ rest)))
      → (send_budget id (b ∷ rest) c ≡ min (length (b ∷ rest)) c.peer_settings.max_frame_size)
        × (has_credit id c ≡ true)
  budget_of c id b rest f = rw f.found (ground (arith, f.in_stream, f.in_connection, f.frame_pos))

  abbrev chunk_of : Connection S → Bytes → ℕ
  chunk_of c body = min (length body) c.peer_settings.max_frame_size

  write_body-step :
      (fuel : ℕ) (c : Connection S) (id b : ℕ) (rest : Bytes) (f : Fits c id (length (b ∷ rest)))
      → write_body io (suc fuel) id (b ∷ rest) c
        ≡ write_body io fuel id
            (drop (chunk_of c (b ∷ rest)) (b ∷ rest))
            (after c f.stream id (chunk_of c (b ∷ rest)) (b ∷ rest))
  unfolding write_body
  write_body-step fuel c id b rest f =
      let (whole, credit) = budget_of c id b rest f in
      let some_bytes : (chunk_of c (b ∷ rest) == 0) ≡ false = ground (arith, f.frame_pos) in
      rw
        (
          credit,
          whole,
          write_chunk-after c f.stream id (chunk_of c (b ∷ rest)) (b ∷ rest) f.found,
          some_bytes,
        )
        refl

  -- What the peer has received of the body, and what the connection has spent.
  abbrev Delivers : Connection S → ℕ → Bytes → Connection S × Outcome → Type 0
  Delivers c id body (c', outcome) =
      (outcome ≡ finished)
      × (c'.conn_send_window + length body ≡ c.conn_send_window)
      × ((out : Bytes) × (written c'.io ≡ written c.io ++ out)
          × Receives c.peer_settings.max_frame_size id out body)

  chunk-parses :
      (c : Connection S) (id n : ℕ) (body rest : Bytes)
      → Fits c id n
      → parse
          (encode (chunk_frame id (chunk_of c body) body) ++ rest)
          c.peer_settings.max_frame_size
        ≡ ok (
            some (
              chunk_frame id (chunk_of c body) body,
              length (encode (chunk_frame id (chunk_of c body) body)),
            ))
  unfolding frame_parts
  chunk-parses c id n body rest f =
      parse-encode (chunk_frame id (chunk_of c body) body) c.peer_settings.max_frame_size rest
        f.id_lt (omega (arith, length-take (chunk_of c body) body)) f.frame_lt

  -- Behind a chunk the peer has its bytes, and the rest of the body is delivered by the rest of the
  -- loop.
  joined :
      (c : Connection S) (id : ℕ) (body left : Bytes) (f : Fits c id (length body))
      → drop (chunk_of c body) body ≡ left
      → (r : Connection S × Outcome)
      → (0 < length left → Delivers (after c f.stream id (chunk_of c body) body) id left r)
      → (left ≡ [] → r ≡ (after c f.stream id (chunk_of c body) body, finished))
      → Delivers c id body r
  joined c id body [] f e r tail none_left =
      let m = chunk_of c body in
      let frame = chunk_frame id m body in
      let all : take m body ≡ body =
        sym (append-nil (take m body))
        ∙ ap (λ x. take m body ++ x) (sym e)
        ∙ take-append-drop m body in
      let same : frame ≡ Frame.data_frame id body true = rw (all, e) refl in
      let read : parse (encode frame) c.peer_settings.max_frame_size
          ≡ ok (some (frame, length (encode frame))) =
        ap (λ x. parse x c.peer_settings.max_frame_size) (sym (append-nil (encode frame)))
        ∙ chunk-parses c id (length body) body [] f in
      rw (none_left refl) (
        refl,
        omega (arith, f.in_connection, ap length e, length-drop m body),
        (
          encode frame,
          write_all-written c.io (encode frame) (reliable c.io (encode frame)),
          Receives.last (read ∙ ap (λ g. ok (some (g, length (encode frame)))) same),
        ),
      )
  joined c id body (x ∷ left) f e r tail none_left =
      let m = chunk_of c body in
      let frame = chunk_frame id m body in
      let (done, spent, (out, wrote, received)) = tail (omega arith) in
      (
        done,
        omega (arith, f.in_connection, ap length e, length-drop m body),
        (
          encode frame ++ out,
          wrote
              ∙ rw (write_all-written c.io (encode frame) (reliable c.io (encode frame)))
                  (append_assoc (written c.io) (encode frame) out),
          Receives.more (take m body) (x ∷ left) (length (encode frame))
              (chunk-parses c id (length body) body out f
                ∙ ap
                    (λ l. ok (
                      some (Frame.data_frame id (take m body) (is_empty l), length (encode frame))))
                    e)
              (rw (drop-append_self (length (encode frame)) (encode frame) out refl) received)
              (sym (rw (← e) (take-append-drop m body))),
        ),
      )

  empty_body : (fuel : ℕ) (c : Connection S) (id : ℕ) → write_body io fuel id [] c ≡ (c, finished)
  unfolding write_body
  empty_body zero c id = refl
  empty_body (suc fuel) c id = refl

  -- Where both windows have room for a body that is not empty, `write_body` ends, with a round for
  -- each byte at most. It has written DATA frames within the peer's limit on frames; the peer reads
  -- the whole body from them, up to the end of the stream; and the connection's window has shrunk
  -- by the length of the body. The stream takes every write, and the limit and the stream's
  -- identifier are within the wire form.
  pub write_body-Receives :
      (fuel : ℕ) (c : Connection S) (id : ℕ) (body : Bytes)
      → Fits c id (length body)
      → 0 < length body
      → length body ≤ fuel
      → ((write_body io fuel id body c).1 ≡ finished)
        × ((write_body io fuel id body c).0.conn_send_window + length body ≡ c.conn_send_window)
        × ((out : Bytes) × (written (write_body io fuel id body c).0.io ≡ written c.io ++ out)
            × Receives c.peer_settings.max_frame_size id out body)
  write_body-Receives fuel c id [] f p k = absurd (omega arith)
  write_body-Receives zero c id (b ∷ rest) f p k = absurd (omega arith)
  write_body-Receives (suc fuel) c id (b ∷ rest) f p k =
      let m = chunk_of c (b ∷ rest) in
      let left = drop m (b ∷ rest) in
      let next = after c f.stream id m (b ∷ rest) in
      let short = length-drop m (b ∷ rest) in
      let fits : Fits next id (length left) =
        subst (Fits next id) (sym short)
          (after-Fits c id (length (b ∷ rest)) m (b ∷ rest) f (omega arith)) in
      rw (write_body-step fuel c id b rest f) (
        joined c id (b ∷ rest) left f refl (write_body io fuel id left next)
          (λ some_left.
            write_body-Receives fuel next id left fits some_left
              (omega (arith, short, f.frame_pos)))
          (λ none_left. ap (λ l. write_body io fuel id l next) none_left ∙ empty_body fuel next id))
