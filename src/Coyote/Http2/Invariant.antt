-- ===== src/Coyote/Http2/Invariant.antt =====
-- Every handler keeps the books of the connection, also where it fails.
pub mod Answering
use michael.Prelude.{
  ℕ, zero, suc, ◌+◌, ◌-◌, ◌%◌, ◌≤◌, ◌<◌, Bool, true, false, not, ◌&&◌, ◌||◌, List, [], ◌∷◌, ◌++◌,
  Option, none, some, Result, ok, err, ◌≡◌, refl, sym, ap, ◌∙◌, inl, inr, arith, ltb, leb, ◌==◌,
  length, is_empty, drop, if◌then◌else◌, Bool-cases, Option-cases, Result-cases, ltb→le, ltb→lt,
}
use mathlib.Core.Path.{subst}
use michael.Prelude.Int.{ℤ, pos, ◌+ℤ◌, sub_ℕ, ltb_ℤ}
use michael.Prelude.Streams.{AsyncStream}
use michael.Prelude.Text.{Bytes}
use michael.Coyote.Http1.{Headers}
use michael.Coyote.Http1.Reading.{Request}
use michael.Coyote.Hpack.Decoder.Failing.{decode_mut}
use michael.Coyote.Http2.{Frame, parse}
use michael.Coyote.Http2.Encode.{encode}
use michael.Coyote.Http2.Request.{build_request}
use michael.Coyote.Http2.Settings.{
  Http2Error, StreamState, closed, apply_all, on_recv_headers, on_recv_data, on_stream,
  refused_stream_code,
}
use michael.Coyote.Http2.Connection.{
  Connection, Stream, Run, ◌>>◌, and_then, done, modify, with_stream, find_stream, put_stream,
  retire_closed_streams, on_window_update, on_rst_stream, try_dispatch, finish_header_block,
  receive_headers, on_continuation, with_headers, new_stream, header_block_hard_cap, shift_windows,
}
use michael.Coyote.Http2.Receive.{
  send_frame, send, settle, on_settings, on_ping, admit, on_headers, replenish, receive_data,
  on_data, handle_frame, dispatch_frame, process_frames, process_buffered_frames, close_stream,
  handle_protocol_error,
}
use michael.Coyote.Http2.Ledger.{Ledger, IsSound, IsSoundStream, served_ids, served_ids-append}
use michael.Coyote.Http2.Ledger.Moves as Moves

-- A stream that may stand in the map of the connection.
abbrev pub Belongs : {S : Type 0} → Connection S → Stream → Type 0
Belongs c =
    IsSoundStream c.local_settings.initial_window_size c.last_stream_id (served_ids c.serviced)

module _ {A : Type 0} (P : A → Type 0) where
  pub either : (b : Bool) {x y : A} → P x → P y → P (if b then x else y)
  either true p q = p
  either false p q = q

  pub branch : (b : Bool) {x y : A} → (b ≡ true → P x) → (b ≡ false → P y) → P (if b then x else y)
  branch true p q = p refl
  branch false p q = q refl

module _ {S : Type 0} where
  abbrev pub Left : {A : Type 0} → Connection S × A → Type 0
  Left r = IsSound r.0

  abbrev pub Keeps : {A : Type 0} → Run S A → Type 0
  Keeps m = (c : Connection S) → IsSound c → IsSound (m c).0

  -- What the first part of a chain leaves, the second one is given, unless the first has failed.
  and_then-left :
      {A : Type 0} (P Q : Connection S → Type 0) (r : Connection S × Result Http2Error (Unit {0}))
      (k : Run S A)
      → P r.0
      → ((d : Connection S) → P d → Q d)
      → ((d : Connection S) → P d → Q (k d).0)
      → Q (and_then r (λ u. k)).0
  and_then-left P Q (c, ok u) k p weaken h = h c p
  and_then-left P Q (c, err e) k p weaken h = weaken c p

  pub seq :
      {A : Type 0} (P Q : Connection S → Type 0) (m : Run S (Unit {0})) (k : Run S A)
      (c : Connection S)
      → P (m c).0
      → ((d : Connection S) → P d → Q d)
      → ((d : Connection S) → P d → Q (k d).0)
      → Q ((m >> k) c).0
  seq P Q m k c p weaken h = and_then-left P Q (m c) k p weaken h

  pub retire-IsSound : Keeps {A = Unit {0}} (λ c. (retire_closed_streams c, ok tt))
  unfolding retire_closed_streams
  retire-IsSound c v = Moves.retire v

  pub on_window_update-IsSound : (id increment : ℕ) → Keeps (on_window_update id increment)
  unfolding on_window_update
  on_window_update-IsSound id increment c v = elim (Option-cases (find_stream id c.streams)) [
    | inl missing ↦
        rw (missing, on_window_update)
          (either Left (increment == 0) (either Left (id == 0) v v) (either Left (id == 0) v v))
    | inr (s, there) ↦
        rw (there, on_window_update)
          (either Left (increment == 0) (either Left (id == 0) v v)
            (either Left (id == 0) v (Moves.put v _ (Moves.found v id s there))))
  ]

  pub try_dispatch-IsSound :
      (s : Stream) (c : Connection S) → Belongs c s → IsSound c → IsSound (try_dispatch s c).0
  unfolding try_dispatch
  try_dispatch-IsSound s c b v =
      let said = record s { dispatched = true; body = [] } in
      elim (Bool-cases s.dispatched) [
        | inl already ↦ rw already v
        | inr fresh ↦ elim (Result-cases (build_request s.headers s.body)) [
          | inl (request, made) ↦
              rw (fresh, made, try_dispatch)
                (rw (served_ids-append c.serviced s.id request)
                  (Moves.hand_on v s said b fresh refl b.1 refl))
          | inr (e, made) ↦
              rw (fresh, made, try_dispatch) (Moves.put v said (b.0, b.1, λ unsaid. cc))
        ]
      ]

  pub on_rst_stream-IsSound : (id : ℕ) → Keeps (on_rst_stream id)
  unfolding on_rst_stream
  on_rst_stream-IsSound id c v = elim (Option-cases (find_stream id c.streams)) [
    | inl missing ↦ rw (missing, on_rst_stream) (either Left (id == 0) v v)
    | inr (s, there) ↦
        rw (there, on_rst_stream)
          (either Left (id == 0) v (
            retire-IsSound (with_stream (record s { state = closed }) c)
              (Moves.put v _ (Moves.found v id s there))))
  ]

  with_headers-Belongs :
      (c : Connection S) (s : Stream) (headers : Headers)
      → Belongs c s
      → Belongs c (with_headers s headers)
  with_headers-Belongs c s headers b = elim (Bool-cases s.headers_decoded) [
    | inl trailers ↦ rw trailers b
    | inr first ↦ rw first b
  ]

  finish_header_block-IsSound :
      (s : Stream) (c : Connection S)
      → Belongs c s
      → IsSound c
      → IsSound (finish_header_block s c).0
  unfolding finish_header_block
  finish_header_block-IsSound s c b v =
      let (decoder, decoded) = decode_mut c.hpack_decoder s.header_block in
      let taken = record s { header_block = [] } in
      let c' : Connection S = with_stream taken (record c { hpack_decoder = decoder }) in
      let v' : IsSound c' = Moves.put v taken b in
      elim (Result-cases decoded) [
        | inl (headers, p) ↦
            let read = with_headers taken headers in
            let belongs : Belongs c' read = with_headers-Belongs c' taken headers b in
            rw (p, finish_header_block)
              (either Left s.headers_end_stream
                (try_dispatch-IsSound read (with_stream read c') belongs
                  (Moves.put v' read belongs))
                (Moves.put v' read belongs))
        | inr (e, p) ↦ rw (p, finish_header_block) v'
      ]

  pub receive_headers-IsSound :
      (s : Stream) (block : Bytes) (end_stream end_headers : Bool) (c : Connection S)
      → Belongs c s
      → IsSound c
      → IsSound (receive_headers s block end_stream end_headers c).0
  unfolding receive_headers
  receive_headers-IsSound s block end_stream end_headers c b v =
      elim (Result-cases (on_recv_headers s.state end_stream)) [
        | inl (state, p) ↦
            let s' = record s {
              state = state;
              headers_end_stream = end_stream;
              header_block = s.header_block ++ block;
              awaiting_continuation = not end_headers;
            } in
            let v' : IsSound (with_stream s' c) = Moves.put v s' b in
            rw (p, receive_headers)
              (either Left (ltb header_block_hard_cap (length s'.header_block)) v' (
                either Left end_headers (finish_header_block-IsSound s' (with_stream s' c) b v')
                  v'))
        | inr (e, p) ↦ rw (p, receive_headers) v
      ]

  pub on_continuation-IsSound :
      (id : ℕ) (block : Bytes) (end_headers : Bool) → Keeps (on_continuation id block end_headers)
  unfolding on_continuation
  on_continuation-IsSound id block end_headers c v =
      elim (Option-cases (find_stream id c.streams)) [
        | inl missing ↦ rw (missing, on_continuation) v
        | inr (s, there) ↦
            let b = Moves.found v id s there in
            let s' = record s { header_block = s.header_block ++ block } in
            let last = record s' { awaiting_continuation = false } in
            rw (there, on_continuation)
              (either Left (not s.awaiting_continuation) v (
                either Left (ltb header_block_hard_cap (length s'.header_block)) (Moves.put v s' b)
                  (either Left end_headers
                    (finish_header_block-IsSound last (with_stream last c) b (Moves.put v last b))
                    (Moves.put v s' b))))
      ]
