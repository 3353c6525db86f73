-- ===== src/Coyote/Http2/Invariant/Answering.antt =====
-- The same for the handlers that answer on the stream.
use michael.Prelude.{
  ℕ, ◌+◌, ◌-◌, ◌%◌, ◌≤◌, ◌<◌, Bool, true, false, not, ◌||◌, List, [], ◌∷◌, ◌++◌, Result, inl, inr,
  arith, ltb, leb, ◌==◌, length, is_empty, if◌then◌else◌, Option-cases, Result-cases, ltb→le,
}
use michael.Prelude.Int.{sub_ℕ}
use michael.Prelude.Streams.{AsyncStream}
use michael.Prelude.Text.{Bytes}
use michael.Coyote.Http2.{Frame}
use michael.Coyote.Http2.Settings.{Http2Error, apply_all, on_recv_data, refused_stream_code}
use michael.Coyote.Http2.Connection.{
  Connection, Stream, Run, ◌>>◌, done, modify, with_stream, find_stream, try_dispatch, new_stream,
  shift_windows,
}
use michael.Coyote.Http2.Receive.{
  send_frame, send, settle, on_settings, on_ping, admit, on_headers, replenish, receive_data,
  on_data,
}
use michael.Coyote.Http2.Ledger.{IsSound}
use michael.Coyote.Http2.Ledger.Moves as Moves
use michael.Coyote.Http2.Invariant.{
  Belongs, Keeps, Left, either, branch, seq, try_dispatch-IsSound, receive_headers-IsSound,
}

module _ {S : Type 0} (io : AsyncStream S) where
  send-IsSound : (frame : Frame) → Keeps (send io frame)
  unfolding send send_frame
  send-IsSound frame c v = v

  settle-IsSound : (old_initial : ℕ) → Keeps (settle io old_initial)
  unfolding settle
  settle-IsSound old_initial c v =
      let new_initial = c.peer_settings.initial_window_size in
      let delta = sub_ℕ new_initial old_initial in
      let moved : Connection S = record c { streams = (shift_windows delta c.streams).0 } in
      let v' : IsSound moved = Moves.shift v delta in
      let ack = Frame.settings true [] in
      either Left (new_initial == old_initial) (send-IsSound ack c v)
        (either Left (shift_windows delta c.streams).1 (send-IsSound ack moved v') v')

  pub on_settings-IsSound : (ack : Bool) (params : List (ℕ × ℕ)) → Keeps (on_settings io ack params)
  unfolding on_settings
  on_settings-IsSound true params c v =
      either (Left {A = Result Http2Error (Unit {0})}) (not (is_empty params)) v v
  on_settings-IsSound false params c v =
      let (peer, applied) = apply_all c.peer_settings params in
      elim (Result-cases applied) [
        | inl (u, p) ↦
            rw (p, on_settings)
              (settle-IsSound c.peer_settings.initial_window_size
                (record c { peer_settings = peer }) v)
        | inr (e, p) ↦ rw (p, on_settings) v
      ]

  pub on_ping-IsSound : (ack : Bool) (payload : Bytes) → Keeps (on_ping io ack payload)
  unfolding on_ping
  on_ping-IsSound true payload c v = v
  on_ping-IsSound false payload c v = send-IsSound (Frame.ping true payload) c v

  admit-IsSound :
      (id : ℕ) (block : Bytes) (end_stream end_headers : Bool) (c : Connection S)
      → IsSound c
      → c.last_stream_id < id
      → IsSound (admit io id block end_stream end_headers (record c { last_stream_id = id })).0
  unfolding admit
  admit-IsSound id block end_stream end_headers c v h =
      let stream =
        new_stream id c.local_settings.initial_window_size c.peer_settings.initial_window_size in
      let raised : Connection S = record c { last_stream_id = id } in
      let opened : Connection S = record raised {
        streams = stream ∷ c.streams;
        open_stream_count = c.open_stream_count + 1;
      } in
      branch Left (leb c.local_settings.max_concurrent_streams c.open_stream_count)
        (λ full.
          send-IsSound (Frame.rst_stream id refused_stream_code) raised
            (Moves.raise v id (omega arith)))
        (λ room.
          let v' : IsSound opened =
            Moves.admit_new v id c.peer_settings.initial_window_size h (ground arith) in
          receive_headers-IsSound stream block end_stream end_headers opened v'.sound.0 v')

  pub on_headers-IsSound :
      (id : ℕ) (block : Bytes) (end_stream end_headers : Bool)
      → Keeps (on_headers io id block end_stream end_headers)
  unfolding on_headers
  on_headers-IsSound id block end_stream end_headers c v =
      elim (Option-cases (find_stream id c.streams)) [
        | inl missing ↦
            rw (missing, on_headers)
              (either Left ((id == 0) || (id % 2 == 0)) v (
                branch Left (leb id c.last_stream_id) (λ old. v)
                  (λ up. admit-IsSound id block end_stream end_headers c v (ground arith))))
        | inr (s, there) ↦
            rw (there, on_headers)
              (either Left ((id == 0) || (id % 2 == 0)) v (
                receive_headers-IsSound s block end_stream end_headers c (Moves.found v id s there)
                  v))
      ]

  -- The windows that `replenish` gives back were taken before.
  replenish-IsSound :
      (s : Stream) (len : ℕ) (c : Connection S)
      → IsSound c
      → Belongs c s
      → c.conn_recv_window + len ≤ 65535
      → IsSound (replenish io s len c).0 × Belongs (replenish io s len c).0 s
  unfolding replenish send send_frame
  replenish-IsSound s len c v b room =
      let more : Connection S = record c { conn_recv_window = c.conn_recv_window + len } in
      let v' : IsSound more = Moves.receive v (c.conn_recv_window + len) room in
      let P = λ (d : Connection S). IsSound d × Belongs d s in
      let conn_update = Frame.window_update 0 len in
      let stream_update = Frame.window_update s.id len in
      either (λ (k : Run S (Unit {0})). P (k c).0) (ltb 0 len)
        (seq P P (send io conn_update) (modify (with_stream s) >> send io stream_update) more
          (send-IsSound conn_update more v', b) (λ d p. p)
          (λ d p. (send-IsSound stream_update (with_stream s d) (Moves.put p.0 s p.1), p.1)))
        (v, b)

  receive_data-IsSound :
      (s : Stream) (content : Bytes) (end_stream : Bool) (c : Connection S)
      → IsSound c
      → Belongs c s
      → length content ≤ s.recv_window
      → c.conn_recv_window + length content ≤ 65535
      → IsSound (receive_data io s content end_stream c).0
  unfolding receive_data
  receive_data-IsSound s content end_stream c v b fits room =
      let len = length content in
      let spent = record s { recv_window = s.recv_window - len } in
      elim (Result-cases (on_recv_data s.state end_stream)) [
        | inl (state, p) ↦
            let taken = record spent { state = state; body = s.body ++ content } in
            let given = record taken { recv_window = taken.recv_window + len } in
            let c' : Connection S = with_stream taken c in
            let v' : IsSound c' = Moves.put v taken (b.0, omega (arith, b.1), b.2) in
            let (kept, belongs) =
              replenish-IsSound given len c' v' (b.0, omega (arith, b.1, fits), b.2) room in
            rw (p, receive_data)
              (seq (λ d. IsSound d × Belongs d given) IsSound (replenish io given len)
                (if end_stream then try_dispatch given else done) c' (kept, belongs) (λ d w. w.0)
                (λ d w.
                  either (λ (k : Run S (Unit {0})). IsSound (k d).0) end_stream
                    (try_dispatch-IsSound given d w.1 w.0) w.0))
        | inr (e, p) ↦ rw (p, receive_data) (Moves.put v spent (b.0, omega (arith, b.1), b.2))
      ]

  pub on_data-IsSound :
      (id : ℕ) (content : Bytes) (end_stream : Bool) → Keeps (on_data io id content end_stream)
  unfolding on_data
  on_data-IsSound id content end_stream c v =
      let len = length content in
      let less : Connection S = record c { conn_recv_window = c.conn_recv_window - len } in
      let v' : IsSound less =
        Moves.receive v (c.conn_recv_window - len) (omega (arith, v.advertised)) in
      elim (Option-cases (find_stream id c.streams)) [
        | inl missing ↦
            rw (missing, on_data)
              (either Left (id == 0) v (either Left (ltb c.conn_recv_window len) v v'))
        | inr (s, there) ↦
            rw (there, on_data)
              (either Left (id == 0) v (
                branch Left (ltb c.conn_recv_window len) (λ over. v)
                  (λ within_it.
                    branch Left (ltb s.recv_window len) (λ over. v')
                      (λ fits.
                        receive_data-IsSound s content end_stream less v' (Moves.found v id s there)
                          (ltb→le s.recv_window len fits) (ground (arith, v.advertised))))))
      ]
