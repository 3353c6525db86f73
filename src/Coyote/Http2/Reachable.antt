-- ===== src/Coyote/Http2/Reachable.antt =====
-- A connection over its whole life: the rounds of its loop, the bytes that arrive, and the responses
-- that are written, in any order.
use michael.Prelude.{
  ℕ, zero, suc, ◌*◌, ◌≤◌, Bool, true, false, not, [], ◌∷◌, ◌++◌, Option, none, some, ◌≡◌, refl, inl,
  inr, arith, ◌==◌, length, is_empty, drop, Option-cases, All, All-map, ap,
}
use michael.Prelude.Streams.{AsyncStream}
use michael.Prelude.Text.{Bytes}
use michael.Coyote.Hpack.Table.{new_table}
use michael.Coyote.Hpack.Encoder.{encode, new_encoder}
use michael.Coyote.Http1.Serving.{Response}
use michael.Coyote.Http2.{Frame}
use michael.Coyote.Http2.Settings.{Http2Settings, default_settings, on_send_end_stream}
use michael.Coyote.Http2.Connection.{Connection, Stream, find_stream, with_stream}
use michael.Coyote.Http2.Receive.{send_frame}
use michael.Coyote.Http2.Send.{
  read_more_for_flow_control, spend, write_chunk, write_body, after_wait, after_chunk,
  finish_response, then_finish, write_response, turn, Outcome, finished, io_failed, unfinished,
  send_budget, has_credit, response_fields,
}
use michael.Coyote.Http2.Ledger.{IsSound, served_ids, Distinct}
use michael.Coyote.Http2.Ledger.Moves as Moves
use michael.Coyote.Http2.Invariant.{either, retire-IsSound}
use michael.Coyote.Http2.Books.{read_more-IsSound, turn-IsSound}

-- `serve`, up to its loop: the state of a new connection.
abbrev pub new_connection : {S : Type 0} → S → Bytes → Connection S
new_connection io inbuf = record {
  io = io;
  local_settings = default_settings;
  peer_settings = default_settings;
  peer_acked_settings = false;
  conn_recv_window = 65535;
  conn_send_window = 65535;
  streams = [];
  last_stream_id = 0;
  open_stream_count = 0;
  hpack_decoder = record {
    dynamic = new_table default_settings.header_table_size;
    max_header_list_size = 16 * 1024 * 1024;
  };
  hpack_encoder = new_encoder default_settings.header_table_size;
  inbuf = inbuf;
  going_away = false;
  serviced = [];
}

module _ {S : Type 0} where
  spend-IsSound : (id budget : ℕ) (c : Connection S) → IsSound c → IsSound (spend id budget c)
  unfolding spend
  spend-IsSound id budget c v = elim (Option-cases (find_stream id c.streams)) [
    | inl missing ↦ rw (missing, spend) v
    | inr (s, there) ↦ rw (there, spend) (Moves.put v _ (Moves.found v id s there))
  ]

module _ {S : Type 0} (io : AsyncStream S) where
  after_wait-IsSound :
      (again : Connection S → Connection S × Outcome) (r : Connection S × Option Bool)
      → ((d : Connection S) → IsSound d → IsSound (again d).0)
      → IsSound r.0
      → IsSound (after_wait again r).0
  after_wait-IsSound again (c, none) h v = v
  after_wait-IsSound again (c, some false) h v = v
  after_wait-IsSound again (c, some true) h v = h c v

  after_chunk-IsSound :
      (again : Connection S → Connection S × Outcome) (r : Connection S × Bool)
      → ((d : Connection S) → IsSound d → IsSound (again d).0)
      → IsSound r.0
      → IsSound (after_chunk again r).0
  after_chunk-IsSound again (c, false) h v = v
  after_chunk-IsSound again (c, true) h v = h c v

  write_chunk-IsSound :
      (id budget : ℕ) (body : Bytes) (c : Connection S)
      → IsSound c
      → IsSound (write_chunk io id budget body c).0
  unfolding write_chunk send_frame
  write_chunk-IsSound id budget body c v = spend-IsSound id budget c v

  write_body-IsSound :
      (fuel id : ℕ) (body : Bytes) (c : Connection S)
      → IsSound c
      → IsSound (write_body io fuel id body c).0
  unfolding write_body
  write_body-IsSound fuel id [] c v = v
  write_body-IsSound zero id (b ∷ rest) c v = v
  write_body-IsSound (suc fuel) id (b ∷ rest) c v =
      let body = b ∷ rest in
      let budget = send_budget id body c in
      let Left = λ (r : Connection S × Outcome). IsSound r.0 in
      either Left (not (has_credit id c))
        (after_wait-IsSound (write_body io fuel id body) (read_more_for_flow_control io c)
          (write_body-IsSound fuel id body) (read_more-IsSound io c v))
        (either Left (budget == 0) (write_body-IsSound fuel id body c v) (
          after_chunk-IsSound (write_body io fuel id (drop budget body))
            (write_chunk io id budget body c) (write_body-IsSound fuel id (drop budget body))
            (write_chunk-IsSound id budget body c v)))

  finish_response-IsSound :
      (id : ℕ) (c : Connection S) → IsSound c → IsSound (finish_response io id c).0
  unfolding finish_response
  finish_response-IsSound id c v = elim (Option-cases (find_stream id c.streams)) [
    | inl missing ↦ rw (missing, finish_response) (retire-IsSound c v)
    | inr (s, there) ↦
        rw (there, finish_response)
          (retire-IsSound (with_stream (record s { state = on_send_end_stream s.state }) c)
            (Moves.put v _ (Moves.found v id s there)))
  ]

  then_finish-IsSound :
      (id : ℕ) (r : Connection S × Outcome) → IsSound r.0 → IsSound (then_finish io id r).0
  then_finish-IsSound id (c, finished) v = finish_response-IsSound id c v
  then_finish-IsSound id (c, io_failed) v = v
  then_finish-IsSound id (c, unfinished) v = v

  write_response-IsSound :
      (fuel id : ℕ) (response : Response) (c : Connection S)
      → IsSound c
      → IsSound (write_response io fuel id response c).0
  unfolding write_response send_frame
  write_response-IsSound fuel id response c v = elim (Option-cases (find_stream id c.streams)) [
    | inl missing ↦ rw (missing, write_response) v
    | inr (s, there) ↦
        let (encoder, block) = encode c.hpack_encoder (response_fields response) in
        let (c', sent) =
          send_frame io (Frame.headers id block (is_empty response.body) true none)
            (record c { hpack_encoder = encoder }) in
        rw (there, write_response)
          (either (λ (r : Connection S × Outcome). IsSound r.0) sent
            (then_finish-IsSound id (write_body io fuel id response.body c')
              (write_body-IsSound fuel id response.body c' v))
            v)
  ]

  -- One step of a connection: a round of its loop, bytes that have been read, a response that is
  -- written as far as the stream and the peer let it be.
  pub data Step : Connection S → Connection S → Type 0 where
    cycles : (detail : Bytes) (c : Connection S) → Step c (turn io detail c).0
    arrives :
        (c : Connection S) (s : S) (bytes : Bytes)
        → Step c (record c { io = s; inbuf = c.inbuf ++ bytes })
    responds :
        (c : Connection S) (fuel id : ℕ) (response : Response)
        → Step c (write_response io fuel id response c).0

  pub data Steps (c : Connection S) : Connection S → Type 0 where
    here : Steps c c
    next : {d e : Connection S} → Steps c d → Step d e → Steps c e

  Step-IsSound : {c d : Connection S} → Step c d → IsSound c → IsSound d
  Step-IsSound (cycles detail c) v = turn-IsSound io detail c v
  Step-IsSound (arrives c s bytes) v = v
  Step-IsSound (responds c fuel id response) v = write_response-IsSound fuel id response c v

  Steps-keep : {c d : Connection S} → IsSound c → Steps c d → IsSound d
  Steps-keep v here = v
  Steps-keep v (next r st) = Step-IsSound st (Steps-keep v r)

  new-IsSound : (s : S) (inbuf : Bytes) → IsSound (new_connection s inbuf)
  unfolding served_ids
  new-IsSound s inbuf = record {
    fixed = refl;
    counted = refl;
    bounded = omega arith;
    advertised = omega arith;
    sound = tt;
    opened_before = tt;
    once = tt;
  }

  -- Whatever frames a peer sends and whatever responses are written, on a connection that began new:
  -- the streams are counted rightly, at most 128 are open, and no window for what is received is
  -- larger than the 65,535 bytes that were advertised.
  pub Steps-bounded :
      (s : S) (inbuf : Bytes) (c : Connection S)
      → Steps (new_connection s inbuf) c
      → (c.open_stream_count ≡ length c.streams)
        × (length c.streams ≤ 128)
        × (c.conn_recv_window ≤ 65535)
        × All (λ (stream : Stream). stream.recv_window ≤ 65535) c.streams
  Steps-bounded s inbuf c steps =
      let v = Steps-keep (new-IsSound s inbuf) steps in
      let limit = ap (λ (l : Http2Settings). l.max_concurrent_streams) v.fixed in
      let window = ap (λ (l : Http2Settings). l.initial_window_size) v.fixed in
      (
        v.counted,
        omega (arith, v.counted, v.bounded, limit),
        v.advertised,
        All-map (λ stream p. omega (arith, p.1, window)) c.streams v.sound,
      )

  -- Whatever a peer sends and whatever is answered, on a connection that began new: each stream's
  -- request is handed to the adapter once at most, and every stream that was handed on, or is
  -- open, has an identifier within the last one.
  pub Steps-once :
      (s : S) (inbuf : Bytes) (c : Connection S)
      → Steps (new_connection s inbuf) c
      → Distinct (served_ids c.serviced)
        × All (λ id. id ≤ c.last_stream_id) (served_ids c.serviced)
        × All (λ (stream : Stream). stream.id ≤ c.last_stream_id) c.streams
  Steps-once s inbuf c steps =
      let v = Steps-keep (new-IsSound s inbuf) steps in
      (v.once, v.opened_before, All-map (λ stream p. p.0) c.streams v.sound)
