-- ===== src/Coyote/Http1/Reading.antt =====
-- crates/tomcatrs-coyote/src/http1.rs: reading a request from a connection. The address of the
-- peer, which a request carries along, is left out.
use michael.Prelude.{
  ℕ, zero, suc, ◌-◌, ◌*◌, Bool, true, false, [], ◌∷◌, ◌++◌, Option, none, some, Result, ok, err,
  if◌then◌else◌, ltb, length, take, drop, min, is_empty,
}
use michael.Prelude.Text.{Bytes, codes, starts_with}
use michael.Security.AccessControl.{RequestLimits}
use michael.Coyote.Normalize.{NormalizedUri, normalize_target}
use michael.Coyote.Chunked.{
  ChunkedDecoder, ChunkedError, new_decoder, push, is_complete, too_large, malformed,
}
use michael.Coyote.Http1.{
  Status, Headers, ParsedHead, parse_head, BodyFraming, no_body, chunked, fixed, body_framing,
}

-- The connection, a parameter: a read of at most so many bytes gives what has arrived, no byte at
-- the end of the stream, `none` for an error; whether a timer fires before it does; and whether a
-- read that no timer bounds waits for ever, as it does where the peer is silent.
pub record RequestStream (S : Type 0) : Type 0 where
  pub read : S → ℕ → S × Option Bytes
  pub elapses : S → Bool
  pub hangs : S → Bool

pub data Arrival : Type 0 where
  received : Bytes → Arrival
  failed elapsed : Arrival

pub record Request : Type 0 where
  pub method : Bytes
  pub uri : Bytes
  pub path : Bytes
  pub query : Option Bytes
  pub version : Bytes
  pub headers : Headers
  pub body : Bytes

pub data ReadOutcome : Type 0 where
  request : Request → ReadOutcome
  connection_closed : ReadOutcome
  reject : Status → ReadOutcome

abbrev pub header_block_hard_cap : ℕ
header_block_hard_cap = 1024 * 1024

abbrev next_position : Option ℕ → Option ℕ
next_position none = none
next_position (some n) = some (suc n)

-- The index just past the first CR LF CR LF.
unfoldable pub find_header_end : Bytes → Option ℕ
find_header_end [] = none
find_header_end (x ∷ s) =
    let rest = find_header_end s in
    if starts_with (x ∷ s) (codes "\r\n\r\n") then some 4 else next_position rest

-- `buf.split_off(pos)`
abbrev pub Split : Type 0
Split = Option (Bytes × Bytes)

abbrev pub split_off : Bytes → Option ℕ → Split
split_off buf none = none
split_off buf (some pos) = some (take pos buf, drop pos buf)

unfoldable pub split_head : Bytes → Split
split_head buf = split_off buf (find_header_end buf)

-- `ChunkedError` as a response.
abbrev pub reject_chunked : ChunkedError → Status
reject_chunked too_large = 413
reject_chunked malformed = 400

module _ {S : Type 0} (io : RequestStream S) where
  unfoldable pub arrive : S → ℕ → S × Arrival
  arrive s want =
      let (s', r) = io.read s want in (s', elim r [ none ↦ failed | some bytes ↦ received bytes ])

  unfoldable pub timed_read : S → ℕ → S × Arrival
  timed_read s want = if io.elapses s then (s, elapsed) else arrive s want

  -- `stream.read(..).await` alone: `none` where it waits for ever.
  unfoldable pub untimed_read : S → ℕ → Option (S × Arrival)
  untimed_read s want = if io.hangs s then none else some (arrive s want)

  -- The first read of a head has a timer, and no other has.
  abbrev pub head_read : Bool → S → Option (S × Arrival)
  head_read true s = some (timed_read s 4096)
  head_read false s = untimed_read s 4096

  abbrev pub HeadResult : Type 0
  HeadResult = Option (S × Result Status Split)

  -- What a round of the loop of `read_head` does with what has arrived.
  unfoldable pub extend_head : S → Bytes → Bytes → (S → Bytes → HeadResult) → HeadResult
  extend_head s buf bytes again =
      if is_empty bytes
      then if is_empty buf then some (s, ok none) else some (s, err 400)
      else if ltb header_block_hard_cap (length (buf ++ bytes))
      then some (s, err 431)
      else elim (split_head (buf ++ bytes)) [
        | some parts ↦ some (s, ok (some parts))
        | none ↦ again s (buf ++ bytes)
      ]

  abbrev pub after_read : Arrival → S → Bytes → (S → Bytes → HeadResult) → HeadResult
  after_read elapsed s buf again = some (s, ok none)
  after_read failed s buf again = some (s, err 400)
  after_read (received bytes) s buf again = extend_head s buf bytes again

  abbrev pub after_wait : Option (S × Arrival) → Bytes → (S → Bytes → HeadResult) → HeadResult
  after_wait none buf again = none
  after_wait (some (s, arrival)) buf again = after_read arrival s buf again

  -- The loop, on fuel: `none` where it does not return, be it that a read waits for ever or that
  -- the fuel has run out.
  unfoldable pub read_head_loop : ℕ → Bool → S → Bytes → HeadResult
  read_head_loop zero first s buf = none
  read_head_loop (suc fuel) first s buf =
      after_wait (head_read first s) buf (λ s' buf'. read_head_loop fuel false s' buf')

  -- `read_head`; it takes all of `carryover`. A round adds a byte at least, and none follows once
  -- there are more than the cap.
  unfoldable pub read_head : S → Bytes → HeadResult
  read_head s carryover = elim (split_head carryover) [
    | some parts ↦ some (s, ok (some parts))
    | none ↦ read_head_loop (suc header_block_hard_cap) (is_empty carryover) s carryover
  ]

  -- The loop of `read_fixed_body`, on fuel: the number of bytes that are missing is enough.
  unfoldable pub fill_body : ℕ → ℕ → S → Bytes → S × Result Status Bytes
  fill_body zero body_len s body = (s, ok body)
  fill_body (suc fuel) body_len s body =
      if ltb (length body) body_len
      then (let (s', arrival) = timed_read s (min (body_len - length body) 8192) in
          elim arrival [
            | elapsed ↦ (s', err 408)
            | failed ↦ (s', err 400)
            | received bytes ↦
                if is_empty bytes then (s', err 400) else fill_body fuel body_len s' (body ++ bytes)
          ])
      else (s, ok body)

  -- `read_fixed_body`: also the carry-over, which `read_head` has left empty.
  unfoldable pub read_fixed_body : S → Bytes → ℕ → S × Result Status Bytes × Bytes
  read_fixed_body s leftover body_len =
      let body = take body_len leftover in
      let (s', r) = fill_body (body_len - length body) body_len s body in
      (s', r, drop body_len leftover)

  abbrev pub ChunkedResult : Type 0
  ChunkedResult = Option (S × Result Status Bytes × Bytes)

  -- What `read_chunked_body` does with bytes that have arrived.
  abbrev pub after_push :
      S
      → Result ChunkedError (ChunkedDecoder × Bytes)
      → (S → ChunkedDecoder → ChunkedResult)
      → ChunkedResult
  after_push s (err e) again = some (s, err (reject_chunked e), [])
  after_push s (ok (decoder, rest)) again =
      if is_complete decoder then some (s, ok decoder.body, rest) else again s decoder

  abbrev pub after_chunk :
      Arrival → S → ChunkedDecoder → (S → ChunkedDecoder → ChunkedResult) → ChunkedResult
  after_chunk elapsed s decoder again = some (s, err 408, [])
  after_chunk failed s decoder again = some (s, err 400, [])
  after_chunk (received bytes) s decoder again =
      if is_empty bytes then some (s, err 400, []) else after_push s (push decoder bytes) again

  -- The loop, on fuel: `none` where it has run out.
  unfoldable pub read_chunks : ℕ → S → ChunkedDecoder → ChunkedResult
  read_chunks zero s decoder = none
  read_chunks (suc fuel) s decoder =
      let (s', arrival) = timed_read s 8192 in
      after_chunk arrival s' decoder (λ s'' decoder'. read_chunks fuel s'' decoder')

  unfoldable pub read_chunked_body : ℕ → S → Bytes → RequestLimits → ChunkedResult
  read_chunked_body fuel s leftover limits =
      let decoder = new_decoder limits.max_post_size in
      if is_empty leftover
      then read_chunks fuel s decoder
      else after_push s (push decoder leftover) (λ s' decoder'. read_chunks fuel s' decoder')

  -- The body that the framing asks for. A body of no bytes leaves the carry-over as it is, empty.
  unfoldable pub read_body : ℕ → BodyFraming → S → Bytes → RequestLimits → ChunkedResult
  read_body fuel no_body s leftover limits = some (s, ok [], [])
  read_body fuel (fixed body_len) s leftover limits =
      if ltb limits.max_post_size body_len
      then some (s, err 413, [])
      else some (read_fixed_body s leftover body_len)
  read_body fuel chunked s leftover limits = read_chunked_body fuel s leftover limits

  abbrev pub to_request : ParsedHead → NormalizedUri → Bytes → Request
  to_request head normalized body = record {
    method = head.method;
    uri = head.target;
    path = normalized.path;
    query = normalized.query;
    version = head.version;
    headers = head.headers;
    body = body;
  }

  unfoldable pub normalize_request : ParsedHead → Bytes → ReadOutcome
  normalize_request head body = elim (normalize_target head.target) [
    | ok normalized ↦ request (to_request head normalized body)
    | err e ↦ reject 400
  ]

  abbrev pub RequestResult : Type 0
  RequestResult = Option (S × ReadOutcome × Bytes)

  abbrev pub with_body : ParsedHead → ChunkedResult → RequestResult
  with_body head none = none
  with_body head (some (s, err status, carryover)) = some (s, reject status, carryover)
  with_body head (some (s, ok body, carryover)) = some (s, normalize_request head body, carryover)

  -- From the head on.
  unfoldable pub read_rest : ℕ → S → Bytes → Bytes → RequestLimits → RequestResult
  read_rest fuel s head_bytes leftover limits = elim (parse_head head_bytes limits) [
    | err status ↦ some (s, reject status, [])
    | ok head ↦ elim (body_framing head.headers) [
      | err status ↦ some (s, reject status, [])
      | ok framing ↦ with_body head (read_body fuel framing s leftover limits)
    ]
  ]

  abbrev pub with_head : ℕ → HeadResult → RequestLimits → RequestResult
  with_head fuel none limits = none
  with_head fuel (some (s, err status)) limits = some (s, reject status, [])
  with_head fuel (some (s, ok none)) limits = some (s, connection_closed, [])
  with_head fuel (some (s, ok (some (head_bytes, leftover)))) limits =
      read_rest fuel s head_bytes leftover limits

  unfoldable pub read_request : ℕ → S → Bytes → RequestLimits → RequestResult
  read_request fuel s carryover limits = with_head fuel (read_head s carryover) limits
