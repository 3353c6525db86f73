-- ===== src/Coyote/Chunked/Bounds.antt =====
-- The cap on the decoded body, and that a run of the decoder comes to its end.
use native.Mathlib.Nat.{le_refl}
use michael.Prelude.{
  ℕ, ◌+◌, ◌-◌, ◌≤◌, ◌<◌, true, false, not, [], ◌∷◌, ◌++◌, Result, ok, ◌≡◌, ◌≢◌, inl, inr, refl,
  arith, ok_or, if◌then◌else◌, ltb, ◌==◌, length, take, min, is_empty, length-append, length-take,
  length-drop, Bool-cases, if_then_eq, if_else_eq, bind-eq-ok, ok-injective, guard-eq-ok, ltb→le,
}
use michael.Prelude.Bits.{usize_max}
use michael.Prelude.Text.{Bytes, from_utf8, split_once}
use michael.Coyote.Chunked.{
  ChunkedDecoder, State, size, chunk_data, data_crlf, trailer, done, ChunkedError, Fed, feed_line,
  size_of_line, enter_chunk, exceeds, parse_size_line, parse_trailer_line, fed, round,
  max_chunk_line_len, max_trailer_line_len, max_trailer_count, too_large, malformed,
}
use michael.Prelude.Text.Trim.{trim}

-- In every state the body, with what the open chunk still has to bring, is within the cap; an open
-- chunk still has something to bring.
abbrev pub Fits : State → ℕ → ℕ → Type 0
Fits (chunk_data remaining) body_len max_body = (1 ≤ remaining) × (body_len + remaining ≤ max_body)
Fits _ body_len max_body = body_len ≤ max_body

abbrev pub WithinCap : ChunkedDecoder → Type 0
WithinCap d = Fits d.state (length d.body) d.max_body

-- The cap leaves room below the largest `usize`, where the source's sum saturates.
abbrev pub IsCap : ℕ → Type 0
IsCap n = n < usize_max

feed_line_takes :
    (max_len : ℕ) (line input : Bytes) (f : Fed)
    → feed_line max_len line input ≡ ok f
    → length f.rest ≤ length input - 1
unfolding feed_line
feed_line_takes max_len line [] f h = ground arith
feed_line_takes max_len line (b ∷ input) f h =
    ground (arith, feed_line_takes max_len (line ++ (b ∷ [])) input f)

-- What the two parsers of a line leave.
pub record KeepsCap (d d' : ChunkedDecoder) : Type 0 where
  pub within_cap : WithinCap d'
  pub same_cap : d'.max_body ≡ d.max_body

enter_chunk_keeps :
    (d d' : ChunkedDecoder) (number : ℕ)
    → IsCap d.max_body
    → length d.body ≤ d.max_body
    → enter_chunk d number ≡ ok d'
    → KeepsCap d d'
enter_chunk_keeps d d' number c h e = elim (Bool-cases (number == 0)) [
  | inl zero_size ↦
      let q = ok-injective _ d' (rw zero_size at e) in
      rw (← q) (record { within_cap = h; same_cap = refl })
  | inr some_size ↦ elim (Bool-cases (exceeds (length d.body) number d.max_body)) [
    | inl big ↦ cc (rw (some_size, big) at e)
    | inr small ↦
        let q = ok-injective _ d' (rw (some_size, small) at e) in
        let sum = ltb→le d.max_body (min (length d.body + number) usize_max) small in
        rw (← q) (record { within_cap = (ground arith, omega (arith, sum, c)); same_cap = refl })
  ]
]

parse_size_line_keeps :
    (d d' : ChunkedDecoder)
    → IsCap d.max_body
    → length d.body ≤ d.max_body
    → parse_size_line d ≡ ok d'
    → KeepsCap d d'
unfolding parse_size_line
parse_size_line_keeps d d' c h e =
    let (number, _, q) = bind-eq-ok (size_of_line d.line) (enter_chunk d) e in
    enter_chunk_keeps d d' number c h q

parse_trailer_line_keeps :
    (d d' : ChunkedDecoder)
    → d.state ≡ trailer
    → length d.body ≤ d.max_body
    → parse_trailer_line d ≡ ok d'
    → KeepsCap d d'
unfolding parse_trailer_line
parse_trailer_line_keeps d d' t h e =
    let (_, e1) = guard-eq-ok (ltb (length d.trailers) max_trailer_count) too_large _ e in
    let (text, _, e2) = bind-eq-ok (ok_or (from_utf8 d.line) malformed) _ e1 in
    let (field, _, e3) = bind-eq-ok (ok_or (split_once b':' text) malformed) _ e2 in
    let (_, e4) = guard-eq-ok (not (is_empty (trim field.0))) malformed _ e3 in
    rw (← ok-injective _ d' e4) (record { within_cap = rw t h; same_cap = refl })

-- One round, in each state: it keeps the cap and takes at least one byte.
pub record RoundFacts (d : ChunkedDecoder) (input : Bytes) (next : ChunkedDecoder × Bytes)
    : Type 0 where
  pub keeps : KeepsCap d next.0
  pub takes : length next.1 ≤ length input

feed_line_takes_one :
    (max_len : ℕ) (line : Bytes) (b : ℕ) (input : Bytes) (f : Fed)
    → feed_line max_len line (b ∷ input) ≡ ok f
    → length f.rest ≤ length input
feed_line_takes_one max_len line b input f h =
    let le = feed_line_takes max_len line (b ∷ input) f h in omega (arith, le)

size_line_keeps :
    (d d' : ChunkedDecoder) (f : Fed)
    → d.state ≡ size
    → IsCap d.max_body
    → length d.body ≤ d.max_body
    → (if f.line_terminated then parse_size_line (fed d f) else ok (fed d f)) ≡ ok d'
    → KeepsCap d d'
size_line_keeps d d' f s c w e = elim (Bool-cases f.line_terminated) [
  | inl whole ↦
      let k = parse_size_line_keeps (fed d f) d' c w (if_then_eq f.line_terminated _ _ e whole) in
      record { within_cap = k.within_cap; same_cap = k.same_cap }
  | inr part ↦
      rw (← ok-injective (fed d f) d' (if_else_eq f.line_terminated _ _ e part))
        (record { within_cap = rw s w; same_cap = refl })
]

trailer_line_keeps :
    (d d' : ChunkedDecoder) (f : Fed)
    → d.state ≡ trailer
    → length d.body ≤ d.max_body
    → (if f.line_terminated
        then if is_empty f.line
          then ok (record (fed d f) { state = done })
          else parse_trailer_line (fed d f)
        else ok (fed d f))
      ≡ ok d'
    → KeepsCap d d'
trailer_line_keeps d d' f s w e = elim (Bool-cases f.line_terminated) [
  | inr part ↦
      rw (← ok-injective (fed d f) d' (if_else_eq f.line_terminated _ _ e part))
        (record { within_cap = rw s w; same_cap = refl })
  | inl whole ↦
      let e' = if_then_eq f.line_terminated _ _ e whole in
      elim (Bool-cases (is_empty f.line)) [
        | inl blank ↦
            rw (← ok-injective _ d' (if_then_eq (is_empty f.line) _ _ e' blank))
              (record { within_cap = w; same_cap = refl })
        | inr field ↦
            let k =
              parse_trailer_line_keeps (fed d f) d' s w
                (if_else_eq (is_empty f.line) _ _ e' field) in
            record { within_cap = k.within_cap; same_cap = k.same_cap }
      ]
]

round_ends :
    (d d' : ChunkedDecoder) (input rest : Bytes) (next : ChunkedDecoder × Bytes)
    → KeepsCap d d'
    → length rest ≤ length input
    → ◌≡◌ {A = Result ChunkedError (ChunkedDecoder × Bytes)} (ok (d', rest)) (ok next)
    → RoundFacts d input next
round_ends d d' input rest next k t e =
    rw (← ok-injective (d', rest) next e) (record { keeps = k; takes = t })

-- The data taken goes from what the chunk still has to bring to the body.
data_keeps :
    (d : ChunkedDecoder) (remaining : ℕ) (input : Bytes)
    → 1 ≤ remaining
    → length d.body + remaining ≤ d.max_body
    → let taken = min remaining (length input) in
      let left = remaining - taken in
      KeepsCap d (record d {
        body = d.body ++ take taken input;
        state = if left == 0 then data_crlf false else chunk_data left;
      })
data_keeps d remaining input r w =
    let taken = min remaining (length input) in
    let grown : length (d.body ++ take taken input) ≡ length d.body + taken =
      omega (arith, length-append d.body (take taken input), length-take taken input) in
    elim (Bool-cases (remaining - taken == 0)) [
      | inl none_left ↦
          rw none_left (record { within_cap = omega (arith, grown, w); same_cap = refl })
      | inr some_left ↦
          rw some_left
            (record { within_cap = (ground arith, omega (arith, grown, w)); same_cap = refl })
    ]

pub round_facts :
    (d : ChunkedDecoder) (b : ℕ) (input : Bytes) (next : ChunkedDecoder × Bytes) (state : State)
    → d.state ≡ state
    → state ≢ done
    → IsCap d.max_body
    → Fits state (length d.body) d.max_body
    → round d b input ≡ ok next
    → RoundFacts d input next
unfolding round
round_facts d b input next done s n c w e = absurd (n refl)
round_facts d b input next size s n c w e =
    let (f, fe, e1) =
      bind-eq-ok (feed_line max_chunk_line_len d.line (b ∷ input)) _ (rw (round, s) at e) in
    let (d', de, e2) =
      bind-eq-ok (if f.line_terminated then parse_size_line (fed d f) else ok (fed d f)) _ e1 in
    round_ends d d' input f.rest next (size_line_keeps d d' f s c w de)
      (feed_line_takes_one max_chunk_line_len d.line b input f fe) e2
round_facts d b input next trailer s n c w e =
    let (f, fe, e1) =
      bind-eq-ok (feed_line max_trailer_line_len d.line (b ∷ input)) _ (rw (round, s) at e) in
    let (d', de, e2) =
      bind-eq-ok
        (if f.line_terminated
          then if is_empty f.line
            then ok (record (fed d f) { state = done })
            else parse_trailer_line (fed d f)
          else ok (fed d f))
        _ e1 in
    round_ends d d' input f.rest next (trailer_line_keeps d d' f s w de)
      (feed_line_takes_one max_trailer_line_len d.line b input f fe) e2
round_facts d b input next (chunk_data remaining) s n c w e =
    round_ends d _ input _ next (data_keeps d remaining (b ∷ input) w.0 w.1)
      (omega (arith, length-drop (min remaining (length (b ∷ input))) (b ∷ input), w.0))
      (rw (round, s) at e)
round_facts d b input next (data_crlf true) s n c w e = elim (Bool-cases (b == b'\n')) [
  | inl lf ↦
      round_ends d _ input input next (record { within_cap = w; same_cap = refl }) (le_refl _)
        (rw (round, s, lf) at e)
  | inr other ↦ cc (rw (round, s, other) at e)
]
round_facts d b input next (data_crlf false) s n c w e = elim (Bool-cases (b == b'\r')) [
  | inl cr ↦
      round_ends d _ input input next (record { within_cap = w; same_cap = refl }) (le_refl _)
        (rw (round, s, cr) at e)
  | inr other ↦ cc (rw (round, s, other) at e)
]
