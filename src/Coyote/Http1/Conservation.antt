-- ===== src/Coyote/Http1/Conservation.antt =====
-- What a request takes from the connection. The bytes that stand behind it are for the next one.
use michael.Prelude.{
  ℕ, zero, suc, ◌+◌, ◌-◌, ◌≤◌, false, [], ◌++◌, none, some, ok, err, ◌≡◌, refl, ap, ◌∙◌, ◌⊎◌, arith,
  inl, inr, ltb, leb, take_whole, drop_whole, length, take, drop, min, is_empty, Bool-cases,
  Result-cases, append_assoc, take-append-drop, length-take, length-append,
}
use michael.Prelude.Text.{Bytes}
use michael.Security.AccessControl.{RequestLimits}
use michael.Coyote.Normalize.{normalize_target}
use michael.Coyote.Http1.{ParsedHead, parse_head, BodyFraming, no_body, fixed, body_framing}
use michael.Coyote.Http1.Reading.{
  RequestStream, Arrival, received, failed, elapsed, Request, request, timed_read, HeadResult,
  read_head, fill_body, read_fixed_body, read_body, normalize_request, ChunkedResult, with_body,
  read_rest, with_head, read_request,
}
use michael.Coyote.Http1.Delivery.{InOrder, IsHead, Takes, timed_read-pending, read_head-Takes}

arrival_cases :
    (arrival : Arrival)
    → ((bytes : Bytes) × (arrival ≡ received bytes)) ⊎ ((arrival ≡ failed) ⊎ (arrival ≡ elapsed))
arrival_cases (received bytes) = inl (bytes, refl)
arrival_cases failed = inr (inl refl)
arrival_cases elapsed = inr (inr refl)

nonempty : (s : Bytes) → is_empty s ≡ false → 1 ≤ length s
nonempty s h = ground arith

module _ {S : Type 0} (io : RequestStream S) (law : InOrder io) where
  -- A body that is filled up from the stream to its length.
  fill_body-pending :
      (fuel body_len : ℕ) (s s' : S) (body whole : Bytes)
      → length body ≤ body_len
      → body_len ≤ length body + fuel
      → fill_body io fuel body_len s body ≡ (s', ok whole)
      → (body ++ law.pending s ≡ whole ++ law.pending s') × (length whole ≡ body_len)
  unfolding fill_body
  fill_body-pending zero body_len s s' body whole l f h = ground arith
  fill_body-pending (suc fuel) body_len s s' body whole l f h =
      let want = min (body_len - length body) 8192 in
      let next = timed_read io s want in
      elim (Bool-cases (ltb (length body) body_len)) [
        | inr e ↦ ground arith
        | inl e ↦ elim (arrival_cases next.1) [
          | inr q ↦ ground arith
          | inl (bytes, q) ↦
              let (p, small) = timed_read-pending io law s want bytes q in
              elim (Bool-cases (is_empty bytes)) [
                | inl z ↦ ground arith
                | inr z ↦ ground (
                  arith,
                  fill_body-pending fuel body_len next.0 s' (body ++ bytes) whole,
                  length-append body bytes,
                  nonempty bytes,
                  append_assoc body bytes (law.pending next.0),
                )
              ]
        ]
      ]

  fill_body-full :
      (body_len : ℕ) (s : S) (body : Bytes)
      → length body ≡ body_len
      → fill_body io (body_len - length body) body_len s body ≡ (s, ok body)
  fill_body-full body_len s body h =
      let none_left : body_len - length body ≡ 0 = omega arith in
      rw none_left (unfold fill_body in refl)

  read_fixed_body-pending :
      (body_len : ℕ) (s s' : S) (leftover body carryover : Bytes)
      → read_fixed_body io s leftover body_len ≡ (s', ok body, carryover)
      → (leftover ++ law.pending s ≡ body ++ (carryover ++ law.pending s'))
        × (length body ≡ body_len)
  unfolding read_fixed_body
  read_fixed_body-pending body_len s s' leftover body carryover h =
      let start = take body_len leftover in
      let filled =
        fill_body-pending (body_len - length start) body_len s s' start body
          (omega (arith, length-take body_len leftover)) (omega arith) in
      elim (Bool-cases (leb (length leftover) body_len)) [
        | inl e ↦ ground (arith, filled, take_whole body_len leftover, drop_whole body_len leftover)
        | inr e ↦ ground (
          arith,
          fill_body-full body_len s start,
          length-take body_len leftover,
          take-append-drop body_len leftover,
          append_assoc start (drop body_len leftover) (law.pending s),
        )
      ]

  with_body-request :
      (head : ParsedHead) (body_result : ChunkedResult io) (s' : S) (r : Request)
      (carryover : Bytes)
      → with_body io head body_result ≡ some (s', request r, carryover)
      → (body_result ≡ some (s', ok r.body, carryover)) × (r.headers ≡ head.headers)
  unfolding normalize_request
  with_body-request head none s' r carryover h = cc
  with_body-request head (some (t, err status, c)) s' r carryover h = cc
  with_body-request head (some (t, ok body, c)) s' r carryover h =
      elim (Result-cases (normalize_target head.target)) [
        | inl (n, e) ↦ ground arith
        | inr (x, e) ↦ ground arith
      ]

  -- The stages that a request has gone through.
  with_head-request :
      (fuel : ℕ) (head_result : HeadResult io) (limits : RequestLimits) (s' : S) (r : Request)
      → (carryover : Bytes) → with_head io fuel head_result limits ≡ some (s', request r, carryover)
      → (t : S) × (head : Bytes) × (leftover : Bytes) × (head_result
          ≡ some (t, ok (some (head, leftover))))
        × (read_rest io fuel t head leftover limits ≡ some (s', request r, carryover))
  with_head-request fuel none limits s' r c h = cc
  with_head-request fuel (some (t, err status)) limits s' r c h = cc
  with_head-request fuel (some (t, ok none)) limits s' r c h = cc
  with_head-request fuel (some (t, ok (some (head, leftover)))) limits s' r c h =
      (t, head, leftover, refl, h)

  read_rest-request :
      (fuel : ℕ) (s s' : S) (head leftover : Bytes) (limits : RequestLimits) (r : Request)
      → (carryover : Bytes) (framing : BodyFraming)
      → read_rest io fuel s head leftover limits ≡ some (s', request r, carryover)
      → body_framing r.headers ≡ ok framing
      → read_body io fuel framing s leftover limits ≡ some (s', ok r.body, carryover)
  unfolding read_rest
  read_rest-request fuel s s' head leftover limits r c framing h f =
      elim (Result-cases (parse_head head limits)) [
        | inr (x, e) ↦ ground arith
        | inl (parsed, e) ↦ elim (Result-cases (body_framing parsed.headers)) [
          | inr (x, q) ↦ ground arith
          | inl (framing', q) ↦ ground (
            arith,
            with_body-request parsed (read_body io fuel framing' s leftover limits) s' r c,
          )
        ]
      ]

  read_request-stages :
      (fuel : ℕ) (s s' : S) (carryover carryover' : Bytes) (limits : RequestLimits) (r : Request)
      → (framing : BodyFraming)
      → read_request io fuel s carryover limits ≡ some (s', request r, carryover')
      → body_framing r.headers ≡ ok framing
      → (t : S) × (head : Bytes) × (leftover : Bytes) × Takes io law s carryover t head leftover
        × (read_body io fuel framing t leftover limits ≡ some (s', ok r.body, carryover'))
  unfolding read_request
  read_request-stages fuel s s' carryover carryover' limits r framing h f =
      let (t, head, leftover, q, h') =
        with_head-request fuel (read_head io s carryover) limits s' r carryover' h in
      (
        t,
        head,
        leftover,
        read_head-Takes io law s t carryover head leftover q,
        read_rest-request fuel t s' head leftover limits r carryover' framing h' f,
      )

  read_body-fixed :
      (fuel n : ℕ) (s s' : S) (leftover body carryover : Bytes) (limits : RequestLimits)
      → read_body io fuel (fixed n) s leftover limits ≡ some (s', ok body, carryover)
      → (leftover ++ law.pending s ≡ body ++ (carryover ++ law.pending s'))
        × (length body ≡ n)
        × (n ≤ limits.max_post_size)
  unfolding read_body
  read_body-fixed fuel n s s' leftover body carryover limits h =
      ground (arith, read_fixed_body-pending n s s' leftover body carryover)

  -- A request whose headers give its body a length takes exactly its head and its body from the
  -- connection, whatever pieces they arrive in: the bytes carried over and those of the stream are
  -- the head, which ends at the first blank line, the body, of the length that the headers say and
  -- within `max_post_size`, what is carried over to the next request, and the rest of the stream.
  pub read_request-fixed :
      (fuel n : ℕ) (s s' : S) (carryover carryover' : Bytes) (limits : RequestLimits) (r : Request)
      → read_request io fuel s carryover limits ≡ some (s', request r, carryover')
      → body_framing r.headers ≡ ok (fixed n)
      → (head : Bytes) × (carryover ++ law.pending s
          ≡ head ++ (r.body ++ (carryover' ++ law.pending s')))
        × IsHead head
        × (length r.body ≡ n)
        × (n ≤ limits.max_post_size)
  unfolding Takes
  read_request-fixed fuel n s s' carryover carryover' limits r h f =
      let (t, head, leftover, (p, ends), b) =
        read_request-stages fuel s s' carryover carryover' limits r (fixed n) h f in
      let (q, size, small) = read_body-fixed fuel n t s' leftover r.body carryover' limits b in
      (head, p ∙ ap (◌++◌ head) q, ends, size, small)

  -- A request without a body also loses what stood behind its head in the buffer: nothing is
  -- carried over to the next request, which is read from the rest of the stream.
  pub read_request-no_body :
      (fuel : ℕ) (s s' : S) (carryover carryover' : Bytes) (limits : RequestLimits) (r : Request)
      → read_request io fuel s carryover limits ≡ some (s', request r, carryover')
      → body_framing r.headers ≡ ok no_body
      → (head : Bytes) × (lost : Bytes) × (carryover ++ law.pending s
          ≡ head ++ (lost ++ law.pending s'))
        × IsHead head
        × (r.body ≡ [])
        × (carryover' ≡ [])
  unfolding Takes read_body
  read_request-no_body fuel s s' carryover carryover' limits r h f =
      let (t, head, leftover, (p, ends), b) =
        read_request-stages fuel s s' carryover carryover' limits r no_body h f in
      (head, leftover, ground arith, ends, ground arith, ground arith)
