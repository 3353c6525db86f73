-- ===== src/Coyote/Chunked/Push.antt =====
-- A whole call of `push`.
use michael.Prelude.{
  ℕ, zero, suc, ◌≤◌, true, false, [], ◌∷◌, ok, ◌≡◌, ◌≢◌, ◌⊎◌, inl, inr, refl, ◌∙◌, arith, length,
  Bool-cases, bind-eq-ok, ok-injective, if_then_eq, if_else_eq,
}
use michael.Prelude.Text.{Bytes}
use michael.Coyote.Chunked.{
  ChunkedDecoder, State, size, chunk_data, data_crlf, trailer, done, round, push_loop, push,
  is_complete,
}
use michael.Coyote.Chunked.Bounds.{Fits, WithinCap, IsCap, KeepsCap, round_facts}

-- The loop stops where the input is used up or the body is complete.
abbrev pub Stops : ChunkedDecoder × Bytes → Type 0
Stops (d, rest) = (rest ≡ []) ⊎ (is_complete d ≡ true)

not_done : (state : State) → (elim state [ done ↦ true | _ ↦ false ]) ≡ false → state ≢ done
not_done state h e = cc (rw e at h)

push_loop_facts :
    (fuel : ℕ) (d : ChunkedDecoder) (input : Bytes) (last : ChunkedDecoder × Bytes)
    → length input ≤ fuel
    → IsCap d.max_body
    → WithinCap d
    → push_loop fuel d input ≡ ok last
    → KeepsCap d last.0 × Stops last
unfolding push_loop
push_loop_facts zero d [] last l c w e =
    rw (← ok-injective _ last e) (record { within_cap = w; same_cap = refl }, inl refl)
push_loop_facts (suc fuel) d [] last l c w e =
    rw (← ok-injective _ last e) (record { within_cap = w; same_cap = refl }, inl refl)
push_loop_facts zero d (b ∷ input) last l c w e = absurd (omega arith)
push_loop_facts (suc fuel) d (b ∷ input) last l c w e = elim (Bool-cases (is_complete d)) [
  | inl complete ↦
      rw (← ok-injective _ last (if_then_eq (is_complete d) _ _ e complete))
        (record { within_cap = w; same_cap = refl }, inr complete)
  | inr going ↦
      let (next, re, e') =
        bind-eq-ok (round d b input) _ (if_else_eq (is_complete d) _ _ e going) in
      let facts = round_facts d b input next d.state refl (not_done d.state going) c w re in
      let (k, stops) =
        push_loop_facts fuel next.0 next.1 last (omega (arith, facts.takes, l))
          (rw facts.keeps.same_cap c) facts.keeps.within_cap e' in
      (record { within_cap = k.within_cap; same_cap = k.same_cap ∙ facts.keeps.same_cap }, stops)
]

Fits-length :
    (state : State) (body_len max_body : ℕ) → Fits state body_len max_body → body_len ≤ max_body
Fits-length (chunk_data r) n m w = omega arith
Fits-length size n m w = w
Fits-length (data_crlf b) n m w = w
Fits-length trailer n m w = w
Fits-length done n m w = w

-- Where the cap is below the largest `usize`, the decoder is within its cap, and a call of `push`
-- succeeds, it is within the same cap afterwards, so the body is no longer than the cap, and either
-- all input is consumed or the body is complete.
pub push-WithinCap :
    (d d' : ChunkedDecoder) (input rest : Bytes)
    → IsCap d.max_body
    → WithinCap d
    → push d input ≡ ok (d', rest)
    → WithinCap d' × (length d'.body ≤ d.max_body) × ((rest ≡ []) ⊎ (is_complete d' ≡ true))
unfolding push
push-WithinCap d d' input rest c w e =
    let (k, stops) = push_loop_facts (length input) d input (d', rest) (omega arith) c w e in
    (
      k.within_cap,
      rw k.same_cap at (Fits-length d'.state (length d'.body) d'.max_body k.within_cap),
      stops,
    )
