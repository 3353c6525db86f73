-- ===== src/Coyote/Hpack/Decoder/Block.antt =====
-- A whole header block.
use mathlib.Core.List.{reverse-append}
use michael.Prelude.{
  ℕ, zero, suc, ◌≤◌, not, List, [], ◌∷◌, ok, ◌≡◌, inl, inr, refl, ap, ◌∙◌, arith, ◌==◌, bit_and,
  length, drop, length-drop, reverse, Bool-cases, bind-eq-ok, ok-injective, if_then_eq, if_else_eq,
}
use michael.Prelude.Text.{Bytes}
use michael.Coyote.Hpack.Table.{Field, insert}
use michael.Coyote.Hpack.Table.Invariant.{total, total-append, IsConsistent, insert-IsConsistent}
use michael.Coyote.Hpack.Decoder.{HpackDecoder, Progress, decode_one, decode_loop, decode, start}
use michael.Coyote.Hpack.Decoder.Budget.{
  IsSound, RoundSound, indexed_sound, literal_sound, update_sound,
}

decode_one_sound :
    (d : HpackDecoder) (p : Progress) (byte : ℕ) (bytes : Bytes) (r : Progress × ℕ)
    → IsSound d p
    → decode_one d p byte bytes ≡ ok r
    → RoundSound d r
unfolding decode_one
decode_one_sound d p b bytes r s e = elim (Bool-cases (not (bit_and b 0x80 == 0))) [
  | inl is_indexed ↦
      indexed_sound d p (b ∷ bytes) r s (if_then_eq (not (bit_and b 0x80 == 0)) _ _ e is_indexed)
  | inr a ↦
      let e1 = if_else_eq (not (bit_and b 0x80 == 0)) _ _ e a in
      elim (Bool-cases (not (bit_and b 0x40 == 0))) [
        | inl incremental ↦
            literal_sound d p (b ∷ bytes) 6 (insert p.dynamic) r s
              (λ field. (insert-IsConsistent p.dynamic field s.table).0)
              (if_then_eq (not (bit_and b 0x40 == 0)) _ _ e1 incremental)
        | inr c ↦
            let e2 = if_else_eq (not (bit_and b 0x40 == 0)) _ _ e1 c in
            elim (Bool-cases (not (bit_and b 0x20 == 0))) [
              | inl update ↦
                  update_sound d p (b ∷ bytes) r s
                    (if_then_eq (not (bit_and b 0x20 == 0)) _ _ e2 update)
              | inr plain ↦
                  literal_sound d p (b ∷ bytes) 4 (λ _. p.dynamic) r s (λ _. s.table)
                    (if_else_eq (not (bit_and b 0x20 == 0)) _ _ e2 plain)
            ]
      ]
]

decode_loop-IsSound :
    (fuel : ℕ) (d : HpackDecoder) (p : Progress) (block : Bytes) (r : Progress × Bytes)
    → length block ≤ fuel
    → IsSound d p
    → decode_loop fuel d p block ≡ ok r
    → IsSound d r.0 × (r.1 ≡ [])
unfolding decode_loop
decode_loop-IsSound zero d p [] r l s e = rw (← ok-injective _ r e) (s, refl)
decode_loop-IsSound (suc fuel) d p [] r l s e = rw (← ok-injective _ r e) (s, refl)
decode_loop-IsSound zero d p (b ∷ bytes) r l s e = absurd (omega arith)
decode_loop-IsSound (suc fuel) d p (b ∷ bytes) r l s e =
    let (q, qe, e') = bind-eq-ok (decode_one d p b bytes) _ e in
    let one = decode_one_sound d p b bytes q s qe in
    let shorter : length (drop q.1 (b ∷ bytes)) ≤ fuel =
      omega (arith, length-drop q.1 (b ∷ bytes), one.takes, l) in
    decode_loop-IsSound fuel d q.0 (drop q.1 (b ∷ bytes)) r shorter one.sound e'

total-reverse : (es : List Field) → total (reverse es) ≡ total es
total-reverse [] = refl
total-reverse (e ∷ es) =
    rw (reverse-append (e ∷ []) es)
      (omega (arith, total-append (reverse es) (e ∷ []), total-reverse es))

-- Where a decoder with a consistent table decodes a block, it has read the whole block, its table is
-- consistent again, and the header list is within the decoder's limit, by the accounting of RFC 7541.
pub decode-budget :
    (d d' : HpackDecoder) (block : Bytes) (headers : List Field)
    → IsConsistent d.dynamic
    → decode d block ≡ ok (d', headers)
    → IsConsistent d'.dynamic
      × (total headers ≤ d.max_header_list_size)
      × ((p : Progress) × (decode_loop (length block) d (start d) block ≡ ok (p, [])))
unfolding decode
decode-budget d d' block headers c e =
    let (r, re, e') = bind-eq-ok (decode_loop (length block) d (start d) block) _ e in
    let (s, rest) =
      decode_loop-IsSound (length block) d (start d) block r (omega arith)
        (record { table = c; counted = refl; within = omega arith }) re in
    let same = ok-injective _ (d', headers) e' in
    (
      rw (ap (λ (x : HpackDecoder × List Field). x.0.dynamic) same) at s.table,
      omega (
        arith,
        s.counted,
        s.within,
        total-reverse r.0.headers,
        ap (λ (x : HpackDecoder × List Field). total x.1) same,
      ),
      (r.0, re ∙ ap (λ (y : Bytes). ok (r.0, y)) rest),
    )
