-- ===== src/Coyote/Hpack/Decoder/Budget.antt =====
-- The header list that a block decodes to, and the table that it leaves.
use michael.Prelude.{
  ℕ, ◌+◌, ◌*◌, ◌^◌, ◌≤◌, ◌<◌, [], ◌∷◌, Result, ok, ◌≡◌, inl, inr, sym, ◌∙◌, arith, ◌>>=◌, ◌>>◌,
  guard, if◌then◌else◌, leb, ◌==◌, bit_and, drop, Bool-cases, bind-eq-ok, ok-injective, guard-eq-ok,
  if_then_eq, if_else_eq,
}
use michael.Prelude.Text.{Bytes}
use michael.Coyote.Hpack.Table.{
  HpackError, unexpected_table_size_update, Field, entry_size, DynamicTable, apply_size_update,
  resolve_index,
}
use michael.Coyote.Hpack.Table.Invariant.{total, IsConsistent, apply_size_update-bounds}
use michael.Coyote.Hpack.Integer.{decode_integer, decode_rest, max_prefix}
use michael.Coyote.Hpack.Decoder.{HpackDecoder, Progress, decode_literal, decode_string, push_field}

-- Every representation takes a byte at least.
decode_rest_takes :
    (bytes : Bytes) (v s c : ℕ) (r : ℕ × ℕ) → decode_rest bytes v s c ≡ ok r → c < r.1
unfolding decode_rest
decode_rest_takes [] v s c r e = cc
decode_rest_takes (b ∷ bytes) v s c r e =
    ground (arith, decode_rest_takes bytes (v + bit_and b 0x7f * 2 ^ s) (s + 7) (c + 1) r)

decode_integer_takes :
    (bytes : Bytes) (prefix_bits : ℕ) (r : ℕ × ℕ)
    → decode_integer bytes prefix_bits ≡ ok r
    → 1 ≤ r.1
unfolding decode_integer
decode_integer_takes [] p r e = cc
decode_integer_takes (b ∷ bytes) p r e =
    ground (arith, decode_rest_takes bytes (max_prefix p) 0 1 r)

name_takes :
    (t : DynamicTable) (bytes : Bytes) (idx pos : ℕ) (r : Bytes × ℕ)
    → (if idx == 0
        then (decode_string (drop pos bytes) >>= λ q. ok (q.0, pos + q.1))
        else (resolve_index idx t >>= λ f. ok (f.0, pos)))
      ≡ ok r
    → pos ≤ r.1
name_takes t bytes idx pos r e = elim (Bool-cases (idx == 0)) [
  | inl spelled ↦
      let (q, _, e') =
        bind-eq-ok (decode_string (drop pos bytes)) _ (if_then_eq (idx == 0) _ _ e spelled) in
      rw (← ok-injective _ r e') (omega arith)
  | inr indexed ↦
      let (f, _, e') = bind-eq-ok (resolve_index idx t) _ (if_else_eq (idx == 0) _ _ e indexed) in
      rw (← ok-injective _ r e') (omega arith)
]

decode_literal_takes :
    (t : DynamicTable) (bytes : Bytes) (prefix_bits : ℕ) (r : Field × ℕ)
    → decode_literal t bytes prefix_bits ≡ ok r
    → 1 ≤ r.1
unfolding decode_literal
decode_literal_takes t bytes p r e =
    let (i, ie, e1) = bind-eq-ok (decode_integer bytes p) _ e in
    let (n, ne, e2) =
      bind-eq-ok
        (if i.0 == 0
          then (decode_string (drop i.1 bytes) >>= λ q. ok (q.0, i.1 + q.1))
          else (resolve_index i.0 t >>= λ f. ok (f.0, i.1)))
        _ e1 in
    let (v, _, e3) = bind-eq-ok (decode_string (drop n.1 bytes)) _ e2 in
    let one = decode_integer_takes bytes p i ie in
    let more = name_takes t bytes i.0 i.1 n ne in
    rw (← ok-injective _ r e3) (omega (arith, one, more))

-- The variables of the loop: the table is consistent, and the sizes of the headers are counted
-- and within the limit.
pub record IsSound (d : HpackDecoder) (p : Progress) : Type 0 where
  pub table : IsConsistent p.dynamic
  pub counted : p.total_size ≡ total p.headers
  pub within : p.total_size ≤ d.max_header_list_size

push_field-IsSound :
    (d : HpackDecoder) (p p' : Progress) (t : DynamicTable) (field : Field)
    → IsSound d p
    → IsConsistent t
    → push_field d p t field ≡ ok p'
    → IsSound d p'
push_field-IsSound d p p' t field s c e =
    let (small, e1) =
      guard-eq-ok (leb (p.total_size + entry_size field) d.max_header_list_size) _ _ e in
    rw (← ok-injective _ p' e1)
      (record { table = c; counted = omega (arith, s.counted); within = ground arith })

-- What one round leaves.
pub record RoundSound (d : HpackDecoder) (r : Progress × ℕ) : Type 0 where
  pub sound : IsSound d r.0
  pub takes : 1 ≤ r.1

round_sound :
    (d : HpackDecoder) (p' : Progress) (used : ℕ) (r : Progress × ℕ)
    → IsSound d p'
    → 1 ≤ used
    → ◌≡◌ {A = Result HpackError (Progress × ℕ)} (ok (p', used)) (ok r)
    → RoundSound d r
round_sound d p' used r s t e = rw (← ok-injective (p', used) r e) (record { sound = s; takes = t })

pub indexed_sound :
    (d : HpackDecoder) (p : Progress) (block : Bytes) (r : Progress × ℕ)
    → IsSound d p
    → (decode_integer block 7 >>= λ i. resolve_index i.0 p.dynamic >>= λ field.
        push_field d p p.dynamic field >>= λ p'. ok (p', i.1))
      ≡ ok r
    → RoundSound d r
indexed_sound d p block r s e =
    let (i, ie, e1) = bind-eq-ok (decode_integer block 7) _ e in
    let (field, _, e2) = bind-eq-ok (resolve_index i.0 p.dynamic) _ e1 in
    let (p', pe, e3) = bind-eq-ok (push_field d p p.dynamic field) _ e2 in
    round_sound d p' i.1 r (push_field-IsSound d p p' p.dynamic field s s.table pe)
      (decode_integer_takes block 7 i ie) e3

pub literal_sound :
    (d : HpackDecoder) (p : Progress) (block : Bytes) (prefix_bits : ℕ)
    (next : Field → DynamicTable) (r : Progress × ℕ)
    → IsSound d p
    → ((field : Field) → IsConsistent (next field))
    → (decode_literal p.dynamic block prefix_bits >>= λ l.
        push_field d p (next l.0) l.0 >>= λ p'. ok (p', l.1))
      ≡ ok r
    → RoundSound d r
literal_sound d p block k next r s c e =
    let (l, le, e1) = bind-eq-ok (decode_literal p.dynamic block k) _ e in
    let (p', pe, e2) = bind-eq-ok (push_field d p (next l.0) l.0) _ e1 in
    round_sound d p' l.1 r (push_field-IsSound d p p' (next l.0) l.0 s (c l.0) pe)
      (decode_literal_takes p.dynamic block k l le) e2

pub update_sound :
    (d : HpackDecoder) (p : Progress) (block : Bytes) (r : Progress × ℕ)
    → IsSound d p
    → (guard p.allow_size_update unexpected_table_size_update
        >> (decode_integer block 5 >>= λ i. apply_size_update p.dynamic i.0 >>= λ dynamic.
            ok (record p { dynamic = dynamic }, i.1)))
      ≡ ok r
    → RoundSound d r
update_sound d p block r s e =
    let (_, e0) = guard-eq-ok p.allow_size_update unexpected_table_size_update _ e in
    let (i, ie, e1) = bind-eq-ok (decode_integer block 5) _ e0 in
    let (t, te, e2) = bind-eq-ok (apply_size_update p.dynamic i.0) _ e1 in
    round_sound d _ i.1 r
      (record { table = updated i.0 t te; counted = s.counted; within = s.within })
      (decode_integer_takes block 5 i ie) e2
  where
    updated : (n : ℕ) (t : DynamicTable) → apply_size_update p.dynamic n ≡ ok t → IsConsistent t
    updated n t te = elim (apply_size_update-bounds p.dynamic n s.table) [
      | inl (_, t', q, c, _, _) ↦ rw (ok-injective t' t (sym q ∙ te)) at c
      | inr (_, q) ↦ cc (q, te)
    ]
