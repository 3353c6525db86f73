-- ===== src/Coyote/Hpack/Table/Invariant.antt =====
-- The accounting of the dynamic table, and what eviction keeps: the newest entries that fit.
use michael.Prelude.{
  ℕ, zero, suc, ◌+◌, ◌-◌, ◌≤◌, ◌<◌, [], ◌∷◌, ◌++◌, ok, err, ◌≡◌, ◌⊎◌, inl, inr, refl, sym, ap, ◌∙◌,
  arith, ltb, length, Bool-cases, Option-cases, ltb→lt, ltb→le, min,
}
use michael.Coyote.Hpack.Table.{
  Field, DynamicTable, entry_size, pop_back, evict_loop, evict_to_fit, resize, set_max_capacity,
  apply_size_update, insert, table_size_exceeded,
}
pub use michael.Coyote.Hpack.Table.Fitting.{total, fitting, total-append}
use michael.Coyote.Hpack.Table.Fitting.{
  fitting-all, fitting-too_big, fitting-cons, fitting-nothing, fitting-append, fitting-total,
  pop_back-some, pop_back-none, nothing_left, total-pop, length-pop,
}

pub record IsConsistent (t : DynamicTable) : Type 0 where
  pub counted : t.size ≡ total t.entries
  pub bounded : t.size ≤ t.capacity
  pub capped : t.capacity ≤ t.max_capacity

-- What eviction does to a table that counts its entries.
record Evicts (t : DynamicTable) (additional : ℕ) (t' : DynamicTable) : Type 0 where
  kept : t'.entries ≡ fitting (t.capacity - additional) t.entries
  counted : t'.size ≡ total t'.entries
  same_capacity : t'.capacity ≡ t.capacity
  same_ceiling : t'.max_capacity ≡ t.max_capacity

evict_loop-Evicts :
    (fuel : ℕ) (t : DynamicTable) (additional : ℕ)
    → length t.entries ≤ fuel
    → t.size ≡ total t.entries
    → Evicts t additional (evict_loop fuel t additional)
unfolding evict_loop
evict_loop-Evicts zero t a h s = record {
  kept = nothing_left (t.capacity - a) t.entries h;
  counted = s;
  same_capacity = refl;
  same_ceiling = refl;
}
evict_loop-Evicts (suc fuel) t a h s = elim (Bool-cases (ltb t.capacity (t.size + a))) [
  | inr fits ↦ rw fits (record {
    kept = sym (fitting-all (t.capacity - a) t.entries (ground arith));
    counted = s;
    same_capacity = refl;
    same_ceiling = refl;
  })
  | inl over ↦ elim (Option-cases (pop_back t.entries)) [
    | inl n ↦
        rw (over, n)
          (record {
            kept =
                nothing_left (t.capacity - a) t.entries
                  (rw (pop_back-none t.entries n) (omega arith));
            counted = s;
            same_capacity = refl;
            same_ceiling = refl;
          })
    | inr ((rest, x), q) ↦
        let e : t.entries ≡ rest ++ (x ∷ []) = pop_back-some t.entries rest x q in
        let len = length-pop t.entries rest x e in
        let sum = total-pop t.entries rest x e in
        let t' : DynamicTable = record t { entries = rest; size = t.size - entry_size x } in
        let ih = evict_loop-Evicts fuel t' a (omega (arith, len, h)) (omega (arith, s, sum)) in
        let too_much : t.capacity - a < total (rest ++ (x ∷ [])) =
          rw (sym e) (ground (arith, s, sum)) in
        rw (over, q)
          (record {
            kept =
                ih.kept
                ∙ sym (
                    ap (fitting (t.capacity - a)) e
                    ∙ fitting-append (t.capacity - a) rest x too_much);
            counted = ih.counted;
            same_capacity = ih.same_capacity;
            same_ceiling = ih.same_ceiling;
          })
  ]
]

evict_to_fit-Evicts :
    (t : DynamicTable) (additional : ℕ)
    → t.size ≡ total t.entries
    → Evicts t additional (evict_to_fit t additional)
unfolding evict_to_fit
evict_to_fit-Evicts t a s = evict_loop-Evicts (length t.entries) t a (omega arith) s

-- On a consistent table `insert` leaves a consistent one of the same capacity, that holds the
-- newest entries, the new one first, that fit in the capacity.
pub insert-IsConsistent :
    (t : DynamicTable) (e : Field)
    → IsConsistent t
    → IsConsistent (insert t e)
      × ((insert t e).entries ≡ fitting t.capacity (e ∷ t.entries))
      × ((insert t e).capacity ≡ t.capacity)
unfolding insert
insert-IsConsistent t e c =
    let ev = evict_to_fit-Evicts t (entry_size e) c.counted in
    let room = fitting-total (t.capacity - entry_size e) t.entries in
    let kept_size : total (evict_to_fit t (entry_size e)).entries ≤ t.capacity - entry_size e =
      rw ev.kept room in
    elim (Bool-cases (ltb (evict_to_fit t (entry_size e)).capacity (entry_size e))) [
      | inl big ↦
          let lacking : t.capacity < entry_size e = rw ev.same_capacity at (ltb→lt _ _ big) in
          rw big (
            record {
              counted = ev.counted;
              bounded = omega (arith, ev.counted, kept_size, ev.same_capacity);
              capped = omega (arith, ev.same_capacity, ev.same_ceiling, c.capped);
            },
            ev.kept
                ∙ fitting-nothing _ t.entries (omega (arith, lacking))
                ∙ sym (fitting-too_big t.capacity e t.entries lacking),
            ev.same_capacity,
          )
      | inr fits ↦ rw fits (
        record {
          counted = omega (arith, ev.counted);
          bounded = ground (arith, ev.counted, kept_size, ev.same_capacity);
          capped = omega (arith, ev.same_capacity, ev.same_ceiling, c.capped);
        },
        ap (◌∷◌ e) ev.kept
            ∙ sym (fitting-cons t.capacity e t.entries (rw ev.same_capacity at (ltb→le _ _ fits))),
        ev.same_capacity,
      )
    ]

-- `resize` keeps the newest entries that fit in the new capacity.
pub resize-keeps_newest :
    (t : DynamicTable) (new_capacity : ℕ)
    → t.size ≡ total t.entries
    → new_capacity ≤ t.max_capacity
    → IsConsistent (resize t new_capacity)
      × ((resize t new_capacity).entries ≡ fitting new_capacity t.entries)
      × ((resize t new_capacity).capacity ≡ new_capacity)
unfolding resize
resize-keeps_newest t new_capacity s h =
    let ev = evict_to_fit-Evicts (record t { capacity = new_capacity }) 0 s in
    let room = fitting-total new_capacity t.entries in
    let kept = ev.kept ∙ ap (λ n. fitting n t.entries) (omega arith) in
    let kept_size : total (evict_to_fit (record t { capacity = new_capacity }) 0).entries
        ≤ new_capacity =
      rw kept room in
    (
      record {
        counted = ev.counted;
        bounded = omega (arith, ev.counted, kept_size, ev.same_capacity);
        capped = omega (arith, ev.same_capacity, ev.same_ceiling, h);
      },
      kept,
      ev.same_capacity,
    )

-- A size update within the ceiling succeeds, on a consistent table, and leaves the newest entries
-- that fit in the new capacity; a larger one is refused.
pub apply_size_update-bounds :
    (t : DynamicTable) (new_capacity : ℕ)
    → IsConsistent t
    → ((new_capacity ≤ t.max_capacity)
        × (t' : DynamicTable) × (apply_size_update t new_capacity ≡ ok t')
        × IsConsistent t'
        × (t'.entries ≡ fitting new_capacity t.entries)
        × (t'.capacity ≡ new_capacity))
      ⊎ ((t.max_capacity < new_capacity)
          × (apply_size_update t new_capacity
              ≡ err (table_size_exceeded new_capacity t.max_capacity)))
unfolding apply_size_update
apply_size_update-bounds t n c = elim (Bool-cases (ltb t.max_capacity n)) [
  | inl big ↦ inr (ltb→lt _ _ big, rw big refl)
  | inr fits ↦
      let (cons, kept, cap) = resize-keeps_newest t n c.counted (ltb→le _ _ fits) in
      inl (ltb→le _ _ fits, resize t n, rw fits refl, cons, kept, cap)
]

-- A new ceiling keeps a consistent table consistent, with the newest entries that fit under it.
pub set_max_capacity-IsConsistent :
    (t : DynamicTable) (max_capacity : ℕ)
    → IsConsistent t
    → IsConsistent (set_max_capacity t max_capacity)
      × ((set_max_capacity t max_capacity).entries
          ≡ fitting (min t.capacity max_capacity) t.entries)
      × ((set_max_capacity t max_capacity).capacity ≡ min t.capacity max_capacity)
unfolding set_max_capacity
set_max_capacity-IsConsistent t m c = elim (Bool-cases (ltb m t.capacity)) [
  | inl lower ↦
      let (cons, kept, cap) =
        resize-keeps_newest (record t { max_capacity = m }) m c.counted (omega arith) in
      let is_min : min t.capacity m ≡ m = omega (arith, ltb→lt _ _ lower) in
      rw (lower, is_min) (cons, kept, cap)
  | inr same ↦
      let is_min : min t.capacity m ≡ t.capacity = omega (arith, ltb→le _ _ same) in
      rw (same, is_min)
        (
          record { counted = c.counted; bounded = c.bounded; capped = ltb→le _ _ same },
          sym (fitting-all t.capacity t.entries (omega (arith, c.counted, c.bounded))),
          refl,
        )
]
