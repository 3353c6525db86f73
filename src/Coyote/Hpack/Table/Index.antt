-- ===== src/Coyote/Hpack/Table/Index.antt =====
-- The searches of the encoder and the look-up of the decoder agree on the index space.
use michael.Prelude.{
  ℕ, zero, suc, ◌+◌, ◌-◌, ◌≤◌, ◌<◌, Bool, true, false, ◌&&◌, List, [], ◌∷◌, none, some, ok, err,
  ◌≡◌, ◌⊎◌, inl, inr, refl, sym, ◌∙◌, arith, leb, ◌==◌, length, get_elem?, Option-cases, ok_or,
  le→leb, Result, ==_iff, ltb, ltb→lt, ltb→le, Bool-cases,
}
use michael.Prelude.Text.{Bytes, str_eq}
use michael.Prelude.Text.Laws.{str_eq_iff}
use michael.Coyote.Hpack.Static.{static_table}
use michael.Coyote.Hpack.Table.{
  Field, DynamicTable, HpackError, position, find_in_tables, find_full, find_name, same_field,
  same_name, resolve_index, invalid_index, static_len,
}
use mathlib.Core.Option.{some-injective}

get_elem?-lt {ℓ} :
    {A : Type ℓ} (xs : List A) (i : ℕ) (x : A) → get_elem? xs i ≡ some x → i < length xs
get_elem?-lt [] i x h = cc
get_elem?-lt (y ∷ xs) zero x h = omega arith
get_elem?-lt (y ∷ xs) (suc i) x h = omega (arith, get_elem?-lt xs i x h)

get_elem?-ge {ℓ} : {A : Type ℓ} (xs : List A) (i : ℕ) → length xs ≤ i → get_elem? xs i ≡ none
get_elem?-ge [] i h = refl
get_elem?-ge (y ∷ xs) zero h = absurd (omega arith)
get_elem?-ge (y ∷ xs) (suc i) h = get_elem?-ge xs i (omega arith)

get_elem?-some {ℓ} :
    {A : Type ℓ} (xs : List A) (i : ℕ) → i < length xs → (x : A) × (get_elem? xs i ≡ some x)
get_elem?-some [] i h = absurd (omega arith)
get_elem?-some (y ∷ xs) zero h = (y, refl)
get_elem?-some (y ∷ xs) (suc i) h = get_elem?-some xs i (omega arith)

position-found :
    (test : Field → Bool) (start : ℕ) (es : List Field) (i : ℕ)
    → position test start es ≡ some i
    → (j : ℕ) × (f : Field) × (i ≡ start + j) × (get_elem? es j ≡ some f) × (test f ≡ true)
unfolding position
position-found test start [] i h = cc
position-found test start (e ∷ es) i h = elim (Bool-cases (test e)) [
  | inl here ↦ (0, e, ground (arith), refl, here)
  | inr skip ↦
      let (j, f, at, here, passes) =
        position-found test (start + 1) es i (rw (position, skip) at h) in
      (suc j, f, omega (arith, at), here, passes)
]

and-true : (a b : Bool) → (a && b) ≡ true → (a ≡ true) × (b ≡ true)
and-true a b h = ground arith

static-length : length static_table ≡ static_len
static-length = refl

resolve_static :
    (i : ℕ) (t : DynamicTable) (f : Field)
    → get_elem? static_table i ≡ some f
    → resolve_index (1 + i) t ≡ ok f
unfolding resolve_index
resolve_static i t f h =
    let within_table : leb (1 + i) static_len ≡ true =
      le→leb _ _ (omega (arith, get_elem?-lt static_table i f h)) in
    let not_zero : (1 + i == 0) ≡ false = ground arith in
    let back : 1 + i - 1 ≡ i = omega arith in rw (not_zero, within_table, back, h) refl

resolve_dynamic :
    (i : ℕ) (t : DynamicTable)
    → resolve_index (static_len + 1 + i) t
      ≡ ok_or (get_elem? t.entries i) (invalid_index (static_len + 1 + i))
unfolding resolve_index
resolve_dynamic i t =
    let beyond : leb (static_len + 1 + i) static_len ≡ false = ground arith in
    let not_zero : (static_len + 1 + i == 0) ≡ false = ground arith in
    let back : static_len + 1 + i - static_len - 1 ≡ i = omega arith in
    rw (not_zero, beyond, back) refl

pub resolve-position :
    (t : DynamicTable) (test : Field → Bool) (i : ℕ)
    → find_in_tables test t ≡ some i
    → (f : Field) × (resolve_index i t ≡ ok f) × (test f ≡ true)
unfolding find_in_tables
resolve-position t test i h = elim (Option-cases (position test 1 static_table)) [
  | inr (k, q) ↦
      let (j, f, place, here, passes) = position-found test 1 static_table k q in
      let same : k ≡ i = some-injective k i (rw (find_in_tables, q) at h) in
      (f, rw (sym same, place) (resolve_static j t f here), passes)
  | inl n ↦
      let (j, f, place, here, passes) =
        position-found test (static_len + 1) t.entries i (rw (find_in_tables, n) at h) in
      (f, rw (place, resolve_dynamic j t, here) refl, passes)
]

same_pair :
    {n m v w : Bytes} → n ≡ m → v ≡ w → ◌≡◌ {A = Result HpackError Field} (ok (n, v)) (ok (m, w))
same_pair p q = cc

-- The index that `find_full` gives for a field is one that `resolve_index` turns into that field.
pub resolve_index-find_full :
    (t : DynamicTable) (e : Field) (i : ℕ) → find_full e t ≡ some i → resolve_index i t ≡ ok e
resolve_index-find_full t (name, value) i h =
    let ((n, v), found, same) = resolve-position t (same_field (name, value)) i h in
    let (same_n, same_v) = and-true (str_eq n name) (str_eq v value) same in
    found ∙ same_pair ((str_eq_iff n name).0 same_n) ((str_eq_iff v value).0 same_v)

-- The index that `find_name` gives for a name is one of a field of that name.
pub resolve_index-find_name :
    (t : DynamicTable) (name : Bytes) (i : ℕ)
    → find_name name t ≡ some i
    → (value : Bytes) × (resolve_index i t ≡ ok (name, value))
resolve_index-find_name t name i h =
    let ((n, v), found, same) = resolve-position t (same_name name) i h in
    (v, found ∙ same_pair ((str_eq_iff n name).0 same) refl)

-- The three parts of the index space.
index_cases :
    (i : ℕ)
    → (i ≡ 0) ⊎ (((j : ℕ) × (j < static_len) × (i ≡ 1 + j)) ⊎ ((j : ℕ) × (i ≡ static_len + 1 + j)))
index_cases i = elim (Bool-cases (i == 0)) [
  | inl e ↦ inl ((==_iff i 0).0 e)
  | inr e ↦ elim (Bool-cases (leb i static_len)) [
    | inl f ↦ inr (inl (i - 1, ground arith, ground arith))
    | inr f ↦ inr (inr (i - static_len - 1, ground arith))
  ]
]

resolve_zero : (t : DynamicTable) → resolve_index 0 t ≡ err (invalid_index 0)
unfolding resolve_index
resolve_zero t = refl

-- `resolve_index` answers for the indices from 1 to 61 and for one index more per entry, and
-- refuses every other index, naming it.
pub resolve_index-range :
    (t : DynamicTable) (i : ℕ)
    → ((1 ≤ i) × (i ≤ static_len + length t.entries) × (f : Field) × (resolve_index i t ≡ ok f))
      ⊎ (((i ≡ 0) ⊎ (static_len + length t.entries < i))
          × (resolve_index i t ≡ err (invalid_index i)))
resolve_index-range t i = elim (index_cases i) [
  | inl e ↦ inr (inl e, rw e (resolve_zero t))
  | inr (inl (j, small, e)) ↦
      let (f, here) = get_elem?-some static_table j small in
      inl (omega arith, omega arith, f, rw e (resolve_static j t f here))
  | inr (inr (j, e)) ↦ elim (Option-cases (get_elem? t.entries j)) [
    | inr (f, here) ↦
        let below = get_elem?-lt t.entries j f here in
        inl (omega arith, omega arith, f, rw (e, resolve_dynamic j t, here) refl)
    | inl n ↦ inr (inr (beyond j e n), rw (e, resolve_dynamic j t, n) refl)
  ]
]
  where
    beyond :
        (j : ℕ)
        → i ≡ static_len + 1 + j
        → get_elem? t.entries j ≡ none
        → static_len + length t.entries < i
    beyond j e n = elim (Bool-cases (ltb j (length t.entries))) [
      | inl lt ↦ let (f, here) = get_elem?-some t.entries j (ltb→lt _ _ lt) in absurd (cc (here, n))
      | inr ge ↦ let le = ltb→le _ _ ge in omega arith
    ]
