-- ===== src/Coyote/Normalize/Segments.antt =====
-- The segment stack of `collapse_dot_segments`: what it keeps, when it refuses a path, and that
-- names alone pass through unchanged.
use mathlib.Core.List.{reverse-append}
use michael.Prelude.{
  ℕ, suc, ◌+◌, ◌<◌, true, false, List, [], ◌∷◌, ◌++◌, ◌≡◌, ◌↔◌, inl, inr, refl, sym, ap, ◌∙◌, arith,
  if◌then◌else◌, Bool-cases, All, append_assoc, reverse, length, Result, ok, err, ◌>>=◌,
}
use michael.Prelude.Text.{Bytes}
use michael.Coyote.Normalize.{
  NormalizeError, path_traversal, is_skip, is_up, pop, collapse_step, collapse_loop,
}

-- A segment that is neither empty, nor `.`, nor `..`.
abbrev pub IsName : Bytes → Type 0
IsName s = (is_skip s ≡ false) × (is_up s ≡ false)

-- The segments of each kind, counted.
abbrev pub name_count : List Bytes → ℕ
name_count [] = 0
name_count (s ∷ segs) = (if is_skip s then 0 else if is_up s then 0 else 1) + name_count segs

abbrev pub up_count : List Bytes → ℕ
up_count [] = 0
up_count (s ∷ segs) = (if is_skip s then 0 else if is_up s then 1 else 0) + up_count segs

-- Some front of the segments has more `..` than `depth` and its names make up for.
abbrev pub Climbs : ℕ → List Bytes → Type 0
Climbs depth segs =
    (front : List Bytes) × (back : List Bytes) × (segs ≡ front ++ back)
    × (depth + name_count front < up_count front)

-- The three kinds of segment.
data Kind (stack : List Bytes) (s : Bytes) : Type 0 where
  skips : is_skip s ≡ true → collapse_step stack s ≡ ok stack → Kind stack s
  rises : is_skip s ≡ false → is_up s ≡ true → collapse_step stack s ≡ pop stack → Kind stack s
  names :
      is_skip s ≡ false → is_up s ≡ false → collapse_step stack s ≡ ok (s ∷ stack) → Kind stack s

kind : (stack : List Bytes) (s : Bytes) → Kind stack s
unfolding collapse_step
kind stack s = elim (Bool-cases (is_skip s)) [
  | inl k ↦ skips k (rw k)
  | inr k ↦ elim (Bool-cases (is_up s)) [
    | inl u ↦ rises k u (rw (k, u))
    | inr u ↦ names k u (rw (k, u))
  ]
]

-- One more segment in front of a climbing front.
Climbs-cons :
    (d d' : ℕ) (s : Bytes) (segs : List Bytes)
    → d + name_count (s ∷ []) ≡ d' + up_count (s ∷ [])
    → Climbs d' segs
    → Climbs d (s ∷ segs)
Climbs-cons d d' s segs e (front, back, p, h) = (s ∷ front, back, ap (◌∷◌ s) p, omega (arith, e))

collapse_loop_step :
    (stack : List Bytes) (s : Bytes) (segs : List Bytes) {r : Result NormalizeError (List Bytes)}
    → collapse_step stack s ≡ r
    → collapse_loop stack (s ∷ segs) ≡ (r >>= λ st. collapse_loop st segs)
unfolding collapse_loop
collapse_loop_step stack s segs e = rw e

collapse_loop-Climbs :
    (segs stack : List Bytes)
    → collapse_loop stack segs ≡ err path_traversal
    → Climbs (length stack) segs
collapse_loop-Climbs [] stack h = unfold collapse_loop in cc
collapse_loop-Climbs (s ∷ segs) stack h = elim (kind stack s) [
  | skips k e ↦
      Climbs-cons (length stack) (length stack) s segs (rw k refl)
        (collapse_loop-Climbs segs stack (sym (collapse_loop_step stack s segs e) ∙ h))
  | rises k u e ↦ fall stack e h k u (λ st. collapse_loop-Climbs segs st)
  | names k u e ↦
      Climbs-cons (length stack) (suc (length stack)) s segs (rw (k, u) (omega arith))
        (collapse_loop-Climbs segs (s ∷ stack) (sym (collapse_loop_step stack s segs e) ∙ h))
]
  where
    fall :
        (st : List Bytes)
        → collapse_step st s ≡ pop st
        → collapse_loop st (s ∷ segs) ≡ err path_traversal
        → is_skip s ≡ false
        → is_up s ≡ true
        → ((st' : List Bytes)
            → collapse_loop st' segs ≡ err path_traversal
            → Climbs (length st') segs)
        → Climbs (length st) (s ∷ segs)
    fall [] e q k u rec = (s ∷ [], segs, refl, rw (k, u) (omega arith))
    fall (top ∷ st) e q k u rec =
        Climbs-cons (suc (length st)) (length st) s segs (rw (k, u) (omega arith))
          (rec st (sym (collapse_loop_step (top ∷ st) s segs e) ∙ q))

collapse_loop-eq-err :
    (front back stack : List Bytes)
    → length stack + name_count front < up_count front
    → collapse_loop stack (front ++ back) ≡ err path_traversal
collapse_loop-eq-err [] back stack h = absurd (omega arith)
collapse_loop-eq-err (s ∷ front) back stack h = elim (kind stack s) [
  | skips k e ↦
      collapse_loop_step stack s (front ++ back) e
      ∙ collapse_loop-eq-err front back stack (omega (arith, rw k at h))
  | rises k u e ↦ fall stack e (rw (k, u) at h) (λ st. collapse_loop-eq-err front back st)
  | names k u e ↦
      collapse_loop_step stack s (front ++ back) e
      ∙ collapse_loop-eq-err front back (s ∷ stack) (omega (arith, rw (k, u) at h))
]
  where
    fall :
        (st : List Bytes)
        → collapse_step st s ≡ pop st
        → length st + (0 + name_count front) < 1 + up_count front
        → ((st' : List Bytes)
            → length st' + name_count front < up_count front
            → collapse_loop st' (front ++ back) ≡ err path_traversal)
        → collapse_loop st (s ∷ (front ++ back)) ≡ err path_traversal
    fall [] e q rec = collapse_loop_step [] s (front ++ back) e
    fall (top ∷ st) e q rec =
        collapse_loop_step (top ∷ st) s (front ++ back) e ∙ rec st (omega arith)

-- The loop refuses the segments exactly when some front of them climbs above the stack.
pub collapse_loop_refuses :
    (stack segs : List Bytes)
    → (collapse_loop stack segs ≡ err path_traversal) ↔ Climbs (length stack) segs
collapse_loop_refuses stack segs = (
  collapse_loop-Climbs segs stack,
  λ (front, back, p, h). rw p (collapse_loop-eq-err front back stack h),
)

-- What the loop keeps are names, and each has whatever property all the segments had.
pub collapse_loop-IsName :
    (P : Bytes → Type 0) (segs stack : List Bytes) {kept : List Bytes}
    → All P segs
    → All (λ s. IsName s × P s) stack
    → collapse_loop stack segs ≡ ok kept
    → All (λ s. IsName s × P s) kept
collapse_loop-IsName P [] stack {kept} h n e =
    let p : stack ≡ kept = unfold collapse_loop in cc e in rw (← p) n
collapse_loop-IsName P (s ∷ segs) stack {kept} h n e = elim (kind stack s) [
  | skips k q ↦
      collapse_loop-IsName P segs stack h.1 n (sym (collapse_loop_step stack s segs q) ∙ e)
  | rises k u q ↦
      fall stack n (sym (collapse_loop_step stack s segs q) ∙ e)
        (λ st. collapse_loop-IsName P segs st h.1)
  | names k u q ↦
      collapse_loop-IsName P segs (s ∷ stack) h.1 (((k, u), h.0), n)
        (sym (collapse_loop_step stack s segs q) ∙ e)
]
  where
    fall :
        (st : List Bytes)
        → All (λ s. IsName s × P s) st
        → (pop st >>= λ st'. collapse_loop st' segs) ≡ ok kept
        → ((st' : List Bytes)
            → All (λ s. IsName s × P s) st'
            → collapse_loop st' segs ≡ ok kept
            → All (λ s. IsName s × P s) kept)
        → All (λ s. IsName s × P s) kept
    fall [] n q rec = cc
    fall (top ∷ st) n q rec = rec st n.1 q

-- Names are all kept, whatever follows them.
pub collapse_loop_names :
    (segs rest stack : List Bytes)
    → All IsName segs
    → collapse_loop stack (segs ++ rest) ≡ collapse_loop (reverse segs ++ stack) rest
collapse_loop_names [] rest stack h = refl
collapse_loop_names (s ∷ segs) rest stack h =
    keep (kind stack s) (collapse_loop_names segs rest (s ∷ stack) h.1)
    ∙ ap (λ st. collapse_loop st rest)
        (sym (rw (reverse-append (s ∷ []) segs) (append_assoc (reverse segs) (s ∷ []) stack)))
  where
    keep :
        Kind stack s
        → collapse_loop (s ∷ stack) (segs ++ rest)
          ≡ collapse_loop (reverse segs ++ (s ∷ stack)) rest
        → collapse_loop stack (s ∷ (segs ++ rest))
          ≡ collapse_loop (reverse segs ++ (s ∷ stack)) rest
    keep (skips k e) q = cc (k, h.0.0)
    keep (rises k u e) q = cc (u, h.0.1)
    keep (names k u e) q = collapse_loop_step stack s (segs ++ rest) e ∙ q
