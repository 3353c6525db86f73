-- ===== src/Coyote/Normalize/Idempotent.antt =====
-- Collapsing a path that is in normal form changes nothing.
use mathlib.Core.List.{reverse-reverse}
use michael.Prelude.{
  ℕ, Bool, true, false, List, [], ◌∷◌, ◌++◌, ◌≡◌, refl, sym, ap, ◌∙◌, arith, length, reverse, All,
  Result, ok, if◌then◌else◌, ◌&&◌, append-nil, append_assoc, lt→ltb, suc, length-append, All-append,
  All-map,
}
use michael.Prelude.Text.{Bytes, contains, split_on, join, ends_with, str_eq}
use michael.Prelude.Text.Laws.{split_on-join}
use michael.Coyote.Normalize.{
  NormalizeError, collapse_step, collapse_loop, render_path, collapse_dot_segments,
}
use michael.Coyote.Normalize.Segments.{collapse_loop_names}
use michael.Coyote.Normalize.Safety.{IsSafeSegment, IsCanonical, slash_if, join_name_pos}

ends_with-append :
    (a : Bytes) (x : ℕ) (b : Bytes) (c : ℕ) → ends_with (a ++ (x ∷ b)) c ≡ ends_with (x ∷ b) c
unfolding ends_with
ends_with-append [] x b c = refl
ends_with-append (y ∷ []) x b c = refl
ends_with-append (y ∷ z ∷ a) x b c = ends_with-append (z ∷ a) x b c

ends_with-contains : (s : Bytes) (c : ℕ) → contains s c ≡ false → ends_with s c ≡ false
unfolding ends_with contains
ends_with-contains [] c h = refl
ends_with-contains (x ∷ []) c h = ground arith
ends_with-contains (x ∷ y ∷ s) c h = ends_with-contains (y ∷ s) c (ground arith)

-- Joined names end in no slash.
join_names-ends_with :
    (p : Bytes) (ps : List Bytes)
    → All IsSafeSegment (p ∷ ps)
    → ends_with (b'/' ∷ join b'/' (p ∷ ps)) b'/' ≡ false
unfolding join
join_names-ends_with [] ps h = unfold str_eq in cc h.0.0.0
join_names-ends_with (x ∷ p) [] h =
    ends_with-append (b'/' ∷ []) x p b'/' ∙ ends_with-contains (x ∷ p) b'/' h.0.1.0
join_names-ends_with (x ∷ p) (q ∷ ps) h =
    ends_with-append (b'/' ∷ (x ∷ p)) b'/' (join b'/' (q ∷ ps)) b'/' ∙ join_names-ends_with q ps h.1

-- The whole path as one join: the empty segment before the first slash, the names, and an empty
-- one behind a trailing slash.
join-trailing :
    (p : Bytes) (ps : List Bytes)
    → join b'/' (p ∷ ps) ++ (b'/' ∷ []) ≡ join b'/' ((p ∷ ps) ++ ([] ∷ []))
unfolding join
join-trailing p [] = refl
join-trailing p (q ∷ ps) =
    append_assoc p (b'/' ∷ join b'/' (q ∷ ps)) (b'/' ∷ [])
    ∙ ap (λ (t : Bytes). p ++ (b'/' ∷ t)) (join-trailing q ps)

abbrev empty_if : Bool → List Bytes
empty_if true = [] ∷ []
empty_if false = []

canonical-join :
    (trailing : Bool) (p : Bytes) (ps : List Bytes)
    → b'/' ∷ (join b'/' (p ∷ ps) ++ slash_if trailing)
      ≡ join b'/' ([] ∷ ((p ∷ ps) ++ empty_if trailing))
canonical-join false p ps = unfold join in rw (append-nil, append-nil)
canonical-join true p ps = unfold join in ap (◌∷◌ b'/') (join-trailing p ps)

-- Empty segments pass through the loop.
collapse_loop_empty :
    (segs stack : List Bytes) → collapse_loop stack ([] ∷ segs) ≡ collapse_loop stack segs
unfolding collapse_loop collapse_step str_eq
collapse_loop_empty segs stack = refl

collapse_loop_tail :
    (trailing : Bool) (stack : List Bytes) → collapse_loop stack (empty_if trailing) ≡ ok stack
collapse_loop_tail false stack = unfold collapse_loop in refl
collapse_loop_tail true stack = collapse_loop_empty [] stack ∙ unfold collapse_loop in refl

loop_canonical :
    (trailing : Bool) (p : Bytes) (ps : List Bytes)
    → All IsSafeSegment (p ∷ ps)
    → collapse_loop [] (split_on b'/' (b'/' ∷ (join b'/' (p ∷ ps) ++ slash_if trailing)))
      ≡ ok (reverse (p ∷ ps))
loop_canonical trailing p ps h =
    ap (λ (t : Bytes). collapse_loop [] (split_on b'/' t)) (canonical-join trailing p ps)
    ∙ ap (collapse_loop []) (
        split_on-join b'/' [] ((p ∷ ps) ++ empty_if trailing) (
          contains_empty,
          All-append _ (p ∷ ps) (empty_if trailing) (All-map (λ s k. k.1.0) (p ∷ ps) h)
              (empties trailing),
        ))
    ∙ collapse_loop_empty _ []
    ∙ collapse_loop_names (p ∷ ps) (empty_if trailing) [] (All-map (λ s k. k.0) (p ∷ ps) h)
    ∙ rw append-nil (collapse_loop_tail trailing (reverse (p ∷ ps)))
  where
    contains_empty : contains [] b'/' ≡ false
    contains_empty = unfold contains in refl

    empties : (t : Bool) → All (λ s. contains s b'/' ≡ false) (empty_if t)
    empties true = (contains_empty, tt)
    empties false = tt

-- The flag that the source computes is the trailing slash of the normal form.
trailing_canonical :
    (trailing : Bool) (p : Bytes) (ps : List Bytes)
    → All IsSafeSegment (p ∷ ps)
    → ends_with (b'/' ∷ (join b'/' (p ∷ ps) ++ slash_if trailing)) b'/' ≡ trailing
trailing_canonical true p ps h =
    ends_with-append (b'/' ∷ join b'/' (p ∷ ps)) b'/' [] b'/' ∙ unfold ends_with in refl
trailing_canonical false p ps h = rw append-nil (join_names-ends_with p ps h)

collapse_canonical :
    (trailing : Bool) (segs : List Bytes)
    → (segs ≡ [] → trailing ≡ false)
    → All IsSafeSegment segs
    → collapse_dot_segments (b'/' ∷ (join b'/' segs ++ slash_if trailing))
      ≡ ok (b'/' ∷ (join b'/' segs ++ slash_if trailing))
unfolding collapse_dot_segments
collapse_canonical true [] bare h = cc (bare refl)
collapse_canonical false [] bare h =
    unfold collapse_loop collapse_step render_path split_on join str_eq in refl
collapse_canonical trailing (p ∷ ps) bare h =
    let long = join_name_pos p ps h.0 in
    rw
      (
        loop_canonical trailing p ps h,
        trailing_canonical trailing p ps h,
        lt→ltb 1 (suc (length (join b'/' (p ∷ ps) ++ slash_if trailing)))
            (omega (arith, length-append (join b'/' (p ∷ ps)) (slash_if trailing))),
      )
      (unfold render_path in
        rw (reverse-reverse, lt→ltb 1 (suc (length (join b'/' (p ∷ ps)))) (omega arith))
          (slash trailing))
  where
    text : Bytes
    text = b'/' ∷ join b'/' (p ∷ ps)

    slash :
        (t : Bool)
        → ◌≡◌ {A = Result NormalizeError Bytes}
            (ok (if t && true then text ++ (b'/' ∷ []) else text))
            (ok (b'/' ∷ (join b'/' (p ∷ ps) ++ slash_if t)))
    slash true = refl
    slash false = ap (λ (u : Bytes). ok (b'/' ∷ u)) (sym (append-nil (join b'/' (p ∷ ps))))

-- `collapse_dot_segments` leaves a path in normal form alone.
pub collapse_dot_segments_idempotent :
    (path : Bytes) → IsCanonical path → collapse_dot_segments path ≡ ok path
collapse_dot_segments_idempotent path c =
    rw c.reads (collapse_canonical c.trailing c.segments c.bare_root c.safe)
