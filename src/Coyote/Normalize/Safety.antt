-- ===== src/Coyote/Normalize/Safety.antt =====
-- What `normalize_target` guarantees of every path that it lets through.
use michael.Prelude.{
  ℕ, ◌<◌, Bool, true, false, List, [], ◌∷◌, ◌++◌, ◌≡◌, ◌⊎◌, ◌↔◌, Result, inl, inr, refl, sym, ap,
  arith, if◌then◌else◌, ltb, length, reverse, All, All-reverse, Bool-cases, append-nil, lt→ltb, suc,
  ok, err, bind-eq-ok, ok-injective, ok_or, ◌>>=◌, Option-cases, ◌&&◌,
}
use michael.Prelude.Text.{
  Bytes, codes, contains, split_on, join, ends_with, from_utf8, str_eq, starts_with,
}
use michael.Prelude.Text.Laws.{contains-split_on, from_utf8-eq_some}
use michael.Coyote.Normalize.{
  NormalizedUri, NormalizeError, path_traversal, backslash, invalid_utf8, percent_decode,
  collapse_loop, render_path, collapse_dot_segments, split_query, normalize_path, normalize_target,
}
use michael.Coyote.Normalize.Segments.{IsName, Climbs, collapse_loop_refuses, collapse_loop-IsName}
use michael.Coyote.Normalize.Decode.{percent_decode-nul}

-- The byte conditions on a segment of a safe path: no separator, no backslash, no NUL.
abbrev pub HoldsNone : Bytes → Type 0
HoldsNone s = (contains s b'/' ≡ false) × (contains s b'\\' ≡ false) × (contains s 0 ≡ false)

abbrev pub IsSafeSegment : Bytes → Type 0
IsSafeSegment s = IsName s × HoldsNone s

abbrev pub slash_if : Bool → Bytes
slash_if true = b'/' ∷ []
slash_if false = []

-- A path in normal form: `/`, safe segments with single slashes between them, and one more slash
-- at the end at most, and only behind a segment.
pub record IsCanonical (path : Bytes) : Type 0 where
  pub segments : List Bytes
  pub trailing : Bool
  pub reads : path ≡ b'/' ∷ (join b'/' segments ++ slash_if trailing)
  pub bare_root : segments ≡ [] → trailing ≡ false
  pub safe : All IsSafeSegment segments

-- The names of a stack, joined, are not empty.
pub join_name_pos :
    (p : Bytes) (ps : List Bytes) → IsSafeSegment p → 0 < length (join b'/' (p ∷ ps))
join_name_pos [] ps h = unfold str_eq in cc (h.0.0)
join_name_pos (x ∷ p) [] h = unfold join in omega arith
join_name_pos (x ∷ p) (q ∷ ps) h = unfold join in omega arith

render_segments :
    (trailing : Bool) (segs : List Bytes)
    → All IsSafeSegment segs
    → IsCanonical (
        let result = b'/' ∷ join b'/' segs in
        if trailing && ltb 1 (length result) then result ++ (b'/' ∷ []) else result)
render_segments trailing [] h = record {
  segments = [];
  trailing = false;
  reads = unfold join in ground arith;
  bare_root = λ _. refl;
  safe = tt;
}
render_segments false (p ∷ ps) h = record {
  segments = p ∷ ps;
  trailing = false;
  reads = sym (ap (◌∷◌ b'/') (append-nil _));
  bare_root = λ _. refl;
  safe = h;
}
render_segments true (p ∷ ps) h = record {
  segments = p ∷ ps;
  trailing = true;
  reads =
      rw (lt→ltb 1 (suc (length (join b'/' (p ∷ ps)))) (omega (arith, join_name_pos p ps h.0)))
        refl;
  bare_root = λ e. cc;
  safe = h;
}

render_path-IsCanonical :
    (trailing : Bool) (stack : List Bytes)
    → All IsSafeSegment stack
    → IsCanonical (render_path trailing stack)
unfolding render_path
render_path-IsCanonical trailing stack h =
    render_segments trailing (reverse stack) (All-reverse IsSafeSegment stack h)

All-and₃ :
    (b c d : ℕ) (segs : List Bytes)
    → All (λ s. contains s b ≡ false) segs
    → All (λ s. contains s c ≡ false) segs
    → All (λ s. contains s d ≡ false) segs
    → All (λ s. (contains s b ≡ false) × (contains s c ≡ false) × (contains s d ≡ false)) segs
All-and₃ b c d [] p q r = tt
All-and₃ b c d (s ∷ segs) p q r = ((p.0, q.0, r.0), All-and₃ b c d segs p.1 q.1 r.1)

-- The segments of a path with no backslash and no NUL.
pub split-HoldsNone :
    (path : Bytes)
    → contains path b'\\' ≡ false
    → contains path 0 ≡ false
    → All HoldsNone (split_on b'/' path)
split-HoldsNone path nb nz =
    All-and₃ b'/' b'\\' 0 (split_on b'/' path) (contains-split_on b'/' b'/' path (inl refl))
      (contains-split_on b'/' b'\\' path (inr nb)) (contains-split_on b'/' 0 path (inr nz))

-- A path with no backslash and no NUL collapses, if it is not refused, to a normal form.
pub collapse_dot_segments-IsCanonical :
    (path out : Bytes)
    → contains path b'\\' ≡ false
    → contains path 0 ≡ false
    → collapse_dot_segments path ≡ ok out
    → IsCanonical out
unfolding collapse_dot_segments
collapse_dot_segments-IsCanonical path out nb nz h =
    let (stack, loop, e) = bind-eq-ok (collapse_loop [] (split_on b'/' path)) _ h in
    let kept =
      collapse_loop-IsName HoldsNone (split_on b'/' path) [] (split-HoldsNone path nb nz) tt loop in
    let p : render_path (ltb 1 (length path) && ends_with path b'/') stack ≡ out = cc e in
    rw (← p) (render_path-IsCanonical _ stack kept)

normalize_path-IsCanonical : (raw out : Bytes) → normalize_path raw ≡ ok out → IsCanonical out
unfolding normalize_path
normalize_path-IsCanonical raw out h = elim (Bool-cases (starts_with raw (codes "/"))) [
  | inr no_slash ↦ cc (rw no_slash at h)
  | inl slash ↦ elim (Bool-cases (contains raw b'\\')) [
    | inl bad ↦ cc (rw (slash, bad) at h)
    | inr good ↦
        let (decoded, d, h') = bind-eq-ok (percent_decode raw) _ (rw (slash, good) at h) in
        checked decoded d h'
  ]
]
  where
    checked :
        (decoded : Bytes)
        → percent_decode raw ≡ ok decoded
        → (if contains decoded b'\\'
            then err backslash
            else (ok_or (from_utf8 decoded) invalid_utf8 >>= collapse_dot_segments))
          ≡ ok out
        → IsCanonical out
    checked decoded d q = elim (Bool-cases (contains decoded b'\\')) [
      | inl bad ↦ cc (rw bad at q)
      | inr good ↦ elim (Option-cases (from_utf8 decoded)) [
        | inl n ↦ cc (rw (good, n) at q)
        | inr (text, u) ↦
            let same = from_utf8-eq_some decoded text u in
            collapse_dot_segments-IsCanonical text out (rw same good)
              (rw same (percent_decode-nul raw decoded d)) (rw (good, u) at q)
      ]
    ]

-- Whatever the target, an accepted path is `*` or in normal form: it starts with `/`, and none of
-- its segments is empty, `.` or `..`, or holds a separator, a backslash or a NUL byte.
pub normalize_target-IsCanonical :
    (target : Bytes) (uri : NormalizedUri)
    → normalize_target target ≡ ok uri
    → (uri.path ≡ codes "*") ⊎ IsCanonical uri.path
unfolding normalize_target
normalize_target-IsCanonical target uri h =
    elim (Bool-cases (str_eq (split_query target).0 (codes "*"))) [
      | inl star ↦
          inl
            (let e = rw star at h in sym (ap (λ (u : NormalizedUri). u.path) (ok-injective _ _ e)))
      | inr path ↦
          let (out, p, e) = bind-eq-ok (normalize_path (split_query target).0) _ (rw path at h) in
          inr (
            rw (← ap (λ (u : NormalizedUri). u.path) (ok-injective _ _ e))
              (normalize_path-IsCanonical _ out p))
    ]

-- A path is refused exactly when some front of its segments holds more `..` than names: that is
-- when the climb would leave the root, wherever in the path it happens.
pub collapse_dot_segments_refuses :
    (path : Bytes)
    → (collapse_dot_segments path ≡ err path_traversal) ↔ Climbs 0 (split_on b'/' path)
unfolding collapse_dot_segments
collapse_dot_segments_refuses path = (
  λ h.
      (collapse_loop_refuses [] (split_on b'/' path)).0
        (refused (collapse_loop [] (split_on b'/' path)) h),
  λ c. rw ((collapse_loop_refuses [] (split_on b'/' path)).1 c) refl,
)
  where
    refused :
        (r : Result NormalizeError (List Bytes))
        → (r >>= λ stack. ok (render_path (ltb 1 (length path) && ends_with path b'/') stack))
          ≡ err path_traversal
        → r ≡ err path_traversal
    refused (ok stack) h = cc
    refused (err e) h = cc
