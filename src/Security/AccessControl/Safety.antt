-- ===== src/Security/AccessControl/Safety.antt =====
-- What the second normalizer guarantees, and that it collapses segments as the first one does.
use michael.Prelude.{
  Bool, true, false, not, ◌&&◌, ◌||◌, List, [], ◌∷◌, ◌++◌, Option, none, some, ok, err, Result, ◌≡◌,
  inl, inr, refl, sym, ◌∙◌, arith, reverse, All, All-reverse, Bool-cases, Option-cases,
  Result-cases, ltb, length, append-nil, ok_or, bind-eq-ok, ok-injective, guard-eq-ok, ok_or-eq-ok,
}
use mathlib.Core.Option.{some-injective}
use michael.Prelude.Text.{
  Bytes, codes, contains, split_on, join, ends_with, from_utf8, starts_with, to_ascii_lowercase,
}
use michael.Prelude.Text.Laws.{from_utf8-eq_some}
use michael.Coyote.Normalize as Coyote
use michael.Coyote.Normalize.{
  NormalizeError, path_traversal, is_skip, is_up, collapse_step, render_path,
}
use michael.Coyote.Normalize.Segments.{collapse_loop-IsName}
use michael.Coyote.Normalize.Safety.{IsSafeSegment, HoldsNone, slash_if, split-HoldsNone}
use michael.Security.AccessControl.{
  collapse_loop, collapse_dot_segments, is_protected_path, is_path_traversal, validate_decoded,
  normalize_and_validate_uri, not_utf8, escapes_root, nul_byte, backslash, not_absolute,
  traversal_left, protected_directory, encoded_separator, encoded_nul, before_query, contains_str,
  percent_decode,
}

-- The loop of the first normalizer, with its only error forgotten.
abbrev as_option : Result NormalizeError (List Bytes) → Option (List Bytes)
as_option (ok stack) = some stack
as_option (err e) = none

collapse_loops_agree :
    (stack segs : List Bytes)
    → collapse_loop stack segs ≡ as_option (Coyote.collapse_loop stack segs)
unfolding collapse_loop Coyote.collapse_loop collapse_step
collapse_loops_agree stack [] = refl
collapse_loops_agree [] (seg ∷ segs) = elim (Bool-cases (is_skip seg)) [
  | inl skip ↦ rw skip (collapse_loops_agree [] segs)
  | inr name ↦ elim (Bool-cases (is_up seg)) [
    | inl up ↦ rw (name, up) refl
    | inr push ↦ rw (name, push) (collapse_loops_agree (seg ∷ []) segs)
  ]
]
collapse_loops_agree (top ∷ stack) (seg ∷ segs) = elim (Bool-cases (is_skip seg)) [
  | inl skip ↦ rw skip (collapse_loops_agree (top ∷ stack) segs)
  | inr name ↦ elim (Bool-cases (is_up seg)) [
    | inl up ↦ rw (name, up) (collapse_loops_agree stack segs)
    | inr push ↦ rw (name, push) (collapse_loops_agree (seg ∷ top ∷ stack) segs)
  ]
]

-- The answers of the two normalizers: the same refusals, and the same path but for a slash at the
-- end, which the first one keeps.
abbrev pub SameCollapse : Result NormalizeError Bytes → Option Bytes → Type 0
SameCollapse (ok first) none = ⊥
SameCollapse (ok first) (some second) = (trailing : Bool) × (first ≡ second ++ slash_if trailing)
SameCollapse (err e) none = Unit {0}
SameCollapse (err e) (some second) = ⊥

render_slash :
    (trailing : Bool) (stack : List Bytes)
    → (b : Bool) × (render_path trailing stack ≡ (b'/' ∷ join b'/' (reverse stack)) ++ slash_if b)
unfolding render_path
render_slash trailing stack =
    elim (Bool-cases (trailing && ltb 1 (length (b'/' ∷ join b'/' (reverse stack))))) [
      | inl e ↦ (true, rw e refl)
      | inr e ↦ (false, rw e (sym (append-nil (b'/' ∷ join b'/' (reverse stack)))))
    ]

-- On every path the two functions called `collapse_dot_segments` refuse alike, and where they
-- answer, the answers are equal but for a slash at the end.
pub collapse_dot_segments_agree :
    (path : Bytes) → SameCollapse (Coyote.collapse_dot_segments path) (collapse_dot_segments path)
unfolding Coyote.collapse_dot_segments collapse_dot_segments
collapse_dot_segments_agree path =
    elim (Result-cases (Coyote.collapse_loop [] (split_on b'/' path))) [
      | inl (stack, e) ↦
          rw
            (
              Coyote.collapse_dot_segments,
              collapse_dot_segments,
              collapse_loops_agree [] (split_on b'/' path),
              e,
            )
            (render_slash (ltb 1 (length path) && ends_with path b'/') stack)
      | inr (r, e) ↦
          rw
            (
              Coyote.collapse_dot_segments,
              collapse_dot_segments,
              collapse_loops_agree [] (split_on b'/' path),
              e,
            )
            tt
    ]

-- A path that may be served: `/` and safe segments with single slashes between them, and not below
-- a protected directory.
pub record IsServable (path : Bytes) : Type 0 where
  pub segments : List Bytes
  pub reads : path ≡ b'/' ∷ join b'/' segments
  pub safe : All IsSafeSegment segments
  pub unprotected : is_protected_path path ≡ false

as_option-eq_some :
    (r : Result NormalizeError (List Bytes)) (stack : List Bytes)
    → as_option r ≡ some stack
    → r ≡ ok stack
as_option-eq_some (ok s) stack h = cc
as_option-eq_some (err e) stack h = cc

not-true : (b : Bool) → not b ≡ true → b ≡ false
not-true b h = ground arith

collapsed_safe :
    (path out : Bytes)
    → contains path b'\\' ≡ false
    → contains path 0 ≡ false
    → collapse_dot_segments path ≡ some out
    → (segments : List Bytes) × (out ≡ b'/' ∷ join b'/' segments) × All IsSafeSegment segments
unfolding collapse_dot_segments
collapsed_safe path out nb nz h = elim (Option-cases (collapse_loop [] (split_on b'/' path))) [
  | inl n ↦ cc (rw (collapse_dot_segments, n) at h)
  | inr (stack, e) ↦
      let loop =
        as_option-eq_some (Coyote.collapse_loop [] (split_on b'/' path)) stack
          (sym (collapse_loops_agree [] (split_on b'/' path)) ∙ e) in
      let kept =
        collapse_loop-IsName HoldsNone (split_on b'/' path) [] (split-HoldsNone path nb nz) tt
          loop in
      (
        reverse stack,
        sym (some-injective _ _ (rw (collapse_dot_segments, e) at h)),
        All-reverse IsSafeSegment stack kept,
      )
]

validate_decoded-IsServable :
    (decoded out : Bytes) → validate_decoded decoded ≡ ok out → IsServable out
unfolding validate_decoded
validate_decoded-IsServable decoded out h =
    let (no_nul, h1) = guard-eq-ok (not (contains decoded 0)) nul_byte _ h in
    let (no_back, h2) = guard-eq-ok (not (contains decoded b'\\')) backslash _ h1 in
    let (text, utf8, h3) = bind-eq-ok (ok_or (from_utf8 decoded) not_utf8) _ h2 in
    let (rooted, h4) = guard-eq-ok (starts_with text (codes "/")) not_absolute _ h3 in
    let (path, collapsed, h5) = bind-eq-ok (ok_or (collapse_dot_segments text) escapes_root) _ h4 in
    let (no_climb, h6) = guard-eq-ok (not (is_path_traversal path)) traversal_left _ h5 in
    let (not_protected, h7) =
      guard-eq-ok (not (is_protected_path path)) protected_directory (ok path) h6 in
    let same : text ≡ decoded = from_utf8-eq_some decoded text (ok_or-eq-ok _ _ utf8) in
    let is_out : path ≡ out = ok-injective path out h7 in
    let (segs, reads, safe) =
      collapsed_safe text path (rw same (not-true _ no_back)) (rw same (not-true _ no_nul))
        (ok_or-eq-ok _ _ collapsed) in
    record {
      segments = segs;
      reads = sym is_out ∙ reads;
      safe = safe;
      unprotected = rw is_out at (not-true _ not_protected);
    }

-- Whatever the URI, a path that is let through is `/` and segments with single slashes between
-- them, none of which is empty, `.` or `..`, or holds a separator, a backslash or a NUL byte, and
-- it neither is nor lies below `/WEB-INF` or `/META-INF`, in any case.
pub normalize_and_validate_uri-IsServable :
    (uri out : Bytes) → normalize_and_validate_uri uri ≡ ok out → IsServable out
unfolding normalize_and_validate_uri
normalize_and_validate_uri-IsServable uri out h =
    let lower_raw = to_ascii_lowercase (before_query uri) in
    let separators =
      not (contains_str lower_raw (codes "%2f") || contains_str lower_raw (codes "%5c")) in
    let (_, h1) = guard-eq-ok separators encoded_separator _ h in
    let (_, h2) = guard-eq-ok (not (contains_str lower_raw (codes "%00"))) encoded_nul _ h1 in
    validate_decoded-IsServable (percent_decode (before_query uri)) out h2
