-- ===== src/Catalina/Mapper/Patterns.antt =====
-- What the URL patterns match, described without the tests of the code, and their text form.
use michael.Prelude.{
  ℕ, Bool, true, false, ◌||◌, [], ◌∷◌, ◌++◌, ◌≡◌, ◌≢◌, ◌⊎◌, inl, inr, refl, sym, ap, ◌∙◌, arith,
  length, is_empty, Bool-cases, Option-cases, ==_iff,
}
use michael.Prelude.Text.{Bytes, codes, str_eq, strip_prefix, strip_suffix, starts_with}
use michael.Prelude.Text.Laws.{
  str_eq_iff, str_eq_refl, strip_prefix-eq_some, strip_prefix-append, strip_suffix-eq_some,
}
use michael.Catalina.Mapper.{parse, as_pattern_string, is_under, slash_at}

-- The path is the base, or goes on behind it with a `/`.
abbrev pub Under : Bytes → Bytes → Type 0
Under base path = (path ≡ base) ⊎ ((rest : Bytes) × (path ≡ base ++ (b'/' ∷ rest)))

slash_at-append : (base rest : Bytes) → slash_at (base ++ rest) (length base) ≡ slash_at rest 0
slash_at-append [] rest = refl
slash_at-append (x ∷ base) rest = slash_at-append base rest

slash_first : (rest : Bytes) → slash_at rest 0 ≡ true → (r : Bytes) × (rest ≡ b'/' ∷ r)
slash_first [] h = cc
slash_first (b ∷ rest) h = (rest, ap (λ (y : ℕ). y ∷ rest) ((==_iff b b'/').0 h))

starts_with-Under :
    (base path : Bytes)
    → starts_with path base ≡ true
    → slash_at path (length base) ≡ true
    → Under base path
starts_with-Under base path s h = elim (Option-cases (strip_prefix path base)) [
  | inl n ↦ cc (rw n at s)
  | inr (r, q) ↦
      let e : path ≡ base ++ r = strip_prefix-eq_some path base r q in
      let (t, k) = slash_first r (sym (slash_at-append base r) ∙ rw (sym e) h) in
      inr (t, e ∙ ap (◌++◌ base) k)
]

or-true : (b : Bool) → (b || true) ≡ true
or-true b = ground arith

pub is_under_sound : (base path : Bytes) → is_under base path ≡ true → Under base path
unfolding is_under
is_under_sound base path h = elim (Bool-cases (str_eq path base)) [
  | inl e ↦ inl ((str_eq_iff path base).0 e)
  | inr e ↦ ground (arith, starts_with-Under base path)
]

pub is_under_complete : (base path : Bytes) → Under base path → is_under base path ≡ true
unfolding is_under
is_under_complete base path (inl e) = rw (e, str_eq_refl base) refl
is_under_complete base path (inr (rest, e)) =
    rw (e, strip_prefix-append base (b'/' ∷ rest), slash_at-append base (b'/' ∷ rest))
      (or-true (str_eq (base ++ (b'/' ∷ rest)) base))

not_empty : (raw : Bytes) → raw ≢ [] → is_empty raw ≡ false
not_empty [] h = absurd (h refl)
not_empty (x ∷ raw) h = refl

-- A prefix pattern that is not `/*` has a prefix.
prefix_not_empty :
    (raw p : Bytes) → str_eq raw (codes "/*") ≡ false → raw ≡ p ++ codes "/*" → is_empty p ≡ false
unfolding str_eq
prefix_not_empty raw [] n e = cc (rw e at n)
prefix_not_empty raw (x ∷ p) n e = refl

-- Rendering what was parsed gives the text back, for every pattern text but the empty one (which
-- is parsed as the default pattern `/`).
pub as_pattern_string-parse : (raw : Bytes) → raw ≢ [] → as_pattern_string (parse raw) ≡ raw
unfolding parse as_pattern_string
as_pattern_string-parse raw h = elim (Bool-cases (str_eq raw (codes "/"))) [
  | inl root ↦ rw root (sym ((str_eq_iff raw (codes "/")).0 root))
  | inr a ↦ elim (Bool-cases (str_eq raw (codes "/*"))) [
    | inl all ↦ rw (a, not_empty raw h, all) (sym ((str_eq_iff raw (codes "/*")).0 all))
    | inr b ↦ elim (Option-cases (strip_suffix raw (codes "/*"))) [
      | inr (p, q) ↦
          let e : raw ≡ p ++ codes "/*" = strip_suffix-eq_some raw (codes "/*") p q in
          rw (a, not_empty raw h, b, q, prefix_not_empty raw p b e) (sym e)
      | inl c ↦ elim (Option-cases (strip_prefix raw (codes "*."))) [
        | inr (ext, q) ↦
            rw (a, not_empty raw h, b, c, q) (sym (strip_prefix-eq_some raw (codes "*.") ext q))
        | inl d ↦ rw (a, not_empty raw h, b, c, d) refl
      ]
    ]
  ]
]
