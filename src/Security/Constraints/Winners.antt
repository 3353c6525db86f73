-- ===== src/Security/Constraints/Winners.antt =====
-- Which constraints decide, said without the loops: those with a pattern that covers the method and
-- whose match length no other such pattern of the registry exceeds.
use mathlib.Core.Path.{fun_ext}
use michael.Prelude.{
  ℕ, Bool, true, false, not, ◌&&◌, ◌||◌, List, [], ◌∷◌, ◌++◌, Option, none, some, ◌≡◌, refl, sym,
  ap, ◌∙◌, arith, if◌then◌else◌, ◌==◌, leb, any, all, retain, map, is_empty, inl, inr, Bool-cases,
  Option-cases,
}
use michael.Prelude.Text.{Bytes, eq_ignore_ascii_case}
use michael.Security.Constraints.{
  WebResourceCollection, SecurityConstraint, Principal, pattern_match_len, covers_method, improve,
  best_over_patterns, best_match_len, best_over_collections, constraint_match_len, Hit, gather_hits,
  max_len, longest_hits, check,
}
use michael.Security.Constraints.Decision.{decision, check-longest_hits}

-- A collection is about the methods that it lists, or, where it lists none, about those that it
-- does not omit.
abbrev pub lists : Bytes → List Bytes → Bool
lists method = any (λ m. eq_ignore_ascii_case m method)

abbrev pub is_about : WebResourceCollection → Bytes → Bool
is_about col method =
    lists method col.http_methods
    || (is_empty col.http_methods && not (lists method col.http_method_omissions))

-- The match lengths of the patterns of a collection, a constraint, and a registry.
unfoldable pub pattern_lens : List Bytes → Bytes → List ℕ
pattern_lens [] path = []
pattern_lens (pat ∷ pats) path =
    let rest = pattern_lens pats path in
    elim (pattern_match_len pat path) [ none ↦ rest | some len ↦ len ∷ rest ]

unfoldable pub collection_lens : List WebResourceCollection → Bytes → Bytes → List ℕ
collection_lens [] path method = []
collection_lens (col ∷ cols) path method =
    (if is_about col method then pattern_lens col.url_patterns path else [])
    ++ collection_lens cols path method

abbrev pub lens : SecurityConstraint → Bytes → Bytes → List ℕ
lens c path method = collection_lens c.web_resource_collections path method

unfoldable pub all_lens : List SecurityConstraint → Bytes → Bytes → List ℕ
all_lens [] path method = []
all_lens (c ∷ cs) path method = lens c path method ++ all_lens cs path method

-- Some pattern of the constraint matches as long as any pattern of the registry.
abbrev pub wins : List SecurityConstraint → Bytes → Bytes → SecurityConstraint → Bool
wins cs path method c = any (λ n. all (λ m. leb m n) (all_lens cs path method)) (lens c path method)

-- The greatest of some numbers, by the step of the loops.
max_of : List ℕ → Option ℕ
max_of [] = none
max_of (n ∷ ns) = improve (some n) (max_of ns)

improve-none : (o : Option ℕ) → improve none o ≡ o
improve-none none = refl
improve-none (some n) = refl

improve_assoc : (a b c : Option ℕ) → improve (improve a b) c ≡ improve a (improve b c)
improve_assoc a b none = refl
improve_assoc a none (some n) = refl
improve_assoc none (some m) (some n) = refl
improve_assoc (some l) (some m) (some n) = ground arith

max_of-append : (xs ys : List ℕ) → max_of (xs ++ ys) ≡ improve (max_of xs) (max_of ys)
unfolding max_of
max_of-append [] ys = sym (improve-none (max_of ys))
max_of-append (x ∷ xs) ys =
    ap (improve (some x)) (max_of-append xs ys)
    ∙ sym (improve_assoc (some x) (max_of xs) (max_of ys))

best_over_patterns-max :
    (best : Option ℕ) (pats : List Bytes) (path : Bytes)
    → best_over_patterns best pats path ≡ improve best (max_of (pattern_lens pats path))
unfolding best_over_patterns pattern_lens max_of
best_over_patterns-max best [] path = refl
best_over_patterns-max best (pat ∷ pats) path = elim (Option-cases (pattern_match_len pat path)) [
  | inl e ↦ rw (e, pattern_lens) (best_over_patterns-max best pats path)
  | inr (n, e) ↦
      let rest = max_of (pattern_lens pats path) in
      best_over_patterns-max (improve best (pattern_match_len pat path)) pats path
      ∙ rw (e, pattern_lens) (improve_assoc best (some n) rest)
]

covers_method-is_about :
    (col : WebResourceCollection) (method : Bytes) → covers_method col method ≡ is_about col method
unfolding covers_method any
covers_method-is_about col method = ground arith

best_over_collections-max :
    (best : Option ℕ) (cols : List WebResourceCollection) (path method : Bytes)
    → best_over_collections best cols path method
      ≡ improve best (max_of (collection_lens cols path method))
unfolding best_over_collections collection_lens best_match_len max_of
best_over_collections-max best [] path method = refl
best_over_collections-max best (col ∷ cols) path method =
    let rest = collection_lens cols path method in
    elim (Bool-cases (is_about col method)) [
      | inl e ↦
          rw (covers_method-is_about col method, e)
            (best_over_collections-max (improve best (best_match_len col path)) cols path method
              ∙ ap (λ o. improve (improve best o) (max_of rest))
                  (best_over_patterns-max none col.url_patterns path
                    ∙ improve-none (max_of (pattern_lens col.url_patterns path)))
              ∙ improve_assoc best (max_of (pattern_lens col.url_patterns path)) (max_of rest)
              ∙ ap (improve best) (sym (max_of-append (pattern_lens col.url_patterns path) rest)))
      | inr e ↦
          rw (covers_method-is_about col method, e)
            (best_over_collections-max best cols path method)
    ]

constraint_match_len-max :
    (c : SecurityConstraint) (path method : Bytes)
    → constraint_match_len c path method ≡ max_of (lens c path method)
unfolding constraint_match_len
constraint_match_len-max c path method =
    best_over_collections-max none c.web_resource_collections path method
    ∙ improve-none (max_of (lens c path method))

-- A number against the greatest.
abbrev reaches : ℕ → Option ℕ → Bool
reaches t none = false
reaches t (some b) = leb t b

abbrev is_within : ℕ → Option ℕ → Bool
is_within n none = true
is_within n (some b) = leb b n

abbrev or_zero : Option ℕ → ℕ
or_zero none = 0
or_zero (some n) = n

any_max : (t : ℕ) (ns : List ℕ) → any (λ n. leb t n) ns ≡ reaches t (max_of ns)
unfolding any max_of
any_max t [] = refl
any_max t (n ∷ ns) = elim (Option-cases (max_of ns)) [
  | inl e ↦ ground (arith, any_max t ns)
  | inr (b, e) ↦ ground (arith, any_max t ns)
]

all_max : (t : ℕ) (ns : List ℕ) → all (λ n. leb n t) ns ≡ is_within t (max_of ns)
unfolding all max_of
all_max t [] = refl
all_max t (n ∷ ns) = elim (Option-cases (max_of ns)) [
  | inl e ↦ ground (arith, all_max t ns)
  | inr (b, e) ↦ ground (arith, all_max t ns)
]

is_within_zero : (n : ℕ) (o : Option ℕ) → is_within n o ≡ leb (or_zero o) n
is_within_zero n none = ground arith
is_within_zero n (some b) = refl

is_within_self : (o : Option ℕ) → is_within (or_zero o) o ≡ true
is_within_self none = refl
is_within_self (some b) = ground arith

is_within-improve :
    (t : ℕ) (a b : Option ℕ)
    → is_within t (improve a b) ≡ true
    → (is_within t a ≡ true) × (is_within t b ≡ true)
is_within-improve t a none h = (h, refl)
is_within-improve t none (some n) h = (refl, h)
is_within-improve t (some m) (some n) h = ground arith

max_len-max :
    (cs : List SecurityConstraint) (path method : Bytes)
    → max_len (gather_hits cs path method) ≡ or_zero (max_of (all_lens cs path method))
unfolding gather_hits max_len all_lens max_of
max_len-max [] path method = refl
max_len-max (c ∷ cs) path method =
    let top = max_of (all_lens cs path method) in
    rw (max_of-append (lens c path method) (all_lens cs path method)) (
      rw (← constraint_match_len-max c path method)
        (elim (Option-cases (constraint_match_len c path method)) [
          | inl e ↦
              rw (e, gather_hits) (max_len-max cs path method ∙ ap or_zero (sym (improve-none top)))
          | inr (b, e) ↦
              rw (e, gather_hits)
                (elim (Option-cases top) [
                  | inl t ↦ ground (arith, max_len-max cs path method)
                  | inr (r, t) ↦ ground (arith, max_len-max cs path method)
                ])
        ]))

-- The hits of the greatest length are those of the constraints that reach it.
retain-reaches :
    (t : ℕ) (cs : List SecurityConstraint) (path method : Bytes)
    → is_within t (max_of (all_lens cs path method)) ≡ true
    → map (λ (h : Hit). h.constraint) (retain (λ h. h.match_len == t) (gather_hits cs path method))
      ≡ retain (λ c. any (λ n. leb t n) (lens c path method)) cs
unfolding gather_hits retain all_lens
retain-reaches t [] path method h = refl
retain-reaches t (c ∷ cs) path method h =
    let (mine, others) =
      is_within-improve t (max_of (lens c path method)) (max_of (all_lens cs path method))
        (rw (max_of-append (lens c path method) (all_lens cs path method)) at h) in
    let best = constraint_match_len-max c path method in
    let rest = retain-reaches t cs path method others in
    elim (Option-cases (constraint_match_len c path method)) [
      | inl e ↦ rw (e, gather_hits) (rw (any_max t (lens c path method), ← best, e) rest)
      | inr (b, e) ↦
          let small = rw (← best, e) at mine in
          rw (e, gather_hits)
            (rw (any_max t (lens c path method), ← best, e)
              (elim (Bool-cases (leb t b)) [
                | inl reached ↦ ground arith
                | inr short ↦ ground arith
              ]))
    ]

-- `check` decides by its longest hits, taken together, as `decision` says: it allows a request
-- where there is none. These hits are of the constraints that win, in their order: those that have
-- a pattern in a collection about the method whose match length no pattern of the registry, in a
-- collection about the method, exceeds. The match length is that of `pattern_match_len`.
pub check-decision :
    (constraints : List SecurityConstraint) (path method : Bytes) (principal : Option Principal)
    (secure : Bool)
    → (check constraints path method principal secure
        ≡ decision (longest_hits (gather_hits constraints path method)) principal secure)
      × (map (λ (h : Hit). h.constraint) (longest_hits (gather_hits constraints path method))
          ≡ retain (wins constraints path method) constraints)
unfolding longest_hits
check-decision constraints path method principal secure =
    let all_of = all_lens constraints path method in
    let top = max_of all_of in
    let tests : (λ (n : ℕ). leb (or_zero top) n) ≡ (λ n. all (λ m. leb m n) all_of) =
      fun_ext (λ n. sym (all_max n all_of ∙ is_within_zero n top)) in
    (
      check-longest_hits constraints path method principal secure,
      rw (max_len-max constraints path method) (
          retain-reaches (or_zero top) constraints path method (is_within_self top)
          ∙ ap (λ (test : ℕ → Bool). retain (λ c. any test (lens c path method)) constraints)
              tests),
    )
