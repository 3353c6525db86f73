-- ===== src/Catalina/Mapper/Best.antt =====
-- The two loops of the mapper keep the best candidate: the highest score, the longest context.
use mathlib.Core.Path.{subst}
use mathlib.Core.Option.{some-injective}
use mathlib.Core.List.{Memᴰ}
use mathlib.Core.List.Memᴰ
use michael.Prelude.{
  true, false, List, [], ◌∷◌, Option, none, some, ◌≡◌, ◌≢◌, ◌⊎◌, inl, inr, refl, sym, ap, ◌∙◌,
  arith, Bool-cases, Option-cases,
}
use michael.Prelude.Text.{Bytes}
use michael.Catalina.Mapper.{
  UrlPattern, matches, match_score, specificity, pattern_len, Score, score_gt, Pick, consider,
  Wrapper, Context, best_mapping, best_wrapper, resolve_wrapper,
}

-- The pick is at least as good as the score.
abbrev AtLeast : Pick → Score → Type 0
AtLeast none s = ⊥
AtLeast (some (w, p, best)) s = score_gt s best ≡ false

score_gt_trans : (a b c : Score) → score_gt a b ≡ true → score_gt c b ≡ false → score_gt c a ≡ false
score_gt_trans (a, a') (b, b') (c, c') h k = ground arith

score_gt_irrefl : (a : Score) → score_gt a a ≡ false
score_gt_irrefl (a, a') = ground arith

module _ (w : Wrapper) (p : UrlPattern) where
  consider_keeps :
      (o : Option Score) (best : Pick) (s : Score)
      → AtLeast best s
      → AtLeast (consider w p o best) s
  consider_keeps none best s h = h
  consider_keeps (some t) none s h = absurd h
  consider_keeps (some t) (some (w', p', b)) s h = elim (Bool-cases (score_gt t b)) [
    | inl e ↦ rw e (score_gt_trans t b s e h)
    | inr e ↦ rw e h
  ]

  consider_covers : (best : Pick) (s : Score) → AtLeast (consider w p (some s) best) s
  consider_covers none s = score_gt_irrefl s
  consider_covers (some (w', p', b)) s = elim (Bool-cases (score_gt s b)) [
    | inl e ↦ rw e (score_gt_irrefl s)
    | inr e ↦ rw e e
  ]

  consider_origin :
      (o : Option Score) (best : Pick)
      → (consider w p o best ≡ best)
        ⊎ ((s : Score) × (o ≡ some s) × (consider w p o best ≡ some (w, p, s)))
  consider_origin none best = inl refl
  consider_origin (some t) none = inr (t, refl, refl)
  consider_origin (some t) (some (w', p', b)) = elim (Bool-cases (score_gt t b)) [
    | inl e ↦ inr (t, refl, rw e refl)
    | inr e ↦ inl (rw e refl)
  ]

module _ (path : Bytes) (w : Wrapper) where
  mapping_keeps :
      (best : Pick) (ps : List UrlPattern) (s : Score)
      → AtLeast best s
      → AtLeast (best_mapping path w best ps) s
  unfolding best_mapping
  mapping_keeps best [] s h = h
  mapping_keeps best (p ∷ ps) s h =
      mapping_keeps (consider w p (match_score p path) best) ps s
        (consider_keeps w p (match_score p path) best s h)

  mapping_covers :
      (best : Pick) (ps : List UrlPattern) (p : UrlPattern) (s : Score)
      → Memᴰ p ps
      → match_score p path ≡ some s
      → AtLeast (best_mapping path w best ps) s
  unfolding best_mapping
  mapping_covers best [] p s m e = absurd (Memᴰ.not-nil m)
  mapping_covers best (q ∷ ps) p s m e = elim (Memᴰ.cases_cons m) [
    | inl h ↦
        mapping_keeps (consider w q (match_score q path) best) ps s
          (rw (sym h, e) (consider_covers w p best s))
    | inr h ↦ mapping_covers (consider w q (match_score q path) best) ps p s h e
  ]

  mapping_origin :
      (best : Pick) (ps : List UrlPattern)
      → (best_mapping path w best ps ≡ best)
        ⊎ ((p : UrlPattern) × (s : Score) × Memᴰ p ps
            × (match_score p path ≡ some s)
            × (best_mapping path w best ps ≡ some (w, p, s)))
  unfolding best_mapping
  mapping_origin best [] = inl refl
  mapping_origin best (p ∷ ps) = elim (mapping_origin (consider w p (match_score p path) best) ps) [
    | inr (q, s, m, e, r) ↦ inr (q, s, Memᴰ.tail m, e, r)
    | inl r ↦ elim (consider_origin w p (match_score p path) best) [
      | inl k ↦ inl (r ∙ k)
      | inr (s, e, k) ↦ inr (p, s, Memᴰ.head refl, e, r ∙ k)
    ]
  ]

module _ (path : Bytes) where
  wrapper_keeps :
      (best : Pick) (ws : List Wrapper) (s : Score)
      → AtLeast best s
      → AtLeast (best_wrapper path best ws) s
  unfolding best_wrapper
  wrapper_keeps best [] s h = h
  wrapper_keeps best (w ∷ ws) s h =
      wrapper_keeps (best_mapping path w best w.mappings) ws s
        (mapping_keeps path w best w.mappings s h)

  wrapper_covers :
      (best : Pick) (ws : List Wrapper) (w : Wrapper) (p : UrlPattern) (s : Score)
      → Memᴰ w ws
      → Memᴰ p w.mappings
      → match_score p path ≡ some s
      → AtLeast (best_wrapper path best ws) s
  unfolding best_wrapper
  wrapper_covers best [] w p s m n e = absurd (Memᴰ.not-nil m)
  wrapper_covers best (v ∷ ws) w p s m n e = elim (Memᴰ.cases_cons m) [
    | inl h ↦
        wrapper_keeps (best_mapping path v best v.mappings) ws s
          (rw (sym h) (mapping_covers path w best w.mappings p s n e))
    | inr h ↦ wrapper_covers (best_mapping path v best v.mappings) ws w p s h n e
  ]

  -- What the pick holds was offered.
  abbrev Offered : List Wrapper → Wrapper → UrlPattern → Score → Type 0
  Offered ws w p s = Memᴰ w ws × Memᴰ p w.mappings × (match_score p path ≡ some s)

  wrapper_origin :
      (best : Pick) (ws : List Wrapper)
      → (best_wrapper path best ws ≡ best)
        ⊎ ((w : Wrapper) × (p : UrlPattern) × (s : Score) × Offered ws w p s
            × (best_wrapper path best ws ≡ some (w, p, s)))
  unfolding best_wrapper
  wrapper_origin best [] = inl refl
  wrapper_origin best (w ∷ ws) = elim (wrapper_origin (best_mapping path w best w.mappings) ws) [
    | inr (v, p, s, (m, n, e), r) ↦ inr (v, p, s, (Memᴰ.tail m, n, e), r)
    | inl r ↦ elim (mapping_origin path w best w.mappings) [
      | inl k ↦ inl (r ∙ k)
      | inr (p, s, n, e, k) ↦ inr (w, p, s, (Memᴰ.head refl, n, e), r ∙ k)
    ]
  ]

-- The score of a pattern, whatever the path.
abbrev pub score : UrlPattern → Score
score p = (specificity p, pattern_len p)

match_score-eq_some :
    (p : UrlPattern) (path : Bytes) (s : Score)
    → match_score p path ≡ some s
    → (matches p path ≡ true) × (s ≡ score p)
unfolding match_score
match_score-eq_some p path s h = ground arith

match_score-matches :
    (p : UrlPattern) (path : Bytes) → matches p path ≡ true → match_score p path ≡ some (score p)
unfolding match_score
match_score-matches p path h = rw h refl

-- A mapping of the context that matches the path.
abbrev pub Applies : Context → Bytes → Wrapper → UrlPattern → Type 0
Applies context path w p = Memᴰ w context.wrappers × Memᴰ p w.mappings × (matches p path ≡ true)

resolve_wrapper-eq_some :
    (context : Context) (path : Bytes) (w : Wrapper) (p : UrlPattern)
    → resolve_wrapper context path ≡ some (w, p)
    → (s : Score) × (best_wrapper path none context.wrappers ≡ some (w, p, s))
unfolding resolve_wrapper
resolve_wrapper-eq_some context path w p h =
    elim (Option-cases (best_wrapper path none context.wrappers)) [
      | inl n ↦ cc (rw (resolve_wrapper, n) at h)
      | inr ((v, q, s), e) ↦ (
        s,
        e
            ∙ ap (λ (x : Wrapper × UrlPattern). some (x.0, x.1, s))
                (some-injective (v, q) (w, p) (rw (resolve_wrapper, e) at h)),
      )
    ]

resolve_wrapper-eq_none :
    (context : Context) (path : Bytes)
    → resolve_wrapper context path ≡ none
    → best_wrapper path none context.wrappers ≡ none
unfolding resolve_wrapper
resolve_wrapper-eq_none context path h =
    elim (Option-cases (best_wrapper path none context.wrappers)) [
      | inl n ↦ n
      | inr ((v, q, s), e) ↦ cc (rw (resolve_wrapper, e) at h)
    ]

best_is :
    (context : Context) (path : Bytes) (w : Wrapper) (p : UrlPattern) (s : Score)
    → best_wrapper path none context.wrappers ≡ some (w, p, s)
    → Applies context path w p × (s ≡ score p)
best_is context path w p s e = elim (wrapper_origin path none context.wrappers) [
  | inl k ↦ cc (e, k)
  | inr (v, q, t, (m, n, f), k) ↦
      let same : (v, q, t) ≡ (w, p, s) = some-injective (v, q, t) (w, p, s) (sym k ∙ e) in
      let (ok_match, is_score) = match_score-eq_some q path t f in
      subst (λ (x : Wrapper × UrlPattern × Score). Applies context path x.0 x.1 × (x.2 ≡ score x.1))
        same ((m, n, ok_match), is_score)
]

pub resolve_wrapper-best :
    (context : Context) (path : Bytes) (w : Wrapper) (p : UrlPattern)
    → resolve_wrapper context path ≡ some (w, p)
    → Applies context path w p
      × ((w' : Wrapper) (p' : UrlPattern)
          → Applies context path w' p'
          → score_gt (score p') (score p) ≡ false)
resolve_wrapper-best context path w p h =
    let (s, e) = resolve_wrapper-eq_some context path w p h in
    let (applies, is_score) = best_is context path w p s e in
    (
      applies,
      λ w' p' a.
          let covered =
            wrapper_covers path none context.wrappers w' p' (score p') a.0 a.1
              (match_score-matches p' path a.2) in
          subst (λ t. score_gt (score p') t ≡ false) is_score (rw e at covered),
    )

-- It answers wherever some mapping of the context matches.
pub resolve_wrapper-answers :
    (context : Context) (path : Bytes) (w : Wrapper) (p : UrlPattern)
    → Applies context path w p
    → resolve_wrapper context path ≢ none
resolve_wrapper-answers context path w p (m, n, f) h =
    rw (resolve_wrapper-eq_none context path h) at
      (wrapper_covers path none context.wrappers w p (score p) m n (match_score-matches p path f))
