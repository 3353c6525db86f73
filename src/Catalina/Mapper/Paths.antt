-- ===== src/Catalina/Mapper/Paths.antt =====
-- The split of a URI into context path, servlet path and path info loses and invents nothing, and
-- the slice in it stays within the text.
use mathlib.Core.Path.{subst}
use mathlib.Core.Option.{some-injective}
use michael.Prelude.{
  ◌+◌, true, false, [], ◌∷◌, ◌++◌, Option, none, some, ◌≡◌, ◌⊎◌, inl, inr, refl, sym, ap, ◌∙◌,
  arith, length, is_empty, append-nil, Bool-cases, Option-cases, length-append, if◌then◌else◌,
  Result, ok, drop-append_self, le→ltb,
}
use michael.Prelude.Text.{Bytes, codes}
use michael.Prelude.Text.Laws.{strip_prefix-append}
use michael.Catalina.Mapper.{
  UrlPattern, exact, prefix, extension, default, matches, Panic, slice_from, non_empty,
  is_char_start, split_servlet_path, strip_context_path, uri_under_context, is_root, Engine, Host,
  Context, Wrapper, MappingResult, resolve_host, resolve_context, resolve_wrapper, route,
}
use michael.Catalina.Mapper.Patterns.{Under, is_under_sound}
use michael.Catalina.Mapper.Best.{resolve_wrapper-best}
use michael.Catalina.Mapper.Longest.{resolve_context-longest}

-- The path info as a text, empty where there is none.
abbrev pub info_text : Option Bytes → Bytes
info_text none = []
info_text (some s) = s

info_text-non_empty : (s : Bytes) → info_text (non_empty s) ≡ s
info_text-non_empty [] = refl
info_text-non_empty (b ∷ s) = refl

slice_behind :
    (p rest : Bytes) → is_char_start rest ≡ true → slice_from (length p) (p ++ rest) ≡ ok rest
unfolding slice_from
slice_behind p rest h =
    rw
      (
        drop-append_self (length p) p rest refl,
        h,
        length-append p rest,
        le→ltb (length p + length rest) (length p) (omega arith),
      )
      refl

-- What a base and a path under it have between them.
Under-rest :
    (p path : Bytes)
    → Under p path
    → (rest : Bytes) × (path ≡ p ++ rest) × (is_char_start rest ≡ true)
Under-rest p path (inl e) = ([], e ∙ sym (append-nil p), refl)
Under-rest p path (inr (r, e)) = (b'/' ∷ r, e, refl)

-- A split that is no panic and whose parts make up the path.
abbrev pub Splits : UrlPattern → Bytes → Type 0
Splits pattern path =
    (servlet : Bytes) × (info : Option Bytes) × (split_servlet_path pattern path
      ≡ ok (servlet, info))
    × (servlet ++ info_text info ≡ path)

split-Under : (p path : Bytes) → is_empty p ≡ false → Under p path → Splits (prefix p) path
unfolding split_servlet_path
split-Under p path n u =
    let (rest, e, h) = Under-rest p path u in
    (
      p,
      non_empty rest,
      rw (e, n, slice_behind p rest h) refl,
      ap (◌++◌ p) (info_text-non_empty rest) ∙ sym e,
    )

-- For a pattern that matches the path, `split_servlet_path` does not panic, and the servlet path
-- followed by the path info is the path.
pub split_servlet_path-whole :
    (pattern : UrlPattern) (path : Bytes) → matches pattern path ≡ true → Splits pattern path
unfolding matches split_servlet_path
split_servlet_path-whole (exact p) path h = (path, none, refl, append-nil path)
split_servlet_path-whole (extension ext) path h = (path, none, refl, append-nil path)
split_servlet_path-whole default path h = ([], some path, refl, refl)
split_servlet_path-whole (prefix []) path h = ([], non_empty path, refl, info_text-non_empty path)
split_servlet_path-whole (prefix (b ∷ p)) path h =
    split-Under (b ∷ p) path refl (is_under_sound (b ∷ p) path h)

-- The part of a URI that the context path takes.
abbrev pub context_base : Bytes → Bytes
context_base context_path = if is_root context_path then [] else context_path

-- A text behind the context path, or `/` where the URI is the context path alone.
abbrev pub Completes : Bytes → Bytes → Bytes → Type 0
Completes base relative uri = (uri ≡ base ++ relative) ⊎ ((uri ≡ base) × (relative ≡ codes "/"))

slash_for_empty :
    (base rest uri : Bytes)
    → uri ≡ base ++ rest
    → Completes base (if is_empty rest then codes "/" else rest) uri
slash_for_empty base [] uri e = inr (e ∙ append-nil base, refl)
slash_for_empty base (b ∷ rest) uri e = inl e

pub strip_context_path-Completes :
    (context_path uri : Bytes)
    → uri_under_context context_path uri ≡ true
    → Completes (context_base context_path) (strip_context_path context_path uri) uri
unfolding uri_under_context strip_context_path
strip_context_path-Completes c uri h = elim (Bool-cases (is_root c)) [
  | inl e ↦ rw e (slash_for_empty [] uri uri refl)
  | inr e ↦
      let (rest, q, _) = Under-rest c uri (is_under_sound c uri (rw e at h)) in
      rw (e, q, strip_prefix-append c rest) (slash_for_empty c rest (c ++ rest) refl)
]

context_serves :
    (host : Host) (uri : Bytes) (c : Context)
    → resolve_context host uri ≡ some c
    → uri_under_context c.path uri ≡ true
context_serves host uri c h = elim (resolve_context-longest host uri) [
  | inl (d, a, q, _) ↦
      subst (λ (x : Context). uri_under_context x.path uri ≡ true) (some-injective d c (sym q ∙ h))
        a.1
  | inr (q, _) ↦ cc (q, h)
]

-- A routed request: the parts are those that the three steps found, and they make up the URI.
pub record IsRouting (engine : Engine) (host_header uri : Bytes) (r : MappingResult) : Type 0 where
  pub host : resolve_host engine host_header ≡ some r.host
  pub context : resolve_context r.host uri ≡ some r.context
  pub wrapper :
      resolve_wrapper r.context (r.servlet_path ++ info_text r.path_info)
      ≡ some (r.wrapper, r.matched_pattern)
  pub whole : Completes (context_base r.context.path) (r.servlet_path ++ info_text r.path_info) uri

module _ (engine : Engine) (host_header uri : Bytes) where
  -- What a run of the router from some step on comes to.
  abbrev pub Answers : Result Panic (Option MappingResult) → Type 0
  Answers out =
      (out ≡ ok none)
      ⊎ ((r : MappingResult) × (out ≡ ok (some r)) × IsRouting engine host_header uri r)

  routed_by :
      (host : Host) (c : Context) (w : Wrapper) (p : UrlPattern)
      → resolve_host engine host_header ≡ some host
      → resolve_context host uri ≡ some c
      → resolve_wrapper c (strip_context_path c.path uri) ≡ some (w, p)
      → Answers (route engine host_header uri)
  unfolding route
  routed_by host c w p h k m =
      let ((_, _, applies), _) = resolve_wrapper-best c (strip_context_path c.path uri) w p m in
      let (servlet, info, split, parts) =
        split_servlet_path-whole p (strip_context_path c.path uri) applies in
      rw (route, h, k, m, split)
        (inr (
          record {
            host = host;
            context = c;
            wrapper = w;
            servlet_path = servlet;
            path_info = info;
            matched_pattern = p;
          },
          refl,
          record {
            host = h;
            context = k;
            wrapper = rw parts m;
            whole =
                rw parts (strip_context_path-Completes c.path uri (context_serves host uri c k));
          },
        ))

-- Routing never panics: it answers `None`, or a result whose host, context and servlet are those
-- that the three steps resolve, and whose context path, servlet path and path info are together
-- the URI (or the URI is the context path alone and the rest is `/`).
pub route-Answers :
    (engine : Engine) (host_header uri : Bytes)
    → Answers engine host_header uri (route engine host_header uri)
unfolding route
route-Answers engine host_header uri = elim (Option-cases (resolve_host engine host_header)) [
  | inl h ↦ inl (rw (route, h) refl)
  | inr (host, h) ↦ elim (Option-cases (resolve_context host uri)) [
    | inl k ↦ inl (rw (route, h, k) refl)
    | inr (c, k) ↦ elim (Option-cases (resolve_wrapper c (strip_context_path c.path uri))) [
      | inl m ↦ inl (rw (route, h, k, m) refl)
      | inr ((w, p), m) ↦ routed_by engine host_header uri host c w p h k m
    ]
  ]
]
