-- ===== src/Security/Constraints/Patterns.antt =====
-- The lengths by which patterns are ranked: against the comments of the source, an exact pattern
-- loses to the prefix pattern on the same path, and a long extension beats a short prefix.
use michael.Prelude.{
  ℕ, ◌+◌, ◌<◌, Bool, false, [], ◌∷◌, ◌++◌, Option, none, some, ◌≡◌, ◌≢◌, refl, arith, length,
  retain,
}
use michael.Prelude.Text.{Bytes, codes, str_eq, strip_prefix, strip_suffix}
use michael.Prelude.Text.Laws.{str_eq_refl, strip_suffix-append}
use michael.Security.Constraints.{
  AuthConstraint, SecurityConstraint, Principal, allow, pattern_match_len, covers_method,
  constraint_match_len, best_match_len, gather_hits, Hit, longest_hits, check, max_len, conclude,
  aggregate_hits, aggregate_hit, aggregate_auth,
}

-- A path that starts with `/`, is longer, and does not end in `/*`.
abbrev pub IsPlain : Bytes → Type 0
IsPlain q = (q ≢ []) × (strip_suffix (b'/' ∷ q) (codes "/*") ≡ none)

not_root : (q : Bytes) → q ≢ [] → str_eq (b'/' ∷ q) (codes "/") ≡ false
unfolding str_eq
not_root [] h = absurd (h refl)
not_root (x ∷ q) h = refl

no_extension : (q : Bytes) → strip_prefix (b'/' ∷ q) (codes "*.") ≡ none
unfolding strip_prefix
no_extension q = refl

slash-not_empty : (q : Bytes) → q ++ codes "/*" ≢ []
slash-not_empty [] e = cc
slash-not_empty (x ∷ q) e = cc

exact_len :
    (q : Bytes) → IsPlain q → pattern_match_len (b'/' ∷ q) (b'/' ∷ q) ≡ some (length (b'/' ∷ q) + 1)
unfolding pattern_match_len
exact_len q h = rw (not_root q h.0, no_extension q, h.1, str_eq_refl (b'/' ∷ q)) refl

prefix_len :
    (q : Bytes)
    → q ≢ []
    → pattern_match_len ((b'/' ∷ q) ++ codes "/*") (b'/' ∷ q) ≡ some (length (b'/' ∷ q) + 2)
unfolding pattern_match_len
prefix_len q h =
    rw
      (
        not_root (q ++ codes "/*") (slash-not_empty q),
        no_extension (q ++ codes "/*"),
        strip_suffix-append (b'/' ∷ q) (codes "/*"),
        str_eq_refl (b'/' ∷ q),
      )
      refl

-- A constraint on one pattern, for every method.
abbrev pub on_pattern : Bytes → Option AuthConstraint → SecurityConstraint
on_pattern pattern auth = record {
  web_resource_collections =
      record {
        name = [];
        url_patterns = pattern ∷ [];
        http_methods = [];
        http_method_omissions = [];
      }
      ∷ [];
  auth_constraint = auth;
  user_data_constraint = none;
}

abbrev pub deny_all : Option AuthConstraint
deny_all = some (record { role_names = [] })

on_pattern_len :
    (pattern path method : Bytes) (auth : Option AuthConstraint) (n : ℕ)
    → pattern_match_len pattern path ≡ some n
    → constraint_match_len (on_pattern pattern auth) path method ≡ some n
unfolding constraint_match_len covers_method best_match_len
on_pattern_len pattern path method auth n h = rw h refl

gather-two :
    (c d : SecurityConstraint) (path method : Bytes) (m n : ℕ)
    → constraint_match_len c path method ≡ some m
    → constraint_match_len d path method ≡ some n
    → gather_hits (c ∷ d ∷ []) path method
      ≡ record { constraint = c; match_len = m } ∷ record { constraint = d; match_len = n } ∷ []
unfolding gather_hits
gather-two c d path method m n h k = ground arith

longest-two : (a b : Hit) → a.match_len < b.match_len → longest_hits (a ∷ b ∷ []) ≡ b ∷ []
unfolding longest_hits max_len retain
longest-two a b h = ground arith

-- On the path `p` (it starts with `/`, is longer, and does not end in `/*`) the constraint on the
-- prefix pattern `p/*` outranks a constraint on the exact pattern `p`: with one that denies all on
-- `p` and one without roles on `p/*`, every request for `p` is allowed.
pub check-prefix_over_exact :
    (q method : Bytes) (principal : Option Principal) (secure : Bool)
    → IsPlain q
    → check
        (on_pattern (b'/' ∷ q) deny_all ∷ on_pattern ((b'/' ∷ q) ++ codes "/*") none ∷ [])
        (b'/' ∷ q)
        method
        principal
        secure
      ≡ allow
unfolding check
check-prefix_over_exact q method principal secure h =
    rw
      (
        gather-two (on_pattern p deny_all) (on_pattern (p ++ codes "/*") none) p method _ _
            (on_pattern_len p p method deny_all _ (exact_len q h))
            (on_pattern_len (p ++ codes "/*") p method none _ (prefix_len q h.0)),
        longest-two (record { constraint = on_pattern p deny_all; match_len = length p + 1 })
            (record { constraint = on_pattern (p ++ codes "/*") none; match_len = length p + 2 })
            (omega arith),
      )
      (unfold aggregate_hits aggregate_hit aggregate_auth conclude in refl)
  where
    p : Bytes
    p = b'/' ∷ q
