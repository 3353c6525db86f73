-- ===== src/Security/Constraints.antt =====
-- crates/tomcatrs-security/src/constraints.rs: `<security-constraint>` evaluation, with `Principal`
-- of realm.rs. Texts are lists of bytes; the loops are folds with the source's variables.
pub mod Patterns
pub mod Decision
pub mod Winners
use michael.Prelude.{
  ℕ, ◌+◌, Bool, true, false, not, ◌&&◌, ◌||◌, List, [], ◌∷◌, ◌++◌, Option, none, some,
  if◌then◌else◌, leb, ltb, ◌==◌, length, any, retain, is_empty,
}
use michael.Prelude.Text.{
  Bytes, codes, str_eq, strip_prefix, strip_suffix, starts_with, after_last, eq_ignore_ascii_case,
}

pub data TransportGuarantee : Type 0 where
  no_guarantee integral confidential : TransportGuarantee

abbrev pub requires_secure : TransportGuarantee → Bool
requires_secure integral = true
requires_secure confidential = true
requires_secure no_guarantee = false

pub record WebResourceCollection : Type 0 where
  pub name : Bytes
  pub url_patterns : List Bytes
  pub http_methods : List Bytes
  pub http_method_omissions : List Bytes

pub record AuthConstraint : Type 0 where
  pub role_names : List Bytes

pub record UserDataConstraint : Type 0 where
  pub transport_guarantee : TransportGuarantee

pub record SecurityConstraint : Type 0 where
  pub web_resource_collections : List WebResourceCollection
  pub auth_constraint : Option AuthConstraint
  pub user_data_constraint : Option UserDataConstraint

pub record Principal : Type 0 where
  pub name : Bytes
  pub roles : List Bytes

pub data ConstraintDecision : Type 0 where
  allow unauthenticated forbidden require_transport : ConstraintDecision

unfoldable pub has_role : Principal → Bytes → Bool
has_role p role = any (λ r. str_eq r role) p.roles

-- `path.starts_with(&prefix_with_slash)`, after the bare prefix itself.
prefix_match_len : Bytes → Bytes → Option ℕ
prefix_match_len prefix path =
    if str_eq path prefix
    then some (length prefix + 2)
    else if starts_with path (prefix ++ codes "/")
    then some (length prefix + 2)
    else none

extension_match_len : Bytes → Bytes → Option ℕ
extension_match_len ext path = elim (after_last b'.' path) [
  | none ↦ none
  | some suffix ↦ if eq_ignore_ascii_case suffix ext then some (length ext) else none
]

unfoldable pub pattern_match_len : Bytes → Bytes → Option ℕ
unfolding prefix_match_len extension_match_len
pattern_match_len pattern path =
    if str_eq pattern (codes "/") then some 0 else elim (strip_prefix pattern (codes "*.")) [
      | some ext ↦ extension_match_len ext path
      | none ↦ elim (strip_suffix pattern (codes "/*")) [
        | some prefix ↦ prefix_match_len prefix path
        | none ↦ if str_eq pattern path then some (length path + 1) else none
      ]
    ]

unfoldable pub covers_method : WebResourceCollection → Bytes → Bool
covers_method col method =
    if not (is_empty col.http_methods)
    then any (λ m. eq_ignore_ascii_case m method) col.http_methods
    else if not (is_empty col.http_method_omissions)
    then not (any (λ m. eq_ignore_ascii_case m method) col.http_method_omissions)
    else true

-- `match best { Some(prev) if prev >= len => prev, _ => len }`
abbrev pub keep_longer : Option ℕ → ℕ → ℕ
keep_longer none len = len
keep_longer (some prev) len = if leb len prev then prev else len

-- One round of either loop over a best length so far.
abbrev pub improve : Option ℕ → Option ℕ → Option ℕ
improve best none = best
improve best (some len) = some (keep_longer best len)

best_over_patterns : Option ℕ → List Bytes → Bytes → Option ℕ
best_over_patterns best [] path = best
best_over_patterns best (pat ∷ pats) path =
    best_over_patterns (improve best (pattern_match_len pat path)) pats path

unfoldable pub best_match_len : WebResourceCollection → Bytes → Option ℕ
unfolding best_over_patterns
best_match_len col path = best_over_patterns none col.url_patterns path

-- Phase 1: the best length over the collections of one constraint, and the constraints that match.
best_over_collections : Option ℕ → List WebResourceCollection → Bytes → Bytes → Option ℕ
best_over_collections best [] path method = best
best_over_collections best (col ∷ cols) path method =
    best_over_collections
      (if covers_method col method then improve best (best_match_len col path) else best) cols path
      method

unfoldable pub constraint_match_len : SecurityConstraint → Bytes → Bytes → Option ℕ
unfolding best_over_collections
constraint_match_len c path method =
    best_over_collections none c.web_resource_collections path method

pub record Hit : Type 0 where
  pub constraint : SecurityConstraint
  pub match_len : ℕ

unfoldable pub gather_hits : List SecurityConstraint → Bytes → Bytes → List Hit
gather_hits [] path method = []
gather_hits (c ∷ cs) path method =
    let rest = gather_hits cs path method in
    elim (constraint_match_len c path method) [
      | none ↦ rest
      | some len ↦ record { constraint = c; match_len = len } ∷ rest
    ]

-- Phase 2: `hits.iter().map(..).max().unwrap_or(0)`, and the hits of that length.
unfoldable pub max_len : List Hit → ℕ
max_len [] = 0
max_len (h ∷ hits) = let rest = max_len hits in if leb h.match_len rest then rest else h.match_len

unfoldable pub longest_hits : List Hit → List Hit
longest_hits hits = retain (λ h. h.match_len == max_len hits) hits

-- Phase 3: the variables of the loop over the hits.
pub record Aggregate : Type 0 where
  pub any_uncovered_auth : Bool
  pub all_deny_all : Bool
  pub any_auth_constraint : Bool
  pub permitted_roles : List Bytes
  pub wildcard_any_auth : Bool
  pub strongest_transport : TransportGuarantee

abbrev pub initial_aggregate : Aggregate
initial_aggregate = record {
  any_uncovered_auth = false;
  all_deny_all = true;
  any_auth_constraint = false;
  permitted_roles = [];
  wildcard_any_auth = false;
  strongest_transport = no_guarantee;
}

abbrev pub is_deny_all : AuthConstraint → Bool
is_deny_all ac = is_empty ac.role_names

abbrev pub is_wildcard : Bytes → Bool
is_wildcard r = str_eq r (codes "*") || str_eq r (codes "**")

unfoldable pub allows_any_authenticated : AuthConstraint → Bool
allows_any_authenticated ac = any is_wildcard ac.role_names

unfoldable pub aggregate_auth : Aggregate → Option AuthConstraint → Aggregate
aggregate_auth g none = record g { any_uncovered_auth = true; all_deny_all = false }
aggregate_auth g (some ac) =
    if is_deny_all ac then record g { any_auth_constraint = true } else record g {
      any_auth_constraint = true;
      all_deny_all = false;
      wildcard_any_auth = if allows_any_authenticated ac then true else g.wildcard_any_auth;
      permitted_roles = g.permitted_roles ++ retain (λ r. not (is_wildcard r)) ac.role_names;
    }

strengthen : TransportGuarantee → Option UserDataConstraint → TransportGuarantee
strengthen strongest none = strongest
strengthen strongest (some ud) = elim ud.transport_guarantee [
  | confidential ↦ confidential
  | integral ↦ elim strongest [ confidential ↦ confidential | _ ↦ integral ]
  | no_guarantee ↦ strongest
]

unfoldable pub aggregate_hit : Aggregate → Hit → Aggregate
unfolding strengthen
aggregate_hit g h =
    let g' = aggregate_auth g h.constraint.auth_constraint in
    record g' {
      strongest_transport = strengthen g.strongest_transport h.constraint.user_data_constraint;
    }

unfoldable pub aggregate_hits : Aggregate → List Hit → Aggregate
aggregate_hits g [] = g
aggregate_hits g (h ∷ hits) = aggregate_hits (aggregate_hit g h) hits

-- Phases 4 and 5.
unfoldable pub conclude : Aggregate → Option Principal → Bool → ConstraintDecision
conclude g principal secure =
    if requires_secure g.strongest_transport && not secure
    then require_transport
    else if g.any_uncovered_auth
    then allow
    else if g.any_auth_constraint && g.all_deny_all
    then forbidden
    else elim principal [
      | none ↦ unauthenticated
      | some p ↦
          if g.wildcard_any_auth
          then allow
          else if any (has_role p) g.permitted_roles
          then allow
          else forbidden
    ]

-- `ConstraintRegistry::check` on the registry's constraints.
unfoldable pub check :
    List SecurityConstraint → Bytes → Bytes → Option Principal → Bool → ConstraintDecision
check constraints path method principal secure =
    let hits = gather_hits constraints path method in
    if is_empty hits
    then allow
    else conclude (aggregate_hits initial_aggregate (longest_hits hits)) principal secure
