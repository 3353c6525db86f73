-- ===== src/Security/Constraints/Decision.antt =====
-- The decision of `check`, as a statement about the winning constraints taken together: the loop's
-- variables say whether any, or all, of them have a property.
use michael.Prelude.{
  Bool, true, false, not, ◌&&◌, ◌||◌, List, [], ◌∷◌, ◌++◌, Option, none, some, ◌≡◌, ◌≢◌, refl, ◌∙◌,
  sym, arith, if◌then◌else◌, ◌==◌, any, all, retain, is_empty, inl, inr, ◌⊎◌, Bool-cases,
}
use michael.Prelude.Text.{Bytes}
use michael.Security.Constraints.{
  SecurityConstraint, AuthConstraint, UserDataConstraint, TransportGuarantee, Principal,
  ConstraintDecision, allow, unauthenticated, forbidden, require_transport, requires_secure,
  has_role, is_wildcard, allows_any_authenticated, Hit, gather_hits, max_len, longest_hits,
  Aggregate, initial_aggregate, aggregate_auth, strengthen, aggregate_hit, aggregate_hits, conclude,
  check,
}

-- What one constraint says.
abbrev pub is_uncovered : Option AuthConstraint → Bool
is_uncovered none = true
is_uncovered (some ac) = false

abbrev pub denies_all : Option AuthConstraint → Bool
denies_all none = false
denies_all (some ac) = is_empty ac.role_names

abbrev pub lets_any_user_in : Option AuthConstraint → Bool
lets_any_user_in none = false
lets_any_user_in (some ac) = allows_any_authenticated ac

abbrev pub names_role_of : Principal → Option AuthConstraint → Bool
names_role_of p none = false
names_role_of p (some ac) = any (has_role p) (retain (λ r. not (is_wildcard r)) ac.role_names)

abbrev pub needs_transport : Option UserDataConstraint → Bool
needs_transport none = false
needs_transport (some ud) = requires_secure ud.transport_guarantee

-- `any` and `all` over the hits, by the part of the constraint that they read.
abbrev pub any_auth : (Option AuthConstraint → Bool) → List Hit → Bool
any_auth test = any (λ h. test h.constraint.auth_constraint)

abbrev pub all_auth : (Option AuthConstraint → Bool) → List Hit → Bool
all_auth test = all (λ h. test h.constraint.auth_constraint)

abbrev pub any_needs_transport : List Hit → Bool
any_needs_transport = any (λ h. needs_transport h.constraint.user_data_constraint)

any-append {ℓ} :
    {A : Type ℓ} (test : A → Bool) (xs ys : List A)
    → any test (xs ++ ys) ≡ (any test xs || any test ys)
unfolding any
any-append test [] ys = refl
any-append test (x ∷ xs) ys = ground (arith, any-append test xs ys)

-- Where no role is listed, none is let in.
empty_roles :
    (p : Principal) (ac : AuthConstraint)
    → is_empty ac.role_names ≡ true
    → (allows_any_authenticated ac ≡ false) × (names_role_of p (some ac) ≡ false)
unfolding allows_any_authenticated any retain
empty_roles p ac h = ground arith

-- One hit, on each variable of the loop.
record StepFacts (p : Principal) (g : Aggregate) (o : Option AuthConstraint) (g' : Aggregate)
    : Type 0 where
  uncovered : g'.any_uncovered_auth ≡ (g.any_uncovered_auth || is_uncovered o)
  deny : g'.all_deny_all ≡ (g.all_deny_all && denies_all o)
  auth : g'.any_auth_constraint ≡ (g.any_auth_constraint || not (is_uncovered o))
  wildcard : g'.wildcard_any_auth ≡ (g.wildcard_any_auth || lets_any_user_in o)
  roles :
      any (has_role p) g'.permitted_roles
      ≡ (any (has_role p) g.permitted_roles || names_role_of p o)

step_facts :
    (p : Principal) (g : Aggregate) (o : Option AuthConstraint)
    → StepFacts p g o (aggregate_auth g o)
unfolding aggregate_auth
step_facts p g none = ground arith
step_facts p g (some ac) = elim (Bool-cases (is_empty ac.role_names)) [
  | inl e ↦ ground (arith, empty_roles p ac)
  | inr e ↦ ground (
    arith,
    any-append (has_role p) g.permitted_roles (retain (λ r. not (is_wildcard r)) ac.role_names),
  )
]

-- All the hits.
record LoopFacts (p : Principal) (g : Aggregate) (hits : List Hit) (g' : Aggregate) : Type 0 where
  uncovered : g'.any_uncovered_auth ≡ (g.any_uncovered_auth || any_auth is_uncovered hits)
  deny : g'.all_deny_all ≡ (g.all_deny_all && all_auth denies_all hits)
  auth :
      g'.any_auth_constraint ≡ (g.any_auth_constraint || any_auth (λ o. not (is_uncovered o)) hits)
  wildcard : g'.wildcard_any_auth ≡ (g.wildcard_any_auth || any_auth lets_any_user_in hits)
  roles :
      any (has_role p) g'.permitted_roles
      ≡ (any (has_role p) g.permitted_roles || any_auth (names_role_of p) hits)
  transport :
      requires_secure g'.strongest_transport
      ≡ (requires_secure g.strongest_transport || any_needs_transport hits)

strengthen-requires :
    (t : TransportGuarantee) (o : Option UserDataConstraint)
    → requires_secure (strengthen t o) ≡ (requires_secure t || needs_transport o)
unfolding strengthen
strengthen-requires t none = ground arith
strengthen-requires t (some ud) = ground arith

loop_facts :
    (p : Principal) (g : Aggregate) (hits : List Hit) → LoopFacts p g hits (aggregate_hits g hits)
unfolding aggregate_hits any all
loop_facts p g [] = ground arith
loop_facts p g (h ∷ hits) = join (loop_facts p (aggregate_hit g h) hits)
  where
    join :
        LoopFacts p (aggregate_hit g h) hits (aggregate_hits (aggregate_hit g h) hits)
        → LoopFacts p g (h ∷ hits) (aggregate_hits (aggregate_hit g h) hits)
    join ih =
        let st = step_facts p g h.constraint.auth_constraint in
        let tr = strengthen-requires g.strongest_transport h.constraint.user_data_constraint in
        unfold aggregate_hit in ground arith

-- The decision on the winning hits. With none the request is allowed. Else transport comes first; then a constraint that asks for no role opens
-- the resource; then, if every constraint denies all, nobody enters; else a user enters whom some
-- constraint lets in as any user, or by a role.
unfoldable pub decision : List Hit → Option Principal → Bool → ConstraintDecision
decision [] principal secure = allow
decision (h ∷ hits) principal secure =
    let winners = h ∷ hits in
    if any_needs_transport winners && not secure
    then require_transport
    else if any_auth is_uncovered winners
    then allow
    else if all_auth denies_all winners
    then forbidden
    else elim principal [
      | none ↦ unauthenticated
      | some p ↦
          if any_auth lets_any_user_in winners || any_auth (names_role_of p) winners
          then allow
          else forbidden
    ]

some_auth :
    (h : Hit) (hits : List Hit)
    → any_auth is_uncovered (h ∷ hits) ≡ false
    → any_auth (λ o. not (is_uncovered o)) (h ∷ hits) ≡ true
unfolding any
some_auth h hits e = ground arith

no_roles : (p : Principal) → any (has_role p) [] ≡ false
unfolding any
no_roles p = refl

conclude-decision :
    (h : Hit) (hits : List Hit) (principal : Option Principal) (secure : Bool)
    → conclude (aggregate_hits initial_aggregate (h ∷ hits)) principal secure
      ≡ decision (h ∷ hits) principal secure
unfolding conclude decision
conclude-decision h hits none secure = ground (
  arith,
  loop_facts (record { name = []; roles = [] }) initial_aggregate (h ∷ hits),
  some_auth h hits,
)
conclude-decision h hits (some p) secure =
    ground (arith, loop_facts p initial_aggregate (h ∷ hits), some_auth h hits, no_roles p)

-- The longest length is that of some hit, so there is a winner where there is a hit.
max_len_attained :
    (h : Hit) (hits : List Hit) → any (λ x. x.match_len == max_len (h ∷ hits)) (h ∷ hits) ≡ true
unfolding any max_len
max_len_attained h [] = ground arith
max_len_attained h (k ∷ hits) = ground (arith, max_len_attained k hits)

retain_some {ℓ} :
    {A : Type ℓ} (test : A → Bool) (xs : List A)
    → any test xs ≡ true
    → (y : A) × (ys : List A) × (retain test xs ≡ y ∷ ys)
unfolding any retain
retain_some test [] h = cc
retain_some test (x ∷ xs) h = elim (Bool-cases (test x)) [
  | inl e ↦ (x, retain test xs, rw e)
  | inr e ↦ let (y, ys, q) = retain_some test xs (rw e at h) in (y, ys, rw (e, q))
]

-- `check` decides by the longest hits, taken together, as `decision` says.
pub check-longest_hits :
    (constraints : List SecurityConstraint) (path method : Bytes) (principal : Option Principal)
    (secure : Bool)
    → check constraints path method principal secure
      ≡ decision (longest_hits (gather_hits constraints path method)) principal secure
unfolding check
check-longest_hits constraints path method principal secure =
    go (gather_hits constraints path method)
  where
    go :
        (hits : List Hit)
        → (if is_empty hits
            then allow
            else conclude (aggregate_hits initial_aggregate (longest_hits hits)) principal secure)
          ≡ decision (longest_hits hits) principal secure
    go [] = unfold longest_hits retain decision in refl
    go (h ∷ hits) =
        let (y, ys, q) =
          retain_some (λ x. x.match_len == max_len (h ∷ hits)) (h ∷ hits)
            (max_len_attained h hits) in
        unfold longest_hits in rw q (conclude-decision y ys principal secure)

-- A user without a name is let in only where no constraint matches or a winner asks for no role.
pub anonymous_allowed :
    (constraints : List SecurityConstraint) (path method : Bytes) (secure : Bool)
    → check constraints path method none secure ≡ allow
    → (longest_hits (gather_hits constraints path method) ≡ [])
      ⊎ (any_auth is_uncovered (longest_hits (gather_hits constraints path method)) ≡ true)
anonymous_allowed constraints path method secure h =
    go _ (sym (check-longest_hits constraints path method none secure) ∙ h)
  where
    go :
        (winners : List Hit)
        → decision winners none secure ≡ allow
        → (winners ≡ []) ⊎ (any_auth is_uncovered winners ≡ true)
    go [] q = inl refl
    go (w ∷ ws) q = inr (unfold decision in ground arith)

deny_uncovered :
    (hits : List Hit) → all_auth denies_all hits ≡ true → any_auth is_uncovered hits ≡ false
unfolding any all
deny_uncovered [] h = refl
deny_uncovered (w ∷ ws) h = ground (arith, deny_uncovered ws)

-- Where some constraint wins and every winner has an empty role list, nobody is let in, whoever
-- the user is and over whatever transport.
pub deny_all_forbids :
    (constraints : List SecurityConstraint) (path method : Bytes) (principal : Option Principal)
    (secure : Bool) (w : Hit) (ws : List Hit)
    → longest_hits (gather_hits constraints path method) ≡ w ∷ ws
    → all_auth denies_all (w ∷ ws) ≡ true
    → check constraints path method principal secure ≢ allow
deny_all_forbids constraints path method principal secure w ws e deny h =
    refuse principal
      (sym (rw e at (check-longest_hits constraints path method principal secure)) ∙ h)
  where
    refuse : (o : Option Principal) → decision (w ∷ ws) o secure ≢ allow
    refuse o q = unfold decision in ground (arith, deny_uncovered (w ∷ ws))
