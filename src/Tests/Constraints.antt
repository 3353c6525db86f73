-- ===== src/Tests/Constraints.antt =====
-- The constraint registry on a small configuration.
use michael.Prelude.{List, [], ◌∷◌, none, some, ◌≡◌, ◌≢◌, refl, true, all, any, retain, map}
use michael.Prelude.Text.{codes, str_eq, strip_prefix, strip_suffix}
use michael.Security.Constraints.{
  SecurityConstraint, Principal, allow, unauthenticated, forbidden, check, gather_hits,
  longest_hits, max_len, constraint_match_len, best_match_len, pattern_match_len, covers_method,
  aggregate_hits, aggregate_hit, aggregate_auth, allows_any_authenticated, conclude, has_role, Hit,
}
use michael.Security.Constraints.Decision.{decision, deny_all_forbids}
use michael.Security.Constraints.Winners.{wins, check-decision}
use michael.Security.Constraints.Patterns.{on_pattern, deny_all, check-prefix_over_exact}

abbrev registry : List SecurityConstraint
registry =
    on_pattern (codes "/admin/*") (some (record { role_names = codes "admin" ∷ [] }))
    ∷ on_pattern (codes "/secret/*") deny_all
    ∷ on_pattern (codes "/admin/public/*") none
    ∷ []

abbrev alice : Principal
alice = record { name = codes "alice"; roles = codes "admin" ∷ [] }

abbrev bob : Principal
bob = record { name = codes "bob"; roles = codes "user" ∷ [] }

runs :
    (check registry (codes "/admin/x") (codes "GET") none true ≡ unauthenticated)
    × (check registry (codes "/admin/x") (codes "GET") (some alice) true ≡ allow)
    × (check registry (codes "/admin/x") (codes "GET") (some bob) true ≡ forbidden)
    × (check registry (codes "/admin/public/x") (codes "GET") none true ≡ allow)
    × (check registry (codes "/index") (codes "GET") none true ≡ allow)
unfolding check gather_hits longest_hits max_len constraint_match_len pattern_match_len
    covers_method best_match_len str_eq strip_prefix strip_suffix conclude aggregate_hits retain
    aggregate_hit aggregate_auth allows_any_authenticated any has_role
runs = (refl, refl, refl, refl, refl)

secret_hits :
    longest_hits (gather_hits registry (codes "/secret/k") (codes "GET"))
    ≡ record { constraint = on_pattern (codes "/secret/*") deny_all; match_len = 9 } ∷ []
unfolding gather_hits longest_hits max_len constraint_match_len pattern_match_len covers_method
    best_match_len retain str_eq strip_prefix strip_suffix
secret_hits = refl

check-decision_example :
    (check registry (codes "/admin/x") (codes "GET") (some bob) true
      ≡ decision
          (longest_hits (gather_hits registry (codes "/admin/x") (codes "GET")))
          (some bob)
          true)
    × (map
          (λ (h : Hit). h.constraint)
          (longest_hits (gather_hits registry (codes "/admin/x") (codes "GET")))
        ≡ retain (wins registry (codes "/admin/x") (codes "GET")) registry)
check-decision_example = check-decision registry (codes "/admin/x") (codes "GET") (some bob) true

deny_all_forbids_example :
    check registry (codes "/secret/k") (codes "GET") (some alice) true ≢ allow
deny_all_forbids_example =
    deny_all_forbids registry (codes "/secret/k") (codes "GET") (some alice) true _ [] secret_hits
      (unfold all in refl)

check-prefix_over_exact_example :
    check
      (on_pattern (codes "/foo") deny_all ∷ on_pattern (codes "/foo/*") none ∷ [])
      (codes "/foo")
      (codes "GET")
      none
      true
    ≡ allow
check-prefix_over_exact_example =
    check-prefix_over_exact (codes "foo") (codes "GET") none true
      ((λ e. cc), unfold strip_suffix strip_prefix in refl)
