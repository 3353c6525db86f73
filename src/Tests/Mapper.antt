-- ===== src/Tests/Mapper.antt =====
-- The mapper on a small engine.
use michael.Prelude.{◌≤◌, [], ◌∷◌, none, some, ◌≡◌, ◌⊎◌, refl, true, ok, length, any}
use michael.Prelude.Text.{codes, str_eq, strip_prefix, after_last, split_on, lower}
use michael.Prelude.Text.Trim.{trim}
use michael.Catalina.Mapper.{
  exact, prefix, extension, default, parse, as_pattern_string, matches, Engine, Host, Context,
  Wrapper, resolve_wrapper, resolve_context, resolve_host, route, best_wrapper, best_mapping,
  match_score, last_segment, is_under, engine_host, normalize_host, find_alias, best_context,
  uri_under_context, slice_from, split_servlet_path, strip_context_path,
}
use michael.Catalina.Mapper.Patterns.{as_pattern_string-parse}
use michael.Catalina.Mapper.Longest.{Serves, resolve_context-longest}
use michael.Catalina.Mapper.Paths.{Answers, route-Answers}

abbrev api : Wrapper
api = record { name = codes "api"; mappings = prefix (codes "/api") ∷ [] }

abbrev admin : Wrapper
admin = record {
  name = codes "admin";
  mappings = prefix (codes "/api/admin") ∷ exact (codes "/login") ∷ [];
}

abbrev jsp : Wrapper
jsp = record { name = codes "jsp"; mappings = extension (codes "jsp") ∷ default ∷ [] }

abbrev app : Context
app = record { path = codes "/app"; wrappers = api ∷ admin ∷ jsp ∷ [] }

abbrev root : Context
root = record { path = []; wrappers = jsp ∷ [] }

abbrev localhost : Host
localhost = record {
  name = codes "localhost";
  aliases = codes "www" ∷ [];
  contexts = root ∷ app ∷ [];
}

abbrev catalina : Engine
catalina = record { hosts = (codes "localhost", localhost) ∷ []; default_host = codes "localhost" }

routed :
    route catalina (codes "LocalHost:8080") (codes "/app/api/users")
    ≡ ok (
        some (record {
          host = localhost;
          context = app;
          wrapper = api;
          servlet_path = codes "/api";
          path_info = some (codes "/users");
          matched_pattern = prefix (codes "/api");
        }))
unfolding route resolve_wrapper best_wrapper best_mapping match_score matches after_last
    last_segment str_eq is_under strip_prefix resolve_host engine_host normalize_host trim split_on
    lower find_alias any resolve_context best_context uri_under_context slice_from
    split_servlet_path strip_context_path
routed = refl

as_pattern_string-parse_example : as_pattern_string (parse (codes "/api/*")) ≡ codes "/api/*"
as_pattern_string-parse_example = as_pattern_string-parse (codes "/api/*") (λ e. cc)

resolve_context-longest_example :
    ((c : Context) × Serves (codes "/app/x") localhost.contexts c
      × (resolve_context localhost (codes "/app/x") ≡ some c)
      × ((d : Context)
          → Serves (codes "/app/x") localhost.contexts d
          → length d.path ≤ length c.path))
    ⊎ ((resolve_context localhost (codes "/app/x") ≡ none)
        × ((d : Context) → Serves (codes "/app/x") localhost.contexts d → ⊥))
resolve_context-longest_example = resolve_context-longest localhost (codes "/app/x")

api_matches : matches (prefix (codes "/api")) (codes "/api/users") ≡ true
unfolding matches is_under str_eq strip_prefix
api_matches = refl

route-Answers_example :
    Answers catalina
      (codes "LocalHost:8080")
      (codes "/app/api/users")
      (route catalina (codes "LocalHost:8080") (codes "/app/api/users"))
route-Answers_example = route-Answers catalina (codes "LocalHost:8080") (codes "/app/api/users")
