-- ===== src/Tests/AccessControl.antt =====
-- The hardening of request paths on the examples of its documentation.
use michael.Prelude.{some, ok, err, ◌≡◌, ◌≤◌, refl, any, ◌↔◌}
use michael.Prelude.Text.{codes, str_eq, strip_prefix, contains, split_on, join, lower, from_utf8}
use michael.Coyote.Normalize as Coyote
use michael.Coyote.Normalize.{hex_val}
use michael.Security.AccessControl.{
  normalize_and_validate_uri, validate_decoded, percent_decode, decode_escape, before_query,
  contains_str, collapse_dot_segments, collapse_loop, is_protected_path, protected_directory,
  escapes_root, encoded_separator, RequestLimits, enforce_limits,
}
use michael.Security.AccessControl.Safety.{
  IsServable, SameCollapse, normalize_and_validate_uri-IsServable, collapse_dot_segments_agree,
}
use michael.Security.AccessControl.Limits.{BodyFits, enforce_limits_iff}

runs :
    (normalize_and_validate_uri (codes "/app/./images/../style.css?x")
      ≡ ok (codes "/app/style.css"))
    × (normalize_and_validate_uri (codes "/app/../../etc/passwd") ≡ err escapes_root)
    × (normalize_and_validate_uri (codes "/x/../WEB-INF/web.xml") ≡ err protected_directory)
    × (normalize_and_validate_uri (codes "/a%2Fb") ≡ err encoded_separator)
unfolding normalize_and_validate_uri validate_decoded percent_decode decode_escape before_query
    contains_str collapse_dot_segments collapse_loop is_protected_path str_eq strip_prefix contains
    split_on join lower from_utf8 hex_val any
runs = (refl, refl, refl, refl)

normalize_and_validate_uri-IsServable_example : IsServable (codes "/app/style.css")
normalize_and_validate_uri-IsServable_example =
    normalize_and_validate_uri-IsServable (codes "/app/./images/../style.css?x")
      (codes "/app/style.css") runs.0

collapse_dot_segments_agree_example :
    SameCollapse
      (Coyote.collapse_dot_segments (codes "/a/b/../"))
      (collapse_dot_segments (codes "/a/b/../"))
collapse_dot_segments_agree_example = collapse_dot_segments_agree (codes "/a/b/../")

abbrev limits : RequestLimits
limits = record {
  max_header_count = 100;
  max_header_size = 8192;
  max_parameter_count = 10000;
  max_post_size = 2097152;
  max_part_count = 50;
  max_uri_len = 8192;
}

enforce_limits_iff_example :
    (enforce_limits limits 101 10 10 (some 5) ≡ ok tt)
    ↔ ((101 ≤ 100) × (10 ≤ 8192) × (10 ≤ 8192) × BodyFits (some 5) 2097152)
enforce_limits_iff_example = enforce_limits_iff limits 101 10 10 (some 5)
