-- ===== src/Tests/Normalize.antt =====
-- `normalize_target` on the inputs of its unit tests, and its theorems at concrete targets.
use michael.Prelude.{[], ◌∷◌, some, ◌≡◌, ◌⊎◌, ◌↔◌, true, arith, refl, ok, err}
use michael.Prelude.Text.{
  codes, split_on, join, split_once, contains, str_eq, strip_prefix, ends_with, from_utf8,
}
use michael.Coyote.Normalize.{
  NormalizedUri, normalize_target, normalize_path, percent_decode, collapse_dot_segments,
  collapse_loop, collapse_step, render_path, path_traversal, encoded_slash, bad_percent_encoding,
  backslash, not_absolute, nul_byte,
}
use michael.Coyote.Normalize.Segments.{Climbs}
use michael.Coyote.Normalize.Decode.{percent_encode, percent_decode-percent_encode}
use michael.Coyote.Normalize.Safety.{
  IsCanonical, normalize_target-IsCanonical, collapse_dot_segments_refuses,
}

abbrev uri : NormalizedUri
uri = record { path = codes "/a b/d/"; query = some (codes "q=%20") }

runs :
    (normalize_target (codes "/a%20b/./c/..//d/?q=%20") ≡ ok uri)
    × (normalize_target (codes "/a/../../b") ≡ err path_traversal)
    × (normalize_target (codes "/%2e%2e/secret") ≡ err path_traversal)
    × (normalize_target (codes "/app/x%2fy") ≡ err encoded_slash)
    × (normalize_target (codes "/a%4") ≡ err bad_percent_encoding)
    × (normalize_target (codes "/a%5cb") ≡ err backslash)
    × (normalize_target (codes "app") ≡ err not_absolute)
    × (normalize_target (codes "/a%00b") ≡ err nul_byte)
unfolding normalize_target normalize_path percent_decode collapse_dot_segments collapse_loop
    collapse_step render_path split_on join split_once contains str_eq strip_prefix ends_with
    from_utf8
runs = (refl, refl, refl, refl, refl, refl, refl, refl)

normalize_target-IsCanonical_example : (uri.path ≡ codes "*") ⊎ IsCanonical uri.path
normalize_target-IsCanonical_example =
    normalize_target-IsCanonical (codes "/a%20b/./c/..//d/?q=%20") uri runs.0

collapse_dot_segments_refuses_example :
    (collapse_dot_segments (codes "/a/../../b") ≡ err path_traversal)
    ↔ Climbs 0 (split_on b'/' (codes "/a/../../b"))
collapse_dot_segments_refuses_example = collapse_dot_segments_refuses (codes "/a/../../b")

percent_decode-percent_encode_example :
    percent_decode (percent_encode (codes "/a b%/c")) ≡ ok (codes "/a b%/c")
percent_decode-percent_encode_example =
    percent_decode-percent_encode (codes "/a b%/c") (omega arith)

tidy : IsCanonical (codes "/a/b/")
tidy = record {
  segments = codes "a" ∷ codes "b" ∷ [];
  trailing = true;
  reads = unfold join in refl;
  bare_root = λ e. cc;
  safe =
      unfold contains str_eq in
      (((refl, refl), (refl, refl, refl)), (((refl, refl), (refl, refl, refl)), tt));
}
