-- ===== src/Security/AccessControl.antt =====
-- crates/tomcatrs-security/src/access_control.rs: the second normalizer of request paths, the
-- protected directories, and the request limits.
pub mod Safety
pub mod Limits
use michael.Prelude.{
  ℕ, ◌+◌, ◌*◌, Bool, true, false, not, ◌&&◌, ◌||◌, List, [], ◌∷◌, ◌++◌, Option, none, some, Result,
  ok, err, ◌>>=◌, ◌>>◌, guard, ok_or, if◌then◌else◌, ltb, ◌==◌, any, reverse,
}
use michael.Prelude.Text.{
  Bytes, codes, str_eq, contains, split_on, join, starts_with, to_ascii_lowercase, from_utf8,
}
use michael.Coyote.Normalize.{hex_val, is_skip, is_up}

-- The reasons for `Error::Rejected`.
pub data Rejection : Type 0 where
  encoded_separator encoded_nul nul_byte backslash not_utf8 not_absolute : Rejection
  escapes_root traversal_left protected_directory : Rejection
  too_many_headers headers_too_large uri_too_long body_too_large : Rejection

-- Decodes once; a `%` without two hex digits behind it stays. `to_digit(16)` of a byte as a `char`
-- is `hex_val`.
unfoldable pub decode_escape : ℕ → ℕ → Option ℕ
decode_escape a b = elim (hex_val a) [
  | none ↦ none
  | some h ↦ elim (hex_val b) [ none ↦ none | some l ↦ some (h * 16 + l) ]
]

unfoldable pub percent_decode : Bytes → Bytes
percent_decode [] = []
percent_decode (c ∷ []) = c ∷ []
percent_decode (c ∷ a ∷ []) = c ∷ percent_decode (a ∷ [])
percent_decode (c ∷ a ∷ b ∷ s) =
    let skip = percent_decode s in
    let rest = percent_decode (a ∷ b ∷ s) in
    if c == b'%'
    then elim (decode_escape a b) [ none ↦ c ∷ rest | some byte ↦ byte ∷ skip ]
    else c ∷ rest

abbrev pub is_path_traversal : Bytes → Bool
is_path_traversal path = any (λ segment. str_eq segment (codes "..")) (split_on b'/' path)

abbrev pub targets : Bytes → Bytes → Bool
targets lower protected = str_eq lower protected || starts_with lower (protected ++ codes "/")

unfoldable pub is_protected_path : Bytes → Bool
is_protected_path path =
    let lower = to_ascii_lowercase path in
    targets lower (codes "/web-inf") || targets lower (codes "/meta-inf")

-- The loop of `collapse_dot_segments`, with the top of the stack first; `stack.pop()?` is the
-- match on the stack.
unfoldable pub collapse_loop : List Bytes → List Bytes → Option (List Bytes)
collapse_loop stack [] = some stack
collapse_loop stack (seg ∷ segs) =
    if is_skip seg
    then collapse_loop stack segs
    else if is_up seg
    then elim stack [ [] ↦ none | top ∷ below ↦ collapse_loop below segs ]
    else collapse_loop (seg ∷ stack) segs

unfoldable pub collapse_dot_segments : Bytes → Option Bytes
collapse_dot_segments path = elim (collapse_loop [] (split_on b'/' path)) [
  | none ↦ none
  | some stack ↦ some (b'/' ∷ join b'/' (reverse stack))
]

-- `uri.split(['?', '#']).next()`
unfoldable pub before_query : Bytes → Bytes
before_query [] = []
before_query (c ∷ s) = if c == b'?' || c == b'#' then [] else c ∷ before_query s

-- `s.contains(p)` for a text `p` that is not empty.
unfoldable pub contains_str : Bytes → Bytes → Bool
contains_str [] p = false
contains_str (c ∷ s) p = starts_with (c ∷ s) p || contains_str s p

-- From the decoded bytes on.
unfoldable pub validate_decoded : Bytes → Result Rejection Bytes
validate_decoded decoded_bytes = do
  guard (not (contains decoded_bytes 0)) nul_byte
  guard (not (contains decoded_bytes b'\\')) backslash
  decoded ← ok_or (from_utf8 decoded_bytes) not_utf8
  guard (starts_with decoded (codes "/")) not_absolute
  normalized ← ok_or (collapse_dot_segments decoded) escapes_root
  guard (not (is_path_traversal normalized)) traversal_left
  guard (not (is_protected_path normalized)) protected_directory
  ok normalized

unfoldable pub normalize_and_validate_uri : Bytes → Result Rejection Bytes
normalize_and_validate_uri uri = do
  let raw_path = before_query uri
  let lower_raw = to_ascii_lowercase raw_path
  guard (not (contains_str lower_raw (codes "%2f") || contains_str lower_raw (codes "%5c")))
      encoded_separator
  guard (not (contains_str lower_raw (codes "%00"))) encoded_nul
  validate_decoded (percent_decode raw_path)

-- The counts and sizes of the configuration; its two durations are not read here.
pub record RequestLimits : Type 0 where
  pub max_header_count : ℕ
  pub max_header_size : ℕ
  pub max_parameter_count : ℕ
  pub max_post_size : ℕ
  pub max_part_count : ℕ
  pub max_uri_len : ℕ

abbrev pub over : Option ℕ → ℕ → Bool
over none limit = false
over (some len) limit = ltb limit len

unfoldable pub enforce_limits : RequestLimits → ℕ → ℕ → ℕ → Option ℕ → Result Rejection (Unit {0})
enforce_limits limits header_count header_bytes uri_len content_length = do
  guard (not (ltb limits.max_header_count header_count)) too_many_headers
  guard (not (ltb limits.max_header_size header_bytes)) headers_too_large
  guard (not (ltb limits.max_uri_len uri_len)) uri_too_long
  guard (not (over content_length limits.max_post_size)) body_too_large
  ok tt
