-- ===== src/Catalina/Mapper.antt =====
-- crates/tomcatrs-catalina/src/mapper.rs: routing of a host header and a URI to a virtual host, a
-- context, a servlet and the split of the path. Containers are records of what the mapper reads
-- of them; the concurrent maps of the engine and of a host are lists in the order of iteration.
pub mod Patterns
pub mod Best
pub mod Longest
pub mod Paths
use michael.Prelude.{
  ℕ, zero, suc, ◌+◌, Bool, true, false, not, ◌&&◌, ◌||◌, List, [], ◌∷◌, ◌++◌, Option, none, some,
  Result, ok, err, ◌>>=◌, if◌then◌else◌, ltb, ◌==◌, length, get_elem?, drop, any, is_empty,
}
use michael.Prelude.Text.{
  Bytes, codes, str_eq, strip_prefix, strip_suffix, starts_with, after_last, split_once,
  to_ascii_lowercase, eq_ignore_ascii_case, split_on, within,
}
use michael.Prelude.Text.Trim.{trim}

pub data UrlPattern : Type 0 where
  exact prefix extension : Bytes → UrlPattern
  default : UrlPattern

unfoldable pub parse : Bytes → UrlPattern
parse raw =
    if str_eq raw (codes "/") || is_empty raw
    then default
    else if str_eq raw (codes "/*")
    then prefix []
    else elim (strip_suffix raw (codes "/*")) [
      | some p ↦ prefix p
      | none ↦ elim (strip_prefix raw (codes "*.")) [ some ext ↦ extension ext | none ↦ exact raw ]
    ]

-- `path.as_bytes().get(i) == Some(&b'/')`
abbrev pub slash_at : Bytes → ℕ → Bool
slash_at path i = elim (get_elem? path i) [ none ↦ false | some b ↦ b == b'/' ]

-- `path == base || (path.starts_with(base) && path.as_bytes().get(base.len()) == Some(&b'/'))`
unfoldable pub is_under : Bytes → Bytes → Bool
is_under base path = str_eq path base || (starts_with path base && slash_at path (length base))

-- `path.rsplit('/').next()`: the whole path where it has no `/`.
unfoldable pub last_segment : Bytes → Bytes
last_segment path = elim (after_last b'/' path) [ none ↦ path | some s ↦ s ]

unfoldable pub matches : UrlPattern → Bytes → Bool
matches (exact p) path = str_eq p path
matches (prefix p) path = if is_empty p then true else is_under p path
matches (extension ext) path = elim (after_last b'.' (last_segment path)) [
  | none ↦ false
  | some suffix ↦ str_eq suffix ext
]
matches default path = true

abbrev pub specificity : UrlPattern → ℕ
specificity (exact p) = 3
specificity (prefix p) = 2
specificity (extension ext) = 1
specificity default = 0

abbrev pub pattern_len : UrlPattern → ℕ
pattern_len (exact p) = length p
pattern_len (prefix p) = length p
pattern_len (extension ext) = length ext
pattern_len default = 0

abbrev pub Score : Type 0
Score = ℕ × ℕ

unfoldable pub match_score : UrlPattern → Bytes → Option Score
match_score pattern path =
    if not (matches pattern path) then none else some (specificity pattern, pattern_len pattern)

unfoldable pub as_pattern_string : UrlPattern → Bytes
as_pattern_string (exact p) = p
as_pattern_string (prefix p) = if is_empty p then codes "/*" else p ++ codes "/*"
as_pattern_string (extension ext) = codes "*." ++ ext
as_pattern_string default = codes "/"

pub record Wrapper : Type 0 where
  pub name : Bytes
  pub mappings : List UrlPattern

pub record Context : Type 0 where
  pub path : Bytes
  pub wrappers : List Wrapper

pub record Host : Type 0 where
  pub name : Bytes
  pub aliases : List Bytes
  pub contexts : List Context

-- The hosts, each under its key.
pub record Engine : Type 0 where
  pub hosts : List (Bytes × Host)
  pub default_host : Bytes

pub record MappingResult : Type 0 where
  pub host : Host
  pub context : Context
  pub wrapper : Wrapper
  pub servlet_path : Bytes
  pub path_info : Option Bytes
  pub matched_pattern : UrlPattern

-- What stands for a Rust panic: the slice of a `str` out of bounds or inside a character.
pub data Panic : Type 0 where
  slice_index : Panic

-- `host_header.split(':').next().unwrap_or(host_header)`
abbrev pub first_piece : List Bytes → Bytes → Bytes
first_piece [] s = s
first_piece (p ∷ ps) s = p

unfoldable pub normalize_host : Bytes → Bytes
normalize_host host_header =
    to_ascii_lowercase (trim (first_piece (split_on b':' host_header) host_header))

abbrev pub is_root : Bytes → Bool
is_root context_path = is_empty context_path || str_eq context_path (codes "/")

unfoldable pub uri_under_context : Bytes → Bytes → Bool
uri_under_context context_path uri =
    if is_root context_path then true else is_under context_path uri

unfoldable pub strip_context_path : Bytes → Bytes → Bytes
strip_context_path context_path uri =
    let rel =
      if is_root context_path
      then uri
      else elim (strip_prefix uri context_path) [ none ↦ uri | some rest ↦ rest ] in
    if is_empty rel then codes "/" else rel

-- `&s[n..]`
abbrev pub is_char_start : Bytes → Bool
is_char_start [] = true
is_char_start (b ∷ s) = not (within 0x80 0xbf b)

unfoldable pub slice_from : ℕ → Bytes → Result Panic Bytes
slice_from n s =
    if ltb (length s) n
    then err slice_index
    else if is_char_start (drop n s)
    then ok (drop n s)
    else err slice_index

abbrev pub non_empty : Bytes → Option Bytes
non_empty [] = none
non_empty (b ∷ s) = some (b ∷ s)

unfoldable pub split_servlet_path : UrlPattern → Bytes → Result Panic (Bytes × Option Bytes)
split_servlet_path (exact p) relative = ok (relative, none)
split_servlet_path (extension ext) relative = ok (relative, none)
split_servlet_path (prefix p) relative =
    if is_empty p
    then ok ([], non_empty relative)
    else (slice_from (length p) relative >>= λ rest. ok (p, non_empty rest))
split_servlet_path default relative = ok ([], some relative)

-- `self.hosts.get(&name.to_ascii_lowercase())`
find_host : Bytes → List (Bytes × Host) → Option Host
find_host key [] = none
find_host key ((k, h) ∷ hosts) =
    let rest = find_host key hosts in if str_eq k key then some h else rest

unfoldable pub engine_host : Engine → Bytes → Option Host
unfolding find_host
engine_host engine name = find_host (to_ascii_lowercase name) engine.hosts

unfoldable pub find_alias : Bytes → List (Bytes × Host) → Option Host
find_alias name [] = none
find_alias name ((k, h) ∷ hosts) =
    let rest = find_alias name hosts in
    if any (λ a. eq_ignore_ascii_case a name) h.aliases then some h else rest

unfoldable pub resolve_host : Engine → Bytes → Option Host
resolve_host engine host_header =
    let name = normalize_host host_header in
    elim (engine_host engine name) [
      | some h ↦ some h
      | none ↦ elim (find_alias name engine.hosts) [
        | some h ↦ some h
        | none ↦ engine_host engine engine.default_host
      ]
    ]

-- The loop over the contexts, with its variables `best` and `best_len`.
abbrev pub replaces_context : Option Context → ℕ → Context → Bool
replaces_context none best_len ctx = true
replaces_context (some b) best_len ctx = ltb best_len (length ctx.path)

unfoldable pub best_context : Bytes → Option Context → ℕ → List Context → Option Context
best_context uri best best_len [] = best
best_context uri best best_len (ctx ∷ ctxs) =
    if uri_under_context ctx.path uri && replaces_context best best_len ctx
    then best_context uri (some ctx) (length ctx.path) ctxs
    else best_context uri best best_len ctxs

unfoldable pub resolve_context : Host → Bytes → Option Context
resolve_context host uri = best_context uri none 0 host.contexts

-- `score > best_score` on pairs: lexicographic.
abbrev pub score_gt : Score → Score → Bool
score_gt (a, b) (c, d) = ltb c a || (a == c && ltb d b)

abbrev pub Pick : Type 0
Pick = Option (Wrapper × UrlPattern × Score)

abbrev pub consider : Wrapper → UrlPattern → Option Score → Pick → Pick
consider w p none best = best
consider w p (some score) none = some (w, p, score)
consider w p (some score) (some (w', p', best_score)) =
    if score_gt score best_score then some (w, p, score) else some (w', p', best_score)

unfoldable pub best_mapping : Bytes → Wrapper → Pick → List UrlPattern → Pick
best_mapping path w best [] = best
best_mapping path w best (p ∷ ps) = best_mapping path w (consider w p (match_score p path) best) ps

unfoldable pub best_wrapper : Bytes → Pick → List Wrapper → Pick
best_wrapper path best [] = best
best_wrapper path best (w ∷ ws) = best_wrapper path (best_mapping path w best w.mappings) ws

unfoldable pub resolve_wrapper : Context → Bytes → Option (Wrapper × UrlPattern)
resolve_wrapper context relative_path = elim (best_wrapper relative_path none context.wrappers) [
  | none ↦ none
  | some (w, p, score) ↦ some (w, p)
]

-- `Mapper::map`: `ok none` for its `None`.
unfoldable pub route : Engine → Bytes → Bytes → Result Panic (Option MappingResult)
route engine host_header uri = elim (resolve_host engine host_header) [
  | none ↦ ok none
  | some host ↦ elim (resolve_context host uri) [
    | none ↦ ok none
    | some context ↦
        let relative = strip_context_path context.path uri in
        elim (resolve_wrapper context relative) [
          | none ↦ ok none
          | some (wrapper, pattern) ↦ split_servlet_path pattern relative >>= λ split. ok (
              some (record {
                host = host;
                context = context;
                wrapper = wrapper;
                servlet_path = split.0;
                path_info = split.1;
                matched_pattern = pattern;
              }))
        ]
  ]
]
