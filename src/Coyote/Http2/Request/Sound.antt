-- ===== src/Coyote/Http2/Request/Sound.antt =====
-- What the request of a stream holds: the headers of the block, none of which a request must not
-- have, and a target in normal form.
use michael.Prelude.{
  Bool, true, false, not, [], ◌∷◌, ◌++◌, Option, none, some, ok, ◌≡◌, refl, sym, ap, ◌∙◌,
  if◌then◌else◌, ◌⊎◌, inl, inr, arith, any, retain, All, append-nil, append_assoc, bind-eq-ok,
  guard-eq-ok, ok_or, Bool-cases, Option-cases, Result-cases, is_empty,
}
use michael.Prelude.Text.{Bytes, codes, str_eq, is_some, strip_prefix}
use michael.Coyote.Normalize.{NormalizedUri, normalize_target}
use michael.Coyote.Normalize.Safety.{IsCanonical, normalize_target-IsCanonical}
use michael.Coyote.Http1.{Headers}
use michael.Coyote.Http1.Reading.{Request}
use michael.Coyote.Http2.Request.Pseudo.{last_value, or_else-none, add_fields-Gathers}
use michael.Coyote.Http2.Request.{
  Fields, no_fields, is_ascii_uppercase, is_connection_specific, set_pseudo, add_field, add_fields,
  add_host, build_request, is_host, malformed,
}

abbrev pub is_pseudo : Bytes × Bytes → Bool
is_pseudo (name, value) = is_some (strip_prefix name (codes ":"))

abbrev pub is_regular : Bytes × Bytes → Bool
is_regular field = not (is_pseudo field)

-- A header that HTTP/2 allows: no pseudo-header, in lower case, and not about the connection.
abbrev pub IsAllowed : Bytes × Bytes → Type 0
IsAllowed (name, value) =
    (is_pseudo (name, value) ≡ false)
    × (any is_ascii_uppercase name ≡ false)
    × (is_connection_specific name ≡ false)

-- No pseudo-header stands behind a header, where one has been seen or not.
abbrev pub PseudoFirst : Bool → Headers → Type 0
PseudoFirst seen [] = Unit {0}
PseudoFirst true (field ∷ fields) = (is_pseudo field ≡ false) × PseudoFirst true fields
PseudoFirst false (field ∷ fields) = PseudoFirst (is_regular field) fields

set_pseudo_keeps :
    (f f' : Fields) (pseudo value : Bytes)
    → set_pseudo f pseudo value ≡ ok f'
    → (f'.headers ≡ f.headers) × (f'.seen_regular ≡ f.seen_regular)
unfolding set_pseudo
set_pseudo_keeps f f' pseudo value h = ground arith

-- What one field does to the variables of the loop.
add_field_cases :
    (f f' : Fields) (name value : Bytes)
    → add_field f name value ≡ ok f'
    → ((is_pseudo (name, value) ≡ true)
        × (f.seen_regular ≡ false)
        × (f'.headers ≡ f.headers)
        × (f'.seen_regular ≡ false))
      ⊎ (IsAllowed (name, value)
          × (f'.headers ≡ f.headers ++ ((name, value) ∷ []))
          × (f'.seen_regular ≡ true))
unfolding add_field
add_field_cases f f' name value h = elim (Option-cases (strip_prefix name (codes ":"))) [
  | inl p ↦ inr (ground arith, ground arith, ground arith)
  | inr (pseudo, p) ↦ inl (
    ground arith,
    ground arith,
    ground (arith, set_pseudo_keeps f f' pseudo value),
    ground (arith, set_pseudo_keeps f f' pseudo value),
  )
]

-- What the loop makes of the headers.
abbrev Adds : Fields → Headers → Fields → Type 0
Adds f decoded f' =
    (f'.headers ≡ f.headers ++ retain is_regular decoded)
    × All IsAllowed (retain is_regular decoded)
    × PseudoFirst f.seen_regular decoded

PseudoFirst-cons :
    (seen : Bool) (field : Bytes × Bytes) (fields : Headers)
    → is_pseudo field ≡ false
    → PseudoFirst true fields
    → PseudoFirst seen (field ∷ fields)
PseudoFirst-cons true field fields h p = (h, p)
PseudoFirst-cons false field fields h p = rw h p

add_fields-Adds :
    (decoded : Headers) (f f' : Fields) → add_fields f decoded ≡ ok f' → Adds f decoded f'
unfolding add_fields retain
add_fields-Adds [] f f' h = (ground (arith, append-nil f.headers), tt, tt)
add_fields-Adds ((name, value) ∷ decoded) f f' h =
    let (g, p, q) = bind-eq-ok (add_field f name value) _ h in
    let (hs, ok_all, first) = add_fields-Adds decoded g f' q in
    elim (add_field_cases f g name value p) [
      | inl (is, unseen, same, still) ↦
          (rw is (ground arith), rw is ok_all, rw (unseen, is) (rw still at first))
      | inr (allowed, more, seen) ↦ (
        rw allowed.0 (
            hs ∙ rw more (append_assoc f.headers ((name, value) ∷ []) (retain is_regular decoded))),
        rw allowed.0 (allowed, ok_all),
        PseudoFirst-cons f.seen_regular (name, value) decoded allowed.0 (rw seen at first),
      )
    ]

add_host-IsAllowed :
    (authority : Option Bytes) (headers : Headers)
    → All IsAllowed headers
    → All IsAllowed (add_host authority headers)
unfolding add_host strip_prefix any is_connection_specific str_eq
add_host-IsAllowed none headers h = h
add_host-IsAllowed (some auth) headers h = elim (Bool-cases (any is_host headers)) [
  | inl there ↦ rw there h
  | inr no_host ↦ rw no_host ((refl, refl, refl), h)
]

-- The authority as a header.
abbrev pub host_of : Option Bytes → Headers
host_of none = []
host_of (some auth) = (codes "host", auth) ∷ []

add_host_lem :
    (authority : Option Bytes) (headers : Headers)
    → add_host authority headers
      ≡ (if any is_host headers then [] else host_of authority) ++ headers
unfolding add_host
add_host_lem none headers = ground arith
add_host_lem (some auth) headers = ground arith

ok_or-eq-ok : (o : Option Bytes) (s : Bytes) → ok_or o malformed ≡ ok s → o ≡ some s
ok_or-eq-ok none s h = cc
ok_or-eq-ok (some t) s h = cc

-- What the fields of a block make.
build_request_parts :
    (decoded : Headers) (body : Bytes) (request : Request)
    → build_request decoded body ≡ ok request
    → (f : Fields) × (uri : NormalizedUri) × (add_fields no_fields decoded ≡ ok f)
      × (normalize_target request.uri ≡ ok uri)
      × (f.method ≡ some request.method)
      × (f.path ≡ some request.uri)
      × (request.headers ≡ add_host f.authority f.headers)
      × (request.body ≡ body)
      × (request.path ≡ uri.path)
unfolding build_request
build_request_parts decoded body request h =
    let (f, p, q) = bind-eq-ok (add_fields no_fields decoded) _ h in
    let (method, m, q1) = bind-eq-ok (ok_or f.method malformed) _ q in
    let (raw_path, r, q2) = bind-eq-ok (ok_or f.path malformed) _ q1 in
    let (t, q3) = guard-eq-ok (not (is_empty raw_path)) malformed _ q2 in
    elim (Result-cases (normalize_target raw_path)) [
      | inl (uri, u) ↦
          let e = rw u at q3 in
          let named = ok_or-eq-ok f.method method m in
          let aimed = ok_or-eq-ok f.path raw_path r in
          (
            f,
            uri,
            p,
            ground arith,
            ground arith,
            ground arith,
            ground arith,
            ground arith,
            ground arith,
          )
      | inr (x, u) ↦ cc (rw u at q3)
    ]

-- A block of which a request is made has its pseudo-headers first. The method and the URI of the
-- request are the values of the last `:method` and `:path`. The headers are the other fields, in
-- their order, behind a host that is the value of the last `:authority` where they have none and
-- there is one; none of them is a pseudo-header, has a letter in upper case, or is about the
-- connection. The body is the one that was received, and the path is `*` or in normal form.
pub build_request-IsClean :
    (decoded : Headers) (body : Bytes) (request : Request)
    → build_request decoded body ≡ ok request
    → PseudoFirst false decoded
      × (last_value (codes ":method") decoded ≡ some request.method)
      × (last_value (codes ":path") decoded ≡ some request.uri)
      × (request.headers
          ≡ (if any is_host (retain is_regular decoded)
              then []
              else host_of (last_value (codes ":authority") decoded))
            ++ retain is_regular decoded)
      × All IsAllowed request.headers
      × (request.body ≡ body)
      × ((request.path ≡ codes "*") ⊎ IsCanonical request.path)
build_request-IsClean decoded body request h =
    let (f, uri, p, target, named, aimed, hs, same, path) =
      build_request_parts decoded body request h in
    let (adds, allowed, first) = add_fields-Adds decoded no_fields f p in
    let gathered = add_fields-Gathers decoded no_fields f p in
    let headers : request.headers ≡ add_host f.authority (retain is_regular decoded) =
      hs ∙ ap (add_host f.authority) adds in
    (
      first,
      sym (gathered.method ∙ or_else-none (last_value (codes ":method") decoded)) ∙ named,
      sym (gathered.path ∙ or_else-none (last_value (codes ":path") decoded)) ∙ aimed,
      headers
          ∙ ap (λ o. add_host o (retain is_regular decoded))
              (gathered.authority ∙ or_else-none (last_value (codes ":authority") decoded))
          ∙ add_host_lem (last_value (codes ":authority") decoded) (retain is_regular decoded),
      rw headers (add_host-IsAllowed f.authority (retain is_regular decoded) allowed),
      same,
      rw path (normalize_target-IsCanonical request.uri uri target),
    )
