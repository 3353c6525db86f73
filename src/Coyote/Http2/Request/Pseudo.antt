-- ===== src/Coyote/Http2/Request/Pseudo.antt =====
-- The pseudo-headers of a block: the loop over its fields keeps the last value of each.
use michael.Prelude.{
  Bool, true, false, [], ◌∷◌, Option, none, some, ok, ◌≡◌, refl, ap, ◌∙◌, arith, inl, inr,
  if◌then◌else◌, bind-eq-ok, Option-cases,
}
use michael.Prelude.Text.{Bytes, codes, str_eq, strip_prefix}
use michael.Prelude.Text.Laws.{str_eq_iff, strip_prefix-eq_some}
use michael.Coyote.Http1.{Headers}
use michael.Coyote.Http2.Request.{Fields, set_pseudo, add_field, add_fields}

-- The value of the last field of a name, whatever it is the name of.
abbrev pub or_else : Option Bytes → Option Bytes → Option Bytes
or_else none o = o
or_else (some value) o = some value

unfoldable pub last_value : Bytes → Headers → Option Bytes
last_value name [] = none
last_value name ((key, value) ∷ fields) =
    or_else (last_value name fields) (if str_eq key name then some value else none)

name-pseudo :
    (name pseudo text : Bytes)
    → strip_prefix name (codes ":") ≡ some pseudo
    → str_eq name (b':' ∷ text) ≡ str_eq pseudo text
unfolding str_eq
name-pseudo name pseudo text h = rw (strip_prefix-eq_some name (codes ":") pseudo h) refl

name-regular :
    (name text : Bytes) → strip_prefix name (codes ":") ≡ none → str_eq name (b':' ∷ text) ≡ false
unfolding str_eq strip_prefix
name-regular [] text h = refl
name-regular (x ∷ name) text h = ground arith

apart : (pseudo a b : Bytes) → str_eq a b ≡ false → str_eq pseudo a ≡ true → str_eq pseudo b ≡ false
apart pseudo a b h e = rw ((str_eq_iff pseudo a).0 e) h

-- What a field does to the pseudo-headers.
record Sets (f f' : Fields) (name value : Bytes) : Type 0 where
  method : f'.method ≡ (if str_eq name (codes ":method") then some value else f.method)
  path : f'.path ≡ (if str_eq name (codes ":path") then some value else f.path)
  authority : f'.authority ≡ (if str_eq name (codes ":authority") then some value else f.authority)

set_pseudo-Sets :
    (f f' : Fields) (name pseudo value : Bytes)
    → strip_prefix name (codes ":") ≡ some pseudo
    → set_pseudo f pseudo value ≡ ok f'
    → Sets f f' name value
unfolding set_pseudo
set_pseudo-Sets f f' name pseudo value p h =
    let method = codes "method" in
    let path = codes "path" in
    let scheme = codes "scheme" in
    let authority = codes "authority" in
    ground (
      arith,
      name-pseudo name pseudo method p,
      name-pseudo name pseudo path p,
      name-pseudo name pseudo authority p,
      apart pseudo method path (unfold str_eq in refl),
      apart pseudo method authority (unfold str_eq in refl),
      apart pseudo path authority (unfold str_eq in refl),
      apart pseudo scheme authority (unfold str_eq in refl),
    )

add_field-Sets :
    (f f' : Fields) (name value : Bytes) → add_field f name value ≡ ok f' → Sets f f' name value
unfolding add_field
add_field-Sets f f' name value h = elim (Option-cases (strip_prefix name (codes ":"))) [
  | inl p ↦ ground (
    arith,
    name-regular name (codes "method") p,
    name-regular name (codes "path") p,
    name-regular name (codes "authority") p,
  )
  | inr (pseudo, p) ↦ ground (arith, set_pseudo-Sets f f' name pseudo value p)
]

pub or_else-none : (o : Option Bytes) → or_else o none ≡ o
or_else-none none = refl
or_else-none (some value) = refl

or_else_step :
    (o : Option Bytes) (t : Bool) (value : Bytes) (m : Option Bytes)
    → or_else o (if t then some value else m)
      ≡ or_else (or_else o (if t then some value else none)) m
or_else_step none true value m = refl
or_else_step none false value m = refl
or_else_step (some v) t value m = refl

-- What all fields do to them.
pub record Gathers (f f' : Fields) (decoded : Headers) : Type 0 where
  pub method : f'.method ≡ or_else (last_value (codes ":method") decoded) f.method
  pub path : f'.path ≡ or_else (last_value (codes ":path") decoded) f.path
  pub authority : f'.authority ≡ or_else (last_value (codes ":authority") decoded) f.authority

pub add_fields-Gathers :
    (decoded : Headers) (f f' : Fields) → add_fields f decoded ≡ ok f' → Gathers f f' decoded
unfolding add_fields last_value
add_fields-Gathers [] f f' h = ground arith
add_fields-Gathers ((name, value) ∷ decoded) f f' h =
    let (g, p, q) = bind-eq-ok (add_field f name value) _ h in
    let s = add_field-Sets f g name value p in
    let rest = add_fields-Gathers decoded g f' q in
    let step = λ (text : Bytes) (m : Option Bytes).
      or_else_step (last_value text decoded) (str_eq name text) value m in
    record {
      method =
          rest.method
          ∙ ap (or_else (last_value (codes ":method") decoded)) s.method
          ∙ step (codes ":method") f.method;
      path =
          rest.path
          ∙ ap (or_else (last_value (codes ":path") decoded)) s.path
          ∙ step (codes ":path") f.path;
      authority =
          rest.authority
          ∙ ap (or_else (last_value (codes ":authority") decoded)) s.authority
          ∙ step (codes ":authority") f.authority;
    }
