-- ===== src/Coyote/Hpack/Encoder/Literals.antt =====
-- A literal is read back, and how it begins.
use michael.Prelude.{
  ℕ, ◌+◌, ◌*◌, ◌^◌, ◌≤◌, ◌<◌, ◌∷◌, ◌++◌, Option, some, ok, ◌≡◌, ◌≢◌, inl, inr, refl, arith, length,
  Option-cases, length-append, drop-append_self, append_assoc,
}
use michael.Prelude.Bits.{usize_max}
use michael.Prelude.Text.{Bytes}
use michael.Coyote.Hpack.Table.{Field, DynamicTable, resolve_index, find_name}
use michael.Coyote.Hpack.Table.Index.{resolve_index-find_name}
use michael.Coyote.Hpack.Integer.{encode_integer, set_flags}
use michael.Coyote.Hpack.Integer.RoundTrip.{decode_integer-encode_integer}
use michael.Coyote.Hpack.Decoder.{decode_literal}
use michael.Coyote.Hpack.Encoder.{encode_string, name_prefix, spelled_name, encode_literal}
use michael.Coyote.Hpack.Encoder.Strings.{
  IsCodable, encode_integer-first, length-set_flags, decode_string-encode_string,
}

resolve-zero : (t : DynamicTable) (f : Field) → resolve_index 0 t ≢ ok f
unfolding resolve_index
resolve-zero t f h = cc

-- A literal is read back, with the name from the table or spelled out.
pub decode_literal-encode_literal :
    (t : DynamicTable) (name value rest : Bytes) (p flag : ℕ)
    → IsCodable name
    → IsCodable value
    → ((i : ℕ) → find_name name t ≡ some i → i ≤ usize_max)
    → p ≤ 8
    → decode_literal t (encode_literal (name, value) (find_name name t) p (flag * 2 ^ p) ++ rest) p
      ≡ ok
          ((name, value), length (encode_literal (name, value) (find_name name t) p (flag * 2 ^ p)))
unfolding decode_literal encode_literal
decode_literal-encode_literal t name value rest p flag cn cv bound l =
    elim (Option-cases (find_name name t)) [
      | inl e ↦
          let head = set_flags (flag * 2 ^ p) (encode_integer 0 p) in
          let n = encode_string name in
          let v = encode_string value in
          ground (
            arith,
            append_assoc head (n ++ v) rest,
            append_assoc n v rest,
            decode_integer-encode_integer 0 p flag (n ++ (v ++ rest)),
            length-set_flags (flag * 2 ^ p) (encode_integer 0 p),
            drop-append_self (length head) head (n ++ (v ++ rest)) refl,
            decode_string-encode_string name (v ++ rest) cn,
            append_assoc head n (v ++ rest),
            length-append head n,
            drop-append_self (length head + length n) (head ++ n) (v ++ rest),
            decode_string-encode_string value rest cv,
            length-append head (n ++ v),
            length-append n v,
          )
      | inr (i, e) ↦
          let head = set_flags (flag * 2 ^ p) (encode_integer i p) in
          let v = encode_string value in
          let (w, found) = resolve_index-find_name t name i e in
          ground (
            arith,
            append_assoc head v rest,
            decode_integer-encode_integer i p flag (v ++ rest),
            bound i e,
            resolve-zero t (name, w),
            length-set_flags (flag * 2 ^ p) (encode_integer i p),
            drop-append_self (length head) head (v ++ rest) refl,
            decode_string-encode_string value rest cv,
            length-append head v,
          )
    ]

-- A literal begins with the prefix under its flags.
pub encode_literal-first :
    (name value : Bytes) (idx : Option ℕ) (p flag : ℕ)
    → p ≤ 8
    → (b : ℕ) × (tail : Bytes) × (encode_literal (name, value) idx p (flag * 2 ^ p)
        ≡ (b + flag * 2 ^ p) ∷ tail)
      × (b < 2 ^ p)
unfolding encode_literal
encode_literal-first name value idx p flag l =
    let (b, tail, shape, small, _) = encode_integer-first (name_prefix idx) p flag l in
    (b, tail ++ (spelled_name name idx ++ encode_string value), rw shape refl, small)
