-- ===== src/Coyote/Hpack/Encoder/Block.antt =====
-- The decoder reads a block back and ends with the encoder's table.
use michael.Prelude.{
  ℕ, suc, ◌+◌, ◌*◌, ◌^◌, ◌/◌, ◌%◌, ◌≤◌, ◌<◌, Bool, false, ◌∷◌, ◌++◌, none, some, ok, ◌≡◌, inl, inr,
  refl, sym, ap, ◌∙◌, arith, length, bit_and, Option-cases, drop-append_self,
}
use michael.Prelude.Bits.{usize_max, agree_below, agree_below→eq, bit_and_80}
use michael.Prelude.Text.{Bytes}
use michael.Coyote.Hpack.Table.{
  Field, DynamicTable, entry_size, insert, resolve_index, find_full, find_name, find_in_tables,
  same_field, same_name,
}
use michael.Coyote.Hpack.Table.Index.{resolve_index-find_full}
use michael.Coyote.Hpack.Integer.{encode_integer, decode_integer, set_flags}
use michael.Coyote.Hpack.Integer.RoundTrip.{decode_integer-encode_integer}
use michael.Coyote.Hpack.Decoder.{
  HpackDecoder, decode_literal, Progress, push_field, decode_one, decode_loop,
}
use michael.Coyote.Hpack.Encoder.{
  HeaderHint, index, without_index, never_index, encode_literal, encode_new, encode_field,
}
use michael.Coyote.Hpack.Encoder.Strings.{IsCodable, encode_integer-first, length-set_flags}
use michael.Coyote.Hpack.Encoder.Literals.{decode_literal-encode_literal, encode_literal-first}

-- Single bits of a byte.
bit_40 : (n : ℕ) → n < 256 → bit_and n 0x40 ≡ n / 64 % 2 * 64
unfolding agree_below
bit_40 = agree_below→eq _ _ 256 refl

bit_20 : (n : ℕ) → n < 256 → bit_and n 0x20 ≡ n / 32 % 2 * 32
unfolding agree_below
bit_20 = agree_below→eq _ _ 256 refl

-- The variables of the decoder's loop behind a field.
abbrev pub pushed : Progress → DynamicTable → Field → Progress
pushed p dynamic field = record {
  dynamic = dynamic;
  allow_size_update = false;
  total_size = p.total_size + entry_size field;
  headers = field ∷ p.headers;
}

abbrev pub HasRoom : HpackDecoder → Progress → Field → Type 0
HasRoom d p field = p.total_size + entry_size field ≤ d.max_header_list_size

push_field-ok :
    (d : HpackDecoder) (p : Progress) (t : DynamicTable) (field : Field)
    → HasRoom d p field
    → push_field d p t field ≡ ok (pushed p t field)
push_field-ok d p t field h = ground arith

-- What one round does with each representation.
decode_one-indexed :
    (d : HpackDecoder) (p : Progress) (b i n : ℕ) (bytes : Bytes) (field : Field)
    → b < 128
    → decode_integer ((b + 1 * 2 ^ 7) ∷ bytes) 7 ≡ ok (i, n)
    → resolve_index i p.dynamic ≡ ok field
    → HasRoom d p field
    → decode_one d p (b + 1 * 2 ^ 7) bytes ≡ ok (pushed p p.dynamic field, n)
unfolding decode_one
decode_one-indexed d p b i n bytes field small di r room =
    ground (arith, bit_and_80 (b + 1 * 2 ^ 7), push_field-ok d p p.dynamic field room)

decode_one-incremental :
    (d : HpackDecoder) (p : Progress) (b n : ℕ) (bytes : Bytes) (field : Field)
    → b < 64
    → decode_literal p.dynamic ((b + 1 * 2 ^ 6) ∷ bytes) 6 ≡ ok (field, n)
    → HasRoom d p field
    → decode_one d p (b + 1 * 2 ^ 6) bytes ≡ ok (pushed p (insert p.dynamic field) field, n)
unfolding decode_one
decode_one-incremental d p b n bytes field small di room = ground (
  arith,
  bit_and_80 (b + 1 * 2 ^ 6),
  bit_40 (b + 1 * 2 ^ 6),
  push_field-ok d p (insert p.dynamic field) field room,
)

decode_one-plain :
    (d : HpackDecoder) (p : Progress) (b flag n : ℕ) (bytes : Bytes) (field : Field)
    → b < 16
    → flag < 2
    → decode_literal p.dynamic ((b + flag * 2 ^ 4) ∷ bytes) 4 ≡ ok (field, n)
    → HasRoom d p field
    → decode_one d p (b + flag * 2 ^ 4) bytes ≡ ok (pushed p p.dynamic field, n)
unfolding decode_one
decode_one-plain d p b flag n bytes field small f di room = ground (
  arith,
  bit_and_80 (b + flag * 2 ^ 4),
  bit_40 (b + flag * 2 ^ 4),
  bit_20 (b + flag * 2 ^ 4),
  push_field-ok d p p.dynamic field room,
)

decode_loop-step :
    (fuel : ℕ) (d : HpackDecoder) (p p' : Progress) (b : ℕ) (bytes tail rest : Bytes)
    → bytes ≡ b ∷ tail
    → decode_one d p b (tail ++ rest) ≡ ok (p', length bytes)
    → decode_loop (suc fuel) d p (bytes ++ rest) ≡ decode_loop fuel d p' rest
unfolding decode_loop
decode_loop-step fuel d p p' b bytes tail rest h o =
    ground (arith, drop-append_self (length bytes) bytes rest refl)

-- What the encoder needs of its table: the indices that its searches give are numbers of 64 bits.
abbrev pub Indexable : DynamicTable → Type 0
Indexable t = (test : Field → Bool) (i : ℕ) → find_in_tables test t ≡ some i → i ≤ usize_max

pub encode_field-indexed :
    (t : DynamicTable) (field : Field) (hint : HeaderHint) (i : ℕ)
    → find_full field t ≡ some i
    → encode_field t field hint ≡ (t, set_flags (1 * 2 ^ 7) (encode_integer i 7))
unfolding encode_field
encode_field-indexed t field hint i e = ground arith

pub encode_field-new :
    (t : DynamicTable) (field : Field) (hint : HeaderHint)
    → find_full field t ≡ none
    → encode_field t field hint ≡ encode_new t field (find_name field.0 t) hint
unfolding encode_field
encode_field-new t field hint e = ground arith

step_indexed :
    (fuel : ℕ) (d : HpackDecoder) (p : Progress) (field : Field) (rest : Bytes) (i : ℕ)
    → find_full field p.dynamic ≡ some i
    → i ≤ usize_max
    → HasRoom d p field
    → decode_loop (suc fuel) d p (set_flags (1 * 2 ^ 7) (encode_integer i 7) ++ rest)
      ≡ decode_loop fuel d (pushed p p.dynamic field) rest
step_indexed fuel d p field rest i e small_i room =
    let bytes = set_flags (1 * 2 ^ 7) (encode_integer i 7) in
    let (b, tail, shape, small, size) = encode_integer-first i 7 1 (omega arith) in
    let whole : (b + 1 * 2 ^ 7) ∷ (tail ++ rest) ≡ bytes ++ rest =
      ap (λ s. s ++ rest) (sym shape) in
    decode_loop-step fuel d p (pushed p p.dynamic field) (b + 1 * 2 ^ 7) bytes tail rest shape (
      decode_one-indexed d p b i (length bytes) (tail ++ rest) field small
        (ap (λ s. decode_integer s 7) whole
          ∙ decode_integer-encode_integer i 7 1 rest small_i (omega arith)
          ∙ ap (λ n. ok (i, n)) (sym (length-set_flags (1 * 2 ^ 7) (encode_integer i 7))))
        (resolve_index-find_full p.dynamic field i e) room)

step_literal :
    (fuel : ℕ) (d : HpackDecoder) (p p' : Progress) (name value rest : Bytes) (bits flag : ℕ)
    → IsCodable name
    → IsCodable value
    → ((i : ℕ) → find_name name p.dynamic ≡ some i → i ≤ usize_max)
    → bits ≤ 8
    → ((b : ℕ) (tail : Bytes)
        → b < 2 ^ bits
        → decode_literal p.dynamic ((b + flag * 2 ^ bits) ∷ tail) bits
          ≡ ok (
            (name, value),
            length (encode_literal (name, value) (find_name name p.dynamic) bits (flag * 2 ^ bits)),
          )
        → decode_one d p (b + flag * 2 ^ bits) tail
          ≡ ok (
            p',
            length (encode_literal (name, value) (find_name name p.dynamic) bits (flag * 2 ^ bits)),
          ))
    → decode_loop
        (suc fuel)
        d
        p
        (encode_literal (name, value) (find_name name p.dynamic) bits (flag * 2 ^ bits) ++ rest)
      ≡ decode_loop fuel d p' rest
step_literal fuel d p p' name value rest bits flag cn cv ix l one =
    let bytes = encode_literal (name, value) (find_name name p.dynamic) bits (flag * 2 ^ bits) in
    let (b, tail, shape, small) =
      encode_literal-first name value (find_name name p.dynamic) bits flag l in
    let whole : (b + flag * 2 ^ bits) ∷ (tail ++ rest) ≡ bytes ++ rest =
      ap (λ s. s ++ rest) (sym shape) in
    decode_loop-step fuel d p p' (b + flag * 2 ^ bits) bytes tail rest shape (
      one b (tail ++ rest) small (
        ap (λ s. decode_literal p.dynamic s bits) whole
        ∙ decode_literal-encode_literal p.dynamic name value rest bits flag cn cv ix l))

-- A field that is in no table.
step_new :
    (fuel : ℕ) (d : HpackDecoder) (p : Progress) (name value rest : Bytes) (hint : HeaderHint)
    → IsCodable name
    → IsCodable value
    → ((i : ℕ) → find_name name p.dynamic ≡ some i → i ≤ usize_max)
    → HasRoom d p (name, value)
    → decode_loop
        (suc fuel)
        d
        p
        ((encode_new p.dynamic (name, value) (find_name name p.dynamic) hint).1 ++ rest)
      ≡ decode_loop fuel d
          (pushed p
            (encode_new p.dynamic (name, value) (find_name name p.dynamic) hint).0
            (name, value))
          rest
step_new fuel d p name value rest index cn cv ix room =
    step_literal fuel d p (pushed p (insert p.dynamic (name, value)) (name, value)) name value rest
      6 1 cn cv ix (omega arith)
      (λ b tail small l. decode_one-incremental d p b _ tail (name, value) small l room)
step_new fuel d p name value rest without_index cn cv ix room =
    step_literal fuel d p (pushed p p.dynamic (name, value)) name value rest 4 0 cn cv ix
      (omega arith)
      (λ b tail small l. decode_one-plain d p b 0 _ tail (name, value) small (omega arith) l room)
step_new fuel d p name value rest never_index cn cv ix room =
    step_literal fuel d p (pushed p p.dynamic (name, value)) name value rest 4 1 cn cv ix
      (omega arith)
      (λ b tail small l. decode_one-plain d p b 1 _ tail (name, value) small (omega arith) l room)

pub step_field :
    (fuel : ℕ) (d : HpackDecoder) (p : Progress) (name value rest : Bytes) (hint : HeaderHint)
    → IsCodable name
    → IsCodable value
    → Indexable p.dynamic
    → HasRoom d p (name, value)
    → decode_loop (suc fuel) d p ((encode_field p.dynamic (name, value) hint).1 ++ rest)
      ≡ decode_loop fuel d
          (pushed p (encode_field p.dynamic (name, value) hint).0 (name, value))
          rest
step_field fuel d p name value rest hint cn cv ix room =
    elim (Option-cases (find_full (name, value) p.dynamic)) [
      | inr (i, e) ↦
          rw (encode_field-indexed p.dynamic (name, value) hint i e)
            (step_indexed fuel d p (name, value) rest i e (ix (same_field (name, value)) i e) room)
      | inl e ↦
          rw (encode_field-new p.dynamic (name, value) hint e)
            (step_new fuel d p name value rest hint cn cv (ix (same_name name)) room)
    ]
