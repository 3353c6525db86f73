-- ===== src/Coyote/Http2/Fields.antt =====
-- The parts of a frame, read back from their bytes: the header, the priority block and the
-- settings.
use native.Mathlib.Nat.{mod-eq_of_lt}
use michael.Prelude.{
  ℕ, ◌+◌, ◌*◌, ◌^◌, ◌<◌, Bool, true, false, not, List, [], ◌∷◌, ◌++◌, some, ◌≡◌, refl, ap, ◌∙◌,
  arith, bit_and, bit_or, length, All, ◌==◌, if◌then◌else◌, append_assoc,
}
use michael.Prelude.BigEndian.{
  be_value, be_bytes, be_value-be_bytes_2, be_value-be_bytes_3, be_value-be_bytes_4,
}
use michael.Prelude.Bits.Masks.{bit_and_mask, bit_or_flag, bit_and_bit}
use michael.Prelude.Text.{Bytes}
use michael.Coyote.Http2.{
  FrameHeader, Priority, parse_frame_header, parse_priority, read_params, stream_id_mask,
}
use michael.Coyote.Http2.Encode.{encode_frame_header, encode_priority, encode_params}

pub mask_31 : (n : ℕ) → n < 2 ^ 31 → bit_and n stream_id_mask ≡ n
mask_31 n h = bit_and_mask 31 n ∙ mod-eq_of_lt h

pub mask_31-lt : (n : ℕ) → bit_and n stream_id_mask < 2 ^ 31
mask_31-lt n = rw (bit_and_mask 31 n) (omega arith)

pub parse_frame_header-encode :
    (h : FrameHeader) (rest : Bytes)
    → h.payload_length < 2 ^ 24
    → h.stream_id < 2 ^ 31
    → parse_frame_header (encode_frame_header h ++ rest) ≡ some h
unfolding parse_frame_header encode_frame_header be_bytes be_value
parse_frame_header-encode h rest p q = rw (mask_31 h.stream_id q) (
    ground (
      arith,
      mask_31 h.stream_id q,
      be_value-be_bytes_3 h.payload_length p,
      be_value-be_bytes_4 h.stream_id,
    ))

pub length-encode_frame_header : (h : FrameHeader) → length (encode_frame_header h) ≡ 9
unfolding encode_frame_header be_bytes
length-encode_frame_header h = refl

-- The exclusive bit stands above the dependency.
exclusive_bit :
    (dep : ℕ)
    → dep < 2 ^ 31
    → (bit_and (bit_or dep 0x80000000) 0x80000000 ≡ 2 ^ 31)
      × (bit_and (bit_or dep 0x80000000) stream_id_mask ≡ dep)
      × (bit_and dep 0x80000000 ≡ 0)
exclusive_bit dep h =
    let set : bit_or dep 0x80000000 ≡ dep + 2 ^ 31 = bit_or_flag 31 dep 1 h in
    (
      ap (λ x. bit_and x 0x80000000) set ∙ bit_and_bit 31 (dep + 2 ^ 31) ∙ omega arith,
      ap (λ x. bit_and x stream_id_mask) set ∙ bit_and_mask 31 (dep + 2 ^ 31) ∙ omega arith,
      bit_and_bit 31 dep ∙ omega arith,
    )

pub length-encode_priority : (p : Priority) → length (encode_priority p) ≡ 5
unfolding encode_priority be_bytes
length-encode_priority p = refl

parse_priority-bytes :
    (raw weight : ℕ) (rest : Bytes)
    → raw < 2 ^ 32
    → parse_priority (be_bytes 4 raw ++ (weight ∷ rest)) ≡ record {
      exclusive = not (bit_and raw 0x80000000 == 0);
      stream_dependency = bit_and raw stream_id_mask;
      weight = weight;
    }
unfolding parse_priority be_bytes
parse_priority-bytes raw weight rest h = rw (be_value-be_bytes_4 raw h) refl

parse_priority-flag :
    (exclusive : Bool) (dep weight : ℕ) (rest : Bytes)
    → dep < 2 ^ 31
    → parse_priority
        (be_bytes 4 (if exclusive then bit_or dep 0x80000000 else dep) ++ (weight ∷ rest))
      ≡ record { exclusive = exclusive; stream_dependency = dep; weight = weight }
parse_priority-flag true dep weight rest h =
    let (set, low, _) = exclusive_bit dep h in
    parse_priority-bytes (bit_or dep 0x80000000) weight rest
      (rw (bit_or_flag 31 dep 1 h) (omega arith))
    ∙ rw (set, low) refl
parse_priority-flag false dep weight rest h =
    let (_, _, clear) = exclusive_bit dep h in
    parse_priority-bytes dep weight rest (omega arith) ∙ rw (clear, mask_31 dep h) refl

pub parse_priority-encode :
    (p : Priority) (rest : Bytes)
    → p.stream_dependency < 2 ^ 31
    → parse_priority (encode_priority p ++ rest) ≡ p
unfolding encode_priority
parse_priority-encode p rest h = rw (mask_31 p.stream_dependency h) (
    rw
      (append_assoc
        (be_bytes 4
          (if p.exclusive then bit_or p.stream_dependency 0x80000000 else p.stream_dependency))
        (p.weight ∷ []) rest)
      (parse_priority-flag p.exclusive p.stream_dependency p.weight rest h))

abbrev pub IsParam : ℕ × ℕ → Type 0
IsParam (id, value) = (id < 2 ^ 16) × (value < 2 ^ 32)

pub read_params-encode :
    (params : List (ℕ × ℕ)) → All IsParam params → read_params (encode_params params) ≡ params
unfolding read_params encode_params be_bytes
read_params-encode [] h = refl
read_params-encode ((id, value) ∷ params) h =
    rw
      (be_value-be_bytes_2 id h.0.0, be_value-be_bytes_4 value h.0.1, read_params-encode params h.1)
      refl

pub length-encode_params :
    (params : List (ℕ × ℕ)) → length (encode_params params) ≡ 6 * length params
unfolding encode_params be_bytes
length-encode_params [] = refl
length-encode_params ((id, value) ∷ params) = omega (arith, length-encode_params params)
