-- ===== src/Coyote/Http1/Framing.antt =====
-- How a body is framed, against a description in terms of the values of the two headers.
use michael.Prelude.{
  ℕ, Bool, true, false, not, ◌||◌, List, [], ◌∷◌, Option, none, some, ok, err, if◌then◌else◌, ◌≡◌,
  ◌≢◌, ◌↔◌, ◌⊎◌, inl, inr, refl, arith, any, all, All, is_empty, Option-cases,
}
use michael.Prelude.Text.{Bytes, codes, str_eq, split_on, to_ascii_lowercase}
use michael.Prelude.Text.Trim.{trim}
use michael.Coyote.Http1.{
  Headers, BodyFraming, no_body, chunked, fixed, is_header, parse_usize, scan_codings,
  scan_transfer_encoding, scan_content_length, body_framing,
}

-- The values of the headers of a name.
unfoldable pub values : Bytes → Headers → List Bytes
values name [] = []
values name ((key, value) ∷ headers) =
    let rest = values name headers in if is_header name key then value ∷ rest else rest

abbrev pub transfer_codings : Bytes → List Bytes
transfer_codings value = split_on b',' (to_ascii_lowercase value)

abbrev pub is_chunked_coding : Bytes → Bool
is_chunked_coding coding = str_eq (trim coding) (codes "chunked")

abbrev pub is_known_coding : Bytes → Bool
is_known_coding coding = is_chunked_coding coding || is_empty (trim coding)

abbrev pub only_known : Bytes → Bool
only_known value = all is_known_coding (transfer_codings value)

abbrev pub names_chunked : Bytes → Bool
names_chunked value = any is_chunked_coding (transfer_codings value)

abbrev pub transfer_encodings : Headers → List Bytes
transfer_encodings headers = values (codes "transfer-encoding") headers

abbrev pub content_lengths : Headers → List Bytes
content_lengths headers = values (codes "content-length") headers

abbrev pub Says : ℕ → Bytes → Type 0
Says n value = parse_usize (trim value) ≡ some n

-- A chunked body has transfer codings, `chunked` among them and no other, and no length. A body of
-- a length has no transfer coding, and lengths that all say so. No body has neither, or lengths
-- that all say zero.
abbrev pub IsFramed : Headers → BodyFraming → Type 0
IsFramed headers chunked =
    (all only_known (transfer_encodings headers) ≡ true)
    × (any names_chunked (transfer_encodings headers) ≡ true)
    × (content_lengths headers ≡ [])
IsFramed headers (fixed n) =
    (transfer_encodings headers ≡ [])
    × (content_lengths headers ≢ [])
    × All (Says n) (content_lengths headers)
    × (n ≢ 0)
IsFramed headers no_body =
    (transfer_encodings headers ≡ []) × All (Says 0) (content_lengths headers)

scan_codings_lem :
    (seen : Bool) (codings : List Bytes)
    → scan_codings seen codings ≡ (
        if all is_known_coding codings then ok (seen || any is_chunked_coding codings) else err 501)
unfolding scan_codings all any
scan_codings_lem seen [] = ground arith
scan_codings_lem seen (c ∷ codings) =
    ground (arith, scan_codings_lem true codings, scan_codings_lem seen codings)

scan_transfer_encoding_lem :
    (seen : Bool × Bool) (headers : Headers)
    → scan_transfer_encoding seen headers ≡ (
        if all only_known (transfer_encodings headers)
        then ok (
          seen.0 || not (is_empty (transfer_encodings headers)),
          seen.1 || any names_chunked (transfer_encodings headers),
        )
        else err 501)
unfolding scan_transfer_encoding values all any
scan_transfer_encoding_lem seen [] = ground arith
scan_transfer_encoding_lem seen ((key, value) ∷ headers) = ground (
  arith,
  scan_codings_lem seen.1 (transfer_codings value),
  scan_transfer_encoding_lem seen headers,
  scan_transfer_encoding_lem (true, seen.1 || any is_chunked_coding (transfer_codings value))
      headers,
)

scan_content_length-none :
    (seen : Option ℕ) (headers : Headers)
    → (scan_content_length seen headers ≡ ok none)
      ↔ ((seen ≡ none) × (content_lengths headers ≡ []))
unfolding scan_content_length values
scan_content_length-none seen [] = ground arith
scan_content_length-none seen ((key, value) ∷ headers) =
    elim (Option-cases (parse_usize (trim value))) [
      | inl e ↦ ground (arith, scan_content_length-none seen headers)
      | inr (x, e) ↦
          ground (
            arith,
            scan_content_length-none seen headers,
            scan_content_length-none (some x) headers,
          )
    ]

scan_content_length-some :
    (n : ℕ) (seen : Option ℕ) (headers : Headers)
    → (scan_content_length seen headers ≡ ok (some n)) ↔ (
        ((seen ≡ some n) ⊎ ((seen ≡ none) × (content_lengths headers ≢ [])))
        × All (Says n) (content_lengths headers))
unfolding scan_content_length values
scan_content_length-some n seen [] = ground arith
scan_content_length-some n seen ((key, value) ∷ headers) =
    elim (Option-cases (parse_usize (trim value))) [
      | inl e ↦ ground (arith, scan_content_length-some n seen headers)
      | inr (x, e) ↦ ground (
        arith,
        scan_content_length-some n seen headers,
        scan_content_length-some n (some x) headers,
      )
    ]

no_codings :
    (values : List Bytes)
    → values ≡ []
    → (any names_chunked values ≡ false) × (all only_known values ≡ true)
unfolding any all
no_codings [] h = (refl, refl)
no_codings (v ∷ values) h = cc

-- A request's body is framed in a way exactly where its headers say so: `chunked` where there are
-- transfer codings, all of them `chunked`, and no length; a length where there is no transfer
-- coding and every Content-Length says this one; and none where every one of them, if any, says
-- zero. A request with both kinds of header, with two lengths, or with another coding has no
-- framing, and is refused.
pub body_framing_iff :
    (headers : Headers) (f : BodyFraming) → (body_framing headers ≡ ok f) ↔ IsFramed headers f
unfolding body_framing
body_framing_iff headers no_body = ground (
  arith,
  scan_transfer_encoding_lem (false, false) headers,
  no_codings (transfer_encodings headers),
  scan_content_length-none none headers,
  scan_content_length-some 0 none headers,
)
body_framing_iff headers chunked = ground (
  arith,
  scan_transfer_encoding_lem (false, false) headers,
  no_codings (transfer_encodings headers),
  scan_content_length-none none headers,
  scan_content_length-some 0 none headers,
)
body_framing_iff headers (fixed n) = ground (
  arith,
  scan_transfer_encoding_lem (false, false) headers,
  no_codings (transfer_encodings headers),
  scan_content_length-none none headers,
  scan_content_length-some n none headers,
)
