-- ===== src/Coyote/Http2/Incremental.antt =====
-- Parsing from a buffer that grows: what was decided stays decided, and a frame lies in the buffer.
use michael.Prelude.{
  ℕ, zero, suc, ◌+◌, ◌≤◌, [], ◌∷◌, ◌++◌, none, some, ok, ◌≡◌, ◌≢◌, refl, inl, inr, arith, length,
  drop, get_or, Option-cases, length-append, take-append, drop-append, length-drop,
}
use michael.Prelude.Text.{Bytes}
use michael.Coyote.Http2.{Frame, FrameHeader, parse_frame_header, parse_loop, parse}

get_or-append : (xs ys : Bytes) (i : ℕ) → suc i ≤ length xs → get_or (xs ++ ys) i 0 ≡ get_or xs i 0
get_or-append [] ys i h = absurd (omega arith)
get_or-append (x ∷ xs) ys zero h = refl
get_or-append (x ∷ xs) ys (suc i) h = get_or-append xs ys i (omega arith)

parse_frame_header-append :
    (buf more : Bytes) (h : FrameHeader)
    → parse_frame_header buf ≡ some h
    → (9 ≤ length buf) × (parse_frame_header (buf ++ more) ≡ some h)
unfolding parse_frame_header
parse_frame_header-append buf more h found = ground (
  arith,
  length-append buf more,
  take-append 3 buf more,
  get_or-append buf more 3,
  get_or-append buf more 4,
  drop-append 5 buf more,
  take-append 4 (drop 5 buf) more,
  length-drop 5 buf,
)

parse_loop-takes :
    (fuel max offset : ℕ) (rest : Bytes) (f : Frame) (n : ℕ)
    → parse_loop fuel max offset rest ≡ ok (some (f, n))
    → (offset + 9 ≤ n) × (n ≤ offset + length rest)
unfolding parse_loop
parse_loop-takes zero max offset rest f n h = cc
parse_loop-takes (suc fuel) max offset rest f n h = elim (Option-cases (parse_frame_header rest)) [
  | inl p ↦ ground arith
  | inr (hd, p) ↦ ground (
    arith,
    parse_loop-takes fuel max (offset + (9 + hd.payload_length)) (drop (9 + hd.payload_length) rest)
        f n,
    length-drop (9 + hd.payload_length) rest,
  )
]

parse_loop-append :
    (fuel fuel' max offset : ℕ) (rest more : Bytes)
    → fuel ≤ fuel'
    → parse_loop fuel max offset rest ≢ ok none
    → parse_loop fuel' max offset (rest ++ more) ≡ parse_loop fuel max offset rest
unfolding parse_loop
parse_loop-append zero fuel' max offset rest more k d = absurd (d refl)
parse_loop-append (suc fuel) zero max offset rest more k d = absurd (omega arith)
parse_loop-append (suc fuel) (suc fuel') max offset rest more k d =
    elim (Option-cases (parse_frame_header rest)) [
      | inl p ↦ absurd (d (rw (p, parse_loop) refl))
      | inr (hd, p) ↦
          let len = 9 + hd.payload_length in
          ground (
            arith,
            parse_frame_header-append rest more hd p,
            parse_loop-append fuel fuel' max (offset + len) (drop len rest) more,
            drop-append len rest more,
            drop-append 9 rest more,
            length-append rest more,
            length-drop 9 rest,
            take-append hd.payload_length (drop 9 rest) more,
          )
    ]

-- A frame that is returned lies in the buffer, and takes nine bytes at least, so that the loop
-- over the frames of a connection drains bytes that are there, and fewer are left with each frame.
pub parse-takes :
    (buf : Bytes) (max_frame_size : ℕ) (f : Frame) (n : ℕ)
    → parse buf max_frame_size ≡ ok (some (f, n))
    → (9 ≤ n) × (n ≤ length buf)
unfolding parse
parse-takes buf max_frame_size f n h =
    omega (arith, parse_loop-takes (length buf) max_frame_size 0 buf f n h)

-- A frame or an error that was found on a buffer is found again, the same, when more bytes stand
-- behind it.
pub parse-append :
    (buf more : Bytes) (max_frame_size : ℕ)
    → parse buf max_frame_size ≢ ok none
    → parse (buf ++ more) max_frame_size ≡ parse buf max_frame_size
unfolding parse
parse-append buf more max_frame_size d =
    parse_loop-append (length buf) (length (buf ++ more)) max_frame_size 0 buf more
      (omega (arith, length-append buf more)) d
