-- ===== src/Coyote/Http1/Delivery.antt =====
-- The head of a request is what stands in front of the first blank line, and no byte is lost
-- while it is read.
use michael.Prelude.{
  ◌<◌, ◌≢◌, ◌+◌, none, length-append, ℕ, zero, suc, ◌≤◌, Bool, true, false, [], ◌∷◌, ◌++◌, Option,
  some, ok, ◌≡◌, refl, sym, ◌∙◌, arith, inl, inr, length, take, is_empty, Bool-cases, Option-cases,
  append_assoc, take-append-drop, length-take,
}
use michael.Prelude.Text.{Bytes, codes, strip_prefix, starts_with}
use michael.Coyote.Http1.Reading.{
  RequestStream, Arrival, received, failed, elapsed, header_block_hard_cap, find_header_end,
  split_head, arrive, untimed_read, timed_read, head_read, HeadResult, extend_head, after_wait,
  read_head_loop, read_head,
}

-- The connection delivers its bytes in order, and no more of them than were asked for.
pub record InOrder {S : Type 0} (io : RequestStream S) : Type 0 where
  pub pending : S → Bytes
  pub read-pending :
      (s : S) (want : ℕ) (bytes : Bytes)
      → (io.read s want).1 ≡ some bytes
      → pending s ≡ bytes ++ pending (io.read s want).0
  pub read-length :
      (s : S) (want : ℕ) (bytes : Bytes) → (io.read s want).1 ≡ some bytes → length bytes ≤ want

-- A head ends at the first CR LF CR LF.
abbrev pub IsHead : Bytes → Type 0
IsHead head = find_header_end head ≡ some (length head)

starts_with-take : (n : ℕ) (s p : Bytes) → starts_with (take n s) p ≡ true → starts_with s p ≡ true
unfolding strip_prefix
starts_with-take zero s [] h = ground arith
starts_with-take zero s (y ∷ p) h = ground arith
starts_with-take (suc n) [] p h = h
starts_with-take (suc n) (x ∷ s) [] h = refl
starts_with-take (suc n) (x ∷ s) (y ∷ p) h = ground (arith, starts_with-take n s p)

starts_with-length : (s p : Bytes) → starts_with s p ≡ true → length p ≤ length s
unfolding strip_prefix
starts_with-length s [] h = omega arith
starts_with-length [] (y ∷ p) h = ground arith
starts_with-length (x ∷ s) (y ∷ p) h = ground (arith, starts_with-length s p)

starts_with_cut : (s p : Bytes) → starts_with s p ≡ true → starts_with (take (length p) s) p ≡ true
unfolding strip_prefix
starts_with_cut s [] h = refl
starts_with_cut [] (y ∷ p) h = h
starts_with_cut (x ∷ s) (y ∷ p) h = ground (arith, starts_with_cut s p)

find_header_end-take :
    (s : Bytes) (pos : ℕ)
    → find_header_end s ≡ some pos
    → (pos ≤ length s) × (find_header_end (take pos s) ≡ some pos)
unfolding find_header_end
find_header_end-take [] pos h = cc
find_header_end-take (x ∷ s) pos h = elim (Bool-cases (starts_with (x ∷ s) (codes "\r\n\r\n"))) [
  | inl e ↦ ground (
    arith,
    starts_with-length (x ∷ s) (codes "\r\n\r\n") e,
    starts_with_cut (x ∷ s) (codes "\r\n\r\n") e,
  )
  | inr e ↦ elim (Option-cases (find_header_end s)) [
    | inl q ↦ ground arith
    | inr (n, q) ↦
        ground
          (arith, find_header_end-take s n q, starts_with-take (suc n) (x ∷ s) (codes "\r\n\r\n"))
  ]
]

module _ {S : Type 0} (io : RequestStream S) (law : InOrder io) where
  arrive-pending :
      (s : S) (want : ℕ) (bytes : Bytes)
      → (arrive io s want).1 ≡ received bytes
      → (law.pending s ≡ bytes ++ law.pending (arrive io s want).0) × (length bytes ≤ want)
  unfolding arrive
  arrive-pending s want bytes h =
      ground (arith, law.read-pending s want bytes, law.read-length s want bytes)

  pub timed_read-pending :
      (s : S) (want : ℕ) (bytes : Bytes)
      → (timed_read io s want).1 ≡ received bytes
      → (law.pending s ≡ bytes ++ law.pending (timed_read io s want).0) × (length bytes ≤ want)
  unfolding timed_read
  timed_read-pending s want bytes h = ground (arith, arrive-pending s want bytes)

  -- The head and what was read behind it are the bytes that were buffered and those of the stream.
  unfoldable pub Takes : S → Bytes → S → Bytes → Bytes → Type 0
  Takes s buf s' head leftover =
      (buf ++ law.pending s ≡ head ++ (leftover ++ law.pending s')) × IsHead head

  split_head-Takes :
      (s : S) (buf head leftover : Bytes)
      → split_head buf ≡ some (head, leftover)
      → Takes s buf s head leftover
  unfolding Takes split_head
  split_head-Takes s buf head leftover h = elim (Option-cases (find_header_end buf)) [
    | inl q ↦ ground arith
    | inr (pos, q) ↦ ground (
      arith,
      find_header_end-take buf pos q,
      length-take pos buf,
      take-append-drop pos buf,
      append_assoc head leftover (law.pending s),
    )
  ]

  extend_head-Takes :
      (s s' : S) (buf bytes head leftover : Bytes) (again : S → Bytes → HeadResult io)
      → ((t : S) (b : Bytes)
          → again t b ≡ some (s', ok (some (head, leftover)))
          → Takes t b s' head leftover)
      → extend_head io s buf bytes again ≡ some (s', ok (some (head, leftover)))
      → Takes s (buf ++ bytes) s' head leftover
  unfolding extend_head
  extend_head-Takes s s' buf bytes head leftover again k h =
      elim (Option-cases (split_head (buf ++ bytes))) [
        | inl q ↦ ground (arith, k s (buf ++ bytes))
        | inr (parts, q) ↦ ground (arith, split_head-Takes s (buf ++ bytes) head leftover)
      ]

  -- Bytes that have been read stand in the buffer.
  moved :
      (s t : S) (buf bytes : Bytes) (s' : S) (head leftover : Bytes)
      → law.pending s ≡ bytes ++ law.pending t
      → Takes t (buf ++ bytes) s' head leftover
      → Takes s buf s' head leftover
  unfolding Takes
  moved s t buf bytes s' head leftover p (h, f) =
      (rw p (sym (append_assoc buf bytes (law.pending t)) ∙ h), f)

  head_read-pending :
      (first : Bool) (s t : S) (bytes : Bytes)
      → head_read io first s ≡ some (t, received bytes)
      → law.pending s ≡ bytes ++ law.pending t
  unfolding untimed_read
  head_read-pending true s t bytes h = ground (arith, timed_read-pending s 4096 bytes)
  head_read-pending false s t bytes h = ground (arith, arrive-pending s 4096 bytes)

  read_head_loop-Takes :
      (fuel : ℕ) (first : Bool) (s s' : S) (buf head leftover : Bytes)
      → read_head_loop io fuel first s buf ≡ some (s', ok (some (head, leftover)))
      → Takes s buf s' head leftover
  unfolding read_head_loop
  read_head_loop-Takes zero first s s' buf head leftover h = cc
  read_head_loop-Takes (suc fuel) first s s' buf head leftover h =
      arrived (head_read io first s) (head_read-pending first s)
        (λ t b. read_head_loop-Takes fuel false t s' b head leftover) h
    where
      arrived :
          (next : Option (S × Arrival))
          → ((t : S) (bytes : Bytes)
              → next ≡ some (t, received bytes)
              → law.pending s ≡ bytes ++ law.pending t)
          → ((u : S) (b : Bytes)
              → read_head_loop io fuel false u b ≡ some (s', ok (some (head, leftover)))
              → Takes u b s' head leftover)
          → after_wait io next buf (λ u b. read_head_loop io fuel false u b)
            ≡ some (s', ok (some (head, leftover)))
          → Takes s buf s' head leftover
      arrived none p k e = cc
      arrived (some (t, elapsed)) p k e = cc
      arrived (some (t, failed)) p k e = cc
      arrived (some (t, received bytes)) p k e =
          moved s t buf bytes s' head leftover (p t bytes refl)
            (extend_head-Takes t s' buf bytes head leftover _ k e)

  pub read_head-Takes :
      (s s' : S) (carryover head leftover : Bytes)
      → read_head io s carryover ≡ some (s', ok (some (head, leftover)))
      → Takes s carryover s' head leftover
  unfolding read_head Takes
  read_head-Takes s s' carryover head leftover h = elim (Option-cases (split_head carryover)) [
    | inl q ↦
        read_head_loop-Takes (suc header_block_hard_cap) (is_empty carryover) s s' carryover head
          leftover (ground arith)
    | inr (parts, q) ↦ ground (arith, split_head-Takes s carryover head leftover)
  ]

nonempty : (s : Bytes) → is_empty s ≡ false → 1 ≤ length s
nonempty s h = ground arith

-- The peer is never silent for ever: every read comes to its end.
abbrev pub NeverHangs : {S : Type 0} → RequestStream S → Type 0
NeverHangs {S} io = (s : S) → io.hangs s ≡ false

module _ {S : Type 0} (io : RequestStream S) (answers : NeverHangs io) where
  extend_head-decides :
      (s : S) (buf bytes : Bytes) (again : S → Bytes → HeadResult io)
      → (length buf < length (buf ++ bytes)
          → length (buf ++ bytes) ≤ header_block_hard_cap
          → again s (buf ++ bytes) ≢ none)
      → extend_head io s buf bytes again ≢ none
  unfolding extend_head
  extend_head-decides s buf bytes again k h = elim (Option-cases (split_head (buf ++ bytes))) [
    | inl q ↦ ground (arith, k, nonempty bytes, length-append buf bytes)
    | inr (parts, q) ↦ ground arith
  ]

  head_read-returns : (first : Bool) (s : S) → head_read io first s ≢ none
  unfolding untimed_read
  head_read-returns true s h = cc
  head_read-returns false s h = ground (arith, answers s)

  read_head_loop-decides :
      (fuel : ℕ) (first : Bool) (s : S) (buf : Bytes)
      → 1 ≤ fuel
      → header_block_hard_cap < length buf + fuel
      → read_head_loop io fuel first s buf ≢ none
  unfolding read_head_loop
  read_head_loop-decides zero first s buf l b h = omega arith
  read_head_loop-decides (suc fuel) first s buf l b h =
      arrived (head_read io first s) (head_read-returns first s)
        (λ t buf' grows small. read_head_loop-decides fuel false t buf' (omega arith) (omega arith))
        h
    where
      arrived :
          (next : Option (S × Arrival))
          → next ≢ none
          → ((u : S) (buf' : Bytes)
              → length buf < length buf'
              → length buf' ≤ header_block_hard_cap
              → read_head_loop io fuel false u buf' ≢ none)
          → after_wait io next buf (λ u b'. read_head_loop io fuel false u b') ≢ none
      arrived none some_read k e = some_read refl
      arrived (some (t, elapsed)) some_read k e = cc
      arrived (some (t, failed)) some_read k e = cc
      arrived (some (t, received bytes)) some_read k e =
          extend_head-decides t buf bytes _ (λ grows small. k t (buf ++ bytes) grows small) e

  -- Where no read waits for ever, reading a head ends: the rounds that the loop is given, one more
  -- than the cap on the header block, are enough, as each of them but the last adds a byte.
  pub read_head-decides : (s : S) (carryover : Bytes) → read_head io s carryover ≢ none
  unfolding read_head
  read_head-decides s carryover h = elim (Option-cases (split_head carryover)) [
    | inl q ↦
        read_head_loop-decides (suc header_block_hard_cap) (is_empty carryover) s carryover
          (omega arith) (omega arith) (ground arith)
    | inr (parts, q) ↦ ground arith
  ]
