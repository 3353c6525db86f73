-- ===== src/Coyote/Hpack/Huffman/Peeling.antt =====
-- What the inner loop of the decoder takes off a code.
use michael.Prelude.{
  ℕ, zero, suc, ◌+◌, ◌-◌, ◌/◌, ◌^◌, ◌≤◌, ◌<◌, true, false, List, [], ◌∷◌, ◌++◌, Option, none, some,
  ok, ◌≡◌, inl, inr, refl, ◌∙◌, sym, ap, arith, length, ltb, ◌==◌, if◌then◌else◌, Bool-cases,
  length-append, append_assoc, append-nil, drop, drop-append_self, ltb→lt, ltb→le,
}
use michael.Prelude.Text.{Bytes}
use michael.Coyote.Hpack.Huffman.{code_of, match_symbol, peel}
use michael.Coyote.Hpack.Huffman.Binary.{bits_of, length-bits_of, bits_of_sum}
use michael.Coyote.Hpack.Huffman.Prefix.{Entry, Entry-of}
use michael.Coyote.Hpack.Huffman.Packing.{AreBytes, code_bits, ones}
use michael.Coyote.Hpack.Huffman.Matching.{match_symbol-from}

-- The padding is the beginning of the code that ends a string.
ones-eos : (p : ℕ) → p < 8 → ones p ++ ones (30 - p) ≡ bits_of 30 0x3fffffff
unfolding bits_of
ones-eos zero h = refl
ones-eos (suc zero) h = refl
ones-eos (suc (suc zero)) h = refl
ones-eos (suc (suc (suc zero))) h = refl
ones-eos (suc (suc (suc (suc zero)))) h = refl
ones-eos (suc (suc (suc (suc (suc zero))))) h = refl
ones-eos (suc (suc (suc (suc (suc (suc zero)))))) h = refl
ones-eos (suc (suc (suc (suc (suc (suc (suc zero))))))) h = refl
ones-eos (suc (suc (suc (suc (suc (suc (suc (suc p)))))))) h = absurd (omega arith)

-- How many bits the next symbol takes, or the end.
abbrev pub first_len : Bytes → ℕ
first_len [] = 8
first_len (b ∷ s) = (code_of b).1

abbrev seen : Bytes → ℕ → Option (ℕ × ℕ)
seen [] n = none
seen (b ∷ s) n = if ltb n (code_of b).1 then none else some (b, (code_of b).1)

short_end : (acc n p : ℕ) (tail : List ℕ) → bits_of n acc ++ tail ≡ ones p → n ≤ p
short_end acc n p tail e = omega (
  arith,
  ap length e,
  length-append (bits_of n acc) tail,
  length-bits_of n acc,
  length-bits_of p (2 ^ p - 1),
)

match_symbol-seen :
    (acc n p : ℕ) (s : Bytes) (tail : List ℕ)
    → AreBytes s
    → p < 8
    → bits_of n acc ++ tail ≡ code_bits s ++ ones p
    → match_symbol 26 5 acc n ≡ seen s n
unfolding code_bits
match_symbol-seen acc n p [] tail v h e =
    let short = short_end acc n p tail e in
    let whole : bits_of n acc ++ (tail ++ ones (30 - p)) ≡ bits_of 30 0x3fffffff ++ [] =
      sym (append_assoc (bits_of n acc) tail (ones (30 - p)))
      ∙ ap (λ x. x ++ ones (30 - p)) e
      ∙ ones-eos p h
      ∙ sym (append-nil (bits_of 30 0x3fffffff)) in
    let never : ltb n 30 ≡ true = ground arith in
    match_symbol-from 26 5 acc n 256 0x3fffffff 30 (tail ++ ones (30 - p)) []
      (Entry-of 256 (omega arith)) whole refl (omega arith) (omega arith)
    ∙ rw never refl
match_symbol-seen acc n p (b ∷ s) tail (v, vs) h e =
    let code = (code_of b).0 in
    let len = (code_of b).1 in
    let entry : Entry b code len = Entry-of b (omega arith) in
    match_symbol-from 26 5 acc n b code len tail (code_bits s ++ ones p) entry
      (e ∙ append_assoc (bits_of len code) (code_bits s) (ones p)) refl (omega arith) entry.at_least

-- The bits that are left when a code is taken off.
taken :
    (acc n code len : ℕ) (tail more : List ℕ)
    → len ≤ n
    → bits_of n acc ++ tail ≡ bits_of len code ++ more
    → bits_of (n - len) acc ++ tail ≡ more
taken acc n code len tail more h e =
    let high = bits_of len (acc / 2 ^ (n - len)) in
    let split : bits_of n acc ++ tail ≡ high ++ (bits_of (n - len) acc ++ tail) =
      ap (λ m. bits_of m acc ++ tail) {x = n} {y = len + (n - len)} (omega arith)
      ∙ ap (λ x. x ++ tail) (bits_of_sum len (n - len) acc)
      ∙ append_assoc high (bits_of (n - len) acc) tail in
    sym (drop-append_self len high (bits_of (n - len) acc ++ tail) (length-bits_of len _))
    ∙ ap (drop len) (sym split ∙ e)
    ∙ drop-append_self len (bits_of len code) more (length-bits_of len code)

-- The symbols that are peeled off are the beginning of the string, and less than the next code is
-- left.
pub record Peeled (acc n p : ℕ) (s : Bytes) (tail : List ℕ) (fuel : ℕ) : Type 0 where
  pub peeled : Bytes
  pub rest : Bytes
  pub left : ℕ
  pub whole : peeled ++ rest ≡ s
  pub runs : peel fuel acc n ≡ ok (peeled, left)
  pub ahead : bits_of left acc ++ tail ≡ code_bits rest ++ ones p
  pub short : left < first_len rest
  pub bytes : AreBytes rest

not_end : (b : ℕ) → b < 256 → (b == 256) ≡ false
not_end b h = ground arith

pub peel_lem :
    (fuel acc n p : ℕ) (s : Bytes) (tail : List ℕ)
    → n ≤ fuel
    → AreBytes s
    → p < 8
    → bits_of n acc ++ tail ≡ code_bits s ++ ones p
    → Peeled acc n p s tail fuel
unfolding peel code_bits
peel_lem zero acc n p [] tail k v h e = record {
  peeled = [];
  rest = [];
  left = n;
  whole = refl;
  runs = refl;
  ahead = e;
  short = omega arith;
  bytes = v;
}
peel_lem zero acc n p (b ∷ s) tail k v h e = record {
  peeled = [];
  rest = b ∷ s;
  left = n;
  whole = refl;
  runs = refl;
  ahead = e;
  short = omega (arith, (Entry-of b (omega (arith, v.0))).at_least);
  bytes = v;
}
peel_lem (suc fuel) acc n p [] tail k v h e = record {
  peeled = [];
  rest = [];
  left = n;
  whole = refl;
  runs = rw (peel, match_symbol-seen acc n p [] tail v h e) refl;
  ahead = e;
  short = omega (arith, short_end acc n p tail e);
  bytes = v;
}
peel_lem (suc fuel) acc n p (b ∷ s) tail k v h e =
    let code = (code_of b).0 in
    let len = (code_of b).1 in
    let entry : Entry b code len = Entry-of b (omega (arith, v.0)) in
    let sees = match_symbol-seen acc n p (b ∷ s) tail v h e in
    elim (Bool-cases (ltb n len)) [
      | inl few ↦ record {
        peeled = [];
        rest = b ∷ s;
        left = n;
        whole = refl;
        runs = rw (peel, sees, few) refl;
        ahead = e;
        short = ltb→lt n len few;
        bytes = v;
      }
      | inr enough ↦
          let fits : len ≤ n = ltb→le n len enough in
          let not_eos : (b == 256) ≡ false = not_end b v.0 in
          let r : Peeled acc (n - len) p s tail fuel =
            peel_lem fuel acc (n - len) p s tail (omega (arith, entry.at_least)) v.1 h (
              taken acc n code len tail (code_bits s ++ ones p) fits
                (e ∙ append_assoc (bits_of len code) (code_bits s) (ones p))) in
          record {
            peeled = b ∷ r.peeled;
            rest = r.rest;
            left = r.left;
            whole = ap (◌∷◌ b) r.whole;
            runs = rw (peel, sees, enough, not_eos, r.runs) refl;
            ahead = r.ahead;
            short = r.short;
            bytes = r.bytes;
          }
    ]
