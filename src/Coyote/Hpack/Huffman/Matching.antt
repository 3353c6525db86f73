-- ===== src/Coyote/Hpack/Huffman/Matching.antt =====
-- What the decoder of the Huffman code sees at the beginning of a code.
use native.Mathlib.Nat.{one-le-pow, mod-eq_of_lt, div-lt_iff_lt-mul, div-one}
use michael.Prelude.{
  ℕ, zero, suc, ◌+◌, ◌-◌, ◌*◌, ◌/◌, ◌%◌, ◌^◌, ◌≤◌, true, false, List, ◌++◌, none, some, ◌≡◌, inl,
  inr, refl, ◌∙◌, sym, ap, arith, ltb, if◌then◌else◌, Bool-cases, append_assoc, take,
  take-append_self, ltb→lt,
}
use michael.Coyote.Hpack.Huffman.{lookup, match_symbol}
use michael.Coyote.Hpack.Huffman.Binary.{bits_of, length-bits_of, bits_of_sum, bits_of→mod, pow-add}
use michael.Coyote.Hpack.Huffman.Prefix.{Entry}

first_bits :
    (l m v : ℕ) (rest : List ℕ) → l ≤ m → take l (bits_of m v ++ rest) ≡ bits_of l (v / 2 ^ (m - l))
first_bits l m v rest h =
    let split : bits_of m v ++ rest ≡ bits_of l (v / 2 ^ (m - l)) ++ (bits_of (m - l) v ++ rest) =
      ap (λ n. bits_of n v ++ rest) {x = m} {y = l + (m - l)} (omega arith)
      ∙ ap (λ x. x ++ rest) (bits_of_sum l (m - l) v)
      ∙ append_assoc (bits_of l (v / 2 ^ (m - l))) (bits_of (m - l) v) rest in
    ap (take l) split
    ∙ take-append_self l (bits_of l (v / 2 ^ (m - l))) (bits_of (m - l) v ++ rest)
        (length-bits_of l (v / 2 ^ (m - l)))

-- The accumulator begins as a code does.
begins :
    (acc n code len l : ℕ) (tail more : List ℕ)
    → l ≤ n
    → l ≤ len
    → bits_of n acc ++ tail ≡ bits_of len code ++ more
    → acc / 2 ^ (n - l) % 2 ^ l ≡ code / 2 ^ (len - l) % 2 ^ l
begins acc n code len l tail more p q e =
    bits_of→mod l (acc / 2 ^ (n - l)) (code / 2 ^ (len - l))
      (sym (first_bits l n acc tail p) ∙ ap (take l) e ∙ first_bits l len code more q)

-- Which symbol the decoder sees where a code begins: its own, once all of it is there.
pub match_symbol-from :
    (count l acc n symbol code len : ℕ) (tail more : List ℕ)
    → Entry symbol code len
    → bits_of n acc ++ tail ≡ bits_of len code ++ more
    → count + l ≡ 31
    → 5 ≤ l
    → l ≤ len
    → match_symbol count l acc n ≡ (if ltb n len then none else some (symbol, len))
unfolding match_symbol
match_symbol-from zero l acc n symbol code len tail more entry e c p q =
    absurd (omega (arith, entry.at_most))
match_symbol-from (suc count) l acc n symbol code len tail more entry e c p q =
    elim (Bool-cases (ltb n l)) [
      | inl short ↦
          (let none_yet : ltb n len ≡ true = ground (arith, short) in rw (short, none_yet) refl)
      | inr long ↦
          let enough : l ≤ n = ground (arith, long) in
          let same = begins acc n code len l tail more enough q e in
          let whole_code : 2 ^ len ≡ 2 ^ l * 2 ^ (len - l) =
            ap (λ x. 2 ^ x) {x = len} {y = l + (len - l)} (omega arith) ∙ pow-add l (len - l) in
          let shorter : code / 2 ^ (len - l) % 2 ^ l ≡ code / 2 ^ (len - l) = mod-eq_of_lt (
            (div-lt_iff_lt-mul (one-le-pow (len - l) 2 (omega arith))).1
              (rw whole_code at entry.fits)) in
          elim (Bool-cases (ltb l len)) [
            | inl before ↦
                let misses = entry.unique l p (ltb→lt l len before) in
                rw (long, same, shorter, misses)
                  (match_symbol-from count (l + 1) acc n symbol code len tail more entry e
                    (omega arith) (omega arith) (omega (arith, ltb→lt l len before)))
            | inr at ↦
                let here : l ≡ len = ground (arith, at) in
                let whole : code / 2 ^ (len - l) ≡ code =
                  ap (λ x. code / 2 ^ x) {x = len - l} {y = 0} (omega arith) ∙ div-one code in
                let there : ltb n len ≡ false = ground (arith) in
                rw (long, there, same, shorter, whole, ap (lookup code) here, entry.found)
                  (ap (λ x. some (symbol, x)) here)
          ]
    ]
