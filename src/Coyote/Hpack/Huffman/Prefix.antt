-- ===== src/Coyote/Hpack/Huffman/Prefix.antt =====
-- The table of the Huffman code: every code has its length and stands for its own symbol, and no
-- code is the beginning of another.
use michael.Prelude.{
  ℕ, zero, suc, ◌+◌, ◌-◌, ◌/◌, ◌^◌, ◌≤◌, ◌<◌, Bool, true, false, ◌&&◌, Option, none, some, ◌≡◌,
  refl, arith, ltb, leb, ◌==◌, ltb→lt,
}
use michael.Coyote.Hpack.Huffman.{code_of, lookup}
use michael.Coyote.Hpack.Huffman as Huffman

-- A test that every number below a bound passes.
module _ (test : ℕ → Bool) where
  unfoldable all_below : ℕ → Bool
  all_below zero = true
  all_below (suc n) = test n && all_below n

  all_below→each : (n : ℕ) → all_below n ≡ true → (i : ℕ) → i < n → test i ≡ true
  unfolding all_below
  all_below→each zero e i h = absurd (omega arith)
  all_below→each (suc n) e i h = ground (arith, all_below→each n (ground arith) i)

finds : Option ℕ → ℕ → Bool
finds none sym = false
finds (some found) sym = found == sym

misses : Option ℕ → Bool
misses none = true
misses (some found) = false

-- No code is the beginning of `code` of `i + 5` bits.
unfoldable is_new : ℕ → ℕ → ℕ → Bool
unfolding misses
is_new code len i = misses (lookup (code / 2 ^ (len - (i + 5))) (i + 5))

unfoldable is_entry_at : ℕ → ℕ → ℕ → Bool
unfolding finds all_below is_new
is_entry_at sym code len =
    leb 5 len
    && (leb len 30
        && (ltb code (2 ^ len)
            && (finds (lookup code len) sym && all_below (is_new code len) (len - 5))))

unfoldable is_entry : ℕ → Bool
is_entry sym = is_entry_at sym (code_of sym).0 (code_of sym).1

all_entries : all_below is_entry 257 ≡ true
unfolding all_below is_entry is_entry_at is_new finds misses Huffman.lookup_from
all_entries = refl

-- What the table says of a symbol.
pub record Entry (sym code len : ℕ) : Type 0 where
  pub at_least : 5 ≤ len
  pub at_most : len ≤ 30
  pub fits : code < 2 ^ len
  pub found : lookup code len ≡ some sym
  pub unique : (l : ℕ) → 5 ≤ l → l < len → lookup (code / 2 ^ (len - l)) l ≡ none

finds→eq : (o : Option ℕ) (sym : ℕ) → finds o sym ≡ true → o ≡ some sym
unfolding finds
finds→eq none sym e = ground (arith, e)
finds→eq (some found) sym e = ground (arith, e)

misses→eq : (o : Option ℕ) → misses o ≡ true → o ≡ none
unfolding misses
misses→eq none e = refl
misses→eq (some found) e = ground (arith, e)

is_new→none :
    (code len l : ℕ)
    → 5 ≤ l
    → is_new code len (l - 5) ≡ true
    → lookup (code / 2 ^ (len - l)) l ≡ none
unfolding is_new
is_new→none code len l h e =
    let back : l - 5 + 5 ≡ l = omega arith in
    misses→eq (lookup (code / 2 ^ (len - l)) l) (rw back at e)

both : (a b : Bool) → a && b ≡ true → (a ≡ true) × (b ≡ true)
both true b e = (refl, e)
both false b e = ground (arith, e)

leb→le : (a b : ℕ) → leb a b ≡ true → a ≤ b
leb→le a b e = ground (arith, e)

Entry-at : (sym code len : ℕ) → is_entry_at sym code len ≡ true → Entry sym code len
unfolding is_entry_at
Entry-at sym code len e =
    let (least, e1) = both (leb 5 len) _ e in
    let (most, e2) = both (leb len 30) _ e1 in
    let (small, e3) = both (ltb code (2 ^ len)) _ e2 in
    let (found, e4) = both (finds (lookup code len) sym) _ e3 in
    record {
      at_least = leb→le 5 len least;
      at_most = leb→le len 30 most;
      fits = ltb→lt code (2 ^ len) small;
      found = finds→eq (lookup code len) sym found;
      unique = λ l p q.
          is_new→none code len l p
            (all_below→each (is_new code len) (len - 5) e4 (l - 5) (omega arith));
    }

pub Entry-of : (sym : ℕ) → sym < 257 → Entry sym (code_of sym).0 (code_of sym).1
unfolding is_entry
Entry-of sym h = Entry-at sym _ _ (all_below→each is_entry 257 all_entries sym h)
