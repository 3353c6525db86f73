-- ===== src/Prelude/Text/Laws.antt =====
-- The laws of the text methods.
use mathlib.Core.List.{reverse-append, reverse-reverse}
use michael.Prelude.{
  ℕ, true, false, ◌||◌, List, [], ◌∷◌, ◌++◌, some, ◌≡◌, ◌↔◌, ◌⊎◌, inl, inr, refl, sym, ap, ◌∙◌,
  arith, ◌==◌, ==_iff, Bool-cases, Option-cases, All, reverse,
}
use michael.Prelude.Text.{
  Bytes, str_eq, strip_prefix, strip_suffix, contains, split_once, split_on, cons_head, join,
  from_utf8,
}

pub str_eq_iff : (a b : Bytes) → (str_eq a b ≡ true) ↔ (a ≡ b)
unfolding str_eq
str_eq_iff (x ∷ a) (y ∷ b) = ground (arith, str_eq_iff a b)
str_eq_iff _ _ = ground arith

pub str_eq_refl : (a : Bytes) → str_eq a a ≡ true
str_eq_refl a = (str_eq_iff a a).1 refl

pub strip_prefix-eq_some : (s p rest : Bytes) → strip_prefix s p ≡ some rest → s ≡ p ++ rest
unfolding strip_prefix
strip_prefix-eq_some s [] rest h = cc
strip_prefix-eq_some [] (y ∷ p) rest h = cc
strip_prefix-eq_some (x ∷ s) (y ∷ p) rest h = ground (arith, strip_prefix-eq_some s p rest)

pub strip_prefix-append : (p rest : Bytes) → strip_prefix (p ++ rest) p ≡ some rest
unfolding strip_prefix
strip_prefix-append [] rest = refl
strip_prefix-append (y ∷ p) rest = ground (arith, strip_prefix-append p rest)

pub contains-append : (a b : Bytes) (c : ℕ) → contains (a ++ b) c ≡ (contains a c || contains b c)
unfolding contains
contains-append [] b c = refl
contains-append (x ∷ a) b c = ground (arith, contains-append a b c)

pub split_once-eq_some :
    (c : ℕ) (s a b : Bytes)
    → split_once c s ≡ some (a, b)
    → (s ≡ a ++ (c ∷ b)) × (contains a c ≡ false)
unfolding split_once contains
split_once-eq_some c [] a b h = cc
split_once-eq_some c (x ∷ s) a b h = elim (Bool-cases (x == c)) [
  | inl e ↦ ground arith
  | inr e ↦ elim (Option-cases (split_once c s)) [
    | inl n ↦ ground arith
    | inr ((a', b'), q) ↦ ground (arith, split_once-eq_some c s a' b' q)
  ]
]

-- Joining what was split gives the text back.
join-cons_head : (c x : ℕ) (ps : List Bytes) → join c (cons_head x ps) ≡ x ∷ join c ps
unfolding join
join-cons_head c x [] = refl
join-cons_head c x (p ∷ []) = refl
join-cons_head c x (p ∷ q ∷ ps) = refl

split_on-ne-nil : (c : ℕ) (s : Bytes) → (p : Bytes) × (ps : List Bytes) × (split_on c s ≡ p ∷ ps)
unfolding split_on
split_on-ne-nil c [] = ([], [], refl)
split_on-ne-nil c (x ∷ s) = elim (Bool-cases (x == c)) [
  | inl e ↦ ([], split_on c s, rw e)
  | inr e ↦ let (p, ps, h) = split_on-ne-nil c s in (x ∷ p, ps, rw (e, h))
]

split_on-sep : (c x : ℕ) (s : Bytes) → x == c ≡ true → split_on c (x ∷ s) ≡ [] ∷ split_on c s
unfolding split_on
split_on-sep c x s e = rw e

split_on-other :
    (c x : ℕ) (s : Bytes) → x == c ≡ false → split_on c (x ∷ s) ≡ cons_head x (split_on c s)
unfolding split_on
split_on-other c x s e = rw e

join-nil_cons : (c : ℕ) (s : Bytes) → join c ([] ∷ split_on c s) ≡ c ∷ join c (split_on c s)
unfolding join
join-nil_cons c s = let (p, ps, h) = split_on-ne-nil c s in rw h

pub join-split_on : (c : ℕ) (s : Bytes) → join c (split_on c s) ≡ s
join-split_on c [] = unfold split_on join in refl
join-split_on c (x ∷ s) = elim (Bool-cases (x == c)) [
  | inl e ↦
      rw (split_on-sep c x s e, join-nil_cons, join-split_on c s)
        (ap (λ (y : ℕ). y ∷ s) (sym ((==_iff x c).0 e)))
  | inr e ↦ rw (split_on-other c x s e, join-cons_head) (ap (◌∷◌ x) (join-split_on c s))
]

-- Splitting what was joined gives the pieces back, where none of them holds the separator.
split_on-piece : (c : ℕ) (p : Bytes) → contains p c ≡ false → split_on c p ≡ p ∷ []
unfolding split_on contains
split_on-piece c [] h = refl
split_on-piece c (x ∷ p) h = ground (arith, split_on-piece c p)

split_on-append :
    (c : ℕ) (p rest : Bytes)
    → contains p c ≡ false
    → split_on c (p ++ (c ∷ rest)) ≡ p ∷ split_on c rest
unfolding split_on contains
split_on-append c [] rest h = ground arith
split_on-append c (x ∷ p) rest h = ground (arith, split_on-append c p rest)

join-cons :
    (c : ℕ) (p q : Bytes) (ps : List Bytes) → join c (p ∷ q ∷ ps) ≡ p ++ (c ∷ join c (q ∷ ps))
unfolding join
join-cons c p q ps = refl

pub split_on-join :
    (c : ℕ) (p : Bytes) (ps : List Bytes)
    → All (λ q. contains q c ≡ false) (p ∷ ps)
    → split_on c (join c (p ∷ ps)) ≡ p ∷ ps
split_on-join c p [] h = unfold join in split_on-piece c p h.0
split_on-join c p (q ∷ ps) h =
    ap (split_on c) (join-cons c p q ps)
    ∙ split_on-append c p (join c (q ∷ ps)) h.0
    ∙ ap (◌∷◌ p) (split_on-join c q ps h.1)

-- A byte that the text does not hold, and the separator, are in no piece.
contains-cons_head :
    (x b : ℕ) (ps : List Bytes)
    → x == b ≡ false
    → All (λ q. contains q b ≡ false) ps
    → All (λ q. contains q b ≡ false) (cons_head x ps)
unfolding contains
contains-cons_head x b [] e h = (rw e, tt)
contains-cons_head x b (p ∷ ps) e h = (rw e h.0, h.1)

contains-nil : (b : ℕ) → contains [] b ≡ false
unfolding contains
contains-nil b = refl

contains-cons :
    (x b : ℕ) (s : Bytes) → contains (x ∷ s) b ≡ false → (x == b ≡ false) × (contains s b ≡ false)
unfolding contains
contains-cons x b s h = ground arith

pub contains-split_on :
    (c b : ℕ) (s : Bytes)
    → (b ≡ c) ⊎ (contains s b ≡ false)
    → All (λ q. contains q b ≡ false) (split_on c s)
contains-split_on c b [] h = unfold split_on contains in (refl, tt)
contains-split_on c b (x ∷ s) h = elim (Bool-cases (x == c)) [
  | inl e ↦ rw (split_on-sep c x s e) (contains-nil b, contains-split_on c b s (tail h))
  | inr e ↦
      rw (split_on-other c x s e)
        (contains-cons_head x b _ (head e h) (contains-split_on c b s (tail h)))
]
  where
    tail : (b ≡ c) ⊎ (contains (x ∷ s) b ≡ false) → (b ≡ c) ⊎ (contains s b ≡ false)
    tail (inl p) = inl p
    tail (inr p) = inr (contains-cons x b s p).1

    head : x == c ≡ false → (b ≡ c) ⊎ (contains (x ∷ s) b ≡ false) → x == b ≡ false
    head e (inl p) = rw p e
    head e (inr p) = (contains-cons x b s p).0

pub from_utf8-eq_some : (s t : Bytes) → from_utf8 s ≡ some t → t ≡ s
unfolding from_utf8
from_utf8-eq_some s t h = ground arith

pub strip_suffix-append : (s p : Bytes) → strip_suffix (s ++ p) p ≡ some s
unfolding strip_suffix
strip_suffix-append s p =
    rw (reverse-append s p, strip_prefix-append (reverse p) (reverse s)) (rw reverse-reverse)

pub strip_suffix-eq_some : (s p rest : Bytes) → strip_suffix s p ≡ some rest → s ≡ rest ++ p
unfolding strip_suffix
strip_suffix-eq_some s p rest h = elim (Option-cases (strip_prefix (reverse s) (reverse p))) [
  | inl n ↦ cc (rw n at h)
  | inr (r, q) ↦
      let back : reverse r ≡ rest = cc (rw q at h) in
      sym (reverse-reverse s)
      ∙ ap reverse (strip_prefix-eq_some (reverse s) (reverse p) r q)
      ∙ reverse-append (reverse p) r
      ∙ rw (back, reverse-reverse)
]
