-- ===== src/Coyote/Hpack/Table/Fitting.antt =====
-- Sizes of lists of entries, and the newest entries that fit in a budget.
use michael.Prelude.{
  ℕ, suc, ◌+◌, ◌-◌, ◌≤◌, ◌<◌, List, [], ◌∷◌, ◌++◌, none, some, ◌≡◌, inl, inr, refl, ap, ◌∙◌, arith,
  if◌then◌else◌, leb, length, length-append, Option-cases,
}
use michael.Coyote.Hpack.Table.{Field, entry_size, pop_back}

-- The size that RFC 7541 gives a list of entries.
abbrev pub total : List Field → ℕ
total [] = 0
total (e ∷ es) = entry_size e + total es

-- The newest entries that fit in a budget.
abbrev pub fitting : ℕ → List Field → List Field
fitting budget [] = []
fitting budget (e ∷ es) =
    let rest = fitting (budget - entry_size e) es in
    if leb (entry_size e) budget then e ∷ rest else []

pub total-append : (xs ys : List Field) → total (xs ++ ys) ≡ total xs + total ys
total-append [] ys = omega arith
total-append (e ∷ es) ys = omega (arith, total-append es ys)

pub fitting-all : (b : ℕ) (es : List Field) → total es ≤ b → fitting b es ≡ es
fitting-all b [] h = refl
fitting-all b (e ∷ es) h = ground (arith, fitting-all (b - entry_size e) es)

pub fitting-too_big :
    (b : ℕ) (e : Field) (es : List Field) → b < entry_size e → fitting b (e ∷ es) ≡ []
fitting-too_big b e es h = ground arith

pub fitting-cons :
    (b : ℕ) (e : Field) (es : List Field)
    → entry_size e ≤ b
    → fitting b (e ∷ es) ≡ e ∷ fitting (b - entry_size e) es
fitting-cons b e es h = ground arith

pub fitting-nothing : (b : ℕ) (es : List Field) → b ≤ 0 → fitting b es ≡ []
fitting-nothing b [] h = refl
fitting-nothing b (e ∷ es) h = fitting-too_big b e es (omega arith)

-- Where not all fits, the oldest entry does not.
pub fitting-append :
    (b : ℕ) (es : List Field) (x : Field)
    → b < total (es ++ (x ∷ []))
    → fitting b (es ++ (x ∷ [])) ≡ fitting b es
fitting-append b [] x h = ground arith
fitting-append b (e ∷ es) x h = ground (arith, fitting-append (b - entry_size e) es x)

pub fitting-total : (b : ℕ) (es : List Field) → total (fitting b es) ≤ b
fitting-total b [] = omega arith
fitting-total b (e ∷ es) = ground (arith, fitting-total (b - entry_size e) es)

pub pop_back-some :
    (es rest : List Field) (x : Field) → pop_back es ≡ some (rest, x) → es ≡ rest ++ (x ∷ [])
unfolding pop_back
pop_back-some [] rest x h = cc
pop_back-some (e ∷ []) rest x h = ground arith
pop_back-some (e ∷ f ∷ es) rest x h = elim (Option-cases (pop_back (f ∷ es))) [
  | inl n ↦ ground arith
  | inr ((r, y), q) ↦ ground (arith, pop_back-some (f ∷ es) r y q)
]

pub pop_back-none : (es : List Field) → pop_back es ≡ none → es ≡ []
unfolding pop_back
pop_back-none [] h = refl
pop_back-none (e ∷ []) h = cc
pop_back-none (e ∷ f ∷ es) h = elim (Option-cases (pop_back (f ∷ es))) [
  | inl n ↦ cc (pop_back-none (f ∷ es) n)
  | inr ((r, y), q) ↦ ground arith
]

pub nothing_left : (b : ℕ) (es : List Field) → length es ≤ 0 → es ≡ fitting b es
nothing_left b [] h = refl
nothing_left b (e ∷ es) h = absurd (omega arith)

pub total-pop :
    (es rest : List Field) (x : Field)
    → es ≡ rest ++ (x ∷ [])
    → total es ≡ total rest + entry_size x
total-pop es rest x e = ap total e ∙ total-append rest (x ∷ []) ∙ omega arith

pub length-pop :
    (es rest : List Field) (x : Field) → es ≡ rest ++ (x ∷ []) → length es ≡ suc (length rest)
length-pop es rest x e = ap length e ∙ length-append rest (x ∷ []) ∙ omega arith
