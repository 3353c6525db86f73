-- ===== src/Catalina/Mapper/Longest.antt =====
-- The context that a URI is routed to has the longest path of those that serve it.
use mathlib.Core.List.{Memᴰ}
use mathlib.Core.List.Memᴰ
use michael.Prelude.{
  ℕ, ◌≤◌, true, false, ◌&&◌, List, [], ◌∷◌, Option, none, some, ◌≡◌, ◌⊎◌, inl, inr, refl, arith,
  length, ltb, Bool-cases, ltb→le,
}
use michael.Prelude.Text.{Bytes}
use michael.Catalina.Mapper.{
  Context, Host, uri_under_context, best_context, resolve_context, replaces_context,
}

-- The loop's second variable is the length of its first.
abbrev Synced : Option Context → ℕ → Type 0
Synced none n = Unit {0}
Synced (some c) n = n ≡ length c.path

abbrev AtLeastLong : Option Context → ℕ → Type 0
AtLeastLong none n = ⊥
AtLeastLong (some c) n = n ≤ length c.path

module _ (uri : Bytes) where
  longest_keeps :
      (best : Option Context) (best_len : ℕ) (cs : List Context) (n : ℕ)
      → Synced best best_len
      → AtLeastLong best n
      → AtLeastLong (best_context uri best best_len cs) n
  unfolding best_context
  longest_keeps best best_len [] n h k = k
  longest_keeps none best_len (c ∷ cs) n h k = absurd k
  longest_keeps (some b) best_len (c ∷ cs) n h k =
      elim (Bool-cases (uri_under_context c.path uri && ltb best_len (length c.path))) [
        | inl e ↦ rw e (longest_keeps (some c) (length c.path) cs n refl (ground arith))
        | inr e ↦ rw e (longest_keeps (some b) best_len cs n h k)
      ]

  passed_long :
      (best : Option Context) (best_len : ℕ) (c : Context)
      → Synced best best_len
      → uri_under_context c.path uri ≡ true
      → (uri_under_context c.path uri && replaces_context best best_len c) ≡ false
      → AtLeastLong best (length c.path)
  passed_long none best_len c h u f = cc (rw u at f)
  passed_long (some b) best_len c h u f =
      let short = ltb→le best_len (length c.path) (rw u at f) in omega (arith, h, short)

  longest_covers :
      (best : Option Context) (best_len : ℕ) (cs : List Context) (c : Context)
      → Synced best best_len
      → Memᴰ c cs
      → uri_under_context c.path uri ≡ true
      → AtLeastLong (best_context uri best best_len cs) (length c.path)
  unfolding best_context
  longest_covers best best_len [] c h m u = absurd (Memᴰ.not-nil m)
  longest_covers best best_len (d ∷ cs) c h m u =
      elim (Bool-cases (uri_under_context d.path uri && replaces_context best best_len d)) [
        | inl e ↦ rw e (elim (Memᴰ.cases_cons m) [
          | inl q ↦
              longest_keeps (some d) (length d.path) cs (length c.path) refl (rw q (omega arith))
          | inr q ↦ longest_covers (some d) (length d.path) cs c refl q u
        ])
        | inr e ↦ rw e (elim (Memᴰ.cases_cons m) [
          | inl q ↦
              longest_keeps best best_len cs (length c.path) h
                (passed_long best best_len c h u (rw q e))
          | inr q ↦ longest_covers best best_len cs c h q u
        ])
      ]

  -- The answer serves the URI and is one of the contexts.
  abbrev pub Serves : List Context → Context → Type 0
  Serves cs c = Memᴰ c cs × (uri_under_context c.path uri ≡ true)

  longest_origin :
      (best : Option Context) (best_len : ℕ) (cs : List Context)
      → (best_context uri best best_len cs ≡ best)
        ⊎ ((c : Context) × Serves cs c × (best_context uri best best_len cs ≡ some c))
  unfolding best_context
  longest_origin best best_len [] = inl refl
  longest_origin best best_len (c ∷ cs) =
      elim (Bool-cases (uri_under_context c.path uri && replaces_context best best_len c)) [
        | inl e ↦ rw e (elim (longest_origin (some c) (length c.path) cs) [
          | inl q ↦ inr (c, (Memᴰ.head refl, ground arith), q)
          | inr (d, (m, u), q) ↦ inr (d, (Memᴰ.tail m, u), q)
        ])
        | inr e ↦ rw e (elim (longest_origin best best_len cs) [
          | inl q ↦ inl q
          | inr (d, (m, u), q) ↦ inr (d, (Memᴰ.tail m, u), q)
        ])
      ]

-- Where `resolve_context` answers, the context is one of the host's, serves the URI, and no
-- context of the host that serves the URI has a longer path; where none answers, none serves it.
pub resolve_context-longest :
    (host : Host) (uri : Bytes)
    → ((c : Context) × Serves uri host.contexts c
        × (resolve_context host uri ≡ some c)
        × ((d : Context) → Serves uri host.contexts d → length d.path ≤ length c.path))
      ⊎ ((resolve_context host uri ≡ none) × ((d : Context) → Serves uri host.contexts d → ⊥))
unfolding resolve_context
resolve_context-longest host uri = elim (longest_origin uri none 0 host.contexts) [
  | inl q ↦ inr (q, λ d a. rw q at (longest_covers uri none 0 host.contexts d tt a.0 a.1))
  | inr (c, a, q) ↦
      inl (c, a, q, λ d b. rw q at (longest_covers uri none 0 host.contexts d tt b.0 b.1))
]
