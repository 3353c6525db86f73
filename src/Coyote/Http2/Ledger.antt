-- ===== src/Coyote/Http2/Ledger.antt =====
-- The books of a connection: its streams, their number, the windows for what it receives, and the
-- streams whose requests it has handed to the adapter.
pub mod Moves
use michael.Prelude.{
  ℕ, suc, ◌+◌, ◌-◌, ◌≤◌, ◌<◌, Bool, true, false, List, [], ◌∷◌, ◌++◌, Option, none, some, ◌≡◌, ◌≢◌,
  refl, arith, ◌==◌, length, All, retain, ltb, if◌then◌else◌, All-map, All-append, Bool-cases, inl,
  inr, sym, ap,
}
use mathlib.Core.Path.{subst}
use michael.Prelude.Int.{ℤ, pos, ◌+ℤ◌, ltb_ℤ}
use michael.Coyote.Http1.Reading.{Request}
use michael.Coyote.Http2.Settings.{Http2Settings, default_settings}
use michael.Coyote.Http2.Connection.{
  Stream, Connection, find_stream, put_stream, is_live, shift_windows,
}

-- The streams whose requests were handed on.
unfoldable pub served_ids : List (ℕ × Request) → List ℕ
served_ids [] = []
served_ids ((id, request) ∷ serviced) = id ∷ served_ids serviced

abbrev pub IsNew : ℕ → List ℕ → Type 0
IsNew id served = All (λ other. other ≢ id) served

abbrev pub Distinct : List ℕ → Type 0
Distinct [] = Unit {0}
Distinct (id ∷ served) = IsNew id served × Distinct served

-- A stream has been opened, keeps within the window that was advertised, and has not been handed
-- on where it says so.
abbrev pub IsSoundStream : ℕ → ℕ → List ℕ → Stream → Type 0
IsSoundStream window last served s =
    (s.id ≤ last) × (s.recv_window ≤ window) × (s.dispatched ≡ false → IsNew s.id served)

pub record Ledger (settings : Http2Settings) (streams : List Stream) (count recv last : ℕ)
    (served : List ℕ) : Type 0 where
  pub fixed : settings ≡ default_settings
  pub counted : count ≡ length streams
  pub bounded : count ≤ settings.max_concurrent_streams
  pub advertised : recv ≤ 65535
  pub sound : All (IsSoundStream settings.initial_window_size last served) streams
  pub opened_before : All (λ id. id ≤ last) served
  pub once : Distinct served

abbrev pub IsSound : {S : Type 0} → Connection S → Type 0
IsSound c =
    Ledger c.local_settings c.streams c.open_stream_count c.conn_recv_window c.last_stream_id
      (served_ids c.serviced)

pub length-put_stream :
    (new : Stream) (streams : List Stream) → length (put_stream new streams) ≡ length streams
unfolding put_stream
length-put_stream new [] = refl
length-put_stream new (s ∷ streams) = omega (arith, length-put_stream new streams)

pub length-retain : (streams : List Stream) → length (retain is_live streams) ≤ length streams
unfolding retain
length-retain [] = omega arith
length-retain (s ∷ streams) = ground (arith, length-retain streams)

pub IsNew-append :
    (id new : ℕ) (served : List ℕ) → IsNew id served → new ≢ id → IsNew id (served ++ (new ∷ []))
IsNew-append id new served h d = All-append (λ other. other ≢ id) served (new ∷ []) h (d, tt)

pub Distinct-append :
    (new : ℕ) (served : List ℕ)
    → Distinct served
    → IsNew new served
    → Distinct (served ++ (new ∷ []))
Distinct-append new [] d n = (tt, tt)
Distinct-append new (id ∷ served) d n =
    (IsNew-append id new served d.0 (λ e. n.0 (sym e)), Distinct-append new served d.1 n.1)

pub served_ids-append :
    (serviced : List (ℕ × Request)) (id : ℕ) (request : Request)
    → served_ids (serviced ++ ((id, request) ∷ [])) ≡ served_ids serviced ++ (id ∷ [])
unfolding served_ids
served_ids-append [] id request = refl
served_ids-append ((other, r) ∷ serviced) id request =
    ap (◌∷◌ other) (served_ids-append serviced id request)

some_eq : {s t : Stream} → ◌≡◌ {A = Option Stream} (some s) (some t) → s ≡ t
some_eq e = cc

module _ (P : Stream → Type 0) where
  pub All-find :
      (id : ℕ) (streams : List Stream) (s : Stream)
      → All P streams
      → find_stream id streams ≡ some s
      → P s
  unfolding find_stream
  All-find id [] s h e = cc
  All-find id (t ∷ streams) s h e = elim (Bool-cases (t.id == id)) [
    | inl same ↦ subst P (some_eq (rw same at e)) h.0
    | inr differ ↦ All-find id streams s h.1 (rw differ at e)
  ]

  pub All-put :
      (new : Stream) (streams : List Stream)
      → P new
      → All P streams
      → All P (put_stream new streams)
  unfolding put_stream
  All-put new [] p h = tt
  All-put new (s ∷ streams) p h = elim (Bool-cases (s.id == new.id)) [
    | inl same ↦ rw same (p, All-put new streams p h.1)
    | inr differ ↦ rw differ (h.0, All-put new streams p h.1)
  ]

  pub All-retain :
      (test : Stream → Bool) (streams : List Stream) → All P streams → All P (retain test streams)
  unfolding retain
  All-retain test [] h = tt
  All-retain test (s ∷ streams) h = elim (Bool-cases (test s)) [
    | inl keep ↦ rw keep (h.0, All-retain test streams h.1)
    | inr drop_it ↦ rw drop_it (All-retain test streams h.1)
  ]
