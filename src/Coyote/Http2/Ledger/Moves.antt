-- ===== src/Coyote/Http2/Ledger/Moves.antt =====
-- What the handlers do to the books, one move at a time.
use michael.Prelude.{
  ℕ, ◌+◌, ◌-◌, ◌≤◌, ◌<◌, true, false, List, [], ◌∷◌, ◌++◌, some, ◌≡◌, refl, arith, ◌==◌, length,
  All, retain, All-map, All-append, Bool-cases, inl, inr,
}
use michael.Prelude.Int.{ℤ, pos, ◌+ℤ◌, ltb_ℤ}
use michael.Coyote.Http2.Settings.{Http2Settings, max_window}
use michael.Coyote.Http2.Connection.{
  Stream, new_stream, find_stream, put_stream, is_live, shift_windows,
}
use michael.Coyote.Http2.Ledger.{
  IsSoundStream, Ledger, length-put_stream, length-retain, IsNew-append, Distinct-append, All-find,
  All-put, All-retain,
}

-- Every other stream stays as sound when one is handed on.
handed_on :
    (window last : ℕ) (served : List ℕ) (new : Stream) (streams : List Stream)
    → (new.id ≤ last) × (new.recv_window ≤ window)
    → new.dispatched ≡ true
    → All (IsSoundStream window last served) streams
    → All (IsSoundStream window last (served ++ (new.id ∷ []))) (put_stream new streams)
unfolding put_stream
handed_on window last served new [] p says h = tt
handed_on window last served new (s ∷ streams) p says h =
    let rest = handed_on window last served new streams p says h.1 in
    elim (Bool-cases (s.id == new.id)) [
      | inl same ↦ rw same ((p.0, p.1, λ unsaid. cc), rest)
      | inr differ ↦ rw differ (
        (
          h.0.0,
          h.0.1,
          λ unsaid. IsNew-append s.id new.id served (h.0.2 unsaid) (λ e. ground arith),
        ),
        rest,
      )
    ]

length-shift_windows :
    (delta : ℤ) (streams : List Stream) → length (shift_windows delta streams).0 ≡ length streams
unfolding shift_windows
length-shift_windows delta [] = refl
length-shift_windows delta (s ∷ streams) = ground (arith, length-shift_windows delta streams)

All-shift_windows :
    (window last : ℕ) (served : List ℕ) (delta : ℤ) (streams : List Stream)
    → All (IsSoundStream window last served) streams
    → All (IsSoundStream window last served) (shift_windows delta streams).0
unfolding shift_windows
All-shift_windows window last served delta [] h = tt
All-shift_windows window last served delta (s ∷ streams) h =
    elim (Bool-cases (ltb_ℤ (pos max_window) (s.send_window +ℤ delta))) [
      | inl over ↦ rw over h
      | inr fits ↦ rw fits (h.0, All-shift_windows window last served delta streams h.1)
    ]

module _ {settings : Http2Settings} {streams : List Stream} {count recv last : ℕ} {served : List ℕ}
    (l : Ledger settings streams count recv last served) where
  abbrev Sound : Stream → Type 0
  Sound = IsSoundStream settings.initial_window_size last served

  pub found : (id : ℕ) (s : Stream) → find_stream id streams ≡ some s → Sound s
  found id s e = All-find Sound id streams s l.sound e

  pub put :
      (new : Stream) → Sound new → Ledger settings (put_stream new streams) count recv last served
  put new p = record {
    fixed = l.fixed;
    counted = omega (arith, l.counted, length-put_stream new streams);
    bounded = l.bounded;
    advertised = l.advertised;
    sound = All-put Sound new streams p l.sound;
    opened_before = l.opened_before;
    once = l.once;
  }

  pub retire :
      Ledger settings
        (retain is_live streams)
        (count - (length streams - length (retain is_live streams)))
        recv
        last
        served
  retire = record {
    fixed = l.fixed;
    counted = omega (arith, l.counted, length-retain streams);
    bounded = omega (arith, l.bounded);
    advertised = l.advertised;
    sound = All-retain Sound is_live streams l.sound;
    opened_before = l.opened_before;
    once = l.once;
  }

  pub receive : (recv' : ℕ) → recv' ≤ 65535 → Ledger settings streams count recv' last served
  receive recv' h = record {
    fixed = l.fixed;
    counted = l.counted;
    bounded = l.bounded;
    advertised = h;
    sound = l.sound;
    opened_before = l.opened_before;
    once = l.once;
  }

  -- The last identifier moves on.
  pub raise : (id : ℕ) → last ≤ id → Ledger settings streams count recv id served
  raise id h = record {
    fixed = l.fixed;
    counted = l.counted;
    bounded = l.bounded;
    advertised = l.advertised;
    sound = All-map (λ s p. (omega (arith, p.0), p.1, p.2)) streams l.sound;
    opened_before = All-map (λ other p. omega (arith, p)) served l.opened_before;
    once = l.once;
  }

  pub admit_new :
      (id peer_window : ℕ)
      → last < id
      → count < settings.max_concurrent_streams
      → Ledger settings
          (new_stream id settings.initial_window_size peer_window ∷ streams)
          (count + 1)
          recv
          id
          served
  admit_new id peer_window h room =
      let up = raise id (omega arith) in
      record {
        fixed = l.fixed;
        counted = omega (arith, l.counted);
        bounded = omega arith;
        advertised = l.advertised;
        sound = (
          (
            omega arith,
            omega arith,
            λ unused. All-map (λ other p e. absurd (omega (arith, p, e, h))) served l.opened_before,
          ),
          up.sound,
        );
        opened_before = up.opened_before;
        once = l.once;
      }

  -- A stream is handed on, and says so from then on.
  pub hand_on :
      (stream new : Stream)
      → Sound stream
      → stream.dispatched ≡ false
      → new.id ≡ stream.id
      → new.recv_window ≤ settings.initial_window_size
      → new.dispatched ≡ true
      → Ledger settings (put_stream new streams) count recv last (served ++ (stream.id ∷ []))
  hand_on stream new p idle_yet same window says = record {
    fixed = l.fixed;
    counted = omega (arith, l.counted, length-put_stream new streams);
    bounded = l.bounded;
    advertised = l.advertised;
    sound = rw (← same) (
        handed_on settings.initial_window_size last served new streams (omega (arith, p.0), window)
          says l.sound);
    opened_before = All-append (λ id. id ≤ last) served (stream.id ∷ []) l.opened_before (p.0, tt);
    once = Distinct-append stream.id served l.once (p.2 idle_yet);
  }

  pub shift : (delta : ℤ) → Ledger settings (shift_windows delta streams).0 count recv last served
  shift delta = record {
    fixed = l.fixed;
    counted = omega (arith, l.counted, length-shift_windows delta streams);
    bounded = l.bounded;
    advertised = l.advertised;
    sound = All-shift_windows settings.initial_window_size last served delta streams l.sound;
    opened_before = l.opened_before;
    once = l.once;
  }
