-- ===== src/Protocol/Missed.antt =====
-- The start of gossipLoop of src/pkg/protocol/gossip/loop.go and pingLoop of pingack/loop.go, when the
-- period changes between the two readings of it.
use failure_detector.Prelude.{
  ◌≡◌, refl, ap, sym, ◌∙◌, false, List, [], ◌∷◌, some, if◌then◌else◌, map,
}
use failure_detector.Prelude.Int.{same_ℤ-self}
use failure_detector.Go.Clock.{Duration}
use failure_detector.Config.{not_positive}
use failure_detector.Protocol.Sender.{
  Sender, Running, start, step, run, ticks, paced, then_run, reset_ticker,
}

-- A ticker that is thought to have the period of the loop stays.
kept_ticker : (p : Duration) (s : Sender) → s.last_period ≡ p → reset_ticker p s ≡ some s
kept_ticker p s same = rw (same, same_ℤ-self p) refl

module _ {L W T : Type 0} (period : L → Duration) (work : T → L → W → L × W)
    (still : (t : T) (l : L) (w : W) → period (work t l w).0 ≡ period l) where
  tick_keeps :
      (t : T) (s : Sender) (l : L) (w : W)
      → s.returned ≡ false
      → s.last_period ≡ period l
      → step period work (ticks t) (s, l, w) ≡ some (s, (work t l w).0, (work t l w).1)
  unfolding step
  tick_keeps t s l w on same =
      let go = paced period work (reset_ticker (period l) s) (work t l w) in
      ap (λ b. if b then some (s, l, w) else go) on
      ∙ ap (λ o. paced period work o (work t l w)) (kept_ticker (period l) s same)

  ticks_keep :
      (ts : List T) (s : Sender) (l : L) (w : W)
      → s.returned ≡ false
      → s.last_period ≡ period l
      → (l' : L) × (w' : W) × (run period work (map ticks ts) (s, l, w) ≡ some (s, l', w'))
        × (period l' ≡ period l)
  unfolding run
  ticks_keep [] s l w on same = (l, w, refl, refl)
  ticks_keep (t ∷ ts) s l w on same =
      let (l', w', q, p) =
        ticks_keep ts s (work t l w).0 (work t l w).1 on (same ∙ sym (still t l w)) in
      (
        l',
        w',
        ap (then_run period work (λ y. run period work (map ticks ts) y))
              (tick_keeps t s l w on same)
            ∙ q,
        p ∙ still t l w,
      )

  -- A send loop whose period changes between the two readings of it at the start, and not again,
  -- keeps the ticker of the old period, whatever ticks come.
  pub missed_change :
      (ts : List T) (l later : L) (w : W)
      → not_positive (period l) ≡ false
      → (s : Sender) × (y : Running period work) × (start period work l later ≡ some s)
        × (run period work (map ticks ts) (s, later, w) ≡ some y)
        × (y.0.ticker ≡ period l)
        × (period y.1 ≡ period later)
  missed_change ts l later w positive =
      let s : Sender = record { ticker = period l; last_period = period later; returned = false } in
      let (l', w', q, p) = ticks_keep ts s later w refl refl in
      (s, (s, l', w'), rw positive refl, q, refl, p)
