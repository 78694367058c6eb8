-- ===== src/Protocol/Sender.antt =====
-- The goroutines gossipLoop of src/pkg/protocol/gossip/loop.go and pingLoop of pingack/loop.go: they
-- send on each tick of a ticker, and take a new ticker when the period of the loop has changed.
use failure_detector.Prelude.{
  ◌≡◌, ◌⊎◌, refl, ap, sym, ◌∙◌, Bool, true, false, List, [], ◌∷◌, Option, none, some, if◌then◌else◌,
  inl, inr, Bool-cases, All,
}
use failure_detector.Prelude.Int.{same_ℤ, same_ℤ-eq}
use failure_detector.Go.Clock.{Duration}
use failure_detector.Config.{not_positive}

-- The period of the goroutine's ticker, its variable `lastPeriod`, and whether it has returned.
pub record Sender : Type 0 where
  pub ticker : Duration
  pub last_period : Duration
  pub returned : Bool

-- time.NewTicker, which panics unless the period is positive
abbrev pub new_ticker : Duration → Option Duration
new_ticker d = if not_positive d then none else some d

-- The new ticker, next to the period that is noted.
abbrev pub with_ticker : Duration → Option Duration → Option Sender
with_ticker noted none = none
with_ticker noted (some d) = some (record { ticker = d; last_period = noted; returned = false })

-- `if period != lastPeriod`
abbrev pub reset_ticker : Duration → Sender → Option Sender
reset_ticker period s =
    if same_ℤ period s.last_period then some s else with_ticker period (new_ticker period)

-- The ticker after a tick.
record Paced (p : Duration) (s : Sender) : Type 0 where
  after : Sender
  renewed : reset_ticker p s ≡ some after
  same : after.ticker ≡ after.last_period
  paced : after.ticker ≡ p

reset_ticker-Paced :
    (p : Duration) (s : Sender) → not_positive p ≡ false → s.ticker ≡ s.last_period → Paced p s
reset_ticker-Paced p s positive same = elim (Bool-cases (same_ℤ p s.last_period)) [
  | inl kept ↦ record {
    after = s;
    renewed = rw kept refl;
    same = same;
    paced = same ∙ sym (same_ℤ-eq p s.last_period kept);
  }
  | inr changed ↦ record {
    after = record { ticker = p; last_period = p; returned = false };
    renewed = rw (changed, positive) refl;
    same = refl;
    paced = refl;
  }
]

-- The loop `L` of a protocol: its period, and what a tick with the draws `T` does to it and to the
-- world that it shares.
module _ {L W T : Type 0} (period : L → Duration) (work : T → L → W → L × W) where
  -- Before the for loop; `none` is a panic. The period is read twice, under the lock for the ticker
  -- and later without it for `lastPeriod`.
  abbrev pub start : L → L → Option Sender
  start l later = with_ticker (period later) (new_ticker (period l))

  -- A tick, the return after Close, and whatever the rest of the program does.
  pub data Event : Type 0 where
    ticks : T → Event
    returns : Event
    others : (L → W → L × W) → Event

  abbrev pub Running : Type 0
  Running = Sender × L × W

  abbrev pub paced : Option Sender → L × W → Option Running
  paced none w = none
  paced (some s) (l, w) = some (s, l, w)

  unfoldable pub step : Event → Running → Option Running
  step (ticks t) (s, l, w) =
      if s.returned then some (s, l, w) else paced (reset_ticker (period l) s) (work t l w)
  step returns (s, l, w) = some (record s { returned = true }, l, w)
  step (others f) (s, l, w) = paced (some s) (f l w)

  abbrev pub then_run : (Running → Option Running) → Option Running → Option Running
  then_run f none = none
  then_run f (some x) = f x

  unfoldable pub run : List Event → Running → Option Running
  unfolding step
  run [] x = some x
  run (e ∷ es) x = then_run (λ y. run es y) (step e x)

  -- The period of the loop stays positive.
  abbrev pub KeepsPositive : Event → Type 0
  KeepsPositive (ticks t) =
      (l : L) (w : W)
      → not_positive (period l) ≡ false
      → not_positive (period (work t l w).0) ≡ false
  KeepsPositive returns = Unit {0}
  KeepsPositive (others f) =
      (l : L) (w : W) → not_positive (period l) ≡ false → not_positive (period (f l w).0) ≡ false

  -- The ticker has the period that the goroutine last saw, and the next one is positive.
  pub record IsPaced (x : Running) : Type 0 where
    pub same : x.0.ticker ≡ x.0.last_period
    pub positive : not_positive (period x.1) ≡ false

  -- A tick of a goroutine that has not returned.
  tick-IsPaced :
      (t : T) (s : Sender) (l : L) (w : W)
      → s.returned ≡ false
      → KeepsPositive (ticks t)
      → IsPaced (s, l, w)
      → (y : Running) × (step (ticks t) (s, l, w) ≡ some y) × (y.0.ticker ≡ period l) × IsPaced y
  unfolding step
  tick-IsPaced t s l w on keeps h =
      let p = reset_ticker-Paced (period l) s h.positive h.same in
      (
        (p.after, (work t l w).0, (work t l w).1),
        ap (λ b. if b then some (s, l, w) else paced (reset_ticker (period l) s) (work t l w)) on
            ∙ ap (λ o. paced o (work t l w)) p.renewed,
        p.paced,
        record { same = p.same; positive = keeps l w h.positive },
      )

  step-IsPaced :
      (e : Event) (s : Sender) (l : L) (w : W)
      → KeepsPositive e
      → IsPaced (s, l, w)
      → (y : Running) × (step e (s, l, w) ≡ some y) × IsPaced y
  unfolding step
  step-IsPaced (ticks t) s l w keeps h = elim (Bool-cases s.returned) [
    | inl over ↦ (
      (s, l, w),
      ap (λ b. if b then some (s, l, w) else paced (reset_ticker (period l) s) (work t l w)) over,
      h,
    )
    | inr on ↦ let (y, q, p, h') = tick-IsPaced t s l w on keeps h in (y, q, h')
  ]
  step-IsPaced returns s l w keeps h =
      ((record s { returned = true }, l, w), refl, record { same = h.same; positive = h.positive })
  step-IsPaced (others f) s l w keeps h =
      ((s, (f l w).0, (f l w).1), refl, record { same = h.same; positive = keeps l w h.positive })

  run-IsPaced :
      (es : List Event) (s : Sender) (l : L) (w : W)
      → All KeepsPositive es
      → IsPaced (s, l, w)
      → (y : Running) × (run es (s, l, w) ≡ some y) × IsPaced y
  unfolding run
  run-IsPaced [] s l w keeps h = ((s, l, w), refl, h)
  run-IsPaced (e ∷ es) s l w keeps h =
      let (y, q, h') = step-IsPaced e s l w keeps.0 h in
      let (z, q', h'') = run-IsPaced es y.0 y.1 y.2 keeps.1 h' in (z, rw q q', h'')

  -- The goroutine starts undisturbed, gets through the events `es` without a panic, and has then returned or
  -- takes at its next tick a ticker with the period that the loop has.
  abbrev pub KeepsPace : List Event → T → L → W → Type 0
  KeepsPace es t l w =
      (s : Sender) × (start l l ≡ some s)
      × ((y : Running) × (run es (s, l, w) ≡ some y)
          × ((y.0.returned ≡ true)
              ⊎ ((z : Running) × (step (ticks t) y ≡ some z) × (z.0.ticker ≡ period y.1))))

  pub sender_lem :
      (es : List Event) (t : T) (l : L) (w : W)
      → not_positive (period l) ≡ false
      → All KeepsPositive es
      → KeepsPositive (ticks t)
      → KeepsPace es t l w
  sender_lem es t l w positive keeps keep =
      let s : Sender = record { ticker = period l; last_period = period l; returned = false } in
      let (y, q, h) = run-IsPaced es s l w keeps (record { same = refl; positive = positive }) in
      elim (Bool-cases y.0.returned) [
        | inl over ↦ (s, rw positive refl, (y, q, inl over))
        | inr on ↦
            let (z, q', p, h') = tick-IsPaced t y.0 y.1 y.2 on keep h in
            (s, rw positive refl, (y, q, inr (z, q', p)))
      ]
