-- ===== src/Protocol/Receiver.antt =====
-- The goroutine of recvLoop of src/pkg/protocol/gossip/loop.go and pingack/loop.go: it tests the stop
-- channel, reads a datagram, handles it, and so on. Between two of its steps the rest of the program
-- runs.
use failure_detector.Prelude.{
  ◌≡◌, inl, inr, refl, ◌∙◌, Bool-cases, Bool, true, false, List, [], ◌∷◌, Option, none, some,
  if◌then◌else◌,
}

-- Before the select on `l.stop`, blocked in Net.Read, or returned.
pub data Point : Type 0 where
  selecting reading ended : Point

-- Where the goroutine is, and whether Close has closed its channel.
pub record Receiver : Type 0 where
  pub point : Point
  pub stopped : Bool

-- Run
abbrev pub started : Receiver
started = record { point = selecting; stopped = false }

module _ {W D : Type 0} (hear : D → W → W × Bool) where
  -- Close; a round of the goroutine up to Read; what Read gave, `none` for an error; and whatever the
  -- rest of the program does.
  pub data Event : Type 0 where
    closes selects : Event
    reads : Option D → Event
    others : (W → W) → Event

  -- A return, or the next turn.
  abbrev pub go_on : W × Bool → Receiver → Receiver × W
  go_on (w, b) r = (record r { point = if b then selecting else ended }, w)

  abbrev pub select_at : Point → Receiver → Receiver
  select_at selecting r = record r { point = if r.stopped then ended else reading }
  select_at reading r = r
  select_at ended r = r

  abbrev pub read_at : Point → Option D → Receiver → W → Receiver × W
  read_at reading none r w = (record r { point = ended }, w)
  read_at reading (some d) r w = go_on (hear d w) r
  read_at selecting o r w = (r, w)
  read_at ended o r w = (r, w)

  unfoldable pub step : Event → Receiver → W → Receiver × W
  step closes r w = (record r { stopped = true }, w)
  step selects r w = (select_at r.point r, w)
  step (reads o) r w = read_at r.point o r w
  step (others f) r w = (r, f w)

  unfoldable pub run : List Event → Receiver → W → Receiver × W
  unfolding step
  run [] r w = (r, w)
  run (x ∷ xs) r w = let (r', w') = step x r w in run xs r' w'

  -- What the rest of the program does in these events.
  abbrev pub apart : List Event → W → W
  apart [] w = w
  apart (others f ∷ xs) w = apart xs (f w)
  apart (closes ∷ xs) w = apart xs w
  apart (selects ∷ xs) w = apart xs w
  apart (reads o ∷ xs) w = apart xs w

  -- A goroutine that has returned, or that stands before its select with the channel closed.
  abbrev IsOver : Point → Bool → Type 0
  IsOver ended b = Unit {0}
  IsOver selecting b = b ≡ true
  IsOver reading b = ⊥

  -- It handles nothing more.
  step-IsOver :
      (x : Event) (p : Point) (b : Bool) (w : W)
      → IsOver p b
      → let (r, w') = step x (record { point = p; stopped = b }) w in
        IsOver r.point r.stopped × ((xs : List Event) → apart xs w' ≡ apart (x ∷ xs) w)
  unfolding step
  step-IsOver closes ended b w h = (tt, λ xs. refl)
  step-IsOver closes selecting b w h = (refl, λ xs. refl)
  step-IsOver selects ended b w h = (tt, λ xs. refl)
  step-IsOver selects selecting b w h = rw h (tt, λ xs. refl)
  step-IsOver (reads o) ended b w h = (tt, λ xs. refl)
  step-IsOver (reads o) selecting b w h = (h, λ xs. refl)
  step-IsOver (others f) ended b w h = (tt, λ xs. refl)
  step-IsOver (others f) selecting b w h = (h, λ xs. refl)
  step-IsOver x reading b w h = elim h [ ]

  run-IsOver :
      (xs : List Event) (r : Receiver) (w : W)
      → IsOver r.point r.stopped
      → (run xs r w).1 ≡ apart xs w
  unfolding run
  run-IsOver [] r w h = refl
  run-IsOver (x ∷ xs) r w h =
      let (h', e) = step-IsOver x r.point r.stopped w h in
      run-IsOver xs (step x r w).0 (step x r w).1 h' ∙ e xs

  -- A round for each datagram, undisturbed.
  abbrev pub rounds_of : List D → List Event
  rounds_of [] = []
  rounds_of (d ∷ ds) = selects ∷ reads (some d) ∷ rounds_of ds

  -- The datagrams in turn, up to the first after which the loop does not go on.
  abbrev pub hear_all : List D → W → W × Bool
  hear_all [] w = (w, true)
  hear_all (d ∷ ds) w =
      let rest = hear_all ds (hear d w).0 in if (hear d w).1 then rest else ((hear d w).0, false)

  ended_rounds :
      (ds : List D) (w : W)
      → let r : Receiver = record { point = ended; stopped = false } in
        run (rounds_of ds) r w ≡ (r, w)
  unfolding run step
  ended_rounds [] w = refl
  ended_rounds (d ∷ ds) w = ended_rounds ds w

  one_round :
      (d : D) (ds : List D) (w : W)
      → run (rounds_of (d ∷ ds)) started w
        ≡ run (rounds_of ds) (go_on (hear d w) started).0 (hear d w).0
  unfolding run step
  one_round d ds w = refl

  open_rounds : (ds : List D) (w : W) → run (rounds_of ds) started w ≡ go_on (hear_all ds w) started
  unfolding run step
  open_rounds [] w = refl
  open_rounds (d ∷ ds) w = elim (Bool-cases (hear d w).1) [
    | inl on ↦ one_round d ds w ∙ rw on (open_rounds ds (hear d w).0)
    | inr off ↦ one_round d ds w ∙ rw off (ended_rounds ds (hear d w).0)
  ]

  closed_reading :
      (d : D) (xs : List Event) (w : W)
      → let r : Receiver = record { point = reading; stopped = true } in
        (run (reads (some d) ∷ xs) r w).1 ≡ apart xs (hear d w).0
  unfolding run step
  closed_reading d xs w = elim (Bool-cases (hear d w).1) [
    | inl on ↦ run-IsOver xs (go_on (hear d w) r).0 (hear d w).0 (rw on refl)
    | inr off ↦ run-IsOver xs (go_on (hear d w) r).0 (hear d w).0 (rw off tt)
  ]
    where
      r : Receiver
      r = record { point = reading; stopped = true }

  -- A receive loop that is not closed handles the datagrams in turn, up to the first after which it
  -- does not go on. Once Close has closed its channel, whatever happens afterwards, it handles
  -- nothing more if it has returned or stands before its select; blocked in Read, it still handles
  -- the next datagram, and no other.
  pub receiver_lem :
      (ds : List D) (d : D) (xs : List Event) (w : W)
      → (run (rounds_of ds) started w ≡ go_on (hear_all ds w) started)
        × ((run xs (record { point = ended; stopped = true }) w).1 ≡ apart xs w)
        × ((run xs (record { point = selecting; stopped = true }) w).1 ≡ apart xs w)
        × ((run (reads (some d) ∷ xs) (record { point = reading; stopped = true }) w).1
            ≡ apart xs (hear d w).0)
  receiver_lem ds d xs w = (
    open_rounds ds w,
    run-IsOver xs (record { point = ended; stopped = true }) w tt,
    run-IsOver xs (record { point = selecting; stopped = true }) w refl,
    closed_reading d xs w,
  )

  pub apart-rounds_of : (ds : List D) (w : W) → apart (rounds_of ds) w ≡ w
  apart-rounds_of [] w = refl
  apart-rounds_of (d ∷ ds) w = apart-rounds_of ds w
