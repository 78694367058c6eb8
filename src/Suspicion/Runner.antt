-- ===== src/Suspicion/Runner.antt =====
-- The goroutine of Run of src/pkg/suspicion/manager.go, and Close. Run makes the channel that Close
-- closes. When the channel is closed and a ticker is ready, select takes either.
use failure_detector.Prelude.{◌≡◌, refl, List, [], ◌∷◌, Option, none, some, map}
use failure_detector.Go.Clock.{Time}
use failure_detector.Store.{Store}
use failure_detector.Inflight.{Inflight}
use failure_detector.Suspicion.{Manager, tick, rate_tick}

-- The field `stop`.
pub data Channel : Type 0 where
  no_channel made closed : Channel

-- Before the first statement of Run, in its loop, or returned.
pub data Place : Type 0 where
  unstarted selecting returned : Place

abbrev pub World : Type 0
World = Manager × Option Inflight × Store

pub record Runner : Type 0 where
  pub stop : Channel
  pub place : Place
  pub world : World

-- Close of a nil or closed channel panics; a scan may end the process.
pub data Result : Type 0 where
  panics exits : Result
  goes : Runner → Result

-- The first statement of Run, Close, a return of Run, its two tickers, and the rest of the program.
pub data Event : Type 0 where
  begins closes returns meters : Event
  ticks : Time → Event
  others : (World → World) → Event

-- close(m.stop)
abbrev pub close_channel : Channel → Runner → Result
close_channel no_channel r = panics
close_channel made r = goes (record r { stop = closed })
close_channel closed r = panics

abbrev pub return_if : Channel → Runner → Result
return_if closed r = goes (record r { place = returned })
return_if no_channel r = goes r
return_if made r = goes r

abbrev pub ticked : Runner → Option World → Result
ticked r none = exits
ticked r (some w) = goes (record r { world = w })

-- A case of the select.
abbrev pub select : Event → Runner → Result
select returns r = return_if r.stop r
select meters r = goes (record r { world = ((rate_tick r.world.0).0, r.world.1, r.world.2) })
select (ticks now) r = ticked r (tick now r.world.0 r.world.1 r.world.2)
select begins r = goes r
select closes r = goes r
select (others f) r = goes r

abbrev pub run_at : Place → Event → Runner → Result
run_at unstarted begins r = goes (record r { stop = made; place = selecting })
run_at selecting e r = select e r
run_at _ _ r = goes r

unfoldable pub step : Event → Runner → Result
step closes r = close_channel r.stop r
step (others f) r = goes (record r { world = f r.world })
step e r = run_at r.place e r

abbrev pub then_run : (Runner → Result) → Result → Result
then_run f panics = panics
then_run f exits = exits
then_run f (goes r) = f r

unfoldable pub run : List Event → Runner → Result
unfolding step
run [] r = goes r
run (e ∷ es) r = then_run (run es) (step e r)

abbrev pub launched : World → Runner
launched w = record { stop = no_channel; place = unstarted; world = w }

-- Once it has returned, its tickers do nothing.
returned_ticks :
    (ts : List Time) (w : World)
    → let r : Runner = record { stop = closed; place = returned; world = w } in
      run (map ticks ts) r ≡ goes r
unfolding run step
returned_ticks [] w = refl
returned_ticks (t ∷ ts) w = returned_ticks ts w

then_goes : (x : Result) → then_run (λ r. goes r) x ≡ x
then_goes panics = refl
then_goes exits = refl
then_goes (goes r) = refl

-- Close after the first statement of Run lets the goroutine take one more of its ticks or return,
-- and then it does nothing more; Close before that statement, or a second Close, panics.
pub runner_lem :
    (w : World) (now : Time) (ts : List Time) (es : List Event)
    → let closing : Runner = record { stop = closed; place = selecting; world = w } in
      (run (begins ∷ closes ∷ returns ∷ map ticks ts) (launched w)
        ≡ goes (record closing { place = returned }))
      × (run (begins ∷ closes ∷ ticks now ∷ []) (launched w)
          ≡ ticked closing (tick now w.0 w.1 w.2))
      × (run (closes ∷ es) (launched w) ≡ panics)
      × (run (begins ∷ closes ∷ closes ∷ es) (launched w) ≡ panics)
unfolding run step
runner_lem w now ts es = (
  returned_ticks ts w,
  then_goes
      (ticked (record { stop = closed; place = selecting; world = w }) (tick now w.0 w.1 w.2)),
  refl,
  refl,
)
