-- ===== src/Tests/Departures.antt =====
-- /leave of src/pkg/daemon/daemon.go at the sample configuration.
use failure_detector.Prelude.{◌+◌, ◌≡◌, ◌⊎◌, refl, some, none, true, false, List, [], ◌∷◌}
use failure_detector.Go.Text.{text_discrete, decimal}
use failure_detector.Go.Clock.{since}
use failure_detector.Go.Netip.{addr_to_string, dotted}
use failure_detector.Node.{endpoint_to_string}
use failure_detector.Prelude.Map.{lookup, insert}
use failure_detector.Store.{alive, key, row, new}
use failure_detector.Store.Invariant.{IsWf, new-IsWf}
use failure_detector.Suspicion.{reached}
use failure_detector.Daemon.{initial, start_protocol}
use failure_detector.Daemon.Admin.{leave}
use failure_detector.Daemon.Ticks.{WhileUp, manager_tick}
use failure_detector.Daemon.Events.{Event, loop_ticks, manager_ticks, handle_events}
use failure_detector.Daemon.Leaving.{departed}
use failure_detector.Daemon.Departure.{leave_ends}
use failure_detector.Tests.Samples.{node_a, member, sample_config, toy_text}
use failure_detector.Tests.Switches.{running, running-IsSynced}

program : Unit {0}
unfolding lookup insert text_discrete decimal addr_to_string dotted endpoint_to_string new
    start_protocol initial
program = tt

running-IsWf : IsWf running.st
unfolding start_protocol initial text_discrete
running-IsWf = new-IsWf node_a sample_config 50

own_row : row (key running.st.self_id) running.st ≡ some (member node_a 100 alive 50)
unfolding program
own_row = refl

own_id : node_a ≡ running.st.self_id
unfolding program
own_id = refl

-- Ticks of the loop and of the manager.
abbrev ticks : List Event
ticks = loop_ticks (λ addr msg. true) 75 (0 ∷ []) (λ n. n + 7) ∷ manager_ticks 78 ∷ []

leave_ends_example :
    WhileUp
      (λ d'.
        (row (key d'.st.self_id) d'.st ≡ some (departed 70 (member node_a 100 alive 50)))
        × ((reached (since 4000 70) d'.sm.t_cleanup ≡ false) ⊎ (manager_tick 4000 d' ≡ none)))
      (handle_events toy_text ticks (leave 70 running))
leave_ends_example =
    leave_ends toy_text ticks 70 4000 running (member node_a 100 alive 50) running-IsSynced
      running-IsWf own_row own_id (tt, (tt, tt))
