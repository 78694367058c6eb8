-- ===== src/Daemon/Events.antt =====
-- src/pkg/daemon/daemon.go: the parts of a daemon agree with its live configuration after any
-- sequence of events.
use mathlib.Core.Option
use failure_detector.Prelude.{Bool, ℕ, ◌≡◌, sym, subst, List, [], ◌∷◌, Option, none, some}
use failure_detector.Go.Text.{Text}
use failure_detector.Go.Clock.{Time, Duration}
use failure_detector.Go.Float.{Float64}
use failure_detector.Config.{Config, ConfigDto, DurationText, validate_cluster_params}
use failure_detector.Store.{Store, snapshot}
use failure_detector.Store.Settings.{snapshot-config}
use failure_detector.Suspicion.{Progress, reap_inflight}
use failure_detector.Wire.{Message, JoinRequest}
use failure_detector.Daemon.{Daemon, initial, start_protocol, on_config_from_wire, set, handle_join}
use failure_detector.Daemon.Receive.{receive}
use failure_detector.Daemon.Admin.{SwitchReq, switch, leave}
use failure_detector.Daemon.Views.{list_mem, display_suspects}
use failure_detector.Daemon.Ticks.{
  WhileUp, loop_tick, manager_tick, meter_tick, loop-IsSynced, manager-IsSynced, meter-IsSynced,
  reap_nothing,
}
use failure_detector.Daemon.Synced.{
  IsSynced, with_store, wire-IsSynced, set-IsSynced, switch-IsSynced, join-IsSynced, leave-IsSynced,
}
use failure_detector.Daemon.Messages.{receive-IsSynced}
use failure_detector.Daemon.Modes.{valid-IsMode}
use failure_detector.Daemon.Sync.{Agrees, start-Agrees}

-- What happens to a daemon: a configuration from the wire, /set, /switch, a request to join, /leave,
-- /list_mem, /display_suspects, a message for the loop that runs, and ticks of that loop, of the
-- manager and of its meter.
pub data Event : Type 0 where
  config_arrives : ConfigDto → Event
  admin_sets : ConfigDto → Event
  -- The texts are those the handler has read from the body.
  admin_switches : SwitchReq → Event
  node_joins : Time → JoinRequest → Event
  admin_leaves : Time → Event
  admin_lists admin_asks_suspects : (Time → Text) → Time → Event
  message_arrives : Time → Float64 → Message → Event
  loop_ticks : (Text → Message → Bool) → Time → List ℕ → (ℕ → ℕ) → Event
  manager_ticks : Time → Event
  meter_ticks : Event

-- `none` is the exit of the process.
unfoldable pub handle_event : DurationText → Event → Daemon → Option Daemon
handle_event dt (config_arrives dto) d = some (on_config_from_wire dt dto d)
handle_event dt (admin_sets dto) d = some (set dt dto d).0
handle_event dt (admin_switches req) d = some (switch dt req d).0
handle_event dt (node_joins now req) d = some (handle_join dt now req d).1
handle_event dt (admin_leaves now) d = some (leave now d)
handle_event dt (admin_lists format now) d = some (list_mem format now d).1
handle_event dt (admin_asks_suspects format now) d = some (display_suspects format now d).1
handle_event dt (message_arrives now draw msg) d = some (receive dt now draw msg d).1
handle_event dt (loop_ticks reaches now perm nonces) d =
    some (loop_tick reaches now perm nonces d).1
handle_event dt (manager_ticks now) d = manager_tick now d
handle_event dt meter_ticks d = some (meter_tick d)

unfoldable pub handle_events : DurationText → List Event → Daemon → Option Daemon
unfolding handle_event Option.bind
handle_events dt [] d = some d
handle_events dt (x ∷ xs) d = Option.bind (handle_event dt x d) (λ d'. handle_events dt xs d')

pub bind-WhileUp :
    (P Q : Daemon → Type 0) (o : Option Daemon) (f : Daemon → Option Daemon)
    → ((d : Daemon) → P d → WhileUp Q (f d))
    → WhileUp P o
    → WhileUp Q (Option.bind o f)
unfolding Option.bind
bind-WhileUp P Q none f h p = tt
bind-WhileUp P Q (some d) f h p = h d p

pub WhileUp-map :
    (P Q : Daemon → Type 0) (o : Option Daemon)
    → ((d : Daemon) → P d → Q d)
    → WhileUp P o
    → WhileUp Q o
WhileUp-map P Q none h p = tt
WhileUp-map P Q (some d) h p = h d p

pub event-IsSynced :
    (dt : DurationText) (x : Event) (d : Daemon)
    → IsSynced dt d
    → WhileUp (IsSynced dt) (handle_event dt x d)
unfolding handle_event receive list_mem display_suspects
event-IsSynced dt (config_arrives dto) d w = wire-IsSynced dt dto d w
event-IsSynced dt (admin_sets dto) d w = set-IsSynced dt dto d w
event-IsSynced dt (admin_switches req) d w = switch-IsSynced dt req d w
event-IsSynced dt (node_joins now req) d w = join-IsSynced dt now req d w
event-IsSynced dt (admin_leaves now) d w = leave-IsSynced dt now d w
event-IsSynced dt (admin_lists format now) d w =
    with_store dt (snapshot now d.st).1 d (snapshot-config now d.st) w
event-IsSynced dt (admin_asks_suspects format now) d w =
    with_store dt (snapshot now d.st).1 d (snapshot-config now d.st) w
event-IsSynced dt (message_arrives now draw msg) d w =
    receive-IsSynced dt now draw msg d.loop_pa d.loop_go d w
event-IsSynced dt (loop_ticks reaches now perm nonces) d w =
    loop-IsSynced dt reaches now perm nonces d w
event-IsSynced dt (manager_ticks now) d w = manager-IsSynced dt now d w
event-IsSynced dt meter_ticks d w = meter-IsSynced dt d w

events-IsSynced :
    (dt : DurationText) (xs : List Event) (d : Daemon)
    → IsSynced dt d
    → WhileUp (IsSynced dt) (handle_events dt xs d)
unfolding handle_events
events-IsSynced dt [] d w = w
events-IsSynced dt (x ∷ xs) d w =
    bind-WhileUp (IsSynced dt) (IsSynced dt) (handle_event dt x d) (λ d'. handle_events dt xs d')
      (λ d' w'. events-IsSynced dt xs d' w') (event-IsSynced dt x d w)

-- An introducer with a valid configuration whose protocol has started: after any sequence of
-- configurations from the wire, admin requests, joins, messages and ticks, unless the process has
-- ended, exactly the loop of the current mode runs, and it, the store and the suspicion manager work
-- with the live configuration, which is valid; no loop runs astray; and the table of pings of the
-- manager is empty.
pub events-start-IsSynced :
    (dt : DurationText) (xs : List Event) (cfg : Config) (st : Store)
    → st.config ≡ cfg
    → validate_cluster_params cfg ≡ none
    → WhileUp (IsSynced dt) (handle_events dt xs (start_protocol dt cfg (initial cfg st)))
events-start-IsSynced dt xs cfg st e v =
    let a = start-Agrees dt cfg st e (valid-IsMode cfg v) in
    events-IsSynced dt xs (start_protocol dt cfg (initial cfg st)) (record {
      valid = subst (λ c. validate_cluster_params c ≡ none) (sym a.live) v;
      agrees = subst (λ c. Agrees dt c (start_protocol dt cfg (initial cfg st))) (sym a.live) a;
    })

nothing_reaped :
    (dt : DurationText) (now : Time) (t_suspect : Duration) (p : Progress) (d : Daemon)
    → IsSynced dt d
    → reap_inflight now t_suspect d.inflight p ≡ (d.inflight, p)
nothing_reaped dt now t_suspect p d w = rw (w.agrees.inflight) (reap_nothing now t_suspect p)

-- After any such events on a new introducer with a valid configuration, unless the process has
-- ended, reapInflight finds no ping in the table of the manager, and changes nothing.
pub pings_never_reaped :
    (dt : DurationText) (xs : List Event) (cfg : Config) (st : Store)
    → st.config ≡ cfg
    → validate_cluster_params cfg ≡ none
    → (now : Time) (t_suspect : Duration) (p : Progress)
    → WhileUp
        (λ d. reap_inflight now t_suspect d.inflight p ≡ (d.inflight, p))
        (handle_events dt xs (start_protocol dt cfg (initial cfg st)))
pings_never_reaped dt xs cfg st e v now t_suspect p =
    WhileUp-map (IsSynced dt) _ (handle_events dt xs (start_protocol dt cfg (initial cfg st)))
      (nothing_reaped dt now t_suspect p) (events-start-IsSynced dt xs cfg st e v)
