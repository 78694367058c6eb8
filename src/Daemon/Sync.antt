-- ===== src/Daemon/Sync.antt =====
-- src/pkg/daemon/daemon.go: the parts of a running daemon agree with its live configuration,
-- whatever events it handles.
use mathlib.Core.Option
use failure_detector.Prelude.{◌≡◌, inl, inr, refl, sym, ◌∙◌, [], none, arith}
use failure_detector.Config.{Config, DurationText, mode_pingack, mode_gossip}
use failure_detector.Config.Apply.{to_dto}
use failure_detector.Store.{Store, reconfigure as set_config}
use failure_detector.Suspicion.{reconfigure as set_limits}
use failure_detector.Inflight.{new_inflight, reset}
use failure_detector.Protocol.Gossip as Gossip
use failure_detector.Protocol.Pingack as Pingack
use failure_detector.Daemon.Modes.{
  IsMode, modes-ne, stay_pingack, stay_gossip, start, start_pingack, start_gossip,
}
use failure_detector.Daemon.{
  Daemon, initial, start_protocol, run_mode, push_knobs, apply_runtime, is_mode,
}
use failure_detector.Daemon.Tuned.{
  Runs, runs_pingack, runs_gossip, pingack-reconfigured, gossip-reconfigured, pingack-started,
  gossip-started, tuned-pingack, tuned-gossip,
}

module _ (dt : DurationText) (cfg : Config) where
  -- The parts of a daemon agree with `cfg`; the shared table of pings is empty.
  pub record Agrees (d : Daemon) : Type 0 where
    pub mode : d.mode ≡ cfg.mode
    pub runs : Runs dt cfg d.loop_pa d.loop_go
    pub strays : d.strays ≡ 0
    pub config : d.st.config ≡ cfg
    pub t_suspect : d.sm.t_suspect ≡ cfg.t_suspect
    pub t_fail : d.sm.t_fail ≡ cfg.t_fail
    pub t_cleanup : d.sm.t_cleanup ≡ cfg.t_cleanup
    pub use_ping_timeout : d.sm.use_ping_timeout ≡ is_mode cfg.mode mode_pingack
    pub inflight : d.inflight ≡ []
    pub live : d.cfg ≡ cfg

-- What stays to do once the loop of the new mode runs.
record Ready (dt : DurationText) (next : Config) (d : Daemon) : Type 0 where
  mode : d.mode ≡ next.mode
  runs :
      Runs dt next
        (Option.map (Pingack.set_config_dto (to_dto dt next)) d.loop_pa)
        (Option.map (Gossip.set_config_dto (to_dto dt next)) d.loop_go)
  strays : d.strays ≡ 0
  inflight : d.inflight ≡ []
  live : d.cfg ≡ next

push_knobs-Agrees :
    (dt : DurationText) (next : Config) (d : Daemon)
    → Ready dt next d
    → Agrees dt next (push_knobs dt next d)
unfolding push_knobs set_config set_limits reset
push_knobs-Agrees dt next d r = record {
  mode = r.mode;
  runs = r.runs;
  strays = r.strays;
  config = refl;
  t_suspect = refl;
  t_fail = refl;
  t_cleanup = refl;
  use_ping_timeout = refl;
  inflight = ground (arith, r.inflight);
  live = r.live;
}

-- The loop of the old mode is stopped before the loop of the new mode starts.
module _ (dt : DurationText) (next : Config) (d : Daemon) (s : d.strays ≡ 0) (i : d.inflight ≡ [])
    (c : d.cfg ≡ next) where
  started-pingack :
      next.mode ≡ mode_pingack → d.loop_pa ≡ none → Ready dt next (start_protocol dt next d)
  started-pingack n p = rw (start_pingack dt d.cfg next d n) (record {
    mode = refl;
    runs = rw (tuned-pingack dt next) (pingack-started dt next n);
    strays = rw (p, s) refl;
    inflight = i;
    live = c;
  })

  started-gossip :
      next.mode ≡ mode_gossip → d.loop_go ≡ none → Ready dt next (start_protocol dt next d)
  started-gossip n p = rw (start_gossip dt d.cfg next d n) (record {
    mode = refl;
    runs = rw (tuned-gossip dt next) (gossip-started dt next n);
    strays = rw (p, s) refl;
    inflight = i;
    live = c;
  })

run_mode-Ready :
    (dt : DurationText) (prev next : Config) (d : Daemon)
    → Runs dt prev d.loop_pa d.loop_go
    → d.mode ≡ prev.mode
    → d.strays ≡ 0
    → d.inflight ≡ []
    → d.cfg ≡ next
    → IsMode next.mode
    → Ready dt next (run_mode dt prev next d)
run_mode-Ready dt prev next d (runs_pingack m l e t g) dm s i c (inl n) =
    rw (stay_pingack dt prev next d l m n e) (record {
      mode = dm ∙ m ∙ sym n;
      runs = rw g (pingack-reconfigured dt next l n);
      strays = s;
      inflight = i;
      live = c;
    })
run_mode-Ready dt prev next d (runs_pingack m l e t g) dm s i c (inr n) =
    rw (start dt prev next d (inr n) (modes-ne prev.mode next.mode m n))
      (started-gossip dt next d s i c n g)
run_mode-Ready dt prev next d (runs_gossip m l e t p) dm s i c (inl n) =
    rw (start dt prev next d (inl n) (λ q. modes-ne next.mode prev.mode n m (sym q)))
      (started-pingack dt next d s i c n p)
run_mode-Ready dt prev next d (runs_gossip m l e t p) dm s i c (inr n) =
    rw (stay_gossip dt prev next d l m n e) (record {
      mode = dm ∙ m ∙ sym n;
      runs = rw p (gossip-reconfigured dt next l n);
      strays = s;
      inflight = i;
      live = c;
    })

-- applyRuntime on a daemon that agrees with the previous configuration leaves one that agrees with
-- the next one.
pub apply_runtime-Agrees :
    (dt : DurationText) (prev next : Config) (d : Daemon)
    → Agrees dt prev d
    → IsMode next.mode
    → Agrees dt next (apply_runtime dt prev next (record d { cfg = next }))
unfolding apply_runtime
apply_runtime-Agrees dt prev next d a n =
    let d' : Daemon = record d { cfg = next } in
    push_knobs-Agrees dt next (run_mode dt prev next d')
      (run_mode-Ready dt prev next d' a.runs a.mode a.strays a.inflight refl n)

-- startProtocol on a new daemon.
pub start-Agrees :
    (dt : DurationText) (cfg : Config) (st : Store)
    → st.config ≡ cfg
    → IsMode cfg.mode
    → Agrees dt cfg (start_protocol dt cfg (initial cfg st))
unfolding initial new_inflight
start-Agrees dt cfg st e (inl n) = rw (start_pingack dt cfg cfg (initial cfg st) n) (record {
  mode = refl;
  runs = pingack-started dt cfg n;
  strays = refl;
  config = e;
  t_suspect = refl;
  t_fail = refl;
  t_cleanup = refl;
  use_ping_timeout = refl;
  inflight = refl;
  live = refl;
})
start-Agrees dt cfg st e (inr n) = rw (start_gossip dt cfg cfg (initial cfg st) n) (record {
  mode = refl;
  runs = gossip-started dt cfg n;
  strays = refl;
  config = e;
  t_suspect = refl;
  t_fail = refl;
  t_cleanup = refl;
  use_ping_timeout = refl;
  inflight = refl;
  live = refl;
})
