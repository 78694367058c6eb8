-- ===== src/Daemon/Join.antt =====
-- Run of src/pkg/daemon/daemon.go on a node that joins: which configuration its loop works with.
use failure_detector.Prelude.{◌≡◌, refl, ◌∙◌, Bool, true, false, Option, none, some, inl, inr}
use failure_detector.Go.Clock.{Time}
use failure_detector.Config.{Config, ConfigError, DurationText, validate_cluster_params}
use failure_detector.Config.Apply.{apply_remote}
use failure_detector.Store.{Store}
use failure_detector.Wire.{JoinResponse}
use failure_detector.Daemon.{
  Daemon, initial, start_protocol, push_knobs, apply_runtime, adopt, join, start_joined,
}
use failure_detector.Daemon.Frame.{start_protocol-frame, run_mode-frame}
use failure_detector.Daemon.Modes.{IsMode, valid-IsMode, start_pingack, start_gossip}
use failure_detector.Daemon.Tuned.{Runs, pingack-started, gossip-started}

module _ (dt : DurationText) where
  pub adopt-live :
      (next : Config) (changed : Bool) (e : Option ConfigError) (d : Daemon)
      → (adopt dt (next, changed, e) d).cfg ≡ next
  unfolding apply_runtime push_knobs
  adopt-live next true none d = (run_mode-frame dt d.cfg next (record d { cfg = next })).0
  adopt-live next false none d = refl
  adopt-live next changed (some e) d = refl

  Runs-started :
      (c : Config) (d : Daemon)
      → IsMode c.mode
      → let d' = start_protocol dt c d in Runs dt c d'.loop_pa d'.loop_go
  Runs-started c d (inl n) = rw (start_pingack dt c c d n) (pingack-started dt c n)
  Runs-started c d (inr n) = rw (start_gossip dt c c d n) (gossip-started dt c n)

  -- A node with a valid configuration that joins ends with the configuration that it took over from
  -- the introducer, if any, and yet with the loop of the mode and the knobs that it was started
  -- with, and that loop sends the old configuration along.
  pub start_joined_stale :
      (now : Time) (c : Config) (resp : JoinResponse) (st : Store)
      → validate_cluster_params c ≡ none
      → let d = start_joined dt now c resp (initial c st) in
        (d.cfg ≡ (apply_remote dt c resp.config_dto).0) × Runs dt c d.loop_pa d.loop_go
  unfolding start_joined join apply_remote initial
  start_joined_stale now c resp st v =
      let (next, changed, e) = apply_remote dt c resp.config_dto in
      (
        (start_protocol-frame dt c (join dt now resp (initial c st))).0
            ∙ adopt-live next changed e (initial c st),
        Runs-started c (join dt now resp (initial c st)) (valid-IsMode c v),
      )
