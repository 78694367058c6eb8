-- ===== src/Daemon/Frame.antt =====
-- What startProtocol and the switch at the start of applyRuntime of src/pkg/daemon/daemon.go leave
-- alone: the live configuration and the store.
use failure_detector.Prelude.{◌≡◌, arith, inl, inr, Option-cases}
use failure_detector.Config.{Config, DurationText}
use failure_detector.Daemon.{Daemon, start_protocol, run_mode}

module _ (dt : DurationText) where
  pub start_protocol-frame :
      (c : Config) (d : Daemon)
      → ((start_protocol dt c d).cfg ≡ d.cfg) × ((start_protocol dt c d).st ≡ d.st)
  unfolding start_protocol
  start_protocol-frame c d = ground arith

  pub run_mode-frame :
      (prev next : Config) (d : Daemon)
      → ((run_mode dt prev next d).cfg ≡ d.cfg) × ((run_mode dt prev next d).st ≡ d.st)
  unfolding run_mode
  run_mode-frame prev next d = elim (Option-cases d.loop_pa) [
    | inl p ↦ elim (Option-cases d.loop_go) [
      | inl g ↦ ground (arith, start_protocol-frame next d)
      | inr (l, g) ↦ ground (arith, start_protocol-frame next d)
    ]
    | inr (l, p) ↦ elim (Option-cases d.loop_go) [
      | inl g ↦ ground (arith, start_protocol-frame next d)
      | inr (l', g) ↦ ground (arith, start_protocol-frame next d)
    ]
  ]
