-- ===== src/Daemon/Tuned.antt =====
-- The loops of src/pkg/daemon/daemon.go with the knobs of a configuration: those that startProtocol
-- makes, and those that applyRuntime reconfigures.
use mathlib.Core.Option
use failure_detector.Prelude.{◌≡◌, refl, Option, none, some}
use failure_detector.Config.{Config, DurationText, mode_pingack, mode_gossip}
use failure_detector.Config.Apply.{to_dto}
use failure_detector.Protocol.Gossip as Gossip
use failure_detector.Protocol.Pingack as Pingack
use failure_detector.Daemon.{pingack_for, gossip_for}

module _ (dt : DurationText) (cfg : Config) where
  -- A loop works with the knobs of `cfg` and sends it along.
  pub record PingackTuned (l : Pingack.Loop) : Type 0 where
    pub ping_every : l.ping_every ≡ cfg.ping_every
    pub t_suspect : l.t_suspect ≡ cfg.t_suspect
    pub ping_fanout : l.ping_fanout ≡ cfg.ping_fanout
    pub drop_rate_recv : l.drop_rate_recv ≡ cfg.drop_rate_recv
    pub cfg_dto : l.cfg_dto ≡ to_dto dt cfg

  pub record GossipTuned (l : Gossip.Loop) : Type 0 where
    pub gossip_period : l.gossip_period ≡ cfg.gossip_period
    pub gossip_fanout : l.gossip_fanout ≡ cfg.gossip_fanout
    pub drop_rate_recv : l.drop_rate_recv ≡ cfg.drop_rate_recv
    pub cfg_dto : l.cfg_dto ≡ to_dto dt cfg

  -- The loop of the mode of `cfg` runs, with its knobs, and no other.
  pub data Runs (pa : Option Pingack.Loop) (go : Option Gossip.Loop) : Type 0 where
    runs_pingack :
        cfg.mode ≡ mode_pingack
        → (l : Pingack.Loop) → pa ≡ some l
        → PingackTuned l
        → go ≡ none
        → Runs pa go
    runs_gossip :
        cfg.mode ≡ mode_gossip
        → (l : Gossip.Loop) → go ≡ some l
        → GossipTuned l
        → pa ≡ none
        → Runs pa go

-- The loops that run_mode leaves, once they have the new DTO.
module _ (dt : DurationText) (next : Config) where
  abbrev pub tune_pa : Option Pingack.Loop → Option Pingack.Loop
  tune_pa = Option.map (Pingack.set_config_dto (to_dto dt next))

  abbrev pub tune_go : Option Gossip.Loop → Option Gossip.Loop
  tune_go = Option.map (Gossip.set_config_dto (to_dto dt next))

  pub pingack-reconfigured :
      (l : Pingack.Loop)
      → next.mode ≡ mode_pingack
      → Runs dt next (tune_pa (some (Pingack.reconfigure next l))) (tune_go none)
  unfolding Pingack.reconfigure Pingack.set_config_dto
  pingack-reconfigured l n =
      runs_pingack n _ refl
        (record {
          ping_every = refl;
          t_suspect = refl;
          ping_fanout = refl;
          drop_rate_recv = refl;
          cfg_dto = refl;
        })
        refl

  pub gossip-reconfigured :
      (l : Gossip.Loop)
      → next.mode ≡ mode_gossip
      → Runs dt next (tune_pa none) (tune_go (some (Gossip.reconfigure next l)))
  unfolding Gossip.reconfigure Gossip.set_config_dto
  gossip-reconfigured l n =
      runs_gossip n _ refl
        (record {
          gossip_period = refl;
          gossip_fanout = refl;
          drop_rate_recv = refl;
          cfg_dto = refl;
        })
        refl

  pub pingack-started : next.mode ≡ mode_pingack → Runs dt next (some (pingack_for dt next)) none
  unfolding Pingack.new
  pingack-started n =
      runs_pingack n _ refl
        (record {
          ping_every = refl;
          t_suspect = refl;
          ping_fanout = refl;
          drop_rate_recv = refl;
          cfg_dto = refl;
        })
        refl

  pub gossip-started : next.mode ≡ mode_gossip → Runs dt next none (some (gossip_for dt next))
  unfolding Gossip.new
  gossip-started n =
      runs_gossip n _ refl
        (record {
          gossip_period = refl;
          gossip_fanout = refl;
          drop_rate_recv = refl;
          cfg_dto = refl;
        })
        refl

  -- A second copy of the same DTO changes nothing.
  pub tuned-pingack : tune_pa (some (pingack_for dt next)) ≡ some (pingack_for dt next)
  unfolding Pingack.new Pingack.set_config_dto
  tuned-pingack = refl

  pub tuned-gossip : tune_go (some (gossip_for dt next)) ≡ some (gossip_for dt next)
  unfolding Gossip.new Gossip.set_config_dto
  tuned-gossip = refl
