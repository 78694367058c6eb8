-- ===== src/Daemon/Receive.antt =====
-- A message of src/pkg/protocol reaches the daemon of src/pkg/daemon/daemon.go: its configuration
-- first, then the loop that runs. That a receive loop has ended, after /leave, is not kept: such a
-- loop is given messages that it would not read.
use failure_detector.Prelude.{Option, none, some, if◌then◌else◌}
use failure_detector.Go.Clock.{Time}
use failure_detector.Go.Float.{Float64}
use failure_detector.Config.{DurationText}
use failure_detector.Wire.{Message}
use failure_detector.Protocol.{should_drop}
use failure_detector.Protocol.Gossip as Gossip
use failure_detector.Protocol.Pingack as Pingack
use failure_detector.Daemon.{Daemon, on_config_from_wire}

module _ (dt : DurationText) where
  -- The receive loops: `if msg.Cfg != nil && l.OnConfig != nil`
  unfoldable pub receive_config : Message → Daemon → Daemon
  unfolding on_config_from_wire
  receive_config msg d = elim msg.cfg [ none ↦ d | some dto ↦ on_config_from_wire dt dto d ]

  -- The handling of a message by the loop `l` of pingack, which stands in `d` unless the new
  -- configuration has stopped it: then it still handles this message.
  abbrev pub hear_pingack :
      Time → Message → Pingack.Loop → Option Pingack.Loop → Daemon → Option Message × Daemon
  hear_pingack now msg l none d =
      let h = Pingack.handle now msg l d.st in (h.reply, record d { st = h.st })
  hear_pingack now msg l (some l') d =
      let h = Pingack.handle now msg l' d.st in
      (h.reply, record d { st = h.st; loop_pa = some h.loop })

  -- A round of recvLoop of pingack: what is sent back, and the daemon. `draw` is what rand.Float64
  -- drew.
  unfoldable pub receive_pingack :
      Time → Float64 → Message → Pingack.Loop → Daemon → Option Message × Daemon
  unfolding receive_config
  receive_pingack now draw msg l d =
      if should_drop l.drop_rate_recv draw
      then (none, d)
      else let d' = receive_config msg d in hear_pingack now msg l d'.loop_pa d'

  -- A round of recvLoop of gossip.
  unfoldable pub receive_gossip : Time → Float64 → Message → Gossip.Loop → Daemon → Daemon
  unfolding receive_config
  receive_gossip now draw msg l d =
      if should_drop l.drop_rate_recv draw
      then d
      else let d' = receive_config msg d in record d' { st = (Gossip.handle now msg d'.st).0 }

  abbrev pub receive_by :
      Time
      → Float64
      → Message
      → Option Pingack.Loop
      → Option Gossip.Loop
      → Daemon
      → Option Message × Daemon
  receive_by now draw msg (some l) g d = receive_pingack now draw msg l d
  receive_by now draw msg none (some l) d = (none, receive_gossip now draw msg l d)
  receive_by now draw msg none none d = (none, d)

  -- A message reaches the loop that runs.
  unfoldable pub receive : Time → Float64 → Message → Daemon → Option Message × Daemon
  unfolding receive_pingack receive_gossip
  receive now draw msg d = receive_by now draw msg d.loop_pa d.loop_go d
