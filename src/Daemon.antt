-- ===== src/Daemon.antt =====
-- src/pkg/daemon/daemon.go: the daemon holds the store, the loop of the current protocol, the
-- suspicion manager and the live configuration, and passes each change of the configuration on.
-- Sockets, HTTP and the log are not modelled: a handler takes what was decoded.
pub mod Admin
pub mod Views
pub mod Receive
pub mod Frame
pub mod Modes
pub mod Tuned
pub mod Sync
pub mod Synced
pub mod Messages
pub mod Ticks
pub mod Events
pub mod Join
pub mod Joining
pub mod Handshake
pub mod Boot
pub mod Booted
pub mod Diff
pub mod Switch
pub mod Leaving
pub mod Departure
use mathlib.Core.Option
use failure_detector.Prelude.{
  ℕ, ◌⊎◌, inl, inr, suc, ◌+◌, Bool, true, false, not, ◌&&◌, ◌||◌, List, [], ◌∷◌, Option, none, some,
  holds, if◌then◌else◌, map,
}
use failure_detector.Prelude.Int.{ℤ, pos, add_u64, leb_ℤ}
use failure_detector.Go.Text.{Text, codes, text_discrete}
use failure_detector.Go.Clock.{Time, Duration}
use failure_detector.Go.Float.{Float64}
use failure_detector.Node.{NodeId, NodeId-discrete}
use failure_detector.Config.{
  Config, ConfigDto, ConfigError, DurationText, mode_pingack, mode_gossip, not_positive,
}
use failure_detector.Config.Apply.{to_dto, apply_remote, bump_and_apply_local, is_empty}
use failure_detector.Store.{
  State, MemberEntry, Store, snapshot, apply_locked, merge_full_list, left,
  reconfigure as set_config,
}
use failure_detector.Inflight.{Inflight, new_inflight, reset}
use failure_detector.Suspicion.{Manager, reconfigure as set_limits}
use failure_detector.Wire.{Message, JoinRequest, JoinResponse}
use failure_detector.Protocol.{should_drop}
use failure_detector.Protocol.Gossip as Gossip
use failure_detector.Protocol.Pingack as Pingack

-- Daemon. `strays` counts the loops that run on although the daemon has lost its pointer to them.
pub record Daemon : Type 0 where
  pub st : Store
  pub mode : Text
  pub loop_pa : Option Pingack.Loop
  pub loop_go : Option Gossip.Loop
  pub sm : Manager
  pub inflight : Inflight  -- shared with the manager
  pub cfg : Config
  pub strays : ℕ

abbrev pub is_mode : Text → Text → Bool
is_mode a b = holds (text_discrete a b)

-- The part of Run before the join.
unfoldable pub initial : Config → Store → Daemon
initial cfg st = record {
  st = st;
  mode = cfg.mode;
  loop_pa = none;
  loop_go = none;
  sm = record {
    t_suspect = cfg.t_suspect;
    t_fail = cfg.t_fail;
    t_cleanup = cfg.t_cleanup;
    use_ping_timeout = is_mode cfg.mode mode_pingack;
    fail_marks = pos 0;
  };
  inflight = new_inflight;
  cfg = cfg;
  strays = 0;
}

-- stopPingAck
abbrev pub stop_pingack : Daemon → Daemon
stop_pingack d = record d { loop_pa = none }

-- stopGossip
abbrev pub stop_gossip : Daemon → Daemon
stop_gossip d = record d { loop_go = none }

-- A pointer to a running loop that is about to be overwritten.
abbrev pub lost {ℓ} : {A : Type ℓ} → Option A → ℕ
lost none = 0
lost (some l) = 1

module _ (dt : DurationText) where
  abbrev pub pingack_for : Config → Pingack.Loop
  pingack_for cfg =
      record (Pingack.new cfg.ping_every cfg.t_suspect cfg.ping_fanout (to_dto dt cfg)) {
        drop_rate_recv = cfg.drop_rate_recv;
      }

  abbrev pub gossip_for : Config → Gossip.Loop
  gossip_for cfg = record (Gossip.new cfg.gossip_period cfg.gossip_fanout (to_dto dt cfg)) {
    drop_rate_recv = cfg.drop_rate_recv;
  }

  -- startProtocol
  unfoldable pub start_protocol : Config → Daemon → Daemon
  start_protocol cfg d =
      if is_mode cfg.mode mode_pingack
      then record (stop_gossip d) {
        loop_pa = some (pingack_for cfg);
        strays = d.strays + lost d.loop_pa;
        mode = cfg.mode;
      }
      else if is_mode cfg.mode mode_gossip
      then record (stop_pingack d) {
        loop_go = some (gossip_for cfg);
        strays = d.strays + lost d.loop_go;
        mode = cfg.mode;
      }
      else record d { mode = cfg.mode }

  -- The switch at the start of applyRuntime.
  unfoldable pub run_mode : Config → Config → Daemon → Daemon
  unfolding start_protocol
  run_mode prev next d =
      let changed = not (is_mode prev.mode next.mode) in
      if is_mode next.mode mode_pingack
      then elim d.loop_pa [
        | none ↦ start_protocol next d
        | some l ↦
            if changed
            then start_protocol next d
            else record d { loop_pa = some (Pingack.reconfigure next l) }
      ]
      else if is_mode next.mode mode_gossip
      then elim d.loop_go [
        | none ↦ start_protocol next d
        | some l ↦
            if changed
            then start_protocol next d
            else record d { loop_go = some (Gossip.reconfigure next l) }
      ]
      else d

  -- The rest of applyRuntime; the manager and the store are never nil.
  unfoldable pub push_knobs : Config → Daemon → Daemon
  push_knobs next d =
      let use_to = is_mode next.mode mode_pingack in
      record d {
        sm = set_limits next.t_suspect next.t_fail next.t_cleanup use_to d.sm;
        inflight = if use_to then d.inflight else reset d.inflight;
        st = set_config next d.st;
        loop_go = Option.map (Gossip.set_config_dto (to_dto dt next)) d.loop_go;
        loop_pa = Option.map (Pingack.set_config_dto (to_dto dt next)) d.loop_pa;
      }

  -- applyRuntime
  unfoldable pub apply_runtime : Config → Config → Daemon → Daemon
  unfolding run_mode push_knobs
  apply_runtime prev next d = push_knobs next (run_mode prev next d)

  -- What follows a change of `d.cfg` to `next`.
  abbrev pub adopt : Config × Bool × Option ConfigError → Daemon → Daemon
  adopt (next, changed, none) d =
      if changed
      then apply_runtime d.cfg next (record d { cfg = next })
      else record d { cfg = next }
  adopt (next, changed, some e) d = record d { cfg = next }

  -- onConfigFromWire
  unfoldable pub on_config_from_wire : ConfigDto → Daemon → Daemon
  unfolding apply_runtime
  on_config_from_wire dto d = adopt (apply_remote dt d.cfg dto) d

  -- The handler of /set, for the DTO that was loaded.
  unfoldable pub set : ConfigDto → Daemon → Daemon × Option ConfigError
  unfolding apply_runtime
  set dto d =
      let (next, changed, e) = bump_and_apply_local dt d.cfg dto in (adopt (next, changed, e) d, e)

  -- handleJoin, for the request that was decoded
  unfoldable pub handle_join : Time → JoinRequest → Daemon → JoinResponse × Daemon
  handle_join now req d =
      let ((entries, self), st) = snapshot now (merge_full_list now req.list d.st) in
      (record { config_dto = to_dto dt d.cfg; list = entries }, record d { st = st })

  -- joinCluster: the request, and what is done with the response.
  unfoldable pub join_request : Time → Daemon → JoinRequest × Daemon
  join_request now d =
      let ((entries, self), st) = snapshot now d.st in
      (record { list = entries }, record d { st = st })

  -- An error is only logged here; `changed` is false with an error.
  unfoldable pub join : Time → JoinResponse → Daemon → Daemon
  unfolding apply_runtime
  join now resp d =
      let d' = adopt (apply_remote dt d.cfg resp.config_dto) d in
      record d' { st = merge_full_list now resp.list d'.st }

  -- The rest of Run: an introducer starts its protocol; another node joins first.
  unfoldable pub start_joined : Time → Config → JoinResponse → Daemon → Daemon
  unfolding join start_protocol
  start_joined now cfg resp d = start_protocol cfg (join now resp d)
