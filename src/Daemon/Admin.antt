-- ===== src/Daemon/Admin.antt =====
-- The handlers of /leave and /switch of src/pkg/daemon/daemon.go.
use mathlib.Core.Option
use failure_detector.Prelude.{
  ◌⊎◌, inl, inr, ◌||◌, List, [], ◌∷◌, Option, none, some, holds, if◌then◌else◌,
}
use failure_detector.Prelude.Int.{add_u64}
use failure_detector.Go.Text.{Text, codes}
use failure_detector.Go.Clock.{Time, Duration}
use failure_detector.Node.{NodeId-discrete}
use failure_detector.Config.{
  ConfigDto, ConfigError, DurationText, mode_pingack, mode_gossip, not_positive,
}
use failure_detector.Config.Apply.{to_dto, is_empty}
use failure_detector.Store.{MemberEntry, Store, snapshot, apply_locked, left}
use failure_detector.Daemon.{Daemon, is_mode, set}

-- /leave
unfoldable pub leave_rows : Time → List MemberEntry → Store → Store
leave_rows now [] s = s
leave_rows now (e ∷ l) s = leave_rows now l (
    if holds (NodeId-discrete e.id s.self_id)
    then apply_locked now s.self_id (add_u64 e.incarnation 1) left s
    else s)

unfoldable pub leave : Time → Daemon → Daemon
unfolding leave_rows
leave now d =
    let ((entries, self), st) = snapshot now d.st in record d { st = leave_rows now entries st }

-- switchReq, the body of /switch.
pub record SwitchReq : Type 0 where
  pub protocol : Text
  pub suspicion : Text
  pub suspicion_time : Text

-- strings.TrimSpace and strings.ToLower.
pub record StringOps : Type 0 where
  pub trim : Text → Text
  pub to_lower : Text → Text

-- The handler reads each text trimmed, and in lower case but for the time.
unfoldable pub read_req : StringOps → SwitchReq → SwitchReq
read_req ops req = record {
  protocol = ops.to_lower (ops.trim req.protocol);
  suspicion = ops.to_lower (ops.trim req.suspicion);
  suspicion_time = ops.trim req.suspicion_time;
}

-- The answers of /switch with status 400.
pub data SwitchError : Type 0 where
  bad_protocol time_required bad_time bad_suspicion : SwitchError
  bad_config : ConfigError → SwitchError

abbrev pub positive_time : DurationText → Option Duration → SwitchError ⊎ Text
positive_time dt none = inl bad_time
positive_time dt (some dur) = if not_positive dur then inl bad_time else inr (dt.format dur)

-- The switch on the field for the suspicion: the text of the new TSuspect.
unfoldable pub new_suspicion : DurationText → SwitchReq → SwitchError ⊎ Text
new_suspicion dt req =
    if is_mode req.suspicion (codes "enabled")
    then if is_empty req.suspicion_time
      then inl time_required
      else positive_time dt (dt.parse req.suspicion_time)
    else if is_mode req.suspicion (codes "disabled")
    then inr (codes "0ms")
    else inl bad_suspicion

abbrev pub switch_to :
    DurationText → Text → SwitchError ⊎ Text → Daemon → Daemon × Option SwitchError
switch_to dt p (inl e) d = (d, some e)
switch_to dt p (inr t_suspect) d =
    let dto : ConfigDto = record (to_dto dt d.cfg) { mode = p; t_suspect = t_suspect } in
    let (d', e) = set dt dto d in (d', Option.map bad_config e)

-- /switch, for the texts the handler has read: its tail is that of /set.
unfoldable pub switch : DurationText → SwitchReq → Daemon → Daemon × Option SwitchError
unfolding new_suspicion set
switch dt req d =
    if is_mode req.protocol mode_gossip || is_mode req.protocol mode_pingack
    then switch_to dt req.protocol (new_suspicion dt req) d
    else (d, some bad_protocol)

-- /switch, for the body of the request.
unfoldable pub handle_switch :
    StringOps → DurationText → SwitchReq → Daemon → Daemon × Option SwitchError
unfolding switch read_req
handle_switch ops dt req d = switch dt (read_req ops req) d
