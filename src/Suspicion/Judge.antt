-- ===== src/Suspicion/Judge.antt =====
-- The verdict of scanOnce of src/pkg/suspicion/manager.go on one row, as a function of the row.
use failure_detector.Prelude.{not, ◌&&◌, Option, none, some, holds, if◌then◌else◌}
use failure_detector.Prelude.Int.{add_i64}
use failure_detector.Go.Clock.{Time, since}
use failure_detector.Node.{NodeId, NodeId-discrete}
use failure_detector.Store.{MemberEntry, suspect, failed, is_left, is_alive, enabled}
use failure_detector.Suspicion.{Limits, is_failed, is_watched, reached}

-- The row that a scan leaves; `none` is a row that it deletes.
unfoldable pub judge : Time → Limits → NodeId → MemberEntry → Option MemberEntry
judge now l self e =
    let age = since now e.last_update in
    if is_left e.state && reached age l.t_cleanup
    then none
    else if holds (NodeId-discrete e.id self)
    then some e
    else if enabled l.t_suspect
    then if reached age (add_i64 (add_i64 l.t_suspect l.t_fail) l.t_cleanup)
      then none
      else if reached age (add_i64 l.t_suspect l.t_fail) && is_watched e.state
      then some (record e { state = failed })
      else if reached age l.t_suspect && is_alive e.state
      then some (record e { state = suspect })
      else some e
    else if reached age (add_i64 l.t_fail l.t_cleanup)
    then none
    else if reached age l.t_fail && not (is_failed e.state)
    then some (record e { state = failed })
    else some e
