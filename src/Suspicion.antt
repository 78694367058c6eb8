-- ===== src/Suspicion.antt =====
-- src/pkg/suspicion/manager.go: the scan that ages the rows of the table, and the handling of pings
-- that got no ACK. The manager's pointers to the store and to the table of pings are the store and
-- the table that a call takes and returns.
pub mod Judge
pub mod Runner
pub mod Scan
pub mod Refinement
pub mod Silence
pub mod CatchUp
pub mod Disabled
pub mod Reap
pub mod Leaving
use failure_detector.Prelude.{
  ℕ, ◌≡◌, Bool, true, false, not, ◌&&◌, ◌||◌, List, [], ◌∷◌, Option, none, some, holds,
  if◌then◌else◌,
}
use failure_detector.Prelude.Int.{ℤ, pos, leb_ℤ, add_i64}
use failure_detector.Go.Text.{Text, text_discrete}
use failure_detector.Go.Clock.{Time, Duration, since}
use failure_detector.Node.{NodeId, NodeId-discrete}
use failure_detector.Store.{
  State, MemberEntry, Store, suspect, failed, key, is_left, is_alive, enabled, snapshot,
  apply_locked, remove_entry,
}
use failure_detector.Inflight.{Inflight, ExpiredRec, expired}

-- The knobs of Manager and its counter of failures.
pub record Manager : Type 0 where
  pub t_suspect : Duration
  pub t_fail : Duration
  pub t_cleanup : Duration
  pub use_ping_timeout : Bool
  pub fail_marks : ℤ  -- int64

-- The store and the counter in the course of a scan.
pub record Progress : Type 0 where
  pub st : Store
  pub fail_marks : ℤ

abbrev pub is_failed : State → Bool
is_failed failed = true
is_failed _ = false

-- `e.State == store.StateAlive || e.State == store.StateSuspect`
abbrev pub is_watched : State → Bool
is_watched State.alive = true
is_watched suspect = true
is_watched _ = false

-- `age >= limit`
abbrev pub reached : Duration → Duration → Bool
reached age limit = leb_ℤ limit age

-- m.St.RemoveEntry(e.ID)
abbrev pub drop : MemberEntry → Progress → Progress
drop e p = record p { st = remove_entry e.id p.st }

-- m.St.ApplyLocked(e.ID, e.Incarnation, store.StateSuspect)
abbrev pub mark_suspect : Time → MemberEntry → Progress → Progress
mark_suspect now e p = record p { st = apply_locked now e.id e.incarnation suspect p.st }

-- m.St.ApplyLocked(e.ID, e.Incarnation, store.StateFailed), and the count
abbrev pub mark_failed : Time → MemberEntry → Progress → Progress
mark_failed now e p = record p {
  st = apply_locked now e.id e.incarnation failed p.st;
  fail_marks = add_i64 p.fail_marks (pos 1);
}

-- The thresholds that a scan works with.
pub record Limits : Type 0 where
  pub t_suspect : Duration
  pub t_fail : Duration
  pub t_cleanup : Duration

-- One round of the second loop of scanOnce.
unfoldable pub scan_row : Time → Limits → MemberEntry → Progress → Progress
scan_row now l e p =
    let age = since now e.last_update in
    if is_left e.state && reached age l.t_cleanup
    then drop e p
    else if holds (NodeId-discrete e.id p.st.self_id)
    then p
    else if enabled l.t_suspect
    then if reached age (add_i64 (add_i64 l.t_suspect l.t_fail) l.t_cleanup)
      then drop e p
      else if reached age (add_i64 l.t_suspect l.t_fail) && is_watched e.state
      then mark_failed now e p
      else if reached age l.t_suspect && is_alive e.state
      then mark_suspect now e p
      else p
    else if reached age (add_i64 l.t_fail l.t_cleanup)
    then drop e p
    else if reached age l.t_fail && not (is_failed e.state)
    then mark_failed now e p
    else p

unfoldable pub scan_rows : Time → Limits → List MemberEntry → Progress → Progress
scan_rows now l [] p = p
scan_rows now l (e ∷ es) p = scan_rows now l es (scan_row now l e p)

-- How the first loop of scanOnce ends: no own row in state Left, or the scan ends there, or the
-- process does.
pub data OwnState : Type 0 where
  present leaving gone : OwnState

unfoldable pub own_state : Time → Limits → NodeId → List MemberEntry → OwnState
own_state now l self [] = present
own_state now l self (e ∷ es) =
    if holds (NodeId-discrete e.id self) && is_left e.state
    then if reached (since now e.last_update) l.t_cleanup then gone else leaving
    else own_state now l self es

-- `none` is the exit of the process.
abbrev pub continue_scan : OwnState → Progress → Progress → Option Progress
continue_scan present p q = some q
continue_scan leaving p q = some p
continue_scan gone p q = none

-- scanOnce
unfoldable pub scan_once : Time → Limits → Progress → Option Progress
unfolding scan_rows own_state
scan_once now l p =
    let ((entries, self), st) = snapshot now p.st in
    let p' : Progress = record p { st = st } in
    continue_scan (own_state now l self entries) p' (scan_rows now l entries p')

-- The inner loop of reapInflight: the first row with the address of the ping is marked.
unfoldable pub mark_addr : Time → Bool → Text → List MemberEntry → Progress → Progress
mark_addr now disabled addr [] p = p
mark_addr now disabled addr (e ∷ es) p =
    if holds (text_discrete (key e.id) addr)
    then if disabled then mark_failed now e p else mark_suspect now e p
    else mark_addr now disabled addr es p

unfoldable pub mark_addrs : Time → Bool → List ExpiredRec → List MemberEntry → Progress → Progress
unfolding mark_addr
mark_addrs now disabled [] entries p = p
mark_addrs now disabled (r ∷ rs) entries p =
    mark_addrs now disabled rs entries (mark_addr now disabled r.addr entries p)

abbrev pub reap_with : Time → Bool → List ExpiredRec → Progress → Progress
reap_with now disabled [] p = p
reap_with now disabled (r ∷ rs) p =
    let ((entries, self), st) = snapshot now p.st in
    mark_addrs now disabled (r ∷ rs) entries (record p { st = st })

-- reapInflight
unfoldable pub reap_inflight : Time → Duration → Inflight → Progress → Inflight × Progress
unfolding mark_addrs
reap_inflight now t_suspect m p =
    let (exp, m') = expired now m in (m', reap_with now (not (enabled t_suspect)) exp p)

-- `none` is the exit of the process; the table of pings is `none` where the pointer is nil.
abbrev pub reap_if :
    Bool → Time → Duration → Option Inflight → Progress → Option Inflight × Progress
reap_if true now t_suspect (some m) p =
    let (m', p') = reap_inflight now t_suspect m p in (some m', p')
reap_if _ now t_suspect o p = (o, p)

abbrev pub limits : Manager → Limits
limits m = record { t_suspect = m.t_suspect; t_fail = m.t_fail; t_cleanup = m.t_cleanup }

abbrev pub finish_tick :
    Time → Manager → Option Inflight → Option Progress → Option (Manager × Option Inflight × Store)
finish_tick now m o none = none
finish_tick now m o (some p) =
    let (o', p') = reap_if m.use_ping_timeout now m.t_suspect o p in
    some (record m { fail_marks = p'.fail_marks }, o', p'.st)

-- The ticker's case of Run.
unfoldable pub tick :
    Time → Manager → Option Inflight → Store → Option (Manager × Option Inflight × Store)
unfolding scan_once reap_inflight
tick now m o s =
    finish_tick now m o (scan_once now (limits m) (record { st = s; fail_marks = m.fail_marks }))

-- The case of Run for the meter: the counter is reported and reset.
unfoldable pub rate_tick : Manager → Manager × ℤ
rate_tick m = (record m { fail_marks = pos 0 }, m.fail_marks)

-- Reconfigure
unfoldable pub reconfigure : Duration → Duration → Duration → Bool → Manager → Manager
reconfigure t_suspect t_fail t_cleanup use_ping_timeout m = record m {
  t_suspect = t_suspect;
  t_fail = t_fail;
  t_cleanup = t_cleanup;
  use_ping_timeout = use_ping_timeout;
}
