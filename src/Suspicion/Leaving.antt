-- ===== src/Suspicion/Leaving.antt =====
-- A node that has left, in src/pkg/store/membership.go, src/pkg/suspicion/manager.go and the receive
-- loops of src/pkg/protocol: the own row stays as it is until the process ends.
use mathlib.Core.Option.{some-injective}
use mathlib.Core.Option
use mathlib.Core.Logic.{if_pos, if_neg}
use failure_detector.Prelude.{
  ◌≡◌, ◌≢◌, refl, sym, ◌∙◌, ap, true, false, List, [], ◌∷◌, none, some, arith, inl, inr, ◌&&◌,
  holds, if◌then◌else◌, Bool-cases,
}
use failure_detector.Prelude.Map.{lookup}
use failure_detector.Go.Text.{Text, text_discrete}
use failure_detector.Go.Clock.{Time, since}
use failure_detector.Node.{NodeId, NodeId-discrete}
use failure_detector.Store.{
  MemberEntry, Store, left, key, row, is_left, snapshot, beat, beat_rows, values,
}
use failure_detector.Store.Map.{Keyed, lookup-beat_rows}
use failure_detector.Store.Invariant.{IsWf, snapshot-IsWf}
use failure_detector.Suspicion.{Limits, Progress, OwnState, leaving, reached, own_state, scan_once}
use failure_detector.Wire.{Message}
use failure_detector.Protocol.{own_left}
use failure_detector.Protocol.Gossip as Gossip
use failure_detector.Protocol.Pingack as Pingack

-- The node has left, and its own row is `e`.
pub record HasLeft (e : MemberEntry) (s : Store) : Type 0 where
  pub wf : IsWf s
  pub found : row (key s.self_id) s ≡ some e
  pub mine : e.id ≡ s.self_id
  pub gone : e.state ≡ left

beat_left : (self : NodeId) (now : Time) (e : MemberEntry) → e.state ≡ left → beat self now e ≡ e
beat_left self now e h = ground (arith, ap is_left h)

-- A snapshot leaves the row of a node that has left as it is.
pub snapshot-HasLeft :
    (e : MemberEntry) (now : Time) (s : Store) → HasLeft e s → HasLeft e (snapshot now s).1
unfolding snapshot
snapshot-HasLeft e now s h = record {
  wf = snapshot-IsWf now s h.wf;
  found =
      lookup-beat_rows s.self_id now (key s.self_id) s.entries
      ∙ ap (Option.map (beat s.self_id now)) h.found
      ∙ ap some (beat_left s.self_id now e h.gone);
  mine = h.mine;
  gone = h.gone;
}

-- What a scan of a node that has left comes to, by the age of its own row.
abbrev pub leave_state : Time → Limits → MemberEntry → OwnState
leave_state now l e =
    if reached (since now e.last_update) l.t_cleanup then OwnState.gone else leaving

-- A table whose row for `self` is `e`, by its first row.
module _ (self : NodeId) (e : MemberEntry) (j : Text) (x : MemberEntry)
    (m : List (Text × MemberEntry))
    (h : lookup text_discrete (key self) ((j, x) ∷ m) ≡ some e) where
  pub first_row : j ≡ key self → x ≡ e
  unfolding lookup
  first_row y =
      some-injective x e (
        sym (if_pos (text_discrete j (key self)) y (some x) (lookup text_discrete (key self) m))
        ∙ h)

  pub later_row : j ≢ key self → lookup text_discrete (key self) m ≡ some e
  unfolding lookup
  later_row n =
      sym (if_neg (text_discrete j (key self)) n (some x) (lookup text_discrete (key self) m)) ∙ h

module _ (self : NodeId) (e : MemberEntry) (mine : e.id ≡ self) (was : e.state ≡ left) where
  seen : holds (NodeId-discrete e.id self) && is_left e.state ≡ true
  seen = ground (arith, mine, ap is_left was)

  own_left-values :
      (m : List (Text × MemberEntry))
      → lookup text_discrete (key self) m ≡ some e
      → own_left (values m) self ≡ true
  unfolding own_left values lookup
  own_left-values [] h = absurd (ground arith)
  own_left-values ((j, x) ∷ m) h = elim (text_discrete j (key self)) [
    | yes y ↦ rw (first_row self e j x m h y, seen) refl
    | no n ↦ ground (arith, own_left-values m (later_row self e j x m h n))
  ]

  own_state-values :
      (now : Time) (l : Limits) (m : List (Text × MemberEntry))
      → Keyed m
      → lookup text_discrete (key self) m ≡ some e
      → own_state now l self (values m) ≡ leave_state now l e
  unfolding own_state values lookup
  own_state-values now l [] kd h = absurd (ground arith)
  own_state-values now l ((j, x) ∷ m) kd h = elim (text_discrete j (key self)) [
    | yes y ↦ rw (first_row self e j x m h y, seen) refl
    | no n ↦
        let other : x.id ≢ self = λ q. n (kd.0 ∙ ap key q) in
        ground (arith, other, own_state-values now l m kd.1 (later_row self e j x m h n))
  ]

-- The snapshot of a node that has left says so.
pub own_left-snapshot :
    (e : MemberEntry) (now : Time) (s : Store)
    → HasLeft e s
    → let ((entries, self), s') = snapshot now s in own_left entries self ≡ true
unfolding snapshot
own_left-snapshot e now s h =
    let u = snapshot-HasLeft e now s h in own_left-values s.self_id e h.mine h.gone _ u.found

-- A scan of a node that has left changes nothing, and ends the process once the own row is as old as
-- TCleanup.
pub scan_once-HasLeft :
    (e : MemberEntry) (now : Time) (l : Limits) (p : Progress)
    → HasLeft e p.st
    → scan_once now l p ≡ (
        if reached (since now e.last_update) l.t_cleanup
        then none
        else some (record p { st = (snapshot now p.st).1 }))
unfolding scan_once snapshot
scan_once-HasLeft e now l p h =
    let u = snapshot-HasLeft e now p.st h in
    rw
      (own_state-values p.st.self_id e h.mine h.gone now l (beat_rows p.st.self_id now p.st.entries)
        u.wf.keyed u.found)
      (elim (Bool-cases (reached (since now e.last_update) l.t_cleanup)) [
        | inl old ↦ rw old refl
        | inr young ↦ rw young refl
      ])

-- A node that has left hears nothing: its receive loops end with the next message.
pub gossip_deaf :
    (e : MemberEntry) (now : Time) (msg : Message) (s : Store)
    → HasLeft e s
    → Gossip.handle now msg s ≡ ((snapshot now s).1, false)
unfolding Gossip.handle
gossip_deaf e now msg s h = rw (own_left-snapshot e now s h) refl

pub pingack_deaf :
    (e : MemberEntry) (now : Time) (msg : Message) (l : Pingack.Loop) (s : Store)
    → HasLeft e s
    → Pingack.handle now msg l s
      ≡ record { loop = l; st = (snapshot now s).1; reply = none; goes_on = false }
unfolding Pingack.handle
pingack_deaf e now msg l s h = rw (own_left-snapshot e now s h) refl
