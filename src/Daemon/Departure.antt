-- ===== src/Daemon/Departure.antt =====
-- What becomes of a daemon of src/pkg/daemon/daemon.go after /leave: its own row stays as it is, and
-- its process ends.
use failure_detector.Prelude.{
  ◌||◌, ℕ, ◌≡◌, ◌⊎◌, refl, Bool, true, false, List, [], ◌∷◌, Option, none, some, All, inl, inr,
  Bool-cases, Option-cases,
}
use failure_detector.Go.Text.{Text}
use failure_detector.Go.Clock.{Time, since}
use failure_detector.Go.Float.{Float64}
use failure_detector.Config.{ConfigDto, DurationText, mode_pingack, mode_gossip}
use failure_detector.Config.Apply.{to_dto}
use failure_detector.Store.{MemberEntry, key, row, snapshot}
use failure_detector.Store.Invariant.{IsWf}
use failure_detector.Suspicion.{Progress, reached, limits, tick}
use failure_detector.Suspicion.Leaving.{
  HasLeft, snapshot-HasLeft, scan_once-HasLeft, gossip_deaf, pingack_deaf,
}
use failure_detector.Wire.{Message}
use failure_detector.Protocol.{should_drop}
use failure_detector.Protocol.Gossip as Gossip
use failure_detector.Protocol.Pingack as Pingack
use failure_detector.Daemon.{Daemon, is_mode, set, on_config_from_wire}
use failure_detector.Daemon.Receive.{
  receive_config, hear_pingack, receive_pingack, receive_gossip, receive_by, receive,
}
use failure_detector.Daemon.Admin.{SwitchReq, SwitchError, new_suspicion, switch_to, switch, leave}
use failure_detector.Daemon.Views.{list_mem, display_suspects}
use failure_detector.Daemon.Leaving.{departed, leave-HasLeft, adopt-HasLeft}
use failure_detector.Daemon.Synced.{IsSynced, leave-IsSynced}
use failure_detector.Daemon.Ticks.{
  WhileUp, manager_tick, meter_tick, loop_tick, tick_by, manager_tick_scanned,
}
use failure_detector.Daemon.Events.{
  Event, config_arrives, admin_sets, admin_switches, node_joins, admin_leaves, admin_lists,
  admin_asks_suspects, message_arrives, loop_ticks, manager_ticks, meter_ticks, handle_event,
  handle_events, bind-WhileUp, WhileUp-map, event-IsSynced,
}

-- All events but a request to join, which is merged even after the node has left, and another /leave.
abbrev pub IsQuiet : Event → Type 0
IsQuiet (node_joins now req) = ⊥
IsQuiet (admin_leaves now) = ⊥
IsQuiet _ = Unit {0}

module _ (dt : DurationText) (e : MemberEntry) where
  wire-HasLeft :
      (d : Daemon) (dto : ConfigDto) → HasLeft e d.st → HasLeft e (on_config_from_wire dt dto d).st
  unfolding on_config_from_wire
  wire-HasLeft d dto h = adopt-HasLeft dt e _ _ _ d h

  set-HasLeft : (d : Daemon) (dto : ConfigDto) → HasLeft e d.st → HasLeft e (set dt dto d).0.st
  unfolding set
  set-HasLeft d dto h = adopt-HasLeft dt e _ _ _ d h

  switch_to-HasLeft :
      (p : Text) (r : SwitchError ⊎ Text) (d : Daemon)
      → HasLeft e d.st
      → HasLeft e (switch_to dt p r d).0.st
  switch_to-HasLeft p (inl x) d h = h
  switch_to-HasLeft p (inr t) d h =
      set-HasLeft d (record (to_dto dt d.cfg) { mode = p; t_suspect = t }) h

  switch-HasLeft :
      (req : SwitchReq) (d : Daemon) → HasLeft e d.st → HasLeft e (switch dt req d).0.st
  unfolding switch
  switch-HasLeft req d h =
      elim (Bool-cases (is_mode req.protocol mode_gossip || is_mode req.protocol mode_pingack)) [
        | inl known ↦ rw known (switch_to-HasLeft req.protocol (new_suspicion dt req) d h)
        | inr bad ↦ rw bad h
      ]

  config-HasLeft :
      (msg : Message) (d : Daemon) → HasLeft e d.st → HasLeft e (receive_config dt msg d).st
  unfolding receive_config
  config-HasLeft msg d h = elim (Option-cases msg.cfg) [
    | inl n ↦ rw n h
    | inr (dto, n) ↦ rw n (wire-HasLeft d dto h)
  ]

  hear-HasLeft :
      (now : Time) (msg : Message) (l : Pingack.Loop) (o : Option Pingack.Loop) (d : Daemon)
      → HasLeft e d.st
      → HasLeft e (hear_pingack dt now msg l o d).1.st
  hear-HasLeft now msg l none d h =
      rw (pingack_deaf e now msg l d.st h) (snapshot-HasLeft e now d.st h)
  hear-HasLeft now msg l (some l') d h =
      rw (pingack_deaf e now msg l' d.st h) (snapshot-HasLeft e now d.st h)

  receive-HasLeft :
      (now : Time) (draw : Float64) (msg : Message) (pa : Option Pingack.Loop)
      (g : Option Gossip.Loop) (d : Daemon)
      → HasLeft e d.st
      → HasLeft e (receive_by dt now draw msg pa g d).1.st
  unfolding receive_pingack receive_gossip
  receive-HasLeft now draw msg (some l) g d h =
      elim (Bool-cases (should_drop l.drop_rate_recv draw)) [
        | inl dropped ↦ rw dropped h
        | inr heard ↦
            let d' = receive_config dt msg d in
            rw heard (hear-HasLeft now msg l d'.loop_pa d' (config-HasLeft msg d h))
      ]
  receive-HasLeft now draw msg none (some l) d h =
      elim (Bool-cases (should_drop l.drop_rate_recv draw)) [
        | inl dropped ↦ rw dropped h
        | inr heard ↦
            let d' = receive_config dt msg d in
            let h' = config-HasLeft msg d h in
            rw (heard, gossip_deaf e now msg d'.st h') (snapshot-HasLeft e now d'.st h')
      ]
  receive-HasLeft now draw msg none none d h = h

  tick_by-HasLeft :
      (reaches : Text → Message → Bool) (now : Time) (perm : List ℕ) (nonces : ℕ → ℕ)
      (pa : Option Pingack.Loop) (g : Option Gossip.Loop) (d : Daemon)
      → HasLeft e d.st
      → HasLeft e (tick_by reaches now perm nonces pa g d).1.st
  unfolding Pingack.tick Gossip.tick
  tick_by-HasLeft reaches now perm nonces (some l) g d h = snapshot-HasLeft e now d.st h
  tick_by-HasLeft reaches now perm nonces none (some l) d h = snapshot-HasLeft e now d.st h
  tick_by-HasLeft reaches now perm nonces none none d h = h

  -- A tick of the manager ends the process once the own row is as old as TCleanup.
  old_ends :
      (now : Time) (d : Daemon)
      → HasLeft e d.st
      → reached (since now e.last_update) d.sm.t_cleanup ≡ true
      → manager_tick now d ≡ none
  unfolding manager_tick tick
  old_ends now d h old =
      rw
        (
          scan_once-HasLeft e now (limits d.sm) (record { st = d.st; fail_marks = d.sm.fail_marks })
              h,
          old,
        )
        refl

  manager-HasLeft :
      (now : Time) (d : Daemon)
      → d.inflight ≡ []
      → HasLeft e d.st
      → WhileUp (λ d'. HasLeft e d'.st) (manager_tick now d)
  manager-HasLeft now d i h = elim (Bool-cases (reached (since now e.last_update) d.sm.t_cleanup)) [
    | inl old ↦ rw (old_ends now d h old) tt
    | inr young ↦
        let p : Progress = record { st = d.st; fail_marks = d.sm.fail_marks } in
        let q : Progress = record p { st = (snapshot now d.st).1 } in
        rw
          (manager_tick_scanned dt now d q i
            (rw (scan_once-HasLeft e now (limits d.sm) p h, young) refl))
          (snapshot-HasLeft e now d.st h)
  ]

  event-HasLeft :
      (x : Event) (d : Daemon)
      → IsQuiet x
      → IsSynced dt d
      → HasLeft e d.st
      → WhileUp (λ d'. HasLeft e d'.st) (handle_event dt x d)
  unfolding handle_event receive list_mem display_suspects loop_tick meter_tick
  event-HasLeft (config_arrives dto) d q w h = wire-HasLeft d dto h
  event-HasLeft (admin_sets dto) d q w h = set-HasLeft d dto h
  event-HasLeft (admin_switches req) d q w h = switch-HasLeft req d h
  event-HasLeft (node_joins now req) d q w h = elim q [ ]
  event-HasLeft (admin_leaves now) d q w h = elim q [ ]
  event-HasLeft (admin_lists format now) d q w h = snapshot-HasLeft e now d.st h
  event-HasLeft (admin_asks_suspects format now) d q w h = snapshot-HasLeft e now d.st h
  event-HasLeft (message_arrives now draw msg) d q w h =
      receive-HasLeft now draw msg d.loop_pa d.loop_go d h
  event-HasLeft (loop_ticks reaches now perm nonces) d q w h =
      tick_by-HasLeft reaches now perm nonces d.loop_pa d.loop_go d h
  event-HasLeft (manager_ticks now) d q w h = manager-HasLeft now d w.agrees.inflight h
  event-HasLeft meter_ticks d q w h = h

  both-WhileUp :
      (P Q : Daemon → Type 0) (o : Option Daemon)
      → WhileUp P o
      → WhileUp Q o
      → WhileUp (λ d. P d × Q d) o
  both-WhileUp P Q none p q = tt
  both-WhileUp P Q (some d) p q = (p, q)

  -- A daemon whose parts agree, and that has left.
  abbrev Departed : Daemon → Type 0
  Departed d = IsSynced dt d × HasLeft e d.st

  events-Departed :
      (xs : List Event) (d : Daemon)
      → All IsQuiet xs
      → Departed d
      → WhileUp Departed (handle_events dt xs d)
  unfolding handle_events
  events-Departed [] d q w = w
  events-Departed (x ∷ xs) d q w =
      bind-WhileUp Departed Departed (handle_event dt x d) (λ d'. handle_events dt xs d')
        (λ d' w'. events-Departed xs d' q.1 w')
        (both-WhileUp (IsSynced dt) (λ d'. HasLeft e d'.st) (handle_event dt x d)
          (event-IsSynced dt x d w.0) (event-HasLeft x d q.0 w.0 w.1))

  departs :
      (now : Time) (d : Daemon)
      → Departed d
      → (row (key d.st.self_id) d.st ≡ some e)
        × ((reached (since now e.last_update) d.sm.t_cleanup ≡ false) ⊎ (manager_tick now d ≡ none))
  departs now d (w, h) = elim (Bool-cases (reached (since now e.last_update) d.sm.t_cleanup)) [
    | inl old ↦ (h.found, inr (old_ends now d h old))
    | inr young ↦ (h.found, inl young)
  ]

-- After /leave at the time `t`, on a daemon whose parts agree and whose well-formed table has the
-- own row, and then any events but requests to join and another /leave, either the process has
-- ended, or the own row is still the row that /leave wrote, in state Left and with the time `t`, and
-- a tick of the manager at any time ends the process unless that row is younger than TCleanup.
pub leave_ends :
    (dt : DurationText) (xs : List Event) (t now : Time) (d : Daemon) (x : MemberEntry)
    → IsSynced dt d
    → IsWf d.st
    → row (key d.st.self_id) d.st ≡ some x
    → x.id ≡ d.st.self_id
    → All IsQuiet xs
    → WhileUp
        (λ d'.
          (row (key d'.st.self_id) d'.st ≡ some (departed t x))
          × ((reached (since now t) d'.sm.t_cleanup ≡ false) ⊎ (manager_tick now d' ≡ none)))
        (handle_events dt xs (leave t d))
leave_ends dt xs t now d x w wf found mine quiet =
    let e = departed t x in
    let h = leave-HasLeft t d x wf found mine in
    WhileUp-map (λ d'. IsSynced dt d' × HasLeft e d'.st) _ (handle_events dt xs (leave t d))
      (λ d' v. departs dt e now d' v)
      (events-Departed dt e xs (leave t d) quiet (leave-IsSynced dt t d w, h))
