-- ===== src/Daemon/Messages.antt =====
-- src/pkg/daemon/daemon.go: each message that the running loop receives leaves the parts of the daemon
-- in agreement with its live configuration.
use mathlib.Core.Option.{some-injective}
use failure_detector.Prelude.{
  ◌≡◌, refl, sym, subst, ◌∙◌, Option, none, some, arith, inl, inr, Bool-cases, Option-cases,
}
use failure_detector.Go.Clock.{Time}
use failure_detector.Go.Float.{Float64}
use failure_detector.Config.{Config, DurationText}
use failure_detector.Store.{Store, snapshot, merge_full_list}
use failure_detector.Store.Settings.{snapshot-config, merge-config}
use failure_detector.Inflight.{Inflight, done}
use failure_detector.Wire.{Message, MsgType, msg_gossip, msg_ping, msg_ack, msg_other}
use failure_detector.Protocol.{own_left, should_drop}
use failure_detector.Protocol.Gossip as Gossip
use failure_detector.Protocol.Pingack as Pingack
use failure_detector.Daemon.{Daemon}
use failure_detector.Daemon.Receive.{
  receive_config, hear_pingack, receive_pingack, receive_gossip, receive_by,
}
use failure_detector.Daemon.Tuned.{PingackTuned, Runs, runs_pingack, runs_gossip}
use failure_detector.Daemon.Synced.{IsSynced, with_store, wire-IsSynced}

module _ (dt : DurationText) where
  receive_config-IsSynced :
      (msg : Message) (d : Daemon) → IsSynced dt d → IsSynced dt (receive_config dt msg d)
  unfolding receive_config
  receive_config-IsSynced msg d w = elim (Option-cases msg.cfg) [
    | inl e ↦ rw e w
    | inr (dto, e) ↦ rw e (wire-IsSynced dt dto d w)
  ]

  gossip-config :
      (now : Time) (msg : Message) (s : Store) → (Gossip.handle now msg s).0.config ≡ s.config
  unfolding Gossip.handle snapshot
  gossip-config now msg s =
      ground (arith, snapshot-config now s, merge-config now msg.list (snapshot now s).1)

  gossip-IsSynced :
      (now : Time) (draw : Float64) (msg : Message) (l : Gossip.Loop) (d : Daemon)
      → IsSynced dt d
      → IsSynced dt (receive_gossip dt now draw msg l d)
  unfolding receive_gossip
  gossip-IsSynced now draw msg l d w = elim (Bool-cases (should_drop l.drop_rate_recv draw)) [
    | inl dropped ↦ rw dropped w
    | inr heard ↦
        let d' = receive_config dt msg d in
        rw heard
          (with_store dt _ d' (gossip-config now msg d'.st) (receive_config-IsSynced msg d w))
  ]

  -- The table of pings is no knob.
  pub noted-Tuned :
      (m : Inflight) (cfg : Config) (l : Pingack.Loop)
      → PingackTuned dt cfg l
      → PingackTuned dt cfg (record l { inflight = m })
  noted-Tuned m cfg l t = record {
    ping_every = t.ping_every;
    t_suspect = t.t_suspect;
    ping_fanout = t.ping_fanout;
    drop_rate_recv = t.drop_rate_recv;
    cfg_dto = t.cfg_dto;
  }

  dispatch-Tuned :
      (now : Time) (t : MsgType) (msg : Message) (cfg : Config) (l : Pingack.Loop) (s : Store)
      → PingackTuned dt cfg l
      → PingackTuned dt cfg (Pingack.dispatch now t msg l s).loop
  unfolding Pingack.dispatch
  dispatch-Tuned now msg_ping msg cfg l s t = t
  dispatch-Tuned now msg_ack msg cfg l s t = noted-Tuned (done msg.nonce l.inflight).0 cfg l t
  dispatch-Tuned now msg_gossip msg cfg l s t = t
  dispatch-Tuned now (msg_other n) msg cfg l s t = t

  dispatch-config :
      (now : Time) (t : MsgType) (msg : Message) (l : Pingack.Loop) (s : Store)
      → (Pingack.dispatch now t msg l s).st.config ≡ s.config
  unfolding Pingack.dispatch
  dispatch-config now msg_ping msg l s =
      snapshot-config now (merge_full_list now msg.list s) ∙ merge-config now msg.list s
  dispatch-config now msg_ack msg l s = merge-config now msg.list s
  dispatch-config now msg_gossip msg l s = merge-config now msg.list s
  dispatch-config now (msg_other n) msg l s = refl

  handle-lem :
      (now : Time) (msg : Message) (l : Pingack.Loop) (s : Store)
      → ((cfg : Config)
          → PingackTuned dt cfg l
          → PingackTuned dt cfg (Pingack.handle now msg l s).loop)
        × ((Pingack.handle now msg l s).st.config ≡ s.config)
  unfolding Pingack.handle
  handle-lem now msg l s =
      let ((entries, self), s') = snapshot now s in
      elim (Bool-cases (own_left entries self)) [
        | inl gone ↦ rw gone ((λ cfg t. t), snapshot-config now s)
        | inr there ↦ rw there (
          (λ cfg t. dispatch-Tuned now msg.msg_type msg cfg l s' t),
          dispatch-config now msg.msg_type msg l s' ∙ snapshot-config now s,
        )
      ]

  still-Runs :
      (l l' : Pingack.Loop) (cfg : Config) (pa : Option Pingack.Loop) (g : Option Gossip.Loop)
      → pa ≡ some l
      → (PingackTuned dt cfg l → PingackTuned dt cfg l')
      → Runs dt cfg pa g
      → Runs dt cfg (some l') g
  still-Runs l l' cfg pa g e f (runs_pingack m x p t q) =
      runs_pingack m l' refl (f (subst (PingackTuned dt cfg) (some-injective x l (sym p ∙ e)) t)) q
  still-Runs l l' cfg pa g e f (runs_gossip m x p t q) = absurd (ground (arith, sym q ∙ e))

  pub with_loop :
      (l l' : Pingack.Loop) (d : Daemon)
      → d.loop_pa ≡ some l
      → ((cfg : Config) → PingackTuned dt cfg l → PingackTuned dt cfg l')
      → IsSynced dt d
      → IsSynced dt (record d { loop_pa = some l' })
  with_loop l l' d e f w = record {
    valid = w.valid;
    agrees = record {
      mode = w.agrees.mode;
      runs = still-Runs l l' d.cfg d.loop_pa d.loop_go e (f d.cfg) w.agrees.runs;
      strays = w.agrees.strays;
      config = w.agrees.config;
      t_suspect = w.agrees.t_suspect;
      t_fail = w.agrees.t_fail;
      t_cleanup = w.agrees.t_cleanup;
      use_ping_timeout = w.agrees.use_ping_timeout;
      inflight = w.agrees.inflight;
      live = w.agrees.live;
    };
  }

  hear-IsSynced :
      (now : Time) (msg : Message) (l : Pingack.Loop) (o : Option Pingack.Loop) (d : Daemon)
      → d.loop_pa ≡ o
      → IsSynced dt d
      → IsSynced dt (hear_pingack dt now msg l o d).1
  hear-IsSynced now msg l none d e w = with_store dt _ d (handle-lem now msg l d.st).1 w
  hear-IsSynced now msg l (some l') d e w =
      let (f, c) = handle-lem now msg l' d.st in
      with_store dt _ (record d { loop_pa = some (Pingack.handle now msg l' d.st).loop }) c
        (with_loop l' _ d e f w)

  pingack-IsSynced :
      (now : Time) (draw : Float64) (msg : Message) (l : Pingack.Loop) (d : Daemon)
      → IsSynced dt d
      → IsSynced dt (receive_pingack dt now draw msg l d).1
  unfolding receive_pingack
  pingack-IsSynced now draw msg l d w = elim (Bool-cases (should_drop l.drop_rate_recv draw)) [
    | inl dropped ↦ rw dropped w
    | inr heard ↦
        let d' = receive_config dt msg d in
        rw heard (hear-IsSynced now msg l d'.loop_pa d' refl (receive_config-IsSynced msg d w))
  ]

  pub receive-IsSynced :
      (now : Time) (draw : Float64) (msg : Message) (pa : Option Pingack.Loop)
      (g : Option Gossip.Loop) (d : Daemon)
      → IsSynced dt d
      → IsSynced dt (receive_by dt now draw msg pa g d).1
  receive-IsSynced now draw msg (some l) g d w = pingack-IsSynced now draw msg l d w
  receive-IsSynced now draw msg none (some l) d w = gossip-IsSynced now draw msg l d w
  receive-IsSynced now draw msg none none d w = w
