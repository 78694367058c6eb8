-- ===== src/Daemon/Ticks.antt =====
-- The ticks of a daemon, which the goroutines of src/pkg/suspicion and src/pkg/protocol run: each
-- leaves the parts of the daemon in agreement with its live configuration.
use mathlib.Core.Option.{some-injective}
use failure_detector.Prelude.{
  Bool, ℕ, suc, ◌≡◌, refl, subst, ◌∙◌, true, false, List, [], ◌∷◌, Option, none, some, inl, inr,
  arith, Option-cases, Bool-cases,
}
use failure_detector.Prelude.Int.{ℤ, pos}
use failure_detector.Go.Text.{Text}
use failure_detector.Go.Clock.{Time, Duration}
use failure_detector.Config.{Config, DurationText}
use failure_detector.Store.{Store, MemberEntry, snapshot}
use failure_detector.Store.Settings.{snapshot-config}
use failure_detector.Inflight.{Inflight, add, expired}
use failure_detector.Suspicion.{
  Manager, Limits, OwnState, present, leaving, gone, Progress, continue_scan, scan_once, scan_rows,
  reap_inflight, reap_if, limits,
}
use failure_detector.Suspicion.Scan.{scan_rows-config}
use failure_detector.Suspicion as Suspicion
use failure_detector.Wire.{Message}
use failure_detector.Protocol.{targets, resolve_peers}
use failure_detector.Protocol.Gossip as Gossip
use failure_detector.Protocol.Pingack as Pingack
use failure_detector.Daemon.{Daemon}
use failure_detector.Daemon.Tuned.{PingackTuned}
use failure_detector.Daemon.Synced.{IsSynced, with_store}
use failure_detector.Daemon.Messages.{with_loop, noted-Tuned}

-- What the goroutines of a daemon share, after a tick of the manager.
abbrev pub after_tick : Daemon → Option (Manager × Option Inflight × Store) → Option Daemon
after_tick d none = none
after_tick d (some (m, none, st)) = some (record d { sm = m; st = st })
after_tick d (some (m, some pings, st)) = some (record d { sm = m; inflight = pings; st = st })

-- A tick of the manager; `none` is the exit of the process.
unfoldable pub manager_tick : Time → Daemon → Option Daemon
manager_tick now d = after_tick d (Suspicion.tick now d.sm (some d.inflight) d.st)

-- A tick of the meter: the counter is reset.
unfoldable pub meter_tick : Daemon → Daemon
meter_tick d = record d { sm = (Suspicion.rate_tick d.sm).0 }

module _ (reaches : Text → Message → Bool) (now : Time) (perm : List ℕ) (nonces : ℕ → ℕ) where
  abbrev pub tick_by :
      Option Pingack.Loop → Option Gossip.Loop → Daemon → List (Text × Message) × Daemon
  tick_by (some l) g d =
      let ((sent, l'), st) = Pingack.tick reaches now perm nonces l d.st in
      (sent, record d { loop_pa = some l'; st = st })
  tick_by none (some l) d =
      let (sent, st) = Gossip.tick reaches now perm l d.st in (sent, record d { st = st })
  tick_by none none d = ([], d)

  -- A tick of the loop that runs.
  unfoldable pub loop_tick : Daemon → List (Text × Message) × Daemon
  loop_tick d = tick_by d.loop_pa d.loop_go d

-- A property of a daemon, as long as its process has not ended.
abbrev pub WhileUp : (Daemon → Type 0) → Option Daemon → Type 0
WhileUp P none = Unit {0}
WhileUp P (some d) = P d

continue_scan-config :
    (o : OwnState) (c : Config) (p q r : Progress)
    → p.st.config ≡ c
    → q.st.config ≡ c
    → continue_scan o p q ≡ some r
    → r.st.config ≡ c
continue_scan-config present c p q r hp hq e =
    subst (λ x. x.st.config ≡ c) (some-injective q r e) hq
continue_scan-config leaving c p q r hp hq e =
    subst (λ x. x.st.config ≡ c) (some-injective p r e) hp
continue_scan-config gone c p q r hp hq e = absurd (ground arith)

scan_once-config :
    (now : Time) (l : Limits) (p q : Progress)
    → scan_once now l p ≡ some q
    → q.st.config ≡ p.st.config
unfolding scan_once
scan_once-config now l p q e =
    let ((entries, self), st) = snapshot now p.st in
    let p' : Progress = record p { st = st } in
    continue_scan-config (Suspicion.own_state now l self entries) p.st.config p' _ q
      (snapshot-config now p.st) (scan_rows-config now l entries p' ∙ snapshot-config now p.st) e

pub reap_nothing :
    (now : Time) (t_suspect : Duration) (p : Progress) → reap_inflight now t_suspect [] p ≡ ([], p)
unfolding reap_inflight expired
reap_nothing now t_suspect p = refl

reap_if_nothing :
    (b : Bool) (now : Time) (t_suspect : Duration) (p : Progress)
    → reap_if b now t_suspect (some []) p ≡ (some [], p)
reap_if_nothing true now t_suspect p = rw (reap_nothing now t_suspect p) refl
reap_if_nothing false now t_suspect p = refl

send_pings-Tuned :
    (dt : DurationText) (cfg : Config) (reaches : Text → Message → Bool) (now : Time)
    (entries : List MemberEntry) (to : List Text) (nonces : ℕ → ℕ) (l : Pingack.Loop)
    → PingackTuned dt cfg l
    → PingackTuned dt cfg (Pingack.send_pings reaches now entries to nonces l).1
unfolding Pingack.send_pings
send_pings-Tuned dt cfg reaches now entries [] nonces l t = t
send_pings-Tuned dt cfg reaches now entries (addr ∷ to) nonces l t =
    elim (Bool-cases (reaches addr (Pingack.ping_of (nonces 0) entries l))) [
      | inl sent ↦ rw sent (
          send_pings-Tuned dt cfg reaches now entries to (λ i. nonces (suc i))
            (record l { inflight = add now (nonces 0) l.t_suspect addr l.inflight })
            (noted-Tuned dt (add now (nonces 0) l.t_suspect addr l.inflight) cfg l t))
      | inr lost ↦
          rw lost (send_pings-Tuned dt cfg reaches now entries to (λ i. nonces (suc i)) l t)
    ]

module _ (dt : DurationText) where
  with_marks :
      (n : ℤ) (d : Daemon)
      → IsSynced dt d
      → IsSynced dt (record d { sm = record d.sm { fail_marks = n } })
  with_marks n d w = record {
    valid = w.valid;
    agrees = record {
      mode = w.agrees.mode;
      runs = w.agrees.runs;
      strays = w.agrees.strays;
      config = w.agrees.config;
      t_suspect = w.agrees.t_suspect;
      t_fail = w.agrees.t_fail;
      t_cleanup = w.agrees.t_cleanup;
      use_ping_timeout = w.agrees.use_ping_timeout;
      inflight = w.agrees.inflight;
      live = w.agrees.live;
    };
  }

  pub meter-IsSynced : (d : Daemon) → IsSynced dt d → IsSynced dt (meter_tick d)
  unfolding meter_tick Suspicion.rate_tick
  meter-IsSynced d w = with_marks (pos 0) d w

  pub manager_tick_scanned :
      (now : Time) (d : Daemon) (q : Progress)
      → d.inflight ≡ []
      → scan_once now (limits d.sm) (record { st = d.st; fail_marks = d.sm.fail_marks }) ≡ some q
      → manager_tick now d
        ≡ some (record d { sm = record d.sm { fail_marks = q.fail_marks }; st = q.st })
  unfolding manager_tick Suspicion.tick
  manager_tick_scanned now d q i e =
      rw (e, i, reap_if_nothing d.sm.use_ping_timeout now d.sm.t_suspect q) refl

  pub manager-IsSynced :
      (now : Time) (d : Daemon) → IsSynced dt d → WhileUp (IsSynced dt) (manager_tick now d)
  unfolding manager_tick Suspicion.tick
  manager-IsSynced now d w =
      let p : Progress = record { st = d.st; fail_marks = d.sm.fail_marks } in
      elim (Option-cases (scan_once now (limits d.sm) p)) [
        | inl e ↦ rw e tt
        | inr (q, e) ↦ rw (manager_tick_scanned now d q w.agrees.inflight e) (
            with_marks q.fail_marks _
              (with_store dt q.st d (scan_once-config now (limits d.sm) p q e) w))
      ]

  module _ (reaches : Text → Message → Bool) (now : Time) (perm : List ℕ) (nonces : ℕ → ℕ) where
    tick_by-IsSynced :
        (pa : Option Pingack.Loop) (g : Option Gossip.Loop) (d : Daemon)
        → d.loop_pa ≡ pa
        → IsSynced dt d
        → IsSynced dt (tick_by reaches now perm nonces pa g d).1
    unfolding Pingack.tick Gossip.tick
    tick_by-IsSynced (some l) g d e w =
        with_store dt _
          (record d { loop_pa = some (Pingack.tick reaches now perm nonces l d.st).0.1 })
          (snapshot-config now d.st)
          (with_loop dt l _ d e
            (λ cfg t.
              send_pings-Tuned dt cfg reaches now ((snapshot now d.st).0.0)
                (targets l.ping_fanout
                  (resolve_peers (snapshot now d.st).0.0 (snapshot now d.st).0.1) perm)
                nonces l t)
            w)
    tick_by-IsSynced none (some l) d e w = with_store dt _ d (snapshot-config now d.st) w
    tick_by-IsSynced none none d e w = w

    pub loop-IsSynced :
        (d : Daemon) → IsSynced dt d → IsSynced dt (loop_tick reaches now perm nonces d).1
    unfolding loop_tick
    loop-IsSynced d w = tick_by-IsSynced d.loop_pa d.loop_go d refl w
