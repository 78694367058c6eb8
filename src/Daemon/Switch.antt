-- ===== src/Daemon/Switch.antt =====
-- What /switch of src/pkg/daemon/daemon.go achieves.
use failure_detector.Prelude.{◌≡◌, ◌⊎◌, ◌||◌, inl, inr, refl, ◌∙◌, true, false, none, some, arith}
use failure_detector.Prelude.Int.{ℤ, pos, negsuc, leb_ℤ, add_i64, add_i64-one, IsI64, ◌<ℤ◌, ◌≤ℤ◌}
use failure_detector.Go.Text.{Text, codes, text_discrete}
use failure_detector.Go.Clock.{Duration}
use failure_detector.Config.{
  Config, DurationText, bad_mode, mode_pingack, mode_gossip, validate_cluster_params,
}
use failure_detector.Config.Apply.{is_empty, to_dto, bump_and_apply_local}
use failure_detector.Config.Laws.{InRange, apply_dto-retuned}
use failure_detector.Daemon.{Daemon, is_mode, adopt, set}
use failure_detector.Daemon.Admin.{
  SwitchReq, StringOps, new_suspicion, read_req, switch, handle_switch,
}
use failure_detector.Daemon.Modes.{IsMode, are_same}
use failure_detector.Daemon.Synced.{IsSynced, switch-IsSynced}
use failure_detector.Daemon.Join.{adopt-live}

-- A request for the suspicion time `t`: suspicion is enabled with the text of a positive duration,
-- or it is disabled, which is the time 0.
abbrev pub Asks : DurationText → SwitchReq → Duration → Type 0
Asks dt req t =
    ((req.suspicion ≡ codes "enabled") × (dt.parse req.suspicion_time ≡ some t) × (pos 0 <ℤ t))
    ⊎ ((req.suspicion ≡ codes "disabled") × (t ≡ pos 0))

-- The next version of `c`, in another mode and with another suspicion time.
abbrev pub switched : Text → Duration → Config → Config
switched p t c = record c { version = add_i64 c.version (pos 1); mode = p; t_suspect = t }

disabled-ne-enabled : is_mode (codes "disabled") (codes "enabled") ≡ false
unfolding text_discrete
disabled-ne-enabled = refl

le_self : (z : ℤ) → leb_ℤ z z ≡ true
le_self (pos n) = ground arith
le_self (negsuc n) = ground arith

good_mode : (p : Text) → IsMode p → bad_mode p ≡ false
good_mode p (inl e) = ground arith
good_mode p (inr e) = ground arith

known_mode : (p : Text) → IsMode p → is_mode p mode_gossip || is_mode p mode_pingack ≡ true
known_mode p (inl e) = ground (arith, are_same p mode_pingack e)
known_mode p (inr e) = rw (are_same p mode_gossip e) refl

module _ (dt : DurationText) where
  given_time : (text : Text) (t : Duration) → dt.parse text ≡ some t → is_empty text ≡ false
  given_time text t h = ground (arith, dt.parse-nil)

  asked :
      (req : SwitchReq) (t : Duration)
      → Asks dt req t
      → (text : Text) × (new_suspicion dt req ≡ inr text)
        × (dt.parse text ≡ some t)
        × IsI64 t
        × (pos 0 ≤ℤ t)
  unfolding new_suspicion
  asked req t (inl (on, parsed, positive)) =
      let fits = dt.parse-IsI64 req.suspicion_time t parsed in
      (
        dt.format t,
        ground (
          arith,
          are_same req.suspicion (codes "enabled") on,
          given_time req.suspicion_time t parsed,
        ),
        dt.parse-format t fits,
        fits,
        ground arith,
      )
  asked req t (inr (off, zero)) = (
    codes "0ms",
    rw (off, disabled-ne-enabled, are_same (codes "disabled") (codes "disabled") refl) refl,
    rw zero dt.parse-zero,
    rw zero (ground arith),
    rw zero (ground arith),
  )

  switched-valid :
      (p : Text) (t : Duration) (c : Config)
      → IsMode p
      → pos 0 ≤ℤ t
      → validate_cluster_params c ≡ none
      → validate_cluster_params (switched p t c) ≡ none
  unfolding validate_cluster_params
  switched-valid p t c m h v = ground (arith, good_mode p m)

  module _ (p : Text) (t : Duration) (c : Config) (range : InRange c) (r : IsI64 c.version)
      (room : c.version <ℤ pos 9223372036854775807) where
    bump_switched :
        (text : Text)
        → validate_cluster_params (switched p t c) ≡ none
        → dt.parse text ≡ some t
        → IsI64 t
        → bump_and_apply_local dt c (record (to_dto dt c) { mode = p; t_suspect = text })
          ≡ (switched p t c, true, none)
    unfolding bump_and_apply_local to_dto
    bump_switched text v parsed fits =
        let tuned : InRange (switched p t c) = record {
          ping_every = range.ping_every;
          gossip_period = range.gossip_period;
          t_suspect = fits;
          t_fail = range.t_fail;
          t_cleanup = range.t_cleanup;
        } in
        let h =
          apply_dto-retuned dt (switched p t c) c text v tuned (add_i64-one c.version r room)
            parsed in
        rw (le_self c.version) h

  switched_daemon :
      (req : SwitchReq) (t : Duration) (d : Daemon)
      → validate_cluster_params d.cfg ≡ none
      → InRange d.cfg
      → IsI64 d.cfg.version
      → d.cfg.version <ℤ pos 9223372036854775807
      → IsMode req.protocol
      → Asks dt req t
      → switch dt req d ≡ (adopt dt (switched req.protocol t d.cfg, true, none) d, none)
  unfolding switch set
  switched_daemon req t d valid range r room m asks =
      let (text, made, parsed, fits, nonneg) = asked req t asks in
      let p = req.protocol in
      let v = switched-valid p t d.cfg m nonneg valid in
      rw (known_mode p m, made, bump_switched p t d.cfg range r room text v parsed fits) refl

  -- On a daemon whose parts agree with a valid live configuration, with durations and a version that
  -- are int64 values and a version below the greatest, /switch to a known protocol, with suspicion
  -- enabled for a positive duration or disabled, each as the handler reads it from the body, gives
  -- no error: the live configuration is then the next version of the old one, with the protocol and
  -- the suspicion time that were asked for, and the parts of the daemon, the running loop among
  -- them, agree with it.
  pub switch_lem :
      (ops : StringOps) (body : SwitchReq) (t : Duration) (d : Daemon)
      → IsSynced dt d
      → InRange d.cfg
      → IsI64 d.cfg.version
      → d.cfg.version <ℤ pos 9223372036854775807
      → IsMode (read_req ops body).protocol
      → Asks dt (read_req ops body) t
      → let (d', e) = handle_switch ops dt body d in
        (e ≡ none) × (d'.cfg ≡ switched (read_req ops body).protocol t d.cfg) × IsSynced dt d'
  unfolding handle_switch
  switch_lem ops body t d w range r room m asks =
      let req = read_req ops body in
      let same = switched_daemon req t d w.valid range r room m asks in
      (
        (λ i. (same i).1),
        (λ i. (same i).0.cfg) ∙ adopt-live dt (switched req.protocol t d.cfg) true none d,
        switch-IsSynced dt req d w,
      )
