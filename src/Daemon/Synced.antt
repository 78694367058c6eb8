-- ===== src/Daemon/Synced.antt =====
-- src/pkg/daemon/daemon.go: the handlers of /set, /switch, /leave and of joins, and of configurations
-- from the wire, leave the parts of the daemon in agreement with its live configuration.
use failure_detector.Prelude.{
  ◌||◌, ◌≡◌, ◌⊎◌, refl, sym, subst, ◌∙◌, Bool, true, false, List, [], ◌∷◌, Option, none, some,
  arith, inl, inr, Bool-cases,
}
use failure_detector.Prelude.Int.{add_u64}
use failure_detector.Go.Clock.{Time}
use failure_detector.Config.{Config, ConfigDto, ConfigError, DurationText, validate_cluster_params}
use failure_detector.Config.{mode_gossip, mode_pingack}
use failure_detector.Go.Text.{Text}
use failure_detector.Config.Apply.{to_dto, apply_dto, apply_remote, bump_and_apply_local}
use failure_detector.Store.{Store, MemberEntry, apply_locked, left, snapshot, merge_full_list}
use failure_detector.Store.Settings.{snapshot-config, apply-config, merge-config}
use failure_detector.Wire.{JoinRequest}
use failure_detector.Config.Laws.{apply_dto_outcome, bump_outcome}
use failure_detector.Daemon.{is_mode, Daemon, adopt, on_config_from_wire, set, handle_join}
use failure_detector.Daemon.Admin.{
  SwitchReq, SwitchError, switch_to, switch, new_suspicion, leave, leave_rows,
}
use failure_detector.Daemon.Modes.{valid-IsMode}
use failure_detector.Daemon.Sync.{Agrees, apply_runtime-Agrees}

module _ (dt : DurationText) where
  -- A valid live configuration, with which all parts agree.
  pub record IsSynced (d : Daemon) : Type 0 where
    pub valid : validate_cluster_params d.cfg ≡ none
    pub agrees : Agrees dt d.cfg d

  -- A change of the store alone.
  pub with_store :
      (s : Store) (d : Daemon)
      → s.config ≡ d.st.config
      → IsSynced d
      → IsSynced (record d { st = s })
  with_store s d e w = record {
    valid = w.valid;
    agrees = record {
      mode = w.agrees.mode;
      runs = w.agrees.runs;
      strays = w.agrees.strays;
      config = e ∙ w.agrees.config;
      t_suspect = w.agrees.t_suspect;
      t_fail = w.agrees.t_fail;
      t_cleanup = w.agrees.t_cleanup;
      use_ping_timeout = w.agrees.use_ping_timeout;
      inflight = w.agrees.inflight;
      live = w.agrees.live;
    };
  }

  adopt-new :
      (next : Config) (d : Daemon)
      → validate_cluster_params next ≡ none
      → IsSynced d
      → IsSynced (adopt dt (next, true, none) d)
  adopt-new next d v w =
      let a = apply_runtime-Agrees dt d.cfg next d w.agrees (valid-IsMode next v) in
      record {
        valid = subst (λ c. validate_cluster_params c ≡ none) (sym a.live) v;
        agrees = subst (λ c. Agrees dt c (adopt dt (next, true, none) d)) (sym a.live) a;
      }

  adopt-same :
      (e : Option ConfigError) (d : Daemon) → IsSynced d → IsSynced (adopt dt (d.cfg, false, e) d)
  adopt-same none d w = w
  adopt-same (some e) d w = w

  -- A change of the configuration, if what it becomes is valid or the same.
  adopt-IsSynced :
      (next : Config) (changed : Bool) (e : Option ConfigError) (d : Daemon)
      → ((changed ≡ true) × (e ≡ none) × (validate_cluster_params next ≡ none))
        ⊎ ((changed ≡ false) × (next ≡ d.cfg))
      → IsSynced d
      → IsSynced (adopt dt (next, changed, e) d)
  adopt-IsSynced next changed e d (inl (c, n, v)) w =
      subst (λ x. IsSynced (adopt dt x d)) (sym (λ i. (next, c i, n i))) (adopt-new next d v w)
  adopt-IsSynced next changed e d (inr (c, n)) w =
      subst (λ x. IsSynced (adopt dt x d)) (sym (λ i. (n i, c i, e))) (adopt-same e d w)

  pub wire-IsSynced :
      (dto : ConfigDto) (d : Daemon) → IsSynced d → IsSynced (on_config_from_wire dt dto d)
  unfolding on_config_from_wire apply_remote
  wire-IsSynced dto d w =
      let (next, changed, e) = apply_dto dt d.cfg dto in
      adopt-IsSynced next changed e d (ground (arith, apply_dto_outcome dt d.cfg dto)) w

  pub set-IsSynced : (dto : ConfigDto) (d : Daemon) → IsSynced d → IsSynced (set dt dto d).0
  unfolding set
  set-IsSynced dto d w =
      let (next, changed, e) = bump_and_apply_local dt d.cfg dto in
      adopt-IsSynced next changed e d (bump_outcome dt d.cfg dto) w

  pub join-IsSynced :
      (now : Time) (req : JoinRequest) (d : Daemon)
      → IsSynced d
      → IsSynced (handle_join dt now req d).1
  unfolding handle_join
  join-IsSynced now req d w =
      with_store _ d
        (snapshot-config now (merge_full_list now req.list d.st) ∙ merge-config now req.list d.st) w

  leave_rows-config :
      (now : Time) (l : List MemberEntry) (s : Store) → (leave_rows now l s).config ≡ s.config
  unfolding leave_rows
  leave_rows-config now [] s = refl
  leave_rows-config now (e ∷ l) s = ground (
    arith,
    leave_rows-config now l s,
    leave_rows-config now l (apply_locked now s.self_id (add_u64 e.incarnation 1) left s),
    apply-config now s.self_id (add_u64 e.incarnation 1) left s,
  )

  pub leave-IsSynced : (now : Time) (d : Daemon) → IsSynced d → IsSynced (leave now d)
  unfolding leave
  leave-IsSynced now d w =
      let ((entries, self), st) = snapshot now d.st in
      with_store (leave_rows now entries st) d
        (leave_rows-config now entries st ∙ snapshot-config now d.st) w

  switch_to-IsSynced :
      (p : Text) (r : SwitchError ⊎ Text) (d : Daemon)
      → IsSynced d
      → IsSynced (switch_to dt p r d).0
  switch_to-IsSynced p (inl e) d w = w
  switch_to-IsSynced p (inr t) d w =
      set-IsSynced (record (to_dto dt d.cfg) { mode = p; t_suspect = t }) d w

  pub switch-IsSynced : (req : SwitchReq) (d : Daemon) → IsSynced d → IsSynced (switch dt req d).0
  unfolding switch
  switch-IsSynced req d w =
      elim (Bool-cases (is_mode req.protocol mode_gossip || is_mode req.protocol mode_pingack)) [
        | inl known ↦ rw known (switch_to-IsSynced req.protocol (new_suspicion dt req) d w)
        | inr bad ↦ rw bad w
      ]
