-- ===== src/Config/Laws.antt =====
-- What a node's configuration keeps through ApplyDTO of src/pkg/config/config.go.
use failure_detector.Prelude.{◌≡◌, refl, true, false, none, some, arith, inl, inr, Bool-cases, ◌⊎◌}
use failure_detector.Prelude.Int.{ℤ, pos, leb_ℤ, add_i64, add_i64-one, IsI64, ◌<ℤ◌, ◌≤ℤ◌}
use failure_detector.Go.Text.{Text}
use failure_detector.Config.{
  Config, ConfigDto, ConfigError, DurationText, bad_mode, not_positive, bad_rate,
  validate_cluster_params,
}
use failure_detector.Config.Apply.{
  Attempt, ok, err, is_empty, negative, merge_dto, apply_dto, to_dto, bump_and_apply_local,
}

-- The fields that never travel are those of `c`.
pub record SameLocal (c d : Config) : Type 0 where
  pub self_addr : d.self_addr ≡ c.self_addr
  pub bind_addr : d.bind_addr ≡ c.bind_addr
  pub introducer_bind_addr : d.introducer_bind_addr ≡ c.introducer_bind_addr
  pub introducer : d.introducer ≡ c.introducer
  pub is_introducer : d.is_introducer ≡ c.is_introducer
  pub admin_http : d.admin_http ≡ c.admin_http

Attempt-cases {ℓ} :
    {A : Type ℓ} (r : Attempt A) → ((a : A) × (r ≡ ok a)) ⊎ ((e : ConfigError) × (r ≡ err e))
Attempt-cases (ok a) = inl (a, refl)
Attempt-cases (err e) = inr (e, refl)

module _ (dt : DurationText) where
  merge_dto-ok :
      (c : Config) (dto : ConfigDto) (next : Config)
      → merge_dto dt c dto ≡ ok next
      → (validate_cluster_params next ≡ none) × (next.version ≡ dto.version) × SameLocal c next
  unfolding merge_dto
  merge_dto-ok c dto next h = ground arith

  -- Whatever arrives, either the node takes over a valid configuration that carries exactly the
  -- version of the DTO, which is above its own, and keeps its local fields, or its configuration
  -- stays as it was.
  pub apply_dto_outcome :
      (c : Config) (dto : ConfigDto)
      → let (c', changed, e) = apply_dto dt c dto in
        ((changed ≡ true)
          × (e ≡ none)
          × (c.version <ℤ dto.version)
          × (c'.version ≡ dto.version)
          × (validate_cluster_params c' ≡ none)
          × SameLocal c c')
        ⊎ ((changed ≡ false) × (c' ≡ c))
  unfolding apply_dto
  apply_dto_outcome c dto = elim (Bool-cases (leb_ℤ dto.version c.version)) [
    | inl old ↦ rw old (inr (refl, refl))
    | inr newer ↦ elim (Attempt-cases (merge_dto dt c dto)) [
      | inl (next, e) ↦ ground (arith, merge_dto-ok c dto next e)
      | inr (x, e) ↦ ground arith
    ]
  ]

  pub apply_dto_old :
      (c : Config) (dto : ConfigDto)
      → dto.version ≤ℤ c.version
      → apply_dto dt c dto ≡ (c, false, none)
  unfolding apply_dto
  apply_dto_old c dto h = ground arith

  apply_dto_newer :
      (c : Config) (dto : ConfigDto)
      → c.version <ℤ dto.version
      → ((apply_dto dt c dto).1 ≡ true)
        ⊎ (((apply_dto dt c dto).1 ≡ false)
            × ((x : ConfigError) × ((apply_dto dt c dto).2 ≡ some x)))
  unfolding apply_dto
  apply_dto_newer c dto h = elim (Attempt-cases (merge_dto dt c dto)) [
    | inl (next, e) ↦ inl (ground arith)
    | inr (x, e) ↦ inr (ground arith, (x, ground arith))
  ]

  -- So the version never falls.
  pub apply_dto-version-le :
      (c : Config) (dto : ConfigDto) → c.version ≤ℤ (apply_dto dt c dto).0.version
  apply_dto-version-le c dto = ground (arith, apply_dto_outcome c dto)

  -- A configuration that was valid stays valid.
  pub apply_dto-IsValid :
      (c : Config) (dto : ConfigDto)
      → validate_cluster_params c ≡ none
      → validate_cluster_params (apply_dto dt c dto).0 ≡ none
  apply_dto-IsValid c dto h = ground (arith, apply_dto_outcome c dto)

  -- Once a DTO was taken over, the same DTO changes nothing more.
  pub apply_dto-apply_dto :
      (c : Config) (dto : ConfigDto)
      → (apply_dto dt c dto).1 ≡ true
      → apply_dto dt (apply_dto dt c dto).0 dto ≡ ((apply_dto dt c dto).0, false, none)
  apply_dto-apply_dto c dto h =
      apply_dto_old (apply_dto dt c dto).0 dto (ground (arith, apply_dto_outcome c dto))

  pub bump_outcome :
      (c : Config) (dto : ConfigDto)
      → let (c', changed, e) = bump_and_apply_local dt c dto in
        ((changed ≡ true) × (e ≡ none) × (validate_cluster_params c' ≡ none))
        ⊎ ((changed ≡ false) × (c' ≡ c))
  unfolding bump_and_apply_local
  bump_outcome c dto =
      let bumped : ConfigDto = record dto { version = add_i64 c.version (pos 1) } in
      ground (arith, apply_dto_outcome c dto, apply_dto_outcome c bumped)

  -- A local change is taken over or refused with an error, and never dropped in silence, as long as
  -- the version can still grow.
  pub bump_and_apply_local_outcome :
      (c : Config) (dto : ConfigDto)
      → c.version <ℤ pos 9223372036854775807
      → IsI64 c.version
      → let (c', changed, e) = bump_and_apply_local dt c dto in
        ((changed ≡ true) × (e ≡ none) × (c.version <ℤ c'.version))
        ⊎ ((changed ≡ false) × ((x : ConfigError) × (e ≡ some x)) × (c' ≡ c))
  unfolding bump_and_apply_local
  bump_and_apply_local_outcome c dto h r =
      let bumped : ConfigDto = record dto { version = add_i64 c.version (pos 1) } in
      ground (
        arith,
        add_i64-one c.version r h,
        apply_dto_outcome c dto,
        apply_dto_newer c dto,
        apply_dto_outcome c bumped,
        apply_dto_newer c bumped,
      )

-- The cluster-wide fields of `c` put into `d`.
abbrev pub with_cluster : Config → Config → Config
with_cluster c d = record d {
  version = c.version;
  mode = c.mode;
  ping_every = c.ping_every;
  ping_fanout = c.ping_fanout;
  gossip_period = c.gossip_period;
  gossip_fanout = c.gossip_fanout;
  t_suspect = c.t_suspect;
  t_fail = c.t_fail;
  t_cleanup = c.t_cleanup;
  drop_rate_recv = c.drop_rate_recv;
}

-- The five durations are int64 values.
pub record InRange (c : Config) : Type 0 where
  pub ping_every : IsI64 c.ping_every
  pub gossip_period : IsI64 c.gossip_period
  pub t_suspect : IsI64 c.t_suspect
  pub t_fail : IsI64 c.t_fail
  pub t_cleanup : IsI64 c.t_cleanup

-- What `validate_cluster_params` lets pass.
record Passed (c : Config) : Type 0 where
  mode_given : is_empty c.mode ≡ false
  mode_known : bad_mode c.mode ≡ false
  every_pos : not_positive c.ping_every ≡ false
  ping_fanout_pos : not_positive c.ping_fanout ≡ false
  period_pos : not_positive c.gossip_period ≡ false
  gossip_fanout_pos : not_positive c.gossip_fanout ≡ false
  suspect_ok : negative c.t_suspect ≡ false
  fail_pos : not_positive c.t_fail ≡ false
  cleanup_pos : not_positive c.t_cleanup ≡ false
  rate_ok : bad_rate c.drop_rate_recv ≡ false

validate-Passed : (c : Config) → validate_cluster_params c ≡ none → Passed c
unfolding validate_cluster_params
validate-Passed c v = record {
  mode_given = ground arith;
  mode_known = ground arith;
  every_pos = ground arith;
  ping_fanout_pos = ground arith;
  period_pos = ground arith;
  gossip_fanout_pos = ground arith;
  suspect_ok = ground arith;
  fail_pos = ground arith;
  cleanup_pos = ground arith;
  rate_ok = ground arith;
}

module _ (dt : DurationText) where
  text-ne-nil : (s : Text) (d : ℤ) → dt.parse s ≡ some d → is_empty s ≡ false
  text-ne-nil s d h = ground (arith, dt.parse-nil)

  format-ne-nil : (d : ℤ) → IsI64 d → is_empty (dt.format d) ≡ false
  format-ne-nil d h = text-ne-nil (dt.format d) d (dt.parse-format d h)

  -- The DTO of `c` with any text of its TSuspect.
  pub apply_dto-retuned :
      (c d : Config) (t_suspect : Text)
      → validate_cluster_params c ≡ none
      → InRange c
      → d.version <ℤ c.version
      → dt.parse t_suspect ≡ some c.t_suspect
      → apply_dto dt d (record (to_dto dt c) { t_suspect = t_suspect })
        ≡ (with_cluster c d, true, none)
  unfolding apply_dto to_dto merge_dto validate_cluster_params
  apply_dto-retuned c d t_suspect v r h same =
      let p = validate-Passed c v in
      ground (
        arith,
        p,
        same,
        dt.parse-format c.ping_every r.ping_every,
        dt.parse-format c.gossip_period r.gossip_period,
        dt.parse-format c.t_fail r.t_fail,
        dt.parse-format c.t_cleanup r.t_cleanup,
        format-ne-nil c.ping_every r.ping_every,
        format-ne-nil c.gossip_period r.gossip_period,
        format-ne-nil c.t_fail r.t_fail,
        format-ne-nil c.t_cleanup r.t_cleanup,
        text-ne-nil t_suspect c.t_suspect same,
      )

  -- A node that receives the DTO of a valid configuration with a higher version ends with all its
  -- cluster-wide fields, durations included, and its own local fields.
  pub apply_dto-to_dto :
      (c d : Config)
      → validate_cluster_params c ≡ none
      → InRange c
      → d.version <ℤ c.version
      → apply_dto dt d (to_dto dt c) ≡ (with_cluster c d, true, none)
  unfolding to_dto
  apply_dto-to_dto c d v r h =
      apply_dto-retuned c d (dt.format c.t_suspect) v r h (dt.parse-format c.t_suspect r.t_suspect)
