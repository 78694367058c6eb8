-- ===== src/Config/Apply.antt =====
-- ToDTO, ApplyDTO, ApplyRemote and BumpAndApplyLocal of src/pkg/config/config.go.
use failure_detector.Prelude.{Bool, true, false, [], ◌∷◌, Option, none, some, if◌then◌else◌}
use failure_detector.Prelude.Int.{ℤ, pos, ltb_ℤ, leb_ℤ, add_i64}
use failure_detector.Go.Text.{Text}
use failure_detector.Go.Clock.{Duration}
use failure_detector.Config.{
  Config, ConfigDto, ConfigError, DurationText, mode_missing, invalid_mode, ping_every_missing,
  invalid_ping_every, gossip_period_missing, invalid_gossip_period, t_suspect_missing,
  invalid_t_suspect, t_fail_missing, invalid_t_fail, t_cleanup_missing, invalid_t_cleanup,
  bad_ping_fanout, bad_gossip_fanout, bad_drop_rate, bad_mode, not_positive, bad_rate,
  validate_cluster_params,
}

-- What ApplyDTO has so far: `err` is an early `return false, err`.
pub data Attempt {κ} (T : Type κ) : Type κ where
  err : ConfigError → Attempt T
  ok : T → Attempt T

infixl 5 ◌>>=◌ ◌>>◌
abbrev pub ◌>>=◌ {κ μ} : {T : Type κ} {U : Type μ} → Attempt T → (T → Attempt U) → Attempt U
err e >>= next = err e
ok t >>= next = next t

abbrev pub ◌>>◌ {κ} : {T : Type κ} → Attempt (Unit {0}) → Attempt T → Attempt T
err e >> rest = err e
ok done >> rest = rest

-- `if bad { return error }`
abbrev pub refuse_if : Bool → ConfigError → Attempt (Unit {0})
refuse_if true e = err e
refuse_if false e = ok tt

abbrev pub is_empty : Text → Bool
is_empty [] = true
is_empty (c ∷ s) = false

-- A parsed duration, unless it could not be parsed or `bad` refuses it.
abbrev pub checked : Option Duration → (Duration → Bool) → ConfigError → Attempt Duration
checked none bad e = err e
checked (some d) bad e = if bad d then err e else ok d

-- `x < 0`
abbrev pub negative : ℤ → Bool
negative x = ltb_ℤ x (pos 0)

-- The `if err := ValidateClusterParams(&next); err != nil` at the end of ApplyDTO.
abbrev pub validated : Config → Option ConfigError → Attempt Config
validated next none = ok next
validated next (some e) = err e

-- `*c = next`, or the config left as it was.
abbrev pub commit : Config → Attempt Config → Config × Bool × Option ConfigError
commit c (ok next) = (next, true, none)
commit c (err e) = (c, false, some e)

module _ (dt : DurationText) where
  -- ToDTO
  unfoldable pub to_dto : Config → ConfigDto
  to_dto c = record {
    version = c.version;
    mode = c.mode;
    ping_every = dt.format c.ping_every;
    ping_fanout = c.ping_fanout;
    gossip_period = dt.format c.gossip_period;
    gossip_fanout = c.gossip_fanout;
    t_suspect = dt.format c.t_suspect;
    t_fail = dt.format c.t_fail;
    t_cleanup = dt.format c.t_cleanup;
    drop_rate_recv = c.drop_rate_recv;
  }

  -- ApplyDTO between the version check and the commit: the config `next`, or an error.
  unfoldable pub merge_dto : Config → ConfigDto → Attempt Config
  merge_dto c dto = do
    refuse_if (is_empty dto.mode) mode_missing
    refuse_if (bad_mode dto.mode) invalid_mode
    refuse_if (is_empty dto.ping_every) ping_every_missing
    every ← checked (dt.parse dto.ping_every) not_positive invalid_ping_every
    refuse_if (is_empty dto.gossip_period) gossip_period_missing
    period ← checked (dt.parse dto.gossip_period) not_positive invalid_gossip_period
    refuse_if (is_empty dto.t_suspect) t_suspect_missing
    suspect ← checked (dt.parse dto.t_suspect) negative invalid_t_suspect
    refuse_if (is_empty dto.t_fail) t_fail_missing
    fail ← checked (dt.parse dto.t_fail) not_positive invalid_t_fail
    refuse_if (is_empty dto.t_cleanup) t_cleanup_missing
    cleanup ← checked (dt.parse dto.t_cleanup) not_positive invalid_t_cleanup
    refuse_if (not_positive dto.ping_fanout) bad_ping_fanout
    refuse_if (not_positive dto.gossip_fanout) bad_gossip_fanout
    refuse_if (bad_rate dto.drop_rate_recv) bad_drop_rate
    let next : Config = record c {
      version = dto.version;
      mode = dto.mode;
      ping_every = every;
      ping_fanout = dto.ping_fanout;
      gossip_period = period;
      gossip_fanout = dto.gossip_fanout;
      t_suspect = suspect;
      t_fail = fail;
      t_cleanup = cleanup;
      drop_rate_recv = dto.drop_rate_recv;
    }
    validated next (validate_cluster_params next)

  -- ApplyDTO: the config behind `c` afterwards, `changed` and the error.
  unfoldable pub apply_dto : Config → ConfigDto → Config × Bool × Option ConfigError
  apply_dto c dto =
      if leb_ℤ dto.version c.version then (c, false, none) else commit c (merge_dto c dto)

  -- ApplyRemote
  unfoldable pub apply_remote : Config → ConfigDto → Config × Bool × Option ConfigError
  apply_remote c dto = apply_dto c dto

  -- BumpAndApplyLocal
  unfoldable pub bump_and_apply_local : Config → ConfigDto → Config × Bool × Option ConfigError
  bump_and_apply_local c dto =
      if leb_ℤ dto.version c.version
      then apply_dto c (record dto { version = add_i64 c.version (pos 1) })
      else apply_dto c dto
