-- ===== src/Tests/Configs.antt =====
-- src/pkg/config/config.go at the sample configuration.
use failure_detector.Prelude.{◌≡◌, ◌⊎◌, refl, true, false, none, some, arith}
use failure_detector.Prelude.Int.{pos, ◌<ℤ◌}
use failure_detector.Go.Text.{text_discrete}
use failure_detector.Go.Float.{float_lt}
use failure_detector.Daemon.Diff.{config_diff}
use failure_detector.Prelude.{map, length, [], ◌∷◌}
use failure_detector.Config.{Config, ConfigError, validate_cluster_params, mode_pingack}
use failure_detector.Config.Apply.{to_dto, apply_dto, bump_and_apply_local}
use failure_detector.Config.Laws.{
  SameLocal, with_cluster, InRange, apply_dto_outcome, apply_dto-apply_dto, apply_dto-to_dto,
  bump_and_apply_local_outcome,
}
use failure_detector.Tests.Samples.{sample_config, toy_text}

abbrev newer : Config
newer = record sample_config { version = pos 2; mode = mode_pingack; t_fail = pos 77 }

newer-valid : validate_cluster_params newer ≡ none
unfolding validate_cluster_params text_discrete float_lt
newer-valid = refl

newer-InRange : InRange newer
newer-InRange = record {
  ping_every = omega arith;
  gossip_period = omega arith;
  t_suspect = omega arith;
  t_fail = omega arith;
  t_cleanup = omega arith;
}

apply_dto-to_dto_example :
    apply_dto toy_text sample_config (to_dto toy_text newer)
    ≡ (with_cluster newer sample_config, true, none)
apply_dto-to_dto_example =
    apply_dto-to_dto toy_text newer sample_config newer-valid newer-InRange (omega arith)

apply_dto_outcome_example :
    let (c', changed, e) = apply_dto toy_text sample_config (to_dto toy_text newer) in
    ((changed ≡ true)
      × (e ≡ none)
      × (sample_config.version <ℤ (to_dto toy_text newer).version)
      × (c'.version ≡ (to_dto toy_text newer).version)
      × (validate_cluster_params c' ≡ none)
      × SameLocal sample_config c')
    ⊎ ((changed ≡ false) × (c' ≡ sample_config))
apply_dto_outcome_example = apply_dto_outcome toy_text sample_config (to_dto toy_text newer)

taken_over : (apply_dto toy_text sample_config (to_dto toy_text newer)).1 ≡ true
taken_over = rw apply_dto-to_dto_example

same_dto_again :
    apply_dto toy_text
      (apply_dto toy_text sample_config (to_dto toy_text newer)).0
      (to_dto toy_text newer)
    ≡ ((apply_dto toy_text sample_config (to_dto toy_text newer)).0, false, none)
same_dto_again = apply_dto-apply_dto toy_text sample_config (to_dto toy_text newer) taken_over

bump_and_apply_local_outcome_example :
    let (c', changed, e) =
      bump_and_apply_local toy_text sample_config (to_dto toy_text sample_config) in
    ((changed ≡ true) × (e ≡ none) × (sample_config.version <ℤ c'.version))
    ⊎ ((changed ≡ false) × ((x : ConfigError) × (e ≡ some x)) × (c' ≡ sample_config))
bump_and_apply_local_outcome_example =
    bump_and_apply_local_outcome toy_text sample_config (to_dto toy_text sample_config)
      (omega arith) (omega arith)

-- Only the line of the failure time is marked.
one_mark :
    map
      (λ r. length r.mark)
      (config_diff toy_text (λ x. []) sample_config (record sample_config { t_fail = pos 5 }))
    ≡ 0 ∷ 0 ∷ 0 ∷ 0 ∷ 0 ∷ 0 ∷ 3 ∷ 0 ∷ 0 ∷ []
unfolding config_diff text_discrete
one_mark = refl
