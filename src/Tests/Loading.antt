-- ===== src/Tests/Loading.antt =====
-- src/pkg/config/config.go: flags and the end of the range of versions.
use failure_detector.Prelude.{◌≡◌, ◌⊎◌, inr, refl, true, false, List, [], ◌∷◌, none, arith}
use failure_detector.Prelude.Int.{pos}
use failure_detector.Go.Text.{codes, text_discrete, parse_uint}
use failure_detector.Go.Float.{float_lt}
use failure_detector.Config.{Config, defaults, validate_cluster_params}
use failure_detector.Config.Apply.{to_dto, apply_remote, bump_and_apply_local, is_empty}
use failure_detector.Config.Flags.{
  Resolver, Flag, is_introducer, gossip_fanout, load_from_flags, load_from_flags_lem, udp_addr_ok,
  admin_addr_ok,
}
use failure_detector.Config.Limits.{stuck_at_max}
use failure_detector.Tests.Samples.{sample_config, toy_text}

-- A resolver that knows every name.
abbrev anywhere : Resolver
anywhere = record { udp = λ addr. true; tcp = λ addr. true }

abbrev pub flags : List Flag
flags = is_introducer true ∷ gossip_fanout (pos 2) ∷ []

abbrev pub loaded : Config
loaded = record (defaults (codes "a")) { is_introducer = true; gossip_fanout = pos 2 }

loads : load_from_flags anywhere (codes "a") flags ≡ inr loaded
unfolding load_from_flags defaults validate_cluster_params text_discrete float_lt parse_uint
loads = refl

load_from_flags_lem_example :
    (validate_cluster_params loaded ≡ none)
    × (udp_addr_ok anywhere loaded.self_addr ≡ true)
    × (udp_addr_ok anywhere loaded.bind_addr ≡ true)
    × (admin_addr_ok anywhere loaded.admin_http ≡ true)
    × (((is_empty loaded.introducer ≡ true) × (loaded.is_introducer ≡ true))
        ⊎ ((udp_addr_ok anywhere loaded.introducer ≡ true) × (loaded.is_introducer ≡ false)))
load_from_flags_lem_example = load_from_flags_lem anywhere (codes "a") flags loaded loads

abbrev topped : Config
topped = record sample_config { version = pos 9223372036854775807 }

stuck_at_max_example :
    (apply_remote toy_text topped (to_dto toy_text sample_config) ≡ (topped, false, none))
    × (bump_and_apply_local toy_text topped (to_dto toy_text sample_config) ≡ (topped, false, none))
unfolding to_dto
stuck_at_max_example =
    stuck_at_max toy_text topped (to_dto toy_text sample_config) refl (omega arith)
