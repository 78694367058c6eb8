-- ===== src/Config/Limits.antt =====
-- Versions of src/pkg/config/config.go at the end of the range of int.
use failure_detector.Prelude.{◌≡◌, refl, ap, ◌∙◌, false, none, arith}
use failure_detector.Prelude.Int.{pos, negsuc, add_i64, IsI64}
use failure_detector.Config.{Config, ConfigDto, DurationText}
use failure_detector.Config.Apply.{apply_remote, apply_dto, bump_and_apply_local}

version_wraps : add_i64 (pos 9223372036854775807) (pos 1) ≡ negsuc 9223372036854775807
unfolding add_i64
version_wraps = refl

-- A node whose version is the greatest int never changes its configuration again: a DTO from another
-- node and a local change are both dropped without an error, since a local change wraps around.
pub stuck_at_max :
    (dt : DurationText) (c : Config) (dto : ConfigDto)
    → c.version ≡ pos 9223372036854775807
    → IsI64 dto.version
    → (apply_remote dt c dto ≡ (c, false, none))
      × (bump_and_apply_local dt c dto ≡ (c, false, none))
unfolding apply_remote bump_and_apply_local apply_dto
stuck_at_max dt c dto top r = ground (arith, ap (λ v. add_i64 v (pos 1)) top ∙ version_wraps)
