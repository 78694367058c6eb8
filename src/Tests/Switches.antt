-- ===== src/Tests/Switches.antt =====
-- /switch of src/pkg/daemon/daemon.go at the sample configuration.
use failure_detector.Prelude.{
  ◌≡◌, refl, inl, none, some, arith, sym, subst, [], ◌∷◌, ◌∙◌, ◌+◌, ◌&&◌, ltb, holds, if◌then◌else◌,
  ℕ_discrete,
}
use failure_detector.Prelude.Int.{pos, IsI64, ◌<ℤ◌}
use failure_detector.Go.Text.{Text, codes, text_discrete}
use failure_detector.Go.Float.{float_lt}
use failure_detector.Config.{validate_cluster_params, mode_pingack}
use failure_detector.Config.Laws.{InRange}
use failure_detector.Store.{Store, new}
use failure_detector.Daemon.{Daemon, initial, start_protocol}
use failure_detector.Daemon.Synced.{IsSynced}
use failure_detector.Daemon.Events.{handle_events, events-start-IsSynced}
use failure_detector.Daemon.Admin.{SwitchReq, StringOps, handle_switch, read_req}
use failure_detector.Daemon.Switch.{switched, switch_lem}
use failure_detector.Tests.Samples.{node_a, sample_config, toy_text, toy_parse}

abbrev store : Store
store = new node_a sample_config 50

store-config : store.config ≡ sample_config
unfolding new
store-config = refl

sample-valid : validate_cluster_params sample_config ≡ none
unfolding validate_cluster_params text_discrete float_lt
sample-valid = refl

abbrev pub running : Daemon
running = start_protocol toy_text sample_config (initial sample_config store)

pub running-IsSynced : IsSynced toy_text running
unfolding handle_events
running-IsSynced = events-start-IsSynced toy_text [] sample_config store store-config sample-valid

running-cfg : running.cfg ≡ sample_config
unfolding start_protocol initial text_discrete
running-cfg = refl

sample-InRange : InRange sample_config
sample-InRange = record {
  ping_every = omega arith;
  gossip_period = omega arith;
  t_suspect = omega arith;
  t_fail = omega arith;
  t_cleanup = omega arith;
}

-- Drops the leading spaces.
unfoldable trim_left : Text → Text
unfolding ℕ_discrete
trim_left [] = []
trim_left (c ∷ s) = let rest = trim_left s in if holds (ℕ_discrete c 32) then rest else c ∷ s

unfoldable lower : Text → Text
lower [] = []
lower (c ∷ s) = (if ltb 64 c && ltb c 91 then c + 32 else c) ∷ lower s

abbrev ops : StringOps
ops = record { trim = trim_left; to_lower = lower }

-- Pings, with a suspicion time of 9.
abbrev body : SwitchReq
body = record {
  protocol = codes " PingAck";
  suspicion = codes "Enabled";
  suspicion_time = 32 ∷ b'+' ∷ 9 ∷ [];
}

read-body : read_req ops body ≡ record {
  protocol = mode_pingack;
  suspicion = codes "enabled";
  suspicion_time = b'+' ∷ 9 ∷ [];
}
unfolding read_req trim_left lower
read-body = refl

nine : toy_parse (b'+' ∷ 9 ∷ []) ≡ some (pos 9)
unfolding toy_parse
nine = refl

switch_lem_example :
    let (d', e) = handle_switch ops toy_text body running in
    (e ≡ none)
    × (d'.cfg ≡ switched (read_req ops body).protocol (pos 9) running.cfg)
    × IsSynced toy_text d'
switch_lem_example =
    switch_lem toy_text ops body (pos 9) running running-IsSynced
      (subst InRange (sym running-cfg) sample-InRange)
      (subst (λ c. IsI64 c.version) (sym running-cfg) (omega arith))
      (subst (λ c. c.version <ℤ pos 9223372036854775807) (sym running-cfg) (omega arith))
      (inl (λ i. (read-body i).protocol))
      (inl (
        (λ i. (read-body i).suspicion),
        (λ i. toy_parse (read-body i).suspicion_time) ∙ nine,
        omega arith,
      ))
