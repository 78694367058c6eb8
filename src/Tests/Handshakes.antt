-- ===== src/Tests/Handshakes.antt =====
-- A join of src/pkg/daemon/daemon.go between two sample nodes.
use failure_detector.Prelude.{◌≡◌, ◌⊎◌, refl, none, arith, All}
use failure_detector.Prelude.Int.{pos, ◌<ℤ◌, ◌≤ℤ◌}
use failure_detector.Prelude.Map.{lookup, insert}
use failure_detector.Go.Text.{text_discrete, decimal}
use failure_detector.Go.Netip.{addr_to_string, dotted}
use failure_detector.Go.Float.{float_lt}
use failure_detector.Node.{NodeId-discrete, endpoint_to_string}
use failure_detector.Config.{Config, validate_cluster_params, mode_pingack}
use failure_detector.Config.Laws.{InRange, with_cluster}
use failure_detector.Store.{new, snapshot, beat_rows, values, merge_full_list}
use failure_detector.Store.Merge.{IsSane, Covered}
use failure_detector.Daemon.{Daemon, initial, join_request, handle_join, join}
use failure_detector.Daemon.Handshake.{join_round}
use failure_detector.Tests.Samples.{node_a, node_b, sample_config, toy_text}

program : Unit {0}
unfolding lookup insert text_discrete decimal addr_to_string dotted endpoint_to_string
    NodeId-discrete new snapshot beat_rows values merge_full_list join_request handle_join initial
program = tt

abbrev newer : Config
newer = record sample_config { version = pos 2; mode = mode_pingack; t_fail = pos 77 }

newer-valid : validate_cluster_params newer ≡ none
unfolding validate_cluster_params text_discrete float_lt
newer-valid = refl

newer-InRange : InRange newer
newer-InRange = record {
  ping_every = omega arith;
  gossip_period = omega arith;
  t_suspect = omega arith;
  t_fail = omega arith;
  t_cleanup = omega arith;
}

abbrev introducer : Daemon
introducer = initial newer (new node_a newer 50)

abbrev joiner : Daemon
joiner = initial sample_config (new node_b sample_config 55)

asked-IsSane : All (IsSane 70) (join_request toy_text 60 joiner).0.list
unfolding program
asked-IsSane = (record { not_future = omega arith; can_grow = omega arith }, tt)

answered-IsSane :
    All (IsSane 80) (handle_join toy_text 70 (join_request toy_text 60 joiner).0 introducer).0.list
unfolding program
answered-IsSane = (
  record { not_future = omega arith; can_grow = omega arith },
  (record { not_future = omega arith; can_grow = omega arith }, tt),
)

join_round_example :
    let (req, d1) = join_request toy_text 60 joiner in
    let (resp, i') = handle_join toy_text 70 req introducer in
    let d' = join toy_text 80 resp d1 in
    All (Covered i'.st) req.list
    × All (Covered d'.st) resp.list
    × (((pos 1 <ℤ pos 2) × (d'.cfg ≡ with_cluster newer sample_config))
        ⊎ ((pos 2 ≤ℤ pos 1) × (d'.cfg ≡ sample_config)))
unfolding initial
join_round_example =
    join_round toy_text 60 70 80 introducer joiner newer-valid newer-InRange asked-IsSane
      answered-IsSane
