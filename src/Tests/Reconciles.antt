-- ===== src/Tests/Reconciles.antt =====
-- A ping of src/pkg/protocol/pingack/loop.go between two new nodes.
use failure_detector.Prelude.{◌≡◌, ◌≢◌, refl, some, arith, All}
use failure_detector.Prelude.Map.{lookup, insert}
use failure_detector.Go.Text.{Text, text_discrete, decimal}
use failure_detector.Go.Netip.{addr_to_string, dotted}
use failure_detector.Node.{NodeId-discrete, endpoint_to_string}
use failure_detector.Store.{Store, key, row, new, snapshot, beat_rows, values, merge_full_list}
use failure_detector.Store.Invariant.{new-IsWf}
use failure_detector.Store.Merge.{IsSane}
use failure_detector.Wire.{Message}
use failure_detector.Protocol.{own_left}
use failure_detector.Protocol.Exchange.{Listens}
use failure_detector.Protocol.Reconcile.{SameVersion, ping_reconciles}
use failure_detector.Protocol.Pingack as Pingack
use failure_detector.Daemon.{pingack_for}
use failure_detector.Tests.Samples.{node_a, node_b, sample_config, toy_text}

program : Unit {0}
unfolding lookup insert text_discrete decimal addr_to_string dotted endpoint_to_string
    NodeId-discrete new snapshot beat_rows values own_left merge_full_list
program = tt

abbrev store_a : Store
store_a = new node_a sample_config 50

abbrev store_b : Store
store_b = new node_b sample_config 55

abbrev idle : Pingack.Loop
idle = pingack_for toy_text sample_config

a-Listens : Listens 80 (snapshot 60 store_a).1
unfolding program
a-Listens = refl

b-Listens : Listens 70 store_b
unfolding program
b-Listens = refl

ping-IsSane : All (IsSane 70) (snapshot 60 store_a).0.0
unfolding program
ping-IsSane = (record { not_future = omega arith; can_grow = omega arith }, tt)

ack-IsSane :
    All
      (IsSane 80)
      (snapshot 70 (merge_full_list 70 (snapshot 60 store_a).0.0 (snapshot 70 store_b).1)).0.0
unfolding program
ack-IsSane = (
  record { not_future = omega arith; can_grow = omega arith },
  (record { not_future = omega arith; can_grow = omega arith }, tt),
)

ping_reconciles_example :
    let ((entries, self), s') = snapshot 60 store_a in
    let h = Pingack.handle 70 (Pingack.ping_of 7 entries idle) idle store_b in
    (ack : Message) × (h.reply ≡ some ack)
    × ((k : Text)
        → k ≢ key store_a.self_id
        → SameVersion (row k (Pingack.handle 80 ack idle s').st) (row k h.st))
unfolding new
ping_reconciles_example =
    ping_reconciles 60 70 80 7 idle idle store_a store_b (new-IsWf node_a sample_config 50)
      (new-IsWf node_b sample_config 55) refl refl a-Listens b-Listens ping-IsSane ack-IsSane
