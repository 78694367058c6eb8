-- ===== src/Node/Order.antt =====
-- Compare of src/pkg/node/nodeid.go orders NodeIDs by boot time alone.
use failure_detector.Prelude.{◌<◌, ◌≡◌, ◌↔◌, arith}
use failure_detector.Prelude.Int.{pos, negsuc}
use failure_detector.Node.{NodeId, compare_id}

-- `Compare(a, b)` is -1, 0 or +1 exactly as the boot time of `a` is below, equal to or above that
-- of `b`; the endpoints do not matter.
pub compare_id_iff :
    (a b : NodeId)
    → ((compare_id a b ≡ negsuc 0) ↔ (a.time_stamp < b.time_stamp))
      × ((compare_id a b ≡ pos 0) ↔ (a.time_stamp ≡ b.time_stamp))
      × ((compare_id a b ≡ pos 1) ↔ (b.time_stamp < a.time_stamp))
unfolding compare_id
compare_id_iff a b = (ground arith, ground arith, ground arith)
