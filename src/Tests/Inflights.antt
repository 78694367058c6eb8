-- ===== src/Tests/Inflights.antt =====
-- src/pkg/protocol/common/inflight.go at a table of two pings.
use failure_detector.Prelude.{◌≡◌, refl, [], ◌∷◌, true, false, arith}
use failure_detector.Prelude.Int.{pos}
use failure_detector.Go.Text.{codes}
use failure_detector.Inflight.{Inflight, add, done, expired}
use failure_detector.Inflight.Laws.{overdue, waiting, expired_lem, expired-expired, done-add}

abbrev two_pings : Inflight
two_pings =
    (7, record { dl = 100; addr = codes "b:1" }) ∷ (9, record { dl = 300; addr = codes "c:1" }) ∷ []

one_overdue : overdue 200 two_pings ≡ record { nonce = 7; addr = codes "b:1" } ∷ []
unfolding overdue
one_overdue = refl

expired_lem_example : expired 200 two_pings ≡ (overdue 200 two_pings, waiting 200 two_pings)
expired_lem_example = expired_lem 200 two_pings (omega arith)

nothing_twice : expired 150 (expired 200 two_pings).1 ≡ ([], (expired 200 two_pings).1)
nothing_twice = expired-expired 200 150 two_pings (omega arith) (omega arith)

ack_known_once :
    let (m', known) = done 5 (add 10 5 (pos 20) (codes "d:1") two_pings) in
    (known ≡ true) × ((done 5 m').1 ≡ false)
ack_known_once = done-add 10 5 20 (codes "d:1") two_pings (omega arith)
