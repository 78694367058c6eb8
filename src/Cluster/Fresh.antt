-- ===== src/Cluster/Fresh.antt =====
-- A new store of src/pkg/store/membership.go meets what the cluster asks of its nodes.
use failure_detector.Prelude.{◌≡◌, ◌≢◌, refl, ap, true, none, some, arith}
use failure_detector.Go.Text.{Text}
use failure_detector.Node.{NodeId}
use failure_detector.Store.{new, MemberEntry, alive, key, row}
use failure_detector.Prelude.Map.{lookup, insert}
use failure_detector.Go.Clock.{Time}
use failure_detector.Config.{Config}
use failure_detector.Store.Rank.{suspicion}
use failure_detector.Store.Invariant.{new-IsWf}
use failure_detector.Cluster.{own_incarnation, incarnation_in}
use failure_detector.Cluster.Nodes.{IsSound}

new-up :
    (self : NodeId) (cfg : Config) (now : Time)
    → row (key self) (new self cfg now)
      ≡ some (record { id = self; incarnation = 100; state = alive; last_update = now })
unfolding new insert lookup
new-up self cfg now = ground arith

new-alone :
    (self : NodeId) (cfg : Config) (now : Time) (k : Text)
    → k ≢ key self
    → row k (new self cfg now) ≡ none
unfolding new insert lookup
new-alone self cfg now k n = ground arith

pub new-IsSound :
    (P : MemberEntry → Type 0) (self : NodeId) (cfg : Config) (now : Time)
    → suspicion (new self cfg now) ≡ true
    → IsSound P self (own_incarnation (new self cfg now)) (new self cfg now)
unfolding new
new-IsSound P self cfg now on = record {
  wf = new-IsWf self cfg now;
  suspicious = on;
  same_self = refl;
  up = record {
    me = record { id = self; incarnation = 100; state = alive; last_update = now };
    found = new-up self cfg now;
    itself = refl;
    up = refl;
    at_least = omega (arith, ap incarnation_in (new-up self cfg now));
    can_grow = omega arith;
  };
  others = λ k x n h. cc (h, new-alone self cfg now k n);
}
