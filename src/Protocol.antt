-- ===== src/Protocol.antt =====
-- src/pkg/protocol: what the two protocol loops share, and src/pkg/protocol/common/peers.go.
pub mod Peers
pub mod Gossip
pub mod Pingack
pub mod Exchange
pub mod Reconcile
pub mod Receiver
pub mod Rounds
pub mod Sender
pub mod SendLoops
pub mod Missed
pub mod Targets
pub mod Ticks
use failure_detector.Prelude.{
  ℕ, Bool, true, false, ◌&&◌, ◌||◌, List, [], ◌∷◌, Option, none, some, holds, if◌then◌else◌,
  get_elem?, take,
}
use failure_detector.Prelude.Int.{ℤ, pos, negsuc}
use failure_detector.Go.Text.{Text}
use failure_detector.Go.Float.{Float64, zero_float, float_lt}
use failure_detector.Node.{NodeId, NodeId-discrete}
use failure_detector.Store.{MemberEntry, key, is_left}

-- ResolvePeersFromMemberList
unfoldable pub resolve_peers : List MemberEntry → NodeId → List Text
resolve_peers [] self = []
resolve_peers (e ∷ l) self =
    let rest = resolve_peers l self in
    if holds (NodeId-discrete e.id self) then rest else key e.id ∷ rest

-- The loop over the table that ends a receive loop: the own row is marked Left.
unfoldable pub own_left : List MemberEntry → NodeId → Bool
own_left [] self = false
own_left (e ∷ l) self = (holds (NodeId-discrete e.id self) && is_left e.state) || own_left l self

-- shouldDrop, for the number that rand.Float64 draws
abbrev pub should_drop : Float64 → Float64 → Bool
should_drop rate draw = float_lt zero_float rate && float_lt draw rate

-- `for i := 0; i < k; i++` runs as often as that.
abbrev pub rounds : ℤ → ℕ
rounds (pos n) = n
rounds (negsuc n) = 0

-- `peers[i]` for the indices of a permutation.
unfoldable pub pick : List Text → List ℕ → List Text
pick peers [] = []
pick peers (i ∷ is) = elim (get_elem? peers i) [ none ↦ pick peers is | some a ↦ a ∷ pick peers is ]

-- The addresses that a tick sends to: `peers[perm[i]]` for `i` below the fanout and the length.
unfoldable pub targets : ℤ → List Text → List ℕ → List Text
unfolding pick
targets fanout peers perm = pick peers (take (rounds fanout) perm)
