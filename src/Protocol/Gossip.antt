-- ===== src/Protocol/Gossip.antt =====
-- src/pkg/protocol/gossip/loop.go: the state of the loop, what it does with a message, and what it
-- sends on a tick. Its sockets, timers and byte counters are not modelled.
use failure_detector.Prelude.{Bool, true, false, ℕ, List, [], ◌∷◌, some, if◌then◌else◌}
use failure_detector.Prelude.Int.{ℤ}
use failure_detector.Go.Text.{Text}
use failure_detector.Go.Clock.{Time, Duration}
use failure_detector.Go.Float.{Float64, zero_float}
use failure_detector.Config.{Config, ConfigDto}
use failure_detector.Store.{MemberEntry, Store, snapshot, merge_full_list}
use failure_detector.Wire.{MsgType, Message, msg_gossip, msg_other}
use failure_detector.Protocol.{resolve_peers, own_left, targets}

-- Loop, without the store and the socket that it shares.
pub record Loop : Type 0 where
  pub gossip_period : Duration
  pub gossip_fanout : ℤ
  pub drop_rate_recv : Float64
  pub cfg_dto : ConfigDto

-- New, with the DTO that the daemon sets before Run: no one reads the empty one.
unfoldable pub new : Duration → ℤ → ConfigDto → Loop
new period fanout dto = record {
  gossip_period = period;
  gossip_fanout = fanout;
  drop_rate_recv = zero_float;
  cfg_dto = dto;
}

-- SetConfigDTO
unfoldable pub set_config_dto : ConfigDto → Loop → Loop
set_config_dto dto l = record l { cfg_dto = dto }

-- Reconfigure
unfoldable pub reconfigure : Config → Loop → Loop
reconfigure next l = record l {
  gossip_period = next.gossip_period;
  gossip_fanout = next.gossip_fanout;
  drop_rate_recv = next.drop_rate_recv;
}

-- The switch on the type of a message.
abbrev pub is_known : MsgType → Bool
is_known (msg_other n) = false
is_known _ = true

-- recvLoop after the configuration of the message: the store, and whether the loop goes on.
unfoldable pub handle : Time → Message → Store → Store × Bool
handle now msg s =
    let ((entries, self), s') = snapshot now s in
    if own_left entries self
    then (s', false)
    else (if is_known msg.msg_type then merge_full_list now msg.list s' else s', true)

-- The message of a tick.
abbrev pub gossip_of : List MemberEntry → Loop → Message
gossip_of entries l = record {
  msg_type = msg_gossip;
  nonce = 0;
  list = entries;
  cfg = some l.cfg_dto;
}

-- The loop over the targets of a tick. `reaches` tells whether EncodeMessage and ResolveUDPAddr gave
-- no error.
unfoldable pub send_all : (Text → Message → Bool) → Message → List Text → List (Text × Message)
send_all reaches msg [] = []
send_all reaches msg (addr ∷ to) =
    let rest = send_all reaches msg to in if reaches addr msg then (addr, msg) ∷ rest else rest

-- The ticker's case of gossipLoop: who is sent what, and the store, whose heartbeat was set. `perm`
-- is the permutation that rand.Perm drew.
unfoldable pub tick :
    (Text → Message → Bool) → Time → List ℕ → Loop → Store → List (Text × Message) × Store
unfolding send_all
tick reaches now perm l s =
    let ((entries, self), s') = snapshot now s in
    let to = targets l.gossip_fanout (resolve_peers entries self) perm in
    (send_all reaches (gossip_of entries l) to, s')
