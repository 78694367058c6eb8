-- ===== src/Protocol/Pingack.antt =====
-- src/pkg/protocol/pingack/loop.go: the state of the loop, what it does with a message, and what it
-- sends on a tick. Its sockets, timers and byte counters are not modelled.
use failure_detector.Prelude.{
  Bool, true, false, ℕ, suc, List, [], ◌∷◌, Option, none, some, if◌then◌else◌,
}
use failure_detector.Prelude.Int.{ℤ}
use failure_detector.Go.Text.{Text}
use failure_detector.Go.Clock.{Time, Duration}
use failure_detector.Go.Float.{Float64, zero_float}
use failure_detector.Config.{Config, ConfigDto}
use failure_detector.Store.{MemberEntry, Store, snapshot, merge_full_list}
use failure_detector.Inflight.{Inflight, new_inflight, add, done}
use failure_detector.Wire.{MsgType, Message, msg_gossip, msg_ping, msg_ack, msg_other}
use failure_detector.Protocol.{resolve_peers, own_left, targets}

-- Loop, without the store and the socket that it shares.
pub record Loop : Type 0 where
  pub ping_every : Duration
  pub t_suspect : Duration
  pub ping_fanout : ℤ
  pub drop_rate_recv : Float64
  pub inflight : Inflight
  pub cfg_dto : ConfigDto

-- New, with the DTO that the daemon sets before Run: no one reads the empty one.
unfoldable pub new : Duration → Duration → ℤ → ConfigDto → Loop
new every t_suspect fanout dto = record {
  ping_every = every;
  t_suspect = t_suspect;
  ping_fanout = fanout;
  drop_rate_recv = zero_float;
  inflight = new_inflight;
  cfg_dto = dto;
}

-- SetConfigDTO
unfoldable pub set_config_dto : ConfigDto → Loop → Loop
set_config_dto dto l = record l { cfg_dto = dto }

-- Reconfigure
unfoldable pub reconfigure : Config → Loop → Loop
reconfigure next l = record l {
  ping_every = next.ping_every;
  t_suspect = next.t_suspect;
  drop_rate_recv = next.drop_rate_recv;
  ping_fanout = next.ping_fanout;
}

-- The answer to a ping.
abbrev pub ack_of : ℕ → List MemberEntry → Loop → Message
ack_of nonce entries l = record {
  msg_type = msg_ack;
  nonce = nonce;
  list = entries;
  cfg = some l.cfg_dto;
}

-- What a receive loop leaves: the loop, the store, the answer, and whether the loop goes on.
pub record Handled : Type 0 where
  pub loop : Loop
  pub st : Store
  pub reply : Option Message
  pub goes_on : Bool

-- The switch on the type of a message.
unfoldable pub dispatch : Time → MsgType → Message → Loop → Store → Handled
dispatch now msg_ping msg l s =
    let ((entries, self), s') = snapshot now (merge_full_list now msg.list s) in
    record { loop = l; st = s'; reply = some (ack_of msg.nonce entries l); goes_on = true }
dispatch now msg_ack msg l s = record {
  loop = record l { inflight = (done msg.nonce l.inflight).0 };
  st = merge_full_list now msg.list s;
  reply = none;
  goes_on = true;
}
dispatch now msg_gossip msg l s = record {
  loop = l;
  st = merge_full_list now msg.list s;
  reply = none;
  goes_on = true;
}
dispatch now (msg_other n) msg l s = record { loop = l; st = s; reply = none; goes_on = true }

-- recvLoop after the configuration of the message.
unfoldable pub handle : Time → Message → Loop → Store → Handled
unfolding dispatch
handle now msg l s =
    let ((entries, self), s') = snapshot now s in
    if own_left entries self
    then record { loop = l; st = s'; reply = none; goes_on = false }
    else dispatch now msg.msg_type msg l s'

-- A ping of a tick.
abbrev pub ping_of : ℕ → List MemberEntry → Loop → Message
ping_of nonce entries l = record {
  msg_type = msg_ping;
  nonce = nonce;
  list = entries;
  cfg = some l.cfg_dto;
}

-- The loop over the targets of a tick: each ping that is sent is noted with its nonce. `nonces` are
-- the numbers that rand.Uint64 draws; `reaches` tells whether EncodeMessage and ResolveUDPAddr gave
-- no error.
unfoldable pub send_pings :
    (Text → Message → Bool)
    → Time
    → List MemberEntry
    → List Text
    → (ℕ → ℕ)
    → Loop
    → List (Text × Message) × Loop
send_pings reaches now entries [] nonces l = ([], l)
send_pings reaches now entries (addr ∷ to) nonces l =
    let ping = ping_of (nonces 0) entries l in
    let noted : Loop = record l { inflight = add now (nonces 0) l.t_suspect addr l.inflight } in
    let sent = reaches addr ping in
    let (out, l') =
      send_pings reaches now entries to (λ i. nonces (suc i)) (if sent then noted else l) in
    (if sent then (addr, ping) ∷ out else out, l')

-- The ticker's case of pingLoop. `perm` is the permutation that rand.Perm drew.
unfoldable pub tick :
    (Text → Message → Bool)
    → Time
    → List ℕ
    → (ℕ → ℕ)
    → Loop
    → Store
    → (List (Text × Message) × Loop) × Store
unfolding send_pings
tick reaches now perm nonces l s =
    let ((entries, self), s') = snapshot now s in
    let to = targets l.ping_fanout (resolve_peers entries self) perm in
    (send_pings reaches now entries to nonces l, s')
