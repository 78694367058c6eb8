-- ===== src/Protocol/Rounds.antt =====
-- A round of recvLoop of src/pkg/protocol/gossip/loop.go and pingack/loop.go, from the bytes that were
-- read: what it does to the loop and the store, what it sends, and whether the loop goes on. The
-- callback OnConfig is an argument.
use failure_detector.Prelude.{
  ◌≡◌, refl, ap, ◌∙◌, Bool, true, false, List, [], ◌∷◌, Option, none, some, if◌then◌else◌,
}
use failure_detector.Go.Text.{Text}
use failure_detector.Go.Clock.{Time}
use failure_detector.Go.Float.{Float64}
use failure_detector.Config.{ConfigDto}
use failure_detector.Store.{Store, snapshot, merge_full_list}
use failure_detector.Wire.{Message, MessageText, msg_ping, encode_message, decode_message}
use failure_detector.Protocol.{should_drop}
use failure_detector.Protocol.Exchange.{Listens}
use failure_detector.Protocol.Receiver.{
  reading, reads, run, rounds_of, apart-rounds_of, receiver_lem,
}
use failure_detector.Protocol.Gossip as Gossip
use failure_detector.Protocol.Pingack as Pingack

-- A datagram and its sender, when it is handled, and what rand.Float64 draws for it.
pub record Datagram : Type 0 where
  pub now : Time
  pub draw : Float64
  pub from : Text
  pub bytes : Text

-- `if msg.Cfg != nil && l.OnConfig != nil`
abbrev pub with_config {ℓ} : {W : Type ℓ} → (ConfigDto → W → W) → Option ConfigDto → W → W
with_config on_config none w = w
with_config on_config (some dto) w = on_config dto w

module _ (json : MessageText) where
  module _ (on_config : ConfigDto → Gossip.Loop × Store → Gossip.Loop × Store) where
    abbrev pub gossip_heard : Time → Message → Gossip.Loop × Store → (Gossip.Loop × Store) × Bool
    gossip_heard now msg (l, s) = let (s', on) = Gossip.handle now msg s in ((l, s'), on)

    abbrev pub gossip_decoded :
        Time → Option Message → Gossip.Loop × Store → (Gossip.Loop × Store) × Bool
    gossip_decoded now none w = (w, true)
    gossip_decoded now (some msg) w = gossip_heard now msg (with_config on_config msg.cfg w)

    -- gossip/loop.go
    unfoldable pub gossip_round : Datagram → Gossip.Loop × Store → (Gossip.Loop × Store) × Bool
    gossip_round g (l, s) =
        if should_drop l.drop_rate_recv g.draw
        then ((l, s), true)
        else gossip_decoded g.now (decode_message json g.bytes) (l, s)

  -- Datagrams that were sent, the latest first.
  abbrev pub Sent : Type 0
  Sent = List (Text × Text)

  abbrev pub write_to : Text → Option Text → Sent → Sent
  write_to to none out = out
  write_to to (some b) out = (to, b) ∷ out

  abbrev pub reply_to : Text → Option Message → Sent → Sent
  reply_to to none out = out
  reply_to to (some m) out = write_to to (encode_message json m) out

  module _ (on_config : ConfigDto → Pingack.Loop × Store → Pingack.Loop × Store) where
    abbrev pub pingack_heard :
        Datagram → Message → Sent → Pingack.Loop × Store → ((Pingack.Loop × Store) × Sent) × Bool
    pingack_heard g msg out (l, s) =
        let h = Pingack.handle g.now msg l s in
        (((h.loop, h.st), reply_to g.from h.reply out), h.goes_on)

    abbrev pub pingack_decoded :
        Datagram
        → Option Message
        → Sent
        → Pingack.Loop × Store
        → ((Pingack.Loop × Store) × Sent) × Bool
    pingack_decoded g none out w = ((w, out), true)
    pingack_decoded g (some msg) out w = pingack_heard g msg out (with_config on_config msg.cfg w)

    -- pingack/loop.go
    unfoldable pub pingack_round :
        Datagram → (Pingack.Loop × Store) × Sent → ((Pingack.Loop × Store) × Sent) × Bool
    pingack_round g ((l, s), out) =
        if should_drop l.drop_rate_recv g.draw
        then (((l, s), out), true)
        else pingack_decoded g (decode_message json g.bytes) out (l, s)

    answers :
        (g : Datagram) (msg : Message) (l : Pingack.Loop) (s : Store) (out : Sent) (b : Text)
        → should_drop l.drop_rate_recv g.draw ≡ false
        → decode_message json g.bytes ≡ some msg
        → msg.cfg ≡ none
        → msg.msg_type ≡ msg_ping
        → Listens g.now s
        → let ((entries, self), s') =
            snapshot g.now (merge_full_list g.now msg.list (snapshot g.now s).1) in
          encode_message json (Pingack.ack_of msg.nonce entries l) ≡ some b
          → (pingack_round g ((l, s), out)).0.1 ≡ (g.from, b) ∷ out
    unfolding Pingack.handle Pingack.dispatch pingack_round
    answers g msg l s out b kept decoded plain ping there sends =
        rw (kept, decoded, plain, there, ping, sends) refl

    -- A pingack loop that was closed while it was blocked in Read still answers a ping, without a
    -- configuration, that comes next and is not dropped, if its node has not left and the ACK can be
    -- encoded; and then it answers nothing more.
    pub closed_answers :
        (g : Datagram) (msg : Message) (l : Pingack.Loop) (s : Store) (out : Sent) (b : Text)
        → should_drop l.drop_rate_recv g.draw ≡ false
        → decode_message json g.bytes ≡ some msg
        → msg.cfg ≡ none
        → msg.msg_type ≡ msg_ping
        → Listens g.now s
        → let ((entries, self), s') =
            snapshot g.now (merge_full_list g.now msg.list (snapshot g.now s).1) in
          encode_message json (Pingack.ack_of msg.nonce entries l) ≡ some b
          → (xs : List Datagram)
          → (run pingack_round
              (reads (some g) ∷ rounds_of pingack_round xs)
              (record { point = reading; stopped = true })
              ((l, s), out)).1.1
            ≡ (g.from, b) ∷ out
    closed_answers g msg l s out b kept decoded plain ping there sends xs =
        let w : (Pingack.Loop × Store) × Sent = ((l, s), out) in
        let alone = (receiver_lem pingack_round [] g (rounds_of pingack_round xs) w).3 in
        ap (λ y. y.1) (alone ∙ apart-rounds_of pingack_round xs (pingack_round g w).0)
        ∙ answers g msg l s out b kept decoded plain ping there sends
