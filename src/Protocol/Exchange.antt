-- ===== src/Protocol/Exchange.antt =====
-- What the receive loops of src/pkg/protocol/gossip/loop.go and pingack/loop.go achieve together with
-- the loops that send.
use failure_detector.Prelude.{
  ℕ, ◌≡◌, refl, false, Bool, List, [], ◌∷◌, none, some, arith, inl, inr, All, Bool-cases,
  ℕ_discrete,
}
use failure_detector.Go.Text.{Text}
use failure_detector.Prelude.Map.{lookup, IsMap, lookup-delete}
use failure_detector.Go.Clock.{Time}
use failure_detector.Store.{MemberEntry, Store, row, snapshot, merge_full_list}
use failure_detector.Store.Others.{rows_P}
use failure_detector.Store.Merge.{IsSane, Covered}
use failure_detector.Store.Join.{merge_covers}
use failure_detector.Inflight.{done}
use failure_detector.Wire.{Message, msg_ack}
use failure_detector.Protocol.{own_left}
use failure_detector.Protocol.Gossip as Gossip
use failure_detector.Protocol.Pingack as Pingack

-- The node has not left: its receive loops go on.
abbrev pub Listens : Time → Store → Type 0
Listens now s = let ((entries, self), s') = snapshot now s in own_left entries self ≡ false

-- A gossip loop sends one message to all.
pub send_all-All :
    (P : Message → Type 0) (reaches : Text → Message → Bool) (msg : Message) (to : List Text)
    → P msg
    → All (λ m. P m.1) (Gossip.send_all reaches msg to)
unfolding Gossip.send_all
send_all-All P reaches msg [] h = tt
send_all-All P reaches msg (a ∷ to) h = elim (Bool-cases (reaches a msg)) [
  | inl sent ↦ rw sent (h, send_all-All P reaches msg to h)
  | inr lost ↦ rw lost (send_all-All P reaches msg to h)
]

-- Every message of a gossip tick makes a node that handles it, and has not left, know all rows of the
-- sender's table as the tick leaves it: each is old news, if none comes from the future of the
-- receiver's clock and every incarnation can still grow.
pub gossip_arrives :
    (reaches : Text → Message → Bool) (now later : Time) (perm : List ℕ) (l : Gossip.Loop)
    (s r : Store)
    → Listens later r
    → All (IsSane later) (snapshot now s).0.0
    → let (out, s') = Gossip.tick reaches now perm l s in
      All
        (λ m.
          (k : Text) (e : MemberEntry)
          → row k s' ≡ some e
          → Covered (Gossip.handle later m.1 r).0 e)
        out
unfolding Gossip.tick Gossip.handle snapshot
gossip_arrives reaches now later perm l s r h sane =
    let entries = (snapshot now s).0.0 in
    send_all-All
      (λ m.
        (k : Text) (e : MemberEntry)
        → row k (snapshot now s).1 ≡ some e
        → Covered (Gossip.handle later m r).0 e)
      reaches (Gossip.gossip_of entries l) _
      (λ k e found. rw h (
        rows_P (Covered (merge_full_list later entries (snapshot later r).1))
          (snapshot now s).1.entries k e (merge_covers later entries (snapshot later r).1 sane)
          found))

-- If neither node has left, a ping is answered with an ACK of its nonce, and the ACK takes the ping
-- off the sender's table of pings.
pub ping_round :
    (now later : Time) (nonce : ℕ) (entries : List MemberEntry) (sender receiver : Pingack.Loop)
    (s r : Store)
    → Listens now r
    → Listens later s
    → IsMap ℕ_discrete sender.inflight
    → (ack : Message) × ((Pingack.handle now
          (Pingack.ping_of nonce entries sender)
          receiver
          r).reply
        ≡ some ack)
      × (ack.msg_type ≡ msg_ack)
      × (ack.nonce ≡ nonce)
      × (lookup ℕ_discrete nonce (Pingack.handle later ack sender s).loop.inflight ≡ none)
unfolding Pingack.handle Pingack.dispatch done
ping_round now later nonce entries sender receiver s r h g m =
    let ((list, self), r') = snapshot now (merge_full_list now entries (snapshot now r).1) in
    (
      Pingack.ack_of nonce list receiver,
      rw h refl,
      refl,
      refl,
      rw g (ground (arith, lookup-delete ℕ_discrete nonce nonce sender.inflight m)),
    )
