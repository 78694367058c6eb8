-- ===== src/Protocol/SendLoops.antt =====
-- gossipLoop of src/pkg/protocol/gossip/loop.go and pingLoop of pingack/loop.go as goroutines.
use failure_detector.Prelude.{
  ℕ, suc, ◌≡◌, refl, Bool, false, List, [], ◌∷◌, ◌++◌, All, inl, inr, Bool-cases,
}
use failure_detector.Go.Text.{Text}
use failure_detector.Go.Clock.{Time, Duration}
use failure_detector.Config.{not_positive}
use failure_detector.Inflight.{add}
use failure_detector.Store.{Store, MemberEntry}
use failure_detector.Wire.{Message}
use failure_detector.Protocol.Sender.{Event, ticks, KeepsPositive, KeepsPace, sender_lem}
use failure_detector.Protocol.Gossip as Gossip
use failure_detector.Protocol.Pingack as Pingack

-- What a tick draws and meets: which messages can be sent, the time, rand.Perm and rand.Uint64.
pub record Draws : Type 0 where
  pub reaches : Text → Message → Bool
  pub now : Time
  pub perm : List ℕ
  pub nonces : ℕ → ℕ

-- The store, and the messages that were sent.
abbrev pub World : Type 0
World = Store × List (Text × Message)

abbrev pub gossip_period_of : Gossip.Loop → Duration
gossip_period_of l = l.gossip_period

unfoldable pub gossip_work : Draws → Gossip.Loop → World → Gossip.Loop × World
gossip_work t l (s, out) =
    let (sent, s') = Gossip.tick t.reaches t.now t.perm l s in (l, (s', sent ++ out))

abbrev pub ping_period : Pingack.Loop → Duration
ping_period l = l.ping_every

unfoldable pub ping_work : Draws → Pingack.Loop → World → Pingack.Loop × World
ping_work t l (s, out) =
    let ((sent, l'), s') = Pingack.tick t.reaches t.now t.perm t.nonces l s in
    (l', (s', sent ++ out))

send_pings-period :
    (reaches : Text → Message → Bool) (now : Time) (entries : List MemberEntry) (to : List Text)
    (nonces : ℕ → ℕ) (l : Pingack.Loop)
    → (Pingack.send_pings reaches now entries to nonces l).1.ping_every ≡ l.ping_every
unfolding Pingack.send_pings
send_pings-period reaches now entries [] nonces l = refl
send_pings-period reaches now entries (addr ∷ to) nonces l =
    let noted : Pingack.Loop = record l {
      inflight = add now (nonces 0) l.t_suspect addr l.inflight;
    } in
    elim (Bool-cases (reaches addr (Pingack.ping_of (nonces 0) entries l))) [
      | inl sent ↦ rw sent (send_pings-period reaches now entries to (λ i. nonces (suc i)) noted)
      | inr lost ↦ rw lost (send_pings-period reaches now entries to (λ i. nonces (suc i)) l)
    ]

gossip-KeepsPositive : (t : Draws) → KeepsPositive gossip_period_of gossip_work (ticks t)
unfolding gossip_work
gossip-KeepsPositive t l w h = h

ping-KeepsPositive : (t : Draws) → KeepsPositive ping_period ping_work (ticks t)
unfolding ping_work Pingack.tick
ping-KeepsPositive t l w h = rw (send_pings-period t.reaches t.now _ _ t.nonces l) h

-- The send loops of both protocols, with positive periods that do not change while they start and
-- stay positive through what the rest of the program does, reconfigurations among it: they never
-- panic in NewTicker, and each tick of a loop that has not returned leaves a ticker with the period
-- that the loop has at that tick.
pub send_loops_lem :
    (es : List (Event gossip_period_of gossip_work)) (fs : List (Event ping_period ping_work))
    (t : Draws) (g : Gossip.Loop) (p : Pingack.Loop) (w : World)
    → not_positive g.gossip_period ≡ false
    → not_positive p.ping_every ≡ false
    → All (KeepsPositive gossip_period_of gossip_work) es
    → All (KeepsPositive ping_period ping_work) fs
    → KeepsPace gossip_period_of gossip_work es t g w × KeepsPace ping_period ping_work fs t p w
send_loops_lem es fs t g p w gpos ppos ges pes = (
  sender_lem gossip_period_of gossip_work es t g w gpos ges (gossip-KeepsPositive t),
  sender_lem ping_period ping_work fs t p w ppos pes (ping-KeepsPositive t),
)
