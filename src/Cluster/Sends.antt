-- ===== src/Cluster/Sends.antt =====
-- What the send loops of src/pkg/protocol do on a tick is a step of the cluster, which puts the lists
-- of their messages on the wire.
use mathlib.Core.Logic.{if_pos, if_neg}
use failure_detector.Prelude.{
  ℕ, suc, ◌≡◌, refl, sym, ap, Bool, List, [], ◌∷◌, some, All, inl, inr, Bool-cases, get_elem?,
}
use failure_detector.Go.Text.{Text}
use failure_detector.Go.Clock.{Time}
use failure_detector.Store.{Store, MemberEntry, snapshot}
use failure_detector.Wire.{Message}
use failure_detector.Protocol.Exchange.{send_all-All}
use failure_detector.Protocol.Gossip as Gossip
use failure_detector.Protocol.Pingack as Pingack
use failure_detector.Cluster.{Cluster, sends, here, next, set_store}
use failure_detector.Cluster.Loops.{Moves}
use failure_detector.Cluster.Genuine.{All-mono}

abbrev Sent : Type 0
Sent = List (Text × Message)

-- Every message has the list `l`.
abbrev pub Lists : List MemberEntry → Sent → Type 0
Lists l out = All (λ m. m.1.list ≡ l) out

send_pings-Lists :
    (reaches : Text → Message → Bool) (now : Time) (entries : List MemberEntry) (to : List Text)
    (nonces : ℕ → ℕ) (l : Pingack.Loop)
    → Lists entries (Pingack.send_pings reaches now entries to nonces l).0
unfolding Pingack.send_pings
send_pings-Lists reaches now entries [] nonces l = tt
send_pings-Lists reaches now entries (a ∷ to) nonces l =
    elim (Bool-cases (reaches a (Pingack.ping_of (nonces 0) entries l))) [
      | inl sent ↦ rw sent (refl, send_pings-Lists reaches now entries to (λ i. nonces (suc i)) _)
      | inr lost ↦ rw lost (send_pings-Lists reaches now entries to (λ i. nonces (suc i)) l)
    ]

module _ {I : Type 0} (dec : Discrete I) where
  -- The cluster comes to a state in which node `i` has the store `s`, no other node has moved, and the
  -- list of every message that was sent is on the wire.
  pub record Sends (c : Cluster dec) (i : I) (s : Store) (out : Sent) : Type 0 where
    pub moves : Moves dec c i s
    pub carried : All (λ m. get_elem? moves.after.wire 0 ≡ some m.1.list) out

  snapshot-Sends :
      (now : Time) (c : Cluster dec) (i : I) (out : Sent)
      → Lists (snapshot now (c.store i)).0.0 out
      → Sends c i (snapshot now (c.store i)).1 out
  snapshot-Sends now c i out lists = record {
    moves = record {
      after = record (set_store dec i seen c) { wire = (snapshot now (c.store i)).0.0 ∷ c.wire };
      path = next here (sends i now refl);
      moved = if_pos (dec i i) refl seen (c.store i);
      others = λ j n. if_neg (dec i j) n seen (c.store j);
    };
    carried = All-mono _ _ (λ m e. ap some (sym e)) out lists;
  }
    where
      seen : Store
      seen = (snapshot now (c.store i)).1

  -- A tick of a gossip loop or of a loop of pingack takes its node along steps of the cluster, no
  -- other node moves, and the list of every message that was sent is then on the wire.
  pub tick-Sends :
      (reaches : Text → Message → Bool) (now : Time) (perm : List ℕ) (nonces : ℕ → ℕ)
      (c : Cluster dec) (i : I) (g : Gossip.Loop) (p : Pingack.Loop)
      → let (out, s) = Gossip.tick reaches now perm g (c.store i) in
        let ((pings, p'), s') = Pingack.tick reaches now perm nonces p (c.store i) in
        Sends c i s out × Sends c i s' pings
  unfolding Gossip.tick Pingack.tick
  tick-Sends reaches now perm nonces c i g p =
      let (entries, self) = (snapshot now (c.store i)).0 in
      (
        snapshot-Sends now c i _
            (send_all-All (λ m. m.list ≡ entries) reaches (Gossip.gossip_of entries g) _ refl),
        snapshot-Sends now c i _ (send_pings-Lists reaches now entries _ nonces p),
      )
