-- ===== src/Protocol/Ticks.antt =====
-- Whom a tick of the loops of src/pkg/protocol/gossip/loop.go and pingack/loop.go sends to.
use failure_detector.Prelude.{
  ℕ, suc, ◌≤◌, ◌≡◌, ◌≢◌, ◌∙◌, ap, Bool, List, [], ◌∷◌, arith, inl, inr, All, Bool-cases,
  Option-cases, length, map,
}
use failure_detector.Prelude.Int.{ℤ}
use failure_detector.Go.Text.{Text}
use failure_detector.Go.Clock.{Time}
use failure_detector.Store.{MemberEntry, Store, key, row, values, beat, snapshot}
use failure_detector.Store.Map.{lookup-beat_rows, beat-id}
use failure_detector.Protocol.Targets.{IsDraw, targets_lem}
use failure_detector.Store.Invariant.{IsWf, snapshot-IsWf}
use failure_detector.Wire.{Message}
use failure_detector.Protocol.{resolve_peers, targets, rounds}
use failure_detector.Protocol.Peers.{Absent, Distinct, OwnsAddress, resolve_peers_lem}
use failure_detector.Protocol.Gossip as Gossip
use failure_detector.Protocol.Pingack as Pingack

-- The first list is the second one with some items left out.
data Within : List Text → List Text → Type 0 where
  empty : Within [] []
  skip : (b : Text) {a c : List Text} → Within a c → Within a (b ∷ c)
  keep : (b : Text) {a c : List Text} → Within a c → Within (b ∷ a) (b ∷ c)

Within-All : (P : Text → Type 0) {a c : List Text} → Within a c → All P c → All P a
Within-All P empty h = tt
Within-All P (skip b w) h = Within-All P w h.1
Within-All P (keep b w) h = (h.0, Within-All P w h.1)

Within-Distinct : {a c : List Text} → Within a c → Distinct c → Distinct a
Within-Distinct empty h = tt
Within-Distinct (skip b w) h = Within-Distinct w h.1
Within-Distinct (keep b w) h = (Within-All (λ p. p ≢ b) w h.0, Within-Distinct w h.1)

Within-length : {a c : List Text} → Within a c → length a ≤ length c
Within-length empty = omega arith
Within-length (skip b w) = omega (arith, Within-length w)
Within-length (keep b w) = omega (arith, Within-length w)

abbrev pub addresses : List (Text × Message) → List Text
addresses out = map (λ x. x.0) out

send_all-Within :
    (reaches : Text → Message → Bool) (msg : Message) (to : List Text)
    → Within (addresses (Gossip.send_all reaches msg to)) to
unfolding Gossip.send_all
send_all-Within reaches msg [] = empty
send_all-Within reaches msg (a ∷ to) = elim (Bool-cases (reaches a msg)) [
  | inl sent ↦ rw sent (keep a (send_all-Within reaches msg to))
  | inr lost ↦ rw lost (skip a (send_all-Within reaches msg to))
]

send_pings-Within :
    (reaches : Text → Message → Bool) (now : Time) (entries : List MemberEntry) (to : List Text)
    (nonces : ℕ → ℕ) (l : Pingack.Loop)
    → Within (addresses (Pingack.send_pings reaches now entries to nonces l).0) to
unfolding Pingack.send_pings
send_pings-Within reaches now entries [] nonces l = empty
send_pings-Within reaches now entries (a ∷ to) nonces l =
    elim (Bool-cases (reaches a (Pingack.ping_of (nonces 0) entries l))) [
      | inl sent ↦
          rw sent (keep a (send_pings-Within reaches now entries to (λ i. nonces (suc i)) _))
      | inr lost ↦
          rw lost (skip a (send_pings-Within reaches now entries to (λ i. nonces (suc i)) l))
    ]

-- The snapshot of a tick: its peers, and the targets that are drawn from them.
OwnsAddress-beat :
    (now : Time) (s : Store)
    → OwnsAddress s.self_id s.entries
    → OwnsAddress s.self_id (snapshot now s).1.entries
unfolding snapshot
OwnsAddress-beat now s o e h = elim (Option-cases (row (key s.self_id) s)) [
  | inl none_ ↦
      absurd (ground (arith, lookup-beat_rows s.self_id now (key s.self_id) s.entries, none_, h))
  | inr (x, found) ↦
      let same : e ≡ beat s.self_id now x =
        ground (arith, lookup-beat_rows s.self_id now (key s.self_id) s.entries, found, h) in
      ap (λ y. y.id) same ∙ beat-id s.self_id now x ∙ o x found
]

drawn :
    (now : Time) (fanout : ℤ) (perm : List ℕ) (s : Store)
    → IsWf s
    → OwnsAddress s.self_id s.entries
    → IsDraw perm
    → let to = targets fanout (resolve_peers (snapshot now s).0.0 s.self_id) perm in
      Distinct to × (length to ≤ rounds fanout) × Absent (key s.self_id) to
unfolding snapshot
drawn now fanout perm s w o h =
    let s' = (snapshot now s).1 in
    let (distinct, absent, all) =
      resolve_peers_lem s' (snapshot-IsWf now s w) (OwnsAddress-beat now s o) in
    targets_lem (λ p. p ≢ key s.self_id) fanout (resolve_peers (values s'.entries) s.self_id) perm
      distinct h absent

-- A tick of either loop, on a node with a well-formed table in which no other boot of the node has a
-- row, sends to distinct addresses, never to its own, and to no more than its fanout, whatever
-- permutation rand.Perm draws.
pub tick_lem :
    (reaches : Text → Message → Bool) (now : Time) (perm : List ℕ) (nonces : ℕ → ℕ)
    (g : Gossip.Loop) (p : Pingack.Loop) (s : Store)
    → IsWf s
    → OwnsAddress s.self_id s.entries
    → IsDraw perm
    → let gossiped = addresses (Gossip.tick reaches now perm g s).0 in
      let pinged = addresses (Pingack.tick reaches now perm nonces p s).0.0 in
      (Distinct gossiped
        × (length gossiped ≤ rounds g.gossip_fanout)
        × Absent (key s.self_id) gossiped)
      × (Distinct pinged × (length pinged ≤ rounds p.ping_fanout) × Absent (key s.self_id) pinged)
unfolding Gossip.tick Pingack.tick snapshot
tick_lem reaches now perm nonces g p s w o h =
    let entries = (snapshot now s).0.0 in
    let (gd, gl, ga) = drawn now g.gossip_fanout perm s w o h in
    let (pd, pl, pa) = drawn now p.ping_fanout perm s w o h in
    let gw =
      send_all-Within reaches (Gossip.gossip_of entries g)
        (targets g.gossip_fanout (resolve_peers entries s.self_id) perm) in
    let pw =
      send_pings-Within reaches now entries
        (targets p.ping_fanout (resolve_peers entries s.self_id) perm) nonces p in
    (
      (
        Within-Distinct gw gd,
        omega (arith, Within-length gw, gl),
        Within-All (λ x. x ≢ key s.self_id) gw ga,
      ),
      (
        Within-Distinct pw pd,
        omega (arith, Within-length pw, pl),
        Within-All (λ x. x ≢ key s.self_id) pw pa,
      ),
    )
