-- ===== src/Cluster/Loops.antt =====
-- What the loops of src/pkg/protocol do with a store is a path of steps of the cluster.
use failure_detector.Prelude.{
  ℕ, suc, ◌+◌, ◌<◌, ◌≡◌, ◌≢◌, refl, sym, ◌∙◌, ap, subst, List, ◌∷◌, some, inl, inr, Bool-cases,
  get_elem?,
}
use mathlib.Core.Logic.{if_pos, if_neg}
use failure_detector.Prelude.Int.{u64_mod}
use failure_detector.Go.Clock.{Time}
use failure_detector.Store.{Store, MemberEntry, snapshot, merge_full_list}
use failure_detector.Wire.{Message, MsgType, msg_gossip, msg_ping, msg_ack, msg_other}
use failure_detector.Protocol.{own_left}
use failure_detector.Protocol.Gossip as Gossip
use failure_detector.Protocol.Pingack as Pingack
use failure_detector.Cluster.{
  Cluster, sends, receives, Reach, here, next, set_store, own_incarnation,
}

module _ {I : Type 0} (dec : Discrete I) where
  -- The cluster comes to a state in which node `i` has the store `s`, and no other node has moved.
  pub record Moves (c : Cluster dec) (i : I) (s : Store) : Type 0 where
    pub after : Cluster dec
    pub path : Reach dec c after
    pub moved : after.store i ≡ s
    pub others : (j : I) → i ≢ j → after.store j ≡ c.store j

  module _ (now : Time) (c : Cluster dec) (i : I) (k : ℕ) (l : List MemberEntry)
      (sent : get_elem? c.wire k ≡ some l) where
    abbrev seen : Store
    seen = (snapshot now (c.store i)).1

    -- The cluster after the snapshot that a receive loop takes first.
    abbrev looked : Cluster dec
    looked = record (set_store dec i seen c) { wire = (snapshot now (c.store i)).0.0 ∷ c.wire }

    looked_store : looked.store i ≡ seen
    looked_store = if_pos (dec i i) refl seen (c.store i)

    pub looks : Moves c i seen
    looks = record {
      after = looked;
      path = next here (sends i now refl);
      moved = looked_store;
      others = λ j n. if_neg (dec i j) n seen (c.store j);
    }

    pub merges : own_incarnation seen + 1 < u64_mod → Moves c i (merge_full_list now l seen)
    merges fits = record {
      after = set_store dec i (merge_full_list now l (looked.store i)) looked;
      path = next (next here (sends i now refl)) (
          receives i now (suc k) l sent
            (subst (λ s. own_incarnation s + 1 < u64_mod) (sym looked_store) fits) refl);
      moved =
          if_pos (dec i i) refl (merge_full_list now l (looked.store i)) (looked.store i)
          ∙ ap (merge_full_list now l) looked_store;
      others = λ j n.
          if_neg (dec i j) n (merge_full_list now l (looked.store i)) (looked.store j)
          ∙ if_neg (dec i j) n seen (c.store j);
    }

  -- A snapshot on top, as it is sent.
  then_sends :
      (now : Time) (c : Cluster dec) (i : I) (s : Store)
      → Moves c i s
      → Moves c i (snapshot now s).1
  then_sends now c i s m = record {
    after = record (set_store dec i (snapshot now (m.after.store i)).1 m.after) {
      wire = (snapshot now (m.after.store i)).0.0 ∷ m.after.wire;
    };
    path = next m.path (sends i now refl);
    moved =
        if_pos (dec i i) refl (snapshot now (m.after.store i)).1 (m.after.store i)
        ∙ ap (λ s. (snapshot now s).1) m.moved;
    others = λ j n.
        if_neg (dec i j) n (snapshot now (m.after.store i)).1 (m.after.store j) ∙ m.others j n;
  }

  gossip-Moves :
      (now : Time) (c : Cluster dec) (i : I) (k : ℕ) (msg : Message)
      → get_elem? c.wire k ≡ some msg.list
      → own_incarnation (snapshot now (c.store i)).1 + 1 < u64_mod
      → Moves c i (Gossip.handle now msg (c.store i)).0
  unfolding Gossip.handle
  gossip-Moves now c i k msg sent fits =
      let ((entries, self), s) = snapshot now (c.store i) in
      elim (Bool-cases (own_left entries self)) [
        | inl out ↦ rw out (looks now c i k msg.list sent)
        | inr there ↦ elim (Bool-cases (Gossip.is_known msg.msg_type)) [
          | inl known ↦ rw (there, known) (merges now c i k msg.list sent fits)
          | inr odd ↦ rw (there, odd) (looks now c i k msg.list sent)
        ]
      ]

  dispatch-Moves :
      (now : Time) (c : Cluster dec) (i : I) (k : ℕ) (t : MsgType) (msg : Message)
      (l : Pingack.Loop)
      → get_elem? c.wire k ≡ some msg.list
      → own_incarnation (snapshot now (c.store i)).1 + 1 < u64_mod
      → Moves c i (Pingack.dispatch now t msg l (snapshot now (c.store i)).1).st
  unfolding Pingack.dispatch
  dispatch-Moves now c i k msg_ping msg l sent fits =
      then_sends now c i (merge_full_list now msg.list (snapshot now (c.store i)).1)
        (merges now c i k msg.list sent fits)
  dispatch-Moves now c i k msg_ack msg l sent fits = merges now c i k msg.list sent fits
  dispatch-Moves now c i k msg_gossip msg l sent fits = merges now c i k msg.list sent fits
  dispatch-Moves now c i k (msg_other n) msg l sent fits = looks now c i k msg.list sent

  pingack-Moves :
      (now : Time) (c : Cluster dec) (i : I) (k : ℕ) (msg : Message) (l : Pingack.Loop)
      → get_elem? c.wire k ≡ some msg.list
      → own_incarnation (snapshot now (c.store i)).1 + 1 < u64_mod
      → Moves c i (Pingack.handle now msg l (c.store i)).st
  unfolding Pingack.handle
  pingack-Moves now c i k msg l sent fits =
      let ((entries, self), s) = snapshot now (c.store i) in
      elim (Bool-cases (own_left entries self)) [
        | inl out ↦ rw out (looks now c i k msg.list sent)
        | inr there ↦ rw there (dispatch-Moves now c i k msg.msg_type msg l sent fits)
      ]

  -- A gossip loop or a loop of pingack that handles a message whose list was sent takes its node
  -- along steps of the cluster, and no other node moves, as long as the incarnation of the node is
  -- far from the end of uint64.
  pub handle-Moves :
      (now : Time) (c : Cluster dec) (i : I) (k : ℕ) (msg : Message) (l : Pingack.Loop)
      → get_elem? c.wire k ≡ some msg.list
      → own_incarnation (snapshot now (c.store i)).1 + 1 < u64_mod
      → Moves c i (Gossip.handle now msg (c.store i)).0
        × Moves c i (Pingack.handle now msg l (c.store i)).st
  handle-Moves now c i k msg l sent fits =
      (gossip-Moves now c i k msg sent fits, pingack-Moves now c i k msg l sent fits)
