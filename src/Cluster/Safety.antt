-- ===== src/Cluster/Safety.antt =====
-- In a cluster of new nodes that do not leave, no node is ever talked into its own failure, and no
-- table holds a node in an incarnation that the node has not reached.
use failure_detector.Prelude.{
  ℕ, ◌≤◌, ◌≡◌, refl, sym, ◌∙◌, ap, subst, inl, true, some, arith, All, All-get,
}
use mathlib.Core.Logic.{if_pos, if_neg}
use failure_detector.Go.Text.{Text, text_discrete}
use failure_detector.Node.{NodeId}
use failure_detector.Store.{MemberEntry, Store, alive, key, row, snapshot, merge_full_list}
use failure_detector.Store.Rank.{suspicion}
use failure_detector.Store.Invariant.{row-key}
use failure_detector.Suspicion.{Progress, scan_row}
use failure_detector.Cluster.{
  Cluster, Step, sends, receives, scans, judges, Reach, here, next, Starts, set_store,
  own_incarnation, incarnation_in,
}
use failure_detector.Cluster.Genuine.{
  All-mono, Genuine, Genuine-IsStateless, Genuine-mono, Genuine-IsOldClaim, Genuine-there,
  Genuine-apart, Genuine-marked,
}
use failure_detector.Store.Others.{sent_P}
use failure_detector.Cluster.Fresh.{new-IsSound}
use failure_detector.Cluster.Nodes.{
  IsSound, merge-IsSound, snapshot-IsSound, scan-IsSound, late-IsSound,
}

module _ {I : Type 0} (dec : Discrete I) (who : I → NodeId) where
  abbrev pub incs : Cluster dec → I → ℕ
  incs c i = own_incarnation (c.store i)

  abbrev pub SoundAt : (I → ℕ) → I → Store → Type 0
  SoundAt inc i s = IsSound (Genuine who inc) (who i) (own_incarnation s) s

  pub record IsSafe (c : Cluster dec) : Type 0 where
    pub distinct : (i j : I) → key (who i) ≡ key (who j) → i ≡ j
    pub sound : (i : I) → SoundAt (incs c) i (c.store i)
    pub wire : All (All (Genuine who (incs c))) c.wire

  -- The own row of a node that is up shows its incarnation.
  own_incarnation_lem :
      (P : MemberEntry → Type 0) (self : NodeId) (inc : ℕ) (s : Store) (w : IsSound P self inc s)
      → own_incarnation s ≡ w.up.me.incarnation
  own_incarnation_lem P self inc s w = ap incarnation_in w.up.found

  settled :
      (inc inc' : I → ℕ)
      → ((i : I) → inc i ≤ inc' i)
      → (self : NodeId) (m : ℕ) (s : Store) → IsSound (Genuine who inc) self m s
      → IsSound (Genuine who inc') self (own_incarnation s) s
  settled inc inc' le self m s w = record {
    wf = w.wf;
    suspicious = w.suspicious;
    same_self = w.same_self;
    up = record {
      me = w.up.me;
      found = w.up.found;
      itself = w.up.itself;
      up = w.up.up;
      at_least = omega (arith, own_incarnation_lem (Genuine who inc) self m s w);
      can_grow = w.up.can_grow;
    };
    others = λ k x n h. Genuine-mono who inc inc' le x (w.others k x n h);
  }

  -- One node moves to the store `s`, up and in no earlier incarnation.
  module _ (c : Cluster dec) (safe : IsSafe c) (i : I) (s : Store)
      (w : IsSound (Genuine who (incs c)) (who i) (own_incarnation (c.store i)) s) where
    moved_incs : (j : I) → incs c j ≤ incs (set_store dec i s c) j
    moved_incs j = elim (dec i j) [
      | yes q ↦ rw (if_pos (dec i j) q s (c.store j)) (
          subst (λ x. own_incarnation (c.store x) ≤ own_incarnation s) q
            (omega
              (arith, own_incarnation_lem (Genuine who (incs c)) (who i) _ s w, w.up.at_least)))
      | no n ↦ rw (if_neg (dec i j) n s (c.store j)) (omega arith)
    ]

    moved_sound : (j : I) → SoundAt (incs (set_store dec i s c)) j ((set_store dec i s c).store j)
    moved_sound j = elim (dec i j) [
      | yes q ↦
          subst (λ x. SoundAt (incs (set_store dec i s c)) j x)
            (sym (if_pos (dec i j) q s (c.store j)))
            (subst (λ x. SoundAt (incs (set_store dec i s c)) x s) q
              (settled (incs c) (incs (set_store dec i s c)) moved_incs (who i) _ s w))
      | no n ↦
          subst (λ x. SoundAt (incs (set_store dec i s c)) j x)
            (sym (if_neg (dec i j) n s (c.store j)))
            (settled (incs c) (incs (set_store dec i s c)) moved_incs (who j) _ (c.store j)
              (safe.sound j))
    ]

    moved_wire : All (All (Genuine who (incs (set_store dec i s c)))) c.wire
    moved_wire =
        All-mono (All (Genuine who (incs c))) (All (Genuine who (incs (set_store dec i s c))))
          (All-mono _ _ (Genuine-mono who (incs c) (incs (set_store dec i s c)) moved_incs)) c.wire
          safe.wire

    moved-IsSafe : IsSafe (set_store dec i s c)
    moved-IsSafe = record { distinct = safe.distinct; sound = moved_sound; wire = moved_wire }

  -- All that a sound node holds is genuine.
  pub rows-Genuine :
      (c : Cluster dec)
      → IsSafe c
      → (i : I) (k : Text) (x : MemberEntry) → row k (c.store i) ≡ some x
      → Genuine who (incs c) x
  rows-Genuine c safe i k x h =
      let w = safe.sound i in
      elim (text_discrete k (key (c.store i).self_id)) [
        | yes q ↦
            let mine : x ≡ w.up.me = ground (arith, q, h, w.up.found) in
            (
              i,
              ap (λ e. e.id) mine ∙ w.up.itself ∙ w.same_self,
              omega (
                arith,
                ap (λ e. e.incarnation) mine,
                own_incarnation_lem (Genuine who (incs c)) (who i) _ (c.store i) w,
              ),
              inl (ap (λ e. e.state) mine ∙ w.up.up),
            )
        | no n ↦ w.others k x n h
      ]

  pub set_store_self : (c : Cluster dec) (i : I) (s : Store) → (set_store dec i s c).store i ≡ s
  set_store_self c i s = if_pos (dec i i) refl s (c.store i)

  pub Step-IsSafe : (c d : Cluster dec) → Step dec c d → IsSafe c → IsSafe d
  Step-IsSafe c d (sends i now q) safe =
      let s = (snapshot now (c.store i)).1 in
      let w =
        snapshot-IsSound (Genuine who (incs c)) (λ e t p. p) (who i) _ now (c.store i)
          (safe.sound i) in
      let moved = moved-IsSafe c safe i s w in
      let genuine =
        sent_P (Genuine who (incs (set_store dec i s c))) now (c.store i) (safe.sound i).wf
          (λ k x h.
            rows-Genuine (set_store dec i s c) moved i k x
              (subst (λ y. row k y ≡ some x) (sym (set_store_self c i s)) h)) in
      rw q (record { distinct = safe.distinct; sound = moved.sound; wire = (genuine, moved.wire) })
  Step-IsSafe c d (receives i now k l found fits q) safe =
      let p = All-get (All (Genuine who (incs c))) c.wire k l safe.wire found in
      let old = All-mono _ _ (Genuine-IsOldClaim who safe.distinct (incs c) i) l p in
      rw q (
        moved-IsSafe c safe i (merge_full_list now l (c.store i)) (
          merge-IsSound (Genuine who (incs c)) (λ e t p. p) (who i) _ now l (c.store i) fits old p
            (safe.sound i)))
  Step-IsSafe c d (scans i now limits marks p ran q) safe = rw q (
      moved-IsSafe c safe i p.st (
        scan-IsSound (Genuine who (incs c)) (λ e t p. p) (who i) _
          (Genuine-IsStateless who (incs c)) now limits
          (record { st = c.store i; fail_marks = marks }) p ran (safe.sound i)))
  Step-IsSafe c d (judges i now limits marks k n l e found at q) safe =
      let p : Progress = record { st = c.store i; fail_marks = marks } in
      let g =
        All-get (Genuine who (incs c)) l n e
          (All-get (All (Genuine who (incs c))) c.wire k l safe.wire found) at in
      let w = safe.sound i in
      rw q (
        moved-IsSafe c safe i (scan_row now limits e p).st (
          late-IsSound (Genuine who (incs c)) (λ e t p. p) (who i) _ now limits e p
            (Genuine-there who (incs c) e g)
            (Genuine-apart who safe.distinct (incs c) i e p.st.self_id w.same_self g)
            (λ x h gx.
              Genuine-marked who safe.distinct (incs c) e x (row-key (key e.id) x p.st w.wf h) g gx)
            w))

  pub Reach-IsSafe : {c d : Cluster dec} → IsSafe c → Reach dec c d → IsSafe d
  Reach-IsSafe h here = h
  Reach-IsSafe h (next {d} {e} r st) = Step-IsSafe d e st (Reach-IsSafe h r)

pub Starts-IsSafe :
    {I : Type 0} (dec : Discrete I) (c : Cluster dec) (b : Starts dec c) → IsSafe dec b.id c
Starts-IsSafe dec c b = record {
  distinct = b.distinct;
  sound = λ i.
      subst (λ s. IsSound (Genuine b.id (incs dec b.id c)) (b.id i) (own_incarnation s) s)
        (sym (b.stores i))
        (new-IsSound _ (b.id i) (b.config i) (b.time i)
          (subst (λ s. suspicion s ≡ true) (b.stores i) (b.suspicious i)));
  wire = rw (b.silent) tt;
}

-- In a cluster of new nodes with distinct endpoints and suspicion enabled, whatever messages are
-- delayed, lost, repeated or reordered, whatever the clocks show and whatever thresholds the scans
-- have, as long as no node leaves and incarnations are far from the end of uint64: every node holds
-- itself alive, and no table holds a row about a node in an incarnation above the node's own.
pub Reach-safe :
    {I : Type 0} (dec : Discrete I) (c d : Cluster dec) (b : Starts dec c)
    → Reach dec c d
    → (i : I)
    → ((me : MemberEntry) × (row (key (b.id i)) (d.store i) ≡ some me)
        × (me.id ≡ b.id i)
        × (me.state ≡ alive))
      × ((j : I) (k : Text) (e : MemberEntry)
          → row k (d.store j) ≡ some e
          → e.id ≡ b.id i
          → e.incarnation ≤ own_incarnation (d.store i))
Reach-safe dec c d b r i =
    let safe = Reach-IsSafe dec b.id (Starts-IsSafe dec c b) r in
    let w = safe.sound i in
    (
      (
        w.up.me,
        subst (λ x. row (key x) (d.store i) ≡ some w.up.me) w.same_self w.up.found,
        w.up.itself ∙ w.same_self,
        w.up.up,
      ),
      λ j k e h about.
          let (i', about', low, says) = rows-Genuine dec b.id d safe j k e h in
          subst (λ x. e.incarnation ≤ own_incarnation (d.store x))
            (safe.distinct i' i (ap key (sym about' ∙ about))) low,
    )
