-- ===== src/Cluster/Quiet.antt =====
-- One step of a node in a cluster, when another node of the cluster is silent: what the node holds of
-- the silent one gets no later heartbeat.
use failure_detector.Prelude.{
  ◌≤◌, ◌<◌, ◌≡◌, ◌≢◌, refl, sym, ◌∙◌, ap, subst, inl, inr, List, [], ◌∷◌, Option, none, some, arith,
  All, Option-cases,
}
use failure_detector.Go.Text.{Text, text_discrete}
use failure_detector.Go.Clock.{Time}
use failure_detector.Node.{NodeId, NodeId-discrete}
use failure_detector.Store.{
  MemberEntry, Store, key, row, put_row, beat, snapshot, update_member_entry, merge_full_list,
}
use failure_detector.Store.Map.{row-put_row, lookup-beat_rows}
use failure_detector.Store.Rank.{
  Outcome, inserted, rebooted, taken, refuted, kept, update_member_entry-Outcome,
}
use failure_detector.Store.Invariant.{IsWf, row-key, update-IsWf}
use failure_detector.Store.Merge.{bumped, bump-put_row}
use failure_detector.Store.Self.{merge_self}
use failure_detector.Suspicion.{Limits}
use failure_detector.Suspicion.Silence.{beat_peer}
use failure_detector.Suspicion.Refinement.{judged, beat-id}
use failure_detector.Cluster.Nodes.{judge_forms}

module _ {I : Type 0} (who : I → NodeId) (distinct : (i j : I) → key (who i) ≡ key (who j) → i ≡ j)
    (x : I) (t : Time) where
  -- An entry about one of the nodes, and about `x` with no heartbeat after `t`.
  pub record Quiet (e : MemberEntry) : Type 0 where
    pub i : I
    pub about : e.id ≡ who i
    pub early : i ≡ x → e.last_update ≤ t

  abbrev pub Rows : Store → Type 0
  Rows s = (k : Text) (e : MemberEntry) → row k s ≡ some e → Quiet e

  -- An entry about a node with the endpoint of `who j` is about `who j`.
  same_node : (j : I) (e : MemberEntry) (q : Quiet e) → key e.id ≡ key (who j) → q.i ≡ j
  same_node j e q h = distinct q.i j (ap key (sym q.about) ∙ h)

  -- Entries about other nodes may get any heartbeat and state.
  other_node : (j : I) (e e' : MemberEntry) → j ≢ x → e.id ≡ who j → e'.id ≡ e.id → Quiet e'
  other_node j e e' n about same = record { i = j; about = same ∙ about; early = λ p. absurd (n p) }

  put_row-Rows : (k : Text) (e : MemberEntry) (s : Store) → Quiet e → Rows s → Rows (put_row k e s)
  put_row-Rows k e s q w j y h = elim (text_discrete k j) [
    | yes p ↦ subst Quiet (ground (arith, row-put_row k j e s, h)) q
    | no p ↦ w j y (ground (arith, row-put_row k j e s, h))
  ]

  module _ (j : I) (other : j ≢ x) where
    -- An entry that restarts a node is not about a known one.
    reboot-Quiet :
        (now : Time) (e old : MemberEntry) (s : Store)
        → IsWf s
        → Rows s
        → Quiet e
        → row (key e.id) s ≡ some old
        → old.id.time_stamp < e.id.time_stamp
        → Quiet (record e { last_update = now })
    reboot-Quiet now e old s v w q found later =
        let known = w (key e.id) old found in
        let same : known.i ≡ q.i =
          same_node q.i old known (sym (row-key (key e.id) old s v found) ∙ ap key q.about) in
        let one : old.id ≡ e.id = known.about ∙ ap who same ∙ sym q.about in
        absurd (omega (arith, ap (λ n. n.time_stamp) one, later))

    Outcome-Rows :
        (now : Time) (e : MemberEntry) (s s' : Store)
        → IsWf s
        → s.self_id ≡ who j
        → Quiet e
        → Rows s
        → Outcome now e s s'
        → Rows s'
    Outcome-Rows now e s s' v self q w (inserted h p) = rw p (put_row-Rows (key e.id) e s q w)
    Outcome-Rows now e s s' v self q w (rebooted old h b p) = rw p (
        put_row-Rows (key e.id) (record e { last_update = now }) s
          (reboot-Quiet now e old s v w q h b) w)
    Outcome-Rows now e s s' v self q w (taken old h b r a p) =
        rw p (put_row-Rows (key e.id) e s q w)
    Outcome-Rows now e s s' v self q w (refuted old h a p) =
        let known = w (key e.id) old h in
        let mine : known.i ≡ j =
          same_node j old known (sym (row-key (key e.id) old s v h) ∙ ap key (a.itself ∙ self)) in
        rw (p, bump-put_row now s old (subst (λ i. row (key i) s ≡ some old) a.itself h))
          (put_row-Rows (key s.self_id) (bumped now old) s
            (other_node j old (bumped now old) other (known.about ∙ ap who mine) refl) w)
    Outcome-Rows now e s s' v self q w (kept old h r a p) = rw p w

    pub merge-Rows :
        (now : Time) (l : List MemberEntry) (s : Store)
        → IsWf s
        → s.self_id ≡ who j
        → All Quiet l
        → Rows s
        → Rows (merge_full_list now l s)
    unfolding merge_full_list
    merge-Rows now [] s v self q w = w
    merge-Rows now (e ∷ l) s v self q w =
        merge-Rows now l (update_member_entry now e s) (update-IsWf now e s v)
          (merge_self now (e ∷ []) s ∙ self) q.1
          (Outcome-Rows now e s _ v self q.0 w (update_member_entry-Outcome now e s))

    beat-Quiet :
        (self : NodeId) (now : Time) (e : MemberEntry)
        → self ≡ who j
        → Quiet e
        → Quiet (beat self now e)
    beat-Quiet self now e me q = elim (NodeId-discrete e.id self) [
      | yes mine ↦ other_node j e (beat self now e) other (mine ∙ me) (beat-id self now e)
      | no peer ↦ subst Quiet (sym (beat_peer self now e peer)) q
    ]

    pub snapshot-Rows :
        (now : Time) (s : Store) → s.self_id ≡ who j → Rows s → Rows (snapshot now s).1
    unfolding snapshot
    snapshot-Rows now s self w k e h = elim (Option-cases (row k s)) [
      | inl missing ↦
          absurd (ground (arith, lookup-beat_rows s.self_id now k s.entries, missing, h))
      | inr (y, found) ↦
          subst Quiet (ground (arith, lookup-beat_rows s.self_id now k s.entries, found, h))
            (beat-Quiet s.self_id now y self (w k y found))
    ]

    pub judged-Quiet :
        (now : Time) (l : Limits) (self : NodeId) (o : Option MemberEntry) (y : MemberEntry)
        → self ≡ who j
        → ((e : MemberEntry) → o ≡ some e → Quiet e)
        → judged now l self o ≡ some y
        → Quiet y
    judged-Quiet now l self none y me w h = absurd (ground arith)
    judged-Quiet now l self (some e) y me w h =
        let q = beat-Quiet self now e me (w e refl) in
        elim (judge_forms now l self (beat self now e) y h) [
          | inl same ↦ rw same q
          | inr (inl s) ↦ rw s (record { i = q.i; about = q.about; early = q.early })
          | inr (inr f) ↦ rw f (record { i = q.i; about = q.about; early = q.early })
        ]
