-- ===== src/Store/Precedence.antt =====
-- What the state of a row counts for in src/pkg/store/membership.go: a merge goes by heartbeats, and
-- ApplyLocked by the last call.
use failure_detector.Prelude.{◌<◌, ◌≡◌, ◌≢◌, refl, sym, ◌∙◌, ap, subst, inl, inr, true, some, arith}
use failure_detector.Go.Clock.{Time}
use failure_detector.Store.{
  MemberEntry, Store, State, key, row, apply, apply_locked, applied, update_member_entry,
}
use failure_detector.Store.Map.{row-put_row_self}
use failure_detector.Store.Rank.{
  RankLt, not-RankLt, SameBootLt-of_heartbeat, suspicion, Outcome, inserted, rebooted, taken,
  refuted, kept, update_member_entry-Outcome,
}
use failure_detector.Store.OwnRow.{row_unique}

-- Within one boot and one incarnation the later heartbeat wins, whatever the two states are: a row
-- that says Left is replaced by one that says Alive.
pub later_heartbeat_wins :
    (now : Time) (e old : MemberEntry) (s : Store)
    → row (key e.id) s ≡ some old
    → e.id ≢ s.self_id
    → e.id.time_stamp ≡ old.id.time_stamp
    → e.incarnation ≡ old.incarnation
    → old.last_update < e.last_update
    → row (key e.id) (update_member_entry now e s) ≡ some e
later_heartbeat_wins now e old s found n boot inc later = go _ (update_member_entry-Outcome now e s)
  where
    go : (t : Store) → Outcome now e s t → row (key e.id) t ≡ some e
    go t (inserted h q) = rw q (row-put_row_self (key e.id) e s)
    go t (rebooted x h b q) =
        let same = row_unique x old (row (key e.id) s) h found in absurd (ground arith)
    go t (taken x h b r a q) = rw q (row-put_row_self (key e.id) e s)
    go t (refuted x h a q) = absurd (n a.itself)
    go t (kept x h r a q) =
        let same = row_unique x old (row (key e.id) s) h found in
        absurd (
          not-RankLt (suspicion s) e x r (
            subst (λ y. RankLt (suspicion s) y e) (sym same)
              (inr (sym boot, SameBootLt-of_heartbeat (suspicion s) old e (λ _. inc) later))))

-- ApplyLocked on the strength of an older snapshot undoes a refutation: a node that took a snapshot,
-- then merged a row of the peer with a higher incarnation, and only then applies its verdict, ends
-- with the old incarnation and the verdict.
pub stale_apply_wins :
    (now later : Time) (e news : MemberEntry) (st : State) (s : Store)
    → suspicion s ≡ true
    → row (key e.id) s ≡ some e
    → news.id ≡ e.id
    → e.incarnation < news.incarnation
    → (row (key e.id) (update_member_entry now news s) ≡ some news)
      × ((r : MemberEntry) × (row
              (key e.id)
              (apply_locked later e.id e.incarnation st (update_member_entry now news s))
            ≡ some r)
          × (r.incarnation ≡ e.incarnation)
          × (r.state ≡ st))
unfolding apply_locked
stale_apply_wins now later e news st s on found same higher =
    let first = go _ (update_member_entry-Outcome now news s) in
    (
      first,
      (
        applied later e.incarnation st news,
        rw (first, apply)
            (row-put_row_self (key e.id) (applied later e.incarnation st news)
              (update_member_entry now news s)),
        refl,
        refl,
      ),
    )
  where
    found' : row (key news.id) s ≡ some e
    found' = rw same found

    go : (t : Store) → Outcome now news s t → row (key e.id) t ≡ some news
    go t (inserted h q) = cc (h, found')
    go t (rebooted x h b q) =
        let eq = row_unique x e (row (key news.id) s) h found' in
        absurd (ground (arith, ap (λ i. i.time_stamp) same))
    go t (taken x h b r a q) = rw (q, ← same) (row-put_row_self (key news.id) news s)
    go t (refuted x h a q) =
        let eq = row_unique x e (row (key news.id) s) h found' in
        absurd (ground (arith, a.same_incarnation))
    go t (kept x h r a q) =
        let eq = row_unique x e (row (key news.id) s) h found' in
        absurd (
          not-RankLt (suspicion s) news x r (
            subst (λ b. RankLt b x news) (sym on)
              (inr (ap (λ i. i.time_stamp) (ap (λ y. y.id) eq ∙ sym same), inl (ground arith)))))
