-- ===== src/Store/Self.antt =====
-- How the table of src/pkg/store/membership.go treats accusations of the node itself, and what the
-- state of a row counts for in a merge.
use failure_detector.Prelude.{
  ℕ, ◌+◌, ◌<◌, ◌≡◌, refl, sym, ◌∙◌, ap, true, List, [], ◌∷◌, some, arith, All,
}
use failure_detector.Prelude.Int.{u64_mod}
use failure_detector.Go.Clock.{Time}
use failure_detector.Store.{
  MemberEntry, Store, key, row, accuses, update_member_entry, merge_full_list,
}
use failure_detector.Store.Map.{row-put_row_self}
use failure_detector.Store.Rank.{
  suspicion, Accused, Outcome, inserted, rebooted, taken, refuted, kept,
  update_member_entry-Outcome,
}
use failure_detector.Store.Merge.{bumped, bump-put_row}
use failure_detector.Store.OwnRow.{IsUp, IsOldClaim, row_unique, Outcome-frame, update-IsUp}

-- With suspicion enabled, an accusation of the node itself in its current incarnation is answered:
-- the own row becomes alive in the next incarnation, with the heartbeat of now.
pub update_refutes :
    (now : Time) (e me : MemberEntry) (s : Store)
    → suspicion s ≡ true
    → row (key s.self_id) s ≡ some me
    → me.id ≡ s.self_id
    → e.id ≡ s.self_id
    → e.incarnation ≡ me.incarnation
    → accuses e.state ≡ true
    → row (key s.self_id) (update_member_entry now e s) ≡ some (bumped now me)
update_refutes now e me s on found mine about inc bad = go _ (update_member_entry-Outcome now e s)
  where
    found' : row (key e.id) s ≡ some me
    found' = rw about found

    accused : Accused e me s
    accused = record {
      switched_on = on;
      same_boot = ap (λ i. i.time_stamp) (about ∙ sym mine);
      same_incarnation = inc;
      itself = about;
      verdict = bad;
    }

    go : (t : Store) → Outcome now e s t → row (key s.self_id) t ≡ some (bumped now me)
    go t (inserted h q) = cc (h, found')
    go t (rebooted x h b q) =
        absurd (ground (arith, row_unique x me (row (key e.id) s) h found', accused.same_boot))
    go t (taken x h b r a q) = absurd (a (rw (row_unique x me _ h found') accused))
    go t (refuted x h a q) =
        rw (q, bump-put_row now s me found) (row-put_row_self (key s.self_id) (bumped now me) s)
    go t (kept x h r a q) = absurd (a (rw (row_unique x me _ h found') accused))

pub merge_self :
    (now : Time) (l : List MemberEntry) (s : Store) → (merge_full_list now l s).self_id ≡ s.self_id
unfolding merge_full_list
merge_self now [] s = refl
merge_self now (e ∷ l) s =
    let (c, i) = Outcome-frame now e s _ (update_member_entry-Outcome now e s) in
    merge_self now l (update_member_entry now e s) ∙ i

pub merge-IsUp :
    (now : Time) (inc : ℕ) (l : List MemberEntry) (s : Store)
    → suspicion s ≡ true
    → inc + 1 < u64_mod
    → All (IsOldClaim inc s.self_id) l
    → IsUp inc s
    → IsUp inc (merge_full_list now l s)
unfolding merge_full_list
merge-IsUp now inc [] s on fits r u = u
merge-IsUp now inc (e ∷ l) s on fits r u =
    let (c, i) = Outcome-frame now e s _ (update_member_entry-Outcome now e s) in
    merge-IsUp now inc l (update_member_entry now e s) (rw c on) fits (rw i r.1)
      (update-IsUp now inc s on fits e r.0 u)
