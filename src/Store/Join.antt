-- ===== src/Store/Join.antt =====
-- MergeFullList of src/pkg/store/membership.go as a join: rows only rise, and nothing that was merged
-- is news afterwards.
use failure_detector.Prelude.{◌≡◌, refl, ◌∙◌, inl, false, List, [], ◌∷◌, some, All}
use failure_detector.Go.Text.{Text}
use failure_detector.Go.Clock.{Time}
use failure_detector.Node.{NodeId}
use failure_detector.Store.{
  MemberEntry, Store, key, row, accuses, update_member_entry, merge_full_list,
}
use failure_detector.Store.Rank.{
  RankLe, RankLe-refl, RankLe-trans, not-RankLt, suspicion, Outcome, inserted, rebooted, taken,
  refuted, kept, update_member_entry-Outcome,
}
use failure_detector.Store.Merge.{
  same_row, update-suspicion, update-self_id, update-Covered, update-rises, IsSane, CanGrow,
  Covered,
}

merge-suspicion :
    (now : Time) (l : List MemberEntry) (s : Store)
    → All (IsSane now) l
    → suspicion (merge_full_list now l s) ≡ suspicion s
unfolding merge_full_list
merge-suspicion now [] s h = refl
merge-suspicion now (e ∷ l) s h =
    merge-suspicion now l (update_member_entry now e s) h.1 ∙ update-suspicion now e s h.0.can_grow

merge-self_id :
    (now : Time) (l : List MemberEntry) (s : Store)
    → All (IsSane now) l
    → (merge_full_list now l s).self_id ≡ s.self_id
unfolding merge_full_list
merge-self_id now [] s h = refl
merge-self_id now (e ∷ l) s h =
    merge-self_id now l (update_member_entry now e s) h.1 ∙ update-self_id now e s h.0.can_grow

IsSane-CanGrow : (now : Time) (l : List MemberEntry) → All (IsSane now) l → All CanGrow l
IsSane-CanGrow now [] h = tt
IsSane-CanGrow now (e ∷ l) h = (h.0.can_grow, IsSane-CanGrow now l h.1)

-- If every incarnation of the list can still grow, merging it never lowers a row: whatever row stood
-- under a key before, the row that stands there afterwards ranks at least as high.
pub merge_rises :
    (now : Time) (l : List MemberEntry) (s : Store)
    → All CanGrow l
    → (k : Text) (old : MemberEntry) → row k s ≡ some old
    → (new : MemberEntry) × (row k (merge_full_list now l s) ≡ some new)
      × RankLe (suspicion s) old new
unfolding merge_full_list
merge_rises now [] s h k old p = (old, p, RankLe-refl (suspicion s) old)
merge_rises now (e ∷ l) s h k old p =
    let (mid, q, r) = update-rises now e s h.0 k old p in
    let (new, q', r') = merge_rises now l (update_member_entry now e s) h.1 k mid q in
    (new, q', RankLe-trans (suspicion s) old mid new r (rw (update-suspicion now e s h.0) at r'))

-- A covered row stays covered through a later merge.
merge-Covered :
    (now : Time) (l : List MemberEntry) (s : Store) (e : MemberEntry)
    → All (IsSane now) l
    → Covered s e
    → Covered (merge_full_list now l s) e
merge-Covered now l s e h c =
    let (new, q, r) = merge_rises now l s (IsSane-CanGrow now l h) (key e.id) c.at_least c.found in
    record {
      at_least = new;
      found = q;
      no_news =
          rw (merge-suspicion now l s h) (RankLe-trans (suspicion s) e c.at_least new c.no_news r);
    }

-- After a merge every entry of the merged list is old news, if none comes from the future and every
-- incarnation can still grow: its endpoint has a row that ranks at least as high.
pub merge_covers :
    (now : Time) (l : List MemberEntry) (s : Store)
    → All (IsSane now) l
    → All (Covered (merge_full_list now l s)) l
unfolding merge_full_list
merge_covers now [] s h = tt
merge_covers now (e ∷ l) s h = (
  merge-Covered now l (update_member_entry now e s) e h.1
      (update-Covered now e s h.0.can_grow h.0.not_future),
  merge_covers now l (update_member_entry now e s) h.1,
)

-- The entry does not accuse the node of the store itself.
abbrev pub IsNeutral : NodeId → MemberEntry → Type 0
IsNeutral self e = e.id ≡ self → accuses e.state ≡ false

update-of_Covered :
    (now : Time) (e : MemberEntry) (s : Store)
    → IsNeutral s.self_id e
    → Covered s e
    → update_member_entry now e s ≡ s
update-of_Covered now e s n c = go _ (update_member_entry-Outcome now e s)
  where
    go : (t : Store) → Outcome now e s t → t ≡ s
    go t (inserted h q) = cc (h, c.found)
    go t (rebooted x h b q) =
        absurd
          (not-RankLt (suspicion s) e x (rw (same_row x c.at_least _ h c.found) c.no_news) (inl b))
    go t (taken x h b r a q) =
        absurd (not-RankLt (suspicion s) e x (rw (same_row x c.at_least _ h c.found) c.no_news) r)
    go t (refuted x h a q) = cc (n a.itself, a.verdict)
    go t (kept x h r a q) = q

merge-of_Covered :
    (now : Time) (l : List MemberEntry) (s : Store)
    → All (IsNeutral s.self_id) l
    → All (Covered s) l
    → merge_full_list now l s ≡ s
unfolding merge_full_list
merge-of_Covered now [] s n c = refl
merge-of_Covered now (e ∷ l) s n c =
    rw (update-of_Covered now e s n.0 c.0) (merge-of_Covered now l s n.1 c.1)

-- Merging the same list again changes nothing, whenever it happens, if no entry comes from the future
-- at the first merge, every incarnation can still grow, and the list does not accuse the node itself.
pub merge_full_list-merge_full_list :
    (now later : Time) (l : List MemberEntry) (s : Store)
    → All (IsSane now) l
    → All (IsNeutral s.self_id) l
    → merge_full_list later l (merge_full_list now l s) ≡ merge_full_list now l s
merge_full_list-merge_full_list now later l s h n =
    merge-of_Covered later l (merge_full_list now l s) (rw (merge-self_id now l s h) n)
      (merge_covers now l s h)
