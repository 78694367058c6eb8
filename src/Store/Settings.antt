-- ===== src/Store/Settings.antt =====
-- No operation on rows of src/pkg/store/membership.go changes the configuration of the store.
use failure_detector.Prelude.{arith, ℕ, ◌≡◌, refl, ◌∙◌, List, [], ◌∷◌, inl, inr, Option-cases}
use failure_detector.Go.Clock.{Time}
use failure_detector.Node.{NodeId}
use failure_detector.Store.{
  State, MemberEntry, Store, row, key, snapshot, apply, apply_locked, remove_entry,
  self_bump_incarnation, update_member_entry, merge_full_list,
}
use failure_detector.Store.Rank.{
  Outcome, inserted, rebooted, taken, refuted, kept, update_member_entry-Outcome,
}

pub snapshot-config : (now : Time) (s : Store) → (snapshot now s).1.config ≡ s.config
unfolding snapshot
snapshot-config now s = refl

pub apply-config :
    (now : Time) (id : NodeId) (inc : ℕ) (st : State) (s : Store)
    → (apply_locked now id inc st s).config ≡ s.config
unfolding apply_locked
apply-config now id inc st s = elim (Option-cases (row (key id) s)) [
  | inl e ↦ rw (e, apply) refl
  | inr (e, h) ↦ rw (h, apply) refl
]

pub remove_entry-config : (id : NodeId) (s : Store) → (remove_entry id s).config ≡ s.config
unfolding remove_entry
remove_entry-config id s = ground arith

bump-config : (now : Time) (s : Store) → (self_bump_incarnation now s).config ≡ s.config
unfolding self_bump_incarnation
bump-config now s = elim (Option-cases (row (key s.self_id) s)) [
  | inl e ↦ rw (e, self_bump_incarnation) refl
  | inr (e, h) ↦ rw (h, self_bump_incarnation) refl
]

update-config :
    (now : Time) (e : MemberEntry) (s : Store) → (update_member_entry now e s).config ≡ s.config
update-config now e s = go _ (update_member_entry-Outcome now e s)
  where
    go : (t : Store) → Outcome now e s t → t.config ≡ s.config
    go t (inserted h q) = rw q refl
    go t (rebooted old h b q) = rw q refl
    go t (taken old h b r a q) = rw q refl
    go t (refuted old h a q) = rw q (bump-config now s)
    go t (kept old h r a q) = rw q refl

pub merge-config :
    (now : Time) (l : List MemberEntry) (s : Store) → (merge_full_list now l s).config ≡ s.config
unfolding merge_full_list
merge-config now [] s = refl
merge-config now (e ∷ l) s =
    merge-config now l (update_member_entry now e s) ∙ update-config now e s
