-- ===== src/Store/Invariant.antt =====
-- The table of src/pkg/store/membership.go is well formed after any sequence of operations.
use failure_detector.Prelude.{ℕ, ◌≡◌, refl, List, [], ◌∷◌, some, inl, inr, Option-cases}
use failure_detector.Prelude.Map.{insert, IsMap, insert-IsMap, delete-IsMap}
use failure_detector.Go.Text.{Text, text_discrete}
use failure_detector.Go.Clock.{Time}
use failure_detector.Node.{NodeId}
use failure_detector.Config.{Config}
use failure_detector.Store.{
  State, MemberEntry, Store, key, row, put_row, new, snapshot, apply, apply_locked, applied,
  remove_entry, self_bump_incarnation, set_self_state, update_member_entry, merge_full_list,
  reconfigure,
}
use failure_detector.Store.Rank.{
  Outcome, inserted, rebooted, taken, refuted, kept, update_member_entry-Outcome,
}
use failure_detector.Store.Map.{
  Keyed, insert-Keyed, delete-Keyed, lookup-Keyed, beat_rows-Keyed, beat_rows-IsMap,
}

-- No key twice, and every row under the text of its own endpoint.
pub record IsWf (s : Store) : Type 0 where
  pub is_map : IsMap text_discrete s.entries
  pub keyed : Keyed s.entries

pub put_row-IsWf :
    (k : Text) (e : MemberEntry) (s : Store) → k ≡ key e.id → IsWf s → IsWf (put_row k e s)
put_row-IsWf k e s h w = record {
  is_map = insert-IsMap text_discrete k e s.entries w.is_map;
  keyed = insert-Keyed k e s.entries h w.keyed;
}

pub new-IsWf : (self : NodeId) (cfg : Config) (now : Time) → IsWf (new self cfg now)
unfolding new insert
new-IsWf self cfg now = record { is_map = (tt, tt); keyed = (refl, tt) }

pub row-key : (k : Text) (e : MemberEntry) (s : Store) → IsWf s → row k s ≡ some e → k ≡ key e.id
row-key k e s w h = lookup-Keyed k s.entries e w.keyed h

pub apply-IsWf :
    (now : Time) (id : NodeId) (inc : ℕ) (st : State) (s : Store)
    → IsWf s
    → IsWf (apply_locked now id inc st s)
unfolding apply_locked
apply-IsWf now id inc st s w = elim (Option-cases (row (key id) s)) [
  | inl e ↦ rw (e, apply) w
  | inr (e, h) ↦
      rw (h, apply) (put_row-IsWf (key id) (applied now inc st e) s (row-key (key id) e s w h) w)
]

pub remove_entry-IsWf : (id : NodeId) (s : Store) → IsWf s → IsWf (remove_entry id s)
unfolding remove_entry
remove_entry-IsWf id s w = elim (Option-cases (row (key id) s)) [
  | inl e ↦ rw (e, remove_entry) w
  | inr (e, h) ↦
      rw (h, remove_entry)
        (record {
          is_map = delete-IsMap text_discrete (key id) s.entries w.is_map;
          keyed = delete-Keyed (key id) s.entries w.keyed;
        })
]

bump-IsWf : (now : Time) (s : Store) → IsWf s → IsWf (self_bump_incarnation now s)
unfolding self_bump_incarnation
bump-IsWf now s w = elim (Option-cases (row (key s.self_id) s)) [
  | inl e ↦ rw (e, self_bump_incarnation) w
  | inr (e, h) ↦
      rw (h, self_bump_incarnation) (put_row-IsWf (key s.self_id) _ s (row-key _ e s w h) w)
]

set_self_state-IsWf :
    (now : Time) (st : State) (s : Store) → IsWf s → IsWf (set_self_state now st s)
unfolding set_self_state
set_self_state-IsWf now st s w = elim (Option-cases (row (key s.self_id) s)) [
  | inl e ↦ rw (e, set_self_state) w
  | inr (e, h) ↦ rw (h, set_self_state) (put_row-IsWf (key s.self_id) _ s (row-key _ e s w h) w)
]

pub update-IsWf :
    (now : Time) (e : MemberEntry) (s : Store) → IsWf s → IsWf (update_member_entry now e s)
update-IsWf now e s w = go _ (update_member_entry-Outcome now e s)
  where
    go : (t : Store) → Outcome now e s t → IsWf t
    go t (inserted h q) = rw q (put_row-IsWf (key e.id) e s refl w)
    go t (rebooted old h b q) = rw q (put_row-IsWf (key e.id) _ s refl w)
    go t (taken old h b r a q) = rw q (put_row-IsWf (key e.id) e s refl w)
    go t (refuted old h a q) = rw q (bump-IsWf now s w)
    go t (kept old h r a q) = rw q w

pub merge-IsWf :
    (now : Time) (l : List MemberEntry) (s : Store) → IsWf s → IsWf (merge_full_list now l s)
unfolding merge_full_list
merge-IsWf now [] s w = w
merge-IsWf now (e ∷ l) s w = merge-IsWf now l (update_member_entry now e s) (update-IsWf now e s w)

pub snapshot-IsWf : (now : Time) (s : Store) → IsWf s → IsWf (snapshot now s).1
unfolding snapshot
snapshot-IsWf now s w = record {
  is_map = beat_rows-IsMap s.self_id now s.entries w.is_map;
  keyed = beat_rows-Keyed s.self_id now s.entries w.keyed;
}

-- The operations of a Store that can change it.
pub data Op : Type 0 where
  snapshots : Time → Op
  applies : Time → NodeId → ℕ → State → Op
  removes : NodeId → Op
  sets_self : Time → State → Op
  merges : Time → List MemberEntry → Op
  reconfigures : Config → Op

unfoldable pub step : Op → Store → Store
step (snapshots now) s = (snapshot now s).1
step (applies now id inc st) s = apply_locked now id inc st s
step (removes id) s = remove_entry id s
step (sets_self now st) s = set_self_state now st s
step (merges now l) s = merge_full_list now l s
step (reconfigures cfg) s = reconfigure cfg s

unfoldable pub run : List Op → Store → Store
unfolding step
run [] s = s
run (o ∷ os) s = run os (step o s)

-- Each operation keeps the table well formed.
pub step-IsWf : (o : Op) (s : Store) → IsWf s → IsWf (step o s)
unfolding step reconfigure
step-IsWf (snapshots now) s w = snapshot-IsWf now s w
step-IsWf (applies now id inc st) s w = apply-IsWf now id inc st s w
step-IsWf (removes id) s w = remove_entry-IsWf id s w
step-IsWf (sets_self now st) s w = set_self_state-IsWf now st s w
step-IsWf (merges now l) s w = merge-IsWf now l s w
step-IsWf (reconfigures cfg) s w = record { is_map = w.is_map; keyed = w.keyed }

run-IsWf : (os : List Op) (s : Store) → IsWf s → IsWf (run os s)
unfolding run
run-IsWf [] s w = w
run-IsWf (o ∷ os) s w = run-IsWf os (step o s) (step-IsWf o s w)

-- After any sequence of operations on a new store no endpoint has two rows, and every row stands
-- under the text of its own endpoint.
pub run-new-IsWf :
    (os : List Op) (self : NodeId) (cfg : Config) (now : Time) → IsWf (run os (new self cfg now))
run-new-IsWf os self cfg now = run-IsWf os (new self cfg now) (new-IsWf self cfg now)
