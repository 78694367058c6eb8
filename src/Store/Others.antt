-- ===== src/Store/Others.antt =====
-- What the rows of the other nodes in the table of src/pkg/store/membership.go are made of: a merge
-- and a snapshot write only rows that they were given, up to the heartbeat.
use mathlib.Core.Option.{some-injective}
use mathlib.Core.Logic.{if_pos, if_neg}
use failure_detector.Prelude.Map.{lookup}
use failure_detector.Prelude.{
  sym, ◌∙◌, ◌≡◌, ◌≢◌, subst, inl, inr, List, [], ◌∷◌, some, arith, All, Option-cases, holds, ◌&&◌,
  not, Bool-cases,
}
use failure_detector.Go.Text.{Text, text_discrete}
use failure_detector.Go.Clock.{Time}
use failure_detector.Node.{NodeId, NodeId-discrete}
use failure_detector.Store.{
  is_left, beat, beat_rows, values, snapshot, MemberEntry, Store, key, row, put_row,
  self_bump_incarnation, update_member_entry, merge_full_list,
}
use failure_detector.Store.Map.{row-put_row, lookup-beat_rows}
use failure_detector.Store.Invariant.{IsWf, snapshot-IsWf}
use failure_detector.Suspicion.Scan.{Shows, Shows-self}
use failure_detector.Store.Rank.{
  Outcome, inserted, rebooted, taken, refuted, kept, update_member_entry-Outcome,
}
use failure_detector.Store.Merge.{bumped, bump-put_row}

-- Every row but the own one has `P`.
abbrev pub Others : (MemberEntry → Type 0) → Store → Type 0
Others P s = (k : Text) (x : MemberEntry) → k ≢ key s.self_id → row k s ≡ some x → P x

-- A predicate that the heartbeat does not matter to.
abbrev pub IsTimeless : (MemberEntry → Type 0) → Type 0
IsTimeless P = (e : MemberEntry) (now : Time) → P e → P (record e { last_update = now })

module _ (P : MemberEntry → Type 0) (timeless : IsTimeless P) where
  put_row-Others :
      (j : Text) (e : MemberEntry) (s : Store) → P e → Others P s → Others P (put_row j e s)
  put_row-Others j e s p o k x n h = elim (text_discrete j k) [
    | yes q ↦ subst P (ground (arith, row-put_row j k e s, h)) p
    | no q ↦ o k x n (ground (arith, row-put_row j k e s, h))
  ]

  bump-Others :
      (now : Time) (me : MemberEntry) (s : Store)
      → row (key s.self_id) s ≡ some me
      → Others P s
      → Others P (self_bump_incarnation now s)
  bump-Others now me s found o =
      rw (bump-put_row now s me found)
        (λ k x n h. o k x n (ground (arith, n, row-put_row (key s.self_id) k (bumped now me) s, h)))

  Outcome-Others :
      (now : Time) (e : MemberEntry) (s t : Store)
      → P e
      → Others P s
      → Outcome now e s t
      → Others P t
  Outcome-Others now e s t p o (inserted h q) = rw q (put_row-Others (key e.id) e s p o)
  Outcome-Others now e s t p o (rebooted x h b q) =
      rw q (put_row-Others (key e.id) (record e { last_update = now }) s (timeless e now p) o)
  Outcome-Others now e s t p o (taken x h b r a q) = rw q (put_row-Others (key e.id) e s p o)
  Outcome-Others now e s t p o (refuted x h a q) =
      rw q (bump-Others now x s (subst (λ i. row (key i) s ≡ some x) a.itself h) o)
  Outcome-Others now e s t p o (kept x h r a q) = rw q o

  pub merge-Others :
      (now : Time) (l : List MemberEntry) (s : Store)
      → All P l
      → Others P s
      → Others P (merge_full_list now l s)
  unfolding merge_full_list
  merge-Others now [] s p o = o
  merge-Others now (e ∷ l) s p o =
      merge-Others now l (update_member_entry now e s) p.1
        (Outcome-Others now e s _ p.0 o (update_member_entry-Outcome now e s))

  pub beat_P : (self : NodeId) (now : Time) (e : MemberEntry) → P e → P (beat self now e)
  beat_P self now e p =
      elim (Bool-cases (holds (NodeId-discrete e.id self) && not (is_left e.state))) [
        | inl own ↦ rw own (timeless e now p)
        | inr other ↦ rw other p
      ]

  pub snapshot-Others : (now : Time) (s : Store) → Others P s → Others P (snapshot now s).1
  unfolding snapshot
  snapshot-Others now s o k x n h = elim (Option-cases (row k s)) [
    | inl missing ↦ absurd (ground (arith, lookup-beat_rows s.self_id now k s.entries, missing, h))
    | inr (e, found) ↦
        subst P (ground (arith, lookup-beat_rows s.self_id now k s.entries, found, h))
          (beat_P s.self_id now e (o k e n found))
  ]

-- The entries that a snapshot sends are the rows of the table.
values_P :
    (P : MemberEntry → Type 0) (s : Store) (m : List (Text × MemberEntry))
    → ((k : Text) (x : MemberEntry) → row k s ≡ some x → P x)
    → Shows m s
    → All P (values m)
unfolding values
values_P P s [] p h = tt
values_P P s ((k, e) ∷ m) p h = (p k e h.0, values_P P s m p h.1)

pub sent_P :
    (P : MemberEntry → Type 0) (now : Time) (s : Store)
    → IsWf s
    → ((k : Text) (x : MemberEntry) → row k (snapshot now s).1 ≡ some x → P x)
    → All P (snapshot now s).0.0
unfolding snapshot
sent_P P now s w p =
    values_P P (snapshot now s).1 (beat_rows s.self_id now s.entries) p
      (Shows-self _ (snapshot now s).1 (snapshot-IsWf now s w).is_map)

-- What all entries of a list have, the rows have that the list was made from.
pub rows_P :
    (P : MemberEntry → Type 0) (m : List (Text × MemberEntry)) (k : Text) (x : MemberEntry)
    → All P (values m)
    → lookup text_discrete k m ≡ some x
    → P x
unfolding values lookup
rows_P P [] k x p h = absurd (ground arith)
rows_P P ((j, e) ∷ m) k x p h = elim (text_discrete j k) [
  | yes q ↦
      subst P
        (some-injective e x
          (sym (if_pos (text_discrete j k) q (some e) (lookup text_discrete k m)) ∙ h))
        p.0
  | no n ↦
      rows_P P m k x p.1
        (sym (if_neg (text_discrete j k) n (some e) (lookup text_discrete k m)) ∙ h)
]
