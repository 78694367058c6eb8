-- ===== src/Cluster/Late.antt =====
-- A round of scanOnce of src/pkg/suspicion/manager.go on an entry of an earlier snapshot: merges may
-- have come in between, so the row that it writes need not be the entry that it has judged.
use mathlib.Core.Option.{some-injective}
use mathlib.Core.Logic.{if_pos, if_neg}
use failure_detector.Prelude.{
  ◌≡◌, ◌≢◌, refl, sym, ◌∙◌, ap, subst, ◌⊎◌, inl, inr, false, Option, none, some, arith,
  Option-cases, ite,
}
use failure_detector.Prelude.Map.{lookup-insert}
use failure_detector.Go.Text.{Text, text_discrete}
use failure_detector.Go.Clock.{Time}
use failure_detector.Node.{NodeId-discrete}
use failure_detector.Store.{
  State, MemberEntry, Store, suspect, failed, key, row, is_left, apply, apply_locked, applied,
  remove_entry,
}
use failure_detector.Store.Invariant.{IsWf}
use failure_detector.Suspicion.{Limits, Progress, scan_row}
use failure_detector.Suspicion.Scan.{row-remove_entry}

row-apply :
    (now : Time) (k : Text) (e x : MemberEntry) (st : State) (s : Store)
    → row (key e.id) s ≡ some x
    → row k (apply_locked now e.id e.incarnation st s)
      ≡ ite (text_discrete (key e.id) k) (some (applied now e.incarnation st x)) (row k s)
unfolding apply_locked
row-apply now k e x st s h =
    rw (h, apply)
      (lookup-insert text_discrete (key e.id) k (applied now e.incarnation st x) s.entries)

apply-of_missing :
    (now : Time) (e : MemberEntry) (st : State) (s : Store)
    → row (key e.id) s ≡ none
    → apply_locked now e.id e.incarnation st s ≡ s
unfolding apply_locked
apply-of_missing now e st s h = rw (h, apply) refl

-- A mark on a row that is there or not.
apply-other :
    (now : Time) (k : Text) (e : MemberEntry) (st : State) (s : Store)
    → key e.id ≢ k
    → row k (apply_locked now e.id e.incarnation st s) ≡ row k s
apply-other now k e st s n = elim (Option-cases (row (key e.id) s)) [
  | inl gone ↦ ap (row k) (apply-of_missing now e st s gone)
  | inr (x, found) ↦ row-apply now k e x st s found ∙ if_neg (text_discrete (key e.id) k) n _ _
]

apply_P :
    (P : MemberEntry → Type 0) (now : Time) (e y : MemberEntry) (st : State) (s : Store)
    → ((x : MemberEntry) → row (key e.id) s ≡ some x → P x)
    → ((x : MemberEntry) → row (key e.id) s ≡ some x → P x → P (applied now e.incarnation st x))
    → row (key e.id) (apply_locked now e.id e.incarnation st s) ≡ some y
    → P y
apply_P P now e y st s before marks h = elim (Option-cases (row (key e.id) s)) [
  | inl gone ↦ before y (sym (ap (row (key e.id)) (apply-of_missing now e st s gone)) ∙ h)
  | inr (x, found) ↦
      subst P
        (some-injective (applied now e.incarnation st x) y (
          sym (
            row-apply now (key e.id) e x st s found
            ∙ if_pos (text_discrete (key e.id) (key e.id)) refl _ _)
          ∙ h))
        (marks x found (before x found))
]

not_both : (o : Option MemberEntry) (y : MemberEntry) → o ≡ none → o ≡ some y → ⊥
not_both o y p q = cc

module _ (now : Time) (l : Limits) (e : MemberEntry) (p : Progress) where
  -- What a round makes of the store, for an entry that is not Left.
  scan_row_forms :
      is_left e.state ≡ false
      → ((scan_row now l e p).st ≡ p.st)
        ⊎ ((e.id ≢ p.st.self_id)
            × (((scan_row now l e p).st ≡ remove_entry e.id p.st)
                ⊎ ((scan_row now l e p).st ≡ apply_locked now e.id e.incarnation suspect p.st)
                ⊎ ((scan_row now l e p).st ≡ apply_locked now e.id e.incarnation failed p.st)))
  unfolding scan_row
  scan_row_forms there = elim (NodeId-discrete e.id p.st.self_id) [
    | yes mine ↦ ground (arith, mine, there)
    | no peer ↦ ground (arith, peer, there)
  ]

  -- An entry about the node itself does nothing.
  pub late_self : is_left e.state ≡ false → e.id ≡ p.st.self_id → (scan_row now l e p).st ≡ p.st
  late_self there mine = elim (scan_row_forms there) [
    | inl same ↦ same
    | inr (peer, q) ↦ absurd (peer mine)
  ]

  -- A row under another key stays.
  pub late_other :
      IsWf p.st
      → is_left e.state ≡ false
      → (k : Text) → key e.id ≢ k
      → row k (scan_row now l e p).st ≡ row k p.st
  late_other w there k n = elim (scan_row_forms there) [
    | inl same ↦ ap (row k) same
    | inr (peer, inl q) ↦
        ap (row k) q ∙ row-remove_entry k e.id p.st w ∙ if_neg (text_discrete (key e.id) k) n _ _
    | inr (peer, inr (inl q)) ↦ ap (row k) q ∙ apply-other now k e suspect p.st n
    | inr (peer, inr (inr q)) ↦ ap (row k) q ∙ apply-other now k e failed p.st n
  ]

  own_P :
      (P : MemberEntry → Type 0)
      → IsWf p.st
      → is_left e.state ≡ false
      → ((x : MemberEntry)
          → row (key e.id) p.st ≡ some x
          → P x
          → P (record x { incarnation = e.incarnation; state = suspect })
            × P (record x { incarnation = e.incarnation; state = failed }))
      → (y : MemberEntry) → ((x : MemberEntry) → row (key e.id) p.st ≡ some x → P x)
      → row (key e.id) (scan_row now l e p).st ≡ some y
      → P y
  own_P P w there marks y before h = elim (scan_row_forms there) [
    | inl same ↦ before y (sym (ap (row (key e.id)) same) ∙ h)
    | inr (peer, inl q) ↦ absurd (
        not_both (row (key e.id) (scan_row now l e p).st) y
          (ap (row (key e.id)) q
            ∙ row-remove_entry (key e.id) e.id p.st w
            ∙ if_pos (text_discrete (key e.id) (key e.id)) refl _ _)
          h)
    | inr (peer, inr (inl q)) ↦
        apply_P P now e y suspect p.st before (λ x found px. (marks x found px).0)
          (sym (ap (row (key e.id)) q) ∙ h)
    | inr (peer, inr (inr q)) ↦
        apply_P P now e y failed p.st before (λ x found px. (marks x found px).1)
          (sym (ap (row (key e.id)) q) ∙ h)
  ]

  -- What all rows have, if a mark on the row under the key of the entry keeps it, they have afterwards.
  pub late_P :
      (P : MemberEntry → Type 0)
      → IsWf p.st
      → is_left e.state ≡ false
      → ((x : MemberEntry)
          → row (key e.id) p.st ≡ some x
          → P x
          → P (record x { incarnation = e.incarnation; state = suspect })
            × P (record x { incarnation = e.incarnation; state = failed }))
      → (k : Text) (y : MemberEntry) → ((x : MemberEntry) → row k p.st ≡ some x → P x)
      → row k (scan_row now l e p).st ≡ some y
      → P y
  late_P P w there marks k y before h = elim (text_discrete (key e.id) k) [
    | no n ↦ before y (sym (late_other w there k n) ∙ h)
    | yes q ↦
        own_P P w there marks y (λ x found. before x (subst (λ j. row j p.st ≡ some x) q found))
          (subst (λ j. row j (scan_row now l e p).st ≡ some y) (sym q) h)
  ]
