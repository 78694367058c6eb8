-- ===== src/Suspicion/Scan.antt =====
-- scanOnce of src/pkg/suspicion/manager.go gives every row of the table its own verdict, whatever
-- the order in which the snapshot lists the rows.
use failure_detector.Prelude.{
  ℕ, ◌≡◌, refl, sym, ◌∙◌, subst, List, [], ◌∷◌, Option, none, some, arith, inl, inr, ite,
  Option-cases,
}
use mathlib.Core.Logic.{if_pos, if_neg}
use failure_detector.Prelude.Map.{lookup, Fresh, IsMap, lookup-Fresh, lookup-insert, lookup-delete}
use failure_detector.Go.Text.{Text, text_discrete}
use failure_detector.Go.Clock.{Time}
use failure_detector.Node.{NodeId}
use failure_detector.Store.{
  State, MemberEntry, Store, suspect, failed, key, row, values, apply, apply_locked, remove_entry,
  applied,
}
use failure_detector.Store.Map.{Keyed}
use failure_detector.Store.Invariant.{IsWf, apply-IsWf, remove_entry-IsWf}
use failure_detector.Store.Settings.{apply-config, remove_entry-config}
use failure_detector.Suspicion.{Limits, Progress, scan_row, scan_rows}
use failure_detector.Suspicion.Judge.{judge}

pub row-apply_locked :
    (now : Time) (k : Text) (e : MemberEntry) (st : State) (s : Store)
    → row (key e.id) s ≡ some e
    → row k (apply_locked now e.id e.incarnation st s)
      ≡ ite (text_discrete (key e.id) k) (some (applied now e.incarnation st e)) (row k s)
unfolding apply_locked apply
row-apply_locked now k e st s h =
    rw (h, apply)
      (lookup-insert text_discrete (key e.id) k (applied now e.incarnation st e) s.entries)

pub row-remove_entry :
    (k : Text) (id : NodeId) (s : Store)
    → IsWf s
    → row k (remove_entry id s) ≡ ite (text_discrete (key id) k) none (row k s)
unfolding remove_entry
row-remove_entry k id s w = elim (Option-cases (row (key id) s)) [
  | inl e ↦ rw (e, remove_entry) (ground arith)
  | inr (e, h) ↦ rw (h, remove_entry) (lookup-delete text_discrete (key id) k s.entries w.is_map)
]

pub frame-apply_locked :
    (now : Time) (id : NodeId) (inc : ℕ) (st : State) (s : Store)
    → ((apply_locked now id inc st s).self_id ≡ s.self_id)
unfolding apply_locked apply
frame-apply_locked now id inc st s = ground arith

pub frame-remove_entry : (id : NodeId) (s : Store) → (remove_entry id s).self_id ≡ s.self_id
unfolding remove_entry
frame-remove_entry id s = ground arith

-- The rows of `m` are the rows of the store.
abbrev pub Shows : List (Text × MemberEntry) → Store → Type 0
Shows [] s = Unit {0}
Shows ((k, e) ∷ m) s = (row k s ≡ some e) × Shows m s

module _ (now : Time) (l : Limits) where
  pub scan_row-IsWf : (e : MemberEntry) (p : Progress) → IsWf p.st → IsWf (scan_row now l e p).st
  unfolding scan_row
  scan_row-IsWf e p w = ground (
    arith,
    remove_entry-IsWf e.id p.st w,
    apply-IsWf now e.id e.incarnation failed p.st w,
    apply-IsWf now e.id e.incarnation suspect p.st w,
  )

  pub scan_row-self_id :
      (e : MemberEntry) (p : Progress) → (scan_row now l e p).st.self_id ≡ p.st.self_id
  unfolding scan_row
  scan_row-self_id e p = ground (
    arith,
    frame-remove_entry e.id p.st,
    frame-apply_locked now e.id e.incarnation failed p.st,
    frame-apply_locked now e.id e.incarnation suspect p.st,
  )

  pub scan_row-config :
      (e : MemberEntry) (p : Progress) → (scan_row now l e p).st.config ≡ p.st.config
  unfolding scan_row
  scan_row-config e p = ground (
    arith,
    remove_entry-config e.id p.st,
    apply-config now e.id e.incarnation failed p.st,
    apply-config now e.id e.incarnation suspect p.st,
  )

  pub scan_rows-config :
      (es : List MemberEntry) (p : Progress) → (scan_rows now l es p).st.config ≡ p.st.config
  unfolding scan_rows
  scan_rows-config [] p = refl
  scan_rows-config (e ∷ es) p = scan_rows-config es (scan_row now l e p) ∙ scan_row-config e p

  pub scan_rows-IsWf :
      (es : List MemberEntry) (p : Progress) → IsWf p.st → IsWf (scan_rows now l es p).st
  unfolding scan_rows
  scan_rows-IsWf [] p w = w
  scan_rows-IsWf (e ∷ es) p w = scan_rows-IsWf es (scan_row now l e p) (scan_row-IsWf e p w)

  pub scan_rows-self_id :
      (es : List MemberEntry) (p : Progress) → (scan_rows now l es p).st.self_id ≡ p.st.self_id
  unfolding scan_rows
  scan_rows-self_id [] p = refl
  scan_rows-self_id (e ∷ es) p = scan_rows-self_id es (scan_row now l e p) ∙ scan_row-self_id e p

  -- One round changes the row that it looks at, by its verdict, and no other.
  pub row-scan_row :
      (k : Text) (e : MemberEntry) (p : Progress)
      → IsWf p.st
      → row (key e.id) p.st ≡ some e
      → row k (scan_row now l e p).st
        ≡ ite (text_discrete (key e.id) k) (judge now l p.st.self_id e) (row k p.st)
  unfolding scan_row judge
  row-scan_row k e p w h = ground (
    arith,
    h,
    row-remove_entry k e.id p.st w,
    row-apply_locked now k e failed p.st h,
    row-apply_locked now k e suspect p.st h,
  )

  -- What the loop leaves under `k`, by the list that it goes through.
  abbrev pub verdict : NodeId → Option MemberEntry → Option MemberEntry → Option MemberEntry
  verdict self none r = r
  verdict self (some e) r = judge now l self e

  pub Shows-scan_row :
      (j : Text) (e : MemberEntry) (m : List (Text × MemberEntry)) (p : Progress)
      → IsWf p.st
      → row (key e.id) p.st ≡ some e
      → Fresh text_discrete (key e.id) m
      → Shows m p.st
      → Shows m (scan_row now l e p).st
  Shows-scan_row j e [] p w h f v = tt
  Shows-scan_row j e ((k, x) ∷ m) p w h f v = (
    row-scan_row k e p w h ∙ if_neg (text_discrete (key e.id) k) (λ q. f.0 (sym q)) _ _ ∙ v.0,
    Shows-scan_row j e m p w h f.1 v.1,
  )

  pub verdict_step :
      (k j : Text) (e : MemberEntry) (m : List (Text × MemberEntry)) (p : Progress)
      → j ≡ key e.id
      → lookup text_discrete j m ≡ none
      → (scan_row now l e p).st.self_id ≡ p.st.self_id
      → row k (scan_row now l e p).st
        ≡ ite (text_discrete (key e.id) k) (judge now l p.st.self_id e) (row k p.st)
      → verdict
          (scan_row now l e p).st.self_id
          (lookup text_discrete k m)
          (row k (scan_row now l e p).st)
        ≡ verdict p.st.self_id (lookup text_discrete k ((j, e) ∷ m)) (row k p.st)
  unfolding lookup
  verdict_step k j e m p q fresh same moved = elim (text_discrete j k) [
    | yes y ↦
        rw
          (
            same,
            moved,
            if_pos (text_discrete j k) y (some e) (lookup text_discrete k m),
            ← y,
            fresh,
          )
          (if_pos (text_discrete (key e.id) j) (sym q) _ _)
    | no n ↦ rw (
      same,
      moved,
      if_neg (text_discrete j k) n (some e) (lookup text_discrete k m),
      if_neg (text_discrete (key e.id) k) (λ z. n (q ∙ z)) (judge now l p.st.self_id e)
          (row k p.st),
    )
  ]

  pub row-scan_rows :
      (k : Text) (m : List (Text × MemberEntry)) (p : Progress)
      → IsWf p.st
      → IsMap text_discrete m
      → Keyed m
      → Shows m p.st
      → row k (scan_rows now l (values m) p).st
        ≡ verdict p.st.self_id (lookup text_discrete k m) (row k p.st)
  unfolding scan_rows values lookup
  row-scan_rows k [] p w im kd v = refl
  row-scan_rows k ((j, e) ∷ m) p w im kd v =
      let h = subst (λ x. row x p.st ≡ some e) kd.0 v.0 in
      let f = subst (λ x. Fresh text_discrete x m) kd.0 im.0 in
      let ih =
        row-scan_rows k m (scan_row now l e p) (scan_row-IsWf e p w) im.1 kd.1
          (Shows-scan_row k e m p w h f v.1) in
      ih
      ∙ verdict_step k j e m p kd.0 (lookup-Fresh text_discrete j m im.0) (scan_row-self_id e p)
          (row-scan_row k e p w h)

pub Shows-cons :
    (j : Text) (e : MemberEntry) (m : List (Text × MemberEntry)) (s : Store)
    → Fresh text_discrete j m
    → Shows m s
    → Shows m (record s { entries = (j, e) ∷ s.entries })
unfolding lookup
Shows-cons j e [] s f v = tt
Shows-cons j e ((k, x) ∷ m) s f v = (ground (arith, v.0, f.0), Shows-cons j e m s f.1 v.1)

-- A table shows its own rows.
pub Shows-self :
    (m : List (Text × MemberEntry)) (s : Store)
    → IsMap text_discrete m
    → Shows m (record s { entries = m })
unfolding lookup
Shows-self [] s w = tt
Shows-self ((j, e) ∷ m) s w = (
  if_pos (text_discrete j j) refl _ _,
  Shows-cons j e m (record s { entries = m }) w.0 (Shows-self m s w.1),
)
