-- ===== src/Suspicion/Refinement.antt =====
-- scanOnce of src/pkg/suspicion/manager.go as a function of each row: every row of the table gets
-- its own verdict, whatever the order in which the snapshot lists the rows.
use failure_detector.Prelude.{
  ◌≡◌, refl, sym, ◌∙◌, ap, subst, false, List, [], ◌∷◌, Option, none, some, arith, inl, inr,
  Option-cases,
}
use mathlib.Core.Option
use failure_detector.Prelude.Map.{lookup}
use failure_detector.Go.Text.{Text, text_discrete}
use failure_detector.Go.Clock.{Time}
use failure_detector.Node.{NodeId, NodeId-discrete}
use failure_detector.Store.{
  MemberEntry, Store, key, row, is_left, snapshot, beat, beat_rows, values,
}
use failure_detector.Store.Map.{Keyed, lookup-beat_rows}
use failure_detector.Store.Invariant.{IsWf, snapshot-IsWf}
use failure_detector.Suspicion.{Limits, Progress, present, own_state, scan_rows, scan_once}
use failure_detector.Suspicion.Judge.{judge}
use failure_detector.Suspicion.Scan.{
  Shows, scan_rows-IsWf, scan_rows-self_id, scan_rows-config, verdict, row-scan_rows, Shows-self,
}

-- The own row, if the table has it, is not in state Left.
abbrev pub HasNotLeft : Store → Type 0
HasNotLeft s =
    (e : MemberEntry) → row (key s.self_id) s ≡ some e → e.id ≡ s.self_id → is_left e.state ≡ false

own_state-present :
    (now : Time) (l : Limits) (m : List (Text × MemberEntry)) (s : Store)
    → Keyed m
    → Shows m s
    → HasNotLeft s
    → own_state now l s.self_id (values m) ≡ present
unfolding own_state values
own_state-present now l [] s kd v h = refl
own_state-present now l ((j, e) ∷ m) s kd v h = elim (NodeId-discrete e.id s.self_id) [
  | yes p ↦
      let mine = subst (λ x. row x s ≡ some e) (kd.0 ∙ ap key p) v.0 in
      ground (arith, h e mine p, own_state-present now l m s kd.1 v.1 h)
  | no n ↦ ground (arith, n, own_state-present now l m s kd.1 v.1 h)
]

pub beat-state : (self : NodeId) (now : Time) (e : MemberEntry) → (beat self now e).state ≡ e.state
beat-state self now e = ground arith

pub beat-id : (self : NodeId) (now : Time) (e : MemberEntry) → (beat self now e).id ≡ e.id
beat-id self now e = ground arith

row-snapshot :
    (now : Time) (k : Text) (s : Store)
    → row k (snapshot now s).1 ≡ Option.map (beat s.self_id now) (row k s)
unfolding snapshot
row-snapshot now k s = lookup-beat_rows s.self_id now k s.entries

same_entry : (a b : MemberEntry) → some a ≡ some b → a ≡ b
same_entry a b h = cc

snapshot-HasNotLeft : (now : Time) (s : Store) → HasNotLeft s → HasNotLeft (snapshot now s).1
unfolding snapshot
snapshot-HasNotLeft now s h e found mine = elim (Option-cases (row (key s.self_id) s)) [
  | inl missing ↦
      cc (found, row-snapshot now (key s.self_id) s, ap (Option.map (beat s.self_id now)) missing)
  | inr (x, hx) ↦
      let same = same_entry e (beat s.self_id now x) (
        sym found
        ∙ lookup-beat_rows s.self_id now (key s.self_id) s.entries
        ∙ ap (Option.map (beat s.self_id now)) hx) in
      rw (same, beat-state s.self_id now x)
        (h x hx (sym (beat-id s.self_id now x) ∙ ap (λ y. y.id) (sym same) ∙ mine))
]

-- The row that a scan makes of a row, the own heartbeat set first.
abbrev pub judged : Time → Limits → NodeId → Option MemberEntry → Option MemberEntry
judged now l self none = none
judged now l self (some e) = judge now l self (beat self now e)

verdict_judged :
    (now : Time) (l : Limits) (k : Text) (s : Store)
    → let rows = beat_rows s.self_id now s.entries in
      verdict now l s.self_id (lookup text_discrete k rows) (lookup text_discrete k rows)
      ≡ judged now l s.self_id (row k s)
verdict_judged now l k s = elim (Option-cases (row k s)) [
  | inl e ↦ rw (lookup-beat_rows, e)
  | inr (x, e) ↦ rw (lookup-beat_rows, e)
]

-- A scan that goes through keeps the table well formed, the identity of the node and its
-- configuration.
pub record Scanned (p q : Progress) : Type 0 where
  pub wf : IsWf q.st
  pub same_self : q.st.self_id ≡ p.st.self_id
  pub same_config : q.st.config ≡ p.st.config

-- While the node has not left, scanOnce goes through and leaves under every key exactly the verdict
-- on the row that stood there, keeps the table well formed, the identity of the node and its
-- configuration.
pub scan_once-rows :
    (now : Time) (l : Limits) (p : Progress)
    → IsWf p.st
    → HasNotLeft p.st
    → (q : Progress) × (scan_once now l p ≡ some q)
      × ((k : Text) → row k q.st ≡ judged now l p.st.self_id (row k p.st))
      × Scanned p q
unfolding scan_once snapshot
scan_once-rows now l p w h =
    let self = p.st.self_id in
    let rows = beat_rows self now p.st.entries in
    let p' : Progress = record p { st = record p.st { entries = rows } } in
    let w' = snapshot-IsWf now p.st w in
    let shown = Shows-self rows p.st w'.is_map in
    (
      scan_rows now l (values rows) p',
      rw (own_state-present now l rows p'.st w'.keyed shown (snapshot-HasNotLeft now p.st h)),
      λ k. row-scan_rows now l k rows p' w' w'.is_map w'.keyed shown ∙ verdict_judged now l k p.st,
      record {
        wf = scan_rows-IsWf now l (values rows) p' w';
        same_self = scan_rows-self_id now l (values rows) p';
        same_config = scan_rows-config now l (values rows) p';
      },
    )
