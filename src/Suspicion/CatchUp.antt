-- ===== src/Suspicion/CatchUp.antt =====
-- A scan of src/pkg/suspicion/manager.go makes up for the scans that were missed before it.
use failure_detector.Prelude.{
  ℕ, ◌+◌, ◌≤◌, ◌<◌, ◌≡◌, sym, ◌∙◌, ap, subst, true, false, some, arith, inl, inr, Bool-cases,
  Option-cases,
}
use failure_detector.Prelude.Int.{i64_end}
use failure_detector.Go.Text.{Text}
use failure_detector.Go.Clock.{Time}
use failure_detector.Node.{NodeId, NodeId-discrete}
use failure_detector.Store.{MemberEntry, Store, key, row, is_left, beat}
use failure_detector.Store.Invariant.{IsWf, row-key}
use failure_detector.Suspicion.{Limits, Progress, scan_once}
use failure_detector.Suspicion.Judge.{judge}
use failure_detector.Suspicion.Refinement.{HasNotLeft, judged, beat-state, beat-id, scan_once-rows}
use failure_detector.Suspicion.Silence.{
  of_nanos, beat_peer, judge_own, Aged, fresh, suspected, given_up, deleted, when_suspected,
  when_failed, judge-Aged, judge_left, judge_total, judge_suspected, judge_given_up,
}
use failure_detector.Prelude.{◌-◌, ◌≢◌, leb, true, false, Option}

module _ (s f c now later : ℕ) (self : NodeId) (e : MemberEntry) (on : 0 < s)
    (fits : s + f + c < i64_end) (past : e.last_update ≤ now) (order : now ≤ later)
    (peer : e.id ≢ self) where
  pub Aged-judge :
      (r : Option MemberEntry)
      → is_left e.state ≡ false
      → Aged s f c (now - e.last_update) e r
      → judged later (of_nanos s f c) self r ≡ judge later (of_nanos s f c) self e
  Aged-judge r there (fresh a q) = rw (q, beat_peer self later e peer)
  Aged-judge r there (suspected a b q) =
      rw (q, beat_peer self later (record e { state = when_suspected e.state }) peer)
        (judge_suspected s f c later self e fits (omega arith) peer on there (omega arith))
  Aged-judge r there (given_up a b q) =
      rw (q, beat_peer self later (record e { state = when_failed e.state }) peer)
        (judge_given_up s f c later self e fits (omega arith) peer on there (omega arith))
  Aged-judge r there (deleted a q) =
      rw q (sym (judge_total s f c later self e fits (omega arith) peer on (omega arith)))

  pub left_judge :
      is_left e.state ≡ true
      → judged later (of_nanos s f c) self (judge now (of_nanos s f c) self e)
        ≡ judge later (of_nanos s f c) self e
  left_judge gone =
      let p = judge_left s f c now self e fits past peer on gone in
      let q = judge_left s f c later self e fits (omega arith) peer on gone in
      elim (Bool-cases (leb c (now - e.last_update))) [
        | inl a ↦ rw (p, a, q) (ground arith)
        | inr a ↦ rw (p, a, beat_peer self later e peer)
      ]

  -- A scan that came in between does not matter.
  pub judge-judge :
      judged later (of_nanos s f c) self (judge now (of_nanos s f c) self e)
      ≡ judge later (of_nanos s f c) self e
  judge-judge = elim (Bool-cases (is_left e.state)) [
    | inl gone ↦ left_judge gone
    | inr there ↦ Aged-judge _ there (judge-Aged s f c now self e fits past peer on there)
  ]

judge-id :
    (now : Time) (l : Limits) (self : NodeId) (e r : MemberEntry)
    → judge now l self e ≡ some r
    → (r.id ≡ e.id) × (is_left r.state ≡ true → r.state ≡ e.state)
unfolding judge
judge-id now l self e r h = ground arith

not_left :
    (e x : MemberEntry)
    → (is_left e.state ≡ true → e.state ≡ x.state)
    → is_left x.state ≡ false
    → is_left e.state ≡ false
not_left e x was there = elim (Bool-cases (is_left e.state)) [
  | inl gone ↦ absurd (ground (arith, ap is_left (was gone)))
  | inr fine ↦ fine
]

was_left :
    (self : NodeId) (now : Time) (x e : MemberEntry)
    → (is_left e.state ≡ true → e.state ≡ (beat self now x).state)
    → is_left e.state ≡ true
    → e.state ≡ x.state
was_left self now x e h gone = h gone ∙ beat-state self now x

-- The own row that a scan left is treated by the next scan like the row before.
own_twice :
    (l : Limits) (now later : Time) (self : NodeId) (e : MemberEntry)
    → e.id ≡ self
    → is_left e.state ≡ false
    → judge later l self (beat self later (record e { last_update = now }))
      ≡ judge later l self (beat self later e)
own_twice l now later self e mine there =
    judge_own l later self (record e { last_update = now }) mine there
    ∙ sym (judge_own l later self e mine there)

-- A scan does not make the node leave.
scan-HasNotLeft :
    (now : Time) (l : Limits) (p q : Progress)
    → HasNotLeft p.st
    → q.st.self_id ≡ p.st.self_id
    → ((k : Text) → row k q.st ≡ judged now l p.st.self_id (row k p.st))
    → HasNotLeft q.st
scan-HasNotLeft now l p q h same rows e found mine =
    let self = p.st.self_id in
    let here = sym (rows (key self)) ∙ subst (λ i. row (key i) q.st ≡ some e) same found in
    elim (Option-cases (row (key self) p.st)) [
      | inl missing ↦ cc (here, ap (judged now l self) missing)
      | inr (x, hx) ↦
          let (kept, was) =
            judge-id now l self (beat self now x) e (sym (ap (judged now l self) hx) ∙ here) in
          not_left e x (was_left self now x e was)
            (h x hx (sym (beat-id self now x) ∙ sym kept ∙ mine ∙ same))
    ]

judged-judged :
    (s f c now later : ℕ) (k : Text) (st : Store)
    → IsWf st
    → HasNotLeft st
    → 0 < s
    → s + f + c < i64_end
    → now ≤ later
    → ((e : MemberEntry) → row k st ≡ some e → e.last_update ≤ now)
    → judged later (of_nanos s f c) st.self_id (judged now (of_nanos s f c) st.self_id (row k st))
      ≡ judged later (of_nanos s f c) st.self_id (row k st)
judged-judged s f c now later k st w h on fits order past = elim (Option-cases (row k st)) [
  | inl missing ↦ rw missing
  | inr (e, found) ↦ elim (NodeId-discrete e.id st.self_id) [
    | yes mine ↦
        let there =
          h e (subst (λ x. row x st ≡ some e) (row-key k e st w found ∙ ap key mine) found) mine in
        rw (found, judge_own (of_nanos s f c) now st.self_id e mine there)
          (own_twice (of_nanos s f c) now later st.self_id e mine there)
    | no peer ↦
        rw (found, beat_peer st.self_id now e peer, beat_peer st.self_id later e peer)
          (judge-judge s f c now later st.self_id e on fits (past e found) order peer)
  ]
]

-- With suspicion enabled and thresholds whose sum an int64 holds, on a node that has not left, with a
-- well-formed table, what a scan leaves of a row that does not come from the future does not depend
-- on whether there was another scan before: a node that scans late catches up with one that scanned
-- all the time.
pub scan_once-scan_once :
    (s f c now later : ℕ) (k : Text) (p : Progress)
    → IsWf p.st
    → HasNotLeft p.st
    → 0 < s
    → s + f + c < i64_end
    → now ≤ later
    → ((e : MemberEntry) → row k p.st ≡ some e → e.last_update ≤ now)
    → (q twice once : Progress) × (scan_once now (of_nanos s f c) p ≡ some q)
      × (scan_once later (of_nanos s f c) q ≡ some twice)
      × (scan_once later (of_nanos s f c) p ≡ some once)
      × (row k twice.st ≡ row k once.st)
scan_once-scan_once s f c now later k p w h on fits order past =
    let l = of_nanos s f c in
    let (q, ran, rows, kept) = scan_once-rows now l p w h in
    let h' = scan-HasNotLeft now l p q h kept.same_self rows in
    let (twice, ran', rows', kept') = scan_once-rows later l q kept.wf h' in
    let (once, ran_once, rows_once, kept_once) = scan_once-rows later l p w h in
    (
      q,
      twice,
      once,
      ran,
      ran',
      ran_once,
      rows' k
          ∙ rw (kept.same_self, rows k)
              (judged-judged s f c now later k p.st w h on fits order past)
          ∙ sym (rows_once k),
    )
