-- ===== src/Suspicion/Disabled.antt =====
-- What a scan of src/pkg/suspicion/manager.go does while suspicion is switched off.
use failure_detector.Prelude.{
  ℕ, ◌+◌, ◌-◌, ◌≤◌, ◌<◌, ◌≡◌, ◌≢◌, true, false, Option, none, some, arith, leb, inl, inr,
  Bool-cases,
}
use failure_detector.Prelude.Int.{add_i64-pos, i64_end}
use failure_detector.Go.Text.{Text}
use failure_detector.Go.Clock.{Time}
use failure_detector.Node.{NodeId}
use failure_detector.Store.{MemberEntry, failed, row, is_left}
use failure_detector.Store.Invariant.{IsWf}
use failure_detector.Suspicion.{Progress, scan_once}
use failure_detector.Suspicion.Judge.{judge}
use failure_detector.Suspicion.Refinement.{HasNotLeft, scan_once-rows}
use failure_detector.Suspicion.Silence.{of_nanos, age_lem, beat_peer}

-- The row of a peer after `silence` nanoseconds without news, when nobody is suspected.
pub data AgedPlain (f c silence : ℕ) (e : MemberEntry) (r : Option MemberEntry) : Type 0 where
  fresh : silence < f → r ≡ some e → AgedPlain f c silence e r
  given_up :
      f ≤ silence
      → silence < f + c
      → r ≡ some (record e { state = failed })
      → AgedPlain f c silence e r
  deleted : f + c ≤ silence → r ≡ none → AgedPlain f c silence e r

module _ (f c now : ℕ) (self : NodeId) (e : MemberEntry) (fits : f + c < i64_end)
    (past : e.last_update ≤ now) (peer : e.id ≢ self) where
  fits_plain : 0 + f + c < i64_end
  fits_plain = omega arith

  judge_fresh :
      is_left e.state ≡ false → now - e.last_update < f → judge now (of_nanos 0 f c) self e ≡ some e
  unfolding judge
  judge_fresh there h = ground (
    arith,
    add_i64-pos f c fits,
    age_lem 0 f c now self e fits_plain past peer f (omega arith),
    age_lem 0 f c now self e fits_plain past peer (f + c) fits,
  )

  judge_failed :
      f ≤ now - e.last_update
      → now - e.last_update < f + c
      → (is_left e.state ≡ true → now - e.last_update < c)
      → judge now (of_nanos 0 f c) self e ≡ some (record e { state = failed })
  unfolding judge
  judge_failed h k left = elim (Bool-cases (is_left e.state)) [
    | inl gone ↦
        let low = left gone in
        ground (
          arith,
          add_i64-pos f c fits,
          age_lem 0 f c now self e fits_plain past peer f (omega arith),
          age_lem 0 f c now self e fits_plain past peer c (omega arith),
          age_lem 0 f c now self e fits_plain past peer (f + c) fits,
        )
    | inr there ↦ ground (
      arith,
      add_i64-pos f c fits,
      age_lem 0 f c now self e fits_plain past peer f (omega arith),
      age_lem 0 f c now self e fits_plain past peer (f + c) fits,
    )
  ]

  judge_deleted : f + c ≤ now - e.last_update → judge now (of_nanos 0 f c) self e ≡ none
  unfolding judge
  judge_deleted h = ground (
    arith,
    add_i64-pos f c fits,
    age_lem 0 f c now self e fits_plain past peer (f + c) fits,
    age_lem 0 f c now self e fits_plain past peer c (omega arith),
  )

  judge-AgedPlain :
      is_left e.state ≡ false
      → AgedPlain f c (now - e.last_update) e (judge now (of_nanos 0 f c) self e)
  judge-AgedPlain there = elim (Bool-cases (leb f (now - e.last_update))) [
    | inr a ↦ fresh (ground arith) (judge_fresh there (ground arith))
    | inl a ↦ elim (Bool-cases (leb (f + c) (now - e.last_update))) [
      | inr b ↦
          given_up (ground arith) (ground arith)
            (judge_failed (ground arith) (ground arith) (λ gone. absurd (ground arith)))
      | inl b ↦ deleted (ground arith) (judge_deleted (ground arith))
    ]
  ]

-- With suspicion disabled and a failure time and a cleanup time whose sum an int64 holds, a scan of a
-- node that has not left, with a well-formed table, fails the row of a peer that has not left, and
-- whose heartbeat does not come from the future, after the failure time, and deletes it after the
-- cleanup time on top of that.
pub scan_ages_plain :
    (f c : ℕ) (now : Time) (k : Text) (e : MemberEntry) (p : Progress)
    → IsWf p.st
    → HasNotLeft p.st
    → row k p.st ≡ some e
    → e.id ≢ p.st.self_id
    → is_left e.state ≡ false
    → f + c < i64_end
    → e.last_update ≤ now
    → (q : Progress) × (scan_once now (of_nanos 0 f c) p ≡ some q)
      × AgedPlain f c (now - e.last_update) e (row k q.st)
scan_ages_plain f c now k e p w h found peer there fits past =
    let (q, ran, rows, kept) = scan_once-rows now (of_nanos 0 f c) p w h in
    let aged = judge-AgedPlain f c now p.st.self_id e fits past peer there in
    (q, ran, rw (rows k, found, beat_peer p.st.self_id now e peer) aged)

-- With suspicion disabled, the row of a peer that has left becomes Failed as soon as the failure time
-- has passed, if that is before the cleanup time: Left is not a final state.
pub scan_fails_left :
    (f c : ℕ) (now : Time) (k : Text) (e : MemberEntry) (p : Progress)
    → IsWf p.st
    → HasNotLeft p.st
    → row k p.st ≡ some e
    → e.id ≢ p.st.self_id
    → is_left e.state ≡ true
    → f + c < i64_end
    → e.last_update + f ≤ now
    → now < e.last_update + c
    → (q : Progress) × (scan_once now (of_nanos 0 f c) p ≡ some q)
      × (row k q.st ≡ some (record e { state = failed }))
scan_fails_left f c now k e p w h found peer gone fits high low =
    let (q, ran, rows, kept) = scan_once-rows now (of_nanos 0 f c) p w h in
    let failed_now =
      judge_failed f c now p.st.self_id e fits (omega arith) peer (omega arith) (omega arith)
        (λ _. omega arith) in
    (q, ran, rw (rows k, found, beat_peer p.st.self_id now e peer) failed_now)
