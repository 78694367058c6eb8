-- ===== src/Suspicion/Silence.antt =====
-- What the thresholds of src/pkg/suspicion/manager.go mean for a peer that has been silent.
use failure_detector.Prelude.{
  ℕ, ◌+◌, ◌-◌, ◌≤◌, ◌<◌, ◌≡◌, ◌≢◌, true, false, Option, none, some, arith, leb, inl, inr,
  Bool-cases, if◌then◌else◌,
}
use failure_detector.Prelude.Int.{pos, add_i64, add_i64-pos, i64_end}
use failure_detector.Go.Text.{Text}
use failure_detector.Go.Clock.{Time, since}
use failure_detector.Node.{NodeId}
use failure_detector.Store.{State, MemberEntry, alive, suspect, failed, key, row, is_left, beat}
use failure_detector.Store.Invariant.{IsWf}
use failure_detector.Suspicion.{Limits, Progress, scan_once, reached}
use failure_detector.Suspicion.Judge.{judge}
use failure_detector.Suspicion.Refinement.{HasNotLeft, scan_once-rows}

-- The limits in nanoseconds, with a sum that an int64 holds.
abbrev pub of_nanos : ℕ → ℕ → ℕ → Limits
of_nanos s f c = record { t_suspect = pos s; t_fail = pos f; t_cleanup = pos c }

-- Where a silent row stands with suspicion enabled: an alive row becomes suspect, an alive or
-- suspect row becomes failed, and any row goes in the end.
abbrev pub when_suspected : State → State
when_suspected alive = suspect
when_suspected st = st

abbrev pub when_failed : State → State
when_failed alive = failed
when_failed suspect = failed
when_failed st = st

-- The row `r` after `silence` nanoseconds without news, by the three thresholds.
pub data Aged (s f c silence : ℕ) (e : MemberEntry) (r : Option MemberEntry) : Type 0 where
  fresh : silence < s → r ≡ some e → Aged s f c silence e r
  suspected :
      s ≤ silence
      → silence < s + f
      → r ≡ some (record e { state = when_suspected e.state })
      → Aged s f c silence e r
  given_up :
      s + f ≤ silence
      → silence < s + f + c
      → r ≡ some (record e { state = when_failed e.state })
      → Aged s f c silence e r
  deleted : s + f + c ≤ silence → r ≡ none → Aged s f c silence e r

module _ (s f c now : ℕ) (self : NodeId) (e : MemberEntry) (fits : s + f + c < i64_end)
    (past : e.last_update ≤ now) (peer : e.id ≢ self) where
  pub sum_sf : add_i64 (pos s) (pos f) ≡ pos (s + f)
  sum_sf = add_i64-pos s f (omega arith)

  pub sum_sfc : add_i64 (add_i64 (pos s) (pos f)) (pos c) ≡ pos (s + f + c)
  sum_sfc = rw sum_sf (add_i64-pos (s + f) c fits)

  pub age_lem :
      (limit : ℕ)
      → limit < i64_end
      → reached (since now e.last_update) (pos limit) ≡ leb limit (now - e.last_update)
  unfolding since
  age_lem limit h = ground arith

  pub judge-Aged :
      0 < s
      → is_left e.state ≡ false
      → Aged s f c (now - e.last_update) e (judge now (of_nanos s f c) self e)
  unfolding judge
  judge-Aged on there = elim (Bool-cases (leb s (now - e.last_update))) [
    | inr a ↦ fresh (ground arith) (
        ground (
          arith,
          sum_sf,
          sum_sfc,
          age_lem s (omega arith),
          age_lem (s + f) (omega arith),
          age_lem (s + f + c) fits,
        ))
    | inl a ↦ elim (Bool-cases (leb (s + f) (now - e.last_update))) [
      | inr b ↦ suspected (ground arith) (ground arith) (
          ground (
            arith,
            sum_sf,
            sum_sfc,
            age_lem s (omega arith),
            age_lem (s + f) (omega arith),
            age_lem (s + f + c) fits,
          ))
      | inl b ↦ elim (Bool-cases (leb (s + f + c) (now - e.last_update))) [
        | inr d ↦ given_up (ground arith) (ground arith) (
            ground (
              arith,
              sum_sf,
              sum_sfc,
              age_lem s (omega arith),
              age_lem (s + f) (omega arith),
              age_lem (s + f + c) fits,
            ))
        | inl d ↦ deleted (ground arith) (
            ground (
              arith,
              sum_sf,
              sum_sfc,
              age_lem s (omega arith),
              age_lem (s + f) (omega arith),
              age_lem (s + f + c) fits,
            ))
      ]
    ]
  ]

  -- A row in state Left stays as it is until the cleanup time, and then goes.
  pub judge_left :
      0 < s
      → is_left e.state ≡ true
      → judge now (of_nanos s f c) self e ≡ (if leb c (now - e.last_update) then none else some e)
  unfolding judge
  judge_left on there = ground (
    arith,
    sum_sf,
    sum_sfc,
    age_lem c (omega arith),
    age_lem s (omega arith),
    age_lem (s + f) (omega arith),
    age_lem (s + f + c) fits,
  )

  pub judge_total :
      0 < s → s + f + c ≤ now - e.last_update → judge now (of_nanos s f c) self e ≡ none
  unfolding judge
  judge_total on h =
      ground (arith, sum_sf, sum_sfc, age_lem c (omega arith), age_lem (s + f + c) fits)

  -- The state that a scan wrote earlier makes no difference to a later scan.
  pub judge_suspected :
      0 < s
      → is_left e.state ≡ false
      → s ≤ now - e.last_update
      → judge now (of_nanos s f c) self (record e { state = when_suspected e.state })
        ≡ judge now (of_nanos s f c) self e
  unfolding judge
  judge_suspected on there h = ground (
    arith,
    sum_sf,
    sum_sfc,
    age_lem s (omega arith),
    age_lem (s + f) (omega arith),
    age_lem (s + f + c) fits,
  )

  pub judge_given_up :
      0 < s
      → is_left e.state ≡ false
      → s + f ≤ now - e.last_update
      → judge now (of_nanos s f c) self (record e { state = when_failed e.state })
        ≡ judge now (of_nanos s f c) self e
  unfolding judge
  judge_given_up on there h = ground (
    arith,
    sum_sf,
    sum_sfc,
    age_lem s (omega arith),
    age_lem (s + f) (omega arith),
    age_lem (s + f + c) fits,
  )

pub beat_peer : (self : NodeId) (now : Time) (e : MemberEntry) → e.id ≢ self → beat self now e ≡ e
beat_peer self now e n = ground (arith, n)

-- With suspicion enabled and thresholds whose sum an int64 holds, a scan of a node that has not left,
-- with a well-formed table, leaves the row of a peer that has not left, and whose heartbeat does not
-- come from the future, exactly where its silence belongs: unchanged below the suspicion time, then
-- suspected, then failed for the failure time, and deleted when the three times have passed.
pub scan_ages :
    (s f c : ℕ) (now : Time) (k : Text) (e : MemberEntry) (p : Progress)
    → IsWf p.st
    → HasNotLeft p.st
    → row k p.st ≡ some e
    → e.id ≢ p.st.self_id
    → is_left e.state ≡ false
    → 0 < s
    → s + f + c < i64_end
    → e.last_update ≤ now
    → (q : Progress) × (scan_once now (of_nanos s f c) p ≡ some q)
      × Aged s f c (now - e.last_update) e (row k q.st)
scan_ages s f c now k e p w h found peer there on fits past =
    let (q, ran, rows, kept) = scan_once-rows now (of_nanos s f c) p w h in
    let aged = judge-Aged s f c now p.st.self_id e fits past peer on there in
    (q, ran, rw (rows k, found, beat_peer p.st.self_id now e peer) aged)

pub judge_own :
    (l : Limits) (now : Time) (self : NodeId) (e : MemberEntry)
    → e.id ≡ self
    → is_left e.state ≡ false
    → judge now l self (beat self now e) ≡ some (record e { last_update = now })
unfolding judge
judge_own l now self e mine there = ground (arith, mine, there)

-- A scan of a node that has not left keeps its own row, with the heartbeat of now, whatever the
-- thresholds are.
pub scan_keeps_self :
    (l : Limits) (now : Time) (e : MemberEntry) (p : Progress)
    → IsWf p.st
    → HasNotLeft p.st
    → row (key p.st.self_id) p.st ≡ some e
    → e.id ≡ p.st.self_id
    → (q : Progress) × (scan_once now l p ≡ some q)
      × (row (key p.st.self_id) q.st ≡ some (record e { last_update = now }))
scan_keeps_self l now e p w h found mine =
    let (q, ran, rows, kept) = scan_once-rows now l p w h in
    (
      q,
      ran,
      rw (rows (key p.st.self_id), found) (judge_own l now p.st.self_id e mine (h e found mine)),
    )
