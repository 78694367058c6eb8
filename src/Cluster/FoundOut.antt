-- ===== src/Cluster/FoundOut.antt =====
-- In a cluster, a node that has crashed is found out by every other node.
use failure_detector.Prelude.{
  ℕ, ◌+◌, ◌-◌, ◌≤◌, ◌<◌, ◌≡◌, ◌≢◌, refl, sym, ◌∙◌, ap, subst, inl, inr, Option, none, some, arith,
  Option-cases, true, false, ◌⊎◌,
}
use failure_detector.Prelude.Int.{ℤ, i64_end}
use failure_detector.Go.Clock.{Time}
use failure_detector.Node.{NodeId}
use failure_detector.Store.{MemberEntry, State, failed, alive, accuses, is_left, key, row}
use failure_detector.Store.Invariant.{IsWf, row-key}
use failure_detector.Suspicion.{Progress, scan_once}
use failure_detector.Suspicion.Silence.{
  of_nanos, Aged, fresh, suspected, given_up, deleted, when_suspected, when_failed, scan_ages,
}
use failure_detector.Suspicion.Refinement.{HasNotLeft, judged, scan_once-rows}
use failure_detector.Cluster.{Cluster, Reach, Starts}
use failure_detector.Cluster.Nodes.{IsUp-HasNotLeft}
use failure_detector.Cluster.Safety.{IsSafe, Reach-IsSafe, Starts-IsSafe, rows-Genuine}
use failure_detector.Cluster.Crash.{Without, IsSilent, IsQuiet, Without-IsQuiet, start-IsQuiet}

-- What a scan at `now` leaves of a node that was not heard of after `t`: a row that is suspect or
-- failed until the three times have passed, and failed when the first two have.
pub data FoundOut (s f g t now : ℕ) (r : Option MemberEntry) : Type 0 where
  gone : r ≡ none → FoundOut s f g t now r
  accused :
      (y : MemberEntry)
      → r ≡ some y
      → accuses y.state ≡ true
      → now < t + (s + f + g)
      → (y.state ≡ failed) ⊎ (now < t + (s + f))
      → FoundOut s f g t now r

suspected_accuses :
    (st : State) → (st ≡ alive) ⊎ (accuses st ≡ true) → accuses (when_suspected st) ≡ true
suspected_accuses st h = ground arith

failed_accuses : (st : State) → (st ≡ alive) ⊎ (accuses st ≡ true) → when_failed st ≡ failed
failed_accuses st h = ground arith

still_there : (st : State) → (st ≡ alive) ⊎ (accuses st ≡ true) → is_left st ≡ false
still_there st h = ground arith

Aged-FoundOut :
    (s f g t now : ℕ) (e : MemberEntry) (r : Option MemberEntry)
    → e.last_update ≤ t
    → t + s ≤ now
    → (e.state ≡ alive) ⊎ (accuses e.state ≡ true)
    → Aged s f g (now - e.last_update) e r
    → FoundOut s f g t now r
Aged-FoundOut s f g t now e r early late says (fresh h p) = absurd (omega arith)
Aged-FoundOut s f g t now e r early late says (suspected h h' p) =
    accused (record e { state = when_suspected e.state }) p (suspected_accuses e.state says)
      (omega arith) (inr (omega arith))
Aged-FoundOut s f g t now e r early late says (given_up h h' p) =
    accused (record e { state = when_failed e.state }) p (rw (failed_accuses e.state says) refl)
      (omega arith) (inl (failed_accuses e.state says))
Aged-FoundOut s f g t now e r early late says (deleted h p) = gone p

module _ {I : Type 0} (dec : Discrete I) (who : I → NodeId) (x : I) (t : Time) (e : Cluster dec)
    (distinct : (i j : I) → key (who i) ≡ key (who j) → i ≡ j) where
  -- A row of the silent node.
  row_found_out :
      (s f g : ℕ) (now : Time) (j : I) (y : MemberEntry) (p : Progress)
      → IsSafe dec who e
      → p.st ≡ e.store j
      → IsQuiet dec who x t distinct e
      → j ≢ x
      → row (key (who x)) (e.store j) ≡ some y
      → 0 < s
      → s + f + g < i64_end
      → t + s ≤ now
      → (q : Progress) × (scan_once now (of_nanos s f g) p ≡ some q)
        × FoundOut s f g t now (row (key (who x)) q.st)
  row_found_out s f g now j y p safe at quiet other found on fits late =
      let sound = safe.sound j in
      let known = quiet.tables j other (key (who x)) y found in
      let (i, about, low, says) = rows-Genuine dec who e safe j (key (who x)) y found in
      let same : known.i ≡ x =
        distinct known.i x
          (ap key (sym known.about) ∙ sym (row-key (key (who x)) y (e.store j) sound.wf found)) in
      let early = known.early same in
      let peer : y.id ≢ p.st.self_id = λ mine. other (
        distinct j x (
          ap key (
            sym sound.same_self
            ∙ ap (λ st. st.self_id) (sym at)
            ∙ sym mine
            ∙ known.about
            ∙ ap who same))) in
      let (q, ran, aged) =
        scan_ages s f g now (key (who x)) y p (subst IsWf (sym at) sound.wf)
          (subst HasNotLeft (sym at) (IsUp-HasNotLeft _ (e.store j) sound.up))
          (ap (row (key (who x))) at ∙ found) peer (still_there y.state says) on fits
          (omega arith) in
      (q, ran, Aged-FoundOut s f g t now y (row (key (who x)) q.st) early late says aged)

  scan_finds :
      IsSafe dec who e
      → IsQuiet dec who x t distinct e
      → (j : I) → j ≢ x
      → (s f g : ℕ) (now : Time) (marks : ℤ) → 0 < s
      → s + f + g < i64_end
      → t + s ≤ now
      → (q : Progress) × (scan_once now
            (of_nanos s f g)
            (record { st = e.store j; fail_marks = marks })
          ≡ some q)
        × FoundOut s f g t now (row (key (who x)) q.st)
  scan_finds safe quiet j other s f g now marks on fits late =
      let p : Progress = record { st = e.store j; fail_marks = marks } in
      let sound = safe.sound j in
      elim (Option-cases (row (key (who x)) (e.store j))) [
        | inl none_ ↦
            let (q, ran, rows, kept) =
              scan_once-rows now (of_nanos s f g) p sound.wf
                (IsUp-HasNotLeft _ (e.store j) sound.up) in
            (
              q,
              ran,
              gone
                  (rows (key (who x)) ∙ ap (judged now (of_nanos s f g) (e.store j).self_id) none_),
            )
        | inr (y, found) ↦ row_found_out s f g now j y p safe refl quiet other found on fits late
      ]

-- In a cluster of new nodes with distinct endpoints and suspicion enabled that do not leave, whatever
-- messages are lost, delayed, repeated or reordered and with incarnations far from the end of uint64,
-- a node falls silent: it takes no further step, and no other table and no message shows a heartbeat
-- of it after a time `t`. Then whatever steps the other nodes take, an undisturbed scan of any of
-- them, with suspicion enabled and thresholds whose sum an int64 holds, goes through, and when the suspicion time
-- has passed since `t`, it leaves of the silent node no row, or one that is suspect or failed: failed
-- when the failure time has passed as well, and none when the cleanup time has passed too.
pub crashed_is_found_out :
    {I : Type 0} (dec : Discrete I) (c d e : Cluster dec) (b : Starts dec c)
    → Reach dec c d
    → (x j : I) (t : Time) → IsSilent dec b.id x t d
    → Without dec x d e
    → j ≢ x
    → (s f g : ℕ) (now : Time) (marks : ℤ) → 0 < s
    → s + f + g < i64_end
    → t + s ≤ now
    → (q : Progress) × (scan_once now
          (of_nanos s f g)
          (record { st = e.store j; fail_marks = marks })
        ≡ some q)
      × FoundOut s f g t now (row (key (b.id x)) q.st)
crashed_is_found_out dec c d e b r x j t silent without other s f g now marks on fits late =
    let safe = Reach-IsSafe dec b.id (Starts-IsSafe dec c b) r in
    let (safe', quiet) =
      Without-IsQuiet dec b.id x t safe.distinct without safe
        (start-IsQuiet dec b.id x t d safe silent) in
    scan_finds dec b.id x t e safe.distinct safe' quiet j other s f g now marks on fits late
