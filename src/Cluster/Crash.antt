-- ===== src/Cluster/Crash.antt =====
-- In a cluster, while a node is silent, no table and no message gets a later heartbeat of it.
use mathlib.Core.Logic.{if_pos, if_neg}
use mathlib.Core.Option.{some-injective}
use failure_detector.Prelude.{ℕ, ◌≤◌, ◌≡◌, ◌≢◌, sym, ◌∙◌, ap, List, [], ◌∷◌, some, All, All-get}
use failure_detector.Go.Text.{Text}
use failure_detector.Go.Clock.{Time}
use failure_detector.Node.{NodeId}
use failure_detector.Store.{MemberEntry, Store, key, row, snapshot, merge_full_list}
use failure_detector.Store.Others.{sent_P}
use failure_detector.Suspicion.{Limits, Progress, scan_once, scan_row}
use failure_detector.Cluster.Late.{late_P}
use failure_detector.Suspicion.Refinement.{scan_once-rows}
use failure_detector.Cluster.{Cluster, Step, sends, receives, scans, judges, set_store}
use failure_detector.Cluster.Nodes.{IsSound, IsUp-HasNotLeft}
use failure_detector.Cluster.Genuine.{Genuine, Genuine-there}
use failure_detector.Cluster.Safety.{IsSafe, Step-IsSafe, rows-Genuine, incs}
use failure_detector.Cluster.Quiet.{Quiet, Rows, merge-Rows, snapshot-Rows, judged-Quiet}

All-both {ℓ} :
    {A : Type ℓ} (P Q R : A → Type 0)
    → ((a : A) → P a → Q a → R a)
    → (l : List A) → All P l
    → All Q l
    → All R l
All-both P Q R f [] p q = tt
All-both P Q R f (a ∷ l) p q = (f a p.0 q.0, All-both P Q R f l p.1 q.1)

module _ {I : Type 0} (dec : Discrete I) where
  -- The node that takes a step.
  unfoldable pub actor : {c d : Cluster dec} → Step dec c d → I
  actor (sends i now q) = i
  actor (receives i now k l found fits q) = i
  actor (scans i now limits marks p ran q) = i
  actor (judges i now limits marks k n l e found at q) = i

  -- Steps in which `x` takes no part.
  pub data Without (x : I) (c : Cluster dec) : Cluster dec → Type 0 where
    stays : Without x c c
    then_ : {d e : Cluster dec} → Without x c d → (st : Step dec d e) → actor st ≢ x → Without x c e

  -- No other table and no message shows a heartbeat of `x` after `t`.
  module _ (who : I → NodeId) (x : I) (t : Time) where
    abbrev pub Heard : MemberEntry → Type 0
    Heard e = e.id ≡ who x → e.last_update ≤ t

    pub record IsSilent (c : Cluster dec) : Type 0 where
      pub tables :
          (j : I) → j ≢ x → (k : Text) (e : MemberEntry) → row k (c.store j) ≡ some e → Heard e
      pub wire : All (All Heard) c.wire

  module _ (who : I → NodeId) (x : I) (t : Time) where
    module _ (distinct : (i j : I) → key (who i) ≡ key (who j) → i ≡ j) where
      abbrev pub QuietRows : Store → Type 0
      QuietRows = Rows who distinct x t

      abbrev pub QuietEntry : MemberEntry → Type 0
      QuietEntry = Quiet who distinct x t

      pub record IsQuiet (c : Cluster dec) : Type 0 where
        pub tables : (j : I) → j ≢ x → QuietRows (c.store j)
        pub wire : All (All QuietEntry) c.wire

      Heard-Quiet :
          (inc : I → ℕ) (e : MemberEntry) → Genuine who inc e → Heard who x t e → QuietEntry e
      Heard-Quiet inc e (i, about, low, says) h = record {
        i = i;
        about = about;
        early = λ p. h (about ∙ ap who p);
      }

      -- One node other than `x` moves.
      module _ (c : Cluster dec) (quiet : IsQuiet c) (i : I) (s : Store) (rows : QuietRows s) where
        moved_tables : (j : I) → j ≢ x → QuietRows ((set_store dec i s c).store j)
        moved_tables j other = elim (dec i j) [
          | yes q ↦ rw (if_pos (dec i j) q s (c.store j)) rows
          | no n ↦ rw (if_neg (dec i j) n s (c.store j)) (quiet.tables j other)
        ]

        moved-IsQuiet : IsQuiet (set_store dec i s c)
        moved-IsQuiet = record { tables = moved_tables; wire = quiet.wire }

      scanned-Rows :
          (j : I)
          → j ≢ x
          → {inc : ℕ} {P : MemberEntry → Type 0} (now : Time) (l : Limits) (p q : Progress)
          → IsSound P (who j) inc p.st
          → scan_once now l p ≡ some q
          → QuietRows p.st
          → QuietRows q.st
      scanned-Rows j other {inc} {P} now l p q sound ran rows k e h =
          let (q', ran', verdicts, kept) =
            scan_once-rows now l p sound.wf (IsUp-HasNotLeft inc p.st sound.up) in
          judged-Quiet who distinct x t j other now l p.st.self_id (row k p.st) e sound.same_self
            (rows k)
            (sym (verdicts k) ∙ ap (λ y. row k y.st) (some-injective q' q (sym ran' ∙ ran)) ∙ h)

      Step-IsQuiet :
          (c d : Cluster dec) (st : Step dec c d)
          → actor st ≢ x
          → IsSafe dec who c
          → IsQuiet c
          → IsQuiet d
      unfolding actor
      Step-IsQuiet c d (sends i now q) other safe quiet =
          let sound = safe.sound i in
          let rows =
            snapshot-Rows who distinct x t i other now (c.store i) sound.same_self
              (quiet.tables i other) in
          rw q (record {
            tables = (moved-IsQuiet c quiet i (snapshot now (c.store i)).1 rows).tables;
            wire = (sent_P QuietEntry now (c.store i) sound.wf rows, quiet.wire);
          })
      Step-IsQuiet c d (receives i now k l found fits q) other safe quiet =
          let sound = safe.sound i in
          let told = All-get (All QuietEntry) c.wire k l quiet.wire found in
          rw q (
            moved-IsQuiet c quiet i (merge_full_list now l (c.store i)) (
              merge-Rows who distinct x t i other now l (c.store i) sound.wf sound.same_self told
                (quiet.tables i other)))
      Step-IsQuiet c d (scans i now limits marks p ran q) other safe quiet =
          let sound = safe.sound i in
          rw q (
            moved-IsQuiet c quiet i p.st (
              scanned-Rows i other now limits (record { st = c.store i; fail_marks = marks }) p
                sound ran (quiet.tables i other)))
      Step-IsQuiet c d (judges i now limits marks k n l e found at q) other safe quiet =
          let p : Progress = record { st = c.store i; fail_marks = marks } in
          let genuine = All (Genuine who (incs dec who c)) in
          let g = All-get _ l n e (All-get genuine c.wire k l safe.wire found) at in
          rw q (
            moved-IsQuiet c quiet i (scan_row now limits e p).st (λ j y.
              late_P now limits e p QuietEntry (safe.sound i).wf
                (Genuine-there who (incs dec who c) e g)
                (λ x' h qx. (
                  record { i = qx.i; about = qx.about; early = qx.early },
                  record { i = qx.i; about = qx.about; early = qx.early },
                ))
                j y (quiet.tables i other j)))

      pub Without-IsQuiet :
          {c d : Cluster dec}
          → Without x c d
          → IsSafe dec who c
          → IsQuiet c
          → IsSafe dec who d × IsQuiet d
      Without-IsQuiet stays safe quiet = (safe, quiet)
      Without-IsQuiet (then_ {d} {e} r st other) safe quiet =
          let (safe', quiet') = Without-IsQuiet r safe quiet in
          (Step-IsSafe dec who d e st safe', Step-IsQuiet d e st other safe' quiet')

  -- What the nodes hold when `x` falls silent.
  pub start-IsQuiet :
      (who : I → NodeId) (x : I) (t : Time) (c : Cluster dec) (safe : IsSafe dec who c)
      → IsSilent who x t c
      → IsQuiet who x t safe.distinct c
  start-IsQuiet who x t c safe silent =
      let quiet = Heard-Quiet who x t safe.distinct (incs dec who c) in
      record {
        tables = λ j other k e h.
            quiet e (rows-Genuine dec who c safe j k e h) (silent.tables j other k e h);
        wire = All-both _ _ _ (All-both _ _ _ quiet) c.wire safe.wire silent.wire;
      }
