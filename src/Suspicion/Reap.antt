-- ===== src/Suspicion/Reap.antt =====
-- reapInflight of src/pkg/suspicion/manager.go as a function of each row: the rows of the addresses
-- that were pinged in vain are marked, whatever their states.
use mathlib.Core.Option
use failure_detector.Prelude.{◌≡◌, Bool, true, false, ◌||◌, List, [], ◌∷◌, Option, holds}
use failure_detector.Prelude.Map.{lookup}
use failure_detector.Go.Text.{Text, text_discrete}
use failure_detector.Go.Clock.{Time}
use failure_detector.Node.{NodeId}
use failure_detector.Store.{State, MemberEntry, Store, suspect, failed, row, beat}
use failure_detector.Inflight.{Inflight, ExpiredRec}
use failure_detector.Suspicion.{Progress, mark_suspect, mark_failed}

-- The state that a missing ACK gives a row: failed if suspicion is disabled, or else suspect.
abbrev pub blame : Bool → State
blame true = failed
blame false = suspect

abbrev pub blamed : Bool → MemberEntry → MemberEntry
blamed disabled e = record e { state = blame disabled }

-- Some ping to the address `k` is among the expired ones.
abbrev pub hits : Text → List ExpiredRec → Bool
hits k [] = false
hits k (r ∷ rs) = holds (text_discrete r.addr k) || hits k rs

abbrev pub cell : Bool → Bool → Option MemberEntry → Option MemberEntry
cell disabled true o = Option.map (blamed disabled) o
cell disabled false o = o

abbrev mark : Time → Bool → MemberEntry → Progress → Progress
mark now true e p = mark_failed now e p
mark now false e p = mark_suspect now e p

-- Every row is that of the snapshot, blamed if its key is in `b`.
abbrev Shown : Bool → List (Text × MemberEntry) → (Text → Bool) → Store → Type 0
Shown disabled m b s = (k : Text) → row k s ≡ cell disabled (b k) (lookup text_discrete k m)

-- The row that reapInflight finds: its snapshot is taken only if some ping has expired.
abbrev pub found_row : Time → NodeId → List ExpiredRec → Option MemberEntry → Option MemberEntry
found_row now self [] o = o
found_row now self (r ∷ rs) o = Option.map (beat self now) o
