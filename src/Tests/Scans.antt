-- ===== src/Tests/Scans.antt =====
-- src/pkg/suspicion/manager.go at small tables.
use failure_detector.Prelude.{◌≤◌, ◌≡◌, ◌≢◌, refl, [], ◌∷◌, some, arith}
use failure_detector.Prelude.Int.{pos}
use failure_detector.Prelude.Map.{lookup, insert}
use failure_detector.Go.Text.{Text, text_discrete, decimal}
use failure_detector.Go.Netip.{addr_to_string, dotted}
use failure_detector.Node.{NodeId-discrete, endpoint_to_string}
use failure_detector.Store.{MemberEntry, alive, failed, left, key, row, new, merge_full_list}
use failure_detector.Store.Invariant.{IsWf, merges, run, step, run-new-IsWf}
use failure_detector.Suspicion.{Progress, scan_once}
use failure_detector.Suspicion.Refinement.{HasNotLeft, judged, Scanned, scan_once-rows}
use failure_detector.Suspicion.Silence.{of_nanos, Aged, scan_ages, scan_keeps_self}
use failure_detector.Suspicion.CatchUp.{scan_once-scan_once}
use failure_detector.Suspicion.Disabled.{AgedPlain, scan_ages_plain, scan_fails_left}
use failure_detector.Tests.Samples.{node_a, node_b, node_c, member, sample_config}

program : Unit {0}
unfolding lookup insert text_discrete decimal addr_to_string dotted endpoint_to_string
    NodeId-discrete run step new merge_full_list
program = tt

-- Node a knows node b, alive at 60, and node c, which left at 60.
abbrev start : Progress
start = record {
  st =
      run (merges 70 (member node_b 100 alive 60 ∷ member node_c 101 left 60 ∷ []) ∷ [])
        (new node_a sample_config 50);
  fail_marks = pos 0;
}

start-IsWf : IsWf start.st
start-IsWf =
    run-new-IsWf (merges 70 (member node_b 100 alive 60 ∷ member node_c 101 left 60 ∷ []) ∷ [])
      node_a sample_config 50

row_a : row (key node_a) start.st ≡ some (member node_a 100 alive 50)
unfolding program
row_a = refl

row_b : row (key node_b) start.st ≡ some (member node_b 100 alive 60)
unfolding program
row_b = refl

row_c : row (key node_c) start.st ≡ some (member node_c 101 left 60)
unfolding program
row_c = refl

self_a : start.st.self_id ≡ node_a
unfolding program
self_a = refl

start-HasNotLeft : HasNotLeft start.st
unfolding program
start-HasNotLeft e found mine = ground (arith, found, row_a)

past_b : (e : MemberEntry) → row (key node_b) start.st ≡ some e → e.last_update ≤ 1000
past_b e found = ground (arith, found, row_b)

b-ne-a : node_b ≢ start.st.self_id
unfolding program
b-ne-a e = ground arith

c-ne-a : node_c ≢ start.st.self_id
unfolding program
c-ne-a e = ground arith

scan_once-rows_example :
    (q : Progress) × (scan_once 1000 (of_nanos 500 500 500) start ≡ some q)
    × ((k : Text)
        → row k q.st ≡ judged 1000 (of_nanos 500 500 500) start.st.self_id (row k start.st))
    × Scanned start q
scan_once-rows_example =
    scan_once-rows 1000 (of_nanos 500 500 500) start start-IsWf start-HasNotLeft

scan_ages_example :
    (q : Progress) × (scan_once 1000 (of_nanos 500 500 500) start ≡ some q)
    × Aged 500 500 500 940 (member node_b 100 alive 60) (row (key node_b) q.st)
scan_ages_example =
    scan_ages 500 500 500 1000 (key node_b) (member node_b 100 alive 60) start start-IsWf
      start-HasNotLeft row_b b-ne-a refl (omega arith) (omega arith) (omega arith)

own_row_stays :
    (q : Progress) × (scan_once 9000 (of_nanos 500 500 500) start ≡ some q)
    × (row (key start.st.self_id) q.st ≡ some (member node_a 100 alive 9000))
own_row_stays =
    scan_keeps_self (of_nanos 500 500 500) 9000 (member node_a 100 alive 50) start start-IsWf
      start-HasNotLeft (rw self_a row_a) (rw self_a refl)

scan_once-scan_once_example :
    (q twice once : Progress) × (scan_once 1000 (of_nanos 500 500 500) start ≡ some q)
    × (scan_once 2000 (of_nanos 500 500 500) q ≡ some twice)
    × (scan_once 2000 (of_nanos 500 500 500) start ≡ some once)
    × (row (key node_b) twice.st ≡ row (key node_b) once.st)
scan_once-scan_once_example =
    scan_once-scan_once 500 500 500 1000 2000 (key node_b) start start-IsWf start-HasNotLeft
      (omega arith) (omega arith) (omega arith) past_b

scan_ages_plain_example :
    (q : Progress) × (scan_once 1000 (of_nanos 0 500 500) start ≡ some q)
    × AgedPlain 500 500 940 (member node_b 100 alive 60) (row (key node_b) q.st)
scan_ages_plain_example =
    scan_ages_plain 500 500 1000 (key node_b) (member node_b 100 alive 60) start start-IsWf
      start-HasNotLeft row_b b-ne-a refl (omega arith) (omega arith)

left_row_fails :
    (q : Progress) × (scan_once 3000 (of_nanos 0 2000 3000) start ≡ some q)
    × (row (key node_c) q.st ≡ some (member node_c 101 failed 60))
left_row_fails =
    scan_fails_left 2000 3000 3000 (key node_c) (member node_c 101 left 60) start start-IsWf
      start-HasNotLeft row_c c-ne-a refl (omega arith) (omega arith) (omega arith)
