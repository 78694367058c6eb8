-- ===== src/Tests/Clusters.antt =====
-- A cluster of two nodes.
use failure_detector.Prelude.{
  ◌+◌, ◌≤◌, ◌<◌, ◌≡◌, ◌≢◌, refl, sym, subst, Bool, Bool-cases, inl, inr, true, false, [], ◌∷◌, none,
  some, arith,
}
use failure_detector.Prelude.Int.{u64_mod}
use failure_detector.Prelude.Map.{lookup, insert}
use failure_detector.Go.Text.{Text, text_discrete, decimal}
use failure_detector.Go.Netip.{addr_to_string, dotted}
use failure_detector.Node.{NodeId, NodeId-discrete, endpoint_to_string}
use failure_detector.Store.{
  MemberEntry, alive, key, row, new, snapshot, beat_rows, values, merge_full_list,
}
use failure_detector.Cluster.{
  Cluster, sends, receives, judges, Reach, here, next, Starts, set_store, own_incarnation,
}
use failure_detector.Cluster.Safety.{Reach-safe}
use failure_detector.Cluster.Crash.{IsSilent, Heard, Without, stays, then_, actor}
use failure_detector.Cluster.FoundOut.{FoundOut, crashed_is_found_out}
use failure_detector.Store.Others.{rows_P}
use failure_detector.Suspicion.{Progress, scan_once, scan_row}
use failure_detector.Suspicion.Silence.{of_nanos}
use failure_detector.Prelude.Int.{pos}
use failure_detector.Cluster.Loops.{Moves, handle-Moves}
use failure_detector.Wire.{Message, msg_gossip}
use failure_detector.Protocol.Gossip as Gossip
use failure_detector.Protocol.Pingack as Pingack
use failure_detector.Cluster.Sends.{Sends, tick-Sends}
use failure_detector.Daemon.{pingack_for, gossip_for}
use failure_detector.Tests.Samples.{node_a, node_b, sample_config, toy_text}

program : Unit {0}
unfolding lookup insert text_discrete decimal addr_to_string dotted endpoint_to_string
    NodeId-discrete new snapshot beat_rows values
program = tt

Bool-discrete : Discrete Bool
Bool-discrete = hlevel

abbrev who : Bool → NodeId
who true = node_a
who false = node_b

abbrev start : Cluster Bool-discrete
start = record { store = λ i. new (who i) sample_config 50; wire = [] }

a-ne-b : key node_a ≢ key node_b
unfolding program
a-ne-b e = ground arith

distinct : (i j : Bool) → key (who i) ≡ key (who j) → i ≡ j
distinct true true e = refl
distinct true false e = absurd (a-ne-b e)
distinct false true e = absurd (a-ne-b (sym e))
distinct false false e = refl

start-Starts : Starts Bool-discrete start
unfolding program
start-Starts = record {
  id = who;
  config = λ i. sample_config;
  time = λ i. 50;
  stores = λ i. refl;
  distinct = distinct;
  suspicious = λ i. refl;
  silent = refl;
}

-- Node a sends its list.
abbrev sent : Cluster Bool-discrete
sent = record (set_store Bool-discrete true (snapshot 60 (start.store true)).1 start) {
  wire = (snapshot 60 (start.store true)).0.0 ∷ [];
}

-- Node b receives it.
abbrev heard : Cluster Bool-discrete
heard =
    set_store Bool-discrete false
      (merge_full_list 70 (snapshot 60 (start.store true)).0.0 (sent.store false)) sent

fits : own_incarnation (sent.store false) + 1 < u64_mod
unfolding program Bool-discrete
fits = omega arith

heard-Reach : Reach Bool-discrete start heard
heard-Reach =
    next (next here (sends true 60 refl))
      (receives false 70 0 (snapshot 60 (start.store true)).0.0 refl fits refl)

Reach-safe_example :
    ((me : MemberEntry) × (row (key node_b) (heard.store false) ≡ some me)
      × (me.id ≡ node_b)
      × (me.state ≡ alive))
    × ((j : Bool) (k : Text) (e : MemberEntry)
        → row k (heard.store j) ≡ some e
        → e.id ≡ node_b
        → e.incarnation ≤ own_incarnation (heard.store false))
unfolding start-Starts
Reach-safe_example = Reach-safe Bool-discrete start heard start-Starts heard-Reach false

abbrev gossip : Message
gossip = record {
  msg_type = msg_gossip;
  nonce = 0;
  list = (snapshot 60 (start.store true)).0.0;
  cfg = none;
}

abbrev idle : Pingack.Loop
idle = pingack_for toy_text sample_config

fits_seen : own_incarnation (snapshot 70 (sent.store false)).1 + 1 < u64_mod
unfolding program Bool-discrete
fits_seen = omega arith

handle-Moves_example :
    Moves Bool-discrete sent false (Gossip.handle 70 gossip (sent.store false)).0
    × Moves Bool-discrete sent false (Pingack.handle 70 gossip idle (sent.store false)).st
handle-Moves_example = handle-Moves Bool-discrete 70 sent false 0 gossip idle refl fits_seen

-- Node a has sent its list and falls silent.
sent-Reach : Reach Bool-discrete start sent
sent-Reach = next here (sends true 60 refl)

b_row-Heard :
    (k : Text) (e : MemberEntry)
    → row k (sent.store false) ≡ some e
    → Heard Bool-discrete who true 60 e
unfolding program Bool-discrete
b_row-Heard k e h =
    rows_P (Heard Bool-discrete who true 60) (start.store false).entries k e
      ((λ q. omega arith), tt) h

sent-IsSilent : IsSilent Bool-discrete who true 60 sent
unfolding program
sent-IsSilent = record {
  tables = λ j other k e h. elim (Bool-cases j) [
    | inl q ↦ absurd (other q)
    | inr q ↦ b_row-Heard k e (subst (λ i. row k (sent.store i) ≡ some e) q h)
  ];
  wire = (((λ q. omega arith), tt), tt);
}

-- Node b then judges the entry of that list, late in a scan.
abbrev late : Cluster Bool-discrete
late =
    set_store Bool-discrete false
      (scan_row 1100 (of_nanos 1000 2000 3000)
        (record { id = node_a; incarnation = 100; state = alive; last_update = 60 })
        (record { st = heard.store false; fail_marks = pos 0 })).st
      heard

late-Without : Without Bool-discrete true sent late
unfolding actor program
late-Without =
    then_
      (then_ stays (receives false 70 0 (snapshot 60 (start.store true)).0.0 refl fits refl)
        (λ e. cc))
      (judges false 1100 (of_nanos 1000 2000 3000) (pos 0) 0 0 (snapshot 60 (start.store true)).0.0
        (record { id = node_a; incarnation = 100; state = alive; last_update = 60 }) refl refl refl)
      (λ e. cc)

crashed_is_found_out_example :
    (q : Progress) × (scan_once 1200
        (of_nanos 1000 2000 3000)
        (record { st = late.store false; fail_marks = pos 0 })
      ≡ some q)
    × FoundOut 1000 2000 3000 60 1200 (row (key node_a) q.st)
unfolding start-Starts
crashed_is_found_out_example =
    crashed_is_found_out Bool-discrete start sent late start-Starts sent-Reach true false 60
      sent-IsSilent late-Without (λ e. cc) 1000 2000 3000 1200 (pos 0) (omega arith) (omega arith)
      (omega arith)

abbrev gossiper : Gossip.Loop
gossiper = gossip_for toy_text sample_config

tick-Sends_example :
    Sends Bool-discrete heard false
      (Gossip.tick (λ a m. true) 80 (0 ∷ []) gossiper (heard.store false)).1
      (Gossip.tick (λ a m. true) 80 (0 ∷ []) gossiper (heard.store false)).0
    × Sends Bool-discrete heard false
        (Pingack.tick (λ a m. true) 80 (0 ∷ []) (λ n. n) idle (heard.store false)).1
        (Pingack.tick (λ a m. true) 80 (0 ∷ []) (λ n. n) idle (heard.store false)).0.0
tick-Sends_example =
    tick-Sends Bool-discrete (λ a m. true) 80 (0 ∷ []) (λ n. n) heard false gossiper idle
