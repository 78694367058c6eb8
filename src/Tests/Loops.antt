-- ===== src/Tests/Loops.antt =====
-- Ticks of the protocol loops, the reaping of pings, and the attempts to join.
use failure_detector.Prelude.{
  ◌≤◌, ◌≡◌, refl, sym, subst, true, List, [], ◌∷◌, ◌++◌, none, some, arith, All, length,
}
use failure_detector.Prelude.Int.{pos}
use failure_detector.Prelude.Map.{lookup, insert}
use failure_detector.Go.Text.{Text, text_discrete, decimal}
use failure_detector.Go.Netip.{addr_to_string, dotted}
use failure_detector.Node.{NodeId-discrete, endpoint_to_string}
use failure_detector.Config.Apply.{apply_remote, to_dto}
use failure_detector.Store.{MemberEntry, Store, key, row, alive, new, merge_full_list}
use failure_detector.Store.Merge.{Covered}
use failure_detector.Store.Invariant.{IsWf, merges, run, step, run-new-IsWf}
use failure_detector.Inflight.{Inflight}
use failure_detector.Suspicion.{Progress}
use failure_detector.Wire.{JoinResponse}
use failure_detector.Protocol.{rounds}
use failure_detector.Protocol.Peers.{Absent, Distinct}
use failure_detector.Protocol.Ticks.{addresses, tick_lem}
use failure_detector.Protocol.Gossip as Gossip
use failure_detector.Protocol.Pingack as Pingack
use failure_detector.Daemon.{Daemon, initial, gossip_for, pingack_for}
use failure_detector.Daemon.Joining.{
  Attempt, no_connection, request_failed, answered, join_cluster, join_cluster_returns,
}
use failure_detector.Tests.Samples.{node_a, node_b, member, sample_config, toy_text}

program : Unit {0}
unfolding lookup insert text_discrete decimal addr_to_string dotted endpoint_to_string
    NodeId-discrete run step merge_full_list new
program = tt

-- Node a knows node b.
abbrev table : Store
table = run (merges 70 (member node_b 100 alive 60 ∷ []) ∷ []) (new node_a sample_config 50)

table-IsWf : IsWf table
table-IsWf = run-new-IsWf (merges 70 (member node_b 100 alive 60 ∷ []) ∷ []) node_a sample_config 50

row_a : row (key node_a) table ≡ some (member node_a 100 alive 50)
unfolding program
row_a = refl

self_a : table.self_id ≡ node_a
unfolding program
self_a = refl

own_a : (e : MemberEntry) → row (key table.self_id) table ≡ some e → e.id ≡ table.self_id
own_a =
    subst (λ self. (e : MemberEntry) → row (key self) table ≡ some e → e.id ≡ self) (sym self_a)
      (λ e h. ground (arith, h, row_a))

tick_lem_example :
    let gossiped =
      addresses
        (Gossip.tick (λ a m. true) 80 (0 ∷ []) (gossip_for toy_text sample_config) table).0 in
    let pinged =
      addresses
        (Pingack.tick
          (λ a m. true)
          80
          (0 ∷ [])
          (λ i. i)
          (pingack_for toy_text sample_config)
          table).0.0 in
    (Distinct gossiped
      × (length gossiped ≤ rounds (gossip_for toy_text sample_config).gossip_fanout)
      × Absent (key table.self_id) gossiped)
    × (Distinct pinged
        × (length pinged ≤ rounds (pingack_for toy_text sample_config).ping_fanout)
        × Absent (key table.self_id) pinged)
tick_lem_example =
    tick_lem (λ a m. true) 80 (0 ∷ []) (λ i. i) (gossip_for toy_text sample_config)
      (pingack_for toy_text sample_config) table table-IsWf own_a (tt, tt)

-- A ping to node b is overdue.
abbrev overdue : Inflight
overdue = (7, record { dl = 90; addr = key node_b }) ∷ []

abbrev progress : Progress
progress = record { st = table; fail_marks = pos 0 }

abbrev failures : List Attempt
failures = no_connection ∷ request_failed 60 ∷ []

abbrev response : JoinResponse
response = record {
  config_dto = to_dto toy_text (record sample_config { version = pos 2 });
  list = member node_b 100 alive 60 ∷ [];
}

join_cluster_returns_example :
    (join_cluster toy_text failures (initial sample_config table) ≡ none)
    × ((d' : Daemon) × (join_cluster toy_text
            (failures ++ (answered 70 80 response ∷ []))
            (initial sample_config table)
          ≡ some d')
        × (d'.cfg ≡ (apply_remote toy_text (initial sample_config table).cfg response.config_dto).0)
        × All (Covered d'.st) response.list)
join_cluster_returns_example =
    join_cluster_returns toy_text failures [] 70 80 response (initial sample_config table)
      (tt, (tt, tt)) (record { not_future = omega arith; can_grow = omega arith }, tt)
