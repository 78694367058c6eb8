-- ===== src/Tests/Daemons.antt =====
-- src/pkg/daemon/daemon.go and src/pkg/protocol at the sample configuration.
use mathlib.Core.List.{Mem}
use failure_detector.Prelude.{
  ◌≡◌, ◌≢◌, ◌+◌, true, refl, sym, subst, List, [], ◌∷◌, some, none, arith, All, ℕ_discrete,
}
use failure_detector.Prelude.Int.{pos}
use failure_detector.Prelude.Map.{lookup, insert}
use failure_detector.Go.Text.{Text, text_discrete, decimal}
use failure_detector.Go.Netip.{addr_to_string, dotted}
use failure_detector.Go.Float.{float_lt}
use failure_detector.Node.{NodeId-discrete, endpoint_to_string}
use failure_detector.Config.{ConfigDto, validate_cluster_params, mode_pingack}
use failure_detector.Config.Apply.{to_dto, apply_remote}
use failure_detector.Store.{
  Store, MemberEntry, alive, key, row, merge_full_list, new, snapshot, beat_rows, values,
}
use failure_detector.Store.Invariant.{IsWf, merges, run, step, run-new-IsWf}
use failure_detector.Store.Merge.{Covered, IsSane}
use failure_detector.Suspicion.{Progress, reap_inflight}
use failure_detector.Wire.{Message, msg_ack, JoinResponse}
use failure_detector.Protocol.{own_left, resolve_peers}
use failure_detector.Protocol.Peers.{Absent, Distinct, resolve_peers_lem}
use failure_detector.Protocol.Exchange.{Listens, gossip_arrives, ping_round}
use failure_detector.Protocol.Gossip as Gossip
use failure_detector.Protocol.Pingack as Pingack
use failure_detector.Daemon.{initial, start_protocol, start_joined, gossip_for, pingack_for}
use failure_detector.Daemon.Tuned.{Runs}
use failure_detector.Daemon.Synced.{IsSynced}
use failure_detector.Daemon.Events.{
  Event, config_arrives, node_joins, admin_leaves, loop_ticks, manager_ticks, handle_events,
  events-start-IsSynced, pings_never_reaped,
}
use failure_detector.Daemon.Ticks.{WhileUp}
use failure_detector.Daemon.Join.{start_joined_stale}
use failure_detector.Tests.Samples.{node_a, node_b, member, sample_config, toy_text}

program : Unit {0}
unfolding lookup insert text_discrete decimal addr_to_string dotted endpoint_to_string
    NodeId-discrete run step merge_full_list new snapshot beat_rows values own_left
program = tt

abbrev fresh : Store
fresh = new node_a sample_config 50

fresh-config : fresh.config ≡ sample_config
unfolding program
fresh-config = refl

sample-valid : validate_cluster_params sample_config ≡ none
unfolding validate_cluster_params text_discrete float_lt
sample-valid = refl

-- The configuration with the other mode, in the next version.
abbrev switched : ConfigDto
switched = to_dto toy_text (record sample_config { version = pos 2; mode = mode_pingack })

abbrev story : List Event
story =
    config_arrives switched
    ∷ node_joins 70 (record { list = member node_b 100 alive 60 ∷ [] })
    ∷ loop_ticks (λ addr msg. true) 75 (0 ∷ []) (λ n. n + 7)
    ∷ manager_ticks 78
    ∷ admin_leaves 80
    ∷ []

events-start-IsSynced_example : WhileUp (IsSynced toy_text) (
    handle_events toy_text story
      (start_protocol toy_text sample_config (initial sample_config fresh)))
events-start-IsSynced_example =
    events-start-IsSynced toy_text story sample_config fresh fresh-config sample-valid

abbrev progress : Progress
progress = record { st = fresh; fail_marks = pos 0 }

pings_never_reaped_example :
    WhileUp
      (λ d. reap_inflight 900 (pos 1000) d.inflight progress ≡ (d.inflight, progress))
      (handle_events toy_text story
        (start_protocol toy_text sample_config (initial sample_config fresh)))
pings_never_reaped_example =
    pings_never_reaped toy_text story sample_config fresh fresh-config sample-valid 900 (pos 1000)
      progress

abbrev response : JoinResponse
response = record { config_dto = switched; list = [] }

start_joined_stale_example :
    let d = start_joined toy_text 70 sample_config response (initial sample_config fresh) in
    (d.cfg ≡ (apply_remote toy_text sample_config response.config_dto).0)
    × Runs toy_text sample_config d.loop_pa d.loop_go
start_joined_stale_example =
    start_joined_stale toy_text 70 sample_config response fresh sample-valid

fresh-Listens : Listens 70 fresh
unfolding program
fresh-Listens = refl

later-Listens : Listens 80 fresh
unfolding program
later-Listens = refl

-- Node b knows node a, and gossips.
abbrev sender : Store
sender = merge_full_list 55 (member node_a 100 alive 52 ∷ []) (new node_b sample_config 50)

sender-IsSane : All (IsSane 70) (snapshot 60 sender).0.0
unfolding program
sender-IsSane = (
  record { not_future = omega arith; can_grow = omega arith },
  (record { not_future = omega arith; can_grow = omega arith }, tt),
)

gossip_arrives_example :
    let (out, s) =
      Gossip.tick (λ a m. true) 60 (0 ∷ []) (gossip_for toy_text sample_config) sender in
    All
      (λ m.
        (k : Text) (e : MemberEntry) → row k s ≡ some e → Covered (Gossip.handle 70 m.1 fresh).0 e)
      out
gossip_arrives_example =
    gossip_arrives (λ a m. true) 60 70 (0 ∷ []) (gossip_for toy_text sample_config) sender fresh
      fresh-Listens sender-IsSane

-- Node a knows node b.
abbrev table : Store
table = run (merges 70 (member node_b 100 alive 60 ∷ []) ∷ []) fresh

table-IsWf : IsWf table
table-IsWf = run-new-IsWf (merges 70 (member node_b 100 alive 60 ∷ []) ∷ []) node_a sample_config 50

row_a : row (key node_a) table ≡ some (member node_a 100 alive 50)
unfolding program
row_a = refl

self_a : table.self_id ≡ node_a
unfolding program
self_a = refl

own_a : (e : MemberEntry) → row (key table.self_id) table ≡ some e → e.id ≡ table.self_id
own_a =
    subst (λ self. (e : MemberEntry) → row (key self) table ≡ some e → e.id ≡ self) (sym self_a)
      (λ e h. ground (arith, h, row_a))

resolve_peers_lem_example :
    let peers = resolve_peers (values table.entries) table.self_id in
    Distinct peers
    × Absent (key table.self_id) peers
    × ((k : Text) (e : MemberEntry) → row k table ≡ some e → e.id ≢ table.self_id → Mem k peers)
resolve_peers_lem_example = resolve_peers_lem table table-IsWf own_a

-- A loop that waits for the ACKs of the nonces 7 and 9.
abbrev waiting : Pingack.Loop
waiting = record (pingack_for toy_text sample_config) {
  inflight = (7, record { dl = 90; addr = [] }) ∷ (9, record { dl = 95; addr = [] }) ∷ [];
}

ping_round_example :
    (ack : Message) × ((Pingack.handle 70
        (Pingack.ping_of 7 (member node_b 100 alive 60 ∷ []) waiting)
        waiting
        fresh).reply
      ≡ some ack)
    × (ack.msg_type ≡ msg_ack)
    × (ack.nonce ≡ 7)
    × (lookup ℕ_discrete 7 (Pingack.handle 80 ack waiting fresh).loop.inflight ≡ none)
ping_round_example =
    ping_round 70 80 7 (member node_b 100 alive 60 ∷ []) waiting waiting fresh fresh fresh-Listens
      later-Listens (((λ p. omega (arith, p)), tt), (tt, tt))
