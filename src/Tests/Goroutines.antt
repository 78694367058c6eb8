-- ===== src/Tests/Goroutines.antt =====
-- The goroutines of src/pkg/protocol at the sample configuration.
use failure_detector.Prelude.{◌+◌, ◌≡◌, refl, Bool, true, false, [], ◌∷◌, none, some}
use failure_detector.Prelude.Int.{pos}
use failure_detector.Prelude.Map.{lookup, insert}
use failure_detector.Go.Text.{codes, text_discrete, decimal}
use failure_detector.Go.Netip.{addr_to_string, dotted}
use failure_detector.Go.Float.{float_lt}
use failure_detector.Node.{NodeId-discrete, endpoint_to_string}
use failure_detector.Store.{Store, new, snapshot, beat_rows, values, merge_full_list}
use failure_detector.Wire.{Message, MessageText, msg_ping}
use failure_detector.Protocol.{should_drop, own_left}
use failure_detector.Protocol.Receiver.{
  selecting, reading, ended, started, selects, reads, run, go_on, hear_all, rounds_of, receiver_lem,
}
use failure_detector.Protocol.Rounds.{Datagram, Sent, pingack_round, closed_answers}
use failure_detector.Protocol.Sender as Sender
use failure_detector.Protocol.SendLoops.{
  Draws, World, gossip_period_of, gossip_work, ping_period, ping_work, send_loops_lem,
}
use failure_detector.Protocol.Gossip as Gossip
use failure_detector.Protocol.Pingack as Pingack
use failure_detector.Daemon.{pingack_for, gossip_for}
use failure_detector.Protocol.Exchange.{Listens}
use failure_detector.Tests.Samples.{node_a, sample_config, toy_text}

program : Unit {0}
unfolding lookup insert text_discrete decimal addr_to_string dotted endpoint_to_string
    NodeId-discrete new snapshot beat_rows values own_left merge_full_list float_lt
program = tt

abbrev store : Store
store = new node_a sample_config 50

abbrev ping : Message
ping = record { msg_type = msg_ping; nonce = 7; list = []; cfg = none }

-- Every message has the text "m", which is read as the ping.
abbrev one_text : MessageText
one_text = record { marshal = λ m. some (codes "m"); unmarshal = λ b. some ping }

abbrev idle : Pingack.Loop
idle = pingack_for toy_text sample_config

abbrev datagram : Datagram
datagram = record { now = 70; draw = 0; from = codes "b"; bytes = codes "m" }

abbrev hear :
    Datagram
    → (Pingack.Loop × Store) × Sent one_text
    → ((Pingack.Loop × Store) × Sent one_text) × Bool
hear = pingack_round one_text (λ dto w. w)

abbrev world : (Pingack.Loop × Store) × Sent one_text
world = ((idle, store), [])

receiver_lem_example :
    (run hear (rounds_of hear (datagram ∷ [])) started world
      ≡ go_on hear (hear_all hear (datagram ∷ []) world) started)
    × ((run hear (selects ∷ []) (record { point = ended; stopped = true }) world).1 ≡ world)
    × ((run hear (selects ∷ []) (record { point = selecting; stopped = true }) world).1 ≡ world)
    × ((run hear
          (reads (some datagram) ∷ selects ∷ [])
          (record { point = reading; stopped = true })
          world).1
        ≡ (hear datagram world).0)
receiver_lem_example = receiver_lem hear (datagram ∷ []) datagram (selects ∷ []) world

store-Listens : Listens 70 store
unfolding program
store-Listens = refl

kept : should_drop idle.drop_rate_recv 0 ≡ false
unfolding program
kept = refl

closed_answers_example :
    (run hear
      (reads (some datagram) ∷ rounds_of hear (datagram ∷ []))
      (record { point = reading; stopped = true })
      world).1.1
    ≡ (codes "b", codes "m") ∷ []
closed_answers_example =
    closed_answers one_text (λ dto w. w) datagram ping idle store [] (codes "m") kept refl refl refl
      store-Listens refl (datagram ∷ [])

abbrev draws : Draws
draws = record { reaches = λ addr msg. true; now = 70; perm = []; nonces = λ n. n + 7 }

abbrev slower : Gossip.Loop → World → Gossip.Loop × World
slower l w = (record l { gossip_period = pos 5 }, w)

send_loops_lem_example :
    Sender.KeepsPace gossip_period_of gossip_work
      (Sender.others slower ∷ Sender.ticks draws ∷ [])
      draws
      (gossip_for toy_text sample_config)
      (store, [])
    × Sender.KeepsPace ping_period ping_work (Sender.returns ∷ []) draws idle (store, [])
unfolding gossip_work Gossip.new Pingack.new
send_loops_lem_example =
    send_loops_lem (Sender.others slower ∷ Sender.ticks draws ∷ []) (Sender.returns ∷ []) draws
      (gossip_for toy_text sample_config) idle (store, []) refl refl
      ((λ l w h. refl), ((λ l w h. h), tt)) (tt, tt)
