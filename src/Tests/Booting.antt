-- ===== src/Tests/Booting.antt =====
-- The start of the program at a sample host.
use failure_detector.Prelude.{
  ◌≡◌, ◌++◌, refl, inl, inr, List, [], ◌∷◌, none, some, true, All, arith,
}
use failure_detector.Prelude.Int.{pos}
use failure_detector.Go.Text.{codes, text_discrete, parse_uint, decimal}
use failure_detector.Go.Float.{float_lt}
use failure_detector.Go.Netip.{ip4, ip4in6, addr_from_slice, addr_to_string, dotted, mapped_prefix}
use failure_detector.Node.{
  Endpoint, new_id, validate, not_ip4, bad_addr_port, id_to_string, endpoint_to_string,
}
use failure_detector.Node.Parse.{parse_id, split}
use failure_detector.Config.{Config, defaults, validate_cluster_params}
use failure_detector.Config.Apply.{apply_remote, to_dto}
use failure_detector.Config.Flags.{Flag, introducer, gossip_fanout, load_from_flags}
use failure_detector.Store.{new, alive}
use failure_detector.Store.Merge.{Covered}
use failure_detector.Wire.{JoinResponse}
use failure_detector.Daemon.{Daemon}
use failure_detector.Daemon.Joining.{no_connection, answered}
use failure_detector.Daemon.Ticks.{WhileUp}
use failure_detector.Daemon.Events.{meter_ticks, handle_events}
use failure_detector.Daemon.Synced.{IsSynced}
use failure_detector.Daemon.Boot.{Host, running, joining, resolver, resolve_addr_port, listen, main}
use failure_detector.Daemon.Booted.{main_runs, main_joins, mapped_self}
use failure_detector.Tests.Samples.{sample_config, toy_text, member, node_b}
use failure_detector.Tests.Loading.{flags, loaded}
use failure_detector.Tests.Parsing.{dotted_text, dotted_parse}

-- Every name is 10.0.0.1:5000, and every port is free.
abbrev plain_host : Host
plain_host = record {
  resolve_udp = λ addr. some (record { ip = 10 ∷ 0 ∷ 0 ∷ 1 ∷ []; port = 5000 });
  resolve_tcp = λ addr. true;
  listen_udp = λ a. true;
  listen_tcp = λ addr. true;
  trim = λ s. s;
  text6 = λ bs. bs;
}

-- The same address in its 16-byte form.
abbrev mapped_host : Host
mapped_host = record plain_host {
  resolve_udp = λ addr. some (record { ip = mapped_prefix (10 ∷ 0 ∷ 0 ∷ 1 ∷ []); port = 5000 });
}

abbrev joiner_flags : List Flag
joiner_flags = introducer (codes "b:6000") ∷ gossip_fanout (pos 2) ∷ []

abbrev joiner : Config
joiner = record (defaults (codes "a")) { introducer = codes "b:6000"; gossip_fanout = pos 2 }

loads_introducer : load_from_flags (resolver plain_host) (codes "a") flags ≡ inr loaded
unfolding load_from_flags defaults validate_cluster_params text_discrete float_lt parse_uint
loads_introducer = refl

loads_joiner : load_from_flags (resolver plain_host) (codes "a") joiner_flags ≡ inr joiner
unfolding load_from_flags defaults validate_cluster_params text_discrete float_lt parse_uint
loads_joiner = refl

self_resolves :
    (resolve_addr_port plain_host loaded.self_addr ≡ some (ip4 10 0 0 1, 5000))
    × (listen plain_host loaded.bind_addr ≡ true)
unfolding resolve_addr_port addr_from_slice listen
self_resolves = (refl, refl)

main_runs_example :
    (d : Daemon) × (main plain_host toy_text (codes "a") flags 1000 50 [] ≡ running d)
    × (d.st ≡ new (new_id (record { ip = ip4 10 0 0 1; port = 5000 }) 1000) loaded 50)
    × (d.cfg ≡ loaded)
    × WhileUp (IsSynced toy_text) (handle_events toy_text (meter_ticks ∷ []) d)
main_runs_example =
    main_runs plain_host toy_text (codes "a") flags loaded (ip4 10 0 0 1) 5000 1000 50 []
      (meter_ticks ∷ []) loads_introducer refl self_resolves.0 self_resolves.1 refl

abbrev response : JoinResponse
response = record {
  config_dto = to_dto toy_text sample_config;
  list = member node_b 101 alive 60 ∷ [];
}

node_joins :
    (main plain_host toy_text (codes "a") joiner_flags 1000 50 (no_connection ∷ []) ≡ joining)
    × ((d : Daemon) × (main plain_host toy_text
            (codes "a")
            joiner_flags
            1000
            50
            ((no_connection ∷ []) ++ (answered 70 80 response ∷ []))
          ≡ running d)
        × (d.cfg ≡ (apply_remote toy_text joiner response.config_dto).0)
        × All (Covered d.st) response.list)
unfolding defaults
node_joins =
    main_joins plain_host toy_text (codes "a") joiner_flags joiner (ip4 10 0 0 1) 5000 1000 50 70 80
      (no_connection ∷ []) [] response loads_joiner refl self_resolves.0 self_resolves.1 (tt, tt)
      (record { not_future = omega arith; can_grow = omega arith }, tt)

abbrev mapped : Endpoint
mapped = record { ip = ip4in6 10 0 0 1; port = 5000 }

refuses : dotted_text.parse (endpoint_to_string mapped) ≡ none
unfolding dotted_parse split endpoint_to_string addr_to_string dotted decimal
refuses = refl

mapped_self_example :
    (resolve_addr_port mapped_host (codes "10.0.0.1:5000") ≡ some (ip4in6 10 0 0 1, 5000))
    × (validate (new_id mapped 1000) ≡ some not_ip4)
    × (parse_id dotted_text (id_to_string (new_id mapped 1000)) ≡ inl bad_addr_port)
mapped_self_example =
    mapped_self mapped_host dotted_text (codes "10.0.0.1:5000") 10 0 0 1 5000 1000 refl
      (omega arith) (λ e. omega (arith, e)) refuses
