-- ===== src/Daemon/Booted.antt =====
-- The start of src/pkg/memberd/main.go and Run of src/pkg/daemon/daemon.go: what runs afterwards.
use failure_detector.Prelude.{
  ℕ, ◌<◌, ◌≡◌, ◌≢◌, refl, sym, subst, ap, ◌∙◌, inl, inr, true, false, List, [], ◌∷◌, ◌++◌, none,
  some, All, arith, if◌then◌else◌,
}
use failure_detector.Go.Text.{Text, codes, decimal, parse_uint}
use failure_detector.Go.Clock.{Time}
use failure_detector.Go.Netip.{Addr, ip4in6, addr_to_string, dotted, mapped_prefix, addr_from_slice}
use failure_detector.Node.{
  Endpoint, new_id, validate, not_ip4, bad_addr_port, endpoint_to_string, id_to_string,
}
use failure_detector.Node.Parse.{AddrPortText, parse_id, parse_parts, with_boot, only_ip4}
use failure_detector.Node.Parse.RoundTrip.{split_part, All-append, NoAt, decimal-NoAt, part-NoAt}
use failure_detector.Config.{Config, DurationText}
use failure_detector.Config.Apply.{apply_remote}
use failure_detector.Config.Flags.{Flag, load_from_flags, load_from_flags_lem}
use failure_detector.Store.{Store, new}
use failure_detector.Store.Merge.{IsSane, Covered}
use failure_detector.Wire.{JoinResponse}
use failure_detector.Daemon.{Daemon, initial, start_protocol}
use failure_detector.Daemon.Frame.{start_protocol-frame}
use failure_detector.Daemon.Joining.{
  Attempt, started, answered, IsFailure, run, join_cluster, join_cluster_returns,
}
use failure_detector.Daemon.Ticks.{WhileUp}
use failure_detector.Daemon.Events.{Event, handle_events, events-start-IsSynced}
use failure_detector.Daemon.Synced.{IsSynced}
use failure_detector.Daemon.Boot.{
  Host, running, joining, resolver, resolve_addr_port, listen, main, booted, serve, udp_addr_port,
}

run-joins :
    (dt : DurationText) (tries : List Attempt) (c : Config) (st : Store)
    → c.is_introducer ≡ false
    → run dt tries c st ≡ started dt c (join_cluster dt tries (initial c st))
unfolding run
run-joins dt tries c st joins =
    ap
      (λ b.
        if b
        then some (start_protocol dt c (initial c st))
        else started dt c (join_cluster dt tries (initial c st)))
      joins

module _ (host : Host) (dt : DurationText) (hostname : Text) (flags : List Flag) (c : Config) where
  abbrev store_of : Addr → ℕ → ℕ → Time → Store
  store_of ip port boot now = new (new_id (record { ip = ip; port = port }) boot) c now

  -- The flags are usable, the own address resolves, and the node can listen.
  main-run :
      (ip : Addr) (port boot : ℕ) (now : Time) (tries : List Attempt)
      → load_from_flags (resolver host) hostname flags ≡ inr c
      → resolve_addr_port host (host.trim c.self_addr) ≡ some (ip, port)
      → listen host c.bind_addr ≡ true
      → main host dt hostname flags boot now tries
        ≡ booted host dt c (inr (run dt tries c (store_of ip port boot now)))
  unfolding main
  main-run ip port boot now tries load self udp = rw (load, self, udp) refl

  serve-joiner : (d : Daemon) → c.is_introducer ≡ false → serve host dt c d ≡ running d
  serve-joiner d joins = rw joins refl

  -- A program that is started with usable flags as an introducer, on a host where its own address
  -- resolves and where it can listen, runs. Its identity is that address with the time of its start,
  -- and its configuration that of the flags. After any sequence of configurations from the wire, admin
  -- requests, joins, messages and ticks, unless the process has ended, it runs exactly the loop of the
  -- mode of its live configuration, which is valid, and that loop, the store and the manager work
  -- with it.
  pub main_runs :
      (ip : Addr) (port boot : ℕ) (now : Time) (tries : List Attempt) (xs : List Event)
      → load_from_flags (resolver host) hostname flags ≡ inr c
      → c.is_introducer ≡ true
      → resolve_addr_port host (host.trim c.self_addr) ≡ some (ip, port)
      → listen host c.bind_addr ≡ true
      → host.listen_tcp c.introducer_bind_addr ≡ true
      → (d : Daemon) × (main host dt hostname flags boot now tries ≡ running d)
        × (d.st ≡ new (new_id (record { ip = ip; port = port }) boot) c now)
        × (d.cfg ≡ c)
        × WhileUp (IsSynced dt) (handle_events dt xs d)
  unfolding run new initial
  main_runs ip port boot now tries xs load intro self udp tcp =
      let st = new (new_id (record { ip = ip; port = port }) boot) c now in
      let valid = (load_from_flags_lem (resolver host) hostname flags c load).0 in
      let (live, store) = start_protocol-frame dt c (initial c st) in
      (
        start_protocol dt c (initial c st),
        main-run ip port boot now tries load self udp ∙ rw (intro, tcp) refl,
        store,
        live,
        events-start-IsSynced dt xs c st refl valid,
      )

  -- A program that is started with usable flags to join a cluster, on a host where its own address
  -- resolves and where it can listen, is still joining while its attempts fail, and runs after the
  -- first response: with the configuration of the response, if that can be taken over, and every
  -- entry of its list is old news, if none comes from the future and every incarnation can still grow.
  pub main_joins :
      (ip : Addr) (port boot : ℕ) (now later then_ : Time) (tries rest : List Attempt)
      (resp : JoinResponse)
      → load_from_flags (resolver host) hostname flags ≡ inr c
      → c.is_introducer ≡ false
      → resolve_addr_port host (host.trim c.self_addr) ≡ some (ip, port)
      → listen host c.bind_addr ≡ true
      → All IsFailure tries
      → All (IsSane then_) resp.list
      → (main host dt hostname flags boot now tries ≡ joining)
        × ((d : Daemon) × (main host dt hostname flags boot now
                (tries ++ (answered later then_ resp ∷ rest))
              ≡ running d)
            × (d.cfg ≡ (apply_remote dt c resp.config_dto).0)
            × All (Covered d.st) resp.list)
  unfolding initial
  main_joins ip port boot now later then_ tries rest resp load joins self udp fail sane =
      let st = store_of ip port boot now in
      let all = tries ++ (answered later then_ resp ∷ rest) in
      let (pending, (d, joined, live, covered)) =
        join_cluster_returns dt tries rest later then_ resp (initial c st) fail sane in
      let (live', store) = start_protocol-frame dt c d in
      (
        main-run ip port boot now tries load self udp
            ∙ ap (λ o. booted host dt c (inr o))
                (run-joins dt tries c st joins ∙ ap (started dt c) pending),
        (
          start_protocol dt c d,
          main-run ip port boot now all load self udp
              ∙ ap (λ o. booted host dt c (inr o))
                  (run-joins dt all c st joins ∙ ap (started dt c) joined)
              ∙ serve-joiner (start_protocol dt c d) joins,
          live' ∙ live,
          subst (λ s. All (Covered s) resp.list) (sym store) covered,
        ),
      )

dotted-NoAt : (a b c d : ℕ) → All NoAt (dotted a b c d)
unfolding dotted
dotted-NoAt a b c d =
    let dot : NoAt b'.' = λ e. omega (arith, e) in
    part-NoAt a b'.' _ dot (part-NoAt b b'.' _ dot (part-NoAt c b'.' _ dot (decimal-NoAt d)))

mapped-NoAt :
    (a b c d port : ℕ) → All NoAt (endpoint_to_string (record { ip = ip4in6 a b c d; port = port }))
unfolding endpoint_to_string addr_to_string
mapped-NoAt a b c d port =
    let colon : NoAt b':' = λ e. omega (arith, e) in
    let f : NoAt b'f' = λ e. omega (arith, e) in
    All-append NoAt (codes "::ffff:" ++ dotted a b c d) (b':' ∷ decimal port)
      (colon, (colon, (f, (f, (f, (f, (colon, dotted-NoAt a b c d))))))) (colon, decimal-NoAt port)

module _ (host : Host) (apt : AddrPortText) where
  -- An own address that package net resolves to the 16-byte form of an IPv4 address, which it may,
  -- gives the node an identity that Validate refuses, and whose text ParseStringToNodeID does not
  -- read, if ParseAddrPort refuses an IPv6 address without brackets.
  pub mapped_self :
      (s : Text) (a b c d port boot : ℕ)
      → host.resolve_udp s ≡ some (record { ip = mapped_prefix (a ∷ b ∷ c ∷ d ∷ []); port = port })
      → port < 65536
      → port ≢ 0
      → let ep : Endpoint = record { ip = ip4in6 a b c d; port = port } in
        apt.parse (endpoint_to_string ep) ≡ none
        → (resolve_addr_port host s ≡ some (ip4in6 a b c d, port))
          × (validate (new_id ep boot) ≡ some not_ip4)
          × (parse_id apt (id_to_string (new_id ep boot)) ≡ inl bad_addr_port)
  unfolding resolve_addr_port addr_from_slice validate parse_id id_to_string new_id
  mapped_self s a b c d port boot form bound set refuses = (
    ap (udp_addr_port host) form ∙ ground arith,
    ground arith,
    ap (parse_parts apt) (
          split_part b'@' (endpoint_to_string (record { ip = ip4in6 a b c d; port = port }))
            (decimal boot) (mapped-NoAt a b c d port) (decimal-NoAt boot))
        ∙ ap (λ o. with_boot apt (only_ip4 apt o) (parse_uint (decimal boot))) refuses,
  )
