-- ===== src/Daemon/Boot.antt =====
-- How the program starts: resolveAddrPortUDP, Run and startIntroducerServer of src/pkg/daemon/daemon.go,
-- Listen of src/pkg/transport/udp.go, and main of src/pkg/memberd/main.go.
use failure_detector.Prelude.{
  ℕ, ◌%◌, ◌⊎◌, inl, inr, Bool, true, false, not, ◌&&◌, List, [], ◌∷◌, Option, none, some,
  if◌then◌else◌,
}
use failure_detector.Go.Text.{Text}
use failure_detector.Go.Clock.{Time}
use failure_detector.Go.Netip.{Addr, addr_from_slice}
use failure_detector.Node.{new_id}
use failure_detector.Config.{Config, DurationText}
use failure_detector.Config.Flags.{Flag, LoadError, Resolver, load_from_flags}
use failure_detector.Store.{new}
use failure_detector.Daemon.{Daemon}
use failure_detector.Daemon.Joining.{Attempt, run}

-- A net.UDPAddr: the bytes of the IP, none for a nil one, and the port.
pub record UdpAddr : Type 0 where
  pub ip : List ℕ
  pub port : ℕ

-- What the program uses of the host through package net: name resolution, and whether it can listen.
-- Also strings.TrimSpace, and the texts of IPv6 addresses.
pub record Host : Type 0 where
  pub resolve_udp : Text → Option UdpAddr
  pub resolve_tcp : Text → Bool
  pub listen_udp : UdpAddr → Bool
  pub listen_tcp : Text → Bool
  pub trim : Text → Text
  pub text6 : List ℕ → Text

pub data BootError : Type 0 where
  bad_self cannot_listen : BootError

-- How the program stands: ended by log.Fatal, still joining, or running.
pub data Status : Type 0 where
  load_failed : LoadError → Status
  boot_failed : BootError → Status
  no_introducer_server : Status
  joining : Status
  running : Daemon → Status

module _ (host : Host) where
  abbrev pub with_port : ℕ → Option Addr → Option (Addr × ℕ)
  with_port port none = none
  with_port port (some a) = some (a, port % 65536)

  abbrev pub addr_port_of : List ℕ → ℕ → Option (Addr × ℕ)
  addr_port_of [] port = none
  addr_port_of (b ∷ bs) port = with_port port (addr_from_slice host.text6 (b ∷ bs))

  abbrev pub udp_addr_port : Option UdpAddr → Option (Addr × ℕ)
  udp_addr_port none = none
  udp_addr_port (some ua) = addr_port_of ua.ip ua.port

  -- resolveAddrPortUDP; `none` is an error
  unfoldable pub resolve_addr_port : Text → Option (Addr × ℕ)
  resolve_addr_port s = udp_addr_port (host.resolve_udp s)

  abbrev pub listen_at : Option UdpAddr → Bool
  listen_at none = false
  listen_at (some a) = host.listen_udp a

  -- Listen of the transport; false is an error
  unfoldable pub listen : Text → Bool
  listen addr = listen_at (host.resolve_udp addr)

  -- Whether net.ResolveUDPAddr gives no error
  abbrev pub resolves : Option UdpAddr → Bool
  resolves none = false
  resolves (some a) = true

  abbrev pub resolver : Resolver
  resolver = record { udp = λ addr. resolves (host.resolve_udp addr); tcp = host.resolve_tcp }

  module _ (dt : DurationText) where
    -- Run with the own address; `boot` is the time of bootTimeNow, and `none` a join that goes on.
    abbrev pub boot_as :
        ℕ → Time → List Attempt → Config → Option (Addr × ℕ) → BootError ⊎ Option Daemon
    boot_as boot now tries cfg none = inl bad_self
    boot_as boot now tries cfg (some (ip, port)) =
        if listen cfg.bind_addr
        then inr (run dt tries cfg (new (new_id (record { ip = ip; port = port }) boot) cfg now))
        else inl cannot_listen

    -- Run
    unfoldable pub boot_daemon : ℕ → Time → List Attempt → Config → BootError ⊎ Option Daemon
    unfolding listen
    boot_daemon boot now tries cfg =
        boot_as boot now tries cfg (resolve_addr_port (host.trim cfg.self_addr))

    -- startIntroducerServer, which Run starts for an introducer
    abbrev pub serve : Config → Daemon → Status
    serve cfg d =
        if cfg.is_introducer && not (host.listen_tcp cfg.introducer_bind_addr)
        then no_introducer_server
        else running d

    abbrev pub booted : Config → BootError ⊎ Option Daemon → Status
    booted cfg (inl e) = boot_failed e
    booted cfg (inr none) = joining
    booted cfg (inr (some d)) = serve cfg d

    abbrev pub loaded : ℕ → Time → List Attempt → LoadError ⊎ Config → Status
    loaded boot now tries (inl e) = load_failed e
    loaded boot now tries (inr cfg) = booted cfg (boot_daemon boot now tries cfg)

    -- main, up to the wait for a signal
    unfoldable pub main : Text → List Flag → ℕ → Time → List Attempt → Status
    unfolding boot_daemon
    main hostname flags boot now tries =
        loaded boot now tries (load_from_flags resolver hostname flags)
