-- ===== src/Lib.antt =====
-- A distributed group membership daemon: nodes exchange membership lists over UDP, by gossip or by
-- pings and ACKs, and mark silent nodes as suspect, failed and gone.
--
-- Parts, and the files that model them (paths from the repository's root):
-- - src/pkg/node/nodeid.go: Node (Endpoint, NodeID, Compare, EndpointToString, Validate),
--   Node/Binary (MarshalBinary, UnmarshalBinary), Node/Parse (the text parser), Node/Key (the text of
--   an endpoint is the key of the membership table), Node/Order.
-- - src/pkg/config/config.go: Config (Config, ConfigDTO, Defaults, ValidateClusterParams),
--   Config/Apply (ToDTO, ApplyDTO, ApplyRemote, BumpAndApplyLocal), Config/Laws, Config/Limits (the
--   end of int), Config/Flags (LoadFromFlags, ValidateLocalBootstrap).
-- - src/pkg/store/membership.go: Store, one function per method; a method that changes the store
--   takes it last and returns it. Store/Map and Store/Invariant: the form of the table. Store/Rank,
--   Store/Merge and Store/Join: MergeFullList as a join. Store/OwnRow, Store/Self, Store/Others,
--   Store/Precedence and Store/Settings: the own row, the other rows, what states count for, the
--   configuration.
-- - src/pkg/protocol/common/inflight.go: Inflight, Inflight/Laws.
-- - src/pkg/suspicion/manager.go: Suspicion (scanOnce, reapInflight, the cases of Run, Reconfigure);
--   Suspicion/Judge, Scan, Refinement: the scan as a function of each row; Suspicion/Silence,
--   Disabled, CatchUp: what the thresholds mean for a silent peer; Suspicion/Reap: reapInflight;
--   Suspicion/Leaving: a node that has left; Suspicion/Runner: Run and Close as a goroutine.
-- - src/pkg/wire/codec.go: Wire. src/pkg/protocol: Protocol (what both loops share, and
--   common/peers.go), Protocol/Gossip and Protocol/Pingack (a loop's state, what it does with a
--   message, what it sends on a tick), Protocol/Receiver and Protocol/Rounds (recvLoop as a
--   goroutine, and what it does with a datagram), Protocol/Sender and Protocol/SendLoops
--   (gossipLoop and pingLoop as goroutines with their tickers; Protocol/Missed: a change of the
--   period at their start); Protocol/Peers, Targets, Ticks: whom a tick sends to;
--   Protocol/Exchange, Reconcile: a message and its answer.
-- - src/pkg/memberd/main.go, and Run of daemon.go and Listen of src/pkg/transport/udp.go: Daemon/Boot,
--   Daemon/Booted.
-- - src/pkg/daemon/daemon.go: Daemon (startProtocol, applyRuntime, onConfigFromWire, /set,
--   handleJoin, joinCluster, Run), Daemon/Receive (messages), Daemon/Admin (/leave, /switch),
--   Daemon/Views (the other handlers, Close), Daemon/Diff (logConfigDiff of config_diff.go),
--   Daemon/Joining (the retries of joinCluster), Daemon/Ticks (what the goroutines do on a tick);
--   Daemon/Frame, Modes, Tuned, Sync, Synced, Messages, Events, Join, Handshake, Switch: how the
--   parts follow the live configuration; Daemon/Leaving, Departure: /leave and what follows it.
-- - Cluster: nodes with a network between them, made of the operations of Store and Suspicion;
--   Cluster/Late (a scan between whose rounds the node merges), Nodes, Genuine, Fresh, Safety,
--   Loops, Sends; Cluster/Quiet, Crash, FoundOut: a node that falls silent.
-- - Prelude, Go: shared helpers, and what the program uses of Go's standard library.
--
-- The manager and the protocol loops share one store: a scan takes a snapshot, then calls
-- ApplyLocked and RemoveEntry row by row; the loops call MergeFullList for what arrives. The daemon
-- starts the loop of the current mode and passes each new configuration to the loop, the manager and
-- the store.
--
-- Conventions. A Go map is an association list with distinct keys; its order stands for the order
-- of `range`, which Go leaves open, and the laws hold for every order. Each method of the store is
-- one step, as its lock makes it. The clock is an argument of each operation, read once per
-- operation. A time is a number of nanoseconds, a duration an int64, a float64 its bit pattern;
-- uint64 and int64 sums wrap around. Text is a list of bytes. The text of durations (`String` and
-- ParseDuration of Go's time package) is a parameter, the record DurationText, whose laws are that
-- a duration is read back from its own text, that results are int64 values, that `0ms` is zero, and
-- that the empty text is an error. Likewise AddrPortText for ParseAddrPort of net/netip,
-- MessageText for encoding/json on messages, StringOps for package strings in /switch, Resolver for
-- name resolution, and Host for what the start of the program asks of package net. An IPv6 address
-- that is not IPv4-mapped is given by its text.
--
-- Fuel: only the decimal printer takes fuel; `decimal` gives it more than the number that it
-- prints, which is enough (parse_uint-decimal in Go/Text). The retries of joinCluster run over the
-- list of what the attempts meet with.
--
-- Not modelled: logging, but for the lines of logConfigDiff; the sockets of src/pkg/transport, the
-- servers and the timers, so that a handler, a tick or a message is one step of the daemon; the
-- counters of bytes in the protocol loops, which are never read; loadConfig, which only reads a
-- file; signals; the locks, whose effect is that an operation of the store is one step (a scan,
-- which calls several, is one step of the daemon, and in Cluster also a sequence of steps with
-- others in between); and, in Daemon, that a receive loop which has ended, after /leave, reads no
-- more (in Protocol/Receiver it does not).
pub mod Prelude
pub mod Go
pub mod Node
pub mod Config
pub mod Store
pub mod Inflight
pub mod Suspicion
pub mod Wire
pub mod Protocol
pub mod Daemon
pub mod Cluster
mod Tests
