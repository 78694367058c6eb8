-- ===== src/Tests.antt =====
-- Runs of the modelled code on small inputs, and each theorem at an input that meets its hypotheses.
mod Samples
mod Nodes
mod Configs
mod Daemons
mod Loading
mod Booting
mod Handshakes
mod Loops
mod Parsing
mod Clusters
mod Stores
mod Switches
mod Departures
mod Reconciles
mod Goroutines
mod Inflights
mod Scans
