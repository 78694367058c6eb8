-- ===== src/Go.antt =====
-- What the program uses of Go's standard library: text, times and durations, floats, addresses.
pub mod Text
pub mod Clock
pub mod Float
pub mod Netip
