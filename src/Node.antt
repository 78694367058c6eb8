-- ===== src/Node.antt =====
-- src/pkg/node/nodeid.go: endpoints and node identities. The text parser is in Node/Parse, the binary
-- form in Node/Binary.
pub mod Binary
pub mod Key
pub mod Order
pub mod Parse
use failure_detector.Prelude.{
  ℕ, ◌≡◌, Bool, true, false, not, List, ◌++◌, ◌∷◌, Option, none, some, ltb, ◌==◌, if◌then◌else◌,
  ℕ_discrete,
}
use failure_detector.Prelude.Int.{ℤ, pos, negsuc}
use failure_detector.Go.Text.{Text, codes, decimal}
use failure_detector.Go.Netip.{Addr, is_valid, is4, as4, addr_discrete, addr_to_string}

-- Endpoint
pub record Endpoint : Type 0 where
  pub ip : Addr
  pub port : ℕ  -- uint16

-- NodeID
pub record NodeId : Type 0 where
  pub ep : Endpoint
  pub time_stamp : ℕ  -- uint64

pub Endpoint-discrete : Discrete Endpoint
Endpoint-discrete = hlevel (ℕ_discrete, addr_discrete)

-- `a == b` on NodeIDs
unfoldable pub NodeId-discrete : Discrete NodeId
unfolding ℕ_discrete addr_discrete
NodeId-discrete = hlevel (ℕ_discrete, addr_discrete)

-- EndpointToString
unfoldable pub endpoint_to_string : Endpoint → Text
endpoint_to_string e = addr_to_string e.ip ++ (b':' ∷ decimal e.port)

-- Endpoint.IsZero
unfoldable pub is_zero : Endpoint → Bool
is_zero e = not (is_valid e.ip)

-- New, at the time `now` in nanoseconds since the Unix epoch
unfoldable pub new_id : Endpoint → ℕ → NodeId
new_id ep now = record { ep = ep; time_stamp = now }

-- Compare
unfoldable pub compare_id : NodeId → NodeId → ℤ
compare_id a b =
    if ltb a.time_stamp b.time_stamp
    then negsuc 0
    else if ltb b.time_stamp a.time_stamp
    then pos 1
    else pos 0

-- NodeIDToString
unfoldable pub id_to_string : NodeId → Text
id_to_string n = endpoint_to_string n.ep ++ (b'@' ∷ decimal n.time_stamp)

pub data NodeError : Type 0 where
  zero_endpoint zero_port not_ip4 short_buffer parse_error bad_addr_port : NodeError

-- Validate; `none` is the nil error
unfoldable pub validate : NodeId → Option NodeError
unfolding is_zero
validate n =
    if is_zero n.ep
    then some zero_endpoint
    else if n.ep.port == 0
    then some zero_port
    else if not (is4 n.ep.ip)
    then some not_ip4
    else none
