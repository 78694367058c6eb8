-- ===== src/Node/Parse.antt =====
-- The text form of src/pkg/node/nodeid.go: ParseStringToEndpoint, ParseStringToNodeID, MustParse,
-- MarshalText and UnmarshalText. `ParseAddrPort` of Go's net/netip is a parameter.
pub mod RoundTrip
use failure_detector.Prelude.{
  ℕ, ◌<◌, ◌≡◌, ◌≢◌, ◌⊎◌, inl, inr, refl, List, [], ◌∷◌, ◌++◌, Option, none, some, arith, All, ◌==◌,
  Bool-cases, Option-cases, true, if◌then◌else◌,
}
use failure_detector.Prelude.Int.{u64_mod}
use failure_detector.Go.Text.{Text, parse_uint, decimal, decimal-All, parse_uint-decimal}
use failure_detector.Go.Netip.{Addr, no_addr, ip4, ip4in6, ip6, is4, dotted, addr_to_string}
use failure_detector.Node.{
  Endpoint, NodeId, NodeError, parse_error, not_ip4, bad_addr_port, endpoint_to_string,
  id_to_string,
}
use failure_detector.Node.Key.{IsIp4}

-- netip.ParseAddrPort
pub record AddrPortText : Type 0 where
  pub parse : Text → Option (Addr × ℕ)
  -- the text of an IPv4 address and a port is read back
  pub parse-ip4 :
      (a : Addr) (port : ℕ)
      → IsIp4 a
      → port < 65536
      → parse (addr_to_string a ++ (b':' ∷ decimal port)) ≡ some (a, port)
  -- a port is a uint16
  pub parse-port : (s : Text) (a : Addr) (port : ℕ) → parse s ≡ some (a, port) → port < 65536

-- The first part gets one more byte.
abbrev pub grow : ℕ → List Text → List Text
grow c [] = []
grow c (p ∷ ps) = (c ∷ p) ∷ ps

-- strings.Split, for a separator of one byte
unfoldable pub split : ℕ → Text → List Text
split sep [] = [] ∷ []
split sep (c ∷ s) = let parts = split sep s in if c == sep then [] ∷ parts else grow c parts

module _ (ap : AddrPortText) where
  abbrev pub only_ip4 : Option (Addr × ℕ) → NodeError ⊎ Endpoint
  only_ip4 none = inl bad_addr_port
  only_ip4 (some (a, port)) = if is4 a then inr (record { ip = a; port = port }) else inl not_ip4

  -- ParseStringToEndpoint
  unfoldable pub parse_endpoint : Text → NodeError ⊎ Endpoint
  parse_endpoint s = only_ip4 (ap.parse s)

  abbrev pub with_boot : NodeError ⊎ Endpoint → Option ℕ → NodeError ⊎ NodeId
  with_boot (inl e) o = inl e
  with_boot (inr ep) none = inl parse_error
  with_boot (inr ep) (some boot) = inr (record { ep = ep; time_stamp = boot })

  abbrev pub parse_parts : List Text → NodeError ⊎ NodeId
  parse_parts (p ∷ q ∷ []) = with_boot (parse_endpoint p) (parse_uint q)
  parse_parts _ = inl parse_error

  -- ParseStringToNodeID
  unfoldable pub parse_id : Text → NodeError ⊎ NodeId
  unfolding parse_endpoint split
  parse_id s = parse_parts (split b'@' s)

  abbrev pub stored : NodeId → NodeError ⊎ NodeId → NodeId × Option NodeError
  stored n (inl e) = (n, some e)
  stored n (inr id) = (id, none)

  -- UnmarshalText: the receiver afterwards, and the error
  unfoldable pub unmarshal_text : Text → NodeId → NodeId × Option NodeError
  unfolding parse_id
  unmarshal_text s n = stored n (parse_id s)

-- MustParse: `none` is the panic
unfoldable pub must_parse : AddrPortText → Text → Option NodeId
must_parse ap s = elim (parse_id ap s) [ inl e ↦ none | inr n ↦ some n ]

-- MarshalText
unfoldable pub marshal_text : NodeId → Text
marshal_text n = id_to_string n
