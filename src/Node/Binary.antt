-- ===== src/Node/Binary.antt =====
-- MarshalBinary and UnmarshalBinary of src/pkg/node/nodeid.go.
use failure_detector.Prelude.{
  ℕ, ◌+◌, ◌*◌, ◌/◌, ◌%◌, ◌^◌, ◌<◌, ◌≡◌, refl, List, [], ◌∷◌, ◌++◌, Option, none, some, arith,
  if◌then◌else◌,
}
use mathlib.Core.Path.{ap₂}
use failure_detector.Go.Netip.{ip4, as4}
use failure_detector.Node.{NodeId, NodeError, zero_endpoint, is_zero}

-- The result of MarshalBinary; `panics` is the panic of `As4` on an IPv6 address.
pub data Marshalled : Type 0 where
  bytes : List ℕ → Marshalled
  marshal_error : NodeError → Marshalled
  panics : Marshalled

-- binary.BigEndian.PutUint16
abbrev put_u16 : ℕ → List ℕ
put_u16 x = (x / 0x100 % 256) ∷ (x % 256) ∷ []

-- binary.BigEndian.PutUint64
abbrev put_u64 : ℕ → List ℕ
put_u64 x =
    (x / 0x100000000000000 % 256)
    ∷ (x / 0x1000000000000 % 256)
    ∷ (x / 0x10000000000 % 256)
    ∷ (x / 0x100000000 % 256)
    ∷ (x / 0x1000000 % 256)
    ∷ (x / 0x10000 % 256)
    ∷ (x / 0x100 % 256)
    ∷ (x % 256)
    ∷ []

write_buf : NodeId → Option (ℕ × ℕ × ℕ × ℕ) → Marshalled
write_buf n none = panics
write_buf n (some (a, b, c, d)) =
    bytes (a ∷ b ∷ c ∷ d ∷ (put_u16 n.ep.port ++ put_u64 n.time_stamp))

unfoldable pub marshal_binary : NodeId → Marshalled
unfolding write_buf is_zero
marshal_binary n = if is_zero n.ep then marshal_error zero_endpoint else write_buf n (as4 n.ep.ip)

-- UnmarshalBinary, as the error or the NodeID stored into the receiver. Bytes behind the
-- fourteenth are not read. `AddrFromSlice` of four bytes always gives an IPv4 address.
unfoldable pub unmarshal_binary : List ℕ → Option NodeId
unmarshal_binary (a ∷ b ∷ c ∷ d ∷ p1 ∷ p0 ∷ t7 ∷ t6 ∷ t5 ∷ t4 ∷ t3 ∷ t2 ∷ t1 ∷ t0 ∷ rest) =
    some (record {
      ep = record { ip = ip4 a b c d; port = p1 * 0x100 + p0 };
      time_stamp =
          t7 * 0x100000000000000
          + t6 * 0x1000000000000
          + t5 * 0x10000000000
          + t4 * 0x100000000
          + t3 * 0x1000000
          + t2 * 0x10000
          + t1 * 0x100
          + t0;
    })
unmarshal_binary _ = none

join_u64 :
    (x : ℕ)
    → x < 2 ^ 64
    → x / 0x100000000000000 % 256 * 0x100000000000000
        + x / 0x1000000000000 % 256 * 0x1000000000000
        + x / 0x10000000000 % 256 * 0x10000000000
        + x / 0x100000000 % 256 * 0x100000000
        + x / 0x1000000 % 256 * 0x1000000
        + x / 0x10000 % 256 * 0x10000
        + x / 0x100 % 256 * 0x100
        + x % 256
      ≡ x
join_u64 x h = omega arith

-- Decoding what MarshalBinary wrote, also with more bytes behind it, gives the NodeID.
pub unmarshal_binary-marshal_binary :
    (a b c d port time : ℕ) (rest : List ℕ)
    → port < 65536
    → time < 2 ^ 64
    → let n : NodeId = record {
      ep = record { ip = ip4 a b c d; port = port };
      time_stamp = time;
    } in
      (buf : List ℕ) × (marshal_binary n ≡ bytes buf) × (unmarshal_binary (buf ++ rest) ≡ some n)
unfolding marshal_binary unmarshal_binary
unmarshal_binary-marshal_binary a b c d port time rest hp ht = (
  _,
  refl,
  ap₂ (λ p t. some (record { ep = record { ip = ip4 a b c d; port = p }; time_stamp = t }))
      (omega arith) (join_u64 time ht),
)
