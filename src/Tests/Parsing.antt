-- ===== src/Tests/Parsing.antt =====
-- The text form of src/pkg/node/nodeid.go at a node.
use failure_detector.Prelude.{
  ℕ, All, List, ◌≢◌, ◌<◌, ◌≡◌, ◌⊎◌, inl, inr, refl, [], ◌∷◌, ◌++◌, Option, none, some, arith, ltb,
  if◌then◌else◌,
}
use failure_detector.Prelude.Int.{u64_mod}
use failure_detector.Go.Text.{Text, codes, decimal, parse_uint, decimal-All, parse_uint-decimal}
use failure_detector.Go.Netip.{Addr, no_addr, ip4in6, ip6, ip4, addr_to_string, dotted}
use failure_detector.Node.{parse_error, id_to_string}
use failure_detector.Node.Key.{IsIp4}
use failure_detector.Node.Parse.RoundTrip.{
  split_first, split_part, split_whole, All-append, parse_id-id_to_string,
}
use failure_detector.Node.Parse.{AddrPortText, parse_id, split}
use failure_detector.Tests.Samples.{node_a}

-- A parser of IPv4 address-port texts.
abbrev below : ℕ → Option ℕ → Option ℕ
below limit none = none
below limit (some n) = if ltb n limit then some n else none

abbrev quad : Option ℕ → Option ℕ → Option ℕ → Option ℕ → Option ℕ → Option (Addr × ℕ)
quad (some a) (some b) (some c) (some d) (some port) = some (ip4 a b c d, port)
quad _ _ _ _ _ = none

abbrev four : List Text → Option ℕ → Option (Addr × ℕ)
four (a ∷ b ∷ c ∷ d ∷ []) port =
    quad (below 256 (parse_uint a)) (below 256 (parse_uint b)) (below 256 (parse_uint c))
      (below 256 (parse_uint d)) port
four _ port = none

abbrev host_port : List Text → Option (Addr × ℕ)
host_port (h ∷ p ∷ []) = four (split b'.' h) (below 65536 (parse_uint p))
host_port _ = none

unfoldable pub dotted_parse : Text → Option (Addr × ℕ)
dotted_parse s = host_port (split b':' s)

below-decimal :
    (limit n : ℕ) → limit < u64_mod → n < limit → below limit (parse_uint (decimal n)) ≡ some n
below-decimal limit n l h = ground (arith, parse_uint-decimal n (omega arith))

decimal-Lacks : (c n : ℕ) → (c < b'0') ⊎ (b'9' < c) → All (λ x. x ≢ c) (decimal n)
decimal-Lacks c n h = decimal-All (λ x. x ≢ c) n (λ x d. omega arith)

dotted-split :
    (a b c d : ℕ) → split b'.' (dotted a b c d) ≡ decimal a ∷ decimal b ∷ decimal c ∷ decimal d ∷ []
unfolding dotted
dotted-split a b c d =
    let dot = λ (n : ℕ). decimal-Lacks b'.' n (inl (omega arith)) in
    rw
      (
        split_first b'.' (decimal a) _ (dot a),
        split_first b'.' (decimal b) _ (dot b),
        split_first b'.' (decimal c) _ (dot c),
        split_whole b'.' (decimal d) (dot d),
      )
      refl

dotted-Lacks : (a b c d : ℕ) → All (λ x. x ≢ b':') (dotted a b c d)
unfolding dotted
dotted-Lacks a b c d =
    let free = λ (n : ℕ). decimal-Lacks b':' n (inr (omega arith)) in
    let dot : b'.' ≢ b':' = λ e. omega (arith, e) in
    let P = λ (x : ℕ). x ≢ b':' in
    All-append P (decimal a) _ (free a) (
      dot,
      All-append P (decimal b) _ (free b) (dot, All-append P (decimal c) _ (free c) (dot, free d)),
    )

pub dotted_parse-ip4 :
    (a : Addr) (port : ℕ)
    → IsIp4 a
    → port < 65536
    → dotted_parse (addr_to_string a ++ (b':' ∷ decimal port)) ≡ some (a, port)
unfolding dotted_parse addr_to_string
dotted_parse-ip4 no_addr port h p = elim h [ ]
dotted_parse-ip4 (ip4 a b c d) port h p =
    rw
      (
        split_part b':' (dotted a b c d) (decimal port) (dotted-Lacks a b c d)
            (decimal-Lacks b':' port (inr (omega arith))),
        dotted-split a b c d,
        below-decimal 256 a (omega arith) h.0,
        below-decimal 256 b (omega arith) h.1,
        below-decimal 256 c (omega arith) h.2,
        below-decimal 256 d (omega arith) h.3,
        below-decimal 65536 port (omega arith) p,
      )
      refl
dotted_parse-ip4 (ip4in6 a b c d) port h p = elim h [ ]
dotted_parse-ip4 (ip6 s) port h p = elim h [ ]

quad-port :
    (a b c d o : Option ℕ) (x : Addr) (port : ℕ) → quad a b c d o ≡ some (x, port) → o ≡ some port
quad-port none b c d o x port h = absurd (ground arith)
quad-port (some a) none c d o x port h = absurd (ground arith)
quad-port (some a) (some b) none d o x port h = absurd (ground arith)
quad-port (some a) (some b) (some c) none o x port h = absurd (ground arith)
quad-port (some a) (some b) (some c) (some d) none x port h = absurd (ground arith)
quad-port (some a) (some b) (some c) (some d) (some n) x port h = ground arith

below_lem : (limit : ℕ) (o : Option ℕ) (n : ℕ) → below limit o ≡ some n → n < limit
below_lem limit none n h = absurd (ground arith)
below_lem limit (some m) n h = ground arith

four-port :
    (ps : List Text) (o : Option ℕ) (x : Addr) (port : ℕ)
    → four ps o ≡ some (x, port)
    → o ≡ some port
four-port [] o x port h = absurd (ground arith)
four-port (a ∷ []) o x port h = absurd (ground arith)
four-port (a ∷ b ∷ []) o x port h = absurd (ground arith)
four-port (a ∷ b ∷ c ∷ []) o x port h = absurd (ground arith)
four-port (a ∷ b ∷ c ∷ d ∷ []) o x port h = quad-port _ _ _ _ o x port h
four-port (a ∷ b ∷ c ∷ d ∷ e ∷ ps) o x port h = absurd (ground arith)

host_port-port :
    (ps : List Text) (x : Addr) (port : ℕ) → host_port ps ≡ some (x, port) → port < 65536
host_port-port [] x port h = absurd (ground arith)
host_port-port (p ∷ []) x port h = absurd (ground arith)
host_port-port (p ∷ q ∷ []) x port h =
    below_lem 65536 (parse_uint q) port (four-port (split b'.' p) _ x port h)
host_port-port (p ∷ q ∷ r ∷ ps) x port h = absurd (ground arith)

pub dotted_parse-port :
    (s : Text) (x : Addr) (port : ℕ) → dotted_parse s ≡ some (x, port) → port < 65536
unfolding dotted_parse
dotted_parse-port s x port h = host_port-port (split b':' s) x port h

abbrev pub dotted_text : AddrPortText
dotted_text = record {
  parse = dotted_parse;
  parse-ip4 = dotted_parse-ip4;
  parse-port = dotted_parse-port;
}

parse_id-id_to_string_example : parse_id dotted_text (id_to_string node_a) ≡ inr node_a
parse_id-id_to_string_example =
    parse_id-id_to_string dotted_text node_a (omega arith, omega arith, omega arith, omega arith)
      (omega arith) (omega arith)

unreadable : parse_id dotted_text (codes "10.0.0.1:80") ≡ inl parse_error
unfolding parse_id dotted_parse
unreadable = refl
