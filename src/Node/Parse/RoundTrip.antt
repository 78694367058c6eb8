-- ===== src/Node/Parse/RoundTrip.antt =====
-- What the parser of src/pkg/node/nodeid.go reads, and that it reads what NodeIDToString printed.
use failure_detector.Prelude.{
  ℕ, ◌<◌, ◌≡◌, ◌≢◌, ◌⊎◌, inl, inr, refl, List, [], ◌∷◌, ◌++◌, Option, none, some, arith, All, ◌==◌,
  Bool-cases, Option-cases, true,
}
use failure_detector.Prelude.Int.{u64_mod}
use failure_detector.Go.Text.{Text, parse_uint, decimal, decimal-All, parse_uint-decimal}
use failure_detector.Go.Netip.{Addr, no_addr, ip4, ip4in6, ip6, is4, dotted, addr_to_string}
use failure_detector.Node.{Endpoint, NodeId, NodeError, endpoint_to_string, id_to_string}
use failure_detector.Node.Key.{IsIp4}
use failure_detector.Node.Parse.{
  AddrPortText, grow, split, parse_endpoint, with_boot, parse_parts, parse_id,
}

-- Text without the separator is one part; the separator starts the next one.
pub split_whole : (sep : ℕ) (t : Text) → All (λ x. x ≢ sep) t → split sep t ≡ t ∷ []
unfolding split
split_whole sep [] h = refl
split_whole sep (c ∷ t) h = ground (arith, split_whole sep t h.1, h.0)

pub split_first :
    (sep : ℕ) (s t : Text) → All (λ x. x ≢ sep) s → split sep (s ++ (sep ∷ t)) ≡ s ∷ split sep t
unfolding split
split_first sep [] t hs = ground arith
split_first sep (c ∷ s) t hs = ground (arith, split_first sep s t hs.1, hs.0)

pub split_part :
    (sep : ℕ) (s t : Text)
    → All (λ x. x ≢ sep) s
    → All (λ x. x ≢ sep) t
    → split sep (s ++ (sep ∷ t)) ≡ s ∷ t ∷ []
split_part sep s t hs ht = rw (split_first sep s t hs, split_whole sep t ht) refl

pub All-append : (P : ℕ → Type 0) (s t : Text) → All P s → All P t → All P (s ++ t)
All-append P [] t hs ht = ht
All-append P (c ∷ s) t hs ht = (hs.0, All-append P s t hs.1 ht)

abbrev pub NoAt : ℕ → Type 0
NoAt c = c ≢ b'@'

pub decimal-NoAt : (n : ℕ) → All NoAt (decimal n)
decimal-NoAt n = decimal-All NoAt n (λ c d. omega arith)

pub part-NoAt : (n c : ℕ) (s : Text) → NoAt c → All NoAt s → All NoAt (decimal n ++ (c ∷ s))
part-NoAt n c s h r = All-append NoAt (decimal n) (c ∷ s) (decimal-NoAt n) (h, r)

addr-NoAt : (a : Addr) → IsIp4 a → All NoAt (addr_to_string a)
unfolding addr_to_string dotted
addr-NoAt no_addr h = elim h [ ]
addr-NoAt (ip4 a b c d) h =
    let dot : NoAt b'.' = λ e. omega (arith, e) in
    part-NoAt a b'.' _ dot (part-NoAt b b'.' _ dot (part-NoAt c b'.' _ dot (decimal-NoAt d)))
addr-NoAt (ip4in6 a b c d) h = elim h [ ]
addr-NoAt (ip6 s) h = elim h [ ]

endpoint-NoAt : (ep : Endpoint) → IsIp4 ep.ip → All NoAt (endpoint_to_string ep)
unfolding endpoint_to_string
endpoint-NoAt ep h =
    All-append NoAt (addr_to_string ep.ip) (b':' ∷ decimal ep.port) (addr-NoAt ep.ip h)
      ((λ e. omega (arith, e)), decimal-NoAt ep.port)

IsIp4-is4 : (a : Addr) → IsIp4 a → is4 a ≡ true
IsIp4-is4 no_addr h = elim h [ ]
IsIp4-is4 (ip4 a b c d) h = refl
IsIp4-is4 (ip4in6 a b c d) h = elim h [ ]
IsIp4-is4 (ip6 s) h = elim h [ ]

grow_none : (c : ℕ) (ps : List Text) → grow c ps ≡ [] → ps ≡ []
grow_none c [] h = refl
grow_none c (p ∷ ps) h = absurd (ground arith)

split-ne-nil : (sep : ℕ) (s : Text) → split sep s ≢ []
unfolding split
split-ne-nil sep [] h = absurd (ground arith)
split-ne-nil sep (c ∷ s) h = elim (Bool-cases (c == sep)) [
  | inl same ↦ absurd (ground arith)
  | inr other ↦ split-ne-nil sep s (grow_none c (split sep s) (ground arith))
]

-- What text splits into two parts.
grow_one :
    (c : ℕ) (ps : List Text) (p : Text)
    → grow c ps ≡ p ∷ []
    → (p' : Text) × (ps ≡ p' ∷ []) × (p ≡ c ∷ p')
grow_one c [] p h = absurd (ground arith)
grow_one c (x ∷ []) p h = (x, refl, ground arith)
grow_one c (x ∷ y ∷ ps) p h = absurd (ground arith)

grow_two :
    (c : ℕ) (ps : List Text) (p q : Text)
    → grow c ps ≡ p ∷ q ∷ []
    → (p' : Text) × (ps ≡ p' ∷ q ∷ []) × (p ≡ c ∷ p')
grow_two c [] p q h = absurd (ground arith)
grow_two c (x ∷ []) p q h = absurd (ground arith)
grow_two c (x ∷ y ∷ []) p q h = (x, ground arith, ground arith)
grow_two c (x ∷ y ∷ z ∷ ps) p q h = absurd (ground arith)

split-one : (sep : ℕ) (s p : Text) → split sep s ≡ p ∷ [] → s ≡ p
unfolding split
split-one sep [] p h = ground arith
split-one sep (c ∷ s) p h = elim (Bool-cases (c == sep)) [
  | inl same ↦ absurd (split-ne-nil sep s (ground arith))
  | inr other ↦
      let (p', e, f) = grow_one c (split sep s) p (ground arith) in
      ground (arith, split-one sep s p' e)
]

split-two : (sep : ℕ) (s p q : Text) → split sep s ≡ p ∷ q ∷ [] → s ≡ p ++ (sep ∷ q)
unfolding split
split-two sep [] p q h = absurd (ground arith)
split-two sep (c ∷ s) p q h = elim (Bool-cases (c == sep)) [
  | inl same ↦ ground (arith, split-one sep s q (ground arith))
  | inr other ↦
      let (p', e, f) = grow_two c (split sep s) p q (ground arith) in
      ground (arith, split-two sep s p' q e)
]

module _ (ap : AddrPortText) where
  parse_endpoint-endpoint_to_string :
      (ep : Endpoint)
      → IsIp4 ep.ip
      → ep.port < 65536
      → parse_endpoint ap (endpoint_to_string ep) ≡ inr ep
  unfolding parse_endpoint endpoint_to_string
  parse_endpoint-endpoint_to_string ep h p =
      ground (arith, ap.parse-ip4 ep.ip ep.port h p, IsIp4-is4 ep.ip h)

  -- Parsing the text of an IPv4 node gives the NodeID.
  pub parse_id-id_to_string :
      (n : NodeId)
      → IsIp4 n.ep.ip
      → n.ep.port < 65536
      → n.time_stamp < u64_mod
      → parse_id ap (id_to_string n) ≡ inr n
  unfolding parse_id id_to_string
  parse_id-id_to_string n h p t =
      rw
        (
          split_part b'@' (endpoint_to_string n.ep) (decimal n.time_stamp) (endpoint-NoAt n.ep h)
              (decimal-NoAt n.time_stamp),
          parse_endpoint-endpoint_to_string n.ep h p,
          parse_uint-decimal n.time_stamp t,
        )
        refl

  parse_endpoint-ok :
      (s : Text) (ep : Endpoint)
      → parse_endpoint ap s ≡ inr ep
      → (ap.parse s ≡ some (ep.ip, ep.port)) × (is4 ep.ip ≡ true)
  unfolding parse_endpoint
  parse_endpoint-ok s ep h = elim (Option-cases (ap.parse s)) [
    | inl e ↦ absurd (ground arith)
    | inr ((a, port), e) ↦ elim (Bool-cases (is4 a)) [
      | inl four ↦ ground arith
      | inr other ↦ absurd (ground arith)
    ]
  ]

  with_boot-ok :
      (r : NodeError ⊎ Endpoint) (o : Option ℕ) (n : NodeId)
      → with_boot ap r o ≡ inr n
      → (r ≡ inr n.ep) × (o ≡ some n.time_stamp)
  with_boot-ok (inl e) o n h = absurd (ground arith)
  with_boot-ok (inr ep) none n h = absurd (ground arith)
  with_boot-ok (inr ep) (some b) n h = ground arith

  parse_parts-ok :
      (ps : List Text) (n : NodeId)
      → parse_parts ap ps ≡ inr n
      → (p : Text) × (q : Text) × (ps ≡ p ∷ q ∷ [])
        × (with_boot ap (parse_endpoint ap p) (parse_uint q) ≡ inr n)
  parse_parts-ok [] n h = absurd (ground arith)
  parse_parts-ok (p ∷ []) n h = absurd (ground arith)
  parse_parts-ok (p ∷ q ∷ []) n h = (p, q, refl, h)
  parse_parts-ok (p ∷ q ∷ r ∷ ps) n h = absurd (ground arith)

  -- Text that is parsed is the text of an IPv4 endpoint, as ParseAddrPort reads it, an at sign and
  -- a decimal uint64, and the NodeID consists of the two.
  pub parse_id_lem :
      (s : Text) (n : NodeId)
      → parse_id ap s ≡ inr n
      → (p : Text) × (q : Text) × (s ≡ p ++ (b'@' ∷ q))
        × (ap.parse p ≡ some (n.ep.ip, n.ep.port))
        × (is4 n.ep.ip ≡ true)
        × (n.ep.port < 65536)
        × (parse_uint q ≡ some n.time_stamp)
  unfolding parse_id
  parse_id_lem s n h =
      let (p, q, parts, made) = parse_parts-ok (split b'@' s) n h in
      let (ep, boot) = with_boot-ok (parse_endpoint ap p) (parse_uint q) n made in
      let (addr, four) = parse_endpoint-ok p n.ep ep in
      (p, q, split-two b'@' s p q parts, addr, four, ap.parse-port p n.ep.ip n.ep.port addr, boot)
