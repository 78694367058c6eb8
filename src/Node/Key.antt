-- ===== src/Node/Key.antt =====
-- EndpointToString of src/pkg/node/nodeid.go, which gives the keys of the membership table.
use failure_detector.Prelude.{ℕ, ◌<◌, ◌≡◌, ◌≢◌, refl, sym, ◌∙◌, [], ◌∷◌, ◌++◌, arith, All}
use mathlib.Core.List.{append_assoc}
use failure_detector.Go.Text.{Text, decimal, decimal-All, decimal-injective}
use failure_detector.Go.Netip.{Addr, ip4, dotted, addr_to_string}
use failure_detector.Node.{Endpoint, endpoint_to_string}

-- The text `s` lacks the separator `c`.
abbrev Lacks : ℕ → Text → Type 0
Lacks c = All (λ x. x ≢ c)

-- Text is split at its first separator in one way only.
split_unique :
    (c : ℕ) (s t u v : Text)
    → Lacks c s
    → Lacks c t
    → s ++ (c ∷ u) ≡ t ++ (c ∷ v)
    → (s ≡ t) × (u ≡ v)
split_unique c [] [] u v hs ht e = (refl, ground arith)
split_unique c [] (y ∷ t) u v hs ht e = absurd (ht.0 (ground arith))
split_unique c (x ∷ s) [] u v hs ht e = absurd (hs.0 (ground arith))
split_unique c (x ∷ s) (y ∷ t) u v hs ht e =
    let (p, q) = split_unique c s t u v hs.1 ht.1 (ground arith) in (ground arith, q)

decimal-Lacks : (c n : ℕ) → c < b'0' → Lacks c (decimal n)
decimal-Lacks c n h = decimal-All (λ x. x ≢ c) n (λ x d. omega arith)

decimal-Lacks_colon : (n : ℕ) → Lacks b':' (decimal n)
decimal-Lacks_colon n = decimal-All (λ x. x ≢ b':') n (λ x d. omega arith)

-- The text of an IPv4 endpoint, bracketed to the right.
flat_text : ℕ → ℕ → ℕ → ℕ → ℕ → Text
flat_text a b c d port =
    decimal a
    ++ (b'.' ∷ (decimal b ++ (b'.' ∷ (decimal c ++ (b'.' ∷ (decimal d ++ (b':' ∷ decimal port)))))))

flat_text_lem :
    (a b c d port : ℕ)
    → addr_to_string (ip4 a b c d) ++ (b':' ∷ decimal port) ≡ flat_text a b c d port
unfolding flat_text addr_to_string dotted
flat_text_lem a b c d port = simp append_assoc

split_dot :
    (m n : ℕ) (u v : Text)
    → m < 256
    → n < 256
    → decimal m ++ (b'.' ∷ u) ≡ decimal n ++ (b'.' ∷ v)
    → (m ≡ n) × (u ≡ v)
split_dot m n u v hm hn e =
    let (p, q) =
      split_unique b'.' (decimal m) (decimal n) u v (decimal-Lacks b'.' m (omega arith))
        (decimal-Lacks b'.' n (omega arith)) e in
    (decimal-injective m n (omega arith) (omega arith) p, q)

split_colon :
    (m n k l : ℕ)
    → m < 256
    → n < 256
    → k < 65536
    → l < 65536
    → decimal m ++ (b':' ∷ decimal k) ≡ decimal n ++ (b':' ∷ decimal l)
    → (m ≡ n) × (k ≡ l)
split_colon m n k l hm hn hk hl e =
    let (p, q) =
      split_unique b':' (decimal m) (decimal n) _ _ (decimal-Lacks_colon m) (decimal-Lacks_colon n)
        e in
    (
      decimal-injective m n (omega arith) (omega arith) p,
      decimal-injective k l (omega arith) (omega arith) q,
    )

-- An IPv4 address, its four bytes in range.
abbrev pub IsIp4 : Addr → Type 0
IsIp4 (ip4 a b c d) = (a < 256) × (b < 256) × (c < 256) × (d < 256)
IsIp4 _ = ⊥

text-injective :
    (x y : Addr) (k l : ℕ)
    → IsIp4 x
    → IsIp4 y
    → k < 65536
    → l < 65536
    → addr_to_string x ++ (b':' ∷ decimal k) ≡ addr_to_string y ++ (b':' ∷ decimal l)
    → (x ≡ y) × (k ≡ l)
unfolding flat_text
text-injective (ip4 a b c d) (ip4 a' b' c' d') k l hx hy hk hl e =
    let e' = sym (flat_text_lem a b c d k) ∙ e ∙ flat_text_lem a' b' c' d' l in
    let (pa, ea) = split_dot a a' _ _ hx.0 hy.0 e' in
    let (pb, eb) = split_dot b b' _ _ hx.1 hy.1 ea in
    let (pc, ec) = split_dot c c' _ _ hx.2 hy.2 eb in
    let (pd, ed) = split_colon d d' k l hx.3 hy.3 hk hl ec in (rw (pa, pb, pc, pd), ed)
text-injective (ip4 _ _ _ _) _ k l hx hy hk hl e = absurd hy
text-injective _ _ k l hx hy hk hl e = absurd hx

-- Two IPv4 endpoints with the same text are the same endpoint: no two of them share a row of the
-- membership table.
pub endpoint_to_string-injective :
    (e f : Endpoint)
    → IsIp4 e.ip
    → IsIp4 f.ip
    → e.port < 65536
    → f.port < 65536
    → endpoint_to_string e ≡ endpoint_to_string f
    → e ≡ f
unfolding endpoint_to_string
endpoint_to_string-injective e f he hf pe pf h =
    let (p, q) = text-injective e.ip f.ip e.port f.port he hf pe pf h in
    λ i. record { ip = p i; port = q i }
