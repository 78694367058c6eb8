-- ===== src/Go/Netip.antt =====
-- netip.Addr of net/netip.
use failure_detector.Prelude.{
  ℕ, Bool, true, false, ◌&&◌, ◌==◌, List, [], ◌∷◌, ◌++◌, Option, none, some, ℕ_discrete,
  if◌then◌else◌,
}
use failure_detector.Go.Text.{Text, codes, decimal}

-- The zero Addr, an IPv4 address by its bytes, an IPv4-mapped IPv6 address by the bytes of the
-- IPv4 address, or any other IPv6 address by its text.
pub data Addr : Type 0 where
  no_addr : Addr
  ip4 : ℕ → ℕ → ℕ → ℕ → Addr
  ip4in6 : ℕ → ℕ → ℕ → ℕ → Addr
  ip6 : Text → Addr

unfoldable pub addr_discrete : Discrete Addr
unfolding ℕ_discrete
addr_discrete = hlevel ℕ_discrete

unfoldable pub dotted : ℕ → ℕ → ℕ → ℕ → Text
dotted a b c d = decimal a ++ (b'.' ∷ (decimal b ++ (b'.' ∷ (decimal c ++ (b'.' ∷ decimal d)))))

-- `a.String()`
unfoldable pub addr_to_string : Addr → Text
addr_to_string no_addr = codes "invalid IP"
addr_to_string (ip4 a b c d) = dotted a b c d
addr_to_string (ip4in6 a b c d) = codes "::ffff:" ++ dotted a b c d
addr_to_string (ip6 text) = text

-- `a.IsValid()`
abbrev pub is_valid : Addr → Bool
is_valid no_addr = false
is_valid _ = true

-- `a.Is4()`
abbrev pub is4 : Addr → Bool
is4 (ip4 a b c d) = true
is4 _ = false

-- `a.As4()`, which panics where this is `none`
abbrev pub as4 : Addr → Option (ℕ × ℕ × ℕ × ℕ)
as4 no_addr = none
as4 (ip4 a b c d) = some (a, b, c, d)
as4 (ip4in6 a b c d) = some (a, b, c, d)
as4 (ip6 text) = none

-- The twelve bytes before the IPv4 address of an IPv4-mapped IPv6 address.
abbrev pub mapped_prefix : List ℕ → List ℕ
mapped_prefix bs = 0 ∷ 0 ∷ 0 ∷ 0 ∷ 0 ∷ 0 ∷ 0 ∷ 0 ∷ 0 ∷ 0 ∷ 255 ∷ 255 ∷ bs

abbrev pub same_bytes : List ℕ → List ℕ → Bool
same_bytes [] [] = true
same_bytes [] (y ∷ ys) = false
same_bytes (x ∷ xs) [] = false
same_bytes (x ∷ xs) (y ∷ ys) = (x == y) && same_bytes xs ys

-- `AddrFromSlice(bs)`: 4 or 16 bytes. `text6` gives the texts of IPv6 addresses.
unfoldable pub addr_from_slice : (List ℕ → Text) → List ℕ → Option Addr
addr_from_slice text6 (a ∷ b ∷ c ∷ d ∷ []) = some (ip4 a b c d)
addr_from_slice text6 (h ∷ i ∷ j ∷ k ∷ l ∷ m ∷ n ∷ o ∷ p ∷ q ∷ r ∷ s ∷ a ∷ b ∷ c ∷ d ∷ []) =
    let bs = h ∷ i ∷ j ∷ k ∷ l ∷ m ∷ n ∷ o ∷ p ∷ q ∷ r ∷ s ∷ a ∷ b ∷ c ∷ d ∷ [] in
    if same_bytes bs (mapped_prefix (a ∷ b ∷ c ∷ d ∷ []))
    then some (ip4in6 a b c d)
    else some (ip6 (text6 bs))
addr_from_slice text6 _ = none
