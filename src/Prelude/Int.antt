-- ===== src/Prelude/Int.antt =====
-- Signed integers over the native numbers, and the arithmetic of Go's 64-bit integer types.
use failure_detector.Prelude.Tests.{ltb, leb, if◌then◌else◌}
use Prim.Native.Nat.{ℕ, suc, ◌+◌, ◌-◌, ◌%◌, ◌≤◌, ◌<◌}
use mathlib.Core.Path.{◌≡◌, refl}
use mathlib.Core.Bool.{Bool, true, ◌&&◌}
use native.Mathlib.Omega.{arith}

-- `negsuc n` is -(n + 1).
pub data ℤ : Type 0 where
  pos : ℕ → ℤ
  negsuc : ℕ → ℤ

abbrev pub pos_part : ℤ → ℕ
pos_part (pos n) = n
pos_part (negsuc n) = 0

abbrev pub neg_part : ℤ → ℕ
neg_part (pos n) = 0
neg_part (negsuc n) = suc n

-- a - b, as an integer.
abbrev pub sub_ℕ : ℕ → ℕ → ℤ
sub_ℕ a b = if leb b a then pos (a - b) else negsuc (b - a - 1)

infix 50 ◌≤ℤ◌ ◌<ℤ◌
abbrev pub ◌≤ℤ◌ : ℤ → ℤ → Type 0
a ≤ℤ b = pos_part a + neg_part b ≤ pos_part b + neg_part a

abbrev pub ◌<ℤ◌ : ℤ → ℤ → Type 0
a <ℤ b = pos_part a + neg_part b < pos_part b + neg_part a

abbrev pub leb_ℤ : ℤ → ℤ → Bool
leb_ℤ a b = leb (pos_part a + neg_part b) (pos_part b + neg_part a)

abbrev pub ltb_ℤ : ℤ → ℤ → Bool
ltb_ℤ a b = ltb (pos_part a + neg_part b) (pos_part b + neg_part a)

-- The least integer above those of an int64, 2 ^ 63.
abbrev pub i64_end : ℕ
i64_end = 9223372036854775808

abbrev pub u64_mod : ℕ
u64_mod = 18446744073709551616

-- `x + y` of uint64.
abbrev pub add_u64 : ℕ → ℕ → ℕ
add_u64 x y = (x + y) % u64_mod

-- The values of an int64.
abbrev pub IsI64 : ℤ → Type 0
IsI64 (pos n) = n < i64_end
IsI64 (negsuc n) = n < i64_end

-- The int64 with the given 64-bit pattern.
abbrev pub of_bits : ℕ → ℤ
of_bits b = if ltb b i64_end then pos b else negsuc (u64_mod - 1 - b)

-- The 64-bit pattern, in two's complement.
abbrev pub to_bits : ℤ → ℕ
to_bits (pos n) = n % u64_mod
to_bits (negsuc n) = u64_mod - 1 - n % u64_mod

-- `x + y` of int64 and of time.Duration, which wraps around.
unfoldable pub add_i64 : ℤ → ℤ → ℤ
add_i64 x y = of_bits (add_u64 (to_bits x) (to_bits y))

pub add_i64-pos : (m n : ℕ) → m + n < i64_end → add_i64 (pos m) (pos n) ≡ pos (m + n)
unfolding add_i64
add_i64-pos m n h = ground arith

max_overflows : add_i64 (pos (i64_end - 1)) (pos 1) ≡ negsuc (i64_end - 1)
unfolding add_i64
max_overflows = refl

-- Below the greatest int64, adding one does not wrap around.
pub add_i64-one : (z : ℤ) → IsI64 z → z <ℤ pos (i64_end - 1) → z <ℤ add_i64 z (pos 1)
unfolding add_i64
add_i64-one (pos n) r h = ground arith
add_i64-one (negsuc n) r h = ground arith

-- `a == b`
abbrev pub same_ℤ : ℤ → ℤ → Bool
same_ℤ a b = leb_ℤ a b && leb_ℤ b a

pub same_ℤ-eq : (a b : ℤ) → same_ℤ a b ≡ true → a ≡ b
same_ℤ-eq (pos m) (pos n) h = ground arith
same_ℤ-eq (pos m) (negsuc n) h = ground arith
same_ℤ-eq (negsuc m) (pos n) h = ground arith
same_ℤ-eq (negsuc m) (negsuc n) h = ground arith

pub same_ℤ-self : (a : ℤ) → same_ℤ a a ≡ true
same_ℤ-self (pos n) = ground arith
same_ℤ-self (negsuc n) = ground arith
