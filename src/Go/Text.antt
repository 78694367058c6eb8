-- ===== src/Go/Text.antt =====
-- Go's string, as the list of its bytes, with `%d` of fmt and `ParseUint(s, 10, 64)` of strconv.
use failure_detector.Prelude.{
  ℕ, zero, suc, ◌+◌, ◌-◌, ◌*◌, ◌/◌, ◌%◌, ◌≤◌, ◌<◌, ◌≡◌, refl, List, [], ◌∷◌, Option, none, some,
  arith, ltb, holds, true, All, Bool-cases, inl, inr, if◌then◌else◌, ◌||◌, ℕ_discrete,
}
use failure_detector.Prelude.Int.{u64_mod}
use Prim.Native.Char.{code}
use Prim.Native.String.{String}

abbrev pub Text : Type 0
Text = List ℕ

-- The bytes of an ASCII literal.
abbrev pub codes : String → Text
codes String.[] = []
codes (String.◌∷◌ ch rest) = code ch ∷ codes rest

unfoldable pub text_discrete : Discrete Text
unfolding ℕ_discrete
text_discrete = hlevel ℕ_discrete

-- Writes the digits of `n` in front of `out`; more fuel than `n` is enough.
unfoldable pub digits : ℕ → ℕ → Text → Text
digits zero n out = out
digits (suc fuel) n out =
    let rest = digits fuel (n / 10) ((b'0' + n % 10) ∷ out) in
    if ltb n 10 then (b'0' + n) ∷ out else rest

-- `%d` of an unsigned number.
unfoldable pub decimal : ℕ → Text
unfolding digits
decimal n = digits (suc n) n []

-- The loop of `ParseUint`: `none` is a bad digit or a value beyond uint64.
unfoldable pub scan_uint : Text → ℕ → Option ℕ
scan_uint [] n = some n
scan_uint (c ∷ s) n =
    let n' = n * 10 + (c - b'0') in
    let rest = scan_uint s n' in
    if ltb c b'0' || ltb b'9' c || ltb (u64_mod - 1) n' then none else rest

unfoldable pub parse_uint : Text → Option ℕ
unfolding scan_uint
parse_uint [] = none
parse_uint (c ∷ s) = scan_uint (c ∷ s) 0

pub scan_uint-digits :
    (fuel n : ℕ) (out : Text)
    → n < fuel
    → n < u64_mod
    → scan_uint (digits fuel n out) 0 ≡ scan_uint out n
unfolding digits scan_uint
scan_uint-digits zero n out h b = absurd (omega arith)
scan_uint-digits (suc fuel) n out h b =
    ground (arith, scan_uint-digits fuel (n / 10) ((b'0' + n % 10) ∷ out))

abbrev pub IsDecimal : ℕ → Type 0
IsDecimal d = (b'0' ≤ d) × (d ≤ b'9')

pub digits-All :
    (P : ℕ → Type 0) (fuel n : ℕ) (out : Text)
    → ((c : ℕ) → IsDecimal c → P c)
    → All P out
    → All P (digits fuel n out)
unfolding digits
digits-All P zero n out h p = p
digits-All P (suc fuel) n out h p = elim (Bool-cases (ltb n 10)) [
  | inl small ↦ rw small (h (b'0' + n) (ground arith), p)
  | inr large ↦
      rw large
        (digits-All P fuel (n / 10) ((b'0' + n % 10) ∷ out) h (h (b'0' + n % 10) (omega arith), p))
]

-- `decimal` prints digits only.
pub decimal-All : (P : ℕ → Type 0) (n : ℕ) → ((c : ℕ) → IsDecimal c → P c) → All P (decimal n)
unfolding decimal
decimal-All P n h = digits-All P (suc n) n [] h tt

digits-cons :
    (fuel n : ℕ) (out : Text) → n < fuel → (c : ℕ) × (s : Text) × (digits fuel n out ≡ c ∷ s)
unfolding digits
digits-cons zero n out h = absurd (omega arith)
digits-cons (suc fuel) n out h = elim (Bool-cases (ltb n 10)) [
  | inl small ↦ (b'0' + n, out, rw small)
  | inr large ↦ rw large (digits-cons fuel (n / 10) ((b'0' + n % 10) ∷ out) (ground arith))
]

-- Reading back what `%d` printed gives the number.
pub parse_uint-decimal : (n : ℕ) → n < u64_mod → parse_uint (decimal n) ≡ some n
unfolding parse_uint decimal
parse_uint-decimal n h =
    let (c, s, e) = digits-cons (suc n) n [] (omega arith) in
    rw e (rw e at (scan_uint-digits (suc n) n [] (omega arith) h))

pub decimal-injective : (m n : ℕ) → m < u64_mod → n < u64_mod → decimal m ≡ decimal n → m ≡ n
decimal-injective m n hm hn e = cc (parse_uint-decimal m hm, parse_uint-decimal n hn, e)

max_printed : decimal (u64_mod - 1) ≡ codes "18446744073709551615"
unfolding decimal
max_printed = refl

same_text : holds (text_discrete (codes "ab") (codes "ab")) ≡ true
unfolding text_discrete
same_text = refl
