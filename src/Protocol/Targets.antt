-- ===== src/Protocol/Targets.antt =====
-- The targets that a tick of the loops of src/pkg/protocol draws from its peers.
use failure_detector.Prelude.{
  ℕ, zero, suc, ◌≤◌, ◌≡◌, ◌≢◌, refl, ap, List, [], ◌∷◌, some, arith, inl, inr, All, All-get,
  Option-cases, length, get_elem?, take,
}
use failure_detector.Prelude.Int.{ℤ}
use failure_detector.Go.Text.{Text}
use failure_detector.Protocol.{pick, targets, rounds}
use failure_detector.Protocol.Peers.{Absent, Distinct}

-- No index comes twice in what rand.Perm draws.
abbrev pub IsDraw : List ℕ → Type 0
IsDraw [] = Unit {0}
IsDraw (i ∷ is) = All (λ j. i ≢ j) is × IsDraw is

All-take : (P : ℕ → Type 0) (n : ℕ) (l : List ℕ) → All P l → All P (take n l)
All-take P zero l h = tt
All-take P (suc n) [] h = tt
All-take P (suc n) (i ∷ l) h = (h.0, All-take P n l h.1)

take-IsDraw : (n : ℕ) (l : List ℕ) → IsDraw l → IsDraw (take n l)
take-IsDraw zero l h = tt
take-IsDraw (suc n) [] h = tt
take-IsDraw (suc n) (i ∷ l) h = (All-take (λ j. i ≢ j) n l h.0, take-IsDraw n l h.1)

-- Different places of a list of distinct peers hold different peers.
Absent-get : (a b : Text) (ps : List Text) (i : ℕ) → Absent a ps → get_elem? ps i ≡ some b → b ≢ a
Absent-get a b [] i h e = absurd (ground arith)
Absent-get a b (p ∷ ps) zero h e = λ q. h.0 (ground (arith, e, q))
Absent-get a b (p ∷ ps) (suc i) h e = Absent-get a b ps i h.1 e

Distinct-get :
    (ps : List Text) (a b : Text) (i j : ℕ)
    → Distinct ps
    → get_elem? ps i ≡ some a
    → get_elem? ps j ≡ some b
    → i ≢ j
    → b ≢ a
Distinct-get [] a b i j h e f n = absurd (ground arith)
Distinct-get (p ∷ ps) a b zero zero h e f n = absurd (n refl)
Distinct-get (p ∷ ps) a b zero (suc j) h e f n =
    λ q. Absent-get p b ps j h.0 f (ground (arith, e, q))
Distinct-get (p ∷ ps) a b (suc i) zero h e f n =
    λ q. Absent-get p a ps i h.0 e (ground (arith, f, q))
Distinct-get (p ∷ ps) a b (suc i) (suc j) h e f n =
    Distinct-get ps a b i j h.1 e f (λ q. n (ap suc q))

pick-Absent :
    (ps : List Text) (a : Text) (i : ℕ) (is : List ℕ)
    → Distinct ps
    → get_elem? ps i ≡ some a
    → All (λ j. i ≢ j) is
    → Absent a (pick ps is)
unfolding pick
pick-Absent ps a i [] d e h = tt
pick-Absent ps a i (j ∷ is) d e h = elim (Option-cases (get_elem? ps j)) [
  | inl out ↦ rw (out, pick) (pick-Absent ps a i is d e h.1)
  | inr (b, f) ↦ rw (f, pick) ((Distinct-get ps a b i j d e f h.0), pick-Absent ps a i is d e h.1)
]

pick-Distinct : (ps : List Text) (is : List ℕ) → Distinct ps → IsDraw is → Distinct (pick ps is)
unfolding pick
pick-Distinct ps [] d h = tt
pick-Distinct ps (i ∷ is) d h = elim (Option-cases (get_elem? ps i)) [
  | inl out ↦ rw (out, pick) (pick-Distinct ps is d h.1)
  | inr (a, e) ↦ rw (e, pick) (pick-Absent ps a i is d e h.0, pick-Distinct ps is d h.1)
]

pick-All : (P : Text → Type 0) (ps : List Text) (is : List ℕ) → All P ps → All P (pick ps is)
unfolding pick
pick-All P ps [] h = tt
pick-All P ps (i ∷ is) h = elim (Option-cases (get_elem? ps i)) [
  | inl out ↦ rw (out, pick) (pick-All P ps is h)
  | inr (a, e) ↦ rw (e, pick) (All-get P ps i a h e, pick-All P ps is h)
]

length-pick-le : (ps : List Text) (is : List ℕ) → length (pick ps is) ≤ length is
unfolding pick
length-pick-le ps [] = omega arith
length-pick-le ps (i ∷ is) = ground (arith, length-pick-le ps is)

length-take-le : (n : ℕ) (l : List ℕ) → length (take n l) ≤ n
length-take-le zero l = omega arith
length-take-le (suc n) [] = omega arith
length-take-le (suc n) (i ∷ l) = omega (arith, length-take-le n l)

-- The targets of a tick are distinct peers, at most as many as the fanout.
pub targets_lem :
    (P : Text → Type 0) (fanout : ℤ) (ps : List Text) (perm : List ℕ)
    → Distinct ps
    → IsDraw perm
    → All P ps
    → Distinct (targets fanout ps perm)
      × (length (targets fanout ps perm) ≤ rounds fanout)
      × All P (targets fanout ps perm)
unfolding targets
targets_lem P fanout ps perm d h p = (
  pick-Distinct ps (take (rounds fanout) perm) d (take-IsDraw (rounds fanout) perm h),
  omega (arith, length-pick-le ps (take (rounds fanout) perm), length-take-le (rounds fanout) perm),
  pick-All P ps (take (rounds fanout) perm) p,
)
