-- ===== src/Inflight/Laws.antt =====
-- What src/pkg/protocol/common/inflight.go promises.
use failure_detector.Prelude.{
  ℕ, ◌≤◌, ◌≡◌, ◌≢◌, refl, sym, true, false, List, [], ◌∷◌, ◌++◌, arith, inl, inr, Bool-cases,
  ℕ_discrete, if◌then◌else◌,
}
use mathlib.Core.List.{append-nil, append_assoc}
use failure_detector.Prelude.Int.{pos}
use failure_detector.Prelude.Map.{
  insert, delete, Fresh, IsMap, lookup-insert, lookup-delete, insert-IsMap,
}
use failure_detector.Go.Text.{Text}
use failure_detector.Go.Clock.{Time, after, add as add_duration}
use failure_detector.Inflight.{ExpiredRec, Pending, Inflight, add, done, expired_loop, expired}

-- The pings whose deadline lies before `now`, in the order of the table.
unfoldable pub overdue : Time → Inflight → List ExpiredRec
overdue now [] = []
overdue now ((n, rec) ∷ m) =
    let rest = overdue now m in
    if after now rec.dl then record { nonce = n; addr = rec.addr } ∷ rest else rest

-- The others.
unfoldable pub waiting : Time → Inflight → Inflight
waiting now [] = []
waiting now ((n, rec) ∷ m) =
    let rest = waiting now m in if after now rec.dl then rest else (n, rec) ∷ rest

waiting-Fresh :
    (now : Time) (n : ℕ) (m : Inflight) → Fresh ℕ_discrete n m → Fresh ℕ_discrete n (waiting now m)
unfolding waiting
waiting-Fresh now n [] f = f
waiting-Fresh now n ((j, rec) ∷ m) f = ground (arith, waiting-Fresh now n m f.1)

delete-append :
    (n : ℕ) (rec : Pending) (xs m : Inflight)
    → Fresh ℕ_discrete n xs
    → delete ℕ_discrete n (xs ++ ((n, rec) ∷ m)) ≡ xs ++ m
unfolding delete
delete-append n rec [] m f = ground arith
delete-append n rec ((j, x) ∷ xs) m f = ground (arith, delete-append n rec xs m f.1)

-- No key of `xs` is a key of `m`.
abbrev Apart : Inflight → Inflight → Type 0
Apart xs [] = Unit {0}
Apart xs ((n, rec) ∷ m) = Fresh ℕ_discrete n xs × Apart xs m

Fresh-append :
    (n j : ℕ) (rec : Pending) (xs : Inflight)
    → Fresh ℕ_discrete n xs
    → j ≢ n
    → Fresh ℕ_discrete n (xs ++ ((j, rec) ∷ []))
Fresh-append n j rec [] f h = (h, tt)
Fresh-append n j rec ((i, x) ∷ xs) f h = (f.0, Fresh-append n j rec xs f.1 h)

Apart-append :
    (j : ℕ) (rec : Pending) (xs m : Inflight)
    → Apart xs m
    → Fresh ℕ_discrete j m
    → Apart (xs ++ ((j, rec) ∷ [])) m
Apart-append j rec xs [] a f = tt
Apart-append j rec xs ((n, x) ∷ m) a f =
    (Fresh-append n j rec xs a.0 (λ e. f.0 (sym e)), Apart-append j rec xs m a.1 f.1)

expired_loop_lem :
    (now : Time) (xs m : Inflight) (out : List ExpiredRec)
    → IsMap ℕ_discrete m
    → Apart xs m
    → expired_loop now m (xs ++ m) out ≡ (out ++ overdue now m, xs ++ waiting now m)
unfolding expired_loop overdue waiting
expired_loop_lem now xs [] out w a = simp append-nil
expired_loop_lem now xs ((n, rec) ∷ m) out w a = elim (Bool-cases (after now rec.dl)) [
  | inl hit ↦
      rw (hit, delete-append n rec xs m a.0, expired_loop_lem now xs m _ w.1 a.1)
        (simp append_assoc)
  | inr miss ↦ rw miss (
      simp append_assoc at
        (expired_loop_lem now (xs ++ ((n, rec) ∷ [])) m out w.1 (Apart-append n rec xs m a.1 w.0)))
]

-- Expired returns the pings whose deadline has passed, all of them and no others, and keeps exactly
-- the others in the table.
pub expired_lem :
    (now : Time) (m : Inflight)
    → IsMap ℕ_discrete m
    → expired now m ≡ (overdue now m, waiting now m)
unfolding expired
expired_lem now m w = expired_loop_lem now [] m [] w (Apart-nil m)
  where
    Apart-nil : (m : Inflight) → Apart [] m
    Apart-nil [] = tt
    Apart-nil (x ∷ m) = (tt, Apart-nil m)

waiting-IsMap : (now : Time) (m : Inflight) → IsMap ℕ_discrete m → IsMap ℕ_discrete (waiting now m)
unfolding waiting
waiting-IsMap now [] w = w
waiting-IsMap now ((n, rec) ∷ m) w =
    ground (arith, waiting-IsMap now m w.1, waiting-Fresh now n m w.0)

waiting_later :
    (now later : Time) (m : Inflight)
    → later ≤ now
    → (overdue later (waiting now m) ≡ []) × (waiting later (waiting now m) ≡ waiting now m)
unfolding overdue waiting
waiting_later now later [] h = (refl, refl)
waiting_later now later ((n, rec) ∷ m) h =
    let ih = waiting_later now later m h in ground (arith, ih.0, ih.1)

-- No ping is reported twice: until the clock passes `now` again, the table that Expired leaves has
-- nothing more to report and stays as it is.
pub expired-expired :
    (now later : Time) (m : Inflight)
    → IsMap ℕ_discrete m
    → later ≤ now
    → expired later (expired now m).1 ≡ ([], (expired now m).1)
expired-expired now later m w h =
    let (p, q) = waiting_later now later m h in
    rw (expired_lem now m w, expired_lem later (waiting now m) (waiting-IsMap now m w), p, q)

-- An ACK for a nonce that was just added is recognised once, and a second one is not.
pub done-add :
    (now : Time) (nonce ttl : ℕ) (addr : Text) (m : Inflight)
    → IsMap ℕ_discrete m
    → let (m', known) = done nonce (add now nonce (pos ttl) addr m) in
      (known ≡ true) × ((done nonce m').1 ≡ false)
unfolding done add
done-add now nonce ttl addr m w =
    let p : Pending = record { dl = add_duration now (pos ttl); addr = addr } in
    ground (
      arith,
      lookup-insert ℕ_discrete nonce nonce p m,
      lookup-delete ℕ_discrete nonce nonce (insert ℕ_discrete nonce p m)
          (insert-IsMap ℕ_discrete nonce p m w),
    )
