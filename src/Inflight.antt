-- ===== src/Inflight.antt =====
-- src/pkg/protocol/common/inflight.go: the pings that wait for an ACK, by nonce.
pub mod Laws
use failure_detector.Prelude.{
  ℕ, Bool, true, false, List, [], ◌∷◌, ◌++◌, Option, none, some, ℕ_discrete, if◌then◌else◌,
}
use failure_detector.Prelude.Map.{lookup, insert, delete}
use failure_detector.Go.Text.{Text}
use failure_detector.Go.Clock.{Time, Duration, after, add as add_duration}

-- ExpiredRec
pub record ExpiredRec : Type 0 where
  pub nonce : ℕ
  pub addr : Text

-- The anonymous struct of the map.
pub record Pending : Type 0 where
  pub dl : Time
  pub addr : Text

-- Inflight
abbrev pub Inflight : Type 0
Inflight = List (ℕ × Pending)

-- NewInflight
unfoldable pub new_inflight : Inflight
new_inflight = []

-- Add, at the time `now`
unfoldable pub add : Time → ℕ → Duration → Text → Inflight → Inflight
add now nonce ttl addr m =
    insert ℕ_discrete nonce (record { dl = add_duration now ttl; addr = addr }) m

abbrev pub is_some {ℓ} : {A : Type ℓ} → Option A → Bool
is_some none = false
is_some (some a) = true

-- Done
unfoldable pub done : ℕ → Inflight → Inflight × Bool
done nonce m = (delete ℕ_discrete nonce m, is_some (lookup ℕ_discrete nonce m))

-- The loop of Expired; `todo` is what `range` has not reached.
unfoldable pub expired_loop :
    Time → List (ℕ × Pending) → Inflight → List ExpiredRec → List ExpiredRec × Inflight
expired_loop now [] m out = (out, m)
expired_loop now ((n, rec) ∷ todo) m out =
    let hit = after now rec.dl in
    expired_loop now todo (if hit then delete ℕ_discrete n m else m)
      (if hit then out ++ (record { nonce = n; addr = rec.addr } ∷ []) else out)

-- Expired
unfoldable pub expired : Time → Inflight → List ExpiredRec × Inflight
unfolding expired_loop
expired now m = expired_loop now m m []

-- Reset
unfoldable pub reset : Inflight → Inflight
reset m = []
