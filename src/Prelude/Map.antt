-- ===== src/Prelude/Map.antt =====
-- Go's map[K]V: an association list with distinct keys. The order of the list stands for the
-- order in which `range` visits the keys, which Go leaves open.
use mathlib.Core.Path.{◌≡◌, refl}
use mathlib.Core.Logic.{◌≢◌, ite}
use mathlib.Core.List.{List, [], ◌∷◌}
use mathlib.Core.Option.{Option, none, some}
use native.Mathlib.Omega.{arith}

module _ {ℓ} {K V : Type ℓ} (dec : Discrete K) where
  -- `m[k]`, with `none` for a missing key
  unfoldable pub lookup : K → List (K × V) → Option V
  lookup k [] = none
  lookup k ((i, x) ∷ rows) = ite (dec i k) (some x) (lookup k rows)

  -- `m[k] = v`
  unfoldable pub insert : K → V → List (K × V) → List (K × V)
  insert k x [] = (k, x) ∷ []
  insert k x ((i, old) ∷ rows) = ite (dec i k) ((k, x) ∷ rows) ((i, old) ∷ insert k x rows)

  -- `delete(m, k)`
  unfoldable pub delete : K → List (K × V) → List (K × V)
  delete k [] = []
  delete k ((i, x) ∷ rows) = ite (dec i k) rows ((i, x) ∷ delete k rows)

  -- No key of the list is `k`.
  abbrev pub Fresh : K → List (K × V) → Type ℓ
  Fresh k [] = Unit {ℓ}
  Fresh k ((j, w) ∷ m) = (j ≢ k) × Fresh k m

  abbrev pub IsMap : List (K × V) → Type ℓ
  IsMap [] = Unit {ℓ}
  IsMap ((j, w) ∷ m) = Fresh j m × IsMap m

  pub lookup-insert :
      (k j : K) (x : V) (rows : List (K × V))
      → lookup j (insert k x rows) ≡ ite (dec k j) (some x) (lookup j rows)
  unfolding insert lookup
  lookup-insert k j x [] = refl
  lookup-insert k j x ((i, y) ∷ rows) = ground (arith, lookup-insert k j x rows)

  pub lookup-Fresh : (k : K) (m : List (K × V)) → Fresh k m → lookup k m ≡ none
  unfolding lookup
  lookup-Fresh k [] h = refl
  lookup-Fresh k ((i, w) ∷ m) h = ground (arith, lookup-Fresh k m h.1)

  pub lookup-delete :
      (k j : K) (m : List (K × V))
      → IsMap m
      → lookup j (delete k m) ≡ ite (dec k j) none (lookup j m)
  unfolding lookup delete
  lookup-delete k j [] h = ground arith
  lookup-delete k j ((i, w) ∷ m) h =
      ground (arith, lookup-delete k j m h.1, lookup-Fresh i m h.0, lookup-Fresh j m)

  pub insert-Fresh :
      (k i : K) (v : V) (m : List (K × V)) → k ≢ i → Fresh i m → Fresh i (insert k v m)
  unfolding insert
  insert-Fresh k i v [] n h = (n, tt)
  insert-Fresh k i v ((j, w) ∷ m) n h = ground (arith, insert-Fresh k i v m n h.1)

  pub insert-IsMap : (k : K) (v : V) (m : List (K × V)) → IsMap m → IsMap (insert k v m)
  unfolding insert
  insert-IsMap k v [] h = (tt, tt)
  insert-IsMap k v ((j, w) ∷ m) h = ground (arith, insert-IsMap k v m h.1, insert-Fresh k j v m)

  pub delete-Fresh : (k i : K) (m : List (K × V)) → Fresh i m → Fresh i (delete k m)
  unfolding delete
  delete-Fresh k i [] h = h
  delete-Fresh k i ((j, w) ∷ m) h = ground (arith, delete-Fresh k i m h.1)

  pub delete-IsMap : (k : K) (m : List (K × V)) → IsMap m → IsMap (delete k m)
  unfolding delete
  delete-IsMap k [] h = h
  delete-IsMap k ((j, w) ∷ m) h = ground (arith, delete-IsMap k m h.1, delete-Fresh k j m h.0)
