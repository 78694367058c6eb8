-- ===== src/Store/Map.antt =====
-- The rows of the table of src/pkg/store/membership.go: what the operations do to the rows of other
-- keys, and the keys under which rows stand.
use failure_detector.Prelude.{◌≡◌, refl, sym, ◌∙◌, ap, List, [], ◌∷◌, some, arith, ite}
use failure_detector.Prelude.Map.{lookup, insert, delete, Fresh, IsMap, lookup-insert}
use failure_detector.Go.Text.{Text, text_discrete}
use failure_detector.Go.Clock.{Time}
use failure_detector.Node.{NodeId}
use failure_detector.Store.{MemberEntry, Store, key, row, beat, beat_rows, put_row}
use mathlib.Core.Option

-- Every row stands under the text of its own endpoint.
abbrev pub Keyed : List (Text × MemberEntry) → Type 0
Keyed [] = Unit {0}
Keyed ((k, e) ∷ m) = (k ≡ key e.id) × Keyed m

pub insert-Keyed :
    (k : Text) (e : MemberEntry) (m : List (Text × MemberEntry))
    → k ≡ key e.id
    → Keyed m
    → Keyed (insert text_discrete k e m)
unfolding insert
insert-Keyed k e [] h p = (h, tt)
insert-Keyed k e ((j, x) ∷ m) h p = ground (arith, insert-Keyed k e m h p.1)

pub delete-Keyed :
    (k : Text) (m : List (Text × MemberEntry)) → Keyed m → Keyed (delete text_discrete k m)
unfolding delete
delete-Keyed k [] p = p
delete-Keyed k ((j, x) ∷ m) p = ground (arith, delete-Keyed k m p.1)

pub lookup-Keyed :
    (k : Text) (m : List (Text × MemberEntry)) (e : MemberEntry)
    → Keyed m
    → lookup text_discrete k m ≡ some e
    → k ≡ key e.id
unfolding lookup
lookup-Keyed k [] e p h = cc
lookup-Keyed k ((j, x) ∷ m) e p h = ground (arith, lookup-Keyed k m e p.1)

module _ (self : NodeId) (now : Time) where
  pub beat-id : (e : MemberEntry) → (beat self now e).id ≡ e.id
  beat-id e = ground arith

  pub beat_rows-Keyed : (m : List (Text × MemberEntry)) → Keyed m → Keyed (beat_rows self now m)
  unfolding beat_rows
  beat_rows-Keyed [] p = p
  beat_rows-Keyed ((k, e) ∷ m) p = (p.0 ∙ ap key (sym (beat-id e)), beat_rows-Keyed m p.1)

  pub beat_rows-Fresh :
      (k : Text) (m : List (Text × MemberEntry))
      → Fresh text_discrete k m
      → Fresh text_discrete k (beat_rows self now m)
  unfolding beat_rows
  beat_rows-Fresh k [] p = p
  beat_rows-Fresh k ((j, e) ∷ m) p = (p.0, beat_rows-Fresh k m p.1)

  pub beat_rows-IsMap :
      (m : List (Text × MemberEntry))
      → IsMap text_discrete m
      → IsMap text_discrete (beat_rows self now m)
  unfolding beat_rows
  beat_rows-IsMap [] p = p
  beat_rows-IsMap ((j, e) ∷ m) p = (beat_rows-Fresh j m p.0, beat_rows-IsMap m p.1)

  pub lookup-beat_rows :
      (k : Text) (m : List (Text × MemberEntry))
      → lookup text_discrete k (beat_rows self now m)
        ≡ Option.map (beat self now) (lookup text_discrete k m)
  unfolding lookup beat_rows
  lookup-beat_rows k [] = refl
  lookup-beat_rows k ((j, e) ∷ m) = ground (arith, lookup-beat_rows k m)

-- A write is read back under its key, and nothing else changes.
pub row-put_row :
    (k j : Text) (e : MemberEntry) (s : Store)
    → row j (put_row k e s) ≡ ite (text_discrete k j) (some e) (row j s)
row-put_row k j e s = lookup-insert text_discrete k j e s.entries

pub row-put_row_self : (k : Text) (e : MemberEntry) (s : Store) → row k (put_row k e s) ≡ some e
row-put_row_self k e s = ground (arith, row-put_row k k e s)
