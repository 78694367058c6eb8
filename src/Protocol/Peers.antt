-- ===== src/Protocol/Peers.antt =====
-- ResolvePeersFromMemberList of src/pkg/protocol/common/peers.go on the snapshot of a well-formed
-- table.
use mathlib.Core.List.{Mem, mem-cons_self, mem-cons_of_mem}
use failure_detector.Prelude.{
  ◌≡◌, ◌≢◌, sym, ◌∙◌, subst, holds, if◌then◌else◌, List, [], ◌∷◌, some, arith, All,
}
use failure_detector.Prelude.Map.{lookup, Fresh, IsMap}
use failure_detector.Go.Text.{Text, text_discrete}
use failure_detector.Node.{NodeId, NodeId-discrete}
use failure_detector.Store.{MemberEntry, Store, key, row, values}
use failure_detector.Store.Map.{Keyed}
use failure_detector.Store.Invariant.{IsWf}
use failure_detector.Protocol.{resolve_peers}

abbrev pub Absent : Text → List Text → Type 0
Absent k = All (λ p. p ≢ k)

abbrev pub Distinct : List Text → Type 0
Distinct [] = Unit {0}
Distinct (p ∷ ps) = Absent p ps × Distinct ps

peers-Absent :
    (j : Text) (self : NodeId) (m : List (Text × MemberEntry))
    → Fresh text_discrete j m
    → Keyed m
    → Absent j (resolve_peers (values m) self)
unfolding resolve_peers values
peers-Absent j self [] f w = tt
peers-Absent j self ((k, e) ∷ m) f w =
    elim (NodeId-discrete e.id self)
      as (λ d.
        All (λ p. p ≢ j)
          (if holds d
            then resolve_peers (values m) self
            else key e.id ∷ resolve_peers (values m) self)) [
              | yes q ↦ peers-Absent j self m f.1 w.1
              | no n ↦ ((λ q. f.0 (sym (sym q ∙ sym w.0))), peers-Absent j self m f.1 w.1)
            ]

peers-Distinct :
    (self : NodeId) (m : List (Text × MemberEntry))
    → IsMap text_discrete m
    → Keyed m
    → Distinct (resolve_peers (values m) self)
unfolding resolve_peers values
peers-Distinct self [] f w = tt
peers-Distinct self ((k, e) ∷ m) f w =
    elim (NodeId-discrete e.id self)
      as (λ d. Distinct (
        if holds d
        then resolve_peers (values m) self
        else key e.id ∷ resolve_peers (values m) self)) [
          | yes q ↦ peers-Distinct self m f.1 w.1
          | no n ↦ (rw⁻¹ w.0 (peers-Absent k self m f.0 w.1), peers-Distinct self m f.1 w.1)
        ]

-- No row of the own address belongs to another boot of the node.
abbrev pub OwnsAddress : NodeId → List (Text × MemberEntry) → Type 0
OwnsAddress self m = (e : MemberEntry) → lookup text_discrete (key self) m ≡ some e → e.id ≡ self

peers-own :
    (self : NodeId) (m : List (Text × MemberEntry))
    → IsMap text_discrete m
    → Keyed m
    → OwnsAddress self m
    → Absent (key self) (resolve_peers (values m) self)
unfolding resolve_peers values lookup
peers-own self [] f w o = tt
peers-own self ((k, e) ∷ m) f w o =
    let tail : Absent (key self) (resolve_peers (values m) self) =
      elim (text_discrete k (key self)) [
        | yes q ↦
            subst (λ j. Absent j (resolve_peers (values m) self)) q (peers-Absent k self m f.0 w.1)
        | no n ↦ peers-own self m f.1 w.1 (λ x p. o x (ground (arith, n, p)))
      ] in
    elim (NodeId-discrete e.id self)
      as (λ d.
        All (λ p. p ≢ key self)
          (if holds d
            then resolve_peers (values m) self
            else key e.id ∷ resolve_peers (values m) self)) [
              | yes q ↦ tail
              | no n ↦ ((λ q. n (o e (ground (arith, w.0, q)))), tail)
            ]

peers-Mem :
    (self : NodeId) (m : List (Text × MemberEntry)) (k : Text) (e : MemberEntry)
    → Keyed m
    → lookup text_discrete k m ≡ some e
    → e.id ≢ self
    → Mem k (resolve_peers (values m) self)
unfolding resolve_peers values lookup
peers-Mem self [] k e w h n = absurd (ground arith)
peers-Mem self ((j, x) ∷ m) k e w h n =
    elim (NodeId-discrete x.id self)
      as (λ d. Mem k (
        if holds d
        then resolve_peers (values m) self
        else key x.id ∷ resolve_peers (values m) self)) [
          | yes q ↦ peers-Mem self m k e w.1 (ground (arith, q, n, h)) n
          | no q ↦ elim (text_discrete j k) [
            | yes p ↦
                subst (λ y. Mem k (y ∷ resolve_peers (values m) self)) (sym p ∙ w.0) mem-cons_self
            | no p ↦ mem-cons_of_mem (key x.id) (peers-Mem self m k e w.1 (ground (arith, p, h)) n)
          ]
        ]

-- The peers of a node with a well-formed table, in which no other boot of the node has a row, are
-- distinct, its own address is not among them, and the address of every other row is.
pub resolve_peers_lem :
    (s : Store)
    → IsWf s
    → OwnsAddress s.self_id s.entries
    → let peers = resolve_peers (values s.entries) s.self_id in
      Distinct peers
      × Absent (key s.self_id) peers
      × ((k : Text) (e : MemberEntry) → row k s ≡ some e → e.id ≢ s.self_id → Mem k peers)
resolve_peers_lem s w o = (
  peers-Distinct s.self_id s.entries w.is_map w.keyed,
  peers-own s.self_id s.entries w.is_map w.keyed o,
  λ k e h n. peers-Mem s.self_id s.entries k e w.keyed h n,
)
