-- ===== src/Cluster.antt =====
-- Nodes that exchange their membership lists over a network that may delay, lose, repeat and reorder
-- them, each node with a clock of its own. A send loop of src/pkg/protocol sends the snapshot of a
-- store, a receive loop merges the list of a message, and src/pkg/suspicion scans the store: in one
-- step, or with a snapshot and a step for each entry, between which the node may merge lists.
pub mod Late
pub mod Nodes
pub mod Genuine
pub mod Quiet
pub mod Crash
pub mod FoundOut
pub mod Fresh
pub mod Safety
pub mod Loops
pub mod Sends
use failure_detector.Prelude.{
  ℕ, ◌+◌, ◌<◌, ◌≡◌, ◌≢◌, true, List, [], ◌∷◌, Option, none, some, ite, get_elem?,
}
use failure_detector.Prelude.Int.{ℤ, u64_mod}
use failure_detector.Go.Clock.{Time}
use failure_detector.Node.{NodeId}
use failure_detector.Config.{Config}
use failure_detector.Store.{MemberEntry, Store, key, row, new, snapshot, merge_full_list}
use failure_detector.Store.Rank.{suspicion}
use failure_detector.Suspicion.{Limits, Progress, scan_once, scan_row}

-- The incarnation of a node in its own table.
abbrev pub incarnation_in : Option MemberEntry → ℕ
incarnation_in none = 0
incarnation_in (some e) = e.incarnation

abbrev pub own_incarnation : Store → ℕ
own_incarnation s = incarnation_in (row (key s.self_id) s)

module _ {I : Type 0} (dec : Discrete I) where
  -- The store of each node, and every list that was ever sent.
  pub record Cluster : Type 0 where
    pub store : I → Store
    pub wire : List (List MemberEntry)

  abbrev pub set_store : I → Store → Cluster → Cluster
  set_store i s c = record c { store = λ j. ite (dec i j) s (c.store j) }

  -- One action of one node. Incarnations are far from the end of uint64.
  pub data Step (c d : Cluster) : Type 0 where
    sends :
        (i : I) (now : Time)
        → d ≡ record (set_store i (snapshot now (c.store i)).1 c) {
          wire = (snapshot now (c.store i)).0.0 ∷ c.wire;
        }
        → Step c d
    receives :
        (i : I) (now : Time) (k : ℕ) (l : List MemberEntry)
        → get_elem? c.wire k ≡ some l
        → own_incarnation (c.store i) + 1 < u64_mod
        → d ≡ set_store i (merge_full_list now l (c.store i)) c
        → Step c d
    scans :
        (i : I) (now : Time) (limits : Limits) (marks : ℤ) (q : Progress)
        → scan_once now limits (record { st = c.store i; fail_marks = marks }) ≡ some q
        → d ≡ set_store i q.st c
        → Step c d
    -- A round of a scan on an entry of an earlier snapshot, when merges have come in between.
    judges :
        (i : I) (now : Time) (limits : Limits) (marks : ℤ) (k n : ℕ) (l : List MemberEntry)
        (e : MemberEntry)
        → get_elem? c.wire k ≡ some l
        → get_elem? l n ≡ some e
        → d
          ≡ set_store i (scan_row now limits e (record { st = c.store i; fail_marks = marks })).st c
        → Step c d

  pub data Reach (c : Cluster) : Cluster → Type 0 where
    here : Reach c c
    next : {d e : Cluster} → Reach c d → Step d e → Reach c e

  -- New nodes with distinct endpoints and suspicion enabled, before the first message.
  pub record Starts (c : Cluster) : Type 0 where
    pub id : I → NodeId
    pub config : I → Config
    pub time : I → Time
    pub stores : (i : I) → c.store i ≡ new (id i) (config i) (time i)
    pub distinct : (i j : I) → key (id i) ≡ key (id j) → i ≡ j
    pub suspicious : (i : I) → suspicion (c.store i) ≡ true
    pub silent : c.wire ≡ []
