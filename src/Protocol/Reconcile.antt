-- ===== src/Protocol/Reconcile.antt =====
-- What a ping of src/pkg/protocol/pingack/loop.go and its ACK achieve together: the two tables agree.
use mathlib.Core.Option
use failure_detector.Prelude.{
  ℕ, ◌≤◌, ◌<◌, ◌≡◌, ◌≢◌, refl, sym, ◌∙◌, ap, subst, ◌⊎◌, inl, inr, true, List, [], ◌∷◌, Option,
  none, some, arith, All, Option-cases,
}
use failure_detector.Go.Text.{Text}
use failure_detector.Go.Clock.{Time}
use failure_detector.Store.{MemberEntry, Store, key, row, snapshot, beat, merge_full_list}
use failure_detector.Store.Map.{lookup-beat_rows}
use failure_detector.Store.Rank.{suspicion, RankLe}
use failure_detector.Store.Invariant.{IsWf, row-key, merge-IsWf, snapshot-IsWf}
use failure_detector.Store.Merge.{IsSane, Covered, same_row}
use failure_detector.Store.Self.{merge_self}
use failure_detector.Store.Join.{merge_covers}
use failure_detector.Store.Settings.{merge-config}
use failure_detector.Store.Others.{
  Others, IsTimeless, merge-Others, snapshot-Others, sent_P, rows_P,
}
use failure_detector.Wire.{Message}
use failure_detector.Protocol.Exchange.{Listens}
use failure_detector.Protocol.Pingack as Pingack

-- An earlier boot, or the same boot in an incarnation that is no later.
abbrev pub VersionLe : MemberEntry → MemberEntry → Type 0
VersionLe a b =
    (a.id.time_stamp < b.id.time_stamp)
    ⊎ ((a.id.time_stamp ≡ b.id.time_stamp) × (a.incarnation ≤ b.incarnation))

-- Neither table has a row, or both have rows of one boot in one incarnation.
abbrev pub SameVersion : Option MemberEntry → Option MemberEntry → Type 0
SameVersion none none = Unit {0}
SameVersion (some a) (some b) =
    (a.id.time_stamp ≡ b.id.time_stamp) × (a.incarnation ≡ b.incarnation)
SameVersion _ _ = ⊥

-- The table has a row for the endpoint of `e` in its version or a later one.
record Knows (s : Store) (e : MemberEntry) : Type 0 where
  known : MemberEntry
  found : row (key e.id) s ≡ some known
  at_least : VersionLe e known

Knows-timeless : (s : Store) → IsTimeless (Knows s)
Knows-timeless s e now k = record { known = k.known; found = k.found; at_least = k.at_least }

RankLe-VersionLe : (a b : MemberEntry) → RankLe true a b → VersionLe a b
RankLe-VersionLe a b h = ground arith

Covered-Knows : (s : Store) (e : MemberEntry) → suspicion s ≡ true → Covered s e → Knows s e
Covered-Knows s e on c = record {
  known = c.at_least;
  found = c.found;
  at_least = RankLe-VersionLe e c.at_least (subst (λ b. RankLe b e c.at_least) on c.no_news);
}

beat-VersionLe :
    (s : Store) (now : Time) (e x : MemberEntry)
    → VersionLe e x
    → VersionLe e (beat s.self_id now x)
beat-VersionLe s now e x h = ground arith

snapshot-Knows : (now : Time) (s : Store) (e : MemberEntry) → Knows s e → Knows (snapshot now s).1 e
unfolding snapshot
snapshot-Knows now s e k = record {
  known = beat s.self_id now k.known;
  found =
      lookup-beat_rows s.self_id now (key e.id) s.entries
      ∙ ap (Option.map (beat s.self_id now)) k.found;
  at_least = beat-VersionLe s now e k.known k.at_least;
}

All-map :
    (P Q : MemberEntry → Type 0)
    → ((e : MemberEntry) → P e → Q e)
    → (l : List MemberEntry) → All P l
    → All Q l
All-map P Q f [] h = tt
All-map P Q f (e ∷ l) h = (f e h.0, All-map P Q f l h.1)

-- A merge knows all that it was told.
merge-Knows :
    (now : Time) (l : List MemberEntry) (s : Store)
    → suspicion s ≡ true
    → All (IsSane now) l
    → All (Knows (merge_full_list now l s)) l
merge-Knows now l s on sane =
    All-map _ _ (λ e c. Covered-Knows _ e (rw (merge-config now l s) on) c) l
      (merge_covers now l s sane)

missing : (o : Option MemberEntry) (x : MemberEntry) → o ≡ none → o ≡ some x → ⊥
missing o x p q = cc

-- The rows of a well-formed table are known to it.
own-Knows : (s : Store) → IsWf s → (k : Text) (x : MemberEntry) → row k s ≡ some x → Knows s x
own-Knows s w k x h = record {
  known = x;
  found = subst (λ j. row j s ≡ some x) (row-key k x s w h) h;
  at_least = inr (refl, omega arith);
}

same_version :
    (s t : Store) (k : Text) (x y : MemberEntry)
    → IsWf s
    → IsWf t
    → row k s ≡ some x
    → row k t ≡ some y
    → Knows t x
    → Knows s y
    → (x.id.time_stamp ≡ y.id.time_stamp) × (x.incarnation ≡ y.incarnation)
same_version s t k x y v w h g a b =
    let there : a.known ≡ y =
      same_row a.known y (row k t)
        (subst (λ j. row j t ≡ some a.known) (sym (row-key k x s v h)) a.found) g in
    let here : b.known ≡ x =
      same_row b.known x (row k s)
        (subst (λ j. row j s ≡ some b.known) (sym (row-key k y t w g)) b.found) h in
    let up = subst (VersionLe x) there a.at_least in
    let down = subst (VersionLe y) here b.at_least in ground arith

-- Tables that know each other's row under `k` have the same version there.
agreed :
    (s t : Store) (k : Text)
    → IsWf s
    → IsWf t
    → ((x : MemberEntry) → row k s ≡ some x → Knows t x)
    → ((y : MemberEntry) → row k t ≡ some y → Knows s y)
    → SameVersion (row k s) (row k t)
agreed s t k v w a b = elim (Option-cases (row k s)) [
  | inl none_here ↦ elim (Option-cases (row k t)) [
    | inl none_there ↦ rw (none_here, none_there) tt
    | inr (y, g) ↦
        let c = b y g in
        absurd (
          missing (row k s) c.known none_here
            (subst (λ j. row j s ≡ some c.known) (sym (row-key k y t w g)) c.found))
  ]
  | inr (x, h) ↦ elim (Option-cases (row k t)) [
    | inl none_there ↦
        let c = a x h in
        absurd (
          missing (row k t) c.known none_there
            (subst (λ j. row j t ≡ some c.known) (sym (row-key k x s v h)) c.found))
    | inr (y, g) ↦ rw (h, g) (same_version s t k x y v w h g (a x h) (b y g))
  ]
]

module _ (sent heard back : Time) (s r : Store) where
  abbrev pinged : List MemberEntry
  pinged = (snapshot sent s).0.0

  abbrev merged : Store
  merged = merge_full_list heard pinged (snapshot heard r).1

  abbrev replied : List MemberEntry
  replied = (snapshot heard merged).0.0

  abbrev final : Store
  final = merge_full_list back replied (snapshot back (snapshot sent s).1).1

  tables_agree :
      IsWf s
      → IsWf r
      → suspicion s ≡ true
      → suspicion r ≡ true
      → All (IsSane heard) pinged
      → All (IsSane back) replied
      → (k : Text) → k ≢ key s.self_id
      → SameVersion (row k final) (row k (snapshot heard merged).1)
  unfolding snapshot
  tables_agree v w on on' sane sane' k n =
      let r' = (snapshot heard merged).1 in
      let wr : IsWf r' =
        snapshot-IsWf heard merged (merge-IsWf heard pinged _ (snapshot-IsWf heard r w)) in
      let s' = (snapshot back (snapshot sent s).1).1 in
      let ws : IsWf s' = snapshot-IsWf back _ (snapshot-IsWf sent s v) in
      let told : All (Knows r') pinged =
        All-map _ _ (snapshot-Knows heard merged) pinged
          (merge-Knows heard pinged (snapshot heard r).1 on' sane) in
      let mirrored : All (Knows r') replied =
        sent_P (Knows r') heard merged (merge-IsWf heard pinged _ (snapshot-IsWf heard r w))
          (own-Knows r' wr) in
      let before : Others (Knows r') s' =
        snapshot-Others (Knows r') (Knows-timeless r') back (snapshot sent s).1
          (λ j x _ h. rows_P (Knows r') (snapshot sent s).1.entries j x told h) in
      let others = merge-Others (Knows r') (Knows-timeless r') back replied s' mirrored before in
      let learnt = merge-Knows back replied s' on sane' in
      agreed final r' k (merge-IsWf back replied s' ws) wr
        (λ x h. others k x (λ q. n (q ∙ ap key (merge_self back replied s'))) h)
        (λ y h. rows_P (Knows final) r'.entries k y learnt h)

-- A node pings another, which merges the list of the ping and answers with its own, and the node
-- merges the list of the ACK. If suspicion is enabled at both, neither has left, no entry of the two
-- lists comes from the future and every incarnation can still grow, then both tables have rows for
-- the same endpoints, except perhaps the node's own, in the same boots and the same incarnations.
pub ping_reconciles :
    (sent heard back : Time) (nonce : ℕ) (pinger receiver : Pingack.Loop) (s r : Store)
    → IsWf s
    → IsWf r
    → suspicion s ≡ true
    → suspicion r ≡ true
    → Listens back (snapshot sent s).1
    → Listens heard r
    → All (IsSane heard) (snapshot sent s).0.0
    → All
        (IsSane back)
        (snapshot heard (merge_full_list heard (snapshot sent s).0.0 (snapshot heard r).1)).0.0
    → let ((entries, self), s') = snapshot sent s in
      let h = Pingack.handle heard (Pingack.ping_of nonce entries pinger) receiver r in
      (ack : Message) × (h.reply ≡ some ack)
      × ((k : Text)
          → k ≢ key s.self_id
          → SameVersion (row k (Pingack.handle back ack pinger s').st) (row k h.st))
unfolding Pingack.handle Pingack.dispatch
ping_reconciles sent heard back nonce pinger receiver s r v w on on' ls lr sane sane' = (
  Pingack.ack_of nonce
      (snapshot heard (merge_full_list heard (snapshot sent s).0.0 (snapshot heard r).1)).0.0
      receiver,
  rw lr refl,
  λ k n. rw (lr, ls) (tables_agree sent heard back s r v w on on' sane sane' k n),
)
