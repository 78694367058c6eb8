-- ===== src/Store/OwnRow.antt =====
-- What one entry does to the own row of the table of src/pkg/store/membership.go.
use failure_detector.Prelude.{
  ℕ, ◌+◌, ◌≤◌, ◌<◌, ◌≡◌, ◌≢◌, refl, sym, ◌∙◌, ap, subst, ◌⊎◌, inl, inr, true, Option, some, arith,
}
use mathlib.Core.Logic.{if_neg}
use failure_detector.Prelude.Int.{u64_mod}
use failure_detector.Go.Text.{Text, text_discrete}
use failure_detector.Go.Clock.{Time}
use failure_detector.Node.{NodeId}
use failure_detector.Store.{
  MemberEntry, Store, alive, key, row, put_row, accuses, update_member_entry, self_bump_incarnation,
}
use failure_detector.Store.Map.{row-put_row, row-put_row_self}
use failure_detector.Store.Rank.{
  RankLt, suspicion, Accused, Outcome, inserted, rebooted, taken, refuted, kept,
  update_member_entry-Outcome,
}
use failure_detector.Store.Merge.{bumped, bump-put_row}

-- The store's own row: it is alive, in the given incarnation at least.
pub record IsUp (inc : ℕ) (s : Store) : Type 0 where
  pub me : MemberEntry
  pub found : row (key s.self_id) s ≡ some me
  pub itself : me.id ≡ s.self_id
  pub up : me.state ≡ alive
  pub at_least : inc ≤ me.incarnation
  pub can_grow : me.incarnation < u64_mod

pub row_unique : (a b : MemberEntry) (o : Option MemberEntry) → o ≡ some a → o ≡ some b → a ≡ b
row_unique a b o p q = cc

pub bump-frame :
    (now : Time) (s : Store)
    → ((self_bump_incarnation now s).config ≡ s.config)
      × ((self_bump_incarnation now s).self_id ≡ s.self_id)
unfolding self_bump_incarnation
bump-frame now s = ground arith

pub Outcome-frame :
    (now : Time) (e : MemberEntry) (s t : Store)
    → Outcome now e s t
    → (t.config ≡ s.config) × (t.self_id ≡ s.self_id)
Outcome-frame now e s t (inserted h q) = rw q (refl, refl)
Outcome-frame now e s t (rebooted x h b q) = rw q (refl, refl)
Outcome-frame now e s t (taken x h b r a q) = rw q (refl, refl)
Outcome-frame now e s t (refuted x h a q) = rw q (bump-frame now s)
Outcome-frame now e s t (kept x h r a q) = rw q (refl, refl)

-- An entry for the endpoint of `self` is about `self`, in no later incarnation than `inc`, and
-- either an accusation or says that it is alive.
abbrev pub IsOldClaim : ℕ → NodeId → MemberEntry → Type 0
IsOldClaim inc self e =
    key e.id ≡ key self
    → (e.id ≡ self) × (e.incarnation ≤ inc) × ((e.state ≡ alive) ⊎ (accuses e.state ≡ true))

module _ (now : Time) (inc : ℕ) (s : Store) (on : suspicion s ≡ true)
    (fits : inc + 1 < u64_mod) where
  -- A write under another key leaves the own row alone.
  pub other_row :
      (k : Text) (w : MemberEntry) → k ≢ key s.self_id → IsUp inc s → IsUp inc (put_row k w s)
  other_row k w n u = record {
    me = u.me;
    found =
        row-put_row k (key s.self_id) w s
        ∙ if_neg (text_discrete k (key s.self_id)) n _ _
        ∙ u.found;
    itself = u.itself;
    up = u.up;
    at_least = u.at_least;
    can_grow = u.can_grow;
  }

  -- The node of the store is accused in the incarnation of its own row.
  pub Accused-self :
      (e x : MemberEntry)
      → x.id ≡ s.self_id
      → e.id ≡ s.self_id
      → e.incarnation ≡ x.incarnation
      → accuses e.state ≡ true
      → Accused e x s
  Accused-self e x mine about same bad = record {
    switched_on = on;
    same_boot = ap (λ i. i.time_stamp) (about ∙ sym mine);
    same_incarnation = same;
    itself = about;
    verdict = bad;
  }

  -- What an accusation in no later incarnation than `inc` does to the own row.
  pub own_row :
      (e me : MemberEntry) (t : Store)
      → row (key e.id) s ≡ some me
      → me.id ≡ s.self_id
      → inc ≤ me.incarnation
      → e.id ≡ s.self_id
      → accuses e.state ≡ true
      → e.incarnation ≤ inc
      → Outcome now e s t
      → (t ≡ s) ⊎ ((e.incarnation ≡ me.incarnation) × (t ≡ self_bump_incarnation now s))
  own_row e me t f mine high about bad low (inserted h q) = absurd (cc (h, f))
  own_row e me t f mine high about bad low (rebooted x h b q) =
      let same = row_unique x me (row (key e.id) s) h f in
      absurd (ground (arith, ap (λ i. i.time_stamp) (about ∙ sym mine)))
  own_row e me t f mine high about bad low (taken x h b r a q) =
      let same = row_unique x me (row (key e.id) s) h f in
      let free = subst (λ y. ¬ Accused e y s) same a in
      let lt = subst (λ b. RankLt b me e) on (subst (λ y. RankLt (suspicion s) y e) same r) in
      absurd (
        ground (
          arith,
          ap (λ i. i.time_stamp) (about ∙ sym mine),
          λ (w : e.incarnation ≡ me.incarnation). free (Accused-self e me mine about w bad),
        ))
  own_row e me t f mine high about bad low (refuted x h a q) =
      let same = row_unique x me (row (key e.id) s) h f in
      inr (a.same_incarnation ∙ ap (λ y. y.incarnation) same, q)
  own_row e me t f mine high about bad low (kept x h r a q) = inl q

  -- An accusation is refuted, or changes nothing.
  pub accused_row-IsUp :
      (e : MemberEntry) (t : Store)
      → e.id ≡ s.self_id
      → e.incarnation ≤ inc
      → accuses e.state ≡ true
      → IsUp inc s
      → Outcome now e s t
      → IsUp inc t
  accused_row-IsUp e t about low bad u o =
      elim (own_row e u.me t (rw about u.found) u.itself u.at_least about bad low o) [
        | inl q ↦ rw q u
        | inr (same, q) ↦
            rw (q, bump-put_row now s u.me u.found)
              (record {
                me = bumped now u.me;
                found = row-put_row_self (key s.self_id) (bumped now u.me) s;
                itself = u.itself;
                up = refl;
                at_least = ground (arith, u.at_least);
                can_grow = omega arith;
              })
      ]

  -- An entry that says that the node is alive is taken over, or changes nothing.
  pub alive_row-IsUp :
      (e : MemberEntry) (t : Store)
      → e.id ≡ s.self_id
      → e.incarnation ≤ inc
      → e.state ≡ alive
      → IsUp inc s
      → Outcome now e s t
      → IsUp inc t
  alive_row-IsUp e t about low well u (inserted h q) = absurd (cc (h, ap key about, u.found))
  alive_row-IsUp e t about low well u (rebooted x h b q) =
      let same = row_unique x u.me (row (key e.id) s) h (rw about u.found) in
      absurd (ground (arith, ap (λ i. i.time_stamp) (about ∙ sym u.itself)))
  alive_row-IsUp e t about low well u (taken x h b r a q) =
      let same = row_unique x u.me (row (key e.id) s) h (rw about u.found) in
      let lt = subst (λ b. RankLt b u.me e) on (subst (λ y. RankLt (suspicion s) y e) same r) in
      rw q (record {
        me = e;
        found =
            subst (λ k. row k (put_row (key e.id) e s) ≡ some e) (ap key about)
              (row-put_row_self (key e.id) e s);
        itself = about;
        up = well;
        at_least = ground (arith, u.at_least, ap (λ i. i.time_stamp) (about ∙ sym u.itself), lt);
        can_grow = omega arith;
      })
  alive_row-IsUp e t about low well u (refuted x h a q) = cc (a.verdict, ap accuses well)
  alive_row-IsUp e t about low well u (kept x h r a q) = rw q u

  pub own_row-IsUp :
      (e : MemberEntry) (t : Store)
      → key e.id ≡ key s.self_id
      → IsOldClaim inc s.self_id e
      → IsUp inc s
      → Outcome now e s t
      → IsUp inc t
  own_row-IsUp e t p r u o =
      let (about, low, says) = r p in
      elim says [
        | inl well ↦ alive_row-IsUp e t about low well u o
        | inr bad ↦ accused_row-IsUp e t about low bad u o
      ]

  pub foreign_row-IsUp :
      (e : MemberEntry) (t : Store)
      → key e.id ≢ key s.self_id
      → IsUp inc s
      → Outcome now e s t
      → IsUp inc t
  foreign_row-IsUp e t n u (inserted h q) = rw q (other_row (key e.id) e n u)
  foreign_row-IsUp e t n u (rebooted x h b q) = rw q (other_row (key e.id) _ n u)
  foreign_row-IsUp e t n u (taken x h b r a q) = rw q (other_row (key e.id) e n u)
  foreign_row-IsUp e t n u (refuted x h a q) = absurd (n (ap key a.itself))
  foreign_row-IsUp e t n u (kept x h r a q) = rw q u

  pub update-IsUp :
      (e : MemberEntry)
      → IsOldClaim inc s.self_id e
      → IsUp inc s
      → IsUp inc (update_member_entry now e s)
  update-IsUp e r u =
      let o = update_member_entry-Outcome now e s in
      elim (text_discrete (key e.id) (key s.self_id)) [
        | yes p ↦ own_row-IsUp e _ p r u o
        | no n ↦ foreign_row-IsUp e _ n u o
      ]
