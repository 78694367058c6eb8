-- ===== src/Store/Merge.antt =====
-- One step of MergeFullList of src/pkg/store/membership.go: the row that it writes ranks above the
-- incoming row and above the row before.
use failure_detector.Prelude.{
  ◌-◌, ◌≤◌, ◌<◌, ◌≡◌, refl, sym, ◌∙◌, ap, ◌⊎◌, inl, inr, Option, some, arith,
}
use mathlib.Core.Logic.{if_neg}
use failure_detector.Prelude.Int.{u64_mod, add_u64}
use failure_detector.Go.Text.{Text, text_discrete}
use failure_detector.Go.Clock.{Time}
use failure_detector.Store.{
  MemberEntry, Store, alive, key, row, put_row, self_bump_incarnation, update_member_entry,
}
use failure_detector.Store.Map.{row-put_row, row-put_row_self}
use failure_detector.Store.Rank.{
  RankLe, RankLe-refl, RankLe-of_lt, SameBootLe-of_heartbeat, suspicion, Accused, Outcome, inserted,
  rebooted, taken, refuted, kept, update_member_entry-Outcome,
}

-- The row after `SelfBumpIncarnation`.
abbrev pub bumped : Time → MemberEntry → MemberEntry
bumped now e = record e { incarnation = add_u64 e.incarnation 1; last_update = now; state = alive }

pub bump-put_row :
    (now : Time) (s : Store) (x : MemberEntry)
    → row (key s.self_id) s ≡ some x
    → self_bump_incarnation now s ≡ put_row (key s.self_id) (bumped now x) s
unfolding self_bump_incarnation
bump-put_row now s x h = rw (h, self_bump_incarnation)

-- An incarnation that can still grow.
abbrev pub CanGrow : MemberEntry → Type 0
CanGrow e = e.incarnation < u64_mod - 1

-- An incoming row that does not come from the future, in an incarnation that can still grow.
pub record IsSane (now : Time) (e : MemberEntry) : Type 0 where
  pub not_future : e.last_update ≤ now
  pub can_grow : CanGrow e

-- The store `t` has a row for the endpoint of `e`, and `e` is no news against it.
pub record Covered (t : Store) (e : MemberEntry) : Type 0 where
  pub at_least : MemberEntry
  pub found : row (key e.id) t ≡ some at_least
  pub no_news : RankLe (suspicion t) e at_least

-- One write under the key of `e`, by a row that ranks above the row before, and above `e` unless that
-- comes from the future.
pub record Write (now : Time) (e : MemberEntry) (s t : Store) : Type 0 where
  pub written : MemberEntry
  pub state_after : t ≡ put_row (key e.id) written s
  pub covers : e.last_update ≤ now → RankLe (suspicion s) e written
  pub rises : (old : MemberEntry) → row (key e.id) s ≡ some old → RankLe (suspicion s) old written

pub same_row : (a b : MemberEntry) (o : Option MemberEntry) → o ≡ some a → o ≡ some b → a ≡ b
same_row a b o p q = cc

-- The refuting row ranks above any row of that boot and incarnation.
pub bumped_rises :
    (now : Time) (e x : MemberEntry) (s : Store)
    → CanGrow e
    → Accused e x s
    → (y : MemberEntry) → x.id.time_stamp ≡ y.id.time_stamp
    → y.incarnation ≡ x.incarnation
    → RankLe (suspicion s) y (bumped now x)
bumped_rises now e x s grows a y boot inc =
    rw (a.switched_on) (inr (sym boot, inl (ground (arith, a.same_incarnation, grows))))

pub Outcome-Write :
    (now : Time) (e : MemberEntry) (s t : Store)
    → CanGrow e
    → Outcome now e s t
    → ((t ≡ s) × Covered s e) ⊎ Write now e s t
Outcome-Write now e s t grows (inserted h q) = inr (record {
  written = e;
  state_after = q;
  covers = λ past. RankLe-refl (suspicion s) e;
  rises = λ old k. cc (h, k);
})
Outcome-Write now e s t grows (rebooted x h b q) = inr (record {
  written = record e { last_update = now };
  state_after = q;
  covers = λ past. inr (refl, SameBootLe-of_heartbeat (suspicion s) e _ (λ _. refl) past);
  rises = λ old k. rw (same_row old x _ k h) (inl b);
})
Outcome-Write now e s t grows (taken x h b r a q) = inr (record {
  written = e;
  state_after = q;
  covers = λ past. RankLe-refl (suspicion s) e;
  rises = λ old k. rw (same_row old x _ k h) (RankLe-of_lt (suspicion s) x e r);
})
Outcome-Write now e s t grows (refuted x h a q) = inr (record {
  written = bumped now x;
  state_after =
      q
      ∙ bump-put_row now s x (rw (← a.itself) h)
      ∙ ap (λ k. put_row k (bumped now x) s) (ap key (sym a.itself));
  covers = λ past. bumped_rises now e x s grows a e (sym a.same_boot) a.same_incarnation;
  rises = λ old k. rw (same_row old x _ k h) (bumped_rises now e x s grows a x refl refl);
})
Outcome-Write now e s t grows (kept x h r a q) =
    inl (q, record { at_least = x; found = h; no_news = r })

module _ (now : Time) (e : MemberEntry) (s : Store) (grows : CanGrow e) where
  pub update-suspicion : suspicion (update_member_entry now e s) ≡ suspicion s
  update-suspicion = elim (Outcome-Write now e s _ grows (update_member_entry-Outcome now e s)) [
    | inl (q, c) ↦ rw q
    | inr w ↦ rw w.state_after
  ]

  pub update-self_id : (update_member_entry now e s).self_id ≡ s.self_id
  update-self_id = elim (Outcome-Write now e s _ grows (update_member_entry-Outcome now e s)) [
    | inl (q, c) ↦ rw q
    | inr w ↦ rw w.state_after
  ]

  pub update-Covered : e.last_update ≤ now → Covered (update_member_entry now e s) e
  update-Covered past = elim (Outcome-Write now e s _ grows (update_member_entry-Outcome now e s)) [
    | inl (q, c) ↦ rw q c
    | inr w ↦ rw w.state_after (record {
      at_least = w.written;
      found = row-put_row_self (key e.id) w.written s;
      no_news = w.covers past;
    })
  ]

  -- A row stays where it is, or one of a higher rank takes its place.
  pub update-rises :
      (k : Text) (old : MemberEntry)
      → row k s ≡ some old
      → (new : MemberEntry) × (row k (update_member_entry now e s) ≡ some new)
        × RankLe (suspicion s) old new
  update-rises k old h =
      elim (Outcome-Write now e s _ grows (update_member_entry-Outcome now e s)) [
        | inl (q, c) ↦ (old, rw q h, RankLe-refl (suspicion s) old)
        | inr w ↦ elim (text_discrete (key e.id) k) [
          | yes p ↦ (
            w.written,
            rw (w.state_after, p) (row-put_row_self k w.written s),
            w.rises old (rw p h),
          )
          | no p ↦ (
            old,
            rw w.state_after (
                row-put_row (key e.id) k w.written s
                ∙ if_neg (text_discrete (key e.id) k) p (some w.written) (row k s)
                ∙ h),
            RankLe-refl (suspicion s) old,
          )
        ]
      ]
