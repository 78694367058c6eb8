-- ===== src/Store/Rank.antt =====
-- Which of two rows of one endpoint is news, and the outcomes of updateMemberEntry of
-- src/pkg/store/membership.go in these terms.
use failure_detector.Prelude.{
  ◌≤◌, ◌<◌, ◌≡◌, refl, sym, ◌⊎◌, inl, inr, Bool, true, false, ◌&&◌, none, some, arith, ltb, holds,
  ◌==◌, Bool-cases, Option-cases, if◌then◌else◌,
}
use failure_detector.Go.Clock.{Time}
use failure_detector.Node.{NodeId-discrete}
use failure_detector.Store.{
  MemberEntry, Store, key, row, put_row, enabled, accuses, take_later, normalize_boot,
  self_bump_incarnation, update_suspicion, update_existing, update_member_entry,
}

-- Rows are ordered by boot time, then by incarnation if suspicion is enabled, then by heartbeat.
abbrev SameBootLe : Bool → MemberEntry → MemberEntry → Type 0
SameBootLe true a b =
    (a.incarnation < b.incarnation)
    ⊎ ((a.incarnation ≡ b.incarnation) × (a.last_update ≤ b.last_update))
SameBootLe false a b = a.last_update ≤ b.last_update

abbrev SameBootLt : Bool → MemberEntry → MemberEntry → Type 0
SameBootLt true a b =
    (a.incarnation < b.incarnation)
    ⊎ ((a.incarnation ≡ b.incarnation) × (a.last_update < b.last_update))
SameBootLt false a b = a.last_update < b.last_update

abbrev pub RankLe : Bool → MemberEntry → MemberEntry → Type 0
RankLe sus a b =
    (a.id.time_stamp < b.id.time_stamp) ⊎ ((a.id.time_stamp ≡ b.id.time_stamp) × SameBootLe sus a b)

abbrev pub RankLt : Bool → MemberEntry → MemberEntry → Type 0
RankLt sus a b =
    (a.id.time_stamp < b.id.time_stamp) ⊎ ((a.id.time_stamp ≡ b.id.time_stamp) × SameBootLt sus a b)

pub RankLe-trans :
    (sus : Bool) (a b c : MemberEntry) → RankLe sus a b → RankLe sus b c → RankLe sus a c
RankLe-trans true a b c h k = ground arith
RankLe-trans false a b c h k = ground arith

pub RankLe-refl : (sus : Bool) (a : MemberEntry) → RankLe sus a a
RankLe-refl true a = inr (refl, inr (refl, omega arith))
RankLe-refl false a = inr (refl, omega arith)

pub RankLe-of_lt : (sus : Bool) (a b : MemberEntry) → RankLt sus a b → RankLe sus a b
RankLe-of_lt true a b h = ground arith
RankLe-of_lt false a b h = ground arith

pub not-RankLt : (sus : Bool) (a b : MemberEntry) → RankLe sus a b → ¬ RankLt sus b a
not-RankLt true a b h k = ground arith
not-RankLt false a b h k = ground arith

-- Within one boot and, with suspicion, one incarnation, the heartbeat decides.
pub SameBootLt-of_heartbeat :
    (sus : Bool) (a b : MemberEntry)
    → ((sus ≡ true) → b.incarnation ≡ a.incarnation)
    → a.last_update < b.last_update
    → SameBootLt sus a b
SameBootLt-of_heartbeat true a b h k = ground (arith, h refl)
SameBootLt-of_heartbeat false a b h k = k

pub SameBootLe-of_heartbeat :
    (sus : Bool) (a b : MemberEntry)
    → ((sus ≡ true) → a.incarnation ≡ b.incarnation)
    → a.last_update ≤ b.last_update
    → SameBootLe sus a b
SameBootLe-of_heartbeat true a b h k = ground (arith, h refl)
SameBootLe-of_heartbeat false a b h k = k

-- The switch in the store's configuration.
abbrev pub suspicion : Store → Bool
suspicion s = enabled s.config.t_suspect

-- `e` accuses the node of the store itself, in the incarnation of its row `old`.
pub record Accused (e old : MemberEntry) (s : Store) : Type 0 where
  pub switched_on : suspicion s ≡ true
  pub same_boot : e.id.time_stamp ≡ old.id.time_stamp
  pub same_incarnation : e.incarnation ≡ old.incarnation
  pub itself : e.id ≡ s.self_id
  pub verdict : accuses e.state ≡ true

-- What updateMemberEntry makes of the incoming row `e`.
pub data Outcome (now : Time) (e : MemberEntry) (s t : Store) : Type 0 where
  inserted : row (key e.id) s ≡ none → t ≡ put_row (key e.id) e s → Outcome now e s t
  rebooted :
      (old : MemberEntry)
      → row (key e.id) s ≡ some old
      → old.id.time_stamp < e.id.time_stamp
      → t ≡ put_row (key e.id) (record e { last_update = now }) s
      → Outcome now e s t
  taken :
      (old : MemberEntry)
      → row (key e.id) s ≡ some old
      → old.id.time_stamp ≡ e.id.time_stamp
      → RankLt (suspicion s) old e
      → ¬ Accused e old s
      → t ≡ put_row (key e.id) e s
      → Outcome now e s t
  refuted :
      (old : MemberEntry)
      → row (key e.id) s ≡ some old
      → Accused e old s
      → t ≡ self_bump_incarnation now s
      → Outcome now e s t
  kept :
      (old : MemberEntry)
      → row (key e.id) s ≡ some old
      → RankLe (suspicion s) e old
      → ¬ Accused e old s
      → t ≡ s
      → Outcome now e s t

module _ (now : Time) (e old : MemberEntry) (s : Store) (found : row (key e.id) s ≡ some old) where
  take_later-Outcome :
      e.id.time_stamp ≡ old.id.time_stamp
      → ((suspicion s ≡ true) → e.incarnation ≡ old.incarnation)
      → ¬ Accused e old s
      → Outcome now e s (take_later old e s)
  take_later-Outcome boot inc free = elim (Bool-cases (ltb old.last_update e.last_update)) [
    | inl later ↦
        taken old found (ground arith)
          (inr (sym boot, SameBootLt-of_heartbeat (suspicion s) old e inc (ground arith))) free
          (rw later)
    | inr other ↦
        kept old found (inr (boot, SameBootLe-of_heartbeat (suspicion s) e old inc (ground arith)))
          free (rw other)
  ]

  equal_incarnation-Outcome :
      suspicion s ≡ true
      → e.id.time_stamp ≡ old.id.time_stamp
      → e.incarnation ≡ old.incarnation
      → Outcome now e s (
          if holds (NodeId-discrete e.id s.self_id) && accuses e.state
          then self_bump_incarnation now s
          else take_later old e s)
  equal_incarnation-Outcome on boot inc =
      elim (Bool-cases (holds (NodeId-discrete e.id s.self_id) && accuses e.state)) [
        | inl accused ↦
            refuted old found
              (record {
                switched_on = on;
                same_boot = boot;
                same_incarnation = inc;
                itself = ground arith;
                verdict = ground arith;
              })
              (rw accused)
        | inr free ↦ rw free (take_later-Outcome boot (λ _. inc) (λ a. ground (arith, a)))
      ]

  update_suspicion-Outcome :
      suspicion s ≡ true
      → e.id.time_stamp ≡ old.id.time_stamp
      → Outcome now e s (update_suspicion now old e s)
  unfolding update_suspicion
  update_suspicion-Outcome on boot = elim (Bool-cases (ltb old.incarnation e.incarnation)) [
    | inl higher ↦
        taken old found (sym boot) (rw on (inr (sym boot, inl (ground arith))))
          (λ a. ground (arith, a)) (rw higher)
    | inr other ↦ rw other (elim (Bool-cases (e.incarnation == old.incarnation)) [
      | inl same ↦ rw same (equal_incarnation-Outcome on boot (ground arith))
      | inr lower ↦
          kept old found (rw on (inr (boot, inl (ground arith)))) (λ a. ground (arith, a))
            (rw lower)
    ])
  ]

  update_same_boot-Outcome :
      e.id.time_stamp ≡ old.id.time_stamp
      → Outcome now e s (if suspicion s then update_suspicion now old e s else take_later old e s)
  update_same_boot-Outcome boot = elim (Bool-cases (suspicion s)) [
    | inl on ↦ rw on (update_suspicion-Outcome on boot)
    | inr off ↦ rw off (take_later-Outcome boot (λ on. ground (arith, on)) (λ a. ground (arith, a)))
  ]

  update_existing-Outcome : Outcome now e s (update_existing now old e s)
  unfolding update_existing normalize_boot
  update_existing-Outcome = elim (Bool-cases (ltb old.id.time_stamp e.id.time_stamp)) [
    | inl newer ↦ rebooted old found (ground arith) (rw newer)
    | inr other ↦ rw other (elim (Bool-cases (ltb e.id.time_stamp old.id.time_stamp)) [
      | inl older ↦ kept old found (inl (ground arith)) (λ a. ground (arith, a)) (rw older)
      | inr same ↦ rw same (update_same_boot-Outcome (ground arith))
    ])
  ]

-- updateMemberEntry has exactly the outcomes of `Outcome`, each under its own condition.
pub update_member_entry-Outcome :
    (now : Time) (e : MemberEntry) (s : Store) → Outcome now e s (update_member_entry now e s)
unfolding update_member_entry
update_member_entry-Outcome now e s = elim (Option-cases (row (key e.id) s)) [
  | inl h ↦ inserted h (rw (h, update_member_entry))
  | inr (old, h) ↦ rw (h, update_member_entry) (update_existing-Outcome now e old s h)
]
