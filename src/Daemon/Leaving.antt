-- ===== src/Daemon/Leaving.antt =====
-- /leave of src/pkg/daemon/daemon.go, and what becomes of the daemon afterwards.
use mathlib.Core.Option
use mathlib.Core.Logic.{if_pos, if_neg}
use failure_detector.Prelude.{
  ℕ, ◌≡◌, ◌≢◌, refl, sym, ◌∙◌, ap, subst, Bool, true, false, List, [], ◌∷◌, Option, none, some,
  arith, holds,
}
use failure_detector.Prelude.Int.{add_u64}
use failure_detector.Prelude.Map.{lookup, IsMap, lookup-insert, lookup-Fresh}
use failure_detector.Go.Text.{Text, text_discrete}
use failure_detector.Go.Clock.{Time}
use failure_detector.Node.{NodeId, NodeId-discrete}
use failure_detector.Config.{Config, ConfigError, DurationText}
use failure_detector.Store.{
  MemberEntry, Store, reconfigure, left, key, row, snapshot, values, apply, apply_locked, applied,
  beat,
}
use failure_detector.Store.Map.{Keyed, lookup-beat_rows, beat-id}
use failure_detector.Store.Invariant.{IsWf, apply-IsWf, snapshot-IsWf}
use failure_detector.Suspicion.Scan.{frame-apply_locked}
use failure_detector.Suspicion.Leaving.{first_row, later_row, HasLeft}
use failure_detector.Daemon.{Daemon, push_knobs, apply_runtime, adopt}
use failure_detector.Daemon.Frame.{run_mode-frame}
use failure_detector.Daemon.Admin.{leave_rows, leave}

-- The own row after /leave at the time `t`.
abbrev pub departed : Time → MemberEntry → MemberEntry
departed t x = record x { incarnation = add_u64 x.incarnation 1; state = left; last_update = t }

some-ne-none : (x : MemberEntry) → some x ≢ none
some-ne-none x h = cc

held : {P : Type 0} → (d : Dec P) → P → holds d ≡ true
held (yes p) q = refl
held (no n) q = absurd (n q)

-- Rows of other nodes are skipped.
leave_rows-none :
    (now : Time) (m : List (Text × MemberEntry)) (s : Store)
    → Keyed m
    → lookup text_discrete (key s.self_id) m ≡ none
    → leave_rows now (values m) s ≡ s
unfolding leave_rows values lookup
leave_rows-none now [] s kd h = refl
leave_rows-none now ((j, x) ∷ m) s kd h = elim (text_discrete j (key s.self_id)) [
  | yes y ↦ absurd (
      some-ne-none x (
        sym (
          if_pos (text_discrete j (key s.self_id)) y (some x)
            (lookup text_discrete (key s.self_id) m))
        ∙ h))
  | no n ↦
      let other : x.id ≢ s.self_id = λ q. n (kd.0 ∙ ap key q) in
      let rest =
        sym (
          if_neg (text_discrete j (key s.self_id)) n (some x)
            (lookup text_discrete (key s.self_id) m))
        ∙ h in
      ground (arith, other, leave_rows-none now m s kd.1 rest)
]

leave_rows_one :
    (now : Time) (m : List (Text × MemberEntry)) (s : Store) (e : MemberEntry)
    → Keyed m
    → IsMap text_discrete m
    → lookup text_discrete (key s.self_id) m ≡ some e
    → e.id ≡ s.self_id
    → leave_rows now (values m) s ≡ apply_locked now s.self_id (add_u64 e.incarnation 1) left s
unfolding leave_rows values lookup
leave_rows_one now [] s e kd im h mine = absurd (ground arith)
leave_rows_one now ((j, x) ∷ m) s e kd im h mine = elim (text_discrete j (key s.self_id)) [
  | yes y ↦
      let s' = apply_locked now s.self_id (add_u64 e.incarnation 1) left s in
      let same : s'.self_id ≡ s.self_id =
        frame-apply_locked now s.self_id (add_u64 e.incarnation 1) left s in
      let unseen =
        subst (λ k. lookup text_discrete k m ≡ none) (y ∙ ap key (sym same))
          (lookup-Fresh text_discrete j m im.0) in
      rw (first_row s.self_id e j x m h y, held (NodeId-discrete e.id s.self_id) mine)
        (leave_rows-none now m s' kd.1 unseen)
  | no n ↦
      let other : x.id ≢ s.self_id = λ q. n (kd.0 ∙ ap key q) in
      ground
        (arith, other, leave_rows_one now m s e kd.1 im.1 (later_row s.self_id e j x m h n) mine)
]

applied-HasLeft :
    (t : Time) (inc : ℕ) (s : Store) (e : MemberEntry)
    → IsWf s
    → row (key s.self_id) s ≡ some e
    → e.id ≡ s.self_id
    → HasLeft (applied t inc left e) (apply_locked t s.self_id inc left s)
unfolding apply_locked apply
applied-HasLeft t inc s e w found mine =
    let s' = apply_locked t s.self_id inc left s in
    let same : s'.self_id ≡ s.self_id = frame-apply_locked t s.self_id inc left s in
    record {
      wf = apply-IsWf t s.self_id inc left s w;
      found = rw same (
          rw (found, apply)
            (lookup-insert text_discrete (key s.self_id) (key s.self_id) (applied t inc left e)
                s.entries
              ∙ if_pos (text_discrete (key s.self_id) (key s.self_id)) refl _ _));
      mine = mine ∙ sym same;
      gone = refl;
    }

applied-beat :
    (self : NodeId) (t : Time) (x : MemberEntry)
    → applied t (add_u64 (beat self t x).incarnation 1) left (beat self t x) ≡ departed t x
applied-beat self t x = ground arith

-- /leave marks the own row, whatever its state is, in the next incarnation.
pub leave-HasLeft :
    (t : Time) (d : Daemon) (x : MemberEntry)
    → IsWf d.st
    → row (key d.st.self_id) d.st ≡ some x
    → x.id ≡ d.st.self_id
    → HasLeft (departed t x) (leave t d).st
unfolding leave snapshot
leave-HasLeft t d x w found mine =
    let s = (snapshot t d.st).1 in
    let e = beat d.st.self_id t x in
    let w' = snapshot-IsWf t d.st w in
    let here : row (key s.self_id) s ≡ some e =
      lookup-beat_rows d.st.self_id t (key d.st.self_id) d.st.entries
      ∙ ap (Option.map (beat d.st.self_id t)) found in
    let same : e.id ≡ s.self_id = beat-id d.st.self_id t x ∙ mine in
    let one = leave_rows_one t s.entries s e w'.keyed w'.is_map here same in
    rw one (
      subst (λ y. HasLeft y (apply_locked t s.self_id (add_u64 e.incarnation 1) left s))
        (applied-beat d.st.self_id t x)
        (applied-HasLeft t (add_u64 e.incarnation 1) s e w' here same))

-- What a change of the configuration does to the store.
module _ (dt : DurationText) where
  configured :
      (e : MemberEntry) (c : Config) (s : Store) → HasLeft e s → HasLeft e (reconfigure c s)
  unfolding reconfigure
  configured e c s h = record {
    wf = record { is_map = h.wf.is_map; keyed = h.wf.keyed };
    found = h.found;
    mine = h.mine;
    gone = h.gone;
  }

  pub adopt-HasLeft :
      (e : MemberEntry) (next : Config) (changed : Bool) (x : Option ConfigError) (d : Daemon)
      → HasLeft e d.st
      → HasLeft e (adopt dt (next, changed, x) d).st
  unfolding apply_runtime push_knobs
  adopt-HasLeft e next true none d h =
      configured e next _
        (subst (HasLeft e) (sym ((run_mode-frame dt d.cfg next (record d { cfg = next })).1)) h)
  adopt-HasLeft e next false none d h = h
  adopt-HasLeft e next changed (some x) d h = h
