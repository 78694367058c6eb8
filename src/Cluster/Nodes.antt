-- ===== src/Cluster/Nodes.antt =====
-- One step of one node in a cluster: the node stays up, and the rows of the others stay genuine.
use mathlib.Core.Option.{some-injective}
use failure_detector.Prelude.{
  ℕ, ◌+◌, ◌<◌, ◌≡◌, ◌≢◌, refl, false, sym, ◌∙◌, ap, subst, ◌⊎◌, inl, inr, true, List, Option, none,
  some, arith, All,
}
use failure_detector.Prelude.Int.{u64_mod}
use failure_detector.Go.Text.{Text}
use failure_detector.Go.Clock.{Time}
use failure_detector.Node.{NodeId, NodeId-discrete}
use failure_detector.Store.{
  MemberEntry, Store, suspect, failed, key, row, snapshot, merge_full_list, beat, is_left,
}
use failure_detector.Store.Map.{lookup-beat_rows}
use failure_detector.Store.Rank.{suspicion}
use failure_detector.Store.Invariant.{IsWf, merge-IsWf, snapshot-IsWf}
use failure_detector.Store.Settings.{merge-config}
use failure_detector.Store.OwnRow.{IsUp, IsOldClaim}
use failure_detector.Store.Self.{merge-IsUp, merge_self}
use failure_detector.Suspicion.{Limits, Progress, scan_once, scan_row}
use failure_detector.Suspicion.Scan.{scan_row-IsWf, scan_row-self_id, scan_row-config}
use failure_detector.Cluster.Late.{late_self, late_other, late_P}
use failure_detector.Suspicion.Judge.{judge}
use failure_detector.Suspicion.Silence.{judge_own}
use failure_detector.Suspicion.Refinement.{HasNotLeft, judged, scan_once-rows}
use failure_detector.Store.Others.{Others, beat_P, IsTimeless, merge-Others, snapshot-Others}

-- A snapshot keeps the node up, in the same incarnation.
snapshot-up :
    (now : Time) (inc : ℕ) (s : Store) (u : IsUp inc s)
    → row (key s.self_id) (snapshot now s).1 ≡ some (record u.me { last_update = now })
unfolding snapshot
snapshot-up now inc s u =
    ground
      (arith, lookup-beat_rows s.self_id now (key s.self_id) s.entries, u.found, u.itself, u.up)

-- The node `self` is up with suspicion enabled, in incarnation `inc` or later, and what it holds of
-- the others has `P`.
pub record IsSound (P : MemberEntry → Type 0) (self : NodeId) (inc : ℕ) (s : Store) : Type 0 where
  pub wf : IsWf s
  pub suspicious : suspicion s ≡ true
  pub same_self : s.self_id ≡ self
  pub up : IsUp inc s
  pub others : Others P s

-- A verdict that keeps a row changes at most its state, to suspect or failed.
pub judge_forms :
    (now : Time) (l : Limits) (self : NodeId) (e x : MemberEntry)
    → judge now l self e ≡ some x
    → (x ≡ e) ⊎ (x ≡ record e { state = suspect }) ⊎ (x ≡ record e { state = failed })
unfolding judge
judge_forms now l self e x h = ground arith

-- A verdict does not matter to `P`.
pub record IsStateless (P : MemberEntry → Type 0) : Type 0 where
  pub to_suspect : (e : MemberEntry) → P e → P (record e { state = suspect })
  pub to_failed : (e : MemberEntry) → P e → P (record e { state = failed })

judged_P :
    (P : MemberEntry → Type 0)
    → IsTimeless P
    → IsStateless P
    → (now : Time) (l : Limits) (self : NodeId) (o : Option MemberEntry) (x : MemberEntry)
    → ((e : MemberEntry) → o ≡ some e → P e)
    → judged now l self o ≡ some x
    → P x
judged_P P timeless free now l self none x p h = absurd (ground arith)
judged_P P timeless free now l self (some e) x p h =
    let b = beat self now e in
    let pb = beat_P P timeless self now e (p e refl) in
    elim (judge_forms now l self b x h) [
      | inl same ↦ rw same pb
      | inr (inl s) ↦ rw s (free.to_suspect b pb)
      | inr (inr f) ↦ rw f (free.to_failed b pb)
    ]

pub IsUp-HasNotLeft : (inc : ℕ) (s : Store) → IsUp inc s → HasNotLeft s
IsUp-HasNotLeft inc s u e found mine = ground (arith, u.found, u.up, found)

module _ (P : MemberEntry → Type 0) (timeless : IsTimeless P) (self : NodeId) (inc : ℕ) where
  pub merge-IsSound :
      (now : Time) (l : List MemberEntry) (s : Store)
      → inc + 1 < u64_mod
      → All (IsOldClaim inc self) l
      → All P l
      → IsSound P self inc s
      → IsSound P self inc (merge_full_list now l s)
  merge-IsSound now l s fits r p w =
      let r' = subst (λ i. All (IsOldClaim inc i) l) (sym w.same_self) r in
      let u = merge-IsUp now inc l s w.suspicious fits r' w.up in
      record {
        wf = merge-IsWf now l s w.wf;
        suspicious = rw (merge-config now l s) w.suspicious;
        same_self = merge_self now l s ∙ w.same_self;
        up = u;
        others = merge-Others P timeless now l s p w.others;
      }

  -- In the snapshot the own row shows the same incarnation.
  pub snapshot-IsSound :
      (now : Time) (s : Store) → IsSound P self inc s → IsSound P self inc (snapshot now s).1
  unfolding snapshot
  snapshot-IsSound now s w = record {
    wf = snapshot-IsWf now s w.wf;
    suspicious = w.suspicious;
    same_self = w.same_self;
    up = record {
      me = record w.up.me { last_update = now };
      found = snapshot-up now inc s w.up;
      itself = w.up.itself;
      up = w.up.up;
      at_least = w.up.at_least;
      can_grow = w.up.can_grow;
    };
    others = snapshot-Others P timeless now s w.others;
  }

  -- What a scan does to the own row and to a row of another node.
  module _ (now : Time) (l : Limits) (s t : Store) (same : t.self_id ≡ s.self_id) (u : IsUp inc s)
      (rows : (k : Text) → row k t ≡ judged now l s.self_id (row k s)) where
    own_found : row (key t.self_id) t ≡ some (record u.me { last_update = now })
    own_found =
        rw (same, rows (key s.self_id), u.found)
          (judge_own l now s.self_id u.me u.itself (IsUp-HasNotLeft inc s u u.me u.found u.itself))

    still-Others : IsStateless P → Others P s → Others P t
    still-Others free o k x n h =
        judged_P P timeless free now l s.self_id (row k s) x
          (λ e found. o k e (λ q. n (q ∙ ap key (sym same))) found) (sym (rows k) ∙ h)

  pub scan-IsSound :
      IsStateless P
      → (now : Time) (l : Limits) (p q : Progress) → scan_once now l p ≡ some q
      → IsSound P self inc p.st
      → IsSound P self inc q.st
  scan-IsSound free now l p q ran w =
      let (q', ran', rows, kept) = scan_once-rows now l p w.wf (IsUp-HasNotLeft inc p.st w.up) in
      subst (λ x. IsSound P self inc x.st) (some-injective q' q (sym ran' ∙ ran))
        (record {
          wf = kept.wf;
          suspicious = rw kept.same_config w.suspicious;
          same_self = kept.same_self ∙ w.same_self;
          up = record {
            me = record w.up.me { last_update = now };
            found = own_found now l p.st q'.st kept.same_self w.up rows;
            itself = w.up.itself ∙ sym kept.same_self;
            up = w.up.up;
            at_least = w.up.at_least;
            can_grow = w.up.can_grow;
          };
          others = still-Others now l p.st q'.st kept.same_self w.up rows free w.others;
        })

  -- A round of a scan on an earlier entry, which is not Left, and is about the node itself if it is
  -- about its endpoint.
  module _ (now : Time) (l : Limits) (e : MemberEntry) (p : Progress)
      (there : is_left e.state ≡ false)
      (apart : e.id ≢ p.st.self_id → key e.id ≢ key p.st.self_id) where
    late_row :
        IsWf p.st → row (key p.st.self_id) (scan_row now l e p).st ≡ row (key p.st.self_id) p.st
    late_row w = elim (NodeId-discrete e.id p.st.self_id) [
      | yes mine ↦ ap (row (key p.st.self_id)) (late_self now l e p there mine)
      | no peer ↦ late_other now l e p w there (key p.st.self_id) (apart peer)
    ]

    pub late-IsSound :
        ((x : MemberEntry)
          → row (key e.id) p.st ≡ some x
          → P x
          → P (record x { incarnation = e.incarnation; state = suspect })
            × P (record x { incarnation = e.incarnation; state = failed }))
        → IsSound P self inc p.st
        → IsSound P self inc (scan_row now l e p).st
    late-IsSound marks w =
        let same = scan_row-self_id now l e p in
        record {
          wf = scan_row-IsWf now l e p w.wf;
          suspicious = rw (scan_row-config now l e p) w.suspicious;
          same_self = same ∙ w.same_self;
          up = record {
            me = w.up.me;
            found = ap (λ i. row (key i) (scan_row now l e p).st) same ∙ late_row w.wf ∙ w.up.found;
            itself = w.up.itself ∙ sym same;
            up = w.up.up;
            at_least = w.up.at_least;
            can_grow = w.up.can_grow;
          };
          others = λ k y n h.
              late_P now l e p P w.wf there marks k y
                (λ x. w.others k x (λ q. n (q ∙ ap key (sym same)))) h;
        }
