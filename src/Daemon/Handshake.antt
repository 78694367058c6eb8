-- ===== src/Daemon/Handshake.antt =====
-- A join of src/pkg/daemon/daemon.go from end to end: joinCluster asks, handleJoin answers, and
-- joinCluster takes the answer.
use failure_detector.Prelude.{
  ◌≡◌, ◌≤◌, ◌∙◌, ap, ◌⊎◌, inl, inr, Bool-cases, List, [], ◌∷◌, none, true, false, arith, All, Bool,
}
use mathlib.Core.Option
use failure_detector.Prelude.Int.{leb_ℤ, ◌<ℤ◌, ◌≤ℤ◌}
use failure_detector.Go.Clock.{Time}
use failure_detector.Node.{NodeId}
use failure_detector.Config.{Config, DurationText, validate_cluster_params}
use failure_detector.Config.Apply.{apply_remote, to_dto}
use failure_detector.Config.Laws.{InRange, with_cluster, apply_dto-to_dto, apply_dto_old}
use failure_detector.Store.{MemberEntry, Store, key, beat, snapshot, merge_full_list}
use failure_detector.Store.Map.{lookup-beat_rows}
use failure_detector.Store.Rank.{RankLe, suspicion}
use failure_detector.Store.Merge.{IsSane, Covered}
use failure_detector.Store.Join.{merge_covers}
use failure_detector.Daemon.{Daemon, adopt, join_request, handle_join, join}
use failure_detector.Daemon.Join.{adopt-live}

beat-RankLe :
    (b : Bool) (self : NodeId) (now : Time) (e x : MemberEntry)
    → e.last_update ≤ now
    → RankLe b e x
    → RankLe b e (beat self now x)
beat-RankLe true self now e x past h = ground arith
beat-RankLe false self now e x past h = ground arith

-- What is old news stays old news when the own heartbeat is set.
snapshot-Covered :
    (now : Time) (s : Store) (e : MemberEntry)
    → e.last_update ≤ now
    → Covered s e
    → Covered (snapshot now s).1 e
unfolding snapshot
snapshot-Covered now s e past c = record {
  at_least = beat s.self_id now c.at_least;
  found =
      lookup-beat_rows s.self_id now (key e.id) s.entries
      ∙ ap (Option.map (beat s.self_id now)) c.found;
  no_news = beat-RankLe (suspicion s) s.self_id now e c.at_least past c.no_news;
}

snapshot-All :
    (now : Time) (s : Store) (l : List MemberEntry)
    → All (IsSane now) l
    → All (Covered s) l
    → All (Covered (snapshot now s).1) l
snapshot-All now s [] sane h = tt
snapshot-All now s (e ∷ l) sane h =
    (snapshot-Covered now s e sane.0.not_future h.0, snapshot-All now s l sane.1 h.1)

module _ (dt : DurationText) where
  -- What a node with the configuration `d` makes of that of the introducer.
  taken_over :
      (i d : Config)
      → validate_cluster_params i ≡ none
      → InRange i
      → ((d.version <ℤ i.version) × ((apply_remote dt d (to_dto dt i)).0 ≡ with_cluster i d))
        ⊎ ((i.version ≤ℤ d.version) × ((apply_remote dt d (to_dto dt i)).0 ≡ d))
  unfolding apply_remote to_dto
  taken_over i d valid range = elim (Bool-cases (leb_ℤ i.version d.version)) [
    | inl old ↦ inr (ground arith, ap (λ r. r.0) (apply_dto_old dt d (to_dto dt i) (ground arith)))
    | inr newer ↦
        inl (ground arith, ap (λ r. r.0) (apply_dto-to_dto dt i d valid range (ground arith)))
  ]

  -- A node asks an introducer, with a valid configuration whose durations are int64 values, and takes
  -- its answer. If no entry of the two lists comes from the future and every incarnation can still
  -- grow, then each knows the list that the other sent. The cluster-wide part of the introducer's
  -- configuration is taken over whole if its version is the higher one; at an equal or a lower version
  -- the node keeps its own configuration.
  pub join_round :
      (sent heard back : Time) (i d : Daemon)
      → validate_cluster_params i.cfg ≡ none
      → InRange i.cfg
      → All (IsSane heard) (join_request dt sent d).0.list
      → All (IsSane back) (handle_join dt heard (join_request dt sent d).0 i).0.list
      → let (req, d1) = join_request dt sent d in
        let (resp, i') = handle_join dt heard req i in
        let d' = join dt back resp d1 in
        All (Covered i'.st) req.list
        × All (Covered d'.st) resp.list
        × (((d.cfg.version <ℤ i.cfg.version) × (d'.cfg ≡ with_cluster i.cfg d.cfg))
            ⊎ ((i.cfg.version ≤ℤ d.cfg.version) × (d'.cfg ≡ d.cfg)))
  unfolding join_request handle_join join
  join_round sent heard back i d valid range sane sane' =
      let (next, changed, e) = apply_remote dt d.cfg (to_dto dt i.cfg) in
      let entries = (snapshot sent d.st).0.0 in
      let d1 : Daemon = record d { st = (snapshot sent d.st).1 } in
      let live = adopt-live dt next changed e d1 in
      (
        snapshot-All heard (merge_full_list heard entries i.st) entries sane
            (merge_covers heard entries i.st sane),
        merge_covers back _ (adopt dt (next, changed, e) d1).st sane',
        elim (taken_over i.cfg d.cfg valid range) [
          | inl (newer, taken) ↦ inl (newer, live ∙ taken)
          | inr (old, kept) ↦ inr (old, live ∙ kept)
        ],
      )
