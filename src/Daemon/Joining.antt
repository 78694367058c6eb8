-- ===== src/Daemon/Joining.antt =====
-- joinCluster of src/pkg/daemon/daemon.go: it tries until the introducer answers. The attempts, and
-- the readings of the clock, are given.
use failure_detector.Prelude.{
  ◌≡◌, refl, List, [], ◌∷◌, ◌++◌, Option, none, some, All, if◌then◌else◌,
}
use failure_detector.Go.Clock.{Time}
use failure_detector.Config.{Config, DurationText}
use failure_detector.Config.Apply.{apply_remote}
use failure_detector.Store.{Store}
use failure_detector.Store.Merge.{IsSane, Covered}
use failure_detector.Store.Join.{merge_covers}
use failure_detector.Wire.{JoinResponse}
use failure_detector.Daemon.{Daemon, initial, start_protocol, join_request, join, adopt}
use failure_detector.Daemon.Join.{adopt-live}

-- A round of the loop: no connection, a request or a response that failed, or a response.
pub data Attempt : Type 0 where
  no_connection : Attempt
  request_failed : Time → Attempt
  response_failed : Time → Attempt
  answered : Time → Time → JoinResponse → Attempt

module _ (dt : DurationText) where
  -- joinCluster; `none` is a loop that still runs after these attempts.
  unfoldable pub join_cluster : List Attempt → Daemon → Option Daemon
  join_cluster [] d = none
  join_cluster (no_connection ∷ tries) d = join_cluster tries d
  join_cluster (request_failed now ∷ tries) d = join_cluster tries (join_request dt now d).1
  join_cluster (response_failed now ∷ tries) d = join_cluster tries (join_request dt now d).1
  join_cluster (answered now later resp ∷ tries) d =
      some (join dt later resp (join_request dt now d).1)

  abbrev pub started : Config → Option Daemon → Option Daemon
  started cfg none = none
  started cfg (some d) = some (start_protocol dt cfg d)

  -- Run, for the store that was made; the servers that it starts are not modelled.
  unfoldable pub run : List Attempt → Config → Store → Option Daemon
  unfolding join_cluster
  run tries cfg st =
      if cfg.is_introducer
      then some (start_protocol dt cfg (initial cfg st))
      else started cfg (join_cluster tries (initial cfg st))

abbrev pub IsFailure : Attempt → Type 0
IsFailure (answered now later resp) = ⊥
IsFailure _ = Unit {0}

module _ (dt : DurationText) where
  join_cluster_pending :
      (tries : List Attempt) (d : Daemon) → All IsFailure tries → join_cluster dt tries d ≡ none
  unfolding join_cluster
  join_cluster_pending [] d h = refl
  join_cluster_pending (no_connection ∷ tries) d h = join_cluster_pending tries d h.1
  join_cluster_pending (request_failed now ∷ tries) d h =
      join_cluster_pending tries (join_request dt now d).1 h.1
  join_cluster_pending (response_failed now ∷ tries) d h =
      join_cluster_pending tries (join_request dt now d).1 h.1
  join_cluster_pending (answered now later resp ∷ tries) d h = elim (h.0) [ ]

  join_answered :
      (now later : Time) (resp : JoinResponse) (d : Daemon)
      → All (IsSane later) resp.list
      → let d' = join dt later resp (join_request dt now d).1 in
        (d'.cfg ≡ (apply_remote dt d.cfg resp.config_dto).0) × All (Covered d'.st) resp.list
  unfolding join join_request
  join_answered now later resp d h =
      let (next, changed, e) = apply_remote dt d.cfg resp.config_dto in
      let d0 = (join_request dt now d).1 in
      (
        adopt-live dt next changed e d0,
        merge_covers later resp.list (adopt dt (next, changed, e) d0).st h,
      )

  -- joinCluster goes on as long as the attempts fail, and it returns with the first response, whatever
  -- failed before and whatever would come after: the configuration is then that of the response, if
  -- it can be taken over, and every entry of its list is old news, if none comes from the future and
  -- every incarnation can still grow.
  pub join_cluster_returns :
      (tries rest : List Attempt) (now later : Time) (resp : JoinResponse) (d : Daemon)
      → All IsFailure tries
      → All (IsSane later) resp.list
      → (join_cluster dt tries d ≡ none)
        × ((d' : Daemon) × (join_cluster dt (tries ++ (answered now later resp ∷ rest)) d ≡ some d')
            × (d'.cfg ≡ (apply_remote dt d.cfg resp.config_dto).0)
            × All (Covered d'.st) resp.list)
  unfolding join_cluster join_request
  join_cluster_returns [] rest now later resp d h sane =
      let (c, v) = join_answered now later resp d sane in
      (refl, (join dt later resp (join_request dt now d).1, refl, c, v))
  join_cluster_returns (no_connection ∷ tries) rest now later resp d h sane =
      join_cluster_returns tries rest now later resp d h.1 sane
  join_cluster_returns (request_failed t ∷ tries) rest now later resp d h sane =
      join_cluster_returns tries rest now later resp (join_request dt t d).1 h.1 sane
  join_cluster_returns (response_failed t ∷ tries) rest now later resp d h sane =
      join_cluster_returns tries rest now later resp (join_request dt t d).1 h.1 sane
  join_cluster_returns (answered t u r ∷ tries) rest now later resp d h sane = elim (h.0) [ ]
