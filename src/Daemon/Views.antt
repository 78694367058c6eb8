-- ===== src/Daemon/Views.antt =====
-- The handlers of src/pkg/daemon/daemon.go that report the state of the daemon, and Close. A handler
-- that takes a snapshot sets the own heartbeat.
use failure_detector.Prelude.{ℕ, Bool, true, false, List, [], ◌∷◌, length, if◌then◌else◌}
use failure_detector.Go.Text.{Text, codes, decimal}
use failure_detector.Go.Clock.{Time}
use failure_detector.Node.{id_to_string}
use failure_detector.Config.{Config}
use failure_detector.Store.{
  State, MemberEntry, unknown, alive, suspect, failed, left, other, snapshot, enabled,
}
use failure_detector.Daemon.{Daemon, stop_pingack, stop_gossip}

-- apiMember
pub record ApiMember : Type 0 where
  pub id : Text
  pub incarnation : ℕ
  pub state : Text
  pub last_update : Text

-- The number of a state in memory, which `fmt.Sprint` prints: State has no method String.
unfoldable pub state_number : State → ℕ
state_number unknown = 0
state_number alive = 1
state_number suspect = 2
state_number failed = 3
state_number left = 4
state_number (other n) = n

abbrev pub is_suspect : State → Bool
is_suspect suspect = true
is_suspect _ = false

unfoldable pub suspects : List MemberEntry → List MemberEntry
suspects [] = []
suspects (e ∷ l) = let rest = suspects l in if is_suspect e.state then e ∷ rest else rest

-- `t.Format` of Go's time package is a parameter.
module _ (format : Time → Text) where
  -- toAPI
  abbrev pub api_member : MemberEntry → ApiMember
  api_member e = record {
    id = id_to_string e.id;
    incarnation = e.incarnation;
    state = decimal (state_number e.state);
    last_update = format e.last_update;
  }

  unfoldable pub to_api : List MemberEntry → List ApiMember
  unfolding state_number
  to_api [] = []
  to_api (e ∷ l) = api_member e ∷ to_api l

  -- /list_mem: the members and their count
  unfoldable pub list_mem : Time → Daemon → (List ApiMember × ℕ) × Daemon
  unfolding to_api
  list_mem now d =
      let ((entries, self), st) = snapshot now d.st in
      ((to_api entries, length entries), record d { st = st })

  -- /display_suspects
  unfoldable pub display_suspects : Time → Daemon → List ApiMember × Daemon
  unfolding to_api suspects
  display_suspects now d =
      let ((entries, self), st) = snapshot now d.st in
      (to_api (suspects entries), record d { st = st })

-- /get
unfoldable pub get_config : Daemon → Config
get_config d = d.cfg

-- /list_self
unfoldable pub list_self : Daemon → Text
list_self d = id_to_string d.st.self_id

-- /display_protocol: the mode, and whether suspicion is enabled
unfoldable pub display_protocol : Daemon → Text × Text
display_protocol d =
    (d.cfg.mode, if enabled d.cfg.t_suspect then codes "enabled" else codes "disabled")

-- Close, without the socket and the manager's goroutine
unfoldable pub close : Daemon → Daemon
close d = stop_gossip (stop_pingack d)
