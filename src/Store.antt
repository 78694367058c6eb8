-- ===== src/Store.antt =====
-- src/pkg/store/membership.go: the membership table of a node. An operation takes the reading of
-- the clock and the store, and returns the new store. The lock and the log are left out: one
-- operation is one step. A pointer in the Go map is held by that map alone, so a row is a value.
pub mod Map
pub mod Invariant
pub mod Rank
pub mod Merge
pub mod Join
pub mod OwnRow
pub mod Others
pub mod Self
pub mod Settings
pub mod Precedence
use failure_detector.Prelude.{
  ℕ, ◌≡◌, Bool, true, false, not, ◌&&◌, List, [], ◌∷◌, Option, none, some, ltb, holds, length, ◌==◌,
  if◌then◌else◌, ℕ_discrete,
}
use failure_detector.Prelude.Int.{ℤ, pos, negsuc, add_u64}
use failure_detector.Prelude.Map.{lookup, insert, delete}
use failure_detector.Go.Text.{Text, codes, text_discrete}
use failure_detector.Go.Clock.{Time, Duration, after}
use failure_detector.Node.{NodeId, NodeId-discrete, endpoint_to_string}
use failure_detector.Config.{Config}

-- State. A uint8 from the wire may also be a number that no constant names.
pub data State : Type 0 where
  unknown alive suspect failed left : State
  other : ℕ → State

-- StateToString
unfoldable pub state_to_string : State → Text
state_to_string alive = codes "Alive"
state_to_string suspect = codes "Suspect"
state_to_string failed = codes "Failed"
state_to_string left = codes "Left"
state_to_string _ = codes "Unknown"

-- MemberEntry
pub record MemberEntry : Type 0 where
  pub id : NodeId
  pub incarnation : ℕ  -- uint64
  pub state : State
  pub last_update : Time

-- Store
pub record Store : Type 0 where
  pub entries : List (Text × MemberEntry)
  pub version : ℕ  -- uint64
  pub self_id : NodeId
  pub config : Config

-- The key of a row, `ID.EP.EndpointToString()`.
abbrev pub key : NodeId → Text
key id = endpoint_to_string id.ep

abbrev pub row : Text → Store → Option MemberEntry
row k s = lookup text_discrete k s.entries

abbrev pub is_left : State → Bool
is_left left = true
is_left _ = false

abbrev pub is_alive : State → Bool
is_alive alive = true
is_alive _ = false

-- `s.entries[k] = e` with `s.version++`
abbrev pub put_row : Text → MemberEntry → Store → Store
put_row k e s = record s {
  entries = insert text_discrete k e s.entries;
  version = add_u64 s.version 1;
}

-- New
unfoldable pub new : NodeId → Config → Time → Store
new self cfg now = record {
  entries =
      insert text_discrete (key self)
        (record { id = self; incarnation = 100; state = alive; last_update = now }) [];
  version = 1;
  self_id = self;
  config = cfg;
}

-- The loop of Snapshot sets the heartbeat of the own row, unless the node has left.
abbrev pub beat : NodeId → Time → MemberEntry → MemberEntry
beat self now e =
    if holds (NodeId-discrete e.id self) && not (is_left e.state)
    then record e { last_update = now }
    else e

unfoldable pub beat_rows : NodeId → Time → List (Text × MemberEntry) → List (Text × MemberEntry)
beat_rows self now [] = []
beat_rows self now ((k, e) ∷ m) = (k, beat self now e) ∷ beat_rows self now m

unfoldable pub values : List (Text × MemberEntry) → List MemberEntry
values [] = []
values ((k, e) ∷ m) = e ∷ values m

-- Snapshot: the list, the own identity, and the store with the own heartbeat set.
unfoldable pub snapshot : Time → Store → (List MemberEntry × NodeId) × Store
unfolding beat_rows values
snapshot now s =
    let rows = beat_rows s.self_id now s.entries in
    ((values rows, s.self_id), record s { entries = rows })

-- Size
unfoldable pub size : Store → ℕ
size s = length s.entries

-- Get; the zero MemberEntry of a miss is left out.
unfoldable pub get : NodeId → Store → Option MemberEntry
get id s = row (key id) s

-- `state == StateAlive || state == StateLeft`
abbrev pub refreshes : State → Bool
refreshes alive = true
refreshes left = true
refreshes _ = false

-- What `apply` writes into a row.
abbrev pub applied : Time → ℕ → State → MemberEntry → MemberEntry
applied now inc st e = record e {
  incarnation = inc;
  state = st;
  last_update = if refreshes st then now else e.last_update;
}

-- apply
unfoldable pub apply : Time → NodeId → ℕ → State → Bool → Store → Store
apply now id inc st update_version s = elim (row (key id) s) [
  | none ↦ s
  | some e ↦ record s {
    entries = insert text_discrete (key id) (applied now inc st e) s.entries;
    version = if update_version then add_u64 s.version 1 else s.version;
  }
]

-- ApplyLocked
unfoldable pub apply_locked : Time → NodeId → ℕ → State → Store → Store
unfolding apply
apply_locked now id inc st s = apply now id inc st true s

-- RemoveEntry
unfoldable pub remove_entry : NodeId → Store → Store
remove_entry id s = elim (row (key id) s) [
  | none ↦ s
  | some e ↦ record s {
    entries = delete text_discrete (key id) s.entries;
    version = add_u64 s.version 1;
  }
]

-- normalizeBoot
unfoldable pub normalize_boot : Time → MemberEntry → Store → Store
normalize_boot now e s = put_row (key e.id) (record e { last_update = now }) s

-- selfBumpIncarnation
unfoldable pub self_bump_incarnation : Time → Store → Store
self_bump_incarnation now s = elim (row (key s.self_id) s) [
  | none ↦ s
  | some e ↦
      put_row (key s.self_id)
        (record e { incarnation = add_u64 e.incarnation 1; last_update = now; state = alive }) s
]

-- SetSelfState
unfoldable pub set_self_state : Time → State → Store → Store
set_self_state now st s = elim (row (key s.self_id) s) [
  | none ↦ s
  | some e ↦ put_row (key s.self_id) (record e { state = st; last_update = now }) s
]

-- `tSuspect != 0`
abbrev pub enabled : Duration → Bool
enabled (pos n) = not (n == 0)
enabled (negsuc n) = true

-- `State == StateSuspect || State == StateFailed`
abbrev pub accuses : State → Bool
accuses suspect = true
accuses failed = true
accuses _ = false

-- The row is replaced if the incoming heartbeat is later.
abbrev pub take_later : MemberEntry → MemberEntry → Store → Store
take_later old e s = if after e.last_update old.last_update then put_row (key e.id) e s else s

-- The branch of updateMemberEntry for one boot with suspicion enabled.
unfoldable pub update_suspicion : Time → MemberEntry → MemberEntry → Store → Store
unfolding self_bump_incarnation
update_suspicion now old e s =
    if ltb old.incarnation e.incarnation
    then put_row (key e.id) e s
    else if e.incarnation == old.incarnation
    then if holds (NodeId-discrete e.id s.self_id) && accuses e.state
      then self_bump_incarnation now s
      else take_later old e s
    else s

-- The branches of updateMemberEntry for a key that has the row `old`.
unfoldable pub update_existing : Time → MemberEntry → MemberEntry → Store → Store
unfolding normalize_boot update_suspicion
update_existing now old e s =
    if ltb old.id.time_stamp e.id.time_stamp
    then normalize_boot now e s
    else if ltb e.id.time_stamp old.id.time_stamp
    then s
    else if enabled s.config.t_suspect
    then update_suspicion now old e s
    else take_later old e s

-- updateMemberEntry
unfoldable pub update_member_entry : Time → MemberEntry → Store → Store
unfolding update_existing
update_member_entry now e s = elim (row (key e.id) s) [
  | none ↦ put_row (key e.id) e s
  | some old ↦ update_existing now old e s
]

-- MergeFullList
unfoldable pub merge_full_list : Time → List MemberEntry → Store → Store
unfolding update_member_entry
merge_full_list now [] s = s
merge_full_list now (e ∷ l) s = merge_full_list now l (update_member_entry now e s)

-- Reconfigure
unfoldable pub reconfigure : Config → Store → Store
reconfigure cfg s = record s { config = cfg }
