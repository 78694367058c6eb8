-- ===== src/Config.antt =====
-- src/pkg/config/config.go: the node's configuration, the part of it that travels between nodes,
-- and the rules by which a node takes over another configuration.
pub mod Apply
pub mod Laws
pub mod Flags
pub mod Limits
use failure_detector.Prelude.{
  ℕ, ◌<◌, ◌≡◌, ◌≢◌, refl, Bool, true, false, not, ◌&&◌, ◌||◌, [], ◌++◌, Option, none, some, ltb,
  holds, if◌then◌else◌,
}
use failure_detector.Prelude.Int.{ℤ, pos, negsuc, ltb_ℤ, leb_ℤ, IsI64}
use failure_detector.Go.Text.{Text, codes, text_discrete}
use failure_detector.Go.Clock.{Duration}
use failure_detector.Go.Float.{Float64, zero_float, one_float, float_lt}

-- ModePingAck
abbrev pub mode_pingack : Text
mode_pingack = codes "pingack"

-- ModeGossip
abbrev pub mode_gossip : Text
mode_gossip = codes "gossip"

-- Config. Versions and fanouts are of type int; a Mode is a string.
pub record Config : Type 0 where
  pub version : ℤ
  pub mode : Text
  pub ping_every : Duration
  pub ping_fanout : ℤ
  pub gossip_period : Duration
  pub gossip_fanout : ℤ
  pub t_suspect : Duration
  pub t_fail : Duration
  pub t_cleanup : Duration
  pub drop_rate_recv : Float64
  pub self_addr : Text
  pub bind_addr : Text
  pub introducer_bind_addr : Text
  pub introducer : Text
  pub is_introducer : Bool
  pub admin_http : Text

-- ConfigDTO
pub record ConfigDto : Type 0 where
  pub version : ℤ
  pub mode : Text
  pub ping_every : Text
  pub ping_fanout : ℤ
  pub gossip_period : Text
  pub gossip_fanout : ℤ
  pub t_suspect : Text
  pub t_fail : Text
  pub t_cleanup : Text
  pub drop_rate_recv : Float64

-- Defaults, on the host of the given name
unfoldable pub defaults : Text → Config
defaults hostname = record {
  version = pos 1;
  mode = mode_pingack;
  ping_every = pos 200000000;
  ping_fanout = pos 1;
  gossip_period = pos 300000000;
  gossip_fanout = pos 3;
  t_suspect = pos 0;
  t_fail = pos 2000000000;
  t_cleanup = pos 3000000000;
  drop_rate_recv = zero_float;
  self_addr = hostname ++ codes ":5000";
  bind_addr = codes "0.0.0.0:5000";
  introducer_bind_addr = codes "0.0.0.0:6000";
  introducer = [];
  is_introducer = false;
  admin_http = codes ":8080";
}

-- The errors of ApplyDTO and ValidateClusterParams, one for each message.
pub data ConfigError : Type 0 where
  mode_missing invalid_mode : ConfigError
  ping_every_missing invalid_ping_every : ConfigError
  gossip_period_missing invalid_gossip_period : ConfigError
  t_suspect_missing invalid_t_suspect : ConfigError
  t_fail_missing invalid_t_fail : ConfigError
  t_cleanup_missing invalid_t_cleanup : ConfigError
  bad_ping_every bad_ping_fanout bad_gossip_period bad_gossip_fanout : ConfigError
  bad_t_suspect bad_t_fail bad_t_cleanup bad_drop_rate : ConfigError

-- `m != ModePingAck && m != ModeGossip`
abbrev pub bad_mode : Text → Bool
bad_mode m = not (holds (text_discrete m mode_pingack)) && not (holds (text_discrete m mode_gossip))

-- `x <= 0`
abbrev pub not_positive : ℤ → Bool
not_positive x = leb_ℤ x (pos 0)

-- `x < 0 || x > 1`
abbrev pub bad_rate : Float64 → Bool
bad_rate x = float_lt x zero_float || float_lt one_float x

-- ValidateClusterParams; `none` is the nil error
unfoldable pub validate_cluster_params : Config → Option ConfigError
validate_cluster_params c =
    if bad_mode c.mode
    then some invalid_mode
    else if not_positive c.ping_every
    then some bad_ping_every
    else if not_positive c.ping_fanout
    then some bad_ping_fanout
    else if not_positive c.gossip_period
    then some bad_gossip_period
    else if not_positive c.gossip_fanout
    then some bad_gossip_fanout
    else if ltb_ℤ c.t_suspect (pos 0)
    then some bad_t_suspect
    else if not_positive c.t_fail
    then some bad_t_fail
    else if not_positive c.t_cleanup
    then some bad_t_cleanup
    else if bad_rate c.drop_rate_recv
    then some bad_drop_rate
    else none

-- The text of durations: `d.String()` and `time.ParseDuration` of Go's time package.
pub record DurationText : Type 0 where
  pub format : Duration → Text
  pub parse : Text → Option Duration
  -- the empty text is an error
  pub parse-nil : parse [] ≡ none
  -- zero milliseconds
  pub parse-zero : parse (codes "0ms") ≡ some (pos 0)
  -- a result is an int64
  pub parse-IsI64 : (s : Text) (d : Duration) → parse s ≡ some d → IsI64 d
  -- every duration is read back from its own text
  pub parse-format : (d : Duration) → IsI64 d → parse (format d) ≡ some d
