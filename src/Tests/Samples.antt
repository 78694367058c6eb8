-- ===== src/Tests/Samples.antt =====
-- Three nodes of a cluster and the configuration of src/config.json.
use failure_detector.Prelude.{
  ℕ, [], ◌∷◌, ◌≡◌, refl, true, Option, none, some, arith, ltb, ◌==◌, if◌then◌else◌,
}
use failure_detector.Prelude.Int.{pos, negsuc, IsI64, i64_end}
use failure_detector.Go.Text.{Text, codes}
use failure_detector.Go.Clock.{Time, Duration}
use failure_detector.Go.Netip.{ip4}
use failure_detector.Node.{Endpoint, NodeId}
use failure_detector.Config.{Config, DurationText, mode_gossip}
use failure_detector.Store.{MemberEntry, State}

-- 10.0.0.n:5000
abbrev pub host : ℕ → Endpoint
host n = record { ip = ip4 10 0 0 n; port = 5000 }

abbrev pub node_a : NodeId
node_a = record { ep = host 1; time_stamp = 1000 }

abbrev pub node_b : NodeId
node_b = record { ep = host 2; time_stamp = 2000 }

abbrev pub node_c : NodeId
node_c = record { ep = host 3; time_stamp = 3000 }

abbrev pub member : NodeId → ℕ → State → Time → MemberEntry
member id inc st t = record { id = id; incarnation = inc; state = st; last_update = t }

abbrev pub sample_config : Config
sample_config = record {
  version = pos 1;
  mode = mode_gossip;
  ping_every = pos 300000000;
  ping_fanout = pos 1;
  gossip_period = pos 300000000;
  gossip_fanout = pos 1;
  t_suspect = pos 1000;
  t_fail = pos 2000;
  t_cleanup = pos 3000;
  drop_rate_recv = 0;
  self_addr = codes "a:5000";
  bind_addr = codes "0.0.0.0:5000";
  introducer_bind_addr = codes "0.0.0.0:6000";
  introducer = [];
  is_introducer = true;
  admin_http = codes ":8080";
}

-- A text of durations that can be read back: a sign and a number.
unfoldable pub toy_format : Duration → Text
toy_format (pos n) = b'+' ∷ n ∷ []
toy_format (negsuc n) = b'-' ∷ n ∷ []

unfoldable pub toy_parse : Text → Option Duration
toy_parse (sign ∷ n ∷ []) =
    if ltb n i64_end then some (if sign == b'+' then pos n else negsuc n) else none
toy_parse (a ∷ b ∷ c ∷ []) = if a == b'0' then some (pos 0) else none
toy_parse _ = none

pub toy_parse-nil : toy_parse [] ≡ none
unfolding toy_parse
toy_parse-nil = refl

pub toy_parse-zero : toy_parse (codes "0ms") ≡ some (pos 0)
unfolding toy_parse
toy_parse-zero = refl

pub toy_parse-IsI64 : (s : Text) (d : Duration) → toy_parse s ≡ some d → IsI64 d
unfolding toy_parse
toy_parse-IsI64 [] d h = absurd (ground arith)
toy_parse-IsI64 (a ∷ []) d h = absurd (ground arith)
toy_parse-IsI64 (a ∷ b ∷ []) (pos n) h = ground arith
toy_parse-IsI64 (a ∷ b ∷ []) (negsuc n) h = ground arith
toy_parse-IsI64 (a ∷ b ∷ c ∷ []) (pos n) h = ground arith
toy_parse-IsI64 (a ∷ b ∷ c ∷ []) (negsuc n) h = absurd (ground arith)
toy_parse-IsI64 (a ∷ b ∷ c ∷ e ∷ s) d h = absurd (ground arith)

pub toy_parse-format : (d : Duration) → IsI64 d → toy_parse (toy_format d) ≡ some d
unfolding toy_parse toy_format
toy_parse-format (pos n) h = ground arith
toy_parse-format (negsuc n) h = ground arith

abbrev pub toy_text : DurationText
toy_text = record {
  format = toy_format;
  parse = toy_parse;
  parse-nil = toy_parse-nil;
  parse-zero = toy_parse-zero;
  parse-IsI64 = toy_parse-IsI64;
  parse-format = toy_parse-format;
}
