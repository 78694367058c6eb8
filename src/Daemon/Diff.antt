-- ===== src/Daemon/Diff.antt =====
-- logConfigDiff of src/pkg/daemon/config_diff.go, up to the alignment of the columns, with the colours
-- of src/pkg/utils/colors.go that it writes.
use failure_detector.Prelude.{
  suc, ◌≡◌, refl, Bool, true, false, not, ◌&&◌, List, [], ◌∷◌, ◌++◌, All, arith, holds,
  if◌then◌else◌,
}
use failure_detector.Prelude.Int.{ℤ, pos, negsuc, same_ℤ, same_ℤ-eq}
use failure_detector.Go.Text.{Text, codes, decimal, text_discrete}
use failure_detector.Go.Float.{Float64, is_nan, order_key}
use failure_detector.Config.{Config, DurationText}
use failure_detector.Config.Apply.{to_dto}

-- A line of the table: its four columns.
pub record Row : Type 0 where
  pub name : Text
  pub prev : Text
  pub next : Text
  pub mark : Text

abbrev pub ansi_reset : Text
ansi_reset = 0x1B ∷ codes "[0m"

abbrev pub ansi_yellow : Text
ansi_yellow = 0x1B ∷ codes "[33m"

-- The closure `add`
abbrev pub add : Text → Text → Text → Bool → Row
add name pv nv changed =
    if changed
    then record {
      name = name;
      prev = pv;
      next = ansi_yellow ++ (nv ++ ansi_reset);
      mark = 0xE2 ∷ 0x9C ∷ 0xB1 ∷ [];
    }
    else record { name = name; prev = pv; next = nv; mark = [] }

-- fmt.Sprint on an int
abbrev pub int_text : ℤ → Text
int_text (pos n) = decimal n
int_text (negsuc n) = b'-' ∷ decimal (suc n)

-- `a != b`, on texts, on integers and durations, and on float64
abbrev pub text_differs : Text → Text → Bool
text_differs a b = not (holds (text_discrete a b))

abbrev pub int_differs : ℤ → ℤ → Bool
int_differs a b = not (same_ℤ a b)

abbrev pub float_differs : Float64 → Float64 → Bool
float_differs x y = not (not (is_nan x) && not (is_nan y) && same_ℤ (order_key x) (order_key y))

-- The lines of the table; `rate` is fmt.Sprintf with "%.3f".
module _ (dt : DurationText) (rate : Float64 → Text) where
  unfoldable pub config_diff : Config → Config → List Row
  config_diff prev next =
      add (codes "Mode") prev.mode next.mode (text_differs prev.mode next.mode)
      ∷ add (codes "PingEvery") (dt.format prev.ping_every) (dt.format next.ping_every)
          (int_differs prev.ping_every next.ping_every)
      ∷ add (codes "PingFanout") (int_text prev.ping_fanout) (int_text next.ping_fanout)
          (int_differs prev.ping_fanout next.ping_fanout)
      ∷ add (codes "GossipPeriod") (dt.format prev.gossip_period) (dt.format next.gossip_period)
          (int_differs prev.gossip_period next.gossip_period)
      ∷ add (codes "GossipFanout") (int_text prev.gossip_fanout) (int_text next.gossip_fanout)
          (int_differs prev.gossip_fanout next.gossip_fanout)
      ∷ add (codes "TSuspect") (dt.format prev.t_suspect) (dt.format next.t_suspect)
          (int_differs prev.t_suspect next.t_suspect)
      ∷ add (codes "TFail") (dt.format prev.t_fail) (dt.format next.t_fail)
          (int_differs prev.t_fail next.t_fail)
      ∷ add (codes "TCleanup") (dt.format prev.t_cleanup) (dt.format next.t_cleanup)
          (int_differs prev.t_cleanup next.t_cleanup)
      ∷ add (codes "DropRateRecv") (rate prev.drop_rate_recv) (rate next.drop_rate_recv)
          (float_differs prev.drop_rate_recv next.drop_rate_recv)
      ∷ []

  abbrev IsUnmarked : Row → Type 0
  IsUnmarked r = r.mark ≡ []

  add-IsUnmarked :
      (name pv nv : Text) (changed : Bool) → IsUnmarked (add name pv nv changed) → changed ≡ false
  add-IsUnmarked name pv nv true h = absurd (ground arith)
  add-IsUnmarked name pv nv false h = refl

  same_text : (a b : Text) → text_differs a b ≡ false → a ≡ b
  same_text a b h = elim (text_discrete a b) [ yes p ↦ p | no n ↦ absurd (ground (arith, n)) ]

  same_int : (a b : ℤ) → int_differs a b ≡ false → a ≡ b
  same_int a b h = same_ℤ-eq a b (ground arith)

  text_row : (name pv nv a b : Text) → IsUnmarked (add name pv nv (text_differs a b)) → a ≡ b
  text_row name pv nv a b h = same_text a b (add-IsUnmarked name pv nv (text_differs a b) h)

  int_row : (name pv nv : Text) (a b : ℤ) → IsUnmarked (add name pv nv (int_differs a b)) → a ≡ b
  int_row name pv nv a b h = same_int a b (add-IsUnmarked name pv nv (int_differs a b) h)

  -- If the table marks no line, then the configuration that travels between nodes is the same, up to
  -- its version and the sign of a rate of zero.
  pub unmarked_lem :
      (prev next : Config)
      → All IsUnmarked (config_diff prev next)
      → record (to_dto dt prev) { version = next.version; drop_rate_recv = next.drop_rate_recv }
        ≡ to_dto dt next
  unfolding config_diff to_dto
  unmarked_lem prev next (m, (pe, (pf, (gp, (gf, (s, (f, (c, (r, u))))))))) =
      rw
        (
          text_row (codes "Mode") prev.mode next.mode prev.mode next.mode m,
          int_row _ _ _ prev.ping_every next.ping_every pe,
          int_row _ _ _ prev.ping_fanout next.ping_fanout pf,
          int_row _ _ _ prev.gossip_period next.gossip_period gp,
          int_row _ _ _ prev.gossip_fanout next.gossip_fanout gf,
          int_row _ _ _ prev.t_suspect next.t_suspect s,
          int_row _ _ _ prev.t_fail next.t_fail f,
          int_row _ _ _ prev.t_cleanup next.t_cleanup c,
        )
        refl
