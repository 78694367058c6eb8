-- ===== src/Daemon/Modes.antt =====
-- The modes of src/pkg/daemon/daemon.go, and what startProtocol and applyRuntime do in each.
use failure_detector.Prelude.{
  ◌+◌, ◌≡◌, ◌≢◌, ◌⊎◌, inl, inr, refl, sym, subst, ◌∙◌, true, false, none, some, arith, Option-cases,
}
use failure_detector.Go.Text.{Text, text_discrete}
use failure_detector.Config.{
  Config, DurationText, mode_pingack, mode_gossip, validate_cluster_params,
}
use failure_detector.Protocol.Gossip as Gossip
use failure_detector.Protocol.Pingack as Pingack
use failure_detector.Daemon.{
  Daemon, start_protocol, run_mode, pingack_for, gossip_for, lost, is_mode,
}

abbrev pub IsMode : Text → Type 0
IsMode m = (m ≡ mode_pingack) ⊎ (m ≡ mode_gossip)

pub valid-IsMode : (c : Config) → validate_cluster_params c ≡ none → IsMode c.mode
unfolding validate_cluster_params
valid-IsMode c h = ground arith

pub pingack-ne-gossip : is_mode mode_pingack mode_gossip ≡ false
unfolding text_discrete
pingack-ne-gossip = refl

pub gossip-ne-pingack : is_mode mode_gossip mode_pingack ≡ false
unfolding text_discrete
gossip-ne-pingack = refl

pub same_mode : (m : Text) → is_mode m m ≡ true
same_mode m = ground arith

-- `is_mode m m'`, for modes that are known
pub not_pingack : (m : Text) → m ≡ mode_gossip → is_mode m mode_pingack ≡ false
not_pingack m e = subst (λ x. is_mode x mode_pingack ≡ false) (sym e) gossip-ne-pingack

pub not_gossip : (m : Text) → m ≡ mode_pingack → is_mode m mode_gossip ≡ false
not_gossip m e = subst (λ x. is_mode x mode_gossip ≡ false) (sym e) pingack-ne-gossip

pub are_same : (m n : Text) → m ≡ n → is_mode m n ≡ true
are_same m n e = subst (λ x. is_mode m x ≡ true) e (same_mode m)

-- The loop that runs is reconfigured if the mode stays, or else replaced.
module _ (dt : DurationText) (prev next : Config) (d : Daemon) where
  pub stay_pingack :
      (l : Pingack.Loop)
      → prev.mode ≡ mode_pingack
      → next.mode ≡ mode_pingack
      → d.loop_pa ≡ some l
      → run_mode dt prev next d ≡ record d { loop_pa = some (Pingack.reconfigure next l) }
  unfolding run_mode
  stay_pingack l p n h =
      rw (are_same next.mode _ n, h, are_same prev.mode next.mode (p ∙ sym n)) refl

  pub stay_gossip :
      (l : Gossip.Loop)
      → prev.mode ≡ mode_gossip
      → next.mode ≡ mode_gossip
      → d.loop_go ≡ some l
      → run_mode dt prev next d ≡ record d { loop_go = some (Gossip.reconfigure next l) }
  unfolding run_mode
  stay_gossip l p n h =
      rw
        (
          not_pingack next.mode n,
          are_same next.mode _ n,
          h,
          are_same prev.mode next.mode (p ∙ sym n),
        )
        refl

  -- Unless the loop of the new mode already runs in the old mode, it is started.
  pub start :
      IsMode next.mode → prev.mode ≢ next.mode → run_mode dt prev next d ≡ start_protocol dt next d
  unfolding run_mode
  start m n = elim (Option-cases d.loop_pa) [
    | inl p ↦ elim (Option-cases d.loop_go) [ inl g ↦ ground arith | inr (l, g) ↦ ground arith ]
    | inr (l, p) ↦ elim (Option-cases d.loop_go) [
      | inl g ↦ ground arith
      | inr (l', g) ↦ ground arith
    ]
  ]

  pub start_pingack :
      next.mode ≡ mode_pingack
      → start_protocol dt next d ≡ record d {
        loop_pa = some (pingack_for dt next);
        loop_go = none;
        strays = d.strays + lost d.loop_pa;
        mode = next.mode;
      }
  unfolding start_protocol
  start_pingack n = rw (are_same next.mode _ n) refl

  pub start_gossip :
      next.mode ≡ mode_gossip
      → start_protocol dt next d ≡ record d {
        loop_pa = none;
        loop_go = some (gossip_for dt next);
        strays = d.strays + lost d.loop_go;
        mode = next.mode;
      }
  unfolding start_protocol
  start_gossip n = rw (not_pingack next.mode n, are_same next.mode _ n) refl

-- The two modes have different names.
pub modes-ne : (a b : Text) → a ≡ mode_pingack → b ≡ mode_gossip → a ≢ b
modes-ne a b p q e = cc (not_pingack b q, are_same b mode_pingack (sym e ∙ p))
